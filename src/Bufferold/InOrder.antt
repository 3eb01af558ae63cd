-- ===== src/Bufferold/InOrder.antt =====
-- bufferold.c: the calls of `processData`, what they answer and what they write.
use cpe_464_proj.Base.{
  ℕ, zero, suc, ◌+◌, ◌%◌, ◌≤◌, ◌<◌, ◌≡◌, refl, sym, ap, ap₂, subst, ◌∙◌, List, [], ◌∷◌, ◌++◌,
  Option, Bool, true, false, not, ◌||◌, arith, length, ltb, leb, ◌==◌, All, All-set, All-get_or,
  All-replicate, if◌then◌else◌, inc32, u32_mod, Bool-cases, inl, inr, ℤ,
}
use cpe_464_proj.Buffer.Delivery.{stream, IsChunk, first_bytes-first_bytes}
use cpe_464_proj.Bufferold.{
  Buffer, BufferPacket, no_packet, Response, failed, buffer_set_up, write_data, packet_at,
  in_buffer_window, is_bad_len, buffer_store_packet, buffer_has_packet, slide_loop,
  buffer_write_slide, release_due, keep_early, process_data,
}
use cpe_464_proj.Bufferold.Slide.{write_data-Wrote, slide_step, has_packet-is_active}

-- A payload that came with its number.
pub record Arrival : Type 0 where
  pub seq : ℕ
  pub payload : List ℕ
  pub len : ℤ

abbrev pub is_failed : Response → Bool
is_failed failed = true
is_failed _ = false

-- Calls of `processData` until one fails, and whether none does.
abbrev pub process_all : Buffer → List Arrival → Bool × Buffer
process_all b [] = (true, b)
process_all b (a ∷ rest) =
    let (response, out) = process_data b a.seq a.payload a.len in
    let later = process_all out rest in if is_failed response then (false, out) else later

module _ (chunk : ℕ → List ℕ) (limit : ℕ) where
  -- An active slot holds the chunk of its number.
  abbrev Holds : BufferPacket → Type 0
  Holds p = p.active ≡ true → IsChunk chunk limit p.seq_num p.bytes p.data_len

  -- The first `n` chunks have been written, and nothing else; the slots hold chunks.
  pub record Delivered (n : ℕ) (b : Buffer) : Type 0 where
    pub next : b.lower ≡ n
    pub within : n ≤ limit
    pub file : b.written ≡ stream chunk n
    pub slots : All Holds b.packets

  abbrev pub Advances : ℕ → Buffer → Type 0
  Advances n b = (m : ℕ) × (n ≤ m) × Delivered m b

  slide_step-Delivered :
      (n : ℕ) (b : Buffer)
      → limit < u32_mod
      → Delivered n b
      → buffer_has_packet b b.lower ≡ true
      → (write_data b (packet_at b b.lower).bytes (packet_at b b.lower).data_len).0 ≡ true
      → Delivered (suc n) (slide_step b)
  slide_step-Delivered n b small d here good =
      let p = packet_at b b.lower in
      let w = write_data-Wrote b p.bytes p.data_len in
      let (active, number) = has_packet-is_active b b.lower here in
      let due : IsChunk chunk limit p.seq_num p.bytes p.data_len =
        All-get_or Holds b.packets _ no_packet d.slots (λ e. absurd (cc)) active in
      record {
        next = omega (arith, w.same_lower, d.next, due.0, number, small);
        within = omega (arith, due.0, number, d.next);
        file = w.whole good ∙ ap₂ ◌++◌ d.file (due.1 ∙ ap chunk (number ∙ d.next));
        slots =
            All-set Holds _ _ _ (subst (All Holds) (sym w.same_packets) d.slots) (λ e. absurd (cc));
      }

  slide_loop-Delivered :
      (fuel n : ℕ) (b : Buffer)
      → limit < u32_mod
      → Delivered n b
      → (slide_loop fuel b).0 ≡ true
      → Advances n (slide_loop fuel b).1
  unfolding slide_loop
  slide_loop-Delivered zero n b small d = λ ok. (n, omega arith, d)
  slide_loop-Delivered (suc fuel) n b small d = elim (Bool-cases (buffer_has_packet b b.lower)) [
    | inr gone ↦ rw gone (λ ok. (n, omega arith, d))
    | inl here ↦
        let wrote = write_data b (packet_at b b.lower).bytes (packet_at b b.lower).data_len in
        elim (Bool-cases wrote.0) [
          | inr bad ↦ rw (here, bad) (λ ok. absurd (cc))
          | inl good ↦
              rw (here, good)
                (λ ok.
                  let (m, le, d') =
                    slide_loop-Delivered fuel (suc n) (slide_step b) small
                      (slide_step-Delivered n b small d here good) ok in
                  (m, omega arith, d'))
        ]
  ]

  -- The call on the packet that is due.
  release_due-Delivered :
      (n : ℕ) (b : Buffer)
      → limit < u32_mod
      → n < limit
      → b.lower ≡ n
      → b.written ≡ stream chunk (suc n)
      → All Holds b.packets
      → is_failed (release_due b).0 ≡ false
      → Advances n (release_due b).1
  unfolding release_due buffer_write_slide
  release_due-Delivered n b small lt next file slots =
      let lower = inc32 b.lower in
      let moved : Buffer = record b { lower = lower; upper = (lower + b.buffer_size) % u32_mod } in
      let at : Delivered (suc n) moved = record {
        next = omega (arith, next);
        within = lt;
        file = file;
        slots = slots;
      } in
      elim (Bool-cases (slide_loop (length b.packets) moved).0) [
        | inr bad ↦ rw bad (λ ok. absurd (cc))
        | inl good ↦ rw good (λ ok.
            let (m, le, d) = slide_loop-Delivered (length b.packets) (suc n) moved small at good in
            (m, omega arith, d))
      ]

  -- A packet ahead of the one that is due.
  keep_early-Delivered :
      (n : ℕ) (b : Buffer) (seq : ℕ) (payload : List ℕ) (len : ℤ)
      → Delivered n b
      → IsChunk chunk limit seq payload len
      → Delivered n (keep_early b seq payload len).1
  unfolding keep_early buffer_store_packet
  keep_early-Delivered n b seq payload len d c = elim (Bool-cases (buffer_has_packet b seq)) [
    | inl here ↦ rw here d
    | inr gone ↦ elim (Bool-cases (not (in_buffer_window b seq) || is_bad_len len)) [
      | inl bad ↦ rw (gone, bad) d
      | inr good ↦
          rw (gone, good)
            (record {
              next = d.next;
              within = d.within;
              file = d.file;
              slots =
                  All-set Holds b.packets _ _ d.slots
                    (λ _. (c.0, first_bytes-first_bytes len payload ∙ c.1));
            })
    ]
  ]

  process_data-Delivered :
      (n : ℕ) (b : Buffer) (seq : ℕ) (payload : List ℕ) (len : ℤ)
      → limit < u32_mod
      → Delivered n b
      → IsChunk chunk limit seq payload len
      → is_failed (process_data b seq payload len).0 ≡ false
      → Advances n (process_data b seq payload len).1
  unfolding process_data
  process_data-Delivered n b seq payload len small d c =
      let stay : Advances n b = (n, omega arith, d) in
      elim (Bool-cases (ltb seq b.lower)) [
        | inl late ↦ rw late (λ ok. stay)
        | inr not_late ↦ elim (Bool-cases (leb b.upper seq)) [
          | inl outside ↦ rw (not_late, outside) (λ ok. stay)
          | inr inside ↦ elim (Bool-cases (seq == b.lower)) [
            | inr early ↦ elim (Bool-cases (ltb b.lower seq)) [
              | inl ahead ↦
                  rw (not_late, inside, early, ahead)
                    (λ ok. (n, omega arith, keep_early-Delivered n b seq payload len d c))
              | inr never ↦ rw (not_late, inside, early, never) (λ ok. stay)
            ]
            | inl due ↦
                let w = write_data-Wrote b payload len in
                elim (Bool-cases (write_data b payload len).0) [
                  | inr bad ↦ rw (not_late, inside, due, bad) (λ ok. absurd (cc))
                  | inl good ↦
                      let number : seq ≡ n = ground (arith, d.next) in
                      rw (not_late, inside, due, good)
                        (release_due-Delivered n (write_data b payload len).1 small
                          (omega (arith, c.0)) (w.same_lower ∙ d.next)
                          (w.whole good ∙ ap₂ ◌++◌ d.file (c.1 ∙ ap chunk number))
                          (subst (All Holds) (sym w.same_packets) d.slots))
                ]
          ]
        ]
      ]

  process_all-Delivered :
      (arrivals : List Arrival) (n : ℕ) (b : Buffer)
      → limit < u32_mod
      → Delivered n b
      → All (λ a. IsChunk chunk limit a.seq a.payload a.len) arrivals
      → (process_all b arrivals).0 ≡ true
      → Advances n (process_all b arrivals).1
  process_all-Delivered [] n b small d g = λ ok. (n, omega arith, d)
  process_all-Delivered (a ∷ rest) n b small d g =
      let out = process_data b a.seq a.payload a.len in
      elim (Bool-cases (is_failed out.0)) [
        | inl bad ↦ rw bad (λ ok. absurd (cc))
        | inr good ↦ rw good (λ ok.
            let (m, le, d') = process_data-Delivered n b a.seq a.payload a.len small d g.0 good in
            let (k, le', d'') = process_all-Delivered rest m out.1 small d' g.1 ok in
            (k, omega arith, d''))
      ]

  -- The first reorder buffer writes in order too: from a new buffer of any size, whatever
  -- processData is called with, if each payload is the chunk of its number, for a file of fewer
  -- than 2^32 chunks, and no call fails, then the bytes written are the first n chunks in order,
  -- each once, for some n up to the number of chunks, and number n is due next.
  pub process_data_in_order :
      (size : ℕ) (writes : List (Option ℕ)) (arrivals : List Arrival)
      → limit < u32_mod
      → All (λ a. IsChunk chunk limit a.seq a.payload a.len) arrivals
      → (process_all (buffer_set_up size writes) arrivals).0 ≡ true
      → let out = (process_all (buffer_set_up size writes) arrivals).1 in
        (n : ℕ) × (n ≤ limit) × (out.lower ≡ n) × (out.written ≡ stream chunk n)
  unfolding buffer_set_up
  process_data_in_order size writes arrivals small g ok =
      let start : Delivered 0 (buffer_set_up size writes) = record {
        next = refl;
        within = omega arith;
        file = refl;
        slots = All-replicate Holds size no_packet (λ e. absurd (cc));
      } in
      let (n, _, d) = process_all-Delivered arrivals 0 _ small start g ok in
      (n, d.within, d.next, d.file)
