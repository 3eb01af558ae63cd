-- ===== src/Bufferold/Answers.antt =====
-- bufferold.c: what `processData` tells its caller.
use cpe_464_proj.Base.{
  ℕ, ◌+◌, ◌%◌, ◌≤◌, ◌<◌, ◌≡◌, refl, ◌⊎◌, List, true, false, not, ◌||◌, arith, length, ltb, leb,
  ◌==◌, get_or-set_self, inc32, u32_mod, Bool-cases, inl, inr, ℤ,
}
use native.Mathlib.Nat.{mod-lt}
use cpe_464_proj.Bufferold.{
  Buffer, no_packet, Response, failed, send_ignore, send_rr, send_srej, write_data,
  in_buffer_window, is_bad_len, buffer_store_packet, buffer_has_packet, buffer_write_slide,
  release_due, keep_early, process_data,
}
use cpe_464_proj.Bufferold.Slide.{buffer_write_slide_complete}

-- One slot for each number of the window.
pub record IsSized (b : Buffer) : Type 0 where
  pub sized : length b.packets ≡ b.buffer_size
  pub positive : 0 < b.buffer_size

-- What a response says of the buffer before and after the call.
abbrev pub Answers : Buffer → ℕ → Response × Buffer → Type 0
Answers b seq (failed, out) = Unit
Answers b seq (send_ignore, out) = (b.upper ≤ seq) × (out ≡ b)
Answers b seq (send_rr n, out) =
    (out.lower ≡ n)
    × (((seq < n) × (out ≡ b)) ⊎ ((seq ≡ b.lower) × (buffer_has_packet out n ≡ false)))
Answers b seq (send_srej n, out) =
    (n ≡ seq) × (b.lower < n) × (out.lower ≡ b.lower) × (buffer_has_packet out n ≡ true)

release_due-Answers :
    (b before : Buffer) (seq : ℕ) → seq ≡ before.lower → Answers before seq (release_due b)
unfolding release_due
release_due-Answers b before seq e =
    let lower = inc32 b.lower in
    let moved : Buffer = record b { lower = lower; upper = (lower + b.buffer_size) % u32_mod } in
    elim (Bool-cases (buffer_write_slide moved).0) [
      | inr bad ↦ rw bad tt
      | inl good ↦ rw good (refl, inr (e, buffer_write_slide_complete moved good))
    ]

-- A packet that was stored is there.
stored-has_packet :
    (b : Buffer) (seq : ℕ) (payload : List ℕ) (len : ℤ)
    → IsSized b
    → (buffer_store_packet b seq payload len).0 ≡ true
    → let out = (buffer_store_packet b seq payload len).1 in
      (out.lower ≡ b.lower) × (buffer_has_packet out seq ≡ true)
unfolding buffer_store_packet buffer_has_packet in_buffer_window
stored-has_packet b seq payload len s =
    elim (Bool-cases (not (in_buffer_window b seq) || is_bad_len len)) [
      | inl bad ↦ rw bad (λ ok. absurd (cc))
      | inr good ↦
          let slot_lt : seq % b.buffer_size < length b.packets =
            omega (arith, s.sized, mod-lt seq s.positive) in
          rw good (λ ok. (
            refl,
            rw (get_or-set_self b.packets (seq % b.buffer_size) _ no_packet slot_lt) (ground arith),
          ))
    ]

keep_early-Answers :
    (b : Buffer) (seq : ℕ) (payload : List ℕ) (len : ℤ)
    → IsSized b
    → b.lower < seq
    → Answers b seq (keep_early b seq payload len)
unfolding keep_early
keep_early-Answers b seq payload len s lt = elim (Bool-cases (buffer_has_packet b seq)) [
  | inl here ↦ rw here (refl, lt, refl, here)
  | inr gone ↦ elim (Bool-cases (buffer_store_packet b seq payload len).0) [
    | inr bad ↦ rw (gone, bad) tt
    | inl good ↦
        let (same, has) = stored-has_packet b seq payload len s good in
        rw (gone, good) (refl, lt, same, has)
  ]
]

-- Every response of processData tells the state of a buffer with one slot for each number of its
-- window: IGNORE is for a number from upper on and changes nothing; RR names the lower end of the
-- window, for an old number with nothing changed and for the due one with the next packet not in
-- the buffer; SREJ names the number that came, which is ahead of the lower end and now in the
-- buffer.
pub process_data-Answers :
    (b : Buffer) (seq : ℕ) (payload : List ℕ) (len : ℤ)
    → IsSized b
    → Answers b seq (process_data b seq payload len)
unfolding process_data
process_data-Answers b seq payload len s = elim (Bool-cases (ltb seq b.lower)) [
  | inl late ↦ rw late (refl, inl (ground arith, refl))
  | inr not_late ↦ elim (Bool-cases (leb b.upper seq)) [
    | inl outside ↦ rw (not_late, outside) (ground arith, refl)
    | inr inside ↦ elim (Bool-cases (seq == b.lower)) [
      | inr early ↦
          let lt : b.lower < seq = ground arith in
          let ahead : ltb b.lower seq ≡ true = ground arith in
          rw (not_late, inside, early, ahead) (keep_early-Answers b seq payload len s lt)
      | inl due ↦ elim (Bool-cases (write_data b payload len).0) [
        | inr bad ↦ rw (not_late, inside, due, bad) tt
        | inl good ↦
            rw (not_late, inside, due, good)
              (release_due-Answers (write_data b payload len).1 b seq (ground arith))
      ]
    ]
  ]
]
