-- ===== src/Bufferold/Slide.antt =====
-- bufferold.c: what `writeData` changes, and the loop of `bufferWriteSlide`.
use cpe_464_proj.Base.{
  ℕ, zero, suc, ◌+◌, ◌≤◌, ◌≡◌, refl, ap, List, [], ◌∷◌, ◌++◌, Option, none, some, Bool, true, false,
  arith, length, get_or, set, take, if◌then◌else◌, Bool-cases, inl, inr, ℤ, pos, negsuc,
}
use cpe_464_proj.Buffer.{first_bytes}
use cpe_464_proj.Bufferold.{
  Buffer, BufferPacket, no_packet, packet_at, is_whole, write_data, buffer_has_packet,
  release_lowest, slide_loop, buffer_write_slide,
}

-- A call of `writeData` that succeeds puts the data behind the file, and the window stays.
pub record Wrote (b : Buffer) (bytes : List ℕ) (len : ℤ) (out : Bool × Buffer) : Type 0 where
  pub same_packets : out.1.packets ≡ b.packets
  pub same_size : out.1.buffer_size ≡ b.buffer_size
  pub same_lower : out.1.lower ≡ b.lower
  pub same_upper : out.1.upper ≡ b.upper
  pub whole : out.0 ≡ true → out.1.written ≡ b.written ++ first_bytes len bytes

take-is_whole :
    (count : ℕ) (len : ℤ) (bytes : List ℕ)
    → is_whole count len ≡ true
    → take count bytes ≡ first_bytes len bytes
take-is_whole count (pos len) bytes h = ap (λ n. take n bytes) (ground arith)
take-is_whole count (negsuc len) bytes h = absurd (cc)

pub write_data-Wrote :
    (b : Buffer) (bytes : List ℕ) (len : ℤ) → Wrote b bytes len (write_data b bytes len)
unfolding write_data
write_data-Wrote b bytes len = go b.writes refl
  where
    go : (ws : List (Option ℕ)) → b.writes ≡ ws → Wrote b bytes len (write_data b bytes len)
    go [] e =
        rw (e, write_data)
          (record {
            same_packets = refl;
            same_size = refl;
            same_lower = refl;
            same_upper = refl;
            whole = λ h. absurd (cc);
          })
    go (none ∷ ws) e =
        rw (e, write_data)
          (record {
            same_packets = refl;
            same_size = refl;
            same_lower = refl;
            same_upper = refl;
            whole = λ h. absurd (cc);
          })
    go (some count ∷ ws) e =
        rw (e, write_data)
          (record {
            same_packets = refl;
            same_size = refl;
            same_lower = refl;
            same_upper = refl;
            whole = λ h. ap (λ xs. b.written ++ xs) (take-is_whole count len bytes h);
          })

-- The number of active slots.
abbrev count_active : List BufferPacket → ℕ
count_active [] = 0
count_active (p ∷ ps) = (if p.active then 1 else 0) + count_active ps

count_active-le : (ps : List BufferPacket) → count_active ps ≤ length ps
count_active-le [] = omega arith
count_active-le (p ∷ ps) = ground (arith, count_active-le ps)

-- An active slot made inactive leaves one less.
count_active-clear :
    (ps : List BufferPacket) (i : ℕ)
    → (get_or ps i no_packet).active ≡ true
    → suc (count_active (set ps i (record (get_or ps i no_packet) { active = false })))
      ≡ count_active ps
count_active-clear [] i h = cc
count_active-clear (p ∷ ps) zero h = ground arith
count_active-clear (p ∷ ps) (suc i) h = omega (arith, count_active-clear ps i h)

-- The buffer behind a round of the loop.
abbrev pub slide_step : Buffer → Buffer
slide_step b =
    release_lowest (write_data b (packet_at b b.lower).bytes (packet_at b b.lower).data_len).1

pub has_packet-is_active :
    (b : Buffer) (seq : ℕ)
    → buffer_has_packet b seq ≡ true
    → ((packet_at b seq).active ≡ true) × ((packet_at b seq).seq_num ≡ seq)
unfolding buffer_has_packet
has_packet-is_active b seq h = ground arith

count_active-slide_step :
    (b : Buffer)
    → buffer_has_packet b b.lower ≡ true
    → suc (count_active (slide_step b).packets) ≡ count_active b.packets
count_active-slide_step b h =
    let w = write_data-Wrote b (packet_at b b.lower).bytes (packet_at b b.lower).data_len in
    rw (w.same_packets, w.same_lower, w.same_size)
      (count_active-clear b.packets _ (has_packet-is_active b b.lower h).0)

slide_loop_enough :
    (fuel : ℕ) (b : Buffer)
    → count_active b.packets ≤ fuel
    → (slide_loop fuel b).0 ≡ true
    → let out = (slide_loop fuel b).1 in buffer_has_packet out out.lower ≡ false
unfolding slide_loop
slide_loop_enough zero b h = λ ok. elim (Bool-cases (buffer_has_packet b b.lower)) [
  | inl here ↦ absurd (omega (arith, count_active-slide_step b here))
  | inr gone ↦ gone
]
slide_loop_enough (suc fuel) b h = elim (Bool-cases (buffer_has_packet b b.lower)) [
  | inr gone ↦ rw gone (λ ok. gone)
  | inl here ↦
      let wrote = write_data b (packet_at b b.lower).bytes (packet_at b b.lower).data_len in
      elim (Bool-cases wrote.0) [
        | inr bad ↦ rw (here, bad) (λ ok. absurd (cc))
        | inl good ↦
            rw (here, good)
              (slide_loop_enough fuel (slide_step b)
                (omega (arith, count_active-slide_step b here)))
      ]
]

-- When no write fails, bufferWriteSlide ends because the packet that is due is not in its slot, for
-- any buffer.
pub buffer_write_slide_complete :
    (b : Buffer)
    → (buffer_write_slide b).0 ≡ true
    → let out = (buffer_write_slide b).1 in buffer_has_packet out out.lower ≡ false
unfolding buffer_write_slide
buffer_write_slide_complete b = slide_loop_enough (length b.packets) b (count_active-le b.packets)
