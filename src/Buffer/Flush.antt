-- ===== src/Buffer/Flush.antt =====
-- The loop of `flushingState` of buffer.c.
use cpe_464_proj.Base.{
  ℕ, zero, suc, ◌+◌, ◌≤◌, ◌≡◌, List, [], ◌∷◌, true, false, arith, length, get_or, set,
  if◌then◌else◌, Bool-cases, inl, inr,
}
use cpe_464_proj.Buffer.{
  Receiver, BufferEntry, empty_entry, entry, get_index, is_ready, flush_step, flush_loop,
}

-- The number of valid flags.
abbrev pub count_valid : List BufferEntry → ℕ
count_valid [] = 0
count_valid (e ∷ es) = (if e.valid_flag then 1 else 0) + count_valid es

count_valid-le : (es : List BufferEntry) → count_valid es ≤ length es
count_valid-le [] = omega arith
count_valid-le (e ∷ es) = ground (arith, count_valid-le es)

-- Clearing a valid flag leaves one less.
count_valid-clear :
    (es : List BufferEntry) (i : ℕ)
    → (get_or es i empty_entry).valid_flag ≡ true
    → suc (count_valid (set es i (record (get_or es i empty_entry) { valid_flag = false })))
      ≡ count_valid es
count_valid-clear [] i h = cc
count_valid-clear (e ∷ es) zero h = ground arith
count_valid-clear (e ∷ es) (suc i) h = omega (arith, count_valid-clear es i h)

is_ready-valid : (r : Receiver) → is_ready r ≡ true → (entry r r.expected).valid_flag ≡ true
unfolding is_ready
is_ready-valid r h = ground arith

-- A round of the loop clears one valid flag.
count_valid-flush_step :
    (r : Receiver)
    → is_ready r ≡ true
    → suc (count_valid (flush_step r).buffer) ≡ count_valid r.buffer
unfolding flush_step
count_valid-flush_step r h =
    count_valid-clear r.buffer (get_index r r.expected) (is_ready-valid r h)

-- With at least as much fuel as valid flags the loop ends by its test.
flush_loop_enough :
    (fuel : ℕ) (r : Receiver) → count_valid r.buffer ≤ fuel → is_ready (flush_loop fuel r) ≡ false
unfolding flush_loop
flush_loop_enough zero r h = elim (Bool-cases (is_ready r)) [
  | inl ready ↦ absurd (omega (arith, count_valid-flush_step r ready))
  | inr done ↦ done
]
flush_loop_enough (suc fuel) r h = elim (Bool-cases (is_ready r)) [
  | inl ready ↦
      rw ready
        (flush_loop_enough fuel (flush_step r) (omega (arith, count_valid-flush_step r ready)))
  | inr done ↦ rw done done
]

-- The loop of flushingState ends by its own test within one round per slot, for any buffer:
-- afterwards the slot of the expected packet does not hold that packet.
pub flush_loop_complete : (r : Receiver) → is_ready (flush_loop (length r.buffer) r) ≡ false
flush_loop_complete r = flush_loop_enough (length r.buffer) r (count_valid-le r.buffer)
