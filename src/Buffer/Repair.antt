-- ===== src/Buffer/Repair.antt =====
-- The packets behind a gap in the buffer of buffer.c, and the packet that fills it.
use cpe_464_proj.Base.{
  ℕ, zero, suc, ◌+◌, ◌%◌, ◌≤◌, ◌<◌, ◌≡◌, refl, sym, ap, subst, ◌∙◌, List, Bool, true, false, ◌&&◌,
  arith, length, get_or-set_ne, ◌==◌, leb, if◌then◌else◌, Bool-cases, inl, inr, inc32, u32_mod, ℤ,
}
use cpe_464_proj.Pdu.{
  Datagram, validate_checksum, get_sequence_num, get_flag, get_payload_len, payload_of, flag_data,
}
use cpe_464_proj.Window.Valid.{mod-ne}
use cpe_464_proj.Buffer.{
  Receiver, BufferEntry, BufferState, inorder, buffering, empty_entry, entry, is_ready, flush_step,
  flush_loop, write_packet_to_disk, send_rr, send_srej_once, after_flush, flushing_state,
  buffering_state, run_state, buffer_process_pdu, trap_zero_window,
}

-- The slot of a number holds that packet.
abbrev pub is_held : Receiver → ℕ → Bool
is_held r i = (entry r i).valid_flag && (entry r i).seq_num == i

-- The buffer holds exactly the `k` packets from number `n` on, up to the first gap.
pub record HoldsRun (r : Receiver) (n k : ℕ) : Type 0 where
  pub run : (i : ℕ) → n ≤ i → i < n + k → is_held r i ≡ true
  pub gap : is_held r (n + k) ≡ false

-- Another slot than the one that is cleared.
entry-flush_step :
    (r : Receiver) (i : ℕ)
    → r.expected < i
    → i < r.expected + r.window_size
    → entry (flush_step r) i ≡ entry r i
unfolding flush_step
entry-flush_step r i lo hi =
    get_or-set_ne r.buffer (r.expected % r.window_size) (i % r.window_size) _ empty_entry
      (mod-ne r.expected i r.window_size lo hi)

is_held-flush_step :
    (r : Receiver) (i : ℕ)
    → r.expected < i
    → i < r.expected + r.window_size
    → is_held (flush_step r) i ≡ is_held r i
is_held-flush_step r i lo hi =
    ap (λ (e : BufferEntry). e.valid_flag && e.seq_num == i) (entry-flush_step r i lo hi)

is_ready-is_held : (r : Receiver) → is_ready r ≡ is_held r r.expected
unfolding is_ready
is_ready-is_held r = refl

window_size-flush_step : (r : Receiver) → (flush_step r).window_size ≡ r.window_size
unfolding flush_step
window_size-flush_step r = refl

expected-flush_step :
    (r : Receiver) → suc r.expected < u32_mod → (flush_step r).expected ≡ suc r.expected
unfolding flush_step
expected-flush_step r h = ground arith

-- The loop of `flushingState` stops at the first gap.
flush_loop-HoldsRun :
    (fuel k : ℕ) (r : Receiver)
    → k ≤ fuel
    → k < r.window_size
    → r.expected + k < u32_mod
    → HoldsRun r r.expected k
    → (flush_loop fuel r).expected ≡ r.expected + k
unfolding flush_loop
flush_loop-HoldsRun zero zero r le room small h = omega arith
flush_loop-HoldsRun zero (suc k) r le room small h = absurd (omega arith)
flush_loop-HoldsRun (suc fuel) zero r le room small h =
    let here : r.expected + 0 ≡ r.expected = omega arith in
    let stop : is_ready r ≡ false =
      is_ready-is_held r ∙ subst (λ i. is_held r i ≡ false) here h.gap in
    rw stop (omega arith)
flush_loop-HoldsRun (suc fuel) (suc k) r le room small h =
    let go : is_ready r ≡ true =
      is_ready-is_held r ∙ h.run r.expected (omega arith) (omega arith) in
    let next = expected-flush_step r (omega arith) in
    let size = window_size-flush_step r in
    let rest =
      flush_loop-HoldsRun fuel k (flush_step r) (omega arith) (omega (arith, size))
        (omega (arith, next))
        (record {
          run = λ i lo hi.
              is_held-flush_step r i (omega (arith, next)) (omega (arith, next))
              ∙ h.run i (omega (arith, next)) (omega (arith, next));
          gap =
              subst (λ i. is_held (flush_step r) i ≡ false) {x = r.expected + suc k}
                (omega (arith, next))
                (is_held-flush_step r (r.expected + suc k) (omega arith) (omega arith) ∙ h.gap);
        }) in
    rw go (rest ∙ omega (arith, next))

highest-flush_loop : (fuel : ℕ) (r : Receiver) → (flush_loop fuel r).highest ≡ r.highest
unfolding flush_loop flush_step
highest-flush_loop zero r = refl
highest-flush_loop (suc fuel) r = elim (Bool-cases (is_ready r)) [
  | inl ready ↦ rw ready (highest-flush_loop fuel (flush_step r))
  | inr done ↦ rw done refl
]

-- Where a state function leaves the receiver.
abbrev Arrives : ℕ → ℕ → BufferState × Receiver → Type 0
Arrives expected highest out =
    (out.1.expected ≡ expected) × (out.0 ≡ (if leb expected highest then buffering else inorder))

module _ (in_cksum : List ℕ → ℕ → ℕ) where
  after_flush-Arrives : (r : Receiver) → Arrives r.expected r.highest (after_flush in_cksum r)
  unfolding after_flush send_srej_once send_rr
  after_flush-Arrives r = ground arith

  flushing_state-Arrives :
      (r : Receiver) (k : ℕ)
      → length r.buffer ≡ r.window_size
      → k < r.window_size
      → r.expected + k < u32_mod
      → HoldsRun r r.expected k
      → Arrives (r.expected + k) r.highest (flushing_state in_cksum r)
  unfolding flushing_state
  flushing_state-Arrives r k sized room small h =
      let t = flush_loop (length r.buffer) (trap_zero_window r) in
      let e =
        flush_loop-HoldsRun (length r.buffer) k (trap_zero_window r) (omega arith) room small
          (record { run = h.run; gap = h.gap }) in
      let top = highest-flush_loop (length r.buffer) (trap_zero_window r) in
      let (x, y) = after_flush-Arrives t in (x ∙ e, y ∙ rw (e, top) refl)

  buffering_state-Arrives :
      (r : Receiver) (seq k : ℕ) (payload : List ℕ) (len : ℤ)
      → seq ≡ r.expected
      → length r.buffer ≡ r.window_size
      → k < r.window_size
      → suc r.expected + k < u32_mod
      → HoldsRun r (suc r.expected) k
      → Arrives (suc r.expected + k) r.highest (buffering_state in_cksum r seq payload len)
  unfolding buffering_state write_packet_to_disk
  buffering_state-Arrives r seq k payload len e sized room small h =
      let due : (seq == r.expected) ≡ true = ground arith in
      let up : inc32 r.expected ≡ suc r.expected = omega arith in
      rw (due, sym up)
        (flushing_state-Arrives _ k sized room (omega arith)
          (record { run = rw up h.run; gap = rw up h.gap }))

  -- In the state BUFFERING, with one slot for each number of the window, the packet that is due
  -- releases the whole run behind it: if the buffer holds exactly the k packets that follow it,
  -- fewer than the window size and with all numbers below 2^32, bufferProcessPDU moves the expected
  -- number past the packet and the k behind it, and goes back to INORDER exactly if that number is
  -- beyond the highest one received.
  pub gap_repaired :
      (r : Receiver) (d : Datagram) (k : ℕ)
      → r.state ≡ buffering
      → validate_checksum in_cksum d.pdu d.pdu_len ≡ true
      → (get_flag d.pdu == flag_data) ≡ true
      → get_sequence_num d.pdu ≡ r.expected
      → length r.buffer ≡ r.window_size
      → k < r.window_size
      → suc r.expected + k < u32_mod
      → HoldsRun r (suc r.expected) k
      → let out = buffer_process_pdu in_cksum r d in
        (out.expected ≡ suc r.expected + k)
        × (out.state ≡ (if leb (suc r.expected + k) r.highest then buffering else inorder))
  unfolding buffer_process_pdu run_state
  gap_repaired r d k s good packet due sized room small h =
      rw (good, packet)
        (subst
          (λ s. Arrives (suc r.expected + k) r.highest (
            run_state in_cksum s r (get_sequence_num d.pdu) (payload_of d.pdu)
              (get_payload_len d.pdu_len)))
          (sym s)
          (buffering_state-Arrives r (get_sequence_num d.pdu) k (payload_of d.pdu)
            (get_payload_len d.pdu_len) due sized room small h))
