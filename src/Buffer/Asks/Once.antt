-- ===== src/Buffer/Asks/Once.antt =====
-- The state functions of buffer.c, `bufferProcessPDU` and whole transfers: how often they send an SREJ.
use cpe_464_proj.Base.{
  ℕ, zero, suc, ◌-◌, ◌≤◌, ◌<◌, ◌≡◌, refl, ◌∙◌, ◌⊎◌, List, [], ◌∷◌, arith, length, All, ◌==◌, ltb,
  leb, if◌then◌else◌, Bool-cases, inl, inr, inc32, u32_mod, ℤ,
}
use cpe_464_proj.Pdu.{
  Datagram, validate_checksum, get_sequence_num, get_flag, get_payload_len, payload_of, flag_data,
}
use cpe_464_proj.Buffer.{
  Receiver, BufferState, inorder, buffering, flushing, is_ready, flush_step, flush_loop,
  buffer_init, write_packet_to_disk, buffer_packet, send_rr, send_srej, send_srej_once, after_flush,
  flushing_state, in_order_state, buffering_state, run_state, buffer_process_pdu, trap_zero_window,
}
use cpe_464_proj.Buffer.Delivery.{process_all}
use cpe_464_proj.Buffer.Settled.{
  IsEarly, IsNumbered, IsSettled, buffer_init-IsSettled, flush_loop-Grows, flush_loop-Flushes,
}
use cpe_464_proj.Buffer.Settled.Calls.{buffer_process_pdu-IsSettled}
use cpe_464_proj.Buffer.Asks.{
  count_srej, Asks, Asks-once, Asks-grow, Asks-ext, send_rr-Asks, send_srej_once-Asks,
}

module _ (in_cksum : List ℕ → ℕ → ℕ) where
  -- Whether the SREJ for the expected number is out while the receiver waits for it.
  abbrev Asked : BufferState × Receiver → Type 0
  Asked (s, r) = Asks r × ((s ≡ inorder) ⊎ (r.last_srej ≡ r.expected))

  srej_once-Asked :
      (s : BufferState) (r : Receiver)
      → r.expected < u32_mod
      → Asks r
      → Asked (s, send_srej_once in_cksum r)
  unfolding send_srej_once send_srej
  srej_once-Asked s r small a =
      let (a', last) = send_srej_once-Asks in_cksum r small a in (a', inr (ground (arith, last)))

  module _ (limit : ℕ) (small : limit < u32_mod - 1) where
    after_flush-Asked :
        (r : Receiver) → r.expected ≤ limit → Asks r → Asked (after_flush in_cksum r)
    unfolding after_flush
    after_flush-Asked r within a = elim (Bool-cases (leb r.expected r.highest)) [
      | inl gap ↦ rw gap (srej_once-Asked buffering r (omega arith) a)
      | inr whole ↦ rw whole (send_rr-Asks in_cksum r a, inl refl)
    ]

    flush_loop-same :
        (fuel : ℕ) (r : Receiver)
        → ((flush_loop fuel r).sent ≡ r.sent) × ((flush_loop fuel r).last_srej ≡ r.last_srej)
    unfolding flush_loop flush_step write_packet_to_disk
    flush_loop-same zero r = (refl, refl)
    flush_loop-same (suc fuel) r = elim (Bool-cases (is_ready r)) [
      | inl ready ↦ rw ready (flush_loop-same fuel (flush_step r))
      | inr done ↦ rw done (refl, refl)
    ]

    -- The loop moves on from `r`, or from a number before that.
    flushing_state-Asked :
        (r t : Receiver)
        → t.expected ≤ limit
        → All (IsEarly limit (suc t.highest)) t.buffer
        → r.expected < t.expected
        → t.sent ≡ r.sent
        → t.last_srej ≡ u32_mod - 1
        → Asks r
        → Asked (flushing_state in_cksum t)
    unfolding flushing_state
    flushing_state-Asked r t within early more same last a =
        let few : limit < u32_mod = omega arith in
        let u = trap_zero_window t in
        let f = flush_loop-Flushes limit (length t.buffer) u few within early in
        let up = flush_loop-Grows limit (length t.buffer) u few early in
        let (s, l) = flush_loop-same (length t.buffer) u in
        after_flush-Asked (flush_loop (length t.buffer) u) f.still_within (
          Asks-grow r (flush_loop (length t.buffer) u) (omega (arith, f.still_within))
            (omega (arith, up)) (s ∙ same) (inr (l ∙ last)) a)

    in_order_state-Asked :
        (r : Receiver) (seq : ℕ) (payload : List ℕ) (len : ℤ)
        → seq < limit
        → r.expected ≤ limit
        → Asks r
        → Asked (in_order_state in_cksum r seq payload len)
    unfolding in_order_state write_packet_to_disk buffer_packet
    in_order_state-Asked r seq payload len h within a = elim (Bool-cases (seq == r.expected)) [
      | inl due ↦
          let next : Receiver = record (write_packet_to_disk r payload len) {
            highest = r.expected;
            expected = inc32 r.expected;
          } in
          rw due (
            send_rr-Asks in_cksum next
                (Asks-grow r next (ground arith) (ground arith) refl (inl refl) a),
            inl refl,
          )
      | inr other ↦ elim (Bool-cases (ltb r.expected seq)) [
        | inr late ↦ rw (other, late) (send_rr-Asks in_cksum r a, inl refl)
        | inl early ↦
            let kept : Receiver = record (buffer_packet r seq payload len) { highest = seq } in
            rw (other, early)
              (srej_once-Asked buffering kept (omega arith) (Asks-ext r kept refl refl refl a))
      ]
    ]

    buffering_state-Asked :
        (r : Receiver) (seq : ℕ) (payload : List ℕ) (len : ℤ)
        → seq < limit
        → IsSettled limit buffering r
        → r.last_srej ≡ r.expected
        → Asks r
        → Asked (buffering_state in_cksum r seq payload len)
    unfolding buffering_state write_packet_to_disk buffer_packet send_rr
    buffering_state-Asked r seq payload len h settled last a =
        let within = settled.within in
        elim (Bool-cases (seq == r.expected)) [
          | inl due ↦
              let next : Receiver =
                record (write_packet_to_disk (record r { last_srej = u32_mod - 1 }) payload len) {
                  expected = inc32 r.expected;
                } in
              rw due (
                flushing_state-Asked r next (ground arith) settled.slots (ground arith) refl refl a)
          | inr other ↦ elim (Bool-cases (ltb r.expected seq)) [
            | inr late ↦ rw (other, late) (send_rr-Asks in_cksum r a, inr last)
            | inl early ↦
                let kept : Receiver = record (buffer_packet r seq payload len) {
                  highest = if ltb r.highest seq then seq else r.highest;
                } in
                rw (other, early)
                  (srej_once-Asked buffering kept (omega arith) (Asks-ext r kept refl refl refl a))
          ]
        ]

    run_state-Asked :
        (s : BufferState) (r : Receiver) (seq : ℕ) (payload : List ℕ) (len : ℤ)
        → seq < limit
        → IsSettled limit s r
        → Asked (s, r)
        → Asked (run_state in_cksum s r seq payload len)
    unfolding run_state
    run_state-Asked inorder r seq payload len h settled (a, q) =
        in_order_state-Asked r seq payload len h settled.within a
    run_state-Asked buffering r seq payload len h settled (a, inr last) =
        buffering_state-Asked r seq payload len h settled last a
    run_state-Asked buffering r seq payload len h settled (a, inl e) = absurd (cc (e))
    run_state-Asked flushing r seq payload len h settled (a, q) = absurd (settled.stored refl)

    buffer_process_pdu-Asked :
        (r : Receiver) (d : Datagram)
        → IsNumbered limit in_cksum d
        → IsSettled limit r.state r
        → Asked (r.state, r)
        → let out = buffer_process_pdu in_cksum r d in Asked (out.state, out)
    unfolding buffer_process_pdu
    buffer_process_pdu-Asked r d g settled a =
        elim (Bool-cases (validate_checksum in_cksum d.pdu d.pdu_len)) [
          | inr bad ↦ rw bad a
          | inl good ↦ elim (Bool-cases (get_flag d.pdu == flag_data)) [
            | inr control ↦ rw (good, control) a
            | inl packet ↦
                let (a', q) =
                  run_state-Asked r.state r (get_sequence_num d.pdu) (payload_of d.pdu)
                    (get_payload_len d.pdu_len) (g good packet) settled a in
                rw (good, packet) (Asks-ext _ _ refl refl refl a', q)
          ]
        ]

    process_all-Asked :
        (r : Receiver) (ds : List Datagram)
        → All (IsNumbered limit in_cksum) ds
        → IsSettled limit r.state r
        → Asked (r.state, r)
        → let out = process_all in_cksum r ds in Asked (out.state, out)
    process_all-Asked r [] g settled a = a
    process_all-Asked r (d ∷ ds) g settled a =
        process_all-Asked (buffer_process_pdu in_cksum r d) ds g.1
          (buffer_process_pdu-IsSettled limit in_cksum (omega arith) r d settled g.0)
          (buffer_process_pdu-Asked r d g.0 settled a)

    -- After any calls of bufferProcessPDU, in which each datagram that passes for a data packet has
    -- a number below a limit below 2^32 - 1, the receiver has sent at most one SREJ for each number
    -- and none for a number beyond the expected one, and unless it is in the state INORDER it has
    -- sent exactly one for the expected number.
    pub asked_once :
        (size n : ℕ) (ds : List Datagram)
        → All (IsNumbered limit in_cksum) ds
        → let r = process_all in_cksum (buffer_init size) ds in
          (count_srej n r.sent ≤ (if ltb r.expected n then 0 else 1))
          × ((r.state ≡ inorder) ⊎ (count_srej r.expected r.sent ≡ 1))
    unfolding buffer_init
    asked_once size n ds g =
        let r = process_all in_cksum (buffer_init size) ds in
        let (a, q) = process_all-Asked (buffer_init size) ds g (buffer_init-IsSettled limit size) (
          record { once = λ k lt. omega arith; now = refl; beyond = λ k lt. refl; old = inr refl },
          inl refl,
        ) in
        (ground (arith, Asks-once r n a, a.beyond n), ground (arith, q, a.now))
