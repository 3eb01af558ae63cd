-- ===== src/Buffer/Settled/Calls.antt =====
-- The state functions of buffer.c, and `bufferProcessPDU`, from one settled receiver to the next.
use cpe_464_proj.Base.{
  ℕ, suc, ◌≤◌, ◌<◌, ◌≡◌, ◌≢◌, refl, ◌∙◌, List, [], ◌∷◌, false, arith, length, All, ◌==◌, ltb, leb,
  if◌then◌else◌, Bool-cases, inl, inr, inc32, u32_mod, ℤ,
}
use cpe_464_proj.Pdu.{
  Datagram, validate_checksum, get_sequence_num, get_flag, get_payload_len, payload_of, flag_data,
}
use cpe_464_proj.Buffer.{
  Receiver, BufferState, inorder, buffering, flushing, is_ready, flush_loop, buffer_init,
  buffer_packet, send_rr, send_srej_once, after_flush, flushing_state, in_order_state,
  buffering_state, run_state, buffer_process_pdu, trap_zero_window,
}
use cpe_464_proj.Buffer.Flush.{flush_loop_complete}
use cpe_464_proj.Buffer.Delivery.{process_all}
use cpe_464_proj.Buffer.Settled.{
  IsNumbered, IsEarly, IsSettled, IsEarly-mono, not_ready, is_ready-buffer_packet, IsSettled-ext,
  buffer_packet-IsEarly, flush_loop-Flushes, is_ready-ext, buffer_init-IsSettled,
}

module _ (limit : ℕ) (in_cksum : List ℕ → ℕ → ℕ) (small : limit < u32_mod) where
  -- The state that a state function returns goes with the receiver that it leaves.
  abbrev Settles : BufferState × Receiver → Type 0
  Settles out = IsSettled limit out.0 out.1

  send_rr-IsSettled :
      (s : BufferState) (r : Receiver)
      → IsSettled limit s r
      → IsSettled limit s (send_rr in_cksum r)
  unfolding send_rr
  send_rr-IsSettled s r h = IsSettled-ext limit s r _ refl refl refl refl h

  send_srej_once-IsSettled :
      (s : BufferState) (r : Receiver)
      → IsSettled limit s r
      → IsSettled limit s (send_srej_once in_cksum r)
  unfolding send_srej_once
  send_srej_once-IsSettled s r h = elim (Bool-cases (r.last_srej == r.expected)) [
    | inl old ↦ rw old h
    | inr new ↦ rw new (IsSettled-ext limit s r _ refl refl refl refl h)
  ]

  after_flush-Settles :
      (r : Receiver)
      → r.expected ≤ limit
      → All (IsEarly limit (suc r.highest)) r.buffer
      → is_ready r ≡ false
      → Settles (after_flush in_cksum r)
  unfolding after_flush
  after_flush-Settles r within early waits = elim (Bool-cases (leb r.expected r.highest)) [
    | inl gap ↦ rw gap (
        send_srej_once-IsSettled buffering r
          (record { stored = λ e. absurd (cc (e)); within = within; slots = early; waits = waits }))
    | inr whole ↦ rw whole (
        send_rr-IsSettled inorder r (record {
          stored = λ e. absurd (cc (e));
          within = within;
          slots = IsEarly-mono limit (suc r.highest) r.expected r.buffer (ground arith) early;
          waits = waits;
        }))
  ]

  flushing_state-Settles :
      (r : Receiver)
      → r.expected ≤ limit
      → All (IsEarly limit (suc r.highest)) r.buffer
      → Settles (flushing_state in_cksum r)
  unfolding flushing_state
  flushing_state-Settles r within early =
      let f = flush_loop-Flushes limit (length r.buffer) (trap_zero_window r) small within early in
      after_flush-Settles (flush_loop (length r.buffer) (trap_zero_window r)) f.still_within
        (rw f.same_highest f.still_early) (flush_loop_complete (trap_zero_window r))

  -- A packet beyond the expected one is kept, with `highest` at least its number.
  keep-Settles :
      (r : Receiver) (seq highest : ℕ) (payload : List ℕ) (len : ℤ)
      → r.expected ≤ limit
      → seq < limit
      → r.expected < seq
      → seq ≤ highest
      → All (IsEarly limit (suc highest)) r.buffer
      → is_ready r ≡ false
      → IsSettled limit buffering
          (send_srej_once in_cksum (record (buffer_packet r seq payload len) { highest = highest }))
  unfolding buffer_packet
  keep-Settles r seq highest payload len within h later le early waits =
      send_srej_once-IsSettled buffering _ (record {
        stored = λ e. absurd (cc (e));
        within = within;
        slots = buffer_packet-IsEarly limit (suc highest) r seq payload len h (omega arith) early;
        waits =
            is_ready-ext limit (buffer_packet r seq payload len) _ refl refl refl
            ∙ is_ready-buffer_packet limit r seq payload len later waits;
      })

  in_order_state-Settles :
      (r : Receiver) (seq : ℕ) (payload : List ℕ) (len : ℤ)
      → IsSettled limit inorder r
      → seq < limit
      → Settles (in_order_state in_cksum r seq payload len)
  unfolding in_order_state
  in_order_state-Settles r seq payload len s h = elim (Bool-cases (seq == r.expected)) [
    | inl due ↦
        let up : inc32 r.expected ≡ suc r.expected = ground arith in
        let early = IsEarly-mono limit r.expected (suc r.expected) r.buffer (omega arith) s.slots in
        rw due (
          send_rr-IsSettled inorder _ (record {
            stored = λ e. absurd (cc (e));
            within = ground arith;
            slots = rw up early;
            waits = not_ready limit _ (rw up early);
          }))
    | inr other ↦ elim (Bool-cases (ltb r.expected seq)) [
      | inr late ↦ rw (other, late) (send_rr-IsSettled inorder r s)
      | inl early ↦
          rw (other, early)
            (keep-Settles r seq seq payload len s.within h (ground arith) (omega arith)
              (IsEarly-mono limit r.expected (suc seq) r.buffer (ground arith) s.slots) s.waits)
    ]
  ]

  buffering_state-Settles :
      (r : Receiver) (seq : ℕ) (payload : List ℕ) (len : ℤ)
      → IsSettled limit buffering r
      → seq < limit
      → Settles (buffering_state in_cksum r seq payload len)
  unfolding buffering_state
  buffering_state-Settles r seq payload len s h = elim (Bool-cases (seq == r.expected)) [
    | inl due ↦ rw due (flushing_state-Settles _ (ground arith) s.slots)
    | inr other ↦ elim (Bool-cases (ltb r.expected seq)) [
      | inr late ↦ rw (other, late) (send_rr-IsSettled buffering r s)
      | inl early ↦
          let top = if ltb r.highest seq then seq else r.highest in
          rw (other, early)
            (keep-Settles r seq top payload len s.within h (ground arith) (ground arith)
              (IsEarly-mono limit (suc r.highest) (suc top) r.buffer (ground arith) s.slots)
              s.waits)
    ]
  ]

  run_state-Settles :
      (s : BufferState) (r : Receiver) (seq : ℕ) (payload : List ℕ) (len : ℤ)
      → IsSettled limit s r
      → seq < limit
      → Settles (run_state in_cksum s r seq payload len)
  unfolding run_state
  run_state-Settles inorder r seq payload len s h = in_order_state-Settles r seq payload len s h
  run_state-Settles buffering r seq payload len s h = buffering_state-Settles r seq payload len s h
  run_state-Settles flushing r seq payload len s h = absurd (s.stored refl)

  pub buffer_process_pdu-IsSettled :
      (r : Receiver) (d : Datagram)
      → IsSettled limit r.state r
      → IsNumbered limit in_cksum d
      → let out = buffer_process_pdu in_cksum r d in IsSettled limit out.state out
  unfolding buffer_process_pdu
  buffer_process_pdu-IsSettled r d s g =
      elim (Bool-cases (validate_checksum in_cksum d.pdu d.pdu_len)) [
        | inr bad ↦ rw bad s
        | inl good ↦ elim (Bool-cases (get_flag d.pdu == flag_data)) [
          | inr control ↦ rw (good, control) s
          | inl packet ↦
              rw (good, packet)
                (IsSettled-ext limit _ _ _ refl refl refl refl (
                  run_state-Settles r.state r (get_sequence_num d.pdu) (payload_of d.pdu)
                    (get_payload_len d.pdu_len) s (g good packet)))
        ]
      ]

  process_all-IsSettled :
      (r : Receiver) (ds : List Datagram)
      → IsSettled limit r.state r
      → All (IsNumbered limit in_cksum) ds
      → let out = process_all in_cksum r ds in IsSettled limit out.state out
  process_all-IsSettled r [] s g = s
  process_all-IsSettled r (d ∷ ds) s g =
      process_all-IsSettled (buffer_process_pdu in_cksum r d) ds
        (buffer_process_pdu-IsSettled r d s g.0) g.1

  -- After any calls of bufferProcessPDU, in which each datagram that passes for a data packet has a
  -- number below a limit below 2^32, the buffer holds no packet that could be written next, the
  -- stored state is not FLUSHING, and the expected number is at most the limit.
  pub nothing_withheld :
      (size : ℕ) (ds : List Datagram)
      → All (IsNumbered limit in_cksum) ds
      → let r = process_all in_cksum (buffer_init size) ds in
        (is_ready r ≡ false) × (r.state ≢ flushing) × (r.expected ≤ limit)
  unfolding buffer_init
  nothing_withheld size ds g =
      let s = process_all-IsSettled (buffer_init size) ds (buffer_init-IsSettled limit size) g in
      (s.waits, s.stored, s.within)
