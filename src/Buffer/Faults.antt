-- ===== src/Buffer/Faults.antt =====
-- The calls of buffer.c whose behaviour C leaves open: a negative length for `memcpy` or `write`, and
-- a slot index modulo 0.
use cpe_464_proj.Base.{
  ℕ, zero, suc, ◌-◌, ◌≤◌, ◌<◌, ◌≡◌, refl, ◌∙◌, List, [], ◌∷◌, true, false, arith, length, All,
  All-set, All-get_or, All-replicate, ◌==◌, ltb, leb, Bool-cases, inl, inr, u32_mod, ℤ, is_negative,
}
use cpe_464_proj.Pdu.{
  Datagram, validate_checksum, get_sequence_num, get_flag, get_payload_len, payload_of, flag_data,
  header_len,
}
use cpe_464_proj.Buffer.{
  Receiver, BufferEntry, BufferState, inorder, buffering, flushing, empty_entry, entry, is_ready,
  flush_step, flush_loop, buffer_init, write_packet_to_disk, buffer_packet, send_rr, send_srej_once,
  after_flush, flushing_state, in_order_state, buffering_state, run_state, buffer_process_pdu,
  trap_zero_window,
}
use cpe_464_proj.Buffer.Delivery.{process_all}

-- The length of an entry is none that C makes negative.
abbrev HasLength : BufferEntry → Type 0
HasLength e = is_negative e.data_len ≡ false

pub record IsSound (r : Receiver) : Type 0 where
  pub no_fault : r.faulted ≡ false
  pub some_slot : 0 < r.window_size
  pub lengths : All HasLength r.buffer

IsSound-ext :
    (r t : Receiver)
    → t.buffer ≡ r.buffer
    → t.window_size ≡ r.window_size
    → t.faulted ≡ r.faulted
    → IsSound r
    → IsSound t
IsSound-ext r t b w f s = record {
  no_fault = f ∙ s.no_fault;
  some_slot = rw w s.some_slot;
  lengths = rw b s.lengths;
}

buffer_init-IsSound : (size : ℕ) → 0 < size → IsSound (buffer_init size)
unfolding buffer_init
buffer_init-IsSound size h = record {
  no_fault = refl;
  some_slot = h;
  lengths = All-replicate HasLength size empty_entry refl;
}

write_packet_to_disk-IsSound :
    (r : Receiver) (bytes : List ℕ) (len : ℤ)
    → is_negative len ≡ false
    → IsSound r
    → IsSound (write_packet_to_disk r bytes len)
unfolding write_packet_to_disk
write_packet_to_disk-IsSound r bytes len h s = record {
  no_fault = rw (s.no_fault, h);
  some_slot = s.some_slot;
  lengths = s.lengths;
}

buffer_packet-IsSound :
    (r : Receiver) (seq : ℕ) (bytes : List ℕ) (len : ℤ)
    → is_negative len ≡ false
    → IsSound r
    → IsSound (buffer_packet r seq bytes len)
unfolding buffer_packet
buffer_packet-IsSound r seq bytes len h s =
    let some_slot : (r.window_size == 0) ≡ false = ground (arith, s.some_slot) in
    record {
      no_fault = rw (s.no_fault, h, some_slot);
      some_slot = s.some_slot;
      lengths = All-set HasLength r.buffer _ _ s.lengths h;
    }

flush_step-IsSound : (r : Receiver) → IsSound r → IsSound (flush_step r)
unfolding flush_step
flush_step-IsSound r s =
    let e = entry r r.expected in
    let held : HasLength e = All-get_or HasLength r.buffer _ empty_entry s.lengths refl in
    let w = write_packet_to_disk-IsSound r e.bytes e.data_len held s in
    record {
      no_fault = w.no_fault;
      some_slot = s.some_slot;
      lengths = All-set HasLength r.buffer _ _ s.lengths held;
    }

flush_loop-IsSound : (fuel : ℕ) (r : Receiver) → IsSound r → IsSound (flush_loop fuel r)
unfolding flush_loop
flush_loop-IsSound zero r s = s
flush_loop-IsSound (suc fuel) r s = elim (Bool-cases (is_ready r)) [
  | inl ready ↦ rw ready (flush_loop-IsSound fuel (flush_step r) (flush_step-IsSound r s))
  | inr done ↦ rw done s
]

trap_zero_window-IsSound : (r : Receiver) → IsSound r → IsSound (trap_zero_window r)
trap_zero_window-IsSound r s =
    let some_slot : (r.window_size == 0) ≡ false = ground (arith, s.some_slot) in
    record { no_fault = rw (s.no_fault, some_slot); some_slot = s.some_slot; lengths = s.lengths }

module _ (in_cksum : List ℕ → ℕ → ℕ) where
  send_rr-IsSound : (r : Receiver) → IsSound r → IsSound (send_rr in_cksum r)
  unfolding send_rr
  send_rr-IsSound r s = IsSound-ext r _ refl refl refl s

  send_srej_once-IsSound : (r : Receiver) → IsSound r → IsSound (send_srej_once in_cksum r)
  unfolding send_srej_once
  send_srej_once-IsSound r s = elim (Bool-cases (r.last_srej == r.expected)) [
    | inl old ↦ rw old s
    | inr new ↦ rw new (IsSound-ext r _ refl refl refl s)
  ]

  flushing_state-IsSound : (r : Receiver) → IsSound r → IsSound (flushing_state in_cksum r).1
  unfolding flushing_state after_flush
  flushing_state-IsSound r s =
      let t = flush_loop (length r.buffer) (trap_zero_window r) in
      let s' =
        flush_loop-IsSound (length r.buffer) (trap_zero_window r) (trap_zero_window-IsSound r s) in
      elim (Bool-cases (leb t.expected t.highest)) [
        | inl gap ↦ rw gap (send_srej_once-IsSound t s')
        | inr whole ↦ rw whole (send_rr-IsSound t s')
      ]

  -- A packet that is due: written, with other fields of the receiver changed.
  run_state-IsSound :
      (state : BufferState) (r : Receiver) (seq : ℕ) (payload : List ℕ) (len : ℤ)
      → is_negative len ≡ false
      → IsSound r
      → IsSound (run_state in_cksum state r seq payload len).1
  unfolding run_state in_order_state buffering_state
  run_state-IsSound flushing r seq payload len h s = flushing_state-IsSound r s
  run_state-IsSound inorder r seq payload len h s = elim (Bool-cases (seq == r.expected)) [
    | inl due ↦ rw due (
        send_rr-IsSound _ (
          IsSound-ext (write_packet_to_disk r payload len) _ refl refl refl
            (write_packet_to_disk-IsSound r payload len h s)))
    | inr other ↦ elim (Bool-cases (ltb r.expected seq)) [
      | inr late ↦ rw (other, late) (send_rr-IsSound r s)
      | inl early ↦
          rw (other, early)
            (send_srej_once-IsSound _ (
              IsSound-ext (buffer_packet r seq payload len) _ refl refl refl
                (buffer_packet-IsSound r seq payload len h s)))
    ]
  ]
  run_state-IsSound buffering r seq payload len h s = elim (Bool-cases (seq == r.expected)) [
    | inl due ↦
        let r' : Receiver = record r { last_srej = u32_mod - 1 } in
        rw due (
          flushing_state-IsSound _ (
            IsSound-ext (write_packet_to_disk r' payload len) _ refl refl refl
              (write_packet_to_disk-IsSound r' payload len h (IsSound-ext r r' refl refl refl s))))
    | inr other ↦ elim (Bool-cases (ltb r.expected seq)) [
      | inr late ↦ rw (other, late) (send_rr-IsSound r s)
      | inl early ↦
          rw (other, early)
            (send_srej_once-IsSound _ (
              IsSound-ext (buffer_packet r seq payload len) _ refl refl refl
                (buffer_packet-IsSound r seq payload len h s)))
    ]
  ]

  -- A datagram that passes for a data packet has a whole header.
  abbrev pub IsWhole : Datagram → Type 0
  IsWhole d =
      validate_checksum in_cksum d.pdu d.pdu_len ≡ true
      → (get_flag d.pdu == flag_data) ≡ true
      → header_len ≤ d.pdu_len

  not_negative :
      (pdu_len : ℕ) → header_len ≤ pdu_len → is_negative (get_payload_len pdu_len) ≡ false
  unfolding get_payload_len
  not_negative pdu_len h = ground arith

  buffer_process_pdu-IsSound :
      (r : Receiver) (d : Datagram)
      → IsSound r
      → IsWhole d
      → IsSound (buffer_process_pdu in_cksum r d)
  unfolding buffer_process_pdu
  buffer_process_pdu-IsSound r d s g =
      elim (Bool-cases (validate_checksum in_cksum d.pdu d.pdu_len)) [
        | inr bad ↦ rw bad s
        | inl good ↦ elim (Bool-cases (get_flag d.pdu == flag_data)) [
          | inr control ↦ rw (good, control) s
          | inl packet ↦
              rw (good, packet)
                (IsSound-ext _ _ refl refl refl (
                  run_state-IsSound r.state r (get_sequence_num d.pdu) (payload_of d.pdu)
                    (get_payload_len d.pdu_len) (not_negative d.pdu_len (g good packet)) s))
        ]
      ]

  process_all-IsSound :
      (r : Receiver) (ds : List Datagram)
      → IsSound r
      → All IsWhole ds
      → IsSound (process_all in_cksum r ds)
  process_all-IsSound r [] s g = s
  process_all-IsSound r (d ∷ ds) s g =
      process_all-IsSound (buffer_process_pdu in_cksum r d) ds
        (buffer_process_pdu-IsSound r d s g.0) g.1

  -- For a window with at least one slot and datagrams of which each one that passes for a data
  -- packet has at least the 7 bytes of a header, no call of bufferProcessPDU gives write or memcpy
  -- a negative length or takes a slot index modulo 0.
  pub no_faults :
      (size : ℕ) (ds : List Datagram)
      → 0 < size
      → All IsWhole ds
      → (process_all in_cksum (buffer_init size) ds).faulted ≡ false
  no_faults size ds h g =
      let s = process_all-IsSound (buffer_init size) ds (buffer_init-IsSound size h) g in s.no_fault
