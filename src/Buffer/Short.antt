-- ===== src/Buffer/Short.antt =====
-- `bufferProcessPDU` of buffer.c on datagrams that are shorter than a header.
use cpe_464_proj.Base.{
  ℕ, ◌≤◌, ◌<◌, ◌≡◌, sym, subst, List, true, arith, ◌==◌, ltb, Bool-cases, inl, inr, ℤ, is_negative,
}
use cpe_464_proj.Pdu.{
  Datagram, validate_checksum, get_sequence_num, get_flag, get_payload_len, payload_of, flag_data,
  header_len,
}
use cpe_464_proj.Buffer.{
  Receiver, inorder, write_packet_to_disk, buffer_packet, send_rr, send_srej_once, in_order_state,
  run_state, buffer_process_pdu,
}

module _ (in_cksum : List ℕ → ℕ → ℕ) where
  -- A fault that has happened is not forgotten.
  faulted-send_srej_once :
      (r : Receiver) → r.faulted ≡ true → (send_srej_once in_cksum r).faulted ≡ true
  unfolding send_srej_once
  faulted-send_srej_once r h = ground (arith, h)

  in_order_state_faults :
      (r : Receiver) (seq : ℕ) (payload : List ℕ) (len : ℤ)
      → r.expected ≤ seq
      → is_negative len ≡ true
      → (in_order_state in_cksum r seq payload len).1.faulted ≡ true
  unfolding in_order_state write_packet_to_disk buffer_packet send_rr
  in_order_state_faults r seq payload len le h = elim (Bool-cases (seq == r.expected)) [
    | inl due ↦ rw (due, h) (ground arith)
    | inr other ↦
        let early : ltb r.expected seq ≡ true = ground arith in
        rw (other, early)
          (faulted-send_srej_once (record (buffer_packet r seq payload len) { highest = seq })
            (rw h (ground arith)))
  ]

  -- In the state INORDER a datagram shorter than a header that validates, finds the data flag in
  -- the receiving array and has the expected or a later number there makes bufferProcessPDU give
  -- write or memcpy a negative length.
  pub short_datagram_faults :
      (r : Receiver) (d : Datagram)
      → r.state ≡ inorder
      → validate_checksum in_cksum d.pdu d.pdu_len ≡ true
      → (get_flag d.pdu == flag_data) ≡ true
      → d.pdu_len < header_len
      → r.expected ≤ get_sequence_num d.pdu
      → (buffer_process_pdu in_cksum r d).faulted ≡ true
  unfolding buffer_process_pdu run_state get_payload_len
  short_datagram_faults r d e good packet short le =
      let negative : is_negative (get_payload_len d.pdu_len) ≡ true =
        negative_length d.pdu_len short in
      rw (good, packet)
        (subst
          (λ s.
            (run_state in_cksum s r (get_sequence_num d.pdu) (payload_of d.pdu)
              (get_payload_len d.pdu_len)).1.faulted
            ≡ true)
          (sym e)
          (in_order_state_faults r (get_sequence_num d.pdu) (payload_of d.pdu)
            (get_payload_len d.pdu_len) le negative))
    where
      negative_length :
          (pdu_len : ℕ) → pdu_len < header_len → is_negative (get_payload_len pdu_len) ≡ true
      negative_length pdu_len h = ground arith
