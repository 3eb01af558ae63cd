-- ===== src/Buffer/Delivery/InOrder.antt =====
-- `bufferProcessPDU` of buffer.c, and the calls of a whole transfer, on the chunks of a file.
use cpe_464_proj.Base.{
  ℕ, ◌≤◌, ◌<◌, ◌≡◌, refl, List, [], ◌∷◌, arith, All, ◌==◌, Bool-cases, inl, inr, u32_mod, ℤ,
}
use cpe_464_proj.Pdu.{
  Datagram, validate_checksum, get_sequence_num, get_flag, get_payload_len, payload_of, flag_data,
}
use cpe_464_proj.Buffer.{
  Receiver, BufferState, inorder, buffering, flushing, buffer_init, run_state, buffer_process_pdu,
}
use cpe_464_proj.Buffer.Delivery.{
  process_all, stream, IsChunk, Delivered, Delivered-ext, Advances, IsGenuine,
  buffer_init-Delivered,
}
use cpe_464_proj.Buffer.Delivery.States.{
  in_order_state_due, in_order_state_other, buffering_state_due, buffering_state_other,
  flushing_state-Delivered,
}

module _ (chunk : ℕ → List ℕ) (limit : ℕ) (in_cksum : List ℕ → ℕ → ℕ)
    (small : limit < u32_mod) where
  run_state-Delivered :
      (s : BufferState) (n : ℕ) (r : Receiver) (seq : ℕ) (payload : List ℕ) (len : ℤ)
      → Delivered chunk limit n r
      → IsChunk chunk limit seq payload len
      → Advances chunk limit n (run_state in_cksum s r seq payload len).1
  unfolding run_state
  run_state-Delivered inorder n r seq payload len d c = elim (Bool-cases (seq == r.expected)) [
    | inl due ↦
        let (m, le, d') =
          in_order_state_due chunk limit in_cksum small n r seq payload len d c due in
        (m, omega arith, d')
    | inr other ↦ (
      n,
      omega arith,
      in_order_state_other chunk limit in_cksum small n r seq payload len d c other,
    )
  ]
  run_state-Delivered buffering n r seq payload len d c = elim (Bool-cases (seq == r.expected)) [
    | inl due ↦
        let (m, le, d') =
          buffering_state_due chunk limit in_cksum small n r seq payload len d c due in
        (m, omega arith, d')
    | inr other ↦ (
      n,
      omega arith,
      buffering_state_other chunk limit in_cksum small n r seq payload len d c other,
    )
  ]
  run_state-Delivered flushing n r seq payload len d c =
      flushing_state-Delivered chunk limit in_cksum small n r d

  pub buffer_process_pdu-Delivered :
      (n : ℕ) (r : Receiver) (d : Datagram)
      → Delivered chunk limit n r
      → IsGenuine chunk limit in_cksum d
      → Advances chunk limit n (buffer_process_pdu in_cksum r d)
  unfolding buffer_process_pdu
  buffer_process_pdu-Delivered n r d h g =
      elim (Bool-cases (validate_checksum in_cksum d.pdu d.pdu_len)) [
        | inr bad ↦ rw bad (n, omega arith, h)
        | inl good ↦ elim (Bool-cases (get_flag d.pdu == flag_data)) [
          | inr control ↦ rw (good, control) (n, omega arith, h)
          | inl packet ↦
              let (m, le, h') =
                run_state-Delivered r.state n r (get_sequence_num d.pdu) (payload_of d.pdu)
                  (get_payload_len d.pdu_len) h (g good packet) in
              rw (good, packet) (m, le, Delivered-ext chunk limit m _ _ refl refl refl h')
        ]
      ]

  process_all-Delivered :
      (n : ℕ) (r : Receiver) (ds : List Datagram)
      → Delivered chunk limit n r
      → All (IsGenuine chunk limit in_cksum) ds
      → Advances chunk limit n (process_all in_cksum r ds)
  process_all-Delivered n r [] h g = (n, omega arith, h)
  process_all-Delivered n r (d ∷ ds) h g =
      let (m, le, h') = buffer_process_pdu-Delivered n r d h g.0 in
      let (k, le', h'') = process_all-Delivered m (buffer_process_pdu in_cksum r d) ds h' g.1 in
      (k, omega arith, h'')

  -- Whatever datagrams come to bufferProcessPDU, in any order, if each one that passes for a data
  -- packet carries the chunk of its sequence number, for a file of fewer than 2^32 chunks, then the
  -- bytes written are the first n chunks in order, each once, for some n up to the number of
  -- chunks, and number n is expected next.
  pub written_in_order :
      (size : ℕ) (ds : List Datagram)
      → All (IsGenuine chunk limit in_cksum) ds
      → (n : ℕ) × (n ≤ limit)
        × ((process_all in_cksum (buffer_init size) ds).written ≡ stream chunk n)
        × ((process_all in_cksum (buffer_init size) ds).expected ≡ n)
  written_in_order size ds g =
      let (n, le, h) =
        process_all-Delivered 0 (buffer_init size) ds (buffer_init-Delivered chunk limit size) g in
      (n, h.within, h.file, h.next)
