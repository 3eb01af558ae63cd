-- ===== src/Rcopy/Chunks/Steps.antt =====
-- The other state functions of rcopy.c, and the loop of `stateHandler`, with the count of the chunks.
use cpe_464_proj.Base.{
  ℕ, zero, suc, ◌<◌, refl, List, [], not, ◌&&◌, ◌||◌, arith, length, get_or, All, ◌==◌, ltb,
  u32_mod, Bool-cases, inl, inr,
}
use cpe_464_proj.Pdu.{
  Datagram, validate_checksum, get_flag, flag_filename, flag_eof, flag_final_ack, flag_eof_ack,
  flag_filename_response,
}
use cpe_464_proj.Client.{
  RcopyState, send_filename, wait_filename_ack, send_data, process_acks, window_closed, send_eof,
  wait_eof_ack, done, ReadResult, RcopyInfo, poll_call, recvfrom, retry_eof,
}
use cpe_464_proj.Rcopy.{
  send_filename_state, filename_reply, wait_filename_ack_state, send_eof_state, eof_reply,
  wait_eof_ack_state, rcopy_step, state_handler,
}
use cpe_464_proj.Rcopy.Chunks.{Tracks, Fits, is_live}
use cpe_464_proj.Rcopy.Chunks.States.{
  Sends, Continues, Sends-enter, Sends-ext, poll_call-Sends, recvfrom-Sends,
  send_control_packet-Sends, if-Continues,
}
use cpe_464_proj.Rcopy.Chunks.Reads.{send_data_state-Continues}
use cpe_464_proj.Rcopy.Chunks.Acks.{process_acks_state-Continues, window_closed_state-Continues}

module _ (in_cksum : List ℕ → ℕ → ℕ) (input : List ReadResult) (small : length input < u32_mod)
    (fits : All Fits input) where
  filename_reply-Continues :
      (n : ℕ) (d : Datagram) (info : RcopyInfo)
      → Sends in_cksum input n info
      → Continues in_cksum input n (filename_reply in_cksum d info)
  unfolding filename_reply
  filename_reply-Continues n d info t =
      let stay = Sends-enter in_cksum input n wait_filename_ack info t in
      elim (Bool-cases (d.pdu_len == 0 || not (validate_checksum in_cksum d.pdu d.pdu_len))) [
        | inl bad ↦ rw bad stay
        | inr good ↦ elim (Bool-cases (get_or d.pdu 6 0 == flag_filename_response)) [
          | inr other ↦ rw (good, other) stay
          | inl reply ↦ elim (Bool-cases (ltb 7 d.pdu_len && not (get_or d.pdu 7 0 == 0))) [
            | inl refused ↦ rw (good, reply, refused) (Sends-enter in_cksum input n done info t)
            | inr ready ↦
                rw (good, reply, ready)
                  (n, omega arith, Sends-ext in_cksum input n info _ refl refl refl refl refl t)
          ]
        ]
      ]

  wait_filename_ack_state-Continues :
      (n : ℕ) (info : RcopyInfo)
      → Sends in_cksum input n info
      → Continues in_cksum input n (wait_filename_ack_state in_cksum info)
  unfolding wait_filename_ack_state
  wait_filename_ack_state-Continues n info t =
      let i = (poll_call info).1 in
      let t' = poll_call-Sends in_cksum input n info t in
      if-Continues in_cksum input n (poll_call info).0 _ _
        (λ _.
          filename_reply-Continues n (recvfrom i).0 (recvfrom i).1
            (recvfrom-Sends in_cksum input n i t'))
        (λ _.
          Sends-enter in_cksum input n _ _
            (Sends-ext in_cksum input n i _ refl refl refl refl refl t'))

  retry_eof-Continues :
      (n : ℕ) (info : RcopyInfo)
      → Sends in_cksum input n info
      → Continues in_cksum input n (retry_eof info)
  unfolding retry_eof
  retry_eof-Continues n info t =
      Sends-enter in_cksum input n _ _
        (Sends-ext in_cksum input n info _ refl refl refl refl refl t)

  eof_reply-Continues :
      (n : ℕ) (d : Datagram) (info : RcopyInfo)
      → Sends in_cksum input n info
      → Continues in_cksum input n (eof_reply in_cksum d info)
  unfolding eof_reply
  eof_reply-Continues n d info t =
      elim (Bool-cases (d.pdu_len == 0 || not (validate_checksum in_cksum d.pdu d.pdu_len))) [
        | inl bad ↦ rw bad (retry_eof-Continues n info t)
        | inr good ↦ elim (Bool-cases (get_flag d.pdu == flag_eof_ack)) [
          | inr other ↦ rw (good, other) (retry_eof-Continues n info t)
          | inl reply ↦
              rw (good, reply)
                (Sends-enter in_cksum input n done _
                  (send_control_packet-Sends in_cksum input n info flag_final_ack [] refl t))
        ]
      ]

  wait_eof_ack_state-Continues :
      (n : ℕ) (info : RcopyInfo)
      → Sends in_cksum input n info
      → Continues in_cksum input n (wait_eof_ack_state in_cksum info)
  unfolding wait_eof_ack_state
  wait_eof_ack_state-Continues n info t =
      let i = (poll_call info).1 in
      let t' = poll_call-Sends in_cksum input n info t in
      if-Continues in_cksum input n (poll_call info).0 _ _
        (λ _.
          eof_reply-Continues n (recvfrom i).0 (recvfrom i).1
            (recvfrom-Sends in_cksum input n i t'))
        (λ _. retry_eof-Continues n i t')

  pub rcopy_step-Continues :
      (s : RcopyState) (n : ℕ) (info : RcopyInfo)
      → Tracks in_cksum input n (is_live s info) info
      → Continues in_cksum input n (rcopy_step in_cksum s info)
  unfolding rcopy_step send_filename_state send_eof_state
  rcopy_step-Continues send_filename n info t =
      Sends-enter in_cksum input n wait_filename_ack _
        (send_control_packet-Sends in_cksum input n info flag_filename _ refl t)
  rcopy_step-Continues wait_filename_ack n info t = wait_filename_ack_state-Continues n info t
  rcopy_step-Continues send_data n info t =
      send_data_state-Continues in_cksum input small fits n info t
  rcopy_step-Continues process_acks n info t = process_acks_state-Continues in_cksum input n info t
  rcopy_step-Continues window_closed n info t =
      window_closed_state-Continues in_cksum input n info t
  rcopy_step-Continues send_eof n info t =
      Sends-enter in_cksum input n wait_eof_ack _
        (send_control_packet-Sends in_cksum input n info flag_eof [] refl t)
  rcopy_step-Continues wait_eof_ack n info t = wait_eof_ack_state-Continues n info t
  rcopy_step-Continues done n info t = (n, omega arith, t)

  pub state_handler-Continues :
      (fuel : ℕ) (s : RcopyState) (n : ℕ) (info : RcopyInfo)
      → Tracks in_cksum input n (is_live s info) info
      → Continues in_cksum input n (state_handler in_cksum fuel (s, info))
  unfolding state_handler
  state_handler-Continues zero s n info t = (n, omega arith, t)
  state_handler-Continues (suc fuel) s n info t =
      let (m, le, t') = rcopy_step-Continues s n info t in
      let out = rcopy_step in_cksum s info in
      let (k, le', t'') = state_handler-Continues fuel out.0 m out.1 t' in (k, omega arith, t'')
