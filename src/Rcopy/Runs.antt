-- ===== src/Rcopy/Runs.antt =====
-- Runs of the loop of `stateHandler` in rcopy.c: what a property of the client has to withstand.
use cpe_464_proj.Base.{
  ℕ, zero, suc, ◌≡◌, refl, List, Option, none, some, Bool, true, false, not, ◌||◌, ◌&&◌, arith,
  get_or, ltb, ◌==◌, if◌then◌else◌, [], ◌∷◌,
}
use cpe_464_proj.Pdu.{Datagram, validate_checksum, get_flag, flag_eof_ack, flag_filename_response}
use cpe_464_proj.Window.{is_window_open, get_lowest_window_packet}
use cpe_464_proj.Client.{
  RcopyState, send_filename, wait_filename_ack, send_data, process_acks, window_closed, send_eof,
  wait_eof_ack, done, RcopyInfo, poll_call, recvfrom, read_input, all_acked, retry_eof,
  drain_or_finish, resend, lowest_pdu, after_acks, window_timeout, window_closed_state,
}
use cpe_464_proj.Rcopy.{
  send_control_packet, send_filename_state, filename_reply, wait_filename_ack_state, send_read,
  send_data_state, handle_ack, drain_acks, process_acks_state, send_eof_state, eof_reply,
  wait_eof_ack_state, rcopy_step, state_handler,
}

-- A property of the window, the arrivals and the reads to come that holds on when a datagram is
-- received, when one is handled as an RR or SREJ, and when a chunk is read and sent.
pub record IsKept (in_cksum : List ℕ → ℕ → ℕ) (P : RcopyInfo → Type 0) : Type 0 where
  pub ext :
      (info next : RcopyInfo)
      → next.window ≡ info.window
      → next.arrivals ≡ info.arrivals
      → next.reads ≡ info.reads
      → P info
      → P next
  pub receives : (info : RcopyInfo) → P info → P (recvfrom info).1
  pub acks : (info : RcopyInfo) → P info → P (handle_ack in_cksum (recvfrom info))
  pub chunks : (info : RcopyInfo) → P info → P (send_read in_cksum (read_input info)).1

-- A resend changes only the log.
pub resend-ext :
    (in_cksum : List ℕ → ℕ → ℕ) (P : RcopyInfo → Type 0) (info : RcopyInfo) (pdu : Option (List ℕ))
    → IsKept in_cksum P
    → P info
    → P (resend info pdu)
unfolding resend
resend-ext in_cksum P info none k p = p
resend-ext in_cksum P info (some pdu) k p =
    k.ext info (resend info (some pdu)) (ground arith) (ground arith) (ground arith) p

module _ (in_cksum : List ℕ → ℕ → ℕ) (P : RcopyInfo → Type 0) (k : IsKept in_cksum P) where
  -- A step to any state, with the property.
  abbrev Leads : RcopyState × RcopyInfo → Type 0
  Leads (s, info) = P info

  if-Leads :
      (c : Bool) (x y : RcopyState × RcopyInfo) → Leads x → Leads y → Leads (if c then x else y)
  if-Leads true x y p q = p
  if-Leads false x y p q = q

  poll_call-Leads : (info : RcopyInfo) → P info → P (poll_call info).1
  unfolding poll_call
  poll_call-Leads info p = k.ext info _ (ground arith) (ground arith) (ground arith) p

  drain_acks-Leads :
      (polls : List Bool) (info : RcopyInfo) → P info → P (drain_acks in_cksum polls info)
  unfolding drain_acks
  drain_acks-Leads [] info p = k.ext info _ refl refl refl p
  drain_acks-Leads (false ∷ rest) info p = k.ext info _ refl refl refl p
  drain_acks-Leads (true ∷ rest) info p = drain_acks-Leads rest _ (k.acks info p)

  process_acks_state-Leads : (info : RcopyInfo) → P info → Leads (process_acks_state in_cksum info)
  unfolding process_acks_state after_acks
  process_acks_state-Leads info p =
      let i = drain_acks in_cksum info.polls info in
      let p' = drain_acks-Leads info.polls info p in
      if-Leads (i.eof_reached && all_acked i) _ _ p' p'

  window_closed_state-Leads : (info : RcopyInfo) → P info → Leads (window_closed_state info)
  unfolding window_closed_state window_timeout
  window_closed_state-Leads info p =
      let i = (poll_call info).1 in
      let p' = poll_call-Leads info p in
      let again = lowest_pdu (get_lowest_window_packet i.window) in
      if-Leads (poll_call info).0 _ _ (k.ext i _ refl refl refl p')
        (k.ext (resend i again) _ refl refl refl (resend-ext in_cksum P i again k p'))

  send_data_state-Leads : (info : RcopyInfo) → P info → Leads (send_data_state in_cksum info)
  unfolding send_data_state drain_or_finish
  send_data_state-Leads info p =
      if-Leads info.eof_reached _ _ p
        (if-Leads (is_window_open info.window) _ _ (k.chunks info p) p)

  filename_reply-Leads :
      (d : Datagram) (info : RcopyInfo) → P info → Leads (filename_reply in_cksum d info)
  unfolding filename_reply
  filename_reply-Leads d info p =
      if-Leads (d.pdu_len == 0 || not (validate_checksum in_cksum d.pdu d.pdu_len)) _ _ p (
        if-Leads (get_or d.pdu 6 0 == flag_filename_response) _ _
          (if-Leads (ltb 7 d.pdu_len && not (get_or d.pdu 7 0 == 0)) _ _ p
            (k.ext info _ refl refl refl p))
          p)

  wait_filename_ack_state-Leads :
      (info : RcopyInfo) → P info → Leads (wait_filename_ack_state in_cksum info)
  unfolding wait_filename_ack_state
  wait_filename_ack_state-Leads info p =
      let i = (poll_call info).1 in
      let p' = poll_call-Leads info p in
      if-Leads (poll_call info).0 _ _
        (filename_reply-Leads (recvfrom i).0 (recvfrom i).1 (k.receives i p'))
        (k.ext i _ refl refl refl p')

  retry_eof-Leads : (info : RcopyInfo) → P info → Leads (retry_eof info)
  unfolding retry_eof
  retry_eof-Leads info p = k.ext info _ refl refl refl p

  eof_reply-Leads : (d : Datagram) (info : RcopyInfo) → P info → Leads (eof_reply in_cksum d info)
  unfolding eof_reply send_control_packet
  eof_reply-Leads d info p =
      if-Leads (d.pdu_len == 0 || not (validate_checksum in_cksum d.pdu d.pdu_len)) _ _
        (retry_eof-Leads info p)
        (if-Leads (get_flag d.pdu == flag_eof_ack) _ _ (k.ext info _ refl refl refl p)
          (retry_eof-Leads info p))

  wait_eof_ack_state-Leads : (info : RcopyInfo) → P info → Leads (wait_eof_ack_state in_cksum info)
  unfolding wait_eof_ack_state
  wait_eof_ack_state-Leads info p =
      let i = (poll_call info).1 in
      let p' = poll_call-Leads info p in
      if-Leads (poll_call info).0 _ _
        (eof_reply-Leads (recvfrom i).0 (recvfrom i).1 (k.receives i p')) (retry_eof-Leads i p')

  pub rcopy_step-Leads :
      (s : RcopyState) (info : RcopyInfo) → P info → Leads (rcopy_step in_cksum s info)
  unfolding rcopy_step send_filename_state send_eof_state send_control_packet
  rcopy_step-Leads send_filename info p = k.ext info _ refl refl refl p
  rcopy_step-Leads wait_filename_ack info p = wait_filename_ack_state-Leads info p
  rcopy_step-Leads send_data info p = send_data_state-Leads info p
  rcopy_step-Leads process_acks info p = process_acks_state-Leads info p
  rcopy_step-Leads window_closed info p = window_closed_state-Leads info p
  rcopy_step-Leads send_eof info p = k.ext info _ refl refl refl p
  rcopy_step-Leads wait_eof_ack info p = wait_eof_ack_state-Leads info p
  rcopy_step-Leads done info p = p

  -- Such a property holds all along a run.
  pub state_handler-keeps :
      (fuel : ℕ) (s : RcopyState) (info : RcopyInfo)
      → P info
      → P (state_handler in_cksum fuel (s, info)).1
  unfolding state_handler
  state_handler-keeps zero s info p = p
  state_handler-keeps (suc fuel) s info p =
      let out = rcopy_step in_cksum s info in
      state_handler-keeps fuel out.0 out.1 (rcopy_step-Leads s info p)
