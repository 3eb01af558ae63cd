-- ===== src/Rcopy/Eof/Steps.antt =====
-- The state functions of rcopy.c: only SEND_EOF sends an EOF.
use cpe_464_proj.Base.{
  ℕ, ◌≡◌, refl, ◌⊎◌, List, [], Bool, true, false, not, ◌||◌, ◌&&◌, arith, length, get_or, ◌==◌, ltb,
  if◌then◌else◌, inl, inr,
}
use cpe_464_proj.Pdu.{
  Datagram, validate_checksum, get_flag, flag_data, flag_filename, flag_filename_response, flag_eof,
  flag_eof_ack, flag_final_ack,
}
use cpe_464_proj.Window.{is_window_open, get_lowest_window_packet, get_next_seq_num}
use cpe_464_proj.Client.{
  RcopyState, send_filename, wait_filename_ack, send_data, process_acks, window_closed, send_eof,
  wait_eof_ack, done, ReadResult, read_error, read_bytes, RcopyInfo, poll_call, recvfrom,
  read_input, retry_eof, drain_or_finish, lowest_pdu, after_acks, all_acked, window_timeout,
  window_closed_state,
}
use cpe_464_proj.Rcopy.{
  send_control_packet, send_filename_state, filename_reply, wait_filename_ack_state, send_chunk,
  send_read, send_data_state, drain_acks, process_acks_state, send_eof_state, eof_reply,
  wait_eof_ack_state, rcopy_step,
}
use cpe_464_proj.Rcopy.Chunks.Slots.{SlotsHold, get_lowest-GivesData}
use cpe_464_proj.Rcopy.Eof.{
  has_eof, is_eof-create_pdu, Plain, resend-Plain, recvfrom-Plain, poll_call-Plain,
  drain_acks-Plain,
}

module _ (in_cksum : List ℕ → ℕ → ℕ) (input : List ReadResult) (n : ℕ) where
  -- A step with no EOF among the PDUs that it sends.
  abbrev Sends : Bool → RcopyState × RcopyInfo → Type 0
  Sends b (s, info) = has_eof info.sent ≡ b

  if-Sends :
      (b c : Bool) (x y : RcopyState × RcopyInfo)
      → Sends b x
      → Sends b y
      → Sends b (if c then x else y)
  if-Sends b true x y p q = p
  if-Sends b false x y p q = q

  control-Sends :
      (b : Bool) (info : RcopyInfo) (flag : ℕ) (payload : List ℕ)
      → (flag == flag_eof) ≡ false
      → has_eof info.sent ≡ b
      → has_eof (send_control_packet in_cksum info flag payload).sent ≡ b
  unfolding send_control_packet
  control-Sends b info flag payload h e =
      rw (is_eof-create_pdu in_cksum input n info.control_seq_num flag payload h) e

  send_read-Sends :
      (b : Bool) (r : ReadResult) (info : RcopyInfo)
      → has_eof info.sent ≡ b
      → Sends b (send_read in_cksum (r, info))
  unfolding send_read send_chunk drain_or_finish
  send_read-Sends b read_error info e = e
  send_read-Sends b (read_bytes bytes) info e = if-Sends b (length bytes == 0) _ _ e (
      rw (is_eof-create_pdu in_cksum input n (get_next_seq_num info.window) flag_data bytes refl) e)

  send_data_state-Sends :
      (b : Bool) (info : RcopyInfo)
      → has_eof info.sent ≡ b
      → Sends b (send_data_state in_cksum info)
  unfolding send_data_state drain_or_finish read_input
  send_data_state-Sends b info e = if-Sends b info.eof_reached _ _ e (
      if-Sends b (is_window_open info.window) _ _
        (send_read-Sends b (read_input info).0 (read_input info).1 (ground (arith, e))) e)

  process_acks_state-Sends :
      (b : Bool) (info : RcopyInfo)
      → Plain in_cksum input n b info
      → Sends b (process_acks_state in_cksum info)
  unfolding process_acks_state after_acks
  process_acks_state-Sends b info p =
      let i = drain_acks in_cksum info.polls info in
      let e = (drain_acks-Plain in_cksum input n b info.polls info p).eof in
      if-Sends b (i.eof_reached && all_acked i) _ _ e e

  window_closed_state-Sends :
      (b : Bool) (info : RcopyInfo)
      → Plain in_cksum input n b info
      → Sends b (window_closed_state info)
  unfolding window_closed_state window_timeout
  window_closed_state-Sends b info p =
      let i = (poll_call info).1 in
      let p' = poll_call-Plain in_cksum input n b info p in
      if-Sends b (poll_call info).0 _ _ p'.eof
        (resend-Plain in_cksum input n b i (lowest_pdu (get_lowest_window_packet i.window))
          (get_lowest-GivesData in_cksum input n i.window p'.slots) p').eof

  filename_reply-Sends :
      (b : Bool) (d : Datagram) (info : RcopyInfo)
      → has_eof info.sent ≡ b
      → Sends b (filename_reply in_cksum d info)
  unfolding filename_reply
  filename_reply-Sends b d info e =
      if-Sends b (d.pdu_len == 0 || not (validate_checksum in_cksum d.pdu d.pdu_len)) _ _ e (
        if-Sends b (get_or d.pdu 6 0 == flag_filename_response) _ _
          (if-Sends b (ltb 7 d.pdu_len && not (get_or d.pdu 7 0 == 0)) _ _ e e) e)

  wait_filename_ack_state-Sends :
      (b : Bool) (info : RcopyInfo)
      → Plain in_cksum input n b info
      → Sends b (wait_filename_ack_state in_cksum info)
  unfolding wait_filename_ack_state
  wait_filename_ack_state-Sends b info p =
      let i = (poll_call info).1 in
      let p' = poll_call-Plain in_cksum input n b info p in
      if-Sends b (poll_call info).0 _ _
        (filename_reply-Sends b (recvfrom i).0 (recvfrom i).1
          (recvfrom-Plain in_cksum input n b i p').eof)
        p'.eof

  eof_reply-Sends :
      (b : Bool) (d : Datagram) (info : RcopyInfo)
      → has_eof info.sent ≡ b
      → Sends b (eof_reply in_cksum d info)
  unfolding eof_reply retry_eof
  eof_reply-Sends b d info e =
      if-Sends b (d.pdu_len == 0 || not (validate_checksum in_cksum d.pdu d.pdu_len)) _ _ e (
        if-Sends b (get_flag d.pdu == flag_eof_ack) _ _
          (control-Sends b info flag_final_ack [] refl e) e)

  wait_eof_ack_state-Sends :
      (b : Bool) (info : RcopyInfo)
      → Plain in_cksum input n b info
      → Sends b (wait_eof_ack_state in_cksum info)
  unfolding wait_eof_ack_state retry_eof
  wait_eof_ack_state-Sends b info p =
      let i = (poll_call info).1 in
      let p' = poll_call-Plain in_cksum input n b info p in
      if-Sends b (poll_call info).0 _ _
        (eof_reply-Sends b (recvfrom i).0 (recvfrom i).1
          (recvfrom-Plain in_cksum input n b i p').eof)
        p'.eof

  -- A step sends no EOF, or it leads to WAIT_EOF_ACK.
  pub rcopy_step-eof :
      (s : RcopyState) (info : RcopyInfo)
      → SlotsHold in_cksum input n info.window.packets
      → let out = rcopy_step in_cksum s info in
        (has_eof out.1.sent ≡ has_eof info.sent) ⊎ (out.0 ≡ wait_eof_ack)
  unfolding rcopy_step send_filename_state send_eof_state
  rcopy_step-eof s info h = go s
    where
      b : Bool
      b = has_eof info.sent

      plain : Plain in_cksum input n b info
      plain = record { slots = h; eof = refl }

      go :
          (s : RcopyState)
          → let out = rcopy_step in_cksum s info in
            (has_eof out.1.sent ≡ has_eof info.sent) ⊎ (out.0 ≡ wait_eof_ack)
      go send_filename = inl (control-Sends b info flag_filename _ refl refl)
      go wait_filename_ack = inl (wait_filename_ack_state-Sends b info plain)
      go send_data = inl (send_data_state-Sends b info refl)
      go process_acks = inl (process_acks_state-Sends b info plain)
      go window_closed = inl (window_closed_state-Sends b info plain)
      go send_eof = inr refl
      go wait_eof_ack = inl (wait_eof_ack_state-Sends b info plain)
      go done = inl refl
