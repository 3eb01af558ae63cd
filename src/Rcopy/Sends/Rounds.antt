-- ===== src/Rcopy/Sends/Rounds.antt =====
-- What the rounds of `stateHandler` in rcopy.c hand to `sendtoErr`.
use cpe_464_proj.Base.{
  ℕ, zero, suc, ◌≤◌, ◌≡◌, refl, sym, subst, List, [], ◌∷◌, not, arith, length, length-take_bounded,
  take, length-append, get_or, ltb, ◌==◌, ◌&&◌, ◌||◌, All,
}
use cpe_464_proj.Pdu.{
  Datagram, validate_checksum, get_flag, create_pdu, flag_data, flag_eof_ack,
  flag_filename_response,
}
use cpe_464_proj.Window.{is_window_open, get_next_seq_num}
use cpe_464_proj.Client.{
  RcopyState, send_filename, wait_filename_ack, send_data, process_acks, window_closed, send_eof,
  wait_eof_ack, done, ReadResult, read_error, read_bytes, RcopyInfo, poll_call, recvfrom,
  read_input, all_acked, retry_eof, drain_or_finish, after_acks,
}
use cpe_464_proj.Setup.{Args, Answers, init_rcopy_info, started}
use cpe_464_proj.Rcopy.{
  send_filename_state, filename_reply, wait_filename_ack_state, send_chunk, send_read,
  send_data_state, drain_acks, process_acks_state, send_eof_state, eof_reply, wait_eof_ack_state,
  rcopy_step, state_handler,
}
use cpe_464_proj.Rcopy.Start.{init_rcopy_info-IsStarted}
use cpe_464_proj.Rcopy.Sends.{
  if-Keeps, IsSendable, AreLoaded, window_set_up-AreLoaded, create_pdu-IsSendable,
  window_add_packet-AreLoaded,
}
use cpe_464_proj.Rcopy.Sends.Kept.{
  send_control_packet-SendsPdus, drain_acks-SendsPdus, SendsPdus, Goes, same, poll_call-SendsPdus,
  recvfrom-SendsPdus, window_closed_state-Goes,
}

module _ (in_cksum : List ℕ → ℕ → ℕ) where
  process_acks_state-Goes :
      (info : RcopyInfo) → SendsPdus info → Goes (process_acks_state in_cksum info)
  unfolding process_acks_state after_acks
  process_acks_state-Goes info h =
      let i = drain_acks in_cksum info.polls info in
      let h' = drain_acks-SendsPdus in_cksum info.polls info h in
      if-Keeps Goes (i.eof_reached && all_acked i) _ _ h' h'

  send_chunk-Goes :
      (bytes : List ℕ) (info : RcopyInfo)
      → length bytes ≤ 1400
      → SendsPdus info
      → Goes (send_chunk in_cksum bytes info)
  unfolding send_chunk drain_or_finish
  send_chunk-Goes bytes info fits h =
      let pdu = create_pdu in_cksum (get_next_seq_num info.window) flag_data bytes in
      let whole =
        create_pdu-IsSendable in_cksum (get_next_seq_num info.window) flag_data bytes fits in
      if-Keeps Goes (length bytes == 0) _ _ (same info _ refl refl refl refl h) (record {
        all_sent = (whole, h.all_sent);
        loaded = window_add_packet-AreLoaded info.window pdu whole h.loaded;
        small_buffer = h.small_buffer;
        small_name = h.small_name;
      })

  send_read-Goes : (info : RcopyInfo) → SendsPdus info → Goes (send_read in_cksum (read_input info))
  unfolding read_input send_read
  send_read-Goes info h = go info.reads refl
    where
      rest_of : (rest : List ReadResult) → SendsPdus (record info { reads = rest })
      rest_of rest = same info (record info { reads = rest }) refl refl refl refl h

      go : (rs : List ReadResult) → info.reads ≡ rs → Goes (send_read in_cksum (read_input info))
      go [] e = rw (e, read_input) (send_chunk-Goes [] info (omega arith) h)
      go (read_error ∷ rest) e = rw (e, read_input) (rest_of rest)
      go (read_bytes bytes ∷ rest) e =
          rw (e, read_input)
            (send_chunk-Goes (take info.buffer_size bytes) (record info { reads = rest })
              (omega (arith, length-take_bounded info.buffer_size bytes, h.small_buffer))
              (rest_of rest))

  send_data_state-Goes : (info : RcopyInfo) → SendsPdus info → Goes (send_data_state in_cksum info)
  unfolding send_data_state drain_or_finish
  send_data_state-Goes info h =
      if-Keeps Goes info.eof_reached _ _ h
        (if-Keeps Goes (is_window_open info.window) _ _ (send_read-Goes info h) h)

  filename_reply-Goes :
      (d : Datagram) (info : RcopyInfo) → SendsPdus info → Goes (filename_reply in_cksum d info)
  unfolding filename_reply
  filename_reply-Goes d info h =
      if-Keeps Goes (d.pdu_len == 0 || not (validate_checksum in_cksum d.pdu d.pdu_len)) _ _ h (
        if-Keeps Goes (get_or d.pdu 6 0 == flag_filename_response) _ _
          (if-Keeps Goes (ltb 7 d.pdu_len && not (get_or d.pdu 7 0 == 0)) _ _ h
            (same info _ refl refl refl refl h))
          h)

  wait_filename_ack_state-Goes :
      (info : RcopyInfo) → SendsPdus info → Goes (wait_filename_ack_state in_cksum info)
  unfolding wait_filename_ack_state
  wait_filename_ack_state-Goes info h =
      let i = (poll_call info).1 in
      let h' = poll_call-SendsPdus info h in
      if-Keeps Goes (poll_call info).0 _ _
        (filename_reply-Goes (recvfrom i).0 (recvfrom i).1 (recvfrom-SendsPdus i h'))
        (same i _ refl refl refl refl h')

  retry_eof-Goes : (info : RcopyInfo) → SendsPdus info → Goes (retry_eof info)
  unfolding retry_eof
  retry_eof-Goes info h = same info _ refl refl refl refl h

  eof_reply-Goes :
      (d : Datagram) (info : RcopyInfo) → SendsPdus info → Goes (eof_reply in_cksum d info)
  unfolding eof_reply
  eof_reply-Goes d info h =
      if-Keeps Goes (d.pdu_len == 0 || not (validate_checksum in_cksum d.pdu d.pdu_len)) _ _
        (retry_eof-Goes info h)
        (if-Keeps Goes (get_flag d.pdu == flag_eof_ack) _ _
          (send_control_packet-SendsPdus in_cksum info _ [] (omega arith) h)
          (retry_eof-Goes info h))

  wait_eof_ack_state-Goes :
      (info : RcopyInfo) → SendsPdus info → Goes (wait_eof_ack_state in_cksum info)
  unfolding wait_eof_ack_state
  wait_eof_ack_state-Goes info h =
      let i = (poll_call info).1 in
      let h' = poll_call-SendsPdus info h in
      if-Keeps Goes (poll_call info).0 _ _
        (eof_reply-Goes (recvfrom i).0 (recvfrom i).1 (recvfrom-SendsPdus i h'))
        (retry_eof-Goes i h')

  rcopy_step-Goes :
      (s : RcopyState) (info : RcopyInfo) → SendsPdus info → Goes (rcopy_step in_cksum s info)
  unfolding rcopy_step send_filename_state send_eof_state
  rcopy_step-Goes send_filename info h =
      send_control_packet-SendsPdus in_cksum info _ _
        (omega (arith, h.small_name, length-append info.to_file (0 ∷ []))) h
  rcopy_step-Goes wait_filename_ack info h = wait_filename_ack_state-Goes info h
  rcopy_step-Goes send_data info h = send_data_state-Goes info h
  rcopy_step-Goes process_acks info h = process_acks_state-Goes info h
  rcopy_step-Goes window_closed info h = window_closed_state-Goes info h
  rcopy_step-Goes send_eof info h = send_control_packet-SendsPdus in_cksum info _ [] (omega arith) h
  rcopy_step-Goes wait_eof_ack info h = wait_eof_ack_state-Goes info h
  rcopy_step-Goes done info h = h

  state_handler-SendsPdus :
      (fuel : ℕ) (s : RcopyState) (info : RcopyInfo)
      → SendsPdus info
      → SendsPdus (state_handler in_cksum fuel (s, info)).1
  unfolding state_handler
  state_handler-SendsPdus zero s info h = h
  state_handler-SendsPdus (suc fuel) s info h =
      let out = rcopy_step in_cksum s info in
      state_handler-SendsPdus fuel out.0 out.1 (rcopy_step-Goes s info h)

  -- Whatever arrives and however often it times out, the length that the client hands to sendtoErr
  -- is at every point of a run that of a PDU, from 7 to 1407 bytes and never the -1 of createPDU,
  -- new PDUs and those out of the window alike, for a client started from any accepted command
  -- line, whatever its reads give.
  pub only_pdus_sent :
      (a : Args) (answers : Answers) (info : RcopyInfo) (fuel : ℕ)
      → init_rcopy_info a answers ≡ started info
      → All IsSendable (state_handler in_cksum fuel (send_filename, info)).1.sent
  only_pdus_sent a answers info fuel e =
      let s = init_rcopy_info-IsStarted a answers info e in
      (state_handler-SendsPdus fuel send_filename info (record {
        all_sent = subst (All IsSendable) (sym s.nothing_sent) tt;
        loaded =
            subst (λ w. AreLoaded w.packets) (sym s.window_new)
              (window_set_up-AreLoaded info.window.window_size);
        small_buffer = s.buffer_fits;
        small_name = s.name_fits;
      })).all_sent
