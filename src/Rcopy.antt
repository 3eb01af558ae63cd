-- ===== src/Rcopy.antt =====
-- rcopy.c: the state functions of the sending client and the loop of `stateHandler`.

pub mod Start
pub mod Retry
pub mod Closed
pub mod Stall
pub mod Silence
pub mod Sends
pub mod Chunks
pub mod Runs
pub mod Input
pub mod Closing
pub mod Acked
pub mod Valid
pub mod Eof
pub mod Main
mod Tests
use cpe_464_proj.Base.{
  ℕ, zero, suc, ◌+◌, List, [], ◌∷◌, ◌++◌, Option, none, some, Bool, true, false, not, ◌||◌, ◌&&◌,
  length, get_or, ltb, leb, ◌==◌, if◌then◌else◌, inc32, htonl_bytes,
}
use cpe_464_proj.Pdu.{
  Datagram, create_pdu, validate_checksum, get_flag, get_control_seq_num, flag_data, flag_rr,
  flag_srej, flag_filename, flag_filename_response, flag_eof, flag_eof_ack, flag_final_ack,
}
use cpe_464_proj.Client.{
  RcopyState, send_filename, wait_filename_ack, send_data, process_acks, window_closed, send_eof,
  wait_eof_ack, done, ReadResult, read_error, read_bytes, RcopyInfo, poll_call, recvfrom,
  read_input, retry_eof, drain_or_finish, resend, after_acks, window_closed_state,
}
use cpe_464_proj.Window.{
  Window, is_window_open, window_lowest_seq, get_next_seq_num, window_add_packet, process_rr,
  process_srej,
}

module _ (in_cksum : List ℕ → ℕ → ℕ) where
  unfoldable pub send_control_packet : RcopyInfo → ℕ → List ℕ → RcopyInfo
  send_control_packet info flag payload = record info {
    sent = create_pdu in_cksum info.control_seq_num flag payload ∷ info.sent;
    control_seq_num = inc32 info.control_seq_num;
  }

  -- The payload has the window size, the buffer size and the file name with its NUL.
  unfoldable pub send_filename_state : RcopyInfo → RcopyState × RcopyInfo
  unfolding send_control_packet
  send_filename_state info =
      let payload =
        htonl_bytes info.window.window_size
        ++ (htonl_bytes info.buffer_size ++ (info.to_file ++ (0 ∷ []))) in
      (wait_filename_ack, send_control_packet info flag_filename payload)

  -- `waitFilenameAckState` with a PDU received.
  unfoldable pub filename_reply : Datagram → RcopyInfo → RcopyState × RcopyInfo
  filename_reply d info =
      if d.pdu_len == 0 || not (validate_checksum in_cksum d.pdu d.pdu_len)
      then (wait_filename_ack, info)
      else (if get_or d.pdu 6 0 == flag_filename_response
          then (if ltb 7 d.pdu_len && not (get_or d.pdu 7 0 == 0)
              then (done, info)
              else (send_data, record info { filename_tries = 0 }))
          else (wait_filename_ack, info))

  unfoldable pub wait_filename_ack_state : RcopyInfo → RcopyState × RcopyInfo
  unfolding poll_call recvfrom filename_reply
  wait_filename_ack_state info =
      let (ready, info') = poll_call info in
      let tries = info'.filename_tries + 1 in
      let (d, info'') = recvfrom info' in
      if ready
      then filename_reply d info''
      else (if leb 10 tries then done else send_filename, record info' { filename_tries = tries })

  -- `sendDataState` with the bytes that `read` gave.
  unfoldable pub send_chunk : List ℕ → RcopyInfo → RcopyState × RcopyInfo
  unfolding drain_or_finish get_next_seq_num
  send_chunk bytes info =
      if length bytes == 0
      then drain_or_finish (record info { eof_reached = true })
      else let pdu = create_pdu in_cksum (get_next_seq_num info.window) flag_data bytes in
        (
          process_acks,
          record info { sent = pdu ∷ info.sent; window = (window_add_packet info.window pdu).1 },
        )

  unfoldable pub send_read : ReadResult × RcopyInfo → RcopyState × RcopyInfo
  unfolding send_chunk
  send_read (read_error, info) = (done, info)
  send_read (read_bytes bytes, info) = send_chunk bytes info

  unfoldable pub send_data_state : RcopyInfo → RcopyState × RcopyInfo
  unfolding drain_or_finish is_window_open send_read read_input
  send_data_state info =
      if info.eof_reached
      then drain_or_finish info
      else (if is_window_open info.window
          then send_read (read_input info)
          else (window_closed, info))

  -- The body of the loop of `processAcksState`, with a PDU received.
  unfoldable pub handle_ack : Datagram × RcopyInfo → RcopyInfo
  unfolding resend
  handle_ack (d, info) =
      if ltb 0 d.pdu_len && validate_checksum in_cksum d.pdu d.pdu_len
      then (if get_flag d.pdu == flag_rr
          then record info {
            window = process_rr info.window (get_control_seq_num d.pdu);
            timeout_count = 0;
          }
          else (if get_flag d.pdu == flag_srej
              then record (resend info (process_srej info.window (get_control_seq_num d.pdu))) {
                timeout_count = 0;
              }
              else info))
      else info

  -- The loop: it goes on while polls find the socket ready, and the first argument is `polls`.
  unfoldable pub drain_acks : List Bool → RcopyInfo → RcopyInfo
  unfolding handle_ack recvfrom
  drain_acks [] info = record info { polls = [] }
  drain_acks (false ∷ rest) info = record info { polls = rest }
  drain_acks (true ∷ rest) info = drain_acks rest (handle_ack (recvfrom info))

  unfoldable pub process_acks_state : RcopyInfo → RcopyState × RcopyInfo
  unfolding drain_acks after_acks
  process_acks_state info = after_acks (drain_acks info.polls info)

  unfoldable pub send_eof_state : RcopyInfo → RcopyState × RcopyInfo
  unfolding send_control_packet
  send_eof_state info = (wait_eof_ack, send_control_packet info flag_eof [])

  -- `waitEofAckState` with a PDU received.
  unfoldable pub eof_reply : Datagram → RcopyInfo → RcopyState × RcopyInfo
  unfolding retry_eof send_control_packet
  eof_reply d info =
      if d.pdu_len == 0 || not (validate_checksum in_cksum d.pdu d.pdu_len)
      then retry_eof info
      else (if get_flag d.pdu == flag_eof_ack
          then (done, send_control_packet info flag_final_ack [])
          else retry_eof info)

  unfoldable pub wait_eof_ack_state : RcopyInfo → RcopyState × RcopyInfo
  unfolding poll_call recvfrom eof_reply retry_eof
  wait_eof_ack_state info =
      let (ready, info') = poll_call info in
      let (d, info'') = recvfrom info' in if ready then eof_reply d info'' else retry_eof info'

  -- The switch of `stateHandler`.
  unfoldable pub rcopy_step : RcopyState → RcopyInfo → RcopyState × RcopyInfo
  rcopy_step send_filename info = send_filename_state info
  rcopy_step wait_filename_ack info = wait_filename_ack_state info
  rcopy_step send_data info = send_data_state info
  rcopy_step process_acks info = process_acks_state info
  rcopy_step window_closed info = window_closed_state info
  rcopy_step send_eof info = send_eof_state info
  rcopy_step wait_eof_ack info = wait_eof_ack_state info
  rcopy_step done info = (done, info)

  -- `fuel` rounds of the loop of `stateHandler`, which does nothing more once the state is DONE.
  unfoldable pub state_handler : ℕ → RcopyState × RcopyInfo → RcopyState × RcopyInfo
  unfolding rcopy_step
  state_handler zero (state, info) = (state, info)
  state_handler (suc fuel) (state, info) = state_handler fuel (rcopy_step state info)
