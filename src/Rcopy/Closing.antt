-- ===== src/Rcopy/Closing.antt =====
-- rcopy.c: SEND_EOF and WAIT_EOF_ACK are entered at the end of the file, with every PDU acknowledged.
use cpe_464_proj.Base.{
  ap, ◌∙◌, ℕ, zero, suc, ◌+◌, ◌≡◌, refl, List, Bool, true, false, not, ◌&&◌, ◌||◌, arith, length,
  get_or, ◌==◌, ltb, leb, if◌then◌else◌,
}
use cpe_464_proj.Pdu.{Datagram, validate_checksum, get_flag, flag_eof_ack, flag_filename_response}
use cpe_464_proj.Window.{window_lowest_seq, is_window_open, get_next_seq_num}
use cpe_464_proj.Client.{
  RcopyState, send_filename, wait_filename_ack, send_data, process_acks, window_closed, send_eof,
  wait_eof_ack, done, ReadResult, read_error, read_bytes, RcopyInfo, poll_call, recvfrom,
  read_input, all_acked, retry_eof, drain_or_finish, after_acks, window_timeout,
  window_closed_state,
}
use cpe_464_proj.Rcopy.{
  send_control_packet, send_filename_state, filename_reply, wait_filename_ack_state, send_chunk,
  send_read, send_data_state, drain_acks, process_acks_state, send_eof_state, eof_reply,
  wait_eof_ack_state, rcopy_step, state_handler,
}

-- The file has ended, and every PDU is acknowledged.
abbrev pub AtEnd : RcopyInfo → Type 0
AtEnd info = (info.eof_reached ≡ true) × (all_acked info ≡ true)

AtEnd-ext :
    (info next : RcopyInfo)
    → next.window ≡ info.window
    → next.eof_reached ≡ info.eof_reached
    → AtEnd info
    → AtEnd next
unfolding all_acked
AtEnd-ext info next w r (end, all) =
    (r ∙ end, ap (λ x. window_lowest_seq x == get_next_seq_num x) w ∙ all)

and-both : (a b : Bool) → (a && b) ≡ true → (a ≡ true) × (b ≡ true)
and-both a b h = ground arith

poll_call-AtEnd : (info : RcopyInfo) → AtEnd info → AtEnd (poll_call info).1
unfolding poll_call
poll_call-AtEnd info c = AtEnd-ext info _ (ground arith) (ground arith) c

recvfrom-AtEnd : (info : RcopyInfo) → AtEnd info → AtEnd (recvfrom info).1
unfolding recvfrom
recvfrom-AtEnd info c = AtEnd-ext info _ (ground arith) (ground arith) c

-- SEND_EOF and WAIT_EOF_ACK are for the end of the file, with every PDU acknowledged.
abbrev pub Closing : RcopyState → RcopyInfo → Type 0
Closing send_eof info = AtEnd info
Closing wait_eof_ack info = AtEnd info
Closing _ info = Unit

pub Closing-ext :
    (s : RcopyState) (info next : RcopyInfo)
    → next.window ≡ info.window
    → next.eof_reached ≡ info.eof_reached
    → Closing s info
    → Closing s next
Closing-ext send_eof info next w r c = AtEnd-ext info next w r c
Closing-ext wait_eof_ack info next w r c = AtEnd-ext info next w r c
Closing-ext _ info next w r c = tt

module _ (in_cksum : List ℕ → ℕ → ℕ) where
  -- Where a step leads.
  abbrev pub Closes : RcopyState × RcopyInfo → Type 0
  Closes (s, info) = Closing s info

  if-Closes :
      (b : Bool) (x y : RcopyState × RcopyInfo)
      → (b ≡ true → Closes x)
      → (b ≡ false → Closes y)
      → Closes (if b then x else y)
  if-Closes true x y f g = f refl
  if-Closes false x y f g = g refl

  -- The two ways on from a test of the state.
  if-Closing :
      (c : Bool) (s t : RcopyState) (info : RcopyInfo)
      → (c ≡ true → Closing s info)
      → (c ≡ false → Closing t info)
      → Closing (if c then s else t) info
  if-Closing true s t info f g = f refl
  if-Closing false s t info f g = g refl

  process_acks_state-Closes : (info : RcopyInfo) → Closes (process_acks_state in_cksum info)
  unfolding process_acks_state after_acks
  process_acks_state-Closes info =
      let i = drain_acks in_cksum info.polls info in
      let onward = if is_window_open i.window then send_data else window_closed in
      if-Closes (i.eof_reached && all_acked i) (send_eof, i) (onward, i)
        (and-both i.eof_reached (all_acked i))
        (λ _. if-Closing (is_window_open i.window) send_data window_closed i (λ _. tt) (λ _. tt))

  window_closed_state-Closes : (info : RcopyInfo) → Closes (window_closed_state info)
  unfolding window_closed_state window_timeout
  window_closed_state-Closes info =
      let i = (poll_call info).1 in
      if-Closes (poll_call info).0 _ _ (λ _. tt)
        (λ _. if-Closing (leb 10 (i.timeout_count + 1)) done window_closed _ (λ _. tt) (λ _. tt))

  drain_or_finish-Closes :
      (info : RcopyInfo) → info.eof_reached ≡ true → Closes (drain_or_finish info)
  unfolding drain_or_finish
  drain_or_finish-Closes info end =
      if-Closing (all_acked info) send_eof process_acks info (λ all. (end, all)) (λ _. tt)

  send_read-Closes : (r : ReadResult) (info : RcopyInfo) → Closes (send_read in_cksum (r, info))
  unfolding send_read send_chunk
  send_read-Closes read_error info = tt
  send_read-Closes (read_bytes bytes) info =
      if-Closes (length bytes == 0) _ _
        (λ _. drain_or_finish-Closes (record info { eof_reached = true }) refl) (λ _. tt)

  send_data_state-Closes : (info : RcopyInfo) → Closes (send_data_state in_cksum info)
  unfolding send_data_state
  send_data_state-Closes info =
      if-Closes info.eof_reached _ _ (λ end. drain_or_finish-Closes info end)
        (λ _.
          if-Closes (is_window_open info.window) _ _
            (λ _. send_read-Closes (read_input info).0 (read_input info).1) (λ _. tt))

  filename_reply-Closes :
      (d : Datagram) (info : RcopyInfo) → Closes (filename_reply in_cksum d info)
  unfolding filename_reply
  filename_reply-Closes d info =
      if-Closes (d.pdu_len == 0 || not (validate_checksum in_cksum d.pdu d.pdu_len)) _ _ (λ _. tt)
        (λ _.
          if-Closes (get_or d.pdu 6 0 == flag_filename_response) _ _
            (λ _.
              if-Closes (ltb 7 d.pdu_len && not (get_or d.pdu 7 0 == 0)) _ _ (λ _. tt) (λ _. tt))
            (λ _. tt))

  wait_filename_ack_state-Closes :
      (info : RcopyInfo) → Closes (wait_filename_ack_state in_cksum info)
  unfolding wait_filename_ack_state
  wait_filename_ack_state-Closes info =
      let i = (poll_call info).1 in
      if-Closes (poll_call info).0 _ _ (λ _. filename_reply-Closes (recvfrom i).0 (recvfrom i).1)
        (λ _. if-Closing (leb 10 (i.filename_tries + 1)) done send_filename _ (λ _. tt) (λ _. tt))

  retry_eof-Closes : (info : RcopyInfo) → AtEnd info → Closes (retry_eof info)
  unfolding retry_eof
  retry_eof-Closes info c =
      if-Closing (leb 10 (info.eof_tries + 1)) done send_eof _ (λ _. tt)
        (λ _. AtEnd-ext info _ refl refl c)

  eof_reply-Closes :
      (d : Datagram) (info : RcopyInfo) → AtEnd info → Closes (eof_reply in_cksum d info)
  unfolding eof_reply
  eof_reply-Closes d info c =
      if-Closes (d.pdu_len == 0 || not (validate_checksum in_cksum d.pdu d.pdu_len)) _ _
        (λ _. retry_eof-Closes info c)
        (λ _.
          if-Closes (get_flag d.pdu == flag_eof_ack) _ _ (λ _. tt) (λ _. retry_eof-Closes info c))

  wait_eof_ack_state-Closes :
      (info : RcopyInfo) → AtEnd info → Closes (wait_eof_ack_state in_cksum info)
  unfolding wait_eof_ack_state
  wait_eof_ack_state-Closes info c =
      let i = (poll_call info).1 in
      let c' = poll_call-AtEnd info c in
      if-Closes (poll_call info).0 _ _
        (λ _. eof_reply-Closes (recvfrom i).0 (recvfrom i).1 (recvfrom-AtEnd i c'))
        (λ _. retry_eof-Closes i c')

  pub rcopy_step-Closes :
      (s : RcopyState) (info : RcopyInfo) → Closing s info → Closes (rcopy_step in_cksum s info)
  unfolding rcopy_step send_filename_state send_eof_state send_control_packet
  rcopy_step-Closes send_filename info c = tt
  rcopy_step-Closes wait_filename_ack info c = wait_filename_ack_state-Closes info
  rcopy_step-Closes send_data info c = send_data_state-Closes info
  rcopy_step-Closes process_acks info c = process_acks_state-Closes info
  rcopy_step-Closes window_closed info c = window_closed_state-Closes info
  rcopy_step-Closes send_eof info c = AtEnd-ext info _ refl refl c
  rcopy_step-Closes wait_eof_ack info c = wait_eof_ack_state-Closes info c
  rcopy_step-Closes done info c = tt

  pub state_handler-Closes :
      (fuel : ℕ) (s : RcopyState) (info : RcopyInfo)
      → Closing s info
      → Closes (state_handler in_cksum fuel (s, info))
  unfolding state_handler
  state_handler-Closes zero s info c = c
  state_handler-Closes (suc fuel) s info c =
      let out = rcopy_step in_cksum s info in
      state_handler-Closes fuel out.0 out.1 (rcopy_step-Closes s info c)
