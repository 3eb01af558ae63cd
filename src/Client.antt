-- ===== src/Client.antt =====
-- rcopy.c: the state of the sending client, and the parts of its state functions that build no PDU.
-- `RcopyInfo` is the C structure without its descriptors and addresses, with what the system calls
-- answer and are handed: each `pollCall` takes the next of `polls` (whether the socket is ready; a
-- time-out when none is left), each `recvfromErr` the next of `arrivals` (a failure when none is
-- left), each `read` the next of `reads`, as far as `bufferSize`
-- goes (the end of the file when none is left), and `sent` logs the
-- PDUs given to `sendtoErr`, newest first.
use cpe_464_proj.Base.{
  ℕ, ◌+◌, List, [], ◌∷◌, Option, none, some, Bool, false, ◌&&◌, length, take, ltb, leb, ◌==◌,
  if◌then◌else◌,
}
use cpe_464_proj.Pdu.{Datagram}
use cpe_464_proj.Window.{
  Window, is_window_open, window_lowest_seq, get_next_seq_num, get_lowest_window_packet,
}

pub data RcopyState : Type 0 where
  send_filename wait_filename_ack send_data process_acks : RcopyState
  window_closed send_eof wait_eof_ack done : RcopyState

-- A result of `read`: -1, or the bytes read, none at the end of the file.
pub data ReadResult : Type 0 where
  read_error : ReadResult
  read_bytes : List ℕ → ReadResult

pub record RcopyInfo : Type 0 where
  pub window : Window
  pub buffer_size : ℕ
  pub timeout_count : ℕ
  pub filename_tries : ℕ
  pub eof_tries : ℕ
  pub to_file : List ℕ
  pub control_seq_num : ℕ
  pub eof_reached : Bool
  pub polls : List Bool
  pub arrivals : List Datagram
  pub reads : List ReadResult
  pub sent : List (Option (List ℕ))

-- Whether `pollCall` returns the socket.
unfoldable pub poll_call : RcopyInfo → Bool × RcopyInfo
poll_call info = elim info.polls [
  | [] ↦ (false, info)
  | ready ∷ rest ↦ (ready, record info { polls = rest })
]

unfoldable pub recvfrom : RcopyInfo → Datagram × RcopyInfo
recvfrom info = elim info.arrivals [
  | [] ↦ (record { pdu = []; pdu_len = 0 }, info)
  | d ∷ rest ↦ (d, record info { arrivals = rest })
]

-- `read` gives no more bytes than it is asked for.
abbrev pub read_within : ℕ → ReadResult → ReadResult
read_within count read_error = read_error
read_within count (read_bytes bytes) = read_bytes (take count bytes)

-- `read` of at most `bufferSize` bytes.
unfoldable pub read_input : RcopyInfo → ReadResult × RcopyInfo
read_input info = elim info.reads [
  | [] ↦ (read_bytes [], info)
  | r ∷ rest ↦ (read_within info.buffer_size r, record info { reads = rest })
]

-- `windowLowestSeq(window) == getNextSeqNum(window)`
unfoldable pub all_acked : RcopyInfo → Bool
unfolding window_lowest_seq get_next_seq_num
all_acked info = window_lowest_seq info.window == get_next_seq_num info.window

-- The answer to a missing or unusable EOF_ACK.
unfoldable pub retry_eof : RcopyInfo → RcopyState × RcopyInfo
retry_eof info =
    let tries = info.eof_tries + 1 in
    (if leb 10 tries then done else send_eof, record info { eof_tries = tries })

-- At the end of the file.
unfoldable pub drain_or_finish : RcopyInfo → RcopyState × RcopyInfo
unfolding all_acked
drain_or_finish info = (if all_acked info then send_eof else process_acks, info)

-- `sendtoErr` of a PDU from the window, if there is one of positive length.
unfoldable pub resend : RcopyInfo → Option (List ℕ) → RcopyInfo
resend info none = info
resend info (some pdu) =
    if ltb 0 (length pdu) then record info { sent = some pdu ∷ info.sent } else info

unfoldable pub lowest_pdu : Option (ℕ × List ℕ) → Option (List ℕ)
lowest_pdu none = none
lowest_pdu (some (seq, pdu)) = some pdu

-- The end of `processAcksState`, behind its loop.
unfoldable pub after_acks : RcopyInfo → RcopyState × RcopyInfo
unfolding all_acked is_window_open
after_acks info =
    if info.eof_reached && all_acked info
    then (send_eof, info)
    else (if is_window_open info.window then send_data else window_closed, info)

-- A quiet second in `windowClosedState`: the oldest PDU is sent again.
unfoldable pub window_timeout : RcopyInfo → RcopyState × RcopyInfo
unfolding resend lowest_pdu get_lowest_window_packet
window_timeout info =
    let count = info.timeout_count + 1 in
    (
      if leb 10 count then done else window_closed,
      record (resend info (lowest_pdu (get_lowest_window_packet info.window))) {
        timeout_count = count;
      },
    )

unfoldable pub window_closed_state : RcopyInfo → RcopyState × RcopyInfo
unfolding poll_call window_timeout
window_closed_state info =
    let (ready, info') = poll_call info in
    if ready then (process_acks, record info' { timeout_count = 0 }) else window_timeout info'
