-- ===== src/Server.antt =====
-- server.c: the receiving server. `ServerInfo` is the C structure without its descriptors and
-- addresses, with the static context of buffer.c, which it drives, and what the system calls answer:
-- each `pollCall` takes the next of `polls` (a time-out when none is left) and each `recvfromErr` the
-- next of `arrivals` (a failure when none is left). Control PDUs go to the log `sent` of the
-- receiver, so that they stand in order with its RRs and SREJs.
pub mod Filename
pub mod Serving
pub mod Session
pub mod Handshake
pub mod Main
mod Tests
use cpe_464_proj.Base.{
  ℤ, pos, ℕ, zero, suc, ◌+◌, List, [], ◌∷◌, ◌++◌, Option, none, some, Bool, true, false, not, ◌||◌,
  ◌&&◌, drop, ltb, ◌==◌, if◌then◌else◌, inc32, ntohl_at,
}
use cpe_464_proj.Pdu.{
  Datagram, create_pdu, validate_checksum, get_flag, flag_data, flag_filename,
  flag_filename_response, flag_eof, flag_eof_ack, flag_final_ack, header_len,
}
use cpe_464_proj.Buffer.{Receiver, buffer_init, buffer_process_pdu}

pub record ServerInfo : Type 0 where
  pub window_size : ℕ
  pub buffer_size : ℕ
  pub to_file : List ℕ
  pub control_seq_num : ℕ
  pub receiver : Receiver
  pub polls : List Bool
  pub arrivals : List Datagram

-- The port number, from `argc` and the `atoi` of the second argument; `none` is an exit.
unfoldable pub check_args : ℕ → ℤ → Option ℤ
check_args argc port =
    if ltb argc 2 || ltb 3 argc then none else (if argc == 3 then some port else some (pos 0))

-- What a FILENAME PDU asks for.
pub record Request : Type 0 where
  pub window_size : ℕ
  pub buffer_size : ℕ
  pub to_file : List ℕ

-- `strncpy` of at most `n` characters, read back as the C string that it leaves: the NUL behind the
-- 100th character ends it at the latest.
unfoldable pub strncpy : ℕ → List ℕ → List ℕ
strncpy zero chars = []
strncpy (suc n) [] = []
strncpy (suc n) (c ∷ chars) = let rest = strncpy n chars in if c == 0 then [] else c ∷ rest

-- `none` is -1. The sizes are stored as `int` and used as `uint32_t` again, the value that was read.
unfoldable pub parse_filename_packet : Datagram → Option Request
unfolding strncpy
parse_filename_packet d =
    if ltb d.pdu_len (header_len + 8 + 1)
    then none
    else some (record {
      window_size = ntohl_at d.pdu header_len;
      buffer_size = ntohl_at d.pdu 11;
      to_file = strncpy 100 (drop 15 d.pdu);
    })

unfoldable pub recvfrom : ServerInfo → Datagram × ServerInfo
recvfrom info = elim info.arrivals [
  | [] ↦ (record { pdu = []; pdu_len = 0 }, info)
  | d ∷ rest ↦ (d, record info { arrivals = rest })
]

-- The structure after `memset`, and the assignments of `parseFilenamePacket`.
abbrev pub cleared : List Bool → List Datagram → ServerInfo
cleared polls arrivals = record {
  window_size = 0;
  buffer_size = 0;
  to_file = [];
  control_seq_num = 0;
  receiver = buffer_init 0;
  polls = polls;
  arrivals = arrivals;
}

abbrev pub named : Request → ServerInfo → ServerInfo
named q info = record info {
  window_size = q.window_size;
  buffer_size = q.buffer_size;
  to_file = q.to_file;
}

module _ (in_cksum : List ℕ → ℕ → ℕ) where
  unfoldable pub send_server_control_packet : ServerInfo → ℕ → List ℕ → ServerInfo
  send_server_control_packet info flag payload =
      let r = info.receiver in
      record info {
        receiver = record r {
          sent = create_pdu in_cksum info.control_seq_num flag payload ∷ r.sent;
        };
        control_seq_num = inc32 info.control_seq_num;
      }

  unfoldable pub send_filename_response : ServerInfo → ℕ → ServerInfo
  unfolding send_server_control_packet
  send_filename_response info status =
      send_server_control_packet info flag_filename_response (status ∷ [])

  abbrev pub send_eof_ack : ServerInfo → ServerInfo
  send_eof_ack info = send_server_control_packet info flag_eof_ack []

  -- `pduLen > 0 && validateChecksum(pdu, pduLen)`
  abbrev pub is_intact : Datagram → Bool
  is_intact d = ltb 0 d.pdu_len && validate_checksum in_cksum d.pdu d.pdu_len

  -- The loop behind an EOF: `tries` is 10 - EOFTries, and the second argument is `polls`.
  unfoldable pub await_final_ack : ℕ → List Bool → ServerInfo → ServerInfo
  unfolding recvfrom send_server_control_packet
  await_final_ack zero polls info = record info { polls = polls }
  await_final_ack (suc tries) [] info = await_final_ack tries [] (send_eof_ack info)
  await_final_ack (suc tries) (false ∷ rest) info = await_final_ack tries rest (send_eof_ack info)
  await_final_ack (suc tries) (true ∷ rest) info =
      let (d, info') = recvfrom info in
      let again = await_final_ack tries rest (send_eof_ack info') in
      if is_intact d && get_flag d.pdu == flag_final_ack
      then record info' { polls = rest }
      else again

  -- What `receiveFile` does with a data PDU: the call of `bufferProcessPDU`.
  abbrev pub take_data : ServerInfo → Datagram → ServerInfo
  take_data info d = record info { receiver = buffer_process_pdu in_cksum info.receiver d }

  -- The outer loop of `receiveFile`: the first argument is `polls`, and a time-out of ten seconds
  -- ends it.
  unfoldable pub receive_file : List Bool → ServerInfo → ServerInfo
  unfolding recvfrom await_final_ack
  receive_file [] info = record info { polls = [] }
  receive_file (false ∷ rest) info = record info { polls = rest }
  receive_file (true ∷ rest) info =
      let (d, info') = recvfrom info in
      let skip = receive_file rest info' in
      let next = receive_file rest (take_data info' d) in
      let finish = await_final_ack 10 rest (send_eof_ack info') in
      if not (is_intact d)
      then skip
      else (if get_flag d.pdu == flag_data
          then next
          else (if get_flag d.pdu == flag_eof then finish else skip))

  -- `processClient` with the output file open: the response 0, and the transfer.
  unfoldable pub serve_file : ServerInfo → ServerInfo
  unfolding send_filename_response receive_file
  serve_file info =
      let replied = send_filename_response info 0 in
      let fresh : Receiver = buffer_init info.window_size in
      receive_file replied.polls
        (record replied { receiver = record fresh { sent = replied.receiver.sent } })

  -- `processClient`: the first argument says whether `open` succeeds, the last two are the answers
  -- of the system to the session. A PDU that does not parse ends the child with nothing sent.
  unfoldable pub process_client : Bool → Datagram → List Bool → List Datagram → ServerInfo
  unfolding parse_filename_packet serve_file
  process_client opened d polls arrivals = elim (parse_filename_packet d) [
    | none ↦ cleared polls arrivals
    | some q ↦
        if opened
        then serve_file (named q (cleared polls arrivals))
        else send_filename_response (named q (cleared polls arrivals)) 1
  ]

  -- The tests of the loop of `runServer`: whether a datagram makes it fork a child.
  unfoldable pub starts_client : Datagram → Bool
  starts_client d = is_intact d && get_flag d.pdu == flag_filename

  -- The loop of `runServer` over the datagrams that come to the main socket: the PDUs for which
  -- children run `processClient`.
  unfoldable pub run_server : List Datagram → List Datagram
  unfolding starts_client
  run_server [] = []
  run_server (d ∷ ds) = let rest = run_server ds in if starts_client d then d ∷ rest else rest
