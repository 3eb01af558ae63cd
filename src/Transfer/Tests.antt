-- ===== src/Transfer/Tests.antt =====
-- A transfer of one packet, evaluated, and the theorems at it.
use cpe_464_proj.Base.{
  ℕ, ◌≡◌, refl, List, [], ◌∷◌, some, none, true, false, inl, inr, pos, arith, All,
}
use cpe_464_proj.Checksum.{in_cksum}
use cpe_464_proj.Pdu.{
  Datagram, create_pdu, validate_checksum, get_flag, get_control_seq_num, get_sequence_num,
  get_payload_len,
}
use cpe_464_proj.Client.{RcopyState, RcopyInfo, read_bytes, send_filename, wait_eof_ack}
use cpe_464_proj.Setup.{Args, Answers, init_rcopy_info, started}
use cpe_464_proj.Rcopy.{
  state_handler, send_filename_state, wait_filename_ack_state, send_data_state, process_acks_state,
  send_eof_state, wait_eof_ack_state,
}
use cpe_464_proj.Window.{window_set_up, window_add_packet, process_rr}
use cpe_464_proj.Window.Valid.{IsValid}
use cpe_464_proj.Rcopy.Valid.{client_window-IsValid}
use cpe_464_proj.Buffer.{buffer_init, buffer_process_pdu}
use cpe_464_proj.Server.{process_client}
use cpe_464_proj.Transfer.{IsCarried}
use cpe_464_proj.Networks.{SocketAnswers}
use cpe_464_proj.Server.{ServerInfo}
use cpe_464_proj.Server.Main.{ForkAnswers}
use cpe_464_proj.Rcopy.Main as ClientProgram
use cpe_464_proj.Server.Main as ServerProgram
use cpe_464_proj.Transfer.Programs.{WritesPrefix, sessions_write_prefix}
use cpe_464_proj.Transfer.Complete.{transfer_complete}

-- `rcopy in out 4 1400 0 host port`.
abbrev command_line : Args
command_line = record {
  argc = 8;
  from_file = 105 ∷ 110 ∷ [];
  to_file = 111 ∷ 117 ∷ 116 ∷ [];
  window_size = pos 4;
  buffer_size = pos 1400;
  error_rate_valid = true;
}

-- The server's answer to the file name, from `createPDU` with the flag 8 and the status 0.
abbrev accepted : List ℕ
accepted = 0 ∷ 0 ∷ 0 ∷ 0 ∷ 247 ∷ 255 ∷ 8 ∷ 0 ∷ []

abbrev answers : Answers
answers = record {
  opened = true;
  connected = true;
  allocated = true;
  polls = true ∷ [];
  arrivals = record { pdu = accepted; pdu_len = 8 } ∷ [];
  reads = read_bytes (104 ∷ 105 ∷ []) ∷ [];
}

abbrev client : RcopyInfo
client = record {
  window = window_set_up 4;
  buffer_size = 1400;
  timeout_count = 0;
  filename_tries = 0;
  eof_tries = 0;
  to_file = 111 ∷ 117 ∷ 116 ∷ [];
  control_seq_num = 0;
  eof_reached = false;
  polls = true ∷ [];
  arrivals = record { pdu = accepted; pdu_len = 8 } ∷ [];
  reads = read_bytes (104 ∷ 105 ∷ []) ∷ [];
  sent = [];
}

-- The PDUs of the client's first three states.
abbrev filename_pdu : List ℕ
filename_pdu =
    0 ∷ 0 ∷ 0 ∷ 0 ∷ 7 ∷ 23 ∷ 7 ∷ 0 ∷ 0 ∷ 0 ∷ 4 ∷ 0 ∷ 0 ∷ 5 ∷ 120 ∷ 111 ∷ 117 ∷ 116 ∷ 0 ∷ []

abbrev data_pdu : List ℕ
data_pdu = 0 ∷ 0 ∷ 0 ∷ 0 ∷ 147 ∷ 151 ∷ 3 ∷ 104 ∷ 105 ∷ []

abbrev first : Datagram
first = record { pdu = filename_pdu; pdu_len = 19 }

abbrev packet : Datagram
packet = record { pdu = data_pdu; pdu_len = 9 }

client_starts : init_rcopy_info command_line answers ≡ started client
unfolding init_rcopy_info
client_starts = refl

client_sends :
    (state_handler in_cksum 3 (send_filename, client)).1.sent
    ≡ some data_pdu ∷ some filename_pdu ∷ []
unfolding state_handler in_cksum window_set_up send_filename_state wait_filename_ack_state
    validate_checksum send_data_state create_pdu
client_sends = refl

-- The server writes the packet, and does not write it again when it comes twice.
server_writes :
    (process_client in_cksum true first (true ∷ true ∷ []) (packet ∷ packet ∷ [])).receiver.written
    ≡ 104 ∷ 105 ∷ []
unfolding process_client in_cksum buffer_init validate_checksum get_flag buffer_process_pdu
    get_sequence_num get_payload_len
server_writes = refl

arrivals-IsCarried :
    All
      (IsCarried in_cksum (state_handler in_cksum 3 (send_filename, client)).1.sent)
      (packet ∷ packet ∷ [])
arrivals-IsCarried =
    rw client_sends (
      (λ _. (data_pdu, [], inl refl, refl, refl)),
      ((λ _. (data_pdu, [], inl refl, refl, refl)), tt),
    )

-- The two programs: `rcopy in out 4 1400 0 host port`, and `server 0` with one child.
abbrev sockets : SocketAnswers
sockets = record {
  socket = some 3;
  binds = some 36895;
  named = true;
  listens = true;
  accept = none;
  connects = true;
  host = none;
}

abbrev fork : ForkAnswers
fork = record {
  forked = true;
  sockets = sockets;
  opened = true;
  polls = true ∷ true ∷ [];
  arrivals = packet ∷ packet ∷ [];
}

client_runs :
    ClientProgram.main in_cksum command_line answers 3
    ≡ some (state_handler in_cksum 3 (send_filename, client))
unfolding ClientProgram.main init_rcopy_info
client_runs = refl

abbrev session : ServerInfo
session = process_client in_cksum true first (true ∷ true ∷ []) (packet ∷ packet ∷ [])

server_runs :
    ServerProgram.main in_cksum 2 (pos 0) sockets (first ∷ []) (fork ∷ [])
    ≡ some (some session ∷ [])
unfolding ServerProgram.main in_cksum validate_checksum get_flag
server_runs = refl

sessions_write_prefix_example : All (WritesPrefix (104 ∷ 105 ∷ [])) (some session ∷ [])
sessions_write_prefix_example =
    sessions_write_prefix in_cksum command_line answers 3
      (state_handler in_cksum 3 (send_filename, client)) 2 (pos 0) sockets (first ∷ []) (fork ∷ [])
      (some session ∷ []) client_runs server_runs (omega arith) (arrivals-IsCarried, tt)

-- A whole transfer: the server's RR arrives, and the client comes to its EOF.
abbrev acknowledged : List ℕ
acknowledged = 0 ∷ 0 ∷ 0 ∷ 0 ∷ 249 ∷ 255 ∷ 5 ∷ 0 ∷ 0 ∷ 0 ∷ 1 ∷ []

abbrev whole_answers : Answers
whole_answers = record answers {
  polls = true ∷ true ∷ false ∷ [];
  arrivals =
      record { pdu = accepted; pdu_len = 8 } ∷ record { pdu = acknowledged; pdu_len = 11 } ∷ [];
}

abbrev whole_client : RcopyInfo
whole_client = record client { polls = whole_answers.polls; arrivals = whole_answers.arrivals }

whole_client_starts : init_rcopy_info command_line whole_answers ≡ started whole_client
unfolding init_rcopy_info
whole_client_starts = refl

server_sends :
    (process_client in_cksum true first (true ∷ []) (packet ∷ [])).receiver.sent
    ≡ some acknowledged ∷ some accepted ∷ []
unfolding process_client in_cksum buffer_init validate_checksum get_flag buffer_process_pdu
    get_sequence_num get_payload_len create_pdu
server_sends = refl

abbrev eof_pdu : List ℕ
eof_pdu = 0 ∷ 0 ∷ 0 ∷ 1 ∷ 223 ∷ 254 ∷ 32 ∷ []

abbrev told : RcopyState × RcopyInfo
told = state_handler in_cksum 6 (send_filename, whole_client)

told_state : told.0 ≡ wait_eof_ack
unfolding state_handler in_cksum window_set_up send_filename_state wait_filename_ack_state
    validate_checksum send_data_state create_pdu process_acks_state send_eof_state get_flag
    process_rr get_control_seq_num window_add_packet
told_state = refl

told_sends :
    (state_handler in_cksum 1 told).1.sent ≡ some eof_pdu ∷ some data_pdu ∷ some filename_pdu ∷ []
unfolding state_handler in_cksum window_set_up send_filename_state wait_filename_ack_state
    validate_checksum send_data_state create_pdu process_acks_state send_eof_state get_flag
    process_rr get_control_seq_num window_add_packet wait_eof_ack_state
told_sends = refl

to_server-IsCarried : All (IsCarried in_cksum (state_handler in_cksum 1 told).1.sent) (packet ∷ [])
to_server-IsCarried = rw told_sends ((λ _. (data_pdu, [], inr (inl refl), refl, refl)), tt)

to_client-IsCarried :
    All
      (IsCarried in_cksum
        (process_client in_cksum true first (true ∷ []) (packet ∷ [])).receiver.sent)
      whole_answers.arrivals
to_client-IsCarried = rw server_sends (
  (λ _. (accepted, [], inr (inl refl), refl, refl)),
  ((λ _. (acknowledged, [], inl refl, refl, refl)), tt),
)

transfer_complete_example :
    (process_client in_cksum true first (true ∷ []) (packet ∷ [])).receiver.written ≡ 104 ∷ 105 ∷ []
transfer_complete_example =
    transfer_complete in_cksum command_line whole_answers whole_client 6 1 true first (true ∷ [])
      (packet ∷ []) whole_client_starts (omega arith) told_state to_server-IsCarried
      to_client-IsCarried

client_window-IsValid_example :
    IsValid (state_handler in_cksum 7 (send_filename, whole_client)).1.window
unfolding window_set_up
client_window-IsValid_example =
    client_window-IsValid in_cksum command_line whole_answers whole_client 7 whole_client_starts
      (omega arith)
