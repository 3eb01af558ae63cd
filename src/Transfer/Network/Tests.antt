-- ===== src/Transfer/Network/Tests.antt =====
-- An interleaved run of a transfer of one packet, and the theorems at it.
use cpe_464_proj.Rcopy.Input.{input_of}
use cpe_464_proj.Base.{
  ℕ, ◌+◌, ◌<◌, ◌≤◌, ◌≡◌, refl, List, [], ◌∷◌, ◌++◌, true, false, inl, inr, arith, pos,
}
use cpe_464_proj.Checksum.{in_cksum}
use cpe_464_proj.Pdu.{
  Datagram, create_pdu, validate_checksum, get_flag, get_control_seq_num, get_sequence_num,
  get_payload_len, flag_filename_response,
}
use cpe_464_proj.Window.{window_set_up, window_add_packet, process_rr}
use cpe_464_proj.Buffer.{buffer_init, buffer_process_pdu}
use cpe_464_proj.Client.{RcopyInfo, read_bytes, process_acks, wait_eof_ack}
use cpe_464_proj.Setup.{Args, Answers, init_rcopy_info, started}
use cpe_464_proj.Rcopy.{
  rcopy_step, send_filename_state, wait_filename_ack_state, send_data_state, process_acks_state,
  send_eof_state,
}
use cpe_464_proj.Transfer.{IsCarried}
use cpe_464_proj.Transfer.Network.{
  Ends, finds, client_moved, sends_control, beginning, client_moves, server_takes, server_controls,
  Run, stay, later, Ends,
}
use cpe_464_proj.Buffer.Keeps.Complete.{IsPacket}
use cpe_464_proj.Transfer.Network.Windows.{number_below_end}
use cpe_464_proj.Rcopy.Chunks.{chunk}
use cpe_464_proj.Transfer.Network.Protocol.{Actions}
use cpe_464_proj.Transfer.Network.Eof.{eof_means_whole}
use cpe_464_proj.Transfer.Network.Refine.{view, network_refines}
use cpe_464_proj.Transfer.Network.Agreement.{ends_agree, whole_at_eof}

abbrev command_line : Args
command_line = record {
  argc = 8;
  from_file = 105 ∷ 110 ∷ [];
  to_file = 111 ∷ 117 ∷ 116 ∷ [];
  window_size = pos 4;
  buffer_size = pos 1400;
  error_rate_valid = true;
}

abbrev answers : Answers
answers = record {
  opened = true;
  connected = true;
  allocated = true;
  polls = [];
  arrivals = [];
  reads = read_bytes (104 ∷ 105 ∷ []) ∷ [];
}

abbrev client : RcopyInfo
client = record {
  window = window_set_up 4;
  buffer_size = 1400;
  timeout_count = 0;
  filename_tries = 0;
  eof_tries = 0;
  to_file = 111 ∷ 117 ∷ 116 ∷ [];
  control_seq_num = 0;
  eof_reached = false;
  polls = [];
  arrivals = [];
  reads = read_bytes (104 ∷ 105 ∷ []) ∷ [];
  sent = [];
}

client_starts : init_rcopy_info command_line answers ≡ started client
unfolding init_rcopy_info
client_starts = refl

-- The server's response and its RR, and the data packet.
abbrev accepted : Datagram
accepted = record { pdu = 0 ∷ 0 ∷ 0 ∷ 0 ∷ 247 ∷ 255 ∷ 8 ∷ 0 ∷ []; pdu_len = 8 }

abbrev packet : Datagram
packet = record { pdu = 0 ∷ 0 ∷ 0 ∷ 0 ∷ 147 ∷ 151 ∷ 3 ∷ 104 ∷ 105 ∷ []; pdu_len = 9 }

abbrev acknowledged : Datagram
acknowledged = record { pdu = 0 ∷ 0 ∷ 0 ∷ 0 ∷ 249 ∷ 255 ∷ 5 ∷ 0 ∷ 0 ∷ 0 ∷ 1 ∷ []; pdu_len = 11 }

-- A round of the client that finds these datagrams.
abbrev round : List Datagram → Ends → Ends
round arrivals e =
    client_moved (rcopy_step in_cksum e.state (finds (true ∷ false ∷ []) arrivals e.client))
      e.receiver

abbrev opening : Ends
opening =
    let asked = round [] (beginning client 4) in
    record asked {
      receiver =
          sends_control (create_pdu in_cksum 0 flag_filename_response (0 ∷ [])) asked.receiver;
    }

abbrev sending : Ends
sending = round [] (round (accepted ∷ []) opening)

abbrev taken : Ends
taken = record sending { receiver = buffer_process_pdu in_cksum sending.receiver packet }

abbrev ending : Ends
ending = round [] (round [] (round (acknowledged ∷ []) taken))

accepted-IsCarried : IsCarried in_cksum opening.receiver.sent accepted
unfolding in_cksum create_pdu buffer_init
accepted-IsCarried = λ _. (accepted.pdu, [], inl refl, refl, refl)

packet-IsCarried : IsCarried in_cksum sending.client.sent packet
unfolding rcopy_step in_cksum window_set_up send_filename_state wait_filename_ack_state
    validate_checksum send_data_state create_pdu
packet-IsCarried = λ _. (packet.pdu, [], inl refl, refl, refl)

acknowledged-IsCarried : IsCarried in_cksum taken.receiver.sent acknowledged
unfolding in_cksum create_pdu buffer_init validate_checksum get_flag buffer_process_pdu
    get_sequence_num get_payload_len
acknowledged-IsCarried = λ _. (acknowledged.pdu, [], inl refl, refl, refl)

to_sending : Run in_cksum (beginning client 4) sending
to_sending =
    let polls = true ∷ false ∷ [] in
    later
      (later
        (later (later stay (client_moves polls [] tt))
          (server_controls 0 flag_filename_response (0 ∷ []) refl))
        (client_moves polls (accepted ∷ []) (accepted-IsCarried, tt)))
      (client_moves polls [] tt)

to_ending : Run in_cksum (beginning client 4) ending
to_ending =
    let polls = true ∷ false ∷ [] in
    later
      (later
        (later (later to_sending (server_takes packet packet-IsCarried))
          (client_moves polls (acknowledged ∷ []) (acknowledged-IsCarried, tt)))
        (client_moves polls [] tt))
      (client_moves polls [] tt)

ending_state : ending.state ≡ wait_eof_ack
unfolding rcopy_step in_cksum window_set_up send_filename_state wait_filename_ack_state
    validate_checksum send_data_state create_pdu process_acks_state send_eof_state get_flag
    process_rr get_control_seq_num window_add_packet buffer_init buffer_process_pdu get_sequence_num
    get_payload_len
ending_state = refl

ends_agree_example :
    (ending.client.window.lower ≤ ending.receiver.expected)
    × (ending.receiver.expected ≤ ending.client.window.current)
    × ((rest : List ℕ) × (ending.receiver.written ++ rest ≡ 104 ∷ 105 ∷ []))
ends_agree_example =
    ends_agree in_cksum command_line answers client 4 ending client_starts (omega arith) to_ending

again-IsCarried : IsCarried in_cksum ending.client.sent packet
unfolding rcopy_step in_cksum window_set_up send_filename_state wait_filename_ack_state
    validate_checksum send_data_state create_pdu process_acks_state send_eof_state get_flag
    process_rr get_control_seq_num window_add_packet buffer_init buffer_process_pdu get_sequence_num
    get_payload_len
again-IsCarried = λ _. (packet.pdu, [], inr (inl refl), refl, refl)

-- The packet comes once more.
abbrev after : Ends
after = record ending { receiver = buffer_process_pdu in_cksum ending.receiver packet }

whole_at_eof_example : after.receiver.written ≡ 104 ∷ 105 ∷ []
whole_at_eof_example =
    whole_at_eof in_cksum command_line answers client 4 ending after client_starts (omega arith)
      to_ending ending_state (later stay (server_takes packet again-IsCarried))

sending_state : sending.state ≡ process_acks
unfolding rcopy_step in_cksum window_set_up send_filename_state wait_filename_ack_state
    validate_checksum send_data_state create_pdu buffer_init
sending_state = refl

-- The server writes the packet: the only action of the protocol in this step.
network_refines_example :
    Actions (chunk in_cksum (input_of command_line answers)) 4 (view sending) (view taken)
unfolding window_set_up
network_refines_example =
    network_refines in_cksum command_line answers client 4 sending taken client_starts (omega arith)
      to_sending (server_takes packet packet-IsCarried)

-- The EOF of the client, in an array with a byte behind it.
abbrev eof : Datagram
eof = record { pdu = 0 ∷ 0 ∷ 0 ∷ 1 ∷ 223 ∷ 254 ∷ 32 ∷ 9 ∷ []; pdu_len = 7 }

eof-IsCarried : IsCarried in_cksum ending.client.sent eof
unfolding rcopy_step in_cksum window_set_up send_filename_state wait_filename_ack_state
    validate_checksum send_data_state create_pdu process_acks_state send_eof_state get_flag
    process_rr get_control_seq_num window_add_packet buffer_init buffer_process_pdu get_sequence_num
    get_payload_len
eof-IsCarried = λ _. (0 ∷ 0 ∷ 0 ∷ 1 ∷ 223 ∷ 254 ∷ 32 ∷ [], 9 ∷ [], inl refl, refl, refl)

eof_validates : validate_checksum in_cksum eof.pdu eof.pdu_len ≡ true
unfolding validate_checksum in_cksum
eof_validates = refl

eof_means_whole_example : ending.receiver.written ≡ 104 ∷ 105 ∷ []
unfolding get_flag
eof_means_whole_example =
    eof_means_whole in_cksum command_line answers client 4 ending eof client_starts (omega arith)
      to_ending eof-IsCarried eof_validates refl

packet-IsPacket : IsPacket in_cksum 0 packet
unfolding in_cksum validate_checksum get_flag get_sequence_num
packet-IsPacket = (refl, refl, refl)

number_below_end_example : 0 < sending.receiver.expected + sending.receiver.window_size
unfolding window_set_up
number_below_end_example =
    number_below_end in_cksum command_line answers client sending packet 0 client_starts
      (omega arith) to_sending packet-IsCarried packet-IsPacket
