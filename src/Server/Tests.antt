-- ===== src/Server/Tests.antt =====
-- Runs of a server session, and its theorems at them.
use cpe_464_proj.Base.{ℕ, ◌≡◌, ◌≤◌, refl, List, [], ◌∷◌, ◌++◌, some, true, false, arith, length}
use cpe_464_proj.Checksum.{in_cksum}
use cpe_464_proj.Pdu.{Datagram, validate_checksum, get_flag, get_sequence_num, get_payload_len}
use cpe_464_proj.Window.{window_set_up}
use cpe_464_proj.Buffer.{buffer_init, buffer_process_pdu}
use cpe_464_proj.Client.{RcopyInfo}
use cpe_464_proj.Rcopy.{send_filename_state}
use cpe_464_proj.Server.{ServerInfo, parse_filename_packet, receive_file, process_client, cleared}
use cpe_464_proj.Server.Filename.{CanAsk, filename_roundtrip}
use cpe_464_proj.Server.Handshake.{eof_acks, eof_answered}

-- A client with the window size 4, the buffer size 1400 and the file name `out`.
abbrev client : RcopyInfo
client = record {
  window = window_set_up 4;
  buffer_size = 1400;
  timeout_count = 0;
  filename_tries = 0;
  eof_tries = 0;
  to_file = 111 ∷ 117 ∷ 116 ∷ [];
  control_seq_num = 0;
  eof_reached = false;
  polls = [];
  arrivals = [];
  reads = [];
  sent = [];
}

client-CanAsk : CanAsk client
unfolding window_set_up
client-CanAsk = record {
  window_fits = omega arith;
  buffer_fits = omega arith;
  name_text = (omega arith, (omega arith, (omega arith, tt)));
  name_bytes = (omega arith, (omega arith, (omega arith, tt)));
  name_fits = omega arith;
  seq_fits = omega arith;
}

-- The PDU lies in an array in which other bytes follow.
filename_roundtrip_example :
    (pdu : List ℕ) × ((send_filename_state in_cksum client).1.sent ≡ some pdu ∷ [])
    × (parse_filename_packet (record { pdu = pdu ++ (9 ∷ 9 ∷ []); pdu_len = length pdu })
        ≡ some (record {
          window_size = client.window.window_size;
          buffer_size = 1400;
          to_file = 111 ∷ 117 ∷ 116 ∷ [];
        }))
filename_roundtrip_example = filename_roundtrip in_cksum client (9 ∷ 9 ∷ []) client-CanAsk

abbrev filename_datagram : Datagram
filename_datagram = record {
  pdu = 0 ∷ 0 ∷ 0 ∷ 0 ∷ 7 ∷ 23 ∷ 7 ∷ 0 ∷ 0 ∷ 0 ∷ 4 ∷ 0 ∷ 0 ∷ 5 ∷ 120 ∷ 111 ∷ 117 ∷ 116 ∷ 0 ∷ [];
  pdu_len = 19;
}

-- The only packet of a file, and the EOF behind it.
abbrev packet : Datagram
packet = record { pdu = 0 ∷ 0 ∷ 0 ∷ 0 ∷ 252 ∷ 151 ∷ 3 ∷ 104 ∷ []; pdu_len = 8 }

abbrev eof : Datagram
eof = record { pdu = 0 ∷ 0 ∷ 0 ∷ 1 ∷ 223 ∷ 254 ∷ 32 ∷ []; pdu_len = 7 }

-- The session: RR 1, ten EOF_ACKs behind the first, and the response to the file name.
session :
    let out =
      process_client in_cksum true filename_datagram (true ∷ true ∷ []) (packet ∷ eof ∷ []) in
    (out.receiver.written ≡ 104 ∷ []) × (length out.receiver.sent ≡ 13)
unfolding process_client validate_checksum in_cksum get_flag buffer_process_pdu buffer_init
    get_sequence_num get_payload_len
session = (refl, refl)

-- The EOF comes twice, and behind a quiet second the FINAL_ACK.
abbrev final_ack : Datagram
final_ack = record { pdu = 0 ∷ 0 ∷ 0 ∷ 2 ∷ 221 ∷ 253 ∷ 34 ∷ []; pdu_len = 7 }

abbrev ending : ServerInfo
ending = cleared [] (eof ∷ eof ∷ final_ack ∷ [])

eof_answered_example :
    let out = receive_file in_cksum (true ∷ true ∷ false ∷ true ∷ []) ending in
    (3 ≤ 11) × (out.receiver.sent ≡ eof_acks in_cksum 0 3 ++ []) × (out.receiver.written ≡ [])
unfolding in_cksum validate_checksum get_flag buffer_init
eof_answered_example =
    eof_answered in_cksum eof (eof ∷ final_ack ∷ []) (true ∷ false ∷ true ∷ []) ending refl refl
      refl
