-- ===== src/Rcopy/Tests.antt =====
-- Runs of the client's states, and the theorems on its retries at them.
use cpe_464_proj.Base.{ℕ, ◌≤◌, ◌≡◌, ◌⊎◌, refl, [], ◌∷◌, some, true, false, pos, arith, All}
use cpe_464_proj.Checksum.{in_cksum}
use cpe_464_proj.Window.{
  Window, window_set_up, is_window_open, get_lowest_window_packet, get_window_packet, take_packet,
}
use cpe_464_proj.Client.{
  RcopyInfo, read_bytes, send_filename, send_data, process_acks, window_closed, done, all_acked,
  lowest_pdu,
}
use cpe_464_proj.Setup.{Args, Answers, init_rcopy_info, started}
use cpe_464_proj.Rcopy.{state_handler}
use cpe_464_proj.Rcopy.Closed.{closed_window_gives_up}
use cpe_464_proj.Rcopy.Sends.{IsSendable}
use cpe_464_proj.Rcopy.Sends.Rounds.{only_pdus_sent}
use cpe_464_proj.Rcopy.Silence.{IsOver}
use cpe_464_proj.Rcopy.Silence.Rounds.{silence_ends}
use cpe_464_proj.Rcopy.Stall.{IsStuck, stalls_at_eof}

abbrev command_line : Args
command_line = record {
  argc = 8;
  from_file = 105 ∷ [];
  to_file = 111 ∷ [];
  window_size = pos 2;
  buffer_size = pos 5;
  error_rate_valid = true;
}

-- A server that stays silent.
abbrev silence : Answers
silence = record {
  opened = true;
  connected = true;
  allocated = true;
  polls = [];
  arrivals = [];
  reads = read_bytes (104 ∷ []) ∷ [];
}

abbrev client : RcopyInfo
client = record {
  window = window_set_up 2;
  buffer_size = 5;
  timeout_count = 0;
  filename_tries = 0;
  eof_tries = 0;
  to_file = 111 ∷ [];
  control_seq_num = 0;
  eof_reached = false;
  polls = [];
  arrivals = [];
  reads = read_bytes (104 ∷ []) ∷ [];
  sent = [];
}

client_starts : init_rcopy_info command_line silence ≡ started client
unfolding init_rcopy_info
client_starts = refl

-- The file name is sent, and a second goes by.
only_pdus_sent_example : All IsSendable (state_handler in_cksum 3 (send_filename, client)).1.sent
only_pdus_sent_example = only_pdus_sent in_cksum command_line silence client 3 client_starts

-- A window of one slot, whose packet is not acknowledged.
abbrev one : Window
one = record {
  packets = record { seq_num = 0; pdu_len = 2; active = true; pdu = 8 ∷ 9 ∷ [] } ∷ [];
  window_size = 1;
  lower = 0;
  upper = 1;
  current = 1;
}

oldest_pdu : lowest_pdu (get_lowest_window_packet one) ≡ some (8 ∷ 9 ∷ [])
unfolding lowest_pdu get_lowest_window_packet get_window_packet take_packet
oldest_pdu = refl

closed_window_gives_up_example :
    let out =
      state_handler in_cksum 3
        (window_closed, record client { window = one; timeout_count = 7; polls = false ∷ [] }) in
    (out.0 ≡ done) × (out.1.sent ≡ some (8 ∷ 9 ∷ []) ∷ some (8 ∷ 9 ∷ []) ∷ some (8 ∷ 9 ∷ []) ∷ [])
closed_window_gives_up_example =
    closed_window_gives_up in_cksum (8 ∷ 9 ∷ []) 3
      (record client { window = one; timeout_count = 7; polls = false ∷ [] }) (omega arith) refl
      (refl, tt) oldest_pdu (omega arith)

-- The two polls are quiet, and no later one finds a datagram.
silence_ends_example :
    (k : ℕ) × (k ≤ 43)
    × IsOver (
        state_handler in_cksum k
          (send_data, record client { window = one; polls = false ∷ false ∷ [] }))
silence_ends_example =
    silence_ends in_cksum send_data (record client { window = one; polls = false ∷ false ∷ [] })
      (refl, (refl, tt))

-- The same packet in a window of two slots, at the end of the file.
abbrev stuck : RcopyInfo
stuck = record client {
  window = record one {
    packets =
        record { seq_num = 0; pdu_len = 2; active = true; pdu = 8 ∷ 9 ∷ [] }
        ∷ record { seq_num = 0; pdu_len = 0; active = false; pdu = [] }
        ∷ [];
    window_size = 2;
    upper = 2;
  };
  eof_reached = true;
}

stuck-IsStuck : IsStuck stuck
unfolding all_acked is_window_open
stuck-IsStuck = record { at_eof = refl; waiting = refl; roomy = refl; quiet = tt }

stalls_at_eof_example :
    let out = state_handler in_cksum 1000 (process_acks, stuck) in
    ((out.0 ≡ process_acks) ⊎ (out.0 ≡ send_data)) × (out.1.sent ≡ [])
stalls_at_eof_example = stalls_at_eof in_cksum 1000 stuck stuck-IsStuck
