-- ===== src/Buffer.antt =====
-- buffer.c and buffer.h: the receiver's reorder buffer. A `Receiver` is the static `BufferContext`,
-- with what the calls of the system have been handed: the bytes given to `write` in order, the PDUs
-- given to `sendtoErr` newest first (`none` is a PDU of length -1), and whether a call had undefined
-- behaviour: a negative length for `memcpy` or `write`, or a slot index taken modulo 0.
pub mod Flush
pub mod Settled
pub mod Asks
pub mod Replies
pub mod Repair
pub mod Faults
pub mod Keeps
pub mod Short
pub mod Delivery
mod Tests
use cpe_464_proj.Base.{
  ℕ, zero, suc, ◌+◌, ◌-◌, ◌%◌, List, [], ◌∷◌, ◌++◌, Option, Bool, true, false, not, ◌||◌, ◌&&◌,
  length, get_or, set, take, replicate, ltb, leb, ◌==◌, if◌then◌else◌, inc32, u32_mod, ℤ, pos,
  negsuc, is_negative, htonl_bytes,
}
use cpe_464_proj.Pdu.{
  Datagram, create_pdu, validate_checksum, get_sequence_num, get_flag, get_payload_len, payload_of,
  flag_data, flag_rr, flag_srej,
}

pub data BufferState : Type 0 where
  inorder buffering flushing : BufferState

pub record BufferEntry : Type 0 where
  pub seq_num : ℕ
  pub data_len : ℤ
  pub valid_flag : Bool
  pub bytes : List ℕ

pub record Receiver : Type 0 where
  pub buffer : List BufferEntry
  pub window_size : ℕ
  pub expected : ℕ
  pub highest : ℕ
  pub state : BufferState
  pub ack_seq_num : ℕ
  pub last_srej : ℕ
  pub written : List ℕ
  pub sent : List (Option (List ℕ))
  pub faulted : Bool

-- The first `len` bytes, where `len` is an `int`; a negative length is a fault of its caller.
abbrev pub first_bytes : ℤ → List ℕ → List ℕ
first_bytes (pos n) bytes = take n bytes
first_bytes (negsuc n) bytes = []

abbrev pub empty_entry : BufferEntry
empty_entry = record { seq_num = 0; data_len = pos 0; valid_flag = false; bytes = [] }

-- `malloc` succeeds; the data of the entries, which it leaves undefined, is taken to be empty.
unfoldable pub buffer_init : ℕ → Receiver
buffer_init size = record {
  buffer = replicate size empty_entry;
  window_size = size;
  expected = 0;
  highest = 0;
  state = inorder;
  ack_seq_num = 0;
  last_srej = u32_mod - 1;
  written = [];
  sent = [];
  faulted = false;
}

abbrev pub get_index : Receiver → ℕ → ℕ
get_index r seq = seq % r.window_size

abbrev pub entry : Receiver → ℕ → BufferEntry
entry r seq = get_or r.buffer (get_index r seq) empty_entry

unfoldable pub write_packet_to_disk : Receiver → List ℕ → ℤ → Receiver
write_packet_to_disk r bytes len = record r {
  written = r.written ++ first_bytes len bytes;
  faulted = r.faulted || is_negative len;
}

unfoldable pub buffer_packet : Receiver → ℕ → List ℕ → ℤ → Receiver
buffer_packet r seq bytes len =
    let e : BufferEntry = record {
      seq_num = seq;
      data_len = len;
      valid_flag = true;
      bytes = first_bytes len bytes;
    } in
    record r {
      buffer = set r.buffer (get_index r seq) e;
      faulted = r.faulted || is_negative len || r.window_size == 0;
    }

-- The test of the loop of `flushingState`: the slot of `expected` holds that packet.
unfoldable pub is_ready : Receiver → Bool
is_ready r = (entry r r.expected).valid_flag && (entry r r.expected).seq_num == r.expected

-- The body of that loop.
unfoldable pub flush_step : Receiver → Receiver
unfolding write_packet_to_disk
flush_step r =
    let e = entry r r.expected in
    record (write_packet_to_disk r e.bytes e.data_len) {
      buffer = set r.buffer (get_index r r.expected) (record e { valid_flag = false });
      expected = inc32 r.expected;
    }

-- The loop, on fuel: each round clears a valid flag, so as many rounds as there are slots are enough.
unfoldable pub flush_loop : ℕ → Receiver → Receiver
unfolding is_ready flush_step
flush_loop zero r = r
flush_loop (suc fuel) r =
    let rest = flush_loop fuel (flush_step r) in if is_ready r then rest else r

-- `getIndex` of a window of size 0 divides by 0.
abbrev pub trap_zero_window : Receiver → Receiver
trap_zero_window r = record r { faulted = r.faulted || r.window_size == 0 }

-- The assignment to `context.state`.
abbrev pub enter : BufferState × Receiver → Receiver
enter (next, r) = record r { state = next }

module _ (in_cksum : List ℕ → ℕ → ℕ) where
  unfoldable pub send_control : Receiver → ℕ → ℕ → Receiver
  send_control r flag control_seq = record r {
    sent = create_pdu in_cksum r.ack_seq_num flag (htonl_bytes control_seq) ∷ r.sent;
    ack_seq_num = inc32 r.ack_seq_num;
  }

  unfoldable pub send_rr : Receiver → Receiver
  unfolding send_control
  send_rr r = send_control r flag_rr r.expected

  unfoldable pub send_srej : Receiver → Receiver
  unfolding send_control
  send_srej r = send_control r flag_srej r.expected

  unfoldable pub send_srej_once : Receiver → Receiver
  unfolding send_srej
  send_srej_once r =
      if r.last_srej == r.expected then r else record (send_srej r) { last_srej = r.expected }

  -- The end of `flushingState`, behind its loop.
  unfoldable pub after_flush : Receiver → BufferState × Receiver
  unfolding send_srej_once send_rr
  after_flush r =
      if leb r.expected r.highest then (buffering, send_srej_once r) else (inorder, send_rr r)

  unfoldable pub flushing_state : Receiver → BufferState × Receiver
  unfolding flush_loop after_flush
  flushing_state r = after_flush (flush_loop (length r.buffer) (trap_zero_window r))

  unfoldable pub in_order_state : Receiver → ℕ → List ℕ → ℤ → BufferState × Receiver
  unfolding write_packet_to_disk buffer_packet send_rr send_srej_once
  in_order_state r seq payload len =
      if seq == r.expected
      then (
        inorder,
        send_rr (record (write_packet_to_disk r payload len) {
          highest = r.expected;
          expected = inc32 r.expected;
        }),
      )
      else (if ltb r.expected seq
          then (
            buffering,
            send_srej_once (record (buffer_packet r seq payload len) { highest = seq }),
          )
          else (inorder, send_rr r))

  unfoldable pub buffering_state : Receiver → ℕ → List ℕ → ℤ → BufferState × Receiver
  unfolding write_packet_to_disk buffer_packet send_rr send_srej_once flushing_state
  buffering_state r seq payload len =
      if seq == r.expected
      then flushing_state
          (record (write_packet_to_disk (record r { last_srej = u32_mod - 1 }) payload len) {
            expected = inc32 r.expected;
          })
      else (if ltb r.expected seq
          then (
            buffering,
            send_srej_once (record (buffer_packet r seq payload len) {
              highest = if ltb r.highest seq then seq else r.highest;
            }),
          )
          else (buffering, send_rr r))

  -- The switch of `bufferProcessPDU`.
  unfoldable pub run_state : BufferState → Receiver → ℕ → List ℕ → ℤ → BufferState × Receiver
  unfolding in_order_state buffering_state flushing_state
  run_state inorder r seq payload len = in_order_state r seq payload len
  run_state buffering r seq payload len = buffering_state r seq payload len
  run_state flushing r seq payload len = flushing_state r

  unfoldable pub buffer_process_pdu : Receiver → Datagram → Receiver
  unfolding run_state
  buffer_process_pdu r d =
      if validate_checksum in_cksum d.pdu d.pdu_len
      then (if get_flag d.pdu == flag_data
          then enter (
              run_state r.state r (get_sequence_num d.pdu) (payload_of d.pdu)
                (get_payload_len d.pdu_len))
          else r)
      else r
