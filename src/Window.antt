-- ===== src/Window.antt =====
-- window.c and window.h: the sender's sliding window. A `Window *` is never NULL after `windowSetUp`
-- (rcopy.c exits if it is), so the operations take the window itself; an `outPDU` that is filled is
-- the result. A PDU with its length is an `Option (List ℕ)`: `none` is the length -1 that `createPDU`
-- returns on failure.
pub mod Queue
pub mod Valid
pub mod Refine
mod Tests
use cpe_464_proj.Base.{
  ℕ, zero, suc, ◌+◌, ◌-◌, ◌%◌, ◌≤◌, ◌<◌, List, [], Option, none, some, Bool, true, false, ◌&&◌,
  ◌||◌, length, get_or, set, take, replicate, ltb, leb, ◌==◌, if◌then◌else◌, inc32, u32_mod,
}
use cpe_464_proj.Checksum.Interface.{max_pdu_size}

pub record WindowPacket : Type 0 where
  pub seq_num : ℕ
  pub pdu_len : ℕ
  pub active : Bool
  pub pdu : List ℕ

pub record Window : Type 0 where
  pub packets : List WindowPacket
  pub window_size : ℕ
  pub lower : ℕ
  pub upper : ℕ
  pub current : ℕ

-- What `calloc` leaves in a slot.
abbrev pub blank : WindowPacket
blank = record { seq_num = 0; pdu_len = 0; active = false; pdu = [] }

-- The slot of a sequence number.
abbrev pub slot : Window → ℕ → WindowPacket
slot w seq = get_or w.packets (seq % w.window_size) blank

-- With the memory that `malloc` and `calloc` find; NULL is an exit of rcopy.c.
unfoldable pub window_set_up : ℕ → Window
window_set_up window_size = record {
  packets = replicate window_size blank;
  window_size = window_size;
  lower = 0;
  upper = window_size;
  current = 0;
}

unfoldable pub is_window_open : Window → Bool
is_window_open w = ltb w.current w.upper

unfoldable pub get_next_seq_num : Window → ℕ
get_next_seq_num w = w.current

unfoldable pub window_lowest_seq : Window → ℕ
window_lowest_seq w = w.lower

unfoldable pub is_window_empty : Window → Bool
is_window_empty w = w.lower == w.current

-- The slot write of `windowAddPacket`, and `current++`.
abbrev pub store_packet : Window → List ℕ → Window
store_packet w pdu =
    let packet : WindowPacket = record {
      seq_num = w.current;
      pdu_len = length pdu;
      active = true;
      pdu = pdu;
    } in
    record w {
      packets = set w.packets (w.current % w.window_size) packet;
      current = inc32 w.current;
    }

-- The result 0 is `true`, -1 is `false`.
unfoldable pub window_add_packet : Window → Option (List ℕ) → Bool × Window
unfolding is_window_open
window_add_packet w none = (false, w)
window_add_packet w (some pdu) =
    if is_window_open w
    then (if length pdu == 0 || ltb max_pdu_size (length pdu)
        then (false, w)
        else (true, store_packet w pdu))
    else (false, w)

-- What `getWindowPacket` returns of the slot: nothing if the slot is inactive or holds another PDU.
unfoldable pub take_packet : WindowPacket → ℕ → Option (List ℕ)
take_packet p seq = if p.active && p.seq_num == seq then some (take p.pdu_len p.pdu) else none

-- The PDU copied to `outPDU`; `none` is -1.
unfoldable pub get_window_packet : Window → ℕ → Option (List ℕ)
unfolding take_packet
get_window_packet w seq =
    if ltb seq w.lower || leb w.current seq then none else take_packet (slot w seq) seq

-- The sequence number stored through `seqNum`, and the PDU.
unfoldable pub get_lowest_window_packet : Window → Option (ℕ × List ℕ)
get_lowest_window_packet w =
    if w.lower == w.current
    then none
    else elim (get_window_packet w w.lower) [ none ↦ none | some pdu ↦ some (w.lower, pdu) ]

-- The loop of `processRR`: `count` slots from `seq` on are made inactive.
unfoldable pub deactivate : ℕ → ℕ → ℕ → List WindowPacket → List WindowPacket
deactivate window_size zero seq packets = packets
deactivate window_size (suc count) seq packets =
    let index = seq % window_size in
    deactivate window_size count (seq + 1)
      (set packets index (record (get_or packets index blank) { active = false }))

-- The body of `processRR` behind its guard, at the clipped sequence number.
abbrev pub slide : Window → ℕ → Window
slide w rr = record w {
  packets = deactivate w.window_size (rr - w.lower) w.lower w.packets;
  lower = rr;
  upper = (rr + w.window_size) % u32_mod;
}

unfoldable pub process_rr : Window → ℕ → Window
unfolding deactivate
process_rr w rr = if leb rr w.lower then w else slide w (if ltb w.current rr then w.current else rr)

unfoldable pub process_srej : Window → ℕ → Option (List ℕ)
process_srej w seq = if ltb seq w.lower || leb w.current seq then none else get_window_packet w seq
