-- ===== src/Bufferold.antt =====
-- bufferold.c: the first reorder buffer of the receiver, which tells its caller what to answer. The
-- pointers are not NULL. Each call of `write` takes the next of `writes`, which is the number of
-- bytes that it wrote, or `none` for -1; it fails when none is left.
pub mod Slide
pub mod InOrder
pub mod Answers
mod Tests
use cpe_464_proj.Base.{
  ℕ, zero, suc, ◌+◌, ◌%◌, List, [], ◌∷◌, ◌++◌, Option, none, some, Bool, true, false, not, ◌||◌,
  ◌&&◌, length, get_or, set, take, replicate, ltb, leb, ◌==◌, if◌then◌else◌, inc32, u32_mod, ℤ, pos,
  negsuc,
}
use cpe_464_proj.Pdu.{max_data_size}
use cpe_464_proj.Buffer.{first_bytes}

pub record BufferPacket : Type 0 where
  pub seq_num : ℕ
  pub data_len : ℤ
  pub active : Bool
  pub bytes : List ℕ

pub record Buffer : Type 0 where
  pub packets : List BufferPacket
  pub buffer_size : ℕ
  pub lower : ℕ
  pub upper : ℕ
  pub writes : List (Option ℕ)
  pub written : List ℕ

-- What `calloc` leaves in a slot.
abbrev pub no_packet : BufferPacket
no_packet = record { seq_num = 0; data_len = pos 0; active = false; bytes = [] }

-- The results of `processData`, with the number stored through `responseSeq`.
pub data Response : Type 0 where
  failed send_ignore : Response
  send_rr send_srej : ℕ → Response

-- `malloc` and `calloc` succeed.
unfoldable pub buffer_set_up : ℕ → List (Option ℕ) → Buffer
buffer_set_up buffer_size writes = record {
  packets = replicate buffer_size no_packet;
  buffer_size = buffer_size;
  lower = 0;
  upper = buffer_size;
  writes = writes;
  written = [];
}

unfoldable pub in_buffer_window : Buffer → ℕ → Bool
in_buffer_window b seq = leb b.lower seq && ltb seq b.upper

-- `bytesWritten == dataLen`
abbrev pub is_whole : ℕ → ℤ → Bool
is_whole count (pos len) = count == len
is_whole count (negsuc len) = false

-- The result 0 is `true`, -1 is `false`. A short write leaves its bytes in the file.
unfoldable pub write_data : Buffer → List ℕ → ℤ → Bool × Buffer
write_data b bytes len = elim b.writes [
  | [] ↦ (false, b)
  | none ∷ rest ↦ (false, record b { writes = rest })
  | some count ∷ rest ↦
      (is_whole count len, record b { writes = rest; written = b.written ++ take count bytes })
]

-- The slot of a sequence number.
abbrev pub packet_at : Buffer → ℕ → BufferPacket
packet_at b seq = get_or b.packets (seq % b.buffer_size) no_packet

-- `dataLen <= 0 || dataLen > MAX_DATA_SIZE`
abbrev pub is_bad_len : ℤ → Bool
is_bad_len (pos len) = len == 0 || ltb max_data_size len
is_bad_len (negsuc len) = true

unfoldable pub buffer_store_packet : Buffer → ℕ → List ℕ → ℤ → Bool × Buffer
unfolding in_buffer_window
buffer_store_packet b seq bytes len =
    let packet : BufferPacket = record {
      seq_num = seq;
      data_len = len;
      active = true;
      bytes = first_bytes len bytes;
    } in
    if not (in_buffer_window b seq) || is_bad_len len
    then (false, b)
    else (true, record b { packets = set b.packets (seq % b.buffer_size) packet })

unfoldable pub buffer_has_packet : Buffer → ℕ → Bool
unfolding in_buffer_window
buffer_has_packet b seq =
    if not (in_buffer_window b seq)
    then false
    else (packet_at b seq).active && (packet_at b seq).seq_num == seq

-- The end of the loop's body: the slot is inactive, and the window moves by one.
abbrev pub release_lowest : Buffer → Buffer
release_lowest b = record b {
  packets =
      set b.packets (b.lower % b.buffer_size) (record (packet_at b b.lower) { active = false });
  lower = inc32 b.lower;
  upper = inc32 b.upper;
}

-- The loop of `bufferWriteSlide`, on fuel: each round makes an active slot inactive, so as many
-- rounds as there are slots are enough.
unfoldable pub slide_loop : ℕ → Buffer → Bool × Buffer
unfolding buffer_has_packet write_data
slide_loop zero b = (true, b)
slide_loop (suc fuel) b =
    let packet = packet_at b b.lower in
    let (wrote, b') = write_data b packet.bytes packet.data_len in
    let rest = slide_loop fuel (release_lowest b') in
    if buffer_has_packet b b.lower then (if wrote then rest else (false, b')) else (true, b)

unfoldable pub buffer_write_slide : Buffer → Bool × Buffer
unfolding slide_loop
buffer_write_slide b = slide_loop (length b.packets) b

unfoldable pub get_lower : Buffer → ℕ
get_lower b = b.lower

unfoldable pub get_upper : Buffer → ℕ
get_upper b = b.upper

-- `processData` with the packet that is due, once it is written.
unfoldable pub release_due : Buffer → Response × Buffer
unfolding buffer_write_slide
release_due b =
    let lower = inc32 b.lower in
    let (slid, out) =
      buffer_write_slide (record b { lower = lower; upper = (lower + b.buffer_size) % u32_mod }) in
    (if slid then send_rr out.lower else failed, out)

-- `processData` with a packet ahead of the one that is due.
unfoldable pub keep_early : Buffer → ℕ → List ℕ → ℤ → Response × Buffer
unfolding buffer_has_packet buffer_store_packet
keep_early b seq bytes len =
    let (stored, b') = buffer_store_packet b seq bytes len in
    if buffer_has_packet b seq
    then (send_srej seq, b)
    else (if stored then (send_srej seq, b') else (failed, b'))

unfoldable pub process_data : Buffer → ℕ → List ℕ → ℤ → Response × Buffer
unfolding write_data release_due keep_early
process_data b seq bytes len =
    let (wrote, b') = write_data b bytes len in
    if ltb seq b.lower
    then (send_rr b.lower, b)
    else (if leb b.upper seq
        then (send_ignore, b)
        else (if seq == b.lower
            then (if wrote then release_due b' else (failed, b'))
            else (if ltb b.lower seq then keep_early b seq bytes len else (send_ignore, b))))
