-- ===== src/Pdu.antt =====
-- createPDU.c, and `getControlSeqNum` of rcopy.c: the PDU, a 32-bit sequence number, a 16-bit
-- checksum, a flag byte and the payload. A `uint8_t *` with its length is a list of bytes; an array
-- that a PDU was received into is a list that may go on behind it.
pub mod Codec
pub mod Print
mod Tests
use cpe_464_proj.Base.{
  ℕ, ◌+◌, ◌/◌, ◌%◌, List, [], ◌∷◌, ◌++◌, Option, none, some, Bool, length, get_or, drop, ltb, ◌==◌,
  if◌then◌else◌, ℤ, sub_ℕ, htonl_bytes, ntohl_at,
}

abbrev pub flag_data : ℕ
flag_data = 3

abbrev pub flag_rr : ℕ
flag_rr = 5

abbrev pub flag_srej : ℕ
flag_srej = 6

abbrev pub flag_filename : ℕ
flag_filename = 7

abbrev pub flag_filename_response : ℕ
flag_filename_response = 8

abbrev pub flag_eof : ℕ
flag_eof = 32

abbrev pub flag_eof_ack : ℕ
flag_eof_ack = 33

abbrev pub flag_final_ack : ℕ
flag_final_ack = 34

-- HEADER_LEN of buffer.c and server.c.
abbrev pub header_len : ℕ
header_len = 7

-- MAX_DATA_SIZE of buffer.h, the 1400 of createPDU.c.
abbrev pub max_data_size : ℕ
max_data_size = 1400

-- `pduBuffer` with the checksum field set to `checksum`, low byte first as `memcpy` stores it.
abbrev pub layout : ℕ → ℕ → ℕ → List ℕ → List ℕ
layout seq checksum flag payload =
    htonl_bytes seq ++ ((checksum % 256) ∷ (checksum / 256) ∷ flag ∷ payload)

-- A PDU as it came in: the contents of the receiving array after `recvfromErr`, and the length that
-- it returned, where 0 stands for every result that is not positive.
pub record Datagram : Type 0 where
  pub pdu : List ℕ
  pub pdu_len : ℕ

unfoldable pub get_sequence_num : List ℕ → ℕ
get_sequence_num pdu = ntohl_at pdu 0

unfoldable pub get_flag : List ℕ → ℕ
get_flag pdu = get_or pdu 6 0

-- An `int`: negative for a PDU that is shorter than its header.
unfoldable pub get_payload_len : ℕ → ℤ
get_payload_len pdu_len = sub_ℕ pdu_len header_len

unfoldable pub get_control_seq_num : List ℕ → ℕ
get_control_seq_num pdu = ntohl_at pdu header_len

abbrev pub payload_of : List ℕ → List ℕ
payload_of pdu = drop header_len pdu

module _ (in_cksum : List ℕ → ℕ → ℕ) where
  -- The written PDU, whose length is the result; `none` is -1. The payload of no bytes is NULL.
  unfoldable pub create_pdu : ℕ → ℕ → List ℕ → Option (List ℕ)
  create_pdu seq flag payload =
      if ltb max_data_size (length payload)
      then none
      else some
          (layout seq (in_cksum (layout seq 0 flag payload) (7 + length payload)) flag payload)

  unfoldable pub validate_checksum : List ℕ → ℕ → Bool
  validate_checksum pdu pdu_len = in_cksum pdu pdu_len == 0
