-- ===== src/Pdu/Codec.antt =====
-- createPDU.c: the writer against the readers, and damaged PDUs.
use cpe_464_proj.Base.{
  ℕ, ◌+◌, ◌/◌, ◌%◌, ◌^◌, ◌≤◌, ◌<◌, ◌≡◌, refl, ap, ◌∙◌, ◌==◌, ◌≢◌, ◌↔◌, List, ◌∷◌, none, some, true,
  false, arith, length, get_or, set, All, u32_mod, htonl_bytes, pos, Bool-cases, inl, inr, ==_iff,
}
use cpe_464_proj.Checksum.Interface.{IsByte, IsChecksum}
use cpe_464_proj.Pdu.{
  layout, create_pdu, validate_checksum, get_sequence_num, get_flag, get_payload_len,
  get_control_seq_num, payload_of, max_data_size,
}

-- What a sender may put into a PDU.
pub record IsFrame (seq flag : ℕ) (payload : List ℕ) : Type 0 where
  pub seq_fits : seq < u32_mod
  pub flag_byte : IsByte flag
  pub payload_bytes : All IsByte payload
  pub payload_fits : length payload ≤ max_data_size

module _ (in_cksum : List ℕ → ℕ → ℕ) where
  -- The PDU that `createPDU` writes where it does not refuse.
  abbrev pub pdu_for : ℕ → ℕ → List ℕ → List ℕ
  pdu_for seq flag payload =
      layout seq (in_cksum (layout seq 0 flag payload) (7 + length payload)) flag payload

  pub create_pdu-some :
      (seq flag : ℕ) (payload : List ℕ)
      → length payload ≤ max_data_size
      → create_pdu in_cksum seq flag payload ≡ some (pdu_for seq flag payload)
  unfolding create_pdu
  create_pdu-some seq flag payload h = ground arith

  -- `createPDU` fails exactly for a payload of more than 1400 bytes.
  pub create_pdu-none :
      (seq flag : ℕ) (payload : List ℕ)
      → (create_pdu in_cksum seq flag payload ≡ none) ↔ (max_data_size < length payload)
  unfolding create_pdu
  create_pdu-none seq flag payload = (λ e. ground arith, λ h. ground arith)

  -- The readers get back what was put into the PDU, whatever the checksum is: the sequence number,
  -- the flag, the payload and its length.
  pub pdu_for_fields :
      (seq flag : ℕ) (payload : List ℕ)
      → seq < u32_mod
      → let pdu = pdu_for seq flag payload in
        (get_sequence_num pdu ≡ seq)
        × (get_flag pdu ≡ flag)
        × (payload_of pdu ≡ payload)
        × (get_payload_len (length pdu) ≡ pos (length payload))
  unfolding get_sequence_num get_flag get_payload_len
  pdu_for_fields seq flag payload h = (omega arith, refl, refl, ground arith)

  -- A control PDU carries a sequence number as its payload.
  pub pdu_for_control :
      (seq flag n : ℕ) → n < u32_mod → get_control_seq_num (pdu_for seq flag (htonl_bytes n)) ≡ n
  unfolding get_control_seq_num
  pdu_for_control seq flag n h = omega arith

module _ (in_cksum : List ℕ → ℕ → ℕ) (laws : IsChecksum in_cksum) where
  pdu_for-bytes :
      (seq flag : ℕ) (payload : List ℕ)
      → IsFrame seq flag payload
      → All IsByte (pdu_for in_cksum seq flag payload)
  pdu_for-bytes seq flag payload f =
      let w = laws.word (layout seq 0 flag payload) (7 + length payload) in
      (
        omega arith,
        (
          omega arith,
          (
            omega arith,
            (omega arith, (omega arith, (omega (arith, w), (f.flag_byte, f.payload_bytes)))),
          ),
        ),
      )

  pdu_for_verifies :
      (seq flag : ℕ) (payload : List ℕ)
      → IsByte flag
      → All IsByte payload
      → length payload ≤ max_data_size
      → let pdu = pdu_for in_cksum seq flag payload in in_cksum pdu (length pdu) ≡ 0
  pdu_for_verifies seq flag payload byte bytes fits =
      let same : length (pdu_for in_cksum seq flag payload) ≡ 7 + length payload = omega arith in
      ap (in_cksum (pdu_for in_cksum seq flag payload)) same
      ∙ laws.fills (seq / 2 ^ 24 % 256) (seq / 2 ^ 16 % 256) (seq / 2 ^ 8 % 256) (seq % 256)
          (7 + length payload) (flag ∷ payload)
          (omega arith, (omega arith, (omega arith, (omega arith, (byte, bytes))))) (omega arith)
          (omega arith)

  -- Of the sequence number only the low 32 bits are written, so any will do.
  pub pdu_for-validates :
      (seq flag : ℕ) (payload : List ℕ)
      → IsByte flag
      → All IsByte payload
      → length payload ≤ max_data_size
      → let pdu = pdu_for in_cksum seq flag payload in
        validate_checksum in_cksum pdu (length pdu) ≡ true
  unfolding validate_checksum
  pdu_for-validates seq flag payload byte bytes fits =
      (==_iff _ 0).1 (pdu_for_verifies seq flag payload byte bytes fits)

  -- With a checksum function that has the laws of Checksum/Interface, for a sequence number of 32
  -- bits, a flag byte and at most 1400 payload bytes, createPDU writes a PDU that validates and
  -- whose sequence number, flag, payload and payload length are read back as given.
  pub create_pdu-roundtrip :
      (seq flag : ℕ) (payload : List ℕ)
      → IsFrame seq flag payload
      → (pdu : List ℕ) × (create_pdu in_cksum seq flag payload ≡ some pdu)
        × (validate_checksum in_cksum pdu (length pdu) ≡ true)
        × (get_sequence_num pdu ≡ seq)
        × (get_flag pdu ≡ flag)
        × (payload_of pdu ≡ payload)
        × (get_payload_len (length pdu) ≡ pos (length payload))
  create_pdu-roundtrip seq flag payload f =
      let (s, g, p, l) = pdu_for_fields in_cksum seq flag payload f.seq_fits in
      (
        pdu_for in_cksum seq flag payload,
        create_pdu-some in_cksum seq flag payload f.payload_fits,
        pdu_for-validates seq flag payload f.flag_byte f.payload_bytes f.payload_fits,
        s,
        g,
        p,
        l,
      )

  -- With a checksum function that has the laws of Checksum/Interface, a PDU that createPDU wrote
  -- for a sequence number of 32 bits, a flag byte and at most 1400 payload bytes, and in which one
  -- byte anywhere is changed to another, does not validate.
  pub create_pdu-damaged :
      (seq flag : ℕ) (payload pdu : List ℕ) (i v : ℕ)
      → IsFrame seq flag payload
      → create_pdu in_cksum seq flag payload ≡ some pdu
      → i < length pdu
      → IsByte v
      → v ≢ get_or pdu i 0
      → validate_checksum in_cksum (set pdu i v) (length pdu) ≡ false
  unfolding validate_checksum
  create_pdu-damaged seq flag payload pdu i v f e hi hv ne =
      let made : pdu ≡ pdu_for in_cksum seq flag payload =
        cc (create_pdu-some in_cksum seq flag payload f.payload_fits) in
      elim (Bool-cases (in_cksum (set pdu i v) (length pdu) == 0)) [
        | inl bad ↦ absurd (
            laws.detects pdu i v (rw made (pdu_for-bytes seq flag payload f))
              (rw made (omega arith)) hi hv ne
              (rw made
                (pdu_for_verifies seq flag payload f.flag_byte f.payload_bytes f.payload_fits))
              ((==_iff _ 0).0 bad))
        | inr good ↦ good
      ]
