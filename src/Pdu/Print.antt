-- ===== src/Pdu/Print.antt =====
-- `printPDU` of createPDU.c. What it prints is a value.
use cpe_464_proj.Base.{
  ℕ, zero, suc, ◌+◌, ◌-◌, ◌*◌, ◌≡◌, ◌≢◌, refl, ap, List, [], ◌∷◌, ◌++◌, some, Bool, true, false,
  not, arith, length, length-append, get_or, All, ltb, ◌==◌, if◌then◌else◌, Bool-cases, inl, inr,
}
use cpe_464_proj.Checksum.Interface.{IsChecksum}
use cpe_464_proj.Pdu.{create_pdu, validate_checksum, get_sequence_num, get_flag, payload_of}
use cpe_464_proj.Pdu.Codec.{IsFrame, pdu_for, create_pdu-some, pdu_for_fields, pdu_for-validates}

-- The message for a short PDU, or the lines for a whole one: whether the checksum failed, the
-- sequence number, the checksum, the flag, the payload length and the payload.
pub data Printed : Type 0 where
  too_short : Printed
  printed : Bool → ℕ → ℕ → ℕ → ℕ → List ℕ → Printed

-- `%.*s`: at most so many characters, up to a NUL.
unfoldable pub printed_chars : ℕ → List ℕ → List ℕ
printed_chars zero chars = []
printed_chars (suc n) [] = []
printed_chars (suc n) (c ∷ chars) =
    let rest = printed_chars n chars in if c == 0 then [] else c ∷ rest

unfoldable pub print_pdu : (List ℕ → ℕ → ℕ) → List ℕ → ℕ → Printed
unfolding validate_checksum get_sequence_num get_flag printed_chars
print_pdu in_cksum pdu pdu_len =
    if ltb pdu_len 7
    then too_short
    else printed (not (validate_checksum in_cksum pdu pdu_len)) (get_sequence_num pdu)
        (get_or pdu 4 0 + 256 * get_or pdu 5 0) (get_flag pdu) (pdu_len - 7)
        (printed_chars (pdu_len - 7) (payload_of pdu))

-- A text ends at the NUL behind it.
printed_chars-text :
    (n : ℕ) (text : List ℕ)
    → All (λ c. c ≢ 0) text
    → n ≡ suc (length text)
    → printed_chars n (text ++ (0 ∷ [])) ≡ text
unfolding printed_chars
printed_chars-text zero text all e = absurd (omega arith)
printed_chars-text (suc n) [] all e = refl
printed_chars-text (suc n) (c ∷ text) (ne, all) e = elim (Bool-cases (c == 0)) [
  | inl nul ↦ absurd (ne (ground arith))
  | inr char ↦ rw char (ap (λ xs. c ∷ xs) (printed_chars-text n text all (omega arith)))
]

-- A PDU that validates, field by field.
print_pdu-fields :
    (in_cksum : List ℕ → ℕ → ℕ) (pdu : List ℕ) (pdu_len seq flag size : ℕ) (payload text : List ℕ)
    → pdu_len ≡ 7 + size
    → validate_checksum in_cksum pdu pdu_len ≡ true
    → get_sequence_num pdu ≡ seq
    → get_flag pdu ≡ flag
    → payload_of pdu ≡ payload
    → printed_chars size payload ≡ text
    → print_pdu in_cksum pdu pdu_len
      ≡ printed false seq (get_or pdu 4 0 + 256 * get_or pdu 5 0) flag size text
unfolding print_pdu
print_pdu-fields in_cksum pdu pdu_len seq flag size payload text n v s g p t =
    let long : ltb pdu_len 7 ≡ false = ground arith in
    let rest : pdu_len - 7 ≡ size = omega (arith, n) in
    rw (print_pdu, long, v, s, g, rest, p, t) refl

-- With a checksum function that has the laws of Checksum/Interface, for a PDU that createPDU wrote
-- for a text with its NUL, a sequence number of 32 bits and a flag byte, printPDU reports no damage
-- and prints the sequence number, the flag, the payload length with the NUL, and the text.
print_pdu-create_pdu :
    (in_cksum : List ℕ → ℕ → ℕ) (seq flag : ℕ) (text : List ℕ)
    → IsChecksum in_cksum
    → IsFrame seq flag (text ++ (0 ∷ []))
    → All (λ c. c ≢ 0) text
    → (pdu : List ℕ) × (create_pdu in_cksum seq flag (text ++ (0 ∷ [])) ≡ some pdu)
      × ((checksum : ℕ) × (print_pdu in_cksum pdu (length pdu)
            ≡ printed false seq checksum flag (suc (length text)) text))
print_pdu-create_pdu in_cksum seq flag text laws f chars =
    let payload = text ++ (0 ∷ []) in
    let pdu = pdu_for in_cksum seq flag payload in
    let (s, g, p, _) = pdu_for_fields in_cksum seq flag payload f.seq_fits in
    let valid =
      pdu_for-validates in_cksum laws seq flag payload f.flag_byte f.payload_bytes f.payload_fits in
    let checksum = get_or pdu 4 0 + 256 * get_or pdu 5 0 in
    let len : length payload ≡ suc (length text) = omega (arith, length-append text (0 ∷ [])) in
    let shown = printed_chars-text (suc (length text)) text chars refl in
    (
      pdu,
      create_pdu-some in_cksum seq flag payload f.payload_fits,
      (
        checksum,
        print_pdu-fields in_cksum pdu (length pdu) seq flag (suc (length text)) payload text
            (omega (arith, len)) valid s g p shown,
      ),
    )
