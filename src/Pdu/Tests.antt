-- ===== src/Pdu/Tests.antt =====
-- PDUs with a short payload, and the theorems of the codec at them.
use cpe_464_proj.Base.{◌≡◌, refl, List, [], ◌∷◌, some, true, false, pos, arith, set, ℕ, length}
use cpe_464_proj.Checksum.{in_cksum}
use cpe_464_proj.Checksum.Laws.{in_cksum-IsChecksum}
use cpe_464_proj.Pdu.{
  create_pdu, validate_checksum, get_sequence_num, get_flag, get_payload_len, payload_of,
}
use cpe_464_proj.Pdu.Print.{printed, print_pdu}
use cpe_464_proj.Pdu.Codec.{IsFrame, create_pdu-roundtrip, create_pdu-damaged}

abbrev hello : List ℕ
hello = 0 ∷ 0 ∷ 0 ∷ 0 ∷ 147 ∷ 151 ∷ 3 ∷ 104 ∷ 105 ∷ []

hello-IsFrame : IsFrame 0 3 (104 ∷ 105 ∷ [])
hello-IsFrame = record {
  seq_fits = omega arith;
  flag_byte = omega arith;
  payload_bytes = (omega arith, (omega arith, tt));
  payload_fits = omega arith;
}

created : create_pdu in_cksum 0 3 (104 ∷ 105 ∷ []) ≡ some hello
unfolding create_pdu in_cksum
created = refl

create_pdu-roundtrip_example :
    (pdu : List ℕ) × (create_pdu in_cksum 0 3 (104 ∷ 105 ∷ []) ≡ some pdu)
    × (validate_checksum in_cksum pdu (length pdu) ≡ true)
    × (get_sequence_num pdu ≡ 0)
    × (get_flag pdu ≡ 3)
    × (payload_of pdu ≡ 104 ∷ 105 ∷ [])
    × (get_payload_len (length pdu) ≡ pos 2)
create_pdu-roundtrip_example =
    create_pdu-roundtrip in_cksum in_cksum-IsChecksum 0 3 (104 ∷ 105 ∷ []) hello-IsFrame

-- The last byte is changed.
create_pdu-damaged_example : validate_checksum in_cksum (set hello 8 106) 9 ≡ false
create_pdu-damaged_example =
    create_pdu-damaged in_cksum in_cksum-IsChecksum 0 3 (104 ∷ 105 ∷ []) hello 8 106 hello-IsFrame
      created (omega arith) (omega arith) (omega arith)

-- The text "hi" with its NUL, printed.
hi_printed :
    print_pdu in_cksum (0 ∷ 0 ∷ 0 ∷ 0 ∷ 149 ∷ 151 ∷ 1 ∷ 104 ∷ 105 ∷ 0 ∷ []) 10
    ≡ printed false 0 38805 1 3 (104 ∷ 105 ∷ [])
unfolding print_pdu in_cksum get_sequence_num get_flag get_payload_len validate_checksum
hi_printed = refl
