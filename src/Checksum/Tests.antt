-- ===== src/Checksum/Tests.antt =====
-- Runs of `in_cksum`.
use cpe_464_proj.Base.{◌≡◌, ◌↔◌, ◌<◌, ◌%◌, refl, [], ◌∷◌, arith}
use cpe_464_proj.Checksum.{in_cksum}
use cpe_464_proj.Checksum.Sum.{word_sum}
use cpe_464_proj.Checksum.Laws.{in_cksum_verifies_iff}

even_length : in_cksum (1 ∷ 2 ∷ 3 ∷ 4 ∷ []) 4 ≡ 0xf9fb
unfolding in_cksum
even_length = refl

odd_length : in_cksum (255 ∷ 255 ∷ 1 ∷ []) 3 ≡ 0xfffe
unfolding in_cksum
odd_length = refl

in_cksum_verifies_iff_example :
    (in_cksum (255 ∷ 255 ∷ 1 ∷ []) 3 ≡ 0)
    ↔ ((0 < word_sum (255 ∷ 255 ∷ 1 ∷ [])) × (word_sum (255 ∷ 255 ∷ 1 ∷ []) % 65535 ≡ 0))
in_cksum_verifies_iff_example =
    in_cksum_verifies_iff (255 ∷ 255 ∷ 1 ∷ []) (omega arith, (omega arith, (omega arith, tt)))
      (omega arith)
