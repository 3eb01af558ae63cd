-- ===== src/Checksum.antt =====
-- libcpe464/checksum.c: `in_cksum`, the Internet checksum, on a little-endian machine. The rest of
-- the program takes the function as a parameter, with the laws of `Interface`.
pub mod Interface
pub mod Sum
pub mod Laws
mod Tests
use cpe_464_proj.Base.{ℕ, ◌+◌, ◌-◌, ◌*◌, ◌/◌, ◌%◌, ◌^◌, List, [], ◌∷◌, take}

-- The loop over 16-bit words, with the odd byte at the end as the low byte of a word. `sum` is an
-- `int`.
pub add_words : ℕ → List ℕ → ℕ
add_words sum [] = sum
add_words sum (a ∷ []) = sum + a
add_words sum (a ∷ b ∷ rest) = add_words (sum + (a + 256 * b)) rest

-- `(sum >> 16) + (sum & 0xffff)`, then `sum += (sum >> 16)`.
pub fold_carries : ℕ → ℕ
fold_carries sum = let low = sum / 2 ^ 16 + sum % 2 ^ 16 in low + low / 2 ^ 16

-- `answer = ~sum`, truncated to `unsigned short`.
abbrev pub complement16 : ℕ → ℕ
complement16 sum = 2 ^ 16 - 1 - sum % 2 ^ 16

unfoldable pub in_cksum : List ℕ → ℕ → ℕ
unfolding add_words fold_carries
in_cksum addr len = complement16 (fold_carries (add_words 0 (take len addr)))
