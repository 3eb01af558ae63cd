-- ===== src/Checksum/Sum.antt =====
-- The sum of the 16-bit words of a buffer, without the accumulator of the loop in checksum.c.
use cpe_464_proj.Base.{
  ℕ, zero, suc, ◌+◌, ◌*◌, ◌/◌, ◌%◌, ◌≤◌, ◌<◌, ◌≡◌, ◌⊎◌, inl, inr, List, [], ◌∷◌, arith, length, set,
  get_or, All,
}
use cpe_464_proj.Checksum.{add_words}
use cpe_464_proj.Checksum.Interface.{IsByte}

pub word_sum : List ℕ → ℕ
word_sum [] = 0
word_sum (a ∷ []) = a
word_sum (a ∷ b ∷ rest) = a + 256 * b + word_sum rest

-- The loop adds the words of the buffer to its accumulator.
pub add_words-word_sum : (sum : ℕ) (xs : List ℕ) → add_words sum xs ≡ sum + word_sum xs
unfolding add_words word_sum
add_words-word_sum sum [] = omega arith
add_words-word_sum sum (a ∷ []) = omega arith
add_words-word_sum sum (a ∷ b ∷ rest) = omega (arith, add_words-word_sum (sum + (a + 256 * b)) rest)

pub word_sum_bound : (xs : List ℕ) → All IsByte xs → word_sum xs ≤ 65535 * length xs
unfolding word_sum
word_sum_bound [] h = omega arith
word_sum_bound (a ∷ []) h = omega arith
word_sum_bound (a ∷ b ∷ rest) h = omega (arith, word_sum_bound rest h.1.1)

-- A byte weighs 1 or 256 in the sum, by the parity of its index.
pub word_sum-set :
    (xs : List ℕ) (i v : ℕ)
    → i < length xs
    → (word_sum (set xs i v) + get_or xs i 0 ≡ word_sum xs + v)
      ⊎ (word_sum (set xs i v) + 256 * get_or xs i 0 ≡ word_sum xs + 256 * v)
unfolding word_sum
word_sum-set [] i v h = absurd (omega arith)
word_sum-set (a ∷ []) zero v h = inl (omega arith)
word_sum-set (a ∷ []) (suc i) v h = absurd (omega arith)
word_sum-set (a ∷ b ∷ rest) zero v h = inl (omega arith)
word_sum-set (a ∷ b ∷ rest) (suc zero) v h = inr (omega arith)
word_sum-set (a ∷ b ∷ rest) (suc (suc i)) v h = elim (word_sum-set rest i v (omega arith)) [
  | inl e ↦ inl (omega arith)
  | inr e ↦ inr (omega arith)
]

-- Storing a 16-bit word low byte first where the sum had zeros adds it to the sum.
pub word_sum-fill :
    (a b c d s : ℕ) (rest : List ℕ)
    → word_sum (a ∷ b ∷ c ∷ d ∷ (s % 256) ∷ (s / 256) ∷ rest)
      ≡ word_sum (a ∷ b ∷ c ∷ d ∷ 0 ∷ 0 ∷ rest) + s
unfolding word_sum
word_sum-fill a b c d s rest = omega arith
