-- ===== src/Checksum/Laws.antt =====
-- The laws of `Interface`, for `in_cksum` of libcpe464/checksum.c.
use cpe_464_proj.Base.{
  ℕ, ◌+◌, ◌/◌, ◌%◌, ◌^◌, ◌≤◌, ◌<◌, ◌≡◌, ◌≢◌, ◌↔◌, List, ◌∷◌, arith, ap, length, set, get_or, All,
  All-set, All-get_or, length-set, take_all,
}
use cpe_464_proj.Checksum.{add_words, fold_carries, complement16, in_cksum}
use cpe_464_proj.Checksum.Interface.{IsByte, max_pdu_size, IsChecksum}
use cpe_464_proj.Checksum.Sum.{
  word_sum, add_words-word_sum, word_sum_bound, word_sum-set, word_sum-fill,
}

-- The folded complement is zero exactly for the positive multiples of 2^16 - 1.
complement-fold-zero :
    (sum : ℕ)
    → sum < 2 ^ 31
    → (complement16 (fold_carries sum) ≡ 0) ↔ ((0 < sum) × (sum % 65535 ≡ 0))
unfolding fold_carries
complement-fold-zero sum h = (λ e. omega arith, λ p. omega arith)

-- Adding the folded complement to the sum makes it a positive multiple of 2^16 - 1.
complement-fold-sum :
    (sum : ℕ)
    → sum < 2 ^ 30
    → (0 < sum + complement16 (fold_carries sum))
      × ((sum + complement16 (fold_carries sum)) % 65535 ≡ 0)
unfolding fold_carries
complement-fold-sum sum h = (omega arith, omega arith)

-- On at most 1407 bytes the accumulator of in_cksum stays below 2^27, so that the int does not
-- overflow.
add_words_fits : (xs : List ℕ) → All IsByte xs → length xs ≤ max_pdu_size → add_words 0 xs < 2 ^ 27
add_words_fits xs h l = omega (arith, add_words-word_sum 0 xs, word_sum_bound xs h)

in_cksum-word_sum :
    (xs : List ℕ) → in_cksum xs (length xs) ≡ complement16 (fold_carries (word_sum xs))
unfolding in_cksum
in_cksum-word_sum xs =
    rw (take_all (length xs) xs (omega arith))
      (ap (λ s. complement16 (fold_carries s)) (omega (arith, add_words-word_sum 0 xs)))

-- For at most 1407 bytes in_cksum is 0 exactly when the sum of the 16-bit words is a positive
-- multiple of 2^16 - 1.
pub in_cksum_verifies_iff :
    (xs : List ℕ)
    → All IsByte xs
    → length xs ≤ max_pdu_size
    → (in_cksum xs (length xs) ≡ 0) ↔ ((0 < word_sum xs) × (word_sum xs % 65535 ≡ 0))
in_cksum_verifies_iff xs h l =
    rw in_cksum-word_sum (complement-fold-zero (word_sum xs) (omega (arith, word_sum_bound xs h)))

in_cksum_word : (addr : List ℕ) (len : ℕ) → in_cksum addr len < 2 ^ 16
unfolding in_cksum
in_cksum_word addr len = omega arith

-- A buffer of bytes with zeros in its third word verifies once its checksum is stored there.
filled_verifies :
    (a b c d s : ℕ) (rest : List ℕ)
    → All IsByte (a ∷ b ∷ c ∷ d ∷ rest)
    → length (a ∷ b ∷ c ∷ d ∷ 0 ∷ 0 ∷ rest) ≤ max_pdu_size
    → s ≡ complement16 (fold_carries (word_sum (a ∷ b ∷ c ∷ d ∷ 0 ∷ 0 ∷ rest)))
    → let pdu = a ∷ b ∷ c ∷ d ∷ (s % 256) ∷ (s / 256) ∷ rest in in_cksum pdu (length pdu) ≡ 0
filled_verifies a b c d s rest h l e =
    (in_cksum_verifies_iff pdu with_sum l).1
      (rw (word_sum-fill, e) (complement-fold-sum total small))
  where
    pdu : List ℕ
    pdu = a ∷ b ∷ c ∷ d ∷ (s % 256) ∷ (s / 256) ∷ rest

    sum_bytes : IsByte (s % 256) × IsByte (s / 256)
    sum_bytes = rw e (omega arith)

    with_sum : All IsByte pdu
    with_sum = (h.0, (h.1.0, (h.1.1.0, (h.1.1.1.0, (sum_bytes.0, (sum_bytes.1, h.1.1.1.1))))))

    total : ℕ
    total = word_sum (a ∷ b ∷ c ∷ d ∷ 0 ∷ 0 ∷ rest)

    small : total < 2 ^ 30
    small = omega (
      arith,
      word_sum_bound (a ∷ b ∷ c ∷ d ∷ 0 ∷ 0 ∷ rest)
          (h.0, (h.1.0, (h.1.1.0, (h.1.1.1.0, (omega arith, (omega arith, h.1.1.1.1)))))),
    )

in_cksum_fills :
    (a b c d len : ℕ) (rest : List ℕ)
    → All IsByte (a ∷ b ∷ c ∷ d ∷ rest)
    → len ≡ 6 + length rest
    → len ≤ max_pdu_size
    → let s = in_cksum (a ∷ b ∷ c ∷ d ∷ 0 ∷ 0 ∷ rest) len in
      in_cksum (a ∷ b ∷ c ∷ d ∷ (s % 256) ∷ (s / 256) ∷ rest) len ≡ 0
in_cksum_fills a b c d len rest h e l =
    let e' : len ≡ length (a ∷ b ∷ c ∷ d ∷ 0 ∷ 0 ∷ rest) = omega arith in
    rw e' (filled_verifies a b c d _ rest h (omega arith) (in_cksum-word_sum _))

-- A word sum that is a multiple of 2^16 - 1 is none after a byte has changed.
in_cksum_detects :
    (addr : List ℕ) (i v : ℕ)
    → All IsByte addr
    → length addr ≤ max_pdu_size
    → i < length addr
    → IsByte v
    → v ≢ get_or addr i 0
    → in_cksum addr (length addr) ≡ 0
    → in_cksum (set addr i v) (length addr) ≢ 0
in_cksum_detects addr i v h l hi hv ne e bad =
    omega
      (arith, before, after, word_sum-set addr i v hi, All-get_or IsByte addr i 0 h (omega arith))
  where
    before : (0 < word_sum addr) × (word_sum addr % 65535 ≡ 0)
    before = (in_cksum_verifies_iff addr h l).0 e

    changed : List ℕ
    changed = set addr i v

    bad' : in_cksum changed (length changed) ≡ 0
    bad' = rw (length-set addr i v) bad

    after : (0 < word_sum changed) × (word_sum changed % 65535 ≡ 0)
    after =
        (in_cksum_verifies_iff changed (All-set IsByte addr i v h hv)
            (rw (length-set addr i v) l)).0
          bad'

-- in_cksum fits in 16 bits, a checksum stored where zeros stood makes a buffer of at most 1407
-- bytes verify, and changing one byte of a verifying buffer of at most 1407 bytes makes it fail.
pub in_cksum-IsChecksum : IsChecksum in_cksum
in_cksum-IsChecksum = record {
  word = in_cksum_word;
  fills = in_cksum_fills;
  detects = in_cksum_detects;
}
