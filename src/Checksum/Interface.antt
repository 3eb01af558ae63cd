-- ===== src/Checksum/Interface.antt =====
-- What the transfer program relies on in the checksum function that it links.
use cpe_464_proj.Base.{
  ℕ, ◌+◌, ◌/◌, ◌%◌, ◌^◌, ◌≤◌, ◌<◌, ◌≡◌, ◌≢◌, List, ◌∷◌, length, set, get_or, All,
}

abbrev pub IsByte : ℕ → Type 0
IsByte b = b < 256

-- MAX_PDU_SIZE of rcopy.c, server.c and window.h.
abbrev pub max_pdu_size : ℕ
max_pdu_size = 1407

pub record IsChecksum (in_cksum : List ℕ → ℕ → ℕ) : Type 0 where
  -- The result is an `unsigned short`.
  pub word : (addr : List ℕ) (len : ℕ) → in_cksum addr len < 2 ^ 16
  -- A checksum computed with zeros in its place, and then stored there, makes the sum verify.
  pub fills :
      (a b c d len : ℕ) (rest : List ℕ)
      → All IsByte (a ∷ b ∷ c ∷ d ∷ rest)
      → len ≡ 6 + length rest
      → len ≤ max_pdu_size
      → let s = in_cksum (a ∷ b ∷ c ∷ d ∷ 0 ∷ 0 ∷ rest) len in
        in_cksum (a ∷ b ∷ c ∷ d ∷ (s % 256) ∷ (s / 256) ∷ rest) len ≡ 0
  -- Changing one byte of a buffer that verifies makes it fail.
  pub detects :
      (addr : List ℕ) (i v : ℕ)
      → All IsByte addr
      → length addr ≤ max_pdu_size
      → i < length addr
      → IsByte v
      → v ≢ get_or addr i 0
      → in_cksum addr (length addr) ≡ 0
      → in_cksum (set addr i v) (length addr) ≢ 0
