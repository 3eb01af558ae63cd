-- ===== src/Base/Words.antt =====
-- `uint32_t` counters and the `int` lengths that may be negative.
use Prim.Native.Nat.{ℕ, suc, ◌+◌, ◌-◌, ◌*◌, ◌/◌, ◌%◌, ◌^◌, ◌<◌}
use mathlib.Core.Path.{◌≡◌}
use mathlib.Core.Bool.{Bool, true, false}
use mathlib.Core.List.{List, [], ◌∷◌}
use native.Mathlib.Omega.{arith}
use cpe_464_proj.Base.Tests.{ltb, if◌then◌else◌}
use cpe_464_proj.Base.Lists.{get_or}

abbrev pub u32_mod : ℕ
u32_mod = 2 ^ 32

-- `x++` on a `uint32_t`.
abbrev pub inc32 : ℕ → ℕ
inc32 n = (n + 1) % u32_mod

-- An `int`; `negsuc n` is -(n + 1).
pub data ℤ : Type 0 where
  pos : ℕ → ℤ
  negsuc : ℕ → ℤ

-- a - b, as an integer.
abbrev pub sub_ℕ : ℕ → ℕ → ℤ
sub_ℕ a b = if ltb a b then negsuc (b - a - 1) else pos (a - b)

abbrev pub is_negative : ℤ → Bool
is_negative (pos n) = false
is_negative (negsuc n) = true

-- The four bytes of a `uint32_t` in network order, as `htonl` and `memcpy` lay them out.
abbrev pub htonl_bytes : ℕ → List ℕ
htonl_bytes n = (n / 2 ^ 24 % 256) ∷ (n / 2 ^ 16 % 256) ∷ (n / 2 ^ 8 % 256) ∷ (n % 256) ∷ []

-- The `uint32_t` whose network-order bytes stand at offset `i`, as `memcpy` and `ntohl` read it.
abbrev pub ntohl_at : List ℕ → ℕ → ℕ
ntohl_at bytes i =
    get_or bytes i 0 * 2 ^ 24
    + get_or bytes (suc i) 0 * 2 ^ 16
    + get_or bytes (suc (suc i)) 0 * 2 ^ 8
    + get_or bytes (suc (suc (suc i))) 0

-- `ntohl` undoes `htonl`.
pub ntohl_at-htonl_bytes : (n : ℕ) → n < u32_mod → ntohl_at (htonl_bytes n) 0 ≡ n
ntohl_at-htonl_bytes n h = omega arith
