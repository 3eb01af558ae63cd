-- ===== src/Networks/Ports.antt =====
-- The ports of the two ends.
use cpe_464_proj.Base.{ℕ, ◌^◌, ◌<◌, ◌≡◌, ◌⊎◌, some, ℤ}
use cpe_464_proj.Networks.{SocketAnswers, to_u16, htons}

-- What the manual of `bind` says of the port `p` that a socket gets when `port` is asked for: it is
-- that one, unless 0 is asked for.
pub record IsBind (s : SocketAnswers) (port : ℤ) (p : ℕ) : Type 0 where
  pub given : s.binds ≡ some p
  pub fits : p < 2 ^ 16
  pub asked : (to_u16 port ≡ 0) ⊎ (p ≡ htons (to_u16 port))
