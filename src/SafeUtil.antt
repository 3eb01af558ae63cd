-- ===== src/SafeUtil.antt =====
-- safeUtil.c: the calls that end the program when they fail. The argument is what the wrapped call
-- of the system returns, and `none` is the exit.
use cpe_464_proj.Base.{ℕ, Option, none, some, ℤ, pos, negsuc}

-- `returnValue < 0`
unfoldable pub exit_if_negative : ℤ → Option ℕ
exit_if_negative (pos n) = some n
exit_if_negative (negsuc n) = none

unfoldable pub safe_recvfrom : ℤ → Option ℕ
unfolding exit_if_negative
safe_recvfrom returned = exit_if_negative returned

unfoldable pub safe_sendto : ℤ → Option ℕ
unfolding exit_if_negative
safe_sendto returned = exit_if_negative returned

unfoldable pub safe_recv : ℤ → Option ℕ
unfolding exit_if_negative
safe_recv returned = exit_if_negative returned

unfoldable pub safe_send : ℤ → Option ℕ
unfolding exit_if_negative
safe_send returned = exit_if_negative returned

-- `realloc` and `calloc` return the array, or NULL (`none`).
unfoldable pub srealloc {ℓ} : {A : Type ℓ} → Option A → Option A
srealloc none = none
srealloc (some array) = some array

unfoldable pub s_calloc {ℓ} : {A : Type ℓ} → Option A → Option A
s_calloc none = none
s_calloc (some array) = some array
