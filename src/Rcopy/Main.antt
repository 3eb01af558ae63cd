-- ===== src/Rcopy/Main.antt =====
-- `main` of rcopy.c, which then frees the window and closes the descriptors.
use cpe_464_proj.Base.{ℕ, List, Option, none, some}
use cpe_464_proj.Client.{RcopyState, send_filename, RcopyInfo}
use cpe_464_proj.Setup.{Args, Answers, Setup, started, exited, init_rcopy_info}
use cpe_464_proj.Rcopy.{state_handler}

module _ (in_cksum : List ℕ → ℕ → ℕ) where
  -- What follows `initRcopyInfo`, which may exit.
  unfoldable pub proceed : Setup → ℕ → Option (RcopyState × RcopyInfo)
  unfolding state_handler
  proceed (exited error) steps = none
  proceed (started info) steps = some (state_handler in_cksum steps (send_filename, info))

  -- The client after so many rounds of its loop; `none` is an exit at its start.
  unfoldable pub main : Args → Answers → ℕ → Option (RcopyState × RcopyInfo)
  unfolding init_rcopy_info proceed
  main a answers steps = proceed (init_rcopy_info a answers) steps
