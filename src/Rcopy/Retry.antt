-- ===== src/Rcopy/Retry.antt =====
-- The retries of rcopy.c in SEND_FILENAME and SEND_EOF, in a run without answers.
use cpe_464_proj.Base.{
  ℕ, zero, suc, ◌+◌, ◌≡◌, refl, List, [], ◌∷◌, Bool, false, length, All, leb, if◌then◌else◌,
}
use cpe_464_proj.Client.{RcopyState, done, RcopyInfo, poll_call}
use cpe_464_proj.Rcopy.{state_handler}

-- No poll finds the socket ready.
abbrev pub IsQuiet : List Bool → Type 0
IsQuiet polls = All (λ ready. ready ≡ false) polls

abbrev pub twice : ℕ → ℕ
twice zero = zero
twice (suc k) = suc (suc (twice k))

-- A poll in a quiet run times out, and changes nothing that the program sees.
pub record PollsOut (info : RcopyInfo) (out : Bool × RcopyInfo) : Type 0 where
  pub timed_out : out.0 ≡ false
  pub still_quiet : IsQuiet out.1.polls
  pub same_sent : out.1.sent ≡ info.sent
  pub same_window : out.1.window ≡ info.window
  pub same_timeouts : out.1.timeout_count ≡ info.timeout_count
  pub same_filename : out.1.filename_tries ≡ info.filename_tries
  pub same_eof : out.1.eof_tries ≡ info.eof_tries

pub poll_call-quiet : (info : RcopyInfo) → IsQuiet info.polls → PollsOut info (poll_call info)
unfolding poll_call
poll_call-quiet info q = go info.polls refl q
  where
    go : (polls : List Bool) → info.polls ≡ polls → IsQuiet polls → PollsOut info (poll_call info)
    go [] e q =
        rw (e, poll_call)
          (record {
            timed_out = refl;
            still_quiet = rw e q;
            same_sent = refl;
            same_window = refl;
            same_timeouts = refl;
            same_filename = refl;
            same_eof = refl;
          })
    go (b ∷ rest) e q =
        rw (e, poll_call)
          (record {
            timed_out = q.0;
            still_quiet = q.1;
            same_sent = refl;
            same_window = refl;
            same_timeouts = refl;
            same_filename = refl;
            same_eof = refl;
          })

module _ (in_cksum : List ℕ → ℕ → ℕ) where
  -- DONE is final.
  state_handler-done :
      (fuel : ℕ) (info : RcopyInfo) → state_handler in_cksum fuel (done, info) ≡ (done, info)
  unfolding state_handler
  state_handler-done zero info = refl
  state_handler-done (suc fuel) info = state_handler-done fuel info

  -- A state function and the wait behind it, in a quiet run.
  record Round (again : RcopyState) (tries tries' : ℕ) (info : RcopyInfo)
      (out : RcopyState × RcopyInfo) : Type 0 where
    next : out.0 ≡ (if leb 10 (suc tries) then done else again)
    counted : tries' ≡ suc tries
    one_more : length out.1.sent ≡ suc (length info.sent)
    quiet : IsQuiet out.1.polls

  -- What it is to give up: DONE after `left` more PDUs.
  abbrev GivesUp : ℕ → RcopyInfo → RcopyState × RcopyInfo → Type 0
  GivesUp left info out = (out.0 ≡ done) × (length out.1.sent ≡ length info.sent + left)
