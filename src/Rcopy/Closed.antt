-- ===== src/Rcopy/Closed.antt =====
-- WINDOW_CLOSED of rcopy.c in a run without answers.
use cpe_464_proj.Base.{
  ℕ, zero, suc, ◌+◌, ◌<◌, ◌≡◌, refl, sym, ap, subst, ◌∙◌, List, ◌∷◌, ◌++◌, Option, some, arith,
  length, replicate, leb, if◌then◌else◌,
}
use cpe_464_proj.Client.{
  RcopyState, window_closed, done, RcopyInfo, poll_call, window_closed_state, resend, lowest_pdu,
}
use cpe_464_proj.Window.{Window, get_lowest_window_packet}
use cpe_464_proj.Rcopy.{rcopy_step, state_handler}
use cpe_464_proj.Rcopy.Retry.{IsQuiet, poll_call-quiet}

-- A time-out of the closed window, whose oldest PDU is `pdu`.
record TimesOut (pdu : List ℕ) (info : RcopyInfo) (out : RcopyState × RcopyInfo) : Type 0 where
  next : out.0 ≡ (if leb 10 (suc info.timeout_count) then done else window_closed)
  counted : out.1.timeout_count ≡ suc info.timeout_count
  quiet : IsQuiet out.1.polls
  same_window : out.1.window ≡ info.window
  again : out.1.sent ≡ some pdu ∷ info.sent

-- The oldest PDU of the window, which has at least one byte.
abbrev IsOldest : List ℕ → RcopyInfo → Type 0
IsOldest pdu info =
    (lowest_pdu (get_lowest_window_packet info.window) ≡ some pdu) × (0 < length pdu)

window_closed-TimesOut :
    (pdu : List ℕ) (info : RcopyInfo)
    → IsQuiet info.polls
    → IsOldest pdu info
    → TimesOut pdu info (window_closed_state info)
unfolding window_closed_state resend
window_closed-TimesOut pdu info q (old, size) =
    let p = poll_call-quiet info q in
    let same : lowest_pdu (get_lowest_window_packet (poll_call info).1.window) ≡ some pdu =
      ap (λ w. lowest_pdu (get_lowest_window_packet w)) p.same_window ∙ old in
    ground (arith, p, same)

replicate-shift :
    {A : Type 0} (n : ℕ) (a : A) (xs : List A)
    → replicate n a ++ (a ∷ xs) ≡ a ∷ (replicate n a ++ xs)
replicate-shift zero a xs = refl
replicate-shift (suc n) a xs = ap (λ ys. a ∷ ys) (replicate-shift n a xs)

module _ (in_cksum : List ℕ → ℕ → ℕ) (pdu : List ℕ) where
  -- In a quiet run with a closed window, whose oldest PDU is not empty, and some of its ten
  -- time-outs left, the client sends the oldest outstanding PDU once for each of them and nothing
  -- else, and then is in DONE.
  pub closed_window_gives_up :
      (left : ℕ) (info : RcopyInfo)
      → 0 < left
      → info.timeout_count + left ≡ 10
      → IsQuiet info.polls
      → lowest_pdu (get_lowest_window_packet info.window) ≡ some pdu
      → 0 < length pdu
      → let out = state_handler in_cksum left (window_closed, info) in
        (out.0 ≡ done) × (out.1.sent ≡ replicate left (some pdu) ++ info.sent)
  unfolding state_handler rcopy_step
  closed_window_gives_up zero info p e q old size = absurd (omega arith)
  closed_window_gives_up (suc zero) info p e q old size =
      let r = window_closed-TimesOut pdu info q (old, size) in ground (arith, r)
  closed_window_gives_up (suc (suc left)) info p e q old size =
      let r = window_closed-TimesOut pdu info q (old, size) in
      let same : (window_closed_state info).0 ≡ window_closed = ground (arith, r) in
      let rest =
        closed_window_gives_up (suc left) (window_closed_state info).1 (omega arith)
          (omega (arith, r.counted)) r.quiet (still r.same_window old) size in
      let sends : List (Option (List ℕ)) = replicate (suc (suc left)) (some pdu) ++ info.sent in
      subst
        (λ s.
          let out = state_handler in_cksum (suc left) (s, (window_closed_state info).1) in
          (out.0 ≡ done) × (out.1.sent ≡ sends))
        (sym same)
        (
          rest.0,
          rest.1
              ∙ ap (λ xs. replicate (suc left) (some pdu) ++ xs) r.again
              ∙ replicate-shift (suc left) (some pdu) info.sent,
        )
    where
      still :
          {w : Window}
          → w ≡ info.window
          → lowest_pdu (get_lowest_window_packet info.window) ≡ some pdu
          → lowest_pdu (get_lowest_window_packet w) ≡ some pdu
      still e h = ap (λ w. lowest_pdu (get_lowest_window_packet w)) e ∙ h
