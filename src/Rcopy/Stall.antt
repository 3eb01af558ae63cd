-- ===== src/Rcopy/Stall.antt =====
-- SEND_DATA and PROCESS_ACKS of rcopy.c at the end of the file, in a run without answers.
use cpe_464_proj.Base.{
  ℕ, zero, suc, ◌≡◌, refl, ap, ◌∙◌, ◌⊎◌, inl, inr, List, [], ◌∷◌, Bool, true, false, arith,
}
use cpe_464_proj.Client.{RcopyState, send_data, process_acks, RcopyInfo, all_acked, after_acks}
use cpe_464_proj.Window.{is_window_open}
use cpe_464_proj.Rcopy.{rcopy_step, state_handler, send_data_state, process_acks_state, drain_acks}
use cpe_464_proj.Rcopy.Retry.{IsQuiet}

-- The input has ended, an outstanding packet is not acknowledged, and the window has room.
pub record IsStuck (info : RcopyInfo) : Type 0 where
  pub at_eof : info.eof_reached ≡ true
  pub waiting : all_acked info ≡ false
  pub roomy : is_window_open info.window ≡ true
  pub quiet : IsQuiet info.polls

module _ (in_cksum : List ℕ → ℕ → ℕ) where
  send_data-stuck :
      (info : RcopyInfo) → IsStuck info → send_data_state in_cksum info ≡ (process_acks, info)
  unfolding send_data_state
  send_data-stuck info s = rw (s.at_eof, s.waiting)

  pub drain_acks-IsQuiet :
      (polls : List Bool) (info : RcopyInfo)
      → IsQuiet polls
      → (rest : List Bool) × IsQuiet rest
        × (drain_acks in_cksum polls info ≡ record info { polls = rest })
  unfolding drain_acks
  drain_acks-IsQuiet [] info q = ([], tt, refl)
  drain_acks-IsQuiet (false ∷ rest) info q = (rest, q.1, refl)
  drain_acks-IsQuiet (true ∷ rest) info q = absurd (cc (q.0))

  after_acks-stuck : (info : RcopyInfo) → IsStuck info → after_acks info ≡ (send_data, info)
  unfolding after_acks
  after_acks-stuck info s = ground (arith, s.at_eof, s.waiting, s.roomy)

  IsStuck-polls :
      (info : RcopyInfo) (rest : List Bool)
      → IsStuck info
      → IsQuiet rest
      → IsStuck (record info { polls = rest })
  unfolding all_acked
  IsStuck-polls info rest s q = record {
    at_eof = s.at_eof;
    waiting = s.waiting;
    roomy = s.roomy;
    quiet = q;
  }

  process_acks-IsStuck :
      (info : RcopyInfo)
      → IsStuck info
      → (rest : List Bool) × IsStuck (record info { polls = rest })
        × (process_acks_state in_cksum info ≡ (send_data, record info { polls = rest }))
  unfolding process_acks_state
  process_acks-IsStuck info s =
      let (rest, q, e) = drain_acks-IsQuiet info.polls info s.quiet in
      let stuck = IsStuck-polls info rest s q in
      (rest, stuck, ap after_acks e ∙ after_acks-stuck (record info { polls = rest }) stuck)

  -- The loop of `stateHandler`, once it is stuck in one of the two states.
  record Spins (info : RcopyInfo) (out : RcopyState × RcopyInfo) : Type 0 where
    spinning : (out.0 ≡ process_acks) ⊎ (out.0 ≡ send_data)
    same_sent : out.1.sent ≡ info.sent

  mutual
    unfolding state_handler rcopy_step

    acks-Spins :
        (fuel : ℕ) (info : RcopyInfo)
        → IsStuck info
        → Spins info (state_handler in_cksum fuel (process_acks, info))
    acks-Spins zero info s = record { spinning = inl refl; same_sent = refl }
    acks-Spins (suc fuel) info s =
        let (rest, stuck, e) = process_acks-IsStuck info s in
        let r = data-Spins fuel (record info { polls = rest }) stuck in
        rw e (record { spinning = r.spinning; same_sent = r.same_sent })

    data-Spins :
        (fuel : ℕ) (info : RcopyInfo)
        → IsStuck info
        → Spins info (state_handler in_cksum fuel (send_data, info))
    data-Spins zero info s = record { spinning = inr refl; same_sent = refl }
    data-Spins (suc fuel) info s = rw (send_data-stuck info s) (acks-Spins fuel info s)

  -- With the input at its end, an unacknowledged packet, a window that is not full and a silent
  -- server, every number of rounds of stateHandler from PROCESS_ACKS leaves the client in
  -- PROCESS_ACKS or SEND_DATA with nothing more sent.
  pub stalls_at_eof :
      (fuel : ℕ) (info : RcopyInfo)
      → IsStuck info
      → let out = state_handler in_cksum fuel (process_acks, info) in
        ((out.0 ≡ process_acks) ⊎ (out.0 ≡ send_data)) × (out.1.sent ≡ info.sent)
  stalls_at_eof fuel info s = let r = acks-Spins fuel info s in (r.spinning, r.same_sent)
