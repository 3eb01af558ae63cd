-- ===== src/Rcopy/Silence/Rounds.antt =====
-- The rounds of `stateHandler` in rcopy.c with a silent server.
use cpe_464_proj.Base.{
  ℕ, zero, suc, ◌+◌, ◌-◌, ◌*◌, ◌≤◌, ◌<◌, ◌≡◌, refl, sym, ap, subst, ◌⊎◌, inl, inr, List, [], ◌∷◌,
  Bool, true, false, arith, length, take, leb, ◌==◌, if◌then◌else◌, Bool-cases,
}
use cpe_464_proj.Client.{
  RcopyState, send_filename, wait_filename_ack, send_data, process_acks, window_closed, send_eof,
  wait_eof_ack, done, ReadResult, read_error, read_bytes, RcopyInfo, poll_call, read_input,
  all_acked, drain_or_finish, after_acks,
}
use cpe_464_proj.Window.{is_window_open}
use cpe_464_proj.Rcopy.{
  send_control_packet, send_filename_state, wait_filename_ack_state, send_chunk, send_read,
  send_data_state, process_acks_state, send_eof_state, wait_eof_ack_state, rcopy_step,
  state_handler,
}
use cpe_464_proj.Rcopy.Retry.{IsQuiet, poll_call-quiet}
use cpe_464_proj.Rcopy.Stall.{IsStuck, drain_acks-IsQuiet}
use cpe_464_proj.Rcopy.Silence.{
  rank, Falls, retry_eof-Falls, window_closed_state-Falls, drain_or_finish-Falls, after_acks-Falls,
  rank_bounded, IsOver,
}

module _ (in_cksum : List ℕ → ℕ → ℕ) where
  wait_filename_ack_state-Falls :
      (info : RcopyInfo)
      → IsQuiet info.polls
      → Falls (1 + 2 * (10 - info.filename_tries)) (wait_filename_ack_state in_cksum info)
  unfolding wait_filename_ack_state
  wait_filename_ack_state-Falls info q =
      let p = poll_call-quiet info q in
      let i = (poll_call info).1 in
      elim (Bool-cases (leb 10 (i.filename_tries + 1))) [
        | inl last ↦ rw (p.timed_out, last) (record { quiet = p.still_quiet; falls = omega arith })
        | inr more ↦
            rw (p.timed_out, more)
              (record { quiet = p.still_quiet; falls = ground (arith, p.same_filename) })
      ]

  wait_eof_ack_state-Falls :
      (info : RcopyInfo)
      → IsQuiet info.polls
      → Falls (1 + 2 * (10 - info.eof_tries)) (wait_eof_ack_state in_cksum info)
  unfolding wait_eof_ack_state
  wait_eof_ack_state-Falls info q =
      let p = poll_call-quiet info q in
      rw p.timed_out
        (retry_eof-Falls (poll_call info).1 info.eof_tries p.still_quiet (sym p.same_eof))

  send_chunk-Falls :
      (bytes : List ℕ) (info : RcopyInfo) (n : ℕ)
      → IsQuiet info.polls
      → info.eof_reached ≡ false
      → 41 + 2 * length info.reads < n
      → Falls n (send_chunk in_cksum bytes info)
  unfolding send_chunk
  send_chunk-Falls bytes info n q live big = elim (Bool-cases (length bytes == 0)) [
    | inl empty ↦
        rw empty (drain_or_finish-Falls (record info { eof_reached = true }) n q refl (omega arith))
    | inr more ↦ rw more (record { quiet = q; falls = rw live big })
  ]

  read_none-Falls :
      (info : RcopyInfo) (n : ℕ)
      → IsQuiet info.polls
      → 30 < n
      → Falls n (send_chunk in_cksum [] info)
  unfolding send_chunk
  read_none-Falls info n q big =
      drain_or_finish-Falls (record info { eof_reached = true }) n q refl big

  send_read-Falls :
      (info : RcopyInfo)
      → IsQuiet info.polls
      → info.eof_reached ≡ false
      → Falls (40 + 2 * length info.reads) (send_read in_cksum (read_input info))
  unfolding send_read read_input
  send_read-Falls info q live = go info.reads refl
    where
      go :
          (rs : List ReadResult)
          → info.reads ≡ rs
          → Falls (40 + 2 * length info.reads) (send_read in_cksum (read_input info))
      go [] e = rw (e, read_input) (read_none-Falls info (40 + 2 * 0) q (omega arith))
      go (read_error ∷ rest) e = rw (e, read_input) (record { quiet = q; falls = omega arith })
      go (read_bytes bytes ∷ rest) e =
          rw (e, read_input)
            (send_chunk-Falls (take info.buffer_size bytes) (record info { reads = rest })
              (40 + 2 * suc (length rest)) q live (omega arith))

  send_data_state-eof :
      (info : RcopyInfo)
      → info.eof_reached ≡ true
      → send_data_state in_cksum info ≡ drain_or_finish info
  unfolding send_data_state
  send_data_state-eof info end =
      let go =
        if is_window_open info.window
        then send_read in_cksum (read_input info)
        else (window_closed, info) in
      ap (λ (b : Bool). if b then drain_or_finish info else go) end

  send_data_state-live :
      (info : RcopyInfo)
      → info.eof_reached ≡ false
      → send_data_state in_cksum info ≡ (
          if is_window_open info.window
          then send_read in_cksum (read_input info)
          else (window_closed, info))
  unfolding send_data_state
  send_data_state-live info live =
      let go =
        if is_window_open info.window
        then send_read in_cksum (read_input info)
        else (window_closed, info) in
      ap (λ (b : Bool). if b then drain_or_finish info else go) live

  send_data_state-Falls :
      (info : RcopyInfo)
      → IsQuiet info.polls
      → Falls (rank send_data info) (send_data_state in_cksum info)
  send_data_state-Falls info q = elim (Bool-cases info.eof_reached) [
    | inl end ↦
        subst (Falls (rank send_data info)) (sym (send_data_state-eof info end))
          (drain_or_finish-Falls info (rank send_data info) q end (ground (arith, end)))
    | inr live ↦
        let here : rank send_data info ≡ 40 + 2 * length info.reads = ground (arith, live) in
        subst (Falls (rank send_data info)) (sym (send_data_state-live info live))
          (elim (Bool-cases (is_window_open info.window)) [
            | inl roomy ↦ rw (here, roomy) (send_read-Falls info q live)
            | inr full ↦ rw (here, full) (record { quiet = q; falls = omega arith })
          ])
  ]

  process_acks_state-Falls :
      (info : RcopyInfo)
      → IsQuiet info.polls
      → IsStuck info ⊎ Falls (rank process_acks info) (process_acks_state in_cksum info)
  unfolding process_acks_state all_acked
  process_acks_state-Falls info q =
      let (rest, quiet, e) = drain_acks-IsQuiet in_cksum info.polls info q in
      elim (after_acks-Falls (record info { polls = rest }) quiet) [
        | inl stuck ↦ inl (record {
          at_eof = stuck.at_eof;
          waiting = stuck.waiting;
          roomy = stuck.roomy;
          quiet = q;
        })
        | inr f ↦ inr (subst (λ i. Falls (rank process_acks info) (after_acks i)) (sym e) f)
      ]

  -- What a quiet round does.
  quiet_round :
      (s : RcopyState) (info : RcopyInfo)
      → IsQuiet info.polls
      → (s ≡ done)
        ⊎ (((s ≡ process_acks) × IsStuck info) ⊎ Falls (rank s info) (rcopy_step in_cksum s info))
  unfolding rcopy_step send_filename_state send_eof_state send_control_packet
  quiet_round done info q = inl refl
  quiet_round send_filename info q = inr (inr (record { quiet = q; falls = omega arith }))
  quiet_round wait_filename_ack info q = inr (inr (wait_filename_ack_state-Falls info q))
  quiet_round send_data info q = inr (inr (send_data_state-Falls info q))
  quiet_round process_acks info q = elim (process_acks_state-Falls info q) [
    | inl stuck ↦ inr (inl (refl, stuck))
    | inr f ↦ inr (inr f)
  ]
  quiet_round window_closed info q = inr (inr (window_closed_state-Falls info q))
  quiet_round send_eof info q = inr (inr (record { quiet = q; falls = omega arith }))
  quiet_round wait_eof_ack info q = inr (inr (wait_eof_ack_state-Falls info q))

  quiet_rounds :
      (fuel : ℕ) (s : RcopyState) (info : RcopyInfo)
      → IsQuiet info.polls
      → rank s info ≤ fuel
      → (k : ℕ) × (k ≤ fuel) × IsOver (state_handler in_cksum k (s, info))
  unfolding state_handler
  quiet_rounds zero s info q le = elim (quiet_round s info q) [
    | inl over ↦ (0, omega arith, inl over)
    | inr (inl stuck) ↦ (0, omega arith, inr stuck)
    | inr (inr f) ↦ absurd (omega (arith, f.falls))
  ]
  quiet_rounds (suc fuel) s info q le = elim (quiet_round s info q) [
    | inl over ↦ (0, omega arith, inl over)
    | inr (inl stuck) ↦ (0, omega arith, inr stuck)
    | inr (inr f) ↦
        let out = rcopy_step in_cksum s info in
        let (k, few, ends) = quiet_rounds fuel out.0 out.1 f.quiet (omega (arith, f.falls)) in
        (suc k, omega arith, ends)
  ]

  -- Against a server that is silent from now on, stateHandler in whatever state it is, with
  -- whatever window, tries and input left, comes within 41 rounds and two for each read that is
  -- left to DONE, or to PROCESS_ACKS with the input at its end, a packet unacknowledged and a
  -- window that is not full.
  pub silence_ends :
      (s : RcopyState) (info : RcopyInfo)
      → IsQuiet info.polls
      → (k : ℕ) × (k ≤ 41 + 2 * length info.reads) × IsOver (state_handler in_cksum k (s, info))
  silence_ends s info q = quiet_rounds (41 + 2 * length info.reads) s info q (rank_bounded s info)
