-- ===== src/Rcopy/Silence.antt =====
-- The loop of `stateHandler` in rcopy.c with a server that is silent.
pub mod Rounds
use cpe_464_proj.Base.{
  ℕ, zero, suc, ◌+◌, ◌-◌, ◌*◌, ◌≤◌, ◌<◌, ◌≡◌, refl, sym, ap, subst, ◌∙◌, ◌⊎◌, inl, inr, List, [],
  ◌∷◌, Option, none, some, Bool, true, false, not, ◌&&◌, arith, length, leb, ltb, ◌==◌,
  if◌then◌else◌, Bool-cases,
}
use cpe_464_proj.Client.{
  RcopyState, send_filename, wait_filename_ack, send_data, process_acks, window_closed, send_eof,
  wait_eof_ack, done, ReadResult, read_error, read_bytes, RcopyInfo, poll_call, read_input,
  retry_eof, all_acked, drain_or_finish, resend, lowest_pdu, after_acks, window_timeout,
  window_closed_state,
}
use cpe_464_proj.Window.{is_window_open, get_lowest_window_packet}
use cpe_464_proj.Rcopy.{
  send_control_packet, send_filename_state, wait_filename_ack_state, send_chunk, send_read,
  send_data_state, drain_acks, process_acks_state, send_eof_state, wait_eof_ack_state, rcopy_step,
  state_handler,
}
use cpe_464_proj.Rcopy.Retry.{IsQuiet, PollsOut, poll_call-quiet}
use cpe_464_proj.Rcopy.Stall.{IsStuck, drain_acks-IsQuiet}

-- How many more rounds there can be before the client ends, or is stuck.
abbrev pub rank : RcopyState → RcopyInfo → ℕ
rank done info = 0
rank window_closed info = 1 + (10 - info.timeout_count)
rank wait_eof_ack info = 1 + 2 * (10 - info.eof_tries)
rank send_eof info = 2 + 2 * (10 - info.eof_tries)
rank wait_filename_ack info = 1 + 2 * (10 - info.filename_tries)
rank send_filename info = 2 + 2 * (10 - info.filename_tries)
rank process_acks info = if info.eof_reached then 30 else 41 + 2 * length info.reads
rank send_data info = if info.eof_reached then 31 else 40 + 2 * length info.reads

-- A quiet round brings the end nearer.
pub record Falls (n : ℕ) (out : RcopyState × RcopyInfo) : Type 0 where
  pub quiet : IsQuiet out.1.polls
  pub falls : rank out.0 out.1 < n

polls-resend : (info : RcopyInfo) (o : Option (List ℕ)) → (resend info o).polls ≡ info.polls
unfolding resend
polls-resend info none = refl
polls-resend info (some pdu) = ground arith

pub retry_eof-Falls :
    (info : RcopyInfo) (n : ℕ)
    → IsQuiet info.polls
    → n ≡ info.eof_tries
    → Falls (1 + 2 * (10 - n)) (retry_eof info)
unfolding retry_eof
retry_eof-Falls info n q e = elim (Bool-cases (leb 10 (info.eof_tries + 1))) [
  | inl last ↦ rw last (record { quiet = q; falls = omega arith })
  | inr more ↦ rw more (record { quiet = q; falls = ground arith })
]

pub window_closed_state-Falls :
    (info : RcopyInfo)
    → IsQuiet info.polls
    → Falls (1 + (10 - info.timeout_count)) (window_closed_state info)
unfolding window_closed_state window_timeout
window_closed_state-Falls info q =
    let p = poll_call-quiet info q in
    let i = (poll_call info).1 in
    let o = lowest_pdu (get_lowest_window_packet i.window) in
    let quiet = subst IsQuiet (sym (polls-resend i o)) p.still_quiet in
    elim (Bool-cases (leb 10 (i.timeout_count + 1))) [
      | inl last ↦ rw (p.timed_out, last) (record { quiet = quiet; falls = omega arith })
      | inr more ↦
          rw (p.timed_out, more) (record { quiet = quiet; falls = ground (arith, p.same_timeouts) })
    ]

-- At the end of the file.
pub drain_or_finish-Falls :
    (info : RcopyInfo) (n : ℕ)
    → IsQuiet info.polls
    → info.eof_reached ≡ true
    → 30 < n
    → Falls n (drain_or_finish info)
unfolding drain_or_finish
drain_or_finish-Falls info n q end big = elim (Bool-cases (all_acked info)) [
  | inl all ↦ rw all (record { quiet = q; falls = omega arith })
  | inr waits ↦ rw waits (record { quiet = q; falls = rw end big })
]

pub after_acks-Falls :
    (info : RcopyInfo)
    → IsQuiet info.polls
    → IsStuck info ⊎ Falls (rank process_acks info) (after_acks info)
unfolding after_acks
after_acks-Falls info q = elim (Bool-cases info.eof_reached) [
  | inl end ↦ elim (Bool-cases (all_acked info)) [
    | inl all ↦
        inr (record { quiet = ground (arith, end, all, q); falls = ground (arith, end, all) })
    | inr waits ↦ elim (Bool-cases (is_window_open info.window)) [
      | inl roomy ↦ inl (record { at_eof = end; waiting = waits; roomy = roomy; quiet = q })
      | inr full ↦ inr (record {
        quiet = ground (arith, end, waits, full, q);
        falls = ground (arith, end, waits, full);
      })
    ]
  ]
  | inr live ↦ elim (Bool-cases (is_window_open info.window)) [
    | inl roomy ↦
        inr (record { quiet = ground (arith, live, roomy, q); falls = ground (arith, live, roomy) })
    | inr full ↦
        inr (record { quiet = ground (arith, live, full, q); falls = ground (arith, live, full) })
  ]
]

pub rank_bounded : (s : RcopyState) (info : RcopyInfo) → rank s info ≤ 41 + 2 * length info.reads
rank_bounded done info = omega arith
rank_bounded window_closed info = omega arith
rank_bounded wait_eof_ack info = omega arith
rank_bounded send_eof info = omega arith
rank_bounded wait_filename_ack info = omega arith
rank_bounded send_filename info = omega arith
rank_bounded process_acks info = ground arith
rank_bounded send_data info = ground arith

-- The client has ended, or it is stuck.
abbrev pub IsOver : RcopyState × RcopyInfo → Type 0
IsOver (s, info) = (s ≡ done) ⊎ ((s ≡ process_acks) × IsStuck info)
