-- ===== src/Rcopy/Chunks/Acks.antt =====
-- PROCESS_ACKS and WINDOW_CLOSED of rcopy.c: the PDUs that are sent again.
use cpe_464_proj.Base.{
  ℕ, ◌≡◌, refl, ◌∙◌, List, [], ◌∷◌, Bool, true, false, ◌&&◌, arith, ◌==◌, ltb, if◌then◌else◌,
  Bool-cases, inl, inr,
}
use cpe_464_proj.Pdu.{
  Datagram, validate_checksum, get_flag, flag_rr, flag_srej, get_control_seq_num,
}
use cpe_464_proj.Window.{Window, is_window_open, process_rr, process_srej, get_lowest_window_packet}
use cpe_464_proj.Client.{
  send_data, process_acks, window_closed, send_eof, ReadResult, RcopyInfo, poll_call, recvfrom,
  resend, window_closed_state, lowest_pdu,
}
use cpe_464_proj.Rcopy.{handle_ack, drain_acks, process_acks_state}
use cpe_464_proj.Rcopy.Chunks.Slots.{
  process_rr-SlotsHold, process_srej-GivesData, get_lowest-GivesData,
}
use cpe_464_proj.Rcopy.Chunks.States.{
  Sends, Continues, Sends-enter, Sends-ext, poll_call-Sends, recvfrom-Sends, resend-Sends,
  if-Continues,
}

current-process_rr : (w : Window) (rr : ℕ) → (process_rr w rr).current ≡ w.current
unfolding process_rr
current-process_rr w rr = ground arith

module _ (in_cksum : List ℕ → ℕ → ℕ) (input : List ReadResult) where
  -- An RR takes PDUs out of the window, an SREJ sends one again.
  handle_ack-Sends :
      (n : ℕ) (d : Datagram) (info : RcopyInfo)
      → Sends in_cksum input n info
      → Sends in_cksum input n (handle_ack in_cksum (d, info))
  unfolding handle_ack
  handle_ack-Sends n d info t =
      let seq = get_control_seq_num d.pdu in
      elim (Bool-cases (ltb 0 d.pdu_len && validate_checksum in_cksum d.pdu d.pdu_len)) [
        | inr bad ↦ rw bad t
        | inl good ↦ elim (Bool-cases (get_flag d.pdu == flag_rr)) [
          | inl rr ↦
              rw (good, rr)
                (record {
                  count = current-process_rr info.window seq ∙ t.count;
                  rest = t.rest;
                  enough = t.enough;
                  slots = process_rr-SlotsHold in_cksum input n info.window seq t.slots;
                  log = t.log;
                  logged = t.logged;
                  full = t.full;
                  ended = t.ended;
                })
          | inr no_rr ↦ elim (Bool-cases (get_flag d.pdu == flag_srej)) [
            | inl srej ↦
                rw (good, no_rr, srej)
                  (Sends-ext in_cksum input n (resend info (process_srej info.window seq)) _ refl
                    refl refl refl refl
                    (resend-Sends in_cksum input n info (process_srej info.window seq)
                      (process_srej-GivesData in_cksum input n info.window seq t.slots) t))
            | inr other ↦ rw (good, no_rr, other) t
          ]
        ]
      ]

  drain_acks-Sends :
      (n : ℕ) (polls : List Bool) (info : RcopyInfo)
      → Sends in_cksum input n info
      → Sends in_cksum input n (drain_acks in_cksum polls info)
  unfolding drain_acks
  drain_acks-Sends n [] info t = Sends-ext in_cksum input n info _ refl refl refl refl refl t
  drain_acks-Sends n (false ∷ rest) info t =
      Sends-ext in_cksum input n info _ refl refl refl refl refl t
  drain_acks-Sends n (true ∷ rest) info t = drain_acks-Sends n rest _ (
      handle_ack-Sends n (recvfrom info).0 (recvfrom info).1
        (recvfrom-Sends in_cksum input n info t))

  pub process_acks_state-Continues :
      (n : ℕ) (info : RcopyInfo)
      → Sends in_cksum input n info
      → Continues in_cksum input n (process_acks_state in_cksum info)
  unfolding process_acks_state
  process_acks_state-Continues n info t =
      let i = drain_acks in_cksum info.polls info in
      let t' = drain_acks-Sends n info.polls info t in
      if-Continues in_cksum input n _ _ _ (λ _. Sends-enter in_cksum input n send_eof i t')
        (λ _.
          Sends-enter in_cksum input n
            (if is_window_open i.window then send_data else window_closed) i t')

  pub window_closed_state-Continues :
      (n : ℕ) (info : RcopyInfo)
      → Sends in_cksum input n info
      → Continues in_cksum input n (window_closed_state info)
  unfolding window_closed_state
  window_closed_state-Continues n info t =
      let i = (poll_call info).1 in
      let t' = poll_call-Sends in_cksum input n info t in
      if-Continues in_cksum input n (poll_call info).0 _ _
        (λ _.
          Sends-enter in_cksum input n process_acks _
            (Sends-ext in_cksum input n i _ refl refl refl refl refl t'))
        (λ _. Sends-enter in_cksum input n _ _ (
          Sends-ext in_cksum input n (resend i (lowest_pdu (get_lowest_window_packet i.window))) _
            refl refl refl refl refl
            (resend-Sends in_cksum input n i _
              (get_lowest-GivesData in_cksum input n i.window t'.slots) t')))
