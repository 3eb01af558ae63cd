-- ===== src/Rcopy/Sends/Kept.antt =====
-- The parts of a round of rcopy.c that leave its state alone, and what they send.
use cpe_464_proj.Base.{
  ℕ, ◌≤◌, ◌≡◌, refl, sym, subst, List, [], ◌∷◌, Option, none, some, Bool, true, false, arith,
  length, ltb, ◌==◌, ◌&&◌, All,
}
use cpe_464_proj.Pdu.{
  Datagram, validate_checksum, get_flag, get_control_seq_num, flag_rr, flag_srej,
}
use cpe_464_proj.Window.{process_srej, get_lowest_window_packet}
use cpe_464_proj.Client.{
  RcopyState, RcopyInfo, poll_call, recvfrom, resend, lowest_pdu, window_timeout,
  window_closed_state,
}
use cpe_464_proj.Rcopy.{send_control_packet, handle_ack, drain_acks}
use cpe_464_proj.Rcopy.Sends.{
  if-Keeps, IsSendable, AreLoaded, IsResendable, create_pdu-IsSendable, process_rr-AreLoaded,
  process_srej-IsResendable, lowest_pdu-IsResendable,
}

-- Everything sent is a PDU, and so is everything that is still to be sent.
pub record SendsPdus (info : RcopyInfo) : Type 0 where
  pub all_sent : All IsSendable info.sent
  pub loaded : AreLoaded info.window.packets
  pub small_buffer : info.buffer_size ≤ 1400
  pub small_name : length info.to_file ≤ 100

abbrev pub Goes : RcopyState × RcopyInfo → Type 0
Goes (s, info) = SendsPdus info

-- The same but for what counts the rounds.
pub same :
    (info next : RcopyInfo)
    → next.sent ≡ info.sent
    → next.window ≡ info.window
    → next.buffer_size ≡ info.buffer_size
    → next.to_file ≡ info.to_file
    → SendsPdus info
    → SendsPdus next
same info next s w r n h = record {
  all_sent = subst (All IsSendable) (sym s) h.all_sent;
  loaded = subst (λ x. AreLoaded x.packets) (sym w) h.loaded;
  small_buffer = rw r h.small_buffer;
  small_name = rw n h.small_name;
}

pub poll_call-SendsPdus : (info : RcopyInfo) → SendsPdus info → SendsPdus (poll_call info).1
unfolding poll_call
poll_call-SendsPdus info h =
    same info _ (ground arith) (ground arith) (ground arith) (ground arith) h

pub recvfrom-SendsPdus : (info : RcopyInfo) → SendsPdus info → SendsPdus (recvfrom info).1
unfolding recvfrom
recvfrom-SendsPdus info h =
    same info _ (ground arith) (ground arith) (ground arith) (ground arith) h

pub resend-SendsPdus :
    (info : RcopyInfo) (o : Option (List ℕ))
    → IsResendable o
    → SendsPdus info
    → SendsPdus (resend info o)
unfolding resend
resend-SendsPdus info none r h = h
resend-SendsPdus info (some pdu) r h =
    if-Keeps SendsPdus (ltb 0 (length pdu)) _ info
      (record {
        all_sent = (r, h.all_sent);
        loaded = h.loaded;
        small_buffer = h.small_buffer;
        small_name = h.small_name;
      })
      h

pub window_closed_state-Goes : (info : RcopyInfo) → SendsPdus info → Goes (window_closed_state info)
unfolding window_closed_state window_timeout
window_closed_state-Goes info h =
    let i = (poll_call info).1 in
    let h' = poll_call-SendsPdus info h in
    let again = lowest_pdu (get_lowest_window_packet i.window) in
    if-Keeps Goes (poll_call info).0 _ _ (same i _ refl refl refl refl h') (
      same (resend i again) _ refl refl refl refl
        (resend-SendsPdus i again (lowest_pdu-IsResendable i.window h'.loaded) h'))

module _ (in_cksum : List ℕ → ℕ → ℕ) where
  pub send_control_packet-SendsPdus :
      (info : RcopyInfo) (flag : ℕ) (payload : List ℕ)
      → length payload ≤ 1400
      → SendsPdus info
      → SendsPdus (send_control_packet in_cksum info flag payload)
  unfolding send_control_packet
  send_control_packet-SendsPdus info flag payload fits h = record {
    all_sent = (create_pdu-IsSendable in_cksum info.control_seq_num flag payload fits, h.all_sent);
    loaded = h.loaded;
    small_buffer = h.small_buffer;
    small_name = h.small_name;
  }

  handle_ack-SendsPdus :
      (d : Datagram) (info : RcopyInfo) → SendsPdus info → SendsPdus (handle_ack in_cksum (d, info))
  unfolding handle_ack
  handle_ack-SendsPdus d info h =
      let seq = get_control_seq_num d.pdu in
      let again = process_srej info.window seq in
      if-Keeps SendsPdus (ltb 0 d.pdu_len && validate_checksum in_cksum d.pdu d.pdu_len) _ info
        (if-Keeps SendsPdus (get_flag d.pdu == flag_rr) _ _
          (record {
            all_sent = h.all_sent;
            loaded = process_rr-AreLoaded info.window seq h.loaded;
            small_buffer = h.small_buffer;
            small_name = h.small_name;
          })
          (if-Keeps SendsPdus (get_flag d.pdu == flag_srej) _ info
            (same (resend info again) _ refl refl refl refl
              (resend-SendsPdus info again (process_srej-IsResendable info.window seq h.loaded) h))
            h))
        h

  pub drain_acks-SendsPdus :
      (polls : List Bool) (info : RcopyInfo)
      → SendsPdus info
      → SendsPdus (drain_acks in_cksum polls info)
  unfolding drain_acks
  drain_acks-SendsPdus [] info h = same info _ refl refl refl refl h
  drain_acks-SendsPdus (false ∷ rest) info h = same info _ refl refl refl refl h
  drain_acks-SendsPdus (true ∷ rest) info h =
      drain_acks-SendsPdus rest _
        (handle_ack-SendsPdus (recvfrom info).0 (recvfrom info).1 (recvfrom-SendsPdus info h))
