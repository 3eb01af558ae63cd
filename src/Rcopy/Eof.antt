-- ===== src/Rcopy/Eof.antt =====
-- rcopy.c: the EOFs in the log of the client.
pub mod Steps
use cpe_464_proj.Base.{
  ℕ, ◌+◌, ◌≡◌, ◌≢◌, refl, sym, ap, ◌∙◌, ◌⊎◌, List, [], ◌∷◌, ◌++◌, Option, none, some, Bool, true,
  false, not, ◌||◌, ◌&&◌, arith, length, get_or, All, ◌==◌, ltb, leb, if◌then◌else◌, Bool-cases,
  inl, inr, htonl_bytes,
}
use cpe_464_proj.Pdu.{
  Datagram, create_pdu, validate_checksum, get_flag, get_control_seq_num, flag_data, flag_rr,
  flag_srej, flag_filename, flag_filename_response, flag_eof, flag_eof_ack, flag_final_ack,
}
use cpe_464_proj.Window.{
  Window, is_window_open, process_rr, process_srej, get_lowest_window_packet, window_add_packet,
  get_next_seq_num,
}
use cpe_464_proj.Client.{
  RcopyState, send_filename, wait_filename_ack, send_data, process_acks, window_closed, send_eof,
  wait_eof_ack, done, ReadResult, read_error, read_bytes, RcopyInfo, poll_call, recvfrom,
  read_input, retry_eof, drain_or_finish, resend, lowest_pdu, after_acks, all_acked, window_timeout,
  window_closed_state,
}
use cpe_464_proj.Rcopy.{
  send_control_packet, send_filename_state, filename_reply, wait_filename_ack_state, send_chunk,
  send_read, send_data_state, handle_ack, drain_acks, process_acks_state, send_eof_state, eof_reply,
  wait_eof_ack_state, rcopy_step,
}
use cpe_464_proj.Rcopy.Chunks.{IsData, HoldsChunk}
use cpe_464_proj.Rcopy.Chunks.Slots.{
  SlotsHold, GivesData, process_rr-SlotsHold, process_srej-GivesData, get_lowest-GivesData,
}

abbrev pub is_eof : Option (List ℕ) → Bool
is_eof none = false
is_eof (some pdu) = get_flag pdu == flag_eof

abbrev pub has_eof : List (Option (List ℕ)) → Bool
has_eof [] = false
has_eof (x ∷ xs) = is_eof x || has_eof xs

module _ (in_cksum : List ℕ → ℕ → ℕ) (input : List ReadResult) (n : ℕ) where
  pub is_eof-create_pdu :
      (seq flag : ℕ) (payload : List ℕ)
      → (flag == flag_eof) ≡ false
      → is_eof (create_pdu in_cksum seq flag payload) ≡ false
  unfolding create_pdu get_flag
  is_eof-create_pdu seq flag payload h = ground arith

  -- The slots hold data PDUs, and the log has an EOF only if it had one.
  pub record Plain (b : Bool) (info : RcopyInfo) : Type 0 where
    pub slots : SlotsHold in_cksum input n info.window.packets
    pub eof : has_eof info.sent ≡ b

  Plain-ext :
      (b : Bool) (info next : RcopyInfo)
      → next.window ≡ info.window
      → next.sent ≡ info.sent
      → Plain b info
      → Plain b next
  Plain-ext b info next w l p = record { slots = rw w p.slots; eof = rw l p.eof }

  pub resend-Plain :
      (b : Bool) (info : RcopyInfo) (o : Option (List ℕ))
      → GivesData in_cksum input n o
      → Plain b info
      → Plain b (resend info o)
  unfolding resend
  resend-Plain b info none g p = p
  resend-Plain b info (some pdu) g p =
      let plain : is_eof (some pdu) ≡ false =
        ap is_eof g.made ∙ is_eof-create_pdu g.index flag_data _ refl in
      elim (Bool-cases (ltb 0 (length pdu))) [
        | inl sent ↦ rw sent (record { slots = p.slots; eof = rw plain p.eof })
        | inr empty ↦ rw empty p
      ]

  handle_ack-Plain :
      (b : Bool) (d : Datagram) (info : RcopyInfo)
      → Plain b info
      → Plain b (handle_ack in_cksum (d, info))
  unfolding handle_ack
  handle_ack-Plain b d info p =
      let seq = get_control_seq_num d.pdu in
      elim (Bool-cases (ltb 0 d.pdu_len && validate_checksum in_cksum d.pdu d.pdu_len)) [
        | inr bad ↦ rw bad p
        | inl good ↦ elim (Bool-cases (get_flag d.pdu == flag_rr)) [
          | inl rr ↦
              rw (good, rr)
                (record {
                  slots = process_rr-SlotsHold in_cksum input n info.window seq p.slots;
                  eof = p.eof;
                })
          | inr no_rr ↦ elim (Bool-cases (get_flag d.pdu == flag_srej)) [
            | inl srej ↦
                let again = process_srej info.window seq in
                rw (good, no_rr, srej)
                  (Plain-ext b (resend info again) _ refl refl (
                    resend-Plain b info again
                      (process_srej-GivesData in_cksum input n info.window seq p.slots) p))
            | inr other ↦ rw (good, no_rr, other) p
          ]
        ]
      ]

  pub recvfrom-Plain : (b : Bool) (info : RcopyInfo) → Plain b info → Plain b (recvfrom info).1
  unfolding recvfrom
  recvfrom-Plain b info p = Plain-ext b info _ (ground arith) (ground arith) p

  pub poll_call-Plain : (b : Bool) (info : RcopyInfo) → Plain b info → Plain b (poll_call info).1
  unfolding poll_call
  poll_call-Plain b info p = Plain-ext b info _ (ground arith) (ground arith) p

  pub drain_acks-Plain :
      (b : Bool) (polls : List Bool) (info : RcopyInfo)
      → Plain b info
      → Plain b (drain_acks in_cksum polls info)
  unfolding drain_acks
  drain_acks-Plain b [] info p = Plain-ext b info _ refl refl p
  drain_acks-Plain b (false ∷ rest) info p = Plain-ext b info _ refl refl p
  drain_acks-Plain b (true ∷ rest) info p =
      drain_acks-Plain b rest (handle_ack in_cksum (recvfrom info))
        (handle_ack-Plain b (recvfrom info).0 (recvfrom info).1 (recvfrom-Plain b info p))
