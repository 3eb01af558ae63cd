-- ===== src/Rcopy/Acked.antt =====
-- rcopy.c: how far the RRs that arrive move the window.
use cpe_464_proj.Base.{
  ap, sym, subst, [], ◌∷◌, Option, none, some, ◌≤◌, All, Bool-cases, inl, inr, ℕ, ◌≡◌, refl, List,
  true, arith, length, ◌==◌, ltb,
}
use cpe_464_proj.Pdu.{
  Datagram, validate_checksum, get_flag, flag_data, create_pdu, get_control_seq_num, flag_rr,
  flag_srej,
}
use cpe_464_proj.Window.{Window, process_rr, process_srej, window_add_packet, get_next_seq_num}
use cpe_464_proj.Client.{
  ReadResult, read_error, read_bytes, RcopyInfo, recvfrom, read_input, drain_or_finish, resend,
}
use cpe_464_proj.Rcopy.{send_chunk, send_read, handle_ack}
use cpe_464_proj.Rcopy.Runs.{IsKept}

lower-process_rr : (w : Window) (rr e : ℕ) → w.lower ≤ e → rr ≤ e → (process_rr w rr).lower ≤ e
unfolding process_rr
lower-process_rr w rr e h k = ground arith

pub lower-window_add_packet :
    (w : Window) (x : Option (List ℕ)) → (window_add_packet w x).1.lower ≡ w.lower
unfolding window_add_packet
lower-window_add_packet w none = refl
lower-window_add_packet w (some pdu) = ground arith

module _ (in_cksum : List ℕ → ℕ → ℕ) (e : ℕ) where
  -- A datagram that passes for an RR asks for no more than the number `e`.
  abbrev pub IsAck : Datagram → Type 0
  IsAck d =
      validate_checksum in_cksum d.pdu d.pdu_len ≡ true
      → (get_flag d.pdu == flag_rr) ≡ true
      → get_control_seq_num d.pdu ≤ e

  -- Nothing from `e` on has left the window, and no RR to come asks for that.
  pub record IsBacked (info : RcopyInfo) : Type 0 where
    pub lower_le : info.window.lower ≤ e
    pub acks : All IsAck info.arrivals

  IsBacked-ext :
      (info next : RcopyInfo)
      → next.window.lower ≡ info.window.lower
      → next.arrivals ≡ info.arrivals
      → IsBacked info
      → IsBacked next
  IsBacked-ext info next l a b = record {
    lower_le = omega (arith, l, b.lower_le);
    acks = subst (All IsAck) (sym a) b.acks;
  }

  recvfrom-IsBacked : (info : RcopyInfo) → IsBacked info → IsBacked (recvfrom info).1
  unfolding recvfrom
  recvfrom-IsBacked info b = go info.arrivals refl b.acks
    where
      go : (ds : List Datagram) → info.arrivals ≡ ds → All IsAck ds → IsBacked (recvfrom info).1
      go [] h xs = rw (h, recvfrom) b
      go (d ∷ ds) h xs = rw (h, recvfrom) (record { lower_le = b.lower_le; acks = xs.1 })

  -- A PDU that `recvfromErr` gave is an allowed RR, or is empty.
  recvfrom-IsAck :
      (info : RcopyInfo)
      → IsBacked info
      → ltb 0 (recvfrom info).0.pdu_len ≡ true
      → IsAck (recvfrom info).0
  unfolding recvfrom
  recvfrom-IsAck info b = go info.arrivals refl b.acks
    where
      go :
          (ds : List Datagram)
          → info.arrivals ≡ ds
          → All IsAck ds
          → ltb 0 (recvfrom info).0.pdu_len ≡ true
          → IsAck (recvfrom info).0
      go [] h xs = rw (h, recvfrom) (λ k. absurd (cc))
      go (d ∷ ds) h xs = rw (h, recvfrom) (λ k. xs.0)

  resend-IsBacked :
      (info : RcopyInfo) (o : Option (List ℕ)) → IsBacked info → IsBacked (resend info o)
  unfolding resend
  resend-IsBacked info none b = b
  resend-IsBacked info (some pdu) b = elim (Bool-cases (ltb 0 (length pdu))) [
    | inl some_bytes ↦ rw some_bytes (IsBacked-ext info _ refl refl b)
    | inr empty ↦ rw empty b
  ]

  handle_ack-IsBacked :
      (d : Datagram) (info : RcopyInfo)
      → (ltb 0 d.pdu_len ≡ true → IsAck d)
      → IsBacked info
      → IsBacked (handle_ack in_cksum (d, info))
  unfolding handle_ack
  handle_ack-IsBacked d info a b =
      let seq = get_control_seq_num d.pdu in
      elim (Bool-cases (ltb 0 d.pdu_len)) [
        | inr none_here ↦ rw none_here b
        | inl here ↦ elim (Bool-cases (validate_checksum in_cksum d.pdu d.pdu_len)) [
          | inr bad ↦ rw (here, bad) b
          | inl good ↦ elim (Bool-cases (get_flag d.pdu == flag_rr)) [
            | inl rr ↦
                rw (here, good, rr)
                  (record {
                    lower_le = lower-process_rr info.window seq e b.lower_le (a here good rr);
                    acks = b.acks;
                  })
            | inr no_rr ↦ elim (Bool-cases (get_flag d.pdu == flag_srej)) [
              | inl srej ↦
                  rw (here, good, no_rr, srej)
                    (IsBacked-ext (resend info (process_srej info.window seq)) _ refl refl
                      (resend-IsBacked info (process_srej info.window seq) b))
              | inr other ↦ rw (here, good, no_rr, other) b
            ]
          ]
        ]
      ]

  -- A chunk that is sent leaves the lower end of the window.
  send_read-IsBacked :
      (r : ReadResult) (info : RcopyInfo)
      → IsBacked info
      → IsBacked (send_read in_cksum (r, info)).1
  unfolding send_read send_chunk drain_or_finish
  send_read-IsBacked read_error info b = b
  send_read-IsBacked (read_bytes bytes) info b =
      let pdu = create_pdu in_cksum (get_next_seq_num info.window) flag_data bytes in
      elim (Bool-cases (length bytes == 0)) [
        | inl empty ↦ rw empty (IsBacked-ext info _ refl refl b)
        | inr more ↦ rw more (IsBacked-ext info _ (lower-window_add_packet info.window pdu) refl b)
      ]

  read_input-IsBacked : (info : RcopyInfo) → IsBacked info → IsBacked (read_input info).1
  unfolding read_input
  read_input-IsBacked info b = IsBacked-ext info _ (ground arith) (ground arith) b

  pub IsBacked-IsKept : IsKept in_cksum IsBacked
  IsBacked-IsKept = record {
    ext = λ info next w a r b. IsBacked-ext info next (ap (λ x. x.lower) w) a b;
    receives = recvfrom-IsBacked;
    acks = λ info b.
        handle_ack-IsBacked (recvfrom info).0 (recvfrom info).1 (recvfrom-IsAck info b)
          (recvfrom-IsBacked info b);
    chunks = λ info b.
        send_read-IsBacked (read_input info).0 (read_input info).1 (read_input-IsBacked info b);
  }
