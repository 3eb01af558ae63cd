-- ===== src/Rcopy/Valid.antt =====
-- rcopy.c: the window in a run of the client.
use cpe_464_proj.Base.{
  ◌∙◌, ℕ, suc, ◌+◌, ◌≤◌, ◌<◌, ◌≡◌, refl, sym, ap, subst, List, [], ◌∷◌, Option, none, some, ◌&&◌,
  arith, length, take, ◌==◌, ltb, Bool-cases, inl, inr, u32_mod,
}
use cpe_464_proj.Pdu.{
  Datagram, validate_checksum, get_flag, flag_rr, flag_srej, flag_data, get_control_seq_num,
  create_pdu,
}
use cpe_464_proj.Window.{
  Window, process_rr, process_srej, window_add_packet, get_next_seq_num, window_set_up,
}
use cpe_464_proj.Window.Valid.{
  IsValid, window_set_up-IsValid, window_add_packet-IsValid, process_rr-IsValid,
}
use cpe_464_proj.Client.{
  ReadResult, read_error, read_bytes, RcopyInfo, recvfrom, read_input, resend, drain_or_finish,
  send_filename,
}
use cpe_464_proj.Setup.{Args, Answers, init_rcopy_info, started}
use cpe_464_proj.Rcopy.{handle_ack, send_read, send_chunk, state_handler}
use cpe_464_proj.Rcopy.Start.{init_rcopy_info-IsStarted}
use cpe_464_proj.Rcopy.Runs.{IsKept, state_handler-keeps}

module _ (size : ℕ) where
  -- The window is valid, and the numbers of the chunks to come fit in 32 bits with a window behind
  -- them.
  pub record HasRoom (info : RcopyInfo) : Type 0 where
    pub valid : IsValid info.window
    pub width : info.window.window_size ≡ size
    pub room : info.window.current + info.window.window_size + length info.reads < u32_mod

  pub HasRoom-ext :
      (info next : RcopyInfo)
      → next.window ≡ info.window
      → next.reads ≡ info.reads
      → HasRoom info
      → HasRoom next
  HasRoom-ext info next w r h = record {
    valid = subst IsValid (sym w) h.valid;
    width = ap (λ x. x.window_size) w ∙ h.width;
    room = rw (w, r) h.room;
  }

  recvfrom-HasRoom : (info : RcopyInfo) → HasRoom info → HasRoom (recvfrom info).1
  unfolding recvfrom
  recvfrom-HasRoom info h = HasRoom-ext info _ (ground arith) (ground arith) h

  resend-HasRoom :
      (info : RcopyInfo) (pdu : Option (List ℕ)) → HasRoom info → HasRoom (resend info pdu)
  unfolding resend
  resend-HasRoom info none h = h
  resend-HasRoom info (some pdu) h =
      HasRoom-ext info (resend info (some pdu)) (ground arith) (ground arith) h

  process_rr-same :
      (w : Window) (rr : ℕ)
      → ((process_rr w rr).current ≡ w.current) × ((process_rr w rr).window_size ≡ w.window_size)
  unfolding process_rr
  process_rr-same w rr = ground arith

  -- A chunk takes one number at most.
  window_add_packet-grows :
      (w : Window) (pdu : Option (List ℕ))
      → let out = (window_add_packet w pdu).1 in
        (out.current ≤ w.current + 1) × (out.window_size ≡ w.window_size)
  unfolding window_add_packet
  window_add_packet-grows w none = (omega arith, refl)
  window_add_packet-grows w (some pdu) = ground arith

  module _ (in_cksum : List ℕ → ℕ → ℕ) where
    handle_ack-HasRoom :
        (d : Datagram) (info : RcopyInfo) → HasRoom info → HasRoom (handle_ack in_cksum (d, info))
    unfolding handle_ack
    handle_ack-HasRoom d info h =
        let seq = get_control_seq_num d.pdu in
        elim (Bool-cases (ltb 0 d.pdu_len && validate_checksum in_cksum d.pdu d.pdu_len)) [
          | inr bad ↦ rw bad h
          | inl good ↦ elim (Bool-cases (get_flag d.pdu == flag_rr)) [
            | inl rr ↦
                let (same, as_wide) = process_rr-same info.window seq in
                rw (good, rr)
                  (record {
                    valid = process_rr-IsValid info.window seq h.valid (omega (arith, h.room));
                    width = as_wide ∙ h.width;
                    room = omega (arith, h.room, same, as_wide);
                  })
            | inr no_rr ↦ elim (Bool-cases (get_flag d.pdu == flag_srej)) [
              | inl srej ↦
                  let pdu = process_srej info.window seq in
                  rw (good, no_rr, srej)
                    (HasRoom-ext (resend info pdu) _ refl refl (resend-HasRoom info pdu h))
              | inr other ↦ rw (good, no_rr, other) h
            ]
          ]
        ]

    -- With a number to spare.
    send_chunk-HasRoom :
        (bytes : List ℕ) (info : RcopyInfo)
        → IsValid info.window
        → info.window.window_size ≡ size
        → info.window.current + info.window.window_size + suc (length info.reads) < u32_mod
        → HasRoom (send_chunk in_cksum bytes info).1
    unfolding send_chunk drain_or_finish
    send_chunk-HasRoom bytes info v width room =
        let pdu = create_pdu in_cksum (get_next_seq_num info.window) flag_data bytes in
        elim (Bool-cases (length bytes == 0)) [
          | inl empty ↦ rw empty (record { valid = v; width = width; room = omega (arith, room) })
          | inr more ↦
              let (grows, as_wide) = window_add_packet-grows info.window pdu in
              rw more (record {
                valid = window_add_packet-IsValid info.window pdu v;
                width = as_wide ∙ width;
                room = omega (arith, room, grows, as_wide);
              })
        ]

    read_none-HasRoom : (info : RcopyInfo) → HasRoom info → HasRoom (send_chunk in_cksum [] info).1
    unfolding send_chunk drain_or_finish
    read_none-HasRoom info h = record { valid = h.valid; width = h.width; room = h.room }

    send_read-HasRoom :
        (info : RcopyInfo) → HasRoom info → HasRoom (send_read in_cksum (read_input info)).1
    unfolding read_input send_read
    send_read-HasRoom info h = go info.reads refl h.room
      where
        go :
            (rs : List ReadResult)
            → info.reads ≡ rs
            → info.window.current + info.window.window_size + length rs < u32_mod
            → HasRoom (send_read in_cksum (read_input info)).1
        go [] e room = rw (e, read_input) (read_none-HasRoom info h)
        go (read_error ∷ rest) e room =
            rw (e, read_input)
              (record { valid = h.valid; width = h.width; room = omega (arith, room) })
        go (read_bytes bytes ∷ rest) e room =
            rw (e, read_input)
              (send_chunk-HasRoom (take info.buffer_size bytes) (record info { reads = rest })
                h.valid h.width (omega (arith, room)))

    pub HasRoom-IsKept : IsKept in_cksum HasRoom
    HasRoom-IsKept = record {
      ext = λ info next w a r h. HasRoom-ext info next w r h;
      receives = recvfrom-HasRoom;
      acks = λ info h.
          handle_ack-HasRoom (recvfrom info).0 (recvfrom info).1 (recvfrom-HasRoom info h);
      chunks = send_read-HasRoom;
    }

-- A client that has just started.
pub started-HasRoom :
    (a : Args) (answers : Answers) (info : RcopyInfo)
    → init_rcopy_info a answers ≡ started info
    → info.window.window_size + length answers.reads < u32_mod
    → HasRoom info.window.window_size info
unfolding window_set_up
started-HasRoom a answers info e small =
    let s = init_rcopy_info-IsStarted a answers info e in
    let size = info.window.window_size in
    let zero_current : info.window.current ≡ 0 = ap (λ w. w.current) s.window_new in
    record {
      valid =
          subst IsValid (sym s.window_new)
            (window_set_up-IsValid size s.window_some (omega (arith, small)));
      width = refl;
      room = omega (arith, zero_current, ap length s.reads_given, small);
    }

module _ (in_cksum : List ℕ → ℕ → ℕ) where
  -- Whatever arrives and however often it times out, the window of the client is valid at every
  -- point of a run: lower <= current <= lower + windowSize, and each outstanding number held by its
  -- own slot, for a client started from any accepted command line whose window size and number of
  -- reads together are below 2^32.
  pub client_window-IsValid :
      (a : Args) (answers : Answers) (info : RcopyInfo) (steps : ℕ)
      → init_rcopy_info a answers ≡ started info
      → info.window.window_size + length answers.reads < u32_mod
      → IsValid (state_handler in_cksum steps (send_filename, info)).1.window
  client_window-IsValid a answers info steps e small =
      let size = info.window.window_size in
      (state_handler-keeps in_cksum (HasRoom size) (HasRoom-IsKept size in_cksum) steps
        send_filename info (started-HasRoom a answers info e small)).valid
