-- ===== src/Rcopy/Chunks/States.antt =====
-- The count of the chunks sent, through the parts of the state functions of rcopy.c.
use cpe_464_proj.Base.{
  dec_lt, get_or, [], ℕ, suc, ◌≤◌, ◌<◌, ◌≡◌, refl, sym, ap, ap₂, subst, ◌∙◌, List, ◌∷◌, Option,
  none, some, Bool, true, false, not, arith, length, take_all, drop, All, All-set, All-mono, In,
  ◌==◌, ltb, u32_mod, if◌then◌else◌, Bool-cases, inl, inr,
}
use cpe_464_proj.Pdu.{create_pdu, flag_data, max_data_size}
use cpe_464_proj.Pdu.Codec.{create_pdu-some, pdu_for}
use cpe_464_proj.Window.{is_window_open, window_add_packet, store_packet}
use cpe_464_proj.Client.{
  RcopyState, ReadResult, read_bytes, RcopyInfo, poll_call, recvfrom, drain_or_finish, resend,
}
use cpe_464_proj.Rcopy.{send_control_packet, send_chunk}
use cpe_464_proj.Rcopy.Chunks.{
  bytes_of, IsSent, control, packet, IsSent-suc, HoldsChunk, HoldsChunk-suc, Tracks, Tracks-enter,
  reads_within, readable, is_live, chunk,
}
use cpe_464_proj.Rcopy.Chunks.Slots.{GivesData}

-- The parts of the state that the count reads.
pub record Same (next info : RcopyInfo) : Type 0 where
  pub same_window : next.window ≡ info.window
  pub same_reads : next.reads ≡ info.reads
  pub same_buffer : next.buffer_size ≡ info.buffer_size
  pub same_eof : next.eof_reached ≡ info.eof_reached
  pub same_sent : next.sent ≡ info.sent

poll_call-Same : (info : RcopyInfo) → Same (poll_call info).1 info
unfolding poll_call
poll_call-Same info = ground arith

recvfrom-Same : (info : RcopyInfo) → Same (recvfrom info).1 info
unfolding recvfrom
recvfrom-Same info = ground arith

module _ (in_cksum : List ℕ → ℕ → ℕ) (input : List ReadResult) where
  -- The client has sent `n` chunks, in a state where it may read on unless the input has ended.
  abbrev pub Sends : ℕ → RcopyInfo → Type 0
  Sends n info = Tracks in_cksum input n (not info.eof_reached) info

  -- A step sends some more chunks, or none.
  abbrev pub Continues : ℕ → RcopyState × RcopyInfo → Type 0
  Continues n (s, info) = (m : ℕ) × (n ≤ m) × Tracks in_cksum input m (is_live s info) info

  pub Sends-enter :
      (n : ℕ) (s : RcopyState) (info : RcopyInfo) → Sends n info → Continues n (s, info)
  Sends-enter n s info t = (n, omega arith, Tracks-enter in_cksum input s n info t)

  -- A change of the fields that the count does not read.
  pub Sends-ext :
      (n : ℕ) (info next : RcopyInfo)
      → next.window ≡ info.window
      → next.reads ≡ info.reads
      → next.buffer_size ≡ info.buffer_size
      → next.eof_reached ≡ info.eof_reached
      → next.sent ≡ info.sent
      → Sends n info
      → Sends n next
  Sends-ext n info next w r b e l t = record {
    count = ap (λ x. x.current) w ∙ t.count;
    rest = λ h. ap₂ reads_within b r ∙ t.rest (ap not (sym e) ∙ h);
    enough = t.enough;
    slots = subst (λ x. All (HoldsChunk in_cksum input n) x.packets) (sym w) t.slots;
    log = subst (All (IsSent in_cksum input n)) (sym l) t.log;
    logged = λ i lt.
        subst (In (create_pdu in_cksum i flag_data (chunk in_cksum input i))) (sym l)
          (t.logged i lt);
    full = t.full;
    ended = λ h. t.ended (sym e ∙ h);
  }

  pub Sends-Same : (n : ℕ) (info next : RcopyInfo) → Same next info → Sends n info → Sends n next
  Sends-Same n info next s t =
      Sends-ext n info next s.same_window s.same_reads s.same_buffer s.same_eof s.same_sent t

  pub poll_call-Sends : (n : ℕ) (info : RcopyInfo) → Sends n info → Sends n (poll_call info).1
  poll_call-Sends n info t = Sends-Same n info _ (poll_call-Same info) t

  pub recvfrom-Sends : (n : ℕ) (info : RcopyInfo) → Sends n info → Sends n (recvfrom info).1
  recvfrom-Sends n info t = Sends-Same n info _ (recvfrom-Same info) t

  -- A control PDU joins the log.
  pub send_control_packet-Sends :
      (n : ℕ) (info : RcopyInfo) (flag : ℕ) (payload : List ℕ)
      → (flag == flag_data) ≡ false
      → Sends n info
      → Sends n (send_control_packet in_cksum info flag payload)
  unfolding send_control_packet
  send_control_packet-Sends n info flag payload f t = record {
    count = t.count;
    rest = t.rest;
    enough = t.enough;
    slots = t.slots;
    log = (control info.control_seq_num flag payload f refl, t.log);
    logged = λ i lt. inr (t.logged i lt);
    full = t.full;
    ended = t.ended;
  }

  -- So does what the window gives out.
  pub resend-Sends :
      (n : ℕ) (info : RcopyInfo) (o : Option (List ℕ))
      → GivesData in_cksum input n o
      → Sends n info
      → Sends n (resend info o)
  unfolding resend
  resend-Sends n info none g t = t
  resend-Sends n info (some pdu) g t = elim (Bool-cases (ltb 0 (length pdu))) [
    | inl sent ↦ rw sent (record {
      count = t.count;
      rest = t.rest;
      enough = t.enough;
      slots = t.slots;
      log = (packet g.index g.before g.made, t.log);
      logged = λ i lt. inr (t.logged i lt);
      full = t.full;
      ended = t.ended;
    })
    | inr empty ↦ rw empty t
  ]

  pub drain_or_finish-Continues :
      (n : ℕ) (info : RcopyInfo) → Sends n info → Continues n (drain_or_finish info)
  unfolding drain_or_finish
  drain_or_finish-Continues n info t = Sends-enter n _ info t

  -- What holds when `read` has given the bytes of the chunk number `n`.
  pub record HasRead (n : ℕ) (bytes : List ℕ) (info : RcopyInfo) : Type 0 where
    pub fits : length bytes ≤ max_data_size
    pub room : is_window_open info.window ≡ true
    pub count : info.window.current ≡ n
    pub within : n < length input
    pub here : get_or input n (read_bytes []) ≡ read_bytes bytes
    pub live : info.eof_reached ≡ false
    pub full : (i : ℕ) → i < n → 0 < length (chunk in_cksum input i)
    pub slots : All (HoldsChunk in_cksum input n) info.window.packets
    pub log : All (IsSent in_cksum input n) info.sent
    pub logged :
        (i : ℕ) → i < n → In (create_pdu in_cksum i flag_data (chunk in_cksum input i)) info.sent
    pub rest : not info.eof_reached ≡ true → readable info ≡ drop (suc n) input

  module _ (n : ℕ) (bytes : List ℕ) (info : RcopyInfo) (small : length input < u32_mod)
      (h : HasRead n bytes info) where
    same : chunk in_cksum input n ≡ bytes
    same = ap bytes_of h.here

    pdu : List ℕ
    pdu = pdu_for in_cksum info.window.current flag_data bytes

    made : create_pdu in_cksum info.window.current flag_data bytes ≡ some pdu
    unfolding pdu
    made = create_pdu-some in_cksum info.window.current flag_data bytes h.fits

    -- The window is open and the PDU has an allowed length, so `windowAddPacket` takes it.
    taken : (window_add_packet info.window (some pdu)).1 ≡ store_packet info.window pdu
    unfolding window_add_packet pdu
    taken = ground (arith, h.room, h.fits)

    new_slot :
        HoldsChunk in_cksum input
          (suc n)
          (record { seq_num = info.window.current; pdu_len = length pdu; active = true; pdu = pdu })
    new_slot = record {
      early = λ _. omega (arith, h.count);
      content = λ _.
          ap some (take_all (length pdu) pdu (omega arith))
          ∙ sym made
          ∙ ap (create_pdu in_cksum info.window.current flag_data)
              (sym (ap (chunk in_cksum input) h.count ∙ same));
    }

    sent_and_added : RcopyInfo
    sent_and_added =
        let x = create_pdu in_cksum info.window.current flag_data bytes in
        record info { sent = x ∷ info.sent; window = (window_add_packet info.window x).1 }

    full_after :
        (length bytes == 0) ≡ false → (i : ℕ) → i < suc n → 0 < length (chunk in_cksum input i)
    full_after more i lt = elim (dec_lt i n) [
      | yes before ↦ h.full i before
      | no last ↦
          let now : n ≡ i = omega arith in
          subst (λ j. 0 < length (chunk in_cksum input j)) now
            (subst (λ xs. 0 < length xs) (sym same) (ground arith))
    ]

    logged_after :
        (i : ℕ)
        → i < suc n
        → In (create_pdu in_cksum i flag_data (chunk in_cksum input i)) sent_and_added.sent
    unfolding sent_and_added
    logged_after i lt = elim (dec_lt i n) [
      | yes before ↦ inr (h.logged i before)
      | no last ↦
          let now : i ≡ info.window.current = omega (arith, h.count) in
          let number : n ≡ i = omega arith in
          inl (
            ap₂ (λ s b. create_pdu in_cksum s flag_data b) now
              (ap (chunk in_cksum input) (sym number) ∙ same))
    ]

    sent_and_added-Sends : (length bytes == 0) ≡ false → Sends (suc n) sent_and_added
    unfolding sent_and_added
    sent_and_added-Sends more =
        let window' : sent_and_added.window ≡ store_packet info.window pdu =
          ap (λ x. (window_add_packet info.window x).1) made ∙ taken in
        record {
          count = ap (λ w. w.current) window' ∙ omega (arith, h.count, h.within, small);
          rest = h.rest;
          enough = h.within;
          slots =
              subst (λ w. All (HoldsChunk in_cksum input (suc n)) w.packets) (sym window')
                (All-set _ info.window.packets _ _
                  (All-mono info.window.packets (HoldsChunk-suc in_cksum input n) h.slots)
                  new_slot);
          log = (
            packet n (omega arith)
                (ap₂ (λ s b. create_pdu in_cksum s flag_data b) h.count (sym same)),
            All-mono info.sent (IsSent-suc in_cksum input n) h.log,
          );
          logged = logged_after;
          full = full_after more;
          ended = λ e. cc (h.live, e);
        }

    -- At the end of the file nothing is sent, and nothing will be read.
    at_eof : (length bytes == 0) ≡ true → Sends n (record info { eof_reached = true })
    at_eof none_left = record {
      count = h.count;
      rest = λ e. absurd (cc);
      enough = omega (arith, h.within);
      slots = h.slots;
      log = h.log;
      logged = h.logged;
      full = h.full;
      ended = λ _. h.here ∙ ap read_bytes (empty bytes none_left);
    }
      where
        empty : (bytes : List ℕ) → (length bytes == 0) ≡ true → bytes ≡ []
        empty [] e = refl
        empty (b ∷ bs) e = absurd (ground arith)

    pub send_chunk-Continues : Continues n (send_chunk in_cksum bytes info)
    unfolding send_chunk sent_and_added
    send_chunk-Continues = elim (Bool-cases (length bytes == 0)) [
      | inl empty ↦
          rw empty (drain_or_finish-Continues n (record info { eof_reached = true }) (at_eof empty))
      | inr more ↦ rw more (suc n, omega arith, sent_and_added-Sends more)
    ]

module _ (in_cksum : List ℕ → ℕ → ℕ) (input : List ReadResult) where
  -- A branch of a state function.
  pub if-Continues :
      (n : ℕ) (b : Bool) (x y : RcopyState × RcopyInfo)
      → (b ≡ true → Continues in_cksum input n x)
      → (b ≡ false → Continues in_cksum input n y)
      → Continues in_cksum input n (if b then x else y)
  if-Continues n true x y f g = f refl
  if-Continues n false x y f g = g refl
