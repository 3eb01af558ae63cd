-- ===== src/Transfer/Prefix.antt =====
-- rcopy.c and server.c: the bytes that the server writes against the bytes that the client reads.
use cpe_464_proj.Rcopy.Input.{input_of, few_of, input_of-Fits, readable-input_of}
use cpe_464_proj.Base.{
  ℕ, zero, suc, ◌≤◌, ◌<◌, ◌≡◌, refl, sym, ap, subst, ◌∙◌, List, [], ◌∷◌, ◌++◌, Option, some, Bool,
  true, not, arith, length, take-append, drop, get_or, All, All-mono, All-replicate, All-In,
  append_assoc, ◌==◌, u32_mod, pos,
}
use cpe_464_proj.Pdu.{
  Datagram, create_pdu, flag_data, get_flag, get_sequence_num, get_payload_len, payload_of,
}
use cpe_464_proj.Pdu.Codec.{pdu_for}
use cpe_464_proj.Window.{window_set_up, blank}
use cpe_464_proj.Buffer.{first_bytes}
use cpe_464_proj.Buffer.Delivery.{stream, IsGenuine, IsChunk}
use cpe_464_proj.Client.{RcopyInfo, ReadResult, read_bytes, send_filename}
use cpe_464_proj.Setup.{Args, Answers, init_rcopy_info, started}
use cpe_464_proj.Rcopy.{state_handler}
use cpe_464_proj.Rcopy.Start.{IsStarted, init_rcopy_info-IsStarted}
use cpe_464_proj.Rcopy.Chunks.{bytes_of, chunk, IsSent, control, packet, HoldsChunk, Tracks}
use cpe_464_proj.Rcopy.Chunks.Steps.{state_handler-Continues}
use cpe_464_proj.Server.{process_client}
use cpe_464_proj.Server.Session.{process_client_in_order}
use cpe_464_proj.Transfer.{IsCarried, file_of}

file_of-drop :
    (n : ℕ) (input : List ReadResult)
    → bytes_of (get_or input n (read_bytes [])) ++ file_of (drop (suc n) input)
      ≡ file_of (drop n input)
file_of-drop zero [] = refl
file_of-drop (suc n) [] = refl
file_of-drop zero (r ∷ rs) = refl
file_of-drop (suc n) (r ∷ rs) = file_of-drop n rs

module _ (in_cksum : List ℕ → ℕ → ℕ) (input : List ReadResult) where
  -- The first chunks and the rest make up the file.
  pub stream-file_of :
      (n : ℕ) → stream (chunk in_cksum input) n ++ file_of (drop n input) ≡ file_of input
  stream-file_of zero = refl
  stream-file_of (suc n) =
      append_assoc (stream (chunk in_cksum input) n) (chunk in_cksum input n)
        (file_of (drop (suc n) input))
      ∙ ap (λ xs. stream (chunk in_cksum input) n ++ xs) (file_of-drop n input)
      ∙ stream-file_of n

  -- A written PDU is the one for its fields.
  pub create_pdu-made :
      (seq flag : ℕ) (payload pdu : List ℕ)
      → some pdu ≡ create_pdu in_cksum seq flag payload
      → pdu ≡ pdu_for in_cksum seq flag payload
  unfolding create_pdu
  create_pdu-made seq flag payload pdu e = ground arith

  -- A data PDU read back out of an array that goes on behind it.
  packet-IsChunk :
      (i limit : ℕ) (stale : List ℕ)
      → i < limit
      → limit < u32_mod
      → let pdu = pdu_for in_cksum i flag_data (chunk in_cksum input i) in
        IsChunk
          (chunk in_cksum input)
          limit
          (get_sequence_num (pdu ++ stale))
          (payload_of (pdu ++ stale))
          (get_payload_len (length pdu))
  unfolding get_sequence_num get_payload_len
  packet-IsChunk i limit stale h small = (
    rw number h,
    ap (λ l. first_bytes l (chunk in_cksum input i ++ stale)) len
        ∙ take-append (length (chunk in_cksum input i)) (chunk in_cksum input i) stale refl
        ∙ ap (chunk in_cksum input) (sym number),
  )
    where
      number : get_sequence_num (pdu_for in_cksum i flag_data (chunk in_cksum input i) ++ stale) ≡ i
      number = omega arith

      len :
          get_payload_len (length (pdu_for in_cksum i flag_data (chunk in_cksum input i)))
          ≡ pos (length (chunk in_cksum input i))
      len = ground arith

  -- What `bufferProcessPDU` sees of a datagram is the chunk of its number.
  abbrev SeesChunk : ℕ → List ℕ → ℕ → Type 0
  SeesChunk limit pdu pdu_len =
      IsChunk (chunk in_cksum input) limit (get_sequence_num pdu) (payload_of pdu)
        (get_payload_len pdu_len)

  -- A PDU of the client's log, if it passes for a data packet, carries the chunk of its number.
  IsSent-SeesChunk :
      (n limit : ℕ) (d : Datagram) (pdu stale : List ℕ)
      → n ≤ limit
      → limit < u32_mod
      → d.pdu ≡ pdu ++ stale
      → d.pdu_len ≡ length pdu
      → (get_flag d.pdu == flag_data) ≡ true
      → IsSent in_cksum input n (some pdu)
      → SeesChunk limit d.pdu d.pdu_len
  unfolding get_flag
  IsSent-SeesChunk n limit d pdu stale le small e l f (control seq flag payload other x) =
      let whole = e ∙ ap (λ p. p ++ stale) (create_pdu-made seq flag payload pdu x) in
      let is_data : (flag == flag_data) ≡ true =
        ap (λ p. get_flag p == flag_data) (sym whole) ∙ f in
      absurd (cc)
  IsSent-SeesChunk n limit d pdu stale le small e l f (packet i lt x) =
      let made = create_pdu-made i flag_data (chunk in_cksum input i) pdu x in
      subst (λ p. SeesChunk limit p d.pdu_len) (sym (e ∙ ap (λ p. p ++ stale) made))
        (subst
          (λ k. SeesChunk limit (pdu_for in_cksum i flag_data (chunk in_cksum input i) ++ stale) k)
          (sym (l ∙ ap length made)) (packet-IsChunk i limit stale (omega arith) small))

  pub IsCarried-IsGenuine :
      (n limit : ℕ) (sent : List (Option (List ℕ))) (d : Datagram)
      → n ≤ limit
      → limit < u32_mod
      → All (IsSent in_cksum input n) sent
      → IsCarried in_cksum sent d
      → IsGenuine (chunk in_cksum input) limit in_cksum d
  IsCarried-IsGenuine n limit sent d le small log c good f =
      let (pdu, stale, i, e, l) = c good in
      IsSent-SeesChunk n limit d pdu stale le small e l f
        (All-In (IsSent in_cksum input n) (some pdu) sent log i)

module _ (in_cksum : List ℕ → ℕ → ℕ) (a : Args) (answers : Answers) where
  -- A client that has just started has sent no chunk.
  pub started-Tracks :
      (info : RcopyInfo)
      → IsStarted a answers info
      → Tracks in_cksum (input_of a answers) 0 (not info.eof_reached) info
  unfolding window_set_up
  started-Tracks info s = record {
    count = ap (λ w. w.current) s.window_new;
    rest = λ _. readable-input_of s;
    enough = omega arith;
    slots =
        subst (λ w. All (HoldsChunk in_cksum (input_of a answers) 0) w.packets) (sym s.window_new)
          (All-replicate (HoldsChunk in_cksum (input_of a answers) 0) info.window.window_size blank
            (record { early = λ e. absurd (cc); content = λ e. absurd (cc) }));
    log = subst (All (IsSent in_cksum (input_of a answers) 0)) (sym s.nothing_sent) tt;
    logged = λ i lt. absurd (omega arith);
    full = λ i lt. absurd (omega arith);
    ended = λ e. cc (s.not_eof, e);
  }

  -- Whatever the network loses, repeats, reorders or damages, what a server process writes is a
  -- prefix of the bytes that the client reads from its file, for a client started from any accepted
  -- command line and run for any number of steps, whose reads give fewer than 2^32 results,
  -- and for datagrams of which each one that validates is a PDU that the
  -- client sent.
  pub server_writes_prefix :
      (info : RcopyInfo) (steps : ℕ) (opened : Bool) (first : Datagram) (polls : List Bool)
      (arrivals : List Datagram)
      → init_rcopy_info a answers ≡ started info
      → length answers.reads < u32_mod
      → All
          (IsCarried in_cksum (state_handler in_cksum steps (send_filename, info)).1.sent)
          arrivals
      → (rest : List ℕ) × ((process_client in_cksum opened first polls arrivals).receiver.written
            ++ rest
          ≡ file_of (input_of a answers))
  server_writes_prefix info steps opened first polls arrivals e small carried =
      let s = init_rcopy_info-IsStarted a answers info e in
      let (n, _, t) =
        state_handler-Continues in_cksum (input_of a answers) (few_of a answers small)
          (input_of-Fits a answers info e) steps send_filename 0 info (started-Tracks info s) in
      let genuine =
        All-mono arrivals
          (λ d.
            IsCarried-IsGenuine in_cksum (input_of a answers) n (length (input_of a answers)) _ d
              t.enough (few_of a answers small) t.log)
          carried in
      let (m, _, w) =
        process_client_in_order (chunk in_cksum (input_of a answers)) (length (input_of a answers))
          in_cksum (few_of a answers small) opened first polls arrivals genuine in
      (
        file_of (drop m (input_of a answers)),
        ap (λ xs. xs ++ file_of (drop m (input_of a answers))) w
            ∙ stream-file_of in_cksum (input_of a answers) m,
      )
