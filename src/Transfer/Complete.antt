-- ===== src/Transfer/Complete.antt =====
-- rcopy.c and server.c: what the server has written when the client has sent its EOF.
use cpe_464_proj.Rcopy.Input.{input_of, few_of, input_of-Fits, length-input_of}
use cpe_464_proj.Base.{
  ℕ, zero, suc, ◌≤◌, ◌<◌, ◌≡◌, refl, sym, ap, subst, ◌∙◌, List, [], ◌∷◌, ◌++◌, Option, some, Bool,
  true, arith, length, drop, get_or, All, All-mono, All-In, append_assoc, append-nil, ◌==◌, u32_mod,
  dec_lt, htonl_bytes,
}
use cpe_464_proj.Pdu.{Datagram, flag_rr, get_flag, get_control_seq_num}
use cpe_464_proj.Pdu.Codec.{pdu_for}
use cpe_464_proj.Buffer.Delivery.{stream}
use cpe_464_proj.Window.{window_set_up, window_lowest_seq, get_next_seq_num}
use cpe_464_proj.Buffer.Replies.{IsReply, rr, not_rr, Served}
use cpe_464_proj.Client.{
  RcopyInfo, ReadResult, read_error, read_bytes, send_filename, wait_eof_ack, all_acked,
}
use cpe_464_proj.Setup.{Args, Answers, init_rcopy_info, started}
use cpe_464_proj.Rcopy.{state_handler}
use cpe_464_proj.Rcopy.Start.{IsStarted, init_rcopy_info-IsStarted}
use cpe_464_proj.Rcopy.Chunks.{bytes_of, chunk, Tracks}
use cpe_464_proj.Rcopy.Chunks.Steps.{state_handler-Continues}
use cpe_464_proj.Rcopy.Acked.{IsAck, IsBacked, IsBacked-IsKept}
use cpe_464_proj.Rcopy.Runs.{state_handler-keeps}
use cpe_464_proj.Rcopy.Closing.{Closing, state_handler-Closes}
use cpe_464_proj.Server.{process_client}
use cpe_464_proj.Server.Serving.{process_client-Serves}
use cpe_464_proj.Transfer.{IsCarried, file_to_eof}
use cpe_464_proj.Transfer.Prefix.{create_pdu-made, IsCarried-IsGenuine, started-Tracks}

file_to_eof-drop :
    (n : ℕ) (input : List ReadResult)
    → 0 < length (bytes_of (get_or input n (read_bytes [])))
    → bytes_of (get_or input n (read_bytes [])) ++ file_to_eof (drop (suc n) input)
      ≡ file_to_eof (drop n input)
file_to_eof-drop zero [] h = absurd (omega arith)
file_to_eof-drop (suc n) [] h = absurd (omega arith)
file_to_eof-drop zero (read_error ∷ rs) h = absurd (omega arith)
file_to_eof-drop zero (read_bytes [] ∷ rs) h = absurd (omega arith)
file_to_eof-drop zero (read_bytes (b ∷ bs) ∷ rs) h = refl
file_to_eof-drop (suc n) (r ∷ rs) h = file_to_eof-drop n rs h

file_to_eof-end :
    (n : ℕ) (input : List ReadResult)
    → get_or input n (read_bytes []) ≡ read_bytes []
    → file_to_eof (drop n input) ≡ []
file_to_eof-end zero [] e = refl
file_to_eof-end (suc n) [] e = refl
file_to_eof-end zero (read_error ∷ rs) e = refl
file_to_eof-end zero (read_bytes [] ∷ rs) e = refl
file_to_eof-end zero (read_bytes (b ∷ bs) ∷ rs) e = absurd (cc)
file_to_eof-end (suc n) (r ∷ rs) e = file_to_eof-end n rs e

module _ (in_cksum : List ℕ → ℕ → ℕ) (input : List ReadResult) where
  -- As long as no chunk is empty, the chunks and the rest make up the file.
  stream-file_to_eof :
      (n : ℕ)
      → ((i : ℕ) → i < n → 0 < length (chunk in_cksum input i))
      → stream (chunk in_cksum input) n ++ file_to_eof (drop n input) ≡ file_to_eof input
  stream-file_to_eof zero full = refl
  stream-file_to_eof (suc n) full =
      append_assoc (stream (chunk in_cksum input) n) (chunk in_cksum input n)
        (file_to_eof (drop (suc n) input))
      ∙ ap (λ xs. stream (chunk in_cksum input) n ++ xs)
          (file_to_eof-drop n input (full n (omega arith)))
      ∙ stream-file_to_eof n (λ i lt. full i (omega arith))

  pub stream-ended :
      (n : ℕ)
      → ((i : ℕ) → i < n → 0 < length (chunk in_cksum input i))
      → get_or input n (read_bytes []) ≡ read_bytes []
      → stream (chunk in_cksum input) n ≡ file_to_eof input
  stream-ended n full end =
      sym (append-nil (stream (chunk in_cksum input) n))
      ∙ ap (λ xs. stream (chunk in_cksum input) n ++ xs) (sym (file_to_eof-end n input end))
      ∙ stream-file_to_eof n full

  -- No chunk is sent behind the end of the file.
  pub ended-count :
      (n m : ℕ)
      → ((i : ℕ) → i < m → 0 < length (chunk in_cksum input i))
      → get_or input n (read_bytes []) ≡ read_bytes []
      → m ≤ n
  ended-count n m full end = elim (dec_lt n m) [
    | no here ↦ omega arith
    | yes later ↦ absurd (omega (arith, full n later, ap (λ r. length (bytes_of r)) end))
  ]

pub all_acked-count :
    (info : RcopyInfo) → all_acked info ≡ true → info.window.lower ≡ info.window.current
unfolding all_acked window_lowest_seq get_next_seq_num
all_acked-count info h = ground arith

module _ (in_cksum : List ℕ → ℕ → ℕ) (e : ℕ) (small : e < u32_mod) where
  IsReply-IsAck :
      (d : Datagram) (pdu stale : List ℕ)
      → d.pdu ≡ pdu ++ stale
      → (get_flag d.pdu == flag_rr) ≡ true
      → IsReply in_cksum e (some pdu)
      → get_control_seq_num d.pdu ≤ e
  unfolding get_flag get_control_seq_num
  IsReply-IsAck d pdu stale p f (not_rr seq flag payload other x) =
      let whole = p ∙ ap (λ q. q ++ stale) (create_pdu-made in_cksum [] seq flag payload pdu x) in
      let is_rr : (flag == flag_rr) ≡ true = ap (λ q. get_flag q == flag_rr) (sym whole) ∙ f in
      absurd (cc)
  IsReply-IsAck d pdu stale p f (rr seq n le x) =
      let whole =
        p ∙ ap (λ q. q ++ stale) (create_pdu-made in_cksum [] seq flag_rr (htonl_bytes n) pdu x) in
      let number : get_control_seq_num (pdu_for in_cksum seq flag_rr (htonl_bytes n) ++ stale) ≡ n =
        omega arith in
      omega (arith, ap get_control_seq_num whole, number)

  -- An RR that reached the client undamaged is one that the server sent.
  pub IsCarried-IsAck :
      (sent : List (Option (List ℕ))) (d : Datagram)
      → All (IsReply in_cksum e) sent
      → IsCarried in_cksum sent d
      → IsAck in_cksum e d
  IsCarried-IsAck sent d log c good f =
      let (pdu, stale, i, p, l) = c good in
      IsReply-IsAck d pdu stale p f (All-In (IsReply in_cksum e) (some pdu) sent log i)

module _ (in_cksum : List ℕ → ℕ → ℕ) (a : Args) (answers : Answers) where
  -- The server writes no chunk that the client's log does not have.
  Tracks-Serves :
      (n : ℕ) (live : Bool) (info : RcopyInfo) (opened : Bool) (first : Datagram)
      (polls : List Bool) (arrivals : List Datagram)
      → length answers.reads < u32_mod
      → Tracks in_cksum (input_of a answers) n live info
      → All (IsCarried in_cksum info.sent) arrivals
      → (k : ℕ) × Served
          (chunk in_cksum (input_of a answers))
          n
          in_cksum
          k
          (process_client in_cksum opened first polls arrivals).receiver
  Tracks-Serves n live info opened first polls arrivals small t carried =
      let few : n < u32_mod = omega (arith, t.enough, length-input_of a answers) in
      let (k, _, served) =
        process_client-Serves (chunk in_cksum (input_of a answers)) n in_cksum few opened first
          polls arrivals
          (All-mono arrivals
            (λ d.
              IsCarried-IsGenuine in_cksum (input_of a answers) n n info.sent d (omega arith) few
                t.log)
            carried) in
      (k, served)

module _ (in_cksum : List ℕ → ℕ → ℕ) (a : Args) (answers : Answers) where
  -- A client that has just started is backed by any server.
  started-IsBacked :
      (info : RcopyInfo) (k : ℕ) (sent : List (Option (List ℕ)))
      → IsStarted a answers info
      → k < u32_mod
      → All (IsReply in_cksum k) sent
      → All (IsCarried in_cksum sent) answers.arrivals
      → IsBacked in_cksum k info
  unfolding window_set_up
  started-IsBacked info k sent s small log answered = record {
    lower_le = omega (arith, ap (λ w. w.lower) s.window_new);
    acks =
        subst (All (IsAck in_cksum k)) (sym s.arrivals_given)
          (All-mono answers.arrivals (λ d. IsCarried-IsAck in_cksum k small sent d log) answered);
  }

  -- The window of the client never slides past what the server has: for a client started from any
  -- accepted command line and run for any number of steps, whose reads give fewer than 2^32
  -- results, if each datagram that validates on either side is a PDU that the
  -- other side sent, then the lowest number of the client's window is at most the number that the
  -- server process expects at its end.
  acknowledged_is_written :
      (info : RcopyInfo) (steps : ℕ) (opened : Bool) (first : Datagram) (polls : List Bool)
      (arrivals : List Datagram)
      → init_rcopy_info a answers ≡ started info
      → length answers.reads < u32_mod
      → let client = (state_handler in_cksum steps (send_filename, info)).1 in
        let server = (process_client in_cksum opened first polls arrivals).receiver in
        All (IsCarried in_cksum client.sent) arrivals
        → All (IsCarried in_cksum server.sent) answers.arrivals
        → client.window.lower ≤ server.expected
  acknowledged_is_written info steps opened first polls arrivals e small carried answered =
      let s = init_rcopy_info-IsStarted a answers info e in
      let (n, _, t) =
        state_handler-Continues in_cksum (input_of a answers) (few_of a answers small)
          (input_of-Fits a answers info e) steps send_filename 0 info
          (started-Tracks in_cksum a answers info s) in
      let (k, served) =
        Tracks-Serves in_cksum a answers n _ _ opened first polls arrivals small t carried in
      let backed =
        state_handler-keeps in_cksum (IsBacked in_cksum k) (IsBacked-IsKept in_cksum k) steps
          send_filename info
          (started-IsBacked info k _ s
            (omega (arith, t.enough, served.delivered.within, few_of a answers small))
            served.replies answered) in
      omega (arith, backed.lower_le, served.delivered.next)

  -- When the client has sent its EOF, the file is whole at the server: if a client started from any
  -- accepted command line has come to WAIT_EOF_ACK after some steps and runs on for any number of
  -- steps, its reads give fewer than 2^32 results, and each datagram that validates on either side
  -- is a PDU that the other side sent, then a server process has written exactly the bytes of the
  -- reads up to the first that fails or gives none, whatever the network loses, repeats, reorders
  -- or damages.
  pub transfer_complete :
      (info : RcopyInfo) (steps more : ℕ) (opened : Bool) (first : Datagram) (polls : List Bool)
      (arrivals : List Datagram)
      → init_rcopy_info a answers ≡ started info
      → length answers.reads < u32_mod
      → let told = state_handler in_cksum steps (send_filename, info) in
        let server = (process_client in_cksum opened first polls arrivals).receiver in
        told.0 ≡ wait_eof_ack
        → All (IsCarried in_cksum (state_handler in_cksum more told).1.sent) arrivals
        → All (IsCarried in_cksum server.sent) answers.arrivals
        → server.written ≡ file_to_eof (input_of a answers)
  transfer_complete info steps more opened first polls arrivals e small eof carried answered =
      let s = init_rcopy_info-IsStarted a answers info e in
      let told = state_handler in_cksum steps (send_filename, info) in
      let (n, _, t) =
        state_handler-Continues in_cksum (input_of a answers) (few_of a answers small)
          (input_of-Fits a answers info e) steps send_filename 0 info
          (started-Tracks in_cksum a answers info s) in
      let (m, le, t') =
        state_handler-Continues in_cksum (input_of a answers) (few_of a answers small)
          (input_of-Fits a answers info e) more told.0 n told.1 t in
      let (k, served) =
        Tracks-Serves in_cksum a answers m _ _ opened first polls arrivals small t' carried in
      let backed =
        state_handler-keeps in_cksum (IsBacked in_cksum k) (IsBacked-IsKept in_cksum k) steps
          send_filename info
          (started-IsBacked info k _ s
            (omega (arith, t'.enough, served.delivered.within, few_of a answers small))
            served.replies answered) in
      let (ended, all) =
        subst (λ st. Closing st told.1) eof
          (state_handler-Closes in_cksum steps send_filename info tt) in
      let same : k ≡ n = omega (
        arith,
        all_acked-count told.1 all,
        t.count,
        backed.lower_le,
        served.delivered.within,
        ended-count in_cksum (input_of a answers) n m t'.full (t.ended ended),
      ) in
      served.delivered.file
      ∙ ap (stream (chunk in_cksum (input_of a answers))) same
      ∙ stream-ended in_cksum (input_of a answers) n t.full (t.ended ended)
