-- ===== src/Transfer/Network/Eof.antt =====
-- rcopy.c and server.c: what an EOF tells the server.
use cpe_464_proj.Rcopy.Input.{input_of, few_of, input_of-Fits}
use cpe_464_proj.Base.{
  ℕ, ◌<◌, ◌≡◌, refl, sym, ap, ◌∙◌, inl, inr, List, [], ◌∷◌, ◌++◌, Option, some, true, arith, length,
  All-In, In, u32_mod,
}
use cpe_464_proj.Pdu.{Datagram, validate_checksum, get_flag, flag_eof, flag_data}
use cpe_464_proj.Client.{RcopyInfo, wait_eof_ack, ReadResult}
use cpe_464_proj.Setup.{Args, Answers, init_rcopy_info, started}
use cpe_464_proj.Rcopy.Start.{init_rcopy_info-IsStarted}
use cpe_464_proj.Rcopy.Chunks.{IsSent, control, packet, chunk}
use cpe_464_proj.Rcopy.Eof.{is_eof, has_eof}
use cpe_464_proj.Rcopy.Eof.Steps.{rcopy_step-eof}
use cpe_464_proj.Transfer.{IsCarried, file_to_eof}
use cpe_464_proj.Transfer.Prefix.{create_pdu-made}
use cpe_464_proj.Transfer.Network.{
  Ends, finds, beginning, Step, client_moves, server_takes, server_controls, Run, stay, later,
}
use cpe_464_proj.Transfer.Network.Invariant.{Run-Joint}
use cpe_464_proj.Transfer.Network.Agreement.{beginning-IsJoint, whole_at_eof}

In-has_eof :
    (pdu : List ℕ) (xs : List (Option (List ℕ)))
    → In (some pdu) xs
    → get_flag pdu ≡ flag_eof
    → has_eof xs ≡ true
In-has_eof pdu [] i f = absurd i
In-has_eof pdu (x ∷ xs) (inl e) f =
    let here : is_eof x ≡ true = ap is_eof (sym e) ∙ rw f refl in ground (arith, here)
In-has_eof pdu (x ∷ xs) (inr i) f = let there = In-has_eof pdu xs i f in ground (arith, there)

module _ (in_cksum : List ℕ → ℕ → ℕ) where
  -- The flag of a PDU of the log is that of the array that it lies in.
  IsSent-flag :
      (input : List ReadResult) (n : ℕ) (pdu stale : List ℕ)
      → IsSent in_cksum input n (some pdu)
      → get_flag (pdu ++ stale) ≡ get_flag pdu
  unfolding get_flag
  IsSent-flag input n pdu stale (control seq flag payload other x) =
      let made = create_pdu-made in_cksum input seq flag payload pdu x in
      ap (λ p. get_flag (p ++ stale)) made ∙ sym (ap get_flag made)
  IsSent-flag input n pdu stale (packet i lt x) =
      let made = create_pdu-made in_cksum input i flag_data (chunk in_cksum input i) pdu x in
      ap (λ p. get_flag (p ++ stale)) made ∙ sym (ap get_flag made)

  module _ (a : Args) (answers : Answers) (client : RcopyInfo) (size : ℕ)
      (given : init_rcopy_info a answers ≡ started client)
      (small : length answers.reads < u32_mod) where
    abbrev start : Ends
    start = beginning client size

    -- The run was in WAIT_EOF_ACK at some point.
    abbrev HasWaited : Ends → Type 0
    HasWaited e = (w : Ends) × Run in_cksum start w × (w.state ≡ wait_eof_ack) × Run in_cksum w e

    carries_on : (e f : Ends) → HasWaited e → Step in_cksum e f → HasWaited f
    carries_on e f (w, run, st, more) step = (w, run, st, later more step)

    -- A client with an EOF in its log has been in WAIT_EOF_ACK.
    eof_sent : (e : Ends) → Run in_cksum start e → has_eof e.client.sent ≡ true → HasWaited e
    eof_sent _ stay h =
        let none_sent = (init_rcopy_info-IsStarted a answers client given).nothing_sent in
        absurd (cc (h, none_sent))
    eof_sent _ (later {f} run (client_moves polls arrivals carried)) h =
        let (n, _, _, _, j) =
          Run-Joint in_cksum (input_of a answers) 0 0 start f (few_of a answers small)
            (input_of-Fits a answers client given)
            (beginning-IsJoint in_cksum a answers client size given) run in
        let info = finds polls arrivals f.client in
        let step = client_moves polls arrivals carried in
        elim (rcopy_step-eof in_cksum (input_of a answers) n f.state info j.tracks.slots) [
          | inl same ↦ carries_on f _ (eof_sent f run (sym same ∙ h)) step
          | inr waits ↦ (_, later run step, waits, stay)
        ]
    eof_sent _ (later {f} run (server_takes d carried)) h =
        carries_on f _ (eof_sent f run h) (server_takes d carried)
    eof_sent _ (later {f} run (server_controls seq flag payload other)) h =
        carries_on f _ (eof_sent f run h) (server_controls seq flag payload other)

  -- The server can close its file on an EOF: at every point of every interleaved run of a client
  -- and a server process over a network that loses, repeats, reorders and damages PDUs, if a
  -- datagram that validates and has the flag of an EOF can reach the server, then the server has
  -- already written exactly the bytes that the client reads up to the first read that fails or
  -- gives none, where each datagram that validates is a PDU that the other end has sent before, for
  -- a client started from any accepted command line and a receiver of any window size, and reads
  -- that give fewer than 2^32 results.
  pub eof_means_whole :
      (a : Args) (answers : Answers) (client : RcopyInfo) (size : ℕ) (e : Ends) (d : Datagram)
      → init_rcopy_info a answers ≡ started client
      → length answers.reads < u32_mod
      → Run in_cksum (beginning client size) e
      → IsCarried in_cksum e.client.sent d
      → validate_checksum in_cksum d.pdu d.pdu_len ≡ true
      → get_flag d.pdu ≡ flag_eof
      → e.receiver.written ≡ file_to_eof (input_of a answers)
  eof_means_whole a answers client size e d given small run carried good eof =
      let (n, _, _, _, j) =
        Run-Joint in_cksum (input_of a answers) 0 0 (beginning client size) e
          (few_of a answers small) (input_of-Fits a answers client given)
          (beginning-IsJoint in_cksum a answers client size given) run in
      let (pdu, stale, i, same, _) = carried good in
      let sent =
        All-In (IsSent in_cksum (input_of a answers) n) (some pdu) e.client.sent j.tracks.log i in
      let flag : get_flag pdu ≡ flag_eof =
        sym (IsSent-flag (input_of a answers) n pdu stale sent) ∙ ap get_flag (sym same) ∙ eof in
      let (w, before, waits, after) =
        eof_sent a answers client size given small e run (In-has_eof pdu e.client.sent i flag) in
      whole_at_eof in_cksum a answers client size w e given small before waits after
