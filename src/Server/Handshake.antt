-- ===== src/Server/Handshake.antt =====
-- The handshake of server.c behind an EOF.
use cpe_464_proj.Base.{
  ℕ, zero, suc, ◌≤◌, ◌≡◌, refl, sym, subst, ◌∙◌, List, [], ◌∷◌, ◌++◌, Option, none, some, Bool,
  true, false, ◌&&◌, arith, append_assoc, ◌==◌, if◌then◌else◌, inc32, Bool-cases, inl, inr,
}
use cpe_464_proj.Pdu.{
  Datagram, create_pdu, get_flag, flag_data, flag_eof, flag_eof_ack, flag_final_ack,
}
use cpe_464_proj.Server.{
  ServerInfo, recvfrom, send_server_control_packet, send_eof_ack, is_intact, await_final_ack,
  receive_file,
}

-- What the next rounds of a loop find: a datagram, or nothing within the time.
abbrev pub findings : ℕ → List Bool → List Datagram → List (Option Datagram)
findings zero polls ds = []
findings (suc rounds) [] ds = none ∷ findings rounds [] ds
findings (suc rounds) (false ∷ polls) ds = none ∷ findings rounds polls ds
findings (suc rounds) (true ∷ polls) [] = none ∷ findings rounds polls []
findings (suc rounds) (true ∷ polls) (d ∷ ds) = some d ∷ findings rounds polls ds

module _ (in_cksum : List ℕ → ℕ → ℕ) where
  abbrev is_final : Option Datagram → Bool
  is_final none = false
  is_final (some d) = is_intact in_cksum d && get_flag d.pdu == flag_final_ack

  -- How many of them there are before the first intact FINAL_ACK.
  abbrev pub before_final : List (Option Datagram) → ℕ
  before_final [] = 0
  before_final (f ∷ fs) = let rest = before_final fs in if is_final f then 0 else suc rest

  -- `n` EOF_ACKs with successive numbers, the last one first.
  abbrev pub eof_acks : ℕ → ℕ → List (Option (List ℕ))
  eof_acks seq zero = []
  eof_acks seq (suc n) = eof_acks (inc32 seq) n ++ (create_pdu in_cksum seq flag_eof_ack [] ∷ [])

  -- The server has sent `n` EOF_ACKs more, and has written nothing more.
  abbrev Acknowledges : ℕ → ServerInfo → ServerInfo → Type 0
  Acknowledges n info out =
      (out.receiver.sent ≡ eof_acks info.control_seq_num n ++ info.receiver.sent)
      × (out.receiver.written ≡ info.receiver.written)

  Acknowledges-suc :
      (n : ℕ) (info out : ServerInfo)
      → Acknowledges n (send_eof_ack in_cksum info) out
      → Acknowledges (suc n) info out
  unfolding send_server_control_packet
  Acknowledges-suc n info out (s, w) = (
    s
        ∙ sym (
            append_assoc (eof_acks (inc32 info.control_seq_num) n)
              (create_pdu in_cksum info.control_seq_num flag_eof_ack [] ∷ []) info.receiver.sent),
    w,
  )

  -- The loop answers each finding before the FINAL_ACK.
  abbrev Answers : ℕ → List Bool → ServerInfo → Type 0
  Answers tries polls info =
      Acknowledges (before_final (findings tries polls info.arrivals)) info
        (await_final_ack in_cksum tries polls info)

  once_more :
      (tries : ℕ) (polls : List Bool) (info : ServerInfo)
      → Answers tries polls (send_eof_ack in_cksum info)
      → Acknowledges
          (suc (before_final (findings tries polls info.arrivals)))
          info
          (await_final_ack in_cksum tries polls (send_eof_ack in_cksum info))
  unfolding send_server_control_packet
  once_more tries polls info h =
      Acknowledges-suc (before_final (findings tries polls info.arrivals)) info
        (await_final_ack in_cksum tries polls (send_eof_ack in_cksum info)) h

  await_final_ack-Answers :
      (tries : ℕ) (polls : List Bool) (info : ServerInfo) → Answers tries polls info
  unfolding await_final_ack recvfrom
  await_final_ack-Answers zero polls info = (refl, refl)
  await_final_ack-Answers (suc tries) [] info =
      once_more tries [] info (await_final_ack-Answers tries [] (send_eof_ack in_cksum info))
  await_final_ack-Answers (suc tries) (false ∷ rest) info =
      once_more tries rest info (await_final_ack-Answers tries rest (send_eof_ack in_cksum info))
  await_final_ack-Answers (suc tries) (true ∷ rest) info =
      go
        (λ i. once_more tries rest i (await_final_ack-Answers tries rest (send_eof_ack in_cksum i)))
        info.arrivals refl
    where
      go :
          ((i : ServerInfo)
            → Acknowledges
                (suc (before_final (findings tries rest i.arrivals)))
                i
                (await_final_ack in_cksum tries rest (send_eof_ack in_cksum i)))
          → (ds : List Datagram) → info.arrivals ≡ ds
          → Answers (suc tries) (true ∷ rest) info
      go again [] e =
          rw (e, recvfrom)
            (subst
              (λ ds.
                Acknowledges (suc (before_final (findings tries rest ds))) info
                  (await_final_ack in_cksum tries rest (send_eof_ack in_cksum info)))
              e (again info))
      go again (d ∷ ds) e =
          elim (Bool-cases (is_intact in_cksum d && get_flag d.pdu == flag_final_ack)) [
            | inl final ↦ rw (e, recvfrom, final) (refl, refl)
            | inr other ↦ rw (e, recvfrom, other) (again (record info { arrivals = ds }))
          ]

  before_final_bounded :
      (tries : ℕ) (polls : List Bool) (ds : List Datagram)
      → before_final (findings tries polls ds) ≤ tries
  before_final_bounded zero polls ds = omega arith
  before_final_bounded (suc tries) [] ds = omega (arith, before_final_bounded tries [] ds)
  before_final_bounded (suc tries) (false ∷ polls) ds =
      omega (arith, before_final_bounded tries polls ds)
  before_final_bounded (suc tries) (true ∷ polls) [] =
      omega (arith, before_final_bounded tries polls [])
  before_final_bounded (suc tries) (true ∷ polls) (d ∷ ds) =
      ground (arith, before_final_bounded tries polls ds)

  -- When the server has received an intact EOF, receiveFile sends exactly one EOF_ACK for it and
  -- one for each of the next ten rounds that comes before the first intact FINAL_ACK, whatever else
  -- the rounds find, at most eleven in all, with successive numbers and behind everything that it
  -- sent before, and writes nothing more.
  pub eof_answered :
      (d : Datagram) (ds : List Datagram) (polls : List Bool) (info : ServerInfo)
      → info.arrivals ≡ d ∷ ds
      → is_intact in_cksum d ≡ true
      → (get_flag d.pdu == flag_eof) ≡ true
      → let n = suc (before_final (findings 10 polls ds)) in
        let out = receive_file in_cksum (true ∷ polls) info in
        (n ≤ 11)
        × (out.receiver.sent ≡ eof_acks info.control_seq_num n ++ info.receiver.sent)
        × (out.receiver.written ≡ info.receiver.written)
  unfolding receive_file recvfrom
  eof_answered d ds polls info e intact eof =
      let few = before_final_bounded 10 polls ds in
      let no_data : (get_flag d.pdu == flag_data) ≡ false = ground (arith, eof) in
      let info' = record info { arrivals = ds } in
      let (s, w) =
        once_more 10 polls info' (await_final_ack-Answers 10 polls (send_eof_ack in_cksum info')) in
      rw (e, recvfrom, intact, no_data, eof) (omega (arith, few), s, w)
