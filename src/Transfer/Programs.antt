-- ===== src/Transfer/Programs.antt =====
-- The programs of rcopy.c and server.c: a run of the client, and the sessions of a run of the server.
use cpe_464_proj.Rcopy.Input.{input_of}
use cpe_464_proj.Base.{
  pos, ℕ, ◌<◌, ◌≡◌, refl, sym, subst, List, [], ◌∷◌, ◌++◌, Option, none, some, Bool, true, false,
  length, All, u32_mod, ℤ, arith, if◌then◌else◌,
}
use cpe_464_proj.Pdu.{Datagram}
use cpe_464_proj.Networks.{SockaddrIn6, SocketAnswers, udp_server_setup}
use cpe_464_proj.Client.{RcopyState, RcopyInfo, send_filename}
use cpe_464_proj.Setup.{Args, Answers, Setup, started, exited, init_rcopy_info}
use cpe_464_proj.Rcopy.{state_handler}
use cpe_464_proj.Rcopy.Main.{proceed}
use cpe_464_proj.Rcopy.Main as ClientProgram
use cpe_464_proj.Server.{ServerInfo, process_client, run_server}
use cpe_464_proj.Server.Main.{ForkAnswers, setup_server, handle_valid_filename_packet, run_children}
use cpe_464_proj.Server.Main as ServerProgram
use cpe_464_proj.Transfer.{IsCarried, file_of}
use cpe_464_proj.Transfer.Prefix.{server_writes_prefix}

-- A child's session, if there is a child, has written the beginning of a file.
abbrev pub WritesPrefix : List ℕ → Option ServerInfo → Type 0
WritesPrefix file none = Unit
WritesPrefix file (some info) = (rest : List ℕ) × (info.receiver.written ++ rest ≡ file)

-- A run of the client that does not exit has started its loop.
proceed-started :
    (in_cksum : List ℕ → ℕ → ℕ) (x : Setup) (steps : ℕ) (out : RcopyState × RcopyInfo)
    → proceed in_cksum x steps ≡ some out
    → (info : RcopyInfo) × (x ≡ started info)
      × (state_handler in_cksum steps (send_filename, info) ≡ out)
unfolding proceed
proceed-started in_cksum (exited error) steps out e = absurd (cc)
proceed-started in_cksum (started info) steps out e = (info, refl, cc (e))

-- A run of the server that does not exit has the sessions of its children.
main-run_children :
    (in_cksum : List ℕ → ℕ → ℕ) (argc : ℕ) (port : ℤ) (s : SocketAnswers) (ds : List Datagram)
    (fs : List ForkAnswers) (sessions : List (Option ServerInfo))
    → ServerProgram.main in_cksum argc port s ds fs ≡ some sessions
    → run_children in_cksum (run_server in_cksum ds) fs ≡ sessions
unfolding ServerProgram.main
main-run_children in_cksum argc port s ds fs sessions e = ground arith

module _ (in_cksum : List ℕ → ℕ → ℕ) (a : Args) (answers : Answers) (info : RcopyInfo) (steps : ℕ)
    (given : init_rcopy_info a answers ≡ started info)
    (small : length answers.reads < u32_mod) where
  -- The datagrams of a session come from the client.
  abbrev Serves : ForkAnswers → Type 0
  Serves f =
      All (IsCarried in_cksum (state_handler in_cksum steps (send_filename, info)).1.sent)
        f.arrivals

  run_children-WritesPrefix :
      (ds : List Datagram) (fs : List ForkAnswers)
      → All Serves fs
      → All (WritesPrefix (file_of (input_of a answers))) (run_children in_cksum ds fs)
  unfolding run_children handle_valid_filename_packet
  run_children-WritesPrefix [] fs carried = tt
  run_children-WritesPrefix (d ∷ ds) [] carried = tt
  run_children-WritesPrefix (d ∷ ds) (f ∷ fs) carried = (
    session (f.forked) (udp_server_setup f.sockets (pos 0)),
    run_children-WritesPrefix ds fs carried.1,
  )
    where
      session :
          (c : Bool) (o : Option (ℕ × SockaddrIn6))
          → WritesPrefix (file_of (input_of a answers)) (
              if c
              then elim o [
                | none ↦ none
                | some socket ↦ some (process_client in_cksum f.opened d f.polls f.arrivals)
              ]
              else none)
      session false o = tt
      session true none = tt
      session true (some socket) =
          server_writes_prefix in_cksum a answers info steps f.opened d f.polls f.arrivals given
            small carried.0

-- Whatever the network loses, repeats, reorders or damages, every session of a run of the server
-- writes a prefix of the bytes that the client reads from its file: for a run of the client program
-- from any command line and for any number of rounds of its loop, whose reads give fewer than 2^32
-- results, and a run of the server program in which each datagram of a session that validates is a
-- PDU that this client has sent.
pub sessions_write_prefix :
    (in_cksum : List ℕ → ℕ → ℕ) (a : Args) (answers : Answers) (steps : ℕ)
    (client : RcopyState × RcopyInfo) (argc : ℕ) (port : ℤ) (s : SocketAnswers) (ds : List Datagram)
    (fs : List ForkAnswers) (sessions : List (Option ServerInfo))
    → ClientProgram.main in_cksum a answers steps ≡ some client
    → ServerProgram.main in_cksum argc port s ds fs ≡ some sessions
    → length answers.reads < u32_mod
    → All (λ f. All (IsCarried in_cksum client.1.sent) f.arrivals) fs
    → All (WritesPrefix (file_of (input_of a answers))) sessions
unfolding ClientProgram.main
sessions_write_prefix in_cksum a answers steps client argc port s ds fs sessions c e small carried =
    let (info, given, ran) = proceed-started in_cksum (init_rcopy_info a answers) steps client c in
    let whole = main-run_children in_cksum argc port s ds fs sessions e in
    subst (All (WritesPrefix (file_of (input_of a answers)))) whole (
      run_children-WritesPrefix in_cksum a answers info steps given small (run_server in_cksum ds)
        fs
        (subst
          (λ (x : RcopyState × RcopyInfo).
            All (λ f. All (IsCarried in_cksum x.1.sent) f.arrivals) fs)
          (sym ran) carried))
