-- ===== src/Server/Main.antt =====
-- The start of server.c, and the children that it forks and collects.
use cpe_464_proj.Base.{
  ℕ, zero, suc, ◌+◌, pos, negsuc, List, [], ◌∷◌, Option, none, some, Bool, if◌then◌else◌, ℤ,
}
use cpe_464_proj.Pdu.{Datagram}
use cpe_464_proj.Networks.{SockaddrIn6, SocketAnswers, udp_server_setup}
use cpe_464_proj.Server.{ServerInfo, check_args, process_client, run_server}

-- What the system answers for a FILENAME PDU: whether `fork` makes a child, what the set-up of the
-- child's own socket gets, whether the child can open the output file, and its polls and datagrams.
pub record ForkAnswers : Type 0 where
  pub forked : Bool
  pub sockets : SocketAnswers
  pub opened : Bool
  pub polls : List Bool
  pub arrivals : List Datagram

unfoldable pub setup_server : SocketAnswers → ℤ → Option (ℕ × SockaddrIn6)
unfolding udp_server_setup
setup_server s port_number = udp_server_setup s port_number

-- The loop of `waitpid` calls, over what they return: it collects a child for each positive result,
-- and the results behind the first other one are left.
unfoldable pub collect_children : List ℤ → ℕ × List ℤ
collect_children [] = (0, [])
collect_children (negsuc n ∷ rest) = (0, rest)
collect_children (pos zero ∷ rest) = (0, rest)
collect_children (pos (suc pid) ∷ rest) =
    let (count, left) = collect_children rest in (count + 1, left)

-- The signal handler: `errno` is as before, whatever the calls set it to.
unfoldable pub reap_children : ℕ → List ℤ → ℕ × List ℤ
unfolding collect_children
reap_children saved_errno results =
    let (count, left) = collect_children results in (saved_errno, left)

module _ (in_cksum : List ℕ → ℕ → ℕ) where
  -- The child's session, at whose end it exits; there is none in the parent, nor when the child
  -- exits without a socket. The system picks its port.
  unfoldable pub handle_valid_filename_packet : ForkAnswers → Datagram → Option ServerInfo
  unfolding process_client udp_server_setup
  handle_valid_filename_packet f d =
      if f.forked
      then elim (udp_server_setup f.sockets (pos 0)) [
        | none ↦ none
        | some socket ↦ some (process_client in_cksum f.opened d f.polls f.arrivals)
      ]
      else none

  -- The children for the FILENAME PDUs, as far as there are answers.
  unfoldable pub run_children : List Datagram → List ForkAnswers → List (Option ServerInfo)
  unfolding handle_valid_filename_packet
  run_children [] fs = []
  run_children (d ∷ ds) [] = []
  run_children (d ∷ ds) (f ∷ fs) = handle_valid_filename_packet f d ∷ run_children ds fs

  -- The sessions that a run of the server has; `none` is an exit at its start.
  unfoldable pub main :
      ℕ → ℤ → SocketAnswers → List Datagram → List ForkAnswers → Option (List (Option ServerInfo))
  unfolding check_args setup_server run_server run_children
  main argc port s ds fs = elim (check_args argc port) [
    | none ↦ none
    | some port_number ↦ elim (setup_server s port_number) [
      | none ↦ none
      | some socket ↦ some (run_children (run_server in_cksum ds) fs)
    ]
  ]
