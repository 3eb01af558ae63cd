-- ===== src/ServerOld.antt =====
-- serverOld.c: the first server, which sends each PDU back as it came. Each round of its loop takes
-- the next of the answers of the network, and a run has as many rounds as there are answers. What
-- the server prints is left out.
use cpe_464_proj.Base.{
  ℕ, List, [], ◌∷◌, Option, none, some, Bool, true, false, ◌||◌, get_or, take, ltb, ◌==◌,
  if◌then◌else◌, ℤ, pos,
}
use cpe_464_proj.SafeUtil.{safe_recvfrom, safe_sendto}
use cpe_464_proj.Networks.{SocketAnswers, udp_server_setup}
use cpe_464_proj.Rcopyold.{Exchange, Session, sent_first, dot}

-- `processClient`: a PDU whose payload begins with a dot ends the loop.
unfoldable pub process_client : List Exchange → Session
unfolding safe_recvfrom safe_sendto
process_client [] = record { sent = []; exited = false }
process_client (x ∷ xs) =
    let later = process_client xs in
    elim (safe_recvfrom x.receives) [
      | none ↦ record { sent = []; exited = true }
      | some len ↦
          let pdu = some (take len x.pdu) in
          elim (safe_sendto x.sends) [
            | none ↦ record { sent = pdu ∷ []; exited = true }
            | some sent ↦
                if get_or x.pdu 7 0 == dot
                then record { sent = pdu ∷ []; exited = false }
                else sent_first pdu later
          ]
    ]

-- The port, from `argc` and the `atoi` of the second argument; `none` is an exit.
unfoldable pub check_args : ℕ → ℤ → Option ℤ
check_args argc port =
    if ltb argc 2 || ltb 3 argc then none else (if argc == 3 then some port else some (pos 0))

-- `errorRate < 0 || errorRate >= 1` exits.
unfoldable pub check_error_rate : Bool → Option Bool
check_error_rate valid = if valid then some true else none

unfoldable pub main : ℕ → Bool → ℤ → SocketAnswers → List Exchange → Option Session
unfolding check_args check_error_rate process_client
main argc rate_valid port s xs = elim (check_args argc port) [
  | none ↦ none
  | some port_number ↦ elim (check_error_rate rate_valid) [
    | none ↦ none
    | some ok ↦ elim (udp_server_setup s port_number) [
      | none ↦ none
      | some socket ↦ some (process_client xs)
    ]
  ]
]
