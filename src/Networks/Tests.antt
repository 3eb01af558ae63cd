-- ===== src/Networks/Tests.antt =====
-- The set-up of both ends for one port.
use cpe_464_proj.Base.{ℕ, ◌≡◌, refl, [], ◌∷◌, none, some, true, pos}
use cpe_464_proj.Networks.{SockaddrIn6, SocketAnswers, setup_udp_client_to_server, address}

-- All calls succeed; the system picks 8080.
abbrev succeeding : SocketAnswers
succeeding = record {
  socket = some 3;
  binds = some 36895;
  named = true;
  listens = true;
  accept = some 4;
  connects = true;
  host = some (127 ∷ []);
}

client_ready :
    setup_udp_client_to_server succeeding (pos 8080) ≡ some (3, address 36895 (some (127 ∷ [])))
unfolding setup_udp_client_to_server
client_ready = refl

no_host : setup_udp_client_to_server (record succeeding { host = none }) (pos 8080) ≡ none
unfolding setup_udp_client_to_server
no_host = refl

abbrev bound : ℕ × SockaddrIn6
bound = (3, address 36895 none)

abbrev addressed : ℕ × SockaddrIn6
addressed = (3, address 36895 (some (127 ∷ [])))
