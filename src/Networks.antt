-- ===== src/Networks.antt =====
-- networks.c: the set-up of the sockets, on a little-endian machine. What the calls of the system
-- answer stands in `SocketAnswers`, and `none` is an exit of the program. An address is what the code
-- stores in it: the family, the port in network byte order, and the bytes of the host, where `none`
-- stands for `in6addr_any`.
pub mod Ports
mod Tests
use cpe_464_proj.Base.{
  ℕ, ◌+◌, ◌-◌, ◌*◌, ◌/◌, ◌%◌, ◌^◌, List, Option, none, some, Bool, not, if◌then◌else◌, ℤ, pos,
  negsuc,
}

pub record SockaddrIn6 : Type 0 where
  pub sin6_family : ℕ
  pub sin6_port : ℕ
  pub sin6_addr : Option (List ℕ)

-- The result of `socket` and `accept` (`none` for -1), the port in network byte order that `bind` has
-- given the socket (`none` for -1), whether `getsockname`, `listen` and `connect` succeed, and the
-- address that `gethostbyname6` finds. The system picks the port when 0 is asked for.
pub record SocketAnswers : Type 0 where
  pub socket : Option ℕ
  pub binds : Option ℕ
  pub named : Bool
  pub listens : Bool
  pub accept : Option ℕ
  pub connects : Bool
  pub host : Option (List ℕ)

-- AF_INET6 of Linux.
abbrev pub af_inet6 : ℕ
af_inet6 = 10

-- The conversion of an `int` to `uint16_t`.
unfoldable pub to_u16 : ℤ → ℕ
to_u16 (pos n) = n % 2 ^ 16
to_u16 (negsuc n) = 2 ^ 16 - 1 - n % 2 ^ 16

-- The two bytes change places, for `htons` and `ntohs` alike.
unfoldable pub htons : ℕ → ℕ
htons x = x % 256 * 256 + x / 256

unfoldable pub ntohs : ℕ → ℕ
ntohs x = x % 256 * 256 + x / 256

-- An address with a port in network byte order.
abbrev pub address : ℕ → Option (List ℕ) → SockaddrIn6
address port host = record { sin6_family = af_inet6; sin6_port = port; sin6_addr = host }

unfoldable pub create_udp_socket : SocketAnswers → Option ℕ
create_udp_socket s = s.socket

-- The socket, and the address whose port is printed: `getsockname` overwrites what was asked for,
-- and when it fails, which the code does not test, that stays.
unfoldable pub udp_server_setup : SocketAnswers → ℤ → Option (ℕ × SockaddrIn6)
unfolding create_udp_socket htons to_u16
udp_server_setup s server_port = elim (create_udp_socket s) [
  | none ↦ none
  | some socket ↦ elim s.binds [
    | none ↦ none
    | some port ↦ some (socket, address (if s.named then port else htons (to_u16 server_port)) none)
  ]
]

-- The socket, and the server's address. The code stores the port with `ntohs`.
unfoldable pub setup_udp_client_to_server : SocketAnswers → ℤ → Option (ℕ × SockaddrIn6)
unfolding create_udp_socket ntohs to_u16
setup_udp_client_to_server s server_port = elim (create_udp_socket s) [
  | none ↦ none
  | some socket ↦ elim s.host [
    | none ↦ none
    | some bytes ↦ some (socket, address (ntohs (to_u16 server_port)) (some bytes))
  ]
]

-- Here a failure of `getsockname` ends the program, so that the port asked for is only `bind`'s.
unfoldable pub tcp_server_setup : SocketAnswers → ℤ → Option (ℕ × SockaddrIn6)
tcp_server_setup s server_port = elim s.socket [
  | none ↦ none
  | some socket ↦ elim s.binds [
    | none ↦ none
    | some port ↦
        if not s.named then none else (if s.listens then some (socket, address port none) else none)
  ]
]

unfoldable pub tcp_accept : SocketAnswers → Option ℕ
tcp_accept s = s.accept

unfoldable pub tcp_client_setup : SocketAnswers → ℤ → Option (ℕ × SockaddrIn6)
unfolding htons to_u16
tcp_client_setup s server_port = elim s.socket [
  | none ↦ none
  | some socket ↦ elim s.host [
    | none ↦ none
    | some bytes ↦
        if s.connects
        then some (socket, address (htons (to_u16 server_port)) (some bytes))
        else none
  ]
]
