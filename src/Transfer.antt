-- ===== src/Transfer.antt =====
-- rcopy.c and server.c together, over a network that loses, repeats, reorders and damages PDUs. The
-- network is the relation between the PDUs that the client gave to `sendtoErr` and the datagrams that
-- the server gets from `recvfromErr`.
pub mod Prefix
pub mod Complete
pub mod Network
pub mod Programs
mod Tests
use cpe_464_proj.Base.{ℕ, ◌≡◌, ◌⊎◌, List, [], ◌∷◌, ◌++◌, Option, some, true, length, In}
use cpe_464_proj.Pdu.{Datagram, validate_checksum}
use cpe_464_proj.Client.{ReadResult, read_error, read_bytes}
use cpe_464_proj.Rcopy.Chunks.{bytes_of}

-- A datagram that validates is one of the PDUs sent. It lies at the start of the receiving array,
-- with bytes of earlier datagrams behind it.
abbrev pub IsCarried : (List ℕ → ℕ → ℕ) → List (Option (List ℕ)) → Datagram → Type 0
IsCarried in_cksum sent d =
    validate_checksum in_cksum d.pdu d.pdu_len ≡ true
    → (pdu : List ℕ) × (stale : List ℕ) × In (some pdu) sent
      × (d.pdu ≡ pdu ++ stale)
      × (d.pdu_len ≡ length pdu)

-- The bytes that the client reads, in order.
abbrev pub file_of : List ReadResult → List ℕ
file_of [] = []
file_of (r ∷ rs) = bytes_of r ++ file_of rs

-- The bytes that the client reads until a `read` fails or gives none.
abbrev pub file_to_eof : List ReadResult → List ℕ
file_to_eof [] = []
file_to_eof (read_error ∷ rs) = []
file_to_eof (read_bytes [] ∷ rs) = []
file_to_eof (read_bytes (b ∷ bs) ∷ rs) = (b ∷ bs) ++ file_to_eof rs
