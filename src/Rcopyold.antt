-- ===== src/Rcopyold.antt =====
-- rcopyold.c: the first client, which sends lines of the standard input and waits for their echo.
-- Each round of its loop takes the next of the answers of the network, and a run has as many rounds
-- as there are answers. What the client prints is left out.
use cpe_464_proj.Base.{
  ℕ, zero, suc, List, [], ◌∷◌, ◌++◌, Option, none, some, Bool, true, false, get_or, ◌==◌,
  if◌then◌else◌, inc32, ℤ,
}
use cpe_464_proj.Pdu.{create_pdu}
use cpe_464_proj.SafeUtil.{safe_recvfrom, safe_sendto}
use cpe_464_proj.Networks.{SocketAnswers, setup_udp_client_to_server}

-- MAXBUF of rcopyold.c.
abbrev pub maxbuf : ℕ
maxbuf = 80

abbrev pub newline : ℕ
newline = 10

abbrev pub dot : ℕ
dot = 46

-- The `char` of the EOF of `getchar`.
abbrev pub eof_char : ℕ
eof_char = 255

-- What `sendto` and `recvfrom` return in a round, and the receiving array behind it.
pub record Exchange : Type 0 where
  pub sends : ℤ
  pub receives : ℤ
  pub pdu : List ℕ

-- The PDUs given to `sendto`, in order, and whether the program ended by an exit.
pub record Session : Type 0 where
  pub sent : List (Option (List ℕ))
  pub exited : Bool

abbrev pub sent_first : Option (List ℕ) → Session → Session
sent_first pdu s = record s { sent = pdu ∷ s.sent }

-- The loop of `readFromStdin`, with room for so many characters: those of a line, and the input
-- behind it.
unfoldable pub read_line : ℕ → List ℕ → List ℕ × List ℕ
read_line zero input = ([], input)
read_line (suc room) [] = let (chars, rest) = read_line room [] in (eof_char ∷ chars, rest)
read_line (suc room) (c ∷ input) =
    let (chars, rest) = read_line room input in
    if c == newline then ([], input) else (c ∷ chars, rest)

-- The buffer with its NUL, whose length is the result.
unfoldable pub read_from_stdin : List ℕ → List ℕ × List ℕ
unfolding read_line
read_from_stdin input = let (chars, rest) = read_line 79 input in (chars ++ (0 ∷ []), rest)

module _ (in_cksum : List ℕ → ℕ → ℕ) where
  -- The loop of `talkToServer`, with `buffer[0]`, the sequence number and the standard input.
  unfoldable pub talk_loop : List Exchange → ℕ → ℕ → List ℕ → Session
  unfolding read_from_stdin safe_sendto safe_recvfrom
  talk_loop [] first seq input = record { sent = []; exited = false }
  talk_loop (x ∷ xs) first seq input =
      let (buffer, rest) = read_from_stdin input in
      let pdu = create_pdu in_cksum seq 1 buffer in
      let later = talk_loop xs (get_or buffer 0 0) (inc32 seq) rest in
      let last : Session = record { sent = pdu ∷ []; exited = true } in
      if first == dot then record { sent = []; exited = false } else elim (safe_sendto x.sends) [
        | none ↦ last
        | some sent ↦ elim (safe_recvfrom x.receives) [
          | none ↦ last
          | some len ↦ sent_first pdu later
        ]
      ]

  unfoldable pub talk_to_server : List Exchange → List ℕ → Session
  unfolding talk_loop
  talk_to_server xs input = talk_loop xs 0 0 input

  -- The port, from `argc` and the `atoi` of the third argument; `none` is an exit.
  unfoldable pub check_args : ℕ → ℤ → Option ℤ
  check_args argc port = if argc == 4 then some port else none

  -- `errorRate < 0 || errorRate >= 1` exits.
  unfoldable pub check_error_rate : Bool → Option Bool
  check_error_rate valid = if valid then some true else none

  unfoldable pub main : ℕ → Bool → ℤ → SocketAnswers → List Exchange → List ℕ → Option Session
  unfolding check_args check_error_rate talk_to_server
  main argc rate_valid port s xs input = elim (check_args argc port) [
    | none ↦ none
    | some port_number ↦ elim (check_error_rate rate_valid) [
      | none ↦ none
      | some ok ↦ elim (setup_udp_client_to_server s port_number) [
        | none ↦ none
        | some server ↦ some (talk_to_server xs input)
      ]
    ]
  ]
