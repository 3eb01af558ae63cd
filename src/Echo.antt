-- ===== src/Echo.antt =====
-- rcopyold.c and serverOld.c together: the lines that the client sends and their echo.
mod Tests
use cpe_464_proj.Base.{
  ℕ, zero, suc, ◌+◌, ◌≤◌, ◌<◌, ◌≡◌, ◌≢◌, refl, sym, ap, subst, ◌∙◌, ◌⊎◌, List, [], ◌∷◌, ◌++◌,
  Option, none, some, Bool, true, false, arith, length, length-append, get_or, take, take-append,
  append-nil, replicate, negsuc, All, All-replicate, length-replicate, get_or-append, ◌==◌,
  Bool-cases, Option-cases, inl, inr, if◌then◌else◌, inc32, ℤ, pos,
}
use cpe_464_proj.Pdu.{create_pdu, max_data_size}
use cpe_464_proj.Pdu.Codec.{pdu_for, create_pdu-some}
use cpe_464_proj.SafeUtil.{exit_if_negative, safe_recvfrom, safe_sendto}
use cpe_464_proj.Rcopyold.{
  Exchange, Session, sent_first, read_line, read_from_stdin, talk_loop, talk_to_server, maxbuf,
  newline, eof_char, dot,
}
use cpe_464_proj.ServerOld.{process_client}

-- What `readFromStdin` took from the input: a line without newline and behind it a newline, or as
-- many characters as there is room for, where the input is filled up at its end.
abbrev pub IsRead : ℕ → List ℕ → List ℕ × List ℕ → Type 0
IsRead room input (chars, rest) =
    (length chars ≤ room)
    × All (λ c. c ≢ newline) chars
    × ((input ≡ chars ++ (newline ∷ rest))
        ⊎ ((length chars ≡ room)
            × (k : ℕ) × (input ++ replicate k eof_char ≡ chars ++ rest)
            × ((k ≡ 0) ⊎ (rest ≡ []))))

-- At the end of the input the room is filled up.
read_line-nil : (room : ℕ) → read_line room [] ≡ (replicate room eof_char, [])
unfolding read_line
read_line-nil zero = refl
read_line-nil (suc room) = rw (read_line-nil room) refl

-- One more character.
IsRead-cons :
    (c room : ℕ) (input : List ℕ) (out : List ℕ × List ℕ)
    → c ≢ newline
    → IsRead room input out
    → IsRead (suc room) (c ∷ input) (c ∷ out.0, out.1)
IsRead-cons c room input out ne (le, all, inl e) =
    (omega arith, (ne, all), inl (ap (λ xs. c ∷ xs) e))
IsRead-cons c room input out ne (le, all, inr (l, k, e, o)) =
    (omega arith, (ne, all), inr (ap suc l, k, ap (λ xs. c ∷ xs) e, o))

read_line-IsRead : (room : ℕ) (input : List ℕ) → IsRead room input (read_line room input)
unfolding read_line
read_line-IsRead room [] =
    let whole = length-replicate room eof_char in
    rw (read_line-nil room) (
      omega (arith, whole),
      All-replicate (λ c. c ≢ newline) room eof_char (λ e. absurd (omega arith)),
      inr (whole, room, sym (append-nil (replicate room eof_char)), inr refl),
    )
read_line-IsRead zero (c ∷ input) =
    (omega arith, tt, inr (refl, 0, append-nil (c ∷ input), inl refl))
read_line-IsRead (suc room) (c ∷ input) = elim (Bool-cases (c == newline)) [
  | inl end ↦
      let same : c ≡ newline = ground arith in
      rw end (omega arith, tt, inl (ap (λ x. x ∷ input) same))
  | inr more ↦
      let differs : c ≢ newline = ground arith in
      rw more
        (IsRead-cons c room input (read_line room input) differs (read_line-IsRead room input))
]

-- The buffer of readFromStdin has at most 80 bytes and ends in a NUL; before it stands a line of
-- the input without its newline, or, without a newline, the first 79 characters of the input, which
-- is filled up with the character of EOF where it ends.
read_from_stdin_fits :
    (input : List ℕ)
    → (chars : List ℕ) × ((read_from_stdin input).0 ≡ chars ++ (0 ∷ []))
      × (length (read_from_stdin input).0 ≤ maxbuf)
      × IsRead 79 input (chars, (read_from_stdin input).1)
unfolding read_from_stdin
read_from_stdin_fits input =
    let (chars, rest) = read_line 79 input in
    let r = read_line-IsRead 79 input in
    (chars, refl, omega (arith, length-append chars (0 ∷ []), r.0), r)

-- The server gets the PDUs of a log, each at the start of its receiving array, and can answer them.
abbrev pub Delivers : List (Option (List ℕ)) → List Exchange → Type 0
Delivers [] [] = Unit
Delivers (some pdu ∷ log) (y ∷ ys) =
    (y.receives ≡ pos (length pdu))
    × ((k : ℕ) × (y.sends ≡ pos k))
    × ((stale : List ℕ) × (y.pdu ≡ pdu ++ stale))
    × Delivers log ys
Delivers _ _ = ⊥

echo-nil : (ys : List Exchange) → Delivers [] ys → (process_client ys).sent ≡ []
unfolding process_client
echo-nil [] h = refl
echo-nil (y ∷ ys) h = absurd h

-- The server sends a PDU back, and goes on unless its payload begins with a dot.
echo-cons :
    (pdu : List ℕ) (log : List (Option (List ℕ))) (ys : List Exchange)
    → 7 < length pdu
    → Delivers (some pdu ∷ log) ys
    → ((get_or pdu 7 0 == dot) ≡ true → log ≡ [])
    → ((get_or pdu 7 0 == dot) ≡ false
        → (zs : List Exchange) → Delivers log zs
        → (process_client zs).sent ≡ log)
    → (process_client ys).sent ≡ some pdu ∷ log
unfolding process_client safe_recvfrom safe_sendto exit_if_negative
echo-cons pdu log [] size h stop more = absurd h
echo-cons pdu log (y ∷ ys) size (r, (k, ok), (stale, e), rest) stop more =
    let byte : get_or y.pdu 7 0 ≡ get_or pdu 7 0 =
      ap (λ p. get_or p 7 0) e ∙ get_or-append pdu stale 7 0 size in
    let back : take (length pdu) y.pdu ≡ pdu =
      ap (take (length pdu)) e ∙ take-append (length pdu) pdu stale refl in
    elim (Bool-cases (get_or pdu 7 0 == dot)) [
      | inl end ↦ rw (r, ok, byte, end, back, stop end) refl
      | inr on ↦ rw (r, ok, byte, on, back) (ap (λ xs. some pdu ∷ xs) (more on ys rest))
    ]

module _ (in_cksum : List ℕ → ℕ → ℕ) where
  -- A client that sends nothing more once the line began with a dot.
  talk_loop-dot :
      (xs : List Exchange) (first seq : ℕ) (input : List ℕ)
      → (first == dot) ≡ true
      → (talk_loop in_cksum xs first seq input).sent ≡ []
  unfolding talk_loop
  talk_loop-dot [] first seq input h = refl
  talk_loop-dot (x ∷ xs) first seq input h = rw h refl

  -- The PDU of a line is made, and has a payload.
  line-made :
      (seq : ℕ) (input : List ℕ)
      → create_pdu in_cksum seq 1 (read_from_stdin input).0
        ≡ some (pdu_for in_cksum seq 1 (read_from_stdin input).0)
  line-made seq input =
      let (chars, e, fits, _) = read_from_stdin_fits input in
      create_pdu-some in_cksum seq 1 (read_from_stdin input).0 (omega (arith, fits))

  line-size :
      (seq : ℕ) (input : List ℕ) → 7 < length (pdu_for in_cksum seq 1 (read_from_stdin input).0)
  line-size seq input =
      let (chars, e, _, _) = read_from_stdin_fits input in
      omega (arith, ap length e, length-append chars (0 ∷ []))

  talk_loop-echoed :
      (xs : List Exchange) (first seq : ℕ) (input : List ℕ) (ys : List Exchange)
      → Delivers (talk_loop in_cksum xs first seq input).sent ys
      → (process_client ys).sent ≡ (talk_loop in_cksum xs first seq input).sent
  unfolding talk_loop
  talk_loop-echoed [] first seq input ys = echo-nil ys
  talk_loop-echoed (x ∷ xs) first seq input ys = elim (Bool-cases (first == dot)) [
    | inl end ↦ rw end (echo-nil ys)
    | inr on ↦
        let buffer = (read_from_stdin input).0 in
        let pdu = pdu_for in_cksum seq 1 buffer in
        let made = line-made seq input in
        let size = line-size seq input in
        elim (Option-cases (safe_sendto x.sends)) [
          | inl bad ↦
              rw (on, bad, made) (λ d. echo-cons pdu [] ys size d (λ _. refl) (λ _. echo-nil))
          | inr (k, sent) ↦ elim (Option-cases (safe_recvfrom x.receives)) [
            | inl bad ↦
                rw (on, sent, bad, made)
                  (λ d. echo-cons pdu [] ys size d (λ _. refl) (λ _. echo-nil))
            | inr (n, got) ↦
                let later =
                  talk_loop in_cksum xs (get_or buffer 0 0) (inc32 seq) (read_from_stdin input).1 in
                rw (on, sent, got, made)
                  (λ d.
                    echo-cons pdu later.sent ys size d
                      (λ end. talk_loop-dot xs (get_or buffer 0 0) (inc32 seq) _ end)
                      (λ _ zs. talk_loop-echoed xs (get_or buffer 0 0) (inc32 seq) _ zs))
          ]
        ]
  ]

  -- If the PDUs that the first client has sent reach the first server, each at the start of its
  -- receiving array, whatever bytes lie behind it, and the server's sendto succeeds, then the
  -- server sends back exactly these PDUs, in order and up to the last.
  pub lines_come_back :
      (xs ys : List Exchange) (input : List ℕ)
      → Delivers (talk_to_server in_cksum xs input).sent ys
      → (process_client ys).sent ≡ (talk_to_server in_cksum xs input).sent
  unfolding talk_to_server
  lines_come_back xs ys input d = talk_loop-echoed xs 0 0 input ys d
