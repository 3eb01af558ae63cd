-- ===== src/Gethostbyname/Shared.antt =====
-- gethostbyname.c: the static array `ipAddress`, to which every lookup returns a pointer.
use cpe_464_proj.Base.{
  ℕ, ◌≡◌, refl, sym, ap, ap₂, ◌∙◌, List, [], ◌∷◌, ◌++◌, Option, none, some, arith, Option-cases,
  inl, inr, length, take, drop, take_all, take-append, append_assoc, length-append, length-drop,
  drop-append,
}
use cpe_464_proj.Networks.{af_inet6}
use cpe_464_proj.Gethostbyname.{
  Statics, af_inet, address_len, overwrite, get_ip_address46, gethostbyname4, gethostbyname6,
  get_ip_address_string46, print_found, gethostbyname_test_lookup,
}

take-overwrite :
    (n : ℕ) (bytes array : List ℕ) → n ≡ length bytes → take n (overwrite bytes array) ≡ bytes
take-overwrite n bytes array h = take-append n bytes (drop (length bytes) array) h

module _ (getaddrinfo : ℕ → List ℕ → Option (List ℕ)) (inet_ntop : ℕ → List ℕ → List ℕ) where
  -- `getaddrinfo` gives addresses of the length of their family.
  abbrev pub GivesAddresses : Type 0
  GivesAddresses =
      (family : ℕ) (host address : List ℕ)
      → getaddrinfo family host ≡ some address
      → length address ≡ address_len family

  -- The line for a family, from the address alone.
  abbrev pub found_line : ℕ → Option (List ℕ) → List (ℕ × List ℕ)
  found_line family none = []
  found_line family (some address) = (family, inet_ntop family address) ∷ []

  get_ip_address46-found :
      (family : ℕ) (host address : List ℕ) (s : Statics)
      → GivesAddresses
      → getaddrinfo family host ≡ some address
      → get_ip_address46 getaddrinfo inet_ntop host family s
        ≡ (some address, record s { ip_address = overwrite address s.ip_address })
  unfolding get_ip_address46
  get_ip_address46-found family host address s given found =
      let whole : take (address_len family) address ≡ address =
        take_all (address_len family) address (omega (arith, given family host address found)) in
      rw (get_ip_address46, found, whole) refl

  get_ip_address46-none :
      (family : ℕ) (host : List ℕ) (s : Statics)
      → getaddrinfo family host ≡ none
      → get_ip_address46 getaddrinfo inet_ntop host family s ≡ (none, s)
  unfolding get_ip_address46
  get_ip_address46-none family host s nothing = rw (get_ip_address46, nothing) refl

  lookup-line :
      (family : ℕ) (host : List ℕ) (s : Statics)
      → GivesAddresses
      → (print_found getaddrinfo inet_ntop family
          (get_ip_address46 getaddrinfo inet_ntop host family s)).0
        ≡ found_line family (getaddrinfo family host)
  unfolding print_found get_ip_address_string46
  lookup-line family host s given = elim (Option-cases (getaddrinfo family host)) [
    | inl nothing ↦ rw (get_ip_address46-none family host s nothing, nothing) refl
    | inr (address, found) ↦
        let read =
          take-overwrite (address_len family) address s.ip_address
            (sym (given family host address found)) in
        rw (get_ip_address46-found family host address s given found, found, read) refl
  ]

  -- Although both lookups answer in one static array, gethostbyname_test_lookup prints the text of
  -- the IPv6 address and then the text of the IPv4 address that getaddrinfo gives, each only if it
  -- is found, when getaddrinfo gives addresses of 16 and 4 bytes.
  pub test_lookup_prints_both :
      (host : List ℕ) (s : Statics)
      → GivesAddresses
      → (gethostbyname_test_lookup getaddrinfo inet_ntop host s).0
        ≡ found_line af_inet6 (getaddrinfo af_inet6 host)
          ++ found_line af_inet (getaddrinfo af_inet host)
  unfolding gethostbyname_test_lookup gethostbyname4 gethostbyname6
  test_lookup_prints_both host s given =
      ap₂ ◌++◌ (lookup-line af_inet6 host s given) (lookup-line af_inet host _ given)

  -- The pointer that gethostbyname6 returned points to the address found only until the next
  -- lookup: after gethostbyname4 of another name it points to the 4 bytes of that address and the
  -- last 12 of the first, when getaddrinfo gives addresses of 16 and 4 bytes.
  later_lookup_overwrites :
      (host other : List ℕ) (a b : List ℕ) (s : Statics)
      → GivesAddresses
      → getaddrinfo af_inet6 host ≡ some a
      → getaddrinfo af_inet other ≡ some b
      → let first = (gethostbyname6 getaddrinfo inet_ntop host s).1 in
        (take 16 first.ip_address ≡ a)
        × (take 16 (gethostbyname4 getaddrinfo inet_ntop other first).1.ip_address ≡ b ++ drop 4 a)
  unfolding gethostbyname4 gethostbyname6
  later_lookup_overwrites host other a b s given six four =
      let rest = drop (length a) s.ip_address in
      let long : length a ≡ 16 = given af_inet6 host a six in
      let short : length b ≡ 4 = given af_inet other b four in
      let first = get_ip_address46-found af_inet6 host a s given six in
      rw (first, get_ip_address46-found af_inet other b _ given four)
        (
          take-overwrite 16 a s.ip_address (sym long),
          ap (λ n. take 16 (b ++ drop n (a ++ rest))) short
              ∙ ap (λ xs. take 16 (b ++ xs)) (drop-append 4 a rest (omega (arith, long)))
              ∙ ap (take 16) (sym (append_assoc b (drop 4 a) rest))
              ∙ take-append 16 (b ++ drop 4 a) rest (
                  omega (
                    arith,
                    length-append b (drop 4 a),
                    length-drop 4 a (omega (arith, long)),
                    long,
                    short,
                  )),
        )
