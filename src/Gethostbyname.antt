-- ===== src/Gethostbyname.antt =====
-- gethostbyname.c: the lookup of host names. A name and a text are the characters in front of the
-- NUL. `getaddrinfo` is a parameter: for a family and a name it gives the bytes of the address at the
-- head of its list, if it finds one. So is `inet_ntop`, which gives the text of an address. The
-- pointers that the functions return point to static arrays, which stand in `Statics`; of a socket
-- address there are its address bytes.
pub mod Shared
mod Tests
use cpe_464_proj.Base.{
  ℕ, List, [], ◌∷◌, ◌++◌, Option, none, some, Bool, true, false, length, take, drop, ◌==◌,
  if◌then◌else◌,
}
use cpe_464_proj.Networks.{af_inet6, SockaddrIn6, ntohs}

-- `ipAddress` of `getIPAddress46`, and the two arrays `ipString`.
pub record Statics : Type 0 where
  pub ip_address : List ℕ
  pub ip_string46 : List ℕ
  pub ip_string : List ℕ

-- AF_INET of Linux.
abbrev pub af_inet : ℕ
af_inet = 2

-- The bytes of an address.
abbrev pub address_len : ℕ → ℕ
address_len family = if family == af_inet then 4 else 16

-- `memcpy` to the start of an array.
abbrev pub overwrite : List ℕ → List ℕ → List ℕ
overwrite bytes array = bytes ++ drop (length bytes) array

-- "(IP not found)"
abbrev pub not_found : List ℕ
not_found = 40 ∷ 73 ∷ 80 ∷ 32 ∷ 110 ∷ 111 ∷ 116 ∷ 32 ∷ 102 ∷ 111 ∷ 117 ∷ 110 ∷ 100 ∷ 41 ∷ []

-- "www.google.com"
abbrev pub www_google : List ℕ
www_google = 119 ∷ 119 ∷ 119 ∷ 46 ∷ 103 ∷ 111 ∷ 111 ∷ 103 ∷ 108 ∷ 101 ∷ 46 ∷ 99 ∷ 111 ∷ 109 ∷ []

-- "ipv6.google.com"
abbrev pub ipv6_google : List ℕ
ipv6_google =
    105 ∷ 112 ∷ 118 ∷ 54 ∷ 46 ∷ 103 ∷ 111 ∷ 111 ∷ 103 ∷ 108 ∷ 101 ∷ 46 ∷ 99 ∷ 111 ∷ 109 ∷ []

-- "my.calpoly.edu"
abbrev pub my_calpoly : List ℕ
my_calpoly = 109 ∷ 121 ∷ 46 ∷ 99 ∷ 97 ∷ 108 ∷ 112 ∷ 111 ∷ 108 ∷ 121 ∷ 46 ∷ 101 ∷ 100 ∷ 117 ∷ []

-- "does not exist"
abbrev pub missing_host : List ℕ
missing_host = 100 ∷ 111 ∷ 101 ∷ 115 ∷ 32 ∷ 110 ∷ 111 ∷ 116 ∷ 32 ∷ 101 ∷ 120 ∷ 105 ∷ 115 ∷ 116 ∷ []

module _ (getaddrinfo : ℕ → List ℕ → Option (List ℕ)) (inet_ntop : ℕ → List ℕ → List ℕ) where
  -- The address stored through `aSockaddr`; without one the result is NULL, and else `ipAddress`.
  unfoldable pub get_ip_address46 : List ℕ → ℕ → Statics → Option (List ℕ) × Statics
  get_ip_address46 host family s = elim (getaddrinfo family host) [
    | none ↦ (none, s)
    | some found ↦
        let bytes = take (address_len family) found in
        (some bytes, record s { ip_address = overwrite bytes s.ip_address })
  ]

  unfoldable pub gethostbyname4 : List ℕ → Statics → Option (List ℕ) × Statics
  unfolding get_ip_address46
  gethostbyname4 host s = get_ip_address46 host af_inet s

  unfoldable pub gethostbyname6 : List ℕ → Statics → Option (List ℕ) × Statics
  unfolding get_ip_address46
  gethostbyname6 host s = get_ip_address46 host af_inet6 s

  -- The argument is what the pointer points to, or `none` for NULL.
  unfoldable pub get_ip_address_string46 : Option (List ℕ) → ℕ → Statics → List ℕ × Statics
  get_ip_address_string46 none family s = (not_found, record s { ip_string46 = not_found })
  get_ip_address_string46 (some array) family s =
      let text = inet_ntop family (take (address_len family) array) in
      (text, record s { ip_string46 = text })

  unfoldable pub get_ip_address_string4 : Option (List ℕ) → Statics → List ℕ × Statics
  unfolding get_ip_address_string46
  get_ip_address_string4 array s = get_ip_address_string46 array af_inet s

  unfoldable pub get_ip_address_string6 : Option (List ℕ) → Statics → List ℕ × Statics
  unfolding get_ip_address_string46
  get_ip_address_string6 array s = get_ip_address_string46 array af_inet6 s

  -- The address of a socket, given by its bytes.
  unfoldable pub ip_address_to_string : List ℕ → Statics → List ℕ × Statics
  ip_address_to_string sin6_addr s =
      let text = inet_ntop af_inet6 (take 16 sin6_addr) in (text, record s { ip_string = text })

  -- The text and the port that are printed.
  unfoldable pub print_ip_info : List ℕ → ℕ → Statics → (List ℕ × ℕ) × Statics
  unfolding ip_address_to_string ntohs
  print_ip_info sin6_addr sin6_port s =
      let (text, s') = ip_address_to_string sin6_addr s in ((text, ntohs sin6_port), s')

  -- The line that `gethostbyname_test_lookup` prints for a family, if the name was found: the text of
  -- the bytes in `ipAddress`.
  unfoldable pub print_found : ℕ → Option (List ℕ) × Statics → List (ℕ × List ℕ) × Statics
  unfolding get_ip_address_string46
  print_found family (none, s) = ([], s)
  print_found family (some address, s) =
      let (text, s') = get_ip_address_string46 (some s.ip_address) family s in
      ((family, text) ∷ [], s')

  unfoldable pub gethostbyname_test_lookup : List ℕ → Statics → List (ℕ × List ℕ) × Statics
  unfolding gethostbyname4 gethostbyname6 print_found
  gethostbyname_test_lookup host s =
      let (line6, s6) = print_found af_inet6 (gethostbyname6 host s) in
      let (line4, s4) = print_found af_inet (gethostbyname4 host s6) in (line6 ++ line4, s4)

  unfoldable pub gethostbyname_test : Statics → List (ℕ × List ℕ) × Statics
  unfolding gethostbyname_test_lookup
  gethostbyname_test s =
      let (lines1, s1) = gethostbyname_test_lookup www_google s in
      let (lines2, s2) = gethostbyname_test_lookup ipv6_google s1 in
      let (lines3, s3) = gethostbyname_test_lookup my_calpoly s2 in
      let (lines4, s4) = gethostbyname_test_lookup missing_host s3 in
      (lines1 ++ (lines2 ++ (lines3 ++ lines4)), s4)
