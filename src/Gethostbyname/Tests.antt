-- ===== src/Gethostbyname/Tests.antt =====
-- Lookups with a fixed directory, and the theorems at them.
use cpe_464_proj.Base.{
  Bool, ℕ, ◌≡◌, refl, sym, ap, ◌∙◌, List, [], ◌∷◌, ◌++◌, Option, none, some, true, false, length,
  replicate, ◌==◌, if◌then◌else◌,
}
use cpe_464_proj.Networks.{af_inet6}
use cpe_464_proj.Gethostbyname.{
  Statics, af_inet, www_google, gethostbyname_test_lookup, get_ip_address_string46,
  get_ip_address_string4, not_found,
}
use cpe_464_proj.Gethostbyname.Shared.{GivesAddresses, test_lookup_prints_both}

-- 127.0.0.1, and ::1.
abbrev four : List ℕ
four = 127 ∷ 0 ∷ 0 ∷ 1 ∷ []

abbrev six : List ℕ
six = replicate 15 0 ++ (1 ∷ [])

abbrev directory : ℕ → List ℕ → Option (List ℕ)
directory family host = some (if family == af_inet then four else six)

-- A text that is the bytes themselves.
abbrev text_of : ℕ → List ℕ → List ℕ
text_of family bytes = bytes

abbrev statics : Statics
statics = record {
  ip_address = replicate 46 0;
  ip_string46 = replicate 46 0;
  ip_string = replicate 46 0;
}

directory-GivesAddresses : GivesAddresses directory text_of
directory-GivesAddresses family host address found =
    let same : (if family == af_inet then four else six) ≡ address = cc (found) in
    ap length (sym same) ∙ whole (family == af_inet)
  where
    whole : (c : Bool) → length (if c then four else six) ≡ (if c then 4 else 16)
    whole true = refl
    whole false = refl

null_address : (get_ip_address_string4 directory text_of none statics).0 ≡ not_found
unfolding get_ip_address_string4 get_ip_address_string46
null_address = refl

test_lookup_prints_both_example :
    (gethostbyname_test_lookup directory text_of www_google statics).0
    ≡ (af_inet6, six) ∷ (af_inet, four) ∷ []
test_lookup_prints_both_example =
    test_lookup_prints_both directory text_of www_google statics directory-GivesAddresses
