-- ===== src/Rcopy/Sends.antt =====
-- The PDUs that the client of rcopy.c hands to `sendtoErr`: their lengths.
pub mod Kept
pub mod Rounds
use cpe_464_proj.Base.{
  ℕ, zero, suc, ◌+◌, ◌-◌, ◌≤◌, ◌<◌, ◌≡◌, refl, sym, ap, subst, ◌%◌, List, [], ◌∷◌, ◌++◌, Option,
  none, some, Bool, true, false, arith, length, leb, ltb, ◌==◌, ◌&&◌, ◌||◌, if◌then◌else◌,
  Bool-cases, inl, inr, All, All-set, All-get_or, All-replicate, take, replicate, set, get_or,
  htonl_bytes,
}
use cpe_464_proj.Checksum.Interface.{max_pdu_size}
use cpe_464_proj.Pdu.{create_pdu, max_data_size}
use cpe_464_proj.Window.{
  WindowPacket, Window, is_window_open, blank, slot, window_set_up, window_add_packet, store_packet,
  take_packet, get_window_packet, get_lowest_window_packet, deactivate, slide, process_rr,
  process_srej,
}
use cpe_464_proj.Client.{RcopyInfo, resend, lowest_pdu}
use cpe_464_proj.Rcopy.{send_control_packet}
use cpe_464_proj.Rcopy.Chunks.{Fits}

-- Both branches have the property.
pub if-Keeps :
    {A : Type 0} → (P : A → Type 0) (c : Bool) (x y : A) → P x → P y → P (if c then x else y)
if-Keeps P true x y p q = p
if-Keeps P false x y p q = q

-- From 7 to 1407 bytes.
pub record HasPduLength (pdu : List ℕ) : Type 0 where
  pub header : 7 ≤ length pdu
  pub fits : length pdu ≤ 1407

-- The length that goes to `sendtoErr` is that of a PDU, so it is not the -1 of createPDU.
abbrev pub IsSendable : Option (List ℕ) → Type 0
IsSendable none = ⊥
IsSendable (some pdu) = HasPduLength pdu

-- What an active slot gives is a PDU.
abbrev IsLoaded : WindowPacket → Type 0
IsLoaded p = p.active ≡ true → HasPduLength (take p.pdu_len p.pdu)

abbrev pub AreLoaded : List WindowPacket → Type 0
AreLoaded packets = All IsLoaded packets

blank-IsLoaded : IsLoaded blank
blank-IsLoaded active = absurd (cc (active))

pub window_set_up-AreLoaded : (n : ℕ) → AreLoaded (window_set_up n).packets
unfolding window_set_up
window_set_up-AreLoaded n = All-replicate IsLoaded n blank blank-IsLoaded

pub create_pdu-IsSendable :
    (in_cksum : List ℕ → ℕ → ℕ) (seq flag : ℕ) (payload : List ℕ)
    → length payload ≤ max_data_size
    → IsSendable (create_pdu in_cksum seq flag payload)
unfolding create_pdu
create_pdu-IsSendable in_cksum seq flag payload fits =
    elim (Bool-cases (ltb max_data_size (length payload))) [
      | inl long ↦ absurd (ground (arith, long, fits))
      | inr short ↦ rw short (record { header = omega arith; fits = omega arith })
    ]

take-all : (xs : List ℕ) → take (length xs) xs ≡ xs
take-all [] = refl
take-all (x ∷ xs) = ap (λ ys. x ∷ ys) (take-all xs)

pub window_add_packet-AreLoaded :
    (w : Window) (pdu : Option (List ℕ))
    → IsSendable pdu
    → AreLoaded w.packets
    → AreLoaded (window_add_packet w pdu).1.packets
unfolding window_add_packet
window_add_packet-AreLoaded w none s h = absurd s
window_add_packet-AreLoaded w (some pdu) s h =
    if-Keeps (λ (out : Bool × Window). AreLoaded out.1.packets) (is_window_open w) _ (false, w)
      (if-Keeps (λ (out : Bool × Window). AreLoaded out.1.packets)
        (length pdu == 0 || ltb max_pdu_size (length pdu)) (false, w) (true, store_packet w pdu) h
        (All-set IsLoaded w.packets (w.current % w.window_size) _ h
          (λ active. subst HasPduLength (sym (take-all pdu)) s)))
      h

deactivate-AreLoaded :
    (window_size count seq : ℕ) (packets : List WindowPacket)
    → AreLoaded packets
    → AreLoaded (deactivate window_size count seq packets)
unfolding deactivate
deactivate-AreLoaded window_size zero seq packets h = h
deactivate-AreLoaded window_size (suc count) seq packets h =
    deactivate-AreLoaded window_size count (seq + 1) _
      (All-set IsLoaded packets (seq % window_size) _ h (λ active. absurd (cc (active))))

pub process_rr-AreLoaded :
    (w : Window) (rr : ℕ) → AreLoaded w.packets → AreLoaded (process_rr w rr).packets
unfolding process_rr
process_rr-AreLoaded w rr h =
    if-Keeps (λ (x : Window). AreLoaded x.packets) (leb rr w.lower) w _ h
      (deactivate-AreLoaded w.window_size ((if ltb w.current rr then w.current else rr) - w.lower)
        w.lower w.packets h)

-- What is taken out of the window to be sent again.
abbrev pub IsResendable : Option (List ℕ) → Type 0
IsResendable none = Unit
IsResendable (some pdu) = HasPduLength pdu

take_packet-IsResendable :
    (p : WindowPacket) (seq : ℕ) → IsLoaded p → IsResendable (take_packet p seq)
unfolding take_packet
take_packet-IsResendable p seq l = elim (Bool-cases p.active) [
  | inr idle ↦ rw idle tt
  | inl active ↦
      rw active
        (if-Keeps IsResendable (p.seq_num == seq) (some (take p.pdu_len p.pdu)) none (l active) tt)
]

get_window_packet-IsResendable :
    (w : Window) (seq : ℕ) → AreLoaded w.packets → IsResendable (get_window_packet w seq)
unfolding get_window_packet
get_window_packet-IsResendable w seq h = elim (Bool-cases (ltb seq w.lower || leb w.current seq)) [
  | inl out ↦ rw out tt
  | inr within ↦ rw within (
      take_packet-IsResendable (slot w seq) seq
        (All-get_or IsLoaded w.packets (seq % w.window_size) blank h blank-IsLoaded))
]

pub process_srej-IsResendable :
    (w : Window) (seq : ℕ) → AreLoaded w.packets → IsResendable (process_srej w seq)
unfolding process_srej
process_srej-IsResendable w seq h = elim (Bool-cases (ltb seq w.lower || leb w.current seq)) [
  | inl out ↦ rw out tt
  | inr within ↦ rw within (get_window_packet-IsResendable w seq h)
]

pub lowest_pdu-IsResendable :
    (w : Window) → AreLoaded w.packets → IsResendable (lowest_pdu (get_lowest_window_packet w))
unfolding lowest_pdu get_lowest_window_packet
lowest_pdu-IsResendable w h = elim (Bool-cases (w.lower == w.current)) [
  | inl empty ↦ rw empty tt
  | inr some_out ↦
      rw some_out (go (get_window_packet w w.lower) (get_window_packet-IsResendable w w.lower h))
]
  where
    go :
        (o : Option (List ℕ))
        → IsResendable o
        → IsResendable (lowest_pdu (elim o [ none ↦ none | some pdu ↦ some (w.lower, pdu) ]))
    go none r = tt
    go (some pdu) r = r
