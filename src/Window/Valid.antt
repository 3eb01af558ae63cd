-- ===== src/Window/Valid.antt =====
-- The invariant of the sender's window: `lower ≤ current ≤ lower + windowSize`, and each sequence
-- number in between is held by its own slot.
use cpe_464_proj.Base.{
  ℕ, zero, suc, ◌+◌, ◌-◌, ◌/◌, ◌%◌, ◌≤◌, ◌<◌, ◌≡◌, refl, sym, ◌∙◌, ◌≢◌, List, Option, none, some,
  true, arith, subst, dec_lt, ℕ_discrete, length, get_or, ltb, leb, u32_mod, length-set,
  length-replicate, get_or-set_self, get_or-set_ne, Bool-cases, inl, inr,
}
use native.Mathlib.Nat.{mod-lt, div-add-mod, mul-le-mul_left}
use cpe_464_proj.Checksum.Interface.{max_pdu_size}
use cpe_464_proj.Window.{
  Window, WindowPacket, blank, slot, window_set_up, window_add_packet, store_packet, deactivate,
  slide, process_rr,
}

-- The slot of an outstanding PDU.
pub record Holds (seq : ℕ) (p : WindowPacket) : Type 0 where
  pub is_active : p.active ≡ true
  pub is_seq : p.seq_num ≡ seq
  pub not_empty : 0 < p.pdu_len
  pub fits : p.pdu_len ≤ max_pdu_size
  pub whole : length p.pdu ≡ p.pdu_len

pub record IsValid (w : Window) : Type 0 where
  pub sized : length w.packets ≡ w.window_size
  pub positive : 0 < w.window_size
  pub ordered : w.lower ≤ w.current
  pub bounded : w.current ≤ w.lower + w.window_size
  pub top : w.upper ≡ w.lower + w.window_size
  pub no_wrap : w.upper < u32_mod
  pub held : (seq : ℕ) → w.lower ≤ seq → seq < w.current → Holds seq (slot w seq)

-- Two sequence numbers less than a window apart do not share a slot.
pub mod-ne : (a b n : ℕ) → a < b → b < a + n → a % n ≢ b % n
mod-ne a b n h k e = elim (dec_lt (a / n) (b / n)) [
  | yes less ↦ grind (arith, div-add-mod a n, div-add-mod b n, mul-le-mul_left n less)
  | no not_less ↦
      let least : b / n ≤ a / n = omega arith in
      omega (arith, div-add-mod a n, div-add-mod b n, mul-le-mul_left n least)
]

pub length-deactivate :
    (n count seq : ℕ) (ps : List WindowPacket) → length (deactivate n count seq ps) ≡ length ps
unfolding deactivate
length-deactivate n zero seq ps = refl
length-deactivate n (suc count) seq ps =
    length-deactivate n count (seq + 1) _ ∙ length-set ps (seq % n) _

-- `processRR` leaves the slots alone that are not acknowledged.
pub get_or-deactivate :
    (n count seq j : ℕ) (ps : List WindowPacket)
    → seq + count ≤ j
    → j < seq + n
    → get_or (deactivate n count seq ps) (j % n) blank ≡ get_or ps (j % n) blank
unfolding deactivate
get_or-deactivate n zero seq j ps h k = refl
get_or-deactivate n (suc count) seq j ps h k =
    get_or-deactivate n count (seq + 1) j _ (omega arith) (omega arith)
    ∙ get_or-set_ne ps (seq % n) (j % n) _ blank (mod-ne seq j n (omega arith) k)

-- A new window is valid: its size is positive and fits in 32 bits.
pub window_set_up-IsValid : (size : ℕ) → 0 < size → size < u32_mod → IsValid (window_set_up size)
unfolding window_set_up
window_set_up-IsValid size h k = record {
  sized = length-replicate size blank;
  positive = h;
  ordered = omega arith;
  bounded = omega arith;
  top = omega arith;
  no_wrap = k;
  held = λ seq l u. absurd (omega arith);
}

-- The slot that `windowAddPacket` writes, and those that it leaves alone.
pub slot-store_packet_self :
    (w : Window) (pdu : List ℕ)
    → IsValid w
    → slot (store_packet w pdu) w.current
      ≡ record { seq_num = w.current; pdu_len = length pdu; active = true; pdu = pdu }
slot-store_packet_self w pdu v =
    get_or-set_self w.packets (w.current % w.window_size) _ blank
      (rw v.sized (mod-lt w.current v.positive))

pub slot-store_packet_ne :
    (w : Window) (pdu : List ℕ) (seq : ℕ)
    → IsValid w
    → w.current < w.upper
    → w.lower ≤ seq
    → seq < w.current
    → slot (store_packet w pdu) seq ≡ slot w seq
slot-store_packet_ne w pdu seq v open' l u =
    get_or-set_ne w.packets (w.current % w.window_size) (seq % w.window_size) _ blank
      (λ e. mod-ne seq w.current w.window_size u (omega (arith, v.top)) (sym e))

store_packet-IsValid :
    (w : Window) (pdu : List ℕ)
    → IsValid w
    → w.current < w.upper
    → 0 < length pdu
    → length pdu ≤ max_pdu_size
    → IsValid (store_packet w pdu)
store_packet-IsValid w pdu v open' pos fits = record {
  sized = length-set w.packets _ _ ∙ v.sized;
  positive = v.positive;
  ordered = omega (arith, v.ordered, v.top, v.no_wrap);
  bounded = omega (arith, v.top, v.no_wrap);
  top = v.top;
  no_wrap = v.no_wrap;
  held = λ seq l u. elim (ℕ_discrete seq w.current) [
    | yes e ↦
        rw (e, slot-store_packet_self w pdu v)
          (record { is_active = refl; is_seq = refl; not_empty = pos; fits = fits; whole = refl })
    | no ne ↦
        let before : seq < w.current = omega (arith, v.top, v.no_wrap) in
        rw (slot-store_packet_ne w pdu seq v open' l before) (v.held seq l before)
  ];
}

slide-IsValid :
    (w : Window) (rr : ℕ)
    → IsValid w
    → w.lower ≤ rr
    → rr ≤ w.current
    → rr + w.window_size < u32_mod
    → IsValid (slide w rr)
slide-IsValid w rr v lo hi fits = record {
  sized = length-deactivate w.window_size _ w.lower w.packets ∙ v.sized;
  positive = v.positive;
  ordered = hi;
  bounded = omega (arith, v.bounded);
  top = omega arith;
  no_wrap = omega arith;
  held = λ seq l u.
      subst (Holds seq)
        (sym (
          get_or-deactivate w.window_size (rr - w.lower) w.lower seq w.packets (omega arith)
            (omega (arith, v.bounded))))
        (v.held seq (omega arith) u);
}

-- windowAddPacket keeps the window valid, whether it takes the PDU or refuses it: lower <= current
-- <= lower + windowSize, and each outstanding number held by its own slot.
pub window_add_packet-IsValid :
    (w : Window) (pdu : Option (List ℕ)) → IsValid w → IsValid (window_add_packet w pdu).1
unfolding window_add_packet
window_add_packet-IsValid w none v = v
window_add_packet-IsValid w (some pdu) v = ground (arith, store_packet-IsValid w pdu v)

-- processRR keeps the window valid for any RR number, stale ones and ones never sent included, as
-- long as current plus the window size is below 2^32.
pub process_rr-IsValid :
    (w : Window) (rr : ℕ)
    → IsValid w
    → w.current + w.window_size < u32_mod
    → IsValid (process_rr w rr)
unfolding process_rr
process_rr-IsValid w rr v fits = elim (Bool-cases (leb rr w.lower)) [
  | inl stale ↦ rw stale v
  | inr new ↦ elim (Bool-cases (ltb w.current rr)) [
    | inl beyond ↦ rw (new, beyond) (slide-IsValid w w.current v v.ordered (omega arith) fits)
    | inr within ↦
        rw (new, within) (slide-IsValid w rr v (ground arith) (ground arith) (ground arith))
  ]
]
