-- ===== src/Window/Refine.antt =====
-- window.c against the queue of the outstanding PDUs, in which a PDU is found by its distance from
-- the lower edge.
use cpe_464_proj.Base.{
  ℕ, zero, suc, ◌+◌, ◌-◌, ◌≤◌, ◌<◌, ◌≡◌, refl, sym, ap, ap₂, ◌∙◌, List, [], ◌∷◌, ◌++◌, none, some,
  ◌||◌, arith, length, get_elem?, take, take_all, drop, ltb, leb, ◌==◌, Bool-cases, inl, inr,
}
use cpe_464_proj.Window.{
  is_window_open, is_window_empty, Window, WindowPacket, slot, window_set_up, window_add_packet,
  store_packet, slide, process_rr, get_window_packet, get_lowest_window_packet, take_packet,
  process_srej,
}
use cpe_464_proj.Window.Queue.{push, acknowledge, find, oldest}
use cpe_464_proj.Window.Valid.{
  IsValid, Holds, get_or-deactivate, slot-store_packet_self, slot-store_packet_ne,
}

-- The PDU of a slot.
abbrev pub pdu_of : WindowPacket → List ℕ
pdu_of p = take p.pdu_len p.pdu

-- The PDUs of `count` sequence numbers from `seq` on.
abbrev pub outstanding_from : Window → ℕ → ℕ → List (List ℕ)
outstanding_from w seq zero = []
outstanding_from w seq (suc count) = pdu_of (slot w seq) ∷ outstanding_from w (suc seq) count

-- The PDUs that were sent and not yet acknowledged.
abbrev pub outstanding : Window → List (List ℕ)
outstanding w = outstanding_from w w.lower (w.current - w.lower)

length-outstanding_from :
    (w : Window) (seq count : ℕ) → length (outstanding_from w seq count) ≡ count
length-outstanding_from w seq zero = refl
length-outstanding_from w seq (suc count) = ap suc (length-outstanding_from w (suc seq) count)

-- Windows with the same PDUs in a range of slots have the same PDUs outstanding there.
outstanding_from-ext :
    (w x : Window) (seq count : ℕ)
    → ((i : ℕ) → seq ≤ i → i < seq + count → pdu_of (slot w i) ≡ pdu_of (slot x i))
    → outstanding_from w seq count ≡ outstanding_from x seq count
outstanding_from-ext w x seq zero h = refl
outstanding_from-ext w x seq (suc count) h =
    ap₂ (λ p ps. p ∷ ps) (h seq (omega arith) (omega arith))
      (outstanding_from-ext w x (suc seq) count (λ i l u. h i (omega arith) (omega arith)))

outstanding_from-suc :
    (w : Window) (seq count : ℕ)
    → outstanding_from w seq (suc count)
      ≡ outstanding_from w seq count ++ (pdu_of (slot w (seq + count)) ∷ [])
outstanding_from-suc w seq zero = ap (λ i. pdu_of (slot w i) ∷ []) (omega arith)
outstanding_from-suc w seq (suc count) =
    ap (λ ps. pdu_of (slot w seq) ∷ ps)
      (outstanding_from-suc w (suc seq) count
        ∙ ap (λ i. outstanding_from w (suc seq) count ++ (pdu_of (slot w i) ∷ [])) (omega arith))

drop-outstanding_from :
    (w : Window) (n seq count : ℕ)
    → drop n (outstanding_from w seq count) ≡ outstanding_from w (seq + n) (count - n)
drop-outstanding_from w zero seq count = ap₂ (outstanding_from w) (omega arith) (omega arith)
drop-outstanding_from w (suc n) seq zero =
    ap (outstanding_from w (seq + suc n)) {x = 0} {y = 0 - suc n} (omega arith)
drop-outstanding_from w (suc n) seq (suc count) =
    drop-outstanding_from w n (suc seq) count ∙ ap₂ (outstanding_from w) (omega arith) (omega arith)

get_elem?-outstanding_from :
    (w : Window) (i seq count : ℕ)
    → i < count
    → get_elem? (outstanding_from w seq count) i ≡ some (pdu_of (slot w (seq + i)))
get_elem?-outstanding_from w i seq zero h = absurd (omega arith)
get_elem?-outstanding_from w zero seq (suc count) h =
    ap (λ j. some (pdu_of (slot w j))) (omega arith)
get_elem?-outstanding_from w (suc i) seq (suc count) h =
    get_elem?-outstanding_from w i (suc seq) count (omega arith)
    ∙ ap (λ j. some (pdu_of (slot w j))) (omega arith)

length-outstanding : (w : Window) → length (outstanding w) ≡ w.current - w.lower
length-outstanding w = length-outstanding_from w w.lower (w.current - w.lower)

get_elem?_past : (q : List (List ℕ)) (i : ℕ) → length q ≤ i → get_elem? q i ≡ none
get_elem?_past [] i h = refl
get_elem?_past (p ∷ q) zero h = absurd (omega arith)
get_elem?_past (p ∷ q) (suc i) h = get_elem?_past q i (omega arith)

-- A new window has nothing outstanding.
pub window_set_up-outstanding : (size : ℕ) → outstanding (window_set_up size) ≡ []
unfolding window_set_up
window_set_up-outstanding size = refl

outstanding-store_packet :
    (w : Window) (pdu : List ℕ)
    → IsValid w
    → w.current < w.upper
    → outstanding (store_packet w pdu) ≡ outstanding w ++ (pdu ∷ [])
outstanding-store_packet w pdu v open' =
    ap (outstanding_from (store_packet w pdu) w.lower) {y = suc (w.current - w.lower)}
      (omega (arith, v.top, v.no_wrap, v.ordered))
    ∙ outstanding_from-suc (store_packet w pdu) w.lower (w.current - w.lower)
    ∙ ap₂ ◌++◌ same last
  where
    same : outstanding_from (store_packet w pdu) w.lower (w.current - w.lower) ≡ outstanding w
    same =
        outstanding_from-ext (store_packet w pdu) w w.lower (w.current - w.lower)
          λ i l u. ap pdu_of (slot-store_packet_ne w pdu i v open' l (omega (arith, v.ordered)))

    edge : w.lower + (w.current - w.lower) ≡ w.current
    edge = omega (arith, v.ordered)

    last : (pdu_of (slot (store_packet w pdu) (w.lower + (w.current - w.lower))) ∷ []) ≡ pdu ∷ []
    last =
        ap (λ p. p ∷ [])
          (ap (λ i. pdu_of (slot (store_packet w pdu) i)) edge
            ∙ ap pdu_of (slot-store_packet_self w pdu v)
            ∙ take_all (length pdu) pdu (omega arith))

-- On a valid window windowAddPacket answers as a bounded queue of PDUs does: it takes a PDU of 1 to
-- 1407 bytes at the end if there is room, and refuses it otherwise, leaving the queue.
pub window_add_packet_refines :
    (w : Window) (pdu : List ℕ)
    → IsValid w
    → let (taken, w') = window_add_packet w (some pdu) in
      (taken, outstanding w') ≡ push w.window_size (outstanding w) pdu
unfolding window_add_packet push
window_add_packet_refines w pdu v =
    ground (arith, length-outstanding w, v.top, v.ordered, outstanding-store_packet w pdu v)

outstanding-slide :
    (w : Window) (rr : ℕ)
    → IsValid w
    → w.lower ≤ rr
    → rr ≤ w.current
    → outstanding (slide w rr) ≡ drop (rr - w.lower) (outstanding w)
outstanding-slide w rr v lo hi =
    outstanding_from-ext (slide w rr) w rr (w.current - rr) (λ i l u. ap pdu_of (
      get_or-deactivate w.window_size (rr - w.lower) w.lower i w.packets (omega arith)
        (omega (arith, v.bounded))))
    ∙ ap₂ (outstanding_from w) (omega arith) (omega arith)
    ∙ sym (drop-outstanding_from w (rr - w.lower) w.lower (w.current - w.lower))

drop_past : (n m : ℕ) (q : List (List ℕ)) → length q ≤ n → length q ≤ m → drop n q ≡ drop m q
drop_past zero zero [] h k = refl
drop_past zero (suc m) [] h k = refl
drop_past (suc n) zero [] h k = refl
drop_past (suc n) (suc m) [] h k = refl
drop_past zero m (p ∷ q) h k = absurd (omega arith)
drop_past (suc n) zero (p ∷ q) h k = absurd (omega arith)
drop_past (suc n) (suc m) (p ∷ q) h k = drop_past n m q (omega arith) (omega arith)

-- On a valid window processRR takes exactly the PDUs before the RR number off the front of the
-- queue of outstanding PDUs; an old number changes nothing and a number never sent acknowledges
-- everything.
pub process_rr_refines :
    (w : Window) (rr : ℕ)
    → IsValid w
    → outstanding (process_rr w rr) ≡ acknowledge w.lower rr (outstanding w)
unfolding process_rr acknowledge
process_rr_refines w rr v = elim (Bool-cases (leb rr w.lower)) [
  | inl stale ↦ let zero_rr : rr - w.lower ≡ 0 = ground arith in rw (stale, zero_rr)
  | inr new ↦ elim (Bool-cases (ltb w.current rr)) [
    | inl beyond ↦
        rw (new, beyond)
          (outstanding-slide w w.current v v.ordered (omega arith)
            ∙ drop_past (w.current - w.lower) (rr - w.lower) (outstanding w)
                (omega (arith, length-outstanding w)) (ground (arith, length-outstanding w)))
    | inr within ↦ rw (new, within) (outstanding-slide w rr v (ground arith) (ground arith))
  ]
]

take_packet-Holds : (seq : ℕ) (p : WindowPacket) → Holds seq p → take_packet p seq ≡ some (pdu_of p)
unfolding take_packet
take_packet-Holds seq p h = ground (arith, h.is_active, h.is_seq)

-- `getWindowPacket` finds exactly the outstanding PDUs, each under its own sequence number.
pub get_window_packet_refines :
    (w : Window) (seq : ℕ) → IsValid w → get_window_packet w seq ≡ find w.lower seq (outstanding w)
unfolding get_window_packet find
get_window_packet_refines w seq v = elim (Bool-cases (ltb seq w.lower)) [
  | inl below ↦ rw below
  | inr above ↦ elim (Bool-cases (leb w.current seq)) [
    | inl past ↦
        rw (above, past)
          (sym
            (get_elem?_past (outstanding w) (seq - w.lower) (ground (arith, length-outstanding w))))
    | inr within ↦
        let lower_le : w.lower ≤ seq = ground arith in
        let lt_current : seq < w.current = ground arith in
        let there : w.lower + (seq - w.lower) ≡ seq = omega arith in
        rw (above, within)
          (take_packet-Holds seq (slot w seq) (v.held seq lower_le lt_current)
            ∙ sym (
                get_elem?-outstanding_from w (seq - w.lower) w.lower (w.current - w.lower)
                  (omega arith)
                ∙ ap (λ i. some (pdu_of (slot w i))) there))
  ]
]

process_srej-get_window_packet :
    (w : Window) (seq : ℕ) → process_srej w seq ≡ get_window_packet w seq
unfolding process_srej get_window_packet
process_srej-get_window_packet w seq = elim (Bool-cases (ltb seq w.lower || leb w.current seq)) [
  | inl out ↦ rw out
  | inr inside ↦ rw inside
]

-- On a valid window processSREJ gives exactly the outstanding PDU with the number asked for, and
-- nothing for a number that is acknowledged or was never sent.
pub process_srej_refines :
    (w : Window) (seq : ℕ) → IsValid w → process_srej w seq ≡ find w.lower seq (outstanding w)
process_srej_refines w seq v =
    process_srej-get_window_packet w seq ∙ get_window_packet_refines w seq v

oldest-find :
    (lower : ℕ) (q : List (List ℕ))
    → elim (find lower lower q) [ none ↦ none | some pdu ↦ some (lower, pdu) ] ≡ oldest lower q
unfolding find oldest
oldest-find lower [] = ground arith
oldest-find lower (p ∷ q) = let first : lower - lower ≡ 0 = omega arith in rw first (ground arith)

-- On a valid window getLowestWindowPacket gives the oldest outstanding PDU with its number, and
-- fails exactly for an empty window.
pub get_lowest_window_packet_refines :
    (w : Window) → IsValid w → get_lowest_window_packet w ≡ oldest w.lower (outstanding w)
unfolding get_lowest_window_packet oldest
get_lowest_window_packet_refines w v = elim (Bool-cases (w.lower == w.current)) [
  | inl empty ↦ let count : w.current - w.lower ≡ 0 = ground arith in rw (empty, count)
  | inr more ↦
      rw (more, get_window_packet_refines w w.lower v) (oldest-find w.lower (outstanding w))
]

-- On a valid window isWindowOpen says whether fewer PDUs than the window size are outstanding, and
-- isWindowEmpty whether none is.
is_window_open-is_window_empty :
    (w : Window)
    → IsValid w
    → (is_window_open w ≡ ltb (length (outstanding w)) w.window_size)
      × (is_window_empty w ≡ (length (outstanding w) == 0))
unfolding is_window_open is_window_empty
is_window_open-is_window_empty w v =
    let count = length-outstanding w in
    (ground (arith, count, v.top, v.ordered), ground (arith, count, v.ordered))
