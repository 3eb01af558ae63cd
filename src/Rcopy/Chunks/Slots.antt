-- ===== src/Rcopy/Chunks/Slots.antt =====
-- The window operations that rcopy.c calls, on slots with data PDUs.
use cpe_464_proj.Base.{
  ℕ, zero, suc, ◌+◌, ◌-◌, ◌≡◌, refl, List, Option, none, some, true, false, ◌&&◌, ◌||◌, arith, All,
  All-set, All-get_or, ◌==◌, ltb, leb, if◌then◌else◌, Bool-cases, inl, inr,
}
use cpe_464_proj.Window.{
  Window, WindowPacket, blank, slot, deactivate, process_rr, take_packet, get_window_packet,
  process_srej, get_lowest_window_packet,
}
use cpe_464_proj.Client.{ReadResult, lowest_pdu}
use cpe_464_proj.Rcopy.Chunks.{IsData, HoldsChunk}

module _ (in_cksum : List ℕ → ℕ → ℕ) (input : List ReadResult) (n : ℕ) where
  abbrev pub SlotsHold : List WindowPacket → Type 0
  SlotsHold ps = All (HoldsChunk in_cksum input n) ps

  inactive : (p : WindowPacket) → p.active ≡ false → HoldsChunk in_cksum input n p
  inactive p e = record { early = λ a. absurd (cc); content = λ a. absurd (cc) }

  deactivate-SlotsHold :
      (size count seq : ℕ) (ps : List WindowPacket)
      → SlotsHold ps
      → SlotsHold (deactivate size count seq ps)
  unfolding deactivate
  deactivate-SlotsHold size zero seq ps h = h
  deactivate-SlotsHold size (suc count) seq ps h =
      deactivate-SlotsHold size count (seq + 1) _ (All-set _ ps _ _ h (inactive _ refl))

  pub process_rr-SlotsHold :
      (w : Window) (rr : ℕ) → SlotsHold w.packets → SlotsHold (process_rr w rr).packets
  unfolding process_rr
  process_rr-SlotsHold w rr h = elim (Bool-cases (leb rr w.lower)) [
    | inl stale ↦ rw stale h
    | inr new ↦ rw new (
        deactivate-SlotsHold w.window_size ((if ltb w.current rr then w.current else rr) - w.lower)
          w.lower w.packets h)
  ]

  -- What the window gives out, if anything, is a data PDU.
  abbrev pub GivesData : Option (List ℕ) → Type 0
  GivesData none = Unit
  GivesData (some pdu) = IsData in_cksum input n (some pdu)

  take_packet-GivesData :
      (p : WindowPacket) (seq : ℕ) → HoldsChunk in_cksum input n p → GivesData (take_packet p seq)
  unfolding take_packet
  take_packet-GivesData p seq h = elim (Bool-cases (p.active && p.seq_num == seq)) [
    | inr other ↦ rw other tt
    | inl found ↦
        let active : p.active ≡ true = ground arith in
        rw found (record { index = p.seq_num; before = h.early active; made = h.content active })
  ]

  pub get_window_packet-GivesData :
      (w : Window) (seq : ℕ) → SlotsHold w.packets → GivesData (get_window_packet w seq)
  unfolding get_window_packet
  get_window_packet-GivesData w seq h = elim (Bool-cases (ltb seq w.lower || leb w.current seq)) [
    | inl out ↦ rw out tt
    | inr inside ↦ rw inside (
        take_packet-GivesData (slot w seq) seq
          (All-get_or _ w.packets _ blank h (inactive blank refl)))
  ]

  pub process_srej-GivesData :
      (w : Window) (seq : ℕ) → SlotsHold w.packets → GivesData (process_srej w seq)
  unfolding process_srej
  process_srej-GivesData w seq h = elim (Bool-cases (ltb seq w.lower || leb w.current seq)) [
    | inl out ↦ rw out tt
    | inr inside ↦ rw inside (get_window_packet-GivesData w seq h)
  ]

  lowest_pdu-GivesData :
      (o : Option (List ℕ)) (seq : ℕ)
      → GivesData o
      → GivesData (lowest_pdu (elim o [ none ↦ none | some pdu ↦ some (seq, pdu) ]))
  unfolding lowest_pdu
  lowest_pdu-GivesData none seq h = tt
  lowest_pdu-GivesData (some pdu) seq h = h

  pub get_lowest-GivesData :
      (w : Window) → SlotsHold w.packets → GivesData (lowest_pdu (get_lowest_window_packet w))
  unfolding get_lowest_window_packet lowest_pdu
  get_lowest-GivesData w h = elim (Bool-cases (w.lower == w.current)) [
    | inl empty ↦ rw empty tt
    | inr more ↦ rw more (lowest_pdu-GivesData _ w.lower (get_window_packet-GivesData w w.lower h))
  ]
