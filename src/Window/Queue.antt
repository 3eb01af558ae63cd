-- ===== src/Window/Queue.antt =====
-- A bounded queue of PDUs, oldest first: the abstract view of window.c.
use cpe_464_proj.Base.{
  ℕ, ◌-◌, List, [], ◌∷◌, ◌++◌, Option, none, some, Bool, true, false, ◌&&◌, length, get_elem?, drop,
  ltb, leb, if◌then◌else◌,
}
use cpe_464_proj.Checksum.Interface.{max_pdu_size}

abbrev pub Queue : Type 0
Queue = List (List ℕ)

-- A PDU of an allowed length is taken at the end, if there is room.
unfoldable pub push : ℕ → Queue → List ℕ → Bool × Queue
push size q pdu =
    if ltb (length q) size && ltb 0 (length pdu) && leb (length pdu) max_pdu_size
    then (true, q ++ (pdu ∷ []))
    else (false, q)

-- All PDUs before the number `rr` are acknowledged, where the oldest has the number `lower`.
unfoldable pub acknowledge : ℕ → ℕ → Queue → Queue
acknowledge lower rr q = drop (rr - lower) q

-- The PDU of a sequence number.
unfoldable pub find : ℕ → ℕ → Queue → Option (List ℕ)
find lower seq q = if ltb seq lower then none else get_elem? q (seq - lower)

-- The oldest PDU, with its number.
unfoldable pub oldest : ℕ → Queue → Option (ℕ × List ℕ)
oldest lower [] = none
oldest lower (pdu ∷ q) = some (lower, pdu)
