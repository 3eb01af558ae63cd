-- ===== src/Window/Tests.antt =====
-- Runs of the window, and its theorems at a window of two slots that has moved on.
use cpe_464_proj.Base.{◌≡◌, refl, subst, [], ◌∷◌, some, true, false, arith, Bool}
use cpe_464_proj.Window.{
  Window, window_set_up, window_add_packet, process_rr, process_srej, take_packet,
  get_window_packet, get_lowest_window_packet,
}
use cpe_464_proj.Window.Queue.{push, acknowledge, find, oldest}
use cpe_464_proj.Window.Valid.{
  IsValid, window_set_up-IsValid, window_add_packet-IsValid, process_rr-IsValid,
}
use cpe_464_proj.Window.Refine.{
  outstanding, window_add_packet_refines, process_rr_refines, process_srej_refines,
  get_lowest_window_packet_refines,
}

-- Two slots, with the PDUs 1 and 2 outstanding and number 0 acknowledged: PDU 2 lies in slot 0.
abbrev moved : Window
moved = record {
  packets =
      record { seq_num = 2; pdu_len = 2; active = true; pdu = 8 ∷ 9 ∷ [] }
      ∷ record { seq_num = 1; pdu_len = 1; active = true; pdu = 7 ∷ [] }
      ∷ [];
  window_size = 2;
  lower = 1;
  upper = 3;
  current = 3;
}

moved-reached :
    (window_add_packet
      (process_rr
        (window_add_packet
          (window_add_packet (window_set_up 2) (some (6 ∷ []))).1
          (some (7 ∷ []))).1
        1)
      (some (8 ∷ 9 ∷ [])))
    ≡ (true, moved)
unfolding window_add_packet process_rr window_set_up
moved-reached = refl

-- Each step keeps the window valid, from a new window on.
moved-IsValid : IsValid moved
unfolding window_add_packet process_rr window_set_up
moved-IsValid =
    subst (λ (x : Bool × Window). IsValid x.1) moved-reached
      (window_add_packet-IsValid _ (some (8 ∷ 9 ∷ [])) (
        process_rr-IsValid _ 1
          (window_add_packet-IsValid _ (some (7 ∷ [])) (
            window_add_packet-IsValid _ (some (6 ∷ []))
              (window_set_up-IsValid 2 (omega arith) (omega arith))))
          (omega arith)))

-- The window is full: the PDU is refused.
window_add_packet_refines_example :
    let (taken, w) = window_add_packet moved (some (5 ∷ [])) in
    (taken, outstanding w) ≡ push 2 ((7 ∷ []) ∷ (8 ∷ 9 ∷ []) ∷ []) (5 ∷ [])
window_add_packet_refines_example = window_add_packet_refines moved (5 ∷ []) moved-IsValid

full_window : push 2 ((7 ∷ []) ∷ (8 ∷ 9 ∷ []) ∷ []) (5 ∷ []) ≡ (false, (7 ∷ []) ∷ (8 ∷ 9 ∷ []) ∷ [])
unfolding push
full_window = refl

process_rr_refines_example :
    outstanding (process_rr moved 2) ≡ acknowledge 1 2 ((7 ∷ []) ∷ (8 ∷ 9 ∷ []) ∷ [])
process_rr_refines_example = process_rr_refines moved 2 moved-IsValid

acknowledged_rest : acknowledge 1 2 ((7 ∷ []) ∷ (8 ∷ 9 ∷ []) ∷ []) ≡ (8 ∷ 9 ∷ []) ∷ []
unfolding acknowledge
acknowledged_rest = refl

process_srej_refines_example : process_srej moved 2 ≡ find 1 2 ((7 ∷ []) ∷ (8 ∷ 9 ∷ []) ∷ [])
process_srej_refines_example = process_srej_refines moved 2 moved-IsValid

resent : process_srej moved 2 ≡ some (8 ∷ 9 ∷ [])
unfolding process_srej get_window_packet take_packet
resent = refl

get_lowest_window_packet_refines_example :
    get_lowest_window_packet moved ≡ oldest 1 ((7 ∷ []) ∷ (8 ∷ 9 ∷ []) ∷ [])
get_lowest_window_packet_refines_example = get_lowest_window_packet_refines moved moved-IsValid
