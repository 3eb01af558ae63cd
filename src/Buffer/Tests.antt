-- ===== src/Buffer/Tests.antt =====
-- Runs of the receiver with two chunks that come in the wrong order, and its theorems there.
use cpe_464_proj.Base.{
  ℕ, zero, suc, ◌≡◌, ◌≤◌, ◌≢◌, subst, if◌then◌else◌, leb, refl, List, [], ◌∷◌, arith, true, false,
  All, pos, ◌<◌, inl, inr, ltb, ◌⊎◌,
}
use cpe_464_proj.Checksum.{in_cksum}
use cpe_464_proj.Pdu.{
  Datagram, validate_checksum, get_flag, get_sequence_num, get_payload_len, create_pdu,
  get_control_seq_num,
}
use cpe_464_proj.Buffer.{
  Receiver, buffering, inorder, empty_entry, flushing, buffer_init, buffer_process_pdu, flush_loop,
  flush_step, is_ready,
}
use cpe_464_proj.Buffer.Flush.{flush_loop_complete}
use cpe_464_proj.Buffer.Repair.{HoldsRun, is_held, gap_repaired}
use cpe_464_proj.Buffer.Faults.{IsWhole, no_faults}
use cpe_464_proj.Buffer.Short.{short_datagram_faults}
use cpe_464_proj.Buffer.Asks.{count_srej}
use cpe_464_proj.Buffer.Asks.Once.{asked_once}
use cpe_464_proj.Buffer.Settled.{IsNumbered}
use cpe_464_proj.Buffer.Settled.Calls.{nothing_withheld}
use cpe_464_proj.Buffer.Delivery.{process_all, stream, IsGenuine}
use cpe_464_proj.Buffer.Delivery.InOrder.{written_in_order}
use cpe_464_proj.Buffer.Keeps.Complete.{InWindow, Arrived, file_written_whole}

-- A file of two chunks of one byte each.
abbrev chunk : ℕ → List ℕ
chunk zero = 104 ∷ []
chunk (suc n) = 105 ∷ []

abbrev packet_0 : Datagram
packet_0 = record { pdu = 0 ∷ 0 ∷ 0 ∷ 0 ∷ 252 ∷ 151 ∷ 3 ∷ 104 ∷ []; pdu_len = 8 }

abbrev packet_1 : Datagram
packet_1 = record { pdu = 0 ∷ 0 ∷ 0 ∷ 1 ∷ 252 ∷ 149 ∷ 3 ∷ 105 ∷ []; pdu_len = 8 }

-- `packet_0` with a byte changed on the way.
abbrev damaged : Datagram
damaged = record { pdu = 0 ∷ 0 ∷ 0 ∷ 0 ∷ 252 ∷ 151 ∷ 3 ∷ 106 ∷ []; pdu_len = 8 }

-- The damaged packet is dropped, packet 1 waits for packet 0, and both are written once.
abbrev arrivals : List Datagram
arrivals = packet_1 ∷ damaged ∷ packet_0 ∷ packet_1 ∷ []

writes_both : (process_all in_cksum (buffer_init 4) arrivals).written ≡ 104 ∷ 105 ∷ []
unfolding in_cksum buffer_init validate_checksum get_flag buffer_process_pdu get_sequence_num
    get_payload_len
writes_both = refl

arrivals-IsGenuine : All (IsGenuine chunk 2 in_cksum) arrivals
unfolding in_cksum validate_checksum get_flag get_sequence_num get_payload_len
arrivals-IsGenuine = (
  (λ _ _. (omega arith, refl)),
  (
    (λ good _. absurd (cc (good))),
    ((λ _ _. (omega arith, refl)), ((λ _ _. (omega arith, refl)), tt)),
  ),
)

written_in_order_example :
    (n : ℕ) × (n ≤ 2)
    × ((process_all in_cksum (buffer_init 4) arrivals).written ≡ stream chunk n)
    × ((process_all in_cksum (buffer_init 4) arrivals).expected ≡ n)
written_in_order_example =
    written_in_order chunk 2 in_cksum (omega arith) 4 arrivals arrivals-IsGenuine

-- A receiver that has written packet 0, with packet 1 in its slot.
abbrev held : Receiver
held = record (buffer_init 2) {
  buffer =
      record { seq_num = 0; data_len = pos 0; valid_flag = false; bytes = [] }
      ∷ record { seq_num = 1; data_len = pos 1; valid_flag = true; bytes = 105 ∷ [] }
      ∷ [];
  expected = 1;
  highest = 1;
  state = buffering;
}

flush_loop_complete_example : is_ready (flush_loop 2 held) ≡ false
flush_loop_complete_example = flush_loop_complete held

flush_loop_writes : (flush_loop 2 held).written ≡ 105 ∷ []
unfolding flush_loop is_ready flush_step buffer_init
flush_loop_writes = refl

arrivals-IsNumbered : All (IsNumbered 2 in_cksum) arrivals
unfolding in_cksum validate_checksum get_flag get_sequence_num
arrivals-IsNumbered = (
  (λ _ _. omega arith),
  ((λ good _. absurd (cc (good))), ((λ _ _. omega arith), ((λ _ _. omega arith), tt))),
)

nothing_withheld_example :
    let r = process_all in_cksum (buffer_init 4) arrivals in
    (is_ready r ≡ false) × (r.state ≢ flushing) × (r.expected ≤ 2)
nothing_withheld_example = nothing_withheld 2 in_cksum (omega arith) 4 arrivals arrivals-IsNumbered

asked_once_example :
    let r = process_all in_cksum (buffer_init 4) arrivals in
    (count_srej 0 r.sent ≤ (if ltb r.expected 0 then 0 else 1))
    × ((r.state ≡ inorder) ⊎ (count_srej r.expected r.sent ≡ 1))
asked_once_example = asked_once in_cksum 2 (omega arith) 4 0 arrivals arrivals-IsNumbered

-- While packet 1 waits for packet 0, there is one SREJ for that.
asked_for_packet_0 :
    count_srej 0 (process_all in_cksum (buffer_init 4) (packet_1 ∷ packet_1 ∷ [])).sent ≡ 1
unfolding in_cksum buffer_init validate_checksum get_flag buffer_process_pdu get_sequence_num
    get_payload_len create_pdu get_control_seq_num
asked_for_packet_0 = refl

arrivals-IsWhole : All (IsWhole in_cksum) arrivals
arrivals-IsWhole = (
  (λ _ _. omega arith),
  ((λ _ _. omega arith), ((λ _ _. omega arith), ((λ _ _. omega arith), tt))),
)

no_faults_example : (process_all in_cksum (buffer_init 4) arrivals).faulted ≡ false
no_faults_example = no_faults in_cksum 4 arrivals (omega arith) arrivals-IsWhole

-- Two bytes FF FF, in an array where the flag of an earlier data packet stands.
abbrev short : Datagram
short = record { pdu = 255 ∷ 255 ∷ 0 ∷ 0 ∷ 0 ∷ 0 ∷ 3 ∷ []; pdu_len = 2 }

short_validates : validate_checksum in_cksum short.pdu short.pdu_len ≡ true
unfolding validate_checksum in_cksum
short_validates = refl

short_datagram_faults_example : (buffer_process_pdu in_cksum (buffer_init 4) short).faulted ≡ true
unfolding get_flag get_sequence_num buffer_init
short_datagram_faults_example =
    short_datagram_faults in_cksum (buffer_init 4) short refl short_validates refl (omega arith)
      (omega arith)

-- Packet 1 is in the buffer, and packet 0 is due.
abbrev waiting : Receiver
waiting = record (buffer_init 4) {
  buffer =
      empty_entry
      ∷ record { seq_num = 1; data_len = pos 1; valid_flag = true; bytes = 105 ∷ [] }
      ∷ empty_entry
      ∷ empty_entry
      ∷ [];
  highest = 1;
  state = buffering;
}

waiting-HoldsRun : HoldsRun waiting 1 1
unfolding buffer_init
waiting-HoldsRun = record {
  run = λ i lo hi. let one : 1 ≡ i = omega arith in subst (λ j. is_held waiting j ≡ true) one refl;
  gap = refl;
}

packet_0_validates : validate_checksum in_cksum packet_0.pdu 8 ≡ true
unfolding validate_checksum in_cksum
packet_0_validates = refl

gap_repaired_example :
    let out = buffer_process_pdu in_cksum waiting packet_0 in
    (out.expected ≡ 2) × (out.state ≡ (if leb 2 1 then buffering else inorder))
unfolding get_flag get_sequence_num buffer_init
gap_repaired_example =
    gap_repaired in_cksum waiting packet_0 1 refl packet_0_validates refl refl refl (omega arith)
      (omega arith) waiting-HoldsRun

arrivals-InWindow : InWindow in_cksum (buffer_init 4) arrivals
unfolding in_cksum buffer_init validate_checksum get_flag buffer_process_pdu get_sequence_num
    get_payload_len
arrivals-InWindow = (
  (λ i p. omega (arith, p.2)),
  ((λ i p. omega (arith, p.2)), ((λ i p. omega (arith, p.2)), ((λ i p. omega (arith, p.2)), tt))),
)

both-Arrived : (i : ℕ) → i < 2 → Arrived in_cksum arrivals i
unfolding in_cksum validate_checksum get_flag get_sequence_num
both-Arrived zero h = (packet_0, inr (inr (inl refl)), (refl, refl, refl))
both-Arrived (suc zero) h = (packet_1, inl refl, (refl, refl, refl))
both-Arrived (suc (suc i)) h = absurd (omega arith)

file_written_whole_example :
    (process_all in_cksum (buffer_init 4) arrivals).written ≡ 104 ∷ 105 ∷ []
file_written_whole_example =
    file_written_whole in_cksum chunk 2 4 arrivals (omega arith) arrivals-IsGenuine
      arrivals-InWindow both-Arrived
