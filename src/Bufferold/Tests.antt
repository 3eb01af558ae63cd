-- ===== src/Bufferold/Tests.antt =====
-- Calls of the first reorder buffer, evaluated, and the theorems at them.
use cpe_464_proj.Base.{ℕ, ◌+◌, ◌≤◌, ◌≡◌, refl, List, [], ◌∷◌, some, true, false, arith, pos}
use cpe_464_proj.Buffer.Delivery.{stream}
use cpe_464_proj.Bufferold.{
  Buffer, buffer_set_up, failed, send_ignore, send_rr, send_srej, process_data, buffer_has_packet,
  buffer_write_slide, buffer_store_packet,
}
use cpe_464_proj.Bufferold.Slide.{buffer_write_slide_complete}
use cpe_464_proj.Bufferold.InOrder.{Arrival, process_all, process_data_in_order}
use cpe_464_proj.Bufferold.Answers.{IsSized, Answers, process_data-Answers}

-- The chunks "a", "b", "c", …
abbrev letter : ℕ → List ℕ
letter i = (97 + i) ∷ []

abbrev arrive : ℕ → Arrival
arrive i = record { seq = i; payload = letter i; len = pos 1 }

abbrev empty : Buffer
empty = buffer_set_up 4 (some 1 ∷ some 1 ∷ some 1 ∷ [])

-- Number 1 is early.
abbrev one_kept : Buffer
one_kept = (process_data empty 1 (letter 1) (pos 1)).1

early_answer : (process_data empty 1 (letter 1) (pos 1)).0 ≡ send_srej 1
unfolding process_data buffer_set_up buffer_store_packet buffer_has_packet
early_answer = refl

due_answer : (process_data one_kept 0 (letter 0) (pos 1)).0 ≡ send_rr 2
unfolding process_data buffer_set_up buffer_store_packet buffer_has_packet
due_answer = refl

outside_answer : (process_data empty 4 (letter 4) (pos 1)).0 ≡ send_ignore
unfolding process_data buffer_set_up
outside_answer = refl

-- A short write fails, and leaves its bytes in the file.
short_write :
    let out = process_data (buffer_set_up 4 (some 1 ∷ [])) 0 (97 ∷ 98 ∷ []) (pos 2) in
    (out.0 ≡ failed) × (out.1.written ≡ 97 ∷ []) × (out.1.lower ≡ 0)
unfolding process_data buffer_set_up
short_write = (refl, refl, refl)

empty-IsSized : IsSized empty
unfolding buffer_set_up
empty-IsSized = record { sized = refl; positive = omega arith }

process_data-Answers_example : Answers empty 1 (process_data empty 1 (letter 1) (pos 1))
process_data-Answers_example = process_data-Answers empty 1 (letter 1) (pos 1) empty-IsSized

abbrev arrivals : List Arrival
arrivals = arrive 1 ∷ arrive 0 ∷ arrive 0 ∷ arrive 2 ∷ []

all_written : (process_all empty arrivals).0 ≡ true
unfolding process_data buffer_set_up buffer_store_packet buffer_has_packet
all_written = refl

process_data_in_order_example :
    let out = (process_all empty arrivals).1 in
    (n : ℕ) × (n ≤ 3) × (out.lower ≡ n) × (out.written ≡ stream letter n)
process_data_in_order_example =
    process_data_in_order letter 3 4 (some 1 ∷ some 1 ∷ some 1 ∷ []) arrivals (omega arith)
      ((omega arith, refl), ((omega arith, refl), ((omega arith, refl), ((omega arith, refl), tt))))
      all_written

slides : (buffer_write_slide one_kept).0 ≡ true
unfolding buffer_write_slide process_data buffer_set_up buffer_store_packet buffer_has_packet
slides = refl

buffer_write_slide_complete_example :
    let out = (buffer_write_slide one_kept).1 in buffer_has_packet out out.lower ≡ false
buffer_write_slide_complete_example = buffer_write_slide_complete one_kept slides
