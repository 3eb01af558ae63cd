-- ===== src/Poll/Ready.antt =====
-- `pollCall` of pollLib.c, and the descriptor that it gives.
use cpe_464_proj.Base.{
  All, ◌==◌, subst, ℕ, zero, suc, ◌+◌, ◌<◌, ◌≡◌, refl, ap, ◌∙◌, ◌⊎◌, inl, inr, List, [], ◌∷◌,
  Option, some, false, arith, length, get_or, take, ltb, if◌then◌else◌, Bool-cases, ℤ, pos, negsuc,
}
use cpe_464_proj.Poll.{
  PollFd, PollSet, PollAnswer, zeroed, unset, setup_poll_set, add_to_poll_set, first_ready,
  ready_entry, poll_call,
}
use cpe_464_proj.Poll.Watch.{
  IsSized, IsAllocator, entry, Watches, setup_poll_set-IsSized, add_to_poll_set-Watches,
}

-- The number of entries with an event.
abbrev pub count_ready : List ℕ → ℕ
count_ready [] = 0
count_ready (r ∷ rs) = (if ltb 0 r then 1 else 0) + count_ready rs

-- What the manual of `poll` says of an answer: the value is the number of entries with an event, and
-- each entry has a `revents`.
pub record IsTruthful (fds : List PollFd) (a : PollAnswer) : Type 0 where
  pub counted : a.poll_value ≡ count_ready a.revents
  pub for_each : length a.revents ≡ length fds

abbrev IsIdle : ℕ → Type 0
IsIdle revents = revents ≡ 0

-- The result of a scan: -1 with no event, or the first index with one.
abbrev pub IsLowest : List ℕ → ℤ → Type 0
IsLowest revents result =
    ((result ≡ negsuc 0) × All IsIdle revents)
    ⊎ ((k : ℕ) × (result ≡ pos k) × (0 < get_or revents k 0) × All IsIdle (take k revents))

-- The scan from an index on.
abbrev FindsFrom : ℕ → List ℕ → Type 0
FindsFrom i rs =
    ((first_ready i rs ≡ negsuc 0) × All IsIdle rs)
    ⊎ ((k : ℕ) × (first_ready i rs ≡ pos (i + k)) × (0 < get_or rs k 0) × All IsIdle (take k rs))

first_ready_lem : (i : ℕ) (rs : List ℕ) → FindsFrom i rs
unfolding first_ready
first_ready_lem i [] = inl (refl, tt)
first_ready_lem i (r ∷ rs) = elim (Bool-cases (ltb 0 r)) [
  | inl ready ↦ rw ready (inr (0, ap pos (omega arith), ground arith, tt))
  | inr idle ↦
      let none_here : r ≡ 0 = ground arith in
      elim (first_ready_lem (suc i) rs) [
        | inl (e, all) ↦ rw idle (inl (e, (none_here, all)))
        | inr (k, e, event, all) ↦
            rw idle (inr (suc k, e ∙ ap pos (omega arith), event, (none_here, all)))
      ]
]

count_ready-zero : (rs : List ℕ) → count_ready rs ≡ 0 → All IsIdle rs
count_ready-zero [] e = tt
count_ready-zero (r ∷ rs) e = (ground arith, count_ready-zero rs (omega arith))

ready_entry-IsLowest :
    (fds : List PollFd) (a : PollAnswer) → IsTruthful fds a → IsLowest a.revents (ready_entry a)
unfolding ready_entry
ready_entry-IsLowest fds a t = elim (Bool-cases (ltb 0 a.poll_value)) [
  | inr timed_out ↦
      rw timed_out (inl (refl, count_ready-zero a.revents (ground (arith, t.counted))))
  | inl some_ready ↦ elim (first_ready_lem 0 a.revents) [
    | inl idle ↦ rw some_ready (inl idle)
    | inr (k, e, event, all) ↦ rw some_ready (inr (k, e ∙ ap pos {y = k} (omega arith), event, all))
  ]
]

-- Entry 0 goes before all others.
lowest_zero :
    (revents : List ℕ) (result : ℤ)
    → IsLowest revents result
    → 0 < get_or revents 0 0
    → result ≡ pos 0
lowest_zero [] result l h = absurd (omega arith)
lowest_zero (r ∷ rs) result (inl (e, all)) h = absurd (omega (arith, all.0))
lowest_zero (r ∷ rs) result (inr (zero, e, event, all)) h = e
lowest_zero (r ∷ rs) result (inr (suc k, e, event, all)) h = absurd (omega (arith, all.0))

module _ (poll : List PollFd → ℤ → Option PollAnswer) where
  -- On such a set, where poll does not fail and returns the number of entries with an event,
  -- pollCall returns the lowest descriptor that has an event, and -1 exactly if none has one.
  pub poll_call-IsLowest :
      (p : PollSet) (milliseconds : ℤ) (a : PollAnswer)
      → IsSized p
      → poll (take p.max_file_descriptor p.poll_file_descriptors) milliseconds ≡ some a
      → IsTruthful (take p.max_file_descriptor p.poll_file_descriptors) a
      → (result : ℤ) × (poll_call poll p milliseconds ≡ some result) × IsLowest a.revents result
  unfolding poll_call
  poll_call-IsLowest p milliseconds a s e t =
      let inside : ltb (length p.poll_file_descriptors) p.max_file_descriptor ≡ false =
        ground (arith, s.sized, s.within) in
      (ready_entry a, rw (inside, e), ready_entry-IsLowest _ a t)

module _ (calloc : ℕ → Option (List PollFd)) (realloc : List PollFd → ℕ → Option (List PollFd))
    (laws : IsAllocator calloc realloc) where
  -- The set of a process that has added one socket.
  added-Watches :
      (socket : ℕ) (fresh p : PollSet)
      → setup_poll_set calloc unset ≡ some fresh
      → add_to_poll_set realloc socket fresh ≡ some p
      → Watches socket fresh p
  added-Watches socket fresh p made added =
      let (sized, _) = setup_poll_set-IsSized calloc realloc laws fresh made in
      elim (add_to_poll_set-Watches calloc realloc laws socket fresh sized) [
        | inl (_, _, failed) ↦ absurd (cc (added, failed))
        | inr (out, e, w) ↦
            let same : out ≡ p = cc (e, added) in subst (Watches socket fresh) same w
      ]

  -- With calloc and realloc that do what their manuals say, in a new poll set to which only one
  -- positive socket was added, entry 0 has descriptor 0 and no events; when poll reports an event
  -- for it, such as a hang-up of the standard input, pollCall returns 0, whether or not the socket
  -- is ready.
  pub stdin_masks_socket :
      (poll : List PollFd → ℤ → Option PollAnswer) (socket : ℕ) (fresh p : PollSet)
      (milliseconds : ℤ) (a : PollAnswer)
      → 0 < socket
      → setup_poll_set calloc unset ≡ some fresh
      → add_to_poll_set realloc socket fresh ≡ some p
      → poll (take p.max_file_descriptor p.poll_file_descriptors) milliseconds ≡ some a
      → IsTruthful (take p.max_file_descriptor p.poll_file_descriptors) a
      → 0 < get_or a.revents 0 0
      → (entry p 0 ≡ zeroed) × (poll_call poll p milliseconds ≡ some (pos 0))
  stdin_masks_socket poll socket fresh p milliseconds a positive made added e t hangup =
      let (_, zeros) = setup_poll_set-IsSized calloc realloc laws fresh made in
      let w = added-Watches socket fresh p made added in
      let other : (0 == socket) ≡ false = ground arith in
      let (result, call, lowest) = poll_call-IsLowest poll p milliseconds a w.still_sized e t in
      (
        w.entries 0 ∙ rw other (zeros 0),
        call ∙ ap some (lowest_zero a.revents result lowest hangup),
      )
