-- ===== src/Poll/Watch.antt =====
-- `addToPollSet` of pollLib.c, and the size and entries of the set.
use cpe_464_proj.Base.{
  ℕ, zero, suc, ◌+◌, ◌-◌, ◌≤◌, ◌<◌, ◌≡◌, refl, ap, ◌∙◌, List, [], ◌∷◌, some, true, false, arith,
  length, length-set, length-replicate, get_or, get_or-replicate, get_or-set_self, get_or-set_ne,
  set, replicate, ltb, leb, if◌then◌else◌, Bool-cases, inl, inr, ◌==◌, Option, none, ◌⊎◌, subst,
  sym, dec_lt, get_or_past, ℕ_discrete, Option-cases,
}
use cpe_464_proj.Poll.{
  PollFd, PollSet, zeroed, pollin, poll_set_size, unset, setup_poll_set, grow_poll_set, watch_entry,
  add_to_poll_set, zero_entries,
}
use cpe_464_proj.SafeUtil.{s_calloc, srealloc}

-- The array has the size that is kept for it, and `maxFileDescriptor` lies within it.
pub record IsSized (p : PollSet) : Type 0 where
  pub sized : length p.poll_file_descriptors ≡ p.current_poll_set_size
  pub within : p.max_file_descriptor ≤ p.current_poll_set_size

abbrev pub entry : PollSet → ℕ → PollFd
entry p i = get_or p.poll_file_descriptors i zeroed

-- `addToPollSet` of a descriptor, from `p` to `out`.
pub record Watches (socket : ℕ) (p out : PollSet) : Type 0 where
  pub still_sized : IsSized out
  pub polled : socket < out.max_file_descriptor
  pub max_grows : p.max_file_descriptor ≤ out.max_file_descriptor
  pub entries :
      (i : ℕ)
      → entry out i ≡ (if i == socket then record { fd = socket; events = pollin } else entry p i)

-- What the manuals of `calloc` and `realloc` say of an array that they give.
pub record IsAllocator (calloc : ℕ → Option (List PollFd))
    (realloc : List PollFd → ℕ → Option (List PollFd)) : Type 0 where
  pub cleared : (n : ℕ) (fds : List PollFd) → calloc n ≡ some fds → fds ≡ replicate n zeroed
  pub resized : (old fds : List PollFd) (n : ℕ) → realloc old n ≡ some fds → length fds ≡ n
  pub kept :
      (old fds : List PollFd) (n i : ℕ)
      → realloc old n ≡ some fds
      → i < length old
      → i < n
      → get_or fds i zeroed ≡ get_or old i zeroed

length-zero_entries :
    (count i : ℕ) (fds : List PollFd) → length (zero_entries count i fds) ≡ length fds
unfolding zero_entries
length-zero_entries zero i fds = refl
length-zero_entries (suc count) i fds =
    length-zero_entries count (i + 1) (set fds i zeroed) ∙ length-set fds i zeroed

-- The entries from `i` on are zero after the loop, and those before `i` are as before.
zero_entries-before :
    (count i j : ℕ) (fds : List PollFd)
    → j < i
    → get_or (zero_entries count i fds) j zeroed ≡ get_or fds j zeroed
unfolding zero_entries
zero_entries-before zero i j fds h = refl
zero_entries-before (suc count) i j fds h =
    zero_entries-before count (i + 1) j (set fds i zeroed) (omega arith)
    ∙ get_or-set_ne fds i j zeroed zeroed (omega arith)

get_or-set-zeroed : (fds : List PollFd) (i : ℕ) → get_or (set fds i zeroed) i zeroed ≡ zeroed
get_or-set-zeroed [] i = refl
get_or-set-zeroed (x ∷ fds) zero = refl
get_or-set-zeroed (x ∷ fds) (suc i) = get_or-set-zeroed fds i

zero_entries-within :
    (count i j : ℕ) (fds : List PollFd)
    → i ≤ j
    → j < i + count
    → get_or (zero_entries count i fds) j zeroed ≡ zeroed
unfolding zero_entries
zero_entries-within zero i j fds h k = absurd (omega arith)
zero_entries-within (suc count) i j fds h k = elim (ℕ_discrete i j) [
  | yes here ↦
      zero_entries-before count (i + 1) j (set fds i zeroed) (omega arith)
      ∙ subst (λ n. get_or (set fds i zeroed) n zeroed ≡ zeroed) here (get_or-set-zeroed fds i)
  | no later ↦ zero_entries-within count (i + 1) j (set fds i zeroed) (omega arith) (omega arith)
]

-- The set with room for the descriptor, after the assignments.
abbrev watched : ℕ → PollSet → PollSet
watched socket p = record p {
  poll_file_descriptors =
      set p.poll_file_descriptors socket (record { fd = socket; events = pollin });
  max_file_descriptor =
      if leb p.max_file_descriptor (socket + 1) then socket + 1 else p.max_file_descriptor;
}

watched-entry :
    (socket : ℕ) (p : PollSet)
    → socket < length p.poll_file_descriptors
    → (i : ℕ)
    → entry (watched socket p) i
      ≡ (if i == socket then record { fd = socket; events = pollin } else entry p i)
watched-entry socket p h i = elim (Bool-cases (i == socket)) [
  | inl same ↦
      let e : i ≡ socket = ground arith in
      rw (same, e) (get_or-set_self p.poll_file_descriptors socket _ zeroed h)
  | inr other ↦
      rw other
        (get_or-set_ne p.poll_file_descriptors socket i _ zeroed (λ e. absurd (ground arith)))
]

watch_entry-Watches :
    (socket : ℕ) (p : PollSet)
    → IsSized p
    → socket < p.current_poll_set_size
    → (out : PollSet) × (watch_entry socket p ≡ some out) × Watches socket p out
unfolding watch_entry
watch_entry-Watches socket p s h =
    let inside : ltb socket (length p.poll_file_descriptors) ≡ true = ground (arith, s.sized) in
    (
      watched socket p,
      rw inside,
      record {
        still_sized = record {
          sized = length-set p.poll_file_descriptors socket _ ∙ s.sized;
          within = ground (arith, s.within);
        };
        polled = ground arith;
        max_grows = ground arith;
        entries = watched-entry socket p (omega (arith, s.sized));
      },
    )

module _ (calloc : ℕ → Option (List PollFd)) (realloc : List PollFd → ℕ → Option (List PollFd))
    (laws : IsAllocator calloc realloc) where
  pub setup_poll_set-IsSized :
      (p : PollSet)
      → setup_poll_set calloc unset ≡ some p
      → IsSized p × ((i : ℕ) → entry p i ≡ zeroed)
  unfolding setup_poll_set s_calloc
  setup_poll_set-IsSized p e = elim (Option-cases (calloc poll_set_size)) [
    | inl failed ↦ absurd (none_some (subst (λ o. made o ≡ some p) failed e))
    | inr (fds, given) ↦
        let zeros = laws.cleared poll_set_size fds given in
        let same : with_array (replicate poll_set_size zeroed) ≡ p =
          some-injective (subst (λ o. made o ≡ some p) (given ∙ ap some zeros) e) in
        subst (λ q. IsSized q × ((i : ℕ) → entry q i ≡ zeroed)) same
          (
            record { sized = length-replicate poll_set_size zeroed; within = omega arith },
            λ i. get_or-replicate poll_set_size i zeroed,
          )
  ]
    where
      with_array : List PollFd → PollSet
      with_array fds = record unset {
        poll_file_descriptors = fds;
        current_poll_set_size = poll_set_size;
      }

      made : Option (List PollFd) → Option PollSet
      made o = elim (s_calloc o) [ none ↦ none | some fds ↦ some (with_array fds) ]

      none_some : none ≡ some p → ⊥
      none_some h = cc (h)

      some-injective : {q : PollSet} → some q ≡ some p → q ≡ p
      some-injective h = cc (h)

  -- `growPollSet` from `p` to `out`.
  record Grows (n : ℕ) (p out : PollSet) : Type 0 where
    still_sized : IsSized out
    larger : out.current_poll_set_size ≡ n
    same_max : out.max_file_descriptor ≡ p.max_file_descriptor
    same_entries : (i : ℕ) → entry out i ≡ entry p i

  grow_poll_set-Grows :
      (n : ℕ) (p : PollSet) (fds : List PollFd)
      → IsSized p
      → p.current_poll_set_size < n
      → realloc p.poll_file_descriptors n ≡ some fds
      → (out : PollSet) × (grow_poll_set realloc n p ≡ some out) × Grows n p out
  unfolding grow_poll_set srealloc
  grow_poll_set-Grows n p fds s h given =
      let more : leb n p.current_poll_set_size ≡ false = ground arith in
      let count = n - p.current_poll_set_size in
      let size = laws.resized p.poll_file_descriptors fds n given in
      let length' = length-zero_entries count p.current_poll_set_size fds ∙ size in
      (
        record p {
          poll_file_descriptors = zero_entries count p.current_poll_set_size fds;
          current_poll_set_size = n;
        },
        rw (more, given) refl,
        record {
          still_sized = record { sized = length'; within = omega (arith, s.within) };
          larger = refl;
          same_max = refl;
          same_entries = λ i. elim (dec_lt i p.current_poll_set_size) [
            | yes old ↦
                zero_entries-before count p.current_poll_set_size i fds old
                ∙ laws.kept p.poll_file_descriptors fds n i given (omega (arith, s.sized))
                    (omega arith)
            | no new ↦ elim (dec_lt i n) [
              | yes inside ↦
                  zero_entries-within count p.current_poll_set_size i fds (omega arith)
                    (omega arith)
                  ∙ sym (get_or_past p.poll_file_descriptors i zeroed (omega (arith, s.sized)))
              | no outside ↦
                  get_or_past (zero_entries count p.current_poll_set_size fds) i zeroed
                    (omega (arith, length'))
                  ∙ sym (get_or_past p.poll_file_descriptors i zeroed (omega (arith, s.sized)))
            ]
          ];
        },
      )

  grow_poll_set-none :
      (n : ℕ) (p : PollSet)
      → realloc p.poll_file_descriptors n ≡ none
      → grow_poll_set realloc n p ≡ none
  unfolding grow_poll_set srealloc
  grow_poll_set-none n p failed = elim (Bool-cases (leb n p.current_poll_set_size)) [
    | inl small ↦ rw small refl
    | inr more ↦ rw (more, failed) refl
  ]

  -- On a poll set whose array has the size kept for it, with calloc and realloc that do what their
  -- manuals say, addToPollSet of any descriptor either exits, where the array has to grow and
  -- realloc finds no room for ten entries more than the descriptor, or neither exits nor writes
  -- outside the array: then the set is again of its size, the entry of the descriptor waits for
  -- input, every other entry is as before, zero where it is new, and the descriptor is among those
  -- polled.
  pub add_to_poll_set-Watches :
      (socket : ℕ) (p : PollSet)
      → IsSized p
      → ((p.current_poll_set_size ≤ socket)
          × (realloc p.poll_file_descriptors (socket + poll_set_size) ≡ none)
          × (add_to_poll_set realloc socket p ≡ none))
        ⊎ ((out : PollSet) × (add_to_poll_set realloc socket p ≡ some out) × Watches socket p out)
  unfolding add_to_poll_set
  add_to_poll_set-Watches socket p s = elim (Bool-cases (leb p.current_poll_set_size socket)) [
    | inr room ↦ rw room (inr (watch_entry-Watches socket p s (ground arith)))
    | inl full ↦
        let n = socket + poll_set_size in
        elim (Option-cases (realloc p.poll_file_descriptors n)) [
          | inl failed ↦ rw (full, grow_poll_set-none n p failed) (inl (ground arith, failed, refl))
          | inr (fds, given) ↦
              let (grown, made, g) = grow_poll_set-Grows n p fds s (ground arith) given in
              let (out, e, w) =
                watch_entry-Watches socket grown g.still_sized (omega (arith, g.larger)) in
              rw (full, made)
                (inr (
                  out,
                  e,
                  record {
                    still_sized = w.still_sized;
                    polled = w.polled;
                    max_grows = omega (arith, w.max_grows, g.same_max);
                    entries = λ i.
                        w.entries i
                        ∙ ap
                            (λ e.
                              if i == socket then record { fd = socket; events = pollin } else e)
                            (g.same_entries i);
                  },
                ))
        ]
  ]
