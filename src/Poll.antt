-- ===== src/Poll.antt =====
-- pollLib.c: the set of descriptors that `poll` waits for. A `PollSet` is the three static variables.
-- `poll` is a parameter: for a number of entries and a time-out it gives its return value, or `none`
-- for a failure, and the `revents` that it stores. So are `calloc` and `realloc`, for the array, with
-- `none` for NULL. An operation that exits, or that reads or writes outside the array, gives `none`.
pub mod Watch
pub mod Ready
mod Tests
use cpe_464_proj.Base.{
  ℕ, zero, suc, ◌+◌, ◌-◌, List, [], ◌∷◌, Option, none, some, Bool, length, set, take, ltb, leb,
  if◌then◌else◌, ℤ, pos, negsuc,
}
use cpe_464_proj.SafeUtil.{s_calloc, srealloc}

-- `struct pollfd` without `revents`, which only `poll` writes.
pub record PollFd : Type 0 where
  pub fd : ℕ
  pub events : ℕ

pub record PollSet : Type 0 where
  pub poll_file_descriptors : List PollFd
  pub max_file_descriptor : ℕ
  pub current_poll_set_size : ℕ

-- What `poll` returns when it does not fail, and the `revents` of the entries.
pub record PollAnswer : Type 0 where
  pub poll_value : ℕ
  pub revents : List ℕ

abbrev pub poll_set_size : ℕ
poll_set_size = 10

abbrev pub pollin : ℕ
pollin = 1

abbrev pub zeroed : PollFd
zeroed = record { fd = 0; events = 0 }

-- The static variables at the start of a process.
abbrev pub unset : PollSet
unset = record { poll_file_descriptors = []; max_file_descriptor = 0; current_poll_set_size = 0 }

-- The loop of `growPollSet`: `count` entries from `i` on are set to zero.
unfoldable pub zero_entries : ℕ → ℕ → List PollFd → List PollFd
zero_entries zero i fds = fds
zero_entries (suc count) i fds = zero_entries count (i + 1) (set fds i zeroed)

-- The two assignments to an entry.
unfoldable pub store_entry : ℕ → PollFd → PollSet → Option PollSet
store_entry i e p =
    if ltb i (length p.poll_file_descriptors)
    then some (record p { poll_file_descriptors = set p.poll_file_descriptors i e })
    else none

-- The end of `addToPollSet`, with room in the array.
unfoldable pub watch_entry : ℕ → PollSet → Option PollSet
unfolding store_entry
watch_entry socket p =
    let max =
      if leb p.max_file_descriptor (socket + 1) then socket + 1 else p.max_file_descriptor in
    store_entry socket (record { fd = socket; events = pollin })
      (record p { max_file_descriptor = max })

module _ (calloc : ℕ → Option (List PollFd)) where
  unfoldable pub setup_poll_set : PollSet → Option PollSet
  unfolding s_calloc
  setup_poll_set p = elim (s_calloc (calloc poll_set_size)) [
    | none ↦ none
    | some fds ↦
        some (record p { poll_file_descriptors = fds; current_poll_set_size = poll_set_size })
  ]

module _ (realloc : List PollFd → ℕ → Option (List PollFd)) where
  unfoldable pub grow_poll_set : ℕ → PollSet → Option PollSet
  unfolding srealloc zero_entries
  grow_poll_set new_set_size p =
      if leb new_set_size p.current_poll_set_size
      then none
      else elim (srealloc (realloc p.poll_file_descriptors new_set_size)) [
        | none ↦ none
        | some fds ↦
            let count = new_set_size - p.current_poll_set_size in
            some (record p {
              poll_file_descriptors = zero_entries count p.current_poll_set_size fds;
              current_poll_set_size = new_set_size;
            })
      ]

  unfoldable pub add_to_poll_set : ℕ → PollSet → Option PollSet
  unfolding grow_poll_set watch_entry
  add_to_poll_set socket p =
      if leb p.current_poll_set_size socket
      then elim (grow_poll_set (socket + poll_set_size) p) [
        | none ↦ none
        | some grown ↦ watch_entry socket grown
      ]
      else watch_entry socket p

unfoldable pub remove_from_poll_set : ℕ → PollSet → Option PollSet
unfolding store_entry
remove_from_poll_set socket p = store_entry socket zeroed p

-- The loop of `pollCall` from the index `i` on: the first entry with an event, or -1.
unfoldable pub first_ready : ℕ → List ℕ → ℤ
first_ready i [] = negsuc 0
first_ready i (r ∷ rs) = let rest = first_ready (suc i) rs in if ltb 0 r then pos i else rest

-- What `pollCall` makes of an answer of `poll`.
unfoldable pub ready_entry : PollAnswer → ℤ
unfolding first_ready
ready_entry a = if ltb 0 a.poll_value then first_ready 0 a.revents else negsuc 0

module _ (poll : List PollFd → ℤ → Option PollAnswer) where
  -- `poll` gets the first `maxFileDescriptor` entries.
  unfoldable pub poll_call : PollSet → ℤ → Option ℤ
  unfolding ready_entry
  poll_call p milliseconds =
      if ltb (length p.poll_file_descriptors) p.max_file_descriptor
      then none
      else elim (poll (take p.max_file_descriptor p.poll_file_descriptors) milliseconds) [
        | none ↦ none
        | some a ↦ some (ready_entry a)
      ]
