-- ===== src/Poll/Tests.antt =====
-- Runs of the poll set, and its theorems at them.
use cpe_464_proj.Base.{
  ◌≡◌, ◌≤◌, ◌<◌, ◌⊎◌, ℕ, zero, suc, none, length, get_or, replicate, ap, subst, refl, List, [], ◌∷◌,
  Option, some, arith, ℤ, pos, take,
}
use cpe_464_proj.Poll.{
  PollFd, PollSet, PollAnswer, zeroed, pollin, unset, setup_poll_set, add_to_poll_set, watch_entry,
  poll_call,
}
use cpe_464_proj.SafeUtil.{s_calloc}
use cpe_464_proj.Poll.Watch.{IsAllocator, IsSized, Watches, entry, add_to_poll_set-Watches}
use cpe_464_proj.Poll.Ready.{IsTruthful, IsLowest, poll_call-IsLowest, stdin_masks_socket}

-- The set of a client whose socket is descriptor 3.
abbrev with_socket : PollSet
with_socket = record {
  poll_file_descriptors =
      zeroed
      ∷ zeroed
      ∷ zeroed
      ∷ record { fd = 3; events = pollin }
      ∷ zeroed
      ∷ zeroed
      ∷ zeroed
      ∷ zeroed
      ∷ zeroed
      ∷ zeroed
      ∷ [];
  max_file_descriptor = 4;
  current_poll_set_size = 10;
}

-- An allocator that always finds room, and leaves 7s in the new entries.
abbrev calloc : ℕ → Option (List PollFd)
calloc n = some (replicate n zeroed)

abbrev stale : PollFd
stale = record { fd = 7; events = 7 }

abbrev resize : ℕ → List PollFd → List PollFd
resize zero old = []
resize (suc n) [] = stale ∷ resize n []
resize (suc n) (fd ∷ old) = fd ∷ resize n old

abbrev realloc : List PollFd → ℕ → Option (List PollFd)
realloc old n = some (resize n old)

length-resize : (n : ℕ) (old : List PollFd) → length (resize n old) ≡ n
length-resize zero old = refl
length-resize (suc n) [] = ap suc (length-resize n [])
length-resize (suc n) (fd ∷ old) = ap suc (length-resize n old)

get_or-resize :
    (n i : ℕ) (old : List PollFd)
    → i < length old
    → i < n
    → get_or (resize n old) i zeroed ≡ get_or old i zeroed
get_or-resize zero i old h k = absurd (omega arith)
get_or-resize (suc n) i [] h k = absurd (omega arith)
get_or-resize (suc n) zero (fd ∷ old) h k = refl
get_or-resize (suc n) (suc i) (fd ∷ old) h k = get_or-resize n i old (omega arith) (omega arith)

allocator : IsAllocator calloc realloc
allocator = record {
  cleared = λ n fds e. cc (e);
  resized = λ old fds n e.
      let same : resize n old ≡ fds = cc (e) in
      subst (λ ys. length ys ≡ n) same (length-resize n old);
  kept = λ old fds n i e h k.
      let same : resize n old ≡ fds = cc (e) in
      subst (λ ys. get_or ys i zeroed ≡ get_or old i zeroed) same (get_or-resize n i old h k);
}

abbrev fresh : PollSet
fresh = record {
  poll_file_descriptors = replicate 10 zeroed;
  max_file_descriptor = 0;
  current_poll_set_size = 10;
}

set_up : setup_poll_set calloc unset ≡ some fresh
unfolding setup_poll_set s_calloc
set_up = refl

socket_added : add_to_poll_set realloc 3 fresh ≡ some with_socket
unfolding add_to_poll_set watch_entry
socket_added = refl

with_socket-IsSized : IsSized with_socket
with_socket-IsSized = record { sized = refl; within = omega arith }

-- Descriptor 12 makes the set grow.
add_to_poll_set-Watches_example :
    ((10 ≤ 12)
      × (realloc with_socket.poll_file_descriptors 22 ≡ none)
      × (add_to_poll_set realloc 12 with_socket ≡ none))
    ⊎ ((out : PollSet) × (add_to_poll_set realloc 12 with_socket ≡ some out)
        × Watches 12 with_socket out)
add_to_poll_set-Watches_example =
    add_to_poll_set-Watches calloc realloc allocator 12 with_socket with_socket-IsSized

-- A `poll` that finds the socket ready and a hang-up (POLLHUP, 16) of descriptor 0.
abbrev hangup : PollAnswer
hangup = record { poll_value = 2; revents = 16 ∷ 0 ∷ 0 ∷ 1 ∷ [] }

abbrev poll : List PollFd → ℤ → Option PollAnswer
poll fds milliseconds = some hangup

hangup-IsTruthful : IsTruthful (take 4 with_socket.poll_file_descriptors) hangup
hangup-IsTruthful = record { counted = refl; for_each = refl }

poll_call-IsLowest_example :
    (result : ℤ) × (poll_call poll with_socket (pos 1000) ≡ some result)
    × IsLowest hangup.revents result
poll_call-IsLowest_example =
    poll_call-IsLowest poll with_socket (pos 1000) hangup with_socket-IsSized refl hangup-IsTruthful

stdin_masks_socket_example :
    (entry with_socket 0 ≡ zeroed) × (poll_call poll with_socket (pos 1000) ≡ some (pos 0))
stdin_masks_socket_example =
    stdin_masks_socket calloc realloc allocator poll 3 fresh with_socket (pos 1000) hangup
      (omega arith) set_up socket_added refl hangup-IsTruthful (omega arith)
