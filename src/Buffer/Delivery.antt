-- ===== src/Buffer/Delivery.antt =====
-- buffer.c: the chunks of a file, and what the receiver has written of them.
pub mod States
pub mod InOrder
use cpe_464_proj.Base.{
  ℕ, zero, suc, ◌+◌, ◌-◌, ◌%◌, ◌≤◌, ◌<◌, ◌≡◌, refl, sym, ap, ap₂, subst, take-take, ◌⊎◌, negsuc,
  ◌∙◌, List, [], ◌∷◌, ◌++◌, Bool, true, false, ◌&&◌, ◌||◌, arith, length, get_or, set, All, All-set,
  All-get_or, All-replicate, ◌==◌, ltb, leb, if◌then◌else◌, Bool-cases, inl, inr, inc32, u32_mod, ℤ,
  pos, is_negative, append-nil, append_assoc,
}
use cpe_464_proj.Pdu.{
  Datagram, validate_checksum, get_sequence_num, get_flag, get_payload_len, payload_of, flag_data,
}
use cpe_464_proj.Buffer.{
  Receiver, BufferEntry, BufferState, inorder, buffering, flushing, empty_entry, entry, get_index,
  is_ready, flush_step, flush_loop, first_bytes, buffer_init, write_packet_to_disk, buffer_packet,
  send_rr, send_srej_once, after_flush, flushing_state, in_order_state, buffering_state, run_state,
  buffer_process_pdu, trap_zero_window, enter,
}

pub first_bytes-first_bytes :
    (len : ℤ) (xs : List ℕ) → first_bytes len (first_bytes len xs) ≡ first_bytes len xs
first_bytes-first_bytes (pos n) xs = take-take n xs
first_bytes-first_bytes (negsuc n) xs = refl

-- The datagrams of a transfer, one call of `bufferProcessPDU` for each.
abbrev pub process_all : (List ℕ → ℕ → ℕ) → Receiver → List Datagram → Receiver
process_all in_cksum r [] = r
process_all in_cksum r (d ∷ ds) = process_all in_cksum (buffer_process_pdu in_cksum r d) ds

-- The first `n` chunks.
abbrev pub stream : (ℕ → List ℕ) → ℕ → List ℕ
stream chunk zero = []
stream chunk (suc n) = stream chunk n ++ chunk n

-- A file of `limit` chunks, fewer than sequence numbers.
module _ (chunk : ℕ → List ℕ) (limit : ℕ) where
  -- A payload is the chunk of its number.
  abbrev pub IsChunk : ℕ → List ℕ → ℤ → Type 0
  IsChunk seq payload len = (seq < limit) × (first_bytes len payload ≡ chunk seq)

  -- A valid slot holds the chunk of its number.
  abbrev pub Holds : BufferEntry → Type 0
  Holds e = e.valid_flag ≡ true → IsChunk e.seq_num e.bytes e.data_len

  -- The first `n` chunks have been written, and nothing else; the buffer holds chunks.
  pub record Delivered (n : ℕ) (r : Receiver) : Type 0 where
    pub next : r.expected ≡ n
    pub within : n ≤ limit
    pub file : r.written ≡ stream chunk n
    pub slots : All Holds r.buffer

  pub buffer_init-Delivered : (size : ℕ) → Delivered 0 (buffer_init size)
  unfolding buffer_init
  buffer_init-Delivered size = record {
    next = refl;
    within = omega arith;
    file = refl;
    slots = All-replicate Holds size empty_entry (λ e. absurd (cc));
  }

  -- One round of the flush loop writes the chunk that is due.
  flush_step-Delivered :
      (n : ℕ) (r : Receiver) (small : limit < u32_mod)
      → Delivered n r
      → is_ready r ≡ true
      → Delivered (suc n) (flush_step r)
  unfolding is_ready flush_step
  flush_step-Delivered n r small d ready = record {
    next = omega (arith, d.next, small, chunk_due.0, number);
    within = omega (arith, chunk_due.0, number);
    file = ap₂ ◌++◌ d.file (chunk_due.1 ∙ ap chunk number);
    slots = All-set Holds r.buffer _ _ d.slots (λ e. absurd (cc));
  }
    where
      held : Holds (entry r r.expected)
      held = All-get_or Holds r.buffer _ empty_entry d.slots (λ e. absurd (cc))

      chunk_due :
          IsChunk
            (entry r r.expected).seq_num
            (entry r r.expected).bytes
            (entry r r.expected).data_len
      chunk_due = held (ground arith)

      number : (entry r r.expected).seq_num ≡ n
      number = ground (arith, d.next)

  pub flush_loop-Delivered :
      (fuel n : ℕ) (r : Receiver)
      → limit < u32_mod
      → Delivered n r
      → (m : ℕ) × (n ≤ m) × Delivered m (flush_loop fuel r)
  unfolding flush_loop
  flush_loop-Delivered zero n r small d = (n, omega arith, d)
  flush_loop-Delivered (suc fuel) n r small d = elim (Bool-cases (is_ready r)) [
    | inl ready ↦
        let (m, le, d') =
          flush_loop-Delivered fuel (suc n) (flush_step r) small
            (flush_step-Delivered n r small d ready) in
        rw ready (m, omega arith, d')
    | inr done ↦ rw done (n, omega arith, d)
  ]

  -- A receiver that differs in other fields has delivered the same.
  pub Delivered-ext :
      (n : ℕ) (r s : Receiver)
      → s.expected ≡ r.expected
      → s.written ≡ r.written
      → s.buffer ≡ r.buffer
      → Delivered n r
      → Delivered n s
  Delivered-ext n r s e w b d = record {
    next = e ∙ d.next;
    within = d.within;
    file = w ∙ d.file;
    slots = subst (All Holds) (sym b) d.slots;
  }

  -- What a call may do: write some more of the chunks.
  abbrev pub Advances : ℕ → Receiver → Type 0
  Advances n r = (m : ℕ) × (n ≤ m) × Delivered m r

  -- A datagram that passes for a data packet carries the chunk of its number.
  abbrev pub IsGenuine : (List ℕ → ℕ → ℕ) → Datagram → Type 0
  IsGenuine in_cksum d =
      validate_checksum in_cksum d.pdu d.pdu_len ≡ true
      → (get_flag d.pdu == flag_data) ≡ true
      → IsChunk (get_sequence_num d.pdu) (payload_of d.pdu) (get_payload_len d.pdu_len)
