-- ===== src/Buffer/Delivery/States.antt =====
-- The state functions of buffer.c on the chunks of a file.
use cpe_464_proj.Base.{
  ℕ, suc, ◌<◌, ◌≡◌, refl, ap, ap₂, ◌∙◌, List, ◌++◌, true, false, arith, length, All, All-set, ◌==◌,
  ltb, leb, Bool-cases, inl, inr, u32_mod, ℤ,
}
use cpe_464_proj.Buffer.{
  Receiver, first_bytes, buffer_packet, send_rr, send_srej_once, after_flush, flushing_state,
  in_order_state, buffering_state, trap_zero_window,
}
use cpe_464_proj.Buffer.Delivery.{
  stream, IsChunk, Holds, Delivered, Delivered-ext, Advances, flush_loop-Delivered,
  first_bytes-first_bytes,
}

module _ (chunk : ℕ → List ℕ) (limit : ℕ) (in_cksum : List ℕ → ℕ → ℕ)
    (small : limit < u32_mod) where
  send_rr-Delivered :
      (n : ℕ) (r : Receiver)
      → Delivered chunk limit n r
      → Delivered chunk limit n (send_rr in_cksum r)
  unfolding send_rr
  send_rr-Delivered n r d = Delivered-ext chunk limit n r _ refl refl refl d

  send_srej_once-Delivered :
      (n : ℕ) (r : Receiver)
      → Delivered chunk limit n r
      → Delivered chunk limit n (send_srej_once in_cksum r)
  unfolding send_srej_once
  send_srej_once-Delivered n r d = elim (Bool-cases (r.last_srej == r.expected)) [
    | inl old ↦ rw old d
    | inr new ↦ rw new (Delivered-ext chunk limit n r _ refl refl refl d)
  ]

  after_flush-Delivered :
      (n : ℕ) (r : Receiver)
      → Delivered chunk limit n r
      → Delivered chunk limit n (after_flush in_cksum r).1
  unfolding after_flush
  after_flush-Delivered n r d = elim (Bool-cases (leb r.expected r.highest)) [
    | inl gap ↦ rw gap (send_srej_once-Delivered n r d)
    | inr done ↦ rw done (send_rr-Delivered n r d)
  ]

  pub flushing_state-Delivered :
      (n : ℕ) (r : Receiver)
      → Delivered chunk limit n r
      → Advances chunk limit n (flushing_state in_cksum r).1
  unfolding flushing_state
  flushing_state-Delivered n r d =
      let (m, le, d') =
        flush_loop-Delivered chunk limit (length r.buffer) n (trap_zero_window r) small
          (Delivered-ext chunk limit n r _ refl refl refl d) in
      (m, le, after_flush-Delivered m _ d')

  module _ (n : ℕ) (r : Receiver) (seq : ℕ) (payload : List ℕ) (len : ℤ) where
    -- The packet that is due is written.
    written_due :
        Delivered chunk limit n r
        → IsChunk chunk limit seq payload len
        → seq ≡ r.expected
        → r.written ++ first_bytes len payload ≡ stream chunk (suc n)
    written_due d c e = ap₂ ◌++◌ d.file (c.1 ∙ ap chunk (e ∙ d.next))

    buffer_packet-slots :
        Delivered chunk limit n r
        → IsChunk chunk limit seq payload len
        → All (Holds chunk limit) (buffer_packet r seq payload len).buffer
    unfolding buffer_packet
    buffer_packet-slots d c =
        All-set (Holds chunk limit) r.buffer _ _ d.slots
          (λ _. (c.0, first_bytes-first_bytes len payload ∙ c.1))

    -- The expected packet is written at once, and with it all that the buffer has behind it.
    pub in_order_state_due :
        Delivered chunk limit n r
        → IsChunk chunk limit seq payload len
        → (seq == r.expected) ≡ true
        → Advances chunk limit (suc n) (in_order_state in_cksum r seq payload len).1
    unfolding in_order_state
    in_order_state_due d c due = rw due (
      suc n,
      omega arith,
      send_rr-Delivered (suc n) _ (record {
        next = ground (arith, d.next, c.0, small);
        within = ground (arith, d.next, c.0);
        file = written_due d c (ground arith);
        slots = d.slots;
      }),
    )

    pub in_order_state_other :
        Delivered chunk limit n r
        → IsChunk chunk limit seq payload len
        → (seq == r.expected) ≡ false
        → Delivered chunk limit n (in_order_state in_cksum r seq payload len).1
    unfolding in_order_state
    in_order_state_other d c other = elim (Bool-cases (ltb r.expected seq)) [
      | inl early ↦
          rw (other, early)
            (send_srej_once-Delivered n _ (record {
              next = d.next;
              within = d.within;
              file = d.file;
              slots = buffer_packet-slots d c;
            }))
      | inr late ↦ rw (other, late) (send_rr-Delivered n r d)
    ]

    pub buffering_state_due :
        Delivered chunk limit n r
        → IsChunk chunk limit seq payload len
        → (seq == r.expected) ≡ true
        → Advances chunk limit (suc n) (buffering_state in_cksum r seq payload len).1
    unfolding buffering_state
    buffering_state_due d c due = rw due (
        flushing_state-Delivered (suc n) _ (record {
          next = ground (arith, d.next, c.0, small);
          within = ground (arith, d.next, c.0);
          file = written_due d c (ground arith);
          slots = d.slots;
        }))

    pub buffering_state_other :
        Delivered chunk limit n r
        → IsChunk chunk limit seq payload len
        → (seq == r.expected) ≡ false
        → Delivered chunk limit n (buffering_state in_cksum r seq payload len).1
    unfolding buffering_state
    buffering_state_other d c other = elim (Bool-cases (ltb r.expected seq)) [
      | inl early ↦
          rw (other, early)
            (send_srej_once-Delivered n _ (record {
              next = d.next;
              within = d.within;
              file = d.file;
              slots = buffer_packet-slots d c;
            }))
      | inr late ↦ rw (other, late) (send_rr-Delivered n r d)
    ]
