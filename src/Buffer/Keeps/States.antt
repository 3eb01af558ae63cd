-- ===== src/Buffer/Keeps/States.antt =====
-- The state functions of buffer.c, and a packet that came.
use cpe_464_proj.Base.{
  ℕ, zero, suc, ◌+◌, ◌<◌, ◌≡◌, refl, sym, ap, ◌∙◌, ◌⊎◌, List, true, arith, length, All, All-get_or,
  All-set, ◌==◌, ltb, if◌then◌else◌, Bool-cases, inl, inr, inc32, u32_mod, ℤ,
}
use cpe_464_proj.Buffer.{
  Receiver, BufferState, inorder, buffering, flushing, empty_entry, entry, is_ready, flush_step,
  flush_loop, buffer_packet, send_rr, send_srej_once, after_flush, flushing_state, in_order_state,
  buffering_state, run_state,
}
use cpe_464_proj.Buffer.Settled.{IsEarly, IsSettled}
use cpe_464_proj.Buffer.Keeps.{Has, Keeps, Keeps-ext, flush_step-Keeps, buffer_packet-Keeps}

module _ (in_cksum : List ℕ → ℕ → ℕ) (limit s : ℕ) (small : limit < u32_mod) where
  -- What is due has a number below the limit.
  ready-below :
      (r : Receiver) (b : ℕ)
      → All (IsEarly limit b) r.buffer
      → is_ready r ≡ true
      → r.expected < limit
  unfolding is_ready
  ready-below r b early ready =
      let below : (entry r r.expected).seq_num < limit =
        (All-get_or (IsEarly limit b) r.buffer _ empty_entry early (λ e. absurd (cc))
          (ground arith)).0 in
      ground arith

  flush_loop-Keeps :
      (fuel b : ℕ) (r : Receiver)
      → All (IsEarly limit b) r.buffer
      → Keeps r s
      → Keeps (flush_loop fuel r) s
  unfolding flush_loop flush_step
  flush_loop-Keeps zero b r early k = k
  flush_loop-Keeps (suc fuel) b r early k = elim (Bool-cases (is_ready r)) [
    | inr done ↦ rw done k
    | inl ready ↦
        let below = ready-below r b early ready in
        rw ready (
          flush_loop-Keeps fuel b (flush_step r)
            (All-set (IsEarly limit b) r.buffer _ _ early (λ e. absurd (cc)))
            (flush_step-Keeps r s (omega arith) k))
  ]

  after_flush-Keeps : (r : Receiver) → Keeps r s → Keeps (after_flush in_cksum r).1 s
  unfolding after_flush send_srej_once send_rr
  after_flush-Keeps r k =
      Keeps-ext r (after_flush in_cksum r).1 s (ground arith) (ground arith) (ground arith) k

  -- The packet that is due, or was there, is there once the expected number grows.
  advanced-Keeps :
      (r out : Receiver) (seq : ℕ)
      → seq ≡ r.expected
      → out.buffer ≡ r.buffer
      → out.window_size ≡ r.window_size
      → out.expected ≡ suc r.expected
      → length r.buffer ≡ r.window_size
      → (s ≡ seq) ⊎ Has r s
      → Keeps out s
  advanced-Keeps r out seq due b w e sized (inl same) = record {
    sized = ap length b ∙ sized ∙ sym w;
    has = inl (omega arith);
  }
  advanced-Keeps r out seq due b w e sized (inr h) =
      Keeps-ext r out s b w (omega arith) (record { sized = sized; has = h })

  send_srej_once-Keeps : (r : Receiver) → Keeps r s → Keeps (send_srej_once in_cksum r) s
  unfolding send_srej_once
  send_srej_once-Keeps r k =
      Keeps-ext r (send_srej_once in_cksum r) s (ground arith) (ground arith) (ground arith) k

  -- A packet ahead of the one that is due.
  early-Keeps :
      (r : Receiver) (seq highest : ℕ) (payload : List ℕ) (len : ℤ)
      → r.expected < seq
      → seq < r.expected + r.window_size
      → length r.buffer ≡ r.window_size
      → (s ≡ seq) ⊎ Has r s
      → Keeps
          (send_srej_once in_cksum (record (buffer_packet r seq payload len) { highest = highest }))
          s
  early-Keeps r seq highest payload len lo win sized h = send_srej_once-Keeps _ (
      Keeps-ext (buffer_packet r seq payload len) _ s refl refl (omega arith)
        (buffer_packet-Keeps r seq s payload len lo win sized h))

  -- An old packet is written already.
  late-Keeps :
      (r : Receiver) (seq : ℕ)
      → seq < r.expected
      → length r.buffer ≡ r.window_size
      → (s ≡ seq) ⊎ Has r s
      → Keeps (send_rr in_cksum r) s
  unfolding send_rr
  late-Keeps r seq lt sized (inl same) =
      Keeps-ext r _ s refl refl (omega arith) (record { sized = sized; has = inl (omega arith) })
  late-Keeps r seq lt sized (inr h) =
      Keeps-ext r _ s refl refl (omega arith) (record { sized = sized; has = h })

  in_order_state-Keeps :
      (r : Receiver) (seq : ℕ) (payload : List ℕ) (len : ℤ)
      → seq < limit
      → seq < r.expected + r.window_size
      → length r.buffer ≡ r.window_size
      → (s ≡ seq) ⊎ Has r s
      → Keeps (in_order_state in_cksum r seq payload len).1 s
  unfolding in_order_state
  in_order_state-Keeps r seq payload len lt win sized h = elim (Bool-cases (seq == r.expected)) [
    | inl due ↦
        let up : inc32 r.expected ≡ suc r.expected = ground arith in
        rw due (advanced-Keeps r _ seq (ground arith) refl refl up sized h)
    | inr other ↦ elim (Bool-cases (ltb r.expected seq)) [
      | inl early ↦ rw (other, early) (early-Keeps r seq seq payload len (ground arith) win sized h)
      | inr late ↦ rw (other, late) (late-Keeps r seq (ground arith) sized h)
    ]
  ]

  buffering_state-Keeps :
      (r : Receiver) (seq : ℕ) (payload : List ℕ) (len : ℤ)
      → IsSettled limit buffering r
      → seq < limit
      → seq < r.expected + r.window_size
      → length r.buffer ≡ r.window_size
      → (s ≡ seq) ⊎ Has r s
      → Keeps (buffering_state in_cksum r seq payload len).1 s
  unfolding buffering_state flushing_state
  buffering_state-Keeps r seq payload len settled lt win sized h =
      elim (Bool-cases (seq == r.expected)) [
        | inl due ↦
            let up : inc32 r.expected ≡ suc r.expected = ground arith in
            rw due (
              after_flush-Keeps _ (
                flush_loop-Keeps (length r.buffer) (suc r.highest) _ settled.slots
                  (advanced-Keeps r _ seq (ground arith) refl refl up sized h)))
        | inr other ↦ elim (Bool-cases (ltb r.expected seq)) [
          | inl early ↦
              rw (other, early)
                (early-Keeps r seq (if ltb r.highest seq then seq else r.highest) payload len
                  (ground arith) win sized h)
          | inr late ↦ rw (other, late) (late-Keeps r seq (ground arith) sized h)
        ]
      ]

  pub run_state-Keeps :
      (st : BufferState) (r : Receiver) (seq : ℕ) (payload : List ℕ) (len : ℤ)
      → IsSettled limit st r
      → seq < limit
      → seq < r.expected + r.window_size
      → length r.buffer ≡ r.window_size
      → (s ≡ seq) ⊎ Has r s
      → Keeps (run_state in_cksum st r seq payload len).1 s
  unfolding run_state
  run_state-Keeps flushing r seq payload len settled lt win sized h = absurd (settled.stored refl)
  run_state-Keeps inorder r seq payload len settled lt win sized h =
      in_order_state-Keeps r seq payload len lt win sized h
  run_state-Keeps buffering r seq payload len settled lt win sized h =
      buffering_state-Keeps r seq payload len settled lt win sized h
