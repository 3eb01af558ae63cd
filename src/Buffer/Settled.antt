-- ===== src/Buffer/Settled.antt =====
-- The receiver of buffer.c between two calls of `bufferProcessPDU`.
pub mod Calls
use cpe_464_proj.Base.{
  ℕ, zero, suc, ◌+◌, ◌≤◌, ◌<◌, ◌≡◌, ◌≢◌, refl, sym, ap, subst, ◌∙◌, List, [], ◌∷◌, Bool, true,
  false, ◌&&◌, ◌||◌, arith, length, get_or, get_or-set_self, get_or-set_ne, set, set_past, All,
  All-set, All-get_or, All-mono, All-replicate, ◌==◌, ltb, leb, if◌then◌else◌, Bool-cases, inl, inr,
  inc32, u32_mod, ℤ, ℕ_discrete, dec_lt, ◌%◌,
}
use cpe_464_proj.Pdu.{
  Datagram, validate_checksum, get_sequence_num, get_flag, get_payload_len, payload_of, flag_data,
}
use cpe_464_proj.Buffer.{
  Receiver, BufferEntry, BufferState, inorder, buffering, flushing, empty_entry, entry, get_index,
  is_ready, flush_step, flush_loop, buffer_init, write_packet_to_disk, buffer_packet, send_rr,
  send_srej_once, after_flush, flushing_state, in_order_state, buffering_state, run_state,
  buffer_process_pdu, trap_zero_window, enter,
}
use cpe_464_proj.Buffer.Flush.{flush_loop_complete}
use cpe_464_proj.Buffer.Delivery.{process_all}

-- The numbers in the buffer are below this one.
abbrev pub bound : BufferState → Receiver → ℕ
bound inorder r = r.expected
bound buffering r = suc r.highest
bound flushing r = 0

module _ (limit : ℕ) where
  abbrev pub IsEarly : ℕ → BufferEntry → Type 0
  IsEarly b e = e.valid_flag ≡ true → (e.seq_num < limit) × (e.seq_num < b)

  -- A receiver between two calls.
  pub record IsSettled (s : BufferState) (r : Receiver) : Type 0 where
    pub stored : s ≢ flushing
    pub within : r.expected ≤ limit
    pub slots : All (IsEarly (bound s r)) r.buffer
    pub waits : is_ready r ≡ false

  -- A datagram that passes for a data packet has a number of the file.
  abbrev pub IsNumbered : (List ℕ → ℕ → ℕ) → Datagram → Type 0
  IsNumbered in_cksum d =
      validate_checksum in_cksum d.pdu d.pdu_len ≡ true
      → (get_flag d.pdu == flag_data) ≡ true
      → get_sequence_num d.pdu < limit

  pub IsEarly-mono :
      (b c : ℕ) (es : List BufferEntry) → b ≤ c → All (IsEarly b) es → All (IsEarly c) es
  IsEarly-mono b c es h =
      All-mono es (λ e early valid. ((early valid).0, omega (arith, (early valid).1)))

  -- Old packets are not due.
  pub not_ready : (r : Receiver) → All (IsEarly r.expected) r.buffer → is_ready r ≡ false
  unfolding is_ready
  not_ready r early = elim (Bool-cases ((entry r r.expected).valid_flag)) [
    | inr empty ↦ rw empty
    | inl valid ↦
        let below : (entry r r.expected).seq_num < r.expected =
          (All-get_or (IsEarly r.expected) r.buffer _ empty_entry early (λ e. absurd (cc))
            valid).1 in
        ground arith
  ]

  -- Whether a packet is due is seen from the buffer, its size and the expected number.
  pub is_ready-ext :
      (r t : Receiver)
      → t.buffer ≡ r.buffer
      → t.window_size ≡ r.window_size
      → t.expected ≡ r.expected
      → is_ready t ≡ is_ready r
  unfolding is_ready
  is_ready-ext r t b w e = rw (b, w, e)

  -- Another packet in the buffer does not make the expected one ready.
  pub is_ready-buffer_packet :
      (r : Receiver) (seq : ℕ) (payload : List ℕ) (len : ℤ)
      → r.expected < seq
      → is_ready r ≡ false
      → is_ready (buffer_packet r seq payload len) ≡ false
  unfolding is_ready buffer_packet
  is_ready-buffer_packet r seq payload len later waits =
      let i = get_index r seq in
      let j = get_index r r.expected in
      elim (ℕ_discrete i j) [
        | no ne ↦ rw (get_or-set_ne r.buffer i j _ empty_entry ne) waits
        | yes same ↦ elim (dec_lt i (length r.buffer)) [
          | yes inside ↦
              rw (sym same, get_or-set_self r.buffer i _ empty_entry inside) (ground arith)
          | no outside ↦ rw (set_past r.buffer i _ (omega arith)) waits
        ]
      ]

  -- A settled receiver, with other fields changed.
  pub IsSettled-ext :
      (s : BufferState) (r t : Receiver)
      → t.buffer ≡ r.buffer
      → t.window_size ≡ r.window_size
      → t.expected ≡ r.expected
      → t.highest ≡ r.highest
      → IsSettled s r
      → IsSettled s t
  IsSettled-ext s r t b w e h settled = record {
    stored = settled.stored;
    within = rw e settled.within;
    slots = subst (All (IsEarly (bound s t))) (sym b) (bounds s (settled.slots));
    waits = is_ready-ext r t b w e ∙ settled.waits;
  }
    where
      bounds :
          (s : BufferState)
          → All (IsEarly (bound s r)) r.buffer
          → All (IsEarly (bound s t)) r.buffer
      bounds inorder all = rw e all
      bounds buffering all = rw h all
      bounds flushing all = all

  pub buffer_init-IsSettled : (size : ℕ) → IsSettled inorder (buffer_init size)
  unfolding buffer_init
  buffer_init-IsSettled size = record {
    stored = λ e. absurd (cc (e));
    within = omega arith;
    slots = All-replicate (IsEarly 0) size empty_entry (λ e. absurd (cc));
    waits =
        not_ready (buffer_init size)
          (All-replicate (IsEarly 0) size empty_entry (λ e. absurd (cc)));
  }

  pub buffer_packet-IsEarly :
      (b : ℕ) (r : Receiver) (seq : ℕ) (payload : List ℕ) (len : ℤ)
      → seq < limit
      → seq < b
      → All (IsEarly b) r.buffer
      → All (IsEarly b) (buffer_packet r seq payload len).buffer
  unfolding buffer_packet
  buffer_packet-IsEarly b r seq payload len h k all =
      All-set (IsEarly b) r.buffer _ _ all (λ _. (h, k))

  -- The loop of `flushingState` keeps the numbers in the buffer and does not pass the limit.
  pub record Flushes (r t : Receiver) : Type 0 where
    pub same_highest : t.highest ≡ r.highest
    pub still_within : t.expected ≤ limit
    pub still_early : All (IsEarly (suc r.highest)) t.buffer

  flush_step-up :
      (r : Receiver)
      → limit < u32_mod
      → All (IsEarly (suc r.highest)) r.buffer
      → is_ready r ≡ true
      → ((flush_step r).expected ≡ suc r.expected) × (suc r.expected ≤ limit)
  unfolding flush_step is_ready
  flush_step-up r small early ready =
      let below : (entry r r.expected).seq_num < limit =
        (All-get_or (IsEarly (suc r.highest)) r.buffer _ empty_entry early (λ e. absurd (cc))
          (ground arith)).0 in
      ground arith

  pub flush_loop-Flushes :
      (fuel : ℕ) (r : Receiver)
      → limit < u32_mod
      → r.expected ≤ limit
      → All (IsEarly (suc r.highest)) r.buffer
      → Flushes r (flush_loop fuel r)
  unfolding flush_loop flush_step
  flush_loop-Flushes zero r small within early = record {
    same_highest = refl;
    still_within = within;
    still_early = early;
  }
  flush_loop-Flushes (suc fuel) r small within early = elim (Bool-cases (is_ready r)) [
    | inr done ↦
        rw done (record { same_highest = refl; still_within = within; still_early = early })
    | inl ready ↦
        let f =
          flush_loop-Flushes fuel (flush_step r) small
            (rw (flush_step-up r small early ready).0 (flush_step-up r small early ready).1)
            (All-set (IsEarly (suc r.highest)) r.buffer _ _ early (λ e. absurd (cc))) in
        rw ready (record {
          same_highest = f.same_highest;
          still_within = f.still_within;
          still_early = f.still_early;
        })
  ]

  -- The loop does not go back.
  pub flush_loop-Grows :
      (fuel : ℕ) (r : Receiver)
      → limit < u32_mod
      → All (IsEarly (suc r.highest)) r.buffer
      → r.expected ≤ (flush_loop fuel r).expected
  unfolding flush_loop flush_step
  flush_loop-Grows zero r small early = omega arith
  flush_loop-Grows (suc fuel) r small early = elim (Bool-cases (is_ready r)) [
    | inr done ↦ rw done (omega arith)
    | inl ready ↦
        let up = flush_step-up r small early ready in
        let more =
          flush_loop-Grows fuel (flush_step r) small
            (All-set (IsEarly (suc r.highest)) r.buffer _ _ early (λ e. absurd (cc))) in
        rw ready (omega (arith, up.0, more))
  ]
