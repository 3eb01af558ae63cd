-- ===== src/Buffer/Replies.antt =====
-- What buffer.c sends: the RRs and SREJs of the state functions, and the numbers that they carry.
use cpe_464_proj.Base.{
  ℕ, zero, suc, ◌≤◌, ◌<◌, ◌≡◌, refl, ap, subst, ◌∙◌, ◌⊎◌, List, ◌∷◌, Option, false, arith, length,
  All, All-mono, ◌==◌, ltb, leb, if◌then◌else◌, Bool-cases, inl, inr, htonl_bytes, u32_mod, inc32,
  ◌-◌, ℤ,
}
use cpe_464_proj.Pdu.{
  Datagram, create_pdu, flag_rr, flag_srej, validate_checksum, get_flag, flag_data,
  get_sequence_num, payload_of, get_payload_len,
}
use cpe_464_proj.Buffer.{
  Receiver, BufferState, inorder, buffering, flushing, is_ready, flush_step, flush_loop,
  write_packet_to_disk, buffer_packet, send_rr, send_srej_once, after_flush, flushing_state,
  in_order_state, buffering_state, run_state, buffer_process_pdu, trap_zero_window,
}
use cpe_464_proj.Buffer.Delivery.{Delivered, IsGenuine}
use cpe_464_proj.Buffer.Delivery.InOrder.{buffer_process_pdu-Delivered}

module _ (in_cksum : List ℕ → ℕ → ℕ) where
  -- A PDU of the server's log: an RR for a number up to `e`, or a PDU with another flag.
  pub data IsReply (e : ℕ) (x : Option (List ℕ)) : Type 0 where
    rr : (seq n : ℕ) → n ≤ e → x ≡ create_pdu in_cksum seq flag_rr (htonl_bytes n) → IsReply e x
    not_rr :
        (seq flag : ℕ) (payload : List ℕ)
        → (flag == flag_rr) ≡ false
        → x ≡ create_pdu in_cksum seq flag payload
        → IsReply e x

  pub IsReply-mono : (e f : ℕ) (x : Option (List ℕ)) → e ≤ f → IsReply e x → IsReply f x
  IsReply-mono e f x le (rr seq n h p) = rr seq n (omega arith) p
  IsReply-mono e f x le (not_rr seq flag payload h p) = not_rr seq flag payload h p

  -- A call sends nothing, or one PDU, which promises no more than the receiver has then.
  abbrev pub Replies : Receiver → Receiver → Type 0
  Replies r out =
      (out.sent ≡ r.sent)
      ⊎ ((x : Option (List ℕ)) × (out.sent ≡ x ∷ r.sent) × IsReply out.expected x)

  send_rr-Replies : (r : Receiver) → Replies r (send_rr in_cksum r)
  unfolding send_rr
  send_rr-Replies r = inr (_, refl, rr r.ack_seq_num r.expected (omega arith) refl)

  send_srej_once-Replies : (r : Receiver) → Replies r (send_srej_once in_cksum r)
  unfolding send_srej_once
  send_srej_once-Replies r = elim (Bool-cases (r.last_srej == r.expected)) [
    | inl old ↦ rw old (inl refl)
    | inr new ↦
        rw new (inr (_, refl, not_rr r.ack_seq_num flag_srej (htonl_bytes r.expected) refl refl))
  ]

  sent-flush_loop : (fuel : ℕ) (r : Receiver) → (flush_loop fuel r).sent ≡ r.sent
  unfolding flush_loop flush_step
  sent-flush_loop zero r = refl
  sent-flush_loop (suc fuel) r = elim (Bool-cases (is_ready r)) [
    | inl ready ↦ rw ready (sent-flush_loop fuel (flush_step r))
    | inr done ↦ rw done refl
  ]

  after_flush-Replies : (r : Receiver) → Replies r (after_flush in_cksum r).1
  unfolding after_flush
  after_flush-Replies r = elim (Bool-cases (leb r.expected r.highest)) [
    | inl gap ↦ rw gap (send_srej_once-Replies r)
    | inr whole ↦ rw whole (send_rr-Replies r)
  ]

  Replies-trans :
      (r out : Receiver) (sent : List (Option (List ℕ)))
      → sent ≡ r.sent
      → (out.sent ≡ sent) ⊎ ((x : Option (List ℕ)) × (out.sent ≡ x ∷ sent) × IsReply out.expected x)
      → Replies r out
  Replies-trans r out sent e (inl same) = inl (same ∙ e)
  Replies-trans r out sent e (inr (x, p, reply)) = inr (x, p ∙ ap (λ xs. x ∷ xs) e, reply)

  flushing_state-Replies : (r : Receiver) → Replies r (flushing_state in_cksum r).1
  unfolding flushing_state
  flushing_state-Replies r =
      let t = flush_loop (length r.buffer) (trap_zero_window r) in
      Replies-trans r (after_flush in_cksum t).1 t.sent
        (sent-flush_loop (length r.buffer) (trap_zero_window r)) (after_flush-Replies t)

  run_state-Replies :
      (s : BufferState) (r : Receiver) (seq : ℕ) (payload : List ℕ) (len : ℤ)
      → Replies r (run_state in_cksum s r seq payload len).1
  unfolding run_state in_order_state buffering_state write_packet_to_disk buffer_packet
  run_state-Replies flushing r seq payload len = flushing_state-Replies r
  run_state-Replies inorder r seq payload len = elim (Bool-cases (seq == r.expected)) [
    | inl due ↦ rw due (
        send_rr-Replies (record (write_packet_to_disk r payload len) {
          highest = r.expected;
          expected = inc32 r.expected;
        }))
    | inr not_due ↦ elim (Bool-cases (ltb r.expected seq)) [
      | inl early ↦
          rw (not_due, early)
            (send_srej_once-Replies (record (buffer_packet r seq payload len) { highest = seq }))
      | inr late ↦ rw (not_due, late) (send_rr-Replies r)
    ]
  ]
  run_state-Replies buffering r seq payload len = elim (Bool-cases (seq == r.expected)) [
    | inl due ↦ rw due (
        flushing_state-Replies
          (record (write_packet_to_disk (record r { last_srej = u32_mod - 1 }) payload len) {
            expected = inc32 r.expected;
          }))
    | inr not_due ↦ elim (Bool-cases (ltb r.expected seq)) [
      | inl early ↦
          rw (not_due, early)
            (send_srej_once-Replies (record (buffer_packet r seq payload len) {
              highest = if ltb r.highest seq then seq else r.highest;
            }))
      | inr late ↦ rw (not_due, late) (send_rr-Replies r)
    ]
  ]

  -- Each call of `bufferProcessPDU` sends at most one PDU, and an RR for no more than is expected.
  buffer_process_pdu-Replies :
      (r : Receiver) (d : Datagram) → Replies r (buffer_process_pdu in_cksum r d)
  unfolding buffer_process_pdu
  buffer_process_pdu-Replies r d = elim (Bool-cases (validate_checksum in_cksum d.pdu d.pdu_len)) [
    | inr bad ↦ rw bad (inl refl)
    | inl good ↦ elim (Bool-cases (get_flag d.pdu == flag_data)) [
      | inr control ↦ rw (good, control) (inl refl)
      | inl packet ↦
          rw (good, packet)
            (run_state-Replies r.state r (get_sequence_num d.pdu) (payload_of d.pdu)
              (get_payload_len d.pdu_len))
    ]
  ]

module _ (chunk : ℕ → List ℕ) (limit : ℕ) (in_cksum : List ℕ → ℕ → ℕ) where
  -- The first `n` chunks have been written, and no RR promises more.
  pub record Served (n : ℕ) (r : Receiver) : Type 0 where
    pub delivered : Delivered chunk limit n r
    pub replies : All (IsReply in_cksum n) r.sent

  Served-Replies :
      (n m : ℕ) (r out : Receiver)
      → n ≤ m
      → Delivered chunk limit m out
      → All (IsReply in_cksum n) r.sent
      → Replies in_cksum r out
      → Served m out
  Served-Replies n m r out le d log (inl same) = record {
    delivered = d;
    replies = rw same (All-mono r.sent (λ x. IsReply-mono in_cksum n m x le) log);
  }
  Served-Replies n m r out le d log (inr (x, e, reply)) = record {
    delivered = d;
    replies = rw e (
      subst (λ k. IsReply in_cksum k x) d.next reply,
      All-mono r.sent (λ y. IsReply-mono in_cksum n m y le) log,
    );
  }

  pub buffer_process_pdu-Served :
      (n : ℕ) (r : Receiver) (d : Datagram)
      → limit < u32_mod
      → Served n r
      → IsGenuine chunk limit in_cksum d
      → (m : ℕ) × (n ≤ m) × Served m (buffer_process_pdu in_cksum r d)
  buffer_process_pdu-Served n r d small s g =
      let (m, le, h) =
        buffer_process_pdu-Delivered chunk limit in_cksum small n r d s.delivered g in
      (m, le, Served-Replies n m r _ le h s.replies (buffer_process_pdu-Replies in_cksum r d))
