-- ===== src/Buffer/Asks.antt =====
-- buffer.c: the SREJs that the receiver sends.
pub mod Once
use cpe_464_proj.Base.{
  ℕ, zero, suc, ◌+◌, ◌-◌, ◌≤◌, ◌<◌, ◌≡◌, ◌≢◌, refl, sym, ap, subst, ◌∙◌, ◌⊎◌, List, [], ◌∷◌, Option,
  none, some, Bool, true, false, ◌&&◌, arith, length, All, All-set, ◌==◌, ltb, leb, if◌then◌else◌,
  Bool-cases, inl, inr, inc32, u32_mod, ℤ, htonl_bytes, dec_lt, ℕ_discrete,
}
use cpe_464_proj.Pdu.{
  Datagram, create_pdu, validate_checksum, get_sequence_num, get_flag, get_payload_len, payload_of,
  get_control_seq_num, flag_data, flag_rr, flag_srej,
}
use cpe_464_proj.Pdu.Codec.{pdu_for, create_pdu-some, pdu_for_control}
use cpe_464_proj.Buffer.{
  Receiver, BufferState, inorder, buffering, flushing, is_ready, flush_step, flush_loop,
  buffer_init, write_packet_to_disk, buffer_packet, send_rr, send_srej, send_srej_once, after_flush,
  flushing_state, in_order_state, buffering_state, run_state, buffer_process_pdu, trap_zero_window,
}
use cpe_464_proj.Buffer.Delivery.{process_all}
use cpe_464_proj.Buffer.Settled.{
  IsEarly, IsNumbered, IsSettled, buffer_init-IsSettled, flush_loop-Grows, flush_loop-Flushes,
}
use cpe_464_proj.Buffer.Settled.Calls.{buffer_process_pdu-IsSettled}

-- Whether a PDU is an SREJ for the number `n`.
abbrev pub asks_for : ℕ → Option (List ℕ) → Bool
asks_for n none = false
asks_for n (some pdu) = get_flag pdu == flag_srej && get_control_seq_num pdu == n

abbrev pub count_srej : ℕ → List (Option (List ℕ)) → ℕ
count_srej n [] = 0
count_srej n (x ∷ xs) = if asks_for n x then suc (count_srej n xs) else count_srej n xs

module _ (in_cksum : List ℕ → ℕ → ℕ) where
  asks_for-srej :
      (n seq e : ℕ)
      → e < u32_mod
      → asks_for n (create_pdu in_cksum seq flag_srej (htonl_bytes e)) ≡ (e == n)
  unfolding get_flag
  asks_for-srej n seq e h =
      ap (asks_for n) (create_pdu-some in_cksum seq flag_srej (htonl_bytes e) (omega arith))
      ∙ ap (λ k. k == n) (pdu_for_control in_cksum seq flag_srej e h)

  asks_for-rr : (n seq e : ℕ) → asks_for n (create_pdu in_cksum seq flag_rr (htonl_bytes e)) ≡ false
  unfolding get_flag
  asks_for-rr n seq e =
      ap (asks_for n) (create_pdu-some in_cksum seq flag_rr (htonl_bytes e) (omega arith))

-- No SREJ for a number beyond the expected one, and one for that exactly if it is `last_srej`.
pub record Asks (r : Receiver) : Type 0 where
  pub once : (n : ℕ) → n < r.expected → count_srej n r.sent ≤ 1
  pub now : count_srej r.expected r.sent ≡ (if r.last_srej == r.expected then 1 else 0)
  pub beyond : (n : ℕ) → r.expected < n → count_srej n r.sent ≡ 0
  pub old : (r.last_srej ≤ r.expected) ⊎ (r.last_srej ≡ u32_mod - 1)

pub Asks-once : (r : Receiver) (n : ℕ) → Asks r → count_srej n r.sent ≤ 1
Asks-once r n a = elim (dec_lt n r.expected) [
  | yes before ↦ a.once n before
  | no later ↦ elim (ℕ_discrete r.expected n) [
    | yes same ↦ subst (λ k. count_srej k r.sent ≤ 1) same (ground (arith, a.now))
    | no other ↦ omega (arith, a.beyond n (omega arith))
  ]
]

-- The expected number has grown, with nothing sent.
pub Asks-grow :
    (r t : Receiver)
    → t.expected < u32_mod - 1
    → r.expected < t.expected
    → t.sent ≡ r.sent
    → (t.last_srej ≡ r.last_srej) ⊎ (t.last_srej ≡ u32_mod - 1)
    → Asks r
    → Asks t
Asks-grow r t small more same last a =
    let behind : (t.last_srej ≤ r.expected) ⊎ (t.last_srej ≡ u32_mod - 1) =
      ground (arith, last, a.old) in
    record {
      once = λ n lt. rw same (Asks-once r n a);
      now = rw same (ground (arith, a.beyond t.expected more, behind));
      beyond = λ n lt. rw same (a.beyond n (omega arith));
      old = ground (arith, behind);
    }

-- Nothing that counts has changed.
pub Asks-ext :
    (r t : Receiver)
    → t.expected ≡ r.expected
    → t.sent ≡ r.sent
    → t.last_srej ≡ r.last_srej
    → Asks r
    → Asks t
Asks-ext r t e s l a = record {
  once = λ n lt. rw s (Asks-once r n a);
  now = rw (s, e, l) a.now;
  beyond = λ n lt. rw s (a.beyond n (omega arith));
  old = rw (e, l) a.old;
}

module _ (in_cksum : List ℕ → ℕ → ℕ) where
  pub send_rr-Asks : (r : Receiver) → Asks r → Asks (send_rr in_cksum r)
  unfolding send_rr
  send_rr-Asks r a =
      let rr = λ (n : ℕ). asks_for-rr in_cksum n r.ack_seq_num r.expected in
      record {
        once = λ n lt. rw (rr n) (a.once n lt);
        now = rw (rr r.expected) a.now;
        beyond = λ n lt. rw (rr n) (a.beyond n lt);
        old = a.old;
      }

  -- The SREJ is sent if it was not.
  pub send_srej_once-Asks :
      (r : Receiver)
      → r.expected < u32_mod
      → Asks r
      → let out = send_srej_once in_cksum r in Asks out × (out.last_srej ≡ r.expected)
  unfolding send_srej_once send_srej
  send_srej_once-Asks r small a = elim (Bool-cases (r.last_srej == r.expected)) [
    | inl old ↦ rw old (a, ground arith)
    | inr new ↦
        let srej = λ (n : ℕ). asks_for-srej in_cksum n r.ack_seq_num r.expected small in
        rw new (
          record {
            once = λ n lt. rw (srej n) (ground (arith, a.once n lt));
            now = rw (srej r.expected) (ground (arith, a.now));
            beyond = λ n lt. rw (srej n) (ground (arith, a.beyond n lt));
            old = inl (omega arith);
          },
          refl,
        )
  ]
