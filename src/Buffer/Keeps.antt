-- ===== src/Buffer/Keeps.antt =====
-- buffer.c: what became of a packet that came, once it is written or held in its slot.
pub mod States
pub mod Complete
use cpe_464_proj.Base.{
  ℕ, zero, suc, ◌+◌, ◌%◌, ◌≤◌, ◌<◌, ◌≡◌, ◌≢◌, refl, sym, ap, subst, ◌∙◌, ◌⊎◌, List, [], ◌∷◌, Bool,
  true, false, ◌&&◌, arith, length, length-set, get_or, set, get_or-set_self, get_or-set_ne, All,
  All-get_or, All-set, ◌==◌, ltb, leb, if◌then◌else◌, Bool-cases, inl, inr, inc32, u32_mod, ℤ,
  ℕ_discrete, dec_lt, dec_le, In,
}
use native.Mathlib.Nat.{mod-lt}
use cpe_464_proj.Pdu.{
  Datagram, validate_checksum, get_sequence_num, get_flag, get_payload_len, payload_of, flag_data,
}
use cpe_464_proj.Window.Valid.{mod-ne}
use cpe_464_proj.Buffer.{
  Receiver, BufferEntry, BufferState, inorder, buffering, flushing, empty_entry, entry, get_index,
  is_ready, flush_step, flush_loop, buffer_init, write_packet_to_disk, buffer_packet, send_rr,
  send_srej_once, after_flush, flushing_state, in_order_state, buffering_state, run_state,
  buffer_process_pdu, trap_zero_window,
}
use cpe_464_proj.Buffer.Settled.{IsEarly, IsSettled}
use cpe_464_proj.Buffer.Repair.{is_held}

-- The packet with the number `s` is written, or waits in its slot of the window.
abbrev pub Has : Receiver → ℕ → Type 0
Has r s = (s < r.expected) ⊎ ((is_held r s ≡ true) × (s < r.expected + r.window_size))

-- One slot for each number of the window, and the packet is there.
pub record Keeps (r : Receiver) (s : ℕ) : Type 0 where
  pub sized : length r.buffer ≡ r.window_size
  pub has : Has r s

-- Nothing is lost when the expected number grows.
pub Keeps-ext :
    (r out : Receiver) (s : ℕ)
    → out.buffer ≡ r.buffer
    → out.window_size ≡ r.window_size
    → r.expected ≤ out.expected
    → Keeps r s
    → Keeps out s
Keeps-ext r out s b w e k = record { sized = ap length b ∙ k.sized ∙ sym w; has = go k.has }
  where
    go : Has r s → Has out s
    go (inl lt) = inl (omega arith)
    go (inr (held, lt)) = inr (rw (b, w) held, omega (arith, w))

-- A round of the flush loop clears the slot of a packet that it writes.
pub flush_step-Keeps :
    (r : Receiver) (s : ℕ) → suc r.expected < u32_mod → Keeps r s → Keeps (flush_step r) s
unfolding flush_step
flush_step-Keeps r s small k = record { sized = length-set r.buffer _ _ ∙ k.sized; has = go k.has }
  where
    go : Has r s → Has (flush_step r) s
    go (inl lt) = inl (omega arith)
    go (inr (held, lt)) = elim (dec_lt r.expected s) [
      | no old ↦ inl (omega arith)
      | yes later ↦ inr (
        ap (λ (e : BufferEntry). e.valid_flag && e.seq_num == s)
              (get_or-set_ne r.buffer (r.expected % r.window_size) (s % r.window_size) _ empty_entry
                (mod-ne r.expected s r.window_size later lt))
            ∙ held,
        omega arith,
      )
    ]

-- Two numbers of a window have different slots.
apart :
    (s seq size lower : ℕ)
    → s ≢ seq
    → lower ≤ s
    → s < lower + size
    → lower ≤ seq
    → seq < lower + size
    → seq % size ≢ s % size
apart s seq size lower ne a b c d = elim (dec_lt s seq) [
  | yes before ↦ λ e. mod-ne s seq size before (omega arith) (sym e)
  | no after ↦ mod-ne seq s size (omega arith) (omega arith)
]

-- A packet of the window that is put in its slot, and the others.
pub buffer_packet-Keeps :
    (r : Receiver) (seq s : ℕ) (payload : List ℕ) (len : ℤ)
    → r.expected < seq
    → seq < r.expected + r.window_size
    → length r.buffer ≡ r.window_size
    → (s ≡ seq) ⊎ Has r s
    → Keeps (buffer_packet r seq payload len) s
unfolding buffer_packet
buffer_packet-Keeps r seq s payload len lo hi sized h = record {
  sized = length-set r.buffer _ _ ∙ sized;
  has = go h;
}
  where
    out : Receiver
    out = buffer_packet r seq payload len

    held_new : is_held out seq ≡ true
    held_new =
        let some_slots : 0 < r.window_size = omega arith in
        let slot_lt : seq % r.window_size < length r.buffer =
          omega (arith, sized, mod-lt seq some_slots) in
        rw (get_or-set_self r.buffer (seq % r.window_size) _ empty_entry slot_lt) (ground arith)

    new : (t : ℕ) → t ≡ seq → Has out t
    new t e = subst (Has out) (sym e) (inr (held_new, hi))

    go : (s ≡ seq) ⊎ Has r s → Has out s
    go (inl e) = new s e
    go (inr (inl lt)) = inl lt
    go (inr (inr (held, lt))) = elim (ℕ_discrete s seq) [
      | yes e ↦ new s e
      | no ne ↦ elim (dec_lt s r.expected) [
        | yes old ↦ inl old
        | no here ↦ inr (
          ap (λ (e : BufferEntry). e.valid_flag && e.seq_num == s)
                (get_or-set_ne r.buffer (seq % r.window_size) (s % r.window_size) _ empty_entry
                  (apart s seq r.window_size r.expected ne (omega arith) lt (omega arith) hi))
              ∙ held,
          lt,
        )
      ]
    ]
