-- ===== src/Buffer/Keeps/Complete.antt =====
-- buffer.c: a file whose packets have all come, in whatever order.
use cpe_464_proj.Base.{
  ℕ, ◌+◌, ◌<◌, ◌≡◌, refl, sym, ap, subst, ◌∙◌, ◌⊎◌, List, [], ◌∷◌, true, false, arith, length,
  length-replicate, All, All-mono, ◌==◌, Bool-cases, inl, inr, u32_mod, dec_lt, In,
}
use cpe_464_proj.Pdu.{
  Datagram, validate_checksum, get_sequence_num, get_flag, get_payload_len, payload_of, flag_data,
}
use cpe_464_proj.Buffer.{Receiver, is_ready, buffer_init, run_state, buffer_process_pdu}
use cpe_464_proj.Buffer.Delivery.{process_all, stream, IsGenuine}
use cpe_464_proj.Buffer.Delivery.InOrder.{written_in_order}
use cpe_464_proj.Buffer.Settled.{IsSettled, IsNumbered, buffer_init-IsSettled}
use cpe_464_proj.Buffer.Settled.Calls.{buffer_process_pdu-IsSettled, nothing_withheld}
use cpe_464_proj.Buffer.Keeps.{Has, Keeps, Keeps-ext}
use cpe_464_proj.Buffer.Keeps.States.{run_state-Keeps}

module _ (in_cksum : List ℕ → ℕ → ℕ) where
  -- A datagram that passes for the data packet number `i`.
  abbrev pub IsPacket : ℕ → Datagram → Type 0
  IsPacket i d =
      (validate_checksum in_cksum d.pdu d.pdu_len ≡ true)
      × ((get_flag d.pdu == flag_data) ≡ true)
      × (get_sequence_num d.pdu ≡ i)

  -- The packet number `i` is among the datagrams.
  abbrev pub Arrived : List Datagram → ℕ → Type 0
  Arrived ds i = (d : Datagram) × In d ds × IsPacket i d

  -- No datagram that passes for a data packet has a number behind the receiver's window.
  abbrev pub FitsWindow : Receiver → Datagram → Type 0
  FitsWindow r d = (i : ℕ) → IsPacket i d → i < r.expected + r.window_size

  abbrev pub InWindow : Receiver → List Datagram → Type 0
  InWindow r [] = Unit
  InWindow r (d ∷ ds) = FitsWindow r d × InWindow (buffer_process_pdu in_cksum r d) ds

  module _ (limit : ℕ) (small : limit < u32_mod) where
    -- A call leaves the packets that the receiver has, and adds the one that comes.
    call-Keeps :
        (r : Receiver) (d : Datagram) (s : ℕ)
        → IsSettled limit r.state r
        → IsNumbered limit in_cksum d
        → FitsWindow r d
        → length r.buffer ≡ r.window_size
        → IsPacket s d ⊎ Has r s
        → Keeps (buffer_process_pdu in_cksum r d) s
    unfolding buffer_process_pdu
    call-Keeps r d s settled numbered fits sized h =
        elim (Bool-cases (validate_checksum in_cksum d.pdu d.pdu_len)) [
          | inr bad ↦ rw bad (record { sized = sized; has = old h (λ p. cc (bad, p.0)) })
          | inl good ↦ elim (Bool-cases (get_flag d.pdu == flag_data)) [
            | inr control ↦
                rw (good, control) (record { sized = sized; has = old h (λ p. cc (control, p.1)) })
            | inl packet ↦
                let seq = get_sequence_num d.pdu in
                rw (good, packet)
                  (Keeps-ext
                    (run_state in_cksum r.state r seq (payload_of d.pdu)
                      (get_payload_len d.pdu_len)).1
                    _ s refl refl (omega arith)
                    (run_state-Keeps in_cksum limit s small r.state r seq (payload_of d.pdu)
                      (get_payload_len d.pdu_len) settled (numbered good packet)
                      (fits seq (good, packet, refl)) sized (named h)))
          ]
        ]
      where
        old : IsPacket s d ⊎ Has r s → (IsPacket s d → ⊥) → Has r s
        old (inl p) not_it = absurd (not_it p)
        old (inr has) not_it = has

        named : IsPacket s d ⊎ Has r s → (s ≡ get_sequence_num d.pdu) ⊎ Has r s
        named (inl p) = inl (sym p.2)
        named (inr has) = inr has

    -- The slots stay as many as the window has numbers.
    call-sized :
        (r : Receiver) (d : Datagram)
        → IsSettled limit r.state r
        → IsNumbered limit in_cksum d
        → FitsWindow r d
        → length r.buffer ≡ r.window_size
        → let out = buffer_process_pdu in_cksum r d in length out.buffer ≡ out.window_size
    unfolding buffer_process_pdu
    call-sized r d settled numbered fits sized =
        elim (Bool-cases (validate_checksum in_cksum d.pdu d.pdu_len)) [
          | inr bad ↦ rw bad sized
          | inl good ↦ elim (Bool-cases (get_flag d.pdu == flag_data)) [
            | inr control ↦ rw (good, control) sized
            | inl packet ↦
                let seq = get_sequence_num d.pdu in
                rw (good, packet)
                  (run_state-Keeps in_cksum limit seq small r.state r seq (payload_of d.pdu)
                    (get_payload_len d.pdu_len) settled (numbered good packet)
                    (fits seq (good, packet, refl)) sized (inl refl)).sized
          ]
        ]

    calls-Keeps :
        (ds : List Datagram) (r : Receiver) (s : ℕ)
        → IsSettled limit r.state r
        → All (IsNumbered limit in_cksum) ds
        → InWindow r ds
        → length r.buffer ≡ r.window_size
        → Arrived ds s ⊎ Has r s
        → Keeps (process_all in_cksum r ds) s
    calls-Keeps [] r s settled g w sized (inl (d, i, p)) = absurd i
    calls-Keeps [] r s settled g w sized (inr has) = record { sized = sized; has = has }
    calls-Keeps (d ∷ ds) r s settled g w sized h =
        calls-Keeps ds (buffer_process_pdu in_cksum r d) s
          (buffer_process_pdu-IsSettled limit in_cksum small r d settled g.0) g.1 w.1
          (call-sized r d settled g.0 w.0 sized) (next h)
      where
        next : Arrived (d ∷ ds) s ⊎ Has r s → Arrived ds s ⊎ Has (buffer_process_pdu in_cksum r d) s
        next (inl (e, inl here, p)) =
            inr (call-Keeps r d s settled g.0 w.0 sized (inl (subst (IsPacket s) here p))).has
        next (inl (e, inr later, p)) = inl (e, later, p)
        next (inr has) = inr (call-Keeps r d s settled g.0 w.0 sized (inr has)).has

  held_is_ready : (r : Receiver) → is_ready r ≡ false → Has r r.expected → ⊥
  unfolding is_ready
  held_is_ready r waits (inl lt) = omega arith
  held_is_ready r waits (inr (held, lt)) = cc (waits, held)

  -- Once every packet of a file has come, in whatever order, repeated or among others, the file is
  -- written whole: if each datagram that passes for a data packet carries the chunk of its number,
  -- for a file of fewer than 2^32 chunks, none comes with a number behind the window that the
  -- receiver has then, and each chunk is among them, then the bytes written are all chunks in
  -- order, each once.
  pub file_written_whole :
      (chunk : ℕ → List ℕ) (limit size : ℕ) (ds : List Datagram)
      → limit < u32_mod
      → All (IsGenuine chunk limit in_cksum) ds
      → InWindow (buffer_init size) ds
      → ((i : ℕ) → i < limit → Arrived ds i)
      → (process_all in_cksum (buffer_init size) ds).written ≡ stream chunk limit
  unfolding buffer_init
  file_written_whole chunk limit size ds small genuine window arrived =
      let out = process_all in_cksum (buffer_init size) ds in
      let numbered : All (IsNumbered limit in_cksum) ds =
        All-mono {P = IsGenuine chunk limit in_cksum} ds (λ d g v f. (g v f).0) genuine in
      let (waits, _, within) = nothing_withheld limit in_cksum small size ds numbered in
      let (n, _, w, next) = written_in_order chunk limit in_cksum small size ds genuine in
      let whole : out.expected ≡ limit = elim (dec_lt out.expected limit) [
        | no end ↦ omega arith
        | yes more ↦
            let k =
              calls-Keeps limit small ds (buffer_init size) out.expected
                (buffer_init-IsSettled limit size) numbered window (length-replicate size _)
                (inl (arrived out.expected more)) in
            absurd (held_is_ready out waits k.has)
      ] in
      w ∙ ap (stream chunk) (sym next ∙ whole)
