-- ===== src/Transfer/Network/Windows.antt =====
-- rcopy.c and server.c: the window of the client against the window of the receiver.
use cpe_464_proj.Rcopy.Input.{input_of, few_of, input_of-Fits}
use cpe_464_proj.Base.{
  ℕ, zero, suc, ◌+◌, ◌-◌, inc32, ◌<◌, ◌≡◌, refl, ◌∙◌, List, arith, length, u32_mod, ◌==◌,
  Bool-cases, inl, inr, ℤ,
}
use cpe_464_proj.Pdu.{
  Datagram, flag_data, validate_checksum, get_flag, get_sequence_num, payload_of, get_payload_len,
}
use cpe_464_proj.Buffer.{
  Receiver, BufferState, inorder, buffering, flushing, is_ready, flush_step, flush_loop,
  write_packet_to_disk, buffer_packet, send_rr, send_srej_once, after_flush, flushing_state,
  in_order_state, buffering_state, run_state, buffer_init, buffer_process_pdu, trap_zero_window,
}
use cpe_464_proj.Buffer.Keeps.Complete.{IsPacket}
use cpe_464_proj.Client.{RcopyInfo}
use cpe_464_proj.Setup.{Args, Answers, init_rcopy_info, started}
use cpe_464_proj.Rcopy.Runs.{rcopy_step-Leads}
use cpe_464_proj.Rcopy.Valid.{HasRoom, HasRoom-ext, HasRoom-IsKept, started-HasRoom}
use cpe_464_proj.Transfer.{IsCarried}
use cpe_464_proj.Transfer.Prefix.{IsCarried-IsGenuine}
use cpe_464_proj.Transfer.Network.{
  Ends, finds, Step, client_moves, server_takes, server_controls, beginning, Run, stay, later,
}
use cpe_464_proj.Transfer.Network.Invariant.{Run-Joint}
use cpe_464_proj.Transfer.Network.Agreement.{beginning-IsJoint}

size-flush_loop : (fuel : ℕ) (r : Receiver) → (flush_loop fuel r).window_size ≡ r.window_size
unfolding flush_loop flush_step
size-flush_loop zero r = refl
size-flush_loop (suc fuel) r = elim (Bool-cases (is_ready r)) [
  | inl ready ↦ rw ready (size-flush_loop fuel (flush_step r))
  | inr done ↦ rw done refl
]

module _ (in_cksum : List ℕ → ℕ → ℕ) where
  size-flushing_state : (r : Receiver) → (flushing_state in_cksum r).1.window_size ≡ r.window_size
  unfolding flushing_state after_flush send_srej_once
  size-flushing_state r =
      let same = size-flush_loop (length r.buffer) (trap_zero_window r) in ground (arith, same)

  size-run_state :
      (s : BufferState) (r : Receiver) (seq : ℕ) (payload : List ℕ) (len : ℤ)
      → (run_state in_cksum s r seq payload len).1.window_size ≡ r.window_size
  unfolding run_state in_order_state buffering_state write_packet_to_disk buffer_packet send_rr
      send_srej_once
  size-run_state flushing r seq payload len = size-flushing_state r
  size-run_state inorder r seq payload len = ground arith
  size-run_state buffering r seq payload len = elim (Bool-cases (seq == r.expected)) [
    | inl due ↦
        let advanced : Receiver =
          record (write_packet_to_disk (record r { last_srej = u32_mod - 1 }) payload len) {
            expected = inc32 r.expected;
          } in
        rw due (size-flushing_state advanced)
    | inr other ↦ ground arith
  ]

  size-buffer_process_pdu :
      (r : Receiver) (d : Datagram) → (buffer_process_pdu in_cksum r d).window_size ≡ r.window_size
  unfolding buffer_process_pdu
  size-buffer_process_pdu r d = elim (Bool-cases (validate_checksum in_cksum d.pdu d.pdu_len)) [
    | inr bad ↦ rw bad refl
    | inl good ↦ elim (Bool-cases (get_flag d.pdu == flag_data)) [
      | inr control ↦ rw (good, control) refl
      | inl packet ↦
          rw (good, packet)
            (size-run_state r.state r (get_sequence_num d.pdu) (payload_of d.pdu)
              (get_payload_len d.pdu_len))
    ]
  ]

  -- Both windows have this size, and the client's is valid.
  record IsWide (size : ℕ) (e : Ends) : Type 0 where
    client_room : HasRoom size e.client
    receiver_width : e.receiver.window_size ≡ size

  Step-IsWide : (size : ℕ) (e f : Ends) → IsWide size e → Step in_cksum e f → IsWide size f
  Step-IsWide size e _ w (client_moves polls arrivals carried) =
      let info = finds polls arrivals e.client in
      record {
        client_room =
            rcopy_step-Leads in_cksum (HasRoom size) (HasRoom-IsKept size in_cksum) e.state info
              (HasRoom-ext size e.client info refl refl w.client_room);
        receiver_width = w.receiver_width;
      }
  Step-IsWide size e _ w (server_takes d carried) = record {
    client_room = w.client_room;
    receiver_width = size-buffer_process_pdu e.receiver d ∙ w.receiver_width;
  }
  Step-IsWide size e _ w (server_controls seq flag payload other) = record {
    client_room = w.client_room;
    receiver_width = w.receiver_width;
  }

  Run-IsWide : (size : ℕ) (e f : Ends) → IsWide size e → Run in_cksum e f → IsWide size f
  Run-IsWide size e _ w stay = w
  Run-IsWide size e _ w (later {f} {g} run step) =
      Step-IsWide size f g (Run-IsWide size e f w run) step

  -- At every point of every interleaved run of a client and a server process over a network that
  -- loses, repeats, reorders and damages PDUs, with the same window size at both ends: a datagram
  -- that reaches the server and passes for a data packet has a number below the end of the
  -- receiver's window, where each datagram that validates is a PDU that the other end has sent
  -- before, for a client started from any accepted command line, whose window size and number of
  -- reads together are below 2^32.
  pub number_below_end :
      (a : Args) (answers : Answers) (client : RcopyInfo) (e : Ends) (d : Datagram) (i : ℕ)
      → init_rcopy_info a answers ≡ started client
      → client.window.window_size + length answers.reads < u32_mod
      → Run in_cksum (beginning client client.window.window_size) e
      → IsCarried in_cksum e.client.sent d
      → IsPacket in_cksum i d
      → i < e.receiver.expected + e.receiver.window_size
  unfolding buffer_init
  number_below_end a answers client e d i given small run carried (good, packet, number) =
      let size = client.window.window_size in
      let fewer : length answers.reads < u32_mod = omega (arith, small) in
      let (n, m, _, _, j) =
        Run-Joint in_cksum (input_of a answers) 0 0 (beginning client size) e
          (few_of a answers fewer) (input_of-Fits a answers client given)
          (beginning-IsJoint in_cksum a answers client size given) run in
      let w =
        Run-IsWide size (beginning client size) e
          (record {
            client_room = started-HasRoom a answers client given small;
            receiver_width = refl;
          })
          run in
      let below =
        IsCarried-IsGenuine in_cksum (input_of a answers) n n e.client.sent d (omega arith)
          (omega (arith, small, j.tracks.enough)) j.tracks.log carried good packet in
      omega (
        arith, below.0, number, j.tracks.count, j.acked, j.served.delivered.next,
        w.client_room.valid.bounded, w.client_room.width, w.receiver_width,
      )
