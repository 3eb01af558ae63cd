-- ===== src/Transfer/Network/Refine.antt =====
-- rcopy.c and server.c: the steps of the two ends as actions of the protocol.
use cpe_464_proj.Rcopy.Input.{input_of, few_of, input_of-Fits}
use cpe_464_proj.Base.{
  ℕ, ◌+◌, ◌≤◌, ◌<◌, ◌≡◌, refl, sym, ap, subst, List, Option, none, some, arith, length, All,
  u32_mod, inl, inr, ◌⊎◌,
}
use cpe_464_proj.Pdu.{Datagram, create_pdu, flag_data, get_control_seq_num}
use cpe_464_proj.Window.{Window, process_rr, process_srej, get_next_seq_num}
use cpe_464_proj.Client.{
  ReadResult, read_error, read_bytes, RcopyInfo, recvfrom, read_input, resend, drain_or_finish,
}
use cpe_464_proj.Setup.{Args, Answers, init_rcopy_info, started}
use cpe_464_proj.Rcopy.{handle_ack, send_read, send_chunk}
use cpe_464_proj.Rcopy.Acked.{lower-window_add_packet}
use cpe_464_proj.Rcopy.Chunks.{chunk, Fits}
use cpe_464_proj.Rcopy.Runs.{IsKept, rcopy_step-Leads}
use cpe_464_proj.Rcopy.Valid.{HasRoom, HasRoom-ext, HasRoom-IsKept}
use cpe_464_proj.Transfer.Network.{
  Ends, finds, Step, client_moves, server_takes, server_controls, beginning, Run, stay, later,
}
use cpe_464_proj.Transfer.Network.Invariant.{Run-Joint}
use cpe_464_proj.Transfer.Network.Reached.{
  IsReached, Step-IsReached, Run-IsReached, beginning-IsReached,
}
use cpe_464_proj.Transfer.Network.Protocol.{Progress, Actions, progress, counts_grow}

lower-process_rr : (w : Window) (rr : ℕ) → w.lower ≤ w.current → w.lower ≤ (process_rr w rr).lower
unfolding process_rr
lower-process_rr w rr h = ground arith

-- A resend leaves the window.
lower-resend :
    (info : RcopyInfo) (o : Option (List ℕ)) → (resend info o).window.lower ≡ info.window.lower
unfolding resend
lower-resend info none = refl
lower-resend info (some pdu) = ground arith

module _ (in_cksum : List ℕ → ℕ → ℕ) where
  lower-handle_ack :
      (d : Datagram) (info : RcopyInfo)
      → info.window.lower ≤ info.window.current
      → info.window.lower ≤ (handle_ack in_cksum (d, info)).window.lower
  unfolding handle_ack
  lower-handle_ack d info h =
      let seq = get_control_seq_num d.pdu in
      ground (
        arith,
        lower-process_rr info.window seq h,
        lower-resend info (process_srej info.window seq),
      )

  lower-send_read :
      (r : ReadResult) (info : RcopyInfo)
      → (send_read in_cksum (r, info)).1.window.lower ≡ info.window.lower
  unfolding send_read send_chunk drain_or_finish
  lower-send_read read_error info = refl
  lower-send_read (read_bytes bytes) info =
      let pdu = create_pdu in_cksum (get_next_seq_num info.window) flag_data bytes in
      ground (arith, lower-window_add_packet info.window pdu)

  module _ (size least : ℕ) where
    -- The window begins at this number, or further on.
    record IsPast (info : RcopyInfo) : Type 0 where
      room : HasRoom size info
      past : least ≤ info.window.lower

    lower-recvfrom : (info : RcopyInfo) → (recvfrom info).1.window.lower ≡ info.window.lower
    unfolding recvfrom
    lower-recvfrom info = ground arith

    lower-read_input : (info : RcopyInfo) → (read_input info).1.window.lower ≡ info.window.lower
    unfolding read_input
    lower-read_input info = ground arith

    -- No step takes the window back.
    IsPast-IsKept : IsKept in_cksum IsPast
    IsPast-IsKept =
        let k = HasRoom-IsKept size in_cksum in
        record {
          ext = λ info next w a r p. record {
            room = k.ext info next w a r p.room;
            past = omega (arith, p.past, ap (λ x. x.lower) w);
          };
          receives = λ info p. record {
            room = k.receives info p.room;
            past = omega (arith, p.past, lower-recvfrom info);
          };
          acks = λ info p. record {
            room = k.acks info p.room;
            past = omega (
              arith,
              p.past,
              lower-recvfrom info,
              lower-handle_ack (recvfrom info).0 (recvfrom info).1
                  (k.receives info p.room).valid.ordered,
            );
          };
          chunks = λ info p. record {
            room = k.chunks info p.room;
            past = omega (
              arith,
              p.past,
              lower-read_input info,
              lower-send_read (read_input info).0 (read_input info).1,
            );
          };
        }

    Step-past :
        (e f : Ends)
        → HasRoom size e.client
        → least ≤ e.client.window.lower
        → Step in_cksum e f
        → least ≤ f.client.window.lower
    Step-past e _ room past (client_moves polls arrivals carried) =
        let info = finds polls arrivals e.client in
        (rcopy_step-Leads in_cksum IsPast IsPast-IsKept e.state info
          (record { room = HasRoom-ext size e.client info refl refl room; past = past })).past
    Step-past e _ room past (server_takes d carried) = past
    Step-past e _ room past (server_controls seq flag payload other) = past

-- A step changes one of the two ends.
one_end :
    (in_cksum : List ℕ → ℕ → ℕ) (e f : Ends)
    → Step in_cksum e f
    → (f.receiver.expected ≡ e.receiver.expected) ⊎ (f.client.window ≡ e.client.window)
one_end in_cksum e _ (client_moves polls arrivals carried) = inl refl
one_end in_cksum e _ (server_takes d carried) = inr refl
one_end in_cksum e _ (server_controls seq flag payload other) = inr refl

-- Where the two ends are in the protocol.
abbrev pub view : Ends → Progress
view e = record {
  acked = e.client.window.lower;
  written = e.receiver.expected;
  sent = e.client.window.current;
  output = e.receiver.written;
}

module _ (in_cksum : List ℕ → ℕ → ℕ) (input : List ReadResult) (size : ℕ) where
  -- The bytes that are written are the chunks that are counted.
  view-progress :
      (e : Ends)
      → IsReached in_cksum input size e
      → progress
          (chunk in_cksum input)
          size
          e.client.window.lower
          e.receiver.expected
          e.client.window.current
        ≡ view e
  view-progress e h =
      ap
        (λ (bytes : List ℕ). record {
          acked = e.client.window.lower;
          written = e.receiver.expected;
          sent = e.client.window.current;
          output = bytes;
        })
        (sym h.joint.served.delivered.file)

  Step-Actions :
      (e f : Ends)
      → length input < u32_mod
      → All Fits input
      → IsReached in_cksum input size e
      → Step in_cksum e f
      → Actions (chunk in_cksum input) size (view e) (view f)
  Step-Actions e f small fits h step =
      let h' = Step-IsReached in_cksum input size e f small fits h step in
      let (n, m, le, lf, j) =
        Run-Joint in_cksum input e.client.window.current e.receiver.expected e f small fits h.joint
          (later stay step) in
      let past = Step-past in_cksum size e.client.window.lower e f h.room (omega arith) step in
      let within : f.receiver.expected ≤ e.client.window.current =
        elim (one_end in_cksum e f step) [
          | inl same ↦ omega (arith, same, h.joint.served.delivered.within)
          | inr same ↦ omega (arith, ap (λ w. w.current) same, h'.joint.served.delivered.within)
        ] in
      let valid = h'.room.valid in
      subst (λ p. Actions (chunk in_cksum input) size p (view f)) (view-progress e h)
        (subst
          (Actions (chunk in_cksum input) size (
            progress (chunk in_cksum input) size e.client.window.lower e.receiver.expected
              e.client.window.current))
          (view-progress f h')
          (counts_grow (chunk in_cksum input) size _ _ _ _ _ _
            (omega (arith, lf, j.served.delivered.next)) within past h'.joint.acked
            (omega (arith, le, j.tracks.count)) (omega (arith, valid.bounded, h'.room.width))))

-- The client and the server implement the protocol of Transfer/Network/Protocol: in an interleaved
-- run over a network that loses, repeats, reorders and damages PDUs, each step is a sequence of its
-- actions, which send the next chunk while fewer than a window of chunks are unacknowledged, write
-- the next chunk that was sent behind those written before, or acknowledge more of the chunks
-- written; for a client started from any accepted command line, whose window size and number of
-- reads together are below 2^32, and a receiver of any window size.
pub network_refines :
    (in_cksum : List ℕ → ℕ → ℕ) (a : Args) (answers : Answers) (client : RcopyInfo) (size : ℕ)
    (e f : Ends)
    → init_rcopy_info a answers ≡ started client
    → client.window.window_size + length answers.reads < u32_mod
    → Run in_cksum (beginning client size) e
    → Step in_cksum e f
    → Actions (chunk in_cksum (input_of a answers)) client.window.window_size (view e) (view f)
network_refines in_cksum a answers client size e f given small run step =
    let few' : length (input_of a answers) < u32_mod = few_of a answers (omega (arith, small)) in
    let wide = client.window.window_size in
    let h =
      Run-IsReached in_cksum (input_of a answers) wide (beginning client size) e few'
        (input_of-Fits a answers client given)
        (beginning-IsReached in_cksum a answers client size given small) run in
    Step-Actions in_cksum (input_of a answers) wide e f few' (input_of-Fits a answers client given)
      h step
