-- ===== src/Transfer/Network/Invariant.antt =====
-- rcopy.c and server.c: the steps of the two ends, with the counts of the chunks.
use cpe_464_proj.Base.{
  ℕ, ◌≤◌, ◌<◌, ◌≡◌, refl, sym, ◌∙◌, List, Bool, false, arith, length, All, All-mono, u32_mod, ◌==◌,
}
use cpe_464_proj.Pdu.{Datagram, create_pdu, flag_rr}
use cpe_464_proj.Buffer.{Receiver, buffer_process_pdu}
use cpe_464_proj.Buffer.Delivery.{Delivered-ext, Holds}
use cpe_464_proj.Buffer.Replies.{not_rr, Served, buffer_process_pdu-Served}
use cpe_464_proj.Client.{ReadResult}
use cpe_464_proj.Rcopy.{rcopy_step}
use cpe_464_proj.Rcopy.Chunks.{chunk, Fits, Tracks, is_live, is_live-ext}
use cpe_464_proj.Rcopy.Chunks.Steps.{rcopy_step-Continues}
use cpe_464_proj.Rcopy.Acked.{IsBacked, IsBacked-IsKept}
use cpe_464_proj.Rcopy.Runs.{rcopy_step-Leads}
use cpe_464_proj.Rcopy.Closing.{Closing, Closing-ext, rcopy_step-Closes}
use cpe_464_proj.Transfer.{IsCarried}
use cpe_464_proj.Transfer.Prefix.{IsCarried-IsGenuine}
use cpe_464_proj.Transfer.Complete.{IsCarried-IsAck}
use cpe_464_proj.Transfer.Network.{
  Ends, finds, client_moved, sends_control, Step, client_moves, server_takes, server_controls, Run,
  stay, later,
}

-- More chunks may come.
Served-mono :
    (chunk : ℕ → List ℕ) (in_cksum : List ℕ → ℕ → ℕ) (n limit m : ℕ) (r : Receiver)
    → n ≤ limit
    → Served chunk n in_cksum m r
    → Served chunk limit in_cksum m r
Served-mono chunk in_cksum n limit m r le s = record {
  delivered = record {
    next = s.delivered.next;
    within = omega (arith, s.delivered.within);
    file = s.delivered.file;
    slots =
        All-mono {P = Holds chunk n} r.buffer
          (λ p h valid. (omega (arith, (h valid).0), (h valid).1)) s.delivered.slots;
  };
  replies = s.replies;
}

module _ (in_cksum : List ℕ → ℕ → ℕ) (input : List ReadResult) where
  -- The client has sent `n` chunks, the server has written `m` of them, and the window of the client
  -- begins at one that the server has or expects.
  pub record IsJoint (n m : ℕ) (e : Ends) : Type 0 where
    pub tracks : Tracks in_cksum input n (is_live e.state e.client) e.client
    pub served : Served (chunk in_cksum input) n in_cksum m e.receiver
    pub acked : e.client.window.lower ≤ m
    pub closing : Closing e.state e.client

  -- The counts go up.
  abbrev pub Joint : ℕ → ℕ → Ends → Type 0
  Joint n m e = (n' m' : ℕ) × (n ≤ n') × (m ≤ m') × IsJoint n' m' e

  client_moves-Joint :
      (n m : ℕ) (e : Ends) (polls : List Bool) (arrivals : List Datagram)
      → length input < u32_mod
      → All Fits input
      → IsJoint n m e
      → All (IsCarried in_cksum e.receiver.sent) arrivals
      → Joint n m
          (client_moved (rcopy_step in_cksum e.state (finds polls arrivals e.client)) e.receiver)
  client_moves-Joint n m e polls arrivals small fits j carried =
      let t = j.tracks in
      let info = finds polls arrivals e.client in
      let few : m < u32_mod = omega (arith, t.enough, j.served.delivered.within) in
      let (n', le, t') = rcopy_step-Continues in_cksum input small fits e.state n info (record {
        count = t.count;
        rest = λ h. t.rest (sym (is_live-ext e.state e.client info refl) ∙ h);
        enough = t.enough;
        slots = t.slots;
        log = t.log;
        logged = t.logged;
        full = t.full;
        ended = t.ended;
      }) in
      let backed : IsBacked in_cksum m info = record {
        lower_le = j.acked;
        acks =
            All-mono arrivals
              (λ d. IsCarried-IsAck in_cksum m few e.receiver.sent d j.served.replies) carried;
      } in
      let still =
        rcopy_step-Leads in_cksum (IsBacked in_cksum m) (IsBacked-IsKept in_cksum m) e.state info
          backed in
      (
        n',
        m,
        le,
        omega arith,
        record {
          tracks = t';
          served = Served-mono (chunk in_cksum input) in_cksum n n' m e.receiver le j.served;
          acked = still.lower_le;
          closing =
              rcopy_step-Closes in_cksum e.state info
                (Closing-ext e.state e.client info refl refl j.closing);
        },
      )

  server_takes-Joint :
      (n m : ℕ) (e : Ends) (d : Datagram)
      → length input < u32_mod
      → IsJoint n m e
      → IsCarried in_cksum e.client.sent d
      → Joint n m (record e { receiver = buffer_process_pdu in_cksum e.receiver d })
  server_takes-Joint n m e d small j carried =
      let t = j.tracks in
      let few : n < u32_mod = omega (arith, t.enough) in
      let (m', le, served) =
        buffer_process_pdu-Served (chunk in_cksum input) n in_cksum m e.receiver d few j.served (
          IsCarried-IsGenuine in_cksum input n n e.client.sent d (omega arith) few t.log carried) in
      (
        n,
        m',
        omega arith,
        le,
        record { tracks = t; served = served; acked = omega (arith, j.acked); closing = j.closing },
      )

  server_controls-Joint :
      (n m : ℕ) (e : Ends) (seq flag : ℕ) (payload : List ℕ)
      → IsJoint n m e
      → (flag == flag_rr) ≡ false
      → Joint n m
          (record e { receiver = sends_control (create_pdu in_cksum seq flag payload) e.receiver })
  server_controls-Joint n m e seq flag payload j other = (
    n,
    m,
    omega arith,
    omega arith,
    record {
      tracks = j.tracks;
      served = record {
        delivered =
            Delivered-ext (chunk in_cksum input) n m e.receiver _ refl refl refl j.served.delivered;
        replies = (not_rr seq flag payload other refl, j.served.replies);
      };
      acked = j.acked;
      closing = j.closing;
    },
  )

  Step-Joint :
      (n m : ℕ) (e f : Ends)
      → length input < u32_mod
      → All Fits input
      → IsJoint n m e
      → Step in_cksum e f
      → Joint n m f
  Step-Joint n m e _ small fits j (client_moves polls arrivals carried) =
      client_moves-Joint n m e polls arrivals small fits j carried
  Step-Joint n m e _ small fits j (server_takes d carried) =
      server_takes-Joint n m e d small j carried
  Step-Joint n m e _ small fits j (server_controls seq flag payload other) =
      server_controls-Joint n m e seq flag payload j other

  pub Run-Joint :
      (n m : ℕ) (e f : Ends)
      → length input < u32_mod
      → All Fits input
      → IsJoint n m e
      → Run in_cksum e f
      → Joint n m f
  Run-Joint n m e _ small fits j stay = (n, m, omega arith, omega arith, j)
  Run-Joint n m e _ small fits j (later {f} {g} run step) =
      let (n', m', le, lf, j') = Run-Joint n m e f small fits j run in
      let (n'', m'', le', lf', j'') = Step-Joint n' m' f g small fits j' step in
      (n'', m'', omega arith, omega arith, j'')
