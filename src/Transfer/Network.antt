-- ===== src/Transfer/Network.antt =====
-- rcopy.c and server.c: interleaved runs of a client and a server process. A step is a round of the
-- loop of `stateHandler`, with the polls and the datagrams that it gets, a call of `bufferProcessPDU`
-- for a datagram that the server gets, or a control PDU of the server, which may come at any time and
-- is more than the server does: what holds of every run here holds of the runs of the two programs,
-- but a run here need not be one of theirs. A datagram that validates is a
-- PDU that the other end has sent before; whether and how often it comes is left open.
pub mod Invariant
pub mod Agreement
pub mod Windows
pub mod Reached
pub mod Protocol
pub mod Eof
pub mod Refine
mod Tests
use cpe_464_proj.Base.{ℕ, ◌≡◌, List, [], ◌∷◌, Option, Bool, false, ◌==◌, All}
use cpe_464_proj.Pdu.{Datagram, create_pdu, flag_rr}
use cpe_464_proj.Buffer.{Receiver, buffer_init, buffer_process_pdu}
use cpe_464_proj.Client.{RcopyState, send_filename, RcopyInfo}
use cpe_464_proj.Rcopy.{rcopy_step}
use cpe_464_proj.Transfer.{IsCarried}

-- The two ends, the server's as the context of its buffer.
pub record Ends : Type 0 where
  pub state : RcopyState
  pub client : RcopyInfo
  pub receiver : Receiver

-- The client with what a round finds.
abbrev pub finds : List Bool → List Datagram → RcopyInfo → RcopyInfo
finds polls arrivals client = record client { polls = polls; arrivals = arrivals }

abbrev pub client_moved : RcopyState × RcopyInfo → Receiver → Ends
client_moved out receiver = record { state = out.0; client = out.1; receiver = receiver }

-- A client that has just started, and a receiver just set up.
abbrev pub beginning : RcopyInfo → ℕ → Ends
beginning client size = record {
  state = send_filename;
  client = client;
  receiver = buffer_init size;
}

abbrev pub sends_control : Option (List ℕ) → Receiver → Receiver
sends_control pdu receiver = record receiver { sent = pdu ∷ receiver.sent }

module _ (in_cksum : List ℕ → ℕ → ℕ) where
  pub data Step (e : Ends) : Ends → Type 0 where
    client_moves :
        (polls : List Bool) (arrivals : List Datagram)
        → All (IsCarried in_cksum e.receiver.sent) arrivals
        → Step e
            (client_moved (rcopy_step in_cksum e.state (finds polls arrivals e.client)) e.receiver)
    server_takes :
        (d : Datagram)
        → IsCarried in_cksum e.client.sent d
        → Step e (record e { receiver = buffer_process_pdu in_cksum e.receiver d })
    server_controls :
        (seq flag : ℕ) (payload : List ℕ)
        → (flag == flag_rr) ≡ false
        → Step e (record e {
          receiver = sends_control (create_pdu in_cksum seq flag payload) e.receiver;
        })

  -- Any number of steps.
  pub data Run (e : Ends) : Ends → Type 0 where
    stay : Run e e
    later : {f g : Ends} → Run e f → Step f g → Run e g
