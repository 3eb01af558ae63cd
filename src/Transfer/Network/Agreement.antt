-- ===== src/Transfer/Network/Agreement.antt =====
-- rcopy.c and server.c: interleaved runs of the two ends from their beginning.
use cpe_464_proj.Rcopy.Input.{input_of, few_of, input_of-Fits}
use cpe_464_proj.Base.{ℕ, ◌≤◌, ◌<◌, ◌≡◌, ap, subst, ◌∙◌, List, ◌++◌, arith, length, drop, u32_mod}
use cpe_464_proj.Window.{window_set_up}
use cpe_464_proj.Buffer.{buffer_init}
use cpe_464_proj.Buffer.Delivery.{stream, buffer_init-Delivered}
use cpe_464_proj.Client.{RcopyInfo, wait_eof_ack}
use cpe_464_proj.Setup.{Args, Answers, init_rcopy_info, started}
use cpe_464_proj.Rcopy.Start.{init_rcopy_info-IsStarted}
use cpe_464_proj.Rcopy.Chunks.{chunk}
use cpe_464_proj.Rcopy.Closing.{Closing}
use cpe_464_proj.Transfer.{file_of, file_to_eof}
use cpe_464_proj.Transfer.Prefix.{stream-file_of, started-Tracks}
use cpe_464_proj.Transfer.Complete.{all_acked-count, ended-count, stream-ended}
use cpe_464_proj.Transfer.Network.{Ends, beginning, Run}
use cpe_464_proj.Transfer.Network.Invariant.{IsJoint, Run-Joint}

module _ (in_cksum : List ℕ → ℕ → ℕ) (a : Args) (answers : Answers) where
  pub beginning-IsJoint :
      (client : RcopyInfo) (size : ℕ)
      → init_rcopy_info a answers ≡ started client
      → IsJoint in_cksum (input_of a answers) 0 0 (beginning client size)
  unfolding window_set_up buffer_init
  beginning-IsJoint client size given =
      let s = init_rcopy_info-IsStarted a answers client given in
      record {
        tracks = started-Tracks in_cksum a answers client s;
        served = record {
          delivered = buffer_init-Delivered (chunk in_cksum (input_of a answers)) 0 size;
          replies = tt;
        };
        acked = omega (arith, ap (λ w. w.lower) s.window_new);
        closing = tt;
      }

  -- At every point of every interleaved run of a client and a server process over a network that
  -- loses, repeats, reorders and damages PDUs: the window of the client begins at or before the
  -- packet that the server expects; the server expects no packet beyond the next one to be sent;
  -- and what the server has written is a prefix of the bytes that the client reads, where each
  -- datagram that validates is a PDU that the other end has sent before, for a client started from
  -- any accepted command line and a receiver of any window size, and reads that give fewer than
  -- 2^32 results.
  pub ends_agree :
      (client : RcopyInfo) (size : ℕ) (e : Ends)
      → init_rcopy_info a answers ≡ started client
      → length answers.reads < u32_mod
      → Run in_cksum (beginning client size) e
      → (e.client.window.lower ≤ e.receiver.expected)
        × (e.receiver.expected ≤ e.client.window.current)
        × ((rest : List ℕ) × (e.receiver.written ++ rest ≡ file_of (input_of a answers)))
  ends_agree client size e given small run =
      let (n, m, _, _, j) =
        Run-Joint in_cksum (input_of a answers) 0 0 (beginning client size) e
          (few_of a answers small) (input_of-Fits a answers client given)
          (beginning-IsJoint client size given) run in
      let d = j.served.delivered in
      (
        omega (arith, j.acked, d.next),
        omega (arith, j.tracks.count, d.next, d.within),
        (
          file_of (drop m (input_of a answers)),
          ap (λ xs. xs ++ file_of (drop m (input_of a answers))) d.file
              ∙ stream-file_of in_cksum (input_of a answers) m,
        ),
      )

  -- In every interleaved run of a client and a server process over a network that loses, repeats,
  -- reorders and damages PDUs, the file is whole at the server from the moment the client waits for
  -- the EOF_ACK on, whatever steps follow: what is written is exactly the bytes that the client
  -- reads up to the first read that fails or gives none, where each datagram that validates is a
  -- PDU that the other end has sent before, for a client started from any accepted command line and
  -- a receiver of any window size, and reads that give fewer than 2^32 results.
  pub whole_at_eof :
      (client : RcopyInfo) (size : ℕ) (e f : Ends)
      → init_rcopy_info a answers ≡ started client
      → length answers.reads < u32_mod
      → Run in_cksum (beginning client size) e
      → e.state ≡ wait_eof_ack
      → Run in_cksum e f
      → f.receiver.written ≡ file_to_eof (input_of a answers)
  whole_at_eof client size e f given small run eof more =
      let (n, m, _, _, j) =
        Run-Joint in_cksum (input_of a answers) 0 0 (beginning client size) e
          (few_of a answers small) (input_of-Fits a answers client given)
          (beginning-IsJoint client size given) run in
      let (n', m', le, lf, j') =
        Run-Joint in_cksum (input_of a answers) n m e f (few_of a answers small)
          (input_of-Fits a answers client given) j more in
      let (ended, all) = subst (λ st. Closing st e.client) eof j.closing in
      let end = j.tracks.ended ended in
      let same : m' ≡ n = omega (
        arith,
        all_acked-count e.client all,
        j.tracks.count,
        j.acked,
        j'.served.delivered.within,
        ended-count in_cksum (input_of a answers) n n' j'.tracks.full end,
      ) in
      j'.served.delivered.file
      ∙ ap (stream (chunk in_cksum (input_of a answers))) same
      ∙ stream-ended in_cksum (input_of a answers) n j.tracks.full end
