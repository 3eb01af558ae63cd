-- ===== src/Transfer/Network/Reached.antt =====
-- rcopy.c and server.c: what holds of the two ends at every point of an interleaved run, with the
-- counts read off the two ends.
use cpe_464_proj.Rcopy.Input.{input_of}
use cpe_464_proj.Base.{ℕ, ◌+◌, ◌<◌, ◌≡◌, refl, sym, subst, List, length, All, u32_mod}
use cpe_464_proj.Client.{RcopyInfo, ReadResult}
use cpe_464_proj.Setup.{Args, Answers, init_rcopy_info, started}
use cpe_464_proj.Rcopy.Chunks.{Fits}
use cpe_464_proj.Rcopy.Runs.{rcopy_step-Leads}
use cpe_464_proj.Rcopy.Valid.{HasRoom, HasRoom-ext, HasRoom-IsKept, started-HasRoom}
use cpe_464_proj.Transfer.Network.{
  Ends, finds, Step, client_moves, server_takes, server_controls, beginning, Run, stay, later,
}
use cpe_464_proj.Transfer.Network.Invariant.{IsJoint, Run-Joint}
use cpe_464_proj.Transfer.Network.Agreement.{beginning-IsJoint}

module _ (in_cksum : List ℕ → ℕ → ℕ) (input : List ReadResult) (size : ℕ) where
  -- The client with a window of `size` slots, and the server.
  pub record IsReached (e : Ends) : Type 0 where
    pub joint : IsJoint in_cksum input e.client.window.current e.receiver.expected e
    pub room : HasRoom size e.client

  -- The counts of the invariant are those of the two ends.
  IsJoint-counts :
      (n m : ℕ) (e : Ends)
      → IsJoint in_cksum input n m e
      → IsJoint in_cksum input e.client.window.current e.receiver.expected e
  IsJoint-counts n m e j =
      subst (λ k. IsJoint in_cksum input k e.receiver.expected e) (sym j.tracks.count)
        (subst (λ k. IsJoint in_cksum input n k e) (sym j.served.delivered.next) j)

  pub Step-IsReached :
      (e f : Ends)
      → length input < u32_mod
      → All Fits input
      → IsReached e
      → Step in_cksum e f
      → IsReached f
  Step-IsReached e f small fits r step =
      let (n, m, _, _, j) =
        Run-Joint in_cksum input e.client.window.current e.receiver.expected e f small fits r.joint
          (later stay step) in
      record { joint = IsJoint-counts n m f j; room = keeps f step }
    where
      keeps : (f : Ends) → Step in_cksum e f → HasRoom size f.client
      keeps _ (client_moves polls arrivals carried) =
          let info = finds polls arrivals e.client in
          rcopy_step-Leads in_cksum (HasRoom size) (HasRoom-IsKept size in_cksum) e.state info
            (HasRoom-ext size e.client info refl refl r.room)
      keeps _ (server_takes d carried) = r.room
      keeps _ (server_controls seq flag payload other) = r.room

  pub Run-IsReached :
      (e f : Ends)
      → length input < u32_mod
      → All Fits input
      → IsReached e
      → Run in_cksum e f
      → IsReached f
  Run-IsReached e _ small fits r stay = r
  Run-IsReached e _ small fits r (later {f} {g} run step) =
      Step-IsReached f g small fits (Run-IsReached e f small fits r run) step

module _ (in_cksum : List ℕ → ℕ → ℕ) (a : Args) (answers : Answers) where
  pub beginning-IsReached :
      (client : RcopyInfo) (size : ℕ)
      → init_rcopy_info a answers ≡ started client
      → client.window.window_size + length answers.reads < u32_mod
      → IsReached in_cksum (input_of a answers) client.window.window_size (beginning client size)
  beginning-IsReached client size given small = record {
    joint =
        IsJoint-counts in_cksum (input_of a answers) client.window.window_size 0 0
          (beginning client size) (beginning-IsJoint in_cksum a answers client size given);
    room = started-HasRoom a answers client given small;
  }
