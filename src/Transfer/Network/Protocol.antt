-- ===== src/Transfer/Network/Protocol.antt =====
-- The protocol that rcopy.c and server.c implement, with the window of the client: numbered chunks are
-- sent, written in order and acknowledged in order. `acked`, `written` and `sent` count them, and
-- `output` has the bytes that are written.
use cpe_464_proj.Base.{ℕ, zero, suc, ◌+◌, ◌≤◌, ◌<◌, subst, List, ◌++◌, arith, dec_lt}
use cpe_464_proj.Buffer.Delivery.{stream}

pub record Progress : Type 0 where
  pub acked : ℕ
  pub written : ℕ
  pub sent : ℕ
  pub output : List ℕ

module _ (chunk : ℕ → List ℕ) (size : ℕ) where
  pub data Action (p : Progress) : Progress → Type 0 where
    sends : p.sent < p.acked + size → Action p (record p { sent = suc p.sent })
    writes :
        p.written < p.sent
        → Action p (record p { written = suc p.written; output = p.output ++ chunk p.written })
    acknowledges : (n : ℕ) → p.acked ≤ n → n ≤ p.written → Action p (record p { acked = n })

  -- Any number of actions.
  pub data Actions (p : Progress) : Progress → Type 0 where
    rest : Actions p p
    further : {q r : Progress} → Actions p q → Action q r → Actions p r

  -- The state with these counts.
  abbrev pub progress : ℕ → ℕ → ℕ → Progress
  progress acked written sent = record {
    acked = acked;
    written = written;
    sent = sent;
    output = stream chunk written;
  }

  -- The window keeps the client from sending too far ahead.
  send_up_to :
      (p : Progress) (a w n n' : ℕ)
      → Actions p (progress a w n)
      → n ≤ n'
      → n' ≤ a + size
      → Actions p (progress a w n')
  send_up_to p a w n zero run le top = subst (λ k. Actions p (progress a w k)) (omega arith) run
  send_up_to p a w n (suc n') run le top = elim (dec_lt n (suc n')) [
    | no same ↦ subst (λ k. Actions p (progress a w k)) (omega arith) run
    | yes less ↦
        further (send_up_to p a w n n' run (omega arith) (omega arith)) (sends (omega arith))
  ]

  write_up_to :
      (p : Progress) (a w w' n : ℕ)
      → Actions p (progress a w n)
      → w ≤ w'
      → w' ≤ n
      → Actions p (progress a w' n)
  write_up_to p a w zero n run le top = subst (λ k. Actions p (progress a k n)) (omega arith) run
  write_up_to p a w (suc w') n run le top = elim (dec_lt w (suc w')) [
    | no same ↦ subst (λ k. Actions p (progress a k n)) (omega arith) run
    | yes less ↦
        further (write_up_to p a w w' n run (omega arith) (omega arith)) (writes (omega arith))
  ]

  -- The counts may grow as far as these conditions let them.
  pub counts_grow :
      (a w n a' w' n' : ℕ)
      → w ≤ w'
      → w' ≤ n
      → a ≤ a'
      → a' ≤ w'
      → n ≤ n'
      → n' ≤ a' + size
      → Actions (progress a w n) (progress a' w' n')
  counts_grow a w n a' w' n' ww wn aa aw nn top =
      let p = progress a w n in
      let wrote = write_up_to p a w w' n rest ww wn in
      let acked : Actions p (progress a' w' n) = further wrote (acknowledges a' aa aw) in
      send_up_to p a' w' n n' acked nn top
