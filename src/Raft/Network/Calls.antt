-- ===== src/Raft/Network/Calls.antt =====
-- lab3/raft: in the steps of a cluster that carry no log, ballots and counted votes only grow.
use cpsc.Common.{ℕ, ◌≤◌, ◌≡◌, false, arith, if◌then◌else◌}
use cpsc.Raft.State.{RequestVoteArgs}
use cpsc.Raft.Cluster.{Call, set_call, open_calls, open_row}
use cpsc.Raft.Cluster.Index.{by_index}
use cpsc.Raft.Cluster.Invariant.{
  Row, IsOpen, votes_for, tally, set_row, set_row-Grows, tally-Grows, open_row-tally,
}

-- One call changes, and no vote is lost.
pub set_call-tally :
    (n : ℕ) (calls : ℕ → Row) (i t s : ℕ) (c c' : Call)
    → calls i t s ≡ c
    → IsOpen c
    → votes_for c ≡ false
    → (j u : ℕ) → tally n j (calls j) u ≤ tally n j (set_call calls i t s c' j) u
set_call-tally n calls i t s c c' at made no_vote j u =
    by_index
      (λ k b. tally n k (calls k) u ≤ tally n k (if b then set_row (calls i) t s c' else calls k) u)
      i
      (tally-Grows n i (calls i) (set_row (calls i) t s c') u
        (set_row-Grows (calls i) t s c c' at made no_vote))
      (λ k. omega arith) j

-- A candidacy makes its calls.
pub open_calls-tally :
    (n : ℕ) (calls : ℕ → Row) (i t : ℕ) (args : RequestVoteArgs)
    → ((s : ℕ) → IsOpen (calls i t s) → ⊥)
    → (j u : ℕ) → tally n j (calls j) u ≤ tally n j (open_calls n calls i t args j) u
open_calls-tally n calls i t args unmade j u =
    by_index
      (λ k b.
        tally n k (calls k) u ≤ tally n k (if b then open_row n i (calls i) t args else calls k) u)
      i (open_row-tally n i (calls i) t args unmade u) (λ k. omega arith) j
