-- ===== src/Raft/Cluster/Election/Calls.antt =====
-- lab3/raft: the calls of RequestVote in a cluster, as a step changes one of them, opens those of a
-- candidacy, or adds a ballot.
use cpsc.Common.{
  ℕ, ◌≡◌, inl, inr, refl, List, ◌++◌, arith, ◌==◌, Bool-cases, ltb, ◌&&◌, if◌then◌else◌, not,
}
use cpsc.Common.Outcome.{ok}
use mathlib.Core.List.{Memᴰ}
use cpsc.Raft.State.{Raft, RequestVoteArgs, RequestVoteReply}
use cpsc.Raft.Vote.{request_vote}
use cpsc.Raft.Vote.Terms.{request_vote-granted}
use cpsc.Raft.Run.{Ballot, ballot}
use cpsc.Raft.Cluster.{Call, asked, answered, update, set_call, open_calls, open_row}
use cpsc.Raft.Cluster.Index.{by_index}
use cpsc.Raft.Cluster.Invariant.{CallOk, CallOk-append}

-- All calls are as they should be.
abbrev pub AllOk : (n : ℕ) → (ℕ → ℕ → ℕ → Call) → (ℕ → List Ballot) → Type 0
AllOk n calls votes = (i t s : ℕ) → CallOk n i t s (calls i t s) (votes s)

module _ (n : ℕ) (calls : ℕ → ℕ → ℕ → Call) (votes : ℕ → List Ballot)
    (all : AllOk n calls votes) where
  pub set_call-CallOk :
      (i t s : ℕ) (c : Call) → CallOk n i t s c (votes s) → AllOk n (set_call calls i t s c) votes
  set_call-CallOk i t s c this =
      let at_peer = update (calls i t) s c in
      let at_term = update (calls i) t at_peer in
      by_index (λ j b. (u r : ℕ) → CallOk n j u r ((if b then at_term else calls j) u r) (votes r))
        i
        (by_index (λ u b. (r : ℕ) → CallOk n i u r ((if b then at_peer else calls i u) r) (votes r))
          t
          (by_index (λ r b. CallOk n i t r (if b then c else calls i t r) (votes r)) s this
            (all i t))
          (all i))
        all

  pub append-CallOk : (j : ℕ) (cs : List Ballot) → AllOk n calls (update votes j (cs ++ votes j))
  append-CallOk j cs i t =
      by_index (λ s b. CallOk n i t s (calls i t s) (if b then cs ++ votes j else votes s)) j
        (CallOk-append n i t j (calls i t j) cs (votes j) (all i t j)) (all i t)

  pub open_calls-CallOk :
      (i t : ℕ) (args : RequestVoteArgs)
      → args.id_cand ≡ i
      → args.term ≡ t
      → AllOk n (open_calls n calls i t args) votes
  open_calls-CallOk i t args mine now =
      let row = open_row n i (calls i) t args in
      let opened : ℕ → Call = λ r. if ltb r n && not (r == i) then asked args else calls i t r in
      by_index (λ j b. (u r : ℕ) → CallOk n j u r ((if b then row else calls j) u r) (votes r)) i
        (by_index (λ u b. (r : ℕ) → CallOk n i u r ((if b then opened else calls i u) r) (votes r))
          t
          (λ r. elim (Bool-cases (ltb r n && not (r == i))) [
            | inr none_here ↦ rw none_here (all i t r)
            | inl made ↦ rw made (ground arith, ground arith, now, mine)
          ])
          (all i))
        all

-- The call that a peer has answered.
pub answered-CallOk :
    {C : Type 0} (n i t s : ℕ) (rf rf' : Raft C) (args : RequestVoteArgs) (reply : RequestVoteReply)
    (vs : List Ballot)
    → request_vote args rf ≡ ok (rf', reply)
    → CallOk n i t s (asked args) vs
    → CallOk n i t s (answered args reply) (ballot args reply ++ vs)
answered-CallOk n i t s rf rf' args reply vs e (lt, ne, of_term, mine) = (
  lt,
  ne,
  of_term,
  λ granted.
      let now : reply.term ≡ args.term = request_vote-granted args rf rf' reply e granted in
      rw granted (Memᴰ.head (rw (now, of_term, mine) refl)),
)
