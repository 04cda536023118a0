-- ===== src/Raft/Cluster.antt =====
-- lab3/raft: a cluster of peers. Each section that a peer runs under its lock is one step, and the
-- steps of all peers interleave. A call of RequestVote is known by its candidate, its term and the
-- peer that is asked: the network delivers it once, in any order, or loses the request or the reply.
-- AppendEntries messages and their replies are arbitrary. The goroutine of a candidacy reads its
-- arguments in a section of its own, at any time. No peer restarts.
pub mod Quorum
pub mod Index
pub mod Sections
pub mod Invariant
pub mod Election
use cpsc.Common.{
  ℕ, ◌+◌, ◌<◌, ◌≡◌, Bool, true, false, ◌&&◌, not, Option, some, List, [], ◌∷◌, ◌++◌, ltb, ◌==◌,
  if◌then◌else◌,
}
use cpsc.Common.Outcome.{ok}
use cpsc.Raft.State.{
  candidate, Raft, RequestVoteArgs, RequestVoteReply, AppendEntriesArgs, AppendEntriesResults,
}
use cpsc.Raft.Persist.{Gob}
use cpsc.Raft.Vote.{request_vote, vote_reply}
use cpsc.Raft.Append.{append_entries, apply_committed}
use cpsc.Raft.Replicate.{start, append_reply}
use cpsc.Raft.Ticker.{
  follower_timeout, follower_heartbeat, candidate_start, candidate_win, candidate_timeout,
  candidate_heartbeat, leader_round, kill, vote_args, make,
}
use cpsc.Raft.Run.{Ballot, ballot}

-- A call of RequestVote: not made, on its way, answered, its reply handled, or lost.
pub data Call : Type 0 where
  idle : Call
  asked : RequestVoteArgs → Call
  answered : RequestVoteArgs → RequestVoteReply → Call
  taken : RequestVoteReply → Call
  lost : Call

-- `votes i` lists the ballots that peer `i` has cast, the latest first. `asks i t` says that peer `i`
-- has started a candidacy in term `t` whose goroutine has not read its arguments yet, and
-- `calls i t s` is the call of this candidacy to peer `s`.
pub record Cluster (C : Type 0) : Type 0 where
  pub peers : ℕ → Raft C
  pub votes : ℕ → List Ballot
  pub asks : ℕ → ℕ → Bool
  pub calls : ℕ → ℕ → ℕ → Call

abbrev pub update {ℓ} : {A : Type ℓ} → (ℕ → A) → ℕ → A → ℕ → A
update f i a j = if j == i then a else f j

-- One call changes.
abbrev pub set_call : (ℕ → ℕ → ℕ → Call) → (i t s : ℕ) → Call → ℕ → ℕ → ℕ → Call
set_call calls i t s c = update calls i (update (calls i) t (update (calls i t) s c))

-- Candidate `i` calls every other peer in term `t`: in its own calls, and in those of all.
abbrev pub open_row : (n i : ℕ) → (ℕ → ℕ → Call) → ℕ → RequestVoteArgs → ℕ → ℕ → Call
open_row n i row t args =
    update row t (λ s. if ltb s n && not (s == i) then asked args else row t s)

abbrev pub open_calls :
    (n : ℕ) → (ℕ → ℕ → ℕ → Call) → (i t : ℕ) → RequestVoteArgs → ℕ → ℕ → ℕ → Call
open_calls n calls i t args = update calls i (open_row n i (calls i) t args)

module _ {C : Type 0} (gob : Gob C) where
  -- The sections that cast no ballot and count none.
  pub data Inner : Raft C → Raft C → Type 0 where
    on_append_entries :
        {rf rf' : Raft C} {reply : AppendEntriesResults} (args : AppendEntriesArgs C)
        → append_entries gob args rf ≡ ok (rf', reply)
        → Inner rf rf'
    on_append_reply :
        {rf rf' : Raft C} (server : ℕ) (args : AppendEntriesArgs C)
        (reply : Option AppendEntriesResults)
        → append_reply gob server args reply rf ≡ ok rf'
        → Inner rf rf'
    on_start :
        {rf rf' : Raft C} (command : C) (result : Option (ℕ × ℕ))
        → start gob command rf ≡ ok (rf', result)
        → Inner rf rf'
    on_apply : {rf rf' : Raft C} → apply_committed rf ≡ ok rf' → Inner rf rf'
    on_kill : {rf : Raft C} → Inner rf (kill rf)
    on_follower_timeout : {rf : Raft C} → Inner rf (follower_timeout gob rf)
    on_follower_heartbeat : {rf : Raft C} → Inner rf (follower_heartbeat rf)
    on_candidate_win : {rf : Raft C} → Inner rf (candidate_win rf)
    on_candidate_timeout : {rf : Raft C} → Inner rf (candidate_timeout rf)
    on_candidate_heartbeat : {rf : Raft C} → Inner rf (candidate_heartbeat rf)
    on_leader_round : {rf : Raft C} → Inner rf (leader_round gob rf)

  -- A step of a cluster of `n` peers.
  pub data Step (n : ℕ) : Cluster C → Cluster C → Type 0 where
    on_inner :
        {k : Cluster C} {rf' : Raft C} (i : ℕ)
        → Inner (k.peers i) rf'
        → Step n k (record k { peers = update k.peers i rf' })
    on_candidacy :
        {k : Cluster C} (i : ℕ)
        → i < n
        → (k.peers i).state ≡ candidate
        → Step n k (record k {
          peers = update k.peers i (candidate_start gob (k.peers i));
          votes = update k.votes i (((k.peers i).current_term + 1, (k.peers i).me) ∷ k.votes i);
          asks = update k.asks i (update (k.asks i) ((k.peers i).current_term + 1) true);
        })
    -- The goroutine of the candidacy of term `t`.
    on_ask :
        {k : Cluster C} {args : RequestVoteArgs} (i t : ℕ)
        → k.asks i t ≡ true
        → vote_args (k.peers i) ≡ ok args
        → Step n k (record k {
          asks = update k.asks i (update (k.asks i) t false);
          calls = open_calls n k.calls i t args;
        })
    on_request :
        {k : Cluster C} {rf' : Raft C} {args : RequestVoteArgs} {reply : RequestVoteReply}
        (i t s : ℕ)
        → k.calls i t s ≡ asked args
        → request_vote args (k.peers s) ≡ ok (rf', reply)
        → Step n k (record k {
          peers = update k.peers s rf';
          votes = update k.votes s (ballot args reply ++ k.votes s);
          calls = set_call k.calls i t s (answered args reply);
        })
    on_reply :
        {k : Cluster C} {rf' : Raft C} {args : RequestVoteArgs} {reply : RequestVoteReply}
        (i t s : ℕ)
        → k.calls i t s ≡ answered args reply
        → vote_reply gob args (some reply) (k.peers i) ≡ ok rf'
        → Step n k (record k {
          peers = update k.peers i rf';
          calls = set_call k.calls i t s (taken reply);
        })
    on_lost_request :
        {k : Cluster C} {args : RequestVoteArgs} (i t s : ℕ)
        → k.calls i t s ≡ asked args
        → Step n k (record k { calls = set_call k.calls i t s lost })
    on_lost_reply :
        {k : Cluster C} {args : RequestVoteArgs} {reply : RequestVoteReply} (i t s : ℕ)
        → k.calls i t s ≡ answered args reply
        → Step n k (record k { calls = set_call k.calls i t s lost })

  pub data Run (n : ℕ) (k : Cluster C) : Cluster C → Type 0 where
    here : Run n k k
    next : {l m : Cluster C} → Run n k l → Step n l m → Run n k m

  -- A candidacy reads its arguments while its peer is still in the term of the candidacy.
  abbrev pub IsPrompt : {n : ℕ} {k l : Cluster C} → Step n k l → Type 0
  IsPrompt (on_ask {args = args} i t asks e) = args.term ≡ t
  IsPrompt _ = Unit

  abbrev pub AllPrompt : {n : ℕ} {k l : Cluster C} → Run n k l → Type 0
  AllPrompt here = Unit
  AllPrompt (next r st) = AllPrompt r × IsPrompt st

  -- Peers that `Make` has made with nothing saved, and no message.
  unfoldable pub initial : ℕ → Cluster C
  initial n = record {
    peers = λ i. make gob n i [];
    votes = λ i. [];
    asks = λ i t. false;
    calls = λ i t s. idle;
  }
