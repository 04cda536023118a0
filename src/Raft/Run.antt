-- ===== src/Raft/Run.antt =====
-- lab3/raft/raft.go, one peer as a state machine: every section that the code runs under the lock
-- is a step, and the steps of the RPC handlers, of the callers of RPCs, of the ticker and of the
-- service interleave in any order. A step carries the ballot that the peer casts in it, if any: a
-- term and the candidate that the vote goes to.
pub mod Ballots
use cpsc.Common.{ℕ, ◌+◌, ◌≡◌, Option, List, [], ◌∷◌, ◌++◌, if◌then◌else◌}
use cpsc.Common.Outcome.{ok}
use cpsc.Raft.State.{
  Raft, RequestVoteArgs, RequestVoteReply, AppendEntriesArgs, AppendEntriesResults,
}
use cpsc.Raft.Persist.{Gob}
use cpsc.Raft.Vote.{request_vote, vote_reply}
use cpsc.Raft.Append.{append_entries, apply_committed}
use cpsc.Raft.Replicate.{start, append_reply}
use cpsc.Raft.Ticker.{
  follower_timeout, follower_heartbeat, candidate_start, candidate_win, candidate_timeout,
  candidate_heartbeat, leader_round, kill,
}

abbrev pub Ballot : Type 0
Ballot = ℕ × ℕ

-- The ballot that a reply to `args` stands for.
abbrev pub ballot : RequestVoteArgs → RequestVoteReply → List Ballot
ballot args reply = if reply.vote_granted then (reply.term, args.id_cand) ∷ [] else []

module _ {C : Type 0} (gob : Gob C) where
  pub data Step : Raft C → List Ballot → Raft C → Type 0 where
    on_request_vote :
        {rf rf' : Raft C} {reply : RequestVoteReply} (args : RequestVoteArgs)
        → request_vote args rf ≡ ok (rf', reply)
        → Step rf (ballot args reply) rf'
    on_vote_reply :
        {rf rf' : Raft C} (args : RequestVoteArgs) (reply : Option RequestVoteReply)
        → vote_reply gob args reply rf ≡ ok rf'
        → Step rf [] rf'
    on_append_entries :
        {rf rf' : Raft C} {reply : AppendEntriesResults} (args : AppendEntriesArgs C)
        → append_entries gob args rf ≡ ok (rf', reply)
        → Step rf [] rf'
    on_append_reply :
        {rf rf' : Raft C} (server : ℕ) (args : AppendEntriesArgs C)
        (reply : Option AppendEntriesResults)
        → append_reply gob server args reply rf ≡ ok rf'
        → Step rf [] rf'
    on_start :
        {rf rf' : Raft C} (command : C) (result : Option (ℕ × ℕ))
        → start gob command rf ≡ ok (rf', result)
        → Step rf [] rf'
    on_apply : {rf rf' : Raft C} → apply_committed rf ≡ ok rf' → Step rf [] rf'
    on_kill : {rf : Raft C} → Step rf [] (kill rf)
    on_follower_timeout : {rf : Raft C} → Step rf [] (follower_timeout gob rf)
    on_follower_heartbeat : {rf : Raft C} → Step rf [] (follower_heartbeat rf)
    on_candidate_start :
        {rf : Raft C} → Step rf ((rf.current_term + 1, rf.me) ∷ []) (candidate_start gob rf)
    on_candidate_win : {rf : Raft C} → Step rf [] (candidate_win rf)
    on_candidate_timeout : {rf : Raft C} → Step rf [] (candidate_timeout rf)
    on_candidate_heartbeat : {rf : Raft C} → Step rf [] (candidate_heartbeat rf)
    on_leader_round : {rf : Raft C} → Step rf [] (leader_round gob rf)

  -- The ballots of a run, the latest first.
  pub data Run (rf : Raft C) : List Ballot → Raft C → Type 0 where
    here : Run rf [] rf
    step :
        {bs cs : List Ballot} {rf1 rf2 : Raft C}
        → Run rf bs rf1
        → Step rf1 cs rf2
        → Run rf (cs ++ bs) rf2
