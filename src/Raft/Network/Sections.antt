-- ===== src/Raft/Network/Sections.antt =====
-- lab3/raft: the sections of a peer that change no log.
use cpsc.Common.{◌+◌, ◌≡◌, refl, some, arith}
use cpsc.Common.Outcome.{ok}
use cpsc.Raft.State.{candidate, Raft, RequestVoteArgs, RequestVoteReply}
use cpsc.Raft.Persist.{Gob}
use cpsc.Raft.Terms.{persist_same}
use cpsc.Raft.Vote.{request_vote, vote_reply, answer, win}
use cpsc.Raft.Append.NewLog.{apply_committed-log}
use cpsc.Raft.Replicate.NewLog.{append_reply-log}
use cpsc.Raft.Ticker.{
  follower_timeout, follower_heartbeat, candidate_win, candidate_timeout, candidate_heartbeat,
  leader_round, kill, candidate_start,
}
use cpsc.Raft.Cluster.{
  Inner, on_append_entries, on_append_reply, on_start, on_apply, on_kill, on_follower_timeout,
  on_follower_heartbeat, on_candidate_win, on_candidate_timeout, on_candidate_heartbeat,
  on_leader_round,
}

module _ {C : Type 0} (gob : Gob C) where
  -- Neither a section of `AppendEntries` nor of `Start`.
  abbrev pub IsCalm : {rf rf' : Raft C} → Inner gob rf rf' → Type 0
  IsCalm (on_append_entries args e) = ⊥
  IsCalm (on_start command result e) = ⊥
  IsCalm _ = Unit

  pub Inner-log : (rf rf' : Raft C) (inner : Inner gob rf rf') → IsCalm inner → rf'.log ≡ rf.log
  unfolding kill follower_timeout follower_heartbeat candidate_win candidate_timeout
      candidate_heartbeat leader_round
  Inner-log rf rf' (on_append_entries args e) calm = elim calm [ ]
  Inner-log rf rf' (on_start command result e) calm = elim calm [ ]
  Inner-log rf rf' (on_append_reply server args reply e) calm =
      append_reply-log gob server args reply rf rf' e
  Inner-log rf rf' (on_apply e) calm = apply_committed-log rf rf' e
  Inner-log rf _ on_kill calm = refl
  Inner-log rf _ on_follower_timeout calm = (persist_same gob (record rf { state = candidate })).2
  Inner-log rf _ on_follower_heartbeat calm = refl
  Inner-log rf _ on_candidate_win calm = refl
  Inner-log rf _ on_candidate_timeout calm = refl
  Inner-log rf _ on_candidate_heartbeat calm = refl
  Inner-log rf _ on_leader_round calm = (persist_same gob rf).2

  pub candidate_start-log : (rf : Raft C) → (candidate_start gob rf).log ≡ rf.log
  unfolding candidate_start
  candidate_start-log rf =
      (persist_same gob (record rf {
        current_term = rf.current_term + 1;
        voted_for = some rf.me;
        num_votes_received = 1;
      })).2

  pub request_vote-log :
      (args : RequestVoteArgs) (rf rf' : Raft C) (reply : RequestVoteReply)
      → request_vote args rf ≡ ok (rf', reply)
      → rf'.log ≡ rf.log
  unfolding request_vote answer
  request_vote-log args rf rf' reply e = ground arith

  pub vote_reply-log :
      (args : RequestVoteArgs) (reply : RequestVoteReply) (rf rf' : Raft C)
      → vote_reply gob args (some reply) rf ≡ ok rf'
      → rf'.log ≡ rf.log
  unfolding vote_reply win
  vote_reply-log args reply rf rf' e =
      ground
        (arith, persist_same gob (record rf { num_votes_received = rf.num_votes_received + 1 }))
