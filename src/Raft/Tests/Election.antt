-- ===== src/Raft/Tests/Election.antt =====
-- lab3/raft: an election in a cluster of three peers.
use cpsc.Common.{ℕ, ◌≡◌, refl, true, arith}
use cpsc.Raft.State.{leader, RequestVoteArgs, RequestVoteReply}
use cpsc.Raft.Log.{last_entry}
use cpsc.Raft.Persist.{persist, read_persist}
use cpsc.Raft.Vote.{may_vote, fill, up_to_date, answer, request_vote, win, vote_reply}
use cpsc.Raft.Ticker.{follower_timeout, candidate_start, vote_args, make}
use cpsc.Raft.Cluster.{
  Cluster, initial, Run, AllPrompt, here, next, on_inner, on_follower_timeout, on_candidacy, on_ask,
  on_request, on_reply,
}
use cpsc.Raft.Cluster.Election.{Run-one_leader}
use cpsc.Raft.Tests.Plain.{plain}

abbrev pub vote_request : RequestVoteArgs
vote_request = record { term = 1; id_cand = 0; last_log_idx = 0; last_log_term = 0 }

abbrev pub granted : RequestVoteReply
granted = record { term = 1; vote_granted = true }

-- Peer 0 times out, starts an election and is given the vote of peer 1.
abbrev election :
    (k : Cluster ℕ) × (r : Run plain 3 (initial plain 3) k) × AllPrompt plain r
    × ((k.peers 0).state ≡ leader)
unfolding initial make read_persist persist follower_timeout candidate_start vote_args request_vote
    vote_reply last_entry answer up_to_date may_vote win fill
election = (
  _,
  next
      (next
        (next
          (next (next here (on_inner 0 on_follower_timeout)) (on_candidacy 0 (omega arith) refl))
          (on_ask {args = vote_request} 0 1 refl refl))
        (on_request {args = vote_request} {reply = granted} 0 1 1 refl refl))
      (on_reply {args = vote_request} {reply = granted} 0 1 1 refl refl),
  (((((tt, tt), tt), refl), tt), tt),
  refl,
)

Run-one_leader_example : ◌≡◌ {A = ℕ} 0 0
Run-one_leader_example =
    Run-one_leader plain 3 election.0 0 0 election.1 election.2 election.3 election.3 refl
