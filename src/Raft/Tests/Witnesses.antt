-- ===== src/Raft/Tests/Witnesses.antt =====
-- lab3/raft: the theorems at concrete peers.
use cpsc.Common.{
  ℕ, ◌+◌, ◌*◌, ◌≤◌, ◌≡◌, refl, inl, inr, true, false, Option, none, some, List, [], ◌∷◌, arith,
  length,
}
use cpsc.Common.Outcome.{ok}
use mathlib.Core.List.{Memᴰ}
use cpsc.Raft.State.{
  follower, candidate, leader, Entry, Raft, RequestVoteArgs, RequestVoteReply, AppendEntriesArgs,
  AppendEntriesResults,
}
use cpsc.Raft.Log.{last_entry}
use cpsc.Raft.Vote.{request_vote, vote_reply}
use cpsc.Raft.Vote.Laws.{Answered, request_vote_lem}
use cpsc.Raft.Vote.Count.{Counted, vote_reply_lem}
use cpsc.Raft.Append.{append_entries, apply_committed}
use cpsc.Raft.Append.Accept.{Accepted, append_entries-accept}
use cpsc.Raft.Append.Conflict.{Refused, IsStart, append_entries-conflict}
use cpsc.Raft.Append.Stale.{append_entries-forgets}
use cpsc.Raft.Append.Apply.{apply_committed_lem}
use cpsc.Raft.Replicate.{append_reply, start, heartbeat_args}
use cpsc.Raft.Replicate.Commit.{Advanced, noted_reply, append_reply-Advanced}
use cpsc.Raft.Replicate.Catchup.{heartbeat-catches_up}
use cpsc.Raft.Replicate.Start.{Started, start_lem}
use cpsc.Raft.Ticker.{make, vote_args, follower_timeout}
use cpsc.Raft.Restart.{make-votes_again}
use cpsc.Raft.Candidacy.{vote_args-stale}
use cpsc.Raft.Run.{here, step, on_candidate_start}
use cpsc.Raft.Run.Ballots.{Run-one_vote}
use cpsc.Raft.Tests.Plain.{plain}

abbrev entry : ℕ → ℕ → Entry ℕ
entry t i = record { term = t; command = some (10 * i); index = i }

abbrev sentinel : Entry ℕ
sentinel = record { term = 0; command = none; index = 0 }

-- Peer 1 of three, in term 2, with three entries, the first of which is committed.
abbrev peer : Raft ℕ
peer = record {
  me = 1;
  peers = 3;
  dead = false;
  voted_for = none;
  num_votes_received = 1;
  state = follower;
  current_term = 2;
  log = sentinel ∷ entry 1 1 ∷ entry 2 2 ∷ entry 2 3 ∷ [];
  commit_idx = 1;
  next_idx = 4 ∷ 4 ∷ 2 ∷ [];
  match_idx = 3 ∷ 0 ∷ 1 ∷ [];
  applied_last = 0;
  apply_ch = [];
  win_election = 0;
  heartbeat = 0;
  applying = 1;
  raftstate = [];
}

abbrev chief : Raft ℕ
chief = record peer { state = leader }

abbrev request : RequestVoteArgs
request = record { term = 3; id_cand = 2; last_log_idx = 3; last_log_term = 2 }

request_vote_lem_example :
    (rf' : Raft ℕ) × (reply : RequestVoteReply) × (request_vote request peer ≡ ok (rf', reply))
    × Answered request peer (entry 2 3) rf' reply
unfolding last_entry
request_vote_lem_example = request_vote_lem request peer (entry 2 3) refl (omega arith)

vote_reply_lem_example :
    (rf' : Raft ℕ) × (vote_reply plain
        (record request { term = 2 })
        (some (record { term = 2; vote_granted = true }))
        (record peer { state = candidate })
      ≡ ok rf')
    × Counted plain
        (record request { term = 2 })
        (entry 2 3)
        (record { term = 2; vote_granted = true })
        (record peer { state = candidate })
        rf'
unfolding last_entry
vote_reply_lem_example =
    vote_reply_lem plain (record request { term = 2 }) (entry 2 3)
      (record { term = 2; vote_granted = true }) (record peer { state = candidate })
      (record { state = refl; term = refl; last_log = refl; width = refl; room = omega arith })
      (omega arith)

-- A message that ends in the entry of index `i` and term `t`, with nothing new.
abbrev append : (t i : ℕ) → List (Entry ℕ) → AppendEntriesArgs ℕ
append t i es = record {
  term = 2;
  leader_id = 0;
  prev_log_idx = i;
  prev_log_term = t;
  entries = es;
  leader_commit = 1;
}

append_entries-accept_example :
    (rf' : Raft ℕ) × (reply : AppendEntriesResults) × (append_entries plain
        (append 2 3 (entry 2 4 ∷ []))
        peer
      ≡ ok (rf', reply))
    × Accepted plain (append 2 3 (entry 2 4 ∷ [])) peer rf' reply
append_entries-accept_example =
    append_entries-accept plain (append 2 3 (entry 2 4 ∷ [])) peer (entry 2 3)
      (record { log = omega arith; term = omega arith; room = omega arith })
      (record { gapless = omega arith; later = omega arith }) refl refl (omega arith)

append_entries-conflict_example :
    (n : ℕ) × (rf' : Raft ℕ) × (reply : AppendEntriesResults) × (append_entries plain
        (append 1 3 [])
        peer
      ≡ ok (rf', reply))
    × Refused plain (append 1 3 []) peer n rf' reply
    × IsStart peer.log 2 3 n
append_entries-conflict_example =
    append_entries-conflict plain (append 1 3 []) peer (entry 2 3)
      (record { log = omega arith; term = omega arith; room = omega arith }) refl (omega arith)
      (omega arith) (omega arith)

-- A message of index 1 alone, at a peer that has committed index 2.
append_entries-forgets_example :
    (rf' : Raft ℕ) × (reply : AppendEntriesResults) × (append_entries plain
        (append 0 0 (entry 1 1 ∷ []))
        (record peer { commit_idx = 2 })
      ≡ ok (rf', reply))
    × (reply.success ≡ true)
    × (rf'.commit_idx ≡ 2)
    × (length rf'.log ≡ 0 + 1 + 1)
    × (length rf'.log ≤ rf'.commit_idx)
append_entries-forgets_example =
    append_entries-forgets plain (append 0 0 (entry 1 1 ∷ [])) (record peer { commit_idx = 2 })
      sentinel (record { log = omega arith; term = omega arith; room = omega arith })
      (record { gapless = omega arith; later = omega arith }) refl refl (omega arith) (omega arith)
      (omega arith)

apply_committed_lem_example :
    apply_committed peer
    ≡ ok (record peer {
      apply_ch = record { command_valid = true; command = some 10; command_index = 1 } ∷ [];
      applied_last = 1;
      applying = 0;
    })
apply_committed_lem_example = apply_committed_lem peer (omega arith) (omega arith) (omega arith)

-- Peer 0 holds indices 2 and 3 with the leader: the commit index moves to 3.
append_reply-Advanced_example :
    (rf' : Raft ℕ) × (append_reply plain 2
        (append 2 3 [])
        (some (record { term = 2; success = true; next_try_idx = 3 }))
        chief
      ≡ ok rf')
    × Advanced
        (noted_reply 2
          (append 2 3 [])
          (record { term = 2; success = true; next_try_idx = 3 })
          chief)
        3
        rf'
append_reply-Advanced_example =
    append_reply-Advanced plain 2 (append 2 3 [])
      (record { term = 2; success = true; next_try_idx = 3 }) chief
      (record {
        state = refl;
        term = refl;
        reply_term = omega arith;
        log = omega arith;
        commit = omega arith;
        next_width = refl;
        match_width = refl;
        peer = omega arith;
        follows = record { gapless = tt; later = tt };
      })

-- A follower of term 1 with a wrong entry at index 2.
abbrev behind : Raft ℕ
behind = record peer {
  me = 2;
  current_term = 1;
  log = sentinel ∷ entry 1 1 ∷ entry 1 2 ∷ [];
  commit_idx = 0;
}

heartbeat-catches_up_example :
    (args : AppendEntriesArgs ℕ) × (fo' : Raft ℕ) × (reply : AppendEntriesResults) × (heartbeat_args
        2 chief
      ≡ ok (some args))
    × (append_entries plain args behind ≡ ok (fo', reply))
    × (reply.success ≡ true)
    × (fo'.log ≡ chief.log)
    × (fo'.current_term ≡ 2)
    × (fo'.commit_idx ≡ 1)
heartbeat-catches_up_example =
    heartbeat-catches_up plain 2 2 chief behind
      (record {
        state = refl;
        other = omega arith;
        next = refl;
        low = omega arith;
        high = omega arith;
        log = omega arith;
      })
      (record { log = omega arith; prefix = refl; term = omega arith; room = omega arith })

start_lem_example :
    (rf' : Raft ℕ) × (result : Option (ℕ × ℕ)) × (start plain 7 chief ≡ ok (rf', result))
    × Started plain 7 chief rf' result
start_lem_example = start_lem plain 7 chief (omega arith) (omega arith)

-- The saved state of `peer`, with the vote of term 3 that it gives before it crashes.
abbrev durable : Raft ℕ
durable = record peer { raftstate = 2 ∷ 0 ∷ 0 ∷ 0 ∷ 0 ∷ 1 ∷ 11 ∷ 1 ∷ 2 ∷ 21 ∷ 2 ∷ 2 ∷ 31 ∷ 3 ∷ [] }

abbrev first_vote :
    (rf' : Raft ℕ) × (reply : RequestVoteReply) × (request_vote request durable ≡ ok (rf', reply))
    × Answered request durable (entry 2 3) rf' reply
unfolding last_entry
first_vote = request_vote_lem request durable (entry 2 3) refl (omega arith)

make-votes_again_example :
    (rf'' : Raft ℕ) × (reply' : RequestVoteReply) × (request_vote
        (record request { id_cand = 0 })
        (make plain 3 1 first_vote.0.raftstate)
      ≡ ok (rf'', reply'))
    × (reply'.vote_granted ≡ true)
    × (reply'.term ≡ first_vote.1.term)
unfolding last_entry
make-votes_again_example =
    make-votes_again plain 3 1 durable first_vote.0 request (record request { id_cand = 0 })
      first_vote.1 (entry 2 3) refl refl first_vote.2
      (first_vote.3.grants.1 (omega arith, inr (refl, omega arith), inl (omega arith))) refl
      (inr (refl, omega arith))

abbrev second_vote :
    (rf' : Raft ℕ) × (reply : RequestVoteReply) × (request_vote request peer ≡ ok (rf', reply))
    × Answered request peer (entry 2 3) rf' reply
unfolding last_entry
second_vote = request_vote_lem request peer (entry 2 3) refl (omega arith)

-- A candidate that needs two votes of three and grants its own to candidate 2.
vote_args-stale_example :
    (asked : RequestVoteArgs) × (rf'' : Raft ℕ) × (vote_args second_vote.0 ≡ ok asked)
    × (asked.term ≡ 3)
    × (asked.id_cand ≡ 1)
    × (vote_reply plain asked
          (some (record { term = 3; vote_granted = true }))
          (follower_timeout plain second_vote.0)
        ≡ ok rf'')
    × (rf''.state ≡ leader)
    × (rf''.current_term ≡ 3)
    × (rf''.voted_for ≡ some 2)
unfolding last_entry
vote_args-stale_example =
    vote_args-stale plain peer second_vote.0 request second_vote.1 (entry 2 3) refl refl
      (omega arith) (omega arith) second_vote.2
      (second_vote.3.grants.1 (omega arith, inr (refl, omega arith), inl (omega arith)))

-- A candidacy that times out, and a second one: the run casts a ballot in each term.
Run-one_vote_example : ◌≡◌ {A = ℕ} 1 1
Run-one_vote_example =
    Run-one_vote plain peer _ ((3, 1) ∷ []) 3 1 1 (step here on_candidate_start) (Memᴰ.head refl)
      (Memᴰ.head refl)
