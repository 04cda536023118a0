-- ===== src/Raft/Ticker.antt =====
-- lab3/raft/raft.go, the life of a peer: `Make`, `Kill`, and the steps of `ticker` between two
-- waits. Each step runs with the lock held; the waits, and what else runs during them, lie between
-- the steps.
use cpsc.Common.{ℕ, ◌+◌, ◌-◌, Bool, true, false, none, some, List, [], ◌∷◌, replicate}
use cpsc.Common.Outcome.{Outcome, ok, ◌>>=◌}
use cpsc.Raft.State.{follower, candidate, Raft, RequestVoteArgs}
use cpsc.Raft.Log.{last_entry}
use cpsc.Raft.Persist.{Gob, persist, read_persist}

module _ {C : Type 0} where
  -- `Kill` and `killed`
  unfoldable pub kill : Raft C → Raft C
  kill rf = record rf { dead = true }

  pub killed : Raft C → Bool
  killed rf = rf.dead

  -- case FOLLOWER: the election timer fires, or a heartbeat is taken from the channel.
  unfoldable pub follower_timeout : Gob C → Raft C → Raft C
  follower_timeout gob rf = persist gob (record rf { state = candidate })

  unfoldable pub follower_heartbeat : Raft C → Raft C
  follower_heartbeat rf = record rf { heartbeat = rf.heartbeat - 1 }

  -- case CANDIDATE, up to the first unlock: a new term, with a vote for itself.
  unfoldable pub candidate_start : Gob C → Raft C → Raft C
  candidate_start gob rf = persist gob (record rf {
    current_term = rf.current_term + 1;
    voted_for = some rf.me;
    num_votes_received = 1;
  })

  -- The goroutine that reads the arguments for the vote requests, under the lock that it takes
  -- again after `candidate_start` has released it.
  unfoldable pub vote_args : Raft C → Outcome RequestVoteArgs
  vote_args rf = last_entry rf.log >>= λ last. ok (record {
    term = rf.current_term;
    id_cand = rf.me;
    last_log_idx = last.index;
    last_log_term = last.term;
  })

  -- What ends the wait of a candidate.
  unfoldable pub candidate_win : Raft C → Raft C
  candidate_win rf = record rf { win_election = rf.win_election - 1 }

  unfoldable pub candidate_timeout : Raft C → Raft C
  candidate_timeout rf = record rf { state = follower }

  unfoldable pub candidate_heartbeat : Raft C → Raft C
  candidate_heartbeat rf = record rf { state = follower; heartbeat = rf.heartbeat - 1 }

  -- case LEADER
  unfoldable pub leader_round : Gob C → Raft C → Raft C
  leader_round gob rf = persist gob rf

  -- The zero value of the struct, with the sentinel, before `Make` reads what was saved.
  unfoldable pub blank : (peers me : ℕ) → List ℕ → Raft C
  blank peers me saved = record {
    me = me;
    peers = peers;
    dead = false;
    voted_for = some 0;
    num_votes_received = 0;
    state = follower;
    current_term = 0;
    log = record { term = 0; command = none; index = 0 } ∷ [];
    commit_idx = 0;
    next_idx = replicate peers 0;
    match_idx = replicate peers 0;
    applied_last = 0;
    apply_ch = [];
    win_election = 0;
    heartbeat = 0;
    applying = 0;
    raftstate = saved;
  }

  -- `Make`, up to the start of the ticker: `saved` is what the persister holds.
  unfoldable pub make : Gob C → (peers me : ℕ) → List ℕ → Raft C
  unfolding blank
  make gob peers me saved = record (persist gob (read_persist gob saved (blank peers me saved))) {
    voted_for = none;
  }
