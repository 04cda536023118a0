-- ===== src/Raft/State.antt =====
-- lab3/raft/raft.go, the types: a peer's state, its log, and the messages. An int that the code
-- keeps at 0 or above is a number; `votedFor`, which is -1 before a vote, is an `Option`.
use cpsc.Common.{ℕ, Bool, Option, List}

pub data Role : Type 0 where
  follower : Role
  candidate : Role
  leader : Role

-- `LogElement`. The first entry of a log is a sentinel whose command is nil.
pub record Entry (C : Type 0) : Type 0 where
  pub term : ℕ
  pub command : Option C
  pub index : ℕ

pub record ApplyMsg (C : Type 0) : Type 0 where
  pub command_valid : Bool
  pub command : Option C
  pub command_index : ℕ

-- `peers` counts the peers. `apply_ch` lists the messages sent so far on `cApplyMsg`, and
-- `win_election` and `heartbeat` count what waits in those two channels. `applying` counts the
-- goroutines that `go func()` has started to send committed entries and that have not run yet.
-- `raftstate` is what the persister holds.
pub record Raft (C : Type 0) : Type 0 where
  pub me : ℕ
  pub peers : ℕ
  pub dead : Bool
  pub voted_for : Option ℕ
  pub num_votes_received : ℕ
  pub state : Role
  pub current_term : ℕ
  pub log : List (Entry C)
  pub commit_idx : ℕ
  pub next_idx : List ℕ
  pub match_idx : List ℕ
  pub applied_last : ℕ
  pub apply_ch : List (ApplyMsg C)
  pub win_election : ℕ
  pub heartbeat : ℕ
  pub applying : ℕ
  pub raftstate : List ℕ

pub record RequestVoteArgs : Type 0 where
  pub term : ℕ
  pub id_cand : ℕ
  pub last_log_idx : ℕ
  pub last_log_term : ℕ

pub record RequestVoteReply : Type 0 where
  pub term : ℕ
  pub vote_granted : Bool

pub record AppendEntriesArgs (C : Type 0) : Type 0 where
  pub term : ℕ
  pub leader_id : ℕ
  pub prev_log_idx : ℕ
  pub prev_log_term : ℕ
  pub entries : List (Entry C)
  pub leader_commit : ℕ

pub record AppendEntriesResults : Type 0 where
  pub term : ℕ
  pub success : Bool
  pub next_try_idx : ℕ

-- The capacity of `cWinElection` and of `cHeartbeat`.
abbrev pub signal_capacity : ℕ
signal_capacity = 1000
