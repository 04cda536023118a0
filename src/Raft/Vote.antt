-- ===== src/Raft/Vote.antt =====
-- lab3/raft/raft.go, elections: the RequestVote handler, and what a candidate does with a reply.
pub mod Laws
pub mod Terms
pub mod Count
use cpsc.Common.{
  ℕ, zero, suc, ◌+◌, ◌/◌, Bool, true, false, ◌&&◌, ◌||◌, not, Option, none, some, List, [], ◌∷◌,
  ltb, leb, ◌==◌, if◌then◌else◌,
}
use cpsc.Common.Outcome.{Outcome, ok, panic, blocked, ◌>>=◌}
use cpsc.Raft.State.{
  Role, follower, candidate, leader, Entry, Raft, RequestVoteArgs, RequestVoteReply,
  signal_capacity,
}
use cpsc.Raft.Log.{last_entry}
use cpsc.Raft.Persist.{Gob, persist}

abbrev pub is_candidate : Role → Bool
is_candidate candidate = true
is_candidate _ = false

unfoldable pub may_vote : Option ℕ → ℕ → Bool
may_vote none c = true
may_vote (some v) c = v == c

-- `for i := range rf.peers { rf.nextIdx[i] = v }`
unfoldable pub fill : ℕ → List ℕ → ℕ → Outcome (List ℕ)
fill zero xs v = ok xs
fill (suc k) [] v = panic
fill (suc k) (x ∷ xs) v = fill k xs v >>= λ ys. ok (v ∷ ys)

module _ {C : Type 0} where
  -- The three assignments on meeting a later term.
  abbrev pub step_down : ℕ → Raft C → Raft C
  step_down t rf = record rf { voted_for = none; current_term = t; state = follower }

  -- A message of a later term makes the peer a follower of that term, with no vote.
  abbrev pub newer : ℕ → Raft C → Raft C
  newer t rf = if ltb rf.current_term t then step_down t rf else rf

  -- A send on a channel with room for `signal_capacity` signals, made while the lock is held.
  abbrev pub signal_heartbeat : Raft C → Outcome (Raft C)
  signal_heartbeat rf =
      if ltb rf.heartbeat signal_capacity
      then ok (record rf { heartbeat = rf.heartbeat + 1 })
      else blocked

  -- The candidate's log is at least as up to date as one that ends in `last`.
  unfoldable pub up_to_date : RequestVoteArgs → Entry C → Bool
  up_to_date args last =
      ltb last.term args.last_log_term
      || (args.last_log_term == last.term && leb last.index args.last_log_idx)

  unfoldable pub answer : RequestVoteArgs → Raft C → Outcome (Raft C × RequestVoteReply)
  answer args rf = last_entry rf.log >>= λ last.
      if up_to_date args last && may_vote rf.voted_for args.id_cand
      then (signal_heartbeat (record rf { voted_for = some args.id_cand }) >>= λ rf'.
          ok (rf', record { term = args.term; vote_granted = true }))
      else ok (rf, record { term = args.term; vote_granted = false })

  -- `RequestVote`, from lock to unlock.
  unfoldable pub request_vote : RequestVoteArgs → Raft C → Outcome (Raft C × RequestVoteReply)
  request_vote args rf =
      if ltb args.term rf.current_term
      then ok (rf, record { term = rf.current_term; vote_granted = false })
      else answer args (newer args.term rf)

  -- A majority was counted.
  unfoldable pub win : Gob C → Raft C → Outcome (Raft C)
  win gob rf = last_entry rf.log >>= λ last.
      fill rf.peers rf.next_idx (last.index + 1) >>= λ next_idx.
      if ltb rf.win_election signal_capacity
      then ok (record (persist gob rf) {
        next_idx = next_idx;
        state = leader;
        win_election = rf.win_election + 1;
      })
      else blocked

  -- `sendRequestVote` once `Call` has returned: `none` is a call that failed.
  unfoldable pub vote_reply :
      Gob C → RequestVoteArgs → Option RequestVoteReply → Raft C → Outcome (Raft C)
  vote_reply gob args none rf = ok rf
  vote_reply gob args (some reply) rf =
      if not (rf.current_term == args.term) || not (is_candidate rf.state)
      then ok rf
      else if ltb rf.current_term reply.term
      then ok (step_down reply.term rf)
      else if reply.vote_granted
      then (let rf' = record rf { num_votes_received = rf.num_votes_received + 1 } in
          if ltb (rf.peers / 2) rf'.num_votes_received then win gob rf' else ok rf')
      else ok rf
