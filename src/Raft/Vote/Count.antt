-- ===== src/Raft/Vote/Count.antt =====
-- lab3/raft/raft.go, `sendRequestVote`: how a candidate counts the votes of its term, and when it
-- becomes the leader.
use cpsc.Common.{
  ℕ, zero, suc, ◌+◌, ◌*◌, ◌/◌, ◌≤◌, ◌<◌, ◌≡◌, ◌↔◌, inl, inr, refl, true, some, List, [], ◌∷◌, arith,
  Bool-cases, if◌then◌else◌, length, replicate, ltb, tests, lt→ltb,
}
use cpsc.Common.Outcome.{ok}
use cpsc.Raft.State.{
  candidate, leader, Entry, Raft, RequestVoteArgs, RequestVoteReply, signal_capacity,
}
use cpsc.Raft.Log.{last_entry}
use cpsc.Raft.Persist.{Gob, persist}
use cpsc.Raft.Vote.{vote_reply, win, fill}

fill_lem : (k : ℕ) (xs : List ℕ) (v : ℕ) → length xs ≡ k → fill k xs v ≡ ok (replicate k v)
unfolding fill
fill_lem zero [] v e = refl
fill_lem zero (x ∷ xs) v e = absurd (omega arith)
fill_lem (suc k) [] v e = absurd (omega arith)
fill_lem (suc k) (x ∷ xs) v e = rw (fill_lem k xs v (omega arith))

-- A candidate of the term of `args`, with room in its channel and one next index for each peer.
pub record IsWaiting {C : Type 0} (args : RequestVoteArgs) (last : Entry C) (rf : Raft C)
    : Type 0 where
  pub state : rf.state ≡ candidate
  pub term : rf.current_term ≡ args.term
  pub last_log : last_entry rf.log ≡ ok last
  pub width : length rf.next_idx ≡ rf.peers
  pub room : rf.win_election < signal_capacity

module _ {C : Type 0} (gob : Gob C) (args : RequestVoteArgs) where
  pub record Counted (last : Entry C) (reply : RequestVoteReply) (rf rf' : Raft C) : Type 0 where
    pub votes :
        rf'.num_votes_received ≡ rf.num_votes_received + (if reply.vote_granted then 1 else 0)
    pub wins :
        (rf'.state ≡ leader)
        ↔ ((reply.vote_granted ≡ true) × (rf.peers < 2 * (rf.num_votes_received + 1)))
    pub next : rf'.state ≡ leader → rf'.next_idx ≡ replicate rf.peers (last.index + 1)
    pub term : rf'.current_term ≡ rf.current_term
    pub voted_for : rf'.voted_for ≡ rf.voted_for
    pub log : rf'.log ≡ rf.log

  -- The leader that `win` makes.
  elected : Entry C → Raft C → Raft C
  elected last rf = record (persist gob rf) {
    next_idx = replicate rf.peers (last.index + 1);
    state = leader;
    win_election = rf.win_election + 1;
  }

  win_lem :
      (last : Entry C) (rf : Raft C) → IsWaiting args last rf → win gob rf ≡ ok (elected last rf)
  unfolding win elected
  win_lem last rf w =
      rw (w.last_log, fill_lem rf.peers rf.next_idx (last.index + 1) w.width, lt→ltb _ _ w.room)

  elected-Counted :
      (last : Entry C) (reply : RequestVoteReply) (rf : Raft C)
      → reply.vote_granted ≡ true
      → rf.peers < 2 * (rf.num_votes_received + 1)
      → Counted last reply rf
          (elected last (record rf { num_votes_received = rf.num_votes_received + 1 }))
  unfolding elected persist
  elected-Counted last reply rf g m = record {
    votes = rw g;
    wins = (λ _. (g, m), λ _. refl);
    next = λ _. refl;
    term = refl;
    voted_for = refl;
    log = refl;
  }

  short-Counted :
      (last : Entry C) (reply : RequestVoteReply) (rf : Raft C) (n : ℕ)
      → rf.state ≡ candidate
      → ¬ ((reply.vote_granted ≡ true) × (rf.peers < 2 * (rf.num_votes_received + 1)))
      → n ≡ rf.num_votes_received + (if reply.vote_granted then 1 else 0)
      → Counted last reply rf (record rf { num_votes_received = n })
  short-Counted last reply rf n c no_win e = record {
    votes = e;
    wins = (λ h. cc, λ h. absurd (no_win h));
    next = λ h. cc;
    term = refl;
    voted_for = refl;
    log = refl;
  }

  -- The handling of a reply of no later term, at a candidate whose term is that of the arguments,
  -- returns. A granted reply adds one to `numVotesReceived` and a refused one nothing. The candidate
  -- becomes the leader exactly where the reply is granted and the counter, with it, is above half of
  -- the peers; the next indices are then those after its last entry. The term, the vote and the log
  -- stay.
  pub vote_reply_lem :
      (last : Entry C) (reply : RequestVoteReply) (rf : Raft C)
      → IsWaiting args last rf
      → reply.term ≤ rf.current_term
      → (rf' : Raft C) × (vote_reply gob args (some reply) rf ≡ ok rf') × Counted last reply rf rf'
  unfolding vote_reply
  vote_reply_lem last reply rf w le = elim (Bool-cases reply.vote_granted) [
    | inr n ↦ (
      rf,
      ground arith,
      short-Counted last reply rf rf.num_votes_received w.state (λ h. cc) (rw n (omega arith)),
    )
    | inl g ↦ elim (Bool-cases (ltb (rf.peers / 2) (rf.num_votes_received + 1))) [
      | inl m ↦ (
        elected last more,
        ground (arith, win_lem last more more-IsWaiting),
        elected-Counted last reply rf g (omega tests),
      )
      | inr m ↦ (
        more,
        ground arith,
        short-Counted last reply rf (rf.num_votes_received + 1) w.state (λ h. ground arith) (rw g),
      )
    ]
  ]
    where
      more : Raft C
      more = record rf { num_votes_received = rf.num_votes_received + 1 }

      more-IsWaiting : IsWaiting args last more
      more-IsWaiting = record {
        state = w.state;
        term = w.term;
        last_log = w.last_log;
        width = w.width;
        room = w.room;
      }
