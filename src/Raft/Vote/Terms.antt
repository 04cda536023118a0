-- ===== src/Raft/Vote/Terms.antt =====
-- lab3/raft/raft.go, elections: terms and votes.
use cpsc.Common.{ℕ, ◌+◌, ◌<◌, ◌≡◌, ◌⊎◌, ◌/◌, true, false, Option, none, some, arith}
use cpsc.Common.Outcome.{ok}
use cpsc.Raft.State.{leader, Raft, RequestVoteArgs, RequestVoteReply}
use cpsc.Raft.Terms.{Moves, Mild, persist-Alike, persist_same}
use cpsc.Raft.Persist.{Gob}
use cpsc.Raft.Vote.{request_vote, vote_reply, answer, may_vote, win}

module _ {C : Type 0} (gob : Gob C) where
  win-Moves : (rf rf' : Raft C) → win gob rf ≡ ok rf' → Moves rf rf'
  unfolding win
  win-Moves rf rf' e = ground (arith, persist_same gob rf)

  pub vote_reply-Moves :
      (args : RequestVoteArgs) (reply : Option RequestVoteReply) (rf rf' : Raft C)
      → vote_reply gob args reply rf ≡ ok rf'
      → Moves rf rf'
  unfolding vote_reply
  vote_reply-Moves args none rf rf' e = ground arith
  vote_reply-Moves args (some reply) rf rf' e =
      ground (arith, win-Moves (record rf { num_votes_received = rf.num_votes_received + 1 }) rf')

module _ {C : Type 0} (args : RequestVoteArgs) where
  -- A granted vote is recorded, and fits the vote of the term before it.
  abbrev pub Grants : Raft C → Raft C → ℕ → Type 0
  Grants rf rf' t =
      (rf'.current_term ≡ t)
      × (rf'.voted_for ≡ some args.id_cand)
      × ((rf.current_term < t)
          ⊎ (rf.current_term ≡ t) × ((rf.voted_for ≡ none) ⊎ (rf.voted_for ≡ some args.id_cand)))

  pub request_vote-Grants :
      (rf rf' : Raft C) (reply : RequestVoteReply)
      → request_vote args rf ≡ ok (rf', reply)
      → reply.vote_granted ≡ true
      → Grants rf rf' reply.term
  unfolding request_vote answer may_vote
  request_vote-Grants rf rf' reply e g = ground arith

  pub request_vote-Moves :
      (rf rf' : Raft C) (reply : RequestVoteReply)
      → request_vote args rf ≡ ok (rf', reply)
      → reply.vote_granted ≡ false
      → Moves rf rf'
  unfolding request_vote answer may_vote
  request_vote-Moves rf rf' reply e g = ground arith

  -- A vote is granted in the term of the request.
  pub request_vote-granted :
      (rf rf' : Raft C) (reply : RequestVoteReply)
      → request_vote args rf ≡ ok (rf', reply)
      → reply.vote_granted ≡ true
      → reply.term ≡ args.term
  unfolding request_vote answer
  request_vote-granted rf rf' reply e g = ground arith

  -- Answering a request makes no leader.
  pub request_vote-Mild :
      (rf rf' : Raft C) (reply : RequestVoteReply)
      → request_vote args rf ≡ ok (rf', reply)
      → Mild rf rf'
  unfolding request_vote answer
  request_vote-Mild rf rf' reply e = ground arith

-- What the handling of a reply counts: nothing, or one granted vote of the term; and it makes a
-- leader only of a candidate of that term that has counted a majority.
pub record Tallied {C : Type 0} (args : RequestVoteArgs) (reply : RequestVoteReply)
    (rf rf' : Raft C) : Type 0 where
  pub same : (rf'.me ≡ rf.me) × (rf'.peers ≡ rf.peers)
  pub votes :
      (rf'.num_votes_received ≡ rf.num_votes_received)
      ⊎ ((rf'.num_votes_received ≡ rf.num_votes_received + 1)
          × (reply.vote_granted ≡ true)
          × (args.term ≡ rf.current_term)
          × (rf'.current_term ≡ rf.current_term))
  pub elected :
      rf'.state ≡ leader
      → (rf'.current_term ≡ rf.current_term)
        × ((rf.state ≡ leader)
            ⊎ (args.term ≡ rf.current_term) × (rf.peers / 2 < rf'.num_votes_received))

module _ {C : Type 0} (gob : Gob C) where
  win_same :
      (rf rf' : Raft C)
      → win gob rf ≡ ok rf'
      → (rf'.me ≡ rf.me)
        × (rf'.peers ≡ rf.peers)
        × (rf'.num_votes_received ≡ rf.num_votes_received)
        × (rf'.current_term ≡ rf.current_term)
  unfolding win
  win_same rf rf' e = ground (arith, persist-Alike gob rf)

  pub vote_reply-Tallied :
      (args : RequestVoteArgs) (reply : RequestVoteReply) (rf rf' : Raft C)
      → vote_reply gob args (some reply) rf ≡ ok rf'
      → Tallied args reply rf rf'
  unfolding vote_reply
  vote_reply-Tallied args reply rf rf' e = record {
    same = ground (arith, win_same more rf');
    votes = ground (arith, win_same more rf');
    elected = λ h. ground (arith, win_same more rf');
  }
    where
      more : Raft C
      more = record rf { num_votes_received = rf.num_votes_received + 1 }
