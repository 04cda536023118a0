-- ===== src/Raft/Run/Ballots.antt =====
-- lab3/raft/raft.go: the term of a peer never falls, and in one term all its votes go to one
-- candidate, whatever the order in which handlers, replies and timers run.
use cpsc.Common.{
  ℕ, ◌+◌, ◌≤◌, ◌<◌, ◌≡◌, ◌⊎◌, refl, inl, inr, none, some, List, [], ◌∷◌, ◌++◌, arith, Bool-cases,
}
use cpsc.Raft.State.{candidate, Raft, RequestVoteArgs, RequestVoteReply}
use cpsc.Raft.Persist.{Gob}
use cpsc.Raft.Terms.{Moves, Alike-Keeps, persist_same}
use cpsc.Raft.Vote.{request_vote}
use cpsc.Common.Outcome.{ok}
use mathlib.Core.List.{Memᴰ}
use cpsc.Raft.Vote.Terms.{vote_reply-Moves, request_vote-Grants, request_vote-Moves}
use cpsc.Raft.Append.Terms.{append_entries-Moves, apply_committed-Alike}
use cpsc.Raft.Replicate.Terms.{start-Alike, append_reply-Moves}
use cpsc.Raft.Ticker.{
  follower_timeout, follower_heartbeat, candidate_start, candidate_win, candidate_timeout,
  candidate_heartbeat, leader_round, kill,
}
use cpsc.Raft.Run.{
  Ballot, ballot, Step, on_request_vote, on_vote_reply, on_append_entries, on_append_reply,
  on_start, on_apply, on_kill, on_follower_timeout, on_follower_heartbeat, on_candidate_start,
  on_candidate_win, on_candidate_timeout, on_candidate_heartbeat, on_leader_round, Run, here, step,
}

-- The ballots so far are of the peer's term or before, and those of its term are its vote.
abbrev pub Past : {C : Type 0} → List Ballot → Raft C → Type 0
Past [] rf = Unit
Past ((t, c) ∷ bs) rf =
    (t ≤ rf.current_term) × (t ≡ rf.current_term → rf.voted_for ≡ some c) × Past bs rf

-- The ballots of one term go to one candidate.
abbrev pub Agree : Ballot → List Ballot → Type 0
Agree b [] = Unit
Agree b (a ∷ bs) = (a.0 ≡ b.0 → a.1 ≡ b.1) × Agree b bs

abbrev pub OneVote : List Ballot → Type 0
OneVote [] = Unit
OneVote (b ∷ bs) = Agree b bs × OneVote bs

-- A later ballot of the same term agrees.
Agree-Memᴰ :
    (b : Ballot) (d : Ballot) (bs : List Ballot) → Agree b bs → Memᴰ d bs → d.0 ≡ b.0 → d.1 ≡ b.1
Agree-Memᴰ b d [] a m same = elim m [ ]
Agree-Memᴰ b d (x ∷ bs) a (Memᴰ.head e) same = ground (arith, a.0)
Agree-Memᴰ b d (x ∷ bs) a (Memᴰ.tail m) same = Agree-Memᴰ b d bs a.1 m same

pub OneVote-Memᴰ :
    (b d : Ballot) (bs : List Ballot) → OneVote bs → Memᴰ b bs → Memᴰ d bs → d.0 ≡ b.0 → d.1 ≡ b.1
OneVote-Memᴰ b d [] o m n same = elim m [ ]
OneVote-Memᴰ b d (x ∷ bs) o (Memᴰ.head e) (Memᴰ.head f) same = cc
OneVote-Memᴰ b d (x ∷ bs) o (Memᴰ.head e) (Memᴰ.tail n) same =
    ground (arith, Agree-Memᴰ x d bs o.0 n)
OneVote-Memᴰ b d (x ∷ bs) o (Memᴰ.tail m) (Memᴰ.head f) same =
    ground (arith, Agree-Memᴰ x b bs o.0 m)
OneVote-Memᴰ b d (x ∷ bs) o (Memᴰ.tail m) (Memᴰ.tail n) same = OneVote-Memᴰ b d bs o.1 m n same

module _ {C : Type 0} where
  Past-Moves : (bs : List Ballot) (rf rf' : Raft C) → Moves rf rf' → Past bs rf → Past bs rf'
  Past-Moves [] rf rf' m h = tt
  Past-Moves ((t, c) ∷ bs) rf rf' m h =
      (ground arith, λ e. ground (arith, h.1), Past-Moves bs rf rf' m h.2)

  -- A ballot for `c` in a state that may cast it agrees with all before.
  Past-Agree :
      (t c : ℕ) (bs : List Ballot) (rf : Raft C)
      → (rf.current_term < t)
        ⊎ (rf.current_term ≡ t) × ((rf.voted_for ≡ none) ⊎ (rf.voted_for ≡ some c))
      → Past bs rf
      → Agree (t, c) bs
  Past-Agree t c [] rf m h = tt
  Past-Agree t c ((u, d) ∷ bs) rf m h = (λ e. ground (arith, h.1), Past-Agree t c bs rf m h.2)

  -- The ballots so far fit the peer, and no two of one term differ.
  unfoldable pub Safe : List Ballot → Raft C → Type 0
  Safe bs rf = Past bs rf × OneVote bs

  pub Safe-Moves : (bs : List Ballot) (rf rf' : Raft C) → Moves rf rf' → Safe bs rf → Safe bs rf'
  unfolding Safe
  Safe-Moves bs rf rf' m h = (Past-Moves bs rf rf' m h.0, h.1)

  Safe-ballot :
      (t c : ℕ) (bs : List Ballot) (rf rf' : Raft C)
      → (rf'.current_term ≡ t) × (rf'.voted_for ≡ some c)
      → (rf.current_term < t)
        ⊎ (rf.current_term ≡ t) × ((rf.voted_for ≡ none) ⊎ (rf.voted_for ≡ some c))
      → Safe bs rf
      → Safe ((t, c) ∷ bs) rf'
  unfolding Safe
  Safe-ballot t c bs rf rf' now m h = (
    (ground arith, λ _. now.1, Past-vote bs h.0 (Past-Agree t c bs rf m h.0)),
    (Past-Agree t c bs rf m h.0, h.1),
  )
    where
      Past-vote : (bs : List Ballot) → Past bs rf → Agree (t, c) bs → Past bs rf'
      Past-vote [] p a = tt
      Past-vote ((u, d) ∷ bs) p a = (ground arith, λ e. ground (arith, a.0), Past-vote bs p.2 a.1)

  pub request_vote-Safe :
      (bs : List Ballot) (rf rf' : Raft C) (args : RequestVoteArgs) (reply : RequestVoteReply)
      → request_vote args rf ≡ ok (rf', reply)
      → Safe bs rf
      → Safe (ballot args reply ++ bs) rf'
  request_vote-Safe bs rf rf' args reply e h = elim (Bool-cases reply.vote_granted) [
    | inl y ↦
        let (now, vote, before) = request_vote-Grants args rf rf' reply e y in
        rw y (Safe-ballot reply.term args.id_cand bs rf rf' (now, vote) before h)
    | inr n ↦ rw n (Safe-Moves bs rf rf' (request_vote-Moves args rf rf' reply e n) h)
  ]

  abbrev candidacy : Raft C → Raft C
  candidacy rf = record rf {
    current_term = rf.current_term + 1;
    voted_for = some rf.me;
    num_votes_received = 1;
  }

  pub candidate_start-Safe :
      (gob : Gob C) (bs : List Ballot) (rf : Raft C)
      → Safe bs rf
      → Safe ((rf.current_term + 1, rf.me) ∷ bs) (candidate_start gob rf)
  unfolding candidate_start
  candidate_start-Safe gob bs rf h =
      Safe-ballot (rf.current_term + 1) rf.me bs rf (candidate_start gob rf)
        (ground (arith, persist_same gob (candidacy rf))) (inl (omega arith)) h

  Past-le :
      (b : Ballot) (bs : List Ballot) (rf : Raft C) → Past bs rf → Memᴰ b bs → b.0 ≤ rf.current_term
  Past-le b [] rf p m = elim m [ ]
  Past-le b ((t, c) ∷ bs) rf p (Memᴰ.head e) = ground (arith, p.0)
  Past-le b ((t, c) ∷ bs) rf p (Memᴰ.tail m) = Past-le b bs rf p.2 m

  -- No ballot is of a later term.
  pub Safe-le :
      (b : Ballot) (bs : List Ballot) (rf : Raft C) → Safe bs rf → Memᴰ b bs → b.0 ≤ rf.current_term
  unfolding Safe
  Safe-le b bs rf h m = Past-le b bs rf h.0 m

  Step-Safe :
      (gob : Gob C) (bs cs : List Ballot) (rf rf' : Raft C)
      → Step gob rf cs rf'
      → Safe bs rf
      → Safe (cs ++ bs) rf'
  unfolding kill follower_timeout follower_heartbeat candidate_win candidate_timeout
      candidate_heartbeat leader_round
  Step-Safe gob bs _ rf rf' (on_request_vote {reply} args e) h =
      request_vote-Safe bs rf rf' args reply e h
  Step-Safe gob bs _ rf rf' (on_vote_reply args reply e) h =
      Safe-Moves bs rf rf' (vote_reply-Moves gob args reply rf rf' e) h
  Step-Safe gob bs _ rf rf' (on_append_entries {reply} args e) h =
      Safe-Moves bs rf rf' (append_entries-Moves gob args rf rf' reply e) h
  Step-Safe gob bs _ rf rf' (on_append_reply server args reply e) h =
      Safe-Moves bs rf rf' (append_reply-Moves gob server args reply rf rf' e) h
  Step-Safe gob bs _ rf rf' (on_start command result e) h =
      Safe-Moves bs rf rf' (Alike-Keeps rf rf' (start-Alike gob command rf rf' result e)).0 h
  Step-Safe gob bs _ rf rf' (on_apply e) h =
      Safe-Moves bs rf rf' (Alike-Keeps rf rf' (apply_committed-Alike rf rf' e)).0 h
  Step-Safe gob bs _ rf _ on_kill h = Safe-Moves bs rf (kill rf) (inr (refl, refl)) h
  Step-Safe gob bs _ rf _ on_follower_timeout h =
      Safe-Moves bs rf (follower_timeout gob rf)
        (ground (arith, persist_same gob (record rf { state = candidate }))) h
  Step-Safe gob bs _ rf _ on_follower_heartbeat h =
      Safe-Moves bs rf (follower_heartbeat rf) (inr (refl, refl)) h
  Step-Safe gob bs _ rf _ on_candidate_start h = candidate_start-Safe gob bs rf h
  Step-Safe gob bs _ rf _ on_candidate_win h =
      Safe-Moves bs rf (candidate_win rf) (inr (refl, refl)) h
  Step-Safe gob bs _ rf _ on_candidate_timeout h =
      Safe-Moves bs rf (candidate_timeout rf) (inr (refl, refl)) h
  Step-Safe gob bs _ rf _ on_candidate_heartbeat h =
      Safe-Moves bs rf (candidate_heartbeat rf) (inr (refl, refl)) h
  Step-Safe gob bs _ rf _ on_leader_round h =
      Safe-Moves bs rf (leader_round gob rf) (ground (arith, persist_same gob rf)) h

  Run-Safe : (gob : Gob C) (rf rf' : Raft C) (bs : List Ballot) → Run gob rf bs rf' → Safe bs rf'
  unfolding Safe
  Run-Safe gob rf _ _ here = (tt, tt)
  Run-Safe gob rf rf' _ (step {bs} {cs} {rf1} r st) =
      Step-Safe gob bs cs rf1 rf' st (Run-Safe gob rf rf1 bs r)

  -- However the steps of a peer interleave, all the ballots that it casts in one term, for itself
  -- or in reply to a request, go to one candidate.
  pub Run-one_vote :
      (gob : Gob C) (rf rf' : Raft C) (bs : List Ballot) (t c d : ℕ)
      → Run gob rf bs rf'
      → Memᴰ (t, c) bs
      → Memᴰ (t, d) bs
      → c ≡ d
  unfolding Safe
  Run-one_vote gob rf rf' bs t c d r m n =
      OneVote-Memᴰ (t, d) (t, c) bs (Run-Safe gob rf rf' bs r).1 n m refl
