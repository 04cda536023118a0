-- ===== src/Raft/Vote/Laws.antt =====
-- lab3/raft/raft.go, the RequestVote handler: when it grants a vote, and what it leaves behind.
use cpsc.Common.{
  ℕ, ◌+◌, ◌≤◌, ◌<◌, ◌≡◌, ◌↔◌, ◌⊎◌, sym, ◌∙◌, lt→ltb, refl, inl, inr, true, false, ◌&&◌, Option,
  none, some, arith, max, ltb, tests, Bool-cases,
}
use cpsc.Common.Outcome.{ok}
use cpsc.Raft.State.{Entry, Raft, RequestVoteArgs, RequestVoteReply, signal_capacity}
use cpsc.Raft.Log.{last_entry}
use cpsc.Raft.Vote.{up_to_date, may_vote, answer, request_vote, step_down}

-- The log that ends with term `t` and index `i` is at least as up to date as one that ends in `e`.
abbrev pub UpToDate : {C : Type 0} → (t i : ℕ) → Entry C → Type 0
UpToDate t i e = (e.term < t) ⊎ ((t ≡ e.term) × (e.index ≤ i))

-- The peer has no vote in the term of the request, or has one for this candidate.
abbrev pub IsFree : {C : Type 0} → RequestVoteArgs → Raft C → Type 0
IsFree args rf =
    (rf.current_term < args.term) ⊎ (rf.voted_for ≡ none) ⊎ (rf.voted_for ≡ some args.id_cand)

may_vote_iff : (v : Option ℕ) (c : ℕ) → (may_vote v c ≡ true) ↔ ((v ≡ none) ⊎ (v ≡ some c))
unfolding may_vote
may_vote_iff none c = (λ h. inl refl, λ h. refl)
may_vote_iff (some v) c = (λ h. ground arith, λ h. ground arith)

module _ {C : Type 0} (args : RequestVoteArgs) where
  up_to_date_iff :
      (e : Entry C) → (up_to_date args e ≡ true) ↔ UpToDate args.last_log_term args.last_log_idx e
  unfolding up_to_date
  up_to_date_iff e = (λ h. ground arith, λ h. ground arith)

  -- What `answer` does, by the test that it makes.
  record Decided (rf : Raft C) (last : Entry C) (rf' : Raft C) (reply : RequestVoteReply)
      : Type 0 where
    granted : reply.vote_granted ≡ (up_to_date args last && may_vote rf.voted_for args.id_cand)
    votes : reply.vote_granted ≡ true → rf'.voted_for ≡ some args.id_cand
    keeps : reply.vote_granted ≡ false → rf'.voted_for ≡ rf.voted_for
    term : rf'.current_term ≡ rf.current_term
    reply_term : reply.term ≡ args.term
    log : rf'.log ≡ rf.log

  answer_lem :
      (rf : Raft C) (last : Entry C)
      → last_entry rf.log ≡ ok last
      → rf.heartbeat < signal_capacity
      → (rf' : Raft C) × (reply : RequestVoteReply) × (answer args rf ≡ ok (rf', reply))
        × Decided rf last rf' reply
  unfolding answer
  answer_lem rf last e room =
      elim (Bool-cases (up_to_date args last && may_vote rf.voted_for args.id_cand)) [
        | inl good ↦ (
          record rf { voted_for = some args.id_cand; heartbeat = rf.heartbeat + 1 },
          record { term = args.term; vote_granted = true },
          rw (e, good, lt→ltb _ _ room),
          record {
            granted = sym good;
            votes = λ _. refl;
            keeps = λ h. cc;
            term = refl;
            reply_term = refl;
            log = refl;
          },
        )
        | inr bad ↦ (
          rf,
          record { term = args.term; vote_granted = false },
          rw (e, bad),
          record {
            granted = sym bad;
            votes = λ h. cc;
            keeps = λ _. refl;
            term = refl;
            reply_term = refl;
            log = refl;
          },
        )
      ]

module _ {C : Type 0} (args : RequestVoteArgs) (rf : Raft C) where
  pub record Answered (last : Entry C) (rf' : Raft C) (reply : RequestVoteReply) : Type 0 where
    pub grants : (reply.vote_granted ≡ true) ↔ (
        (rf.current_term ≤ args.term)
        × UpToDate args.last_log_term args.last_log_idx last
        × IsFree args rf)
    pub votes : reply.vote_granted ≡ true → rf'.voted_for ≡ some args.id_cand
    pub term : rf'.current_term ≡ max rf.current_term args.term
    pub reply_term : reply.term ≡ max rf.current_term args.term
    pub log : rf'.log ≡ rf.log

  Decided-Answered :
      (rf1 rf' : Raft C) (last : Entry C) (reply : RequestVoteReply)
      → Decided args rf1 last rf' reply
      → rf.current_term ≤ args.term
      → ((rf1.voted_for ≡ none) ⊎ (rf1.voted_for ≡ some args.id_cand)) ↔ IsFree args rf
      → rf1.current_term ≡ args.term
      → rf1.log ≡ rf.log
      → Answered last rf' reply
  Decided-Answered rf1 rf' last reply d le free at same = record {
    grants = (
      λ h.
          let both : (up_to_date args last ≡ true) × (may_vote rf1.voted_for args.id_cand ≡ true) =
            ground arith in
          (le, (up_to_date_iff args last).0 both.0, free.0 ((may_vote_iff _ _).0 both.1)),
      λ (p, u, f). rw (d.granted, (up_to_date_iff args last).1 u, (may_vote_iff _ _).1 (free.1 f)),
    );
    votes = d.votes;
    term = omega (arith, d.term);
    reply_term = omega (arith, d.reply_term);
    log = d.log ∙ same;
  }

  -- With room for a heartbeat the handler returns, and its answer is as `Answered` says: it grants
  -- exactly when the candidate's term is not behind, the candidate's log is at least as up to date
  -- as this one, and the vote of the term is free or given to the same candidate; the term becomes
  -- the later of the two, and the log stays.
  pub request_vote_lem :
      (last : Entry C)
      → last_entry rf.log ≡ ok last
      → rf.heartbeat < signal_capacity
      → (rf' : Raft C) × (reply : RequestVoteReply) × (request_vote args rf ≡ ok (rf', reply))
        × Answered last rf' reply
  unfolding request_vote
  request_vote_lem last e room = elim (Bool-cases (ltb args.term rf.current_term)) [
    | inl old ↦ (
      rf,
      record { term = rf.current_term; vote_granted = false },
      rw old,
      record {
        grants = (λ h. cc, λ h. absurd (omega tests));
        votes = λ h. cc;
        term = omega tests;
        reply_term = omega tests;
        log = refl;
      },
    )
    | inr now ↦ elim (Bool-cases (ltb rf.current_term args.term)) [
      | inl later ↦
          let (rf', reply, e, d) = answer_lem args (step_down args.term rf) last e room in
          (
            rf',
            reply,
            rw (now, later) e,
            Decided-Answered _ rf' last reply d (omega tests)
                (λ _. inl (omega tests), λ _. inl refl) refl refl,
          )
      | inr same ↦
          let (rf', reply, e, d) = answer_lem args rf last e room in
          (
            rf',
            reply,
            rw (now, same) e,
            Decided-Answered rf rf' last reply d (ground arith) (λ f. inr f, λ f. ground arith)
                (ground arith) refl,
          )
    ]
  ]

-- The handler writes nothing to stable storage, and grants only in a term that is not behind.
pub request_vote-raftstate :
    {C : Type 0} (args : RequestVoteArgs) (rf rf' : Raft C) (reply : RequestVoteReply)
    → request_vote args rf ≡ ok (rf', reply)
    → (rf'.raftstate ≡ rf.raftstate)
      × (rf.current_term ≤ reply.term)
      × (reply.vote_granted ≡ true → reply.term ≡ args.term)
unfolding request_vote answer
request_vote-raftstate args rf rf' reply e = ground arith

-- What a grant changes and what it keeps.
pub request_vote-kept :
    {C : Type 0} (args : RequestVoteArgs) (rf rf' : Raft C) (reply : RequestVoteReply)
    → request_vote args rf ≡ ok (rf', reply)
    → reply.vote_granted ≡ true
    → (rf'.voted_for ≡ some args.id_cand)
      × (rf'.current_term ≡ args.term)
      × (rf'.log ≡ rf.log)
      × (rf'.me ≡ rf.me)
      × (rf'.peers ≡ rf.peers)
      × (rf'.next_idx ≡ rf.next_idx)
      × (rf'.win_election ≡ rf.win_election)
      × (rf'.num_votes_received ≡ rf.num_votes_received)
unfolding request_vote answer
request_vote-kept args rf rf' reply e g = ground arith
