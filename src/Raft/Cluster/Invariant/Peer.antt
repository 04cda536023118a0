-- ===== src/Raft/Cluster/Invariant/Peer.antt =====
-- lab3/raft: each section of a peer keeps what holds of the peer in a cluster.
use cpsc.Common.{
  ℕ, ◌+◌, ◌/◌, ◌≤◌, ◌<◌, ◌≡◌, ◌≢◌, inl, inr, refl, ap, sym, ◌∙◌, subst, true, some, List, [], ◌∷◌,
  ◌++◌, arith, ◌==◌, ==_iff, Bool-cases,
}
use cpsc.Common.Outcome.{ok}
use mathlib.Core.List.{Memᴰ}
use mathlib.Core.List.Memᴰ
use cpsc.Raft.State.{candidate, Raft, RequestVoteArgs, RequestVoteReply}
use cpsc.Raft.Persist.{Gob}
use cpsc.Raft.Terms.{Moves, Keeps, persist-Alike}
use cpsc.Raft.Vote.{request_vote, vote_reply}
use cpsc.Raft.Vote.Terms.{
  request_vote-Grants, request_vote-Moves, request_vote-Mild, Tallied, vote_reply-Tallied,
  vote_reply-Moves,
}
use cpsc.Raft.Run.{Ballot, ballot}
use cpsc.Raft.Run.Ballots.{Safe, Safe-Moves, Safe-le, request_vote-Safe, candidate_start-Safe}
use cpsc.Raft.Ticker.{candidate_start, vote_args}
use cpsc.Raft.Cluster.{answered, taken, open_row}
use cpsc.Raft.Cluster.Quorum.{count_lt, count_some}
use cpsc.Raft.Cluster.Invariant.{
  IsOpen, open_row-tally, Row, IsOpen, voter, tally, PeerOk, Grows, tally-Grows, set_row,
  set_row-Grows,
}

pub vote_args_lem :
    {C : Type 0} (rf : Raft C) (args : RequestVoteArgs)
    → vote_args rf ≡ ok args
    → (args.term ≡ rf.current_term) × (args.id_cand ≡ rf.me)
unfolding vote_args
vote_args_lem rf args e = ground arith

pub request_vote-le :
    {C : Type 0} (args : RequestVoteArgs) (rf rf' : Raft C) (reply : RequestVoteReply)
    → request_vote args rf ≡ ok (rf', reply)
    → rf.current_term ≤ rf'.current_term
request_vote-le args rf rf' reply e = elim (Bool-cases reply.vote_granted) [
  | inl y ↦ let (now, _, before) = request_vote-Grants args rf rf' reply e y in ground arith
  | inr n ↦ let moves = request_vote-Moves args rf rf' reply e n in ground arith
]

Memᴰ-only : (a b : Ballot) → Memᴰ a (b ∷ []) → a ≡ b
Memᴰ-only a b (Memᴰ.head e) = e
Memᴰ-only a b (Memᴰ.tail m) = elim m [ ]

-- A ballot for another candidate is none for `i`.
ballot_other :
    (args : RequestVoteArgs) (reply : RequestVoteReply) (t i : ℕ) (vs : List Ballot)
    → args.id_cand ≢ i
    → Memᴰ (t, i) (ballot args reply ++ vs)
    → Memᴰ (t, i) vs
ballot_other args reply t i vs other m = elim (Bool-cases reply.vote_granted) [
  | inr no_vote ↦ rw no_vote at m
  | inl granted ↦ elim (Memᴰ.append_cases (ballot args reply) m) [
    | inr old ↦ old
    | inl new ↦ absurd (
        other (
          ap (λ (b : Ballot). b.1)
            (sym (Memᴰ-only (t, i) (reply.term, args.id_cand) (rw granted at new)))))
  ]
]

module _ {C : Type 0} (n i : ℕ) where
  -- A change of the row alone.
  pub Grows-PeerOk :
      (rf : Raft C) (vs : List Ballot) (row row' : Row)
      → Grows row row'
      → PeerOk n i rf vs row
      → PeerOk n i rf vs row'
  Grows-PeerOk rf vs row row' g p = record {
    me = p.me;
    size = p.size;
    safe = p.safe;
    opened = λ t s o. p.opened t s ((g t s).0 o);
    counted = λ t e m. omega (arith, p.counted t e m, tally-Grows n i row row' t g);
    elected = λ h t e.
        let (m, most) = p.elected h t e in (m, omega (arith, most, tally-Grows n i row row' t g));
  }

  -- A ballot that has been cast is not of a later term, so it is of the term before the section.
  same_term :
      (rf rf' : Raft C) (vs : List Ballot) (t : ℕ)
      → Safe vs rf
      → rf.current_term ≤ rf'.current_term
      → t ≡ rf'.current_term
      → Memᴰ (t, i) vs
      → t ≡ rf.current_term
  same_term rf rf' vs t safe le e m = omega (arith, Safe-le (t, i) vs rf safe m)

  pub Keeps-PeerOk :
      (rf rf' : Raft C) (vs : List Ballot) (row : Row)
      → Keeps rf rf'
      → PeerOk n i rf vs row
      → PeerOk n i rf' vs row
  Keeps-PeerOk rf rf' vs row (moves, (me, size, votes, leads)) p = record {
    me = me ∙ p.me;
    size = size ∙ p.size;
    safe = Safe-Moves vs rf rf' moves p.safe;
    opened = p.opened;
    counted = λ t e m.
        let before : t ≡ rf.current_term = same_term rf rf' vs t p.safe (ground arith) e m in
        omega (arith, votes, p.counted t before m);
    elected = λ h t e. (let (led, same) = leads h in p.elected led t (e ∙ same));
  }

  pub candidate_start-PeerOk :
      (gob : Gob C) (rf : Raft C) (vs : List Ballot) (row : Row)
      → i < n
      → rf.state ≡ candidate
      → PeerOk n i rf vs row
      → PeerOk n i (candidate_start gob rf) ((rf.current_term + 1, rf.me) ∷ vs) row
  unfolding candidate_start
  candidate_start-PeerOk gob rf vs row lt is_candidate p =
      let (term, _, me, size, votes, role) = persist-Alike gob (record rf {
        current_term = rf.current_term + 1;
        voted_for = some rf.me;
        num_votes_received = 1;
      }) in
      record {
        me = me ∙ p.me;
        size = size ∙ p.size;
        safe = candidate_start-Safe gob vs rf p.safe;
        opened = λ t s o. Memᴰ.tail (p.opened t s o);
        counted = λ t at m. omega (arith, votes, count_some n i (voter i row t) lt (ground arith));
        elected = λ h. (let no_leader = sym is_candidate ∙ sym role ∙ h in cc);
      }

  -- No call was made in the term of a candidacy that starts.
  pub candidate_start-unmade :
      (rf : Raft C) (vs : List Ballot) (row : Row)
      → PeerOk n i rf vs row
      → (s : ℕ) → IsOpen (row (rf.current_term + 1) s)
      → ⊥
  candidate_start-unmade rf vs row p s o =
      let past =
        Safe-le (rf.current_term + 1, i) vs rf p.safe (p.opened (rf.current_term + 1) s o) in
      omega (arith, past)

  -- A candidacy makes its calls.
  pub open_row-PeerOk :
      (rf : Raft C) (vs : List Ballot) (row : Row) (t : ℕ) (args : RequestVoteArgs)
      → Memᴰ (t, i) vs
      → ((s : ℕ) → IsOpen (row t s) → ⊥)
      → PeerOk n i rf vs row
      → PeerOk n i rf vs (open_row n i row t args)
  open_row-PeerOk rf vs row t args own unmade p = record {
    me = p.me;
    size = p.size;
    safe = p.safe;
    opened = λ u s o. elim (Bool-cases (u == t)) [
      | inr other ↦ p.opened u s (rw other at o)
      | inl now ↦ subst (λ x. Memᴰ (x, i) vs) (sym ((==_iff u t).0 now)) own
    ];
    counted = λ u at m. omega (arith, p.counted u at m, open_row-tally n i row t args unmade u);
    elected = λ lead u at.
        let (voted, most) = p.elected lead u at in
        (voted, omega (arith, most, open_row-tally n i row t args unmade u));
  }

  pub request_vote-PeerOk :
      (rf rf' : Raft C) (vs : List Ballot) (row : Row) (args : RequestVoteArgs)
      (reply : RequestVoteReply)
      → request_vote args rf ≡ ok (rf', reply)
      → args.id_cand ≢ i
      → PeerOk n i rf vs row
      → PeerOk n i rf' (ballot args reply ++ vs) row
  request_vote-PeerOk rf rf' vs row args reply e other p =
      let (me, size, votes, leads) = request_vote-Mild args rf rf' reply e in
      record {
        me = me ∙ p.me;
        size = size ∙ p.size;
        safe = request_vote-Safe vs rf rf' args reply e p.safe;
        opened = λ t s o. Memᴰ.append_right (ballot args reply) (p.opened t s o);
        counted = λ t at m.
            let old = ballot_other args reply t i vs other m in
            let before =
              same_term rf rf' vs t p.safe (request_vote-le args rf rf' reply e) at old in
            omega (arith, votes, p.counted t before old);
        elected = λ h t at.
            let (led, same) = leads h in
            let (m, most) = p.elected led t (at ∙ same) in
            (Memᴰ.append_right (ballot args reply) m, most);
      }

  pub vote_reply-PeerOk :
      (gob : Gob C) (rf rf' : Raft C) (vs : List Ballot) (row : Row) (args : RequestVoteArgs)
      (reply : RequestVoteReply) (t s : ℕ)
      → vote_reply gob args (some reply) rf ≡ ok rf'
      → row t s ≡ answered args reply
      → (s < n) × (s ≢ i) × (args.term ≡ t)
      → PeerOk n i rf vs row
      → PeerOk n i rf' vs (set_row row t s (taken reply))
  vote_reply-PeerOk gob rf rf' vs row args reply t s e at (lt, ne, of_term) p =
      let tl = vote_reply-Tallied gob args reply rf rf' e in
      let moves = vote_reply-Moves gob args (some reply) rf rf' e in
      record {
        me = tl.same.0 ∙ p.me;
        size = tl.same.1 ∙ p.size;
        safe = Safe-Moves vs rf rf' moves p.safe;
        opened = λ u r o. p.opened u r ((grown u r).0 o);
        counted = recount tl moves;
        elected = λ h u now.
            (let (same, how) = tl.elected h in
              elim how [
                | inl led ↦
                    let (m, most) = p.elected led u (now ∙ same) in
                    (m, omega (arith, most, tally-Grows n i row after u grown))
                | inr (of_now, most) ↦
                    let m : Memᴰ (u, i) vs =
                      subst (λ v. Memᴰ (v, i) vs) (sym of_term ∙ of_now ∙ sym same ∙ sym now)
                        (p.opened t s (subst IsOpen (sym at) tt)) in
                    (m, omega (arith, recount tl moves u now m, most, ap (λ v. v / 2) p.size))
              ]);
      }
    where
      after : Row
      after = set_row row t s (taken reply)

      grown : Grows row after
      grown = set_row-Grows row t s (answered args reply) (taken reply) at tt refl

      more : reply.vote_granted ≡ true → tally n i row t < tally n i after t
      more granted =
          count_lt n s (voter i row t) (voter i after t) (λ r v. ground (arith, (grown t r).1)) lt
            (ground (arith, at)) (ground arith)

      recount :
          Tallied args reply rf rf'
          → Moves rf rf'
          → (u : ℕ) → u ≡ rf'.current_term
          → Memᴰ (u, i) vs
          → rf'.num_votes_received ≤ tally n i after u
      recount tl moves u now m =
          let before : u ≡ rf.current_term = same_term rf rf' vs u p.safe (ground arith) now m in
          let counted = p.counted u before m in
          elim tl.votes [
            | inl same ↦ omega (arith, same, counted, tally-Grows n i row after u grown)
            | inr (one, granted, of_now, _) ↦
                let here : u ≡ t = before ∙ sym of_now ∙ of_term in
                subst (λ v. rf'.num_votes_received ≤ tally n i after v) (sym here)
                  (omega (
                    arith,
                    one,
                    more granted,
                    subst (λ v. rf.num_votes_received ≤ tally n i row v) here counted,
                  ))
          ]
