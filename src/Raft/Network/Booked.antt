-- ===== src/Raft/Network/Booked.antt =====
-- lab3/raft: what holds of the peers and the messages of a network, with the books of the terms.
use cpsc.Common.{
  ℕ, ◌/◌, ◌≤◌, ◌<◌, ◌≡◌, ◌≢◌, refl, ap, sym, ◌∙◌, subst, inl, inr, true, some, List, arith, ◌==◌,
  ==_iff, Bool-cases, ℕ_discrete,
}
use mathlib.Core.List.{Memᴰ}
use cpsc.Raft.State.{leader, Entry}
use cpsc.Raft.Replicate.Slice.{IsSliceOf}
use cpsc.Raft.Run.{Ballot}
use cpsc.Raft.Cluster.{Cluster}
use cpsc.Raft.Cluster.Invariant.{tally}
use cpsc.Raft.Network.{Message}
use cpsc.Raft.Network.Books.{Books, IsGood, set_book}

module _ {C : Type 0} where
  -- A message was sent by the leader of its term to another peer, from its log of that time.
  pub record IsSent (bk : Books C) (msg : Message C) : Type 0 where
    pub source : List (Entry C)
    pub good : IsGood bk source
    pub slice : IsSliceOf source msg.1
    pub owner : ℕ
    pub book : List (Entry C)
    pub known : bk msg.1.term ≡ some (owner, book)
    pub other : msg.0 ≢ owner

  -- The books: whose they are, and that they are the logs of those peers in their term.
  pub record IsBooked (n : ℕ) (bk : Books C) (k : Cluster C) (sent : List (Message C))
      : Type 0 where
    pub good : (i : ℕ) → IsGood bk (k.peers i).log
    pub messages : (msg : Message C) → Memᴰ msg sent → IsSent bk msg
    pub own :
        (i : ℕ) (b : List (Entry C))
        → bk (k.peers i).current_term ≡ some (i, b)
        → (k.peers i).log ≡ b
    pub past : (t o : ℕ) (b : List (Entry C)) → bk t ≡ some (o, b) → t ≤ (k.peers o).current_term
    pub elected :
        (t o : ℕ) (b : List (Entry C))
        → bk t ≡ some (o, b)
        → Memᴰ (t, o) (k.votes o) × (n / 2 < tally n o (k.calls o) t)

  -- Each leader has the book of its term.
  abbrev pub Leads : Books C → Cluster C → Type 0
  Leads bk k =
      (i : ℕ)
      → (k.peers i).state ≡ leader
      → (b : List (Entry C)) × (bk (k.peers i).current_term ≡ some (i, b))

  -- A step that changes no log and no book: terms, ballots and counted votes only grow.
  pub record IsQuiet (n : ℕ) (k l : Cluster C) : Type 0 where
    pub log : (i : ℕ) → (l.peers i).log ≡ (k.peers i).log
    pub term : (i : ℕ) → (k.peers i).current_term ≤ (l.peers i).current_term
    pub votes : (i : ℕ) (v : Ballot) → Memᴰ v (k.votes i) → Memᴰ v (l.votes i)
    pub calls :
        (i t : ℕ) → t ≤ (k.peers i).current_term → tally n i (k.calls i) t ≤ tally n i (l.calls i) t

  pub IsQuiet-IsBooked :
      (n : ℕ) (bk : Books C) (k l : Cluster C) (sent : List (Message C))
      → IsQuiet n k l
      → IsBooked n bk k sent
      → IsBooked n bk l sent
  IsQuiet-IsBooked n bk k l sent q inv = record {
    good = λ i. subst (IsGood bk) (sym (q.log i)) (inv.good i);
    messages = inv.messages;
    own = λ i b known.
        let reached = inv.past (l.peers i).current_term i b known in
        let same : (l.peers i).current_term ≡ (k.peers i).current_term =
          omega (arith, reached, q.term i) in
        q.log i ∙ inv.own i b (sym (ap bk same) ∙ known);
    past = λ t o b known. omega (arith, inv.past t o b known, q.term o);
    elected = λ t o b known.
        let (voted, most) = inv.elected t o b known in
        (q.votes o (t, o) voted, omega (arith, most, q.calls o t (inv.past t o b known)));
  }

  set-IsSent :
      (bk : Books C) (t i : ℕ) (m : List (Entry C)) (msg : Message C)
      → ((o : ℕ) (b : List (Entry C)) → bk t ≡ some (o, b) → o ≡ i)
      → ((x : List (Entry C)) → IsGood bk x → IsGood (set_book bk t i m) x)
      → IsSent bk msg
      → IsSent (set_book bk t i m) msg
  set-IsSent bk t i m msg mine kept s = elim (Bool-cases (msg.1.term == t)) [
    | inr other ↦ record {
      source = s.source;
      good = kept s.source s.good;
      slice = s.slice;
      owner = s.owner;
      book = s.book;
      known = rw other s.known;
      other = s.other;
    }
    | inl here ↦
        let same : msg.1.term ≡ t = (==_iff msg.1.term t).0 here in
        let is_i = mine s.owner s.book (ap bk (sym same) ∙ s.known) in
        record {
          source = s.source;
          good = kept s.source s.good;
          slice = s.slice;
          owner = i;
          book = m;
          known = rw here refl;
          other = λ e. s.other (e ∙ sym is_i);
        }
  ]

  -- The book of the term of peer `i` becomes the log of that peer.
  pub set-IsBooked :
      (n : ℕ) (bk : Books C) (k l : Cluster C) (sent : List (Message C)) (i : ℕ)
      → IsBooked n bk k sent
      → ((j : ℕ) → j ≢ i → (l.peers j).log ≡ (k.peers j).log)
      → ((j : ℕ) → (l.peers j).current_term ≡ (k.peers j).current_term)
      → l.votes ≡ k.votes
      → l.calls ≡ k.calls
      → ((o : ℕ) (b : List (Entry C)) → bk (l.peers i).current_term ≡ some (o, b) → o ≡ i)
      → ((x : List (Entry C))
          → IsGood bk x
          → IsGood (set_book bk (l.peers i).current_term i (l.peers i).log) x)
      → IsGood (set_book bk (l.peers i).current_term i (l.peers i).log) (l.peers i).log
      → Memᴰ ((l.peers i).current_term, i) (l.votes i)
      → n / 2 < tally n i (l.calls i) (l.peers i).current_term
      → IsBooked n (set_book bk (l.peers i).current_term i (l.peers i).log) l sent
  set-IsBooked n bk k l sent i inv logs terms votes calls mine kept good voted most =
      let t = (l.peers i).current_term in
      let m = (l.peers i).log in
      record {
        good = λ j. elim (ℕ_discrete j i) [
          | yes e ↦ subst (λ x. IsGood (set_book bk t i m) (l.peers x).log) (sym e) good
          | no ne ↦ kept (l.peers j).log (subst (IsGood bk) (sym (logs j ne)) (inv.good j))
        ];
        messages = λ msg at. set-IsSent bk t i m msg mine kept (inv.messages msg at);
        own = λ j b known. elim (Bool-cases ((l.peers j).current_term == t)) [
          | inl here ↦
              let one : some (i, m) ≡ some (j, b) = rw here at known in
              let is_i : i ≡ j = cc in
              let is_m : m ≡ b = cc in ap (λ x. (l.peers x).log) (sym is_i) ∙ is_m
          | inr other ↦ elim (ℕ_discrete j i) [
            | yes e ↦
                let same : ((l.peers j).current_term == t) ≡ true =
                  (==_iff _ _).1 (ap (λ x. (l.peers x).current_term) e) in
                absurd cc
            | no ne ↦ logs j ne ∙ inv.own j b (ap bk (sym (terms j)) ∙ rw other at known)
          ]
        ];
        past = λ u o b known. elim (Bool-cases (u == t)) [
          | inl here ↦
              let one : some (i, m) ≡ some (o, b) = rw here at known in
              let is_i : i ≡ o = cc in
              let same : u ≡ t = (==_iff u t).0 here in
              omega (arith, same, ap (λ x. (l.peers x).current_term) is_i)
          | inr other ↦ omega (arith, inv.past u o b (rw other at known), terms o)
        ];
        elected = λ u o b known. elim (Bool-cases (u == t)) [
          | inl here ↦
              let one : some (i, m) ≡ some (o, b) = rw here at known in
              let is_i : i ≡ o = cc in
              let same : t ≡ u = sym ((==_iff u t).0 here) in
              subst (λ x. Memᴰ (x, o) (l.votes o) × (n / 2 < tally n o (l.calls o) x)) same
                (subst (λ y. Memᴰ (t, y) (l.votes y) × (n / 2 < tally n y (l.calls y) t)) is_i
                  (voted, most))
          | inr other ↦
              let (old_vote, old_most) = inv.elected u o b (rw other at known) in
              (
                subst (λ v. Memᴰ (u, o) (v o)) (sym votes) old_vote,
                subst (λ c. n / 2 < tally n o (c o) u) (sym calls) old_most,
              )
        ];
      }
