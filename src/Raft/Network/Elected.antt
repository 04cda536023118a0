-- ===== src/Raft/Network/Elected.antt =====
-- lab3/raft: the book of a term when its leader appends an entry, and when a leader is elected.
use cpsc.Common.{
  ℕ, ◌/◌, ◌<◌, ◌≡◌, ◌≢◌, refl, ap, sym, ◌∙◌, subst, inl, inr, true, none, some, List, [], ◌∷◌, ◌++◌,
  ◌==◌, ==_iff, Bool-cases, Option-cases, if◌then◌else◌, ℕ_discrete,
}
use mathlib.Core.List.{Memᴰ}
use cpsc.Raft.State.{leader, Entry, Raft}
use cpsc.Raft.Persist.{Gob}
use cpsc.Raft.Replicate.{is_leader}
use cpsc.Raft.Replicate.NewLog.{Appended, is_leader-eq}
use cpsc.Raft.Cluster.{Cluster, update}
use cpsc.Raft.Cluster.Index.{by_index}
use cpsc.Raft.Cluster.Invariant.{PeerOk, IsCounted, tally}
use cpsc.Raft.Cluster.Election.{IsCounted-one}
use cpsc.Raft.Network.{Message}
use cpsc.Raft.Network.Books.{Books, IsGood, set_book, grown-IsGood, snoc-IsGood}
use cpsc.Raft.Network.Booked.{IsBooked, Leads, set-IsBooked}
use cpsc.Raft.Network.Steps.{section-Leads}

module _ {C : Type 0} (n : ℕ) (bk : Books C) (l : Cluster C) (sent : List (Message C)) where
  set-Leads :
      (t i : ℕ) (m : List (Entry C))
      → ((o : ℕ) (b : List (Entry C)) → bk t ≡ some (o, b) → o ≡ i)
      → Leads bk l
      → Leads (set_book bk t i m) l
  set-Leads t i m mine leads j lead =
      let (x, known) = leads j lead in
      elim (Bool-cases ((l.peers j).current_term == t)) [
        | inr other ↦ (x, rw other known)
        | inl here ↦
            let same : (l.peers j).current_term ≡ t = (==_iff _ t).0 here in
            let is_i = mine j x (ap bk (sym same) ∙ known) in
            (m, rw here (ap (λ o. some (o, m)) (sym is_i)))
      ]

  -- Peer `i` has become a leader, or not; the others lead as before.
  pub crowned-IsBooked :
      (i : ℕ)
      → IsCounted n l
      → IsBooked n bk l sent
      → ((j : ℕ)
          → j ≢ i
          → (l.peers j).state ≡ leader
          → (b : List (Entry C)) × (bk (l.peers j).current_term ≡ some (j, b)))
      → (bk' : Books C) × IsBooked n bk' l sent × Leads bk' l
  crowned-IsBooked i counted inv others = elim (Bool-cases (is_leader (l.peers i).state)) [
    | inr no_leader ↦ (
      bk,
      inv,
      λ j lead. elim (ℕ_discrete j i) [
        | no ne ↦ others j ne lead
        | yes e ↦
            let it : is_leader (l.peers i).state ≡ true =
              ap (λ x. is_leader (l.peers x).state) (sym e) ∙ ap is_leader lead in
            absurd cc
      ],
    )
    | inl it ↦
        let lead_i = is_leader-eq (l.peers i).state it in
        let t = (l.peers i).current_term in
        let (voted, most) = PeerOk.elected (counted.peer i) lead_i t refl in
        elim (Option-cases (bk t)) [
          | inr ((o, b), known) ↦
              let (voted', most') = inv.elected t o b known in
              let is_i : o ≡ i = IsCounted-one n l o i t counted voted' most' voted most in
              (
                bk,
                inv,
                λ j lead. elim (ℕ_discrete j i) [
                  | no ne ↦ others j ne lead
                  | yes e ↦ (
                    b,
                    ap (λ x. bk (l.peers x).current_term) e
                        ∙ known
                        ∙ ap (λ x. some (x, b)) (is_i ∙ sym e),
                  )
                ],
              )
          | inl free ↦
              let kept : (x : List (Entry C))
                  → IsGood bk x
                  → IsGood (set_book bk t i (l.peers i).log) x =
                λ x.
                  grown-IsGood bk t i [] (l.peers i).log x
                    (λ o b known. let gone : none ≡ some (o, b) = sym free ∙ known in absurd cc) in
              (
                set_book bk t i (l.peers i).log,
                set-IsBooked n bk l l sent i inv (λ j ne. refl) (λ j. refl) refl refl
                    (λ o b known. let gone : none ≡ some (o, b) = sym free ∙ known in absurd cc)
                    kept (kept (l.peers i).log (inv.good i)) voted most,
                λ j lead. elim (Bool-cases ((l.peers j).current_term == t)) [
                  | inl here ↦
                      let same : (l.peers j).current_term ≡ t = (==_iff _ t).0 here in
                      let (voted', most') = PeerOk.elected (counted.peer j) lead t (sym same) in
                      let is_i = IsCounted-one n l i j t counted voted most voted' most' in
                      ((l.peers i).log, rw here (ap (λ x. some (x, (l.peers i).log)) is_i))
                  | inr other ↦
                      let apart : j ≢ i = λ e.
                        let same : ((l.peers j).current_term == t) ≡ true =
                          (==_iff _ t).1 (ap (λ x. (l.peers x).current_term) e) in
                        absurd cc in
                      let (b, known) = others j apart lead in (b, rw other known)
                ],
              )
        ]
  ]

module _ {C : Type 0} (gob : Gob C) (n : ℕ) (bk : Books C) (k : Cluster C)
    (sent : List (Message C)) where
  -- The leader `i` appends an entry.
  pub Appended-IsBooked :
      (i : ℕ) (rf' : Raft C)
      → Appended gob (k.peers i) rf'
      → IsBooked n bk k sent
      → Leads bk k
      → (bk' : Books C) × IsBooked n bk' (record k { peers = update k.peers i rf' }) sent
        × Leads bk' (record k { peers = update k.peers i rf' })
  Appended-IsBooked i rf' app inv leads =
      let rf = k.peers i in
      let e = Appended.entry app in
      let l : Cluster C = record k { peers = update k.peers i rf' } in
      let here : update k.peers i rf' i ≡ rf' = rw ((==_iff i i).1 refl) refl in
      let (b, led) = leads i (Appended.leads app) in
      let known : bk rf.current_term ≡ some (i, rf.log) =
        led ∙ ap (λ x. some (i, x)) (sym (inv.own i b led)) in
      let mine : (t : ℕ)
          → t ≡ rf.current_term
          → (o : ℕ) (x : List (Entry C)) → bk t ≡ some (o, x)
          → o ≡ i =
        λ t same o x k2.
          let one : some (o, x) ≡ some (i, rf.log) = sym k2 ∙ ap bk same ∙ known in cc in
      let now : (l.peers i).current_term ≡ rf.current_term =
        ap (λ (x : Raft C). x.current_term) here ∙ Appended.kept app in
      let whole : (l.peers i).log ≡ rf.log ++ e ∷ [] =
        ap (λ (x : Raft C). x.log) here ∙ Appended.log app in
      let kept : (x : List (Entry C))
          → IsGood bk x
          → IsGood (set_book bk (l.peers i).current_term i (l.peers i).log) x =
        λ x good.
          subst (λ t. IsGood (set_book bk t i (l.peers i).log) x) (sym now)
            (subst (λ m. IsGood (set_book bk rf.current_term i m) x) (sym whole)
              (grown-IsGood bk rf.current_term i rf.log (e ∷ []) x
                (λ o m k2. let one : some (o, m) ≡ some (i, rf.log) = sym k2 ∙ known in cc)
                good)) in
      let longer : IsGood (set_book bk (l.peers i).current_term i (l.peers i).log) (l.peers i).log =
        subst (λ t. IsGood (set_book bk t i (l.peers i).log) (l.peers i).log)
          (Appended.term app ∙ sym now)
          (subst (λ m. IsGood (set_book bk e.term i m) m) (sym whole)
            (snoc-IsGood bk i rf.log e (ap bk (Appended.term app) ∙ known) (inv.good i)
              (Appended.index app))) in
      let (voted, most) = inv.elected rf.current_term i rf.log known in
      let still : Leads bk l =
        section-Leads gob n bk k sent i rf' k.votes k.calls
          (λ lead. (Appended.leads app, Appended.kept app)) leads in
      (
        set_book bk (l.peers i).current_term i (l.peers i).log,
        set-IsBooked n bk k l sent i inv
            (by_index (λ j c. j ≢ i → (if c then rf' else k.peers j).log ≡ (k.peers j).log) i
              (λ ne. absurd (ne refl)) (λ j ne. refl))
            (by_index
              (λ j c. (if c then rf' else k.peers j).current_term ≡ (k.peers j).current_term) i
              (Appended.kept app) (λ j. refl))
            refl refl (mine (l.peers i).current_term now) kept longer
            (subst (λ t. Memᴰ (t, i) (k.votes i)) (sym now) voted)
            (subst (λ t. n / 2 < tally n i (k.calls i) t) (sym now) most),
        set-Leads n bk l sent (l.peers i).current_term i (l.peers i).log
            (mine (l.peers i).current_term now) still,
      )
