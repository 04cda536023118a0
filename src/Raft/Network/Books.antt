-- ===== src/Raft/Network/Books.antt =====
-- lab3/raft: the log that the leader of a term has, and the logs that come from it.
use cpsc.Common.{
  ℕ, zero, suc, ◌+◌, ◌<◌, ◌≡◌, ◌⊎◌, refl, ap, sym, ◌∙◌, inl, inr, Option, none, some, List, [], ◌∷◌,
  ◌++◌, arith, length, get_elem?, take, ◌==◌, ==_iff, Bool-cases, length-append,
}
use cpsc.Raft.State.{Entry}
use cpsc.Raft.Log.{IsNumbered}
use cpsc.Raft.Log.Laws.{IsNumbered-snoc}
use cpsc.Raft.Cluster.{update}
use cpsc.Raft.Matching.{Matches}

-- For each term the leader that it has had, if any, with the log of that leader at the end of the
-- term or now.
abbrev pub Books : Type 0 → Type 0
Books C = ℕ → Option (ℕ × List (Entry C))

abbrev pub sentinel : {C : Type 0} → Entry C
sentinel = record { term = 0; command = none; index = 0 }

module _ {C : Type 0} where
  -- An entry behind the sentinel stands in the book of its term, with what is before it.
  abbrev pub Traced : Books C → List (Entry C) → Type 0
  Traced bk l =
      (p : ℕ) (e : Entry C)
      → 0 < p
      → get_elem? l p ≡ some e
      → (o : ℕ) × (b : List (Entry C)) × (bk e.term ≡ some (o, b))
        × (p < length b)
        × (take (p + 1) l ≡ take (p + 1) b)

  pub record IsGood (bk : Books C) (l : List (Entry C)) : Type 0 where
    pub numbered : IsNumbered l
    pub first : get_elem? l 0 ≡ some sentinel
    pub traced : Traced bk l

  take-first : (l : List (Entry C)) (e : Entry C) → get_elem? l 0 ≡ some e → take (0 + 1) l ≡ e ∷ []
  take-first [] e got = cc
  take-first (x ∷ l) e got = ground arith

  -- Logs that come from the same books match.
  pub IsGood-Matches :
      (bk : Books C) (l m : List (Entry C)) → IsGood bk l → IsGood bk m → Matches l m
  IsGood-Matches bk l m g h zero e f at_l at_m same =
      take-first l sentinel g.first ∙ sym (take-first m sentinel h.first)
  IsGood-Matches bk l m g h (suc p) e f at_l at_m same =
      let (o, b, book, _, eq) = g.traced (suc p) e (omega arith) at_l in
      let (o', b', book', _, eq') = h.traced (suc p) f (omega arith) at_m in
      let one : some (o, b) ≡ some (o', b') = sym book ∙ ap bk same ∙ book' in
      let both : b ≡ b' = cc in eq ∙ ap (take (suc p + 1)) both ∙ sym eq'

  -- A book is opened for a term that had none.
  abbrev pub set_book : Books C → ℕ → ℕ → List (Entry C) → Books C
  set_book bk t o b = update bk t (some (o, b))

  set_book-here : (bk : Books C) (t o : ℕ) (b : List (Entry C)) → set_book bk t o b t ≡ some (o, b)
  set_book-here bk t o b = rw ((==_iff t t).1 refl) refl

  take-append_lt : (n : ℕ) (l es : List (Entry C)) → n < length l + 1 → take n (l ++ es) ≡ take n l
  take-append_lt zero l es lt = refl
  take-append_lt (suc n) [] es lt = absurd (omega arith)
  take-append_lt (suc n) (x ∷ l) es lt = ap (λ r. x ∷ r) (take-append_lt n l es (omega arith))

  -- The book of a term grows, or is opened.
  pub grown-IsGood :
      (bk : Books C) (t o : ℕ) (b es : List (Entry C)) (l : List (Entry C))
      → ((o' : ℕ) (b' : List (Entry C)) → bk t ≡ some (o', b') → b' ≡ b)
      → IsGood bk l
      → IsGood (set_book bk t o (b ++ es)) l
  grown-IsGood bk t o b es l before g = record {
    numbered = g.numbered;
    first = g.first;
    traced = λ p e pos at.
        let (o1, b1, book, lt, eq) = g.traced p e pos at in
        elim (Bool-cases (e.term == t)) [
          | inr other ↦ (o1, b1, rw other book, lt, eq)
          | inl here ↦
              let same : e.term ≡ t = (==_iff e.term t).0 here in
              let is_b : b1 ≡ b = before o1 b1 (ap bk (sym same) ∙ book) in
              (
                o,
                b ++ es,
                rw here refl,
                omega (arith, lt, ap length is_b, length-append b es),
                eq
                    ∙ ap (take (p + 1)) is_b
                    ∙ sym (take-append_lt (p + 1) b es (omega (arith, lt, ap length is_b))),
              )
        ];
  }

  get_elem?-snoc :
      (l : List (Entry C)) (e f : Entry C) (p : ℕ)
      → get_elem? (l ++ e ∷ []) p ≡ some f
      → (get_elem? l p ≡ some f) ⊎ ((p ≡ length l) × (e ≡ f))
  get_elem?-snoc [] e f zero at = inr (refl, cc)
  get_elem?-snoc [] e f (suc p) at = cc
  get_elem?-snoc (x ∷ l) e f zero at = inl at
  get_elem?-snoc (x ∷ l) e f (suc p) at = elim (get_elem?-snoc l e f p at) [
    | inl old ↦ inl old
    | inr (last, same) ↦ inr (ap suc last, same)
  ]

  get_elem?-lt : (l : List (Entry C)) (p : ℕ) (e : Entry C) → get_elem? l p ≡ some e → p < length l
  get_elem?-lt [] p e at = cc
  get_elem?-lt (x ∷ l) zero e at = omega arith
  get_elem?-lt (x ∷ l) (suc p) e at = let rest = get_elem?-lt l p e at in omega arith

  -- The leader of a term appends an entry of that term to its log.
  pub snoc-IsGood :
      (bk : Books C) (o : ℕ) (l : List (Entry C)) (e : Entry C)
      → bk e.term ≡ some (o, l)
      → IsGood bk l
      → e.index ≡ length l
      → IsGood (set_book bk e.term o (l ++ e ∷ [])) (l ++ e ∷ [])
  snoc-IsGood bk o l e book g at_end =
      let old =
        grown-IsGood bk e.term o l (e ∷ []) l
          (λ o' b' book'. (let one : some (o', b') ≡ some (o, l) = sym book' ∙ book in cc)) g in
      record {
        numbered = IsNumbered-snoc l e g.numbered at_end;
        first = first_snoc l g.first;
        traced = λ p f pos at. elim (get_elem?-snoc l e f p at) [
          | inl inside ↦
              let (o1, b1, known, lt, eq) = old.traced p f pos inside in
              let room = get_elem?-lt l p f inside in
              (o1, b1, known, lt, take-append_lt (p + 1) l (e ∷ []) (omega (arith, room)) ∙ eq)
          | inr (last, same) ↦ (
            o,
            l ++ e ∷ [],
            ap (λ (x : Entry C). set_book bk e.term o (l ++ e ∷ []) x.term) (sym same)
                ∙ set_book-here bk e.term o (l ++ e ∷ []),
            omega (arith, last, length-append l (e ∷ [])),
            refl,
          )
        ];
      }
    where
      first_snoc :
          (l : List (Entry C))
          → get_elem? l 0 ≡ some sentinel
          → get_elem? (l ++ e ∷ []) 0 ≡ some sentinel
      first_snoc [] at = cc
      first_snoc (x ∷ l) at = at
