-- ===== src/Raft/Log/Laws.antt =====
-- lab3/raft/raft.go, logs whose indices run without a gap: accesses in range return, and
-- appending and cutting keep the shape.
use cpsc.Common.{
  ℕ, zero, suc, ◌+◌, ◌-◌, ◌<◌, ◌≡◌, refl, some, List, [], ◌∷◌, ◌++◌, arith, ap, ◌∙◌, length,
  get_elem?, take, drop, le→leb,
}
use cpsc.Common.Outcome.{ok, checked}
use cpsc.Raft.State.{Entry}
use cpsc.Raft.Log.{
  last?, last_entry, first_entry, entry_at, Contiguous, Positive, IsLog, IsNumbered,
}

module _ {C : Type 0} where
  Contiguous-append :
      (b : ℕ) (xs ys : List (Entry C))
      → Contiguous b xs
      → Contiguous (b + length xs) ys
      → Contiguous b (xs ++ ys)
  Contiguous-append b [] ys hx hy = rw (← shift) at hy
    where
      shift : b ≡ b + 0
      shift = omega arith
  Contiguous-append b (x ∷ xs) ys hx hy =
      (hx.0, Contiguous-append (suc b) xs ys hx.1 (rw (← shift) at hy))
    where
      shift : suc b + length xs ≡ b + suc (length xs)
      shift = omega arith

  Positive-append : (xs ys : List (Entry C)) → Positive xs → Positive ys → Positive (xs ++ ys)
  Positive-append [] ys hx hy = hy
  Positive-append (x ∷ xs) ys hx hy = (hx.0, Positive-append xs ys hx.1 hy)

  Contiguous-take : (n b : ℕ) (xs : List (Entry C)) → Contiguous b xs → Contiguous b (take n xs)
  Contiguous-take zero b xs h = tt
  Contiguous-take (suc n) b [] h = tt
  Contiguous-take (suc n) b (x ∷ xs) h = (h.0, Contiguous-take n (suc b) xs h.1)

  Positive-take : (n : ℕ) (xs : List (Entry C)) → Positive xs → Positive (take n xs)
  Positive-take zero xs h = tt
  Positive-take (suc n) [] h = tt
  Positive-take (suc n) (x ∷ xs) h = (h.0, Positive-take n xs h.1)

  pub Contiguous-drop :
      (n b : ℕ) (xs : List (Entry C)) → Contiguous b xs → Contiguous (b + n) (drop n xs)
  Contiguous-drop zero b xs h = rw (let s : b + 0 ≡ b = omega arith in s) h
  Contiguous-drop (suc n) b [] h = tt
  Contiguous-drop (suc n) b (x ∷ xs) h =
      rw (let s : b + suc n ≡ suc b + n = omega arith in s) (Contiguous-drop n (suc b) xs h.1)

  Positive-drop : (n : ℕ) (xs : List (Entry C)) → Positive xs → Positive (drop n xs)
  Positive-drop zero xs h = h
  Positive-drop (suc n) [] h = tt
  Positive-drop (suc n) (x ∷ xs) h = Positive-drop n xs h.1

  Contiguous-get_elem? :
      (b : ℕ) (xs : List (Entry C)) (i : ℕ)
      → Contiguous b xs
      → i < length xs
      → (e : Entry C) × (get_elem? xs i ≡ some e) × (e.index ≡ b + i)
  Contiguous-get_elem? b [] i h lt = elim lt [ ]
  Contiguous-get_elem? b (x ∷ xs) zero h lt = (x, refl, omega arith)
  Contiguous-get_elem? b (x ∷ xs) (suc i) h lt =
      let (e, got, at) = Contiguous-get_elem? (suc b) xs i h.1 (omega arith) in
      (e, got, omega arith)

  last?-get_elem? :
      (e : Entry C) (l : List (Entry C)) → last? (e ∷ l) ≡ get_elem? (e ∷ l) (length l)
  unfolding last?
  last?-get_elem? e [] = refl
  last?-get_elem? e (f ∷ l) = last?-get_elem? f l

  pub Contiguous-last :
      (b : ℕ) (e : Entry C) (l : List (Entry C))
      → Contiguous b (e ∷ l)
      → (x : Entry C) × (last_entry (e ∷ l) ≡ ok x) × (x.index ≡ b + length l)
  unfolding last_entry
  Contiguous-last b e l h =
      let (x, got, at) = Contiguous-get_elem? b (e ∷ l) (length l) h (omega arith) in
      (x, ap checked (last?-get_elem? e l ∙ got), at)

  -- A log, as one contiguous list from 0 on.
  pub IsLog-Contiguous : (l : List (Entry C)) → IsLog l → Contiguous 0 l
  IsLog-Contiguous [] h = tt
  IsLog-Contiguous (e ∷ l) h = (h.0, h.2)

  pub IsLog-length : (l : List (Entry C)) → IsLog l → 0 < length l
  IsLog-length [] h = elim h [ ]
  IsLog-length (e ∷ l) h = omega arith

  pub IsLog-IsNumbered : (l : List (Entry C)) → IsLog l → IsNumbered l
  IsLog-IsNumbered [] h = h
  IsLog-IsNumbered (e ∷ l) h = (h.0, h.2)

  pub IsNumbered-first :
      (l : List (Entry C)) → IsNumbered l → (e : Entry C) × (first_entry l ≡ ok e) × (e.index ≡ 0)
  unfolding first_entry
  IsNumbered-first [] h = elim h [ ]
  IsNumbered-first (e ∷ l) h = (e, refl, h.0)

  pub IsLog-first :
      (l : List (Entry C)) → IsLog l → (e : Entry C) × (first_entry l ≡ ok e) × (e.index ≡ 0)
  IsLog-first l h = IsNumbered-first l (IsLog-IsNumbered l h)

  pub IsNumbered-last :
      (l : List (Entry C))
      → IsNumbered l
      → (e : Entry C) × (last_entry l ≡ ok e)
        × (e.index + 1 ≡ length l)
        × (get_elem? l e.index ≡ some e)
  unfolding last_entry
  IsNumbered-last [] h = elim h [ ]
  IsNumbered-last (e ∷ l) h =
      let (x, got, at) = Contiguous-get_elem? 0 (e ∷ l) (length l) h (omega arith) in
      let here : x.index ≡ length l = omega arith in
      (x, ap checked (last?-get_elem? e l ∙ got), omega arith, ap (get_elem? (e ∷ l)) here ∙ got)

  pub IsLog-last :
      (l : List (Entry C))
      → IsLog l
      → (e : Entry C) × (last_entry l ≡ ok e)
        × (e.index + 1 ≡ length l)
        × (get_elem? l e.index ≡ some e)
  IsLog-last l h = IsNumbered-last l (IsLog-IsNumbered l h)

  IsNumbered-Contiguous : (l : List (Entry C)) → IsNumbered l → Contiguous 0 l
  IsNumbered-Contiguous [] h = tt
  IsNumbered-Contiguous (e ∷ l) h = h

  pub IsNumbered-entry_at :
      (l : List (Entry C)) (i : ℕ)
      → IsNumbered l
      → i < length l
      → (e : Entry C) × (entry_at l 0 i ≡ ok e) × (get_elem? l i ≡ some e) × (e.index ≡ i)
  unfolding entry_at
  IsNumbered-entry_at l i h lt =
      let (x, got, at) = Contiguous-get_elem? 0 l i (IsNumbered-Contiguous l h) lt in
      let same : i - 0 ≡ i = omega arith in
      (x, rw (le→leb 0 i (omega arith), same, got), got, omega arith)

  pub IsLog-entry_at :
      (l : List (Entry C)) (i : ℕ)
      → IsLog l
      → i < length l
      → (e : Entry C) × (entry_at l 0 i ≡ ok e) × (get_elem? l i ≡ some e) × (e.index ≡ i)
  IsLog-entry_at l i h lt = IsNumbered-entry_at l i (IsLog-IsNumbered l h) lt

  -- One more entry, with the next index.
  pub IsNumbered-snoc :
      (l : List (Entry C)) (e : Entry C)
      → IsNumbered l
      → e.index ≡ length l
      → IsNumbered (l ++ e ∷ [])
  IsNumbered-snoc [] e h at = elim h [ ]
  IsNumbered-snoc (x ∷ l) e h at = (h.0, Contiguous-append 1 l (e ∷ []) h.1 (omega arith, tt))

  pub IsLog-append :
      (l es : List (Entry C)) → IsLog l → Contiguous (length l) es → Positive es → IsLog (l ++ es)
  IsLog-append [] es h c p = elim h [ ]
  IsLog-append (e ∷ l) es h c p = (
    h.0,
    h.1,
    Contiguous-append 1 l es h.2 (rw (let s : 1 + length l ≡ suc (length l) = omega arith in s) c),
    Positive-append l es h.3 p,
  )

  pub IsLog-take : (n : ℕ) (l : List (Entry C)) → IsLog l → IsLog (take (suc n) l)
  IsLog-take n [] h = elim h [ ]
  IsLog-take n (e ∷ l) h = (h.0, h.1, Contiguous-take n 1 l h.2, Positive-take n l h.3)

  Positive-get_elem? :
      (l : List (Entry C)) (i : ℕ) (e : Entry C) → Positive l → get_elem? l i ≡ some e → 0 < e.term
  Positive-get_elem? [] i e h got = cc
  Positive-get_elem? (x ∷ l) zero e h got = ground arith
  Positive-get_elem? (x ∷ l) (suc i) e h got = Positive-get_elem? l i e h.1 got

  -- Only the sentinel has term 0.
  pub IsLog-Positive :
      (l : List (Entry C)) (i : ℕ) (e : Entry C)
      → IsLog l
      → 0 < i
      → get_elem? l i ≡ some e
      → 0 < e.term
  IsLog-Positive [] i e h pos got = cc
  IsLog-Positive (x ∷ l) zero e h pos got = absurd (omega arith)
  IsLog-Positive (x ∷ l) (suc i) e h pos got = Positive-get_elem? l i e h.3 got

  pub IsLog-drop : (n : ℕ) (l : List (Entry C)) → IsLog l → Positive (drop (suc n) l)
  IsLog-drop n [] h = tt
  IsLog-drop n (e ∷ l) h = Positive-drop n l h.3

  pub IsLog-sentinel :
      (l : List (Entry C)) → IsLog l → (e : Entry C) × (get_elem? l 0 ≡ some e) × (e.term ≡ 0)
  IsLog-sentinel [] h = elim h [ ]
  IsLog-sentinel (x ∷ l) h = (x, refl, h.1)
