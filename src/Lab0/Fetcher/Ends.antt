-- ===== src/Lab0/Fetcher/Ends.antt =====
-- lab0/parallel_fetcher.go: every call returns, once the underlying `Fetch` does.
use cpsc.Common.{
  ℕ, zero, suc, ◌+◌, ◌≤◌, ◌<◌, ◌≡◌, refl, Bool, true, false, Option, none, some, List, [], ◌∷◌,
  arith, Option-cases, inl, inr, ◌⊎◌,
}
use cpsc.Lab0.Fetcher.{
  Weighted, Phase, checking, acquiring, fetching, fetched, releasing, returned, panicked,
  ParallelFetcher, new_parallel_fetcher, act, act_at, Run,
}
use cpsc.Lab0.Fetcher.Limit.{units, all_units, Run-IsLimited}

module _ {T : Type 0} where
  -- The steps that a call has left, at most.
  abbrev pub rank : Phase T → ℕ
  rank checking = 5
  rank acquiring = 4
  rank fetching = 3
  rank (fetched r) = 2
  rank (releasing r) = 1
  rank _ = 0

  abbrev pub all_ranks : List (Phase T) → ℕ
  all_ranks [] = 0
  all_ranks (p ∷ ps) = rank p + all_ranks ps

module _ {S T : Type 0} (w : Weighted S) where
  act-fewer :
      (result : Option T) (p p' : Phase T) (again again' : Bool) (s s' : S)
      → act w result p again s ≡ some (p', again', s')
      → rank p' < rank p
  unfolding act
  act-fewer result checking p' again again' s s' e = ground arith
  act-fewer result acquiring p' again again' s s' e = elim (Option-cases (w.acquire s)) [
    | inl blocks ↦ (let none_here = rw (blocks, act) at e in cc)
    | inr (s1, given) ↦ let here = rw (given, act) at e in ground arith
  ]
  act-fewer result fetching p' again again' s s' e = ground arith
  act-fewer result (fetched none) p' again again' s s' e = ground arith
  act-fewer result (fetched (some v)) p' again again' s s' e = ground arith
  act-fewer result (releasing r) p' again again' s s' e = elim (Option-cases (w.release s)) [
    | inl panics ↦ let here = rw (panics, act) at e in ground arith
    | inr (s1, given) ↦ let here = rw (given, act) at e in ground arith
  ]
  act-fewer result (returned r) p' again again' s s' e = cc
  act-fewer result panicked p' again again' s s' e = cc

  act_at-fewer :
      (result : Option T) (i : ℕ) (ps ps' : List (Phase T)) (again again' : Bool) (s s' : S)
      → act_at w result i ps again s ≡ some (ps', again', s')
      → all_ranks ps' < all_ranks ps
  unfolding act_at
  act_at-fewer result i [] ps' again again' s s' e = cc
  act_at-fewer result zero (p ∷ ps) ps' again again' s s' e =
      elim (Option-cases (act w result p again s)) [
        | inl stuck ↦ (let none_here = rw (stuck, act_at) at e in cc)
        | inr ((p1, again1, s1), moved) ↦
            let here = rw (moved, act_at) at e in
            ground (arith, act-fewer result p p1 again again1 s s1 moved)
      ]
  act_at-fewer result (suc i) (p ∷ ps) ps' again again' s s' e =
      elim (Option-cases (act_at w result i ps again s)) [
        | inl stuck ↦ (let none_here = rw (stuck, act_at) at e in cc)
        | inr ((ps1, again1, s1), moved) ↦
            let here = rw (moved, act_at) at e in
            ground (arith, act_at-fewer result i ps ps1 again again1 s s1 moved)
      ]

  -- A call can make a step, has none left, or waits for a unit that is not there.
  act-cases :
      (result : Option T) (p : Phase T) (again : Bool) (s : S)
      → ((n : Phase T × Bool × S) × (act w result p again s ≡ some n))
        ⊎ (rank p ≡ 0)
        ⊎ ((units p ≡ 0) × (w.size s ≤ w.held s))
  unfolding act
  act-cases result checking true s = inl (_, refl)
  act-cases result checking false s = inl (_, refl)
  act-cases result acquiring again s = elim (Option-cases (w.acquire s)) [
    | inl blocks ↦ inr (inr (refl, w.acquire_none s blocks))
    | inr (s1, given) ↦ inl ((fetching, again, s1), rw (given, act) refl)
  ]
  act-cases result fetching again s = inl (_, refl)
  act-cases result (fetched none) again s = inl (_, refl)
  act-cases result (fetched (some v)) again s = inl (_, refl)
  act-cases result (releasing r) again s = elim (Option-cases (w.release s)) [
    | inl panics ↦ inl ((panicked, again, s), rw (panics, act) refl)
    | inr (s1, given) ↦ inl ((returned r, again, s1), rw (given, act) refl)
  ]
  act-cases result (returned r) again s = inr (inl refl)
  act-cases result panicked again s = inr (inl refl)

  units-rank : (p : Phase T) → rank p ≡ 0 → units p ≡ 0
  units-rank checking e = cc
  units-rank acquiring e = cc
  units-rank fetching e = cc
  units-rank (fetched r) e = cc
  units-rank (releasing r) e = cc
  units-rank (returned r) e = refl
  units-rank panicked e = refl

  -- One of the calls can make a step, or none has one left, or none holds a unit and all are taken.
  act_at-cases :
      (result : Option T) (ps : List (Phase T)) (again : Bool) (s : S)
      → ((i : ℕ) × (n : List (Phase T) × Bool × S) × (act_at w result i ps again s ≡ some n))
        ⊎ (all_ranks ps ≡ 0)
        ⊎ ((all_units ps ≡ 0) × (w.size s ≤ w.held s))
  unfolding act_at
  act_at-cases result [] again s = inr (inl refl)
  act_at-cases result (p ∷ ps) again s = elim (act-cases result p again s) [
    | inl ((p1, again1, s1), moved) ↦ inl (zero, (p1 ∷ ps, again1, s1), rw (moved, act_at) refl)
    | inr stays ↦ elim (act_at-cases result ps again s) [
      | inl (i, (ps1, again1, s1), moved) ↦
          inl (suc i, (p ∷ ps1, again1, s1), rw (moved, act_at) refl)
      | inr rest ↦ inr (ground (arith, units-rank p, all_rank-units ps))
    ]
  ]
    where
      all_rank-units : (ps : List (Phase T)) → all_ranks ps ≡ 0 → all_units ps ≡ 0
      all_rank-units [] e = refl
      all_rank-units (p ∷ ps) e =
          omega (arith, units-rank p (omega (arith, e)), all_rank-units ps (omega (arith, e)))

  -- In every state that calls can reach: while some call has steps left, one of the calls can make
  -- its step, whatever the underlying `Fetch` returns; and each step of a call makes the bound on the
  -- number of steps that are left smaller.
  pub fetch-ends :
      (limit : ℕ) (pf : ParallelFetcher S T) (result : Option T)
      → Run w (new_parallel_fetcher w limit) pf
      → (0 < all_ranks pf.clients
          → (i : ℕ) × (n : List (Phase T) × Bool × S) × (act_at w result i pf.clients pf.call_again
                pf.sema
              ≡ some n))
        × ((i : ℕ) (ps : List (Phase T)) (again : Bool) (s : S)
            → act_at w result i pf.clients pf.call_again pf.sema ≡ some (ps, again, s)
            → all_ranks ps < all_ranks pf.clients)
  fetch-ends limit pf result run =
      let h = Run-IsLimited w limit pf run in
      (
        λ left. elim (act_at-cases result pf.clients pf.call_again pf.sema) [
          | inl moves ↦ moves
          | inr (inl over) ↦ absurd (omega (arith, over, left))
          | inr (inr (idle, full)) ↦ absurd (ground (arith, idle, full, h.units_held, h.size))
        ],
        λ i ps again s e. act_at-fewer result i pf.clients ps pf.call_again again pf.sema s e,
      )
