-- ===== src/Lab0/Fetcher/Limit.antt =====
-- lab0/parallel_fetcher.go: the limit on concurrent calls of the underlying `Fetch`.
use cpsc.Common.{
  ℕ, zero, suc, ◌+◌, ◌≤◌, ◌≡◌, refl, Bool, Option, none, some, List, [], ◌∷◌, arith, leb,
  Option-cases, inl, inr, if◌then◌else◌, ◌∙◌,
}
use cpsc.Lab0.Fetcher.{
  Weighted, Phase, checking, acquiring, fetching, fetched, releasing, returned, panicked,
  ParallelFetcher, new_parallel_fetcher, act, act_at, Step, on_call, on_act, Run, here, next,
}

module _ {T : Type 0} where
  -- The units that a call holds.
  abbrev pub units : Phase T → ℕ
  units fetching = 1
  units (fetched r) = 1
  units (releasing r) = 1
  units _ = 0

  abbrev pub all_units : List (Phase T) → ℕ
  all_units [] = 0
  all_units (p ∷ ps) = units p + all_units ps

  -- The calls that are in the underlying `Fetch`.
  abbrev pub is_fetching : Phase T → ℕ
  is_fetching fetching = 1
  is_fetching _ = 0

  abbrev pub count_fetching : List (Phase T) → ℕ
  count_fetching [] = 0
  count_fetching (p ∷ ps) = is_fetching p + count_fetching ps

  abbrev pub is_panicked : Phase T → ℕ
  is_panicked panicked = 1
  is_panicked _ = 0

  abbrev pub count_panicked : List (Phase T) → ℕ
  count_panicked [] = 0
  count_panicked (p ∷ ps) = is_panicked p + count_panicked ps

  fetching-units : (p : Phase T) → is_fetching p ≤ units p
  fetching-units checking = omega arith
  fetching-units acquiring = omega arith
  fetching-units fetching = omega arith
  fetching-units (fetched r) = omega arith
  fetching-units (releasing r) = omega arith
  fetching-units (returned r) = omega arith
  fetching-units panicked = omega arith

  count_fetching-units : (ps : List (Phase T)) → count_fetching ps ≤ all_units ps
  count_fetching-units [] = omega arith
  count_fetching-units (p ∷ ps) = omega (arith, fetching-units p, count_fetching-units ps)

-- What a step does to the units of a call and to those of the semaphore.
abbrev pub Balances :
    {S : Type 0} → Weighted S → (used panics : ℕ) → S → (used' panics' : ℕ) → S → Type 0
Balances w used panics s used' panics' s' =
    (used' + w.held s ≡ used + w.held s')
    × (w.size s' ≡ w.size s)
    × (panics' ≡ panics)
    × (w.held s ≤ w.size s → w.held s' ≤ w.size s')

module _ {S T : Type 0} (w : Weighted S) where
  pub act-Balances :
      (result : Option T) (p p' : Phase T) (again again' : Bool) (s s' : S)
      → units p ≤ w.held s
      → act w result p again s ≡ some (p', again', s')
      → Balances w (units p) (is_panicked p) s (units p') (is_panicked p') s'
  unfolding act
  act-Balances result checking p' again again' s s' u e = ground arith
  act-Balances result acquiring p' again again' s s' u e = elim (Option-cases (w.acquire s)) [
    | inl blocks ↦ (let none_here = rw (blocks, act) at e in cc)
    | inr (s1, given) ↦ let here = rw (given, act) at e in ground (arith, w.acquire_some s s1 given)
  ]
  act-Balances result fetching p' again again' s s' u e = ground arith
  act-Balances result (fetched none) p' again again' s s' u e = ground arith
  act-Balances result (fetched (some v)) p' again again' s s' u e = ground arith
  act-Balances result (releasing r) p' again again' s s' u e = elim (Option-cases (w.release s)) [
    | inl panics ↦ absurd (omega (arith, u, w.release_none s panics))
    | inr (s1, given) ↦ let here = rw (given, act) at e in ground (arith, w.release_some s s1 given)
  ]
  act-Balances result (returned r) p' again again' s s' u e = cc
  act-Balances result panicked p' again again' s s' u e = cc

  act_at-Balances :
      (result : Option T) (i : ℕ) (ps ps' : List (Phase T)) (again again' : Bool) (s s' : S)
      → all_units ps ≤ w.held s
      → act_at w result i ps again s ≡ some (ps', again', s')
      → Balances w (all_units ps) (count_panicked ps) s (all_units ps') (count_panicked ps') s'
  unfolding act_at
  act_at-Balances result i [] ps' again again' s s' u e = cc
  act_at-Balances result zero (p ∷ ps) ps' again again' s s' u e =
      elim (Option-cases (act w result p again s)) [
        | inl stuck ↦ (let none_here = rw (stuck, act_at) at e in cc)
        | inr ((p1, again1, s1), moved) ↦
            let here = rw (moved, act_at) at e in
            ground (arith, act-Balances result p p1 again again1 s s1 (omega (arith, u)) moved)
      ]
  act_at-Balances result (suc i) (p ∷ ps) ps' again again' s s' u e =
      elim (Option-cases (act_at w result i ps again s)) [
        | inl stuck ↦ (let none_here = rw (stuck, act_at) at e in cc)
        | inr ((ps1, again1, s1), moved) ↦
            let here = rw (moved, act_at) at e in
            ground
              (arith, act_at-Balances result i ps ps1 again again1 s s1 (omega (arith, u)) moved)
      ]

  -- The units that are held are those of the calls, and no call has panicked.
  pub record IsLimited (limit : ℕ) (pf : ParallelFetcher S T) : Type 0 where
    pub units_held : w.held pf.sema ≡ all_units pf.clients
    pub size : w.size pf.sema ≡ (if leb 1 limit then limit else 1)
    pub fits : w.held pf.sema ≤ w.size pf.sema
    pub no_panic : count_panicked pf.clients ≡ 0

  Step-IsLimited :
      (limit : ℕ) (pf pf' : ParallelFetcher S T)
      → Step w pf pf'
      → IsLimited limit pf
      → IsLimited limit pf'
  Step-IsLimited limit pf _ on_call h = record {
    units_held = omega (arith, h.units_held);
    size = h.size;
    fits = h.fits;
    no_panic = omega (arith, h.no_panic);
  }
  Step-IsLimited limit pf _ (on_act {ps} {again} {s} result i e) h =
      let (used, sized, panics, fits) =
        act_at-Balances result i pf.clients ps pf.call_again again pf.sema s
          (omega (arith, h.units_held)) e in
      record {
        units_held = omega (arith, used, h.units_held);
        size = sized ∙ h.size;
        fits = fits h.fits;
        no_panic = panics ∙ h.no_panic;
      }

  pub Run-IsLimited :
      (limit : ℕ) (pf : ParallelFetcher S T)
      → Run w (new_parallel_fetcher w limit) pf
      → IsLimited limit pf
  unfolding new_parallel_fetcher
  Run-IsLimited limit _ here = record {
    units_held = w.new_held (if leb 1 limit then limit else 1);
    size = w.new_size (if leb 1 limit then limit else 1);
    fits = omega (arith, w.new_held (if leb 1 limit then limit else 1));
    no_panic = refl;
  }
  Run-IsLimited limit pf (next {m} run step) =
      Step-IsLimited limit m pf step (Run-IsLimited limit m run)

  -- In every interleaving of any number of calls, no more of them are in the underlying `Fetch` than
  -- the limit allows, or one for a limit of 0, and no call releases more than it has acquired.
  pub Run-limit :
      (limit : ℕ) (pf : ParallelFetcher S T)
      → Run w (new_parallel_fetcher w limit) pf
      → (count_fetching pf.clients ≤ (if leb 1 limit then limit else 1))
        × (count_panicked pf.clients ≡ 0)
  Run-limit limit pf run =
      let h = Run-IsLimited limit pf run in
      (omega (arith, count_fetching-units pf.clients, h.units_held, h.size, h.fits), h.no_panic)
