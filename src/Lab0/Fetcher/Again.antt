-- ===== src/Lab0/Fetcher/Again.antt =====
-- lab0/parallel_fetcher.go: the underlying `Fetch` after it has returned false.
use cpsc.Common.{◌≡◌, refl, true, false, none, some, [], ◌∷◌, arith, Option-cases, inl, inr}
use cpsc.Lab0.Fetcher.{
  Weighted, acquiring, fetching, releasing, returned, ParallelFetcher, new_parallel_fetcher, act,
  act_at, on_call, on_act, Run, here, next,
}

module _ {S : Type 0} (w : Weighted S) where
  unit_given : (s : S) → w.held s ≡ 0 → w.size s ≡ 1 → (s' : S) × (w.acquire s ≡ some s')
  unit_given s free one = elim (Option-cases (w.acquire s)) [
    | inl blocks ↦ absurd (omega (arith, free, one, w.acquire_none s blocks))
    | inr given ↦ given
  ]

  unit_released : (s : S) → w.held s ≡ 1 → (s' : S) × (w.release s ≡ some s')
  unit_released s taken = elim (Option-cases (w.release s)) [
    | inl panics ↦ absurd (omega (arith, taken, w.release_none s panics))
    | inr given ↦ given
  ]

module _ {S T : Type 0} (w : Weighted S) where
  again_run :
      (s1 s2 s3 : S)
      → w.acquire (w.new_weighted 1) ≡ some s1
      → w.release s1 ≡ some s2
      → w.acquire s2 ≡ some s3
      → Run {T = T} w
          (new_parallel_fetcher w 1)
          (record { sema = s3; call_again = false; clients = returned none ∷ fetching ∷ [] })
  unfolding new_parallel_fetcher act act_at
  again_run s1 s2 s3 first back second =
      let s0 = w.new_weighted 1 in
      let waiting : Run w (new_parallel_fetcher w 1)
          (record { sema = s0; call_again = true; clients = acquiring ∷ acquiring ∷ [] }) =
        next (next (next (next here on_call) on_call) (on_act none 0 refl)) (on_act none 1 refl) in
      let told : Run w (new_parallel_fetcher w 1)
          (record { sema = s1; call_again = false; clients = releasing none ∷ acquiring ∷ [] }) =
        next
          (next
            (next waiting (
              on_act {ps = fetching ∷ acquiring ∷ []} {again = true} {s = s1} none 0
                (rw (first, act_at) refl)))
            (on_act none 0 refl))
          (on_act none 0 refl) in
      next
        (next told (
          on_act {ps = returned none ∷ acquiring ∷ []} {again = false} {s = s2} none 0
            (rw (back, act_at) refl)))
        (on_act {ps = returned none ∷ fetching ∷ []} {again = false} {s = s3} none 1
          (rw (second, act_at) refl))

  -- With a limit of one, two calls that have passed the test of `callAgain`: the first one is told
  -- false by the underlying `Fetch` and returns, and the second one then calls it again.
  pub fetch-again :
      (pf : ParallelFetcher S T) × Run w (new_parallel_fetcher w 1) pf
      × (pf.call_again ≡ false)
      × (pf.clients ≡ returned none ∷ fetching ∷ [])
  fetch-again =
      let s0 = w.new_weighted 1 in
      let (s1, first) = unit_given w s0 (w.new_held 1) (w.new_size 1) in
      let taken = w.acquire_some s0 s1 first in
      let (s2, back) = unit_released w s1 (omega (arith, taken.0, w.new_held 1)) in
      let left = w.release_some s1 s2 back in
      let (s3, second) =
        unit_given w s2 (omega (arith, taken.0, left.0, w.new_held 1))
          (omega (arith, taken.1, left.1, w.new_size 1)) in
      (
        record { sema = s3; call_again = false; clients = returned none ∷ fetching ∷ [] },
        again_run s1 s2 s3 first back second,
        refl,
        refl,
      )
