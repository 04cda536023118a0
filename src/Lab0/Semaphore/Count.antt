-- ===== src/Lab0/Semaphore/Count.antt =====
-- lab0/semaphore.go: no call of `Wait` succeeds without a `Post` of its own.
use cpsc.Common.{
  ℕ, zero, suc, ◌+◌, ◌≤◌, ◌≡◌, inl, inr, refl, subst, Bool, true, false, Option, none, some, List,
  [], ◌∷◌, arith, Option-cases, Bool-cases, ap, ℕ_discrete, ◌-◌,
}
use cpsc.Lab0.Semaphore.{
  Phase, loading, swapping, checking, selecting, parked, acquired, cancelled, Semaphore,
  new_semaphore, post_add, wake, none_parked, post_send, act, act_at, wait_step, call_wait, Step,
  on_add, on_send, on_wait, on_call, Run, here, next,
}

abbrev pub has_acquired : Phase → ℕ
has_acquired acquired = 1
has_acquired _ = 0

-- The calls of `Wait` that have returned nil.
abbrev pub successes : List Phase → ℕ
successes [] = 0
successes (p ∷ ps) = has_acquired p + successes ps

-- Each unit that was posted is available or has been acquired, and the channel has one value at
-- most.
abbrev pub IsBalanced : Semaphore → Type 0
IsBalanced s = (successes s.waits + s.available ≡ s.posts) × (s.signal ≤ 1)

act-keeps :
    (done : Bool) (p p' : Phase) (a a' c c' : ℕ)
    → act done p a c ≡ some (p', a', c')
    → (has_acquired p' + a' ≡ has_acquired p + a) × (c' ≤ c)
unfolding act
act-keeps done loading p' zero a' c c' e = ground arith
act-keeps done loading p' (suc a) a' c c' e = ground arith
act-keeps done (swapping v) p' a a' c c' e = ground arith
act-keeps true checking p' a a' c c' e = ground arith
act-keeps false checking p' a a' c c' e = ground arith
act-keeps true selecting p' a a' c c' e = ground arith
act-keeps false selecting p' a a' zero c' e = ground arith
act-keeps false selecting p' a a' (suc c) c' e = ground arith
act-keeps true parked p' a a' c c' e = ground arith
act-keeps false parked p' a a' c c' e = cc
act-keeps done acquired p' a a' c c' e = cc
act-keeps done cancelled p' a a' c c' e = cc

abbrev Keeps : List Phase → ℕ → ℕ → Option (List Phase × ℕ × ℕ) → Type 0
Keeps ps a c none = Unit
Keeps ps a c (some r) = (successes r.0 + r.1 ≡ successes ps + a) × (r.2 ≤ c)

act_at-Keeps :
    (done : Bool) (i : ℕ) (ps : List Phase) (a c : ℕ) → Keeps ps a c (act_at done i ps a c)
unfolding act_at
act_at-Keeps done i [] a c = tt
act_at-Keeps done zero (p ∷ ps) a c = elim (Option-cases (act done p a c)) [
  | inl stuck ↦ rw (stuck, act_at) tt
  | inr (r, moved) ↦
      let (kept, fewer) = act-keeps done p r.0 a r.1 c r.2 moved in
      rw (moved, act_at) (omega (arith, kept), fewer)
]
act_at-Keeps done (suc i) (p ∷ ps) a c =
    let all = act_at-Keeps done i ps a c in
    elim (Option-cases (act_at done i ps a c)) [
      | inl stuck ↦ rw (stuck, act_at) tt
      | inr (r, moved) ↦
          let (kept, fewer) = subst (Keeps ps a c) moved all in
          rw (moved, act_at) (omega (arith, kept), fewer)
    ]

Balanced : Option Semaphore → Type 0
Balanced none = Unit
Balanced (some s) = IsBalanced s

abbrev Awakes : List Phase → Option (List Phase) → Type 0
Awakes ps none = Unit
Awakes ps (some ps') = successes ps' ≡ successes ps

wake-Awakes : (i : ℕ) (ps : List Phase) → Awakes ps (wake i ps)
unfolding wake
wake-Awakes i [] = tt
wake-Awakes zero (loading ∷ ps) = tt
wake-Awakes zero (swapping v ∷ ps) = tt
wake-Awakes zero (checking ∷ ps) = tt
wake-Awakes zero (selecting ∷ ps) = tt
wake-Awakes zero (parked ∷ ps) = refl
wake-Awakes zero (acquired ∷ ps) = tt
wake-Awakes zero (cancelled ∷ ps) = tt
wake-Awakes (suc i) (p ∷ ps) =
    let all = wake-Awakes i ps in
    elim (Option-cases (wake i ps)) [
      | inl stuck ↦ rw (stuck, wake) tt
      | inr (qs, woken) ↦
          let kept = subst (Awakes ps) woken all in
          rw (woken, wake) (ap (λ k. has_acquired p + k) kept)
    ]

post_send-IsBalanced :
    (i : ℕ) (s s' : Semaphore) → post_send i s ≡ some s' → IsBalanced s → IsBalanced s'
unfolding post_send Balanced
post_send-IsBalanced i s s' e b = subst Balanced e sent
  where
    sent : Balanced (post_send i s)
    sent = elim (ℕ_discrete s.sending 0) [
      | yes idle ↦ rw (idle, post_send) tt
      | no busy ↦
          let before : s.sending ≡ suc (s.sending - 1) = omega arith in
          elim (Bool-cases (none_parked s.waits)) [
            | inl free ↦ rw (before, free, post_send) (b.0, omega arith)
            | inr some_parked ↦ elim (Option-cases (wake i s.waits)) [
              | inl wrong ↦ rw (before, some_parked, wrong, post_send) tt
              | inr (ps, woken) ↦
                  rw (before, some_parked, woken, post_send)
                    (omega (arith, b.0, subst (Awakes s.waits) woken (wake-Awakes i s.waits)), b.1)
            ]
          ]
    ]

wait_step-IsBalanced :
    (done : Bool) (i : ℕ) (s s' : Semaphore)
    → wait_step done i s ≡ some s'
    → IsBalanced s
    → IsBalanced s'
unfolding wait_step Balanced
wait_step-IsBalanced done i s s' e b = subst Balanced e moves
  where
    moves : Balanced (wait_step done i s)
    moves =
        let all = act_at-Keeps done i s.waits s.available s.signal in
        elim (Option-cases (act_at done i s.waits s.available s.signal)) [
          | inl stuck ↦ rw (stuck, wait_step) tt
          | inr (r, moved) ↦
              let (kept, fewer) = subst (Keeps s.waits s.available s.signal) moved all in
              rw (moved, wait_step) (omega (arith, kept, b.0), omega (arith, fewer, b.1))
        ]

Step-IsBalanced : (s s' : Semaphore) → Step s s' → IsBalanced s → IsBalanced s'
unfolding post_add call_wait
Step-IsBalanced s s' on_add b = (omega (arith, b.0), b.1)
Step-IsBalanced s s' (on_send i e) b = post_send-IsBalanced i s s' e b
Step-IsBalanced s s' (on_wait done i e) b = wait_step-IsBalanced done i s s' e b
Step-IsBalanced s s' on_call b = (omega (arith, b.0), b.1)

Run-keeps : (s s' : Semaphore) → Run s s' → IsBalanced s → IsBalanced s'
Run-keeps s s' here b = b
Run-keeps s s' (next {t = t} step run) b = Run-keeps t s' run (Step-IsBalanced s t step b)

-- From a new semaphore, in any interleaving of the steps of any number of calls: the calls of `Wait`
-- that succeeded and the units that are available are together the calls of `Post` that have added,
-- and the channel never has more than one value.
pub Run-IsBalanced : (s : Semaphore) → Run new_semaphore s → IsBalanced s
unfolding new_semaphore
Run-IsBalanced s run = Run-keeps new_semaphore s run (refl, omega arith)
