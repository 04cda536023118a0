-- ===== src/Lab0/Fetcher.antt =====
-- lab0/parallel_fetcher.go: any number of concurrent calls of `Fetch` of a ParallelFetcher. A call goes
-- from phase to phase, and any call may make the next step. The underlying fetcher is thread-safe and
-- may return at any time with any data; semaphore.Weighted is a parameter.
pub mod Limit
pub mod Ends
pub mod Again
use cpsc.Common.{
  ℕ, zero, suc, ◌+◌, ◌≤◌, ◌<◌, ◌≡◌, Bool, true, false, Option, none, some, List, [], ◌∷◌, leb,
  if◌then◌else◌,
}

-- semaphore.Weighted with units of weight 1 and a context that is never done: `acquire` is none
-- where it blocks, `release` is none where it panics. A semaphore has `size` units, of which `held`
-- are taken; a unit is given where one is left, and one that is held can be released.
pub record Weighted (S : Type 0) : Type 0 where
  pub new_weighted : ℕ → S
  pub acquire : S → Option S
  pub release : S → Option S
  pub size : S → ℕ
  pub held : S → ℕ
  pub new_size : (n : ℕ) → size (new_weighted n) ≡ n
  pub new_held : (n : ℕ) → held (new_weighted n) ≡ 0
  pub acquire_some :
      (s s' : S)
      → acquire s ≡ some s'
      → (held s' ≡ held s + 1) × (size s' ≡ size s) × (held s < size s)
  pub acquire_none : (s : S) → acquire s ≡ none → size s ≤ held s
  pub release_some : (s s' : S) → release s ≡ some s' → (held s ≡ held s' + 1) × (size s' ≡ size s)
  pub release_none : (s : S) → release s ≡ none → held s ≡ 0

-- Where a call of `Fetch` is: before the test of `callAgain`, at `Acquire`, in the underlying `Fetch`,
-- after it, before `Release`, and returned; none is the result false.
pub data Phase {ℓ} (T : Type ℓ) : Type ℓ where
  checking : Phase T
  acquiring : Phase T
  fetching : Phase T
  fetched : Option T → Phase T
  releasing : Option T → Phase T
  returned : Option T → Phase T
  panicked : Phase T

pub record ParallelFetcher (S T : Type 0) : Type 0 where
  pub sema : S
  pub call_again : Bool
  pub clients : List (Phase T)

module _ {S T : Type 0} (w : Weighted S) where
  -- `NewParallelFetcher`; a limit below 0 is as the limit 0.
  unfoldable pub new_parallel_fetcher : ℕ → ParallelFetcher S T
  new_parallel_fetcher limit = record {
    sema = w.new_weighted (if leb 1 limit then limit else 1);
    call_again = true;
    clients = [];
  }

  -- `Fetch`, a step of a call; `result` is what the underlying `Fetch` returns, where it does.
  unfoldable pub act : (result : Option T) → Phase T → Bool → S → Option (Phase T × Bool × S)
  act result checking again s =
      if again then some (acquiring, again, s) else some (returned none, again, s)
  act result acquiring again s = elim (w.acquire s) [
    | none ↦ none
    | some s' ↦ some (fetching, again, s')
  ]
  act result fetching again s = some (fetched result, again, s)
  act result (fetched none) again s = some (releasing none, false, s)
  act result (fetched (some v)) again s = some (releasing (some v), again, s)
  act result (releasing r) again s = elim (w.release s) [
    | none ↦ some (panicked, again, s)
    | some s' ↦ some (returned r, again, s')
  ]
  act result (returned r) again s = none
  act result panicked again s = none

  -- A step of call `i`.
  unfoldable pub act_at :
      (result : Option T) (i : ℕ) → List (Phase T) → Bool → S → Option (List (Phase T) × Bool × S)
  act_at result i [] again s = none
  act_at result zero (p ∷ ps) again s = elim (act result p again s) [
    | none ↦ none
    | some (p', again', s') ↦ some (p' ∷ ps, again', s')
  ]
  act_at result (suc i) (p ∷ ps) again s = elim (act_at result i ps again s) [
    | none ↦ none
    | some (ps', again', s') ↦ some (p ∷ ps', again', s')
  ]

  pub data Step : ParallelFetcher S T → ParallelFetcher S T → Type 0 where
    on_call : {pf : ParallelFetcher S T} → Step pf (record pf { clients = checking ∷ pf.clients })
    on_act :
        {pf : ParallelFetcher S T} {ps : List (Phase T)} {again : Bool} {s : S} (result : Option T)
        (i : ℕ)
        → act_at result i pf.clients pf.call_again pf.sema ≡ some (ps, again, s)
        → Step pf (record { sema = s; call_again = again; clients = ps })

  pub data Run (l : ParallelFetcher S T) : ParallelFetcher S T → Type 0 where
    here : Run l l
    next : {m n : ParallelFetcher S T} → Run l m → Step m n → Run l n
