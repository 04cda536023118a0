-- ===== src/Lab0/Semaphore.antt =====
-- lab0/semaphore.go: the counting semaphore. A call of `Post` is two steps, the addition and the send
-- on the channel; a call of `Wait` goes from phase to phase. Any call may make the next step. There
-- are fewer than 2^63 calls of `Post`, so the int64 does not overflow.
pub mod Count
pub mod Lost
use cpsc.Common.{
  ℕ, zero, suc, ◌+◌, ◌≡◌, Bool, true, false, Option, none, some, List, [], ◌∷◌, if◌then◌else◌, ◌==◌,
}

-- Where a call of `Wait` is: before the load, before the swap with `v + 1` loaded, before the first
-- `select`, before the second one, parked in it, and returned without or with the error of the
-- context.
pub data Phase : Type 0 where
  loading : Phase
  swapping : ℕ → Phase
  checking : Phase
  selecting : Phase
  parked : Phase
  acquired : Phase
  cancelled : Phase

-- `signal` is the number of values in the channel, which has room for one; `sending` the calls of
-- `Post` that have added and not sent yet; `posts` those that have added.
pub record Semaphore : Type 0 where
  pub available : ℕ
  pub signal : ℕ
  pub sending : ℕ
  pub posts : ℕ
  pub waits : List Phase

-- `NewSemaphore`
unfoldable pub new_semaphore : Semaphore
new_semaphore = record { available = 0; signal = 0; sending = 0; posts = 0; waits = [] }

-- `Post`, its first step.
unfoldable pub post_add : Semaphore → Semaphore
post_add s = record s { available = s.available + 1; sending = s.sending + 1; posts = s.posts + 1 }

-- The calls after call `i` is given a value, if it is parked.
unfoldable pub wake : (i : ℕ) → List Phase → Option (List Phase)
wake i [] = none
wake zero (parked ∷ ps) = some (loading ∷ ps)
wake zero (p ∷ ps) = none
wake (suc i) (p ∷ ps) = elim (wake i ps) [ none ↦ none | some ps' ↦ some (p ∷ ps') ]

unfoldable pub none_parked : List Phase → Bool
none_parked [] = true
none_parked (parked ∷ ps) = false
none_parked (p ∷ ps) = none_parked ps

-- `Post`, its second step: a send. It hands the value to a call that is parked, here call `i`;
-- where none is parked, the value goes to the channel if there is room, and is dropped otherwise.
unfoldable pub post_send : (i : ℕ) → Semaphore → Option Semaphore
post_send i s = elim s.sending [
  | zero ↦ none
  | suc n ↦
      if none_parked s.waits
      then some (record s { sending = n; signal = 1 })
      else elim (wake i s.waits) [
        | none ↦ none
        | some ps ↦ some (record s { sending = n; waits = ps })
      ]
]

-- A step of `Wait`, with the new number that is available and the new number of signals; `done`
-- says that the context is done, and that a `select` takes this case.
unfoldable pub act : (done : Bool) → Phase → (available signal : ℕ) → Option (Phase × ℕ × ℕ)
act done loading zero c = some (checking, 0, c)
act done loading (suc v) c = some (swapping v, suc v, c)
act done (swapping v) a c = if a == suc v then some (acquired, v, c) else some (loading, a, c)
act true checking a c = some (cancelled, a, c)
act false checking a c = some (selecting, a, c)
act true selecting a c = some (cancelled, a, c)
act false selecting a zero = some (parked, a, zero)
act false selecting a (suc c) = some (loading, a, c)
act true parked a c = some (cancelled, a, c)
act false parked a c = none
act done acquired a c = none
act done cancelled a c = none

-- A step of call `i` of `Wait`.
unfoldable pub act_at :
    (done : Bool) (i : ℕ) → List Phase → (available signal : ℕ) → Option (List Phase × ℕ × ℕ)
act_at done i [] a c = none
act_at done zero (p ∷ ps) a c = elim (act done p a c) [
  | none ↦ none
  | some (p', a', c') ↦ some (p' ∷ ps, a', c')
]
act_at done (suc i) (p ∷ ps) a c = elim (act_at done i ps a c) [
  | none ↦ none
  | some (ps', a', c') ↦ some (p ∷ ps', a', c')
]

-- `Wait`, a step of one of the calls.
unfoldable pub wait_step : (done : Bool) (i : ℕ) → Semaphore → Option Semaphore
wait_step done i s = elim (act_at done i s.waits s.available s.signal) [
  | none ↦ none
  | some (ps, a, c) ↦ some (record s { waits = ps; available = a; signal = c })
]

-- A new call of `Wait`.
unfoldable pub call_wait : Semaphore → Semaphore
call_wait s = record s { waits = loading ∷ s.waits }

pub data Step : Semaphore → Semaphore → Type 0 where
  on_add : {s : Semaphore} → Step s (post_add s)
  on_send : {s s' : Semaphore} (i : ℕ) → post_send i s ≡ some s' → Step s s'
  on_wait : {s s' : Semaphore} (done : Bool) (i : ℕ) → wait_step done i s ≡ some s' → Step s s'
  on_call : {s : Semaphore} → Step s (call_wait s)

-- Any number of steps.
pub data Run : Semaphore → Semaphore → Type 0 where
  here : {s : Semaphore} → Run s s
  next : {s t u : Semaphore} → Step s t → Run t u → Run s u
