-- ===== src/Lab0/Semaphore/Lost.antt =====
-- lab0/semaphore.go: a wake-up that is lost. The channel has room for one value, so of two calls of
-- `Post` that send while no call of `Wait` is parked yet, the second one wakes nobody.
use cpsc.Common.{ℕ, suc, ◌+◌, ◌≡◌, refl, true, false, none, some, List, ◌∷◌}
use cpsc.Lab0.Semaphore.{
  Phase, selecting, parked, acquired, Semaphore, post_add, none_parked, post_send, act, act_at,
  wait_step, on_add, on_send, on_wait, Run, here, next,
}

-- A semaphore without units, with an empty channel, and with two calls of `Wait` that have found no
-- unit and a context that is not done, and are about to select.
abbrev pub both_selecting : (posts : ℕ) → List Phase → Semaphore
both_selecting n ps = record {
  available = 0;
  signal = 0;
  sending = 0;
  posts = n;
  waits = selecting ∷ selecting ∷ ps;
}

-- One unit is available, the channel is empty, and the second call is parked.
abbrev pub one_asleep : (posts : ℕ) → List Phase → Semaphore
one_asleep n ps = record {
  available = 1;
  signal = 0;
  sending = 0;
  posts = n;
  waits = acquired ∷ parked ∷ ps;
}

-- A send where no call is parked.
send-signals :
    (s : Semaphore) (n : ℕ)
    → s.sending ≡ suc n
    → none_parked s.waits ≡ true
    → post_send 0 s ≡ some (record s { sending = n; signal = 1 })
unfolding post_send
send-signals s n one awake = rw (one, awake) refl

-- Where no call of `Wait` is parked and two of them have found no unit and a context that is not
-- done, and are about to select: two calls of `Post` can complete and one of the calls of `Wait`
-- succeed, so that a unit is available and the other call is parked, and cannot make a step while
-- its context is not done.
pub post-lost :
    (n : ℕ) (ps : List Phase)
    → none_parked ps ≡ true
    → Run (both_selecting n ps) (one_asleep (n + 1 + 1) ps)
      × (wait_step false 1 (one_asleep (n + 1 + 1) ps) ≡ none)
unfolding post_add none_parked act act_at wait_step
post-lost n ps awake = (
  next on_add (
      next on_add (
        next (on_send 0 (send-signals _ 1 refl awake)) (
          next (on_send 0 (send-signals _ 0 refl awake)) (
            next (on_wait false 0 refl) (
              next (on_wait false 0 refl)
                (next (on_wait false 0 refl) (next (on_wait false 1 refl) here))))))),
  refl,
)
