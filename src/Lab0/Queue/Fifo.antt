-- ===== src/Lab0/Queue/Fifo.antt =====
-- lab0/queue.go: a sequence of calls on a new queue, also those of several goroutines in the order
-- in which they hold the lock of a ConcurrentQueue.
use cpsc.Common.{◌≡◌, refl, Option, List, [], ◌∷◌, ◌++◌}
use cpsc.Common.Outcome.{Outcome, ok, ◌>>=◌}
use cpsc.Lab0.Queue.{Queue, new_queue, push, pop}
use cpsc.Lab0.Queue.Laws.{Holds, push-Holds, pop-Holds, popped}

-- A call of a method.
pub data Call {ℓ} (T : Type ℓ) : Type ℓ where
  on_push : T → Call T
  on_pop : Call T

module _ {ℓ} {T : Type ℓ} where
  -- The calls on the queue, and what the calls of `Pop` return.
  unfoldable pub calls : List (Call T) → Queue T → Outcome (List (Option T))
  calls [] q = ok []
  calls (on_push t ∷ cs) q = push t q >>= λ q'. calls cs q'
  calls (on_pop ∷ cs) q = pop q >>= λ r. calls cs r.0 >>= λ answers. ok (r.1 ∷ answers)

  -- The same on a list of values.
  abbrev pub in_order : List (Call T) → List T → List (Option T)
  in_order [] vs = []
  in_order (on_push t ∷ cs) vs = in_order cs (vs ++ (t ∷ []))
  in_order (on_pop ∷ cs) vs = (popped vs).1 ∷ in_order cs (popped vs).0

  calls-Holds :
      (cs : List (Call T)) (q : Queue T) (vs : List T)
      → Holds q vs
      → calls cs q ≡ ok (in_order cs vs)
  unfolding calls
  calls-Holds [] q vs h = refl
  calls-Holds (on_push t ∷ cs) q vs h =
      let (q', done, held) = push-Holds t q vs h in
      rw done (calls-Holds cs q' (vs ++ (t ∷ [])) held)
  calls-Holds (on_pop ∷ cs) q vs h =
      let (q', done, held) = pop-Holds q vs h in
      rw (done, calls-Holds cs q' (popped vs).0 held) refl

  -- Any sequence of calls on a new queue returns, and the calls of `Pop` return what they would on
  -- a list whose values come in at the end and go out at the front, first in, first out.
  pub calls-in_order : (cs : List (Call T)) → calls cs new_queue ≡ ok (in_order cs [])
  unfolding new_queue
  calls-in_order cs = calls-Holds cs new_queue [] ([], refl)
