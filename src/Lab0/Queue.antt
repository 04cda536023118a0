-- ===== src/Lab0/Queue.antt =====
-- lab0/queue.go: the queue, a linked list. A node stands in the heap at its address, the number of
-- nodes made before it; nil is `none`. ConcurrentQueue holds its lock in each method, so its calls
-- are those of Queue, one after the other.
pub mod Laws
pub mod Fifo
use cpsc.Common.{ℕ, Option, none, some, List, [], ◌∷◌, ◌++◌, length, get_elem?, set}
use cpsc.Common.Outcome.{Outcome, ok, checked, ◌>>=◌}

-- `node`
pub record Node {ℓ} (T : Type ℓ) : Type ℓ where
  pub value : T
  pub next : Option ℕ

-- `Queue`
pub record Queue {ℓ} (T : Type ℓ) : Type ℓ where
  pub heap : List (Node T)
  pub head : Option ℕ
  pub tail : Option ℕ

module _ {ℓ} {T : Type ℓ} where
  -- `NewQueue`
  unfoldable pub new_queue : Queue T
  new_queue = record { heap = []; head = none; tail = none }

  -- `Push`
  unfoldable pub push : T → Queue T → Outcome (Queue T)
  push t q =
      let made = q.heap ++ (record { value = t; next = none } ∷ []) in
      let new_node = some (length q.heap) in
      elim q.tail [
        | none ↦ ok (record { heap = made; head = new_node; tail = new_node })
        | some p ↦
            (checked (get_elem? made p) >>= λ last.
            ok (record q { heap = set made p (record last { next = new_node }); tail = new_node }))
      ]

  -- `Pop`, the end: `q.head` is the next node.
  unfoldable pub advance : Option ℕ → Queue T → Queue T
  advance none q = record q { head = none; tail = none }
  advance (some a) q = record q { head = some a }

  -- `Pop`; the zero value and false is `none`.
  unfoldable pub pop : Queue T → Outcome (Queue T × Option T)
  pop q = elim q.head [
    | none ↦ ok (q, none)
    | some p ↦ (checked (get_elem? q.heap p) >>= λ n. ok (advance n.next q, some n.value))
  ]
