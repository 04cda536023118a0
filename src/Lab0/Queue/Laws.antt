-- ===== src/Lab0/Queue/Laws.antt =====
-- lab0/queue.go: the linked list behaves as the list of its values.
use cpsc.Common.{
  ℕ, suc, ◌+◌, ◌≡◌, refl, ap, sym, subst, ◌∙◌, Option, none, some, List, [], ◌∷◌, ◌++◌, arith,
  length, get_elem?, set, length-append, append_assoc, append-nil,
}
use cpsc.Common.Outcome.{ok}
use cpsc.Lab0.Queue.{Node, Queue, push, advance, pop}

module _ {ℓ} {T : Type ℓ} where
  -- The address of the first node of a list that starts at `k`, and of its last one.
  abbrev first_of : (k : ℕ) → List T → Option ℕ
  first_of k [] = none
  first_of k (v ∷ vs) = some k

  abbrev last_of : (k : ℕ) → List T → Option ℕ
  last_of k [] = none
  last_of k (v ∷ []) = some k
  last_of k (v ∷ w ∷ vs) = last_of (k + 1) (w ∷ vs)

  abbrev nodes : (k : ℕ) → List T → List (Node T)
  nodes k [] = []
  nodes k (v ∷ vs) = record { value = v; next = first_of (k + 1) vs } ∷ nodes (k + 1) vs

  -- The queue with these values, after nodes that are no longer in it.
  abbrev queue_of : List (Node T) → List T → Queue T
  queue_of old vs = record {
    heap = old ++ nodes (length old) vs;
    head = first_of (length old) vs;
    tail = last_of (length old) vs;
  }

  -- The queue holds the values, the first one at its head.
  abbrev pub Holds : Queue T → List T → Type ℓ
  Holds q vs = (old : List (Node T)) × (q ≡ queue_of old vs)

  get_here :
      (old : List (Node T)) (n : Node T) (rest : List (Node T))
      → get_elem? (old ++ (n ∷ rest)) (length old) ≡ some n
  get_here [] n rest = refl
  get_here (x ∷ old) n rest = get_here old n rest

  set_here :
      (old : List (Node T)) (n m : Node T) (rest : List (Node T))
      → set (old ++ (n ∷ rest)) (length old) m ≡ old ++ (m ∷ rest)
  set_here [] n m rest = refl
  set_here (x ∷ old) n m rest = ap (λ l. x ∷ l) (set_here old n m rest)

  length-snoc : (old : List (Node T)) (n : Node T) → length (old ++ (n ∷ [])) ≡ length old + 1
  length-snoc [] n = omega arith
  length-snoc (x ∷ old) n = ground (arith, length-snoc old n)

  -- A pop takes the first value, if there is one.
  abbrev pub popped : List T → List T × Option T
  popped [] = ([], none)
  popped (v ∷ vs) = (vs, some v)

  advance-queue_of :
      (old : List (Node T)) (v : T) (vs : List T)
      → advance (first_of (length old + 1) vs) (queue_of old (v ∷ vs))
        ≡ queue_of (old ++ (record { value = v; next = first_of (length old + 1) vs } ∷ [])) vs
  unfolding advance
  advance-queue_of old v [] = rw (append-nil (old ++ (record { value = v; next = none } ∷ []))) refl
  advance-queue_of old v (w ∷ vs) =
      let node : Node T = record { value = v; next = some (length old + 1) } in
      rw (length-snoc old node, append_assoc old (node ∷ []) (nodes (length old + 1) (w ∷ vs))) refl

  -- On a queue that holds values, `Pop` returns, with the first of them if there is one, and the
  -- queue then holds the other ones.
  pub pop-Holds :
      (q : Queue T) (vs : List T)
      → Holds q vs
      → (q' : Queue T) × (pop q ≡ ok (q', (popped vs).1)) × Holds q' (popped vs).0
  unfolding pop
  pop-Holds q [] (old, e) = rw e (queue_of old [], refl, (old, refl))
  pop-Holds q (v ∷ vs) (old, e) =
      let node : Node T = record { value = v; next = first_of (length old + 1) vs } in
      rw e (
        advance node.next (queue_of old (v ∷ vs)),
        rw (get_here old node (nodes (length old + 1) vs)) refl,
        (old ++ (node ∷ []), advance-queue_of old v vs),
      )

  -- The node at the tail, and the heap once it is linked to the new node.
  link_last :
      (old : List (Node T)) (v : T) (vs : List T) (t : T) (k a : ℕ)
      → length old ≡ k
      → a ≡ k + length (v ∷ vs)
      → (p : ℕ) × (last : Node T) × (last_of k (v ∷ vs) ≡ some p)
        × (get_elem? (old ++ (nodes k (v ∷ vs) ++ (record { value = t; next = none } ∷ []))) p
            ≡ some last)
        × (set
              (old ++ (nodes k (v ∷ vs) ++ (record { value = t; next = none } ∷ [])))
              p
              (record last { next = some a })
            ≡ old ++ nodes k ((v ∷ vs) ++ (t ∷ [])))
  link_last old v [] t k a len at =
      let last : Node T = record { value = v; next = none } in
      let z : Node T = record { value = t; next = none } in
      let next_at : a ≡ k + 1 = omega arith in
      (
        k,
        last,
        refl,
        subst (λ i. get_elem? (old ++ (last ∷ z ∷ [])) i ≡ some last) len
            (get_here old last (z ∷ [])),
        subst
            (λ i.
              set (old ++ (last ∷ z ∷ [])) i (record last { next = some a })
              ≡ old ++ nodes k ((v ∷ []) ++ (t ∷ [])))
            len (rw next_at (set_here old last (record last { next = some (k + 1) }) (z ∷ []))),
      )
  link_last old v (w ∷ vs) t k a len at =
      let node : Node T = record { value = v; next = some (k + 1) } in
      let (p, last, is_last, found, linked) =
        link_last (old ++ (node ∷ [])) w vs t (k + 1) a (omega (arith, length-snoc old node))
          (omega arith) in
      (
        p,
        last,
        is_last,
        rw
            (append_assoc old (node ∷ [])
              (nodes (k + 1) (w ∷ vs) ++ (record { value = t; next = none } ∷ [])))
            at found,
        rw
            (
              append_assoc old (node ∷ [])
                  (nodes (k + 1) (w ∷ vs) ++ (record { value = t; next = none } ∷ [])),
              append_assoc old (node ∷ []) (nodes (k + 1) ((w ∷ vs) ++ (t ∷ []))),
            )
            at linked,
      )

  last_of-append : (k : ℕ) (vs : List T) (t : T) → last_of k (vs ++ (t ∷ [])) ≡ some (k + length vs)
  last_of-append k [] t = ap some (omega arith)
  last_of-append k (v ∷ []) t = ap some (omega arith)
  last_of-append k (v ∷ w ∷ vs) t = last_of-append (k + 1) (w ∷ vs) t ∙ ap some (omega arith)

  length-nodes : (k : ℕ) (vs : List T) → length (nodes k vs) ≡ length vs
  length-nodes k [] = refl
  length-nodes k (v ∷ vs) = ap suc (length-nodes (k + 1) vs)

  push-linked :
      (t : T) (heap linked : List (Node T)) (head : Option ℕ) (p : ℕ) (last : Node T)
      → get_elem? (heap ++ (record { value = t; next = none } ∷ [])) p ≡ some last
      → set
          (heap ++ (record { value = t; next = none } ∷ []))
          p
          (record last { next = some (length heap) })
        ≡ linked
      → push t (record { heap = heap; head = head; tail = some p })
        ≡ ok (record { heap = linked; head = head; tail = some (length heap) })
  unfolding push
  push-linked t heap linked head p last found done = rw (found, done) refl

  -- On a queue that holds values, `Push` returns, and the queue then holds those values and, behind
  -- them, the new one.
  pub push-Holds :
      (t : T) (q : Queue T) (vs : List T)
      → Holds q vs
      → (q' : Queue T) × (push t q ≡ ok q') × Holds q' (vs ++ (t ∷ []))
  unfolding push
  push-Holds t q [] (old, e) = rw e (_, refl, (old, rw (append-nil old) refl))
  push-Holds t q (v ∷ vs) (old, e) =
      let k = length old in
      let size : length (old ++ nodes k (v ∷ vs)) ≡ k + length (v ∷ vs) =
        length-append old (nodes k (v ∷ vs)) ∙ ap (λ n. k + n) (length-nodes k (v ∷ vs)) in
      let (p, last, is_last, found, linked) = link_last old v vs t k _ refl size in
      let behind : last_of k ((v ∷ vs) ++ (t ∷ [])) ≡ some (length (old ++ nodes k (v ∷ vs))) =
        last_of-append k (v ∷ vs) t ∙ ap some (sym size) in
      let assoc = append_assoc old (nodes k (v ∷ vs)) (record { value = t; next = none } ∷ []) in
      let q_is : q ≡ record { heap = old ++ nodes k (v ∷ vs); head = some k; tail = some p } =
        e
        ∙ ap (λ (x : Option ℕ). record { heap = old ++ nodes k (v ∷ vs); head = some k; tail = x })
            is_last in
      rw q_is (
        _,
        push-linked t (old ++ nodes k (v ∷ vs)) (old ++ nodes k ((v ∷ vs) ++ (t ∷ []))) (some k) p
            last (rw assoc found) (rw assoc linked),
        (old, rw behind refl),
      )
