-- ===== src/VideoRec/Gather/Laws.antt =====
-- lab2/video_rec_service/server_lib/server_lib.go, `GetTopVideos`: what the goroutines gather, in
-- whatever order they append and send.
use cpsc.Common.{
  ℕ, ◌+◌, ◌/◌, ◌≤◌, ◌<◌, ◌≡◌, ◌⊎◌, zero, suc, arith, inl, inr, refl, ap, subst, ◌∙◌, Bool, true,
  false, Option, none, some, List, [], ◌∷◌, map, flat_map, if◌then◌else◌, length, Option-cases,
  Bool-cases, flat_map-perm,
}
use mathlib.Core.List.{Perm, map-append}
use Prim.Native.String.{String}
use cpsc.Services.Rpc.{Reply, value, failure, RpcError, VideoInfo}
use cpsc.VideoRec.State.{Options}
use cpsc.VideoRec.Batches.{batch, retry, asked, indices, batches-whole}
use cpsc.VideoRec.Gather.{
  BatchEnd, got, silent, cached_end, Order, gather, run_batch, batch_end, got_items, sent_caches,
  sent_replies,
}

-- No goroutine has sent an error.
abbrev pub NoError : List (Option RpcError) → Type 0
NoError [] = Unit
NoError (none ∷ es) = NoError es
NoError (some e ∷ es) = ⊥

-- No goroutine has a number above `last`.
abbrev pub IsWithin : ℕ → List ℕ → Type 0
IsWithin last [] = Unit
IsWithin last (i ∷ order) = (i ≤ last) × IsWithin last order

-- Each goroutine appends once, in any order, and only goroutines send.
abbrev pub EachOnce : (m : ℕ) → List ℕ → Order → Type 0
EachOnce m ids order =
    Perm order.appends (indices 0 (length ids / m + 1)) × IsWithin (length ids / m) order.sends

map-flat_map {ℓ κ μ} :
    {A : Type ℓ} {B : Type κ} {C : Type μ} (g : B → C) (f : A → List B) (xs : List A)
    → flat_map (λ x. map g (f x)) xs ≡ map g (flat_map f xs)
map-flat_map g f [] = refl
map-flat_map g f (x ∷ xs) = rw (map-append g (f x) (flat_map f xs), map-flat_map g f xs)

module _ {ℓ} {A : Type ℓ} (ends : ℕ → BatchEnd A) (kept : ℕ → List A) (last : ℕ)
    (each : (i : ℕ)
      → i ≤ last
      → (ends i ≡ got (kept i)) ⊎ ((ends i ≡ silent) × (kept i ≡ []))) where
  gathered_from :
      (i k : ℕ)
      → i + k ≤ last + 1
      → flat_map (λ i. got_items (ends i)) (indices i k) ≡ flat_map kept (indices i k)
  gathered_from i zero le = refl
  gathered_from i (suc k) le = elim (each i (omega (arith, le))) [
    | inl end ↦ rw (end, gathered_from (suc i) k (omega (arith, le)))
    | inr (end, nothing) ↦ rw (end, nothing, gathered_from (suc i) k (omega (arith, le)))
  ]

  gathered_items :
      (order : List ℕ)
      → Perm order (indices 0 (last + 1))
      → Perm (flat_map (λ i. got_items (ends i)) order) (flat_map kept (indices 0 (last + 1)))
  gathered_items order once =
      subst (λ l. Perm (flat_map (λ i. got_items (ends i)) order) l)
        (gathered_from 0 (last + 1) (omega arith)) (flat_map-perm (λ i. got_items (ends i)) once)

  gathered_caches :
      (order : List ℕ) → IsWithin last order → flat_map (λ i. sent_caches (ends i)) order ≡ []
  gathered_caches [] h = refl
  gathered_caches (i ∷ order) h = elim (each i h.0) [
    | inl end ↦ rw end (gathered_caches order h.1)
    | inr (end, _) ↦ rw end (gathered_caches order h.1)
  ]

  gathered_replies :
      (order : List ℕ) → IsWithin last order → NoError (flat_map (λ i. sent_replies (ends i)) order)
  gathered_replies [] h = tt
  gathered_replies (i ∷ order) h = elim (each i h.0) [
    | inl end ↦ rw end (gathered_replies order h.1)
    | inr (end, _) ↦ rw end (gathered_replies order h.1)
  ]

-- The reply that is left to goroutine `i` for the ids `b`.
abbrev pub left {ℓ} :
    {A : Type ℓ} → Options → (ℕ → ℕ → List ℕ → Reply (List A)) → ℕ → List ℕ → Reply (List A)
left o call i b = (retry o.disable_retry (λ t. call i t b)).1

module _ {ℓ} {A : Type ℓ} (o : Options) (cached : List VideoInfo) (format : String) (m : ℕ)
    (ids : List ℕ) (call : ℕ → ℕ → List ℕ → Reply (List A)) (g : ℕ → A) where
  answered-end :
      (i : ℕ)
      → ((b : List ℕ) → batch m ids i ≡ some b → left o call i b ≡ value (map g b))
      → (run_batch o cached format m ids call i).1 ≡ got (map g (asked m ids i))
  unfolding run_batch batch_end
  answered-end i answers = elim (Option-cases (batch m ids i)) [
    | inl none_left ↦ rw (none_left, run_batch) refl
    | inr (b, some_left) ↦ rw (some_left, answers b some_left, run_batch) refl
  ]

  -- Where every call is answered at last, with what `g` is for each id, the handler has that for
  -- each of the ids, as often as the id is there, and no error and no cached list.
  pub gather-whole :
      (order : Order)
      → 0 < m
      → EachOnce m ids order
      → ((i : ℕ) (b : List ℕ)
          → i ≤ length ids / m
          → batch m ids i ≡ some b
          → left o call i b ≡ value (map g b))
      → Perm (gather o cached format m ids call order).items (map g ids)
        × ((gather o cached format m ids call order).caches ≡ [])
        × NoError (gather o cached format m ids call order).replies
  unfolding gather
  gather-whole order some_size once answers =
      let ends : ℕ → BatchEnd A = λ i. (run_batch o cached format m ids call i).1 in
      let kept : ℕ → List A = λ i. map g (asked m ids i) in
      let each : (i : ℕ)
          → i ≤ length ids / m
          → (ends i ≡ got (kept i)) ⊎ ((ends i ≡ silent) × (kept i ≡ [])) =
        λ i le. inl (answered-end i (λ b e. answers i b le e)) in
      let all : flat_map kept (indices 0 (length ids / m + 1)) ≡ map g ids =
        map-flat_map g (asked m ids) (indices 0 (length ids / m + 1))
        ∙ ap (map g) (batches-whole m ids some_size) in
      (
        subst (Perm (gather o cached format m ids call order).items) all
            (gathered_items ends kept (length ids / m) each order.appends once.0),
        gathered_caches ends kept (length ids / m) each order.sends once.1,
        gathered_replies ends kept (length ids / m) each order.sends once.1,
      )

-- The ids of the goroutines that are answered at last.
abbrev pub served : (m : ℕ) → List ℕ → (good : ℕ → Bool) → ℕ → List ℕ
served m ids good i = if good i then asked m ids i else []

-- Goroutine `i` is answered at last, or else it is not and `i` is not good.
abbrev pub Attempts {ℓ} :
    {A : Type ℓ}
    → Options
    → (ℕ → ℕ → List ℕ → Reply (List A))
    → (ℕ → A)
    → (good : ℕ → Bool) → (i : ℕ) → List ℕ
    → Type ℓ
Attempts o call g good i b =
    ((good i ≡ true) × (left o call i b ≡ value (map g b)))
    ⊎ ((good i ≡ false) × ((e : RpcError) × (left o call i b ≡ failure e)))

module _ {ℓ} {A : Type ℓ} (o : Options) (format : String) (m : ℕ) (ids : List ℕ)
    (call : ℕ → ℕ → List ℕ → Reply (List A)) (g : ℕ → A) (good : ℕ → Bool) where
  partial-end :
      (i : ℕ)
      → o.disable_fallback ≡ false
      → ((b : List ℕ) → batch m ids i ≡ some b → Attempts o call g good i b)
      → ((run_batch o [] format m ids call i).1 ≡ got (map g (served m ids good i)))
        ⊎ (((run_batch o [] format m ids call i).1 ≡ silent) × (map g (served m ids good i) ≡ []))
  unfolding run_batch batch_end cached_end
  partial-end i on attempts = elim (Option-cases (batch m ids i)) [
    | inl none_left ↦ elim (Bool-cases (good i)) [
      | inl is_good ↦ inl (rw (none_left, is_good, run_batch) refl)
      | inr bad ↦ inl (rw (none_left, bad, run_batch) refl)
    ]
    | inr (b, some_left) ↦ elim (attempts b some_left) [
      | inl (is_good, answer) ↦ inl (rw (some_left, answer, is_good, run_batch) refl)
      | inr (bad, fails) ↦ inr (rw (some_left, fails.1, on, run_batch) refl, rw bad refl)
    ]
  ]

  gather-nil :
      (order : Order)
      → EachOnce m ids order
      → o.disable_fallback ≡ false
      → ((i : ℕ) (b : List ℕ)
          → i ≤ length ids / m
          → batch m ids i ≡ some b
          → Attempts o call g good i b)
      → Perm
          (gather o [] format m ids call order).items
          (map g (flat_map (served m ids good) (indices 0 (length ids / m + 1))))
        × ((gather o [] format m ids call order).caches ≡ [])
        × NoError (gather o [] format m ids call order).replies
  unfolding gather
  gather-nil order once on attempts =
      let ends : ℕ → BatchEnd A = λ i. (run_batch o [] format m ids call i).1 in
      let kept : ℕ → List A = λ i. map g (served m ids good i) in
      let each : (i : ℕ)
          → i ≤ length ids / m
          → (ends i ≡ got (kept i)) ⊎ ((ends i ≡ silent) × (kept i ≡ [])) =
        λ i le. partial-end i on (λ b e. attempts i b le e) in
      (
        subst (Perm (gather o [] format m ids call order).items)
            (map-flat_map g (served m ids good) (indices 0 (length ids / m + 1)))
            (gathered_items ends kept (length ids / m) each order.appends once.0),
        gathered_caches ends kept (length ids / m) each order.sends once.1,
        gathered_replies ends kept (length ids / m) each order.sends once.1,
      )

  -- With fallback on and nothing in the cache, a goroutine that fails at last is silent: the
  -- handler has the items of the other ones, and neither an error nor a cached list.
  pub gather-partial :
      (cached : List VideoInfo) (order : Order)
      → cached ≡ []
      → EachOnce m ids order
      → o.disable_fallback ≡ false
      → ((i : ℕ) (b : List ℕ)
          → i ≤ length ids / m
          → batch m ids i ≡ some b
          → Attempts o call g good i b)
      → Perm
          (gather o cached format m ids call order).items
          (map g (flat_map (served m ids good) (indices 0 (length ids / m + 1))))
        × ((gather o cached format m ids call order).caches ≡ [])
        × NoError (gather o cached format m ids call order).replies
  gather-partial cached order empty once on attempts = rw empty (gather-nil order once on attempts)
