-- ===== src/VideoRec/System/Parts.antt =====
-- lab2/video_rec_service/server_lib/server_lib.go: the ids of a batch are ids of the list, and what
-- holds of all ids of the list, or of the list without repeated ids, holds of the batch.
use cpsc.Common.{
  ℕ, zero, suc, ◌+◌, ◌*◌, ◌-◌, ◌/◌, ◌≡◌, refl, ◌∙◌, subst, Bool, true, Option, none, some, List, [],
  ◌∷◌, arith, map, take, drop, length, ◌==◌, ==_iff, Bool-cases, inl, inr, ◌%◌,
}
use mathlib.Core.Logic.{∥∥₁_elim}
use mathlib.Core.List.{Perm, Permᴰ}
use cpsc.Services.Rpc.{Reply, value}
use cpsc.Services.Dedup.{contains, Distinct}
use cpsc.VideoRec.Batches.{batch, slice, retry}

contains-take : (n : ℕ) (xs : List ℕ) (v : ℕ) → contains (take n xs) v ≡ true → contains xs v ≡ true
unfolding contains
contains-take zero xs v e = cc
contains-take (suc n) [] v e = cc
contains-take (suc n) (x ∷ xs) v e = ground (arith, contains-take n xs v)

contains-drop : (n : ℕ) (xs : List ℕ) (v : ℕ) → contains (drop n xs) v ≡ true → contains xs v ≡ true
unfolding contains
contains-drop zero xs v e = e
contains-drop (suc n) [] v e = cc
contains-drop (suc n) (x ∷ xs) v e = ground (arith, contains-drop n xs v)

Distinct-take : (n : ℕ) (xs : List ℕ) → Distinct xs → Distinct (take n xs)
Distinct-take zero xs d = tt
Distinct-take (suc n) [] d = tt
Distinct-take (suc n) (x ∷ xs) d = (ground (arith, contains-take n xs x), Distinct-take n xs d.1)

Distinct-drop : (n : ℕ) (xs : List ℕ) → Distinct xs → Distinct (drop n xs)
Distinct-drop zero xs d = d
Distinct-drop (suc n) [] d = tt
Distinct-drop (suc n) (x ∷ xs) d = Distinct-drop n xs d.1

-- A batch is taken from the list by `take` and `drop`.
batch-closed {ℓ} :
    (P : List ℕ → Type ℓ)
    → ((n : ℕ) (xs : List ℕ) → P xs → P (take n xs))
    → ((n : ℕ) (xs : List ℕ) → P xs → P (drop n xs))
    → (m : ℕ) (ids : List ℕ) (i : ℕ) (b : List ℕ) → batch m ids i ≡ some b
    → P ids
    → P b
unfolding batch slice
batch-closed P takes drops m ids i b e h = elim (Bool-cases (i == length ids / m)) [
  | inr inner ↦
      let same : some (take ((i + 1) * m - i * m) (drop (i * m) ids)) ≡ some b = rw inner at e in
      let b_is : take ((i + 1) * m - i * m) (drop (i * m) ids) ≡ b = ground arith in
      subst P b_is (takes ((i + 1) * m - i * m) (drop (i * m) ids) (drops (i * m) ids h))
  | inl last ↦ elim (Bool-cases (length ids % m == 0)) [
    | inl nothing ↦ (let gone : none ≡ some b = rw (last, nothing) at e in cc)
    | inr some_left ↦
        let same : some (drop (i * m) ids) ≡ some b = rw (last, some_left) at e in
        let b_is : drop (i * m) ids ≡ b = ground arith in subst P b_is (drops (i * m) ids h)
  ]
]

pub batch-Distinct :
    (m : ℕ) (ids : List ℕ) (i : ℕ) (b : List ℕ) → batch m ids i ≡ some b → Distinct ids → Distinct b
batch-Distinct m ids i b e d = batch-closed Distinct Distinct-take Distinct-drop m ids i b e d

-- Each id has its info in the database `f`.
abbrev pub AllStored {ℓ} : {A : Type ℓ} → (ℕ → Option A) → (ℕ → A) → List ℕ → Type ℓ
AllStored f g ids = (v : ℕ) → contains ids v ≡ true → f v ≡ some (g v)

pub batch-AllStored {ℓ} :
    {A : Type ℓ} (f : ℕ → Option A) (g : ℕ → A) (m : ℕ) (ids : List ℕ) (i : ℕ) (b : List ℕ)
    → batch m ids i ≡ some b
    → AllStored f g ids
    → AllStored f g b
batch-AllStored f g m ids i b e h =
    batch-closed (AllStored f g) (λ n xs all v c. all v (contains-take n xs v c))
      (λ n xs all v c. all v (contains-drop n xs v c)) m ids i b e h

pub map-AllStored {ℓ} :
    {A : Type ℓ} (f : ℕ → Option A) (g : ℕ → A) (ids : List ℕ)
    → AllStored f g ids
    → map f ids ≡ map some (map g ids)
unfolding contains
map-AllStored f g [] h = refl
map-AllStored f g (v ∷ ids) h =
    let here : f v ≡ some (g v) = h v (ground (arith, ==_iff v v)) in
    let rest = map-AllStored f g ids (λ u c. h u (ground arith)) in rw (here, rest)

contains-permᴰ : (xs ys : List ℕ) (v : ℕ) → Permᴰ xs ys → contains xs v ≡ contains ys v
unfolding contains
contains-permᴰ [] [] v Permᴰ.nil = refl
contains-permᴰ (x ∷ xs) (y ∷ ys) v (Permᴰ.cons e p) = rw (e, contains-permᴰ xs ys v p)
contains-permᴰ (x ∷ y ∷ l) (x' ∷ y' ∷ _) v (Permᴰ.swap e e') = rw (e, e') (ground arith)
contains-permᴰ xs zs v (Permᴰ.trans {l₂ = ys} p q) =
    contains-permᴰ xs ys v p ∙ contains-permᴰ ys zs v q

-- The ids of a list do not depend on its order.
pub contains-perm : (xs ys : List ℕ) (v : ℕ) → Perm xs ys → contains xs v ≡ contains ys v
contains-perm xs ys v p = ∥∥₁_elim p (hlevel) (contains-permᴰ xs ys v)

pub retry-answered {ℓ} :
    {A : Type ℓ} (once : Bool) (call : ℕ → Reply A) (a : A)
    → call 0 ≡ value a
    → (retry once call).1 ≡ value a
unfolding retry
retry-answered once call a e = rw (e, retry)
