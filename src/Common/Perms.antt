-- ===== src/Common/Perms.antt =====
-- Permutations of lists: of the pieces that a list is put together from.
use mathlib.Core.Logic.{∥∥₁_elim, ∥∥₁_prop}
use mathlib.Core.List.{List, [], ◌∷◌, ◌++◌, append_assoc}
use mathlib.Core.List.{Perm, Permᴰ}
use mathlib.Core.List.Perm
use mathlib.Core.List.Permᴰ
use cpsc.Common.Lists.{flat_map}

pieces-swap {ℓ} : {A : Type ℓ} (p q r : List A) → Perm (p ++ (q ++ r)) (q ++ (p ++ r))
pieces-swap p q r =
    rw (← append_assoc p q r, ← append_assoc q p r) (Perm.append_right r ∣ Permᴰ.append_comm p q ∣₁)

module _ {ℓ κ} {A : Type ℓ} {B : Type κ} where
  flat_map-permᴰ :
      (f : A → List B) (xs ys : List A) → Permᴰ xs ys → Perm (flat_map f xs) (flat_map f ys)
  flat_map-permᴰ f [] [] Permᴰ.nil = Perm.rfl
  flat_map-permᴰ f (x ∷ xs) (y ∷ ys) (Permᴰ.cons e p) =
      rw e (Perm.append_left (f y) (flat_map-permᴰ f xs ys p))
  flat_map-permᴰ f (x ∷ y ∷ l) (x' ∷ y' ∷ _) (Permᴰ.swap e e') =
      rw (e, e') (pieces-swap (f y') (f x') (flat_map f l))
  flat_map-permᴰ f xs zs (Permᴰ.trans {l₂ = ys} p q) =
      Perm.trans (flat_map-permᴰ f xs ys p) (flat_map-permᴰ f ys zs q)

  -- Pieces in another order make a permutation.
  pub flat_map-perm :
      (f : A → List B) {xs ys : List A} → Perm xs ys → Perm (flat_map f xs) (flat_map f ys)
  flat_map-perm f {xs} {ys} p = ∥∥₁_elim p ∥∥₁_prop (flat_map-permᴰ f xs ys)
