-- ===== src/Services/Rank.antt =====
-- lab2/ranker/ranker.go. A coefficient map is a list of its keys and values, in the order in which
-- `range` visits it. The hash with bcrypt and fnv of the dot product is a parameter.
use cpsc.Common.{
  ℕ, ◌+◌, ◌*◌, ◌%◌, ◌^◌, ◌≡◌, refl, ap, ◌∙◌, Option, none, some, [], ◌∷◌, arith, if◌then◌else◌,
  ◌==◌,
}
use mathlib.Core.List.{Perm, Permᴰ}
use mathlib.Core.Logic.{∥∥₁_elim}
use native.Mathlib.Nat.{ℕ_set}
use cpsc.Services.Rpc.{Coefficients}

-- `videoCoeffs.GetCoeffs()[featureId]`
unfoldable pub lookup_coeff : Coefficients → ℕ → Option ℕ
lookup_coeff [] feature = none
lookup_coeff ((f, c) ∷ coeffs) feature =
    if f == feature then some c else lookup_coeff coeffs feature

-- What a feature of the user adds.
unfoldable pub term_of : Coefficients → (ℕ × ℕ) → ℕ
term_of video (feature, user_coeff) = elim (lookup_coeff video feature) [
  | none ↦ 0
  | some video_coeff ↦ user_coeff * video_coeff
]

-- The loop, which wraps around at 2^64.
unfoldable pub dot_product : (user video : Coefficients) → (sum : ℕ) → ℕ
dot_product [] video sum = sum
dot_product (x ∷ user) video sum = dot_product user video ((sum + term_of video x) % 2 ^ 64)

-- `Rank`
unfoldable pub rank_by : (hash : ℕ → ℕ) → Coefficients → Coefficients → ℕ
rank_by hash user video = hash (dot_product user video 0)

wrapped_swap : (a b s : ℕ) → ((s + a) % 2 ^ 64 + b) % 2 ^ 64 ≡ ((s + b) % 2 ^ 64 + a) % 2 ^ 64
wrapped_swap a b s = omega arith

dot_product-permᴰ :
    (video user user' : Coefficients)
    → Permᴰ user user'
    → (sum : ℕ) → dot_product user video sum ≡ dot_product user' video sum
unfolding dot_product
dot_product-permᴰ video [] [] Permᴰ.nil sum = refl
dot_product-permᴰ video (x ∷ xs) (y ∷ ys) (Permᴰ.cons e p) sum =
    rw e (dot_product-permᴰ video xs ys p ((sum + term_of video y) % 2 ^ 64))
dot_product-permᴰ video (x ∷ y ∷ l) (x' ∷ y' ∷ _) (Permᴰ.swap e e') sum =
    rw (e, e') (ap (dot_product l video) (wrapped_swap (term_of video y') (term_of video x') sum))
dot_product-permᴰ video xs zs (Permᴰ.trans {l₂ = ys} p q) sum =
    dot_product-permᴰ video xs ys p sum ∙ dot_product-permᴰ video ys zs q sum

-- The rank does not depend on the order in which the loop visits the user's coefficients.
rank_by-perm :
    (hash : ℕ → ℕ) (video user user' : Coefficients)
    → Perm user user'
    → rank_by hash user video ≡ rank_by hash user' video
unfolding rank_by
rank_by-perm hash video user user' p =
    ∥∥₁_elim p (ℕ_set _ _) (λ d. ap hash (dot_product-permᴰ video user user' d 0))
