-- ===== src/Services/Dedup.antt =====
-- lab2/video_service/server_lib/server_lib.go, `deduplicateIds`. A Go set of ids is the list of its
-- members.
use cpsc.Common.{
  ℕ, ◌≡◌, ◌↔◌, refl, subst, ap, ◌∙◌, inl, inr, Bool, true, false, ◌||◌, List, [], ◌∷◌, arith, ◌==◌,
  ==_iff, Bool-cases, if◌then◌else◌, length, ◌≤◌,
}

unfoldable pub contains : List ℕ → ℕ → Bool
contains [] a = false
contains (x ∷ xs) a = x == a || contains xs a

-- The loop, with the ids met so far.
unfoldable pub fresh_ids : List ℕ → List ℕ → List ℕ
fresh_ids seen [] = []
fresh_ids seen (i ∷ ids) = elim (contains seen i) [
  | true ↦ fresh_ids seen ids
  | false ↦ i ∷ fresh_ids (i ∷ seen) ids
]

unfoldable pub deduplicate_ids : List ℕ → List ℕ
deduplicate_ids ids = fresh_ids [] ids

-- No id stands twice.
abbrev pub Distinct : List ℕ → Type 0
Distinct [] = Unit
Distinct (x ∷ xs) = (contains xs x ≡ false) × Distinct xs

contains-fresh_ids :
    (seen ids : List ℕ) (a : ℕ)
    → contains (fresh_ids seen ids) a ≡ (if contains seen a then false else contains ids a)
unfolding fresh_ids contains
contains-fresh_ids seen [] a = ground arith
contains-fresh_ids seen (i ∷ ids) a = elim (Bool-cases (contains seen i)) [
  | inl old ↦ rw (old, fresh_ids) (contains-fresh_ids seen ids a ∙ ground (arith, ==_iff i a))
  | inr new ↦ rw (new, fresh_ids) (ground (arith, contains-fresh_ids (i ∷ seen) ids a, ==_iff i a))
]

fresh_ids-Distinct : (seen ids : List ℕ) → Distinct (fresh_ids seen ids)
unfolding fresh_ids contains
fresh_ids-Distinct seen [] = tt
fresh_ids-Distinct seen (i ∷ ids) = elim (Bool-cases (contains seen i)) [
  | inl old ↦ rw (old, fresh_ids) (fresh_ids-Distinct seen ids)
  | inr new ↦
      rw (new, fresh_ids)
        (
          ground (arith, contains-fresh_ids (i ∷ seen) ids i, ==_iff i i),
          fresh_ids-Distinct (i ∷ seen) ids,
        )
]

length-fresh_ids : (seen ids : List ℕ) → length (fresh_ids seen ids) ≤ length ids
unfolding fresh_ids
length-fresh_ids seen [] = omega arith
length-fresh_ids seen (i ∷ ids) = elim (Bool-cases (contains seen i)) [
  | inl old ↦ rw (old, fresh_ids) (omega (arith, length-fresh_ids seen ids))
  | inr new ↦ rw (new, fresh_ids) (omega (arith, length-fresh_ids (i ∷ seen) ids))
]

-- The result has no id twice, and the ids that it has are those of the argument.
pub deduplicate_ids_lem :
    (ids : List ℕ)
    → Distinct (deduplicate_ids ids) × ((a : ℕ) → contains (deduplicate_ids ids) a ≡ contains ids a)
unfolding deduplicate_ids contains
deduplicate_ids_lem ids = (fresh_ids-Distinct [] ids, λ a. contains-fresh_ids [] ids a)

-- Nothing is dropped where the ids are distinct and none was met before, and only there.
abbrev Unmet : List ℕ → List ℕ → Type 0
Unmet seen [] = Unit
Unmet seen (i ∷ ids) = (contains seen i ≡ false) × Unmet seen ids

Unmet-cons :
    (i : ℕ) (seen ids : List ℕ) → contains ids i ≡ false → Unmet seen ids → Unmet (i ∷ seen) ids
unfolding contains
Unmet-cons i seen [] new u = tt
Unmet-cons i seen (j ∷ ids) new u =
    (ground (arith, u.0, ==_iff j i, ==_iff i j), Unmet-cons i seen ids (ground arith) u.1)

fresh_ids-eq : (seen ids : List ℕ) → Unmet seen ids → Distinct ids → fresh_ids seen ids ≡ ids
unfolding fresh_ids
fresh_ids-eq seen [] u d = refl
fresh_ids-eq seen (i ∷ ids) u d =
    rw (u.0, fresh_ids)
      (ap (λ l. i ∷ l) (fresh_ids-eq (i ∷ seen) ids (Unmet-cons i seen ids d.0 u.1) d.1))

Unmet-nil : (ids : List ℕ) → Unmet [] ids
unfolding contains
Unmet-nil [] = tt
Unmet-nil (i ∷ ids) = (refl, Unmet-nil ids)

fresh_ids-old :
    (seen ids : List ℕ) (i : ℕ)
    → contains seen i ≡ true
    → fresh_ids seen (i ∷ ids) ≡ fresh_ids seen ids
unfolding fresh_ids
fresh_ids-old seen ids i old = rw (old, fresh_ids)

fresh_ids-new :
    (seen ids : List ℕ) (i : ℕ)
    → contains seen i ≡ false
    → fresh_ids seen (i ∷ ids) ≡ i ∷ fresh_ids (i ∷ seen) ids
unfolding fresh_ids
fresh_ids-new seen ids i new = rw (new, fresh_ids)

fresh_ids-whole :
    (seen ids : List ℕ) → length (fresh_ids seen ids) ≡ length ids → fresh_ids seen ids ≡ ids
fresh_ids-whole seen [] e = fresh_ids-eq seen [] tt tt
fresh_ids-whole seen (i ∷ ids) e = elim (Bool-cases (contains seen i)) [
  | inl old ↦
      absurd (omega (arith, length-fresh_ids seen ids, ap length (fresh_ids-old seen ids i old)))
  | inr new ↦
      let kept = fresh_ids-new seen ids i new in
      kept ∙ ap (λ l. i ∷ l) (fresh_ids-whole (i ∷ seen) ids (omega (arith, ap length kept)))
]

-- The length is kept exactly where no id stands twice.
pub length-deduplicate_ids :
    (ids : List ℕ) → (length (deduplicate_ids ids) ≡ length ids) ↔ Distinct ids
unfolding deduplicate_ids
length-deduplicate_ids ids = (
  λ e. subst Distinct (fresh_ids-whole [] ids e) (fresh_ids-Distinct [] ids),
  λ d. ap length (fresh_ids-eq [] ids (Unmet-nil ids) d),
)
