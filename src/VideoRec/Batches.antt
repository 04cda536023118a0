-- ===== src/VideoRec/Batches.antt =====
-- lab2/video_rec_service/server_lib/server_lib.go: a list of ids goes to a service in batches of at
-- most `m`, one goroutine for each: `len/m` full ones, and one for what is left, if anything is.
use cpsc.Common.{
  ℕ, zero, suc, ◌+◌, ◌-◌, ◌*◌, ◌/◌, ◌%◌, ◌≤◌, ◌<◌, ◌≡◌, ◌≢◌, ap, sym, ◌∙◌, subst, Bool, true, false,
  not, Option, none, some, List, [], ◌∷◌, arith, length, take, drop, ◌==◌, Bool-cases,
  if◌then◌else◌, inl, inr, length-take, take-append-drop, drop-nil, flat_map, drop-drop,
  length-drop, ℕ_discrete, dec_lt, append-nil,
}
use native.Mathlib.Nat.{div-add-mod', mod-lt}
use cpsc.Services.Rpc.{Reply, value, failure, Reply-cases}

-- `ids[lo:hi]`
unfoldable pub slice : (lo hi : ℕ) → List ℕ → List ℕ
slice lo hi ids = take (hi - lo) (drop lo ids)

-- What goroutine `i` of `len/m + 1` asks for; the last one asks for nothing where nothing is left.
unfoldable pub batch : (m : ℕ) → List ℕ → (i : ℕ) → Option (List ℕ)
unfolding slice
batch m ids i =
    if i == length ids / m
    then if not (length ids % m == 0) then some (drop (i * m) ids) else none
    else some (slice (i * m) ((i + 1) * m) ids)

-- A call and, where that is allowed, a second one: the number of errors and the last reply. `call`
-- is the reply to each attempt.
unfoldable pub retry {ℓ} : {A : Type ℓ} → (disable_retry : Bool) → (ℕ → Reply A) → ℕ × Reply A
retry disable_retry call = elim (call 0) [
  | value a ↦ (0, value a)
  | failure e ↦
      if disable_retry
      then (1, failure e)
      else elim (call 1) [ value a ↦ (1, value a) | failure e' ↦ (2, failure e') ]
]

-- What holds of every reply to a call holds of the reply that is left.
pub retry-value {ℓ κ} :
    {A : Type ℓ} (disable_retry : Bool) (call : ℕ → Reply A) (P : A → Type κ)
    → ((t : ℕ) (a : A) → call t ≡ value a → P a)
    → (a : A) → (retry disable_retry call).1 ≡ value a
    → P a
unfolding retry
retry-value disable_retry call P all a e = elim (Reply-cases (call 0)) [
  | inl (x, first) ↦ all 0 a (first ∙ rw (first, retry) at e)
  | inr (x, bad) ↦ elim (Bool-cases disable_retry) [
    | inl once ↦ let left : failure x ≡ value a = rw (bad, once, retry) at e in cc
    | inr again ↦ elim (Reply-cases (call 1)) [
      | inl (y, second) ↦ all 1 a (second ∙ rw (bad, again, second, retry) at e)
      | inr (y, worse) ↦ let left : failure y ≡ value a = rw (bad, again, worse, retry) at e in cc
    ]
  ]
]

abbrev pub ids_of : Option (List ℕ) → List ℕ
ids_of none = []
ids_of (some b) = b

-- The ids that goroutine `i` asks for.
abbrev pub asked : (m : ℕ) → List ℕ → (i : ℕ) → List ℕ
asked m ids i = ids_of (batch m ids i)

-- The goroutines from `i` on, `k` of them.
abbrev pub indices : (i k : ℕ) → List ℕ
indices i zero = []
indices i (suc k) = i ∷ indices (suc i) k

module _ (m : ℕ) (ids : List ℕ) where
  pub batch-full : (i : ℕ) → i < length ids / m → batch m ids i ≡ some (take m (drop (i * m) ids))
  unfolding batch slice
  batch-full i lt =
      let differs : (i == length ids / m) ≡ false = ground arith in
      let width : (i + 1) * m - i * m ≡ m = omega arith in
      rw differs (ap (λ k. some (take k (drop (i * m) ids))) width)

  pub batch-last :
      length ids % m ≢ 0 → batch m ids (length ids / m) ≡ some (drop (length ids / m * m) ids)
  unfolding batch
  batch-last left =
      let here : (length ids / m == length ids / m) ≡ true = ground arith in
      let test : (length ids % m == 0) ≡ false = ground arith in rw (here, test)

  pub batch-none : length ids % m ≡ 0 → batch m ids (length ids / m) ≡ none
  unfolding batch
  batch-none left =
      let here : (length ids / m == length ids / m) ≡ true = ground arith in
      let test : (length ids % m == 0) ≡ true = ground arith in rw (here, test)

  -- What is behind the full batches is fewer ids than `m`.
  left_over : 0 < m → length ids ≡ length ids / m * m + length ids % m
  left_over pos = sym (div-add-mod' (length ids) m)

  asked-last : 0 < m → asked m ids (length ids / m) ≡ drop (length ids / m * m) ids
  asked-last pos = elim (ℕ_discrete (length ids % m) 0) [
    | yes e ↦
        ap ids_of (batch-none e)
        ∙ sym (drop-nil (length ids / m * m) ids (omega (arith, left_over pos)))
    | no e ↦ ap ids_of (batch-last e)
  ]

  asked_from :
      (k i : ℕ)
      → 0 < m
      → i + k ≡ length ids / m
      → flat_map (asked m ids) (indices i (suc k)) ≡ drop (i * m) ids
  asked_from zero i pos e =
      let here : i ≡ length ids / m = omega arith in
      append-nil (asked m ids i)
      ∙ subst (λ n. asked m ids n ≡ drop (n * m) ids) (sym here) (asked-last pos)
  asked_from (suc k) i pos e =
      let next : i * m + m ≡ suc i * m = omega arith in
      rw
        (
          batch-full i (omega arith),
          asked_from k (suc i) pos (omega arith),
          ← next,
          ← drop-drop (i * m) m ids,
        )
        (take-append-drop m (drop (i * m) ids))

  -- The batches of all goroutines, in the order of their numbers, are the ids.
  pub batches-whole : 0 < m → flat_map (asked m ids) (indices 0 (length ids / m + 1)) ≡ ids
  batches-whole pos =
      let count : length ids / m + 1 ≡ suc (length ids / m) = omega arith in
      let start : 0 * m ≡ 0 = omega arith in
      rw count (asked_from (length ids / m) 0 pos (omega arith) ∙ ap (λ n. drop n ids) start)

  -- Each batch has at least one id, and at most `m`.
  pub batch-bounds :
      (i : ℕ) (b : List ℕ)
      → 0 < m
      → i ≤ length ids / m
      → batch m ids i ≡ some b
      → (0 < length b) × (length b ≤ m)
  batch-bounds i b pos le e = elim (dec_lt i (length ids / m)) [
    | yes lt ↦
        let same : some b ≡ some (take m (drop (i * m) ids)) = sym e ∙ batch-full i lt in
        let b_is : b ≡ take m (drop (i * m) ids) = ground arith in
        let room : (i + 1) * m ≤ length ids / m * m = grind arith in
        omega (
          arith,
          room,
          left_over pos,
          ap length b_is,
          length-take m (drop (i * m) ids),
          length-drop (i * m) ids,
        )
    | no last ↦ last_bounds (omega arith)
  ]
    where
      last_bounds : i ≡ length ids / m → (0 < length b) × (length b ≤ m)
      last_bounds here =
          let at : batch m ids (length ids / m) ≡ some b = ap (batch m ids) (sym here) ∙ e in
          elim (ℕ_discrete (length ids % m) 0) [
            | yes nothing ↦ let gone : none ≡ some b = sym (batch-none nothing) ∙ at in cc
            | no left ↦
                let same : some b ≡ some (drop (length ids / m * m) ids) =
                  sym at ∙ batch-last left in
                let b_is : b ≡ drop (length ids / m * m) ids = ground arith in
                omega (
                  arith,
                  left_over pos,
                  ap length b_is,
                  length-drop (length ids / m * m) ids,
                  mod-lt (length ids) pos,
                )
          ]
