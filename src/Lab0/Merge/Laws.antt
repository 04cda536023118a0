-- ===== src/Lab0/Merge/Laws.antt =====
-- lab0/merge_channels.go, `MergeChannels`: what is written once `out` is closed.
use cpsc.Common.{
  ◌≡◌, refl, ap, sym, ◌∙◌, subst, true, Option, none, some, List, [], ◌∷◌, ◌++◌, append_assoc,
  append-nil,
}
use cpsc.Lab0.Merge.{
  Phase, reading, holding, finished, Reader, Merger, merge_channels, read_from, Step, on_a, on_b,
  on_close, Run, here, next,
}

-- The third list has the elements of the first two, and those of each in their order.
pub data Interleaved {ℓ} {T : Type ℓ} : List T → List T → List T → Type ℓ where
  both_done : Interleaved [] [] []
  from_a : {v : T} {xs ys vs : List T} → Interleaved xs ys vs → Interleaved (v ∷ xs) ys (v ∷ vs)
  from_b : {v : T} {xs ys vs : List T} → Interleaved xs ys vs → Interleaved xs (v ∷ ys) (v ∷ vs)

module _ {ℓ} {T : Type ℓ} where
  all_a : (ws : List T) → Interleaved ws [] ws
  all_a [] = both_done
  all_a (w ∷ ws) = from_a (all_a ws)

  all_b : (ws : List T) → Interleaved [] ws ws
  all_b [] = both_done
  all_b (w ∷ ws) = from_b (all_b ws)

  pub append_a :
      (ws xs ys vs : List T) → Interleaved xs ys vs → Interleaved (xs ++ ws) ys (vs ++ ws)
  append_a ws _ _ _ both_done = all_a ws
  append_a ws (_ ∷ xs) ys (_ ∷ vs) (from_a i) = from_a (append_a ws xs ys vs i)
  append_a ws xs (_ ∷ ys) (_ ∷ vs) (from_b i) = from_b (append_a ws xs ys vs i)

  pub append_b :
      (ws xs ys vs : List T) → Interleaved xs ys vs → Interleaved xs (ys ++ ws) (vs ++ ws)
  append_b ws _ _ _ both_done = all_b ws
  append_b ws (_ ∷ xs) ys (_ ∷ vs) (from_a i) = from_a (append_b ws xs ys vs i)
  append_b ws xs (_ ∷ ys) (_ ∷ vs) (from_b i) = from_b (append_b ws xs ys vs i)

  -- The values that a goroutine has not written.
  abbrev remaining : List T → Phase T → List T
  remaining vs reading = vs
  remaining vs (holding v) = v ∷ vs
  remaining vs finished = vs

  -- A goroutine that has returned has read all.
  abbrev IsDrained : List T → Phase T → Type ℓ
  IsDrained input phase = phase ≡ finished → input ≡ []

  -- A step writes the values that it takes from those that remain.
  abbrev Writes : List T → Phase T → Option (Reader T × List T) → Type ℓ
  Writes input phase none = phase ≡ finished
  Writes input phase (some r) =
      (remaining input phase ≡ r.1 ++ remaining r.0.input r.0.phase) × IsDrained r.0.input r.0.phase

  read_from-Writes : (input : List T) (phase : Phase T) → Writes input phase (read_from input phase)
  unfolding read_from
  read_from-Writes [] reading = (refl, λ e. refl)
  read_from-Writes (v ∷ input) reading = (refl, λ e. cc)
  read_from-Writes input (holding v) = (refl, λ e. cc)
  read_from-Writes input finished = refl

  -- The lists that the two goroutines have written, and what is in `out`.
  abbrev IsMerge : List T → List T → Merger T → Type ℓ
  IsMerge xs ys m =
      (written_a written_b : List T) × (xs ≡ written_a ++ remaining m.a.input m.a.phase)
      × (ys ≡ written_b ++ remaining m.b.input m.b.phase)
      × Interleaved written_a written_b m.out
      × IsDrained m.a.input m.a.phase
      × IsDrained m.b.input m.b.phase
      × (m.closed ≡ true → (m.a.phase ≡ finished) × (m.b.phase ≡ finished))

  finished-none :
      (input : List T) (phase : Phase T) → phase ≡ finished → read_from input phase ≡ none
  unfolding read_from
  finished-none input reading e = cc
  finished-none input (holding v) e = cc
  finished-none input finished e = refl

  Step-IsMerge : (xs ys : List T) (m n : Merger T) → Step m n → IsMerge xs ys m → IsMerge xs ys n
  Step-IsMerge xs ys m n (on_a {r = r} {vs = vs} e) (wa, wb, ea, eb, i, da, db, c) =
      let (left, drained) =
        subst (Writes m.a.input m.a.phase) e (read_from-Writes m.a.input m.a.phase) in
      (
        wa ++ vs,
        wb,
        ea ∙ ap (λ l. wa ++ l) left ∙ sym (append_assoc wa vs (remaining r.input r.phase)),
        eb,
        append_a vs wa wb m.out i,
        drained,
        db,
        λ closed. (let stuck = sym (finished-none m.a.input m.a.phase (c closed).0) ∙ e in cc),
      )
  Step-IsMerge xs ys m n (on_b {r = r} {vs = vs} e) (wa, wb, ea, eb, i, da, db, c) =
      let (left, drained) =
        subst (Writes m.b.input m.b.phase) e (read_from-Writes m.b.input m.b.phase) in
      (
        wa,
        wb ++ vs,
        ea,
        eb ∙ ap (λ l. wb ++ l) left ∙ sym (append_assoc wb vs (remaining r.input r.phase)),
        append_b vs wa wb m.out i,
        da,
        drained,
        λ closed. (let stuck = sym (finished-none m.b.input m.b.phase (c closed).1) ∙ e in cc),
      )
  Step-IsMerge xs ys m n (on_close fa fb open_out) (wa, wb, ea, eb, i, da, db, c) =
      (wa, wb, ea, eb, i, da, db, λ closed. (fa, fb))

  Run-IsMerge : (xs ys : List T) (m n : Merger T) → Run m n → IsMerge xs ys m → IsMerge xs ys n
  Run-IsMerge xs ys m n here h = h
  Run-IsMerge xs ys m n (next {m = l} step run) h =
      Run-IsMerge xs ys l n run (Step-IsMerge xs ys m l step h)

  drained-whole :
      (xs written input : List T) (phase : Phase T)
      → xs ≡ written ++ remaining input phase
      → IsDrained input phase
      → phase ≡ finished
      → xs ≡ written
  drained-whole xs written input reading e d f = cc
  drained-whole xs written input (holding v) e d f = cc
  drained-whole xs written input finished e d f =
      e ∙ ap (λ l. written ++ l) (d refl) ∙ append-nil written

  -- In every interleaving of the goroutines: once `out` is closed, it was written all values of both
  -- channels and nothing else, those of each channel in their order.
  pub Run-Interleaved :
      (xs ys : List T) (m : Merger T)
      → Run (merge_channels xs ys) m
      → m.closed ≡ true
      → Interleaved xs ys m.out
  unfolding merge_channels
  Run-Interleaved xs ys m run closed =
      let (wa, wb, ea, eb, i, da, db, c) =
        Run-IsMerge xs ys (merge_channels xs ys) m run
          ([], [], refl, refl, both_done, λ e. cc, λ e. cc, λ e. cc) in
      rw
        (
          drained-whole xs wa m.a.input m.a.phase ea da (c closed).0,
          drained-whole ys wb m.b.input m.b.phase eb db (c closed).1,
        )
        i
