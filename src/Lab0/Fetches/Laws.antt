-- ===== src/Lab0/Fetches/Laws.antt =====
-- lab0/merge_channels.go: `MergeFetches` does what `MergeChannels` does on channels that have the
-- fetched data.
use cpsc.Common.{◌≡◌, refl, sym, ◌∙◌, ap, true, Option, none, some, List, [], ◌∷◌, ◌++◌, subst}
use cpsc.Lab0.Merge
use cpsc.Lab0.Merge.{Phase, reading, holding, finished, merge_channels, read_from}
use cpsc.Lab0.Merge.Laws.{Interleaved, Run-Interleaved}
use cpsc.Lab0.Fetches.{
  Fetch, Reader, Merger, merge_fetches, fetch_from, Step, on_a, on_b, on_close, Run, here, next,
}

-- From `s` on, a fetcher returns the data `vs` and then false.
pub data Fetches {ℓ} {S T : Type ℓ} (fetch : Fetch S T) : S → List T → Type ℓ where
  ends : {s : S} → fetch s ≡ none → Fetches fetch s []
  gives :
      {s s' : S} {v : T} {vs : List T}
      → fetch s ≡ some (v, s')
      → Fetches fetch s' vs
      → Fetches fetch s (v ∷ vs)

module _ {ℓ} {S T : Type ℓ} where
  -- A goroutine with a fetcher, and one with a channel that has what the fetcher returns.
  abbrev Alike : Fetch S T → Reader S T → Merge.Reader T → Type ℓ
  Alike fetch f r = (f.phase ≡ r.phase) × Fetches fetch f.source r.input

  -- What a step of `fetchFrom` does, a step of `readFrom` does.
  abbrev IsRead : Fetch S T → List T → Phase T → Option (Reader S T × List T) → Type ℓ
  IsRead fetch vs phase none = Unit
  IsRead fetch vs phase (some (f, ws)) =
      (r : Merge.Reader T) × (read_from vs phase ≡ some (r, ws)) × Alike fetch f r

  fetch_from-IsRead :
      (fetch : Fetch S T) (s : S) (vs : List T) (phase : Phase T)
      → Fetches fetch s vs
      → IsRead fetch vs phase (fetch_from fetch s phase)
  unfolding fetch_from read_from
  fetch_from-IsRead fetch s _ reading (ends e) = rw (e, fetch_from) (_, refl, (refl, ends e))
  fetch_from-IsRead fetch s _ reading (gives e rest) = rw (e, fetch_from) (_, refl, (refl, rest))
  fetch_from-IsRead fetch s _ (holding v) (ends e) = (_, refl, (refl, ends e))
  fetch_from-IsRead fetch s _ (holding v) (gives e rest) = (_, refl, (refl, gives e rest))
  fetch_from-IsRead fetch s vs finished h = tt

module _ {ℓ} {S T : Type ℓ} (fetch_a fetch_b : Fetch S T) where
  abbrev Simulates : Merger S T → Merge.Merger T → Type ℓ
  Simulates m n =
      Alike fetch_a m.a n.a × Alike fetch_b m.b n.b × (m.out ≡ n.out) × (m.closed ≡ n.closed)

  Step-Simulates :
      (m m' : Merger S T) (n : Merge.Merger T)
      → Step fetch_a fetch_b m m'
      → Simulates m n
      → (n' : Merge.Merger T) × Merge.Step n n' × Simulates m' n'
  Step-Simulates m _ n (on_a {r = r} {vs = vs} e) ((phase, left), b, out, closed) =
      let (c, moved, alike) =
        subst (IsRead fetch_a n.a.input m.a.phase) e
          (fetch_from-IsRead fetch_a m.a.source n.a.input m.a.phase left) in
      (
        record n { a = c; out = n.out ++ vs },
        Merge.on_a (ap (λ p. read_from n.a.input p) (sym phase) ∙ moved),
        (alike, b, ap (λ l. l ++ vs) out, closed),
      )
  Step-Simulates m _ n (on_b {r = r} {vs = vs} e) (a, (phase, left), out, closed) =
      let (c, moved, alike) =
        subst (IsRead fetch_b n.b.input m.b.phase) e
          (fetch_from-IsRead fetch_b m.b.source n.b.input m.b.phase left) in
      (
        record n { b = c; out = n.out ++ vs },
        Merge.on_b (ap (λ p. read_from n.b.input p) (sym phase) ∙ moved),
        (a, alike, ap (λ l. l ++ vs) out, closed),
      )
  Step-Simulates m _ n (on_close fa fb open_out) (a, b, out, closed) =
      (_, Merge.on_close (sym a.0 ∙ fa) (sym b.0 ∙ fb) (sym closed ∙ open_out), (a, b, out, refl))

  Run-Simulates :
      (m m' : Merger S T) (n : Merge.Merger T)
      → Run fetch_a fetch_b m m'
      → Simulates m n
      → (n' : Merge.Merger T) × Merge.Run n n' × Simulates m' n'
  Run-Simulates m _ n here h = (n, Merge.here, h)
  Run-Simulates m m' n (next {m = l} step run) h =
      let (n1, step', h1) = Step-Simulates m l n step h in
      let (n', run', h') = Run-Simulates l m' n1 run h1 in (n', Merge.next step' run', h')

  -- Every run of `MergeFetches` on fetchers that return the data `xs` and `ys` is one of
  -- `MergeChannels` on channels that have `xs` and `ys`, with the same output; so once `out` is closed
  -- it was written all the data, that of each fetcher in its order.
  pub merge_fetches-merge_channels :
      (a b : S) (xs ys : List T) (m : Merger S T)
      → Fetches fetch_a a xs
      → Fetches fetch_b b ys
      → Run fetch_a fetch_b (merge_fetches a b) m
      → ((n : Merge.Merger T) × Merge.Run (merge_channels xs ys) n
          × (m.out ≡ n.out)
          × (m.closed ≡ n.closed))
        × (m.closed ≡ true → Interleaved xs ys m.out)
  unfolding merge_fetches merge_channels
  merge_fetches-merge_channels a b xs ys m fa fb run =
      let (n, run', (alike_a, alike_b, out, closed)) =
        Run-Simulates (merge_fetches a b) m (merge_channels xs ys) run
          ((refl, fa), (refl, fb), refl, refl) in
      ((n, run', out, closed), λ e. rw out (Run-Interleaved xs ys n run' (sym closed ∙ e)))
