-- ===== src/Lab0/Fetches.antt =====
-- lab0/merge_channels.go, `MergeFetches`: as `MergeChannels`, but the two goroutines call `Fetch` of a
-- fetcher each until it returns false. The fetchers are parameters: the data that a call returns, or
-- none for false, and the fetcher after it.
pub mod Laws
use cpsc.Common.{◌≡◌, Bool, true, false, Option, none, some, List, [], ◌∷◌, ◌++◌}
use cpsc.Lab0.Merge.{Phase, reading, holding, finished}

-- What `Fetch` of a fetcher returns.
abbrev pub Fetch {ℓ} : (S T : Type ℓ) → Type ℓ
Fetch S T = S → Option (T × S)

pub record Reader {ℓ} (S T : Type ℓ) : Type ℓ where
  pub source : S
  pub phase : Phase T

pub record Merger {ℓ} (S T : Type ℓ) : Type ℓ where
  pub a : Reader S T
  pub b : Reader S T
  pub out : List T
  pub closed : Bool

module _ {ℓ} {S T : Type ℓ} where
  -- `MergeFetches`, once the goroutines are started.
  unfoldable pub merge_fetches : (a b : S) → Merger S T
  merge_fetches a b = record {
    a = record { source = a; phase = reading };
    b = record { source = b; phase = reading };
    out = [];
    closed = false;
  }

  -- `fetchFrom`, a step: the goroutine and what it writes, if it can make one.
  unfoldable pub fetch_from : Fetch S T → S → Phase T → Option (Reader S T × List T)
  fetch_from fetch s reading = elim (fetch s) [
    | none ↦ some (record { source = s; phase = finished }, [])
    | some (v, s') ↦ some (record { source = s'; phase = holding v }, [])
  ]
  fetch_from fetch s (holding v) = some (record { source = s; phase = reading }, v ∷ [])
  fetch_from fetch s finished = none

module _ {ℓ} {S T : Type ℓ} (fetch_a fetch_b : Fetch S T) where
  pub data Step : Merger S T → Merger S T → Type ℓ where
    on_a :
        {m : Merger S T} {r : Reader S T} {vs : List T}
        → fetch_from fetch_a m.a.source m.a.phase ≡ some (r, vs)
        → Step m (record m { a = r; out = m.out ++ vs })
    on_b :
        {m : Merger S T} {r : Reader S T} {vs : List T}
        → fetch_from fetch_b m.b.source m.b.phase ≡ some (r, vs)
        → Step m (record m { b = r; out = m.out ++ vs })
    on_close :
        {m : Merger S T}
        → m.a.phase ≡ finished
        → m.b.phase ≡ finished
        → m.closed ≡ false
        → Step m (record m { closed = true })

  pub data Run : Merger S T → Merger S T → Type ℓ where
    here : {m : Merger S T} → Run m m
    next : {l m n : Merger S T} → Step l m → Run m n → Run l n
