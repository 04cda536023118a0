-- ===== src/Lab0/Merge.antt =====
-- lab0/merge_channels.go, `MergeChannels`: two goroutines read one channel each and write to `out`,
-- and a third one closes `out` once both have returned. A channel that is read is the list of the
-- values still to come, after which it is closed; a write to `out` waits for a receiver, which may
-- come at any time.
pub mod Laws
use cpsc.Common.{◌≡◌, Bool, true, false, Option, none, some, List, [], ◌∷◌, ◌++◌}

-- Where a goroutine is: before a receive, with a value to write, or returned.
pub data Phase {ℓ} (T : Type ℓ) : Type ℓ where
  reading : Phase T
  holding : T → Phase T
  finished : Phase T

pub record Reader {ℓ} (T : Type ℓ) : Type ℓ where
  pub input : List T
  pub phase : Phase T

-- `out` is what was written, the first value first.
pub record Merger {ℓ} (T : Type ℓ) : Type ℓ where
  pub a : Reader T
  pub b : Reader T
  pub out : List T
  pub closed : Bool

module _ {ℓ} {T : Type ℓ} where
  -- `MergeChannels`, once the goroutines are started.
  unfoldable pub merge_channels : (a b : List T) → Merger T
  merge_channels a b = record {
    a = record { input = a; phase = reading };
    b = record { input = b; phase = reading };
    out = [];
    closed = false;
  }

  -- `readFrom`, a step: the goroutine and what it writes, if it can make one.
  unfoldable pub read_from : (input : List T) → Phase T → Option (Reader T × List T)
  read_from [] reading = some (record { input = []; phase = finished }, [])
  read_from (v ∷ vs) reading = some (record { input = vs; phase = holding v }, [])
  read_from vs (holding v) = some (record { input = vs; phase = reading }, v ∷ [])
  read_from vs finished = none

  -- A step of one of the goroutines.
  pub data Step : Merger T → Merger T → Type ℓ where
    on_a :
        {m : Merger T} {r : Reader T} {vs : List T}
        → read_from m.a.input m.a.phase ≡ some (r, vs)
        → Step m (record m { a = r; out = m.out ++ vs })
    on_b :
        {m : Merger T} {r : Reader T} {vs : List T}
        → read_from m.b.input m.b.phase ≡ some (r, vs)
        → Step m (record m { b = r; out = m.out ++ vs })
    on_close :
        {m : Merger T}
        → m.a.phase ≡ finished
        → m.b.phase ≡ finished
        → m.closed ≡ false
        → Step m (record m { closed = true })

  pub data Run : Merger T → Merger T → Type ℓ where
    here : {m : Merger T} → Run m m
    next : {l m n : Merger T} → Step l m → Run m n → Run l n
