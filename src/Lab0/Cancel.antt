-- ===== src/Lab0/Cancel.antt =====
-- lab0/merge_channels.go, `MergeChannelsOrCancel`: two goroutines read one channel each until it is
-- closed or the context is done, and a third one closes `out` and sends the context's error, which the
-- call returns. A channel that is read is the list of the values still to come, after which it may be
-- closed; when they come, when it is closed and when `out` has a receiver is open. The context is done
-- from some moment on, with the error `err`.
pub mod Laws
use cpsc.Common.{◌≡◌, Bool, true, false, Option, none, some, List, [], ◌∷◌, ◌++◌, if◌then◌else◌}

-- Where a goroutine is: at the first `select`, at the second one, with a value to write, or returned.
pub data Phase {ℓ} (T : Type ℓ) : Type ℓ where
  checking : Phase T
  receiving : Phase T
  holding : T → Phase T
  finished : Phase T

pub record Reader {ℓ} (T : Type ℓ) : Type ℓ where
  pub input : List T
  pub phase : Phase T

-- `returned` is what the call has returned, if it has: an error or nil.
pub record Merger {ℓ} (T E : Type ℓ) : Type ℓ where
  pub a : Reader T
  pub b : Reader T
  pub out : List T
  pub closed : Bool
  pub done : Bool
  pub returned : Option (Option E)

-- `ctx.Err()`
abbrev pub context_err {ℓ} : {E : Type ℓ} → E → Bool → Option E
context_err err done = if done then some err else none

module _ {ℓ} {T E : Type ℓ} (err : E) where
  -- `MergeChannelsOrCancel`: it returns at once with a context that is done, and otherwise starts
  -- the goroutines and waits for them.
  unfoldable pub merge_channels_or_cancel : (done : Bool) (a b : List T) → Merger T E
  merge_channels_or_cancel true a b = record {
    a = record { input = a; phase = finished };
    b = record { input = b; phase = finished };
    out = [];
    closed = true;
    done = true;
    returned = some (some err);
  }
  merge_channels_or_cancel false a b = record {
    a = record { input = a; phase = checking };
    b = record { input = b; phase = checking };
    out = [];
    closed = false;
    done = false;
    returned = none;
  }

-- `readFrom`, a step: the goroutine and what it writes, if it can make one. `ready` says whether the
-- channel operation can go ahead now: at the second `select`, whether the channel has a value or is
-- closed, and at the write, whether `out` has a receiver. `quits` says which case the second `select`
-- takes where the context is done and the channel is ready.
unfoldable pub read_from {ℓ} :
    {T : Type ℓ} → (done quits ready : Bool) → List T → Phase T → Option (Reader T × List T)
read_from true quits ready input checking = some (record { input = input; phase = finished }, [])
read_from false quits ready input checking = some (record { input = input; phase = receiving }, [])
read_from true true ready input receiving = some (record { input = input; phase = finished }, [])
read_from true false false input receiving = some (record { input = input; phase = finished }, [])
read_from false quits false input receiving = none
read_from done quits true [] receiving = some (record { input = []; phase = finished }, [])
read_from done quits true (v ∷ vs) receiving = some (record { input = vs; phase = holding v }, [])
read_from done quits false input (holding v) = none
read_from done quits true input (holding v) =
    some (record { input = input; phase = checking }, v ∷ [])
read_from done quits ready input finished = none

module _ {ℓ} {T E : Type ℓ} (err : E) where
  -- A step of one of the goroutines or of the call, or the end of the context.
  pub data Step : Merger T E → Merger T E → Type ℓ where
    on_cancel : {m : Merger T E} → m.done ≡ false → Step m (record m { done = true })
    on_a :
        {m : Merger T E} {r : Reader T} {vs : List T} (quits ready : Bool)
        → read_from m.done quits ready m.a.input m.a.phase ≡ some (r, vs)
        → Step m (record m { a = r; out = m.out ++ vs })
    on_b :
        {m : Merger T E} {r : Reader T} {vs : List T} (quits ready : Bool)
        → read_from m.done quits ready m.b.input m.b.phase ≡ some (r, vs)
        → Step m (record m { b = r; out = m.out ++ vs })
    on_close :
        {m : Merger T E}
        → m.a.phase ≡ finished
        → m.b.phase ≡ finished
        → m.closed ≡ false
        → Step m (record m { closed = true })
    on_return :
        {m : Merger T E}
        → m.closed ≡ true
        → m.returned ≡ none
        → Step m (record m { returned = some (context_err err m.done) })

  pub data Run (l : Merger T E) : Merger T E → Type ℓ where
    here : Run l l
    next : {m n : Merger T E} → Run l m → Step m n → Run l n
