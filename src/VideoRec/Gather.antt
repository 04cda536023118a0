-- ===== src/VideoRec/Gather.antt =====
-- lab2/video_rec_service/server_lib/server_lib.go, `GetTopVideos`: one goroutine for each batch of
-- ids, and what the handler finds in the shared slice and in the two channels once all have ended.
pub mod Laws
use cpsc.Common.{ℕ, ◌+◌, Option, none, some, List, [], ◌∷◌, flat_map, if◌then◌else◌}
use Prim.Native.String.{String}
use cpsc.Services.Rpc.{Reply, value, failure, RpcError, grpc, unavailable, wrapping, VideoInfo}
use cpsc.VideoRec.State.{Options}
use cpsc.VideoRec.Batches.{batch, retry}

-- How a goroutine ends: it appends what it got and sends nil, it sends the cached videos, it sends
-- nothing, or it sends an error.
pub data BatchEnd {ℓ} (A : Type ℓ) : Type ℓ where
  got : List A → BatchEnd A
  stale : List VideoInfo → BatchEnd A
  silent : BatchEnd A
  failed : RpcError → BatchEnd A

-- The order in which the goroutines append, and the order in which they send.
pub record Order : Type 0 where
  pub appends : List ℕ
  pub sends : List ℕ

-- The slice and the channels once all goroutines have ended.
pub record Gathered {ℓ} (A : Type ℓ) : Type ℓ where
  pub errors : ℕ
  pub items : List A
  pub caches : List (List VideoInfo)
  pub replies : List (Option RpcError)

module _ {ℓ} {A : Type ℓ} where
  pub cached_end : List VideoInfo → BatchEnd A
  cached_end [] = silent
  cached_end (v ∷ vids) = stale (v ∷ vids)

  -- The reply that is left after the retry; `cached` is what `GetCachedVideos` gives.
  unfoldable pub batch_end :
      Options → (cached : List VideoInfo) → String → Reply (List A) → BatchEnd A
  unfolding cached_end
  batch_end o cached format (value xs) = got xs
  batch_end o cached format (failure e) =
      if o.disable_fallback
      then failed (grpc unavailable (wrapping format e))
      else cached_end cached

  abbrev pub got_items : BatchEnd A → List A
  got_items (got xs) = xs
  got_items _ = []

  abbrev pub sent_caches : BatchEnd A → List (List VideoInfo)
  sent_caches (stale vids) = vids ∷ []
  sent_caches _ = []

  -- What a goroutine sends on the channel of errors, where `none` is nil.
  abbrev pub sent_replies : BatchEnd A → List (Option RpcError)
  sent_replies (got xs) = none ∷ []
  sent_replies (failed e) = some e ∷ []
  sent_replies _ = []

  -- `call i t b` is the reply to goroutine `i` at attempt `t` for the ids `b`.
  module _ (o : Options) (cached : List VideoInfo) (format : String) (m : ℕ) (ids : List ℕ)
      (call : ℕ → ℕ → List ℕ → Reply (List A)) where
    -- Goroutine `i`: the number of errors that it counts, and its end.
    unfoldable pub run_batch : ℕ → ℕ × BatchEnd A
    run_batch i = elim (batch m ids i) [
      | none ↦ (0, got [])
      | some b ↦
          let r = retry o.disable_retry (λ t. call i t b) in (r.0, batch_end o cached format r.1)
    ]

    unfoldable pub count_errors : List ℕ → ℕ
    count_errors [] = 0
    count_errors (i ∷ order) = (run_batch i).0 + count_errors order

    unfoldable pub gather : Order → Gathered A
    unfolding count_errors
    gather order = record {
      errors = count_errors order.sends;
      items = flat_map (λ i. got_items (run_batch i).1) order.appends;
      caches = flat_map (λ i. sent_caches (run_batch i).1) order.sends;
      replies = flat_map (λ i. sent_replies (run_batch i).1) order.sends;
    }
