-- ===== src/VideoRec/Cache.antt =====
-- lab2/video_rec_service/server_lib/server_lib.go: the cache of trending videos, `UpdateCache`. The
-- replies of the video service and the order of the goroutines are those of the environment.
pub mod Laws
pub mod Same
use cpsc.Common.{
  ℕ, zero, suc, ◌+◌, true, Option, none, some, List, [], ◌∷◌, if◌then◌else◌, ◌==◌, ltb,
}
use cpsc.Common.Outcome.{Outcome, ok, panic}
use cpsc.Services.Rpc.{Reply, value, failure, RpcError, grpc, unavailable, literal, VideoInfo}
use cpsc.Services.Video.{Trending}
use cpsc.VideoRec.State.{Options, Server, add64, add_total_error, add_video_errors}
use cpsc.VideoRec.Batches.{retry}
use cpsc.VideoRec.Gather.{Order, Gathered, gather}
use cpsc.VideoRec.TopVideos.{video_call_format}

-- The replies of the video service to each attempt, and to those of goroutine `i`.
pub record Source : Type 0 where
  pub trending : (attempt : ℕ) → Reply Trending
  pub videos : (i attempt : ℕ) → List ℕ → Reply (List VideoInfo)

-- The loop over the channel: the first error in it.
unfoldable pub any_error : List (Option RpcError) → Option RpcError
any_error [] = none
any_error (none ∷ es) = any_error es
any_error (some e ∷ es) = some e

-- The goroutines that count an error of the server each.
unfoldable pub failures : List (Option RpcError) → ℕ
failures [] = 0
failures (none ∷ es) = failures es
failures (some e ∷ es) = failures es + 1

-- The goroutines are those of `GetTopVideos` where fallback is disabled.
abbrev pub gathered_trending :
    Source → Order → (max_batch_size : ℕ) → List ℕ → Options → Gathered VideoInfo
gathered_trending source order m ids o =
    gather (record o { disable_fallback = true }) [] video_call_format m ids source.videos order

-- `server.TrendingCache == nil && videosInfo != nil`
unfoldable pub fill_empty : List VideoInfo → Server → Server
fill_empty infos s = elim s.trending_cache [
  | [] ↦ record s { trending_cache = infos }
  | v ∷ vids ↦ s
]

-- What is behind the loop over the channel.
unfoldable pub replace_cache : (expiration : ℕ) → List VideoInfo → Server → Server
replace_cache expiration infos s =
    if ltb s.cache_expiration_time expiration
    then record s { trending_cache = infos; cache_expiration_time = expiration }
    else s

-- From the loop over the channel on.
unfoldable pub store : (expiration : ℕ) → Gathered VideoInfo → Server → Server × Option RpcError
store expiration g s = elim (any_error g.replies) [
  | some e ↦ (fill_empty g.items s, some e)
  | none ↦ (replace_cache expiration g.items s, none)
]

abbrev add_total_errors : ℕ → Server → Server
add_total_errors n s = record s { total_errors = add64 s.total_errors n }

abbrev pub no_trending : RpcError
no_trending = grpc unavailable (literal "fail to fetch video ids for trending videos")

-- The counters of the goroutines.
abbrev pub counted : Gathered VideoInfo → Server → Server
counted g s = add_total_errors (failures g.replies) (add_video_errors g.errors s)

-- Once the ids are there. A division by a batch size of 0 panics.
unfoldable pub fetch_trending :
    Source → Order → (max_batch_size : ℕ) → Trending → Server → Outcome (Server × Option RpcError)
fetch_trending source order m trending s =
    if m == 0
    then panic
    else (let g = gathered_trending source order m trending.videos s.options in
        ok (store trending.expiration_time_s g (counted g s)))

-- `UpdateCache`
unfoldable pub update_cache :
    Source → Order → (max_batch_size : ℕ) → Server → Outcome (Server × Option RpcError)
update_cache source order m s =
    let r = retry s.options.disable_retry source.trending in
    elim r.1 [
      | failure e ↦ ok (add_total_error (add_video_errors r.0 s), some no_trending)
      | value trending ↦ fetch_trending source order m trending (add_video_errors r.0 s)
    ]
