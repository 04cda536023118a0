-- ===== src/VideoRec/TopVideos.antt =====
-- lab2/video_rec_service/server_lib/server_lib.go, the handler `GetTopVideos`. The replies of the two
-- services, the order in which the goroutines append and send, the choice of a `select` with two
-- channels ready, and the latency are those of the environment. The cache of trending videos stays
-- as it is during the request.
pub mod Accounting
pub mod Fresh
pub mod Replies
use cpsc.Common.{
  ℕ, zero, suc, Bool, true, false, Option, none, some, List, [], ◌∷◌, flat_map, if◌then◌else◌, ◌==◌,
}
use cpsc.Common.Int.{ℤ, pos, negsuc}
use cpsc.Common.Outcome.{Outcome, ok, panic, ◌>>=◌}
use Prim.Native.String.{String}
use cpsc.Services.Rpc.{
  Reply, value, failure, RpcError, grpc, plain_error, internal, invalid_argument,
  failed_precondition, literal, UserInfo, VideoInfo, Coefficients,
}
use cpsc.Services.Dedup.{fresh_ids}
use cpsc.VideoRec.State.{
  Server, add_total_error, add_user_errors, add_video_errors, add_stale, enter, leave,
}
use cpsc.VideoRec.Connect.{take_user_client, take_video_client}
use cpsc.VideoRec.Batches.{retry}
use cpsc.VideoRec.Ranking.{rank_videos, get_cached_videos}
use cpsc.VideoRec.Gather.{Order, Gathered, gather}

pub record Request : Type 0 where
  pub user_id : ℕ
  pub limit : ℤ

pub record Response : Type 0 where
  pub videos : List VideoInfo
  pub stale_response : Bool

-- The replies of the services to each attempt: to the call for the subscriber, and to the calls of
-- goroutine `i`.
pub record Backend : Type 0 where
  pub subscriber : (attempt : ℕ) → List ℕ → Reply (List UserInfo)
  pub users : (i attempt : ℕ) → List ℕ → Reply (List UserInfo)
  pub videos : (i attempt : ℕ) → List ℕ → Reply (List VideoInfo)

-- `take_cache` is the choice of the first `select` where a cached list waits and all have ended.
pub record Schedule : Type 0 where
  pub user_order : Order
  pub video_order : Order
  pub take_cache : Bool
  pub latency : ℕ

abbrev pub user_call_format : String
user_call_format = "GetTopVideos: GetUser call failed: %v"

abbrev pub video_call_format : String
video_call_format = "GetTopVideos: GetVideo failed: %v"

-- `status.FromError`
unfoldable pub status_of : RpcError → RpcError
status_of (grpc c m) = grpc c m
status_of (plain_error m) = grpc internal (literal "GetTopVideos: GetUser failed")

module _ (limit : ℕ) where
  -- The cached videos, where fallback is on and there are any, or else the error.
  unfoldable pub fall_back :
      (List VideoInfo → List VideoInfo) → RpcError → Server → Server × Reply Response
  fall_back arrange e s =
      if s.options.disable_fallback
      then (s, failure e)
      else elim (get_cached_videos s.trending_cache limit) [
        | [] ↦ (s, failure e)
        | v ∷ vids ↦
            (add_stale s, value (record { videos = arrange (v ∷ vids); stale_response = true }))
      ]

-- The first reply in the channel of errors.
abbrev pub first_error : List (Option RpcError) → Option RpcError
first_error [] = none
first_error (e ∷ es) = e

-- The loops that collect the ids of the liked videos, each once.
unfoldable pub liked_ids : List UserInfo → List ℕ
liked_ids users = fresh_ids [] (flat_map (λ (u : UserInfo). u.liked_videos) users)

module _ (rank : Coefficients → Coefficients → ℕ) (backend : Backend) (sched : Schedule) (limit : ℕ)
    (user : UserInfo) where
  abbrev pub ranked : List VideoInfo → List VideoInfo
  ranked vids = rank_videos rank user.user_coefficients vids limit

  -- A cached list that a goroutine has sent.
  unfoldable pub reply_stale : List VideoInfo → Server → Server × Reply Response
  reply_stale vids s = (
    add_total_error (add_stale s),
    value (record { videos = ranked vids; stale_response = true }),
  )

  -- From `wg.Wait()` after the calls for the videos.
  unfoldable pub answer_videos : Gathered VideoInfo → Server → Server × Reply Response
  answer_videos g s = elim g.caches [
    | vids ∷ _ ↦ reply_stale vids s
    | [] ↦ elim (first_error g.replies) [
      | some e ↦ (add_total_error s, failure e)
      | none ↦ (s, value (record { videos = ranked g.items; stale_response = false }))
    ]
  ]

  abbrev pub gathered_videos : Server → List ℕ → Gathered VideoInfo
  gathered_videos s liked =
      gather s.options (get_cached_videos s.trending_cache limit) video_call_format
        s.video_max_batch_size liked backend.videos sched.video_order

  -- The calls for the liked videos. A division by a batch size of 0 panics; `int` keeps the value of a
  -- batch size, as in `fetch_users`.
  unfoldable pub fetch_videos : List ℕ → Server → Outcome (Server × Reply Response)
  fetch_videos liked s = take_video_client s >>= λ s'.
      if s'.video_max_batch_size == 0
      then panic
      else (let g = gathered_videos s' liked in ok (answer_videos g (add_video_errors g.errors s')))

  -- From the first `select` on.
  unfoldable pub answer_users : Gathered UserInfo → Server → Outcome (Server × Reply Response)
  answer_users g s =
      let go_on : Outcome (Server × Reply Response) = elim (first_error g.replies) [
        | some e ↦ ok (add_total_error s, failure e)
        | none ↦ fetch_videos (liked_ids g.items) s
      ] in
      elim g.caches [
        | [] ↦ go_on
        | vids ∷ _ ↦ if sched.take_cache then ok (reply_stale vids s) else go_on
      ]

  abbrev pub gathered_users : Server → Gathered UserInfo
  gathered_users s =
      gather s.options (get_cached_videos s.trending_cache limit) user_call_format
        s.user_max_batch_size user.subscribed_to backend.users sched.user_order

  -- `GetTopVideos`, the calls for the users. The batch size starts at 1 and the search adds less than
  -- 2^63 - 1 to it once, so that `int` keeps its value.
  unfoldable pub fetch_users : Server → Outcome (Server × Reply Response)
  fetch_users s =
      if s.user_max_batch_size == 0
      then panic
      else (let g = gathered_users s in answer_users g (add_user_errors g.errors s))

  -- By the users that the subscriber is subscribed to.
  unfoldable pub by_subscriptions : List ℕ → Server → Outcome (Server × Reply Response)
  by_subscriptions [] s = ok (
      fall_back limit ranked
        (grpc failed_precondition (literal "GetTopVideos: user is not subscribed to anyone"))
        (add_total_error s))
  by_subscriptions (_ ∷ _) s = fetch_users s

  -- From the subscriber on.
  unfoldable pub serve_user : Server → Outcome (Server × Reply Response)
  serve_user s = by_subscriptions user.subscribed_to s

module _ (rank : Coefficients → Coefficients → ℕ) (backend : Backend) (sched : Schedule)
    (limit : ℕ) where
  -- `GetUsers()[0]` panics on an empty reply.
  unfoldable pub use_subscriber : List UserInfo → Server → Outcome (Server × Reply Response)
  use_subscriber [] s = panic
  use_subscriber (user ∷ _) s = serve_user rank backend sched limit user s

  unfoldable pub fetch_subscriber : (user_id : ℕ) → Server → Outcome (Server × Reply Response)
  fetch_subscriber user_id s =
      let r = retry s.options.disable_retry (λ t. backend.subscriber t (user_id ∷ [])) in
      elim r.1 [
        | failure e ↦
            ok (
              fall_back limit (λ vids. vids) (status_of e)
                (add_total_error (add_user_errors r.0 s)))
        | value users ↦ use_subscriber users (add_user_errors r.0 s)
      ]

  -- The request once its limit is known not to be negative.
  unfoldable pub serve : (user_id : ℕ) → Server → Outcome (Server × Reply Response)
  serve user_id s = take_user_client s >>= λ s'.
      if user_id == 0
      then ok (
          fall_back limit (λ vids. vids)
            (grpc invalid_argument (literal "GetTopVideos: invalid user ID")) (add_total_error s'))
      else fetch_subscriber user_id s'

abbrev invalid_limit : RpcError
invalid_limit = grpc invalid_argument (literal "GetTopVideos: invalid limit")

-- `GetTopVideos`, between the statistics that it keeps first and those that it defers.
unfoldable pub serve_limited :
    (Coefficients → Coefficients → ℕ)
    → Backend
    → Schedule
    → (limit : ℤ) (user_id : ℕ) → Server
    → Outcome (Server × Reply Response)
serve_limited rank backend sched (negsuc n) user_id s = ok (s, failure invalid_limit)
serve_limited rank backend sched (pos limit) user_id s = serve rank backend sched limit user_id s

-- `GetTopVideos`
unfoldable pub get_top_videos :
    (Coefficients → Coefficients → ℕ)
    → Backend
    → Schedule
    → Request
    → Server
    → Outcome (Server × Reply Response)
get_top_videos rank backend sched req s =
    serve_limited rank backend sched req.limit req.user_id (enter s) >>= λ r.
    ok (leave sched.latency r.0, r.1)
