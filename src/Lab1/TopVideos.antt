-- ===== src/Lab1/TopVideos.antt =====
-- lab1/video_rec_service/server_lib/server_lib.go, the handler `GetTopVideos`. The cache of trending
-- videos stays as it is during the request.
pub mod Reach
pub mod Answers
pub mod Calm
pub mod Fetches
pub mod Returns
pub mod Same
pub mod SameCalls
pub mod Timeout
use cpsc.Common.{ℕ, true, false, ◌&&◌, not, none, some, List, [], ◌∷◌, if◌then◌else◌, ◌==◌}
use cpsc.Common.Int.{ℤ, pos, negsuc}
use cpsc.Common.Outcome.{Outcome, ok, panic, ◌>>=◌}
use cpsc.Services.Rpc.{
  Reply, value, failure, RpcError, grpc, invalid_argument, deadline_exceeded, literal, UserInfo,
  VideoInfo, Coefficients,
}
use cpsc.VideoRec.State.{
  Server, add_total_error, add_user_errors, add_video_errors, add_stale, enter, leave,
}
use cpsc.VideoRec.Batches.{retry}
use cpsc.VideoRec.Ranking.{get_cached_videos}
use cpsc.VideoRec.Gather.{Gathered}
use cpsc.VideoRec.TopVideos.{
  Request, Response, Backend, status_of, fall_back, first_error, liked_ids, ranked, reply_stale,
  gathered_users,
}
use cpsc.Lab1.Connect.{World, get_client}
use cpsc.Lab1.VideoCalls.{VideoEnd, has_failed, run_video_batch, gather_videos, count_videos}

abbrev pub count_failure : Server × Reply Response → Server × Reply Response
count_failure (s, failure e) = (add_total_error s, failure e)
count_failure (s, value r) = (s, value r)

module _ (limit : ℕ) where
  -- `deadlineExc`
  unfoldable pub deadline_exc : Server → Server × Reply Response
  deadline_exc s =
      fall_back limit (λ vids. vids)
        (grpc deadline_exceeded (literal "GetTopVideos: deadline exceeded")) s

  -- The three tests of the deadline of the request.
  unfoldable pub past_deadline : Server → Server × Reply Response
  past_deadline s = deadline_exc (add_user_errors 1 (add_total_error s))

  -- No connection to the user service. With retries off, an error is counted only where the reply
  -- is one.
  unfoldable pub no_user_client : RpcError → Server → Server × Reply Response
  no_user_client e s =
      if s.options.disable_retry
      then count_failure (fall_back limit (λ vids. vids) e s)
      else fall_back limit (λ vids. vids) e (add_total_error s)

  -- Where there is nothing to rank: the cached videos, where fallback is on and there are any, or
  -- else no videos, and no error.
  unfoldable pub cached_or_empty :
      (List VideoInfo → List VideoInfo) → Server → Server × Reply Response
  cached_or_empty arrange s =
      let empty : Reply Response = value (record { videos = []; stale_response = false }) in
      if s.options.disable_fallback
      then (s, empty)
      else elim (get_cached_videos s.trending_cache limit) [
        | [] ↦ (s, empty)
        | v ∷ vids ↦
            (add_stale s, value (record { videos = arrange (v ∷ vids); stale_response = true }))
      ]

module _ (rank : Coefficients → Coefficients → ℕ) (backend : Backend) (w : World) (limit : ℕ)
    (user : UserInfo) where
  -- From the test of the channel of errors on, after the calls for the videos.
  unfoldable pub rank_fetched : Gathered VideoInfo → Server → Server × Reply Response
  rank_fetched g s = elim (first_error g.replies) [
    | some e ↦ (add_total_error s, failure e)
    | none ↦ (
      s,
      value (record {
        videos = ranked rank backend w.schedule limit user g.items;
        stale_response = false;
      }),
    )
  ]

  -- From the second `select` on.
  unfoldable pub pick_videos : Gathered VideoInfo → Server → Server × Reply Response
  pick_videos g s =
      let rest = rank_fetched g s in
      elim g.caches [
        | [] ↦ rest
        | vids ∷ _ ↦
            if w.take_video_cache
            then reply_stale rank backend w.schedule limit user vids s
            else rest
      ]

  abbrev pub video_ends : Server → List ℕ → ℕ → VideoEnd
  video_ends s liked =
      run_video_batch s.options (get_cached_videos s.trending_cache limit) s.video_max_batch_size
        liked backend.videos w.video_late

  -- The calls for the liked videos. A division by a batch size of 0 panics.
  unfoldable pub ask_for_videos : List ℕ → Server → Outcome (Server × Reply Response)
  ask_for_videos liked s =
      let ends = video_ends s liked in
      if s.video_max_batch_size == 0
      then panic
      else ok (
          pick_videos (gather_videos ends w.schedule.video_order)
            (count_videos ends w.schedule.video_order s))

  -- From the connection to the video service on.
  unfoldable pub use_video_client : List ℕ → Server → Outcome (Server × Reply Response)
  use_video_client liked s =
      let r = get_client w.dial 1 2 s in
      elim r.1 [
        | failure e ↦ ok (
            fall_back limit (ranked rank backend w.schedule limit user) e
              (add_total_error (add_video_errors r.0 s)))
        | value conn ↦ ask_for_videos liked (add_video_errors r.0 s)
      ]

  -- By the liked videos.
  unfoldable pub by_liked : List ℕ → Server → Outcome (Server × Reply Response)
  by_liked [] s =
      ok (cached_or_empty limit (ranked rank backend w.schedule limit user) (add_total_error s))
  by_liked (v ∷ vs) s = use_video_client (v ∷ vs) s

  -- From the test of the channel of errors on, after the calls for the users.
  unfoldable pub use_liked : Gathered UserInfo → Server → Outcome (Server × Reply Response)
  use_liked g s = elim (first_error g.replies) [
    | some e ↦ ok (add_total_error s, failure e)
    | none ↦ by_liked (liked_ids g.items) s
  ]

  -- From the first `select` on.
  unfoldable pub pick_users : Gathered UserInfo → Server → Outcome (Server × Reply Response)
  pick_users g s =
      let rest = use_liked g s in
      elim g.caches [
        | [] ↦ rest
        | vids ∷ _ ↦
            if w.schedule.take_cache
            then ok (reply_stale rank backend w.schedule limit user vids s)
            else rest
      ]

  unfoldable pub ask_for_users : Server → Outcome (Server × Reply Response)
  ask_for_users s =
      if s.user_max_batch_size == 0
      then panic
      else (let g = gathered_users rank backend w.schedule limit user s in
          pick_users g (add_user_errors g.errors s))

  -- By the users that the subscriber is subscribed to.
  unfoldable pub by_subscribed : List ℕ → Server → Outcome (Server × Reply Response)
  by_subscribed [] s =
      ok (cached_or_empty limit (ranked rank backend w.schedule limit user) (add_total_error s))
  by_subscribed (_ ∷ _) s = ask_for_users s

module _ (rank : Coefficients → Coefficients → ℕ) (backend : Backend) (w : World) (limit : ℕ) where
  -- `GetUsers()[0]` panics on an empty reply.
  unfoldable pub with_subscriber : List UserInfo → Server → Outcome (Server × Reply Response)
  with_subscriber [] s = panic
  with_subscriber (user ∷ _) s = by_subscribed rank backend w limit user user.subscribed_to s

  -- The attempts to get the subscriber have failed.
  unfoldable pub no_subscriber : RpcError → Server → Server × Reply Response
  no_subscriber e s =
      if not s.options.disable_retry && w.user_late 1
      then past_deadline limit (add_total_error s)
      else fall_back limit (λ vids. vids) (status_of e) (add_total_error s)

  unfoldable pub get_subscriber : (user_id : ℕ) → Server → Outcome (Server × Reply Response)
  get_subscriber user_id s =
      let call : ℕ → Reply (List UserInfo) = λ t. backend.subscriber t (user_id ∷ []) in
      let r = retry s.options.disable_retry call in
      if has_failed (call 0) && w.user_late 0
      then ok (past_deadline limit (add_user_errors 1 s))
      else elim r.1 [
        | failure e ↦ ok (no_subscriber e (add_user_errors r.0 s))
        | value users ↦ with_subscriber users (add_user_errors r.0 s)
      ]

  -- From the test of the user's id on.
  unfoldable pub identify : (user_id : ℕ) → Server → Outcome (Server × Reply Response)
  identify user_id s =
      if user_id == 0
      then ok (
          fall_back limit (λ vids. vids)
            (grpc invalid_argument (literal "GetTopVideos: invalid user ID")) (add_total_error s))
      else get_subscriber user_id s

  -- The request once its limit is known not to be negative.
  unfoldable pub serve_request : (user_id : ℕ) → Server → Outcome (Server × Reply Response)
  serve_request user_id s =
      let r = get_client w.dial 0 0 s in
      if w.started_late then ok (past_deadline limit s) else elim r.1 [
        | failure e ↦ ok (no_user_client limit e (add_user_errors r.0 s))
        | value conn ↦ identify user_id (add_user_errors r.0 s)
      ]

-- `GetTopVideos`, between the statistics that it keeps first and those that it defers.
unfoldable pub with_limit :
    (Coefficients → Coefficients → ℕ)
    → Backend
    → World
    → (limit : ℤ) (user_id : ℕ) → Server
    → Outcome (Server × Reply Response)
with_limit rank backend w (negsuc n) user_id s =
    ok (s, failure (grpc invalid_argument (literal "GetTopVideos: invalid limit")))
with_limit rank backend w (pos limit) user_id s = serve_request rank backend w limit user_id s

-- `GetTopVideos`
unfoldable pub get_top_videos :
    (Coefficients → Coefficients → ℕ)
    → Backend
    → World
    → Request
    → Server
    → Outcome (Server × Reply Response)
get_top_videos rank backend w req s =
    with_limit rank backend w req.limit req.user_id (enter s) >>= λ r.
    ok (leave w.schedule.latency r.0, r.1)
