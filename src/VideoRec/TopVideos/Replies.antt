-- ===== src/VideoRec/TopVideos/Replies.antt =====
-- lab2/video_rec_service/server_lib/server_lib.go, `GetTopVideos`: what the reply has, where the
-- services answer and where some of the calls for videos fail.
use cpsc.Common.{
  ℕ, ◌+◌, ◌/◌, ◌≤◌, ◌<◌, ◌≡◌, ◌≢◌, refl, Bool, false, some, List, [], ◌∷◌, map, flat_map, length,
}
use mathlib.Core.List.{Perm}
use cpsc.Common.Int.{pos}
use cpsc.Common.Outcome.{ok}
use cpsc.Services.Rpc.{value, UserInfo, VideoInfo, Coefficients}
use cpsc.Services.Dedup.{Distinct, contains, deduplicate_ids, deduplicate_ids_lem}
use cpsc.VideoRec.State.{Server}
use cpsc.VideoRec.Connect.{IsReady}
use cpsc.VideoRec.Batches.{batch, retry, indices}
use cpsc.VideoRec.Ranking.{rank_videos, get_cached_videos}
use cpsc.VideoRec.Gather.Laws.{EachOnce, left, gather-whole, gather-partial, Attempts, served}
use cpsc.VideoRec.TopVideos.{
  Backend, Schedule, liked_ids, get_top_videos, video_call_format, user_call_format,
}
use cpsc.VideoRec.TopVideos.Fresh.{friends, liked, get_top_videos-quiet}

pub liked_ids_lem :
    (users : List UserInfo)
    → Distinct (liked_ids users)
      × ((v : ℕ)
          → contains (liked_ids users) v
            ≡ contains (flat_map (λ (u : UserInfo). u.liked_videos) users) v)
unfolding liked_ids deduplicate_ids
liked_ids_lem users = deduplicate_ids_lem (flat_map (λ (u : UserInfo). u.liked_videos) users)

no_cache : (cache : List VideoInfo) (limit : ℕ) → cache ≡ [] → get_cached_videos cache limit ≡ []
unfolding get_cached_videos
no_cache cache limit e = rw (e, get_cached_videos) refl

module _ (rank : Coefficients → Coefficients → ℕ) (backend : Backend) (sched : Schedule) (limit : ℕ)
    (user : UserInfo) (user_info : ℕ → UserInfo) (video_info : ℕ → VideoInfo) (s : Server) where
  -- Each call for subscriptions is answered at last, with the users asked for, and the goroutines
  -- append in any order.
  abbrev pub UsersAnswered : Type 0
  UsersAnswered =
      EachOnce s.user_max_batch_size user.subscribed_to sched.user_order
      × ((i : ℕ) (b : List ℕ)
          → i ≤ length user.subscribed_to / s.user_max_batch_size
          → batch s.user_max_batch_size user.subscribed_to i ≡ some b
          → left s.options backend.users i b ≡ value (map user_info b))

  -- On a server with its clients and with batch sizes of at least 1, for a user id that is not 0 and
  -- a limit that is not negative: where the subscriber is found and is subscribed to someone, and
  -- every call, after its retry, is answered with what is asked for, the handler returns a reply
  -- that is not stale and that ranks the videos liked by the users subscribed to, each video once,
  -- whatever the order in which the goroutines end.
  pub get_top_videos-fresh :
      (id : ℕ) (us : List UserInfo)
      → IsReady s
      → 0 < s.user_max_batch_size
      → 0 < s.video_max_batch_size
      → id ≢ 0
      → (retry s.options.disable_retry (λ t. backend.subscriber t (id ∷ []))).1 ≡ value (user ∷ us)
      → user.subscribed_to ≢ []
      → UsersAnswered
      → EachOnce s.video_max_batch_size (liked rank backend sched limit user s) sched.video_order
      → ((i : ℕ) (b : List ℕ)
          → i ≤ length (liked rank backend sched limit user s) / s.video_max_batch_size
          → batch s.video_max_batch_size (liked rank backend sched limit user s) i ≡ some b
          → left s.options backend.videos i b ≡ value (map video_info b))
      → (s' : Server) × (found : List VideoInfo) × (get_top_videos rank backend sched
            (record { user_id = id; limit = pos limit })
            s
          ≡ ok (
            s',
            value (record {
              videos = rank_videos rank user.user_coefficients found limit;
              stale_response = false;
            }),
          ))
        × Perm (friends rank backend sched limit user s) (map user_info user.subscribed_to)
        × Perm found (map video_info (liked rank backend sched limit user s))
        × Distinct (liked rank backend sched limit user s)
        × ((v : ℕ)
            → contains (liked rank backend sched limit user s) v
              ≡ contains
                  (flat_map
                    (λ (u : UserInfo). u.liked_videos)
                    (friends rank backend sched limit user s))
                  v)
  get_top_videos-fresh id us ready users videos real answer subscribes (u_once, u_answers) v_once
        v_answers =
      let cached = get_cached_videos s.trending_cache limit in
      let (perm, caches, replies) =
        gather-whole s.options cached user_call_format s.user_max_batch_size user.subscribed_to
          backend.users user_info sched.user_order users u_once u_answers in
      let (perm', caches', replies') =
        gather-whole s.options cached video_call_format s.video_max_batch_size
          (liked rank backend sched limit user s) backend.videos video_info sched.video_order videos
          v_once v_answers in
      let (s', done) =
        get_top_videos-quiet rank backend sched limit user id us s ready users videos real answer
          subscribes (caches, replies) (caches', replies') in
      (
        s',
        _,
        done,
        perm,
        perm',
        (liked_ids_lem (friends rank backend sched limit user s)).0,
        (liked_ids_lem (friends rank backend sched limit user s)).1,
      )

  -- A request whose calls for users are answered, with fallback on and an empty cache, where the
  -- calls of some goroutines for videos fail, the retry too: the handler still returns a reply
  -- that is not stale, with the videos of the other goroutines only. None of those errors reaches
  -- the caller.
  pub get_top_videos-partial :
      (good : ℕ → Bool) (id : ℕ) (us : List UserInfo)
      → IsReady s
      → 0 < s.user_max_batch_size
      → 0 < s.video_max_batch_size
      → id ≢ 0
      → (retry s.options.disable_retry (λ t. backend.subscriber t (id ∷ []))).1 ≡ value (user ∷ us)
      → user.subscribed_to ≢ []
      → UsersAnswered
      → s.options.disable_fallback ≡ false
      → s.trending_cache ≡ []
      → EachOnce s.video_max_batch_size (liked rank backend sched limit user s) sched.video_order
      → ((i : ℕ) (b : List ℕ)
          → i ≤ length (liked rank backend sched limit user s) / s.video_max_batch_size
          → batch s.video_max_batch_size (liked rank backend sched limit user s) i ≡ some b
          → Attempts s.options backend.videos video_info good i b)
      → (s' : Server) × (found : List VideoInfo) × (get_top_videos rank backend sched
            (record { user_id = id; limit = pos limit })
            s
          ≡ ok (
            s',
            value (record {
              videos = rank_videos rank user.user_coefficients found limit;
              stale_response = false;
            }),
          ))
        × Perm found (
            map video_info (
              flat_map
                (served s.video_max_batch_size (liked rank backend sched limit user s) good)
                (indices 0
                  (length (liked rank backend sched limit user s) / s.video_max_batch_size + 1))))
  get_top_videos-partial good id us ready users videos real answer subscribes (u_once, u_answers) on
        empty v_once v_attempts =
      let cached = get_cached_videos s.trending_cache limit in
      let (_, caches, replies) =
        gather-whole s.options cached user_call_format s.user_max_batch_size user.subscribed_to
          backend.users user_info sched.user_order users u_once u_answers in
      let (perm', caches', replies') =
        gather-partial s.options video_call_format s.video_max_batch_size
          (liked rank backend sched limit user s) backend.videos video_info good cached
          sched.video_order (no_cache s.trending_cache limit empty) v_once on v_attempts in
      let (s', done) =
        get_top_videos-quiet rank backend sched limit user id us s ready users videos real answer
          subscribes (caches, replies) (caches', replies') in
      (s', _, done, perm')
