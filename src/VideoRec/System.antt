-- ===== src/VideoRec/System.antt =====
-- lab2: the recommender with the two services. It finds the sizes of batches that the services accept,
-- and then answers a request with the videos that the users subscribed to like.
pub mod Parts
pub mod Discovered
use cpsc.Common.{
  ℕ, ◌/◌, ◌≤◌, ◌<◌, ◌≡◌, ◌≢◌, ap, sym, ◌∙◌, false, some, List, [], ◌∷◌, map, flat_map, length,
  arith, flat_map-perm, ◌==◌, ==_iff,
}
use mathlib.Core.List.{Perm}
use cpsc.Common.Int.{pos}
use cpsc.Common.Outcome.{ok}
use cpsc.Services.Rpc.{Reply, value, UserInfo, VideoInfo, Coefficients}
use cpsc.Services.Dedup.{Distinct, contains}
use cpsc.Services.Injection.{Draws, IsCalm, maybe_inject-IsCalm}
use cpsc.Services.User.{UserService, get_user, checked_users}
use cpsc.Services.User.Laws as UserLaws
use cpsc.Services.User.Laws.{checked_users_iff}
use cpsc.Services.Video.{VideoService, get_video, checked_videos}
use cpsc.Services.Video.Laws as VideoLaws
use cpsc.Services.Video.Laws.{checked_videos_iff}
use cpsc.VideoRec.State.{Server}
use cpsc.VideoRec.Connect.{IsReady}
use cpsc.VideoRec.Batches.{batch, batch-bounds, retry}
use cpsc.VideoRec.Ranking.{rank_videos, get_cached_videos}
use cpsc.VideoRec.Gather.Laws.{EachOnce, left, gather-whole}
use cpsc.VideoRec.TopVideos.{Backend, Schedule, get_top_videos, user_call_format}
use cpsc.VideoRec.TopVideos.Fresh.{friends, liked}
use cpsc.VideoRec.TopVideos.Replies.{get_top_videos-fresh, liked_ids_lem}
use cpsc.VideoRec.System.Parts.{
  AllStored, batch-AllStored, batch-Distinct, map-AllStored, contains-perm, retry-answered,
}

-- The replies that the handler sees are those of services that inject no failure.
pub record IsServed (udb : UserService) (vdb : VideoService) (backend : Backend) : Type 0 where
  pub users_calm : IsCalm udb.injection
  pub videos_calm : IsCalm vdb.injection
  pub subscriber :
      (t : ℕ) (ids : List ℕ) → (d : Draws) × (get_user udb d ids ≡ ok (backend.subscriber t ids))
  pub users :
      (i t : ℕ) (ids : List ℕ) → (d : Draws) × (get_user udb d ids ≡ ok (backend.users i t ids))
  pub videos :
      (i t : ℕ) (ids : List ℕ) → (d : Draws) × (get_video vdb d ids ≡ ok (backend.videos i t ids))

-- The ids of the videos that the users subscribed to like, in the order of the subscriptions.
abbrev pub likes : (ℕ → UserInfo) → UserInfo → List ℕ
likes user_info user =
    flat_map (λ (u : UserInfo). u.liked_videos) (map user_info user.subscribed_to)

-- The databases have the subscriber, the users subscribed to, and the videos that those like.
pub record IsConsistent (udb : UserService) (vdb : VideoService) (id : ℕ) (user : UserInfo)
    (user_info : ℕ → UserInfo) (video_info : ℕ → VideoInfo) : Type 0 where
  pub found : udb.users id ≡ some user
  pub subscribes : user.subscribed_to ≢ []
  pub users : AllStored udb.users user_info user.subscribed_to
  pub videos : AllStored vdb.videos video_info (likes user_info user)

-- Calm services answer a batch within their limits with the infos that are stored.
calm_users :
    (udb : UserService) (d : Draws) (ids : List ℕ) (user_info : ℕ → UserInfo)
    (r : Reply (List UserInfo))
    → IsCalm udb.injection
    → get_user udb d ids ≡ ok r
    → 0 < length ids
    → length ids ≤ udb.max_batch_size
    → AllStored udb.users user_info ids
    → r ≡ value (map user_info ids)
unfolding get_user
calm_users udb d ids user_info r calm e some_id within all =
    let drawn : ok (checked_users udb ids) ≡ ok r =
      rw (maybe_inject-IsCalm udb.injection d calm) at e in
    let same : r ≡ checked_users udb ids = ground arith in
    same
    ∙ (checked_users_iff udb ids (map user_info ids)).1 (
      record { some_id = λ gone. omega (arith, some_id, ap length gone); within = within },
      map-AllStored udb.users user_info ids all,
    )

calm_videos :
    (vdb : VideoService) (d : Draws) (ids : List ℕ) (video_info : ℕ → VideoInfo)
    (r : Reply (List VideoInfo))
    → IsCalm vdb.injection
    → get_video vdb d ids ≡ ok r
    → 0 < length ids
    → length ids ≤ vdb.max_batch_size
    → Distinct ids
    → AllStored vdb.videos video_info ids
    → r ≡ value (map video_info ids)
unfolding get_video
calm_videos vdb d ids video_info r calm e some_id within distinct all =
    let drawn : ok (checked_videos vdb ids) ≡ ok r =
      rw (maybe_inject-IsCalm vdb.injection d calm) at e in
    let same : r ≡ checked_videos vdb ids = ground arith in
    same
    ∙ (checked_videos_iff vdb ids (map video_info ids)).1 (
      record {
        some_id = λ gone. omega (arith, some_id, ap length gone);
        within = within;
        distinct = distinct;
      },
      map-AllStored vdb.videos video_info ids all,
    )

module _ (rank : Coefficients → Coefficients → ℕ) (backend : Backend) (sched : Schedule) (limit : ℕ)
    (udb : UserService) (vdb : VideoService) (id : ℕ) (user : UserInfo) (user_info : ℕ → UserInfo)
    (video_info : ℕ → VideoInfo) (s : Server) (served : IsServed udb vdb backend)
    (stored : IsConsistent udb vdb id user user_info video_info) where
  users-answered :
      0 < s.user_max_batch_size
      → s.user_max_batch_size ≤ udb.max_batch_size
      → (i : ℕ) (b : List ℕ) → i ≤ length user.subscribed_to / s.user_max_batch_size
      → batch s.user_max_batch_size user.subscribed_to i ≡ some b
      → left s.options backend.users i b ≡ value (map user_info b)
  users-answered some_size fits i b le e =
      let (some_id, within) =
        batch-bounds s.user_max_batch_size user.subscribed_to i b some_size le e in
      let (d, reply) = served.users i 0 b in
      retry-answered s.options.disable_retry (λ t. backend.users i t b) (map user_info b)
        (calm_users udb d b user_info (backend.users i 0 b) served.users_calm reply some_id
          (omega (arith, within, fits))
          (batch-AllStored udb.users user_info s.user_max_batch_size user.subscribed_to i b e
            stored.users))

  -- The ids that the handler collects are those of the videos that the users subscribed to like.
  contains-liked :
      0 < s.user_max_batch_size
      → s.user_max_batch_size ≤ udb.max_batch_size
      → EachOnce s.user_max_batch_size user.subscribed_to sched.user_order
      → (v : ℕ)
      → contains (liked rank backend sched limit user s) v ≡ contains (likes user_info user) v
  contains-liked some_size fits once v =
      let (perm, _, _) =
        gather-whole s.options (get_cached_videos s.trending_cache limit) user_call_format
          s.user_max_batch_size user.subscribed_to backend.users user_info sched.user_order
          some_size once (users-answered some_size fits) in
      (liked_ids_lem (friends rank backend sched limit user s)).1 v
      ∙ contains-perm _ _ v (flat_map-perm (λ (u : UserInfo). u.liked_videos) perm)

  videos-answered :
      0 < s.user_max_batch_size
      → s.user_max_batch_size ≤ udb.max_batch_size
      → 0 < s.video_max_batch_size
      → s.video_max_batch_size ≤ vdb.max_batch_size
      → EachOnce s.user_max_batch_size user.subscribed_to sched.user_order
      → (i : ℕ) (b : List ℕ)
      → i ≤ length (liked rank backend sched limit user s) / s.video_max_batch_size
      → batch s.video_max_batch_size (liked rank backend sched limit user s) i ≡ some b
      → left s.options backend.videos i b ≡ value (map video_info b)
  videos-answered some_users users_fit some_videos videos_fit once i b le e =
      let ids = liked rank backend sched limit user s in
      let (some_id, within) = batch-bounds s.video_max_batch_size ids i b some_videos le e in
      let (d, reply) = served.videos i 0 b in
      let all : AllStored vdb.videos video_info ids =
        λ v c. stored.videos v (sym (contains-liked some_users users_fit once v) ∙ c) in
      retry-answered s.options.disable_retry (λ t. backend.videos i t b) (map video_info b)
        (calm_videos vdb d b video_info (backend.videos i 0 b) served.videos_calm reply some_id
          (omega (arith, within, videos_fit))
          (batch-Distinct s.video_max_batch_size ids i b e
            (liked_ids_lem (friends rank backend sched limit user s)).0)
          (batch-AllStored vdb.videos video_info s.video_max_batch_size ids i b e all))

  subscriber-answered :
      0 < udb.max_batch_size
      → (retry s.options.disable_retry (λ t. backend.subscriber t (id ∷ []))).1 ≡ value (user ∷ [])
  unfolding contains
  subscriber-answered some_size =
      let (d, reply) = served.subscriber 0 (id ∷ []) in
      let all : AllStored udb.users (λ v. user) (id ∷ []) =
        λ v c. (let same : id ≡ v = (==_iff id v).0 (ground arith) in rw (← same) stored.found) in
      retry-answered s.options.disable_retry (λ t. backend.subscriber t (id ∷ [])) (user ∷ [])
        (calm_users udb d (id ∷ []) (λ v. user) (backend.subscriber 0 (id ∷ [])) served.users_calm
          reply (omega arith) (omega (arith, some_size)) all)

  pub get_top_videos-served :
      IsReady s
      → 0 < s.user_max_batch_size
      → s.user_max_batch_size ≤ udb.max_batch_size
      → 0 < s.video_max_batch_size
      → s.video_max_batch_size ≤ vdb.max_batch_size
      → id ≢ 0
      → EachOnce s.user_max_batch_size user.subscribed_to sched.user_order
      → EachOnce s.video_max_batch_size (liked rank backend sched limit user s) sched.video_order
      → (s' : Server) × (ids : List ℕ) × (found : List VideoInfo) × (get_top_videos rank backend
            sched
            (record { user_id = id; limit = pos limit })
            s
          ≡ ok (
            s',
            value (record {
              videos = rank_videos rank user.user_coefficients found limit;
              stale_response = false;
            }),
          ))
        × Perm found (map video_info ids)
        × Distinct ids
        × ((v : ℕ) → contains ids v ≡ contains (likes user_info user) v)
  get_top_videos-served ready some_users users_fit some_videos videos_fit real u_once v_once =
      let (s', found, done, _, perm, distinct, _) =
        get_top_videos-fresh rank backend sched limit user user_info video_info s id [] ready
          some_users some_videos real (subscriber-answered (omega (arith, some_users, users_fit)))
          stored.subscribes (u_once, users-answered some_users users_fit) v_once
          (videos-answered some_users users_fit some_videos videos_fit u_once) in
      (
        s',
        liked rank backend sched limit user s,
        found,
        done,
        perm,
        distinct,
        contains-liked some_users users_fit u_once,
      )
