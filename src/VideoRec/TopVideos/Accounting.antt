-- ===== src/VideoRec/TopVideos/Accounting.antt =====
-- lab2/video_rec_service/server_lib/server_lib.go, `GetTopVideos`: the handler returns on every
-- request, and what it does to the statistics.
use cpsc.Common.{
  ℕ, ◌-◌, ◌<◌, ◌≡◌, ◌≢◌, ◌^◌, refl, ap, ◌∙◌, inl, inr, Bool, true, false, ◌||◌, List, [], ◌∷◌,
  arith, if◌then◌else◌, ◌==◌, Bool-cases, Option-cases, List-cases,
}
use cpsc.Common.Int.{ℤ, pos, negsuc}
use cpsc.Common.Outcome.{Outcome, ok}
use cpsc.Services.Rpc.{
  Reply, value, failure, RpcError, UserInfo, VideoInfo, Coefficients, Reply-cases,
}
use cpsc.VideoRec.State.{
  Server, add64, add_total_error, add_user_errors, add_video_errors, enter, leave,
}
use cpsc.VideoRec.Connect.{IsReady, take_clients-IsReady}
use cpsc.VideoRec.Batches.{retry, retry-value}
use cpsc.VideoRec.Ranking.{get_cached_videos}
use cpsc.VideoRec.Gather.{Gathered}
use cpsc.VideoRec.TopVideos.{
  Request, Response, Backend, Schedule, fall_back, first_error, reply_stale, answer_videos,
  fetch_videos, answer_users, fetch_users, serve_user, by_subscriptions, use_subscriber,
  fetch_subscriber, serve, serve_limited, get_top_videos, liked_ids, gathered_videos,
  gathered_users,
}

-- A list of videos that comes from the services, and one that comes from the cache.
abbrev pub is_fresh : Reply Response → Bool
is_fresh (value r) = if r.stale_response then false else true
is_fresh (failure e) = false

abbrev pub is_stale : Reply Response → Bool
is_stale (value r) = r.stale_response
is_stale (failure e) = false

abbrev pub is_negative : ℤ → Bool
is_negative (pos n) = false
is_negative (negsuc n) = true

-- The call returns; it has counted an error unless the reply is fresh, and a stale response where
-- the reply is stale; and nothing else of the statistics has changed but the errors of a service.
abbrev Serves : Server → Outcome (Server × Reply Response) → Type 0
Serves s o =
    (s' : Server) × (r : Reply Response) × (o ≡ ok (s', r))
    × (s'.total_errors ≡ (if is_fresh r then s.total_errors else add64 s.total_errors 1))
    × (s'.stale_responses ≡ (if is_stale r then add64 s.stale_responses 1 else s.stale_responses))
    × (s'.total_requests ≡ s.total_requests)
    × (s'.active_requests ≡ s.active_requests)
    × (s'.latencies ≡ s.latencies)
    × (s'.total_sum_latency_ms ≡ s.total_sum_latency_ms)

fall_back-Serves :
    (limit : ℕ) (arrange : List VideoInfo → List VideoInfo) (e : RpcError) (s : Server)
    → Serves s (ok (fall_back limit arrange e (add_total_error s)))
unfolding fall_back
fall_back-Serves limit arrange e s = elim (Bool-cases s.options.disable_fallback) [
  | inl off ↦ rw off (_, _, refl, refl, refl, refl, refl, refl, refl)
  | inr on ↦ elim (List-cases (get_cached_videos s.trending_cache limit)) [
    | inl nothing ↦ rw (on, nothing, fall_back) (_, _, refl, refl, refl, refl, refl, refl, refl)
    | inr (v, vids, cached) ↦
        rw (on, cached, fall_back) (_, _, refl, refl, refl, refl, refl, refl, refl)
  ]
]

module _ (rank : Coefficients → Coefficients → ℕ) (backend : Backend) (sched : Schedule) (limit : ℕ)
    (user : UserInfo) where
  reply_stale-Serves :
      (vids : List VideoInfo) (s : Server)
      → Serves s (ok (reply_stale rank backend sched limit user vids s))
  unfolding reply_stale
  reply_stale-Serves vids s = (_, _, refl, refl, refl, refl, refl, refl, refl)

  answer_videos-Serves :
      (g : Gathered VideoInfo) (s : Server)
      → Serves s (ok (answer_videos rank backend sched limit user g s))
  unfolding answer_videos
  answer_videos-Serves g s = elim (List-cases g.caches) [
    | inr (vids, rest, e) ↦ rw (e, answer_videos) (reply_stale-Serves vids s)
    | inl none_sent ↦ elim (Option-cases (first_error g.replies)) [
      | inl fine ↦
          rw (none_sent, fine, answer_videos) (_, _, refl, refl, refl, refl, refl, refl, refl)
      | inr (e, bad) ↦
          rw (none_sent, bad, answer_videos) (_, _, refl, refl, refl, refl, refl, refl, refl)
    ]
  ]

  fetch_videos-Serves :
      (liked : List ℕ) (s : Server)
      → IsReady s
      → 0 < s.video_max_batch_size
      → Serves s (fetch_videos rank backend sched limit user liked s)
  unfolding fetch_videos
  fetch_videos-Serves liked s ready some_size =
      let (n, m, _, client) = take_clients-IsReady s ready in
      let sized : (s.video_max_batch_size == 0) ≡ false = ground arith in
      rw (client, sized)
        (answer_videos-Serves (gathered_videos rank backend sched limit user s liked) (
          add_video_errors (gathered_videos rank backend sched limit user s liked).errors
            (record s { video_conn_index = m })))

  answer_users-Serves :
      (g : Gathered UserInfo) (s : Server)
      → IsReady s
      → 0 < s.video_max_batch_size
      → Serves s (answer_users rank backend sched limit user g s)
  unfolding answer_users reply_stale
  answer_users-Serves g s ready some_size = elim (Option-cases (first_error g.replies)) [
    | inr (e, bad) ↦ elim (List-cases g.caches) [
      | inl empty ↦ rw (empty, bad, answer_users) (_, _, refl, refl, refl, refl, refl, refl, refl)
      | inr (vids, rest, sent) ↦ elim (Bool-cases sched.take_cache) [
        | inl take ↦ rw (sent, bad, take, answer_users) (reply_stale-Serves vids s)
        | inr leave_it ↦
            rw (sent, leave_it, bad, answer_users) (_, _, refl, refl, refl, refl, refl, refl, refl)
      ]
    ]
    | inl fine ↦
        let rest = fetch_videos-Serves (liked_ids g.items) s ready some_size in
        elim (List-cases g.caches) [
          | inl empty ↦ rw (empty, fine, answer_users) rest
          | inr (vids, _, sent) ↦ elim (Bool-cases sched.take_cache) [
            | inl take ↦ rw (sent, fine, take, answer_users) (reply_stale-Serves vids s)
            | inr leave_it ↦ rw (sent, leave_it, fine, answer_users) rest
          ]
        ]
  ]

  by_subscriptions-Serves :
      (l : List ℕ) (s : Server)
      → IsReady s
      → 0 < s.user_max_batch_size
      → 0 < s.video_max_batch_size
      → Serves s (by_subscriptions rank backend sched limit user l s)
  unfolding by_subscriptions fetch_users
  by_subscriptions-Serves [] s ready users videos = fall_back-Serves limit _ _ s
  by_subscriptions-Serves (_ ∷ _) s ready users videos =
      let sized : (s.user_max_batch_size == 0) ≡ false = ground arith in
      let g = gathered_users rank backend sched limit user s in
      rw sized (answer_users-Serves g (add_user_errors g.errors s) ready videos)

module _ (rank : Coefficients → Coefficients → ℕ) (backend : Backend) (sched : Schedule)
    (limit : ℕ) where
  use_subscriber-Serves :
      (us : List UserInfo) (s : Server)
      → us ≢ []
      → IsReady s
      → 0 < s.user_max_batch_size
      → 0 < s.video_max_batch_size
      → Serves s (use_subscriber rank backend sched limit us s)
  unfolding use_subscriber serve_user
  use_subscriber-Serves [] s some_user ready users videos = absurd (some_user refl)
  use_subscriber-Serves (user ∷ _) s some_user ready users videos =
      by_subscriptions-Serves rank backend sched limit user user.subscribed_to s ready users videos

  fetch_subscriber-Serves :
      (id : ℕ) (s : Server)
      → ((t : ℕ) (us : List UserInfo) → backend.subscriber t (id ∷ []) ≡ value us → us ≢ [])
      → IsReady s
      → 0 < s.user_max_batch_size
      → 0 < s.video_max_batch_size
      → Serves s (fetch_subscriber rank backend sched limit id s)
  unfolding fetch_subscriber
  fetch_subscriber-Serves id s answers ready users videos =
      let call : ℕ → Reply (List UserInfo) = λ t. backend.subscriber t (id ∷ []) in
      elim (Reply-cases (retry s.options.disable_retry call).1) [
        | inr (e, bad) ↦
            rw (bad, fetch_subscriber)
              (fall_back-Serves limit _ _
                (add_user_errors (retry s.options.disable_retry call).0 s))
        | inl (us, good) ↦
            rw (good, fetch_subscriber)
              (use_subscriber-Serves us (add_user_errors (retry s.options.disable_retry call).0 s)
                (retry-value s.options.disable_retry call (λ us. us ≢ []) answers us good) ready
                users videos)
      ]

  serve-Serves :
      (id : ℕ) (s : Server)
      → ((t : ℕ) (us : List UserInfo) → backend.subscriber t (id ∷ []) ≡ value us → us ≢ [])
      → IsReady s
      → 0 < s.user_max_batch_size
      → 0 < s.video_max_batch_size
      → Serves s (serve rank backend sched limit id s)
  unfolding serve
  serve-Serves id s answers ready users videos =
      let (n, m, client, _) = take_clients-IsReady s ready in
      elim (Bool-cases (id == 0)) [
        | inl zero_id ↦
            rw (client, zero_id) (fall_back-Serves limit _ _ (record s { user_conn_index = n }))
        | inr real ↦
            rw (client, real)
              (fetch_subscriber-Serves id (record s { user_conn_index = n }) answers ready users
                videos)
      ]

or_false : (b : Bool) → (b || false) ≡ b
or_false true = refl
or_false false = refl

-- The same for every limit.
serve_limited-counts :
    (rank : Coefficients → Coefficients → ℕ) (backend : Backend) (sched : Schedule) (limit : ℤ)
    (id : ℕ) (s : Server)
    → IsReady s
    → 0 < s.user_max_batch_size
    → 0 < s.video_max_batch_size
    → ((t : ℕ) (us : List UserInfo) → backend.subscriber t (id ∷ []) ≡ value us → us ≢ [])
    → (s' : Server) × (r : Reply Response) × (serve_limited rank backend sched limit id s
        ≡ ok (s', r))
      × (s'.total_errors
          ≡ (if is_fresh r || is_negative limit then s.total_errors else add64 s.total_errors 1))
      × (s'.stale_responses ≡ (if is_stale r then add64 s.stale_responses 1 else s.stale_responses))
      × (s'.total_requests ≡ s.total_requests)
      × (s'.active_requests ≡ s.active_requests)
      × (s'.latencies ≡ s.latencies)
      × (s'.total_sum_latency_ms ≡ s.total_sum_latency_ms)
unfolding serve_limited
serve_limited-counts rank backend sched (negsuc n) id s ready users videos answers =
    (_, _, refl, refl, refl, refl, refl, refl, refl)
serve_limited-counts rank backend sched (pos limit) id s ready users videos answers =
    let (s', r, done, errors, stale, requests, is_active, lats, sum) =
      serve-Serves rank backend sched limit id s answers ready users videos in
    (s', r, done, rw (or_false (is_fresh r)) errors, stale, requests, is_active, lats, sum)

active_back : (a : ℕ) → a < 2 ^ 64 → add64 (add64 a 1) (2 ^ 64 - 1) ≡ a
active_back a lt = omega arith

-- On a server that has its clients and batch sizes of at least 1, with a user service whose
-- replies to one id are not empty, the handler returns. The request is counted and the number of
-- active requests, if below 2^64, is as before; an error is counted exactly where the reply is not
-- a fresh list (but not for a negative limit), a stale response exactly where the reply comes from
-- the cache, and the latency is recorded.
pub get_top_videos-counts :
    (rank : Coefficients → Coefficients → ℕ) (backend : Backend) (sched : Schedule) (req : Request)
    (s : Server)
    → IsReady s
    → 0 < s.user_max_batch_size
    → 0 < s.video_max_batch_size
    → s.active_requests < 2 ^ 64
    → ((t : ℕ) (us : List UserInfo) → backend.subscriber t (req.user_id ∷ []) ≡ value us → us ≢ [])
    → (s' : Server) × (r : Reply Response) × (get_top_videos rank backend sched req s ≡ ok (s', r))
      × (s'.total_requests ≡ add64 s.total_requests 1)
      × (s'.active_requests ≡ s.active_requests)
      × (s'.total_errors ≡ (
          if is_fresh r || is_negative req.limit then s.total_errors else add64 s.total_errors 1))
      × (s'.stale_responses ≡ (if is_stale r then add64 s.stale_responses 1 else s.stale_responses))
      × (s'.latencies ≡ sched.latency ∷ s.latencies)
      × (s'.total_sum_latency_ms ≡ add64 s.total_sum_latency_ms sched.latency)
unfolding get_top_videos enter leave
get_top_videos-counts rank backend sched req s ready users videos active answers =
    let (s', r, done, errors, stale, requests, is_active, lats, sum) =
      serve_limited-counts rank backend sched req.limit req.user_id (enter s) ready users videos
        answers in
    (
      leave sched.latency s',
      r,
      rw done refl,
      requests,
      ap (λ a. add64 a (2 ^ 64 - 1)) is_active ∙ active_back s.active_requests active,
      errors,
      stale,
      ap (λ l. sched.latency ∷ l) lats,
      ap (λ t. add64 t sched.latency) sum,
    )
