-- ===== src/Lab1/TopVideos/Returns.antt =====
-- lab1/video_rec_service/server_lib/server_lib.go, `GetTopVideos`: the handler returns on every
-- request, and what it does to the statistics.
use cpsc.Common.{
  ℕ, ◌-◌, ◌<◌, ◌≡◌, ◌≢◌, ◌^◌, refl, ap, ◌∙◌, inl, inr, ◌&&◌, not, List, [], ◌∷◌, arith,
  if◌then◌else◌, ◌==◌, Bool-cases,
}
use cpsc.Common.Int.{ℤ, pos, negsuc}
use cpsc.Common.Outcome.{ok}
use cpsc.Services.Rpc.{Reply, value, RpcError, UserInfo, Coefficients, Reply-cases}
use cpsc.VideoRec.State.{Server, add64, add_total_error, add_user_errors, enter, leave}
use cpsc.VideoRec.Batches.{retry, retry-value}
use cpsc.VideoRec.TopVideos.{Request, Response, Backend}
use cpsc.VideoRec.TopVideos.Accounting.{is_negative}
use cpsc.Lab1.Connect.{World, get_client}
use cpsc.Lab1.VideoCalls.{has_failed}
use cpsc.Lab1.TopVideos.{
  with_subscriber, no_subscriber, get_subscriber, identify, serve_request, with_limit,
  get_top_videos,
}
use cpsc.Lab1.TopVideos.Answers.{
  due_errors, due_stale, Grows, IsCounted, Keeps, keeps, Answers, same, add64-lt, after_error,
  widen, most, fall_back-Answers, no_user_client-Answers, past_deadline-Answers,
}
use cpsc.Lab1.TopVideos.Fetches.{by_subscribed-Answers}

module _ (rank : Coefficients → Coefficients → ℕ) (backend : Backend) (w : World) (limit : ℕ) where
  with_subscriber-Answers :
      (us : List UserInfo) (s : Server)
      → us ≢ []
      → IsCounted s
      → 0 < s.user_max_batch_size
      → 0 < s.video_max_batch_size
      → Answers (most w) s (with_subscriber rank backend w limit us s)
  unfolding with_subscriber
  with_subscriber-Answers [] s some_user counted users videos = absurd (some_user refl)
  with_subscriber-Answers (user ∷ _) s some_user counted users videos =
      by_subscribed-Answers rank backend w limit user user.subscribed_to s counted users videos

  no_subscriber-Answers :
      (e : RpcError) (s : Server)
      → IsCounted s
      → Answers (most w) s (ok (no_subscriber rank backend w limit e s))
  unfolding no_subscriber
  no_subscriber-Answers e s counted =
      elim (Bool-cases (not s.options.disable_retry && w.user_late 1)) [
        | inl late ↦ rw late (
            widen 2 (most w) s _ (omega arith) (
              after_error 1 s _
                (past_deadline-Answers limit (add_total_error s) (add64-lt _ _, counted.1))))
        | inr in_time ↦
            rw in_time (widen 1 (most w) s _ (omega arith) (fall_back-Answers limit _ _ s counted))
      ]

  get_subscriber-Answers :
      (id : ℕ) (s : Server)
      → ((t : ℕ) (us : List UserInfo) → backend.subscriber t (id ∷ []) ≡ value us → us ≢ [])
      → IsCounted s
      → 0 < s.user_max_batch_size
      → 0 < s.video_max_batch_size
      → Answers (most w) s (get_subscriber rank backend w limit id s)
  unfolding get_subscriber
  get_subscriber-Answers id s answers counted users videos =
      let call : ℕ → Reply (List UserInfo) = λ t. backend.subscriber t (id ∷ []) in
      let n = (retry s.options.disable_retry call).0 in
      elim (Bool-cases (has_failed (call 0) && w.user_late 0)) [
        | inl late ↦ rw late (
            widen 1 (most w) s _ (omega arith)
              (past_deadline-Answers limit (add_user_errors 1 s) counted))
        | inr in_time ↦ elim (Reply-cases (retry s.options.disable_retry call).1) [
          | inr (e, bad) ↦ rw (in_time, bad) (no_subscriber-Answers e (add_user_errors n s) counted)
          | inl (us, good) ↦
              rw (in_time, good)
                (with_subscriber-Answers us (add_user_errors n s)
                  (retry-value s.options.disable_retry call (λ us. us ≢ []) answers us good) counted
                  users videos)
        ]
      ]

  serve_request-Answers :
      (id : ℕ) (s : Server)
      → ((t : ℕ) (us : List UserInfo) → backend.subscriber t (id ∷ []) ≡ value us → us ≢ [])
      → IsCounted s
      → 0 < s.user_max_batch_size
      → 0 < s.video_max_batch_size
      → Answers (most w) s (serve_request rank backend w limit id s)
  unfolding serve_request identify get_client
  serve_request-Answers id s answers counted users videos =
      let s1 : Server = add_user_errors (get_client w.dial 0 0 s).0 s in
      elim (Bool-cases w.started_late) [
        | inl late ↦
            rw late (widen 1 (most w) s _ (omega arith) (past_deadline-Answers limit s counted))
        | inr in_time ↦ elim (Reply-cases (get_client w.dial 0 0 s).1) [
          | inr (e, bad) ↦
              rw (in_time, bad, serve_request)
                (widen 1 (most w) s1 _ (omega arith) (no_user_client-Answers limit e s1 counted))
          | inl (conn, good) ↦ elim (Bool-cases (id == 0)) [
            | inl zero_id ↦
                rw (in_time, good, zero_id, serve_request)
                  (widen 1 (most w) s1 _ (omega arith) (fall_back-Answers limit _ _ s1 counted))
            | inr real ↦
                rw (in_time, good, real, serve_request)
                  (get_subscriber-Answers id s1 answers counted users videos)
          ]
        ]
      ]

with_limit-returns :
    (rank : Coefficients → Coefficients → ℕ) (backend : Backend) (w : World) (limit : ℤ) (id : ℕ)
    (s : Server)
    → IsCounted s
    → 0 < s.user_max_batch_size
    → 0 < s.video_max_batch_size
    → ((t : ℕ) (us : List UserInfo) → backend.subscriber t (id ∷ []) ≡ value us → us ≢ [])
    → (s' : Server) × (r : Reply Response) × (with_limit rank backend w limit id s ≡ ok (s', r))
      × Grows
          (most w)
          (if is_negative limit then 0 else due_errors r)
          s.total_errors
          s'.total_errors
      × Grows (most w) (due_stale r) s.stale_responses s'.stale_responses
      × Keeps s s'
unfolding with_limit
with_limit-returns rank backend w (negsuc n) id s counted users videos answers =
    (_, _, refl, same (most w) _ counted.0, same (most w) _ counted.1, keeps s)
with_limit-returns rank backend w (pos limit) id s counted users videos answers =
    serve_request-Answers rank backend w limit id s answers counted users videos

active_back : (a : ℕ) → a < 2 ^ 64 → add64 (add64 a 1) (2 ^ 64 - 1) ≡ a
active_back a lt = omega arith

-- On a server with batch sizes of at least 1 and counters below 2^64, with a user service whose
-- replies to the subscriber's id alone are errors or lists that are not empty; whichever connections
-- fail, whatever else the services reply and whichever deadlines pass: the handler returns. The
-- request is counted, the number of active requests is as before and the latency is recorded. The
-- errors that it adds, modulo 2^64, are from 1 on where the reply is an error (from 0 on for a
-- negative limit), the stale responses from 1 on where the reply is stale, and both are at most two
-- more than the goroutines that ask for videos.
pub get_top_videos-returns :
    (rank : Coefficients → Coefficients → ℕ) (backend : Backend) (w : World) (req : Request)
    (s : Server)
    → IsCounted s
    → 0 < s.user_max_batch_size
    → 0 < s.video_max_batch_size
    → s.active_requests < 2 ^ 64
    → ((t : ℕ) (us : List UserInfo) → backend.subscriber t (req.user_id ∷ []) ≡ value us → us ≢ [])
    → (s' : Server) × (r : Reply Response) × (get_top_videos rank backend w req s ≡ ok (s', r))
      × (s'.total_requests ≡ add64 s.total_requests 1)
      × (s'.active_requests ≡ s.active_requests)
      × Grows
          (most w)
          (if is_negative req.limit then 0 else due_errors r)
          s.total_errors
          s'.total_errors
      × Grows (most w) (due_stale r) s.stale_responses s'.stale_responses
      × (s'.latencies ≡ w.schedule.latency ∷ s.latencies)
      × (s'.total_sum_latency_ms ≡ add64 s.total_sum_latency_ms w.schedule.latency)
unfolding get_top_videos enter leave
get_top_videos-returns rank backend w req s counted users videos active answers =
    let (s', r, done, errors, stale, (requests, is_active, lats, sum)) =
      with_limit-returns rank backend w req.limit req.user_id (enter s) counted users videos
        answers in
    (
      leave w.schedule.latency s',
      r,
      rw done refl,
      requests,
      ap (λ a. add64 a (2 ^ 64 - 1)) is_active ∙ active_back s.active_requests active,
      errors,
      stale,
      ap (λ l. w.schedule.latency ∷ l) lats,
      ap (λ t. add64 t w.schedule.latency) sum,
    )
