-- ===== src/Lab1/TopVideos/Answers.antt =====
-- lab1/video_rec_service/server_lib/server_lib.go, `GetTopVideos`: what the parts of the handler that reply
-- do to the statistics.
use cpsc.Common.{
  ℕ, ◌+◌, ◌≤◌, ◌<◌, ◌≡◌, ◌^◌, refl, sym, subst, inl, inr, List, arith, if◌then◌else◌, Bool-cases,
  List-cases, length,
}
use cpsc.Common.Outcome.{Outcome, ok}
use cpsc.Services.Rpc.{Reply, value, failure, RpcError, VideoInfo}
use cpsc.VideoRec.State.{Server, add64, add_total_error, add_user_errors}
use cpsc.VideoRec.Ranking.{get_cached_videos}
use cpsc.VideoRec.TopVideos.{Response, fall_back}
use cpsc.Lab1.Connect.{World}
use cpsc.Lab1.TopVideos.{deadline_exc, past_deadline, no_user_client, cached_or_empty}

-- The errors and the stale responses that a reply is to be counted as, at least.
abbrev pub due_errors : Reply Response → ℕ
due_errors (value r) = 0
due_errors (failure e) = 1

abbrev pub due_stale : Reply Response → ℕ
due_stale (value r) = if r.stale_response then 1 else 0
due_stale (failure e) = 0

-- What is left of a counter after `n` more, from `least` to `most`.
abbrev pub Grows : (most least : ℕ) → ℕ → ℕ → Type 0
Grows most least x y = (n : ℕ) × (least ≤ n) × (n ≤ most) × (y ≡ add64 x n)

abbrev pub IsCounted : Server → Type 0
IsCounted s = (s.total_errors < 2 ^ 64) × (s.stale_responses < 2 ^ 64)

-- The statistics that only the start and the end of the handler change.
abbrev pub Keeps : Server → Server → Type 0
Keeps s s' =
    (s'.total_requests ≡ s.total_requests)
    × (s'.active_requests ≡ s.active_requests)
    × (s'.latencies ≡ s.latencies)
    × (s'.total_sum_latency_ms ≡ s.total_sum_latency_ms)

pub keeps : (s : Server) → Keeps s s
keeps s = (refl, refl, refl, refl)

-- The bound on what one request is counted as: two more than the goroutines that ask for videos.
abbrev pub most : World → ℕ
most w = length w.schedule.video_order.sends + 2

-- The call returns; it has counted its errors and stale responses, at most `most`; and nothing else of the
-- statistics has changed but the errors of a service.
abbrev pub Answers : (most : ℕ) → Server → Outcome (Server × Reply Response) → Type 0
Answers most s o =
    (s' : Server) × (r : Reply Response) × (o ≡ ok (s', r))
    × Grows most (due_errors r) s.total_errors s'.total_errors
    × Grows most (due_stale r) s.stale_responses s'.stale_responses
    × Keeps s s'

pub same : (most x : ℕ) → x < 2 ^ 64 → Grows most 0 x x
same most x lt = (0, omega arith, omega arith, omega arith)

pub once : (most x : ℕ) → 1 ≤ most → Grows most 1 x (add64 x 1)
once most x le = (1, omega arith, le, refl)

further :
    (most least x y a c : ℕ) → a ≤ c → Grows most least (add64 x a) y → Grows (c + most) least x y
further most least x y a c below (n, le, ge, e) = (a + n, omega arith, omega arith, omega arith)

wider : (most most' least x y : ℕ) → most ≤ most' → Grows most least x y → Grows most' least x y
wider most most' least x y more (n, le, ge, e) = (n, le, omega arith, e)

pub add64-lt : (x a : ℕ) → add64 x a < 2 ^ 64
add64-lt x a = omega arith

pub widen :
    (most most' : ℕ) (s : Server) (o : Outcome (Server × Reply Response))
    → most ≤ most'
    → Answers most s o
    → Answers most' s o
widen most most' s o le (s', r, done, errors, stale, kept) = (
  s',
  r,
  done,
  wider most most' (due_errors r) s.total_errors s'.total_errors le errors,
  wider most most' (due_stale r) s.stale_responses s'.stale_responses le stale,
  kept,
)

-- Errors and stale responses that are counted first, at most `c`.
pub after_counts :
    (most a b c : ℕ) (s : Server) (o : Outcome (Server × Reply Response))
    → a ≤ c
    → b ≤ c
    → Answers most
        (record s {
          total_errors = add64 s.total_errors a;
          stale_responses = add64 s.stale_responses b;
        })
        o
    → Answers (c + most) s o
after_counts most a b c s o few_errors few_stale (s', r, done, errors, stale, kept) = (
  s',
  r,
  done,
  further most (due_errors r) s.total_errors s'.total_errors a c few_errors errors,
  further most (due_stale r) s.stale_responses s'.stale_responses b c few_stale stale,
  kept,
)

-- An error that is counted first.
pub after_error :
    (most : ℕ) (s : Server) (o : Outcome (Server × Reply Response))
    → Answers most (add_total_error s) o
    → Answers (1 + most) s o
after_error most s o (s', r, done, errors, stale, kept) = (
  s',
  r,
  done,
  further most (due_errors r) s.total_errors s'.total_errors 1 1 (omega arith) errors,
  wider most (1 + most) (due_stale r) s.stale_responses s'.stale_responses (omega arith) stale,
  kept,
)

pub fall_back-Answers :
    (limit : ℕ) (arrange : List VideoInfo → List VideoInfo) (e : RpcError) (s : Server)
    → IsCounted s
    → Answers 1 s (ok (fall_back limit arrange e (add_total_error s)))
unfolding fall_back
fall_back-Answers limit arrange e s (errors, stale) = elim (Bool-cases s.options.disable_fallback) [
  | inl off ↦ rw off (_, _, refl, once 1 _ (omega arith), same 1 _ stale, keeps s)
  | inr on ↦ elim (List-cases (get_cached_videos s.trending_cache limit)) [
    | inl nothing ↦
        rw (on, nothing, fall_back) (_, _, refl, once 1 _ (omega arith), same 1 _ stale, keeps s)
    | inr (v, vids, cached) ↦
        rw (on, cached, fall_back)
          (_, _, refl, (1, omega arith, omega arith, refl), once 1 _ (omega arith), keeps s)
  ]
]

pub no_user_client-Answers :
    (limit : ℕ) (e : RpcError) (s : Server)
    → IsCounted s
    → Answers 1 s (ok (no_user_client limit e s))
unfolding no_user_client fall_back
no_user_client-Answers limit e s (errors, stale) = elim (Bool-cases s.options.disable_retry) [
  | inr retries ↦
      let falls : no_user_client limit e s ≡ fall_back limit (λ vids. vids) e (add_total_error s) =
        rw retries refl in
      subst (λ x. Answers 1 s (ok x)) (sym falls)
        (fall_back-Answers limit (λ vids. vids) e s (errors, stale))
  | inl no_retry ↦ elim (Bool-cases s.options.disable_fallback) [
    | inl off ↦ rw (no_retry, off) (_, _, refl, once 1 _ (omega arith), same 1 _ stale, keeps s)
    | inr on ↦ elim (List-cases (get_cached_videos s.trending_cache limit)) [
      | inl nothing ↦
          rw (no_retry, on, nothing, fall_back)
            (_, _, refl, once 1 _ (omega arith), same 1 _ stale, keeps s)
      | inr (v, vids, cached) ↦
          rw (no_retry, on, cached, fall_back)
            (_, _, refl, same 1 _ errors, once 1 _ (omega arith), keeps s)
    ]
  ]
]

pub cached_or_empty-Answers :
    (limit : ℕ) (arrange : List VideoInfo → List VideoInfo) (s : Server)
    → IsCounted s
    → Answers 1 s (ok (cached_or_empty limit arrange s))
unfolding cached_or_empty
cached_or_empty-Answers limit arrange s (errors, stale) =
    elim (Bool-cases s.options.disable_fallback) [
      | inl off ↦ rw off (_, _, refl, same 1 _ errors, same 1 _ stale, keeps s)
      | inr on ↦ elim (List-cases (get_cached_videos s.trending_cache limit)) [
        | inl nothing ↦
            rw (on, nothing, cached_or_empty) (_, _, refl, same 1 _ errors, same 1 _ stale, keeps s)
        | inr (v, vids, cached) ↦
            rw (on, cached, cached_or_empty)
              (_, _, refl, same 1 _ errors, once 1 _ (omega arith), keeps s)
      ]
    ]

pub past_deadline-Answers :
    (limit : ℕ) (s : Server) → IsCounted s → Answers 1 s (ok (past_deadline limit s))
unfolding past_deadline deadline_exc
past_deadline-Answers limit s counted = fall_back-Answers limit _ _ (add_user_errors 1 s) counted
