-- ===== src/Lab1/VideoCalls.antt =====
-- lab1/video_rec_service/server_lib/server_lib.go, `GetTopVideos`: the goroutines that ask for the
-- liked videos. Each call has its own 2 seconds; where it takes longer, its goroutine sends what
-- `deadlineExc` has in its reply.
use cpsc.Common.{
  ℕ, ◌+◌, ◌/◌, Bool, true, false, ◌&&◌, not, none, some, List, [], ◌∷◌, flat_map, if◌then◌else◌,
  length, ◌==◌,
}
use cpsc.Services.Rpc.{Reply, value, failure, VideoInfo}
use cpsc.VideoRec.State.{Options, Server, add64}
use cpsc.VideoRec.Batches.{batch, retry}
use cpsc.VideoRec.Gather.{
  BatchEnd, got, stale, batch_end, Order, Gathered, got_items, sent_caches, sent_replies,
}
use cpsc.VideoRec.TopVideos.{video_call_format}

-- What a goroutine adds to the errors of the video service, to all errors and to the stale
-- responses, and how it ends.
pub record VideoEnd : Type 0 where
  pub video_errors : ℕ
  pub total_errors : ℕ
  pub stale_responses : ℕ
  pub how : BatchEnd VideoInfo

abbrev pub has_failed {ℓ} : {A : Type ℓ} → Reply A → Bool
has_failed (value a) = false
has_failed (failure e) = true

abbrev pub count_sent : List VideoInfo → ℕ
count_sent [] = 0
count_sent (_ ∷ _) = 1

-- `r, _ := server.deadlineExc(limit)` and `returnChanCache <- r.GetVideos()`: the cached videos, or
-- nil where there are none or fallback is off. `failed` is the number of failed attempts before.
unfoldable pub late_end : Options → (cached : List VideoInfo) → (failed : ℕ) → VideoEnd
late_end o cached failed =
    let sent : List VideoInfo = if o.disable_fallback then [] else cached in
    record {
      video_errors = failed + 1;
      total_errors = 1;
      stale_responses = count_sent sent;
      how = stale sent;
    }

module _ (o : Options) (cached : List VideoInfo) (m : ℕ) (ids : List ℕ)
    (call : ℕ → ℕ → List ℕ → Reply (List VideoInfo)) (late : ℕ → ℕ → Bool) where
  -- Whether goroutine `i` tests the deadline of its second attempt: only the last one does.
  unfoldable pub late_again : ℕ → Bool
  late_again i = (i == length ids / m) && late i 1

  -- Goroutine `i` once it has ids to ask for.
  unfoldable pub ask_videos : (i : ℕ) → List ℕ → VideoEnd
  unfolding late_again late_end
  ask_videos i b =
      if late i 0
      then late_end o cached 0
      else (if has_failed (call i 0 b) && not o.disable_retry && late_again i
          then late_end o cached 1
          else (let r = retry o.disable_retry (λ t. call i t b) in
              record {
                video_errors = r.0;
                total_errors = 0;
                stale_responses = 0;
                how = batch_end o cached video_call_format r.1;
              }))

  -- Goroutine `i`
  unfoldable pub run_video_batch : ℕ → VideoEnd
  run_video_batch i = elim (batch m ids i) [
    | none ↦ record { video_errors = 0; total_errors = 0; stale_responses = 0; how = got [] }
    | some b ↦ ask_videos i b
  ]

-- The sum over the goroutines.
unfoldable pub sum_over {ℓ} : {A : Type ℓ} → (A → ℕ) → List A → ℕ
sum_over f [] = 0
sum_over f (x ∷ xs) = f x + sum_over f xs

module _ (end : ℕ → VideoEnd) (order : Order) where
  -- The slice and the channels once all goroutines have ended.
  unfoldable pub gather_videos : Gathered VideoInfo
  gather_videos = record {
    errors = sum_over (λ i. (end i).video_errors) order.sends;
    items = flat_map (λ i. got_items (end i).how) order.appends;
    caches = flat_map (λ i. sent_caches (end i).how) order.sends;
    replies = flat_map (λ i. sent_replies (end i).how) order.sends;
  }

  -- The statistics.
  unfoldable pub count_videos : Server → Server
  count_videos s = record s {
    video_service_errors =
        add64 s.video_service_errors (sum_over (λ i. (end i).video_errors) order.sends);
    total_errors = add64 s.total_errors (sum_over (λ i. (end i).total_errors) order.sends);
    stale_responses = add64 s.stale_responses (sum_over (λ i. (end i).stale_responses) order.sends);
  }
