-- ===== src/Lab1/TopVideos/Calm.antt =====
-- lab1/video_rec_service/server_lib/server_lib.go, `GetTopVideos`: the calls for videos where none
-- of them takes too long are those of lab2.
use cpsc.Common.{
  ℕ, ◌+◌, ◌/◌, ◌<◌, ◌≡◌, ◌^◌, refl, ap, ◌∙◌, inl, inr, Bool, true, false, ◌&&◌, not, List, [], ◌∷◌,
  arith, if◌then◌else◌, ◌==◌, length, Option-cases,
}
use std.Path.{fun_ext, ap₂}
use cpsc.Common.Outcome.{Outcome, ok, panic}
use Prim.Native.String.{String}
use cpsc.Services.Rpc.{Reply, UserInfo, VideoInfo, Coefficients}
use cpsc.VideoRec.State.{Options, Server, add64, add_video_errors}
use cpsc.VideoRec.Batches.{batch, retry}
use cpsc.VideoRec.Ranking.{get_cached_videos}
use cpsc.VideoRec.Gather.{Gathered, BatchEnd, batch_end, run_batch, count_errors, gather}
use cpsc.VideoRec.TopVideos.{Response, Backend, Schedule, video_call_format, gathered_videos}
use cpsc.Lab1.Connect.{on_time}
use cpsc.Lab1.VideoCalls.{
  VideoEnd, ask_videos, late_again, has_failed, run_video_batch, sum_over, gather_videos,
  count_videos,
}
use cpsc.Lab1.TopVideos.{video_ends, pick_videos, ask_for_videos}

pub and_false : (b : Bool) → (b && false) ≡ false
and_false true = refl
and_false false = refl

pub add_none : (x : ℕ) → x < 2 ^ 64 → add64 x 0 ≡ x
add_none x lt = omega arith

-- The end of a goroutine that no deadline cuts short.
abbrev plain : ℕ × BatchEnd VideoInfo → VideoEnd
plain r = record { video_errors = r.0; total_errors = 0; stale_responses = 0; how = r.1 }

module _ (o : Options) (cached : List VideoInfo) (m : ℕ) (ids : List ℕ)
    (call : ℕ → ℕ → List ℕ → Reply (List VideoInfo)) where
  ask_videos-on_time :
      (i : ℕ) (b : List ℕ)
      → ask_videos o cached m ids call (λ j t. false) i b ≡ (
          let r = retry o.disable_retry (λ t. call i t b) in
          plain (r.0, batch_end o cached video_call_format r.1))
  unfolding ask_videos late_again
  ask_videos-on_time i b =
      rw
        (
          and_false (i == length ids / m),
          and_false (has_failed (call i 0 b) && not o.disable_retry),
        )
        refl

  run_video_batch-on_time :
      (i : ℕ)
      → run_video_batch o cached m ids call (λ j t. false) i
        ≡ plain (run_batch o cached video_call_format m ids call i)
  unfolding run_video_batch run_batch
  run_video_batch-on_time i = elim (Option-cases (batch m ids i)) [
    | inl nothing ↦ rw (nothing, run_video_batch, run_batch) refl
    | inr (b, asks) ↦ rw (asks, run_video_batch, run_batch) (ask_videos-on_time i b)
  ]

  sum-errors :
      (order : List ℕ)
      → sum_over (λ i. (run_batch o cached video_call_format m ids call i).0) order
        ≡ count_errors o cached video_call_format m ids call order
  unfolding sum_over count_errors
  sum-errors [] = refl
  sum-errors (i ∷ order) =
      ap (λ n. (run_batch o cached video_call_format m ids call i).0 + n) (sum-errors order)

sum-none : (order : List ℕ) → sum_over (λ (i : ℕ). 0) order ≡ 0
unfolding sum_over
sum-none [] = refl
sum-none (i ∷ order) = ground (arith, sum-none order)

module _ (rank : Coefficients → Coefficients → ℕ) (backend : Backend) (dial : String → ℕ → Reply ℕ)
    (sched : Schedule) (limit : ℕ) (user : UserInfo) where
  -- How the goroutines of lab2 end.
  abbrev runs : Server → List ℕ → ℕ → ℕ × BatchEnd VideoInfo
  runs s liked =
      run_batch s.options (get_cached_videos s.trending_cache limit) video_call_format
        s.video_max_batch_size liked backend.videos

  video_ends-plain :
      (s : Server) (liked : List ℕ)
      → video_ends rank backend (on_time dial sched) limit user s liked
        ≡ (λ i. plain (runs s liked i))
  unfolding on_time
  video_ends-plain s liked = fun_ext (
      run_video_batch-on_time s.options (get_cached_videos s.trending_cache limit)
        s.video_max_batch_size liked backend.videos)

  gather_videos-plain :
      (s : Server) (liked : List ℕ)
      → gather_videos (λ i. plain (runs s liked i)) sched.video_order
        ≡ gathered_videos rank backend sched limit user s liked
  unfolding gather_videos gather
  gather_videos-plain s liked =
      let g = gathered_videos rank backend sched limit user s liked in
      ap (λ n. record g { errors = n })
        (sum-errors s.options (get_cached_videos s.trending_cache limit) s.video_max_batch_size
          liked backend.videos sched.video_order.sends)

  count_videos-plain :
      (s : Server) (liked : List ℕ)
      → s.total_errors < 2 ^ 64
      → s.stale_responses < 2 ^ 64
      → count_videos (λ i. plain (runs s liked i)) sched.video_order s
        ≡ add_video_errors (gathered_videos rank backend sched limit user s liked).errors s
  unfolding count_videos gather
  count_videos-plain s liked errors stale =
      let none_more = sum-none sched.video_order.sends in
      rw
        (
          none_more,
          add_none s.total_errors errors,
          add_none s.stale_responses stale,
          sum-errors s.options (get_cached_videos s.trending_cache limit) s.video_max_batch_size
              liked backend.videos sched.video_order.sends,
        )
        refl

  -- Where no call takes too long, the goroutines leave what those of lab2 do.
  pub ask_for_videos-on_time :
      (s : Server) (liked : List ℕ)
      → s.total_errors < 2 ^ 64
      → s.stale_responses < 2 ^ 64
      → ask_for_videos rank backend (on_time dial sched) limit user liked s ≡ (
          let g = gathered_videos rank backend sched limit user s liked in
          if s.video_max_batch_size == 0
          then panic
          else ok (
              pick_videos rank backend
                (on_time dial sched)
                limit
                user
                g
                (add_video_errors g.errors s)))
  unfolding ask_for_videos on_time
  ask_for_videos-on_time s liked errors stale =
      let pick : Gathered VideoInfo → Server → Outcome (Server × Reply Response) = λ g s'.
        if s.video_max_batch_size == 0
        then panic
        else ok (pick_videos rank backend (on_time dial sched) limit user g s') in
      ap
        (λ ends.
          pick (gather_videos ends sched.video_order) (count_videos ends sched.video_order s))
        (video_ends-plain s liked)
      ∙ ap₂ pick (gather_videos-plain s liked) (count_videos-plain s liked errors stale)
