-- ===== src/Lab1/TopVideos/Fetches.antt =====
-- lab1/video_rec_service/server_lib/server_lib.go, `GetTopVideos`: what the calls for the users and for
-- the videos do to the statistics.
use cpsc.Common.{
  ℕ, ◌<◌, ◌≡◌, refl, ◌+◌, ◌/◌, ◌≤◌, length, sym, subst, inl, inr, false, List, [], ◌∷◌, arith, ◌==◌,
  ◌&&◌, not, Bool-cases, Option-cases, List-cases,
}
use cpsc.Common.Outcome.{ok}
use cpsc.Services.Rpc.{UserInfo, VideoInfo, Coefficients, Reply-cases}
use cpsc.VideoRec.State.{Options, Server, add_total_error, add_user_errors, add_video_errors}
use cpsc.VideoRec.Batches.{batch}
use cpsc.VideoRec.Ranking.{get_cached_videos}
use cpsc.VideoRec.Gather.{Gathered}
use cpsc.VideoRec.TopVideos.{Backend, first_error, ranked, reply_stale, liked_ids, gathered_users}
use cpsc.Lab1.Connect.{World, get_client}
use cpsc.Lab1.VideoCalls.{
  gather_videos, count_videos, sum_over, late_end, run_video_batch, ask_videos, count_sent,
  has_failed, late_again,
}
use cpsc.Lab1.TopVideos.{
  cached_or_empty, rank_fetched, pick_videos, video_ends, ask_for_videos, use_video_client,
  by_liked, use_liked, pick_users, ask_for_users, by_subscribed,
}
use cpsc.Lab1.TopVideos.Answers.{
  IsCounted, keeps, Answers, same, once, add64-lt, after_error, after_counts, widen, most,
  fall_back-Answers, cached_or_empty-Answers,
}

sum_over-le : (f : ℕ → ℕ) (xs : List ℕ) → ((x : ℕ) → f x ≤ 1) → sum_over f xs ≤ length xs
unfolding sum_over
sum_over-le f [] le = omega arith
sum_over-le f (x ∷ xs) le = omega (arith, le x, sum_over-le f xs le)

module _ (rank : Coefficients → Coefficients → ℕ) (backend : Backend) (w : World) (limit : ℕ)
    (user : UserInfo) where
  reply_stale-Answers :
      (vids : List VideoInfo) (s : Server)
      → Answers 1 s (ok (reply_stale rank backend w.schedule limit user vids s))
  unfolding reply_stale
  reply_stale-Answers vids s =
      (_, _, refl, (1, omega arith, omega arith, refl), once 1 _ (omega arith), keeps s)

  rank_fetched-Answers :
      (g : Gathered VideoInfo) (s : Server)
      → IsCounted s
      → Answers 1 s (ok (rank_fetched rank backend w limit user g s))
  unfolding rank_fetched
  rank_fetched-Answers g s (errors, stale) = elim (Option-cases (first_error g.replies)) [
    | inl fine ↦ rw (fine, rank_fetched) (_, _, refl, same 1 _ errors, same 1 _ stale, keeps s)
    | inr (e, bad) ↦
        rw (bad, rank_fetched) (_, _, refl, once 1 _ (omega arith), same 1 _ stale, keeps s)
  ]

  pick_videos-Answers :
      (g : Gathered VideoInfo) (s : Server)
      → IsCounted s
      → Answers 1 s (ok (pick_videos rank backend w limit user g s))
  unfolding pick_videos rank_fetched
  pick_videos-Answers g s counted = elim (List-cases g.caches) [
    | inl empty ↦ rw (empty, pick_videos) (rank_fetched-Answers g s counted)
    | inr (vids, rest, sent) ↦ elim (Bool-cases w.take_video_cache) [
      | inl take ↦ rw (sent, take, pick_videos) (reply_stale-Answers vids s)
      | inr leave_it ↦
          let goes_on : pick_videos rank backend w limit user g s
              ≡ rank_fetched rank backend w limit user g s =
            rw (sent, leave_it, pick_videos) refl in
          subst (λ x. Answers 1 s (ok x)) (sym goes_on) (rank_fetched-Answers g s counted)
    ]
  ]

  -- A goroutine counts one error and one stale response at most.
  late_end-few :
      (o : Options) (cached : List VideoInfo) (failed : ℕ)
      → ((late_end o cached failed).total_errors ≤ 1)
        × ((late_end o cached failed).stale_responses ≤ 1)
  unfolding late_end
  late_end-few o cached failed = (omega arith, count_sent-few _)
    where
      count_sent-few : (l : List VideoInfo) → count_sent l ≤ 1
      count_sent-few [] = omega arith
      count_sent-few (v ∷ vs) = omega arith

  video_ends-few :
      (liked : List ℕ) (s : Server) (i : ℕ)
      → ((video_ends rank backend w limit user s liked i).total_errors ≤ 1)
        × ((video_ends rank backend w limit user s liked i).stale_responses ≤ 1)
  unfolding run_video_batch ask_videos late_again
  video_ends-few liked s i =
      let o = s.options in
      let cached = get_cached_videos s.trending_cache limit in
      elim (Option-cases (batch s.video_max_batch_size liked i)) [
        | inl none_left ↦ rw (none_left, run_video_batch) (omega arith, omega arith)
        | inr (b, asked) ↦ elim (Bool-cases (w.video_late i 0)) [
          | inl late ↦ rw (asked, run_video_batch, late) (late_end-few o cached 0)
          | inr in_time ↦
              elim (Bool-cases (
                has_failed (backend.videos i 0 b)
                && not o.disable_retry
                && ((i == length liked / s.video_max_batch_size) && w.video_late i 1))) [
                  | inl late ↦ rw (asked, run_video_batch, in_time, late) (late_end-few o cached 1)
                  | inr good ↦ rw (asked, run_video_batch, in_time, good) (omega arith, omega arith)
                ]
        ]
      ]

  ask_for_videos-Answers :
      (liked : List ℕ) (s : Server)
      → 0 < s.video_max_batch_size
      → Answers (most w) s (ask_for_videos rank backend w limit user liked s)
  unfolding ask_for_videos count_videos
  ask_for_videos-Answers liked s some_size =
      let sized : (s.video_max_batch_size == 0) ≡ false = ground arith in
      let ends = video_ends rank backend w limit user s liked in
      let order = w.schedule.video_order in
      rw sized (
        widen (length order.sends + 1) (most w) s _ (omega arith) (
          after_counts 1 (sum_over (λ i. (ends i).total_errors) order.sends)
            (sum_over (λ i. (ends i).stale_responses) order.sends) (length order.sends) s _
            (sum_over-le _ order.sends (λ i. (video_ends-few liked s i).0))
            (sum_over-le _ order.sends (λ i. (video_ends-few liked s i).1))
            (pick_videos-Answers (gather_videos ends order) (count_videos ends order s)
              (add64-lt _ _, add64-lt _ _))))

  use_video_client-Answers :
      (liked : List ℕ) (s : Server)
      → IsCounted s
      → 0 < s.video_max_batch_size
      → Answers (most w) s (use_video_client rank backend w limit user liked s)
  unfolding use_video_client
  use_video_client-Answers liked s counted some_size =
      elim (Reply-cases (get_client w.dial 1 2 s).1) [
        | inr (e, bad) ↦
            rw (bad, use_video_client)
              (widen 1 (most w) s _ (omega arith) (
                fall_back-Answers limit _ e (add_video_errors (get_client w.dial 1 2 s).0 s)
                  counted))
        | inl (conn, good) ↦
            rw (good, use_video_client)
              (ask_for_videos-Answers liked (add_video_errors (get_client w.dial 1 2 s).0 s)
                some_size)
      ]

  nothing_to_rank-Answers :
      (s : Server)
      → IsCounted s
      → Answers (most w) s (
          ok
            (cached_or_empty limit (ranked rank backend w.schedule limit user) (add_total_error s)))
  nothing_to_rank-Answers s (errors, stale) = widen 2 (most w) s _ (omega arith) (
      after_error 1 s _ (cached_or_empty-Answers limit _ (add_total_error s) (add64-lt _ _, stale)))

  by_liked-Answers :
      (liked : List ℕ) (s : Server)
      → IsCounted s
      → 0 < s.video_max_batch_size
      → Answers (most w) s (by_liked rank backend w limit user liked s)
  unfolding by_liked
  by_liked-Answers [] s counted some_size = nothing_to_rank-Answers s counted
  by_liked-Answers (v ∷ vs) s counted some_size =
      use_video_client-Answers (v ∷ vs) s counted some_size

  use_liked-Answers :
      (g : Gathered UserInfo) (s : Server)
      → IsCounted s
      → 0 < s.video_max_batch_size
      → Answers (most w) s (use_liked rank backend w limit user g s)
  unfolding use_liked
  use_liked-Answers g s counted some_size = elim (Option-cases (first_error g.replies)) [
    | inl fine ↦ rw (fine, use_liked) (by_liked-Answers (liked_ids g.items) s counted some_size)
    | inr (e, bad) ↦
        rw (bad, use_liked)
          (_, _, refl, once (most w) _ (omega arith), same (most w) _ counted.1, keeps s)
  ]

  pick_users-Answers :
      (g : Gathered UserInfo) (s : Server)
      → IsCounted s
      → 0 < s.video_max_batch_size
      → Answers (most w) s (pick_users rank backend w limit user g s)
  unfolding pick_users reply_stale use_liked
  pick_users-Answers g s counted some_size = elim (List-cases g.caches) [
    | inl empty ↦ rw (empty, pick_users) (use_liked-Answers g s counted some_size)
    | inr (vids, rest, sent) ↦ elim (Bool-cases w.schedule.take_cache) [
      | inl take ↦
          rw (sent, take, pick_users)
            (widen 1 (most w) s _ (omega arith) (reply_stale-Answers vids s))
      | inr leave_it ↦
          let goes_on : pick_users rank backend w limit user g s
              ≡ use_liked rank backend w limit user g s =
            rw (sent, leave_it, pick_users) refl in
          subst (λ x. Answers (most w) s x) (sym goes_on) (use_liked-Answers g s counted some_size)
    ]
  ]

  pub by_subscribed-Answers :
      (l : List ℕ) (s : Server)
      → IsCounted s
      → 0 < s.user_max_batch_size
      → 0 < s.video_max_batch_size
      → Answers (most w) s (by_subscribed rank backend w limit user l s)
  unfolding by_subscribed ask_for_users
  by_subscribed-Answers [] s counted users videos = nothing_to_rank-Answers s counted
  by_subscribed-Answers (_ ∷ _) s counted users videos =
      let sized : (s.user_max_batch_size == 0) ≡ false = ground arith in
      let g = gathered_users rank backend w.schedule limit user s in
      rw sized (pick_users-Answers g (add_user_errors g.errors s) counted videos)
