-- ===== src/Lab1/TopVideos/Timeout.antt =====
-- lab1/video_rec_service/server_lib/server_lib.go, `GetTopVideos`: a call for videos that takes
-- longer than its 2 seconds, where there is nothing to fall back on.
use cpsc.Common.{
  ℕ, ◌<◌, ◌≡◌, ◌≢◌, ◌⊎◌, refl, ap, ◌∙◌, inl, inr, true, false, none, some, List, [], ◌∷◌, ◌++◌,
  arith, ◌==◌, Bool-cases, flat_map,
}
use cpsc.Common.Int.{pos}
use cpsc.Common.Outcome.{ok, ◌>>=◌}
use cpsc.Services.Rpc.{Reply, value, UserInfo, VideoInfo, Coefficients}
use cpsc.VideoRec.State.{Server, add_video_errors, enter, leave}
use cpsc.VideoRec.Batches.{batch}
use cpsc.VideoRec.Ranking.{rank_videos, get_cached_videos, limited, sort_ranked}
use cpsc.VideoRec.Gather.{stale, Gathered, sent_caches}
use cpsc.VideoRec.TopVideos.{Response, Backend, first_error, liked_ids, gathered_users, reply_stale}
use cpsc.Lab1.Connect.{World}
use cpsc.Lab1.VideoCalls.{late_end, ask_videos, run_video_batch, gather_videos, count_videos}
use cpsc.Lab1.TopVideos.{pick_videos, video_ends, ask_for_videos, get_top_videos}
use cpsc.Lab1.TopVideos.Reach.{Connects, get_top_videos-calls, asked_users}

-- There is nothing to fall back on.
abbrev pub HasNoFallback : Server → Type 0
HasNoFallback s = (s.options.disable_fallback ≡ true) ⊎ (s.trending_cache ≡ [])

sends_nothing :
    (limit : ℕ) (s : Server)
    → HasNoFallback s
    → (late_end s.options (get_cached_videos s.trending_cache limit) 0).how ≡ stale []
unfolding late_end get_cached_videos
sends_nothing limit s (inl off) = rw off refl
sends_nothing limit s (inr empty) = elim (Bool-cases s.options.disable_fallback) [
  | inl off ↦ rw off refl
  | inr on ↦ rw (on, empty, get_cached_videos) refl
]

limited-nil : (limit : ℕ) → limited {A = VideoInfo} limit [] ≡ []
unfolding limited
limited-nil limit = ground arith

module _ (rank : Coefficients → Coefficients → ℕ) (backend : Backend) (w : World) (limit : ℕ)
    (user : UserInfo) (liked : List ℕ) (s : Server) (i : ℕ) (rest b : List ℕ) where
  late_batch :
      batch s.video_max_batch_size liked i ≡ some b
      → w.video_late i 0 ≡ true
      → HasNoFallback s
      → (video_ends rank backend w limit user s liked i).how ≡ stale []
  unfolding run_video_batch ask_videos
  late_batch asks late nothing =
      rw (asks, late, run_video_batch, ask_videos) (sends_nothing limit s nothing)

  pick_videos-nothing :
      (g : Gathered VideoInfo) (more : List (List VideoInfo)) (s1 : Server)
      → g.caches ≡ [] ∷ more
      → w.take_video_cache ≡ true
      → (pick_videos rank backend w limit user g s1).1
        ≡ value (record { videos = []; stale_response = true })
  unfolding pick_videos reply_stale rank_videos sort_ranked
  pick_videos-nothing g more s1 sent take =
      rw (sent, take, pick_videos)
        (ap (λ vids. value (record { videos = vids; stale_response = true })) (limited-nil limit))

  ask_for_videos-late :
      0 < s.video_max_batch_size
      → w.schedule.video_order.sends ≡ i ∷ rest
      → batch s.video_max_batch_size liked i ≡ some b
      → w.video_late i 0 ≡ true
      → HasNoFallback s
      → w.take_video_cache ≡ true
      → (s' : Server) × (ask_for_videos rank backend w limit user liked s
          ≡ ok (s', value (record { videos = []; stale_response = true })))
  unfolding ask_for_videos gather_videos
  ask_for_videos-late some_size order asks late nothing take =
      let sized : (s.video_max_batch_size == 0) ≡ false = ground arith in
      let ends = video_ends rank backend w limit user s liked in
      let g = gather_videos ends w.schedule.video_order in
      let s1 : Server = count_videos ends w.schedule.video_order s in
      let first : g.caches ≡ [] ∷ flat_map (λ j. sent_caches (ends j).how) rest =
        ap (flat_map (λ j. sent_caches (ends j).how)) order
        ∙ ap (λ e. sent_caches e ++ flat_map (λ j. sent_caches (ends j).how) rest)
            (late_batch asks late nothing) in
      let empty = pick_videos-nothing g _ s1 first take in
      (
        (pick_videos rank backend w limit user g s1).0,
        rw sized (ap (λ r. ok ((pick_videos rank backend w limit user g s1).0, r)) empty),
      )

-- The server can connect, the request is not late, the subscriber is found at the first attempt
-- and is subscribed to someone, and the calls for the users all end without an error and with
-- liked videos. There is nothing to fall back on: fallback is off or the cache is empty. Where the
-- call of the first goroutine to send takes longer than its 2 seconds and the `select` takes what
-- it sent, the reply is a stale one without videos, and no error.
pub get_top_videos-late :
    (rank : Coefficients → Coefficients → ℕ) (backend : Backend) (w : World) (limit id : ℕ)
    (user : UserInfo) (others : List UserInfo) (s : Server) (i : ℕ) (rest b : List ℕ)
    → Connects w.dial
    → w.started_late ≡ false
    → 0 < id
    → backend.subscriber 0 (id ∷ []) ≡ value (user ∷ others)
    → user.subscribed_to ≢ []
    → 0 < s.user_max_batch_size
    → 0 < s.video_max_batch_size
    → (gathered_users rank backend w.schedule limit user s).caches ≡ []
    → first_error (gathered_users rank backend w.schedule limit user s).replies ≡ none
    → liked_ids (gathered_users rank backend w.schedule limit user s).items ≢ []
    → HasNoFallback s
    → w.schedule.video_order.sends ≡ i ∷ rest
    → batch s.video_max_batch_size
        (liked_ids (gathered_users rank backend w.schedule limit user s).items)
        i
      ≡ some b
    → w.video_late i 0 ≡ true
    → w.take_video_cache ≡ true
    → (s' : Server) × (get_top_videos rank backend w (record { user_id = id; limit = pos limit }) s
        ≡ ok (s', value (record { videos = []; stale_response = true })))
unfolding enter
get_top_videos-late rank backend w limit id user others s i rest b connects in_time real found
      some_subscribed user_size video_size none_sent fine some_liked nothing order asks late take =
    let liked = liked_ids (gathered_users rank backend w.schedule limit user s).items in
    let (s', ends) =
      ask_for_videos-late rank backend w limit user liked
        (add_video_errors 0 (asked_users rank backend w connects limit user (enter s))) i rest b
        video_size order asks late nothing take in
    (
      leave w.schedule.latency s',
      get_top_videos-calls rank backend w connects limit id user others s in_time real found
            some_subscribed user_size none_sent fine some_liked
          ∙ ap (λ o. o >>= λ (r : Server × Reply Response). ok (leave w.schedule.latency r.0, r.1))
              ends,
    )
