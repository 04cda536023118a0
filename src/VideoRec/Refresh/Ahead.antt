-- ===== src/VideoRec/Refresh/Ahead.antt =====
-- lab2/video_rec_service/server_lib/server_lib.go, `ContinuallyRefreshCache`: the cache is refreshed
-- before it expires.
use cpsc.Common.{
  ℕ, ◌+◌, ◌*◌, ◌/◌, ◌^◌, ◌≤◌, ◌<◌, ◌≡◌, refl, inl, inr, true, false, none, some, List, [], ◌∷◌, map,
  length, ◌∙◌, arith, tests, ltb, Bool-cases,
}
use cpsc.Common.Outcome.{ok}
use cpsc.Services.Rpc.{value, VideoInfo}
use cpsc.Services.Video.{Trending}
use cpsc.VideoRec.State.{Server, Options}
use cpsc.VideoRec.Connect.{IsReady}
use cpsc.VideoRec.Batches.{batch, retry}
use cpsc.VideoRec.Gather.Laws.{EachOnce, left}
use cpsc.VideoRec.Cache.Laws.{update_cache-fills}
use cpsc.VideoRec.Cache.Same.{update_cache-options}
use cpsc.VideoRec.Refresh.Start.{continually_refresh_cache-IsReady}
use cpsc.VideoRec.Refresh.{
  Round, sleep_duration, pause, refresh_round, refresh_rounds, continually_refresh_cache,
}

-- A round that the video service answers, after a retry, with a cache that lasts at least 30 seconds
-- from the time of the round; the update takes less than 30 seconds.
pub record IsAnswered (o : Options) (video_info : ℕ → VideoInfo) (r : Round) : Type 0 where
  pub trending : Trending
  pub some_size : 0 < r.max_batch_size
  pub answer : (retry o.disable_retry r.source.trending).1 ≡ value trending
  pub once : EachOnce r.max_batch_size trending.videos r.order
  pub answers :
      (i : ℕ) (b : List ℕ)
      → i ≤ length trending.videos / r.max_batch_size
      → batch r.max_batch_size trending.videos i ≡ some b
      → left o r.source.videos i b ≡ value (map video_info b)
  pub lasts : r.now + 30 ≤ trending.expiration_time_s
  pub from_now : r.now ≤ r.later
  pub quick : r.later < r.now + 30

abbrev pub AllAnswered : Options → (ℕ → VideoInfo) → List Round → Type 0
AllAnswered o video_info [] = Unit
AllAnswered o video_info (r ∷ rs) = IsAnswered o video_info r × AllAnswered o video_info rs

-- After the round the cache lasts 30 seconds from its time, and the sleep ends before it expires.
abbrev pub IsAhead : Round → Server × ℕ → Type 0
IsAhead r (s, sleep) =
    (r.now + 30 ≤ s.cache_expiration_time)
    × (r.later * 10 ^ 9 + sleep < s.cache_expiration_time * 10 ^ 9)

-- The rounds, each with its result.
abbrev pub AllAhead : List Round → List (Server × ℕ) → Type 0
AllAhead [] [] = Unit
AllAhead (r ∷ rs) (u ∷ us) = IsAhead r u × AllAhead rs us
AllAhead _ _ = ⊥

sleep-short :
    (expiration now later : ℕ)
    → now + 30 ≤ expiration
    → later < now + 30
    → later * 10 ^ 9 + sleep_duration expiration now < expiration * 10 ^ 9
unfolding sleep_duration
sleep-short expiration now later lasts quick =
    let before : ltb now expiration ≡ true = ground arith in rw before (omega arith)

sleep-short_now :
    (expiration later : ℕ)
    → later < expiration
    → later * 10 ^ 9 + sleep_duration expiration later < expiration * 10 ^ 9
unfolding sleep_duration
sleep-short_now expiration later lasts =
    let before : ltb later expiration ≡ true = ground arith in rw before (omega arith)

module _ (video_info : ℕ → VideoInfo) where
  refresh_round-IsAhead :
      (r : Round) (s : Server)
      → IsAnswered s.options video_info r
      → (u : Server × ℕ) × (refresh_round r s ≡ ok u) × IsAhead r u × (u.0.options ≡ s.options)
  unfolding refresh_round pause
  refresh_round-IsAhead r s a = elim (Bool-cases (ltb s.cache_expiration_time (r.now + 30))) [
    | inr still ↦
        let lasts : r.now + 30 ≤ s.cache_expiration_time = omega tests in
        (
          (s, sleep_duration s.cache_expiration_time r.now),
          rw still refl,
          (lasts, sleep-short s.cache_expiration_time r.now r.later lasts a.quick),
          refl,
        )
    | inl soon ↦
        let (s', infos, done, perm, cache, expiration) =
          update_cache-fills r.source r.order r.max_batch_size s a.trending video_info a.some_size
            a.answer a.once a.answers in
        let lasts : r.now + 30 ≤ s'.cache_expiration_time = omega (arith, expiration, a.lasts) in
        (
          (s', sleep_duration s'.cache_expiration_time r.later),
          rw (soon, done) refl,
          (lasts, sleep-short_now s'.cache_expiration_time r.later (omega (arith, lasts, a.quick))),
          update_cache-options r.source r.order r.max_batch_size s (s', none) done,
        )
  ]

  refresh_rounds-AllAhead :
      (rs : List Round) (s : Server)
      → AllAnswered s.options video_info rs
      → (us : List (Server × ℕ)) × (refresh_rounds rs s ≡ ok us) × AllAhead rs us
  unfolding refresh_rounds
  refresh_rounds-AllAhead [] s h = ([], refl, tt)
  refresh_rounds-AllAhead (r ∷ rs) s h =
      let (u, one, ahead, same) = refresh_round-IsAhead r s h.0 in
      let (us, rest, all) = refresh_rounds-AllAhead rs u.0 (rw same h.1) in
      (u ∷ us, rw (one, rest) refl, (ahead, all))

  -- On a server with its clients where fallback is on: while the video service answers each round
  -- with a cache that lasts at least 30 seconds, and a round takes less than that, the loop never
  -- fails; after each round the cache lasts at least 30 seconds from the time of the round, and the
  -- sleep of the round ends before the cache expires.
  pub continually_refresh_cache-AllAhead :
      (rs : List Round) (s : Server)
      → IsReady s
      → s.options.disable_fallback ≡ false
      → AllAnswered s.options video_info rs
      → (us : List (Server × ℕ)) × (continually_refresh_cache rs s ≡ ok us) × AllAhead rs us
  continually_refresh_cache-AllAhead rs s ready on h =
      let (m, start) = continually_refresh_cache-IsReady rs s ready on in
      let (us, done, all) = refresh_rounds-AllAhead rs (record s { video_conn_index = m }) h in
      (us, start ∙ done, all)
