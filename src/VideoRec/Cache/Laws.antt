-- ===== src/VideoRec/Cache/Laws.antt =====
-- lab2/video_rec_service/server_lib/server_lib.go, `UpdateCache`: what is in the cache afterwards.
use cpsc.Common.{
  length, ◌/◌, ℕ, ◌≤◌, ◌<◌, ◌≡◌, ◌≢◌, refl, inl, inr, true, false, Option, none, some, List, [],
  ◌∷◌, arith, tests, map, ltb, ◌==◌, max, if◌then◌else◌, Bool-cases, Option-cases, List-cases,
}
use mathlib.Core.List.{Perm}
use cpsc.Common.Outcome.{ok}
use cpsc.Services.Rpc.{value, RpcError, VideoInfo, Reply-cases}
use cpsc.Services.Video.{Trending}
use cpsc.VideoRec.State.{Server, add_video_errors}
use cpsc.VideoRec.Batches.{batch, retry}
use cpsc.VideoRec.Gather.{Order, Gathered}
use cpsc.VideoRec.Gather.Laws.{NoError, EachOnce, left, gather-whole}
use cpsc.VideoRec.TopVideos.{video_call_format}
use cpsc.VideoRec.Cache.{
  Source, any_error, fill_empty, replace_cache, store, gathered_trending, counted, fetch_trending,
  update_cache,
}

any_error-NoError : (es : List (Option RpcError)) → NoError es → any_error es ≡ none
unfolding any_error
any_error-NoError [] h = refl
any_error-NoError (none ∷ es) h = any_error-NoError es h
any_error-NoError (some _ ∷ es) h = elim h [ ]

-- What an update does not do: it does not set the expiration time back, where it fails the
-- expiration time stays, and with it the cache stays too, unless it was empty.
abbrev pub Keeps : Server → Server × Option RpcError → Type 0
Keeps s r =
    (s.cache_expiration_time ≤ r.0.cache_expiration_time)
    × (r.1 ≢ none → r.0.cache_expiration_time ≡ s.cache_expiration_time)
    × (r.0.cache_expiration_time ≡ s.cache_expiration_time
        → s.trending_cache ≢ []
        → r.0.trending_cache ≡ s.trending_cache)

fill_empty-expiration :
    (infos : List VideoInfo) (s : Server)
    → (fill_empty infos s).cache_expiration_time ≡ s.cache_expiration_time
unfolding fill_empty
fill_empty-expiration infos s = elim (List-cases s.trending_cache) [
  | inl empty ↦ rw (empty, fill_empty) refl
  | inr (v, vids, full) ↦ rw (full, fill_empty) refl
]

fill_empty-full :
    (infos : List VideoInfo) (s : Server)
    → s.trending_cache ≢ []
    → (fill_empty infos s).trending_cache ≡ s.trending_cache
unfolding fill_empty
fill_empty-full infos s some_video = elim (List-cases s.trending_cache) [
  | inl empty ↦ absurd (some_video empty)
  | inr (v, vids, full) ↦ rw (full, fill_empty) full
]

replace_cache-later :
    (expiration : ℕ) (infos : List VideoInfo) (s : Server)
    → s.cache_expiration_time ≤ (replace_cache expiration infos s).cache_expiration_time
unfolding replace_cache
replace_cache-later expiration infos s =
    elim (Bool-cases (ltb s.cache_expiration_time expiration)) [
      | inl later ↦ rw later (omega tests)
      | inr old ↦ rw old (omega arith)
    ]

replace_cache-same :
    (expiration : ℕ) (infos : List VideoInfo) (s : Server)
    → (replace_cache expiration infos s).cache_expiration_time ≡ s.cache_expiration_time
    → (replace_cache expiration infos s).trending_cache ≡ s.trending_cache
unfolding replace_cache
replace_cache-same expiration infos s same =
    elim (Bool-cases (ltb s.cache_expiration_time expiration)) [
      | inl later ↦
          let moved : expiration ≡ s.cache_expiration_time = rw later at same in
          absurd (omega (tests, moved))
      | inr old ↦ rw old refl
    ]

store-Keeps :
    (expiration : ℕ) (g : Gathered VideoInfo) (s : Server) → Keeps s (store expiration g s)
unfolding store
store-Keeps expiration g s = elim (Option-cases (any_error g.replies)) [
  | inl fine ↦
      rw (fine, store)
        (
          replace_cache-later expiration g.items s,
          λ h. absurd (h refl),
          λ same full. replace_cache-same expiration g.items s same,
        )
  | inr (e, bad) ↦
      rw (bad, store)
        (
          omega (arith, fill_empty-expiration g.items s),
          λ h. fill_empty-expiration g.items s,
          λ h full. fill_empty-full g.items s full,
        )
]

-- With a batch size of at least 1 the update returns, and it does not set the expiration time back.
-- Where it returns an error, the expiration time is as before, and wherever that is so a cache that
-- was not empty is as before too.
pub update_cache-Keeps :
    (source : Source) (order : Order) (m : ℕ) (s : Server)
    → 0 < m
    → (r : Server × Option RpcError) × (update_cache source order m s ≡ ok r) × Keeps s r
unfolding update_cache fetch_trending
update_cache-Keeps source order m s some_size =
    elim (Reply-cases (retry s.options.disable_retry source.trending).1) [
      | inr (e, bad) ↦ rw (bad, update_cache) (_, refl, (omega arith, λ h. refl, λ h full. refl))
      | inl (trending, good) ↦
          let sized : (m == 0) ≡ false = ground arith in
          let s2 : Server = add_video_errors (retry s.options.disable_retry source.trending).0 s in
          let g = gathered_trending source order m trending.videos s2.options in
          rw (good, update_cache)
            (rw sized (_, refl, store-Keeps trending.expiration_time_s g (counted g s2)))
    ]

replace_cache-fields :
    (expiration : ℕ) (infos : List VideoInfo) (s : Server)
    → ((replace_cache expiration infos s).trending_cache
        ≡ (if ltb s.cache_expiration_time expiration then infos else s.trending_cache))
      × ((replace_cache expiration infos s).cache_expiration_time
          ≡ max s.cache_expiration_time expiration)
unfolding replace_cache
replace_cache-fields expiration infos s =
    elim (Bool-cases (ltb s.cache_expiration_time expiration)) [
      | inl later ↦ rw later (refl, omega tests)
      | inr old ↦ rw old (refl, omega tests)
    ]

-- Where the ids of the trending videos arrive and every call for videos is answered, after its
-- retry, the update returns no error, whatever the order in which the goroutines end; where the
-- expiration time that arrived is later than the one before, the cache is the videos for the ids,
-- and else it is as before; the expiration time is the later one of the two.
pub update_cache-fills :
    (source : Source) (order : Order) (m : ℕ) (s : Server) (trending : Trending)
    (video_info : ℕ → VideoInfo)
    → 0 < m
    → (retry s.options.disable_retry source.trending).1 ≡ value trending
    → EachOnce m trending.videos order
    → ((i : ℕ) (b : List ℕ)
        → i ≤ length trending.videos / m
        → batch m trending.videos i ≡ some b
        → left s.options source.videos i b ≡ value (map video_info b))
    → (s' : Server) × (infos : List VideoInfo) × (update_cache source order m s ≡ ok (s', none))
      × Perm infos (map video_info trending.videos)
      × (s'.trending_cache ≡ (
          if ltb s.cache_expiration_time trending.expiration_time_s
          then infos
          else s.trending_cache))
      × (s'.cache_expiration_time ≡ max s.cache_expiration_time trending.expiration_time_s)
unfolding update_cache fetch_trending store
update_cache-fills source order m s trending video_info some_size good once answers =
    let sized : (m == 0) ≡ false = ground arith in
    let s2 : Server = add_video_errors (retry s.options.disable_retry source.trending).0 s in
    let g = gathered_trending source order m trending.videos s2.options in
    let (perm, caches, replies) =
      gather-whole (record s.options { disable_fallback = true }) [] video_call_format m
        trending.videos source.videos video_info order some_size once answers in
    let (cache, expiration) =
      replace_cache-fields trending.expiration_time_s g.items (counted g s2) in
    (
      replace_cache trending.expiration_time_s g.items (counted g s2),
      g.items,
      rw (good, update_cache) (rw sized (rw (any_error-NoError g.replies replies, store) refl)),
      perm,
      cache,
      expiration,
    )
