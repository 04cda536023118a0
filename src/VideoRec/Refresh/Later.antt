-- ===== src/VideoRec/Refresh/Later.antt =====
-- lab2/video_rec_service/server_lib/server_lib.go, `ContinuallyRefreshCache`: what the loop keeps,
-- whatever the video service replies.
use cpsc.Common.{
  ℕ, ◌+◌, ◌≤◌, ◌<◌, ◌≡◌, ◌≢◌, ◌∙◌, refl, inl, inr, false, List, [], ◌∷◌, arith, ltb, Bool-cases,
}
use cpsc.Common.Outcome.{ok}
use cpsc.VideoRec.State.{Server}
use cpsc.VideoRec.Connect.{IsReady}
use cpsc.VideoRec.Cache.Laws.{update_cache-Keeps}
use cpsc.VideoRec.Refresh.Start.{continually_refresh_cache-IsReady}
use cpsc.VideoRec.Refresh.{
  Round, sleep_duration, pause, refresh_round, refresh_rounds, continually_refresh_cache,
}

-- The expiration time is not set back, and where it stays a cache that is not empty stays too.
abbrev pub IsLater : Server → Server → Type 0
IsLater s s' =
    (s.cache_expiration_time ≤ s'.cache_expiration_time)
    × (s'.cache_expiration_time ≡ s.cache_expiration_time
        → s.trending_cache ≢ []
        → s'.trending_cache ≡ s.trending_cache)

-- One result for each round, each later than the one before.
abbrev pub AllLater : List Round → Server → List (Server × ℕ) → Type 0
AllLater [] s [] = Unit
AllLater (r ∷ rs) s (u ∷ us) = IsLater s u.0 × AllLater rs u.0 us
AllLater _ s _ = ⊥

abbrev pub AllSized : List Round → Type 0
AllSized [] = Unit
AllSized (r ∷ rs) = (0 < r.max_batch_size) × AllSized rs

refresh_round-IsLater :
    (r : Round) (s : Server)
    → 0 < r.max_batch_size
    → (u : Server × ℕ) × (refresh_round r s ≡ ok u) × IsLater s u.0
unfolding refresh_round
refresh_round-IsLater r s some_size = elim (Bool-cases (ltb s.cache_expiration_time (r.now + 30))) [
  | inr still ↦ (
    (s, sleep_duration s.cache_expiration_time r.now),
    rw still refl,
    (omega arith, λ same full. refl),
  )
  | inl soon ↦
      let ((s', e), done, (later, _, kept)) =
        update_cache-Keeps r.source r.order r.max_batch_size s some_size in
      ((s', pause e s'.cache_expiration_time r.later), rw (soon, done) refl, (later, kept))
]

refresh_rounds-AllLater :
    (rs : List Round) (s : Server)
    → AllSized rs
    → (us : List (Server × ℕ)) × (refresh_rounds rs s ≡ ok us) × AllLater rs s us
unfolding refresh_rounds
refresh_rounds-AllLater [] s h = ([], refl, tt)
refresh_rounds-AllLater (r ∷ rs) s h =
    let (u, one, later) = refresh_round-IsLater r s h.0 in
    let (us, rest, all) = refresh_rounds-AllLater rs u.0 h.1 in
    (u ∷ us, rw (one, rest) refl, (later, all))

-- On a server with its clients where fallback is on, and with batch sizes of at least 1: whatever the
-- video service replies, errors included, the loop goes on round after round, it never sets the
-- expiration time back, and it replaces a cache that is not empty only by one that expires later.
pub continually_refresh_cache-AllLater :
    (rs : List Round) (s : Server)
    → IsReady s
    → s.options.disable_fallback ≡ false
    → AllSized rs
    → (us : List (Server × ℕ)) × (continually_refresh_cache rs s ≡ ok us) × AllLater rs s us
continually_refresh_cache-AllLater rs s ready on h =
    let (m, start) = continually_refresh_cache-IsReady rs s ready on in
    let (us, done, all) = refresh_rounds-AllLater rs (record s { video_conn_index = m }) h in
    (us, start ∙ done, from_start m rs us all)
  where
    from_start :
        (m : ℕ) (rs : List Round) (us : List (Server × ℕ))
        → AllLater rs (record s { video_conn_index = m }) us
        → AllLater rs s us
    from_start m [] [] h = tt
    from_start m (r ∷ rs) (u ∷ us) h = h
    from_start m [] (u ∷ us) h = h
    from_start m (r ∷ rs) [] h = h
