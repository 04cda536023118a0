-- ===== src/VideoRec/Refresh.antt =====
-- lab2/video_rec_service/server_lib/server_lib.go, `ContinuallyRefreshCache`: the loop that keeps the
-- cache of trending videos from expiring. The time is in seconds, and a sleep in nanoseconds; for
-- times below 2^39 no int64 overflows.
pub mod Start
pub mod Ahead
pub mod Later
use cpsc.Common.{ℕ, ◌+◌, ◌-◌, ◌*◌, ◌^◌, Option, none, some, List, [], ◌∷◌, if◌then◌else◌, ltb}
use cpsc.Common.Outcome.{Outcome, ok, ◌>>=◌}
use cpsc.Services.Rpc.{RpcError}
use cpsc.VideoRec.State.{Server}
use cpsc.VideoRec.Connect.{take_video_client}
use cpsc.VideoRec.Gather.{Order}
use cpsc.VideoRec.Cache.{Source, update_cache}

-- What a round meets: the batch size that it loads, which other goroutines may change, the time of
-- its test, and the time after the update.
pub record Round : Type 0 where
  pub max_batch_size : ℕ
  pub now : ℕ
  pub later : ℕ
  pub source : Source
  pub order : Order

-- `(timeUntilExpiration - 100) * 10`, without its sign; the seconds that are left are taken for
-- milliseconds.
unfoldable pub sleep_duration : (expiration now : ℕ) → ℕ
sleep_duration expiration now =
    if ltb now expiration
    then ((expiration - now) * 10 ^ 6 - 100) * 10
    else ((now - expiration) * 10 ^ 6 + 100) * 10

-- The sleep after an update: 10 seconds after an error.
unfoldable pub pause : Option RpcError → (expiration now : ℕ) → ℕ
pause none expiration now = sleep_duration expiration now
pause (some e) expiration now = 10 ^ 10

-- A round of the loop, with the client at hand: the server and the sleep.
unfoldable pub refresh_round : Round → Server → Outcome (Server × ℕ)
refresh_round r s =
    if ltb s.cache_expiration_time (r.now + 30)
    then (update_cache r.source r.order r.max_batch_size s >>= λ u.
        ok (u.0, pause u.1 u.0.cache_expiration_time r.later))
    else ok (s, sleep_duration s.cache_expiration_time r.now)

-- The loop, with the server and the sleep after each round.
unfoldable pub refresh_rounds : List Round → Server → Outcome (List (Server × ℕ))
refresh_rounds [] s = ok []
refresh_rounds (r ∷ rs) s = refresh_round r s >>= λ u. refresh_rounds rs u.0 >>= λ us. ok (u ∷ us)

-- `ContinuallyRefreshCache`, for its first rounds: the client is taken in the first one.
unfoldable pub continually_refresh_cache : List Round → Server → Outcome (List (Server × ℕ))
continually_refresh_cache rs s =
    if s.options.disable_fallback
    then ok []
    else (take_video_client s >>= λ s'. refresh_rounds rs s')
