-- ===== src/Lab1/Connect.antt =====
-- lab1/video_rec_service/server_lib/server_lib.go, `GetTopVideos`: what a request meets besides the
-- replies of the services, and how it takes a client.
use cpsc.Common.{ℕ, ◌+◌, Bool, false, true, if◌then◌else◌}
use Prim.Native.String.{String}
use cpsc.Services.Rpc.{Reply, value}
use cpsc.VideoRec.State.{Server}
use cpsc.VideoRec.Connect.{connect_client}
use cpsc.VideoRec.Batches.{retry}
use cpsc.VideoRec.TopVideos.{Schedule}

-- `dial` is `grpc.NewClient`: its result for an address and the number of the call in the request.
-- `started_late` says whether the deadline of the request is over at its start, and `user_late`
-- whether it is after failed attempt `t` to get the subscriber; `video_late`, whether attempt `t` of
-- goroutine `i` takes longer than its 2 seconds. `take_video_cache` is the choice of the second
-- `select` where a cached list waits and all goroutines have ended.
pub record World : Type 0 where
  pub schedule : Schedule
  pub take_video_cache : Bool
  pub dial : String → ℕ → Reply ℕ
  pub started_late : Bool
  pub user_late : (attempt : ℕ) → Bool
  pub video_late : (i attempt : ℕ) → Bool

-- A request that no deadline cuts short.
unfoldable pub on_time : (dial : String → ℕ → Reply ℕ) → Schedule → World
on_time dial schedule = record {
  schedule = schedule;
  take_video_cache = true;
  dial = dial;
  started_late = false;
  user_late = λ attempt. false;
  video_late = λ i attempt. false;
}

-- A client for the target: the mock, or one on a new connection, where the retry is a second call
-- of `ConnectClient`. `first` is the number of the first of the two calls. Also the number of
-- errors.
unfoldable pub get_client :
    (dial : String → ℕ → Reply ℕ) → (target first : ℕ) → Server → ℕ × Reply ℕ
get_client dial target first s =
    if s.is_mock
    then (0, value 0)
    else retry s.options.disable_retry (λ t. connect_client dial s.options target (first + t))
