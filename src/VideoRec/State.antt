-- ===== src/VideoRec/State.antt =====
-- lab2/video_rec_service/server_lib/server_lib.go: the options, the server and its counters, which
-- are uint64 and wrap around. Each atomic operation is one update; a slice that is nil is the empty
-- list, since the code makes no other empty slice.
use cpsc.Common.{ℕ, ◌+◌, ◌-◌, ◌/◌, ◌%◌, ◌^◌, Bool, List, [], max}
use Prim.Native.String.{String}
use cpsc.Services.Rpc.{VideoInfo}

abbrev pub add64 : ℕ → ℕ → ℕ
add64 a b = (a + b) % 2 ^ 64

-- `VideoRecServiceOptions`; MaxBatchSize and ClientPoolSize are int, and the code treats what is
-- below 0 as 0.
pub record Options : Type 0 where
  pub user_service_addr : String
  pub video_service_addr : String
  pub max_batch_size : ℕ
  pub disable_fallback : Bool
  pub disable_retry : Bool
  pub client_pool_size : ℕ

-- `latencies` is what `td` was given, the latest first. A connection is a number.
pub record Server : Type 0 where
  pub options : Options
  pub user_max_batch_size : ℕ
  pub video_max_batch_size : ℕ
  pub is_mock : Bool
  pub total_requests : ℕ
  pub total_errors : ℕ
  pub active_requests : ℕ
  pub user_service_errors : ℕ
  pub video_service_errors : ℕ
  pub total_sum_latency_ms : ℕ
  pub stale_responses : ℕ
  pub latencies : List ℕ
  pub trending_cache : List VideoInfo
  pub cache_expiration_time : ℕ
  pub user_conns : List ℕ
  pub video_conns : List ℕ
  pub user_conn_index : ℕ
  pub video_conn_index : ℕ

-- `MakeVideoRecServiceServerWithMocks`, before its two goroutines run; also what
-- `MakeVideoRecServiceServer` starts from.
unfoldable pub mocked : Options → Server
mocked options = record {
  options = options;
  user_max_batch_size = 1;
  video_max_batch_size = 1;
  is_mock = Bool.true;
  total_requests = 0;
  total_errors = 0;
  active_requests = 0;
  user_service_errors = 0;
  video_service_errors = 0;
  total_sum_latency_ms = 0;
  stale_responses = 0;
  latencies = [];
  trending_cache = [];
  cache_expiration_time = 0;
  user_conns = [];
  video_conns = [];
  user_conn_index = 0;
  video_conn_index = 0;
}

-- The statistics that the handlers keep.
abbrev pub add_total_error : Server → Server
add_total_error s = record s { total_errors = add64 s.total_errors 1 }

abbrev pub add_user_errors : ℕ → Server → Server
add_user_errors n s = record s { user_service_errors = add64 s.user_service_errors n }

abbrev pub add_video_errors : ℕ → Server → Server
add_video_errors n s = record s { video_service_errors = add64 s.video_service_errors n }

abbrev pub add_stale : Server → Server
add_stale s = record s { stale_responses = add64 s.stale_responses 1 }

-- `GetTopVideos`, at its start and in the function that it defers.
unfoldable pub enter : Server → Server
enter s = record s {
  total_requests = add64 s.total_requests 1;
  active_requests = add64 s.active_requests 1;
}

-- `^uint64(0)` is 2^64 - 1.
unfoldable pub leave : (latency : ℕ) → Server → Server
leave latency s = record s {
  active_requests = add64 s.active_requests (2 ^ 64 - 1);
  total_sum_latency_ms = add64 s.total_sum_latency_ms latency;
  latencies = List.◌∷◌ latency s.latencies;
}

-- `GetStats`. The quantile is that of the t-digest library, and `float32` of the average is left
-- out: the division is one of integers.
pub record Stats : Type 0 where
  pub total_requests : ℕ
  pub total_errors : ℕ
  pub active_requests : ℕ
  pub user_service_errors : ℕ
  pub video_service_errors : ℕ
  pub average_latency_ms : ℕ
  pub p99_latency_ms : ℕ
  pub stale_responses : ℕ

pub get_stats : (quantile99 : List ℕ → ℕ) → Server → Stats
get_stats quantile99 s = record {
  total_requests = s.total_requests;
  total_errors = s.total_errors;
  active_requests = s.active_requests;
  user_service_errors = s.user_service_errors;
  video_service_errors = s.video_service_errors;
  average_latency_ms = s.total_sum_latency_ms / max 1 s.total_requests;
  p99_latency_ms = quantile99 s.latencies;
  stale_responses = s.stale_responses;
}
