-- ===== src/VideoRec/Tests.antt =====
-- lab2/video_rec_service: the theorems at a concrete server and concrete services.
use cpsc.Common.{
  ℕ, zero, suc, ◌+◌, ◌/◌, ◌≡◌, ◌≢◌, refl, inl, inr, Bool, true, false, Option, none, some, List, [],
  ◌∷◌, arith, map, flat_map, length, min, max, if◌then◌else◌, ltb, ◌||◌,
}
use mathlib.Core.List.{Perm}
use mathlib.Core.List.Perm
use Prim.Native.String.{String}
use cpsc.Common.Int.{pos}
use cpsc.Common.Outcome.{ok}
use cpsc.Services.Rpc.{
  Reply, value, failure, plain_error, literal, formatted, Message, Scan, UserInfo, VideoInfo,
  Coefficients,
}
use cpsc.Services.Dedup.{Distinct, fresh_ids, contains}
use cpsc.Services.Injection.{one_in, Draws, make_failure_injector, maybe_inject}
use cpsc.Services.User.{UserService, get_user, checked_users}
use cpsc.Services.Video.{VideoService}
use cpsc.VideoRec.State.{Options, Server, add64}
use cpsc.VideoRec.Batches.{batch, slice, indices, retry}
use cpsc.VideoRec.Ranking.{rank_videos}
use cpsc.VideoRec.Gather.{Order, gather, run_batch, batch_end}
use cpsc.VideoRec.Gather.Laws.{EachOnce, Attempts, served}
use cpsc.VideoRec.TopVideos.{Response, Backend, Schedule, get_top_videos, liked_ids}
use cpsc.VideoRec.TopVideos.Accounting.{get_top_videos-counts, is_fresh, is_stale}
use cpsc.VideoRec.TopVideos.Fresh.{friends, liked}
use cpsc.VideoRec.TopVideos.Replies.{get_top_videos-fresh, get_top_videos-partial}
use cpsc.VideoRec.Cache.{Source, update_cache}
use cpsc.VideoRec.Cache.Laws.{update_cache-fills}
use cpsc.VideoRec.Discovery.{update_user_max_batch_size}
use cpsc.VideoRec.Discovery.User.{update_user_max_batch_size_lem}

abbrev pub options : Options
options = record {
  user_service_addr = "users:8081";
  video_service_addr = "videos:8082";
  max_batch_size = 4;
  disable_fallback = false;
  disable_retry = false;
  client_pool_size = 2;
}

abbrev pub server : Server
server = record {
  options = options;
  user_max_batch_size = 2;
  video_max_batch_size = 2;
  is_mock = true;
  total_requests = 0;
  total_errors = 0;
  active_requests = 0;
  user_service_errors = 0;
  video_service_errors = 0;
  total_sum_latency_ms = 0;
  stale_responses = 0;
  latencies = [];
  trending_cache = [];
  cache_expiration_time = 0;
  user_conns = [];
  video_conns = [];
  user_conn_index = 0;
  video_conn_index = 0;
}

abbrev pub user_info : ℕ → UserInfo
user_info i = record {
  user_id = i;
  user_coefficients = (1, i) ∷ [];
  subscribed_to = 7 ∷ 8 ∷ 9 ∷ [];
  liked_videos = (100 + i) ∷ 110 ∷ [];
}

abbrev pub video_info : ℕ → VideoInfo
video_info i = record { video_id = i; video_coefficients = (1, i) ∷ [] }

abbrev pub rank : Coefficients → Coefficients → ℕ
rank user video = length user + length video

-- The goroutines append in another order than that of their numbers.
abbrev pub schedule : Schedule
schedule = record {
  user_order = record { appends = 1 ∷ 0 ∷ []; sends = 0 ∷ 1 ∷ [] };
  video_order = record { appends = 1 ∷ 0 ∷ 2 ∷ []; sends = 0 ∷ 1 ∷ 2 ∷ [] };
  take_cache = false;
  latency = 12;
}

abbrev pub backend : Backend
backend = record {
  subscriber = λ t ids. value (user_info 5 ∷ []);
  users = λ i t ids. value (map user_info ids);
  videos = λ i t ids. value (map video_info ids);
}

get_top_videos-counts_example :
    (s' : Server) × (r : Reply Response) × (get_top_videos rank backend schedule
        (record { user_id = 5; limit = pos 2 })
        server
      ≡ ok (s', r))
    × (s'.total_requests ≡ add64 0 1)
    × (s'.active_requests ≡ 0)
    × (s'.total_errors ≡ (if is_fresh r || false then 0 else add64 0 1))
    × (s'.stale_responses ≡ (if is_stale r then add64 0 1 else 0))
    × (s'.latencies ≡ 12 ∷ [])
    × (s'.total_sum_latency_ms ≡ add64 0 12)
get_top_videos-counts_example =
    get_top_videos-counts rank backend schedule (record { user_id = 5; limit = pos 2 }) server
      (inl refl) (omega arith) (omega arith) (omega arith) subscriber_found
  where
    subscriber_found : (t : ℕ) (us : List UserInfo) → value (user_info 5 ∷ []) ≡ value us → us ≢ []
    subscriber_found t us e gone = ground (arith, e, gone)

videos_once :
    (b : Backend)
    → b.users ≡ backend.users
    → EachOnce 2 (liked rank b schedule 2 (user_info 5) server) schedule.video_order
unfolding gather run_batch batch_end batch slice retry liked_ids fresh_ids contains
videos_once b same =
    rw same (Perm.swap 0 1 (2 ∷ []), (omega arith, (omega arith, (omega arith, tt))))

get_top_videos-fresh_example :
    (s' : Server) × (found : List VideoInfo) × (get_top_videos rank backend schedule
        (record { user_id = 5; limit = pos 2 })
        server
      ≡ ok (
        s',
        value (record { videos = rank_videos rank ((1, 5) ∷ []) found 2; stale_response = false }),
      ))
    × Perm (friends rank backend schedule 2 (user_info 5) server) (map user_info (7 ∷ 8 ∷ 9 ∷ []))
    × Perm found (map video_info (liked rank backend schedule 2 (user_info 5) server))
    × Distinct (liked rank backend schedule 2 (user_info 5) server)
    × ((v : ℕ)
        → contains (liked rank backend schedule 2 (user_info 5) server) v
          ≡ contains
              (flat_map
                (λ (u : UserInfo). u.liked_videos)
                (friends rank backend schedule 2 (user_info 5) server))
              v)
unfolding retry
get_top_videos-fresh_example =
    get_top_videos-fresh rank backend schedule 2 (user_info 5) user_info video_info server 5 []
      (inl refl) (omega arith) (omega arith) (omega arith) refl (λ e. cc)
      ((Perm.swap 0 1 [], (omega arith, (omega arith, tt))), λ i b le e. refl)
      (videos_once backend refl) (λ i b le e. refl)

-- The calls of goroutine 1 for videos fail.
abbrev some_good : ℕ → Bool
some_good zero = true
some_good (suc zero) = false
some_good (suc (suc i)) = true

abbrev lossy : Backend
lossy = record backend {
  videos = λ i t ids.
      if some_good i then value (map video_info ids) else failure (plain_error (literal "lost"));
}

lossy-Attempts : (i : ℕ) (b : List ℕ) → Attempts options lossy.videos video_info some_good i b
unfolding retry
lossy-Attempts zero b = inl (refl, refl)
lossy-Attempts (suc zero) b = inr (refl, (_, refl))
lossy-Attempts (suc (suc i)) b = inl (refl, refl)

get_top_videos-partial_example :
    (s' : Server) × (found : List VideoInfo) × (get_top_videos rank lossy schedule
        (record { user_id = 5; limit = pos 2 })
        server
      ≡ ok (
        s',
        value (record { videos = rank_videos rank ((1, 5) ∷ []) found 2; stale_response = false }),
      ))
    × Perm found (
        map video_info (
          flat_map
            (served 2 (liked rank lossy schedule 2 (user_info 5) server) some_good)
            (indices 0 (length (liked rank lossy schedule 2 (user_info 5) server) / 2 + 1))))
unfolding retry
get_top_videos-partial_example =
    get_top_videos-partial rank lossy schedule 2 (user_info 5) user_info video_info server some_good
      5 [] (inl refl) (omega arith) (omega arith) (omega arith) refl (λ e. cc)
      ((Perm.swap 0 1 [], (omega arith, (omega arith, tt))), λ i b le e. refl) refl refl
      (videos_once lossy refl) (λ i b le e. lossy-Attempts i b)

abbrev source : Source
source = record {
  trending = λ t. value (record { videos = 101 ∷ 102 ∷ 103 ∷ []; expiration_time_s = 1000 });
  videos = λ i t ids. value (map video_info ids);
}

abbrev pub cache_order : Order
cache_order = record { appends = 1 ∷ 0 ∷ []; sends = 0 ∷ 1 ∷ [] }

update_cache-fills_example :
    (s' : Server) × (infos : List VideoInfo) × (update_cache source cache_order 2 server
      ≡ ok (s', none))
    × Perm infos (map video_info (101 ∷ 102 ∷ 103 ∷ []))
    × (s'.trending_cache ≡ (if ltb 0 1000 then infos else []))
    × (s'.cache_expiration_time ≡ max 0 1000)
unfolding retry
update_cache-fills_example =
    update_cache-fills source cache_order 2 server
      (record { videos = 101 ∷ 102 ∷ 103 ∷ []; expiration_time_s = 1000 }) video_info (omega arith)
      refl (Perm.swap 0 1 [], (omega arith, (omega arith, tt))) (λ i b le e. refl)

-- A server with the batch sizes that it starts from, and services that accept at most three ids.
abbrev pub new_server : Server
new_server = record server { user_max_batch_size = 1; video_max_batch_size = 1 }

abbrev pub scan_last : Scan
scan_last = record { sscanf = read_number; scans = λ f n. refl }
  where
    read_number : String → Message → Option ℕ
    read_number f (formatted g n) = some n
    read_number f _ = none

abbrev pub user_db : UserService
user_db = record {
  max_batch_size = 3;
  injection = make_failure_injector;
  users = λ i. some (user_info i);
}

abbrev pub video_db : VideoService
video_db = record {
  max_batch_size = 3;
  ttl_seconds = 60;
  injection = make_failure_injector;
  videos = λ i. some (video_info i);
  top_videos = 101 ∷ [];
}

abbrev pub draws : ℕ → Draws
draws t = record { first = λ n. 0; second = λ n. 1 }

update_user_max_batch_size_lem_example :
    (n : ℕ) × (update_user_max_batch_size scan_last.sscanf 5
        (λ t ids. checked_users user_db ids)
        new_server
      ≡ ok (some (record new_server { user_conn_index = n; user_max_batch_size = min 4 3 })))
unfolding get_user maybe_inject one_in make_failure_injector
update_user_max_batch_size_lem_example =
    update_user_max_batch_size_lem scan_last user_db draws (λ t ids. checked_users user_db ids)
      new_server 2 5 (inl refl) (omega arith) (omega arith) (omega arith) refl (λ t ids. refl) refl
      (omega arith)
