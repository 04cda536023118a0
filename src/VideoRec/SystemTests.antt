-- ===== src/VideoRec/SystemTests.antt =====
-- lab2: a new recommender with a user service and a video service, and one request.
use cpsc.Common.{ℕ, ◌≡◌, refl, inl, false, some, List, [], ◌∷◌, arith, map, min}
use mathlib.Core.List.{Perm}
use mathlib.Core.List.Perm
use cpsc.Common.Int.{pos}
use cpsc.Common.Outcome.{ok}
use cpsc.Services.Rpc.{value, VideoInfo}
use cpsc.Services.Dedup.{Distinct, fresh_ids, contains}
use cpsc.Services.Injection.{one_in, make_failure_injector, maybe_inject}
use cpsc.Services.User.{get_user, checked_users, find_users}
use cpsc.Services.Video.{get_video, checked_videos}
use cpsc.VideoRec.State.{Server}
use cpsc.VideoRec.Batches.{batch, slice, retry}
use cpsc.VideoRec.Ranking.{rank_videos}
use cpsc.VideoRec.Gather.{gather, run_batch, batch_end}
use cpsc.VideoRec.Gather.Laws.{EachOnce}
use cpsc.VideoRec.TopVideos.{Backend, Schedule, get_top_videos, liked_ids}
use cpsc.VideoRec.TopVideos.Fresh.{liked}
use cpsc.VideoRec.Discovery.{update_user_max_batch_size, update_video_max_batch_size}
use cpsc.VideoRec.Discovery.User.{update_user_max_batch_size_lem}
use cpsc.VideoRec.Discovery.Video.{update_video_max_batch_size_lem}
use cpsc.VideoRec.System.{IsServed, IsConsistent, likes}
use cpsc.VideoRec.System.Discovered.{IsNew, Discovers, discovered-get_top_videos}
use cpsc.VideoRec.Tests.{
  new_server, user_info, video_info, rank, user_db, video_db, draws, scan_last,
}

abbrev services : Backend
services = record {
  subscriber = λ t ids. checked_users user_db ids;
  users = λ i t ids. checked_users user_db ids;
  videos = λ i t ids. checked_videos video_db ids;
}

abbrev is_served : IsServed user_db video_db services
unfolding get_user get_video maybe_inject one_in make_failure_injector
is_served = record {
  users_calm = record { failures = refl; omissions = refl };
  videos_calm = record { failures = refl; omissions = refl };
  subscriber = λ t ids. (draws t, refl);
  users = λ i t ids. (draws t, refl);
  videos = λ i t ids. (draws t, refl);
}

abbrev users_found :
    (n : ℕ) × (update_user_max_batch_size scan_last.sscanf 1
        (λ t ids. checked_users user_db ids)
        new_server
      ≡ ok (some (record new_server { user_conn_index = n; user_max_batch_size = min 4 3 })))
unfolding get_user maybe_inject one_in make_failure_injector
users_found =
    update_user_max_batch_size_lem scan_last user_db draws (λ t ids. checked_users user_db ids)
      new_server 0 1 (inl refl) (omega arith) (omega arith) (omega arith) refl (λ t ids. refl) refl
      (omega arith)

abbrev user_sized : Server
user_sized = record new_server { user_conn_index = users_found.0; user_max_batch_size = min 4 3 }

abbrev videos_found :
    (n : ℕ) × (update_video_max_batch_size scan_last.sscanf 1
        (λ t ids. checked_videos video_db ids)
        user_sized
      ≡ ok (some (record user_sized { video_conn_index = n; video_max_batch_size = min 4 3 })))
unfolding get_video maybe_inject one_in make_failure_injector
videos_found =
    update_video_max_batch_size_lem scan_last video_db draws (λ t ids. checked_videos video_db ids)
      user_sized 0 1 (inl refl) (omega arith) (omega arith) (omega arith) refl (λ t ids. refl) refl
      (omega arith)

abbrev sized_server : Server
sized_server = record user_sized {
  video_conn_index = videos_found.0;
  video_max_batch_size = min 4 3;
}

abbrev discovers : Discovers scan_last user_db video_db new_server user_sized sized_server
unfolding get_user get_video maybe_inject one_in make_failure_injector
discovers = record {
  fuel = 1;
  enough = omega arith;
  user_draws = draws;
  video_draws = draws;
  user_call = λ t ids. checked_users user_db ids;
  video_call = λ t ids. checked_videos video_db ids;
  serves_users = λ t ids. refl;
  serves_videos = λ t ids. refl;
  finds_users = users_found.1;
  finds_videos = videos_found.1;
}

abbrev is_new : IsNew user_db video_db new_server
is_new = record {
  ready = inl refl;
  some_size = omega arith;
  small = omega arith;
  users_new = refl;
  videos_new = refl;
  users_limit = omega arith;
  videos_limit = omega arith;
}

abbrev is_consistent : IsConsistent user_db video_db 5 (user_info 5) user_info video_info
is_consistent = record {
  found = refl;
  subscribes = λ e. cc;
  users = λ v c. refl;
  videos = λ v c. refl;
}

-- Two goroutines for the users, of which the second one has nothing to ask for, and two for the
-- videos.
abbrev in_turn : Schedule
in_turn = record {
  user_order = record { appends = 1 ∷ 0 ∷ []; sends = 0 ∷ 1 ∷ [] };
  video_order = record { appends = 1 ∷ 0 ∷ []; sends = 1 ∷ 0 ∷ [] };
  take_cache = false;
  latency = 3;
}

users_once : EachOnce 3 (7 ∷ 8 ∷ 9 ∷ []) in_turn.user_order
users_once = (Perm.swap 0 1 [], (omega arith, (omega arith, tt)))

videos_once :
    EachOnce 3 (liked rank services in_turn 2 (user_info 5) sized_server) in_turn.video_order
unfolding gather run_batch batch_end batch slice retry liked_ids fresh_ids contains checked_users
    find_users
videos_once = (Perm.swap 0 1 [], (omega arith, (omega arith, tt)))

discovered-get_top_videos_example :
    (s' : Server) × (ids : List ℕ) × (infos : List VideoInfo) × (get_top_videos rank services
        in_turn
        (record { user_id = 5; limit = pos 2 })
        sized_server
      ≡ ok (
        s',
        value (record { videos = rank_videos rank ((1, 5) ∷ []) infos 2; stale_response = false }),
      ))
    × Perm infos (map video_info ids)
    × Distinct ids
    × ((v : ℕ) → contains ids v ≡ contains (likes user_info (user_info 5)) v)
discovered-get_top_videos_example =
    discovered-get_top_videos services scan_last user_db video_db new_server user_sized sized_server
      is_served is_new discovers rank in_turn 2 5 (user_info 5) user_info video_info is_consistent
      (omega arith) users_once videos_once
