-- ===== src/Lab1/Tests.antt =====
-- lab1/video_rec_service: the theorems at a concrete server and concrete services.
use cpsc.Common.{ℕ, zero, suc, ◌≡◌, ◌≢◌, refl, inr, true, false, some, List, [], ◌∷◌, arith, min}
use Prim.Native.String.{String}
use cpsc.Common.Int.{pos}
use cpsc.Common.Outcome.{ok}
use cpsc.Services.Rpc.{Reply, value, failure, plain_error, literal, UserInfo}
use cpsc.Services.Dedup.{fresh_ids, contains}
use cpsc.Services.Injection.{one_in, make_failure_injector, maybe_inject}
use cpsc.Services.User.{get_user, checked_users}
use cpsc.Services.Video.{get_video, checked_videos}
use cpsc.VideoRec.State.{Server, add64}
use cpsc.VideoRec.Connect.{connect_client}
use cpsc.VideoRec.Batches.{batch, slice, retry}
use cpsc.VideoRec.Gather.{gather, run_batch, batch_end}
use cpsc.VideoRec.TopVideos as Lab2
use cpsc.VideoRec.TopVideos.{Response, liked_ids}
use cpsc.VideoRec.Tests.{
  server, user_info, rank, schedule, backend, new_server, scan_last, user_db, video_db, draws,
}
use cpsc.Lab1.Connect.{World}
use cpsc.Lab1.TopVideos.{get_top_videos}
use cpsc.Lab1.TopVideos.Answers.{Grows, most, due_errors, due_stale}
use cpsc.Lab1.TopVideos.Returns.{get_top_videos-returns}
use cpsc.Lab1.TopVideos.Timeout.{get_top_videos-late}
use cpsc.Lab1.Discovery.{update_user_max_batch_size, update_video_max_batch_size}
use cpsc.Lab1.Discovery.Found.{update_max_batch_sizes_lem}

-- A server without mocks.
abbrev live : Server
live = record server { is_mock = false }

abbrev dial : String → ℕ → Reply ℕ
dial address n = value n

abbrev no_dial : String → ℕ → Reply ℕ
no_dial address n = failure (plain_error (literal "no connection"))

-- The first call fails.
abbrev late_dial : String → ℕ → Reply ℕ
late_dial address zero = failure (plain_error (literal "no connection"))
late_dial address (suc n) = value n

-- The first attempt for each batch of videos takes too long.
abbrev slow : World
slow = record {
  schedule = schedule;
  take_video_cache = true;
  dial = dial;
  started_late = false;
  user_late = λ t. false;
  video_late = λ i t. true;
}

get_top_videos-returns_example :
    (s' : Server) × (r : Reply Response) × (get_top_videos rank backend slow
        (record { user_id = 5; limit = pos 2 })
        live
      ≡ ok (s', r))
    × (s'.total_requests ≡ add64 0 1)
    × (s'.active_requests ≡ 0)
    × Grows (most slow) (due_errors r) 0 s'.total_errors
    × Grows (most slow) (due_stale r) 0 s'.stale_responses
    × (s'.latencies ≡ 12 ∷ [])
    × (s'.total_sum_latency_ms ≡ add64 0 12)
get_top_videos-returns_example =
    get_top_videos-returns rank backend slow (record { user_id = 5; limit = pos 2 }) live
      (omega arith, omega arith) (omega arith) (omega arith) (omega arith) subscriber_found
  where
    subscriber_found : (t : ℕ) (us : List UserInfo) → value (user_info 5 ∷ []) ≡ value us → us ≢ []
    subscriber_found t us e gone = ground (arith, e, gone)

get_top_videos-late_example :
    (s' : Server) × (get_top_videos rank backend slow (record { user_id = 5; limit = pos 2 }) live
      ≡ ok (s', value (record { videos = []; stale_response = true })))
unfolding gather run_batch batch_end batch slice retry liked_ids fresh_ids contains
get_top_videos-late_example =
    get_top_videos-late rank backend slow 2 5 (user_info 5) [] live 0 (1 ∷ 2 ∷ []) (109 ∷ 110 ∷ [])
      (λ address n. (n, refl)) refl (omega arith) refl (λ e. cc) (omega arith) (omega arith) refl
      refl (λ e. cc) (inr refl) refl refl refl refl

-- A server of lab1 with the batch sizes that it starts from.
abbrev new_live : Server
new_live = record new_server { is_mock = false }

update_max_batch_sizes_lem_example :
    (update_user_max_batch_size scan_last.sscanf late_dial 5
        (λ t ids. checked_users user_db ids)
        new_live
      ≡ some (record new_live { user_max_batch_size = min 4 3 }))
    × (update_video_max_batch_size scan_last.sscanf late_dial 5
          (λ t ids. checked_videos video_db ids)
          new_live
        ≡ some (record new_live { video_max_batch_size = min 4 3 }))
unfolding connect_client get_user get_video maybe_inject one_in make_failure_injector
update_max_batch_sizes_lem_example =
    update_max_batch_sizes_lem scan_last user_db video_db draws (λ t ids. checked_users user_db ids)
      (λ t ids. checked_videos video_db ids) late_dial new_live 1 0 1 0 2 5 refl refl (omega arith)
      (omega arith) (omega arith) (omega arith) refl refl (λ t ids. refl) (λ t ids. refl) refl refl
      (omega arith) (omega arith) (omega arith)
