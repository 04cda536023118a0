-- ===== src/Services/Tests.antt =====
-- lab2/user_service and lab2/video_service: the theorems at concrete services.
use cpsc.Common.{ℕ, ◌≡◌, ◌↔◌, refl, Option, some, List, [], ◌∷◌, map, if◌then◌else◌}
use cpsc.Common.Int.{pos}
use cpsc.Common.Outcome.{ok}
use cpsc.Services.Rpc.{Reply, value, UserInfo, VideoInfo}
use cpsc.Services.Injection.{Draws, FailureInjector}
use cpsc.Services.Dedup.{contains}
use cpsc.Services.User.{UserService}
use cpsc.Services.Video.{VideoService, get_video}
use cpsc.Services.Video.Laws as VideoLaws
use cpsc.Services.Video.Laws.{get_video_lem}

abbrev calm : FailureInjector
calm = record {
  config = record { sleep_ns = pos 5; failure_rate = pos 0; response_omission_rate = pos 0 };
}

abbrev draws : Draws
draws = record { first = λ n. 0; second = λ n. 0 }

-- Users 1 and 2 are there.
abbrev user_db : UserService
user_db = record { max_batch_size = 2; injection = calm; users = find }
  where
    find : ℕ → Option UserInfo
    find i =
        if contains (1 ∷ 2 ∷ []) i
        then some (record {
          user_id = i;
          user_coefficients = [];
          subscribed_to = 1 ∷ [];
          liked_videos = 8 ∷ [];
        })
        else Option.none

abbrev video_db : VideoService
video_db = record {
  max_batch_size = 2;
  ttl_seconds = 60;
  injection = calm;
  top_videos = 8 ∷ [];
  videos = λ i. some (record { video_id = i; video_coefficients = [] });
}

get_video_lem_example :
    (r : Reply (List VideoInfo)) × (get_video video_db draws (8 ∷ 8 ∷ []) ≡ ok r)
    × ((us : List VideoInfo)
        → (r ≡ value us) ↔ (
            VideoLaws.IsAccepted video_db (8 ∷ 8 ∷ [])
            × (map video_db.videos (8 ∷ 8 ∷ []) ≡ map some us)))
get_video_lem_example =
    get_video_lem video_db draws (8 ∷ 8 ∷ []) (record { failures = refl; omissions = refl })

abbrev twice : List ℕ
twice = 8 ∷ 9 ∷ 8 ∷ []
