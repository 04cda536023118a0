-- ===== src/Services/Video.antt =====
-- lab2/video_service/server_lib/server_lib.go. The database that the service makes at random is a
-- parameter, and so is the clock.
pub mod Laws
use cpsc.Common.{
  ℕ, zero, suc, ◌+◌, not, Option, none, some, List, [], ◌∷◌, length, ltb, ◌==◌, if◌then◌else◌,
}
use Prim.Native.String.{String}
use cpsc.Common.Outcome.{Outcome, ok, ◌>>=◌}
use cpsc.Services.Rpc.{
  VideoInfo, Reply, value, failure, grpc, internal, invalid_argument, not_found, literal, formatted,
  video_batch_format,
}
use cpsc.Services.Injection.{
  InjectionConfig, FailureInjector, set_injection_config_pb, Draws, maybe_inject,
}
use cpsc.Services.Dedup.{deduplicate_ids}

abbrev pub video_missing_format : String
video_missing_format =
    "VideoService: video %d cannot be found, it may have been deleted or never existed in the first place."

pub record VideoService : Type 0 where
  pub max_batch_size : ℕ
  pub ttl_seconds : ℕ
  pub injection : FailureInjector
  pub videos : ℕ → Option VideoInfo
  pub top_videos : List ℕ

-- `SetInjectionConfig`
pub set_video_injection : InjectionConfig → VideoService → VideoService
set_video_injection c db = record db { injection = set_injection_config_pb c db.injection }

-- The loop over the ids: an id that is not there ends it with an error.
pub find_videos : VideoService → List ℕ → Reply (List VideoInfo)
find_videos db [] = value []
find_videos db (i ∷ ids) = elim (db.videos i) [
  | none ↦ failure (grpc not_found (formatted video_missing_format i))
  | some info ↦ elim (find_videos db ids) [
    | failure e ↦ failure e
    | value rest ↦ value (info ∷ rest)
  ]
]

pub checked_videos : VideoService → List ℕ → Reply (List VideoInfo)
checked_videos db [] = failure (
    grpc invalid_argument
      (literal "VideoService: video_ids in GetVideoRequest should not be empty"))
checked_videos db (i ∷ ids) =
    if ltb db.max_batch_size (length (i ∷ ids))
    then failure (grpc invalid_argument (formatted video_batch_format db.max_batch_size))
    else if not (length (deduplicate_ids (i ∷ ids)) == length (i ∷ ids))
    then failure (grpc invalid_argument (literal "VideoService: duplicate IDs found in video_ids"))
    else find_videos db (i ∷ ids)

-- `GetVideo`
unfoldable pub get_video : VideoService → Draws → List ℕ → Outcome (Reply (List VideoInfo))
get_video db d ids = maybe_inject db.injection d >>= λ should_error.
    if should_error
    then ok (failure (grpc internal (literal "VideoService: (injected) internal error!")))
    else ok (checked_videos db ids)

pub record Trending : Type 0 where
  pub videos : List ℕ
  pub expiration_time_s : ℕ

-- `GetTrendingVideos` at the time `now`, in seconds.
pub get_trending_videos : VideoService → Draws → (now : ℕ) → Outcome (Reply Trending)
get_trending_videos db d now = maybe_inject db.injection d >>= λ should_error.
    if should_error
    then ok (failure (grpc internal (literal "VideoService: (injected) internal error!")))
    else ok (value (record { videos = db.top_videos; expiration_time_s = now + db.ttl_seconds }))
