-- ===== src/VideoRec/Discovery.antt =====
-- lab2/video_rec_service/server_lib/server_lib.go: the search for the batch sizes that the services
-- accept, `UpdateUserServiceMaxBatchSize` and `UpdateVideoServiceMaxBatchSize`. Both ask a service
-- for as many ids as the options allow until a reply settles the size; the sleep between two
-- attempts is left out. The replies to the attempts are those of the environment.
pub mod Settle
pub mod User
pub mod Video
use cpsc.Common.{ℕ, zero, suc, ◌+◌, ◌-◌, Option, none, some, List, [], ◌∷◌, if◌then◌else◌, ◌==◌}
use cpsc.Common.Outcome.{Outcome, ok, ◌>>=◌}
use Prim.Native.String.{String}
use cpsc.Services.Rpc.{
  Reply, value, failure, grpc, plain_error, Message, Code, invalid_argument, not_found, UserInfo,
  VideoInfo, user_batch_format, video_batch_format,
}
use cpsc.VideoRec.State.{Server, add64}
use cpsc.VideoRec.Connect.{take_user_client, take_video_client}

-- What a reply says: try again, stop with the size as it is, or stop and add to the size.
pub data Verdict : Type 0 where
  again : Verdict
  unread : Verdict
  grow : ℕ → Verdict

-- `max(0, n-1)` is `n - 1` here. `sscanf` is `fmt.Sscanf` with one `%d`.
module _ (sscanf : String → Message → Option ℕ) (format : String) (highest : ℕ) where
  unfoldable pub read_limit : Message → Verdict
  read_limit m = elim (sscanf format m) [ none ↦ unread | some lowest ↦ grow (lowest - 1) ]

  unfoldable pub on_code : Code → Message → Verdict
  on_code invalid_argument m = read_limit m
  on_code not_found m = grow (highest - 1)
  on_code _ m = again

  -- A reply without an error settles the size at the highest one.
  unfoldable pub verdict {ℓ} : {A : Type ℓ} → Reply A → Verdict
  verdict (value a) = grow (highest - 1)
  verdict (failure (grpc c m)) = on_code c m
  verdict (failure (plain_error m)) = again

-- The loop, from attempt `t` on: the size it ends with, or nothing where it is still at it after
-- `fuel` attempts.
unfoldable pub settle : (ℕ → Verdict) → (fuel t size : ℕ) → Option ℕ
settle v zero t size = none
settle v (suc fuel) t size =
    let rest = settle v fuel (t + 1) size in
    elim (v t) [ again ↦ rest | unread ↦ some size | grow n ↦ some (add64 size n) ]

-- The ids that the user service is asked for: one id `n` times.
unfoldable pub user_probe : ℕ → List ℕ
user_probe zero = []
user_probe (suc n) = 204054 ∷ user_probe n

-- The ids that the video service is asked for: `n` ids from `first` on.
unfoldable pub video_probe : (first n : ℕ) → List ℕ
video_probe first zero = []
video_probe first (suc n) = first ∷ video_probe (first + 1) n

module _ (sscanf : String → Message → Option ℕ) (fuel : ℕ) where
  -- `UpdateUserServiceMaxBatchSize` and `UpdateVideoServiceMaxBatchSize` with the client at hand.
  unfoldable pub search_user_size :
      (call : ℕ → List ℕ → Reply (List UserInfo)) → Server → Option Server
  search_user_size call s =
      let highest = s.options.max_batch_size in
      if highest == 0
      then some s
      else elim (settle
          (λ t. verdict sscanf user_batch_format highest (call t (user_probe highest))) fuel 0
          s.user_max_batch_size) [
            | none ↦ none
            | some size ↦ some (record s { user_max_batch_size = size })
          ]

  unfoldable pub search_video_size :
      (call : ℕ → List ℕ → Reply (List VideoInfo)) → Server → Option Server
  search_video_size call s =
      let highest = s.options.max_batch_size in
      if highest == 0
      then some s
      else elim (settle
          (λ t. verdict sscanf video_batch_format highest (call t (video_probe 1300 highest))) fuel
          0 s.video_max_batch_size) [
            | none ↦ none
            | some size ↦ some (record s { video_max_batch_size = size })
          ]

  -- `UpdateUserServiceMaxBatchSize`
  unfoldable pub update_user_max_batch_size :
      (call : ℕ → List ℕ → Reply (List UserInfo)) → Server → Outcome (Option Server)
  update_user_max_batch_size call s = take_user_client s >>= λ s'. ok (search_user_size call s')

  -- `UpdateVideoServiceMaxBatchSize`
  unfoldable pub update_video_max_batch_size :
      (call : ℕ → List ℕ → Reply (List VideoInfo)) → Server → Outcome (Option Server)
  update_video_max_batch_size call s = take_video_client s >>= λ s'. ok (search_video_size call s')
