-- ===== src/Lab1/Discovery.antt =====
-- lab1/video_rec_service/server_lib/server_lib.go: `UpdateUserServiceMaxBatchSize` and
-- `UpdateVideoServiceMaxBatchSize`, which connect until they succeed and then search as those of
-- lab2 do. The sleep between two attempts is left out.
pub mod Found
use cpsc.Common.{ℕ, zero, suc, ◌+◌, Option, none, some, List, if◌then◌else◌}
use Prim.Native.String.{String}
use cpsc.Services.Rpc.{Reply, value, failure, Message, UserInfo, VideoInfo}
use cpsc.VideoRec.State.{Server}
use cpsc.VideoRec.Connect.{connect_client}
use cpsc.VideoRec.Discovery.{search_user_size, search_video_size}

-- The loop that connects, from call `t` on: the connection, or nothing where it is still at it after
-- `fuel` calls.
unfoldable pub connect_until : (call : ℕ → Reply ℕ) → (fuel t : ℕ) → Option ℕ
connect_until call zero t = none
connect_until call (suc fuel) t =
    let rest = connect_until call fuel (t + 1) in
    elim (call t) [ value conn ↦ some conn | failure e ↦ rest ]

-- `dial` is `grpc.NewClient`, `sscanf` is `fmt.Sscanf`.
module _ (dial : String → ℕ → Reply ℕ) (fuel : ℕ) where
  -- A client for the target: the mock, or one on a connection.
  unfoldable pub find_client : (target : ℕ) → Server → Option ℕ
  find_client target s =
      if s.is_mock then some 0 else connect_until (connect_client dial s.options target) fuel 0

module _ (sscanf : String → Message → Option ℕ) (dial : String → ℕ → Reply ℕ) (fuel : ℕ) where
  -- `UpdateUserServiceMaxBatchSize`
  unfoldable pub update_user_max_batch_size :
      (call : ℕ → List ℕ → Reply (List UserInfo)) → Server → Option Server
  update_user_max_batch_size call s = elim (find_client dial fuel 0 s) [
    | none ↦ none
    | some conn ↦ search_user_size sscanf fuel call s
  ]

  -- `UpdateVideoServiceMaxBatchSize`
  unfoldable pub update_video_max_batch_size :
      (call : ℕ → List ℕ → Reply (List VideoInfo)) → Server → Option Server
  update_video_max_batch_size call s = elim (find_client dial fuel 1 s) [
    | none ↦ none
    | some conn ↦ search_video_size sscanf fuel call s
  ]
