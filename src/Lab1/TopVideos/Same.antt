-- ===== src/Lab1/TopVideos/Same.antt =====
-- lab1/video_rec_service/server_lib/server_lib.go, `GetTopVideos`, next to the handler of
-- lab2/video_rec_service/server_lib/server_lib.go: where connections succeed and no deadline passes,
-- what the two servers do.
use cpsc.Common.{ℕ, ◌≢◌, List, [], ◌∷◌}
use cpsc.Common.Outcome.{Outcome}
use Prim.Native.String.{String}
use cpsc.Services.Rpc.{Reply, UserInfo, Coefficients}
use cpsc.VideoRec.State.{Server}
use cpsc.VideoRec.TopVideos as Lab2
use cpsc.VideoRec.TopVideos.{Backend, Schedule, liked_ids, gathered_users}

module _ (rank : Coefficients → Coefficients → ℕ) (backend : Backend) (sched : Schedule)
    (dial : String → ℕ → Reply ℕ) (limit : ℕ) where
  -- The subscriber is subscribed to someone, and the users have liked videos.
  abbrev pub HasLiked : Server → List UserInfo → Type 0
  HasLiked s [] = Unit
  HasLiked s (user ∷ _) =
      (user.subscribed_to ≢ [])
      × (liked_ids (gathered_users rank backend sched limit user s).items ≢ [])
