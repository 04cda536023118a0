-- ===== src/Lab1/Refresh/Connected.antt =====
-- lab1/video_rec_service/server_lib/server_lib.go, `ContinuallyRefreshCache`, next to the loop of
-- lab2/video_rec_service/server_lib/server_lib.go: once a round has connected.
use cpsc.Common.{ℕ, ◌≡◌, List, [], ◌∷◌}
use cpsc.Common.Outcome.{Outcome}
use Prim.Native.String.{String}
use cpsc.Services.Rpc.{Reply, failure, RpcError}
use cpsc.VideoRec.Refresh.{Round}
use cpsc.Lab1.Refresh.{DialledRound}

abbrev pub rounds_of : List DialledRound → List Round
rounds_of [] = []
rounds_of (r ∷ rs) = r.1 ∷ rounds_of rs

-- No call of `grpc.NewClient` connects.
abbrev pub Refuses : (String → ℕ → Reply ℕ) → Type 0
Refuses dial = (address : String) (n : ℕ) → (e : RpcError) × (dial address n ≡ failure e)

-- In none of the rounds does a call connect.
abbrev pub AllRefused : List DialledRound → Type 0
AllRefused [] = Unit
AllRefused (r ∷ rs) = Refuses r.0 × AllRefused rs
