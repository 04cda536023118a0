-- ===== src/Lab1/Refresh.antt =====
-- lab1/video_rec_service/server_lib/server_lib.go, `ContinuallyRefreshCache`: each round connects to
-- the video service as long as no round before has, and goes on as a round of lab2.
pub mod Connected
use cpsc.Common.{ℕ, ◌^◌, Bool, true, false, Option, none, some, List, [], ◌∷◌, if◌then◌else◌}
use cpsc.Common.Outcome.{Outcome, ok, ◌>>=◌}
use Prim.Native.String.{String}
use cpsc.Services.Rpc.{Reply, value, failure, RpcError}
use cpsc.VideoRec.State.{Server, add_total_error, add_video_errors}
use cpsc.VideoRec.Refresh.{Round, refresh_round}
use cpsc.Lab1.Connect.{get_client}

-- What a round meets, with the results of `grpc.NewClient`.
abbrev pub DialledRound : Type 0
DialledRound = (String → ℕ → Reply ℕ) × Round

-- The connection to the video service, if there is no client yet: the server, and the error that
-- is left.
unfoldable pub connect_video :
    (has_client : Bool) → (String → ℕ → Reply ℕ) → Server → Server × Option RpcError
connect_video true dial s = (s, none)
connect_video false dial s =
    let r = get_client dial 1 0 s in
    elim r.1 [
      | value conn ↦ (add_video_errors r.0 s, none)
      | failure e ↦ (add_total_error (add_video_errors r.0 s), some e)
    ]

-- A round of the loop: whether there is a client, the server and the sleep, which is 10 seconds
-- after an error.
unfoldable pub dialled_round :
    (has_client : Bool) → DialledRound → Server → Outcome (Bool × (Server × ℕ))
dialled_round has_client (dial, r) s =
    let c = connect_video has_client dial s in
    elim c.1 [
      | some e ↦ ok (false, (c.0, 10 ^ 10))
      | none ↦ refresh_round r c.0 >>= λ u. ok (true, u)
    ]

-- The loop, with the server and the sleep after each round.
unfoldable pub dialled_rounds :
    (has_client : Bool) → List DialledRound → Server → Outcome (List (Server × ℕ))
dialled_rounds has_client [] s = ok []
dialled_rounds has_client (r ∷ rs) s =
    dialled_round has_client r s >>= λ u. dialled_rounds u.0 rs u.1.0 >>= λ us. ok (u.1 ∷ us)

-- `ContinuallyRefreshCache`, for its first rounds.
unfoldable pub continually_refresh_cache : List DialledRound → Server → Outcome (List (Server × ℕ))
continually_refresh_cache rs s =
    if s.options.disable_fallback then ok [] else dialled_rounds false rs s
