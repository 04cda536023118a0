-- ===== src/VideoRec/Refresh/Start.antt =====
-- lab2/video_rec_service/server_lib/server_lib.go, `ContinuallyRefreshCache`: the loop is entered with
-- a client.
use cpsc.Common.{ℕ, ◌≡◌, ◌∙◌, refl, Bool, false, List, if◌then◌else◌}
use cpsc.Common.Outcome.{Outcome}
use cpsc.VideoRec.State.{Server}
use cpsc.VideoRec.Connect.{IsReady, take_clients-IsReady}
use cpsc.VideoRec.Refresh.{Round, refresh_rounds, continually_refresh_cache}

pub continually_refresh_cache-IsReady :
    (rs : List Round) (s : Server)
    → IsReady s
    → s.options.disable_fallback ≡ false
    → (m : ℕ) × (continually_refresh_cache rs s
        ≡ refresh_rounds rs (record s { video_conn_index = m }))
unfolding continually_refresh_cache
continually_refresh_cache-IsReady rs s ready on =
    let (_, m, _, client) = take_clients-IsReady s ready in
    (m, if_off _ _ s.options.disable_fallback on ∙ rw client refl)
  where
    if_off :
        (x y : Outcome (List (Server × ℕ))) (off : Bool) → off ≡ false → (if off then x else y) ≡ y
    if_off x y off e = rw e refl
