-- ===== src/Lab1/Discovery/Found.antt =====
-- lab1/video_rec_service/server_lib/server_lib.go: the searches for the batch sizes end, and with
-- which sizes, against the services of lab2.
use cpsc.Common.{
  ℕ, zero, suc, ◌+◌, ◌<◌, ◌≡◌, ◌^◌, refl, subst, inl, inr, false, some, List, arith, min,
  Bool-cases,
}
use cpsc.Common.Outcome.{ok}
use Prim.Native.String.{String}
use cpsc.Services.Rpc.{Reply, value, UserInfo, VideoInfo, Scan, Reply-cases}
use cpsc.Services.Injection.{Draws, maybe_inject}
use cpsc.Services.User.{UserService, get_user}
use cpsc.Services.Video.{VideoService, get_video}
use cpsc.VideoRec.State.{Server}
use cpsc.VideoRec.Connect.{connect_client}
use cpsc.VideoRec.Discovery.User.{search_user_size_lem}
use cpsc.VideoRec.Discovery.Video.{search_video_size_lem}
use cpsc.Lab1.Discovery.{
  connect_until, find_client, update_user_max_batch_size, update_video_max_batch_size,
}

-- Once a call connects, the loop ends, with the connection of that call or of one before.
connect_until-some :
    (call : ℕ → Reply ℕ) (j fuel t c : ℕ)
    → call (t + j) ≡ value c
    → j < fuel
    → (conn : ℕ) × (connect_until call fuel t ≡ some conn)
unfolding connect_until
connect_until-some call j zero t c good enough = absurd (omega arith)
connect_until-some call zero (suc fuel) t c good enough =
    let here : t + 0 ≡ t = omega arith in
    (c, rw (subst (λ n. call n ≡ value c) here good, connect_until) refl)
connect_until-some call (suc j) (suc fuel) t c good enough =
    let next : t + suc j ≡ t + 1 + j = omega arith in
    let (found, ends) =
      connect_until-some call j fuel (t + 1) c (subst (λ n. call n ≡ value c) next good)
        (omega arith) in
    elim (Reply-cases (call t)) [
      | inl (conn, here) ↦ (conn, rw (here, connect_until) refl)
      | inr (e, bad) ↦ (found, rw (bad, connect_until) ends)
    ]

module _ (dial : String → ℕ → Reply ℕ) (fuel : ℕ) where
  find_client-some :
      (target j c : ℕ) (s : Server)
      → connect_client dial s.options target j ≡ value c
      → j < fuel
      → (conn : ℕ) × (find_client dial fuel target s ≡ some conn)
  unfolding find_client
  find_client-some target j c s good enough =
      let start : j ≡ 0 + j = omega arith in
      let (conn, ends) =
        connect_until-some (connect_client dial s.options target) j fuel 0 c
          (subst (λ n. connect_client dial s.options target n ≡ value c) start good) enough in
      elim (Bool-cases s.is_mock) [
        | inl mock ↦ (0, rw mock refl)
        | inr live ↦ (conn, rw (live, ends) refl)
      ]

-- A new server with a maximal batch size from 1 to 2^63 - 1 in its options, and services that return
-- a reply at each attempt, with a failure injected or not: once a call connects to either service
-- and there is an attempt without a failure, both searches end, and either batch size is the
-- smaller one of the server's maximal size and the service's (where that is not 0).
pub update_max_batch_sizes_lem :
    (scan : Scan) (users : UserService) (videos : VideoService) (draws : ℕ → Draws)
    (user_call : ℕ → List ℕ → Reply (List UserInfo))
    (video_call : ℕ → List ℕ → Reply (List VideoInfo)) (dial : String → ℕ → Reply ℕ) (s : Server)
    (i c j d k fuel : ℕ)
    → connect_client dial s.options 0 i ≡ value c
    → connect_client dial s.options 1 j ≡ value d
    → 0 < s.options.max_batch_size
    → s.options.max_batch_size < 2 ^ 63
    → 0 < users.max_batch_size
    → 0 < videos.max_batch_size
    → s.user_max_batch_size ≡ 1
    → s.video_max_batch_size ≡ 1
    → ((t : ℕ) (ids : List ℕ) → get_user users (draws t) ids ≡ ok (user_call t ids))
    → ((t : ℕ) (ids : List ℕ) → get_video videos (draws t) ids ≡ ok (video_call t ids))
    → maybe_inject users.injection (draws k) ≡ ok false
    → maybe_inject videos.injection (draws k) ≡ ok false
    → i < fuel
    → j < fuel
    → k < fuel
    → (update_user_max_batch_size scan.sscanf dial fuel user_call s
        ≡ some
            (record s { user_max_batch_size = min s.options.max_batch_size users.max_batch_size }))
      × (update_video_max_batch_size scan.sscanf dial fuel video_call s
          ≡ some (record s {
            video_max_batch_size = min s.options.max_batch_size videos.max_batch_size;
          }))
unfolding update_user_max_batch_size update_video_max_batch_size
update_max_batch_sizes_lem scan users videos draws user_call video_call dial s i c j d k fuel
      connected connected' some_size small user_room video_room user_new video_new user_serves
      video_serves user_calm video_calm user_enough video_enough enough =
    let (_, client) = find_client-some dial fuel 0 i c s connected user_enough in
    let (_, client') = find_client-some dial fuel 1 j d s connected' video_enough in
    (
      rw (client, update_user_max_batch_size)
          (search_user_size_lem scan users draws user_call s k fuel some_size small user_room
            user_new user_serves user_calm enough),
      rw (client', update_video_max_batch_size)
          (search_video_size_lem scan videos draws video_call s k fuel some_size small video_room
            video_new video_serves video_calm enough),
    )
