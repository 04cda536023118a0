-- ===== src/Lab1/TopVideos/Reach.antt =====
-- lab1/video_rec_service/server_lib/server_lib.go, `GetTopVideos`: how a request comes to the calls
-- for the liked videos.
use cpsc.Common.{
  ℕ, ◌+◌, ◌<◌, ◌≡◌, ◌≢◌, refl, ap, ◌∙◌, inl, inr, Bool, false, none, List, [], ◌∷◌, arith, if_false,
  ◌==◌, Bool-cases,
}
use cpsc.Common.Int.{pos}
use cpsc.Common.Outcome.{ok, ◌>>=◌}
use Prim.Native.String.{String}
use cpsc.Services.Rpc.{Reply, value, UserInfo, Coefficients}
use cpsc.VideoRec.State.{Server, add_user_errors, add_video_errors, enter, leave}
use cpsc.VideoRec.Connect.{connect_client}
use cpsc.VideoRec.Batches.{retry}
use cpsc.VideoRec.TopVideos.{Response, Backend, first_error, liked_ids, gathered_users}
use cpsc.Lab1.Connect.{World, get_client}
use cpsc.Lab1.TopVideos.{
  ask_for_videos, use_video_client, by_liked, use_liked, pick_users, ask_for_users, by_subscribed,
  with_subscriber, get_subscriber, identify, serve_request, with_limit, get_top_videos,
}

retry_first {ℓ} :
    {A : Type ℓ} (disable_retry : Bool) (call : ℕ → Reply A) (a : A)
    → call 0 ≡ value a
    → retry disable_retry call ≡ (0, value a)
unfolding retry
retry_first disable_retry call a e = rw (e, retry) refl

-- `grpc.NewClient` connects, whatever it is asked for.
abbrev pub Connects : (String → ℕ → Reply ℕ) → Type 0
Connects dial = (address : String) (n : ℕ) → (conn : ℕ) × (dial address n ≡ value conn)

module _ (dial : String → ℕ → Reply ℕ) (connects : Connects dial) (s : Server) where
  client_on :
      (target first conn : ℕ)
      → connect_client dial s.options target (first + 0) ≡ value conn
      → (c : ℕ) × (get_client dial target first s ≡ (0, value c))
  unfolding get_client retry
  client_on target first conn good = elim (Bool-cases s.is_mock) [
    | inl mock ↦ (0, rw mock refl)
    | inr live ↦ (conn, rw (live, good, retry) refl)
  ]

  pub get_client-user : (c : ℕ) × (get_client dial 0 0 s ≡ (0, value c))
  unfolding connect_client
  get_client-user =
      let (conn, good) = connects s.options.user_service_addr 0 in client_on 0 0 conn good

  pub get_client-video : (first : ℕ) → (c : ℕ) × (get_client dial 1 first s ≡ (0, value c))
  unfolding connect_client
  get_client-video first =
      let (conn, good) = connects s.options.video_service_addr (first + 0) in
      client_on 1 first conn good

module _ (rank : Coefficients → Coefficients → ℕ) (backend : Backend) (w : World)
    (connects : Connects w.dial) (limit : ℕ) where
  -- The server once the users have been asked for.
  abbrev pub asked_users : UserInfo → Server → Server
  asked_users user s =
      add_user_errors (gathered_users rank backend w.schedule limit user s).errors
        (add_user_errors 0 (add_user_errors 0 s))

  -- With the liked videos known.
  pub by_liked-calls :
      (user : UserInfo) (liked : List ℕ) (s : Server)
      → liked ≢ []
      → by_liked rank backend w limit user liked s
        ≡ ask_for_videos rank backend w limit user liked (add_video_errors 0 s)
  unfolding by_liked use_video_client
  by_liked-calls user [] s some_liked = absurd (some_liked refl)
  by_liked-calls user (v ∷ vs) s some_liked =
      let (c, good) = get_client-video w.dial connects s 2 in
      rw (ap (λ r. r.1) good, ap (λ r. r.0) good, use_video_client) refl

  -- With a list of subscriptions that is not empty.
  pub by_subscribed-calls :
      (user : UserInfo) (l : List ℕ) (s : Server)
      → l ≢ []
      → by_subscribed rank backend w limit user l s ≡ ask_for_users rank backend w limit user s
  unfolding by_subscribed
  by_subscribed-calls user [] s some_subscribed = absurd (some_subscribed refl)
  by_subscribed-calls user (_ ∷ _) s some_subscribed = refl

  -- The calls for the users all end, none with an error and none with a cached list.
  ask_for_users-calls :
      (user : UserInfo) (s : Server)
      → 0 < s.user_max_batch_size
      → (gathered_users rank backend w.schedule limit user s).caches ≡ []
      → first_error (gathered_users rank backend w.schedule limit user s).replies ≡ none
      → liked_ids (gathered_users rank backend w.schedule limit user s).items ≢ []
      → ask_for_users rank backend w limit user s
        ≡ ask_for_videos rank backend w limit user
            (liked_ids (gathered_users rank backend w.schedule limit user s).items)
            (add_video_errors 0
              (add_user_errors (gathered_users rank backend w.schedule limit user s).errors s))
  unfolding ask_for_users pick_users use_liked
  ask_for_users-calls user s some_size none_sent fine some_liked =
      let g = gathered_users rank backend w.schedule limit user s in
      let sized : (s.user_max_batch_size == 0) ≡ false = ground arith in
      rw (sized, none_sent, fine, pick_users, use_liked)
        (by_liked-calls user (liked_ids g.items) (add_user_errors g.errors s) some_liked)

  -- A request whose subscriber is found at the first attempt.
  identify-calls :
      (id : ℕ) (user : UserInfo) (others : List UserInfo) (s : Server)
      → 0 < id
      → backend.subscriber 0 (id ∷ []) ≡ value (user ∷ others)
      → user.subscribed_to ≢ []
      → identify rank backend w limit id s
        ≡ ask_for_users rank backend w limit user (add_user_errors 0 s)
  unfolding identify get_subscriber with_subscriber
  identify-calls id user others s real found some_subscribed =
      let named : (id == 0) ≡ false = ground arith in
      let call : ℕ → Reply (List UserInfo) = λ t. backend.subscriber t (id ∷ []) in
      let first = retry_first s.options.disable_retry call (user ∷ others) found in
      rw (named, found, ap (λ r. r.1) first, ap (λ r. r.0) first)
        (by_subscribed-calls user user.subscribed_to (add_user_errors 0 s) some_subscribed)

  serve_request-calls :
      (id : ℕ) (user : UserInfo) (others : List UserInfo) (s : Server)
      → w.started_late ≡ false
      → 0 < id
      → backend.subscriber 0 (id ∷ []) ≡ value (user ∷ others)
      → user.subscribed_to ≢ []
      → serve_request rank backend w limit id s
        ≡ ask_for_users rank backend w limit user (add_user_errors 0 (add_user_errors 0 s))
  unfolding serve_request
  serve_request-calls id user others s in_time real found some_subscribed =
      let (c, good) = get_client-user w.dial connects s in
      if_false w.started_late _ _ in_time
      ∙ rw (ap (λ r. r.1) good, ap (λ r. r.0) good)
          (identify-calls id user others (add_user_errors 0 s) real found some_subscribed)

  -- Where the services answer the calls for the users, the request comes to the calls for videos.
  pub get_top_videos-calls :
      (id : ℕ) (user : UserInfo) (others : List UserInfo) (s : Server)
      → w.started_late ≡ false
      → 0 < id
      → backend.subscriber 0 (id ∷ []) ≡ value (user ∷ others)
      → user.subscribed_to ≢ []
      → 0 < s.user_max_batch_size
      → (gathered_users rank backend w.schedule limit user s).caches ≡ []
      → first_error (gathered_users rank backend w.schedule limit user s).replies ≡ none
      → liked_ids (gathered_users rank backend w.schedule limit user s).items ≢ []
      → get_top_videos rank backend w (record { user_id = id; limit = pos limit }) s ≡ (
          ask_for_videos rank backend w limit user
            (liked_ids (gathered_users rank backend w.schedule limit user s).items)
            (add_video_errors 0 (asked_users user (enter s)))
          >>= λ r. ok (leave w.schedule.latency r.0, r.1))
  unfolding get_top_videos with_limit enter
  get_top_videos-calls id user others s in_time real found some_subscribed some_size none_sent fine
        some_liked =
      ap (λ o. o >>= λ (r : Server × Reply Response). ok (leave w.schedule.latency r.0, r.1))
        (serve_request-calls id user others (enter s) in_time real found some_subscribed
          ∙ ask_for_users-calls user (add_user_errors 0 (add_user_errors 0 (enter s))) some_size
              none_sent fine some_liked)
