-- ===== src/VideoRec/TopVideos/Fresh.antt =====
-- lab2/video_rec_service/server_lib/server_lib.go, `GetTopVideos`: the reply to a request that the
-- services answer, and one where some of the calls fail.
use cpsc.Common.{
  ℕ, ◌<◌, ◌≡◌, ◌≢◌, refl, ap, ◌∙◌, false, Option, none, some, List, [], ◌∷◌, arith, ◌==◌,
}
use cpsc.Common.Int.{pos}
use cpsc.Common.Outcome.{ok}
use cpsc.Services.Rpc.{value, RpcError, UserInfo, VideoInfo, Coefficients}
use cpsc.VideoRec.State.{Server, add64, add_video_errors, add_user_errors, enter, leave}
use cpsc.VideoRec.Connect.{IsReady, take_clients-IsReady}
use cpsc.VideoRec.Batches.{retry}
use cpsc.VideoRec.Ranking.{rank_videos}
use cpsc.VideoRec.Gather.{Gathered}
use cpsc.VideoRec.Gather.Laws.{NoError}
use cpsc.VideoRec.TopVideos.{
  Backend, Schedule, first_error, answer_videos, fetch_videos, answer_users, fetch_users,
  by_subscriptions, serve_user, use_subscriber, fetch_subscriber, serve, serve_limited,
  get_top_videos, liked_ids, ranked, gathered_videos, gathered_users,
}

first_error-NoError : (es : List (Option RpcError)) → NoError es → first_error es ≡ none
first_error-NoError [] h = refl
first_error-NoError (none ∷ es) h = refl
first_error-NoError (some _ ∷ es) h = elim h [ ]

module _ (rank : Coefficients → Coefficients → ℕ) (backend : Backend) (sched : Schedule) (limit : ℕ)
    (user : UserInfo) where
  answer_videos-fresh :
      (g : Gathered VideoInfo) (s : Server)
      → g.caches ≡ []
      → NoError g.replies
      → answer_videos rank backend sched limit user g s ≡ (
        s,
        value (record {
          videos = ranked rank backend sched limit user g.items;
          stale_response = false;
        }),
      )
  unfolding answer_videos
  answer_videos-fresh g s none_sent fine =
      rw (none_sent, first_error-NoError g.replies fine, answer_videos) refl

  fetch_videos-fresh :
      (liked : List ℕ) (s : Server)
      → IsReady s
      → 0 < s.video_max_batch_size
      → (gathered_videos rank backend sched limit user s liked).caches ≡ []
      → NoError (gathered_videos rank backend sched limit user s liked).replies
      → (s' : Server) × (fetch_videos rank backend sched limit user liked s
          ≡ ok (
            s',
            value (record {
              videos =
                  ranked rank backend sched limit user
                    (gathered_videos rank backend sched limit user s liked).items;
              stale_response = false;
            }),
          ))
  unfolding fetch_videos
  fetch_videos-fresh liked s ready some_size none_sent fine =
      let (n, m, _, client) = take_clients-IsReady s ready in
      let sized : (s.video_max_batch_size == 0) ≡ false = ground arith in
      let g = gathered_videos rank backend sched limit user s liked in
      let s2 : Server = add_video_errors g.errors (record s { video_conn_index = m }) in
      (s2, rw (client, sized) (ap ok (answer_videos-fresh g s2 none_sent fine)))

  answer_users-fresh :
      (g : Gathered UserInfo) (s : Server)
      → g.caches ≡ []
      → NoError g.replies
      → answer_users rank backend sched limit user g s
        ≡ fetch_videos rank backend sched limit user (liked_ids g.items) s
  unfolding answer_users
  answer_users-fresh g s none_sent fine =
      rw (none_sent, first_error-NoError g.replies fine, answer_users) refl

  -- What the calls for the subscriptions give, and the ids of the videos that those users like.
  abbrev pub friends : Server → List UserInfo
  friends s = (gathered_users rank backend sched limit user s).items

  abbrev pub liked : Server → List ℕ
  liked s = liked_ids (friends s)

  -- No goroutine has sent an error or a cached list.
  abbrev pub IsQuiet {ℓ} : {A : Type ℓ} → Gathered A → Type 0
  IsQuiet g = (g.caches ≡ []) × NoError g.replies

  fetch_users-fresh :
      (s : Server)
      → IsReady s
      → 0 < s.user_max_batch_size
      → 0 < s.video_max_batch_size
      → IsQuiet (gathered_users rank backend sched limit user s)
      → IsQuiet (gathered_videos rank backend sched limit user s (liked s))
      → (s' : Server) × (fetch_users rank backend sched limit user s
          ≡ ok (
            s',
            value (record {
              videos =
                  ranked rank backend sched limit user
                    (gathered_videos rank backend sched limit user s (liked s)).items;
              stale_response = false;
            }),
          ))
  unfolding fetch_users
  fetch_users-fresh s ready users videos quiet quiet' =
      let sized : (s.user_max_batch_size == 0) ≡ false = ground arith in
      let g = gathered_users rank backend sched limit user s in
      let s2 : Server = add_user_errors g.errors s in
      let (s', done) = fetch_videos-fresh (liked s) s2 ready videos quiet'.0 quiet'.1 in
      (s', rw sized (answer_users-fresh g s2 quiet.0 quiet.1 ∙ done))

  by_subscriptions-some :
      (l : List ℕ) (s : Server)
      → l ≢ []
      → by_subscriptions rank backend sched limit user l s
        ≡ fetch_users rank backend sched limit user s
  unfolding by_subscriptions
  by_subscriptions-some [] s some_id = absurd (some_id refl)
  by_subscriptions-some (_ ∷ _) s some_id = refl

  -- A server, but for its connections of the user service and the errors of that service.
  abbrev reached : ℕ → ℕ → Server → Server
  reached n e s = record s { user_conn_index = n; user_service_errors = e }

  serve-reached :
      (id : ℕ) (us : List UserInfo) (s : Server)
      → IsReady s
      → id ≢ 0
      → (retry s.options.disable_retry (λ t. backend.subscriber t (id ∷ []))).1 ≡ value (user ∷ us)
      → user.subscribed_to ≢ []
      → (n e : ℕ) × (serve rank backend sched limit id s
          ≡ fetch_users rank backend sched limit user (reached n e s))
  unfolding serve fetch_subscriber use_subscriber serve_user
  serve-reached id us s ready real answer subscribes =
      let (n, m, client, _) = take_clients-IsReady s ready in
      let known : (id == 0) ≡ false = ground arith in
      let counted : ℕ =
        add64 s.user_service_errors
          (retry s.options.disable_retry (λ t. backend.subscriber t (id ∷ []))).0 in
      (
        n,
        counted,
        rw (client, known)
            (rw (answer, fetch_subscriber)
              (by_subscriptions-some user.subscribed_to (reached n counted s) subscribes)),
      )

  -- The reply of the handler where nothing was sent on a channel but nil.
  pub get_top_videos-quiet :
      (id : ℕ) (us : List UserInfo) (s : Server)
      → IsReady s
      → 0 < s.user_max_batch_size
      → 0 < s.video_max_batch_size
      → id ≢ 0
      → (retry s.options.disable_retry (λ t. backend.subscriber t (id ∷ []))).1 ≡ value (user ∷ us)
      → user.subscribed_to ≢ []
      → IsQuiet (gathered_users rank backend sched limit user s)
      → IsQuiet (gathered_videos rank backend sched limit user s (liked s))
      → (s' : Server) × (get_top_videos rank backend sched
            (record { user_id = id; limit = pos limit })
            s
          ≡ ok (
            s',
            value (record {
              videos =
                  rank_videos rank user.user_coefficients
                    (gathered_videos rank backend sched limit user s (liked s)).items
                    limit;
              stale_response = false;
            }),
          ))
  unfolding get_top_videos serve_limited enter
  get_top_videos-quiet id us s ready users videos real answer subscribes quiet quiet' =
      let (n, e, reach) = serve-reached id us (enter s) ready real answer subscribes in
      let (s', done) = fetch_users-fresh (reached n e (enter s)) ready users videos quiet quiet' in
      (leave sched.latency s', rw (reach, done) refl)
