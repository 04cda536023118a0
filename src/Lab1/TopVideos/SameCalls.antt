-- ===== src/Lab1/TopVideos/SameCalls.antt =====
-- lab1/video_rec_service/server_lib/server_lib.go, `GetTopVideos`, next to the handler of
-- lab2/video_rec_service/server_lib/server_lib.go: the calls for the users and the videos,
-- where connections succeed and no deadline passes.
use cpsc.Common.{
  ℕ, ◌<◌, ◌≡◌, ◌≢◌, ◌^◌, refl, ap, ◌∙◌, sym, subst, inl, inr, true, List, [], ◌∷◌, arith, ◌==◌,
  Bool-cases, List-cases, Option-cases,
}
use cpsc.Common.Outcome.{Outcome, ok, ◌>>=◌}
use Prim.Native.String.{String}
use cpsc.Services.Rpc.{Reply, RpcError, UserInfo, VideoInfo, Coefficients}
use cpsc.VideoRec.State.{Server, add64, add_user_errors, add_video_errors}
use cpsc.VideoRec.Connect.{take_video_client}
use cpsc.VideoRec.Ranking.{get_cached_videos}
use cpsc.VideoRec.Gather.{Gathered}
use cpsc.VideoRec.TopVideos as Lab2
use cpsc.VideoRec.TopVideos.{
  Response, Backend, Schedule, fall_back, first_error, liked_ids, gathered_users, gathered_videos,
  answer_videos, answer_users, fetch_videos, fetch_users, reply_stale,
}
use cpsc.Lab1.Connect.{on_time}
use cpsc.Lab1.TopVideos.{
  pick_videos, rank_fetched, ask_for_videos, by_liked, use_liked, pick_users, ask_for_users,
  by_subscribed,
}
use cpsc.Lab1.TopVideos.Calm.{add_none, ask_for_videos-on_time}
use cpsc.Lab1.TopVideos.Reach.{Connects, by_liked-calls, by_subscribed-calls}

-- The server of lab2 with clients at hand.
abbrev pub as_mock : Server → Server
as_mock s = record s { is_mock = true }

abbrev pub mock_pair : Server × Reply Response → Server × Reply Response
mock_pair r = (as_mock r.0, r.1)

abbrev pub with_mock : Outcome (Server × Reply Response) → Outcome (Server × Reply Response)
with_mock o = o >>= λ r. ok (mock_pair r)

-- The counters are uint64.
abbrev pub IsUint64 : Server → Type 0
IsUint64 s =
    (s.total_errors < 2 ^ 64)
    × (s.stale_responses < 2 ^ 64)
    × (s.user_service_errors < 2 ^ 64)
    × (s.video_service_errors < 2 ^ 64)

pub no_user_errors : (s : Server) → s.user_service_errors < 2 ^ 64 → add_user_errors 0 s ≡ s
no_user_errors s small = ap (λ n. record s { user_service_errors = n }) (add_none _ small)

pub no_video_errors : (s : Server) → s.video_service_errors < 2 ^ 64 → add_video_errors 0 s ≡ s
no_video_errors s small = ap (λ n. record s { video_service_errors = n }) (add_none _ small)

pub add64-small : (x a : ℕ) → add64 x a < 2 ^ 64
add64-small x a = omega arith

pub fall_back-mock :
    (limit : ℕ) (arrange : List VideoInfo → List VideoInfo) (e : RpcError) (s : Server)
    → fall_back limit arrange e (as_mock s) ≡ mock_pair (fall_back limit arrange e s)
unfolding fall_back
fall_back-mock limit arrange e s = elim (Bool-cases s.options.disable_fallback) [
  | inl off ↦ rw off refl
  | inr on ↦ elim (List-cases (get_cached_videos s.trending_cache limit)) [
    | inl nothing ↦ rw (on, nothing, fall_back) refl
    | inr (v, vids, cached) ↦ rw (on, cached, fall_back) refl
  ]
]

module _ (rank : Coefficients → Coefficients → ℕ) (backend : Backend) (sched : Schedule)
    (dial : String → ℕ → Reply ℕ) (limit : ℕ) (user : UserInfo) where
  answer_videos-mock :
      (g : Gathered VideoInfo) (s : Server)
      → answer_videos rank backend sched limit user g (as_mock s)
        ≡ mock_pair (pick_videos rank backend (on_time dial sched) limit user g s)
  unfolding answer_videos pick_videos rank_fetched on_time reply_stale
  answer_videos-mock g s = elim (List-cases g.caches) [
    | inr (vids, rest, sent) ↦ rw (sent, answer_videos, pick_videos) refl
    | inl none_sent ↦ elim (Option-cases (first_error g.replies)) [
      | inl fine ↦ rw (none_sent, fine, answer_videos, pick_videos, rank_fetched) refl
      | inr (e, bad) ↦ rw (none_sent, bad, answer_videos, pick_videos, rank_fetched) refl
    ]
  ]

  fetch_videos-mock :
      (liked : List ℕ) (s : Server)
      → s.total_errors < 2 ^ 64
      → s.stale_responses < 2 ^ 64
      → fetch_videos rank backend sched limit user liked (as_mock s)
        ≡ with_mock (ask_for_videos rank backend (on_time dial sched) limit user liked s)
  unfolding fetch_videos take_video_client
  fetch_videos-mock liked s errors stale =
      subst (λ o. fetch_videos rank backend sched limit user liked (as_mock s) ≡ with_mock o)
        (sym (ask_for_videos-on_time rank backend dial sched limit user s liked errors stale))
        (elim (Bool-cases (s.video_max_batch_size == 0)) [
          | inl no_size ↦ rw no_size refl
          | inr sized ↦
              let n = (gathered_videos rank backend sched limit user s liked).errors in
              rw sized (
                ap ok (
                  answer_videos-mock (gathered_videos rank backend sched limit user s liked)
                    (add_video_errors n s)))
        ])

  fetch_videos-liked :
      (liked : List ℕ) (s : Server)
      → Connects dial
      → IsUint64 s
      → liked ≢ []
      → fetch_videos rank backend sched limit user liked (as_mock s)
        ≡ with_mock (by_liked rank backend (on_time dial sched) limit user liked s)
  unfolding on_time
  fetch_videos-liked liked s connects (errors, stale, users, videos) some_liked =
      let ask : Server → Outcome (Server × Reply Response) =
        ask_for_videos rank backend (on_time dial sched) limit user liked in
      fetch_videos-mock liked s errors stale
      ∙ ap with_mock (
          ap ask (sym (no_video_errors s videos))
          ∙ sym (
              by_liked-calls rank backend (on_time dial sched) connects limit user liked s
                some_liked))

  answer_users-mock :
      (g : Gathered UserInfo) (s : Server)
      → Connects dial
      → IsUint64 s
      → liked_ids g.items ≢ []
      → answer_users rank backend sched limit user g (as_mock s)
        ≡ with_mock (pick_users rank backend (on_time dial sched) limit user g s)
  unfolding answer_users pick_users use_liked on_time reply_stale
  answer_users-mock g s connects counted some_liked = elim (Option-cases (first_error g.replies)) [
    | inl fine ↦
        let rest = fetch_videos-liked (liked_ids g.items) s connects counted some_liked in
        elim (List-cases g.caches) [
          | inl empty ↦ rw (empty, fine, answer_users, pick_users, use_liked) rest
          | inr (vids, more, sent) ↦ elim (Bool-cases sched.take_cache) [
            | inl take ↦ rw (sent, take, answer_users, pick_users) refl
            | inr leave_it ↦ rw (sent, leave_it, fine, answer_users, pick_users, use_liked) rest
          ]
        ]
    | inr (e, bad) ↦ elim (List-cases g.caches) [
      | inl empty ↦ rw (empty, bad, answer_users, pick_users, use_liked) refl
      | inr (vids, more, sent) ↦ elim (Bool-cases sched.take_cache) [
        | inl take ↦ rw (sent, take, answer_users, pick_users) refl
        | inr leave_it ↦ rw (sent, leave_it, bad, answer_users, pick_users, use_liked) refl
      ]
    ]
  ]

  fetch_users-mock :
      (s : Server)
      → Connects dial
      → IsUint64 s
      → liked_ids (gathered_users rank backend sched limit user s).items ≢ []
      → fetch_users rank backend sched limit user (as_mock s)
        ≡ with_mock (ask_for_users rank backend (on_time dial sched) limit user s)
  unfolding fetch_users ask_for_users on_time
  fetch_users-mock s connects (errors, stale, users, videos) some_liked =
      let g = gathered_users rank backend sched limit user s in
      elim (Bool-cases (s.user_max_batch_size == 0)) [
        | inl no_size ↦ rw no_size refl
        | inr sized ↦ rw sized (
            answer_users-mock g (add_user_errors g.errors s) connects
              (errors, stale, add64-small _ _, videos) some_liked)
      ]

  pub by_subscriptions-mock :
      (s : Server)
      → Connects dial
      → IsUint64 s
      → user.subscribed_to ≢ []
      → liked_ids (gathered_users rank backend sched limit user s).items ≢ []
      → Lab2.serve_user rank backend sched limit user (as_mock s)
        ≡ with_mock
            (by_subscribed rank backend (on_time dial sched) limit user user.subscribed_to s)
  unfolding Lab2.serve_user Lab2.by_subscriptions on_time
  by_subscriptions-mock s connects counted some_subscribed some_liked =
      by_subscriptions_some user.subscribed_to (as_mock s) some_subscribed
      ∙ fetch_users-mock s connects counted some_liked
      ∙ ap with_mock (
          sym (
            by_subscribed-calls rank backend (on_time dial sched) connects limit user
              user.subscribed_to s some_subscribed))
    where
      by_subscriptions_some :
          (l : List ℕ) (s1 : Server)
          → l ≢ []
          → Lab2.by_subscriptions rank backend sched limit user l s1
            ≡ fetch_users rank backend sched limit user s1
      by_subscriptions_some [] s1 some_id = absurd (some_id refl)
      by_subscriptions_some (_ ∷ _) s1 some_id = refl
