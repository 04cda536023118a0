-- ===== src/VideoRec/System/Discovered.antt =====
-- lab2: a new recommender, from the search for the batch sizes to the answer to a request.
use cpsc.Common.{ℕ, ◌<◌, ◌≤◌, ◌≡◌, ◌≢◌, ◌^◌, ◌∙◌, sym, subst, false, some, List, map, min, arith}
use mathlib.Core.List.{Perm}
use cpsc.Common.Int.{pos}
use cpsc.Common.Outcome.{ok}
use cpsc.Services.Rpc.{Reply, value, UserInfo, VideoInfo, Coefficients, Scan}
use cpsc.Services.Dedup.{Distinct, contains}
use cpsc.Services.Injection.{Draws, maybe_inject-IsCalm}
use cpsc.Services.User.{UserService, get_user}
use cpsc.Services.Video.{VideoService, get_video}
use cpsc.VideoRec.State.{Server}
use cpsc.VideoRec.Connect.{IsReady}
use cpsc.VideoRec.Ranking.{rank_videos}
use cpsc.VideoRec.Gather.Laws.{EachOnce}
use cpsc.VideoRec.TopVideos.{Backend, Schedule, get_top_videos}
use cpsc.VideoRec.TopVideos.Fresh.{liked}
use cpsc.VideoRec.Discovery.{update_user_max_batch_size, update_video_max_batch_size}
use cpsc.VideoRec.Discovery.User.{update_user_max_batch_size_lem}
use cpsc.VideoRec.Discovery.Video.{update_video_max_batch_size_lem}
use cpsc.VideoRec.System.{IsServed, IsConsistent, likes, get_top_videos-served}

-- A new recommender with its clients, options for batches from 1 to 2^63 - 1, and the two services.
pub record IsNew (udb : UserService) (vdb : VideoService) (s : Server) : Type 0 where
  pub ready : IsReady s
  pub some_size : 0 < s.options.max_batch_size
  pub small : s.options.max_batch_size < 2 ^ 63
  pub users_new : s.user_max_batch_size ≡ 1
  pub videos_new : s.video_max_batch_size ≡ 1
  pub users_limit : 0 < udb.max_batch_size
  pub videos_limit : 0 < vdb.max_batch_size

-- The search for the batch sizes, for the users first.
pub record Discovers (scan : Scan) (udb : UserService) (vdb : VideoService) (s s1 s2 : Server)
    : Type 0 where
  pub fuel : ℕ
  pub enough : 0 < fuel
  pub user_draws : ℕ → Draws
  pub video_draws : ℕ → Draws
  pub user_call : ℕ → List ℕ → Reply (List UserInfo)
  pub video_call : ℕ → List ℕ → Reply (List VideoInfo)
  pub serves_users : (t : ℕ) (ids : List ℕ) → get_user udb (user_draws t) ids ≡ ok (user_call t ids)
  pub serves_videos :
      (t : ℕ) (ids : List ℕ) → get_video vdb (video_draws t) ids ≡ ok (video_call t ids)
  pub finds_users : update_user_max_batch_size scan.sscanf fuel user_call s ≡ ok (some s1)
  pub finds_videos : update_video_max_batch_size scan.sscanf fuel video_call s1 ≡ ok (some s2)

ok_some-eq : {A : Type 0} (a b : A) → ok (some a) ≡ ok (some b) → a ≡ b
ok_some-eq a b e = ground arith

-- A recommender with sizes of batches that the services accept.
record IsSized (udb : UserService) (vdb : VideoService) (s : Server) : Type 0 where
  ready : IsReady s
  some_users : 0 < s.user_max_batch_size
  users_fit : s.user_max_batch_size ≤ udb.max_batch_size
  some_videos : 0 < s.video_max_batch_size
  videos_fit : s.video_max_batch_size ≤ vdb.max_batch_size

module _ (backend : Backend) (scan : Scan) (udb : UserService) (vdb : VideoService)
    (s s1 s2 : Server) (served : IsServed udb vdb backend) (new : IsNew udb vdb s)
    (found : Discovers scan udb vdb s s1 s2) where
  sized : IsSized udb vdb s2
  sized =
      let (n, users) =
        update_user_max_batch_size_lem scan udb found.user_draws found.user_call s 0 found.fuel
          new.ready new.some_size new.small new.users_limit new.users_new found.serves_users
          (maybe_inject-IsCalm udb.injection (found.user_draws 0) served.users_calm) found.enough in
      let after : Server = record s {
        user_conn_index = n;
        user_max_batch_size = min s.options.max_batch_size udb.max_batch_size;
      } in
      let same : after ≡ s1 = ok_some-eq after s1 (sym users ∙ found.finds_users) in
      let (m, videos) =
        update_video_max_batch_size_lem scan vdb found.video_draws found.video_call after 0
          found.fuel new.ready new.some_size new.small new.videos_limit new.videos_new
          found.serves_videos
          (maybe_inject-IsCalm vdb.injection (found.video_draws 0) served.videos_calm)
          found.enough in
      let last : Server = record after {
        video_conn_index = m;
        video_max_batch_size = min s.options.max_batch_size vdb.max_batch_size;
      } in
      let moved =
        subst
          (λ r.
            update_video_max_batch_size scan.sscanf found.fuel found.video_call r ≡ ok (some s2))
          (sym same) found.finds_videos in
      let same' : last ≡ s2 = ok_some-eq last s2 (sym videos ∙ moved) in
      subst (IsSized udb vdb) same' (record {
        ready = new.ready;
        some_users = omega (arith, new.some_size, new.users_limit);
        users_fit = omega arith;
        some_videos = omega (arith, new.some_size, new.videos_limit);
        videos_fit = omega arith;
      })

  -- A new recommender that has found the sizes of its batches, for the users first, with two services
  -- that inject no failure and that have stored the subscriber, the users it is subscribed to, one at
  -- least, and the videos that those like: for a user id that is not 0 and a limit that is not
  -- negative the handler returns a reply that is not stale and ranks the infos of the videos that the
  -- users subscribed to like, each video once, in whatever order the goroutines of the request end.
  pub discovered-get_top_videos :
      (rank : Coefficients → Coefficients → ℕ) (sched : Schedule) (limit id : ℕ) (user : UserInfo)
      (user_info : ℕ → UserInfo) (video_info : ℕ → VideoInfo)
      → IsConsistent udb vdb id user user_info video_info
      → id ≢ 0
      → EachOnce s2.user_max_batch_size user.subscribed_to sched.user_order
      → EachOnce s2.video_max_batch_size (liked rank backend sched limit user s2) sched.video_order
      → (s' : Server) × (ids : List ℕ) × (infos : List VideoInfo) × (get_top_videos rank backend
            sched
            (record { user_id = id; limit = pos limit })
            s2
          ≡ ok (
            s',
            value (record {
              videos = rank_videos rank user.user_coefficients infos limit;
              stale_response = false;
            }),
          ))
        × Perm infos (map video_info ids)
        × Distinct ids
        × ((v : ℕ) → contains ids v ≡ contains (likes user_info user) v)
  discovered-get_top_videos rank sched limit id user user_info video_info stored real u_once
        v_once =
      get_top_videos-served rank backend sched limit udb vdb id user user_info video_info s2 served
        stored sized.ready sized.some_users sized.users_fit sized.some_videos sized.videos_fit real
        u_once v_once
