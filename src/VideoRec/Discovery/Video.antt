-- ===== src/VideoRec/Discovery/Video.antt =====
-- lab2/video_rec_service/server_lib/server_lib.go, `UpdateVideoServiceMaxBatchSize`
-- against the service of lab2/video_service.
use cpsc.Common.{
  ℕ, zero, suc, ◌+◌, ◌-◌, ◌<◌, ◌≡◌, ◌≢◌, ◌^◌, ◌⊎◌, inl, inr, refl, ap, ◌∙◌, false, some, List, [],
  arith, min, length, ◌==◌, ==_iff, dec_lt,
}
use cpsc.Common.Outcome.{ok}
use cpsc.Services.Rpc.{Reply, VideoInfo, Scan, video_batch_format}
use cpsc.Services.Injection.{Draws, maybe_inject}
use cpsc.Services.Dedup.{contains, Distinct}
use cpsc.Services.Video.{VideoService, get_video, checked_videos}
use cpsc.Services.Video.Laws as VideoLaws
use cpsc.Services.Video.Laws.{
  get_video-drawn, checked_videos-over, find_videos_cases, checked_videos-IsAccepted,
}
use cpsc.VideoRec.State.{Server, add64}
use cpsc.VideoRec.Connect.{IsReady, take_clients-IsReady}
use cpsc.VideoRec.Discovery.{
  Verdict, again, grow, verdict, on_code, read_limit, video_probe, search_video_size,
  update_video_max_batch_size,
}
use cpsc.VideoRec.Discovery.Settle.{settle-start, room}

length-video_probe : (first n : ℕ) → length (video_probe first n) ≡ n
unfolding video_probe
length-video_probe first zero = refl
length-video_probe first (suc n) = ground (arith, length-video_probe (first + 1) n)

video_probe-some : (first n : ℕ) → 0 < n → video_probe first n ≢ []
unfolding video_probe
video_probe-some first zero lt e = absurd (omega arith)
video_probe-some first (suc n) lt e = cc

contains-video_probe : (a first n : ℕ) → a < first → contains (video_probe first n) a ≡ false
unfolding video_probe contains
contains-video_probe a first zero lt = refl
contains-video_probe a first (suc n) lt =
    ground (arith, contains-video_probe a (first + 1) n (omega arith), ==_iff first a)

video_probe-Distinct : (first n : ℕ) → Distinct (video_probe first n)
unfolding video_probe
video_probe-Distinct first zero = tt
video_probe-Distinct first (suc n) =
    (contains-video_probe first (first + 1) n (omega arith), video_probe-Distinct (first + 1) n)

module _ (scan : Scan) (highest : ℕ) where
  video_verdict :
      (db : VideoService)
      → 0 < highest
      → verdict scan.sscanf video_batch_format highest
          (checked_videos db (video_probe 1300 highest))
        ≡ grow (room highest db.max_batch_size)
  unfolding verdict on_code read_limit
  video_verdict db some_size = elim (dec_lt db.max_batch_size highest) [
    | yes over ↦
        let refused =
          checked_videos-over db (video_probe 1300 highest)
            (omega (arith, length-video_probe 1300 highest)) in
        rw (refused, scan.scans video_batch_format db.max_batch_size, verdict, on_code, read_limit)
          (ap grow (omega arith))
    | no fits ↦
        let room_left : highest - 1 ≡ room highest db.max_batch_size = omega arith in
        let accepted : VideoLaws.IsAccepted db (video_probe 1300 highest) = record {
          some_id = video_probe-some 1300 highest some_size;
          within = omega (arith, length-video_probe 1300 highest);
          distinct = video_probe-Distinct 1300 highest;
        } in
        rw (checked_videos-IsAccepted db (video_probe 1300 highest) accepted)
          (elim (find_videos_cases db (video_probe 1300 highest)) [
            | inl (us, found) ↦ rw found (ap grow room_left)
            | inr (i, gone) ↦ rw gone (ap grow room_left)
          ])
  ]

  -- A reply of the service, a failure that is injected or not.
  video_attempt :
      (db : VideoService) (d : Draws) (r : Reply (List VideoInfo))
      → 0 < highest
      → get_video db d (video_probe 1300 highest) ≡ ok r
      → (verdict scan.sscanf video_batch_format highest r ≡ again)
        ⊎ (verdict scan.sscanf video_batch_format highest r ≡ grow (room highest db.max_batch_size))
  unfolding verdict on_code
  video_attempt db d r some_size e = elim (get_video-drawn db d (video_probe 1300 highest) r e) [
    | inl (_, bad) ↦ inl (rw bad)
    | inr (_, good) ↦ inr (rw good (video_verdict db some_size))
  ]

-- An attempt at which no failure is injected settles the size.
video_settles :
    (scan : Scan) (highest : ℕ) (db : VideoService) (d : Draws) (r : Reply (List VideoInfo))
    → 0 < highest
    → get_video db d (video_probe 1300 highest) ≡ ok r
    → maybe_inject db.injection d ≡ ok false
    → verdict scan.sscanf video_batch_format highest r ≡ grow (room highest db.max_batch_size)
video_settles scan highest db d r some_size e calm =
    elim (get_video-drawn db d (video_probe 1300 highest) r e) [
      | inl (bad, _) ↦ absurd (ground (arith, calm, bad))
      | inr (_, good) ↦ rw good (video_verdict scan highest db some_size)
    ]

-- The search with the client at hand.
pub search_video_size_lem :
    (scan : Scan) (db : VideoService) (draws : ℕ → Draws)
    (call : ℕ → List ℕ → Reply (List VideoInfo)) (s : Server) (k fuel : ℕ)
    → 0 < s.options.max_batch_size
    → s.options.max_batch_size < 2 ^ 63
    → 0 < db.max_batch_size
    → s.video_max_batch_size ≡ 1
    → ((t : ℕ) (ids : List ℕ) → get_video db (draws t) ids ≡ ok (call t ids))
    → maybe_inject db.injection (draws k) ≡ ok false
    → k < fuel
    → search_video_size scan.sscanf fuel call s
      ≡ some (record s { video_max_batch_size = min s.options.max_batch_size db.max_batch_size })
unfolding search_video_size
search_video_size_lem scan db draws call s k fuel some_size small some_room new serves calm enough =
    let highest = s.options.max_batch_size in
    let sized : (highest == 0) ≡ false = ground arith in
    let ask : ℕ → Verdict =
      λ t. verdict scan.sscanf video_batch_format highest (call t (video_probe 1300 highest)) in
    let ends =
      settle-start ask (room highest db.max_batch_size)
        (λ t.
          video_attempt scan highest db (draws t) (call t (video_probe 1300 highest)) some_size
            (serves t _))
        k fuel s.video_max_batch_size
        (video_settles scan highest db (draws k) (call k (video_probe 1300 highest)) some_size
          (serves k _) calm)
        enough in
    let total : add64 s.video_max_batch_size (room highest db.max_batch_size)
        ≡ min highest db.max_batch_size =
      ap (λ a. add64 a (room highest db.max_batch_size)) new ∙ omega arith in
    rw (sized, ends, total) refl

-- A new server with its clients and a maximal batch size from 1 to 2^63 - 1 in its options, and a
-- video service that returns a reply at each attempt, with a failure injected or not: once there
-- is an attempt without, the search ends, and the batch size is the smaller one of the server's
-- maximal size and the service's (where that is not 0).
pub update_video_max_batch_size_lem :
    (scan : Scan) (db : VideoService) (draws : ℕ → Draws)
    (call : ℕ → List ℕ → Reply (List VideoInfo)) (s : Server) (k fuel : ℕ)
    → IsReady s
    → 0 < s.options.max_batch_size
    → s.options.max_batch_size < 2 ^ 63
    → 0 < db.max_batch_size
    → s.video_max_batch_size ≡ 1
    → ((t : ℕ) (ids : List ℕ) → get_video db (draws t) ids ≡ ok (call t ids))
    → maybe_inject db.injection (draws k) ≡ ok false
    → k < fuel
    → (n : ℕ) × (update_video_max_batch_size scan.sscanf fuel call s
        ≡ ok (
            some (record s {
              video_conn_index = n;
              video_max_batch_size = min s.options.max_batch_size db.max_batch_size;
            })))
unfolding update_video_max_batch_size
update_video_max_batch_size_lem scan db draws call s k fuel ready some_size small some_room new
      serves calm enough =
    let (_, n, _, client) = take_clients-IsReady s ready in
    (
      n,
      rw client (
          ap ok (
            search_video_size_lem scan db draws call (record s { video_conn_index = n }) k fuel
              some_size small some_room new serves calm enough)),
    )
