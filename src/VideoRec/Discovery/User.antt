-- ===== src/VideoRec/Discovery/User.antt =====
-- lab2/video_rec_service/server_lib/server_lib.go, `UpdateUserServiceMaxBatchSize`
-- against the service of lab2/user_service.
use cpsc.Common.{
  ℕ, zero, suc, ◌-◌, ◌<◌, ◌≡◌, ◌≢◌, ◌^◌, ◌⊎◌, inl, inr, refl, ap, ◌∙◌, false, some, List, [], arith,
  min, length, ◌==◌, dec_lt,
}
use cpsc.Common.Outcome.{ok}
use cpsc.Services.Rpc.{Reply, UserInfo, Scan, user_batch_format}
use cpsc.Services.Injection.{Draws, maybe_inject}
use cpsc.Services.User.{UserService, get_user, checked_users}
use cpsc.Services.User.Laws as UserLaws
use cpsc.Services.User.Laws.{
  get_user-drawn, checked_users-over, find_users_cases, checked_users-IsAccepted,
}
use cpsc.VideoRec.State.{Server, add64}
use cpsc.VideoRec.Connect.{IsReady, take_clients-IsReady}
use cpsc.VideoRec.Discovery.{
  Verdict, again, grow, verdict, on_code, read_limit, user_probe, search_user_size,
  update_user_max_batch_size,
}
use cpsc.VideoRec.Discovery.Settle.{settle-start, room}

length-user_probe : (n : ℕ) → length (user_probe n) ≡ n
unfolding user_probe
length-user_probe zero = refl
length-user_probe (suc n) = ground (arith, length-user_probe n)

user_probe-some : (n : ℕ) → 0 < n → user_probe n ≢ []
unfolding user_probe
user_probe-some zero lt e = absurd (omega arith)
user_probe-some (suc n) lt e = cc

module _ (scan : Scan) (highest : ℕ) where
  user_verdict :
      (db : UserService)
      → 0 < highest
      → verdict scan.sscanf user_batch_format highest (checked_users db (user_probe highest))
        ≡ grow (room highest db.max_batch_size)
  unfolding verdict on_code read_limit
  user_verdict db some_size = elim (dec_lt db.max_batch_size highest) [
    | yes over ↦
        let refused =
          checked_users-over db (user_probe highest) (omega (arith, length-user_probe highest)) in
        rw (refused, scan.scans user_batch_format db.max_batch_size, verdict, on_code, read_limit)
          (ap grow (omega arith))
    | no fits ↦
        let room_left : highest - 1 ≡ room highest db.max_batch_size = omega arith in
        let accepted : UserLaws.IsAccepted db (user_probe highest) = record {
          some_id = user_probe-some highest some_size;
          within = omega (arith, length-user_probe highest);
        } in
        rw (checked_users-IsAccepted db (user_probe highest) accepted)
          (elim (find_users_cases db (user_probe highest)) [
            | inl (us, found) ↦ rw found (ap grow room_left)
            | inr (i, gone) ↦ rw gone (ap grow room_left)
          ])
  ]

  -- A reply of the service, a failure that is injected or not.
  user_attempt :
      (db : UserService) (d : Draws) (r : Reply (List UserInfo))
      → 0 < highest
      → get_user db d (user_probe highest) ≡ ok r
      → (verdict scan.sscanf user_batch_format highest r ≡ again)
        ⊎ (verdict scan.sscanf user_batch_format highest r ≡ grow (room highest db.max_batch_size))
  unfolding verdict on_code
  user_attempt db d r some_size e = elim (get_user-drawn db d (user_probe highest) r e) [
    | inl (_, bad) ↦ inl (rw bad)
    | inr (_, good) ↦ inr (rw good (user_verdict db some_size))
  ]

-- An attempt at which no failure is injected settles the size.
user_settles :
    (scan : Scan) (highest : ℕ) (db : UserService) (d : Draws) (r : Reply (List UserInfo))
    → 0 < highest
    → get_user db d (user_probe highest) ≡ ok r
    → maybe_inject db.injection d ≡ ok false
    → verdict scan.sscanf user_batch_format highest r ≡ grow (room highest db.max_batch_size)
user_settles scan highest db d r some_size e calm =
    elim (get_user-drawn db d (user_probe highest) r e) [
      | inl (bad, _) ↦ absurd (ground (arith, calm, bad))
      | inr (_, good) ↦ rw good (user_verdict scan highest db some_size)
    ]

-- The search with the client at hand.
pub search_user_size_lem :
    (scan : Scan) (db : UserService) (draws : ℕ → Draws) (call : ℕ → List ℕ → Reply (List UserInfo))
    (s : Server) (k fuel : ℕ)
    → 0 < s.options.max_batch_size
    → s.options.max_batch_size < 2 ^ 63
    → 0 < db.max_batch_size
    → s.user_max_batch_size ≡ 1
    → ((t : ℕ) (ids : List ℕ) → get_user db (draws t) ids ≡ ok (call t ids))
    → maybe_inject db.injection (draws k) ≡ ok false
    → k < fuel
    → search_user_size scan.sscanf fuel call s
      ≡ some (record s { user_max_batch_size = min s.options.max_batch_size db.max_batch_size })
unfolding search_user_size
search_user_size_lem scan db draws call s k fuel some_size small some_room new serves calm enough =
    let highest = s.options.max_batch_size in
    let sized : (highest == 0) ≡ false = ground arith in
    let ask : ℕ → Verdict =
      λ t. verdict scan.sscanf user_batch_format highest (call t (user_probe highest)) in
    let ends =
      settle-start ask (room highest db.max_batch_size)
        (λ t.
          user_attempt scan highest db (draws t) (call t (user_probe highest)) some_size
            (serves t _))
        k fuel s.user_max_batch_size
        (user_settles scan highest db (draws k) (call k (user_probe highest)) some_size (serves k _)
          calm)
        enough in
    let total : add64 s.user_max_batch_size (room highest db.max_batch_size)
        ≡ min highest db.max_batch_size =
      ap (λ a. add64 a (room highest db.max_batch_size)) new ∙ omega arith in
    rw (sized, ends, total) refl

-- A new server with its clients and a maximal batch size from 1 to 2^63 - 1 in its options, and a
-- user service that returns a reply at each attempt, with a failure injected or not: once there is
-- an attempt without, the search ends, and the batch size is the smaller one of the server's
-- maximal size and the service's (where that is not 0).
pub update_user_max_batch_size_lem :
    (scan : Scan) (db : UserService) (draws : ℕ → Draws) (call : ℕ → List ℕ → Reply (List UserInfo))
    (s : Server) (k fuel : ℕ)
    → IsReady s
    → 0 < s.options.max_batch_size
    → s.options.max_batch_size < 2 ^ 63
    → 0 < db.max_batch_size
    → s.user_max_batch_size ≡ 1
    → ((t : ℕ) (ids : List ℕ) → get_user db (draws t) ids ≡ ok (call t ids))
    → maybe_inject db.injection (draws k) ≡ ok false
    → k < fuel
    → (n : ℕ) × (update_user_max_batch_size scan.sscanf fuel call s
        ≡ ok (
            some (record s {
              user_conn_index = n;
              user_max_batch_size = min s.options.max_batch_size db.max_batch_size;
            })))
unfolding update_user_max_batch_size
update_user_max_batch_size_lem scan db draws call s k fuel ready some_size small some_room new
      serves calm enough =
    let (n, _, client, _) = take_clients-IsReady s ready in
    (
      n,
      rw client (
          ap ok (
            search_user_size_lem scan db draws call (record s { user_conn_index = n }) k fuel
              some_size small some_room new serves calm enough)),
    )
