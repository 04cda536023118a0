-- ===== src/VideoRec/Connect.antt =====
-- lab2/video_rec_service/server_lib/server_lib.go: `ConnectClient`, `MakeVideoRecServiceServer`, and
-- how a handler takes a connection from the pool. `grpc.NewClient` is a parameter: its result for
-- an address and a number that tells the calls apart.
use cpsc.Common.{
  ℕ, zero, suc, ◌<◌, ◌≡◌, ◌%◌, ◌⊎◌, inl, inr, true, false, List, [], ◌∷◌, arith, length, get_elem?,
  get_elem?-some, subst, if◌then◌else◌, max, Bool-cases,
}
use cpsc.Common.Outcome.{Outcome, ok, panic, ◌>>=◌, checked}
use Prim.Native.String.{String}
use native.Mathlib.Nat.{mod-lt}
use cpsc.Services.Rpc.{Reply, value, failure, grpc, invalid_argument, literal, Reply-cases}
use cpsc.VideoRec.State.{Options, Server, mocked, add64}

module _ (new_client : String → ℕ → Reply ℕ) where
  -- `ConnectClient`: the target is 0 for the user service and 1 for the video service.
  unfoldable pub connect_client : Options → (target call : ℕ) → Reply ℕ
  connect_client o zero call = new_client o.user_service_addr call
  connect_client o (suc zero) call = new_client o.video_service_addr call
  connect_client o (suc (suc target)) call =
      failure (grpc invalid_argument (literal "Invalid target argument"))

  -- The loop that fills a pool with `k` connections, the calls numbered down to 0.
  unfoldable pub fill_pool : Options → (target k : ℕ) → Reply (List ℕ)
  fill_pool o target zero = value []
  fill_pool o target (suc k) = elim (connect_client o target k) [
    | failure e ↦ failure e
    | value conn ↦ elim (fill_pool o target k) [
      | failure e ↦ failure e
      | value rest ↦ value (conn ∷ rest)
    ]
  ]

  -- `MakeVideoRecServiceServer`
  unfoldable pub make_server : Options → Reply Server
  make_server given =
      let o : Options = record given { client_pool_size = max 1 given.client_pool_size } in
      elim (fill_pool o 0 o.client_pool_size) [
        | failure e ↦ failure e
        | value users ↦ elim (fill_pool o 1 o.client_pool_size) [
          | failure e ↦ failure e
          | value videos ↦
              value
                (record (mocked o) { is_mock = false; user_conns = users; video_conns = videos })
        ]
      ]

-- `idx := atomic.AddUint64(index, 1) % uint64(pool); conns[idx]`: the new index and the connection.
-- A remainder by 0 and an index out of range panic.
next_conn : (index pool : ℕ) → List ℕ → Outcome (ℕ × ℕ)
next_conn index zero conns = panic
next_conn index (suc p) conns =
    checked (get_elem? conns (add64 index 1 % suc p)) >>= λ conn. ok (add64 index 1, conn)

-- A handler takes a client, unless it has the mock.
unfoldable pub take_user_client : Server → Outcome Server
unfolding next_conn
take_user_client s =
    if s.is_mock
    then ok s
    else (next_conn s.user_conn_index s.options.client_pool_size s.user_conns >>= λ r.
        ok (record s { user_conn_index = r.0 }))

unfoldable pub take_video_client : Server → Outcome Server
unfolding next_conn
take_video_client s =
    if s.is_mock
    then ok s
    else (next_conn s.video_conn_index s.options.client_pool_size s.video_conns >>= λ r.
        ok (record s { video_conn_index = r.0 }))

-- A pool that is not empty and as large as the options say, for either service, or none in a
-- server with mocks.
abbrev pub HasPools : Server → Type 0
HasPools s =
    (0 < s.options.client_pool_size)
    × (length s.user_conns ≡ s.options.client_pool_size)
    × (length s.video_conns ≡ s.options.client_pool_size)

abbrev pub IsReady : Server → Type 0
IsReady s = (s.is_mock ≡ true) ⊎ HasPools s

module _ (new_client : String → ℕ → Reply ℕ) where
  fill_pool-length :
      (o : Options) (target k : ℕ) (conns : List ℕ)
      → fill_pool new_client o target k ≡ value conns
      → length conns ≡ k
  unfolding fill_pool
  fill_pool-length o target zero conns e = ground arith
  fill_pool-length o target (suc k) conns e =
      elim (Reply-cases (connect_client new_client o target k)) [
        | inr (x, bad) ↦ ground (arith, bad)
        | inl (conn, good) ↦ elim (Reply-cases (fill_pool new_client o target k)) [
          | inr (x, bad) ↦ ground (arith, bad, good)
          | inl (rest, filled) ↦
              ground (arith, good, filled, fill_pool-length o target k rest filled)
        ]
      ]

  -- A server that is made has a pool of connections for either service, as large as the options
  -- say and not empty.
  make_server-IsReady :
      (given : Options) (s : Server) → make_server new_client given ≡ value s → IsReady s
  unfolding make_server mocked
  make_server-IsReady given s e = elim (Reply-cases (fill_pool new_client o 0 o.client_pool_size)) [
    | inr (x, bad) ↦ absurd (ground (arith, bad))
    | inl (users, good) ↦ elim (Reply-cases (fill_pool new_client o 1 o.client_pool_size)) [
      | inr (x, bad) ↦ absurd (ground (arith, good, bad))
      | inl (videos, filled) ↦
          let made : record (mocked o) { is_mock = false; user_conns = users; video_conns = videos }
              ≡ s =
            ground (arith, good, filled) in
          subst IsReady made (
            inr (
              omega arith,
              fill_pool-length o 0 o.client_pool_size users good,
              fill_pool-length o 1 o.client_pool_size videos filled,
            ))
    ]
  ]
    where
      o : Options
      o = record given { client_pool_size = max 1 given.client_pool_size }

next_conn-some :
    (index pool : ℕ) (conns : List ℕ)
    → 0 < pool
    → length conns ≡ pool
    → (conn : ℕ) × (next_conn index pool conns ≡ ok (add64 index 1, conn))
unfolding next_conn
next_conn-some index zero conns pos len = absurd (omega arith)
next_conn-some index (suc p) conns pos len =
    let (conn, at) =
      get_elem?-some conns (add64 index 1 % suc p) (omega (arith, mod-lt (add64 index 1) pos)) in
    (conn, rw at)

-- A server that is ready always has a client for a handler; only the index of the pool moves.
pub take_clients-IsReady :
    (s : Server)
    → IsReady s
    → (n m : ℕ) × (take_user_client s ≡ ok (record s { user_conn_index = n }))
      × (take_video_client s ≡ ok (record s { video_conn_index = m }))
unfolding take_user_client take_video_client
take_clients-IsReady s (inl mock) =
    (s.user_conn_index, s.video_conn_index, ground arith, ground arith)
take_clients-IsReady s (inr h) = elim (Bool-cases s.is_mock) [
  | inl mock ↦ (s.user_conn_index, s.video_conn_index, rw mock, rw mock)
  | inr live ↦
      let (c, user) =
        next_conn-some s.user_conn_index s.options.client_pool_size s.user_conns h.0 h.1 in
      let (d, video) =
        next_conn-some s.video_conn_index s.options.client_pool_size s.video_conns h.0 h.2 in
      (add64 s.user_conn_index 1, add64 s.video_conn_index 1, rw (live, user), rw (live, video))
]
