-- ===== src/Services/User.antt =====
-- lab2/user_service/server_lib/server_lib.go. The database that the service makes at random is a
-- parameter.
pub mod Laws
use cpsc.Common.{ℕ, zero, suc, Option, none, some, List, [], ◌∷◌, length, ltb, if◌then◌else◌}
use Prim.Native.String.{String}
use cpsc.Common.Outcome.{Outcome, ok, ◌>>=◌}
use cpsc.Services.Rpc.{
  UserInfo, Reply, value, failure, grpc, internal, invalid_argument, not_found, literal, formatted,
  user_batch_format,
}
use cpsc.Services.Injection.{
  InjectionConfig, FailureInjector, set_injection_config_pb, Draws, maybe_inject,
}

abbrev pub user_missing_format : String
user_missing_format =
    "UserService: user %d cannot be found, it may have been deleted or never existed in the first place."

pub record UserService : Type 0 where
  pub max_batch_size : ℕ
  pub injection : FailureInjector
  pub users : ℕ → Option UserInfo

-- `SetInjectionConfig`
pub set_user_injection : InjectionConfig → UserService → UserService
set_user_injection c db = record db { injection = set_injection_config_pb c db.injection }

-- The loop over the ids: an id that is not there ends it with an error.
unfoldable pub find_users : UserService → List ℕ → Reply (List UserInfo)
find_users db [] = value []
find_users db (i ∷ ids) = elim (db.users i) [
  | none ↦ failure (grpc not_found (formatted user_missing_format i))
  | some info ↦ elim (find_users db ids) [
    | failure e ↦ failure e
    | value rest ↦ value (info ∷ rest)
  ]
]

unfoldable pub checked_users : UserService → List ℕ → Reply (List UserInfo)
checked_users db [] =
    failure (
      grpc invalid_argument (literal "UserService: user_ids in GetUserRequest should not be empty"))
checked_users db (i ∷ ids) =
    if ltb db.max_batch_size (length (i ∷ ids))
    then failure (grpc invalid_argument (formatted user_batch_format db.max_batch_size))
    else find_users db (i ∷ ids)

-- `GetUser`
unfoldable pub get_user : UserService → Draws → List ℕ → Outcome (Reply (List UserInfo))
get_user db d ids = maybe_inject db.injection d >>= λ should_error.
    if should_error
    then ok (failure (grpc internal (literal "UserService: (injected) internal error!")))
    else ok (checked_users db ids)
