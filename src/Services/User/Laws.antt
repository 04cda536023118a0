-- ===== src/Services/User/Laws.antt =====
-- lab2/user_service/server_lib/server_lib.go, `GetUser`: which requests succeed, and with what.
use cpsc.Common.{
  ℕ, ◌≤◌, ◌<◌, ◌≡◌, ◌≢◌, ◌↔◌, ◌⊎◌, refl, ap, ◌∙◌, inl, inr, true, false, some, List, [], ◌∷◌, map,
  arith, tests, length, ltb, Bool-cases, Option-cases,
}
use cpsc.Common.Outcome.{ok, >>=-eq-ok}
use cpsc.Services.Rpc.{
  UserInfo, Reply, value, failure, grpc, internal, literal, invalid_argument, formatted,
  user_batch_format, not_found,
}
use cpsc.Services.Injection.{Draws, IsCalm, maybe_inject, maybe_inject-IsCalm}
use cpsc.Services.User.{UserService, find_users, checked_users, get_user, user_missing_format}

find_users_iff :
    (db : UserService) (ids : List ℕ) (us : List UserInfo)
    → (find_users db ids ≡ value us) ↔ (map db.users ids ≡ map some us)
unfolding find_users
find_users_iff db [] [] = (λ _. refl, λ _. refl)
find_users_iff db [] (u ∷ us) = (λ h. cc, λ h. cc)
find_users_iff db (i ∷ ids) [] = (λ h. ground arith, λ h. cc)
find_users_iff db (i ∷ ids) (u ∷ us) = (
  λ h. ground (arith, (find_users_iff db ids us).0),
  λ h. ground (arith, (find_users_iff db ids us).1),
)

-- A request that the service accepts: not empty, within the limit.
pub record IsAccepted (db : UserService) (ids : List ℕ) : Type 0 where
  pub some_id : ids ≢ []
  pub within : length ids ≤ db.max_batch_size

pub checked_users_iff :
    (db : UserService) (ids : List ℕ) (us : List UserInfo)
    → (checked_users db ids ≡ value us) ↔ (IsAccepted db ids × (map db.users ids ≡ map some us))
unfolding checked_users
checked_users_iff db [] us = (λ h. cc, λ h. absurd (h.0.some_id refl))
checked_users_iff db (i ∷ ids) us = elim (Bool-cases (ltb db.max_batch_size (length (i ∷ ids)))) [
  | inl over ↦ rw over (λ h. cc, λ h. absurd (omega (tests, h.0.within)))
  | inr fits ↦ rw fits (
    λ h. (record { some_id = λ e. cc; within = omega tests }, (find_users_iff db (i ∷ ids) us).0 h),
    λ h. (find_users_iff db (i ∷ ids) us).1 h.1,
  )
]

-- With no failure injected the service answers every request, and the answer is a list of infos
-- exactly where the request is accepted and each id is stored, with the infos in the order of the
-- ids.
get_user_lem :
    (db : UserService) (d : Draws) (ids : List ℕ)
    → IsCalm db.injection
    → (r : Reply (List UserInfo)) × (get_user db d ids ≡ ok r)
      × ((us : List UserInfo)
          → (r ≡ value us) ↔ (IsAccepted db ids × (map db.users ids ≡ map some us)))
unfolding get_user
get_user_lem db d ids calm =
    (checked_users db ids, rw (maybe_inject-IsCalm db.injection d calm), checked_users_iff db ids)

-- A batch over the limit is refused with a message that names the limit.
pub checked_users-over :
    (db : UserService) (ids : List ℕ)
    → db.max_batch_size < length ids
    → checked_users db ids
      ≡ failure (grpc invalid_argument (formatted user_batch_format db.max_batch_size))
unfolding checked_users
checked_users-over db [] over = absurd (omega arith)
checked_users-over db (i ∷ ids) over = ground arith

-- The loop succeeds or names an id that is not stored.
pub find_users_cases :
    (db : UserService) (ids : List ℕ)
    → ((us : List UserInfo) × (find_users db ids ≡ value us))
      ⊎ ((i : ℕ) × (find_users db ids ≡ failure (grpc not_found (formatted user_missing_format i))))
unfolding find_users
find_users_cases db [] = inl ([], refl)
find_users_cases db (i ∷ ids) = elim (Option-cases (db.users i)) [
  | inl gone ↦ inr (i, rw (gone, find_users))
  | inr (info, here) ↦ elim (find_users_cases db ids) [
    | inl (us, rest) ↦ inl (info ∷ us, rw (here, find_users) (rw rest))
    | inr (j, rest) ↦ inr (j, rw (here, find_users) (rw rest))
  ]
]

pub checked_users-IsAccepted :
    (db : UserService) (ids : List ℕ) → IsAccepted db ids → checked_users db ids ≡ find_users db ids
unfolding checked_users
checked_users-IsAccepted db [] a = absurd (a.some_id refl)
checked_users-IsAccepted db (i ∷ ids) a =
    let fits : ltb db.max_batch_size (length (i ∷ ids)) ≡ false = ground (arith, a.within) in
    rw fits

-- A call that returns has injected a failure or answers the request.
pub get_user-drawn :
    (db : UserService) (d : Draws) (ids : List ℕ) (r : Reply (List UserInfo))
    → get_user db d ids ≡ ok r
    → ((maybe_inject db.injection d ≡ ok true)
        × (r ≡ failure (grpc internal (literal "UserService: (injected) internal error!"))))
      ⊎ ((maybe_inject db.injection d ≡ ok false) × (r ≡ checked_users db ids))
unfolding get_user
get_user-drawn db d ids r e =
    let (should_error, drawn, rest) = >>=-eq-ok (maybe_inject db.injection d) _ e in
    elim (Bool-cases should_error) [
      | inl fails ↦ inl (drawn ∙ ap ok fails, ground (arith, fails, rest))
      | inr fine ↦ inr (drawn ∙ ap ok fine, ground (arith, fine, rest))
    ]
