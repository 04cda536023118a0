-- ===== src/Services/Video/Laws.antt =====
-- lab2/video_service/server_lib/server_lib.go, `GetVideo`: which requests succeed, and with what.
use cpsc.Common.{
  ℕ, ◌≤◌, ◌<◌, ◌≡◌, ◌≢◌, ◌↔◌, ◌⊎◌, refl, ap, ◌∙◌, inl, inr, true, false, some, List, [], ◌∷◌, map,
  arith, tests, length, ltb, Bool-cases, Option-cases, ◌==◌, ==_iff,
}
use cpsc.Common.Outcome.{ok, >>=-eq-ok}
use cpsc.Services.Rpc.{
  VideoInfo, Reply, value, failure, grpc, internal, literal, invalid_argument, formatted,
  video_batch_format, not_found,
}
use cpsc.Services.Injection.{Draws, IsCalm, maybe_inject, maybe_inject-IsCalm}
use cpsc.Services.Dedup.{Distinct, deduplicate_ids, length-deduplicate_ids}
use cpsc.Services.Video.{VideoService, find_videos, checked_videos, get_video, video_missing_format}

find_videos_iff :
    (db : VideoService) (ids : List ℕ) (us : List VideoInfo)
    → (find_videos db ids ≡ value us) ↔ (map db.videos ids ≡ map some us)
unfolding find_videos
find_videos_iff db [] [] = (λ _. refl, λ _. refl)
find_videos_iff db [] (u ∷ us) = (λ h. cc, λ h. cc)
find_videos_iff db (i ∷ ids) [] = (λ h. ground arith, λ h. cc)
find_videos_iff db (i ∷ ids) (u ∷ us) = (
  λ h. ground (arith, (find_videos_iff db ids us).0),
  λ h. ground (arith, (find_videos_iff db ids us).1),
)

-- A request that the service accepts: not empty, within the limit, without a repeated id.
pub record IsAccepted (db : VideoService) (ids : List ℕ) : Type 0 where
  pub some_id : ids ≢ []
  pub within : length ids ≤ db.max_batch_size
  pub distinct : Distinct ids

pub checked_videos_iff :
    (db : VideoService) (ids : List ℕ) (us : List VideoInfo)
    → (checked_videos db ids ≡ value us) ↔ (IsAccepted db ids × (map db.videos ids ≡ map some us))
unfolding checked_videos
checked_videos_iff db [] us = (λ h. cc, λ h. absurd (h.0.some_id refl))
checked_videos_iff db (i ∷ ids) us = elim (Bool-cases (ltb db.max_batch_size (length (i ∷ ids)))) [
  | inl over ↦ rw over (λ h. cc, λ h. absurd (omega (tests, h.0.within)))
  | inr fits ↦ elim (Bool-cases (length (deduplicate_ids (i ∷ ids)) == length (i ∷ ids))) [
    | inr twice ↦
        rw (fits, twice)
          (
            λ h. cc,
            λ h.
                let same = (length-deduplicate_ids (i ∷ ids)).1 h.0.distinct in
                absurd (ground arith),
          )
    | inl once ↦
        rw (fits, once)
          (
            λ h. (
              record {
                some_id = λ e. cc;
                within = omega tests;
                distinct = (length-deduplicate_ids (i ∷ ids)).0 ((==_iff _ _).0 once);
              },
              (find_videos_iff db (i ∷ ids) us).0 h,
            ),
            λ h. (find_videos_iff db (i ∷ ids) us).1 h.1,
          )
  ]
]

-- With no failure injected the service answers every request, and the answer is a list of infos
-- exactly where the request is accepted and each id is stored, with the infos in the order of the
-- ids.
pub get_video_lem :
    (db : VideoService) (d : Draws) (ids : List ℕ)
    → IsCalm db.injection
    → (r : Reply (List VideoInfo)) × (get_video db d ids ≡ ok r)
      × ((us : List VideoInfo)
          → (r ≡ value us) ↔ (IsAccepted db ids × (map db.videos ids ≡ map some us)))
unfolding get_video
get_video_lem db d ids calm =
    (checked_videos db ids, rw (maybe_inject-IsCalm db.injection d calm), checked_videos_iff db ids)

-- A batch over the limit is refused with a message that names the limit.
pub checked_videos-over :
    (db : VideoService) (ids : List ℕ)
    → db.max_batch_size < length ids
    → checked_videos db ids
      ≡ failure (grpc invalid_argument (formatted video_batch_format db.max_batch_size))
unfolding checked_videos
checked_videos-over db [] over = absurd (omega arith)
checked_videos-over db (i ∷ ids) over = ground arith

-- The loop succeeds or names an id that is not stored.
pub find_videos_cases :
    (db : VideoService) (ids : List ℕ)
    → ((us : List VideoInfo) × (find_videos db ids ≡ value us))
      ⊎ ((i : ℕ) × (find_videos db ids
            ≡ failure (grpc not_found (formatted video_missing_format i))))
unfolding find_videos
find_videos_cases db [] = inl ([], refl)
find_videos_cases db (i ∷ ids) = elim (Option-cases (db.videos i)) [
  | inl gone ↦ inr (i, rw (gone, find_videos))
  | inr (info, here) ↦ elim (find_videos_cases db ids) [
    | inl (us, rest) ↦ inl (info ∷ us, rw (here, find_videos) (rw rest))
    | inr (j, rest) ↦ inr (j, rw (here, find_videos) (rw rest))
  ]
]

pub checked_videos-IsAccepted :
    (db : VideoService) (ids : List ℕ)
    → IsAccepted db ids
    → checked_videos db ids ≡ find_videos db ids
unfolding checked_videos
checked_videos-IsAccepted db [] a = absurd (a.some_id refl)
checked_videos-IsAccepted db (i ∷ ids) a =
    let fits : ltb db.max_batch_size (length (i ∷ ids)) ≡ false = ground (arith, a.within) in
    let once : (length (deduplicate_ids (i ∷ ids)) == length (i ∷ ids)) ≡ true =
      (==_iff _ _).1 ((length-deduplicate_ids (i ∷ ids)).1 a.distinct) in
    rw (fits, once)

-- A call that returns has injected a failure or answers the request.
pub get_video-drawn :
    (db : VideoService) (d : Draws) (ids : List ℕ) (r : Reply (List VideoInfo))
    → get_video db d ids ≡ ok r
    → ((maybe_inject db.injection d ≡ ok true)
        × (r ≡ failure (grpc internal (literal "VideoService: (injected) internal error!"))))
      ⊎ ((maybe_inject db.injection d ≡ ok false) × (r ≡ checked_videos db ids))
unfolding get_video
get_video-drawn db d ids r e =
    let (should_error, drawn, rest) = >>=-eq-ok (maybe_inject db.injection d) _ e in
    elim (Bool-cases should_error) [
      | inl fails ↦ inl (drawn ∙ ap ok fails, ground (arith, fails, rest))
      | inr fine ↦ inr (drawn ∙ ap ok fine, ground (arith, fine, rest))
    ]
