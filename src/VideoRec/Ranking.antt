-- ===== src/VideoRec/Ranking.antt =====
-- lab2/video_rec_service/server_lib/server_lib.go, `rankVideos` and `GetCachedVideos`. The map from a
-- video to its rank is the function `score`; `sort.SliceStable` is an insertion sort, which is
-- stable. A limit is an int32 that is not negative, and a list is shorter than 2^31.
use cpsc.Common.{
  ℕ, ◌≤◌, ◌≡◌, refl, ◌∙◌, ◌&&◌, List, [], ◌∷◌, arith, length, take, ltb, leb, ◌==◌, Bool-cases,
  if◌then◌else◌, inl, inr,
}
use mathlib.Core.List.{Perm}
use mathlib.Core.List.Perm
use cpsc.Services.Rpc.{VideoInfo, Coefficients}

module _ {ℓ} {A : Type ℓ} (score : A → ℕ) where
  -- A video goes before the first one that it is not ranked below.
  pub insert_ranked : A → List A → List A
  insert_ranked v [] = v ∷ []
  insert_ranked v (w ∷ ws) = if ltb (score v) (score w) then w ∷ insert_ranked v ws else v ∷ w ∷ ws

  -- `sort.SliceStable` by the comparator of the source: of equal ranks the order stays.
  unfoldable pub sort_ranked : List A → List A
  sort_ranked [] = []
  sort_ranked (v ∷ vs) = insert_ranked v (sort_ranked vs)

  -- No rank is below a later one.
  abbrev pub IsRanked : List A → Type 0
  IsRanked [] = Unit
  IsRanked (v ∷ []) = Unit
  IsRanked (v ∷ w ∷ vs) = (score w ≤ score v) × IsRanked (w ∷ vs)

  -- The videos of one rank.
  abbrev pub of_rank : ℕ → List A → List A
  of_rank r [] = []
  of_rank r (v ∷ vs) = if score v == r then v ∷ of_rank r vs else of_rank r vs

  insert_ranked-IsRanked : (v : A) (ws : List A) → IsRanked ws → IsRanked (insert_ranked v ws)
  unfolding insert_ranked
  insert_ranked-IsRanked v [] h = tt
  insert_ranked-IsRanked v (w ∷ []) h = ground arith
  insert_ranked-IsRanked v (w ∷ x ∷ ws) h = ground (arith, insert_ranked-IsRanked v (x ∷ ws) h.1)

  insert_ranked-perm : (v : A) (ws : List A) → Perm (insert_ranked v ws) (v ∷ ws)
  unfolding insert_ranked
  insert_ranked-perm v [] = Perm.rfl
  insert_ranked-perm v (w ∷ ws) = elim (Bool-cases (ltb (score v) (score w))) [
    | inl below ↦ rw below (Perm.trans (Perm.cons w (insert_ranked-perm v ws)) (Perm.swap v w ws))
    | inr above ↦ rw above Perm.rfl
  ]

  of_rank-insert_ranked :
      (r : ℕ) (v : A) (ws : List A) → of_rank r (insert_ranked v ws) ≡ of_rank r (v ∷ ws)
  unfolding insert_ranked
  of_rank-insert_ranked r v [] = refl
  of_rank-insert_ranked r v (w ∷ ws) = ground (arith, of_rank-insert_ranked r v ws)

  -- The sorted list is in order of the ranks, highest first, it has the same videos as often, and
  -- those of one rank stay in their order.
  sort_ranked_lem :
      (vs : List A)
      → IsRanked (sort_ranked vs)
        × Perm (sort_ranked vs) vs
        × ((r : ℕ) → of_rank r (sort_ranked vs) ≡ of_rank r vs)
  unfolding sort_ranked
  sort_ranked_lem [] = (tt, Perm.rfl, λ r. refl)
  sort_ranked_lem (v ∷ vs) =
      let (ranked, same, stable) = sort_ranked_lem vs in
      (
        insert_ranked-IsRanked v (sort_ranked vs) ranked,
        Perm.trans (insert_ranked-perm v (sort_ranked vs)) (Perm.cons v same),
        λ r. of_rank-insert_ranked r v (sort_ranked vs) ∙ ground (arith, stable r),
      )

-- `limit > 0 && limit <= int32(len(vids))`
unfoldable pub limited {ℓ} : {A : Type ℓ} → ℕ → List A → List A
limited limit vids = if ltb 0 limit && leb limit (length vids) then take limit vids else vids

module _ (rank : Coefficients → Coefficients → ℕ) where
  -- `rankVideos`
  unfoldable pub rank_videos : Coefficients → List VideoInfo → (limit : ℕ) → List VideoInfo
  rank_videos user videos limit =
      limited limit (sort_ranked (λ v. rank user v.video_coefficients) videos)

-- `GetCachedVideos`
unfoldable pub get_cached_videos : List VideoInfo → (limit : ℕ) → List VideoInfo
unfolding limited
get_cached_videos [] limit = []
get_cached_videos (v ∷ vids) limit = limited limit (v ∷ vids)
