-- ===== src/VideoRec/Cache/Same.antt =====
-- lab2/video_rec_service/server_lib/server_lib.go, `UpdateCache`: the options stay.
use cpsc.Common.{
  ℕ, ◌≡◌, refl, sym, ◌∙◌, ap, inl, inr, Option, arith, ltb, ◌==◌, Bool-cases, Option-cases,
  List-cases,
}
use cpsc.Common.Outcome.{ok, panic}
use cpsc.Services.Rpc.{RpcError, VideoInfo, Reply-cases}
use cpsc.VideoRec.State.{Server, add_video_errors}
use cpsc.VideoRec.Batches.{retry}
use cpsc.VideoRec.Gather.{Order, Gathered}
use cpsc.VideoRec.Cache.{
  Source, any_error, fill_empty, replace_cache, store, gathered_trending, counted, fetch_trending,
  update_cache,
}

store-options :
    (expiration : ℕ) (g : Gathered VideoInfo) (s : Server)
    → (store expiration g s).0.options ≡ s.options
unfolding store fill_empty replace_cache
store-options expiration g s = elim (Option-cases (any_error g.replies)) [
  | inl fine ↦ elim (Bool-cases (ltb s.cache_expiration_time expiration)) [
    | inl later ↦ rw (fine, store) (rw later refl)
    | inr old ↦ rw (fine, store) (rw old refl)
  ]
  | inr (e, bad) ↦ elim (List-cases s.trending_cache) [
    | inl empty ↦ rw (bad, store) (rw (empty, fill_empty) refl)
    | inr (v, vids, full) ↦ rw (bad, store) (rw (full, fill_empty) refl)
  ]
]

ok-options :
    (r u : Server × Option RpcError) (s : Server)
    → ok r ≡ ok u
    → r.0.options ≡ s.options
    → u.0.options ≡ s.options
ok-options r u s e same =
    (let moved : r ≡ u = ground arith in
      sym (ap (λ (x : Server × Option RpcError). x.0.options) moved) ∙ same)

pub update_cache-options :
    (source : Source) (order : Order) (m : ℕ) (s : Server) (u : Server × Option RpcError)
    → update_cache source order m s ≡ ok u
    → u.0.options ≡ s.options
unfolding update_cache fetch_trending
update_cache-options source order m s u e =
    elim (Reply-cases (retry s.options.disable_retry source.trending).1) [
      | inr (x, bad) ↦ ok-options _ u s (rw (bad, update_cache) at e) refl
      | inl (trending, good) ↦
          let s2 : Server = add_video_errors (retry s.options.disable_retry source.trending).0 s in
          let g = gathered_trending source order m trending.videos s2.options in
          let rest : fetch_trending source order m trending s2 ≡ ok u =
            rw (good, update_cache) at e in
          elim (Bool-cases (m == 0)) [
            | inl zero_size ↦ (let panics : panic ≡ ok u = rw zero_size at rest in cc)
            | inr sized ↦
                ok-options (store trending.expiration_time_s g (counted g s2)) u s
                  (rw sized at rest) (store-options trending.expiration_time_s g (counted g s2))
          ]
    ]
