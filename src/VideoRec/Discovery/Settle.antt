-- ===== src/VideoRec/Discovery/Settle.antt =====
-- lab2/video_rec_service/server_lib/server_lib.go, the loop of
-- `UpdateUserServiceMaxBatchSize` and `UpdateVideoServiceMaxBatchSize`: with which attempt it ends.
use cpsc.Common.{ℕ, zero, suc, ◌+◌, ◌-◌, ◌<◌, ◌≡◌, ◌⊎◌, inl, inr, refl, subst, some, arith, min}
use cpsc.VideoRec.State.{add64}
use cpsc.VideoRec.Discovery.{Verdict, again, grow, settle}

-- Where each reply says to go on or settles the size at `n`, the loop ends with the first that
-- settles it.
settle-first :
    (v : ℕ → Verdict) (n : ℕ)
    → ((t : ℕ) → (v t ≡ again) ⊎ (v t ≡ grow n))
    → (k fuel t size : ℕ) → v (t + k) ≡ grow n
    → k < fuel
    → settle v fuel t size ≡ some (add64 size n)
unfolding settle
settle-first v n each k zero t size last enough = absurd (omega arith)
settle-first v n each zero (suc fuel) t size last enough =
    let here : t + 0 ≡ t = omega arith in
    let done : v t ≡ grow n = subst (λ j. v j ≡ grow n) here last in rw (done, settle) refl
settle-first v n each (suc k) (suc fuel) t size last enough =
    let next : t + suc k ≡ t + 1 + k = omega arith in
    let rest =
      settle-first v n each k fuel (t + 1) size (subst (λ j. v j ≡ grow n) next last)
        (omega arith) in
    elim (each t) [ inr done ↦ rw (done, settle) refl | inl more ↦ rw (more, settle) rest ]

pub settle-start :
    (v : ℕ → Verdict) (n : ℕ)
    → ((t : ℕ) → (v t ≡ again) ⊎ (v t ≡ grow n))
    → (k fuel size : ℕ) → v k ≡ grow n
    → k < fuel
    → settle v fuel 0 size ≡ some (add64 size n)
settle-start v n each k fuel size last enough =
    let here : k ≡ 0 + k = omega arith in
    settle-first v n each k fuel 0 size (subst (λ j. v j ≡ grow n) here last) enough

-- What the services report, and what the loop is to find.
abbrev pub room : (highest limit : ℕ) → ℕ
room highest limit = min highest limit - 1
