-- ===== src/Common/Outcome.antt =====
-- How a Go call ends: it returns, it panics (an index out of range), or it blocks on a channel
-- that is full, with the locks that it holds still held.
use mathlib.Core.Path.{◌≡◌, refl}
use mathlib.Core.Option.{Option, none, some}

pub data Outcome {ℓ} (A : Type ℓ) : Type ℓ where
  ok : A → Outcome A
  panic : Outcome A
  blocked : Outcome A

module _ {ℓ κ} {A : Type ℓ} {B : Type κ} where
  infixl 5 ◌>>=◌
  -- What a call does after a call that it makes: only a call that returns is followed by more.
  abbrev pub ◌>>=◌ : Outcome A → (A → Outcome B) → Outcome B
  panic >>= k = panic
  blocked >>= k = blocked
  ok a >>= k = k a

  -- A call that returns has returned from the call before.
  pub >>=-eq-ok :
      (first : Outcome A) (k : A → Outcome B) {b : B}
      → (first >>= k) ≡ ok b
      → (a : A) × (first ≡ ok a) × (k a ≡ ok b)
  >>=-eq-ok panic k end = cc
  >>=-eq-ok blocked k end = cc
  >>=-eq-ok (ok a) k end = (a, refl, end)

-- An access that panics out of range.
abbrev pub checked {ℓ} : {A : Type ℓ} → Option A → Outcome A
checked none = panic
checked (some a) = ok a
