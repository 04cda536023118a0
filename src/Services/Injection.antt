-- ===== src/Services/Injection.antt =====
-- lab2/failure_injection/failure_injection.go. A draw stands for one call of `rand.Int63n`, which is
-- given its argument. The sleep takes time and changes nothing.
use cpsc.Common.{ℕ, zero, suc, ◌≡◌, Bool, false, ◌==◌, if◌then◌else◌}
use cpsc.Common.Int.{ℤ, pos, negsuc}
use cpsc.Common.Outcome.{Outcome, ok, panic, blocked, ◌>>=◌}

pub record InjectionConfig : Type 0 where
  pub sleep_ns : ℤ
  pub failure_rate : ℤ
  pub response_omission_rate : ℤ

-- `Config`, the atomic value that the injector keeps.
pub record FailureInjector : Type 0 where
  pub config : InjectionConfig

abbrev pub set_injection_config :
    (sleep_ns failure_rate response_omission_rate : ℤ) → FailureInjector → FailureInjector
set_injection_config s f o fi = record fi {
  config = record { sleep_ns = s; failure_rate = f; response_omission_rate = o };
}

abbrev pub set_injection_config_pb : InjectionConfig → FailureInjector → FailureInjector
set_injection_config_pb c fi = record fi { config = c }

abbrev pub get_injection_config : FailureInjector → InjectionConfig
get_injection_config fi = fi.config

unfoldable pub make_failure_injector : FailureInjector
make_failure_injector = record {
  config = record { sleep_ns = pos 0; failure_rate = pos 0; response_omission_rate = pos 0 };
}

abbrev pub clear_injection_config : FailureInjector → FailureInjector
clear_injection_config fi = set_injection_config (pos 0) (pos 0) (pos 0) fi

-- `rand.Int63n` panics on an argument below 1.
unfoldable pub one_in : ℤ → (ℕ → ℕ) → Outcome Bool
one_in (pos zero) draw = ok false
one_in (pos (suc n)) draw = ok (draw (suc n) == 0)
one_in (negsuc n) draw = panic

-- Two draws of one call of `MaybeInject`.
pub record Draws : Type 0 where
  pub first : ℕ → ℕ
  pub second : ℕ → ℕ

-- `MaybeInject`; a response that is omitted blocks for ever.
unfoldable pub maybe_inject : FailureInjector → Draws → Outcome Bool
unfolding one_in
maybe_inject fi d =
    let c = get_injection_config fi in
    one_in c.failure_rate d.first >>= λ should_error.
    one_in c.response_omission_rate d.second >>= λ should_omit.
    if should_omit then blocked else ok should_error

-- No rate is set.
pub record IsCalm (fi : FailureInjector) : Type 0 where
  pub failures : fi.config.failure_rate ≡ pos 0
  pub omissions : fi.config.response_omission_rate ≡ pos 0

pub maybe_inject-IsCalm :
    (fi : FailureInjector) (d : Draws) → IsCalm fi → maybe_inject fi d ≡ ok false
unfolding maybe_inject
maybe_inject-IsCalm fi d q = rw (q.failures, q.omissions)
