-- ===== src/Raft/Cluster/Quorum.antt =====
-- Counting the peers of a cluster: two majorities have a peer in common.
use cpsc.Common.{
  ℕ, zero, suc, ◌+◌, ◌≤◌, ◌<◌, ◌≡◌, Bool, true, false, ◌&&◌, arith, if◌then◌else◌, Bool-cases, inl,
  inr,
}
use native.Mathlib.Decide.{ℕ_discrete}

-- The number of peers below `n` that pass a test.
pub count : ℕ → (ℕ → Bool) → ℕ
count zero p = 0
count (suc n) p = (if p n then 1 else 0) + count n p

pub count_mono :
    (n : ℕ) (p q : ℕ → Bool) → ((s : ℕ) → p s ≡ true → q s ≡ true) → count n p ≤ count n q
unfolding count
count_mono zero p q h = omega arith
count_mono (suc n) p q h = ground (arith, count_mono n p q h, h n)

pub count_lt :
    (n s : ℕ) (p q : ℕ → Bool)
    → ((r : ℕ) → p r ≡ true → q r ≡ true)
    → s < n
    → p s ≡ false
    → q s ≡ true
    → count n p < count n q
unfolding count
count_lt zero s p q h lt no_p yes_q = absurd (omega arith)
count_lt (suc n) s p q h lt no_p yes_q = elim (ℕ_discrete s n) [
  | yes e ↦
      let at_p : p n ≡ false = rw (← e) no_p in
      let at_q : q n ≡ true = rw (← e) yes_q in ground (arith, count_mono n p q h)
  | no ne ↦ let rest = count_lt n s p q h (omega arith) no_p yes_q in ground (arith, rest, h n)
]

pub count_some : (n s : ℕ) (p : ℕ → Bool) → s < n → p s ≡ true → 1 ≤ count n p
unfolding count
count_some zero s p lt e = absurd (omega arith)
count_some (suc n) s p lt e = elim (ℕ_discrete s n) [
  | yes same ↦ let at : p n ≡ true = rw (← same) e in ground arith
  | no ne ↦ let rest = count_some n s p (omega arith) e in ground (arith, rest)
]

-- Two sets of peers that are together more than all have a peer in common.
pub count_common :
    (n : ℕ) (p q : ℕ → Bool)
    → n < count n p + count n q
    → (s : ℕ) × (s < n) × (p s ≡ true) × (q s ≡ true)
unfolding count
count_common zero p q h = absurd (omega arith)
count_common (suc n) p q h = elim (Bool-cases (p n && q n)) [
  | inl both ↦ (n, omega arith, ground arith, ground arith)
  | inr not_both ↦
      let (s, lt, yes_p, yes_q) = count_common n p q (ground arith) in
      (s, omega arith, yes_p, yes_q)
]
