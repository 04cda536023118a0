-- ===== src/Raft/Cluster/Index.antt =====
-- Families of peers, ballots and calls that change at one index.
use cpsc.Common.{ℕ, sym, subst, Bool, true, false, ◌==◌, ==_iff, Bool-cases, inl, inr}

-- What holds of the index that changes and of all others.
pub by_index :
    (Q : ℕ → Bool → Type 0) (i : ℕ) → Q i true → ((j : ℕ) → Q j false) → (j : ℕ) → Q j (j == i)
by_index Q i this rest j = elim (Bool-cases (j == i)) [
  | inl same ↦ rw same (subst (λ l. Q l true) (sym ((==_iff j i).0 same)) this)
  | inr other ↦ rw other (rest j)
]
