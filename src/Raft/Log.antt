-- ===== src/Raft/Log.antt =====
-- lab3/raft/raft.go, accesses to the log: `rf.log[len(rf.log)-1]`, `rf.log[0]` and
-- `rf.log[i-rf.log[0].Index]`, which panic out of range.
pub mod Laws
use cpsc.Common.{
  ℕ, zero, suc, ◌-◌, ◌<◌, ◌≡◌, Option, none, some, List, [], ◌∷◌, leb, if◌then◌else◌, get_elem?,
}
use cpsc.Common.Outcome.{Outcome, ok, panic, checked}
use cpsc.Raft.State.{Entry}

module _ {C : Type 0} where
  last? : List (Entry C) → Option (Entry C)
  last? [] = none
  last? (e ∷ []) = some e
  last? (e ∷ f ∷ l) = last? (f ∷ l)

  unfoldable pub last_entry : List (Entry C) → Outcome (Entry C)
  unfolding last?
  last_entry l = checked (last? l)

  unfoldable pub first_entry : List (Entry C) → Outcome (Entry C)
  first_entry [] = panic
  first_entry (e ∷ l) = ok e

  -- `rf.log[i-base]`
  unfoldable pub entry_at : List (Entry C) → ℕ → ℕ → Outcome (Entry C)
  entry_at l base i = if leb base i then checked (get_elem? l (i - base)) else panic

  -- The indices of the entries run from `b` on without a gap.
  abbrev pub Contiguous : ℕ → List (Entry C) → Type 0
  Contiguous b [] = Unit
  Contiguous b (e ∷ l) = (e.index ≡ b) × Contiguous (suc b) l

  -- Entries after the sentinel carry a positive term.
  abbrev pub Positive : List (Entry C) → Type 0
  Positive [] = Unit
  Positive (e ∷ l) = (0 < e.term) × Positive l

  -- A log begins with the sentinel of index 0 and term 0, and its indices have no gap.
  abbrev pub IsLog : List (Entry C) → Type 0
  IsLog [] = ⊥
  IsLog (e ∷ l) = (e.index ≡ 0) × (e.term ≡ 0) × Contiguous 1 l × Positive l

  -- A log with an entry at least, whose indices run from 0 on.
  abbrev pub IsNumbered : List (Entry C) → Type 0
  IsNumbered [] = ⊥
  IsNumbered (e ∷ l) = (e.index ≡ 0) × Contiguous 1 l
