-- ===== src/Raft/Matching.antt =====
-- lab3/raft/raft.go: `AppendEntries`, at a peer whose log matches the leader's, with a message of
-- `broadcastHeartbeat`.
use cpsc.Common.{
  ℕ, ◌+◌, ◌≡◌, ◌⊎◌, ap, ◌∙◌, inl, inr, some, List, ◌++◌, get_elem?, take, drop, take-append-drop,
}
use cpsc.Common.Outcome.{ok}
use cpsc.Raft.State.{Entry, Raft, AppendEntriesArgs, AppendEntriesResults}
use cpsc.Raft.Log.{IsNumbered}
use cpsc.Raft.Persist.{Gob}
use cpsc.Raft.Append.{append_entries}
use cpsc.Raft.Append.NewLog.{Replaced, append_entries-log}
use cpsc.Raft.Replicate.Slice.{IsSliceOf}

-- Where two logs have entries of one term at one index, they are the same up to that index.
abbrev pub Matches : {C : Type 0} → List (Entry C) → List (Entry C) → Type 0
Matches {C} l m =
    (p : ℕ) (e f : Entry C)
    → get_elem? l p ≡ some e
    → get_elem? m p ≡ some f
    → e.term ≡ f.term
    → take (p + 1) l ≡ take (p + 1) m

module _ {C : Type 0} (gob : Gob C) where
  pub slice-copies :
      (args : AppendEntriesArgs C) (l : List (Entry C)) (rf rf' : Raft C)
      (reply : AppendEntriesResults)
      → IsNumbered rf.log
      → Matches rf.log l
      → IsSliceOf l args
      → append_entries gob args rf ≡ ok (rf', reply)
      → (rf'.log ≡ rf.log) ⊎ ((rf'.log ≡ l) × (rf'.current_term ≡ args.term))
  slice-copies args l rf rf' reply is_log same slice e =
      elim (append_entries-log gob args rf rf' reply is_log e) [
        | inl kept ↦ inl kept
        | inr (new, now) ↦
            let shared =
              same args.prev_log_idx (Replaced.prev new) slice.prev (Replaced.at new) slice.at
                (Replaced.term new ∙ slice.term) in
            inr (
              Replaced.log new
                  ∙ ap (λ es. take (args.prev_log_idx + 1) rf.log ++ es) slice.entries
                  ∙ ap (λ k. k ++ drop (args.prev_log_idx + 1) l) shared
                  ∙ take-append-drop (args.prev_log_idx + 1) l,
              now,
            )
      ]
