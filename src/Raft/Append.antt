-- ===== src/Raft/Append.antt =====
-- lab3/raft/raft.go, the AppendEntries handler, and the goroutine that applies committed entries.
pub mod Terms
pub mod NewLog
pub mod Received
pub mod Conflict
pub mod Accept
pub mod Apply
pub mod Stale
use cpsc.Common.{
  ℕ, zero, suc, ◌+◌, ◌-◌, true, false, not, Option, none, some, List, [], ◌∷◌, ◌++◌, ltb, leb, ◌==◌,
  if◌then◌else◌, length, take, min,
}
use cpsc.Common.Outcome.{Outcome, ok, panic, ◌>>=◌}
use cpsc.Raft.State.{Entry, Raft, AppendEntriesArgs, AppendEntriesResults}
use cpsc.Raft.Log.{last_entry, first_entry, entry_at}
use cpsc.Raft.Persist.{Gob, persist}
use cpsc.Raft.Vote.{newer, signal_heartbeat}

module _ {C : Type 0} where
  -- The loop that looks for the first entry of the conflicting term, from the offset `k - 1`
  -- down: the index to try next, or none where the loop runs out.
  pub conflict_start : List (Entry C) → (base term k : ℕ) → Outcome (Option ℕ)
  conflict_start log base term zero = ok none
  conflict_start log base term (suc k) =
      let rest = conflict_start log base term k in
      entry_at log base (base + k) >>= λ e.
      if not (e.term == term) then ok (some (base + k + 1)) else rest

  -- `rf.log[:n]`
  unfoldable pub slice_to : ℕ → List (Entry C) → Outcome (List (Entry C))
  slice_to n log = if leb n (length log) then ok (take n log) else panic

  -- The entries replace what follows `prevLogIdx`, and the commit index advances.
  unfoldable pub replace_tail :
      AppendEntriesArgs C → (base : ℕ) → Raft C → Outcome (Raft C × AppendEntriesResults)
  replace_tail args base rf = slice_to (args.prev_log_idx + 1 - base) rf.log >>= λ kept.
      let log = kept ++ args.entries in
      let reply : AppendEntriesResults = record {
        term = args.term;
        success = true;
        next_try_idx = length args.entries + args.prev_log_idx;
      } in
      if ltb rf.commit_idx args.leader_commit
      then (last_entry log >>= λ last. ok (
        record rf {
          log = log;
          commit_idx = min args.leader_commit last.index;
          applying = rf.applying + 1;
        },
        reply,
      ))
      else ok (record rf { log = log }, reply)

  abbrev refuse : AppendEntriesArgs C → ℕ → AppendEntriesResults
  refuse args n = record { term = args.term; success = false; next_try_idx = n }

  unfoldable pub save :
      Gob C → Raft C × AppendEntriesResults → Outcome (Raft C × AppendEntriesResults)
  save gob r = ok (persist gob r.0, r.1)

  -- The last branch, and the `persist` that ends the handler.
  unfoldable pub accept :
      Gob C → AppendEntriesArgs C → (base : ℕ) → Raft C → Outcome (Raft C × AppendEntriesResults)
  accept gob args base rf =
      if ltb base (args.prev_log_idx + 2)
      then replace_tail args base rf >>= save gob
      else save gob (rf, refuse args 0)

  -- The branch of a conflict in term `term`.
  pub conflict :
      Gob C
      → AppendEntriesArgs C
      → (base term : ℕ) → Raft C
      → Outcome (Raft C × AppendEntriesResults)
  conflict gob args base term rf =
      conflict_start rf.log base term (args.prev_log_idx - base) >>= λ found. elim found [
        | none ↦ save gob (rf, refuse args 0)
        | some n ↦ ok (rf, refuse args n)
      ]

  -- The entry before the new ones is missing, conflicts or matches.
  unfoldable pub merge :
      Gob C
      → AppendEntriesArgs C
      → (last base : ℕ) → Raft C
      → Outcome (Raft C × AppendEntriesResults)
  merge gob args last base rf =
      if ltb last args.prev_log_idx
      then ok (rf, refuse args (last + 1))
      else if leb base args.prev_log_idx
      then (entry_at rf.log base args.prev_log_idx >>= λ prev.
          if not (prev.term == args.prev_log_term)
          then conflict gob args base prev.term rf
          else accept gob args base rf)
      else accept gob args base rf

  -- `AppendEntries`, from lock to unlock; the reply starts as the zero value.
  unfoldable pub append_entries :
      Gob C → AppendEntriesArgs C → Raft C → Outcome (Raft C × AppendEntriesResults)
  append_entries gob args rf = last_entry rf.log >>= λ last. first_entry rf.log >>= λ first.
      if ltb args.term rf.current_term
      then ok
          (rf, record { term = rf.current_term; success = false; next_try_idx = last.index + 1 })
      else (signal_heartbeat (newer args.term rf) >>= λ rf'.
          merge gob args last.index first.index rf')

  -- `for i := rf.appliedLast + 1; i <= rf.commitIdx; i++`, with `k` rounds left from index `i`.
  send_applied : (k i : ℕ) → Raft C → Outcome (Raft C)
  send_applied zero i rf = ok rf
  send_applied (suc k) i rf = first_entry rf.log >>= λ first. entry_at rf.log first.index i >>= λ e.
      send_applied k (i + 1) (record rf {
        apply_ch =
            rf.apply_ch
            ++ (record { command_valid = true; command = e.command; command_index = i } ∷ []);
      })

  -- The goroutine, once it has the lock, with a reader at the other end of `cApplyMsg`.
  pub apply_committed : Raft C → Outcome (Raft C)
  apply_committed rf =
      send_applied (rf.commit_idx - rf.applied_last) (rf.applied_last + 1)
        (record rf { applying = rf.applying - 1 })
      >>= λ rf'. ok (record rf' { applied_last = rf'.commit_idx })
