-- ===== src/Raft/Append/Conflict.antt =====
-- lab3/raft/raft.go, AppendEntries: the answers that send the leader back to an earlier index.
use cpsc.Common.{
  ℕ, zero, suc, ◌+◌, ◌-◌, ◌≤◌, ◌<◌, ◌≡◌, ◌≢◌, refl, sym, ap, ◌∙◌, inl, inr, false, none, some,
  Option, List, arith, length, dec_lt, get_elem?, Bool-cases, ◌==◌, ltb, lt→ltb, le→leb,
}
use cpsc.Common.Outcome.{ok}
use cpsc.Raft.State.{Entry, Raft, AppendEntriesArgs, AppendEntriesResults}
use cpsc.Raft.Log.{entry_at, IsLog}
use cpsc.Raft.Log.Laws.{IsLog-entry_at, IsLog-length, IsLog-Positive, IsLog-sentinel}
use cpsc.Raft.Persist.{Gob}
use cpsc.Raft.Append.Received.{Takes, noted, noted_same, noted_term, append_entries-Takes}
use cpsc.Raft.Append.{append_entries, merge, conflict, conflict_start, refuse}

-- Every entry of the offsets from `a` up to `b` is of term `t`.
abbrev pub Run : {C : Type 0} → List (Entry C) → (t a b : ℕ) → Type 0
Run {C} log t a b = (j : ℕ) (e : Entry C) → a ≤ j → j < b → get_elem? log j ≡ some e → e.term ≡ t

-- `n` is the offset at which the run of term `t` that goes up to `b` begins.
pub record IsStart {C : Type 0} (log : List (Entry C)) (t b n : ℕ) : Type 0 where
  pub low : 0 < n
  pub high : n ≤ b
  pub run : Run log t n b
  pub before : (e : Entry C) → get_elem? log (n - 1) ≡ some e → e.term ≢ t

-- What the loop finds.
data Found {C : Type 0} (log : List (Entry C)) (t b : ℕ) : Option ℕ → Type 0 where
  all : Run log t 0 b → Found log t b none
  start : (n : ℕ) → IsStart log t b n → Found log t b (some n)

module _ {C : Type 0} (log : List (Entry C)) (is_log : IsLog log) (t : ℕ) where
  Run-suc :
      (a b : ℕ) (e : Entry C)
      → get_elem? log b ≡ some e
      → e.term ≡ t
      → Run log t a b
      → Run log t a (suc b)
  Run-suc a b e got same run j x lo hi at = elim (dec_lt j b) [
    | yes below ↦ run j x lo below at
    | no last ↦
        let here : j ≡ b = omega arith in
        let equal : some x ≡ some e = sym at ∙ ap (get_elem? log) here ∙ got in ground arith
  ]

  Found-suc :
      (b : ℕ) (e : Entry C) (r : Option ℕ)
      → get_elem? log b ≡ some e
      → e.term ≡ t
      → Found log t b r
      → Found log t (suc b) r
  Found-suc b e _ got same (all run) = all (Run-suc 0 b e got same run)
  Found-suc b e _ got same (start n s) = start n (record {
    low = s.low;
    high = omega (arith, s.high);
    before = s.before;
    run = Run-suc n b e got same s.run;
  })

  conflict_start_lem :
      (k : ℕ)
      → k < length log
      → (r : Option ℕ) × (conflict_start log 0 t k ≡ ok r) × Found log t k r
  unfolding conflict_start
  conflict_start_lem zero lt = (none, refl, all (λ j e h k. absurd (omega arith)))
  conflict_start_lem (suc k) lt =
      let (e, at, got, ix) = IsLog-entry_at log k is_log (omega arith) in
      let offset : 0 + k ≡ k = omega arith in
      elim (Bool-cases (e.term == t)) [
        | inl same ↦
            let (r, rest, found) = conflict_start_lem k (omega arith) in
            (r, rw (offset, at, same) rest, Found-suc k e r got (ground arith) found)
        | inr other ↦ (
          some (k + 1),
          rw (offset, at, other),
          start (k + 1) (record {
            low = omega arith;
            high = omega arith;
            run = λ j x lo hi. absurd (omega arith);
            before = λ x q tx.
                let back : k + 1 - 1 ≡ k = omega arith in
                let equal : some x ≡ some e = sym q ∙ ap (get_elem? log) back ∙ got in ground arith;
          }),
        )
      ]

  -- Below an entry of a positive term the loop never runs out.
  conflict_start-some :
      (k : ℕ)
      → k < length log
      → 0 < k
      → 0 < t
      → (n : ℕ) × (conflict_start log 0 t k ≡ ok (some n)) × IsStart log t k n
  conflict_start-some k lt pos later =
      let (r, found, spec) = conflict_start_lem k lt in pick r found spec
    where
      pick :
          (r : Option ℕ)
          → conflict_start log 0 t k ≡ ok r
          → Found log t k r
          → (n : ℕ) × (conflict_start log 0 t k ≡ ok (some n)) × IsStart log t k n
      pick _ found (start n s) = (n, found, s)
      pick _ found (all run) =
          let (z, at, zero_term) = IsLog-sentinel log is_log in
          absurd (omega (arith, run 0 z (omega arith) pos at))

module _ {C : Type 0} (gob : Gob C) (args : AppendEntriesArgs C) (rf : Raft C) where
  -- A refusal: the log stays as it is, and the answer names an index to try.
  pub record Refused (n : ℕ) (rf' : Raft C) (reply : AppendEntriesResults) : Type 0 where
    pub log : rf'.log ≡ rf.log
    pub commit : rf'.commit_idx ≡ rf.commit_idx
    pub term : rf'.current_term ≡ args.term
    pub answer : reply ≡ record { term = args.term; success = false; next_try_idx = n }

  noted-Refused : Takes args rf → (n : ℕ) → Refused n (noted args rf) (refuse args n)
  noted-Refused t n = record {
    log = (noted_same gob args rf).0;
    commit = (noted_same gob args rf).2;
    term = noted_term gob args rf t.term;
    answer = refl;
  }

  -- The entry before the new ones is missing: the answer is the index after the last entry.
  append_entries-short :
      Takes args rf
      → length rf.log ≤ args.prev_log_idx
      → (rf' : Raft C) × (reply : AppendEntriesResults) × (append_entries gob args rf
          ≡ ok (rf', reply))
        × Refused (length rf.log) rf' reply
  unfolding merge
  append_entries-short t short =
      let some_entry : 0 < length rf.log = IsLog-length rf.log t.log in
      let next : length rf.log - 1 + 1 ≡ length rf.log = omega arith in
      (
        noted args rf,
        refuse args (length rf.log),
        append_entries-Takes gob args rf t
            ∙ rw (lt→ltb (length rf.log - 1) args.prev_log_idx (omega arith), next),
        noted-Refused t (length rf.log),
      )

  merge-conflict :
      (rf1 : Raft C) (last : ℕ) (e : Entry C) (n : ℕ)
      → args.prev_log_idx ≤ last
      → entry_at rf1.log 0 args.prev_log_idx ≡ ok e
      → (e.term == args.prev_log_term) ≡ false
      → conflict_start rf1.log 0 e.term args.prev_log_idx ≡ ok (some n)
      → merge gob args last 0 rf1 ≡ ok (rf1, refuse args n)
  unfolding merge conflict
  merge-conflict rf1 last e n inside at differs found =
      let whole : args.prev_log_idx - 0 ≡ args.prev_log_idx = omega arith in
      let here : ltb last args.prev_log_idx ≡ false = ground arith in
      rw (here, le→leb 0 args.prev_log_idx (omega arith), at, differs, whole, found)

  -- The entry at `prev` is of another term than the leader's: the answer is the first index of the
  -- run of that term, which lies above 0 and not above `prev`, so that the leader backs up.
  pub append_entries-conflict :
      (e : Entry C)
      → Takes args rf
      → get_elem? rf.log args.prev_log_idx ≡ some e
      → e.term ≢ args.prev_log_term
      → 0 < args.prev_log_idx
      → args.prev_log_idx < length rf.log
      → (n : ℕ) × (rf' : Raft C) × (reply : AppendEntriesResults) × (append_entries gob args rf
          ≡ ok (rf', reply))
        × Refused n rf' reply
        × IsStart rf.log e.term args.prev_log_idx n
  append_entries-conflict e t got other pos inside =
      let (x, at, got', ix) = IsLog-entry_at rf.log args.prev_log_idx t.log inside in
      let same : some x ≡ some e = sym got' ∙ got in
      let (n, found, spec) =
        conflict_start-some rf.log t.log e.term args.prev_log_idx inside pos
          (IsLog-Positive rf.log args.prev_log_idx e t.log pos got) in
      let l : (noted args rf).log ≡ rf.log = (noted_same gob args rf).0 in
      let x_e : x ≡ e = ground arith in
      let differs : (e.term == args.prev_log_term) ≡ false = ground arith in
      (
        n,
        noted args rf,
        refuse args n,
        append_entries-Takes gob args rf t
            ∙ merge-conflict (noted args rf) (length rf.log - 1) e n (omega arith)
                (rw l (at ∙ ap ok x_e)) differs (rw l found),
        noted-Refused t n,
        spec,
      )
