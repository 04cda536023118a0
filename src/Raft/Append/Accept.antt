-- ===== src/Raft/Append/Accept.antt =====
-- lab3/raft/raft.go, AppendEntries where the entry before the new ones matches.
use cpsc.Common.{
  suc, ◌+◌, ◌-◌, ◌≤◌, ◌<◌, ◌≡◌, refl, ap, sym, ◌∙◌, true, false, some, List, ◌++◌, arith, length,
  get_elem?, take, min, Bool-cases, ltb, leb, ◌==◌, if◌then◌else◌, inl, inr, lt→ltb, le→leb,
  length-append, length-take,
}
use cpsc.Common.Outcome.{ok}
use cpsc.Raft.State.{Entry, Raft, AppendEntriesArgs, AppendEntriesResults}
use cpsc.Raft.Log.{entry_at, IsLog, Contiguous, Positive}
use cpsc.Raft.Log.Laws.{IsLog-entry_at, IsLog-last, IsLog-append, IsLog-take}
use cpsc.Raft.Persist.{Gob, persist, persist-persist}
use cpsc.Raft.Append.Received.{Takes, noted, noted_same, noted_term, append_entries-Takes}
use cpsc.Raft.Append.{append_entries, merge, accept, replace_tail, slice_to, save}

-- The entries of a message that may follow index `i`.
pub record Follows {C : Type 0} (args : AppendEntriesArgs C) : Type 0 where
  pub gapless : Contiguous (args.prev_log_idx + 1) args.entries
  pub later : Positive args.entries

module _ {C : Type 0} (gob : Gob C) (args : AppendEntriesArgs C) (rf : Raft C) where
  pub record Accepted (rf' : Raft C) (reply : AppendEntriesResults) : Type 0 where
    pub log : rf'.log ≡ take (args.prev_log_idx + 1) rf.log ++ args.entries
    pub is_log : IsLog rf'.log
    pub commit : rf'.commit_idx ≡ (
        if ltb rf.commit_idx args.leader_commit
        then min args.leader_commit (args.prev_log_idx + length args.entries)
        else rf.commit_idx)
    pub term : rf'.current_term ≡ args.term
    pub saved : persist gob rf' ≡ rf'
    pub answer : reply ≡ record {
      term = args.term;
      success = true;
      next_try_idx = length args.entries + args.prev_log_idx;
    }

  abbrev new_log : List (Entry C)
  new_log = take (args.prev_log_idx + 1) rf.log ++ args.entries

  new_log-IsLog :
      IsLog rf.log
      → args.prev_log_idx < length rf.log
      → Follows args
      → IsLog new_log × (length new_log ≡ args.prev_log_idx + 1 + length args.entries)
  new_log-IsLog l lt f =
      let n : length (take (args.prev_log_idx + 1) rf.log) ≡ args.prev_log_idx + 1 =
        omega (arith, length-take (args.prev_log_idx + 1) rf.log) in
      let s : args.prev_log_idx + 1 ≡ suc args.prev_log_idx = omega arith in
      (
        IsLog-append (take (args.prev_log_idx + 1) rf.log) args.entries
            (rw s (IsLog-take args.prev_log_idx rf.log l)) (rw n f.gapless) f.later,
        omega (arith, length-append (take (args.prev_log_idx + 1) rf.log) args.entries, n),
      )

  -- The state and the answer that the last branch leaves.
  after : Raft C → Raft C
  after rf1 =
      if ltb rf1.commit_idx args.leader_commit
      then record rf1 {
        log = new_log;
        commit_idx = min args.leader_commit (args.prev_log_idx + length args.entries);
        applying = rf1.applying + 1;
      }
      else record rf1 { log = new_log }

  success : AppendEntriesResults
  success = record {
    term = args.term;
    success = true;
    next_try_idx = length args.entries + args.prev_log_idx;
  }

  replace_tail-after :
      (rf1 : Raft C)
      → rf1.log ≡ rf.log
      → IsLog rf.log
      → args.prev_log_idx < length rf.log
      → Follows args
      → replace_tail args 0 rf1 ≡ ok (after rf1, success)
  unfolding replace_tail slice_to after success
  replace_tail-after rf1 same l lt f =
      let (is_log, len) = new_log-IsLog l lt f in
      let (e, at, ix, _) = IsLog-last new_log is_log in
      let last_ix : e.index ≡ args.prev_log_idx + length args.entries = omega arith in
      let keep : args.prev_log_idx + 1 - 0 ≡ args.prev_log_idx + 1 = omega arith in
      let room : leb (args.prev_log_idx + 1) (length rf.log) ≡ true = le→leb _ _ (omega arith) in
      elim (Bool-cases (ltb rf1.commit_idx args.leader_commit)) [
        | inl more ↦ rw (keep, same) (rw (room, more) (rw (at, last_ix)))
        | inr less ↦ rw (keep, same) (rw (room, less))
      ]

  merge-accept :
      (rf1 : Raft C) (e : Entry C)
      → rf1.log ≡ rf.log
      → IsLog rf.log
      → args.prev_log_idx < length rf.log
      → Follows args
      → entry_at rf.log 0 args.prev_log_idx ≡ ok e
      → (e.term == args.prev_log_term) ≡ true
      → merge gob args (length rf.log - 1) 0 rf1 ≡ ok (persist gob (after rf1), success)
  unfolding merge accept save
  merge-accept rf1 e same l lt f at agrees =
      let here : ltb (length rf.log - 1) args.prev_log_idx ≡ false = ground arith in
      let near : ltb 0 (args.prev_log_idx + 2) ≡ true = lt→ltb _ _ (omega arith) in
      let at1 : entry_at rf1.log 0 args.prev_log_idx ≡ ok e =
        ap (λ l1. entry_at l1 0 args.prev_log_idx) same ∙ at in
      rw (here, le→leb 0 args.prev_log_idx (omega arith), at1)
        (rw (agrees, near) (rw (replace_tail-after rf1 same l lt f)))

  after-log : (rf1 : Raft C) → (after rf1).log ≡ new_log
  unfolding after
  after-log rf1 = ground arith

  after-Accepted :
      IsLog rf.log
      → args.prev_log_idx < length rf.log
      → Follows args
      → rf.current_term ≤ args.term
      → Accepted (persist gob (after (noted args rf))) success
  unfolding after success persist
  after-Accepted l lt f le = record {
    log = after-log (noted args rf);
    is_log = rw (after-log (noted args rf)) (new_log-IsLog l lt f).0;
    commit = ground (arith, noted_same gob args rf);
    term = ground (arith, noted_term gob args rf le);
    saved = persist-persist gob (after (noted args rf));
    answer = refl;
  }

  -- The entry at `prev` agrees with the leader's: what follows it is replaced by the leader's
  -- entries, the commit index follows the leader's, and the new state is saved before the answer.
  pub append_entries-accept :
      (e : Entry C)
      → Takes args rf
      → Follows args
      → get_elem? rf.log args.prev_log_idx ≡ some e
      → e.term ≡ args.prev_log_term
      → args.prev_log_idx < length rf.log
      → (rf' : Raft C) × (reply : AppendEntriesResults) × (append_entries gob args rf
          ≡ ok (rf', reply))
        × Accepted rf' reply
  append_entries-accept e t f got agrees lt =
      let (x, at, got', ix) = IsLog-entry_at rf.log args.prev_log_idx t.log lt in
      let found : some x ≡ some e = sym got' ∙ got in
      let test : (x.term == args.prev_log_term) ≡ true = ground arith in
      (
        persist gob (after (noted args rf)),
        success,
        append_entries-Takes gob args rf t
            ∙ merge-accept (noted args rf) x (noted_same gob args rf).0 t.log lt f at test,
        after-Accepted t.log lt f t.term,
      )
