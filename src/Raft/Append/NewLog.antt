-- ===== src/Raft/Append/NewLog.antt =====
-- lab3/raft/raft.go, the AppendEntries handler: the log that any message leaves.
use cpsc.Common.{
  ℕ, zero, suc, ◌+◌, ◌-◌, ◌≡◌, ◌⊎◌, subst, sym, ◌∙◌, inl, inr, true, some, List, ◌++◌, arith,
  get_elem?, take, length, ltb, leb, ◌==◌, Bool-cases, ==_iff, lt→ltb, le→leb,
}
use cpsc.Common.Outcome.{ok, >>=-eq-ok}
use cpsc.Raft.State.{Entry, Raft, AppendEntriesArgs, AppendEntriesResults}
use cpsc.Raft.Log.{entry_at, first_entry, IsNumbered}
use cpsc.Raft.Log.Laws.{IsNumbered-entry_at, IsNumbered-first, IsNumbered-last}
use cpsc.Raft.Persist.{Gob}
use cpsc.Raft.Terms.{persist_same}
use cpsc.Raft.Vote.{signal_heartbeat, newer}
use cpsc.Raft.Append.Terms.{merge-Alike}
use cpsc.Raft.Append.{
  append_entries, merge, replace_tail, accept, save, conflict, slice_to, send_applied,
  apply_committed,
}

module _ {C : Type 0} (gob : Gob C) (args : AppendEntriesArgs C) where
  -- The entry before those of the message is one of the log, and the rest is replaced.
  pub record Replaced (l l' : List (Entry C)) : Type 0 where
    pub prev : Entry C
    pub at : get_elem? l args.prev_log_idx ≡ some prev
    pub term : prev.term ≡ args.prev_log_term
    pub log : l' ≡ take (args.prev_log_idx + 1) l ++ args.entries

  replace_tail-log :
      (rf rf' : Raft C) (reply : AppendEntriesResults)
      → replace_tail args 0 rf ≡ ok (rf', reply)
      → rf'.log ≡ take (args.prev_log_idx + 1) rf.log ++ args.entries
  unfolding replace_tail slice_to
  replace_tail-log rf rf' reply e =
      let plain : args.prev_log_idx + 1 - 0 ≡ args.prev_log_idx + 1 = omega arith in
      let whole = rw plain at e in ground arith

  accept-log :
      (rf rf' : Raft C) (reply : AppendEntriesResults)
      → accept gob args 0 rf ≡ ok (rf', reply)
      → rf'.log ≡ take (args.prev_log_idx + 1) rf.log ++ args.entries
  unfolding accept save
  accept-log rf rf' reply e =
      let near : ltb 0 (args.prev_log_idx + 2) ≡ true = lt→ltb _ _ (omega arith) in
      let (r, e1, e2) = >>=-eq-ok (replace_tail args 0 rf) (save gob) (rw near at e) in
      ground (arith, replace_tail-log rf r.0 r.1 e1, persist_same gob r.0)

  conflict-log :
      (base term : ℕ) (rf rf' : Raft C) (reply : AppendEntriesResults)
      → conflict gob args base term rf ≡ ok (rf', reply)
      → rf'.log ≡ rf.log
  unfolding conflict save
  conflict-log base term rf rf' reply e = ground (arith, persist_same gob rf)

  merge-log :
      (last : ℕ) (rf rf' : Raft C) (reply : AppendEntriesResults)
      → IsNumbered rf.log
      → last + 1 ≡ length rf.log
      → merge gob args last 0 rf ≡ ok (rf', reply)
      → (rf'.log ≡ rf.log) ⊎ Replaced rf.log rf'.log
  unfolding merge
  merge-log last rf rf' reply l size e = elim (Bool-cases (ltb last args.prev_log_idx)) [
    | inl y ↦ inl (ground arith)
    | inr n ↦
        let below : leb 0 args.prev_log_idx ≡ true = le→leb _ _ (omega arith) in
        let (x, at, got, _) = IsNumbered-entry_at rf.log args.prev_log_idx l (ground arith) in
        let rest = rw (n, below, at) at e in
        elim (Bool-cases (x.term == args.prev_log_term)) [
          | inr t ↦ inl (conflict-log 0 x.term rf rf' reply (rw t at rest))
          | inl t ↦ inr (record {
            prev = x;
            at = got;
            term = (==_iff x.term args.prev_log_term).0 t;
            log = accept-log rf rf' reply (rw t at rest);
          })
        ]
  ]

  -- The handler leaves the log as it is, or it is of the term of the message and replaces what
  -- follows an entry that agrees with the message.
  pub append_entries-log :
      (rf rf' : Raft C) (reply : AppendEntriesResults)
      → IsNumbered rf.log
      → append_entries gob args rf ≡ ok (rf', reply)
      → (rf'.log ≡ rf.log) ⊎ (Replaced rf.log rf'.log × (rf'.current_term ≡ args.term))
  unfolding append_entries
  append_entries-log rf rf' reply l e =
      let (last, el, ix, _) = IsNumbered-last rf.log l in
      let (first, ef, zero_ix) = IsNumbered-first rf.log l in
      elim (Bool-cases (ltb args.term rf.current_term)) [
        | inl y ↦ inl (ground (arith, el, ef))
        | inr n ↦
            let (rf1, e5, e6) =
              >>=-eq-ok (signal_heartbeat (newer args.term rf)) _ (rw (el, ef, n, zero_ix) at e) in
            let kept : rf1.log ≡ rf.log = ground arith in
            let now : rf1.current_term ≡ args.term = ground arith in
            let alike = merge-Alike gob args last.index 0 rf1 rf' reply e6 in
            let size : last.index + 1 ≡ length rf1.log = rw kept ix in
            let l1 : IsNumbered rf1.log = subst IsNumbered (sym kept) l in
            elim (merge-log last.index rf1 rf' reply l1 size e6) [
              | inl same ↦ inl (same ∙ kept)
              | inr new ↦ inr (subst (λ m. Replaced m rf'.log) kept new, alike.0 ∙ now)
            ]
      ]

module _ {C : Type 0} where
  send_applied-log : (k i : ℕ) (rf rf' : Raft C) → send_applied k i rf ≡ ok rf' → rf'.log ≡ rf.log
  unfolding send_applied
  send_applied-log zero i rf rf' e = ground arith
  send_applied-log (suc k) i rf rf' e =
      let (first, e1, e2) = >>=-eq-ok (first_entry rf.log) _ e in
      let (x, e3, e4) = >>=-eq-ok (entry_at rf.log first.index i) _ e2 in
      send_applied-log k (i + 1) _ rf' e4

  pub apply_committed-log : (rf rf' : Raft C) → apply_committed rf ≡ ok rf' → rf'.log ≡ rf.log
  unfolding apply_committed
  apply_committed-log rf rf' e =
      let (rf1, e1, e2) = >>=-eq-ok (send_applied _ _ _) _ e in
      ground (arith, send_applied-log _ _ _ rf1 e1)
