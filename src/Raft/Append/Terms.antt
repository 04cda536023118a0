-- ===== src/Raft/Append/Terms.antt =====
-- lab3/raft/raft.go, the AppendEntries handler: terms, votes and roles.
use cpsc.Common.{ℕ, zero, suc, ◌+◌, ◌≡◌, inl, inr, arith, Bool-cases, ltb, leb, ◌==◌}
use cpsc.Common.Outcome.{ok, >>=-eq-ok}
use cpsc.Raft.State.{Raft, AppendEntriesArgs, AppendEntriesResults}
use cpsc.Raft.Terms.{Moves, Keeps, Alike, persist-Alike}
use cpsc.Raft.Persist.{Gob}
use cpsc.Raft.Vote.{signal_heartbeat, newer}
use cpsc.Raft.Append.{
  append_entries, apply_committed, merge, replace_tail, accept, save, conflict, send_applied,
}
use cpsc.Raft.Log.{entry_at, last_entry, first_entry}

module _ {C : Type 0} (gob : Gob C) where
  replace_tail-Alike :
      (args : AppendEntriesArgs C) (base : ℕ) (rf rf' : Raft C) (reply : AppendEntriesResults)
      → replace_tail args base rf ≡ ok (rf', reply)
      → Alike rf rf'
  unfolding replace_tail
  replace_tail-Alike args base rf rf' reply e = ground arith

  accept-Alike :
      (args : AppendEntriesArgs C) (base : ℕ) (rf rf' : Raft C) (reply : AppendEntriesResults)
      → accept gob args base rf ≡ ok (rf', reply)
      → Alike rf rf'
  unfolding accept save
  accept-Alike args base rf rf' reply e = elim (Bool-cases (ltb base (args.prev_log_idx + 2))) [
    | inl y ↦
        let (r, e1, e2) = >>=-eq-ok (replace_tail args base rf) (save gob) (rw y at e) in
        ground (arith, replace_tail-Alike args base rf r.0 r.1, persist-Alike gob r.0)
    | inr n ↦ ground (arith, persist-Alike gob rf)
  ]

  conflict-Alike :
      (args : AppendEntriesArgs C) (base term : ℕ) (rf rf' : Raft C) (reply : AppendEntriesResults)
      → conflict gob args base term rf ≡ ok (rf', reply)
      → Alike rf rf'
  unfolding conflict save
  conflict-Alike args base term rf rf' reply e = ground (arith, persist-Alike gob rf)

  pub merge-Alike :
      (args : AppendEntriesArgs C) (last base : ℕ) (rf rf' : Raft C) (reply : AppendEntriesResults)
      → merge gob args last base rf ≡ ok (rf', reply)
      → Alike rf rf'
  unfolding merge
  merge-Alike args last base rf rf' reply e = elim (Bool-cases (ltb last args.prev_log_idx)) [
    | inl y ↦ ground arith
    | inr n ↦ elim (Bool-cases (leb base args.prev_log_idx)) [
      | inr y ↦ accept-Alike args base rf rf' reply (rw (n, y) at e)
      | inl y ↦
          let (prev, e1, e2) =
            >>=-eq-ok (entry_at rf.log base args.prev_log_idx) _ (rw (n, y) at e) in
          elim (Bool-cases (prev.term == args.prev_log_term)) [
            | inl t ↦ accept-Alike args base rf rf' reply (rw t at e2)
            | inr t ↦ conflict-Alike args base prev.term rf rf' reply (rw t at e2)
          ]
    ]
  ]

  pub append_entries-Keeps :
      (args : AppendEntriesArgs C) (rf rf' : Raft C) (reply : AppendEntriesResults)
      → append_entries gob args rf ≡ ok (rf', reply)
      → Keeps rf rf'
  unfolding append_entries
  append_entries-Keeps args rf rf' reply e =
      let (last, e1, e2) = >>=-eq-ok (last_entry rf.log) _ e in
      let (first, e3, e4) = >>=-eq-ok (first_entry rf.log) _ e2 in
      elim (Bool-cases (ltb args.term rf.current_term)) [
        | inl y ↦ ground arith
        | inr n ↦
            let (rf1, e5, e6) = >>=-eq-ok (signal_heartbeat (newer args.term rf)) _ (rw n at e4) in
            ground (arith, merge-Alike args last.index first.index rf1 rf' reply)
      ]

  pub append_entries-Moves :
      (args : AppendEntriesArgs C) (rf rf' : Raft C) (reply : AppendEntriesResults)
      → append_entries gob args rf ≡ ok (rf', reply)
      → Moves rf rf'
  append_entries-Moves args rf rf' reply e = (append_entries-Keeps args rf rf' reply e).0

module _ {C : Type 0} where
  send_applied-Alike : (k i : ℕ) (rf rf' : Raft C) → send_applied k i rf ≡ ok rf' → Alike rf rf'
  unfolding send_applied
  send_applied-Alike zero i rf rf' e = ground arith
  send_applied-Alike (suc k) i rf rf' e =
      let (first, e1, e2) = >>=-eq-ok (first_entry rf.log) _ e in
      let (x, e3, e4) = >>=-eq-ok (entry_at rf.log first.index i) _ e2 in
      send_applied-Alike k (i + 1) _ rf' e4

  pub apply_committed-Alike : (rf rf' : Raft C) → apply_committed rf ≡ ok rf' → Alike rf rf'
  unfolding apply_committed
  apply_committed-Alike rf rf' e =
      let (rf1, e1, e2) = >>=-eq-ok (send_applied _ _ _) _ e in
      ground (arith, send_applied-Alike _ _ _ rf1 e1)
