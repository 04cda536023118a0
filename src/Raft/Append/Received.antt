-- ===== src/Raft/Append/Received.antt =====
-- lab3/raft/raft.go, AppendEntries up to the comparison with the log.
use cpsc.Common.{◌+◌, ◌-◌, ◌≤◌, ◌<◌, ◌≡◌, inl, inr, arith, length, Bool-cases, ltb, tests, lt→ltb}
use cpsc.Raft.State.{Raft, AppendEntriesArgs, signal_capacity}
use cpsc.Raft.Log.{IsLog}
use cpsc.Raft.Log.Laws.{IsLog-last, IsLog-first}
use cpsc.Raft.Persist.{Gob}
use cpsc.Raft.Vote.{newer}
use cpsc.Raft.Append.{append_entries, merge}

-- The peer can take the message: it is not of an earlier term, and there is room for a heartbeat.
pub record Takes {C : Type 0} (args : AppendEntriesArgs C) (rf : Raft C) : Type 0 where
  pub log : IsLog rf.log
  pub term : rf.current_term ≤ args.term
  pub room : rf.heartbeat < signal_capacity

-- The peer once it has noted the term and the heartbeat.
abbrev pub noted : {C : Type 0} → AppendEntriesArgs C → Raft C → Raft C
noted args rf = record (newer args.term rf) { heartbeat = rf.heartbeat + 1 }

module _ {C : Type 0} (gob : Gob C) (args : AppendEntriesArgs C) (rf : Raft C) where
  pub noted_same :
      ((newer args.term rf).log ≡ rf.log)
      × ((newer args.term rf).heartbeat ≡ rf.heartbeat)
      × ((newer args.term rf).commit_idx ≡ rf.commit_idx)
      × ((newer args.term rf).applied_last ≡ rf.applied_last)
  noted_same = ground arith

  pub noted_term : rf.current_term ≤ args.term → (newer args.term rf).current_term ≡ args.term
  noted_term le = ground arith

  pub append_entries-Takes :
      Takes args rf
      → append_entries gob args rf ≡ merge gob args (length rf.log - 1) 0 (noted args rf)
  unfolding append_entries
  append_entries-Takes t =
      let (last, l, li, _) = IsLog-last rf.log t.log in
      let (first, f, fi) = IsLog-first rf.log t.log in
      let same : last.index ≡ length rf.log - 1 = omega arith in
      elim (Bool-cases (ltb args.term rf.current_term)) [
        | inl old ↦ absurd (omega tests)
        | inr now ↦ elim (Bool-cases (ltb rf.current_term args.term)) [
          | inl later ↦ rw (l, f, now, later) (rw (lt→ltb _ _ t.room, same, fi))
          | inr same_term ↦ rw (l, f, now, same_term) (rw (lt→ltb _ _ t.room, same, fi))
        ]
      ]
