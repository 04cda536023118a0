-- ===== src/Raft/Append/Stale.antt =====
-- lab3/raft/raft.go, AppendEntries on a message that is older than the log: the handler cuts the
-- log behind the entries of the message whether or not they conflict.
use cpsc.Common.{
  ◌+◌, ◌≤◌, ◌<◌, ◌≡◌, ap, ◌∙◌, true, some, arith, length, get_elem?, take, length-append,
  length-take,
}
use cpsc.Common.Outcome.{ok}
use cpsc.Raft.State.{Entry, Raft, AppendEntriesArgs, AppendEntriesResults}
use cpsc.Raft.Persist.{Gob}
use cpsc.Raft.Append.{append_entries}
use cpsc.Raft.Append.Received.{Takes}
use cpsc.Raft.Append.Accept.{Follows, append_entries-accept}

-- A message of the current term that matches the log, whose entries end before the peer's commit
-- index, and whose commit index is no later, makes the peer forget entries that it has committed:
-- the log ends at the last entry of the message, while the commit index stays beyond its end.
pub append_entries-forgets :
    {C : Type 0} (gob : Gob C) (args : AppendEntriesArgs C) (rf : Raft C) (e : Entry C)
    → Takes args rf
    → Follows args
    → get_elem? rf.log args.prev_log_idx ≡ some e
    → e.term ≡ args.prev_log_term
    → rf.commit_idx < length rf.log
    → args.leader_commit ≤ rf.commit_idx
    → args.prev_log_idx + length args.entries < rf.commit_idx
    → (rf' : Raft C) × (reply : AppendEntriesResults) × (append_entries gob args rf
        ≡ ok (rf', reply))
      × (reply.success ≡ true)
      × (rf'.commit_idx ≡ rf.commit_idx)
      × (length rf'.log ≡ args.prev_log_idx + 1 + length args.entries)
      × (length rf'.log ≤ rf'.commit_idx)
append_entries-forgets gob args rf e t f got agrees inside old short =
    let (rf', reply, done, acc) =
      append_entries-accept gob args rf e t f got agrees (omega arith) in
    let kept : rf'.commit_idx ≡ rf.commit_idx = acc.commit ∙ ground arith in
    let len : length rf'.log ≡ args.prev_log_idx + 1 + length args.entries = omega (
      arith,
      ap length acc.log,
      length-take (args.prev_log_idx + 1) rf.log,
      length-append (take (args.prev_log_idx + 1) rf.log) args.entries,
    ) in
    (
      rf',
      reply,
      done,
      ap (λ (r : AppendEntriesResults). r.success) acc.answer,
      kept,
      len,
      omega arith,
    )
