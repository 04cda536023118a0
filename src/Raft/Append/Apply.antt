-- ===== src/Raft/Append/Apply.antt =====
-- lab3/raft/raft.go, the goroutine that sends committed entries to the service.
use cpsc.Common.{
  ℕ, zero, suc, ◌+◌, ◌-◌, ◌≤◌, ◌<◌, ◌≡◌, ap, sym, ◌∙◌, true, some, List, [], ◌∷◌, ◌++◌, map, arith,
  length, get_elem?, take, drop, append_assoc, append-nil,
}
use cpsc.Common.Outcome.{ok}
use cpsc.Raft.State.{Entry, Raft, ApplyMsg}
use cpsc.Raft.Log.{IsLog}
use cpsc.Raft.Log.Laws.{IsLog-entry_at, IsLog-first}
use cpsc.Raft.Append.{apply_committed, send_applied}

module _ {C : Type 0} where
  -- The message that announces an entry.
  abbrev pub announce : Entry C → ApplyMsg C
  announce e = record { command_valid = true; command = e.command; command_index = e.index }

  drop-get_elem? :
      (i : ℕ) (l : List (Entry C)) (e : Entry C)
      → get_elem? l i ≡ some e
      → drop i l ≡ e ∷ drop (suc i) l
  drop-get_elem? i [] e got = cc
  drop-get_elem? zero (x ∷ l) e got = ground arith
  drop-get_elem? (suc i) (x ∷ l) e got = drop-get_elem? i l e got

  sent : List (ApplyMsg C) → Raft C → Raft C
  sent ms rf = record rf { apply_ch = rf.apply_ch ++ ms }

  send_applied_lem :
      (k i : ℕ) (rf : Raft C)
      → IsLog rf.log
      → i + k ≤ length rf.log
      → send_applied k i rf ≡ ok (sent (map announce (take k (drop i rf.log))) rf)
  unfolding send_applied sent
  send_applied_lem zero i rf l le =
      ap (λ ch. ok (record rf { apply_ch = ch })) (sym (append-nil rf.apply_ch))
  send_applied_lem (suc k) i rf l le =
      let (first, f, zero_ix) = IsLog-first rf.log l in
      let (e, at, got, ix) = IsLog-entry_at rf.log i l (omega arith) in
      let next : i + 1 ≡ suc i = omega arith in
      let m : ApplyMsg C = record {
        command_valid = true;
        command = e.command;
        command_index = i;
      } in
      let shown : m ≡ announce e = ap (λ (n : ℕ). record m { command_index = n }) (sym ix) in
      let all : (rf.apply_ch ++ (m ∷ [])) ++ map announce (take k (drop (i + 1) rf.log))
          ≡ rf.apply_ch ++ map announce (take (suc k) (drop i rf.log)) =
        rw (drop-get_elem? i rf.log e got, next, append_assoc)
          (ap (λ x. rf.apply_ch ++ (x ∷ map announce (take k (drop (suc i) rf.log)))) shown) in
      rw (f, zero_ix, at)
        (send_applied_lem k (i + 1) (record rf { apply_ch = rf.apply_ch ++ (m ∷ []) }) l
            (omega arith)
          ∙ ap (λ ch. ok (record rf { apply_ch = ch })) all)

  -- With every committed entry in the log, the service gets the entries after the last applied one
  -- up to the commit index, each once and in the order of the log, and none is left.
  pub apply_committed_lem :
      (rf : Raft C)
      → IsLog rf.log
      → rf.applied_last ≤ rf.commit_idx
      → rf.commit_idx < length rf.log
      → apply_committed rf
        ≡ ok (record rf {
          apply_ch =
              rf.apply_ch
              ++ map announce
                  (take (rf.commit_idx - rf.applied_last) (drop (rf.applied_last + 1) rf.log));
          applied_last = rf.commit_idx;
          applying = rf.applying - 1;
        })
  unfolding apply_committed sent
  apply_committed_lem rf l le lt = rw (
      send_applied_lem (rf.commit_idx - rf.applied_last) (rf.applied_last + 1)
        (record rf { applying = rf.applying - 1 }) l (omega arith))
