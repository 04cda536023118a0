-- ===== src/Raft/Replicate.antt =====
-- lab3/raft/raft.go, the leader's side of the log: `Start`, `broadcastHeartbeat`, and what
-- `sendAppendEntries` does with a reply.
pub mod Terms
pub mod Slice
pub mod NewLog
pub mod Commit
pub mod Catchup
pub mod Start
use cpsc.Common.{
  ℕ, zero, suc, ◌+◌, ◌-◌, ◌/◌, Bool, true, false, ◌&&◌, ◌||◌, not, Option, none, some, List, [],
  ◌∷◌, ◌++◌, ltb, leb, ◌==◌, if◌then◌else◌, length, get_elem?, set, drop,
}
use cpsc.Common.Outcome.{Outcome, ok, panic, ◌>>=◌, checked}
use cpsc.Raft.State.{Role, leader, Entry, Raft, AppendEntriesArgs, AppendEntriesResults}
use cpsc.Raft.Log.{last_entry, first_entry, entry_at}
use cpsc.Raft.Persist.{Gob, persist}
use cpsc.Raft.Vote.{step_down}

abbrev pub is_leader : Role → Bool
is_leader leader = true
is_leader _ = false

-- `xs[i] = v`
set_at : List ℕ → ℕ → ℕ → Outcome (List ℕ)
set_at xs i v = if ltb i (length xs) then ok (set xs i v) else panic

-- `for j := range rf.peers { if rf.matchIdx[j] >= i && j != rf.me { count++ } }`, for the `k`
-- peers from `j` on.
count_peers : (me i k j : ℕ) → List ℕ → Outcome ℕ
count_peers me i zero j ms = ok 0
count_peers me i (suc k) j [] = panic
count_peers me i (suc k) j (m ∷ ms) =
    count_peers me i k (j + 1) ms >>= λ n. ok (if leb i m && not (j == me) then n + 1 else n)

module _ {C : Type 0} where
  -- `GetState`
  pub get_state : Raft C → ℕ × Bool
  get_state rf = (rf.current_term, is_leader rf.state)

  -- `Start`: none of the three results where this peer is no leader.
  unfoldable pub start : Gob C → C → Raft C → Outcome (Raft C × Option (ℕ × ℕ))
  start gob command rf =
      if is_leader rf.state
      then (last_entry rf.log >>= λ last.
          let index = last.index + 1 in
          let e : Entry C = record {
            term = rf.current_term;
            command = some command;
            index = index;
          } in
          ok (persist gob (record rf { log = rf.log ++ (e ∷ []) }), some (index, rf.current_term)))
      else ok (rf, none)

  -- `rf.log[n:]`
  unfoldable pub slice_from : ℕ → List (Entry C) → Outcome (List (Entry C))
  slice_from n log = if leb n (length log) then ok (drop n log) else panic

  -- The round of `broadcastHeartbeat` for peer `i`: the arguments to send, if any.
  unfoldable pub heartbeat_args : ℕ → Raft C → Outcome (Option (AppendEntriesArgs C))
  heartbeat_args i rf = first_entry rf.log >>= λ first. last_entry rf.log >>= λ last.
      if is_leader rf.state && not (i == rf.me)
      then (checked (get_elem? rf.next_idx i) >>= λ next.
          if leb next first.index
          then ok none
          else ((if leb first.index (next - 1)
                then (entry_at rf.log first.index (next - 1) >>= λ e. ok e.term)
                else ok 0)
              >>= λ prev_term.
                  (if leb next last.index then slice_from (next - first.index) rf.log else ok [])
                  >>= λ entries. ok (
                      some (record {
                        term = rf.current_term;
                        leader_id = rf.me;
                        prev_log_idx = next - 1;
                        prev_log_term = prev_term;
                        entries = entries;
                        leader_commit = rf.commit_idx;
                      }))))
      else ok none

  -- `nextIdx` and `matchIdx` after a reply of `server`.
  note_reply : ℕ → AppendEntriesArgs C → AppendEntriesResults → Raft C → Outcome (Raft C)
  note_reply server args reply rf =
      if reply.success
      then elim args.entries [
        | [] ↦ ok rf
        | e ∷ es ↦ last_entry (e ∷ es) >>= λ last.
            set_at rf.next_idx server (last.index + 1) >>= λ next_idx.
            set_at rf.match_idx server last.index >>= λ match_idx.
            ok (record rf { next_idx = next_idx; match_idx = match_idx })
      ]
      else (set_at rf.next_idx server reply.next_try_idx >>= λ next_idx.
          ok (record rf { next_idx = next_idx }))

  -- The loop over `i` from the last index down to `commitIdx + 1`, with `k` indices left: the
  -- entry at `i` is committed if it is of this term and a majority holds it.
  advance_commit : (base k : ℕ) → Raft C → Outcome (Raft C)
  advance_commit base zero rf = ok rf
  advance_commit base (suc k) rf =
      let i = rf.commit_idx + suc k in
      let rest = advance_commit base k rf in
      entry_at rf.log base i >>= λ e.
      if rf.current_term == e.term
      then (count_peers rf.me i rf.peers 0 rf.match_idx >>= λ n.
          if ltb (rf.peers / 2) (1 + n)
          then ok (record rf { commit_idx = i; applying = rf.applying + 1 })
          else rest)
      else ok rf

  -- `sendAppendEntries` once `Call` has returned: `none` is a call that failed.
  pub append_reply :
      Gob C → ℕ → AppendEntriesArgs C → Option AppendEntriesResults → Raft C → Outcome (Raft C)
  append_reply gob server args none rf = first_entry rf.log >>= λ first. ok rf
  append_reply gob server args (some reply) rf = first_entry rf.log >>= λ first.
      if not (rf.current_term == args.term) || not (is_leader rf.state)
      then ok rf
      else if ltb rf.current_term reply.term
      then ok (persist gob (step_down reply.term rf))
      else (note_reply server args reply rf >>= λ rf'. last_entry rf'.log >>= λ last.
          advance_commit first.index (last.index - rf'.commit_idx) rf')
