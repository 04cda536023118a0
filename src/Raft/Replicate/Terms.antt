-- ===== src/Raft/Replicate/Terms.antt =====
-- lab3/raft/raft.go, the leader's side of the log: terms, votes and roles.
use cpsc.Common.{
  ℕ, zero, suc, ◌+◌, ◌-◌, ◌≡◌, inl, inr, Option, none, some, arith, Bool-cases, ltb, ◌==◌, not,
  ◌||◌,
}
use cpsc.Common.Outcome.{ok, >>=-eq-ok}
use cpsc.Raft.State.{Raft, AppendEntriesArgs, AppendEntriesResults}
use cpsc.Raft.Terms.{Moves, Keeps, Alike, persist-Alike}
use cpsc.Raft.Persist.{Gob, persist}
use cpsc.Raft.Vote.{step_down}
use cpsc.Raft.Log.{entry_at, last_entry, first_entry}
use cpsc.Raft.Replicate.{start, append_reply, note_reply, advance_commit, is_leader}

module _ {C : Type 0} where
  pub start-Alike :
      (gob : Gob C) (command : C) (rf rf' : Raft C) (result : Option (ℕ × ℕ))
      → start gob command rf ≡ ok (rf', result)
      → Alike rf rf'
  unfolding start persist
  start-Alike gob command rf rf' result e = ground arith

  advance_commit-Alike :
      (base k : ℕ) (rf rf' : Raft C) → advance_commit base k rf ≡ ok rf' → Alike rf rf'
  unfolding advance_commit
  advance_commit-Alike base zero rf rf' e = ground arith
  advance_commit-Alike base (suc k) rf rf' e =
      let (x, e1, e2) = >>=-eq-ok (entry_at rf.log base (rf.commit_idx + suc k)) _ e in
      ground (arith, advance_commit-Alike base k rf rf')

  note_reply-Alike :
      (server : ℕ) (args : AppendEntriesArgs C) (reply : AppendEntriesResults) (rf rf' : Raft C)
      → note_reply server args reply rf ≡ ok rf'
      → Alike rf rf'
  unfolding note_reply
  note_reply-Alike server args reply rf rf' e = ground arith

  pub append_reply-Keeps :
      (gob : Gob C) (server : ℕ) (args : AppendEntriesArgs C) (reply : Option AppendEntriesResults)
      (rf rf' : Raft C)
      → append_reply gob server args reply rf ≡ ok rf'
      → Keeps rf rf'
  unfolding append_reply
  append_reply-Keeps gob server args none rf rf' e = ground arith
  append_reply-Keeps gob server args (some reply) rf rf' e =
      let (first, e1, e2) = >>=-eq-ok (first_entry rf.log) _ e in
      elim (Bool-cases (not (rf.current_term == args.term) || not (is_leader rf.state))) [
        | inl y ↦ ground arith
        | inr n ↦ elim (Bool-cases (ltb rf.current_term reply.term)) [
          | inl y ↦ ground (arith, persist-Alike gob (step_down reply.term rf))
          | inr m ↦
              let (rf1, e3, e4) = >>=-eq-ok (note_reply server args reply rf) _ (rw (n, m) at e2) in
              let (last, e5, e6) = >>=-eq-ok (last_entry rf1.log) _ e4 in
              ground (
                arith,
                note_reply-Alike server args reply rf rf1 e3,
                advance_commit-Alike first.index (last.index - rf1.commit_idx) rf1 rf' e6,
              )
        ]
      ]

  pub append_reply-Moves :
      (gob : Gob C) (server : ℕ) (args : AppendEntriesArgs C) (reply : Option AppendEntriesResults)
      (rf rf' : Raft C)
      → append_reply gob server args reply rf ≡ ok rf'
      → Moves rf rf'
  append_reply-Moves gob server args reply rf rf' e =
      (append_reply-Keeps gob server args reply rf rf' e).0
