-- ===== src/Raft/Replicate/NewLog.antt =====
-- lab3/raft/raft.go, the leader's side of the log: which sections change it.
use cpsc.Common.{
  ℕ, zero, suc, ◌+◌, ◌-◌, ◌≡◌, ◌≢◌, ◌⊎◌, refl, inl, inr, true, ◌&&◌, ◌||◌, not, Option, none, some,
  [], ◌∷◌, ◌++◌, arith, length, Bool-cases, ltb, ◌==◌, ==_iff,
}
use cpsc.Common.Outcome.{ok, >>=-eq-ok}
use cpsc.Raft.State.{
  Role, follower, candidate, leader, Entry, Raft, AppendEntriesArgs, AppendEntriesResults,
}
use cpsc.Raft.Terms.{persist_same}
use cpsc.Raft.Persist.{Gob}
use cpsc.Raft.Vote.{step_down}
use cpsc.Raft.Log.{entry_at, last_entry, first_entry, IsNumbered}
use cpsc.Raft.Log.Laws.{IsNumbered-last, IsNumbered-first}
use cpsc.Raft.Replicate.Terms.{start-Alike}
use cpsc.Raft.Replicate.{start, append_reply, note_reply, advance_commit, is_leader, heartbeat_args}

pub is_leader-eq : (r : Role) → is_leader r ≡ true → r ≡ leader
is_leader-eq follower e = cc
is_leader-eq candidate e = cc
is_leader-eq leader e = refl

module _ {C : Type 0} (gob : Gob C) where
  -- `Start` at a leader.
  pub record Appended (rf rf' : Raft C) : Type 0 where
    pub entry : Entry C
    pub leads : rf.state ≡ leader
    pub term : entry.term ≡ rf.current_term
    pub index : entry.index ≡ length rf.log
    pub log : rf'.log ≡ rf.log ++ entry ∷ []
    pub kept : rf'.current_term ≡ rf.current_term

  pub start-log :
      (command : C) (rf rf' : Raft C) (result : Option (ℕ × ℕ))
      → IsNumbered rf.log
      → start gob command rf ≡ ok (rf', result)
      → (rf'.log ≡ rf.log) ⊎ Appended rf rf'
  unfolding start
  start-log command rf rf' result l e =
      let (last, el, ix, _) = IsNumbered-last rf.log l in
      elim (Bool-cases (is_leader rf.state)) [
        | inr n ↦ inl (ground (arith, el))
        | inl y ↦
            let x : Entry C = record {
              term = rf.current_term;
              command = some command;
              index = last.index + 1;
            } in
            let done = rw (y, el) at e in
            let saved = persist_same gob (record rf { log = rf.log ++ x ∷ [] }) in
            inr (record {
              entry = x;
              leads = is_leader-eq rf.state y;
              term = refl;
              index = ix;
              log = ground (arith, done, saved);
              kept = (start-Alike gob command rf rf' result e).0;
            })
      ]

  advance_commit-log :
      (base k : ℕ) (rf rf' : Raft C) → advance_commit base k rf ≡ ok rf' → rf'.log ≡ rf.log
  unfolding advance_commit
  advance_commit-log base zero rf rf' e = ground arith
  advance_commit-log base (suc k) rf rf' e =
      let (x, e1, e2) = >>=-eq-ok (entry_at rf.log base (rf.commit_idx + suc k)) _ e in
      ground (arith, advance_commit-log base k rf rf')

  note_reply-log :
      (server : ℕ) (args : AppendEntriesArgs C) (reply : AppendEntriesResults) (rf rf' : Raft C)
      → note_reply server args reply rf ≡ ok rf'
      → rf'.log ≡ rf.log
  unfolding note_reply
  note_reply-log server args reply rf rf' e = ground arith

  pub append_reply-log :
      (server : ℕ) (args : AppendEntriesArgs C) (reply : Option AppendEntriesResults)
      (rf rf' : Raft C)
      → append_reply gob server args reply rf ≡ ok rf'
      → rf'.log ≡ rf.log
  unfolding append_reply
  append_reply-log server args none rf rf' e = ground arith
  append_reply-log server args (some reply) rf rf' e =
      let (first, e1, e2) = >>=-eq-ok (first_entry rf.log) _ e in
      elim (Bool-cases (not (rf.current_term == args.term) || not (is_leader rf.state))) [
        | inl y ↦ ground arith
        | inr n ↦ elim (Bool-cases (ltb rf.current_term reply.term)) [
          | inl y ↦ ground (arith, persist_same gob (step_down reply.term rf))
          | inr m ↦
              let (rf1, e3, e4) = >>=-eq-ok (note_reply server args reply rf) _ (rw (n, m) at e2) in
              let (last, e5, e6) = >>=-eq-ok (last_entry rf1.log) _ e4 in
              ground (
                arith,
                note_reply-log server args reply rf rf1 e3,
                advance_commit-log first.index (last.index - rf1.commit_idx) rf1 rf' e6,
              )
        ]
      ]

  -- A message is sent by a leader, in its term, to another peer.
  pub heartbeat_args-leader :
      (i : ℕ) (rf : Raft C) (args : AppendEntriesArgs C)
      → IsNumbered rf.log
      → heartbeat_args i rf ≡ ok (some args)
      → (rf.state ≡ leader) × (i ≢ rf.me) × (args.term ≡ rf.current_term)
  unfolding heartbeat_args
  heartbeat_args-leader i rf args l e =
      let (first, ef, _) = IsNumbered-first rf.log l in
      let (last, el, _, _) = IsNumbered-last rf.log l in
      elim (Bool-cases (is_leader rf.state && not (i == rf.me))) [
        | inr n ↦ absurd (ground (arith, ef, el))
        | inl y ↦ (
          is_leader-eq rf.state (ground arith),
          λ same. (let it = (==_iff i rf.me).1 same in absurd (ground arith)),
          ground (arith, ef, el),
        )
      ]
