-- ===== src/Raft/Replicate/Slice.antt =====
-- lab3/raft/raft.go, `broadcastHeartbeat`: what a message says of the leader's log.
use cpsc.Common.{
  ◌+◌, ◌-◌, ◌≡◌, ap, sym, subst, ◌∙◌, inl, inr, true, ◌&&◌, not, some, List, arith, get_elem?, drop,
  length, leb, ◌==◌, Bool-cases, drop-nil, if◌then◌else◌, [], le→leb, ℕ,
}
use cpsc.Common.Outcome.{ok, >>=-eq-ok, checked}
use cpsc.Raft.State.{Entry, Raft, AppendEntriesArgs}
use cpsc.Raft.Log.{entry_at, IsNumbered}
use cpsc.Raft.Log.Laws.{IsNumbered-first, IsNumbered-last}
use cpsc.Raft.Replicate.{heartbeat_args, slice_from, is_leader}

module _ {C : Type 0} where
  -- The message has the entries of a log behind one of its entries.
  pub record IsSliceOf (l : List (Entry C)) (args : AppendEntriesArgs C) : Type 0 where
    pub prev : Entry C
    pub at : get_elem? l args.prev_log_idx ≡ some prev
    pub term : args.prev_log_term ≡ prev.term
    pub entries : args.entries ≡ drop (args.prev_log_idx + 1) l

  slice_from-eq : (n : ℕ) (l es : List (Entry C)) → slice_from n l ≡ ok es → es ≡ drop n l
  unfolding slice_from
  slice_from-eq n l es e = ground arith

  entries-eq :
      (n last : ℕ) (l es : List (Entry C))
      → last + 1 ≡ length l
      → (if leb n last then slice_from (n - 0) l else ok []) ≡ ok es
      → es ≡ drop n l
  entries-eq n last l es size e =
      let plain : n - 0 ≡ n = omega arith in
      elim (Bool-cases (leb n last)) [
        | inl inside ↦ slice_from-eq n l es (rw (inside, plain) at e)
        | inr past ↦
            let none_left : ok [] ≡ ok es = rw past at e in
            let empty : es ≡ [] = ground arith in empty ∙ sym (drop-nil n l (ground arith))
      ]

  entry_at-some :
      (l : List (Entry C)) (i : ℕ) (e : Entry C) → entry_at l 0 i ≡ ok e → get_elem? l i ≡ some e
  unfolding entry_at
  entry_at-some l i e at =
      let plain : i - 0 ≡ i = omega arith in
      let got : checked (get_elem? l i) ≡ ok e = rw (le→leb 0 i (omega arith), plain) at at in
      ground arith

  some_eq : (a b : AppendEntriesArgs C) → ok (some a) ≡ ok (some b) → a ≡ b
  some_eq a b e = cc

  -- What `broadcastHeartbeat` sends to any peer, whatever `nextIdx` says, is a slice of its log.
  pub heartbeat_args-IsSliceOf :
      (i : ℕ) (rf : Raft C) (args : AppendEntriesArgs C)
      → IsNumbered rf.log
      → heartbeat_args i rf ≡ ok (some args)
      → IsSliceOf rf.log args
  unfolding heartbeat_args
  heartbeat_args-IsSliceOf i rf args l e =
      let (first, ef, zero_ix) = IsNumbered-first rf.log l in
      let (last, el, ix, _) = IsNumbered-last rf.log l in
      elim (Bool-cases (is_leader rf.state && not (i == rf.me))) [
        | inr n ↦ absurd (ground (arith, ef, el))
        | inl y ↦
            let (next, e1, e2) =
              >>=-eq-ok (checked (get_elem? rf.next_idx i)) _ (rw (ef, el, y, zero_ix) at e) in
            elim (Bool-cases (leb next 0)) [
              | inl low ↦ absurd (ground arith)
              | inr high ↦
                  let found : leb 0 (next - 1) ≡ true = le→leb _ _ (omega arith) in
                  let (term, e3, e4) = >>=-eq-ok _ _ (rw (high, found) at e2) in
                  let (prev, e5, e6) = >>=-eq-ok (entry_at rf.log 0 (next - 1)) _ e3 in
                  let (es, e7, e8) = >>=-eq-ok _ _ e4 in
                  let shape : AppendEntriesArgs C = record {
                    term = rf.current_term;
                    leader_id = rf.me;
                    prev_log_idx = next - 1;
                    prev_log_term = term;
                    entries = es;
                    leader_commit = rf.commit_idx;
                  } in
                  let sent : shape ≡ args = some_eq shape args e8 in
                  let back : next ≡ next - 1 + 1 = ground arith in
                  subst (IsSliceOf rf.log) sent (record {
                    prev = prev;
                    at = entry_at-some rf.log (next - 1) prev e5;
                    term = ground arith;
                    entries =
                        entries-eq next last.index rf.log es ix e7 ∙ ap (λ n. drop n rf.log) back;
                  })
            ]
      ]
