-- ===== src/Raft/Replicate/Catchup.antt =====
-- lab3/raft/raft.go, one round of replication: `broadcastHeartbeat` at the leader and
-- `AppendEntries` at a follower whose log agrees with the leader's up to the index that it is sent
-- from.
use cpsc.Common.{
  ℕ, suc, ◌+◌, ◌-◌, ◌≤◌, ◌<◌, ◌≡◌, ◌≢◌, refl, ap, sym, ◌∙◌, subst, inl, inr, true, false, some,
  List, [], ◌++◌, arith, length, get_elem?, take, drop, take-append-drop, get_elem?-take, drop-nil,
  length-take, length-append, ltb, leb, ◌==◌, le→leb, Bool-cases, if◌then◌else◌, min,
}
use cpsc.Common.Outcome.{ok}
use cpsc.Raft.State.{leader, Entry, Raft, AppendEntriesArgs, AppendEntriesResults, signal_capacity}
use cpsc.Raft.Log.{IsLog, Positive}
use cpsc.Raft.Log.Laws.{
  IsLog-entry_at, IsLog-first, IsLog-last, Contiguous-drop, IsLog-drop, IsLog-Contiguous,
}
use cpsc.Raft.Persist.{Gob}
use cpsc.Raft.Append.{append_entries}
use cpsc.Raft.Append.Accept.{Follows, append_entries-accept}
use cpsc.Raft.Replicate.{heartbeat_args, slice_from, is_leader}

module _ {C : Type 0} where
  -- The leader sends to peer `i` from index `n` on.
  pub record Sends (i n : ℕ) (rf : Raft C) : Type 0 where
    pub state : rf.state ≡ leader
    pub other : i ≢ rf.me
    pub next : get_elem? rf.next_idx i ≡ some n
    pub low : 0 < n
    pub high : n ≤ length rf.log
    pub log : IsLog rf.log

  message : ℕ → Entry C → Raft C → AppendEntriesArgs C
  message n prev rf = record {
    term = rf.current_term;
    leader_id = rf.me;
    prev_log_idx = n - 1;
    prev_log_term = prev.term;
    entries = drop n rf.log;
    leader_commit = rf.commit_idx;
  }

  slice_from_lem :
      (n last : ℕ) (log : List (Entry C))
      → last + 1 ≡ length log
      → n ≤ length log
      → (if leb n last then slice_from (n - 0) log else ok []) ≡ ok (drop n log)
  unfolding slice_from
  slice_from_lem n last log whole le =
      let plain : n - 0 ≡ n = omega arith in
      elim (Bool-cases (leb n last)) [
        | inl inside ↦ rw (inside, plain, le→leb n (length log) le)
        | inr past ↦ rw past (ap ok (sym (drop-nil n log (ground arith))))
      ]

  heartbeat_args-Sends :
      (i n : ℕ) (rf : Raft C)
      → Sends i n rf
      → (e : Entry C) × (get_elem? rf.log (n - 1) ≡ some e)
        × (heartbeat_args i rf ≡ ok (some (message n e rf)))
  unfolding heartbeat_args message
  heartbeat_args-Sends i n rf s =
      let (first, f, fi) = IsLog-first rf.log s.log in
      let (last, l, li, _) = IsLog-last rf.log s.log in
      let (e, at, got, _) = IsLog-entry_at rf.log (n - 1) s.log (omega (arith, s.low, s.high)) in
      let leads : is_leader rf.state ≡ true = ap is_leader s.state in
      let apart : (i == rf.me) ≡ false = ground (arith, s.other) in
      let above : leb n 0 ≡ false = ground (arith, s.low) in
      (
        e,
        got,
        rw (f, l, leads, apart)
            (rw (s.next, fi)
              (rw (above, le→leb 0 (n - 1) (omega arith), at)
                (rw (slice_from_lem n last.index rf.log li s.high)))),
      )

  -- The follower is behind the leader's term or in it, and its log agrees with the leader's on the
  -- entries below `n`.
  pub record Agrees (n : ℕ) (rf fo : Raft C) : Type 0 where
    pub log : IsLog fo.log
    pub prefix : take n fo.log ≡ take n rf.log
    pub term : fo.current_term ≤ rf.current_term
    pub room : fo.heartbeat < signal_capacity

  message-Follows :
      (n : ℕ) (e : Entry C) (rf : Raft C) → 0 < n → IsLog rf.log → Follows (message n e rf)
  unfolding message
  message-Follows n e rf low l = record {
    gapless =
        rw (let s : n - 1 + 1 ≡ 0 + n = omega arith in s)
          (Contiguous-drop n 0 rf.log (IsLog-Contiguous rf.log l));
    later =
        subst (λ k. Positive (drop k rf.log)) (let s : suc (n - 1) ≡ n = omega arith in s)
          (IsLog-drop (n - 1) rf.log l);
  }

  Agrees-length : (i n : ℕ) (rf fo : Raft C) → Sends i n rf → Agrees n rf fo → n ≤ length fo.log
  Agrees-length i n rf fo s a =
      omega (arith, ap length a.prefix, length-take n fo.log, length-take n rf.log, s.high)

  -- One round brings the follower's log in step: the message that the leader sends to it is
  -- accepted, the log is then the leader's, and the commit index follows the leader's.
  pub heartbeat-catches_up :
      (gob : Gob C) (i n : ℕ) (rf fo : Raft C)
      → Sends i n rf
      → Agrees n rf fo
      → (args : AppendEntriesArgs C) × (fo' : Raft C) × (reply : AppendEntriesResults)
        × (heartbeat_args i rf ≡ ok (some args))
        × (append_entries gob args fo ≡ ok (fo', reply))
        × (reply.success ≡ true)
        × (fo'.log ≡ rf.log)
        × (fo'.current_term ≡ rf.current_term)
        × (fo'.commit_idx ≡ (
            if ltb fo.commit_idx rf.commit_idx
            then min rf.commit_idx (length rf.log - 1)
            else fo.commit_idx))
  unfolding message
  heartbeat-catches_up gob i n rf fo s a =
      let (e, at, sent) = heartbeat_args-Sends i n rf s in
      let args = message n e rf in
      let inside = Agrees-length i n rf fo s a in
      let back : n - 1 + 1 ≡ n = omega (arith, s.low) in
      let shared : get_elem? fo.log (n - 1) ≡ some e =
        sym (get_elem?-take n (n - 1) fo.log (omega (arith, s.low)))
        ∙ ap (λ l. get_elem? l (n - 1)) a.prefix
        ∙ get_elem?-take n (n - 1) rf.log (omega (arith, s.low))
        ∙ at in
      let (fo', reply, done, acc) =
        append_entries-accept gob args fo e (record { log = a.log; term = a.term; room = a.room })
          (message-Follows n e rf s.low s.log) shared refl (omega (arith, s.low, inside)) in
      let whole : fo'.log ≡ rf.log =
        acc.log ∙ rw back (ap (λ l. l ++ drop n rf.log) a.prefix ∙ take-append-drop n rf.log) in
      let end : n - 1 + length (drop n rf.log) ≡ length rf.log - 1 = omega (
        arith,
        s.low,
        s.high,
        length-take n rf.log,
        ap length (take-append-drop n rf.log),
        length-append (take n rf.log) (drop n rf.log),
      ) in
      (
        args,
        fo',
        reply,
        sent,
        done,
        ap (λ (r : AppendEntriesResults). r.success) acc.answer,
        whole,
        acc.term,
        acc.commit
            ∙ ap
                (λ k.
                  if ltb fo.commit_idx rf.commit_idx then min rf.commit_idx k else fo.commit_idx)
                end,
      )
