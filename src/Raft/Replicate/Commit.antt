-- ===== src/Raft/Replicate/Commit.antt =====
-- lab3/raft/raft.go, `sendAppendEntries`: how a leader notes a reply and moves its commit index.
use cpsc.Common.{
  ℕ, zero, suc, ◌+◌, ◌-◌, ◌*◌, ◌/◌, ◌≤◌, ◌<◌, ◌≡◌, ◌⊎◌, inl, inr, refl, ap, sym, ◌∙◌, true, false,
  ◌&&◌, not, some, List, [], ◌∷◌, arith, tests, length, get_elem?, set, length-set, ltb, leb, ◌==◌,
  lt→ltb, Bool-cases, dec_le, subst, if◌then◌else◌,
}
use cpsc.Common.Outcome.{Outcome, ok, ◌>>=◌}
use cpsc.Raft.State.{leader, Entry, Raft, AppendEntriesArgs, AppendEntriesResults}
use cpsc.Raft.Log.{last_entry, IsLog}
use cpsc.Raft.Log.Laws.{IsLog-entry_at, IsLog-first, IsLog-last, Contiguous-last}
use cpsc.Raft.Persist.{Gob}
use cpsc.Raft.Append.Accept.{Follows}
use cpsc.Raft.Replicate.{append_reply, note_reply, advance_commit, count_peers, set_at, is_leader}

-- How many of the peers, from peer `j` on and without `me`, are known to hold index `i`.
abbrev pub holders : (me i j : ℕ) → List ℕ → ℕ
holders me i j [] = 0
holders me i j (m ∷ ms) = (if leb i m && not (j == me) then 1 else 0) + holders me i (j + 1) ms

count_peers_lem :
    (me i k j : ℕ) (ms : List ℕ) → length ms ≡ k → count_peers me i k j ms ≡ ok (holders me i j ms)
unfolding count_peers
count_peers_lem me i zero j [] e = refl
count_peers_lem me i zero j (m ∷ ms) e = absurd (omega arith)
count_peers_lem me i (suc k) j [] e = absurd (omega arith)
count_peers_lem me i (suc k) j (m ∷ ms) e =
    rw (count_peers_lem me i k (j + 1) ms (omega arith)) (ap ok (ground arith))

module _ {C : Type 0} where
  -- `matchIdx` has index `i` for more than half of the peers, this one included.
  abbrev pub Majority : Raft C → ℕ → Type 0
  Majority rf i = rf.peers < 2 * (1 + holders rf.me i 0 rf.match_idx)

  -- The entry at `i` is of the leader's own term.
  abbrev pub OfTerm : Raft C → ℕ → Type 0
  OfTerm rf i = (e : Entry C) × (get_elem? rf.log i ≡ some e) × (e.term ≡ rf.current_term)

  -- `rf'` is `rf` with a commit index of at most `top`.
  pub record Advanced (rf : Raft C) (top : ℕ) (rf' : Raft C) : Type 0 where
    pub moved :
        (rf' ≡ rf)
        ⊎ ((i : ℕ) × (rf' ≡ record rf { commit_idx = i; applying = rf.applying + 1 })
            × (rf.commit_idx < i)
            × (i ≤ top)
            × Majority rf i
            × OfTerm rf i)
    pub complete :
        (i : ℕ)
        → rf.commit_idx < i
        → i ≤ top
        → Majority rf i
        → ((j : ℕ) → i ≤ j → j ≤ top → OfTerm rf j)
        → i ≤ rf'.commit_idx

  Advanced-suc :
      (k : ℕ) (rf rf' : Raft C)
      → ¬ Majority rf (rf.commit_idx + suc k)
      → Advanced rf (rf.commit_idx + k) rf'
      → Advanced rf (rf.commit_idx + suc k) rf'
  Advanced-suc k rf rf' short a = record {
    moved = elim a.moved [
      | inl same ↦ inl same
      | inr (i, now, lo, hi, maj, term) ↦ inr (i, now, lo, omega arith, maj, term)
    ];
    complete = λ i lo hi maj all. elim (dec_le i (rf.commit_idx + k)) [
      | yes below ↦ a.complete i lo below maj (λ j jlo jhi. all j jlo (omega arith))
      | no above ↦
          let top : i ≡ rf.commit_idx + suc k = omega arith in
          absurd (short (subst (Majority rf) top maj))
    ];
  }

  advance_commit_lem :
      (k : ℕ) (rf : Raft C)
      → IsLog rf.log
      → length rf.match_idx ≡ rf.peers
      → rf.commit_idx + k < length rf.log
      → (rf' : Raft C) × (advance_commit 0 k rf ≡ ok rf') × Advanced rf (rf.commit_idx + k) rf'
  unfolding advance_commit
  advance_commit_lem zero rf l w lt =
      (rf, refl, record { moved = inl refl; complete = λ i lo hi. absurd (omega arith) })
  advance_commit_lem (suc k) rf l w lt =
      let i = rf.commit_idx + suc k in
      let (e, at, got, ix) = IsLog-entry_at rf.log i l (omega arith) in
      let count = count_peers_lem rf.me i rf.peers 0 rf.match_idx w in
      elim (Bool-cases (rf.current_term == e.term)) [
        | inr other ↦ (
          rf,
          rw (at, other),
          record {
            moved = inl refl;
            complete = λ m lo hi maj all.
                let (x, got', same) = all i hi (omega arith) in
                let x_e : some x ≡ some e = sym got' ∙ got in absurd (ground arith);
          },
        )
        | inl same ↦ elim (Bool-cases (ltb (rf.peers / 2) (1 + holders rf.me i 0 rf.match_idx))) [
          | inl maj ↦ (
            record rf { commit_idx = i; applying = rf.applying + 1 },
            rw (at, same) (rw (count, maj)),
            record {
              moved = inr (i, refl, omega arith, omega arith, omega tests, (e, got, ground arith));
              complete = λ m lo hi _ _. hi;
            },
          )
          | inr short ↦
              let (rf', done, adv) = advance_commit_lem k rf l w (omega arith) in
              (
                rf',
                rw (at, same) (rw (count, short) done),
                Advanced-suc k rf rf' (λ m. ground arith) adv,
              )
        ]
      ]

  -- A reply that the leader still waits for, in a state where the code's slices have their widths.
  pub record Awaits (server : ℕ) (args : AppendEntriesArgs C) (reply : AppendEntriesResults)
      (rf : Raft C) : Type 0 where
    pub state : rf.state ≡ leader
    pub term : rf.current_term ≡ args.term
    pub reply_term : reply.term ≤ rf.current_term
    pub log : IsLog rf.log
    pub commit : rf.commit_idx < length rf.log
    pub next_width : length rf.next_idx ≡ rf.peers
    pub match_width : length rf.match_idx ≡ rf.peers
    pub peer : server < rf.peers
    pub follows : Follows args

  -- The leader once it has noted the reply: a success with entries moves both indices of the peer
  -- behind the last entry sent, a success without entries neither, a refusal the next index to
  -- where the peer says.
  pub noted_reply : ℕ → AppendEntriesArgs C → AppendEntriesResults → Raft C → Raft C
  noted_reply server args reply rf =
      if reply.success
      then if ltb 0 (length args.entries)
        then record rf {
          next_idx = set rf.next_idx server (args.prev_log_idx + length args.entries + 1);
          match_idx = set rf.match_idx server (args.prev_log_idx + length args.entries);
        }
        else rf
      else record rf { next_idx = set rf.next_idx server reply.next_try_idx }

  note_reply_lem :
      (server : ℕ) (args : AppendEntriesArgs C) (reply : AppendEntriesResults) (rf : Raft C)
      (es : List (Entry C))
      → args.entries ≡ es
      → Awaits server args reply rf
      → note_reply server args reply rf ≡ ok (noted_reply server args reply rf)
  unfolding note_reply set_at noted_reply
  note_reply_lem server args reply rf [] none_sent a = elim (Bool-cases reply.success) [
    | inl y ↦ rw (y, none_sent)
    | inr n ↦ rw (n, lt→ltb server (length rf.next_idx) (omega (arith, a.next_width, a.peer)))
  ]
  note_reply_lem server args reply rf (e ∷ es) sent a = elim (Bool-cases reply.success) [
    | inr n ↦ rw (n, lt→ltb server (length rf.next_idx) (omega (arith, a.next_width, a.peer)))
    | inl y ↦
        let (x, last, ix) =
          Contiguous-last (args.prev_log_idx + 1) e es (rw sent at a.follows.gapless) in
        let here : x.index ≡ args.prev_log_idx + length (e ∷ es) = omega arith in
        rw (y, sent)
          (rw (last, here)
            (rw (
              lt→ltb 0 (suc (length es)) (omega arith),
              lt→ltb server (length rf.next_idx) (omega (arith, a.next_width, a.peer)),
              lt→ltb server (length rf.match_idx) (omega (arith, a.match_width, a.peer)),
            )))
  ]

  noted_reply_same :
      (server : ℕ) (args : AppendEntriesArgs C) (reply : AppendEntriesResults) (rf : Raft C)
      → let rf1 = noted_reply server args reply rf in
        (rf1.log ≡ rf.log)
        × (rf1.commit_idx ≡ rf.commit_idx)
        × (rf1.peers ≡ rf.peers)
        × (length rf1.match_idx ≡ length rf.match_idx)
        × (rf1.current_term ≡ rf.current_term)
  unfolding noted_reply
  noted_reply_same server args reply rf =
      ground (arith, length-set rf.match_idx server (args.prev_log_idx + length args.entries))

  advance_at :
      (rf : Raft C) (last : Entry C) (n : ℕ) (r : Outcome (Raft C))
      → last_entry rf.log ≡ ok last
      → last.index ≡ n
      → advance_commit 0 (n - rf.commit_idx) rf ≡ r
      → (last_entry rf.log >>= λ last. advance_commit 0 (last.index - rf.commit_idx) rf) ≡ r
  advance_at rf last n r at ix done = rw (at, ix) done

  advance_from :
      (rf : Raft C)
      → IsLog rf.log
      → length rf.match_idx ≡ rf.peers
      → rf.commit_idx < length rf.log
      → (rf' : Raft C) × ((last_entry rf.log >>= λ last.
            advance_commit 0 (last.index - rf.commit_idx) rf)
          ≡ ok rf')
        × Advanced rf (length rf.log - 1) rf'
  advance_from rf l w lt =
      let (last, at, ix, _) = IsLog-last rf.log l in
      let top : rf.commit_idx + (length rf.log - 1 - rf.commit_idx) ≡ length rf.log - 1 =
        omega arith in
      let (rf', done, adv) =
        advance_commit_lem (length rf.log - 1 - rf.commit_idx) rf l w (omega arith) in
      (
        rf',
        advance_at rf last (length rf.log - 1) (ok rf') at (omega arith) done,
        subst (λ n. Advanced rf n rf') top adv,
      )

  append_reply-Awaits :
      (gob : Gob C) (server : ℕ) (args : AppendEntriesArgs C) (reply : AppendEntriesResults)
      (rf : Raft C) (r : Outcome (Raft C))
      → Awaits server args reply rf
      → (let rf1 = noted_reply server args reply rf in
          last_entry rf1.log >>= λ last. advance_commit 0 (last.index - rf1.commit_idx) rf1)
        ≡ r
      → append_reply gob server args (some reply) rf ≡ r
  unfolding append_reply
  append_reply-Awaits gob server args reply rf r a done =
      let (first, f, fi) = IsLog-first rf.log a.log in
      let leads : is_leader rf.state ≡ true = ap is_leader a.state in
      let now : (rf.current_term == args.term) ≡ true = ground (arith, a.term) in
      let not_behind : ltb rf.current_term reply.term ≡ false = ground (arith, a.reply_term) in
      rw (f, now, leads, not_behind)
        (rw (note_reply_lem server args reply rf args.entries refl a, fi) done)

  -- A leader that handles a reply returns. It notes the reply, and then moves its commit index only
  -- to an index above the old one that `matchIdx` has for a majority, the leader included, and whose
  -- entry is of its own term; and it moves it at least to each index that `matchIdx` has for a
  -- majority, if all entries from there on are of its term.
  pub append_reply-Advanced :
      (gob : Gob C) (server : ℕ) (args : AppendEntriesArgs C) (reply : AppendEntriesResults)
      (rf : Raft C)
      → Awaits server args reply rf
      → (rf' : Raft C) × (append_reply gob server args (some reply) rf ≡ ok rf')
        × Advanced (noted_reply server args reply rf) (length rf.log - 1) rf'
  append_reply-Advanced gob server args reply rf a =
      let (log_same, commit_same, peers_same, width_same, _) =
        noted_reply_same server args reply rf in
      let (rf', done, adv) =
        advance_from (noted_reply server args reply rf) (subst IsLog (sym log_same) a.log)
          (width_same ∙ a.match_width ∙ sym peers_same)
          (omega (arith, commit_same, a.commit, ap length log_same)) in
      (
        rf',
        append_reply-Awaits gob server args reply rf (ok rf') a done,
        subst (λ l. Advanced (noted_reply server args reply rf) (length l - 1) rf') log_same adv,
      )
