-- ===== src/Raft/Restart.antt =====
-- lab3/raft/raft.go, a crash and a restart: `Make` over what the persister holds.
use cpsc.Common.{ℕ, ◌≡◌, refl, sym, ap, ◌∙◌, true, none, some, List, arith, inl, inr}
use cpsc.Common.Outcome.{ok}
use cpsc.Raft.State.{Entry, Raft, RequestVoteArgs, RequestVoteReply}
use cpsc.Raft.Log.{last_entry}
use cpsc.Raft.Persist.{Gob, persist, read_persist-persist, persist-raftstate}
use cpsc.Raft.Vote.{request_vote}
use cpsc.Raft.Vote.Laws.{UpToDate, request_vote_lem, request_vote-raftstate}
use cpsc.Raft.Ticker.{make, blank}

module _ {C : Type 0} (gob : Gob C) (peers me : ℕ) where
  -- What a peer has saved before a crash comes back after it, except for the vote: `Make` drops it.
  pub make-restores :
      (rf : Raft C) (b : List ℕ)
      → gob.encode rf.current_term rf.voted_for rf.log ≡ some b
      → ((make gob peers me (persist gob rf).raftstate).current_term ≡ rf.current_term)
        × ((make gob peers me (persist gob rf).raftstate).log ≡ rf.log)
        × ((make gob peers me (persist gob rf).raftstate).voted_for ≡ none)
        × ((make gob peers me (persist gob rf).raftstate).heartbeat ≡ 0)
  unfolding make persist
  make-restores rf b e =
      let back = read_persist-persist gob rf (blank peers me (persist gob rf).raftstate) b e in
      (ap (λ r. r.current_term) back, ap (λ r. r.log) back, refl, ap (λ r. r.heartbeat) back)

  -- A peer whose state is saved grants its vote to one candidate and restarts: in the same term it
  -- grants its vote to any other candidate whose log is up to date.
  pub make-votes_again :
      (rf rf' : Raft C) (args args' : RequestVoteArgs) (reply : RequestVoteReply) (last : Entry C)
      → gob.encode rf.current_term rf.voted_for rf.log ≡ some rf.raftstate
      → last_entry rf.log ≡ ok last
      → request_vote args rf ≡ ok (rf', reply)
      → reply.vote_granted ≡ true
      → args'.term ≡ args.term
      → UpToDate args'.last_log_term args'.last_log_idx last
      → (rf'' : Raft C) × (reply' : RequestVoteReply) × (request_vote args'
            (make gob peers me rf'.raftstate)
          ≡ ok (rf'', reply'))
        × (reply'.vote_granted ≡ true)
        × (reply'.term ≡ reply.term)
  make-votes_again rf rf' args args' reply last saved e r g same up =
      let (kept, le, of_args) = request_vote-raftstate args rf rf' reply r in
      let same_state : rf'.raftstate ≡ (persist gob rf).raftstate =
        kept
        ∙ sym (ap (λ (p : Raft C). p.raftstate) (persist-raftstate gob rf rf.raftstate saved)) in
      let (t, l, v, h) = make-restores rf rf.raftstate saved in
      let (rf'', reply', eq, ans) =
        request_vote_lem args' (make gob peers me (persist gob rf).raftstate) last
          (ap last_entry l ∙ e) (omega arith) in
      let at : args.term ≡ reply.term = sym (of_args g) in
      (
        rf'',
        reply',
        rw same_state eq,
        ans.grants.1 (omega arith, up, inr (inl v)),
        omega (arith, ans.reply_term),
      )
