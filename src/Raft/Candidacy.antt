-- ===== src/Raft/Candidacy.antt =====
-- lab3/raft/raft.go, the window in `ticker` between the start of a candidacy and the goroutine
-- that reads the term for its vote requests.
use cpsc.Common.{◌+◌, ◌*◌, ◌<◌, ◌≡◌, refl, ap, ◌∙◌, true, some, arith, length}
use cpsc.Common.Outcome.{ok}
use cpsc.Raft.State.{leader, Entry, Raft, RequestVoteArgs, RequestVoteReply, signal_capacity}
use cpsc.Raft.Log.{last_entry}
use cpsc.Raft.Persist.{Gob, persist}
use cpsc.Raft.Vote.{request_vote, vote_reply}
use cpsc.Raft.Vote.Laws.{request_vote-kept}
use cpsc.Raft.Vote.Count.{IsWaiting, vote_reply_lem}
use cpsc.Raft.Ticker.{vote_args, follower_timeout}

module _ {C : Type 0} (gob : Gob C) where
  -- A candidate grants its vote to another in a later term before it has sent its own requests. The
  -- requests that it then sends ask for votes in that later term, though its own vote there went to
  -- the other; and if its election timer fires, one granted reply can make it the leader of that
  -- term, by the votes that it has counted in an earlier one.
  pub vote_args-stale :
      (rf rf' : Raft C) (args : RequestVoteArgs) (reply : RequestVoteReply) (last : Entry C)
      → last_entry rf.log ≡ ok last
      → length rf.next_idx ≡ rf.peers
      → rf.win_election < signal_capacity
      → rf.peers < 2 * (rf.num_votes_received + 1)
      → request_vote args rf ≡ ok (rf', reply)
      → reply.vote_granted ≡ true
      → (asked : RequestVoteArgs) × (rf'' : Raft C) × (vote_args rf' ≡ ok asked)
        × (asked.term ≡ args.term)
        × (asked.id_cand ≡ rf.me)
        × (vote_reply gob asked
              (some (record { term = args.term; vote_granted = true }))
              (follower_timeout gob rf')
            ≡ ok rf'')
        × (rf''.state ≡ leader)
        × (rf''.current_term ≡ args.term)
        × (rf''.voted_for ≡ some args.id_cand)
  unfolding vote_args follower_timeout persist
  vote_args-stale rf rf' args reply last e width room enough r g =
      let k = request_vote-kept args rf rf' reply r g in
      let asked : RequestVoteArgs = record {
        term = rf'.current_term;
        id_cand = rf'.me;
        last_log_idx = last.index;
        last_log_term = last.term;
      } in
      let won : RequestVoteReply = record { term = args.term; vote_granted = true } in
      let waiting : IsWaiting asked last (follower_timeout gob rf') = record {
        state = refl;
        term = refl;
        last_log = ap last_entry k.2 ∙ e;
        width = ground arith;
        room = ground arith;
      } in
      let (rf'', done, c) =
        vote_reply_lem gob asked last won (follower_timeout gob rf') waiting (omega (arith, k.1)) in
      (
        asked,
        rf'',
        rw (k.2) (rw e),
        k.1,
        k.3,
        done,
        c.wins.1 (refl, omega (arith, k.4, k.7)),
        omega (arith, c.term, k.1),
        c.voted_for ∙ k.0,
      )
