-- ===== src/Raft/Network/Sound.antt =====
-- lab3/raft: each step of a cluster, but for the messages of AppendEntries, keeps what is on record
-- for each term.
use cpsc.Common.{
  ℕ, ◌+◌, ◌≤◌, ◌≡◌, ◌≢◌, ◌⊎◌, refl, sym, ◌∙◌, inl, inr, true, false, some, List, [], ◌∷◌, ◌++◌,
  arith, if◌then◌else◌,
}
use mathlib.Core.List.{Memᴰ}
use cpsc.Raft.State.{leader, candidate, Entry, Raft}
use cpsc.Raft.Log.{IsNumbered}
use cpsc.Raft.Persist.{Gob, persist}
use cpsc.Raft.Vote.Terms.{request_vote-Mild, vote_reply-Moves}
use cpsc.Raft.Replicate.NewLog.{Appended, start-log}
use cpsc.Raft.Ticker.{candidate_start}
use cpsc.Raft.Run.{Ballot, ballot}
use cpsc.Raft.Cluster.{
  Cluster, Inner, on_append_entries, on_append_reply, on_start, on_apply, on_kill,
  on_follower_timeout, on_follower_heartbeat, on_candidate_win, on_candidate_timeout,
  on_candidate_heartbeat, on_leader_round, Step, on_inner, on_candidacy, on_ask, on_request,
  on_reply, on_lost_request, on_lost_reply, asked, answered, taken, lost, update, set_call,
  open_calls,
}
use cpsc.Raft.Cluster.Index.{by_index}
use cpsc.Raft.Cluster.Sections.{Inner-Keeps}
use cpsc.Raft.Cluster.Invariant.{votes_grow, IsCounted, Row, tally}
use cpsc.Raft.Cluster.Invariant.Peer.{request_vote-le}
use cpsc.Raft.Network.{Message, NoAppend, NoMessage}
use cpsc.Raft.Network.Books.{Books, IsGood}
use cpsc.Raft.Network.Booked.{IsBooked, Leads, IsQuiet, IsQuiet-IsBooked}
use cpsc.Raft.Network.Sections.{Inner-log, candidate_start-log, request_vote-log, vote_reply-log}
use cpsc.Raft.Network.Calls.{set_call-tally, open_calls-tally}
use cpsc.Raft.Network.Steps.{section-IsQuiet, section-Leads}
use cpsc.Raft.Network.Elected.{crowned-IsBooked, Appended-IsBooked}

-- There are books for the network.
abbrev pub HasBooks : {C : Type 0} → ℕ → Cluster C → List (Message C) → Type 0
HasBooks {C} n k sent = (bk : Books C) × IsBooked n bk k sent × Leads bk k

module _ {C : Type 0} (gob : Gob C) (n : ℕ) where
  section_log :
      (rf rf' : Raft C) (inner : Inner gob rf rf')
      → NoAppend gob inner
      → IsNumbered rf.log
      → (rf'.log ≡ rf.log) ⊎ Appended gob rf rf'
  section_log rf rf' (on_append_entries args e) calm l = elim calm [ ]
  section_log rf rf' (on_start command result e) calm l = start-log gob command rf rf' result l e
  section_log rf rf' (on_append_reply server args reply e) calm l =
      inl (Inner-log gob rf rf' (on_append_reply server args reply e) tt)
  section_log rf rf' (on_apply e) calm l = inl (Inner-log gob rf rf' (on_apply e) tt)
  section_log rf _ on_kill calm l = inl (Inner-log gob rf _ on_kill tt)
  section_log rf _ on_follower_timeout calm l = inl (Inner-log gob rf _ on_follower_timeout tt)
  section_log rf _ on_follower_heartbeat calm l = inl (Inner-log gob rf _ on_follower_heartbeat tt)
  section_log rf _ on_candidate_win calm l = inl (Inner-log gob rf _ on_candidate_win tt)
  section_log rf _ on_candidate_timeout calm l = inl (Inner-log gob rf _ on_candidate_timeout tt)
  section_log rf _ on_candidate_heartbeat calm l =
      inl (Inner-log gob rf _ on_candidate_heartbeat tt)
  section_log rf _ on_leader_round calm l = inl (Inner-log gob rf _ on_leader_round tt)

  Inner-HasBooks :
      (k : Cluster C) (sent : List (Message C)) (i : ℕ) (rf' : Raft C)
      (inner : Inner gob (k.peers i) rf')
      → NoAppend gob inner
      → HasBooks n k sent
      → HasBooks n (record k { peers = update k.peers i rf' }) sent
  Inner-HasBooks k sent i rf' inner calm (bk, inv, leads) =
      let rf = k.peers i in
      let (moves, mild) = Inner-Keeps gob rf rf' inner in
      elim (section_log rf rf' inner calm (IsGood.numbered (inv.good i))) [
        | inr app ↦ Appended-IsBooked gob n bk k sent i rf' app inv leads
        | inl same ↦ (
          bk,
          IsQuiet-IsBooked n bk k (record k { peers = update k.peers i rf' }) sent
              (section-IsQuiet gob n bk k sent i rf' same (ground (arith, moves))) inv,
          section-Leads gob n bk k sent i rf' k.votes k.calls mild.3 leads,
        )
      ]

  changed-IsQuiet :
      (k : Cluster C) (sent : List (Message C)) (i : ℕ) (rf' : Raft C) (votes : ℕ → List Ballot)
      (calls : ℕ → Row)
      → rf'.log ≡ (k.peers i).log
      → (k.peers i).current_term ≤ rf'.current_term
      → ((j : ℕ) (v : Ballot) → Memᴰ v (k.votes j) → Memᴰ v (votes j))
      → ((j t : ℕ) → t ≤ (k.peers j).current_term → tally n j (k.calls j) t ≤ tally n j (calls j) t)
      → (bk : Books C)
      → IsQuiet n k (record k { peers = update k.peers i rf'; votes = votes; calls = calls })
  changed-IsQuiet k sent i rf' votes calls log term voted called bk =
      let q = section-IsQuiet gob n bk k sent i rf' log term in
      record { log = q.log; term = q.term; votes = voted; calls = called }

  pub Step-HasBooks :
      (k l : Cluster C) (sent : List (Message C)) (st : Step gob n k l)
      → NoMessage gob st
      → IsCounted n k
      → IsCounted n l
      → HasBooks n k sent
      → HasBooks n l sent
  unfolding candidate_start persist
  Step-HasBooks k _ sent (on_inner {rf' = rf'} i inner) calm before counted books =
      Inner-HasBooks k sent i rf' inner calm books
  Step-HasBooks k _ sent (on_candidacy i lt is_candidate) calm before counted (bk, inv, leads) =
      let rf = k.peers i in
      let rf' = candidate_start gob rf in
      let votes = update k.votes i ((rf.current_term + 1, rf.me) ∷ k.votes i) in
      (
        bk,
        IsQuiet-IsBooked n bk k
            (record k {
              peers = update k.peers i rf';
              votes = votes;
              asks = update k.asks i (update (k.asks i) (rf.current_term + 1) true);
            })
            sent
            (let q =
                changed-IsQuiet k sent i rf' votes k.calls (candidate_start-log gob rf)
                  (omega arith) (votes_grow k.votes i ((rf.current_term + 1, rf.me) ∷ []))
                  (λ j t le. omega arith) bk in
              record { log = q.log; term = q.term; votes = q.votes; calls = q.calls })
            inv,
        section-Leads gob n bk k sent i rf' votes k.calls
            (λ lead. (let no_leader : candidate ≡ leader = sym is_candidate ∙ lead in absurd cc))
            leads,
      )
  Step-HasBooks k _ sent (on_ask {args = args} i t asks e) calm before counted (bk, inv, leads) = (
    bk,
    IsQuiet-IsBooked n bk k
        (record k {
          asks = update k.asks i (update (k.asks i) t false);
          calls = open_calls n k.calls i t args;
        })
        sent
        (record {
          log = λ j. refl;
          term = λ j. omega arith;
          votes = λ j v m. m;
          calls = λ j u le. open_calls-tally n k.calls i t args (before.ask i t asks).1 j u;
        })
        inv,
    leads,
  )
  Step-HasBooks k _ sent (on_request {rf' = rf'} {args = args} {reply = reply} i t s at e) calm
        before counted (bk, inv, leads) =
      let rf = k.peers s in
      let votes = update k.votes s (ballot args reply ++ k.votes s) in
      let calls = set_call k.calls i t s (answered args reply) in
      (
        bk,
        IsQuiet-IsBooked n bk k
            (record k { peers = update k.peers s rf'; votes = votes; calls = calls }) sent
            (changed-IsQuiet k sent s rf' votes calls (request_vote-log gob args rf rf' reply e)
              (request_vote-le args rf rf' reply e) (votes_grow k.votes s (ballot args reply))
              (λ j u le.
                set_call-tally n k.calls i t s (asked args) (answered args reply) at tt refl j u)
              bk)
            inv,
        section-Leads gob n bk k sent s rf' votes calls (request_vote-Mild args rf rf' reply e).3
            leads,
      )
  Step-HasBooks k _ sent (on_reply {rf' = rf'} {args = args} {reply = reply} i t s at e) calm before
        counted (bk, inv, leads) =
      let rf = k.peers i in
      let calls = set_call k.calls i t s (taken reply) in
      let l : Cluster C = record k { peers = update k.peers i rf'; calls = calls } in
      let moves = vote_reply-Moves gob args (some reply) rf rf' e in
      crowned-IsBooked n bk l sent i counted
        (IsQuiet-IsBooked n bk k l sent
          (changed-IsQuiet k sent i rf' k.votes calls (vote_reply-log gob args reply rf rf' e)
            (ground (arith, moves)) (λ j v m. m)
            (λ j u le.
              set_call-tally n k.calls i t s (answered args reply) (taken reply) at tt refl j u)
            bk)
          inv)
        (by_index
          (λ j b.
            j ≢ i
            → (if b then rf' else k.peers j).state ≡ leader
            → (x : List (Entry C)) × (bk (if b then rf' else k.peers j).current_term ≡ some (j, x)))
          i (λ ne. absurd (ne refl)) (λ j ne. leads j))
  Step-HasBooks k _ sent (on_lost_request {args = args} i t s at) calm before counted
        (bk, inv, leads) =
      (
        bk,
        IsQuiet-IsBooked n bk k (record k { calls = set_call k.calls i t s lost }) sent
            (record {
              log = λ j. refl;
              term = λ j. omega arith;
              votes = λ j v m. m;
              calls = λ j u le. set_call-tally n k.calls i t s (asked args) lost at tt refl j u;
            })
            inv,
        leads,
      )
  Step-HasBooks k _ sent (on_lost_reply {args = args} {reply = reply} i t s at) calm before counted
        (bk, inv, leads) =
      (
        bk,
        IsQuiet-IsBooked n bk k (record k { calls = set_call k.calls i t s lost }) sent
            (record {
              log = λ j. refl;
              term = λ j. omega arith;
              votes = λ j v m. m;
              calls = λ j u le.
                  set_call-tally n k.calls i t s (answered args reply) lost at tt refl j u;
            })
            inv,
        leads,
      )
