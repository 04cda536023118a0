-- ===== src/Raft/Cluster/Election.antt =====
-- lab3/raft: in a cluster, a term has one leader at most.
pub mod Calls
use cpsc.Common.{
  ℕ, ◌+◌, ◌/◌, ◌<◌, ◌≡◌, ◌≢◌, ap, not, ◌&&◌, ltb, inl, inr, refl, sym, ◌∙◌, subst, true, false, [],
  ◌∷◌, ◌++◌, arith, ◌==◌, ==_iff, if◌then◌else◌, Bool-cases,
}
use mathlib.Core.List.{Memᴰ}
use cpsc.Raft.State.{leader, RequestVoteArgs}
use cpsc.Raft.Persist.{Gob, read_persist}
use cpsc.Raft.Run.{ballot}
use cpsc.Raft.Run.Ballots.{Safe, OneVote-Memᴰ}
use cpsc.Raft.Ticker.{candidate_start, make, blank}
use cpsc.Raft.Cluster.{
  Call, idle, asked, answered, taken, lost, Cluster, update, set_call, open_calls, open_row, Step,
  on_inner, on_candidacy, on_ask, IsPrompt, AllPrompt, on_request, on_reply, on_lost_request,
  on_lost_reply, Run, here, next, initial,
}
use cpsc.Raft.Cluster.Index.{by_index}
use cpsc.Raft.Cluster.Quorum.{count_common}
use cpsc.Raft.Cluster.Sections.{Inner-Keeps}
use cpsc.Raft.Terms.{persist-Alike}
use cpsc.Raft.Cluster.Invariant.{
  AskOk, AskOk-grows, votes_grow, set_call-IsOpen, IsOpen, tally, voter, votes_for, CallOk, PeerOk,
  IsCounted, set_row, set_row-Grows,
}
use cpsc.Raft.Cluster.Invariant.Peer.{
  candidate_start-unmade, open_row-PeerOk, vote_args_lem, Grows-PeerOk, Keeps-PeerOk,
  candidate_start-PeerOk, request_vote-PeerOk, vote_reply-PeerOk,
}
use cpsc.Raft.Cluster.Election.Calls.{
  set_call-CallOk, append-CallOk, open_calls-CallOk, answered-CallOk,
}

-- One call is lost.
lost-IsCounted :
    {C : Type 0} (n : ℕ) (k : Cluster C) (inv : IsCounted n k) (i t s : ℕ) (c : Call)
    → k.calls i t s ≡ c
    → IsOpen c
    → votes_for c ≡ false
    → IsCounted n (record k { calls = set_call k.calls i t s lost })
lost-IsCounted n k inv i t s c at made no_vote =
    let row = set_row (k.calls i) t s lost in
    let grown = set_row-Grows (k.calls i) t s c lost at made no_vote in
    record {
      peer =
          by_index (λ j b. PeerOk n j (k.peers j) (k.votes j) (if b then row else k.calls j)) i
            (Grows-PeerOk n i (k.peers i) (k.votes i) (k.calls i) row grown (inv.peer i)) inv.peer;
      call = set_call-CallOk n k.calls k.votes inv.call i t s lost tt;
      ask =
          AskOk-grows k.asks k.votes k.votes k.calls (set_call k.calls i t s lost) (λ j v m. m)
            (set_call-IsOpen k.calls i t s c lost at made no_vote) inv.ask;
    }

-- A candidacy starts.
candidacy-AskOk :
    {C : Type 0} (n : ℕ) (k : Cluster C) (i : ℕ)
    → IsCounted n k
    → AskOk
        (update k.asks i (update (k.asks i) ((k.peers i).current_term + 1) true))
        (update k.votes i (((k.peers i).current_term + 1, (k.peers i).me) ∷ k.votes i))
        k.calls
candidacy-AskOk n k i inv =
    let now = (k.peers i).current_term + 1 in
    let vs = (now, (k.peers i).me) ∷ k.votes i in
    by_index
      (λ j b.
        (t : ℕ)
        → (if b then update (k.asks i) now true else k.asks j) t ≡ true
        → Memᴰ (t, j) (if b then vs else k.votes j) × ((s : ℕ) → IsOpen (k.calls j t s) → ⊥))
      i
      (by_index
        (λ t b.
          (if b then true else k.asks i t) ≡ true
          → Memᴰ (t, i) vs × ((s : ℕ) → IsOpen (k.calls i t s) → ⊥))
        now
        (λ asks. (
          Memᴰ.head (ap (λ x. (now, x)) (sym (inv.peer i).me)),
          candidate_start-unmade n i (k.peers i) (k.votes i) (k.calls i) (inv.peer i),
        ))
        (λ t asks. (let (own, unmade) = inv.ask i t asks in (Memᴰ.tail own, unmade))))
      inv.ask

-- A candidacy reads its arguments.
asked-AskOk :
    {C : Type 0} (n : ℕ) (k : Cluster C) (i t : ℕ) (args : RequestVoteArgs)
    → IsCounted n k
    → AskOk (update k.asks i (update (k.asks i) t false)) k.votes (open_calls n k.calls i t args)
asked-AskOk n k i t args inv =
    let opened : ℕ → Call = λ s. if ltb s n && not (s == i) then asked args else k.calls i t s in
    by_index
      (λ j b.
        (u : ℕ)
        → (if b then update (k.asks i) t false else k.asks j) u ≡ true
        → Memᴰ (u, j) (k.votes j)
          × ((s : ℕ) → IsOpen ((if b then open_row n i (k.calls i) t args else k.calls j) u s) → ⊥))
      i
      (by_index
        (λ u b.
          (if b then false else k.asks i u) ≡ true
          → Memᴰ (u, i) (k.votes i)
            × ((s : ℕ) → IsOpen ((if b then opened else k.calls i u) s) → ⊥))
        t (λ asks. absurd cc) (inv.ask i))
      inv.ask

Step-IsCounted :
    {C : Type 0} (gob : Gob C) (n : ℕ) (k l : Cluster C) (st : Step gob n k l)
    → IsPrompt gob st
    → IsCounted n k
    → IsCounted n l
Step-IsCounted gob n k _ (on_inner {rf' = rf'} i inner) prompt inv =
    let kept =
      Keeps-PeerOk n i (k.peers i) rf' (k.votes i) (k.calls i)
        (Inner-Keeps gob (k.peers i) rf' inner) (inv.peer i) in
    record {
      peer =
          by_index (λ j b. PeerOk n j (if b then rf' else k.peers j) (k.votes j) (k.calls j)) i kept
            inv.peer;
      call = inv.call;
      ask = inv.ask;
    }
Step-IsCounted gob n k _ (on_candidacy i lt is_candidate) prompt inv =
    let rf = k.peers i in
    let rf' = candidate_start gob rf in
    let vs = (rf.current_term + 1, rf.me) ∷ k.votes i in
    record {
      peer =
          by_index
            (λ j b.
              PeerOk n j (if b then rf' else k.peers j) (if b then vs else k.votes j) (k.calls j))
            i
            (candidate_start-PeerOk n i gob rf (k.votes i) (k.calls i) lt is_candidate (inv.peer i))
            inv.peer;
      call = append-CallOk n k.calls k.votes inv.call i ((rf.current_term + 1, rf.me) ∷ []);
      ask = candidacy-AskOk n k i inv;
    }
Step-IsCounted gob n k _ (on_ask {args = args} i t asks e) prompt inv =
    let rf = k.peers i in
    let (own, unmade) = inv.ask i t asks in
    let row = open_row n i (k.calls i) t args in
    record {
      peer =
          by_index (λ j b. PeerOk n j (k.peers j) (k.votes j) (if b then row else k.calls j)) i
            (open_row-PeerOk n i rf (k.votes i) (k.calls i) t args own unmade (inv.peer i))
            inv.peer;
      call =
          open_calls-CallOk n k.calls k.votes inv.call i t args
            ((vote_args_lem rf args e).1 ∙ (inv.peer i).me) prompt;
      ask = asked-AskOk n k i t args inv;
    }
Step-IsCounted gob n k _ (on_request {rf' = rf'} {args = args} {reply = reply} i t s at e) prompt
      inv =
    let asked_ok : CallOk n i t s (asked args) (k.votes s) =
      subst (λ c. CallOk n i t s c (k.votes s)) at (inv.call i t s) in
    let vs = ballot args reply ++ k.votes s in
    let row = set_row (k.calls i) t s (answered args reply) in
    let grown = set_row-Grows (k.calls i) t s (asked args) (answered args reply) at tt refl in
    let other : args.id_cand ≢ s = λ same. asked_ok.1 (sym same ∙ asked_ok.3) in
    let voted =
      by_index
        (λ j b. PeerOk n j (if b then rf' else k.peers j) (if b then vs else k.votes j) (k.calls j))
        s
        (request_vote-PeerOk n s (k.peers s) rf' (k.votes s) (k.calls s) args reply e other
          (inv.peer s))
        inv.peer in
    record {
      peer =
          by_index
            (λ j b.
              PeerOk n j (update k.peers s rf' j) (update k.votes s vs j)
                (if b then row else k.calls j))
            i
            (Grows-PeerOk n i (update k.peers s rf' i) (update k.votes s vs i) (k.calls i) row grown
              (voted i))
            voted;
      call =
          set_call-CallOk n k.calls (update k.votes s vs)
            (append-CallOk n k.calls k.votes inv.call s (ballot args reply)) i t s
            (answered args reply)
            (subst (λ v. CallOk n i t s (answered args reply) v) (rw ((==_iff s s).1 refl) refl)
              (answered-CallOk n i t s (k.peers s) rf' args reply (k.votes s) e asked_ok));
      ask =
          AskOk-grows k.asks k.votes (update k.votes s vs) k.calls
            (set_call k.calls i t s (answered args reply))
            (votes_grow k.votes s (ballot args reply))
            (set_call-IsOpen k.calls i t s (asked args) (answered args reply) at tt refl) inv.ask;
    }
Step-IsCounted gob n k _ (on_reply {rf' = rf'} {args = args} {reply = reply} i t s at e) prompt
      inv =
    let (lt, ne, of_term, granted) : CallOk n i t s (answered args reply) (k.votes s) =
      subst (λ c. CallOk n i t s c (k.votes s)) at (inv.call i t s) in
    let row = set_row (k.calls i) t s (taken reply) in
    record {
      peer =
          by_index
            (λ j b.
              PeerOk n j (if b then rf' else k.peers j) (k.votes j) (if b then row else k.calls j))
            i
            (vote_reply-PeerOk n i gob (k.peers i) rf' (k.votes i) (k.calls i) args reply t s e at
              (lt, ne, of_term) (inv.peer i))
            inv.peer;
      call = set_call-CallOk n k.calls k.votes inv.call i t s (taken reply) granted;
      ask =
          AskOk-grows k.asks k.votes k.votes k.calls (set_call k.calls i t s (taken reply))
            (λ j v m. m)
            (set_call-IsOpen k.calls i t s (answered args reply) (taken reply) at tt refl) inv.ask;
    }
Step-IsCounted gob n k _ (on_lost_request {args = args} i t s at) prompt inv =
    lost-IsCounted n k inv i t s (asked args) at tt refl
Step-IsCounted gob n k _ (on_lost_reply {args = args} {reply = reply} i t s at) prompt inv =
    lost-IsCounted n k inv i t s (answered args reply) at tt refl

initial-IsCounted : {C : Type 0} (gob : Gob C) (n : ℕ) → IsCounted n (initial gob n)
unfolding initial make read_persist Safe blank
initial-IsCounted gob n = record {
  peer = λ i.
      let (_, _, me, size, _, role) = persist-Alike gob (blank n i []) in
      record {
        me = me;
        size = size;
        safe = (tt, tt);
        opened = λ t s o. absurd o;
        counted = λ t e m. elim m [ ];
        elected = λ h t e. (let no_leader = sym role ∙ h in cc);
      };
  call = λ i t s. tt;
  ask = λ i t asks. absurd cc;
}

pub Run-IsCounted :
    {C : Type 0} (gob : Gob C) (n : ℕ) (k : Cluster C) (r : Run gob n (initial gob n) k)
    → AllPrompt gob r
    → IsCounted n k
Run-IsCounted gob n _ here prompt = initial-IsCounted gob n
Run-IsCounted gob n k (next {l} r st) (prompt, last) =
    Step-IsCounted gob n l k st last (Run-IsCounted gob n l r prompt)

-- Peer `s` has voted for a candidate that has counted its vote.
voter-Memᴰ :
    {C : Type 0} (n i s t : ℕ) (k : Cluster C) (inv : IsCounted n k)
    → Memᴰ (t, i) (k.votes i)
    → voter i (k.calls i) t s ≡ true
    → Memᴰ (t, i) (k.votes s)
voter-Memᴰ n i s t k inv own e = elim (Bool-cases (s == i)) [
  | inl same ↦ subst (λ r. Memᴰ (t, i) (k.votes r)) (sym ((==_iff s i).0 same)) own
  | inr other ↦ taken-Memᴰ (k.calls i t s) (rw other at e) (inv.call i t s)
]
  where
    taken-Memᴰ :
        (c : Call) → votes_for c ≡ true → CallOk n i t s c (k.votes s) → Memᴰ (t, i) (k.votes s)
    taken-Memᴰ idle v h = cc
    taken-Memᴰ (asked args) v h = cc
    taken-Memᴰ (answered args reply) v h = cc
    taken-Memᴰ (taken reply) v h = h v
    taken-Memᴰ lost v h = cc

-- Two peers with a majority of the votes of one term are the same peer.
pub IsCounted-one :
    {C : Type 0} (n : ℕ) (k : Cluster C) (i j t : ℕ)
    → IsCounted n k
    → Memᴰ (t, i) (k.votes i)
    → n / 2 < tally n i (k.calls i) t
    → Memᴰ (t, j) (k.votes j)
    → n / 2 < tally n j (k.calls j) t
    → i ≡ j
unfolding Safe
IsCounted-one n k i j t inv own_i most_i own_j most_j =
    let (s, lt, for_i, for_j) =
      count_common n (voter i (k.calls i) t) (voter j (k.calls j) t)
        (omega (arith, most_i, most_j)) in
    OneVote-Memᴰ (t, j) (t, i) (k.votes s) (PeerOk.safe (inv.peer s)).1
      (voter-Memᴰ n j s t k inv own_j for_j) (voter-Memᴰ n i s t k inv own_i for_i) refl

-- In a cluster of peers that `Make` has made with nothing saved, where the sections of all peers
-- interleave, calls may be lost or reordered but are delivered once at most, and no peer restarts:
-- where each candidacy reads its arguments while its peer is still in the term of the candidacy, two
-- peers that are leaders in one term are the same peer.
pub Run-one_leader :
    {C : Type 0} (gob : Gob C) (n : ℕ) (k : Cluster C) (i j : ℕ) (r : Run gob n (initial gob n) k)
    → AllPrompt gob r
    → (k.peers i).state ≡ leader
    → (k.peers j).state ≡ leader
    → (k.peers i).current_term ≡ (k.peers j).current_term
    → i ≡ j
Run-one_leader gob n k i j r prompt lead_i lead_j same =
    let inv = Run-IsCounted gob n k r prompt in
    let t = (k.peers i).current_term in
    let (own_i, most_i) = (inv.peer i).elected lead_i t refl in
    let (own_j, most_j) = (inv.peer j).elected lead_j t same in
    IsCounted-one n k i j t inv own_i most_i own_j most_j
