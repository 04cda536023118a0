-- ===== src/Raft/Cluster/Invariant.antt =====
-- lab3/raft: what holds of each peer of a cluster and of its calls, and how the sections of the peer
-- keep it. A row has the calls of one candidate by term and by the peer that is asked.
pub mod Peer
use cpsc.Common.{
  ℕ, ◌+◌, ◌/◌, ◌≤◌, ◌<◌, ◌≡◌, ◌≢◌, refl, if◌then◌else◌, inl, inr, ap, sym, ◌∙◌, subst, Bool, true,
  false, ◌||◌, List, ◌++◌, arith, ◌==◌, ==_iff, Bool-cases,
}
use mathlib.Core.List.{Memᴰ}
use mathlib.Core.List.Memᴰ
use cpsc.Raft.State.{leader, Raft, RequestVoteArgs}
use cpsc.Raft.Run.{Ballot}
use cpsc.Raft.Run.Ballots.{Safe}
use cpsc.Raft.Cluster.{
  Call, idle, asked, answered, taken, lost, Cluster, update, set_call, open_row,
}
use cpsc.Raft.Cluster.Index.{by_index}
use cpsc.Raft.Cluster.Quorum.{count, count_mono}

abbrev pub Row : Type 0
Row = ℕ → ℕ → Call

-- The call was made.
abbrev pub IsOpen : Call → Type 0
IsOpen idle = ⊥
IsOpen _ = Unit

-- A granted vote that the candidate has seen.
abbrev pub votes_for : Call → Bool
votes_for (taken reply) = reply.vote_granted
votes_for _ = false

-- The peers whose votes candidate `i` has in term `t`, itself included.
abbrev pub voter : (i : ℕ) → Row → (t s : ℕ) → Bool
voter i row t s = s == i || votes_for (row t s)

abbrev pub tally : (n i : ℕ) → Row → (t : ℕ) → ℕ
tally n i row t = count n (voter i row t)

-- What the ballots `vs` of peer `s` say of a call of candidate `i` in term `t` to it.
abbrev pub CallOk : (n i t s : ℕ) → Call → List Ballot → Type 0
CallOk n i t s (asked args) vs = (s < n) × (s ≢ i) × (args.term ≡ t) × (args.id_cand ≡ i)
CallOk n i t s (answered args reply) vs =
    (s < n) × (s ≢ i) × (args.term ≡ t) × (reply.vote_granted ≡ true → Memᴰ (t, i) vs)
CallOk n i t s (taken reply) vs = reply.vote_granted ≡ true → Memᴰ (t, i) vs
CallOk n i t s _ vs = Unit

-- Peer `i` with its ballots and its calls: a term in which it calls is one that it has voted for
-- itself in; it has counted no vote twice; and as a leader it has a majority.
pub record PeerOk {C : Type 0} (n i : ℕ) (rf : Raft C) (vs : List Ballot) (row : Row) : Type 0 where
  pub me : rf.me ≡ i
  pub size : rf.peers ≡ n
  pub safe : Safe vs rf
  pub opened : (t s : ℕ) → IsOpen (row t s) → Memᴰ (t, i) vs
  pub counted :
      (t : ℕ) → t ≡ rf.current_term → Memᴰ (t, i) vs → rf.num_votes_received ≤ tally n i row t
  pub elected :
      rf.state ≡ leader → (t : ℕ) → t ≡ rf.current_term → Memᴰ (t, i) vs × (n / 2 < tally n i row t)

-- A candidacy that has not read its arguments has voted for itself, and has made no call.
abbrev pub AskOk : (ℕ → ℕ → Bool) → (ℕ → List Ballot) → (ℕ → Row) → Type 0
AskOk asks votes calls =
    (i t : ℕ) → asks i t ≡ true → Memᴰ (t, i) (votes i) × ((s : ℕ) → IsOpen (calls i t s) → ⊥)

pub record IsCounted {C : Type 0} (n : ℕ) (k : Cluster C) : Type 0 where
  pub peer : (i : ℕ) → PeerOk n i (k.peers i) (k.votes i) (k.calls i)
  pub call : (i t s : ℕ) → CallOk n i t s (k.calls i t s) (k.votes s)
  pub ask : AskOk k.asks k.votes k.calls

-- No call is new, and no vote is lost.
abbrev pub Grows : Row → Row → Type 0
Grows row row' =
    (t s : ℕ)
    → (IsOpen (row' t s) → IsOpen (row t s))
      × (votes_for (row t s) ≡ true → votes_for (row' t s) ≡ true)

-- One call changes.
abbrev pub set_row : Row → (t s : ℕ) → Call → Row
set_row row t s c = update row t (update (row t) s c)

pub set_row-Grows :
    (row : Row) (t s : ℕ) (c c' : Call)
    → row t s ≡ c
    → IsOpen c
    → votes_for c ≡ false
    → Grows row (set_row row t s c')
set_row-Grows row t s c c' e made no_vote t' s' = elim (Bool-cases (t' == t)) [
  | inr later ↦ rw later (λ o. o, λ v. v)
  | inl same ↦
      let et : t' ≡ t = (==_iff t' t).0 same in
      elim (Bool-cases (s' == s)) [
        | inr other ↦
            rw (same, other)
              (
                λ o. subst (λ j. IsOpen (row j s')) (sym et) o,
                λ v. subst (λ j. votes_for (row j s') ≡ true) et v,
              )
        | inl this ↦
            let es : s' ≡ s = (==_iff s' s).0 this in
            let at : row t' s' ≡ c = rw (et, es) e in
            (λ o. subst IsOpen (sym at) made, λ v. (let none_yet = sym (ap votes_for at) ∙ v in cc))
      ]
]

pub tally-Grows :
    (n i : ℕ) (row row' : Row) (t : ℕ) → Grows row row' → tally n i row t ≤ tally n i row' t
tally-Grows n i row row' t g =
    count_mono n (voter i row t) (voter i row' t) (λ s e. ground (arith, (g t s).1))

vote-IsOpen : (c : Call) → votes_for c ≡ true → IsOpen c
vote-IsOpen idle e = cc
vote-IsOpen (asked args) e = tt
vote-IsOpen (answered args reply) e = tt
vote-IsOpen (taken reply) e = tt
vote-IsOpen lost e = tt

-- A candidacy makes its calls.
pub open_row-tally :
    (n i : ℕ) (row : Row) (t : ℕ) (args : RequestVoteArgs)
    → ((s : ℕ) → IsOpen (row t s) → ⊥)
    → (u : ℕ) → tally n i row u ≤ tally n i (open_row n i row t args) u
open_row-tally n i row t args unmade u =
    count_mono n (voter i row u) (voter i (open_row n i row t args) u) (λ s e.
      elim (Bool-cases (s == i)) [
        | inl self ↦ rw self refl
        | inr peer ↦
            let voted : votes_for (row u s) ≡ true = rw peer at e in
            elim (Bool-cases (u == t)) [
              | inr other ↦ rw (peer, other) voted
              | inl now ↦ absurd (
                  unmade s (
                    subst (λ x. IsOpen (row x s)) ((==_iff u t).0 now)
                      (vote-IsOpen (row u s) voted)))
            ]
      ])

-- A ballot is added at one peer.
pub votes_grow :
    (votes : ℕ → List Ballot) (i : ℕ) (new : List Ballot) (j : ℕ) (v : Ballot)
    → Memᴰ v (votes j)
    → Memᴰ v (update votes i (new ++ votes i) j)
votes_grow votes i new j v m =
    by_index (λ k b. Memᴰ v (votes k) → Memᴰ v (if b then new ++ votes i else votes k)) i
      (λ old. Memᴰ.append_right new old) (λ k old. old) j m

pub set_call-IsOpen :
    (calls : ℕ → Row) (i t s : ℕ) (c c' : Call)
    → calls i t s ≡ c
    → IsOpen c
    → votes_for c ≡ false
    → (j u r : ℕ) → IsOpen (set_call calls i t s c' j u r)
    → IsOpen (calls j u r)
set_call-IsOpen calls i t s c c' at made no_vote j u r =
    by_index
      (λ k b. IsOpen ((if b then set_row (calls i) t s c' else calls k) u r) → IsOpen (calls k u r))
      i (set_row-Grows (calls i) t s c c' at made no_vote u r).0 (λ k o. o) j

pub AskOk-grows :
    (asks : ℕ → ℕ → Bool) (votes votes' : ℕ → List Ballot) (calls calls' : ℕ → Row)
    → ((j : ℕ) (v : Ballot) → Memᴰ v (votes j) → Memᴰ v (votes' j))
    → ((j u r : ℕ) → IsOpen (calls' j u r) → IsOpen (calls j u r))
    → AskOk asks votes calls
    → AskOk asks votes' calls'
AskOk-grows asks votes votes' calls calls' voted opened all i t asking =
    let (own, unmade) = all i t asking in (voted i (t, i) own, λ s o. unmade s (opened i t s o))

pub CallOk-append :
    (n i t s : ℕ) (c : Call) (cs vs : List Ballot)
    → CallOk n i t s c vs
    → CallOk n i t s c (cs ++ vs)
CallOk-append n i t s idle cs vs h = tt
CallOk-append n i t s (asked args) cs vs h = h
CallOk-append n i t s (answered args reply) cs vs h =
    (h.0, h.1, h.2, λ g. Memᴰ.append_right cs (h.3 g))
CallOk-append n i t s (taken reply) cs vs h = λ g. Memᴰ.append_right cs (h g)
CallOk-append n i t s lost cs vs h = tt
