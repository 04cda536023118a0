-- ===== src/Raft/Terms.antt =====
-- lab3/raft/raft.go: how an operation may change the term and the vote of a peer.
use cpsc.Common.{◌<◌, ◌≡◌, ◌⊎◌, inr, sym, ◌∙◌, arith}
use cpsc.Raft.State.{leader, Raft}
use cpsc.Raft.Persist.{Gob, persist}

-- The same term and vote, or a later term.
abbrev pub Moves : {C : Type 0} → Raft C → Raft C → Type 0
Moves rf rf' =
    (rf.current_term < rf'.current_term)
    ⊎ ((rf'.current_term ≡ rf.current_term) × (rf'.voted_for ≡ rf.voted_for))

pub Moves-trans : {C : Type 0} (rf rf1 rf2 : Raft C) → Moves rf rf1 → Moves rf1 rf2 → Moves rf rf2
Moves-trans rf rf1 rf2 h k = ground arith

pub persist_same :
    {C : Type 0} (gob : Gob C) (rf : Raft C)
    → ((persist gob rf).current_term ≡ rf.current_term)
      × ((persist gob rf).voted_for ≡ rf.voted_for)
      × ((persist gob rf).log ≡ rf.log)
unfolding persist
persist_same gob rf = ground arith

-- The same peer with the same role, term and vote, and the same votes counted.
abbrev pub Alike : {C : Type 0} → Raft C → Raft C → Type 0
Alike rf rf' =
    (rf'.current_term ≡ rf.current_term)
    × (rf'.voted_for ≡ rf.voted_for)
    × (rf'.me ≡ rf.me)
    × (rf'.peers ≡ rf.peers)
    × (rf'.num_votes_received ≡ rf.num_votes_received)
    × (rf'.state ≡ rf.state)

-- The same peer with the same votes counted, which is a leader only if it was one in that term.
abbrev pub Mild : {C : Type 0} → Raft C → Raft C → Type 0
Mild rf rf' =
    (rf'.me ≡ rf.me)
    × (rf'.peers ≡ rf.peers)
    × (rf'.num_votes_received ≡ rf.num_votes_received)
    × (rf'.state ≡ leader → (rf.state ≡ leader) × (rf'.current_term ≡ rf.current_term))

-- What the sections of a peer do that cast no ballot and count none.
abbrev pub Keeps : {C : Type 0} → Raft C → Raft C → Type 0
Keeps rf rf' = Moves rf rf' × Mild rf rf'

pub Alike-Keeps : {C : Type 0} (rf rf' : Raft C) → Alike rf rf' → Keeps rf rf'
Alike-Keeps rf rf' (t, v, m, p, n, s) = (inr (t, v), (m, p, n, λ h. (sym s ∙ h, t)))

pub persist-Alike : {C : Type 0} (gob : Gob C) (rf : Raft C) → Alike rf (persist gob rf)
unfolding persist
persist-Alike gob rf = ground arith
