-- ===== src/Raft/Persist.antt =====
-- lab3/raft/persister.go, and `persist` and `readPersist` of lab3/raft/raft.go.
use cpsc.Common.{ℕ, ◌≡◌, refl, Option, none, some, List, [], ◌∷◌, ◌≢◌, length, ap, arith}
use cpsc.Raft.State.{Entry, Raft}

-- `Persister`, without its lock: each method holds it from start to end.
pub record Persister : Type 0 where
  pub raftstate : List ℕ
  pub snapshot : List ℕ

pub make_persister : Persister
make_persister = record { raftstate = []; snapshot = [] }

-- `clone` copies into a slice of the same length.
clone : List ℕ → List ℕ
clone [] = []
clone (b ∷ orig) = b ∷ clone orig

pub copy : Persister → Persister
unfolding make_persister
copy ps = record make_persister { raftstate = ps.raftstate; snapshot = ps.snapshot }

unfoldable pub save_raft_state : List ℕ → Persister → Persister
unfolding clone
save_raft_state b ps = record ps { raftstate = clone b }

unfoldable pub read_raft_state : Persister → List ℕ
unfolding clone
read_raft_state ps = clone ps.raftstate

pub raft_state_size : Persister → ℕ
raft_state_size ps = length ps.raftstate

unfoldable pub save_state_and_snapshot : List ℕ → List ℕ → Persister → Persister
unfolding clone
save_state_and_snapshot b s ps = record ps { raftstate = clone b; snapshot = clone s }

unfoldable pub read_snapshot : Persister → List ℕ
unfolding clone
read_snapshot ps = clone ps.snapshot

pub snapshot_size : Persister → ℕ
snapshot_size ps = length ps.snapshot

clone_lem : (b : List ℕ) → clone b ≡ b
unfolding clone
clone_lem [] = refl
clone_lem (x ∷ b) = ap (λ l. x ∷ l) (clone_lem b)

-- The gob encoding of a term, a vote and a log on one stream. `encode` is none where one of the
-- three `Encode` calls fails; the decoders are the first, the second and the third `Decode` call
-- on a stream. gob restores what it wrote, and what it writes is not empty.
pub record Gob (C : Type 0) : Type 0 where
  pub encode : ℕ → Option ℕ → List (Entry C) → Option (List ℕ)
  pub decode_term : List ℕ → Option ℕ
  pub decode_vote : List ℕ → Option (Option ℕ)
  pub decode_log : List ℕ → Option (List (Entry C))
  pub nonempty :
      (t : ℕ) (v : Option ℕ) (l : List (Entry C)) (b : List ℕ) → encode t v l ≡ some b → b ≢ []
  pub restores :
      (t : ℕ) (v : Option ℕ) (l : List (Entry C)) (b : List ℕ)
      → encode t v l ≡ some b
      → (decode_term b ≡ some t) × (decode_vote b ≡ some v) × (decode_log b ≡ some l)

module _ {C : Type 0} (gob : Gob C) where
  -- What the persister holds after `persist`: on an encoding error the saved state stays.
  saved : Raft C → List ℕ
  unfolding clone
  saved rf = elim (gob.encode rf.current_term rf.voted_for rf.log) [
    | none ↦ rf.raftstate
    | some b ↦ clone b
  ]

  unfoldable pub persist : Raft C → Raft C
  unfolding saved
  persist rf = record rf { raftstate = saved rf }

  read_log : List ℕ → Raft C → Raft C
  read_log b rf = elim (gob.decode_log b) [ none ↦ rf | some l ↦ record rf { log = l } ]

  read_vote : List ℕ → Raft C → Raft C
  unfolding read_log
  read_vote b rf = elim (gob.decode_vote b) [
    | none ↦ rf
    | some v ↦ read_log b (record rf { voted_for = v })
  ]

  read_term : List ℕ → Raft C → Raft C
  unfolding read_vote
  read_term b rf = elim (gob.decode_term b) [
    | none ↦ rf
    | some t ↦ read_vote b (record rf { current_term = t })
  ]

  -- `readPersist`: nothing saved is no state, and a decoding error ends the reading where it is.
  unfoldable pub read_persist : List ℕ → Raft C → Raft C
  unfolding read_term
  read_persist [] rf = rf
  read_persist (x ∷ b) rf = read_term (x ∷ b) rf

  pub persist-raftstate :
      (rf : Raft C) (b : List ℕ)
      → gob.encode rf.current_term rf.voted_for rf.log ≡ some b
      → persist rf ≡ record rf { raftstate = b }
  unfolding persist
  persist-raftstate rf b e = rw (e, saved) (rw (clone_lem b))

  -- Saving twice is saving once.
  pub persist-persist : (rf : Raft C) → persist (persist rf) ≡ persist rf
  unfolding persist saved
  persist-persist rf = ground arith

  -- What one peer saves, a restarted peer reads back: its term, its vote and its log; nothing else
  -- of the restarted peer changes.
  pub read_persist-persist :
      (rf fresh : Raft C) (b : List ℕ)
      → gob.encode rf.current_term rf.voted_for rf.log ≡ some b
      → read_persist (persist rf).raftstate fresh
        ≡ record fresh { current_term = rf.current_term; voted_for = rf.voted_for; log = rf.log }
  unfolding read_persist
  read_persist-persist rf fresh b e =
      rw (persist-raftstate rf b e) (reads b (gob.nonempty _ _ _ b e) (gob.restores _ _ _ b e))
    where
      reads :
          (b : List ℕ)
          → b ≢ []
          → (gob.decode_term b ≡ some rf.current_term)
            × (gob.decode_vote b ≡ some rf.voted_for)
            × (gob.decode_log b ≡ some rf.log)
          → read_persist b fresh ≡ record fresh {
            current_term = rf.current_term;
            voted_for = rf.voted_for;
            log = rf.log;
          }
      reads [] ne d = absurd (ne refl)
      reads (x ∷ b) ne (t, v, l) = rw (t, read_term) (rw (v, read_vote) (rw (l, read_log)))
