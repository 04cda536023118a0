-- ===== src/Raft/Tests/Plain.antt =====
-- An encoding of what a peer saves as a list of numbers: one stream that holds the term, the vote
-- and the entries, in the order of the calls of `Encode` in lab3/raft/raft.go.
use cpsc.Common.{ℕ, zero, suc, ◌≡◌, ◌≢◌, refl, ap, Option, none, some, List, [], ◌∷◌, arith}
use cpsc.Raft.State.{Entry}
use cpsc.Raft.Persist.{Gob}

abbrev number : Option ℕ → ℕ
number none = 0
number (some n) = suc n

abbrev optional : ℕ → Option ℕ
optional zero = none
optional (suc n) = some n

abbrev write : List (Entry ℕ) → List ℕ
write [] = []
write (e ∷ l) = e.term ∷ number e.command ∷ e.index ∷ write l

abbrev read : List ℕ → List (Entry ℕ)
read (t ∷ c ∷ i ∷ b) = record { term = t; command = optional c; index = i } ∷ read b
read _ = []

optional-number : (o : Option ℕ) → optional (number o) ≡ o
optional-number none = refl
optional-number (some n) = refl

read-write : (l : List (Entry ℕ)) → read (write l) ≡ l
read-write [] = refl
read-write (e ∷ l) = rw (optional-number e.command, read-write l)

abbrev stream : ℕ → Option ℕ → List (Entry ℕ) → Option (List ℕ)
stream t v l = some (t ∷ number v ∷ write l)

abbrev read_term : List ℕ → Option ℕ
read_term [] = none
read_term (t ∷ b) = some t

abbrev read_vote : List ℕ → Option (Option ℕ)
read_vote (t ∷ v ∷ b) = some (optional v)
read_vote _ = none

abbrev read_log : List ℕ → Option (List (Entry ℕ))
read_log (t ∷ v ∷ b) = some (read b)
read_log _ = none

pub stream_nonempty :
    (t : ℕ) (v : Option ℕ) (l : List (Entry ℕ)) (b : List ℕ) → stream t v l ≡ some b → b ≢ []
stream_nonempty t v l [] e = λ _. cc
stream_nonempty t v l (x ∷ b) e = λ h. cc

pub stream_restores :
    (t : ℕ) (v : Option ℕ) (l : List (Entry ℕ)) (b : List ℕ)
    → stream t v l ≡ some b
    → (read_term b ≡ some t) × (read_vote b ≡ some v) × (read_log b ≡ some l)
stream_restores t v l b e =
    let same : t ∷ number v ∷ write l ≡ b = ground arith in
    rw (← same) (refl, ap some (optional-number v), ap some (read-write l))

abbrev pub plain : Gob ℕ
plain = record {
  encode = stream;
  decode_term = read_term;
  decode_vote = read_vote;
  decode_log = read_log;
  nonempty = stream_nonempty;
  restores = stream_restores;
}
