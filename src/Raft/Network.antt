-- ===== src/Raft/Network.antt =====
-- lab3/raft: a cluster of peers with the messages of AppendEntries. The entries of the arguments that
-- `broadcastHeartbeat` makes are a slice of the sender's log. `sendAppendEntries` copies them in a
-- section of its own, and what it finds there is arbitrary, since an AppendEntries that the sender
-- has handled in between may have overwritten the array of the slice. A copy stays in the network:
-- it may be delivered at any later time, more than once, in any order, or never. The replies to
-- these messages are arbitrary; the calls of RequestVote and what no peer does are those of
-- Cluster.antt.
pub mod Books
pub mod Booked
pub mod Sections
pub mod Calls
pub mod Steps
pub mod Elected
pub mod Sound
pub mod LogMatching
use cpsc.Common.{ℕ, ◌≡◌, some, List, [], ◌∷◌}
use cpsc.Common.Outcome.{ok}
use mathlib.Core.List.{Memᴰ}
use cpsc.Raft.State.{Entry, Raft, AppendEntriesArgs, AppendEntriesResults}
use cpsc.Raft.Persist.{Gob}
use cpsc.Raft.Append.{append_entries}
use cpsc.Raft.Replicate.{heartbeat_args}
use cpsc.Raft.Cluster.{
  Cluster, Inner, on_append_entries, Step, on_inner, Run, IsPrompt, AllPrompt, here, next, update,
  initial,
}

-- A message to a peer.
abbrev pub Message : Type 0 → Type 0
Message C = ℕ × AppendEntriesArgs C

-- The deep copy of `sendAppendEntries`, which finds the entries `es`.
abbrev pub copy_args : {C : Type 0} → AppendEntriesArgs C → List (Entry C) → AppendEntriesArgs C
copy_args args es = record args { entries = es }

-- `made` lists the arguments that `broadcastHeartbeat` ever made, as they were then, and `sent` the
-- messages that `sendAppendEntries` ever sent.
pub record Network (C : Type 0) : Type 0 where
  pub cluster : Cluster C
  pub made : List (Message C)
  pub sent : List (Message C)

module _ {C : Type 0} (gob : Gob C) where
  -- Not a section of `AppendEntries`.
  abbrev pub NoAppend : {rf rf' : Raft C} → Inner gob rf rf' → Type 0
  NoAppend (on_append_entries args e) = ⊥
  NoAppend _ = Unit

  abbrev pub NoMessage : {n : ℕ} {k l : Cluster C} → Step gob n k l → Type 0
  NoMessage (on_inner i inner) = NoAppend inner
  NoMessage _ = Unit

  pub data NetStep (n : ℕ) : Network C → Network C → Type 0 where
    -- `broadcastHeartbeat` of leader `i`, for peer `s`.
    on_broadcast :
        {m : Network C} {args : AppendEntriesArgs C} (i s : ℕ)
        → heartbeat_args s (m.cluster.peers i) ≡ ok (some args)
        → NetStep n m (record m { made = (s, args) ∷ m.made })
    -- `sendAppendEntries` up to the call: it finds the entries `es` in the slice.
    on_copy :
        {m : Network C} (s : ℕ) (args : AppendEntriesArgs C) (es : List (Entry C))
        → Memᴰ (s, args) m.made
        → NetStep n m (record m { sent = (s, copy_args args es) ∷ m.sent })
    on_deliver :
        {m : Network C} {rf' : Raft C} {reply : AppendEntriesResults} (s : ℕ)
        (args : AppendEntriesArgs C)
        → Memᴰ (s, args) m.sent
        → append_entries gob args (m.cluster.peers s) ≡ ok (rf', reply)
        → NetStep n m
            (record m { cluster = record m.cluster { peers = update m.cluster.peers s rf' } })
    on_other :
        {m : Network C} {l : Cluster C} (st : Step gob n m.cluster l)
        → NoMessage st
        → NetStep n m (record m { cluster = l })

  pub data NetRun (n : ℕ) (m : Network C) : Network C → Type 0 where
    start_quiet : NetRun n m m
    more : {m1 m2 : Network C} → NetRun n m m1 → NetStep n m1 m2 → NetRun n m m2

  -- Each copy has the entries that the slice had when the arguments were made, and each candidacy
  -- reads its arguments while its peer is still in the term of the candidacy.
  abbrev pub IsTimely : {n : ℕ} {m m' : Network C} → NetStep n m m' → Type 0
  IsTimely (on_copy s args es at) = es ≡ args.entries
  IsTimely (on_other st calm) = IsPrompt gob st
  IsTimely _ = Unit

  abbrev pub AllTimely : {n : ℕ} {m m' : Network C} → NetRun n m m' → Type 0
  AllTimely start_quiet = Unit
  AllTimely (more r st) = AllTimely r × IsTimely st

  unfoldable pub quiet_network : ℕ → Network C
  quiet_network n = record { cluster = initial gob n; made = []; sent = [] }

  -- The cluster of a network runs as one with arbitrary messages.
  unfoldable pub NetRun-Run :
      (n : ℕ) (m : Network C) → NetRun n (quiet_network n) m → Run gob n (initial gob n) m.cluster
  unfolding quiet_network
  NetRun-Run n _ start_quiet = here
  NetRun-Run n _ (more {m1} r (on_broadcast i s e)) = NetRun-Run n m1 r
  NetRun-Run n _ (more {m1} r (on_copy s args es at)) = NetRun-Run n m1 r
  NetRun-Run n _ (more {m1} r (on_deliver {rf' = rf'} s args sent e)) =
      next (NetRun-Run n m1 r) (on_inner s (on_append_entries args e))
  NetRun-Run n _ (more {m1} r (on_other st calm)) = next (NetRun-Run n m1 r) st

  pub NetRun-AllPrompt :
      (n : ℕ) (m : Network C) (r : NetRun n (quiet_network n) m)
      → AllTimely r
      → AllPrompt gob (NetRun-Run n m r)
  unfolding quiet_network NetRun-Run
  NetRun-AllPrompt n _ start_quiet timely = tt
  NetRun-AllPrompt n _ (more {m1} r (on_broadcast i s e)) (timely, now) =
      NetRun-AllPrompt n m1 r timely
  NetRun-AllPrompt n _ (more {m1} r (on_copy s args es at)) (timely, now) =
      NetRun-AllPrompt n m1 r timely
  NetRun-AllPrompt n _ (more {m1} r (on_deliver s args sent e)) (timely, now) =
      (NetRun-AllPrompt n m1 r timely, tt)
  NetRun-AllPrompt n _ (more {m1} r (on_other st calm)) (timely, now) =
      (NetRun-AllPrompt n m1 r timely, now)
