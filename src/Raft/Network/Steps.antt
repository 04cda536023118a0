-- ===== src/Raft/Network/Steps.antt =====
-- lab3/raft: each step of a network keeps the books.
use cpsc.Common.{
  ℕ, ◌≤◌, ◌≡◌, refl, ap, sym, ◌∙◌, subst, inl, inr, some, List, ◌∷◌, arith, if◌then◌else◌,
}
use cpsc.Common.Outcome.{ok}
use mathlib.Core.List.{Memᴰ}
use cpsc.Raft.State.{leader, Entry, Raft, AppendEntriesArgs, AppendEntriesResults}
use cpsc.Raft.Persist.{Gob}
use cpsc.Raft.Append.{append_entries}
use cpsc.Raft.Append.Terms.{append_entries-Keeps}
use cpsc.Raft.Replicate.{heartbeat_args}
use cpsc.Raft.Replicate.Slice.{heartbeat_args-IsSliceOf}
use cpsc.Raft.Replicate.NewLog.{heartbeat_args-leader}
use cpsc.Raft.Matching.{slice-copies}
use cpsc.Raft.Cluster.{Cluster, update}
use cpsc.Raft.Cluster.Index.{by_index}
use cpsc.Raft.Cluster.Invariant.{PeerOk, IsCounted}
use cpsc.Raft.Network.{Message}
use cpsc.Raft.Network.Books.{Books, IsGood, IsGood-Matches}
use cpsc.Raft.Network.Booked.{IsSent, IsBooked, Leads, IsQuiet, IsQuiet-IsBooked}

module _ {C : Type 0} (gob : Gob C) (n : ℕ) (bk : Books C) (k : Cluster C)
    (sent : List (Message C)) where
  -- A leader sends a message.
  pub send-IsBooked :
      (i s : ℕ) (args : AppendEntriesArgs C)
      → heartbeat_args s (k.peers i) ≡ ok (some args)
      → IsCounted n k
      → IsBooked n bk k sent
      → Leads bk k
      → IsBooked n bk k ((s, args) ∷ sent)
  send-IsBooked i s args e counted inv leads =
      let rf = k.peers i in
      let numbered = IsGood.numbered (inv.good i) in
      let (lead, other, term) = heartbeat_args-leader gob s rf args numbered e in
      let (b, known) = leads i lead in
      let made : IsSent bk (s, args) = record {
        source = rf.log;
        good = inv.good i;
        slice = heartbeat_args-IsSliceOf s rf args numbered e;
        owner = i;
        book = b;
        known = ap bk term ∙ known;
        other = λ same. other (same ∙ sym (PeerOk.me (counted.peer i)));
      } in
      record {
        good = inv.good;
        messages = one_more made;
        own = inv.own;
        past = inv.past;
        elected = inv.elected;
      }
    where
      one_more :
          IsSent bk (s, args) → (msg : Message C) → Memᴰ msg ((s, args) ∷ sent) → IsSent bk msg
      one_more made msg (Memᴰ.head e) = subst (IsSent bk) (sym e) made
      one_more made msg (Memᴰ.tail m) = inv.messages msg m

  -- A section of peer `i` that leaves its log.
  pub section-IsQuiet :
      (i : ℕ) (rf' : Raft C)
      → rf'.log ≡ (k.peers i).log
      → (k.peers i).current_term ≤ rf'.current_term
      → IsQuiet n k (record k { peers = update k.peers i rf' })
  section-IsQuiet i rf' log term = record {
    log = by_index (λ j b. (if b then rf' else k.peers j).log ≡ (k.peers j).log) i log (λ j. refl);
    term =
        by_index (λ j b. (k.peers j).current_term ≤ (if b then rf' else k.peers j).current_term) i
          term (λ j. omega arith);
    votes = λ j v m. m;
    calls = λ j t le. omega arith;
  }

  -- A section of peer `i` that makes no leader.
  pub section-Leads :
      (i : ℕ) (rf' : Raft C) (votes : _) (calls : _)
      → (rf'.state ≡ leader
          → ((k.peers i).state ≡ leader) × (rf'.current_term ≡ (k.peers i).current_term))
      → Leads bk k
      → Leads bk (record k { peers = update k.peers i rf'; votes = votes; calls = calls })
  section-Leads i rf' votes calls mild leads =
      by_index
        (λ j b.
          (if b then rf' else k.peers j).state ≡ leader
          → (x : List (Entry C)) × (bk (if b then rf' else k.peers j).current_term ≡ some (j, x)))
        i
        (λ lead.
          let (was, same) = mild lead in let (x, known) = leads i was in (x, ap bk same ∙ known))
        leads

  -- A peer handles a message.
  pub deliver-IsBooked :
      (s : ℕ) (args : AppendEntriesArgs C) (rf' : Raft C) (reply : AppendEntriesResults)
      → Memᴰ (s, args) sent
      → append_entries gob args (k.peers s) ≡ ok (rf', reply)
      → IsBooked n bk k sent
      → IsBooked n bk (record k { peers = update k.peers s rf' }) sent
  deliver-IsBooked s args rf' reply m e inv =
      let rf = k.peers s in
      let msg = inv.messages (s, args) m in
      let keeps = append_entries-Keeps gob args rf rf' reply e in
      let term : rf.current_term ≤ rf'.current_term = ground (arith, keeps) in
      elim (slice-copies gob args (IsSent.source msg) rf rf' reply (IsGood.numbered (inv.good s))
        (IsGood-Matches bk rf.log (IsSent.source msg) (inv.good s) (IsSent.good msg))
        (IsSent.slice msg) e) [
          | inl same ↦
              IsQuiet-IsBooked n bk k (record k { peers = update k.peers s rf' }) sent
                (section-IsQuiet s rf' same term) inv
          | inr (copied, now) ↦ record {
            good =
                by_index (λ j b. IsGood bk (if b then rf' else k.peers j).log) s
                  (subst (IsGood bk) (sym copied) (IsSent.good msg)) inv.good;
            messages = inv.messages;
            own =
                by_index
                  (λ j b.
                    (x : List (Entry C))
                    → bk (if b then rf' else k.peers j).current_term ≡ some (j, x)
                    → (if b then rf' else k.peers j).log ≡ x)
                  s
                  (λ x known.
                    let one : some (s, x) ≡ some (IsSent.owner msg, IsSent.book msg) =
                      sym known ∙ ap bk now ∙ IsSent.known msg in
                    absurd (IsSent.other msg cc))
                  inv.own;
            past = λ t o b known.
                by_index (λ j c. o ≡ j → t ≤ (if c then rf' else k.peers j).current_term) s
                  (λ is_s.
                    let before = inv.past t o b known in
                    omega (arith, before, term, ap (λ x. (k.peers x).current_term) is_s))
                  (λ j is_j. subst (λ x. t ≤ (k.peers x).current_term) is_j (inv.past t o b known))
                  o refl;
            elected = inv.elected;
          }
        ]
