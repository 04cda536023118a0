-- ===== src/Raft/Network/LogMatching.antt =====
-- lab3/raft: in a network of peers, the logs of any two match.
use cpsc.Common.{
  ℕ, zero, suc, ◌+◌, ◌<◌, ◌≡◌, refl, ap, sym, subst, ◌∙◌, List, none, some, [], ◌∷◌, arith,
  get_elem?, take,
}
use mathlib.Core.List.{Memᴰ}
use cpsc.Raft.State.{Entry, AppendEntriesArgs}
use cpsc.Raft.Persist.{Gob, persist, read_persist}
use cpsc.Raft.Append.Terms.{append_entries-Keeps}
use cpsc.Raft.Ticker.{make, blank}
use cpsc.Raft.Cluster.{initial}
use cpsc.Raft.Cluster.Invariant.{IsCounted}
use cpsc.Raft.Cluster.Election.{Run-IsCounted}
use cpsc.Raft.Network.{
  Network, NetStep, on_broadcast, on_copy, on_deliver, on_other, NetRun, start_quiet, more,
  quiet_network, NetRun-Run, NetRun-AllPrompt, IsTimely, AllTimely, Message,
}
use cpsc.Raft.Network.Books.{IsGood-Matches, sentinel}
use cpsc.Raft.Network.Steps.{send-IsBooked, section-Leads, deliver-IsBooked}
use cpsc.Raft.Network.Sound.{HasBooks, Step-HasBooks}

-- Each message that was sent is one that was made.
abbrev AllMade : {C : Type 0} → Network C → Type 0
AllMade {C} m = (msg : Message C) → Memᴰ msg m.sent → Memᴰ msg m.made

module _ {C : Type 0} (gob : Gob C) (n : ℕ) where
  copy-Memᴰ :
      (msg : Message C) (s : ℕ) (args : AppendEntriesArgs C) (es : List (Entry C))
      (made sent : List (Message C))
      → es ≡ args.entries
      → Memᴰ (s, args) made
      → Memᴰ msg ((s, record args { entries = es }) ∷ sent)
      → (Memᴰ msg sent → Memᴰ msg made)
      → Memᴰ msg made
  copy-Memᴰ msg s args es made sent fresh at (Memᴰ.head e) old =
      subst (λ x. Memᴰ x made) (ap (λ xs. (s, record args { entries = xs })) (sym fresh) ∙ sym e) at
  copy-Memᴰ msg s args es made sent fresh at (Memᴰ.tail e) old = old e

  NetStep-AllMade :
      (m m' : Network C) (st : NetStep gob n m m') → IsTimely gob st → AllMade m → AllMade m'
  NetStep-AllMade m _ (on_broadcast i s e) fresh all = λ msg at. Memᴰ.tail (all msg at)
  NetStep-AllMade m _ (on_copy s args es at) fresh all =
      λ msg sent. copy-Memᴰ msg s args es m.made m.sent fresh at sent (all msg)
  NetStep-AllMade m _ (on_deliver s args at e) fresh all = all
  NetStep-AllMade m _ (on_other st calm) fresh all = all

  NetStep-HasBooks :
      (m m' : Network C)
      → NetStep gob n m m'
      → IsCounted n m.cluster
      → IsCounted n m'.cluster
      → AllMade m
      → HasBooks n m.cluster m.made
      → HasBooks n m'.cluster m'.made
  NetStep-HasBooks m _ (on_broadcast {args = args} i s e) counted after sent (bk, inv, leads) =
      (bk, send-IsBooked gob n bk m.cluster m.made i s args e counted inv leads, leads)
  NetStep-HasBooks m _ (on_copy s args es at) counted after sent books = books
  NetStep-HasBooks m _ (on_deliver {rf' = rf'} {reply = reply} s args at e) counted after sent
        (bk, inv, leads) =
      let k = m.cluster in
      let (_, mild) = append_entries-Keeps gob args (k.peers s) rf' reply e in
      (
        bk,
        deliver-IsBooked gob n bk k m.made s args rf' reply (sent (s, args) at) e inv,
        section-Leads gob n bk k m.made s rf' k.votes k.calls mild.3 leads,
      )
  NetStep-HasBooks m _ (on_other {l = l} st calm) counted after sent books =
      Step-HasBooks gob n m.cluster l m.made st calm counted after books

  initial-HasBooks : HasBooks n (initial gob n) []
  unfolding initial make read_persist blank persist
  initial-HasBooks = (
    λ t. none,
    record {
      good = λ i. record {
        numbered = (refl, tt);
        first = refl;
        traced = λ p e pos at. absurd (only_first p e pos at);
      };
      messages = λ msg at. elim at [ ];
      own = λ i b known. absurd cc;
      past = λ t o b known. absurd cc;
      elected = λ t o b known. absurd cc;
    },
    λ i lead. absurd cc,
  )
    where
      only_first : (p : ℕ) (e : Entry C) → 0 < p → get_elem? (sentinel ∷ []) p ≡ some e → ⊥
      only_first zero e pos at = omega arith
      only_first (suc p) e pos at = cc

  counted :
      (m : Network C) (r : NetRun gob n (quiet_network gob n) m)
      → AllTimely gob r
      → IsCounted n m.cluster
  counted m r timely =
      Run-IsCounted gob n m.cluster (NetRun-Run gob n m r) (NetRun-AllPrompt gob n m r timely)

  NetRun-HasBooks :
      (m : Network C) (r : NetRun gob n (quiet_network gob n) m)
      → AllTimely gob r
      → AllMade m × HasBooks n m.cluster m.made
  unfolding quiet_network
  NetRun-HasBooks _ start_quiet fresh = (λ msg at. elim at [ ], initial-HasBooks)
  NetRun-HasBooks m (more {m1} r st) (fresh, last) =
      let (all, books) = NetRun-HasBooks m1 r fresh in
      (
        NetStep-AllMade m1 m st last all,
        NetStep-HasBooks m1 m st (counted m1 r fresh) (counted m (more r st) (fresh, last)) all
            books,
      )

  -- Log matching. In a cluster of peers that `Make` has made with nothing saved, where the sections
  -- of all peers interleave, the calls of RequestVote are delivered once at most, and no peer
  -- restarts; the messages of AppendEntries may be delivered late, repeatedly, out of order or never,
  -- and their replies are arbitrary. Where each candidacy reads its arguments while its peer is still
  -- in the term of the candidacy, and each copy that `sendAppendEntries` makes has the entries that
  -- the log had when `broadcastHeartbeat` took the slice: if two peers have entries of one term at
  -- one position, their logs are the same up to that position.
  pub NetRun-log_matching :
      (m : Network C) (i j p : ℕ) (e f : Entry C) (r : NetRun gob n (quiet_network gob n) m)
      → AllTimely gob r
      → get_elem? (m.cluster.peers i).log p ≡ some e
      → get_elem? (m.cluster.peers j).log p ≡ some f
      → e.term ≡ f.term
      → take (p + 1) (m.cluster.peers i).log ≡ take (p + 1) (m.cluster.peers j).log
  NetRun-log_matching m i j p e f r fresh =
      let (_, books) = NetRun-HasBooks m r fresh in
      let (bk, inv, _) = books in
      IsGood-Matches bk (m.cluster.peers i).log (m.cluster.peers j).log (inv.good i) (inv.good j) p
        e f
