-- ===== src/Raft/Tests/Network.antt =====
-- lab3/raft: a leader that sends an entry to another peer of its cluster.
use cpsc.Common.{ℕ, ◌≡◌, refl, ap, none, some, [], ◌∷◌, arith, get_elem?, take}
use mathlib.Core.List.{Memᴰ}
use cpsc.Raft.State.{Entry, AppendEntriesArgs}
use cpsc.Raft.Log.{last_entry, first_entry, entry_at}
use cpsc.Raft.Persist.{persist, read_persist}
use cpsc.Raft.Vote.{
  may_vote, fill, up_to_date, answer, request_vote, win, vote_reply, newer, signal_heartbeat,
}
use cpsc.Raft.Append.{append_entries, merge, accept, replace_tail, slice_to, save}
use cpsc.Raft.Replicate.{start, heartbeat_args, slice_from}
use cpsc.Raft.Ticker.{follower_timeout, candidate_start, vote_args, make}
use cpsc.Raft.Cluster.{
  initial, on_inner, on_start, on_follower_timeout, on_candidacy, on_ask, on_request, on_reply,
}
use cpsc.Raft.Network.{
  Network, quiet_network, NetRun, AllTimely, start_quiet, more, on_broadcast, on_copy, on_deliver,
  on_other,
}
use cpsc.Raft.Network.LogMatching.{NetRun-log_matching}
use cpsc.Raft.Tests.Plain.{plain}
use cpsc.Raft.Tests.Election.{vote_request, granted}

abbrev sentinel : Entry ℕ
sentinel = record { term = 0; command = none; index = 0 }

abbrev entry : Entry ℕ
entry = record { term = 1; command = some 7; index = 1 }

abbrev message : AppendEntriesArgs ℕ
message = record {
  term = 1;
  leader_id = 0;
  prev_log_idx = 0;
  prev_log_term = 0;
  entries = entry ∷ [];
  leader_commit = 0;
}

-- Peer 0 is elected with the vote of peer 1, starts a command and sends it to peer 1.
abbrev replication :
    (m : Network ℕ) × (r : NetRun plain 3 (quiet_network plain 3) m) × AllTimely plain r
    × ((m.cluster.peers 0).log ≡ sentinel ∷ entry ∷ [])
    × ((m.cluster.peers 1).log ≡ sentinel ∷ entry ∷ [])
unfolding quiet_network initial make read_persist persist follower_timeout candidate_start vote_args
    request_vote vote_reply last_entry first_entry entry_at answer up_to_date may_vote win fill
    start heartbeat_args slice_from append_entries merge accept replace_tail slice_to save newer
    signal_heartbeat
replication = (
  _,
  more
      (more
        (more
          (more
            (more
              (more
                (more
                  (more (more start_quiet (on_other (on_inner 0 on_follower_timeout) tt))
                    (on_other (on_candidacy 0 (omega arith) refl) tt))
                  (on_other (on_ask {args = vote_request} 0 1 refl refl) tt))
                (on_other (on_request {args = vote_request} {reply = granted} 0 1 1 refl refl) tt))
              (on_other (on_reply {args = vote_request} {reply = granted} 0 1 1 refl refl) tt))
            (on_other (on_inner 0 (on_start 7 (some (1, 1)) refl)) tt))
          (on_broadcast {args = message} 0 1 refl))
        (on_copy 1 message (entry ∷ []) (Memᴰ.head refl)))
      (on_deliver 1 message (Memᴰ.head refl) refl),
  (((((((((tt, tt), tt), refl), tt), tt), tt), tt), refl), tt),
  refl,
  refl,
)

NetRun-log_matching_example :
    take 2 (replication.0.cluster.peers 0).log ≡ take 2 (replication.0.cluster.peers 1).log
NetRun-log_matching_example =
    NetRun-log_matching plain 3 replication.0 0 1 1 entry entry replication.1 replication.2
      (ap (λ l. get_elem? l 1) replication.3) (ap (λ l. get_elem? l 1) replication.4) refl
