-- ===== src/Raft/Cluster/Sections.antt =====
-- lab3/raft/raft.go: what the sections that cast no ballot and count none do to a peer.
use cpsc.Common.{refl, inr, arith}
use cpsc.Raft.State.{candidate, Raft}
use cpsc.Raft.Persist.{Gob, persist}
use cpsc.Raft.Terms.{Keeps, Alike-Keeps, persist-Alike}
use cpsc.Raft.Append.Terms.{append_entries-Keeps, apply_committed-Alike}
use cpsc.Raft.Replicate.Terms.{start-Alike, append_reply-Keeps}
use cpsc.Raft.Ticker.{
  follower_timeout, follower_heartbeat, candidate_win, candidate_timeout, candidate_heartbeat,
  leader_round, kill,
}
use cpsc.Raft.Cluster.{
  Inner, on_append_entries, on_append_reply, on_start, on_apply, on_kill, on_follower_timeout,
  on_follower_heartbeat, on_candidate_win, on_candidate_timeout, on_candidate_heartbeat,
  on_leader_round,
}

pub Inner-Keeps : {C : Type 0} (gob : Gob C) (rf rf' : Raft C) → Inner gob rf rf' → Keeps rf rf'
unfolding kill follower_timeout follower_heartbeat candidate_win candidate_timeout
    candidate_heartbeat leader_round
Inner-Keeps gob rf rf' (on_append_entries {reply} args e) =
    append_entries-Keeps gob args rf rf' reply e
Inner-Keeps gob rf rf' (on_append_reply server args reply e) =
    append_reply-Keeps gob server args reply rf rf' e
Inner-Keeps gob rf rf' (on_start command result e) =
    Alike-Keeps rf rf' (start-Alike gob command rf rf' result e)
Inner-Keeps gob rf rf' (on_apply e) = Alike-Keeps rf rf' (apply_committed-Alike rf rf' e)
Inner-Keeps gob rf _ on_kill = Alike-Keeps rf (kill rf) (refl, refl, refl, refl, refl, refl)
Inner-Keeps gob rf _ on_follower_timeout =
    ground (arith, persist-Alike gob (record rf { state = candidate }))
Inner-Keeps gob rf _ on_follower_heartbeat =
    Alike-Keeps rf (follower_heartbeat rf) (refl, refl, refl, refl, refl, refl)
Inner-Keeps gob rf _ on_candidate_win =
    Alike-Keeps rf (candidate_win rf) (refl, refl, refl, refl, refl, refl)
Inner-Keeps gob rf _ on_candidate_timeout = (inr (refl, refl), (refl, refl, refl, λ h. cc))
Inner-Keeps gob rf _ on_candidate_heartbeat = (inr (refl, refl), (refl, refl, refl, λ h. cc))
Inner-Keeps gob rf _ on_leader_round = Alike-Keeps rf (persist gob rf) (persist-Alike gob rf)
