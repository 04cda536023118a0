-- ===== src/Raft/Replicate/Start.antt =====
-- lab3/raft/raft.go, `Start`: the service hands a command to a peer.
use cpsc.Common.{
  ℕ, ◌<◌, ◌≡◌, ◌↔◌, refl, sym, subst, true, false, none, some, Option, [], ◌∷◌, ◌++◌, arith, length,
  Bool-cases, inl, inr,
}
use cpsc.Common.Outcome.{ok}
use cpsc.Raft.State.{Entry, Raft}
use cpsc.Raft.Log.{IsLog}
use cpsc.Raft.Log.Laws.{IsLog-last, IsLog-append}
use cpsc.Raft.Persist.{Gob, persist}
use cpsc.Raft.Terms.{persist_same}
use cpsc.Raft.Replicate.{start, is_leader, get_state}

module _ {C : Type 0} (gob : Gob C) (command : C) (rf : Raft C) where
  -- What `Start` promises: the index after the last entry and the current term, at a leader; and
  -- nothing, with the state as it was, at any other peer.
  pub record Started (rf' : Raft C) (result : Option (ℕ × ℕ)) : Type 0 where
    pub leads :
        (result ≡ some (length rf.log, rf.current_term)) ↔ (get_state rf ≡ (rf.current_term, true))
    pub refuses : get_state rf ≡ (rf.current_term, false) → (result ≡ none) × (rf' ≡ rf)
    pub appends :
        get_state rf ≡ (rf.current_term, true)
        → rf'
          ≡ persist gob (record rf {
            log =
                rf.log
                ++ record { term = rf.current_term; command = some command; index = length rf.log }
                  ∷ [];
          })
    pub is_log : IsLog rf'.log
    pub term : rf'.current_term ≡ rf.current_term

  -- On a log without gaps and after term 0 `Start` returns on every peer. At a leader, and nowhere
  -- else, it returns the current term with the index at which the command stands in the log: the
  -- command is appended, the new state is saved, and nothing else changes. At any other peer it
  -- returns none and nothing changes. The log has no gap.
  pub start_lem :
      IsLog rf.log
      → 0 < rf.current_term
      → (rf' : Raft C) × (result : Option (ℕ × ℕ)) × (start gob command rf ≡ ok (rf', result))
        × Started rf' result
  unfolding start get_state
  start_lem l pos = elim (Bool-cases (is_leader rf.state)) [
    | inr other ↦ (
      rf,
      none,
      rw other,
      record {
        leads = (λ h. cc, λ h. ground arith);
        refuses = λ _. (refl, refl);
        appends = λ h. absurd cc;
        is_log = l;
        term = refl;
      },
    )
    | inl leads ↦
        let (last, at, ix, _) = IsLog-last rf.log l in
        let e : Entry C = record {
          term = rf.current_term;
          command = some command;
          index = length rf.log;
        } in
        let (t, _, kept) = persist_same gob (record rf { log = rf.log ++ (e ∷ []) }) in
        (
          persist gob (record rf { log = rf.log ++ (e ∷ []) }),
          some (length rf.log, rf.current_term),
          rw leads (rw (at, ix)),
          record {
            leads = (λ _. rw leads, λ _. refl);
            refuses = λ h. absurd cc;
            appends = λ _. refl;
            is_log = subst IsLog (sym kept) (IsLog-append rf.log (e ∷ []) l (refl, tt) (pos, tt));
            term = t;
          },
        )
  ]
