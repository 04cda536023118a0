-- ===== src/Lab0/FetchTests.antt =====
-- lab0: the theorems at concrete contexts, fetchers and weighted semaphores.
use cpsc.Common.{
  ℕ, zero, suc, ◌+◌, ◌≤◌, ◌<◌, ◌≡◌, ◌⊎◌, refl, Bool, true, false, Option, none, some, List, [], ◌∷◌,
  ◌++◌, arith, tests, ltb, if◌then◌else◌, Bool-cases, inl, inr,
}
use cpsc.Lab0.Merge
use cpsc.Lab0.Merge.{Phase, finished, merge_channels}
use cpsc.Lab0.Merge.Laws.{Interleaved}
use cpsc.Lab0.Cancel
use cpsc.Lab0.Cancel.{merge_channels_or_cancel}
use cpsc.Lab0.Cancel.Laws.{Run-returned}
use cpsc.Lab0.Fetches
use cpsc.Lab0.Fetches.{Fetch, merge_fetches, fetch_from}
use cpsc.Lab0.Fetches.Laws.{ends, gives, merge_fetches-merge_channels}
use cpsc.Lab0.Fetcher
use cpsc.Lab0.Fetcher.{
  Weighted, ParallelFetcher, new_parallel_fetcher, act, act_at, fetching, acquiring, on_call,
  on_act,
}
use cpsc.Lab0.Fetcher.Limit.{Run-limit, count_fetching, count_panicked}
use cpsc.Lab0.Fetcher.Ends.{fetch-ends, all_ranks}
use cpsc.Lab0.Fetcher.Again.{fetch-again}

-- The channels have the values 1 and 2; the context ends once the first one is received.
abbrev cancelled : Cancel.Merger ℕ ℕ
cancelled = record {
  a = record { input = []; phase = Cancel.finished };
  b = record { input = 2 ∷ []; phase = Cancel.finished };
  out = 1 ∷ [];
  closed = true;
  done = true;
  returned = some (some 7);
}

abbrev cancelled_run : Cancel.Run 7 (merge_channels_or_cancel 7 false (1 ∷ []) (2 ∷ [])) cancelled
unfolding merge_channels_or_cancel Cancel.read_from
cancelled_run =
    let received =
      Cancel.next (Cancel.next Cancel.here (Cancel.on_a false true refl))
        (Cancel.on_a false true refl) in
    let stopped = Cancel.next received (Cancel.on_cancel refl) in
    let written =
      Cancel.next (Cancel.next stopped (Cancel.on_a false true refl))
        (Cancel.on_a true true refl) in
    Cancel.next
      (Cancel.next (Cancel.next written (Cancel.on_b true true refl))
        (Cancel.on_close refl refl refl))
      (Cancel.on_return refl refl)

Run-returned_example :
    (read_a read_b : List ℕ) × ◌≡◌ {A = List ℕ} (1 ∷ []) (read_a ++ [])
    × ◌≡◌ {A = List ℕ} (2 ∷ []) (read_b ++ (2 ∷ []))
    × Interleaved read_a read_b cancelled.out
    × (cancelled.closed ≡ true)
    × (((◌≡◌ {A = Option ℕ} (some 7) (some 7)) × (cancelled.done ≡ true))
        ⊎ ((◌≡◌ {A = Option ℕ} (some 7) none)
            × (cancelled.a.input ≡ [])
            × (cancelled.b.input ≡ [])))
Run-returned_example = Run-returned 7 false (1 ∷ []) (2 ∷ []) cancelled (some 7) cancelled_run refl

-- A fetcher that has the data that are left.
abbrev take_first : Fetch (List ℕ) ℕ
take_first [] = none
take_first (v ∷ vs) = some (v, vs)

abbrev fetched_one : Fetches.Merger (List ℕ) ℕ
fetched_one = record {
  a = record { source = []; phase = finished };
  b = record { source = []; phase = finished };
  out = 5 ∷ [];
  closed = true;
}

abbrev fetched_run : Fetches.Run take_first take_first (merge_fetches (5 ∷ []) []) fetched_one
unfolding merge_fetches fetch_from
fetched_run = Fetches.next (Fetches.on_a refl) (
    Fetches.next (Fetches.on_b refl) (
      Fetches.next (Fetches.on_a refl) (
        Fetches.next (Fetches.on_a refl)
          (Fetches.next (Fetches.on_close refl refl refl) Fetches.here))))

merge_fetches-merge_channels_example :
    ((n : Merge.Merger ℕ) × Merge.Run (merge_channels (5 ∷ []) []) n
      × (fetched_one.out ≡ n.out)
      × (fetched_one.closed ≡ n.closed))
    × (fetched_one.closed ≡ true → Interleaved {T = ℕ} (5 ∷ []) [] fetched_one.out)
merge_fetches-merge_channels_example =
    merge_fetches-merge_channels take_first take_first (5 ∷ []) [] (5 ∷ []) [] fetched_one
      (gives refl (ends refl)) (ends refl) fetched_run

-- A weighted semaphore as its size and the number of units that are held.
abbrev take_unit : ℕ × ℕ → Option (ℕ × ℕ)
take_unit s = if ltb s.1 s.0 then some (s.0, s.1 + 1) else none

abbrev give_unit : ℕ × ℕ → Option (ℕ × ℕ)
give_unit (n, zero) = none
give_unit (n, suc h) = some (n, h)

take_unit-some :
    (s s' : ℕ × ℕ) → take_unit s ≡ some s' → (s'.1 ≡ s.1 + 1) × (s'.0 ≡ s.0) × (s.1 < s.0)
take_unit-some (n, h) (n', h') e = elim (Bool-cases (ltb h n)) [
  | inl free ↦ (let moved = rw free at e in (ground arith, ground arith, omega tests))
  | inr full ↦ (let none_here = rw full at e in cc)
]

take_unit-none : (s : ℕ × ℕ) → take_unit s ≡ none → s.0 ≤ s.1
take_unit-none (n, h) e = elim (Bool-cases (ltb h n)) [
  | inl free ↦ (let some_here = rw free at e in cc)
  | inr full ↦ omega tests
]

give_unit-some : (s s' : ℕ × ℕ) → give_unit s ≡ some s' → (s.1 ≡ s'.1 + 1) × (s'.0 ≡ s.0)
give_unit-some (n, zero) s' e = cc
give_unit-some (n, suc h) (n', h') e = ground arith

give_unit-none : (s : ℕ × ℕ) → give_unit s ≡ none → s.1 ≡ 0
give_unit-none (n, zero) e = refl
give_unit-none (n, suc h) e = cc

abbrev counting : Weighted (ℕ × ℕ)
counting = record {
  new_weighted = λ n. (n, 0);
  acquire = take_unit;
  release = give_unit;
  size = λ s. s.0;
  held = λ s. s.1;
  new_size = λ n. refl;
  new_held = λ n. refl;
  acquire_some = take_unit-some;
  acquire_none = take_unit-none;
  release_some = give_unit-some;
  release_none = give_unit-none;
}

-- A limit of one: one call is in the underlying `Fetch`, and one waits.
abbrev one_waiting : ParallelFetcher (ℕ × ℕ) ℕ
one_waiting = record { sema = (1, 1); call_again = true; clients = acquiring ∷ fetching ∷ [] }

abbrev one_waiting_run : Fetcher.Run counting (new_parallel_fetcher counting 1) one_waiting
unfolding new_parallel_fetcher act act_at
one_waiting_run =
    Fetcher.next
      (Fetcher.next
        (Fetcher.next (Fetcher.next (Fetcher.next Fetcher.here on_call) on_call)
          (on_act none 1 refl))
        (on_act none 0 refl))
      (on_act none 1 refl)

Run-limit_example :
    (count_fetching one_waiting.clients ≤ 1) × (count_panicked one_waiting.clients ≡ 0)
Run-limit_example = Run-limit counting 1 one_waiting one_waiting_run

fetch-ends_example :
    (0 < all_ranks one_waiting.clients
      → (i : ℕ) × (n : List (Fetcher.Phase ℕ) × Bool × (ℕ × ℕ)) × (act_at counting
            (some 8)
            i
            one_waiting.clients
            true
            (1, 1)
          ≡ some n))
    × ((i : ℕ) (ps : List (Fetcher.Phase ℕ)) (again : Bool) (s : ℕ × ℕ)
        → act_at counting (some 8) i one_waiting.clients true (1, 1) ≡ some (ps, again, s)
        → all_ranks ps < all_ranks one_waiting.clients)
fetch-ends_example = fetch-ends counting 1 one_waiting (some 8) one_waiting_run

fetch-again_example :
    (pf : ParallelFetcher (ℕ × ℕ) ℕ) × Fetcher.Run counting (new_parallel_fetcher counting 1) pf
    × (pf.call_again ≡ false)
    × (pf.clients ≡ Fetcher.returned none ∷ fetching ∷ [])
fetch-again_example = fetch-again counting
