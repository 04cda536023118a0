-- ===== src/Lab0/Tests.antt =====
-- lab0: the theorems at concrete queues, semaphores and channels.
use cpsc.Common.{◌≡◌, refl, none, [], ◌∷◌}
use cpsc.Lab0.Semaphore.{
  swapping, cancelled, Semaphore, new_semaphore, post_add, call_wait, wait_step, act, act_at,
  post_send, none_parked, Run, here, next, on_add, on_call, on_send, on_wait,
}
use cpsc.Lab0.Semaphore.Count.{IsBalanced, Run-IsBalanced}
use cpsc.Lab0.Semaphore.Lost.{both_selecting, one_asleep, post-lost}
use cpsc.Common.{false, some, List, ℕ}
use cpsc.Common.Outcome.{ok}
use cpsc.Common.{true}
use cpsc.Lab0.Merge
use cpsc.Lab0.Merge.{Merger, merge_channels, read_from, finished, on_a, on_b, on_close}
use cpsc.Lab0.Merge.Laws.{Interleaved, Run-Interleaved}
use cpsc.Lab0.Queue.{new_queue}
use cpsc.Lab0.Queue.Fifo.{Call, on_push, on_pop, calls, calls-in_order}

-- A call of `Post`, and one of `Wait` that has loaded.
abbrev busy : Semaphore
busy = record { available = 1; signal = 1; sending = 0; posts = 1; waits = swapping 0 ∷ [] }

Run-IsBalanced_example : IsBalanced busy
unfolding new_semaphore post_add post_send none_parked call_wait wait_step act act_at
Run-IsBalanced_example =
    Run-IsBalanced busy
      (next on_add (next (on_send 0 refl) (next on_call (next (on_wait false 0 refl) here))))

post-lost_example :
    Run (both_selecting 0 (cancelled ∷ [])) (one_asleep 2 (cancelled ∷ []))
    × (wait_step false 1 (one_asleep 2 (cancelled ∷ [])) ≡ none)
unfolding none_parked
post-lost_example = post-lost 0 (cancelled ∷ []) refl

abbrev script : List (Call ℕ)
script = on_push 5 ∷ on_push 6 ∷ on_pop ∷ on_pop ∷ on_pop ∷ []

calls-in_order_example : calls script new_queue ≡ ok (some 5 ∷ some 6 ∷ none ∷ [])
calls-in_order_example = calls-in_order script

-- The channels have the values 1 and 2, of which the second is written first.
abbrev merged : Merger ℕ
merged = record {
  a = record { input = []; phase = finished };
  b = record { input = []; phase = finished };
  out = 2 ∷ 1 ∷ [];
  closed = true;
}

Run-Interleaved_example : Interleaved {T = ℕ} (1 ∷ []) (2 ∷ []) (2 ∷ 1 ∷ [])
unfolding merge_channels read_from
Run-Interleaved_example =
    Run-Interleaved (1 ∷ []) (2 ∷ []) merged
      (Merge.next (on_a refl) (
        Merge.next (on_b refl) (
          Merge.next (on_b refl) (
            Merge.next (on_a refl) (
              Merge.next (on_a refl)
                (Merge.next (on_b refl) (Merge.next (on_close refl refl refl) Merge.here)))))))
      refl

abbrev half_merged : Merger ℕ
half_merged = record merged { closed = false }
