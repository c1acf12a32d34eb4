-- ===== src/Examples/Slots.antt =====
-- Queues of requests at concrete inputs (src/pyhems/runtime.py).
use pyhems.Common.{ℕ_key, list_key, ◌≡◌, refl, true, some, List, [], ◌∷◌}
use pyhems.Client.RequestQueue.{
  set, setup, poll, pending, failed, NodeRequestQueue, acquire, release, set_future, pop_min,
}
use pyhems.Client.RequestQueue.Priority.{IsRelease, release-IsRelease}
use pyhems.Client.RequestQueue.Exclusion.{
  Slot, SlotEvent, acquires, releases, cancels, stops, step, IsExclusive, NoneFailed, free_slot,
  run_events, run_events-IsExclusive, cancel_failed,
}

-- Two polls and a write wait; the write came last.
abbrev busy_queue : NodeRequestQueue
busy_queue = record {
  busy = true;
  waiters =
      record { priority = 2; sequence = 0 }
      ∷ record { priority = 0; sequence = 2 }
      ∷ record { priority = 2; sequence = 1 }
      ∷ [];
  next_sequence = 3;
  futures = λ _. pending;
}

release_test : (release busy_queue).1 ≡ some 2
unfolding release
release_test = refl

release-IsRelease_example : IsRelease busy_queue (release busy_queue)
release-IsRelease_example = release-IsRelease busy_queue

-- A poll runs, a write waits and is woken, and is cancelled before it runs.
abbrev events : List SlotEvent
events = acquires poll ∷ acquires set ∷ releases ∷ cancels 0 ∷ acquires setup ∷ stops ∷ []

free_slot-IsExclusive : IsExclusive free_slot
free_slot-IsExclusive = record { one_holder = refl; nobody_waits = λ _. refl }

none_failed : NoneFailed free_slot events
unfolding step acquire release set_future pop_min
none_failed = (tt, (tt, (tt, (λ h. cc, (tt, (tt, tt))))))

run_events-IsExclusive_example : IsExclusive (run_events free_slot events)
run_events-IsExclusive_example =
    run_events-IsExclusive free_slot events none_failed free_slot-IsExclusive

-- The client was stopped while one task ran and another one waited.
abbrev stopped_slot : Slot
stopped_slot = record {
  queue = record { busy = true; waiters = []; next_sequence = 1; futures = λ _. failed };
  running = 1;
  handed = [];
}

cancel_failed_example : ¬ IsExclusive (step stopped_slot (cancels 0))
cancel_failed_example =
    cancel_failed stopped_slot 0 (record { one_holder = refl; nobody_waits = λ _. refl }) refl refl
