-- ===== src/Client/RequestQueue/Exclusion.antt =====
-- The tasks that hold the slot of a `_NodeRequestQueue` (src/pyhems/runtime.py).
use pyhems.Common.{
  ltb, ◌==◌, if◌then◌else◌, ltb→lt, Bool-cases, length, select, contains, contains-nil, ℕ_key,
  list_key, ℕ, ◌+◌, ◌-◌, ◌≤◌, ◌<◌, ◌≡◌, refl, sym, ◌∙◌, ◌≢◌, inl, inr, true, false, not, Option,
  none, some, List, [], ◌∷◌, arith,
}
use pyhems.Client.RequestQueue.{
  FutureState, pending, granted, failed, cancelled, NodeRequestQueue, RequestPriority, Admission,
  admitted, waiting, empty_queue, idle, acquire, release, cancel, fail_waiters,
}
use pyhems.Client.RequestQueue.Priority.{IsRelease, release-IsRelease}

-- The queue with the tasks that hold its slot: those that run with it, and those that were
-- woken by `release` and have not run since.
pub record Slot : Type 0 where
  pub queue : NodeRequestQueue
  pub running : ℕ
  pub handed : List ℕ

-- What tasks do with the queue. A task releases what it holds; a woken task runs on or is
-- cancelled before it does; a waiting task is cancelled; the client is stopped.
pub data SlotEvent : Type 0 where
  acquires : RequestPriority → SlotEvent
  releases : SlotEvent
  resumes : ℕ → SlotEvent
  cancels : ℕ → SlotEvent
  stops : SlotEvent

-- The waiter that a release has woken joins those that were handed the slot.
hand : Slot → NodeRequestQueue × Option ℕ → Slot
hand s (q, none) = record s { queue = q }
hand s (q, some sequence) = record s { queue = q; handed = sequence ∷ s.handed }

without : ℕ → List ℕ → List ℕ
without n = select (λ m. not (n == m))

admit : Slot → NodeRequestQueue × Admission → Slot
admit s (q, admitted) = record s { queue = q; running = s.running + 1 }
admit s (q, waiting sequence) = record s { queue = q }

-- Only a task that has not run since it was woken is still at its `await`.
cancel_waiting : ℕ → FutureState → Slot → Slot
unfolding hand without
cancel_waiting sequence granted s =
    if contains s.handed sequence
    then hand (record s { handed = without sequence s.handed }) (cancel sequence s.queue)
    else s
cancel_waiting sequence _ s = hand s (cancel sequence s.queue)

-- An event that the state does not allow changes nothing.
unfoldable pub step : Slot → SlotEvent → Slot
unfolding hand without admit cancel_waiting
step s (acquires priority) = admit s (acquire priority s.queue)
step s releases =
    if ltb 0 s.running then hand (record s { running = s.running - 1 }) (release s.queue) else s
step s (resumes sequence) =
    if contains s.handed sequence
    then record s { running = s.running + 1; handed = without sequence s.handed }
    else s
step s (cancels sequence) = cancel_waiting sequence (s.queue.futures sequence) s
step s stops = record s { queue = fail_waiters s.queue }

-- The slot is busy exactly while one task holds it, and nobody waits for a free slot.
pub record IsExclusive (s : Slot) : Type 0 where
  pub one_holder : s.running + length s.handed ≡ (if s.queue.busy then 1 else 0)
  pub nobody_waits : s.queue.busy ≡ false → s.queue.waiters ≡ []

-- After the holder has gone, the slot is handed on or freed.
hand-IsExclusive :
    (s : Slot) (r : NodeRequestQueue × Option ℕ)
    → s.running + length s.handed ≡ 0
    → s.queue.busy ≡ true
    → IsRelease s.queue r
    → IsExclusive (hand s r)
unfolding hand
hand-IsExclusive s (q, none) h b (inl (e, f)) = record {
  one_holder = rw f.not_busy h;
  nobody_waits = λ _. f.none_left;
}
hand-IsExclusive s (q, some n) h b (inl (e, f)) = cc
hand-IsExclusive s (q, none) h b (inr (w, e, f)) = cc
hand-IsExclusive s (q, some n) h b (inr (w, e, f)) = record {
  one_holder = rw (f.still_busy, b) (omega arith);
  nobody_waits = λ free. let clash = sym free ∙ f.still_busy ∙ b in cc;
}

only_one :
    (handed : List ℕ) (n : ℕ)
    → length handed ≤ 1
    → contains handed n ≡ true
    → (length handed ≡ 1) × (without n handed ≡ [])
unfolding contains without
only_one [] n h e = cc
only_one (x ∷ []) n h e = (refl, ground (arith, contains-nil n))
only_one (x ∷ y ∷ xs) n h e = absurd (omega arith)

busy_of_holder : (s : Slot) → IsExclusive s → 0 < s.running + length s.handed → s.queue.busy ≡ true
busy_of_holder s x h = ground (arith, x.one_holder)

at_most_one : (s : Slot) → IsExclusive s → s.running + length s.handed ≤ 1
at_most_one s x = ground (arith, x.one_holder)

-- A cancelled task that was not admitted and did not fail.
abbrev pub NotFailed : Slot → SlotEvent → Type 0
NotFailed s (cancels sequence) = s.queue.futures sequence ≢ failed
NotFailed s _ = Unit

idle_taken : (q : NodeRequestQueue) → q.busy ≡ true → idle q ≡ false
unfolding idle
idle_taken q h = rw h

idle_free : (q : NodeRequestQueue) → q.busy ≡ false → q.waiters ≡ [] → idle q ≡ true
unfolding idle
idle_free q h e = rw (h, e)

acquire-IsExclusive :
    (s : Slot) (priority : RequestPriority)
    → IsExclusive s
    → IsExclusive (admit s (acquire priority s.queue))
unfolding admit acquire
acquire-IsExclusive s priority x = elim (Bool-cases s.queue.busy) [
  | inl taken ↦ rw (idle_taken s.queue taken) (record {
    one_holder = x.one_holder;
    nobody_waits = λ free. let clash = sym taken ∙ free in cc;
  })
  | inr free ↦
      rw (idle_free s.queue free (x.nobody_waits free))
        (record { one_holder = ground (arith, x.one_holder, free); nobody_waits = λ clash. cc })
]

-- A cancelled task gives back the slot if it was handed it, and changes nothing else.
cancel-IsExclusive :
    (s : Slot) (sequence : ℕ) (state : FutureState)
    → s.queue.futures sequence ≡ state
    → state ≢ failed
    → IsExclusive s
    → IsExclusive (cancel_waiting sequence state s)
unfolding cancel_waiting cancel hand
cancel-IsExclusive s sequence pending e n x =
    rw e (record { one_holder = x.one_holder; nobody_waits = x.nobody_waits })
cancel-IsExclusive s sequence cancelled e n x =
    rw e (record { one_holder = x.one_holder; nobody_waits = x.nobody_waits })
cancel-IsExclusive s sequence failed e n x = absurd (n refl)
cancel-IsExclusive s sequence granted e n x = elim (Bool-cases (contains s.handed sequence)) [
  | inr absent ↦ rw absent x
  | inl held ↦
      let most = at_most_one s x in
      let (single, gone) = only_one s.handed sequence (omega arith) held in
      rw (held, e)
        (hand-IsExclusive _ (release s.queue) (rw gone (omega arith))
          (busy_of_holder s x (omega arith)) (release-IsRelease s.queue))
]

-- Every event that a task or the client can cause leaves the slot with at most one holder, and
-- with nobody waiting for a free slot. Excluded is the cancellation of a waiting task whose future
-- holds an exception.
pub step-IsExclusive :
    (s : Slot) (e : SlotEvent) → NotFailed s e → IsExclusive s → IsExclusive (step s e)
unfolding step
step-IsExclusive s (acquires priority) n x = acquire-IsExclusive s priority x
step-IsExclusive s releases n x = elim (Bool-cases (ltb 0 s.running)) [
  | inr none_runs ↦ rw none_runs x
  | inl runs ↦
      let most = at_most_one s x in
      let some_runs = ltb→lt 0 s.running runs in
      rw runs (
        hand-IsExclusive _ (release s.queue) (omega arith) (busy_of_holder s x (omega arith))
          (release-IsRelease s.queue))
]
step-IsExclusive s (resumes sequence) n x = elim (Bool-cases (contains s.handed sequence)) [
  | inr absent ↦ rw absent x
  | inl held ↦
      let most = at_most_one s x in
      let (single, gone) = only_one s.handed sequence (omega arith) held in
      rw (held, gone)
        (record { one_holder = omega (arith, x.one_holder); nobody_waits = x.nobody_waits })
]
step-IsExclusive s (cancels sequence) n x =
    cancel-IsExclusive s sequence (s.queue.futures sequence) refl n x
step-IsExclusive s stops n x =
    unfold fail_waiters in record { one_holder = x.one_holder; nobody_waits = λ _. refl }

-- A run of events; the cancellations in it are of tasks that have not failed by then.
pub run_events : Slot → List SlotEvent → Slot
run_events s [] = s
run_events s (e ∷ es) = run_events (step s e) es

abbrev pub NoneFailed : Slot → List SlotEvent → Type 0
NoneFailed s [] = Unit
NoneFailed s (e ∷ es) = NotFailed s e × NoneFailed (step s e) es

abbrev pub free_slot : Slot
free_slot = record { queue = empty_queue; running = 0; handed = [] }

-- From an exclusive slot, any run of events without such a cancellation ends with the slot
-- busy exactly while one task runs with it or was handed it, and with no waiter for a free slot.
pub run_events-IsExclusive :
    (s : Slot) (es : List SlotEvent)
    → NoneFailed s es
    → IsExclusive s
    → IsExclusive (run_events s es)
unfolding run_events
run_events-IsExclusive s [] h x = x
run_events-IsExclusive s (e ∷ es) h x =
    run_events-IsExclusive (step s e) es h.1 (step-IsExclusive s e h.0 x)

released_twice :
    (s : Slot) (r : NodeRequestQueue × Option ℕ)
    → IsExclusive s
    → s.queue.busy ≡ true
    → IsRelease s.queue r
    → ¬ IsExclusive (hand s r)
unfolding hand
released_twice s (q, none) x taken (inl (e, f)) after =
    ground (arith, x.one_holder, after.one_holder, f.not_busy, taken)
released_twice s (q, some n) x taken (inl (e, f)) after = cc
released_twice s (q, none) x taken (inr (w, e, f)) after = cc
released_twice s (q, some n) x taken (inr (w, e, f)) after =
    ground (arith, x.one_holder, after.one_holder, f.still_busy, taken)

cancel-eq-release :
    (q : NodeRequestQueue) (sequence : ℕ)
    → q.futures sequence ≡ failed
    → cancel sequence q ≡ release q
unfolding cancel
cancel-eq-release q sequence e = rw e

-- While a task holds the slot, the cancellation of a waiting task whose future was failed by
-- `fail_waiters` releases the slot that this task never had: the slot is exclusive no more.
pub cancel_failed :
    (s : Slot) (sequence : ℕ)
    → IsExclusive s
    → s.queue.busy ≡ true
    → s.queue.futures sequence ≡ failed
    → ¬ IsExclusive (step s (cancels sequence))
unfolding step cancel_waiting
cancel_failed s sequence x taken e =
    rw (e, cancel-eq-release s.queue sequence e)
      (released_twice s (release s.queue) x taken (release-IsRelease s.queue))
