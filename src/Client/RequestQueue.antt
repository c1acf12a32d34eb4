-- ===== src/Client/RequestQueue.antt =====
-- `_NodeRequestQueue` of src/pyhems/runtime.py: one outstanding request per node, granted by
-- priority. A waiting task is known by its sequence number; its future is what `futures` says of
-- that number. `heapq` is taken as what it promises: a pop gives the smallest entry.
pub mod Priority
pub mod Exclusion
use pyhems.Common.{
  ltb, leb, ◌==◌, if◌then◌else◌, length, is_empty, ℕ_key, list_key, ℕ, zero, suc, ◌+◌, Bool, true,
  false, not, ◌&&◌, ◌||◌, Option, none, some, List, [], ◌∷◌,
}

-- RequestPriority
pub data RequestPriority : Type 0 where
  set setup poll : RequestPriority

pub priority_value : RequestPriority → ℕ
priority_value set = 0
priority_value setup = 1
priority_value poll = 2

pub data FutureState : Type 0 where
  pending granted failed cancelled : FutureState

-- future.done()
unfoldable pub is_done : FutureState → Bool
is_done pending = false
is_done _ = true

pub record Waiter : Type 0 where
  pub priority : ℕ
  pub sequence : ℕ

pub record NodeRequestQueue : Type 0 where
  pub busy : Bool
  pub waiters : List Waiter
  pub next_sequence : ℕ
  pub futures : ℕ → FutureState

abbrev pub empty_queue : NodeRequestQueue
empty_queue = record { busy = false; waiters = []; next_sequence = 0; futures = λ _. pending }

-- The future of one waiter changes.
unfoldable pub set_future : (ℕ → FutureState) → ℕ → FutureState → ℕ → FutureState
set_future futures sequence state n = if n == sequence then state else futures n

unfoldable pub idle : NodeRequestQueue → Bool
idle q = not q.busy && is_empty q.waiters

-- The order of the heap's entries: the priority, then the arrival.
pub precedes : Waiter → Waiter → Bool
precedes a b = ltb a.priority b.priority || (a.priority == b.priority && leb a.sequence b.sequence)

-- heapq.heappop
unfoldable pub pop_min : List Waiter → Option (Waiter × List Waiter)
unfolding precedes
pop_min [] = none
pop_min (w ∷ ws) = elim (pop_min ws) [
  | none ↦ some (w, ws)
  | some (m, rest) ↦ if precedes m w then some (m, w ∷ rest) else some (w, ws)
]

-- Whether the caller holds the slot at once, or waits under its sequence number.
pub data Admission : Type 0 where
  admitted : Admission
  waiting : ℕ → Admission

unfoldable pub acquire : RequestPriority → NodeRequestQueue → NodeRequestQueue × Admission
unfolding idle priority_value set_future
acquire priority q = if idle q then (record q { busy = true }, admitted) else (
  record q {
    waiters = record { priority = priority_value priority; sequence = q.next_sequence } ∷ q.waiters;
    next_sequence = q.next_sequence + 1;
    futures = set_future q.futures q.next_sequence pending;
  },
  waiting q.next_sequence,
)

-- The loop of `release`, on fuel for the pops; with it comes the waiter that gets the slot.
unfoldable pub release_loop : ℕ → NodeRequestQueue → NodeRequestQueue × Option ℕ
unfolding pop_min is_done set_future
release_loop zero q = (record q { busy = false }, none)
release_loop (suc fuel) q = elim (pop_min q.waiters) [
  | none ↦ (record q { busy = false }, none)
  | some (w, rest) ↦ elim (is_done (q.futures w.sequence)) [
    | true ↦ release_loop fuel (record q { waiters = rest })
    | false ↦ (
      record q { waiters = rest; futures = set_future q.futures w.sequence granted },
      some w.sequence,
    )
  ]
]

unfoldable pub release : NodeRequestQueue → NodeRequestQueue × Option ℕ
unfolding release_loop
release q = release_loop (suc (length q.waiters)) q

-- future.cancelled()
pub is_cancelled : FutureState → Bool
is_cancelled cancelled = true
is_cancelled _ = false

-- The task that waits under the number is cancelled. That cancels its future, unless it is done;
-- then the exception handler of `acquire` runs.
pub cancel : ℕ → NodeRequestQueue → NodeRequestQueue × Option ℕ
unfolding release set_future is_done is_cancelled
cancel sequence q =
    if is_done (q.futures sequence) && not (is_cancelled (q.futures sequence))
    then release q
    else (record q { futures = set_future q.futures sequence cancelled }, none)

unfoldable pub fail_each : List Waiter → (ℕ → FutureState) → ℕ → FutureState
unfolding set_future is_done
fail_each [] futures = futures
fail_each (w ∷ ws) futures =
    fail_each ws
      (if is_done (futures w.sequence) then futures else set_future futures w.sequence failed)

unfoldable pub fail_waiters : NodeRequestQueue → NodeRequestQueue
unfolding fail_each
fail_waiters q = record q { futures = fail_each q.waiters q.futures; waiters = [] }
