-- ===== src/Poller/Cycle.antt =====
-- One poll cycle, `_run_cycle` of src/pyhems/poller.py. What the device manager says and does is an
-- argument, as is the smoothing of latencies.
pub mod Chunks
use pyhems.BatchPolicy.{take_first_batch}
use pyhems.Intervals.{ScheduleState}
use pyhems.Common.{
  if◌then◌else◌, length, is_empty, Exception, Result, ok, raised, ℕ_key, list_key, ℕ, zero, suc,
  ◌+◌, Option, none, some, List, [], ◌∷◌, ◌++◌,
}

-- What a cycle reads of the device before each request.
pub record DeviceView : Type 0 where
  pub manufacturer_code : Option ℕ
  pub class_code : ℕ
  pub observed_batch_capacity : Option ℕ

-- How a cycle ends: every EPC was requested, the device is gone, a request was not answered,
-- `take_first_batch` raised a ValueError, or a request raised an exception.
pub data CycleEnd : Type 0 where
  completed vanished unanswered invalid_capacity : CycleEnd
  failed : Exception → CycleEnd

-- The device manager, for one device: what it knows, `poll_device`, and the marks of availability.
-- A response comes with its latency; no response is `none`.
pub record Manager (S W : Type 0) : Type 0 where
  pub view : W → Option DeviceView
  pub poll_device : W → List ℕ → Result (Option S) × W
  pub record_poll_failure : W → W
  pub record_poll_success : W → W

-- The variables of a cycle; `requested` has the chunks that were requested, in order.
pub record Cycle (S W : Type 0) : Type 0 where
  pub remaining : List ℕ
  pub requested : List (List ℕ)
  pub state : ScheduleState S
  pub world : W

pub data CycleStep (S W : Type 0) : Type 0 where
  next_chunk : Cycle S W → CycleStep S W
  end_cycle : CycleEnd → Cycle S W → CycleStep S W

-- _update_latency, of the smoothed latency
pub update_latency : {S : Type 0} → (S → S → S) → Option S → S → S
update_latency smoothed none latency = latency
update_latency smoothed (some ewma) latency = smoothed latency ewma

module _ {S W : Type 0} (smoothed : S → S → S) where
  pub after_poll : Manager S W → List ℕ → Cycle S W → Result (Option S) × W → CycleStep S W
  unfolding update_latency
  after_poll manager rest c (raised e, w) =
      end_cycle (failed e) (record c { remaining = rest; world = w })
  after_poll manager rest c (ok none, w) = end_cycle unanswered (record c {
    remaining = rest;
    state = record c.state { consecutive_failures = c.state.consecutive_failures + 1 };
    world = manager.record_poll_failure w;
  })
  after_poll manager rest c (ok (some latency), w) = next_chunk (record c {
    remaining = rest;
    state = record {
      latency_ewma = some (update_latency smoothed c.state.latency_ewma latency);
      consecutive_failures = 0;
    };
    world = manager.record_poll_success w;
  })

  pub poll_chunk : Manager S W → Cycle S W → Result (List ℕ × List ℕ) → CycleStep S W
  unfolding after_poll
  poll_chunk manager c (raised e) = end_cycle invalid_capacity c
  poll_chunk manager c (ok (chunk, rest)) =
      if is_empty chunk
      then end_cycle completed (record c { remaining = rest })
      else after_poll manager rest (record c { requested = c.requested ++ chunk ∷ [] })
          (manager.poll_device c.world chunk)

  pub cycle_with : Manager S W → Cycle S W → Option DeviceView → CycleStep S W
  unfolding poll_chunk
  cycle_with manager c none = end_cycle vanished c
  cycle_with manager c (some v) =
      poll_chunk manager c
        (take_first_batch c.remaining v.manufacturer_code v.class_code v.observed_batch_capacity)

  -- One round of the loop.
  pub cycle_step : Manager S W → Cycle S W → CycleStep S W
  unfolding cycle_with
  cycle_step manager c =
      if is_empty c.remaining
      then end_cycle completed c
      else cycle_with manager c (manager.view c.world)

  -- The loop, on fuel; `none` means that the fuel ran out.
  pub cycle_loop : Manager S W → ℕ → Cycle S W → Option (CycleEnd × Cycle S W)
  unfolding cycle_step
  cycle_loop manager zero c = none
  cycle_loop manager (suc fuel) c = elim (cycle_step manager c) [
    | next_chunk c' ↦ cycle_loop manager fuel c'
    | end_cycle how c' ↦ some (how, c')
  ]

  -- _run_cycle
  pub run_cycle : Manager S W → List ℕ → ScheduleState S → W → Option (CycleEnd × Cycle S W)
  unfolding cycle_loop
  run_cycle manager epcs state w =
      cycle_loop manager (length epcs + 1)
        (record { remaining = epcs; requested = []; state = state; world = w })
