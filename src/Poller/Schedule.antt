-- ===== src/Poller/Schedule.antt =====
-- Which cycles are started, `_schedule_polls` of src/pyhems/poller.py. The clock is an argument: the
-- time at which the schedule runs, and for each device the time at which its cycle is started.
pub mod Starts
use pyhems.Intervals.{
  Seconds, ScheduleState, PollerSettings, effective_interval, effective_fast_interval,
}
use pyhems.Common.{
  leb, if◌then◌else◌, is_empty, union, ℕ_key, list_key, Dict, find, put, ℕ, Bool, true, false, not,
  ◌&&◌, ◌||◌, Option, none, some, List, [], ◌∷◌,
}

-- _DeviceScheduleState; `polling` says whether its cycle is in progress.
pub record DeviceSchedule (S : Type 0) : Type 0 where
  pub polling : Bool
  pub last_polled_at : Option S
  pub last_fast_polled_at : Option S
  pub observed : ScheduleState S

-- What the schedule reads of a device: its tiers, and what of them its subscribers want.
pub record PolledNode : Type 0 where
  pub poll_epcs : List ℕ
  pub fast_poll_epcs : List ℕ
  pub effective_poll_epcs : List ℕ
  pub effective_fast_poll_epcs : List ℕ

-- A cycle that the schedule starts.
pub record StartedCycle : Type 0 where
  pub device_key : List ℕ
  pub epcs : List ℕ

insert_epc : ℕ → List ℕ → List ℕ
insert_epc e [] = e ∷ []
insert_epc e (x ∷ xs) = if leb e x then e ∷ x ∷ xs else x ∷ insert_epc e xs

-- sorted(epcs)
pub sort_epcs : List ℕ → List ℕ
unfolding insert_epc
sort_epcs [] = []
sort_epcs (e ∷ es) = insert_epc e (sort_epcs es)

-- The EPCs of a cycle for the tiers that are due.
pub cycle_epcs : PolledNode → Bool → Bool → List ℕ
cycle_epcs node fast normal =
    union (if normal then node.effective_poll_epcs else [])
      (if fast then node.effective_fast_poll_epcs else [])

module _ {S : Type 0} where
  new_schedule : DeviceSchedule S
  new_schedule = record {
    polling = false;
    last_polled_at = none;
    last_fast_polled_at = none;
    observed = record { latency_ewma = none; consecutive_failures = 0 };
  }

  or_new : Option (DeviceSchedule S) → DeviceSchedule S
  or_new none = new_schedule
  or_new (some s) = s

  observed_of : Option (DeviceSchedule S) → Option (ScheduleState S)
  observed_of none = none
  observed_of (some s) = some s.observed

  -- _is_polling
  pub is_polling : Option (DeviceSchedule S) → Bool
  is_polling none = false
  is_polling (some s) = s.polling

  last_polled : Option (DeviceSchedule S) → Option S
  last_polled none = none
  last_polled (some s) = s.last_polled_at

  last_fast_polled : Option (DeviceSchedule S) → Option S
  last_fast_polled none = none
  last_fast_polled (some s) = s.last_fast_polled_at

module _ {S : Type 0} ⦃sec : Seconds S⦄ (elapsed : S → S → S) (settings : PollerSettings S)
    (now : S) where
  is_due : List ℕ → Option S → S → Bool
  is_due epcs none interval = not (is_empty epcs)
  is_due epcs (some last) interval = not (is_empty epcs) && sec.at_most interval (elapsed now last)

  -- _fire_poll, with the time that it reads; the list of the cycles has the latest one first.
  pub fire_poll :
      S
      → List ℕ
      → PolledNode
      → Bool
      → Bool
      → Dict (List ℕ) (DeviceSchedule S) × List StartedCycle
      → Dict (List ℕ) (DeviceSchedule S) × List StartedCycle
  unfolding cycle_epcs or_new new_schedule sort_epcs
  fire_poll fired_at key node fast normal (schedules, started) =
      let s = or_new (find schedules key) in
      if is_empty (cycle_epcs node fast normal) then (schedules, started) else (
        put schedules key (record s {
          polling = true;
          last_polled_at = if normal then some fired_at else s.last_polled_at;
          last_fast_polled_at = if fast then some fired_at else s.last_fast_polled_at;
        }),
        record { device_key = key; epcs = sort_epcs (cycle_epcs node fast normal) } ∷ started,
      )

  -- The loop's body, for one device.
  pub schedule_device :
      (List ℕ → S)
      → List ℕ × PolledNode
      → Dict (List ℕ) (DeviceSchedule S) × List StartedCycle
      → Dict (List ℕ) (DeviceSchedule S) × List StartedCycle
  unfolding is_due is_polling observed_of last_polled last_fast_polled fire_poll effective_interval
      effective_fast_interval
  schedule_device clock (key, node) (schedules, started) =
      let s = find schedules key in
      let normal =
        is_due node.poll_epcs (last_polled s) (effective_interval settings (observed_of s)) in
      let fast =
        is_due node.fast_poll_epcs (last_fast_polled s)
          (effective_fast_interval settings (observed_of s)) in
      if is_polling s || (is_empty node.poll_epcs && is_empty node.fast_poll_epcs)
      then (schedules, started)
      else if not normal && not fast
      then (schedules, started)
      else fire_poll (clock key) key node fast normal (schedules, started)

  -- _schedule_polls
  pub schedule_polls :
      (List ℕ → S)
      → Dict (List ℕ) PolledNode
      → Dict (List ℕ) (DeviceSchedule S) × List StartedCycle
      → Dict (List ℕ) (DeviceSchedule S) × List StartedCycle
  unfolding schedule_device
  schedule_polls clock [] r = r
  schedule_polls clock (d ∷ data_) r = schedule_polls clock data_ (schedule_device clock d r)

-- _cleanup_stale: the state of the devices that are gone is dropped.
unfoldable pub cleanup_stale {ℓ} :
    {A : Type ℓ} → (List ℕ → Bool) → Dict (List ℕ) A → Dict (List ℕ) A
cleanup_stale present [] = []
cleanup_stale present ((key, s) ∷ schedules) =
    let rest = cleanup_stale present schedules in if present key then (key, s) ∷ rest else rest
