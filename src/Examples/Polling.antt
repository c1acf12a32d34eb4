-- ===== src/Examples/Polling.antt =====
-- Polling in whole seconds (src/pyhems/poller.py).
use pyhems.Intervals.{
  Seconds, ScheduleState, new_settings, effective_interval, adapted, retreated, slowed, max_of,
  min_of, IsAdaptive, new_settings-IsAdaptive,
}
use pyhems.Poller.Cycle.{Cycle, Manager}
use pyhems.Poller.Schedule.{DeviceSchedule, PolledNode, schedule_polls}
use pyhems.Poller.Schedule.Starts.{IsSchedule, schedule_polls-IsSchedule}
use pyhems.Common.{
  ltb, leb, if◌then◌else◌, ok, ℕ_key, list_key, Dict, ℕ, ◌+◌, ◌-◌, ◌*◌, ◌^◌, ◌≡◌, refl, Bool, true,
  false, none, some, List, [], ◌∷◌, arith,
}

leb_refl : (a : ℕ) → leb a a ≡ true
leb_refl a = ground arith

leb_trans : (a b c : ℕ) → leb a b ≡ true → leb b c ≡ true → leb a c ≡ true
leb_trans a b c h k = ground arith

leb_total : (a b : ℕ) → leb a b ≡ false → leb b a ≡ true
leb_total a b h = ground arith

instance abbrev whole_seconds : Seconds ℕ
whole_seconds = record {
  at_most = leb;
  at_most_refl = leb_refl;
  at_most_trans = leb_trans;
  at_most_total = leb_total;
  one = 1;
  times = ◌*◌;
  backed_off = λ base n. base * 2 ^ n;
}

-- A device that was slow and then failed three times.
abbrev failing : ScheduleState ℕ
failing = record { latency_ewma = some 4; consecutive_failures = 3 }

effective_interval_test : effective_interval (new_settings 60 10 2 600) (some failing) ≡ 480
unfolding effective_interval new_settings min_of adapted retreated max_of slowed
effective_interval_test = refl

new_settings-IsAdaptive_example : IsAdaptive (new_settings 0 10 2 600) (some failing)
new_settings-IsAdaptive_example = new_settings-IsAdaptive 0 10 2 600 (some failing)

-- A device that answers two requests of at most two EPCs, each after one second, and no more.
abbrev tired : Manager ℕ ℕ
tired = record {
  view = λ n.
      some (record {
        manufacturer_code = none;
        class_code = 0x0130;
        observed_batch_capacity = some 2;
      });
  poll_device = λ n chunk. (ok (if ltb n 2 then some 1 else none), n + 1);
  record_poll_failure = λ n. n;
  record_poll_success = λ n. n;
}

-- Two devices; the first one was polled a while ago, the second one is polled just now.
abbrev polled_node : PolledNode
polled_node = record {
  poll_epcs = 0xB0 ∷ 0x80 ∷ [];
  fast_poll_epcs = 0xBB ∷ [];
  effective_poll_epcs = 0xB0 ∷ 0x80 ∷ [];
  effective_fast_poll_epcs = 0xBB ∷ [];
}

abbrev schedule_at : Bool → DeviceSchedule ℕ
schedule_at polling = record {
  polling = polling;
  last_polled_at = some 100;
  last_fast_polled_at = some 100;
  observed = record { latency_ewma = none; consecutive_failures = 0 };
}

abbrev schedules : Dict (List ℕ) (DeviceSchedule ℕ)
schedules = (1 ∷ [], schedule_at false) ∷ (2 ∷ [], schedule_at true) ∷ []

schedule_polls-IsSchedule_example : IsSchedule schedules (
    schedule_polls ◌-◌
      (new_settings 60 10 2 600)
      200
      (λ key. 201)
      ((1 ∷ [], polled_node) ∷ (2 ∷ [], polled_node) ∷ [])
      (schedules, []))
schedule_polls-IsSchedule_example =
    schedule_polls-IsSchedule ◌-◌ (new_settings 60 10 2 600) 200 (λ key. 201) schedules
      ((1 ∷ [], polled_node) ∷ (2 ∷ [], polled_node) ∷ [])
