-- ===== src/Intervals.antt =====
-- The adaptive polling intervals of src/pyhems/poller.py. The seconds are any totally ordered type
-- with the two products that the code forms: floats without NaN.
use pyhems.Common.{
  ◌==◌, if◌then◌else◌, Bool-cases, ℕ_key, list_key, ℕ, min, ◌≡◌, inl, inr, Bool, true, false,
  Option, none, some,
}

pub record Seconds (S : Type 0) : Type 0 where
  pub at_most : S → S → Bool
  pub at_most_refl : (a : S) → at_most a a ≡ true
  pub at_most_trans : (a b c : S) → at_most a b ≡ true → at_most b c ≡ true → at_most a c ≡ true
  pub at_most_total : (a b : S) → at_most a b ≡ false → at_most b a ≡ true
  pub one : S
  pub times : S → S → S
  pub backed_off : S → ℕ → S

-- The part of _DeviceScheduleState that the intervals read
pub record ScheduleState (S : Type 0) : Type 0 where
  pub latency_ewma : Option S
  pub consecutive_failures : ℕ

pub record PollerSettings (S : Type 0) : Type 0 where
  pub poll_interval : S
  pub fast_poll_interval : S
  pub safety_factor : S
  pub max_interval : S

module _ {S : Type 0} ⦃sec : Seconds S⦄ where
  -- max(a, b) and min(a, b)
  unfoldable pub max_of : S → S → S
  max_of a b = if sec.at_most b a then a else b

  unfoldable pub min_of : S → S → S
  min_of a b = if sec.at_most a b then a else b

  -- PropertyPoller.__init__, for the four parameters
  unfoldable pub new_settings : S → S → S → S → PollerSettings S
  new_settings poll_interval fast_poll_interval safety_factor max_interval =
      let base = max_of sec.one poll_interval in
      record {
        poll_interval = base;
        fast_poll_interval = max_of sec.one fast_poll_interval;
        safety_factor = max_of sec.one safety_factor;
        max_interval = max_of base max_interval;
      }

  unfoldable pub slowed : S → Option S → S → S
  slowed safety_factor none interval = interval
  slowed safety_factor (some latency) interval = max_of interval (sec.times latency safety_factor)

  unfoldable pub retreated : S → ℕ → S → S
  retreated base failures interval =
      if failures == 0 then interval else max_of interval (sec.backed_off base (min failures 10))

  -- The interval of a tier with this base, before it is capped.
  unfoldable pub adapted : PollerSettings S → S → Option (ScheduleState S) → S
  adapted p base none = base
  adapted p base (some state) =
      retreated base state.consecutive_failures (slowed p.safety_factor state.latency_ewma base)

  unfoldable pub effective_interval : PollerSettings S → Option (ScheduleState S) → S
  effective_interval p state = min_of (adapted p p.poll_interval state) p.max_interval

  unfoldable pub effective_fast_interval : PollerSettings S → Option (ScheduleState S) → S
  effective_fast_interval p state =
      min_of (min_of (adapted p p.fast_poll_interval state) p.max_interval)
        (effective_interval p state)

  max_left : (a b : S) → sec.at_most a (max_of a b) ≡ true
  unfolding max_of
  max_left a b = elim (Bool-cases (sec.at_most b a)) [
    | inl above ↦ rw above (sec.at_most_refl a)
    | inr below ↦ rw below (sec.at_most_total b a below)
  ]

  min_left : (a b : S) → sec.at_most (min_of a b) a ≡ true
  unfolding min_of
  min_left a b = elim (Bool-cases (sec.at_most a b)) [
    | inl first ↦ rw first (sec.at_most_refl a)
    | inr second ↦ rw second (sec.at_most_total a b second)
  ]

  min_right : (a b : S) → sec.at_most (min_of a b) b ≡ true
  unfolding min_of
  min_right a b = elim (Bool-cases (sec.at_most a b)) [
    | inl first ↦ rw first first
    | inr second ↦ rw second (sec.at_most_refl b)
  ]

  min_above :
      (c a b : S)
      → sec.at_most c a ≡ true
      → sec.at_most c b ≡ true
      → sec.at_most c (min_of a b) ≡ true
  unfolding min_of
  min_above c a b h k = elim (Bool-cases (sec.at_most a b)) [
    | inl first ↦ rw first h
    | inr second ↦ rw second k
  ]

  slowed_above : (f : S) (o : Option S) (a : S) → sec.at_most a (slowed f o a) ≡ true
  unfolding slowed
  slowed_above f none a = sec.at_most_refl a
  slowed_above f (some l) a = max_left a (sec.times l f)

  retreated_above : (base : S) (n : ℕ) (a : S) → sec.at_most a (retreated base n a) ≡ true
  unfolding retreated
  retreated_above base n a = elim (Bool-cases (n == 0)) [
    | inl fine ↦ rw fine (sec.at_most_refl a)
    | inr failing ↦ rw failing (max_left a (sec.backed_off base (min n 10)))
  ]

  adapted_above :
      (p : PollerSettings S) (base : S) (o : Option (ScheduleState S))
      → sec.at_most base (adapted p base o) ≡ true
  unfolding adapted
  adapted_above p base none = sec.at_most_refl base
  adapted_above p base (some s) =
      sec.at_most_trans base (slowed p.safety_factor s.latency_ewma base) _
        (slowed_above p.safety_factor s.latency_ewma base)
        (retreated_above base s.consecutive_failures (slowed p.safety_factor s.latency_ewma base))

  -- Between its base and its ceiling, and the fast tier between a second and the normal tier.
  pub record IsAdaptive (p : PollerSettings S) (o : Option (ScheduleState S)) : Type 0 where
    pub from_base : sec.at_most p.poll_interval (effective_interval p o) ≡ true
    pub to_ceiling : sec.at_most (effective_interval p o) p.max_interval ≡ true
    pub fast_enough : sec.at_most (effective_fast_interval p o) (effective_interval p o) ≡ true
    pub a_second : sec.at_most sec.one (effective_fast_interval p o) ≡ true

  -- Whatever the settings given and whatever was observed of the device, its interval is at least
  -- the poll interval in force and at most the maximal one; the interval of the fast tier is at
  -- most the normal one, and never shorter than a second.
  pub new_settings-IsAdaptive :
      (poll fast factor ceiling : S) (o : Option (ScheduleState S))
      → IsAdaptive (new_settings poll fast factor ceiling) o
  unfolding new_settings effective_interval effective_fast_interval
  new_settings-IsAdaptive poll fast factor ceiling o =
      let p = new_settings poll fast factor ceiling in
      let below_ceiling = max_left p.poll_interval ceiling in
      let normal =
        min_above p.poll_interval (adapted p p.poll_interval o) p.max_interval
          (adapted_above p p.poll_interval o) below_ceiling in
      let one_normal =
        sec.at_most_trans sec.one p.poll_interval (effective_interval p o) (max_left sec.one poll)
          normal in
      let one_ceiling =
        sec.at_most_trans sec.one p.poll_interval p.max_interval (max_left sec.one poll)
          below_ceiling in
      let one_fast =
        sec.at_most_trans sec.one p.fast_poll_interval (adapted p p.fast_poll_interval o)
          (max_left sec.one fast) (adapted_above p p.fast_poll_interval o) in
      record {
        from_base = normal;
        to_ceiling = min_right (adapted p p.poll_interval o) p.max_interval;
        fast_enough = min_right _ (effective_interval p o);
        a_second =
            min_above sec.one _ (effective_interval p o)
              (min_above sec.one (adapted p p.fast_poll_interval o) p.max_interval one_fast
                one_ceiling)
              one_normal;
      }
