-- ===== src/Client/GetBatches/Limits.antt =====
-- The concurrent-response limit that `_run_get_batches` (src/pyhems/runtime.py) learns and obeys.
use pyhems.Common.{
  if◌then◌else◌, &&_left, Bool-cases, length, is_empty, ℕ_key, list_key, Dict, ℕ, ◌≤◌, ◌<◌, ◌≡◌,
  refl, sym, ◌∙◌, ◌≢◌, inl, inr, Bool, true, false, Option, none, some, List, [], ◌∷◌, arith,
}
use pyhems.Protocol.Frame.{Property}
use pyhems.Client.GetBatches.{
  GetCapability, Attempt, Outcome, aborted, invalid_capacity, Reading, Step, leave, matched_of,
  keeps_previous, fix_batch_capacity, halve, take_partial, take_whole, batch_size, request_batch,
  batch_step, run_get_batches, without_duplicates,
}
use pyhems.Client.GetBatches.Cases.{after_response-cases, after_attempt-cases, batch_step-cases}
use pyhems.Client.GetBatches.Termination.{batch_rounds, batch_rounds_mono, Keeps, batch_loop_rule}
use pyhems.Client.GetBatches.Reads.{length-without_duplicates}

-- A size of which there is one is positive.
abbrev pub IsPos : Option ℕ → Type 0
IsPos none = Unit
IsPos (some n) = 0 < n

-- A limit that was known stays known and does not grow.
abbrev pub NotAbove : Option ℕ → Option ℕ → Type 0
NotAbove none after = Unit
NotAbove (some l) none = ⊥
NotAbove (some l) (some n) = n ≤ l

NotAbove-refl : (o : Option ℕ) → NotAbove o o
NotAbove-refl none = tt
NotAbove-refl (some l) = omega arith

NotAbove-trans : (a b c : Option ℕ) → NotAbove a b → NotAbove b c → NotAbove a c
NotAbove-trans none b c h k = tt
NotAbove-trans (some l) (some n) none h k = k
NotAbove-trans (some l) none c h k = absurd h
NotAbove-trans (some l) (some n) (some m) h k = omega arith

not-keeps_previous : (o : Option ℕ) (n : ℕ) → keeps_previous o n ≡ false → NotAbove o (some n)
unfolding keeps_previous
not-keeps_previous none n h = tt
not-keeps_previous (some l) n h = ground arith

-- Fixing the limit to a positive number lowers it or leaves it.
fix_batch_capacity_limit :
    (c : GetCapability) (n : ℕ)
    → 0 < n
    → IsPos c.observed_batch_capacity
    → IsPos (fix_batch_capacity c n).observed_batch_capacity
      × NotAbove c.observed_batch_capacity (fix_batch_capacity c n).observed_batch_capacity
      × ((fix_batch_capacity c n).manufacturer_code ≡ c.manufacturer_code)
unfolding fix_batch_capacity
fix_batch_capacity_limit c n h p = elim (Bool-cases (keeps_previous c.observed_batch_capacity n)) [
  | inl keeps ↦ rw keeps (p, NotAbove-refl c.observed_batch_capacity, refl)
  | inr lowers ↦ rw lowers (h, not-keeps_previous c.observed_batch_capacity n lowers, refl)
]

batch_size-IsPos :
    (limit probe_size : Option ℕ)
    → IsPos limit
    → IsPos probe_size
    → batch_size limit probe_size ≢ some 0
unfolding batch_size
batch_size-IsPos none none h k e = cc
batch_size-IsPos (some l) none h k e = ground arith
batch_size-IsPos none (some n) h k e = ground arith
batch_size-IsPos (some l) (some n) h k e = ground arith

some_item : (d : Dict ℕ Property) → is_empty d ≡ false → 0 < length d
some_item [] h = cc
some_item (x ∷ d) h = omega arith

module _ {W : Type 0} (probe : Bool) (first : GetCapability) where
  -- The state of the limit during a call that began with the capability `first`.
  record IsLimited (s : Reading W) : Type 0 where
    pub probes : IsPos s.probe_size
    pub positive : IsPos s.capability.observed_batch_capacity
    pub lowered : NotAbove first.observed_batch_capacity s.capability.observed_batch_capacity
    pub same_manufacturer : s.capability.manufacturer_code ≡ first.manufacturer_code
    pub unprobed : probe ≡ false → s.capability ≡ first

  -- The same when the call ends; it never ends by the ValueError of `take_first_batch`.
  abbrev pub IsLimitResult : Outcome → Reading W → Type 0
  IsLimitResult invalid_capacity s = ⊥
  IsLimitResult _ s =
      IsPos s.capability.observed_batch_capacity
      × NotAbove first.observed_batch_capacity s.capability.observed_batch_capacity
      × (s.capability.manufacturer_code ≡ first.manufacturer_code)
      × (probe ≡ false → s.capability ≡ first)

  module _ (batch rest : List ℕ) (s : Reading W) (r : IsLimited s) (matched : Dict ℕ Property) where
    halve-IsLimited : 0 < length batch → IsLimited (halve batch rest s)
    unfolding halve
    halve-IsLimited h = record {
      probes = omega arith;
      positive = r.positive;
      lowered = r.lowered;
      same_manufacturer = r.same_manufacturer;
      unprobed = r.unprobed;
    }

    -- Fixing the limit happens only while probing.
    fixed :
        (n : ℕ)
        → 0 < n
        → probe ≡ true
        → let c = fix_batch_capacity s.capability n in
          IsPos c.observed_batch_capacity
          × NotAbove first.observed_batch_capacity c.observed_batch_capacity
          × (c.manufacturer_code ≡ first.manufacturer_code)
          × (probe ≡ false → c ≡ first)
    fixed n h on =
        let (p, l, m) = fix_batch_capacity_limit s.capability n h r.positive in
        (
          p,
          NotAbove-trans first.observed_batch_capacity s.capability.observed_batch_capacity _
              r.lowered l,
          m ∙ r.same_manufacturer,
          λ off. let clash = sym on ∙ off in cc,
        )

    after_values :
        (learning : Bool) (n : ℕ) (queue : List ℕ) (received : Dict ℕ Property)
        → 0 < n
        → (learning ≡ true → probe ≡ true)
        → IsLimited (record s {
          queue = queue;
          probe_size = if learning then none else s.probe_size;
          capability = if learning then fix_batch_capacity s.capability n else s.capability;
          received = received;
        })
    after_values true n queue received h on =
        let (p, l, m, u) = fixed n h (on refl) in
        record { probes = tt; positive = p; lowered = l; same_manufacturer = m; unprobed = u }
    after_values false n queue received h on = record {
      probes = r.probes;
      positive = r.positive;
      lowered = r.lowered;
      same_manufacturer = r.same_manufacturer;
      unprobed = r.unprobed;
    }

    take_partial-IsLimited :
        is_empty matched ≡ false → IsLimited (take_partial probe batch rest matched s)
    unfolding take_partial
    take_partial-IsLimited h =
        after_values probe (length matched) _ _ (some_item matched h) (λ on. on)

    take_whole-IsLimited :
        (learning : Bool)
        → (learning ≡ true → probe ≡ true)
        → 0 < length batch
        → IsLimited (take_whole learning batch rest matched s)
    unfolding take_whole
    take_whole-IsLimited learning l h = after_values learning (length batch) _ _ h l

module _ {W : Type 0} (attempt : W → GetCapability → List ℕ → Attempt × GetCapability × W)
    (quiet : (w : W) (c : GetCapability) (batch : List ℕ) → (attempt w c batch).1 ≡ c)
    (probe : Bool) (class_code : ℕ) (first : GetCapability) where
  abbrev Limits : Step W → Type 0
  Limits = Keeps attempt probe class_code (IsLimited probe first) (IsLimitResult probe first)

  batch_step-Limits :
      (s : Reading W)
      → is_empty s.queue ≡ false
      → IsLimited probe first s
      → Limits (batch_step attempt probe class_code s)
  unfolding request_batch
  batch_step-Limits s more r =
      batch_step-cases Limits attempt probe class_code s more
        (λ e. batch_size-IsPos _ _ r.positive r.probes e)
        λ batch rest p.
          let reply = attempt s.world s.capability batch in
          let s' = record s { capability = reply.1; world = reply.2 } in
          let same = quiet s.world s.capability batch in
          let r' : IsLimited probe first s' = record {
            probes = r.probes;
            positive = rw same r.positive;
            lowered = rw same r.lowered;
            same_manufacturer = rw same r.same_manufacturer;
            unprobed = rw same r.unprobed;
          } in
          let ends : Limits (leave aborted s') =
            (r'.positive, r'.lowered, r'.same_manufacturer, r'.unprobed) in
          let matched = matched_of batch reply.0 in
          after_attempt-cases Limits probe _ batch rest s' p.some_epc reply.0 (λ _. ends)
            (λ _. ends) (λ _ _. ends)
            (after_response-cases Limits probe _ batch rest s' p.some_epc matched (λ _ _. ends)
              (λ _ _. halve-IsLimited probe first batch rest s' r' matched p.some_epc)
              (λ matches _. take_partial-IsLimited probe first batch rest s' r' matched matches)
              (λ _ _.
                take_whole-IsLimited probe first batch rest s' r' matched _ (λ on. &&_left _ _ on)
                  p.some_epc))

  -- While no other call changes the capability, a read that starts with no limit or a positive
  -- one ends with no limit or a positive one. A limit that was known is not forgotten and does
  -- not grow; without probing the capability is left as it was. The read does not end by the
  -- ValueError of `take_first_batch`.
  pub run_get_batches-IsLimitResult :
      (fuel : ℕ) (epcs : List ℕ) (received : Dict ℕ Property) (world : W)
      → batch_rounds (length epcs) < fuel
      → IsPos first.observed_batch_capacity
      → (outcome : Outcome) × (s : Reading W) × (run_get_batches attempt probe class_code fuel epcs
            first received world
          ≡ some (outcome, s))
        × IsLimitResult probe first outcome s
  unfolding run_get_batches
  run_get_batches-IsLimitResult fuel epcs received world h p =
      batch_loop_rule attempt probe class_code (IsLimited probe first) (IsLimitResult probe first)
        batch_step-Limits (λ s _ r. (r.positive, r.lowered, r.same_manufacturer, r.unprobed)) fuel _
        (omega (
          arith,
          batch_rounds_mono (length (without_duplicates epcs)) (length epcs)
              (length-without_duplicates epcs),
        ))
        (record {
          probes = tt;
          positive = p;
          lowered = NotAbove-refl first.observed_batch_capacity;
          same_manufacturer = refl;
          unprobed = λ _. refl;
        })
