-- ===== src/Devices/Subscriptions.antt =====
-- `subscribe_epcs` and `_effective_epcs` of src/pyhems/device_manager.py. A Counter is a dictionary
-- of numbers, and a set of device keys a dictionary without values.
pub mod Counts
pub mod Tally
use pyhems.Common.{
  leb, if◌then◌else◌, select, ℕ_key, list_key, Dict, find, put, remove, has_key, ℕ, zero, suc, ◌+◌,
  ◌-◌, Bool, true, false, Option, none, some, List, [], ◌∷◌,
}

abbrev pub or_zero : Option ℕ → ℕ
or_zero none = 0
or_zero (some n) = n

-- counts[epc], which is 0 for a missing key
pub count_of : Dict ℕ ℕ → ℕ → ℕ
count_of counts epc = or_zero (find counts epc)

-- counts.update(epcs)
pub count_up : List ℕ → Dict ℕ ℕ → Dict ℕ ℕ
unfolding count_of put
count_up [] counts = counts
count_up (e ∷ es) counts = count_up es (put counts e (count_of counts e + 1))

-- counts.subtract(epcs). A number below 0 is 0 here: both are deleted next.
pub count_down : List ℕ → Dict ℕ ℕ → Dict ℕ ℕ
unfolding count_of put
count_down [] counts = counts
count_down (e ∷ es) counts = count_down es (put counts e (count_of counts e - 1))

-- The loop that deletes what is no longer counted.
pub drop_uncounted : List ℕ → Dict ℕ ℕ → Dict ℕ ℕ
unfolding count_of remove
drop_uncounted [] counts = counts
drop_uncounted (e ∷ es) counts =
    drop_uncounted es (if leb (count_of counts e) 0 then remove counts e else counts)

-- One call of `subscribe_epcs`, with the flag that its `unsub` closes over.
pub record Subscription : Type 0 where
  pub device_key : List ℕ
  pub epcs : List ℕ
  pub unsubscribed : Bool

pub record Interests : Type 0 where
  pub subscribed_epcs : Dict (List ℕ) (Dict ℕ ℕ)
  pub subscription_confirmed : Dict {0, 0} (List ℕ) Unit
  pub subscriptions : List Subscription

abbrev pub no_interests : Interests
no_interests = record { subscribed_epcs = []; subscription_confirmed = []; subscriptions = [] }

abbrev pub or_no_counts : Option (Dict ℕ ℕ) → Dict ℕ ℕ
or_no_counts none = []
or_no_counts (some counts) = counts

-- The Counter of a device; a missing one is empty.
pub counts_of : Dict (List ℕ) (Dict ℕ ℕ) → List ℕ → Dict ℕ ℕ
counts_of d key = or_no_counts (find d key)

pub subscribe_epcs : List ℕ → List ℕ → Interests → Interests
unfolding count_up counts_of put
subscribe_epcs key epcs m = record {
  subscribed_epcs = put m.subscribed_epcs key (count_up epcs (counts_of m.subscribed_epcs key));
  subscription_confirmed = put m.subscription_confirmed key tt;
  subscriptions = record { device_key = key; epcs = epcs; unsubscribed = false } ∷ m.subscriptions;
}

-- What an `unsub` that runs for the first time does to the counts.
pub forget_epcs : Dict (List ℕ) (Dict ℕ ℕ) → Subscription → Dict (List ℕ) (Dict ℕ ℕ)
unfolding count_down drop_uncounted find put
forget_epcs d s = elim (find d s.device_key) [
  | none ↦ d
  | some counts ↦ put d s.device_key (drop_uncounted s.epcs (count_down s.epcs counts))
]

-- The subscription at a place, as it was, and all of them after its `unsub` has set its flag.
pub mark_unsubscribed : ℕ → List Subscription → Option (Subscription × List Subscription)
mark_unsubscribed i [] = none
mark_unsubscribed zero (s ∷ ss) = some (s, record s { unsubscribed = true } ∷ ss)
mark_unsubscribed (suc i) (s ∷ ss) = elim (mark_unsubscribed i ss) [
  | none ↦ none
  | some (t, ts) ↦ some (t, s ∷ ts)
]

-- The `unsub` of the subscription at place `i`, where the newest is at 0.
pub unsubscribe : ℕ → Interests → Interests
unfolding forget_epcs mark_unsubscribed
unsubscribe i m = elim (mark_unsubscribed i m.subscriptions) [
  | none ↦ m
  | some (s, ss) ↦
      if s.unsubscribed
      then m
      else record m { subscribed_epcs = forget_epcs m.subscribed_epcs s; subscriptions = ss }
]

pub effective_epcs : Interests → List ℕ → List ℕ → List ℕ
unfolding find counts_of
effective_epcs m key candidates =
    if has_key m.subscription_confirmed key
    then select (λ e. has_key (counts_of m.subscribed_epcs key) e) candidates
    else candidates
