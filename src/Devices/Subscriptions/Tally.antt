-- ===== src/Devices/Subscriptions/Tally.antt =====
-- The subscriptions that are in force, and what is polled for them (src/pyhems/device_manager.py).
use pyhems.Common.{
  ◌==◌, if◌then◌else◌, Bool-cases, Option-cases, All, contains, contains-select, ℕ_key, same_list,
  same_list_iff, list_key, Dict, find, put, has_key, find-put, Distinct, ℕ, zero, suc, ◌+◌, ◌≡◌,
  refl, sym, ap, ◌∙◌, subst, ◌⊎◌, inl, inr, Bool, true, false, not, ◌&&◌, ◌||◌, none, some, List,
  [], ◌∷◌, arith,
}
use pyhems.Devices.Subscriptions.{
  or_no_counts, Subscription, Interests, no_interests, counts_of, count_up, subscribe_epcs,
  forget_epcs, mark_unsubscribed, unsubscribe, effective_epcs,
}
use pyhems.Devices.Subscriptions.Counts.{Counts, Counts-ext, count_up-Counts, count_down-Counts}

-- The subscription is for the device and is in force.
pub is_active : List ℕ → Subscription → Bool
is_active key s = same_list s.device_key key && not s.unsubscribed

-- How many subscriptions in force want the EPC of the device.
pub tally : List Subscription → List ℕ → ℕ → ℕ
tally [] key a = 0
tally (s ∷ ss) key a = tally ss key a + (if is_active key s && contains s.epcs a then 1 else 0)

-- Whether any does, and whether any subscription for the device was ever made.
pub is_wanted : List Subscription → List ℕ → ℕ → Bool
is_wanted [] key a = false
is_wanted (s ∷ ss) key a = (is_active key s && contains s.epcs a) || is_wanted ss key a

pub was_subscribed : List Subscription → List ℕ → Bool
was_subscribed [] key = false
was_subscribed (s ∷ ss) key = same_list s.device_key key || was_subscribed ss key

is_wanted-tally :
    (ss : List Subscription) (key : List ℕ) (a : ℕ) → is_wanted ss key a ≡ not (tally ss key a == 0)
unfolding is_wanted tally
is_wanted-tally [] key a = refl
is_wanted-tally (s ∷ ss) key a = ground (arith, is_wanted-tally ss key a)

-- The counters count the subscriptions in force, and each subscription is of a set.
pub record IsTally (m : Interests) : Type 0 where
  pub counted :
      (key : List ℕ) → Counts (counts_of m.subscribed_epcs key) (tally m.subscriptions key)
  pub confirmed :
      (key : List ℕ) → has_key m.subscription_confirmed key ≡ was_subscribed m.subscriptions key
  pub sets : All (λ s. Distinct s.epcs) m.subscriptions

no_interests-IsTally : IsTally no_interests
unfolding find counts_of tally was_subscribed
no_interests-IsTally = record { counted = λ key a. refl; confirmed = λ key. refl; sets = tt }

counts_of-put :
    (d : Dict (List ℕ) (Dict ℕ ℕ)) (key k : List ℕ) (counts : Dict ℕ ℕ)
    → counts_of (put d key counts) k ≡ (if same_list key k then counts else counts_of d k)
unfolding counts_of
counts_of-put d key k counts = ap or_no_counts (find-put d key k counts) ∙ cond (same_list key k)
  where
    cond :
        (b : Bool)
        → or_no_counts (if b then some counts else find d k)
          ≡ (if b then counts else or_no_counts (find d k))
    cond true = refl
    cond false = refl

tally-step :
    (s : Subscription) (ss : List Subscription) (key : List ℕ) (a : ℕ)
    → tally (s ∷ ss) key a
      ≡ tally ss key a + (if is_active key s && contains s.epcs a then 1 else 0)
unfolding tally
tally-step s ss key a = refl

subscribe_epcs-IsTally :
    (key epcs : List ℕ) (m : Interests)
    → Distinct epcs
    → IsTally m
    → IsTally (subscribe_epcs key epcs m)
unfolding subscribe_epcs
subscribe_epcs-IsTally key epcs m d t = record {
  counted = λ k. rw (counts_of-put m.subscribed_epcs key k _) (counted_for k);
  confirmed = λ k.
      unfold was_subscribed in
      ground (arith, t.confirmed k, find-put m.subscription_confirmed key k tt);
  sets = (d, t.sets);
}
  where
    new : Subscription
    new = record { device_key = key; epcs = epcs; unsubscribed = false }

    counted_for :
        (k : List ℕ)
        → Counts
            (if same_list key k
              then count_up epcs (counts_of m.subscribed_epcs key)
              else counts_of m.subscribed_epcs k)
            (tally (new ∷ m.subscriptions) k)
    counted_for k = elim (Bool-cases (same_list key k)) [
      | inl same_key ↦
          let e = (same_list_iff key k).0 same_key in
          rw same_key (
            count_up-Counts epcs (counts_of m.subscribed_epcs key) (tally m.subscriptions k) _ d
              (subst (λ j. Counts (counts_of m.subscribed_epcs j) (tally m.subscriptions k)) (sym e)
                (t.counted k))
              (λ a. tally-step new m.subscriptions k a ∙ unfold is_active in rw same_key refl))
      | inr other ↦ rw other (
          Counts-ext _ (tally m.subscriptions k) _
            (λ a. tally-step new m.subscriptions k a ∙ unfold is_active in rw other (omega arith))
            (t.counted k))
    ]

-- What the end of a subscription does to the list of all of them.
record IsMarked (ss : List Subscription) (s : Subscription) (ts : List Subscription) : Type 0 where
  pub one_less :
      (key : List ℕ) (a : ℕ)
      → tally ss key a ≡ tally ts key a + (if is_active key s && contains s.epcs a then 1 else 0)
  pub same_devices : (key : List ℕ) → was_subscribed ts key ≡ was_subscribed ss key
  pub sets : All (λ x. Distinct x.epcs) ss → Distinct s.epcs × All (λ x. Distinct x.epcs) ts

mark_unsubscribed-cases :
    (i : ℕ) (ss : List Subscription)
    → (mark_unsubscribed i ss ≡ none)
      ⊎ ((s : Subscription) × (ts : List Subscription) × (mark_unsubscribed i ss ≡ some (s, ts))
          × IsMarked ss s ts)
unfolding mark_unsubscribed was_subscribed tally is_active
mark_unsubscribed-cases i [] = inl refl
mark_unsubscribed-cases zero (s ∷ ss) = inr (
  s,
  record s { unsubscribed = true } ∷ ss,
  refl,
  record { one_less = λ key a. ground arith; same_devices = λ key. refl; sets = λ h. (h.0, h) },
)
mark_unsubscribed-cases (suc i) (x ∷ ss) = elim (mark_unsubscribed-cases i ss) [
  | inl e ↦ inl (rw (mark_unsubscribed, e) refl)
  | inr (s, ts, e, m) ↦ inr (
    s,
    x ∷ ts,
    rw (mark_unsubscribed, e) refl,
    record {
      one_less = λ key a. omega (arith, m.one_less key a);
      same_devices = λ key. ap (λ b. same_list x.device_key key || b) (m.same_devices key);
      sets = λ h. let (a, b) = m.sets h.1 in (a, (h.0, b));
    },
  )
]

find-nil : (a : ℕ) → find {V = ℕ} [] a ≡ none
unfolding find
find-nil a = refl

-- A device without a Counter has nothing to count.
nothing_counted :
    (d : Dict (List ℕ) (Dict ℕ ℕ)) (key : List ℕ) (f : ℕ → ℕ) (a : ℕ)
    → find d key ≡ none
    → Counts (counts_of d key) f
    → f a ≡ 0
unfolding counts_of
nothing_counted d key f a missing h =
    let empty : find (counts_of d key) a ≡ none = rw (counts_of, missing) (find-nil a) in
    ground (arith, h a, empty)

forget_epcs-Counts :
    (d : Dict (List ℕ) (Dict ℕ ℕ)) (s : Subscription) (key : List ℕ) (f g : ℕ → ℕ)
    → s.unsubscribed ≡ false
    → Distinct s.epcs
    → Counts (counts_of d key) f
    → ((a : ℕ) → f a ≡ g a + (if is_active key s && contains s.epcs a then 1 else 0))
    → Counts (counts_of (forget_epcs d s) key) g
unfolding forget_epcs is_active
forget_epcs-Counts d s key f g live distinct h e = elim (Option-cases (find d s.device_key)) [
  | inl missing ↦ elim (Bool-cases (same_list s.device_key key)) [
    | inl same_key ↦
        let here =
          subst (λ k. find d k ≡ none) ((same_list_iff s.device_key key).0 same_key) missing in
        rw (forget_epcs, missing)
          (Counts-ext _ f g
            (λ a. let none_counted = nothing_counted d key f a here h in omega (arith, e a)) h)
    | inr other ↦
        rw (forget_epcs, missing) (Counts-ext _ f g (λ a. sym (e a ∙ rw other (omega arith))) h)
  ]
  | inr (counts, there) ↦ elim (Bool-cases (same_list s.device_key key)) [
    | inl same_key ↦
        let here : counts_of d key ≡ counts =
          unfold counts_of in
          subst (λ k. or_no_counts (find d k) ≡ counts)
            ((same_list_iff s.device_key key).0 same_key) (ap or_no_counts there) in
        rw (forget_epcs, there, counts_of-put d s.device_key key _, same_key)
          (count_down-Counts s.epcs counts f g distinct (subst (λ c. Counts c f) here h)
            (λ a. e a ∙ rw (same_key, live) refl))
    | inr other ↦
        rw (forget_epcs, there, counts_of-put d s.device_key key _, other)
          (Counts-ext _ f g (λ a. sym (e a ∙ rw other (omega arith))) h)
  ]
]

unsubscribe-IsTally : (i : ℕ) (m : Interests) → IsTally m → IsTally (unsubscribe i m)
unfolding unsubscribe
unsubscribe-IsTally i m t = elim (mark_unsubscribed-cases i m.subscriptions) [
  | inl e ↦ rw (unsubscribe, e) t
  | inr (s, ss, e, k) ↦ elim (Bool-cases s.unsubscribed) [
    | inl before ↦ rw (unsubscribe, e, before) t
    | inr live ↦
        let (distinct, sets) = k.sets t.sets in
        rw (unsubscribe, e, live)
          (record {
            counted = λ key.
                forget_epcs-Counts m.subscribed_epcs s key (tally m.subscriptions key)
                  (tally ss key) live distinct (t.counted key) (k.one_less key);
            confirmed = λ key. t.confirmed key ∙ sym (k.same_devices key);
            sets = sets;
          })
  ]
]

-- A call of `subscribe_epcs`, or of the function that one of them returned: that of the newest
-- subscription is number 0. A history has its latest call first.
pub data InterestEvent : Type 0 where
  subscribes : List ℕ → List ℕ → InterestEvent
  unsubscribes : ℕ → InterestEvent

pub interests_after : List InterestEvent → Interests
interests_after [] = no_interests
interests_after (subscribes key epcs ∷ es) = subscribe_epcs key epcs (interests_after es)
interests_after (unsubscribes i ∷ es) = unsubscribe i (interests_after es)

-- A subscription is for a set of EPCs.
abbrev pub OfSets : List InterestEvent → Type 0
OfSets [] = Unit
OfSets (subscribes key epcs ∷ es) = Distinct epcs × OfSets es
OfSets (unsubscribes i ∷ es) = OfSets es

interests_after-IsTally : (es : List InterestEvent) → OfSets es → IsTally (interests_after es)
unfolding interests_after
interests_after-IsTally [] h = no_interests-IsTally
interests_after-IsTally (subscribes key epcs ∷ es) h =
    subscribe_epcs-IsTally key epcs (interests_after es) h.0 (interests_after-IsTally es h.1)
interests_after-IsTally (unsubscribes i ∷ es) h =
    unsubscribe-IsTally i (interests_after es) (interests_after-IsTally es h)

-- After any calls of `subscribe_epcs` with sets of EPCs and of the functions that it returned, each
-- of these called any number of times: of a device's candidates, an EPC is polled exactly if a
-- subscription in force wants it, or if no subscription for the device was ever made.
pub effective_epcs_lem :
    (es : List InterestEvent) (key candidates : List ℕ) (a : ℕ)
    → OfSets es
    → let m = interests_after es in
      contains (effective_epcs m key candidates) a ≡ (
        contains candidates a
        && (not (was_subscribed m.subscriptions key) || is_wanted m.subscriptions key a))
unfolding effective_epcs
effective_epcs_lem es key candidates a h =
    let t = interests_after-IsTally es h in
    let m = interests_after es in
    elim (Bool-cases (has_key m.subscription_confirmed key)) [
      | inr never ↦ rw (effective_epcs, never) (ground (arith, sym (t.confirmed key) ∙ never))
      | inl confirmed ↦
          rw (effective_epcs, confirmed)
            (contains-select (λ e. has_key (counts_of m.subscribed_epcs key) e) candidates a
              ∙ ground (
                arith,
                sym (t.confirmed key) ∙ confirmed,
                t.counted key a,
                is_wanted-tally m.subscriptions key a,
              ))
    ]
