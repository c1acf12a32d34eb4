-- ===== src/BatchPolicy/Progress.antt =====
-- What `take_first_batch` (src/pyhems/get_batch_policy.py) promises to its callers.
use mathlib.Core.List.{Perm}
use pyhems.Common.{
  Bool-cases, length, contains, contains-cons, value_error, ok, raised, ℕ, ◌≤◌, ◌<◌, ◌≡◌, refl, ◌⊎◌,
  inl, inr, true, false, Option, none, some, List, [], ◌∷◌, ◌++◌, arith,
}
use pyhems.BatchPolicy.{
  smaller_capacity, GetBatchPolicy, get_get_batch_policy, batch_capacity, is_full, split_loop,
  rejects_capacity, take_first_batch,
}
use pyhems.BatchPolicy.Split.{
  PolicyAllows, PolicyAllows-nil, split_loop-perm, split_loop-bounded, split_loop-PolicyAllows,
  split_loop-first,
}

-- A bound that is there holds of the number.
abbrev pub Within : ℕ → Option ℕ → Type 0
Within n none = Unit
Within n (some bound) = n ≤ bound

-- The largest batch that the policy of a device class lets through.
abbrev pub policy_size : Option GetBatchPolicy → Option ℕ
policy_size none = none
policy_size (some policy) = policy.max_batch_size

-- A batch and a remainder for `epcs`, under a policy and an observed capacity.
pub record IsBatch (epcs : List ℕ) (policy : Option GetBatchPolicy) (observed : Option ℕ)
    (batch remaining : List ℕ) : Type 0 where
  pub nothing_lost : Perm (batch ++ remaining) epcs
  pub within_observed : Within (length batch) observed
  pub within_policy : Within (length batch) (policy_size policy)
  pub compatible : PolicyAllows policy batch
  pub takes_first : (epc : ℕ) (others : List ℕ) → epcs ≡ epc ∷ others → contains batch epc ≡ true

-- The policies of the table let at least one EPC through.
policy_size_pos :
    (manufacturer : Option ℕ) (class_code size : ℕ)
    → policy_size (get_get_batch_policy manufacturer class_code) ≡ some size
    → 0 < size
unfolding get_get_batch_policy
policy_size_pos none class_code size e = cc
policy_size_pos (some m) class_code size e = ground arith

smaller_capacity-bounds :
    (size observed : Option ℕ) (n : ℕ)
    → Within n (smaller_capacity size observed)
    → Within n observed × Within n size
unfolding smaller_capacity
smaller_capacity-bounds none observed n h = (h, tt)
smaller_capacity-bounds (some size) none n h = (tt, h)
smaller_capacity-bounds (some size) (some capacity) n h = (omega arith, omega arith)

batch_capacity-bounds :
    (policy : Option GetBatchPolicy) (observed : Option ℕ) (n : ℕ)
    → Within n (batch_capacity policy observed)
    → Within n observed × Within n (policy_size policy)
unfolding batch_capacity
batch_capacity-bounds none observed n h = (h, tt)
batch_capacity-bounds (some policy) observed n h =
    smaller_capacity-bounds policy.max_batch_size observed n h

smaller_capacity_room :
    (size observed : Option ℕ)
    → ((n : ℕ) → size ≡ some n → 0 < n)
    → rejects_capacity observed ≡ false
    → is_full (smaller_capacity size observed) [] ≡ false
unfolding smaller_capacity rejects_capacity is_full
smaller_capacity_room none none h e = refl
smaller_capacity_room none (some capacity) h e = ground arith
smaller_capacity_room (some size) none h e = ground (arith, h size refl)
smaller_capacity_room (some size) (some capacity) h e = ground (arith, h size refl)

batch_capacity_room :
    (policy : Option GetBatchPolicy) (observed : Option ℕ)
    → ((size : ℕ) → policy_size policy ≡ some size → 0 < size)
    → rejects_capacity observed ≡ false
    → is_full (batch_capacity policy observed) [] ≡ false
unfolding batch_capacity
batch_capacity_room none observed h e = smaller_capacity_room none observed h e
batch_capacity_room (some policy) observed h e =
    smaller_capacity_room policy.max_batch_size observed h e

split_loop-Within :
    (capacity : Option ℕ) (policy : Option GetBatchPolicy) (epcs : List ℕ)
    → Within (length (split_loop capacity policy [] [] epcs).0) capacity
split_loop-Within none policy epcs = tt
split_loop-Within (some bound) policy epcs =
    split_loop-bounded (some bound) policy epcs [] [] bound refl (omega arith)

split_takes_first :
    (capacity : Option ℕ) (policy : Option GetBatchPolicy) (epcs : List ℕ)
    → is_full capacity [] ≡ false
    → (epc : ℕ) (others : List ℕ) → epcs ≡ epc ∷ others
    → contains (split_loop capacity policy [] [] epcs).0 epc ≡ true
split_takes_first capacity policy epcs room epc others e =
    let (more, m) = split_loop-first capacity policy epc others room in
    rw (e, m) (ground (arith, contains-cons epc more epc))

-- A capacity of zero is rejected. Any other request is split into a batch and a remainder that
-- together hold the EPCs, as often as requested; the batch is within the observed capacity and
-- the size of the policy, has no two EPCs of an incompatible pair, and holds the first EPC.
pub take_first_batch_lem :
    (epcs : List ℕ) (manufacturer : Option ℕ) (class_code : ℕ) (observed : Option ℕ)
    → ((observed ≡ some 0)
        × (take_first_batch epcs manufacturer class_code observed ≡ raised value_error))
      ⊎ ((batch : List ℕ) × (remaining : List ℕ) × (take_first_batch epcs manufacturer class_code
              observed
            ≡ ok (batch, remaining))
          × IsBatch epcs (get_get_batch_policy manufacturer class_code) observed batch remaining)
unfolding take_first_batch
take_first_batch_lem epcs manufacturer class_code observed =
    elim (Bool-cases (rejects_capacity observed)) [
      | inl bad ↦ inl (rejected observed bad, rw bad)
      | inr good ↦ inr (
        split.0,
        split.1,
        rw good,
        record {
          nothing_lost = split_loop-perm capacity policy epcs [] [];
          within_observed = bounds.0;
          within_policy = bounds.1;
          compatible = split_loop-PolicyAllows capacity policy epcs [] [] (PolicyAllows-nil policy);
          takes_first =
              split_takes_first capacity policy epcs (
                batch_capacity_room policy observed (policy_size_pos manufacturer class_code) good);
        },
      )
    ]
  where
    policy : Option GetBatchPolicy
    policy = get_get_batch_policy manufacturer class_code

    capacity : Option ℕ
    capacity = batch_capacity policy observed

    split : List ℕ × List ℕ
    split = split_loop capacity policy [] [] epcs

    bounds : Within (length split.0) observed × Within (length split.0) (policy_size policy)
    bounds =
        batch_capacity-bounds policy observed (length split.0)
          (split_loop-Within capacity policy epcs)

    rejected : (o : Option ℕ) → rejects_capacity o ≡ true → o ≡ some 0
    rejected none bad = cc
    rejected (some n) bad = ground arith
