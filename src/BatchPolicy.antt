-- ===== src/BatchPolicy.antt =====
-- GET batch policies, src/pyhems/get_batch_policy.py.
pub mod Split
pub mod Progress
use pyhems.Common.{
  ltb, leb, ◌==◌, if◌then◌else◌, length, is_empty, contains, intersection, difference, value_error,
  Result, ok, raised, ℕ_key, list_key, ℕ, ◌+◌, min, Bool, true, false, not, ◌&&◌, ◌||◌, Option,
  none, some, List, [], ◌∷◌, ◌++◌,
}

-- A pair of the source is a frozenset of EPCs.
pub record GetBatchPolicy : Type 0 where
  pub incompatible_pairs : List (List ℕ)
  pub max_batch_size : Option ℕ

-- GET_BATCH_POLICIES, by manufacturer code and class code.
abbrev pub get_batch_policies : List (ℕ × ℕ × GetBatchPolicy)
get_batch_policies =
    (
      0x00000B,
      0x0287,
      record { incompatible_pairs = (0xB3 ∷ 0xB7 ∷ []) ∷ []; max_batch_size = none },
    )
    ∷ (0x0000E8, 0x0290, record { incompatible_pairs = []; max_batch_size = some 14 })
    ∷ (0x0000E8, 0x02A3, record { incompatible_pairs = []; max_batch_size = some 9 })
    ∷ []

find_policy : List (ℕ × ℕ × GetBatchPolicy) → ℕ → ℕ → Option GetBatchPolicy
find_policy [] m c = none
find_policy ((m', c', policy) ∷ table) m c =
    if (m' == m) && (c' == c) then some policy else find_policy table m c

policy_classes : List (ℕ × ℕ × GetBatchPolicy) → List ℕ
policy_classes [] = []
policy_classes ((m, c, policy) ∷ table) = c ∷ policy_classes table

unfoldable pub has_get_batch_policy_for_class : ℕ → Bool
unfolding policy_classes contains
has_get_batch_policy_for_class class_code = contains (policy_classes get_batch_policies) class_code

unfoldable pub get_get_batch_policy : Option ℕ → ℕ → Option GetBatchPolicy
unfolding find_policy
get_get_batch_policy none class_code = none
get_get_batch_policy (some manufacturer_code) class_code =
    find_policy get_batch_policies manufacturer_code class_code

-- `all(not (epc in pair and bool((pair - {epc}) & batch_epcs)) for pair in ...)`
pub can_add_to_pairs : List ℕ → ℕ → List (List ℕ) → Bool
can_add_to_pairs batch epc [] = true
can_add_to_pairs batch epc (pair ∷ pairs) =
    not (contains pair epc && not (is_empty (intersection (difference pair (epc ∷ [])) batch)))
    && can_add_to_pairs batch epc pairs

pub can_add_to_batch : List ℕ → ℕ → Option GetBatchPolicy → Bool
unfolding can_add_to_pairs
can_add_to_batch batch epc none = true
can_add_to_batch batch epc (some policy) = can_add_to_pairs batch epc policy.incompatible_pairs

-- The smaller of the policy's size and the observed capacity, of those that there are.
pub smaller_capacity : Option ℕ → Option ℕ → Option ℕ
smaller_capacity none observed = observed
smaller_capacity (some size) none = some size
smaller_capacity (some size) (some capacity) = some (min capacity size)

unfoldable pub batch_capacity : Option GetBatchPolicy → Option ℕ → Option ℕ
unfolding smaller_capacity
batch_capacity none observed = observed
batch_capacity (some policy) observed = smaller_capacity policy.max_batch_size observed

-- `capacity is not None and len(batch) >= capacity`
pub is_full : Option ℕ → List ℕ → Bool
is_full none batch = false
is_full (some capacity) batch = leb capacity (length batch)

-- The loop over the EPCs, with the batch and the remainder so far.
pub split_loop : Option ℕ → Option GetBatchPolicy → List ℕ → List ℕ → List ℕ → List ℕ × List ℕ
split_loop capacity policy batch remaining [] = (batch, remaining)
split_loop capacity policy batch remaining (epc ∷ epcs) =
    elim (is_full capacity batch || not (can_add_to_batch batch epc policy)) [
      | true ↦ split_loop capacity policy batch (remaining ++ epc ∷ []) epcs
      | false ↦ split_loop capacity policy (batch ++ epc ∷ []) remaining epcs
    ]

-- `observed_batch_capacity is not None and observed_batch_capacity < 1`
pub rejects_capacity : Option ℕ → Bool
rejects_capacity none = false
rejects_capacity (some capacity) = ltb capacity 1

unfoldable pub take_first_batch : List ℕ → Option ℕ → ℕ → Option ℕ → Result (List ℕ × List ℕ)
unfolding rejects_capacity split_loop is_full can_add_to_batch
take_first_batch epcs manufacturer_code class_code observed =
    if rejects_capacity observed
    then raised value_error
    else let policy = get_get_batch_policy manufacturer_code class_code in
      ok (split_loop (batch_capacity policy observed) policy [] [] epcs)
