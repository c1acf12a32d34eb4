-- ===== src/Devices/Ranges.antt =====
-- The initialization of unset collection ranges, src/pyhems/device_manager.py. The collection
-- bindings of a device class are generated data (src/pyhems/_definitions_generated.py), an argument.
use pyhems.Common.{
  leb, if◌then◌else◌, Bool-cases, Option-cases, length, take, is_empty, get_elem?, All, All-map,
  contains, union, contains-nil, contains-union, ℕ_key, list_key, find, ℕ, ◌≤◌, min, ◌≡◌, refl, inl,
  inr, Bool, false, not, ◌&&◌, ◌||◌, Option, none, some, List, [], ◌∷◌, map, arith,
}
use pyhems.Protocol.Frame.{Property}
use pyhems.Codecs.Definitions.{CollectionBinding}
use pyhems.Client.Replies.{SetRequestResult, Exchange, set_properties}
use pyhems.Devices.Nodes.{NodeState, apply_accepted_properties}

-- result_edt is not None and len(result_edt) >= 2 and 0xFD in result_edt[:2]
pub is_unset : Option (List ℕ) → Bool
is_unset none = false
is_unset (some edt) = leb 2 (length edt) && contains (take 2 edt) 0xFD

-- The number of channels, of a value that is one byte from 1 to 252.
pub channel_count : Option (List ℕ) → Option ℕ
channel_count none = none
channel_count (some []) = none
channel_count (some (n ∷ [])) = if leb 1 n && leb n 252 then some n else none
channel_count (some (n ∷ m ∷ bs)) = none

pub range_property : ℕ → ℕ → Option ℕ → Option Property
range_property selector max_range none = none
range_property selector max_range (some channels) =
    let range = min max_range channels in
    if leb 1 range && leb range 0xFF
    then some (record { epc = selector; edt = 1 ∷ range ∷ [] })
    else none

pub recovery_of_parts : NodeState → ℕ → Option ℕ → Option ℕ → Option ℕ → Option Property
unfolding is_unset channel_count range_property
recovery_of_parts node result (some count) (some selector) (some max_range) =
    if contains node.range_recovery_attempted_epcs selector
      || not (is_unset (find node.properties result))
    then none
    else range_property selector max_range (channel_count (find node.properties count))
recovery_of_parts node result _ _ _ = none

-- One round of the loop: the property to write, if any.
pub recovery_property : NodeState → CollectionBinding → Option Property
unfolding recovery_of_parts
recovery_property node b =
    recovery_of_parts node b.result_epc b.count_epc b.selector_epc b.max_range

unfoldable pub recovery_properties : NodeState → List CollectionBinding → List Property
unfolding recovery_property
recovery_properties node [] = []
recovery_properties node (b ∷ bs) =
    let rest = recovery_properties node bs in
    elim (recovery_property node b) [ none ↦ rest | some p ↦ p ∷ rest ]

pub apply_sent : NodeState → List Property → SetRequestResult → NodeState × List ℕ
apply_sent node ps result =
    if result.sent then apply_accepted_properties node ps result.accepted_epcs else (node, [])

-- The node afterwards, and the EPCs whose cached value changed.
pub recover_uninitialized_collection_ranges :
    List CollectionBinding → Bool → Exchange → NodeState → NodeState × List ℕ
recover_uninitialized_collection_ranges bindings reachable exchange node =
    let ps = recovery_properties node bindings in
    let attempted = union node.range_recovery_attempted_epcs (map (λ p. p.epc) ps) in
    if is_empty ps
    then (node, [])
    else apply_sent (record node { range_recovery_attempted_epcs = attempted }) ps
        (set_properties reachable ps exchange)

-- The first `range` channels of a selector that was not tried before.
pub record IsRecovery (node : NodeState) (p : Property) : Type 0 where
  pub first_try : contains node.range_recovery_attempted_epcs p.epc ≡ false
  pub range : ℕ
  pub from_first : p.edt ≡ 1 ∷ range ∷ []
  pub at_least_one : 1 ≤ range
  pub at_most_252 : range ≤ 252

abbrev pub IsRecoveryIf : NodeState → Option Property → Type 0
IsRecoveryIf node none = Unit
IsRecoveryIf node (some p) = IsRecovery node p

range_property-IsRecovery :
    (node : NodeState) (selector max_range : ℕ) (value : Option (List ℕ))
    → contains node.range_recovery_attempted_epcs selector ≡ false
    → IsRecoveryIf node (range_property selector max_range (channel_count value))
unfolding range_property channel_count
range_property-IsRecovery node selector max_range none h = tt
range_property-IsRecovery node selector max_range (some []) h = tt
range_property-IsRecovery node selector max_range (some (n ∷ m ∷ bs)) h = tt
range_property-IsRecovery node selector max_range (some (n ∷ [])) h =
    elim (Bool-cases (leb 1 n && leb n 252)) [
      | inr outside ↦ rw outside tt
      | inl inside ↦ elim (Bool-cases (leb 1 (min max_range n) && leb (min max_range n) 0xFF)) [
        | inr none_left ↦ rw (inside, none_left) tt
        | inl some_left ↦
            rw (inside, some_left)
              (record {
                first_try = h;
                range = min max_range n;
                from_first = refl;
                at_least_one = ground arith;
                at_most_252 = ground arith;
              })
      ]
    ]

recovery_of_parts-IsRecovery :
    (node : NodeState) (result : ℕ) (count selector max_range : Option ℕ)
    → IsRecoveryIf node (recovery_of_parts node result count selector max_range)
unfolding recovery_of_parts
recovery_of_parts-IsRecovery node result none selector max_range = tt
recovery_of_parts-IsRecovery node result (some c) none max_range = tt
recovery_of_parts-IsRecovery node result (some c) (some s) none = tt
recovery_of_parts-IsRecovery node result (some c) (some s) (some m) =
    elim (Bool-cases (
      contains node.range_recovery_attempted_epcs s
      || not (is_unset (find node.properties result)))) [
        | inl done ↦ rw done tt
        | inr unset ↦
            rw unset (range_property-IsRecovery node s m (find node.properties c) (ground arith))
      ]

recovery_properties-IsRecovery :
    (node : NodeState) (bs : List CollectionBinding)
    → All (IsRecovery node) (recovery_properties node bs)
unfolding recovery_properties recovery_property
recovery_properties-IsRecovery node [] = tt
recovery_properties-IsRecovery node (b ∷ bs) =
    with_first (recovery_property node b)
      (recovery_of_parts-IsRecovery node b.result_epc b.count_epc b.selector_epc b.max_range)
      (recovery_properties-IsRecovery node bs)
  where
    with_first :
        (o : Option Property)
        → IsRecoveryIf node o
        → All (IsRecovery node) (recovery_properties node bs)
        → All (IsRecovery node) (elim o [
          | none ↦ recovery_properties node bs
          | some p ↦ p ∷ recovery_properties node bs
        ])
    with_first none h rest = rest
    with_first (some p) h rest = (h, rest)

abbrev attempted_of : NodeState × List ℕ → List ℕ
attempted_of (node, changed) = node.range_recovery_attempted_epcs

apply_sent_lem :
    (node : NodeState) (ps : List Property) (r : SetRequestResult)
    → attempted_of (apply_sent node ps r) ≡ node.range_recovery_attempted_epcs
unfolding apply_sent apply_accepted_properties
apply_sent_lem node ps r = elim (Bool-cases r.sent) [
  | inl sent ↦ rw sent refl
  | inr unsent ↦ rw unsent refl
]

-- The selectors that a recovery writes are marked as tried, whatever comes of the write.
attempted_after :
    (bindings : List CollectionBinding) (reachable : Bool) (exchange : Exchange) (node : NodeState)
    (e : ℕ)
    → contains
        (attempted_of (recover_uninitialized_collection_ranges bindings reachable exchange node))
        e
      ≡ (contains node.range_recovery_attempted_epcs e
          || contains (map (λ p. p.epc) (recovery_properties node bindings)) e)
unfolding recover_uninitialized_collection_ranges
attempted_after bindings reachable exchange node e =
    elim (Option-cases (get_elem? (recovery_properties node bindings) 0)) [
      | inl nothing ↦
          let none_left = no_first (recovery_properties node bindings) nothing in
          rw none_left (ground (arith, contains-nil e))
      | inr (p, first) ↦
          let some_left = is_empty-first (recovery_properties node bindings) p first in
          rw
            (
              some_left,
              apply_sent_lem _ (recovery_properties node bindings)
                  (set_properties reachable (recovery_properties node bindings) exchange),
            )
            (contains-union node.range_recovery_attempted_epcs _ e)
    ]
  where
    no_first : (ps : List Property) → get_elem? ps 0 ≡ none → ps ≡ []
    no_first [] h = refl
    no_first (p ∷ ps) h = cc

    is_empty-first :
        (ps : List Property) (p : Property) → get_elem? ps 0 ≡ some p → is_empty ps ≡ false
    is_empty-first [] p h = cc
    is_empty-first (q ∷ ps) p h = refl

-- Each property that a recovery writes selects the channels from 1 to some number, at most 252, by
-- an EPC that was not tried for the node before; and a later recovery of the node it leaves,
-- whatever came of the write, writes none of these EPCs again.
pub recover-IsOneShot :
    (bindings later : List CollectionBinding) (reachable : Bool) (exchange : Exchange)
    (node : NodeState)
    → let after = (recover_uninitialized_collection_ranges bindings reachable exchange node).0 in
      All (IsRecovery node) (recovery_properties node bindings)
      × All
          (λ p. contains (map (λ q. q.epc) (recovery_properties node bindings)) p.epc ≡ false)
          (recovery_properties after later)
recover-IsOneShot bindings later reachable exchange node =
    let after = (recover_uninitialized_collection_ranges bindings reachable exchange node).0 in
    (
      recovery_properties-IsRecovery node bindings,
      All-map _ _ (recovery_properties after later)
          (λ p r.
            ground (arith, r.first_try, attempted_after bindings reachable exchange node p.epc))
          (recovery_properties-IsRecovery after later),
    )
