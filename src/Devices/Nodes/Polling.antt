-- ===== src/Devices/Nodes/Polling.antt =====
-- Which EPCs of a device object are polled (src/pyhems/device_manager.py).
use pyhems.Common.{
  Bool-cases, is_empty, contains, intersection, difference, union, contains-nil,
  contains-intersection, contains-difference, contains-union, ℕ_key, list_key, Dict, ℕ, ◌≡◌, refl,
  ◌∙◌, subst, ◌⊎◌, inl, inr, Bool, true, false, not, ◌&&◌, ◌||◌, Option, none, some, List, [], ◌∷◌,
  arith,
}
use pyhems.Protocol.Objects.{Eoj}
use pyhems.Protocol.Frame.{Property}
use pyhems.Client.Replies.{InfRequestResult, Exchange, request_notifications}
use pyhems.Client.Replies.Coverage.{InfCovers, request_notifications-Covers}
use pyhems.Devices.Nodes.{
  EpcSelection, compute_poll_epcs, NodeState, node_of_maps, setup_node, apply_inf_result,
  send_initial_notification,
}

-- The two tiers split the pollable EPCs.
pub record IsSplit (monitored get_epcs fast_candidates notified poll fast : List ℕ) : Type 0 where
  pub all_polled :
      (a : ℕ)
      → (contains poll a || contains fast a)
        ≡ (contains monitored a && (contains get_epcs a && not (contains notified a)))
  pub one_tier : (a : ℕ) → (contains poll a && contains fast a) ≡ false
  pub fast_tier :
      (a : ℕ)
      → contains fast a ≡ ((contains poll a || contains fast a) && contains fast_candidates a)

-- `_compute_poll_epcs` splits the monitored EPCs that can be read and were not notified into two
-- disjoint tiers, and the fast tier is what of them is a fast candidate.
pub compute_poll_epcs-IsSplit :
    (monitored get_epcs fast_candidates notified : List ℕ)
    → let tiers = compute_poll_epcs monitored get_epcs fast_candidates notified in
      IsSplit monitored get_epcs fast_candidates notified tiers.0 tiers.1
unfolding compute_poll_epcs
compute_poll_epcs-IsSplit monitored get_epcs fast_candidates notified = record {
  all_polled = λ a. ground (arith, facts a);
  one_tier = λ a. ground (arith, facts a);
  fast_tier = λ a. ground (arith, facts a);
}
  where
    pollable : List ℕ
    pollable = difference (intersection monitored get_epcs) notified

    fast : List ℕ
    fast = intersection pollable fast_candidates

    facts :
        (a : ℕ)
        → (contains fast a ≡ (contains pollable a && contains fast_candidates a))
          × ((contains pollable a
                ≡ (contains monitored a && (contains get_epcs a && not (contains notified a))))
              × (contains (difference pollable fast) a
                  ≡ (contains pollable a && not (contains fast a))))
    facts a = (
      contains-intersection pollable fast_candidates a,
      (
        ground (
          arith,
          contains-difference (intersection monitored get_epcs) notified a,
          contains-intersection monitored get_epcs a,
        ),
        contains-difference pollable fast a,
      ),
    )

-- What a node polls fits what it knows, and no EPC that it asked a notification for is forgotten.
pub record IsPolled (node : NodeState) : Type 0 where
  pub split :
      IsSplit node.monitored_epcs node.get_epcs node.fast_candidate_epcs node.inf_notified_epcs
        node.poll_epcs node.fast_poll_epcs
  pub asked :
      (a : ℕ)
      → contains node.inf_request_epcs a
        ≡ (contains node.monitored_epcs a && contains node.inf_epcs a)
  pub notified_asked :
      (a : ℕ) → contains node.inf_notified_epcs a ≡ true → contains node.inf_request_epcs a ≡ true

-- A node that no notification was requested from.
record IsFresh (node : NodeState) : Type 0 where
  pub polled : IsPolled node
  pub none_notified : node.inf_notified_epcs ≡ []
  pub none_unconfirmed : node.inf_unconfirmed_epcs ≡ []

node_of_maps-IsFresh :
    (node_id : List ℕ) (eoj : Eoj) (manufacturer : ℕ) (monitored fast : List ℕ)
    (d : Dict ℕ (List ℕ)) (get_map set_map inf_map : Option (List ℕ)) (node : NodeState)
    → node_of_maps node_id eoj manufacturer monitored fast d get_map set_map inf_map ≡ some node
    → IsFresh node
unfolding node_of_maps
node_of_maps-IsFresh node_id eoj manufacturer monitored fast d none set_map inf_map node e = cc
node_of_maps-IsFresh node_id eoj manufacturer monitored fast d (some g) none inf_map node e = cc
node_of_maps-IsFresh node_id eoj manufacturer monitored fast d (some g) (some s) none node e = cc
node_of_maps-IsFresh node_id eoj manufacturer monitored fast d (some g) (some s) (some i) node e =
    subst IsFresh (some_inj e) (record {
      polled = record {
        split = compute_poll_epcs-IsSplit monitored g (intersection monitored fast) [];
        asked = contains-intersection monitored i;
        notified_asked = λ a h. ground (arith, contains-nil a);
      };
      none_notified = refl;
      none_unconfirmed = refl;
    })
  where
    some_inj : {x y : NodeState} → some x ≡ some y → x ≡ y
    some_inj h = cc

setup_node-IsFresh :
    (monitored fast : EpcSelection) (node_id : List ℕ) (eoj : Eoj) (manufacturer : ℕ)
    (ps : List Property) (node : NodeState)
    → setup_node monitored fast node_id eoj manufacturer ps ≡ some node
    → IsFresh node
unfolding setup_node
setup_node-IsFresh monitored fast node_id eoj manufacturer ps node e =
    node_of_maps-IsFresh _ _ _ _ _ _ _ _ _ node e

-- After its notification request, an EPC that was asked for is notified or unconfirmed.
pub record IsConfirmed (node : NodeState) : Type 0 where
  pub polled : IsPolled node
  pub answered_all :
      (a : ℕ)
      → contains node.inf_request_epcs a
        ≡ (contains node.inf_notified_epcs a || contains node.inf_unconfirmed_epcs a)
  pub unconfirmed_polled :
      (a : ℕ)
      → contains node.inf_unconfirmed_epcs a ≡ true
      → contains node.get_epcs a ≡ true
      → (contains node.poll_epcs a || contains node.fast_poll_epcs a) ≡ true

-- The EPCs of one answer are all notified or all rejected.
abbrev OneKind : InfRequestResult → Type 0
OneKind r = (r.notified_epcs ≡ []) ⊎ (r.inf_rejected_epcs ≡ [])

not_notified :
    (requested : List ℕ) (r : InfRequestResult) (a : ℕ)
    → InfCovers requested r
    → OneKind r
    → contains (union r.inf_rejected_epcs r.inf_unanswered_epcs) a ≡ true
    → (contains requested a ≡ true) × (contains r.notified_epcs a ≡ false)
not_notified requested r a c (inl none_notified) h =
    let empty : contains r.notified_epcs a ≡ false = rw none_notified (contains-nil a) in
    ground (
      arith,
      contains-union r.inf_rejected_epcs r.inf_unanswered_epcs a,
      c.rest_unanswered a,
      c.rejected_requested a,
    )
not_notified requested r a c (inr none_rejected) h =
    let empty : contains r.inf_rejected_epcs a ≡ false = rw none_rejected (contains-nil a) in
    ground (arith, contains-union r.inf_rejected_epcs r.inf_unanswered_epcs a, c.rest_unanswered a)

apply_inf_result-IsConfirmed :
    (node : NodeState) (r : InfRequestResult)
    → IsPolled node
    → InfCovers node.inf_request_epcs r
    → OneKind r
    → IsConfirmed (apply_inf_result node r)
unfolding apply_inf_result
apply_inf_result-IsConfirmed node r p c k =
    let split =
      compute_poll_epcs-IsSplit node.monitored_epcs node.get_epcs node.fast_candidate_epcs
        r.notified_epcs in
    record {
      polled = record { split = split; asked = p.asked; notified_asked = c.accepted_requested };
      answered_all = λ a. ground (
        arith,
        contains-union r.inf_rejected_epcs r.inf_unanswered_epcs a,
        c.rest_unanswered a,
        c.accepted_requested a,
        c.rejected_requested a,
      );
      unconfirmed_polled = λ a h g.
          let (asked, quiet) = not_notified node.inf_request_epcs r a c k h in
          split.all_polled a ∙ ground (arith, p.asked a);
    }

IsConfirmed-at_once :
    (node : NodeState) → IsFresh node → node.inf_request_epcs ≡ [] → IsConfirmed node
IsConfirmed-at_once node f e = record {
  polled = f.polled;
  answered_all = λ a. rw (e, f.none_notified, f.none_unconfirmed, contains-nil a) refl;
  unconfirmed_polled =
      λ a h g. let clash : false ≡ true = rw (f.none_unconfirmed, contains-nil a) at h in absurd cc;
}

is_empty-eq : {A : Type 0} (xs : List A) → is_empty xs ≡ true → xs ≡ []
is_empty-eq [] h = refl
is_empty-eq (x ∷ xs) h = cc

-- When a setup succeeds, the node polls exactly its monitored and readable EPCs that were not
-- notified, each in one tier, the fast one for the fast candidates; each EPC that was asked to be
-- notified is notified or unconfirmed, and the unconfirmed ones that can be read are polled.
pub setup-IsConfirmed :
    (monitored fast : EpcSelection) (node_id : List ℕ) (eoj : Eoj) (manufacturer : ℕ)
    (ps : List Property) (node : NodeState) (reachable : Bool) (exchange : Exchange)
    → setup_node monitored fast node_id eoj manufacturer ps ≡ some node
    → IsConfirmed (send_initial_notification reachable exchange node)
unfolding send_initial_notification
setup-IsConfirmed monitored fast node_id eoj manufacturer ps node reachable exchange e =
    let f = setup_node-IsFresh monitored fast node_id eoj manufacturer ps node e in
    let (c, k) = request_notifications-Covers reachable node.inf_request_epcs exchange in
    elim (Bool-cases (is_empty node.inf_request_epcs)) [
      | inl nothing ↦
          rw nothing (IsConfirmed-at_once node f (is_empty-eq node.inf_request_epcs nothing))
      | inr something ↦ rw something (
          apply_inf_result-IsConfirmed node
            (request_notifications reachable node.inf_request_epcs exchange) f.polled c k)
    ]
