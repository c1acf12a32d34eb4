-- ===== src/Devices/Nodes.antt =====
-- What src/pyhems/device_manager.py keeps of one device object, how setup builds it, and how frames
-- and accepted writes change it. A text that comes from bytes is the list of its codes.
pub mod Polling
pub mod Cache
use pyhems.Common.{
  ltb, ◌==◌, if◌then◌else◌, is_empty, contains, intersection, difference, union, digits_be, ℕ_key,
  same_list, list_key, Dict, find, put, ℕ, ◌+◌, Bool, true, false, not, ◌&&◌, ◌||◌, Option, none,
  some, List, [], ◌∷◌, ◌++◌,
}
use pyhems.Protocol.Services.{Esv}
use pyhems.Protocol.Objects.{Eoj, class_code}
use pyhems.Protocol.Frame.{Property, Frame}
use pyhems.Client.Replies.{InfRequestResult, Exchange, request_notifications}
use pyhems.Devices.PropertyMap.{parse_property_map}

-- EpcSelection, a mapping or a function of the class and the manufacturer
pub data EpcSelection : Type 0 where
  by_class : Dict ℕ (List ℕ) → EpcSelection
  by_function : (ℕ → ℕ → List ℕ) → EpcSelection

pub or_empty : Option (List ℕ) → List ℕ
or_empty none = []
or_empty (some epcs) = epcs

pub select_epcs : EpcSelection → ℕ → ℕ → List ℕ
unfolding or_empty find
select_epcs (by_class epcs) class manufacturer = or_empty (find epcs class)
select_epcs (by_function f) class manufacturer = f class manufacturer

-- Two tiers of polled EPCs: the normal one, then the fast one.
pub compute_poll_epcs : List ℕ → List ℕ → List ℕ → List ℕ → List ℕ × List ℕ
compute_poll_epcs monitored get_epcs fast_candidates inf_notified =
    let pollable = difference (intersection monitored get_epcs) inf_notified in
    let fast = intersection pollable fast_candidates in (difference pollable fast, fast)

-- edt.rstrip(b"\x00 ")
pub rstrip : List ℕ → List ℕ
rstrip [] = []
rstrip (b ∷ bs) =
    let rest = rstrip bs in if is_empty rest && (b == 0 || b == 32) then [] else b ∷ rest

pub is_ascii : List ℕ → Bool
is_ascii [] = true
is_ascii (b ∷ bs) = ltb b 128 && is_ascii bs

pub decode_ascii_property : List ℕ → Option (List ℕ)
unfolding rstrip is_ascii
decode_ascii_property [] = none
decode_ascii_property (b ∷ bs) = if is_ascii (rstrip (b ∷ bs)) then some (rstrip (b ∷ bs)) else none

pub record NodeState : Type 0 where
  pub eoj : Eoj
  pub properties : Dict ℕ (List ℕ)
  pub node_id : List ℕ
  pub manufacturer_code : ℕ
  pub get_epcs : List ℕ
  pub set_epcs : List ℕ
  pub inf_epcs : List ℕ
  pub poll_epcs : List ℕ
  pub fast_poll_epcs : List ℕ
  pub product_code : Option (List ℕ)
  pub serial_number : Option (List ℕ)
  pub monitored_epcs : List ℕ
  pub fast_candidate_epcs : List ℕ
  pub inf_request_epcs : List ℕ
  pub inf_notified_epcs : List ℕ
  pub inf_unconfirmed_epcs : List ℕ
  pub polling_available : Option Bool
  pub range_recovery_attempted_epcs : List ℕ

-- {prop.epc: prop.edt for prop in ps if prop.edt}, onto `d`
pub values_of : Dict ℕ (List ℕ) → List Property → Dict ℕ (List ℕ)
unfolding put
values_of d [] = d
values_of d (p ∷ ps) = values_of (if is_empty p.edt then d else put d p.epc p.edt) ps

-- properties.get(epc, b"")
pub value_or_empty : Dict ℕ (List ℕ) → ℕ → List ℕ
unfolding or_empty find
value_or_empty d epc = or_empty (find d epc)

-- The node that `_setup_device` makes of the properties that it has read, if the three property
-- maps are there and well-formed. The manufacturer code was read on its own before.
pub node_of_maps :
    List ℕ
    → Eoj
    → ℕ
    → List ℕ
    → List ℕ
    → Dict ℕ (List ℕ)
    → Option (List ℕ)
    → Option (List ℕ)
    → Option (List ℕ)
    → Option NodeState
unfolding decode_ascii_property value_or_empty compute_poll_epcs
node_of_maps node_id eoj manufacturer monitored fast d (some get_epcs) (some set_epcs)
      (some inf_epcs) =
    let fast_candidates = intersection monitored fast in
    let (poll, fast_poll) = compute_poll_epcs monitored get_epcs fast_candidates [] in
    some (record {
      eoj = eoj;
      properties = d;
      node_id = node_id;
      manufacturer_code = manufacturer;
      get_epcs = get_epcs;
      set_epcs = set_epcs;
      inf_epcs = inf_epcs;
      poll_epcs = poll;
      fast_poll_epcs = fast_poll;
      product_code = decode_ascii_property (value_or_empty d 0x8C);
      serial_number = decode_ascii_property (value_or_empty d 0x8D);
      monitored_epcs = monitored;
      fast_candidate_epcs = fast_candidates;
      inf_request_epcs = intersection monitored inf_epcs;
      inf_notified_epcs = [];
      inf_unconfirmed_epcs = [];
      polling_available = none;
      range_recovery_attempted_epcs = [];
    })
node_of_maps node_id eoj manufacturer monitored fast d get_map set_map inf_map = none

unfoldable pub setup_node :
    EpcSelection → EpcSelection → List ℕ → Eoj → ℕ → List Property → Option NodeState
unfolding select_epcs values_of value_or_empty node_of_maps parse_property_map
setup_node monitored fast node_id eoj manufacturer ps =
    let d = put (values_of [] ps) 0x8A (digits_be 3 manufacturer) in
    node_of_maps node_id eoj manufacturer (select_epcs monitored (class_code eoj) manufacturer)
      (select_epcs fast (class_code eoj) manufacturer) d
      (parse_property_map (value_or_empty d 0x9F)) (parse_property_map (value_or_empty d 0x9E))
      (parse_property_map (value_or_empty d 0x9D))

-- The EPCs of all the reads of a setup, in their order; the sorting is left out.
unfoldable pub setup_epcs : List ℕ → List ℕ
setup_epcs initial =
    let base = 0x9D ∷ 0x9E ∷ 0x9F ∷ 0x8C ∷ 0x8D ∷ [] in
    base ++ difference (difference initial base) (0x8A ∷ [])

pub apply_inf_result : NodeState → InfRequestResult → NodeState
unfolding compute_poll_epcs
apply_inf_result node r =
    let (poll, fast_poll) =
      compute_poll_epcs node.monitored_epcs node.get_epcs node.fast_candidate_epcs
        r.notified_epcs in
    record node {
      inf_notified_epcs = r.notified_epcs;
      inf_unconfirmed_epcs = union r.inf_rejected_epcs r.inf_unanswered_epcs;
      poll_epcs = poll;
      fast_poll_epcs = fast_poll;
    }

pub send_initial_notification : Bool → Exchange → NodeState → NodeState
send_initial_notification reachable exchange node =
    if is_empty node.inf_request_epcs
    then node
    else apply_inf_result node (request_notifications reachable node.inf_request_epcs exchange)

-- node.properties.get(epc) != edt
pub differs : Dict ℕ (List ℕ) → ℕ → List ℕ → Bool
unfolding find same_list
differs d epc edt = elim (find d epc) [ none ↦ true | some old ↦ not (same_list old edt) ]

-- The loop of `_apply_frame`, and that of `_apply_accepted_properties` with its extra test.
pub write_values :
    (Property → Bool) → List Property → Dict ℕ (List ℕ) × List ℕ → Dict ℕ (List ℕ) × List ℕ
unfolding differs put
write_values test [] (d, changed) = (d, changed)
write_values test (p ∷ ps) (d, changed) =
    write_values test ps (
      if test p && differs d p.epc p.edt
      then (put d p.epc p.edt, p.epc ∷ changed)
      else (d, changed))

-- _VALUE_ESVS
unfoldable pub carries_values : Esv → Bool
carries_values Esv.get_res = true
carries_values Esv.get_sna = true
carries_values Esv.inf = true
carries_values Esv.infc = true
carries_values _ = false

-- The cached values, and the EPCs that `_notify_properties_changed` is given.
unfoldable pub apply_frame : NodeState → Frame → NodeState × List ℕ
unfolding carries_values write_values
apply_frame node frame =
    let (d, changed) = write_values (λ _. true) frame.properties (node.properties, []) in
    if carries_values frame.esv then (record node { properties = d }, changed) else (node, [])

unfoldable pub apply_accepted_properties : NodeState → List Property → List ℕ → NodeState × List ℕ
unfolding write_values
apply_accepted_properties node ps accepted =
    let (d, changed) = write_values (λ p. contains accepted p.epc) ps (node.properties, []) in
    (record node { properties = d }, changed)

-- The polling state, and whether AvailabilityChanged is emitted.
unfoldable pub set_polling_available : NodeState → Bool → NodeState × Bool
set_polling_available node available = elim node.polling_available [
  | none ↦ (record node { polling_available = some available }, true)
  | some old ↦
      if (old && available) || (not old && not available)
      then (node, false)
      else (record node { polling_available = some available }, true)
]
