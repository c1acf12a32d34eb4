-- ===== src/Examples/Objects.antt =====
-- Device objects at concrete inputs (src/pyhems/device_manager.py).
use pyhems.Common.{
  All, contains, intersection, difference, contains-nil, contains-cons, digits_be, ℕ_key, list_key,
  find, Distinct, ℕ, ◌≡◌, refl, true, false, not, ◌&&◌, ◌||◌, none, some, List, [], ◌∷◌, map, arith,
}
use pyhems.Protocol.Services.{Esv}
use pyhems.Protocol.Objects.{Eoj, class_code}
use pyhems.Protocol.Frame.{Property, Frame}
use pyhems.Client.Replies.{unanswered, answered}
use pyhems.Devices.PropertyMap.{parse_property_map, IsPropertyMap, parse_property_map_lem}
use pyhems.Devices.Nodes.{
  EpcSelection, by_class, NodeState, setup_node, send_initial_notification, apply_frame,
  apply_accepted_properties,
}
use pyhems.Devices.Nodes.Polling.{IsConfirmed, setup-IsConfirmed}
use pyhems.Devices.Nodes.Cache.{
  IsUpdate, IsApplied, apply_frame-IsApplied, apply_accepted_properties-IsUpdate,
}
use pyhems.Codecs.Definitions.{CollectionBinding}
use pyhems.Devices.Ranges.{
  recovery_properties, recover_uninitialized_collection_ranges, IsRecovery, recover-IsOneShot,
}
use pyhems.Devices.Subscriptions.{effective_epcs}
use pyhems.Devices.Subscriptions.Tally.{
  InterestEvent, subscribes, unsubscribes, interests_after, was_subscribed, is_wanted,
  effective_epcs_lem,
}

-- A bitmap of 16 properties, among them 0x80 and 0xF1.
abbrev bitmap : List ℕ
bitmap =
    16 ∷ 0x01 ∷ 0x80 ∷ 0x01 ∷ 0x01 ∷ 0x01 ∷ 0x01 ∷ 0x01 ∷ 0x01 ∷ 0x01 ∷ 0x01 ∷ 0x01 ∷ 0x01 ∷ 0x01
    ∷ 0x01 ∷ 0x01 ∷ 0x01 ∷ []

parse_property_map_lem_example : IsPropertyMap bitmap (parse_property_map bitmap)
parse_property_map_lem_example = parse_property_map_lem bitmap

abbrev pub air_conditioner : Eoj
air_conditioner = record { value = 0x013001 }

abbrev property : ℕ → List ℕ → Property
property epc edt = record { epc = epc; edt = edt }

abbrev notification : List Property → Frame
notification ps = record {
  seoj = air_conditioner;
  deoj = record { value = 0x05FF01 };
  esv = Esv.inf;
  tid = 7;
  properties = ps;
}

-- Two EPCs can be read; one of them is notified on request.
abbrev maps : List Property
maps =
    property 0x9F (2 ∷ 0x80 ∷ 0xB0 ∷ [])
    ∷ property 0x9E (0 ∷ [])
    ∷ property 0x9D (1 ∷ 0x80 ∷ [])
    ∷ property 0x80 (0x30 ∷ [])
    ∷ []

abbrev monitored : EpcSelection
monitored = by_class ((0x0130, 0x80 ∷ 0xB0 ∷ []) ∷ [])

abbrev fast : EpcSelection
fast = by_class []

abbrev pub node : NodeState
node = record {
  eoj = air_conditioner;
  properties =
      (0x9F, 2 ∷ 0x80 ∷ 0xB0 ∷ [])
      ∷ (0x9E, 0 ∷ [])
      ∷ (0x9D, 1 ∷ 0x80 ∷ [])
      ∷ (0x80, 0x30 ∷ [])
      ∷ (0x8A, 0 ∷ 0 ∷ 8 ∷ [])
      ∷ [];
  node_id = 49 ∷ [];
  manufacturer_code = 8;
  get_epcs = 0x80 ∷ 0xB0 ∷ [];
  set_epcs = [];
  inf_epcs = 0x80 ∷ [];
  poll_epcs = 0x80 ∷ 0xB0 ∷ [];
  fast_poll_epcs = [];
  product_code = none;
  serial_number = none;
  monitored_epcs = 0x80 ∷ 0xB0 ∷ [];
  fast_candidate_epcs = [];
  inf_request_epcs = 0x80 ∷ [];
  inf_notified_epcs = [];
  inf_unconfirmed_epcs = [];
  polling_available = none;
  range_recovery_attempted_epcs = [];
}

setup_node_test : setup_node monitored fast (49 ∷ []) air_conditioner 8 maps ≡ some node
unfolding setup_node digits_be difference intersection class_code contains
setup_node_test = refl

setup-IsConfirmed_example :
    IsConfirmed (
      send_initial_notification true
        (answered (notification (property 0x80 (0x30 ∷ []) ∷ [])))
        node)
setup-IsConfirmed_example =
    setup-IsConfirmed monitored fast (49 ∷ []) air_conditioner 8 maps node true
      (answered (notification (property 0x80 (0x30 ∷ []) ∷ []))) setup_node_test

abbrev pub update : Frame
update = notification (property 0x80 (0x31 ∷ []) ∷ property 0xB0 (0x41 ∷ []) ∷ [])

apply_frame-IsApplied_example : IsApplied node update (apply_frame node update)
apply_frame-IsApplied_example = apply_frame-IsApplied node update

abbrev writes : List Property
writes = property 0x80 (0x31 ∷ []) ∷ property 0xB0 (0x41 ∷ []) ∷ []

apply_accepted_properties-IsUpdate_example :
    IsUpdate
      (λ p. contains (0x80 ∷ []) p.epc)
      writes
      node.properties
      (apply_accepted_properties node writes (0x80 ∷ [])).0.properties
      []
      (apply_accepted_properties node writes (0x80 ∷ [])).1
apply_accepted_properties-IsUpdate_example =
    apply_accepted_properties-IsUpdate node writes (0x80 ∷ [])

-- A list of channels whose range was never set, of 40 channels.
abbrev channels : CollectionBinding
channels = record {
  result_epc = 0xB7;
  count_epc = some 0xB1;
  items_path = [];
  start_path = [];
  page_count_path = [];
  selector_epc = some 0xB2;
  max_range = some 30;
}

abbrev panel : NodeState
panel = record node { properties = (0xB7, 0xFD ∷ 0xFD ∷ []) ∷ (0xB1, 40 ∷ []) ∷ [] }

recovery_test :
    recovery_properties panel (channels ∷ []) ≡ record { epc = 0xB2; edt = 1 ∷ 30 ∷ [] } ∷ []
unfolding recovery_properties contains find
recovery_test = refl

recover-IsOneShot_example :
    All (IsRecovery panel) (recovery_properties panel (channels ∷ []))
    × All
        (λ p. contains (map (λ q. q.epc) (recovery_properties panel (channels ∷ []))) p.epc ≡ false)
        (recovery_properties
          (recover_uninitialized_collection_ranges (channels ∷ []) true unanswered panel).0
          (channels ∷ []))
recover-IsOneShot_example = recover-IsOneShot (channels ∷ []) (channels ∷ []) true unanswered panel

-- Two consumers want the same EPC, and one of them leaves, twice.
abbrev calls : List InterestEvent
calls =
    unsubscribes 0
    ∷ unsubscribes 0
    ∷ subscribes (49 ∷ []) (0x80 ∷ 0xB0 ∷ [])
    ∷ subscribes (49 ∷ []) (0x80 ∷ [])
    ∷ []

effective_epcs_lem_example :
    contains (effective_epcs (interests_after calls) (49 ∷ []) (0x80 ∷ 0xB0 ∷ 0xC0 ∷ [])) 0x80 ≡ (
      contains (0x80 ∷ 0xB0 ∷ 0xC0 ∷ []) 0x80
      && (not (was_subscribed (interests_after calls).subscriptions (49 ∷ []))
          || is_wanted (interests_after calls).subscriptions (49 ∷ []) 0x80))
effective_epcs_lem_example =
    effective_epcs_lem calls (49 ∷ []) (0x80 ∷ 0xB0 ∷ 0xC0 ∷ []) 0x80
      (distinct_two, (distinct_one, tt))
  where
    distinct_two : Distinct (0x80 ∷ 0xB0 ∷ [])
    distinct_two = ground (arith, contains-cons 0xB0 [] 0x80, contains-nil 0x80, contains-nil 0xB0)

    distinct_one : Distinct (0x80 ∷ [])
    distinct_one = (contains-nil 0x80, tt)
