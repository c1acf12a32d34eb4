-- ===== src/Client/Routing.antt =====
-- `_process_frame` of src/pyhems/runtime.py and what it calls. Its effects on the outside are a list
-- of actions, the first one first; a callback gets every event. The mapping between addresses and
-- node IDs is a `bidict` of the package of that name: its `forceput` is an argument.
pub mod Bounds
pub mod Answers
use pyhems.Common.{
  leb, ◌==◌, if◌then◌else◌, length, drop, select, is_empty, contains, ok, raised, ℕ_key, same_list,
  list_key, Dict, find, put, remove, has_key, ℕ, Bool, true, false, not, ◌&&◌, ◌||◌, Option, none,
  some, List, [], ◌∷◌, ◌++◌, map,
}
use pyhems.Protocol.Services.{Esv, esv_code}
use pyhems.Protocol.Objects.{Eoj, class_code, eoj_eq}
use pyhems.Protocol.Frame.{Frame}
use pyhems.Client.GetBatches.{GetCapability}
use pyhems.Client.Discovery.{extract_discovery_info}

-- _PendingRequest, with whether its future is done
pub record PendingRequest : Type 0 where
  pub address : List ℕ
  pub deoj : Eoj
  pub seoj : Eoj
  pub response_esvs : List ℕ
  pub future_done : Bool

-- A frame that waits for its source to be identified, and when it came.
pub record QueuedFrame : Type 0 where
  pub frame : Frame
  pub received_at : ℕ

pub record Routes : Type 0 where
  pub pending : Dict ℕ PendingRequest
  pub device_addresses : Dict (List ℕ) (List ℕ)
  pub pending_frames : Dict (List ℕ) (List QueuedFrame)
  pub discovery_tasks : List (List ℕ)
  pub get_capabilities : List ((List ℕ × Eoj) × GetCapability)

pub data Action : Type 0 where
  answer : ℕ → Frame → Action
  dispatch_frame : ℕ → Frame → List ℕ → Eoj → Action
  dispatch_instances : ℕ → List Eoj → List ℕ → Action
  send_to : List ℕ → Frame → Action
  discover : List ℕ → Action

abbrev pub max_pending_addresses : ℕ
max_pending_addresses = 32

abbrev pub max_pending_frames_per_address : ℕ
max_pending_frames_per_address = 16

abbrev pub node_profile_class : ℕ
node_profile_class = 0x0EF0

unfoldable pub is_request : Esv → Bool
is_request Esv.seti = true
is_request Esv.setc = true
is_request Esv.get = true
is_request Esv.inf_req = true
is_request Esv.setget = true
is_request _ = false

unfoldable pub matches_request : Frame → List ℕ → PendingRequest → Bool
matches_request frame address r =
    same_list address r.address && (eoj_eq frame.seoj r.deoj && eoj_eq frame.deoj r.seoj)

-- The pending request that the frame answers is taken out, and its future gets the frame.
unfoldable pub answer_pending : Frame → List ℕ → Routes → Routes × List Action
answer_pending frame address s = elim (find s.pending frame.tid) [
  | none ↦ (s, [])
  | some r ↦
      if contains r.response_esvs (esv_code frame.esv) && matches_request frame address r
      then (
        record s { pending = remove s.pending frame.tid },
        if r.future_done then [] else answer frame.tid frame ∷ [],
      )
      else (s, [])
]

unfoldable pub is_listed : List (List ℕ) → List ℕ → Bool
is_listed [] address = false
is_listed (a ∷ as_) address = same_list a address || is_listed as_ address

pub schedule_address_discovery : List ℕ → Routes → Routes × List Action
unfolding is_listed
schedule_address_discovery address s =
    if is_listed s.discovery_tasks address
    then (s, [])
    else (record s { discovery_tasks = address ∷ s.discovery_tasks }, discover address ∷ [])

-- The list of an address with one more frame; the oldest makes room where the list is full.
pub push_frame : List QueuedFrame → QueuedFrame → List QueuedFrame
push_frame frames f =
    (if leb max_pending_frames_per_address (length frames) then drop 1 frames else frames) ++ f ∷ []

pub queue_unknown_frame : ℕ → Frame → List ℕ → Routes → Routes × List Action
unfolding push_frame schedule_address_discovery
queue_unknown_frame now frame address s =
    let f : QueuedFrame = record { frame = frame; received_at = now } in
    elim (find s.pending_frames address) [
      | none ↦
          if leb max_pending_addresses (length s.pending_frames)
          then (s, [])
          else schedule_address_discovery address
              (record s { pending_frames = put s.pending_frames address (f ∷ []) })
      | some frames ↦
          schedule_address_discovery address
            (record s { pending_frames = put s.pending_frames address (push_frame frames f) })
    ]

-- The device object notifications that waited are dispatched after the instances.
pub replay : List ℕ → List QueuedFrame → List Action
replay node_id [] = []
replay node_id (f ∷ fs) =
    dispatch_frame f.received_at f.frame node_id f.frame.seoj ∷ replay node_id fs

pub or_no_frames : Option (List QueuedFrame) → List QueuedFrame
or_no_frames none = []
or_no_frames (some fs) = fs

pub clear_get_capabilities_for_node : List ℕ → Routes → Routes
clear_get_capabilities_for_node node_id s = record s {
  get_capabilities = select (λ c. not (same_list c.0.0 node_id)) s.get_capabilities;
}

pub response_to_infc : Frame → Frame
response_to_infc frame = record {
  seoj = frame.deoj;
  deoj = frame.seoj;
  esv = Esv.infc_res;
  tid = frame.tid;
  properties = map (λ p. record { epc = p.epc; edt = [] }) frame.properties;
}

-- An INFC is answered first.
unfoldable pub acknowledge : Frame → List ℕ → Routes × List Action → Routes × List Action
unfolding response_to_infc
acknowledge frame address (s, actions) =
    if esv_code frame.esv == esv_code Esv.infc
    then (s, send_to address (response_to_infc frame) ∷ actions)
    else (s, actions)

unfoldable pub deliver : ℕ → Frame → List ℕ → Routes → Routes × List Action
unfolding queue_unknown_frame
deliver now frame address s = elim (find s.device_addresses address) [
  | none ↦ queue_unknown_frame now frame address s
  | some [] ↦ queue_unknown_frame now frame address s
  | some (c ∷ cs) ↦ (s, dispatch_frame now frame (c ∷ cs) frame.seoj ∷ [])
]

module _ (forceput : Dict (List ℕ) (List ℕ) → List ℕ → List ℕ → Dict (List ℕ) (List ℕ)) where
  -- The node ID that the frame carries is the node's from now on.
  pub identify : List ℕ → List ℕ → Routes → Routes
  unfolding clear_get_capabilities_for_node
  identify address node_id s =
      let t = record s { device_addresses = forceput s.device_addresses address node_id } in
      elim (find s.device_addresses address) [
        | none ↦ t
        | some previous ↦
            if not (is_empty previous) && not (same_list previous node_id)
            then clear_get_capabilities_for_node previous t
            else t
      ]

  pub report_instances : ℕ → List ℕ → List Eoj → List ℕ → Routes → Routes × List Action
  unfolding replay or_no_frames
  report_instances now address [] node_id s = (s, [])
  report_instances now address (e ∷ es) node_id s = (
    record s { pending_frames = remove s.pending_frames address },
    dispatch_instances now (e ∷ es) node_id
        ∷ replay node_id (or_no_frames (find s.pending_frames address)),
  )

  pub handle_profile_info : ℕ → List ℕ → Option (List ℕ) × List Eoj → Routes → Routes × List Action
  unfolding identify report_instances schedule_address_discovery
  handle_profile_info now address (some (c ∷ cs), instances) s =
      report_instances now address instances (c ∷ cs) (identify address (c ∷ cs) s)
  handle_profile_info now address (_, instances) s = elim (find s.device_addresses address) [
    | none ↦ schedule_address_discovery address s
    | some [] ↦ schedule_address_discovery address s
    | some (c ∷ cs) ↦ report_instances now address instances (c ∷ cs) s
  ]

  -- An exception in the extraction is logged by `_on_receive`, and the state stays.
  pub handle_node_profile : ℕ → Frame → List ℕ → Routes → Routes × List Action
  handle_node_profile now frame address s = elim (extract_discovery_info frame) [
    | raised e ↦ (s, [])
    | ok info ↦ handle_profile_info now address info s
  ]

  -- What is done with a response or a notification, after its request has been answered.
  unfoldable pub route : ℕ → Frame → List ℕ → Routes → Routes × List Action
  route now frame address s =
      if esv_code frame.esv == esv_code Esv.inf
        && (not (has_key s.device_addresses address)
            && not (class_code frame.seoj == node_profile_class))
      then queue_unknown_frame now frame address s
      else if class_code frame.seoj == node_profile_class
      then handle_node_profile now frame address s
      else acknowledge frame address (deliver now frame address s)

  unfoldable pub process_frame : ℕ → Frame → List ℕ → Routes → Routes × List Action
  process_frame now frame address s =
      let (t, answers) = answer_pending frame address s in
      let (u, actions) = route now frame address t in
      if is_request frame.esv then (s, []) else (u, answers ++ actions)
