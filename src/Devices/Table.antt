-- ===== src/Devices/Table.antt =====
-- The table of device objects of src/pyhems/device_manager.py: how frames, instance lists and setups
-- change it, and the jobs of a node. A device key is a text, the list of its codes.
pub mod Jobs
pub mod Steps
pub mod Tidy
pub mod Deferred
pub mod Reachable
pub mod Waiting
use pyhems.Common.{
  ltb, if◌then◌else◌, length, is_empty, ℕ_key, list_key, Dict, find, put, remove, has_key,
  set_default, ℕ, zero, suc, ◌+◌, ◌/◌, ◌%◌, Bool, true, false, not, Option, none, some, List, [],
  ◌∷◌, ◌++◌,
}
use pyhems.Protocol.Objects.{Eoj, class_code}
use pyhems.Protocol.Frame.{Frame, is_response_or_notification}
use pyhems.Codecs.Definitions.{CollectionBinding}
use pyhems.Client.Discovery.{hex_digit}
use pyhems.Devices.Nodes.{NodeState, apply_frame, carries_values}
use pyhems.Devices.Ranges.{recovery_properties}

-- The `count` lower hexadecimal digits of a number, as `06x` writes them for six.
pub hex_digits : ℕ → ℕ → List ℕ
unfolding hex_digit
hex_digits zero n = []
hex_digits (suc count) n = hex_digits count (n / 16) ++ hex_digit (n % 16) ∷ []

-- f"{node_id}-{eoj:06x}"
unfoldable pub device_key : List ℕ → Eoj → List ℕ
unfolding hex_digits
device_key node_id eoj = node_id ++ 45 ∷ hex_digits 6 eoj.value

-- HemsFrameEvent
pub record FrameEvent : Type 0 where
  pub received_at : ℕ
  pub frame : Frame
  pub node_id : List ℕ
  pub eoj : Eoj

-- HemsInstanceListEvent
pub record InstanceListEvent : Type 0 where
  pub received_at : ℕ
  pub instances : List Eoj
  pub node_id : List ℕ

-- The two functions that are queued as jobs, the second one with the key of its node.
pub data Job : Type 0 where
  process_instance_list_event : InstanceListEvent → Job
  recover_and_notify : List ℕ → Job

-- DeviceManagerEvent
pub data DeviceEvent : Type 0 where
  runtime_activity : ℕ → DeviceEvent
  properties_changed : List ℕ → List ℕ → DeviceEvent
  availability_changed : List ℕ → Bool → DeviceEvent
  device_added : List ℕ → DeviceEvent

-- The state of the manager; `nodes` is its `data`. A worker is there with the job that it runs.
pub record DeviceTable : Type 0 where
  pub nodes : Dict (List ℕ) NodeState
  pub last_activity_at : Option ℕ
  pub pending_setups : List (List ℕ)
  pub node_jobs : Dict (List ℕ) (List Job)
  pub node_workers : Dict (List ℕ) (Option Job)
  pub deferred_frames : Dict (List ℕ) (List FrameEvent)

abbrev pub max_deferred_frames : ℕ
max_deferred_frames = 64

pub or_no_events : Option (List FrameEvent) → List FrameEvent
or_no_events none = []
or_no_events (some events) = events

pub or_no_jobs : Option (List Job) → List Job
or_no_jobs none = []
or_no_jobs (some jobs) = jobs

pub is_later : ℕ → Option ℕ → Bool
is_later now none = true
is_later now (some then_) = ltb then_ now

-- The table after an operation, and the events that it emits, the first one first.
abbrev pub Emits : Type 0
Emits = DeviceTable × List DeviceEvent

pub record_activity : ℕ → DeviceTable → Emits
unfolding is_later
record_activity now t = (
  record t {
    last_activity_at = if is_later now t.last_activity_at then some now else t.last_activity_at;
  },
  runtime_activity now ∷ [],
)

pub notify_properties_changed : List ℕ → List ℕ → List DeviceEvent
notify_properties_changed key epcs = if is_empty epcs then [] else properties_changed key epcs ∷ []

pub enqueue_node_job : List ℕ → Job → DeviceTable → DeviceTable
unfolding or_no_jobs find put set_default
enqueue_node_job node_id job t = record t {
  node_jobs = put t.node_jobs node_id (or_no_jobs (find t.node_jobs node_id) ++ job ∷ []);
  node_workers = set_default t.node_workers node_id none;
}

-- A change of a node object that the table holds.
pub put_node : List ℕ → NodeState → DeviceTable → DeviceTable
unfolding put
put_node key node t = record t { nodes = put t.nodes key node }

-- A frame of an object that is being set up: it is kept where there is room.
pub defer_frame : FrameEvent → DeviceTable → DeviceTable
unfolding or_no_events find put device_key
defer_frame event t =
    let key = device_key event.node_id event.eoj in
    let kept = or_no_events (find t.deferred_frames key) in
    record t {
      deferred_frames =
          put t.deferred_frames key
            (if ltb (length kept) max_deferred_frames then kept ++ event ∷ [] else kept);
    }

-- The collection bindings of a device class are generated data.
module _ (bindings : ℕ → List CollectionBinding) where
  -- The writes of `_apply_frame`: the table, the events, and whether a value changed
  pub apply_values :
      List ℕ → NodeState × List ℕ → DeviceTable → DeviceTable × List DeviceEvent × Bool
  unfolding put_node enqueue_node_job notify_properties_changed recovery_properties
  apply_values key (node, changed) t = (
    if is_empty (recovery_properties node (bindings (class_code node.eoj)))
        then put_node key node t
        else enqueue_node_job node.node_id (recover_and_notify key) (put_node key node t),
    notify_properties_changed key changed,
    not (is_empty changed),
  )

  -- _apply_frame, on a node of the table
  pub apply_to_node :
      List ℕ → Frame → NodeState → DeviceTable → DeviceTable × List DeviceEvent × Bool
  unfolding carries_values apply_frame apply_values
  apply_to_node key frame node t =
      if carries_values frame.esv
      then apply_values key (apply_frame node frame) t
      else (t, [], false)

  pub process_known :
      FrameEvent → Option NodeState → DeviceTable → DeviceTable × List DeviceEvent × Bool
  unfolding apply_to_node defer_frame device_key find
  process_known event (some node) t =
      apply_to_node (device_key event.node_id event.eoj) event.frame node t
  process_known event none t =
      (if has_key t.node_workers event.node_id then defer_frame event t else t, [], false)

  pub process_frame_event : FrameEvent → DeviceTable → DeviceTable × List DeviceEvent × Bool
  unfolding process_known record_activity device_key find is_response_or_notification
  process_frame_event event t =
      let (active, activity) = record_activity event.received_at t in
      let (after, events, changed) =
        process_known event (find t.nodes (device_key event.node_id event.eoj)) active in
      if is_response_or_notification event.frame
      then (after, activity ++ events, changed)
      else (t, [], false)

  pub apply_next : List ℕ → Frame → Option NodeState → Emits → Emits
  unfolding apply_to_node
  apply_next key frame none (t, events) = (t, events)
  apply_next key frame (some node) (t, events) =
      let (after, more, changed) = apply_to_node key frame node t in (after, events ++ more)

  -- The loop of `_apply_deferred_frames`, for a node that the table holds.
  pub apply_all : List ℕ → List FrameEvent → Emits → Emits
  unfolding apply_next find
  apply_all key [] s = s
  apply_all key (e ∷ es) s = apply_all key es (apply_next key e.frame (find s.0.nodes key) s)

  pub apply_deferred_frames : List ℕ → DeviceTable → Emits
  unfolding apply_all or_no_events find remove
  apply_deferred_frames key t =
      apply_all key (or_no_events (find t.deferred_frames key))
        (record t { deferred_frames = remove t.deferred_frames key }, [])

  -- The part of `_setup_device` from the reads to the next request, for the node they give.
  pub register_node : ℕ → NodeState → DeviceTable → Emits
  unfolding record_activity put_node apply_deferred_frames device_key
  register_node now node t =
      let key = device_key node.node_id node.eoj in
      let (active, activity) = record_activity now t in
      let (after, events) = apply_deferred_frames key (put_node key node active) in
      (after, activity ++ events)
