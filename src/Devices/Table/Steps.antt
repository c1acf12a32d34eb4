-- ===== src/Devices/Table/Steps.antt =====
-- What happens to the table between two waits, of src/pyhems/device_manager.py: an event from the
-- queue, or the part of a job or of a call up to its next request. The two requests that a setup ends
-- with are answered in the step that sends them.
use pyhems.Common.{ℕ_key, list_key, find, ℕ, Bool, none, some, List, [], ◌∷◌}
use pyhems.Protocol.Objects.{Eoj, class_code}
use pyhems.Protocol.Frame.{Property}
use pyhems.Codecs.Definitions.{CollectionBinding}
use pyhems.Client.Replies.{SetRequestResult, Exchange}
use pyhems.Devices.Nodes.{NodeState, send_initial_notification}
use pyhems.Devices.Ranges.{recover_uninitialized_collection_ranges}
use pyhems.Devices.Table.{
  FrameEvent, InstanceListEvent, DeviceTable, Emits, put_node, notify_properties_changed,
  process_frame_event, register_node,
}
use pyhems.Devices.Table.Jobs.{
  start_setup, end_setup, next_job, receive_instance_list, async_stop, record_polling,
  cache_accepted,
}

-- The call of `_send_initial_notification`
unfoldable pub request_initial : List ℕ → Bool → Exchange → DeviceTable → DeviceTable
unfolding find put_node
request_initial key reachable exchange t = elim (find t.nodes key) [
  | none ↦ t
  | some node ↦ put_node key (send_initial_notification reachable exchange node) t
]

pub data TableStep : Type 0 where
  frame_received : FrameEvent → TableStep
  instance_list_received : InstanceListEvent → TableStep
  job_ended : List ℕ → TableStep
  setup_started : List ℕ → Eoj → TableStep
  node_registered : ℕ → NodeState → TableStep
  ranges_recovered : List ℕ → Bool → Exchange → TableStep
  initial_requested : List ℕ → Bool → Exchange → TableStep
  setup_ended : List ℕ → Bool → TableStep
  polled : List ℕ → Bool → TableStep
  values_accepted : List ℕ → List Property → SetRequestResult → TableStep
  stopped : TableStep

module _ (bindings : ℕ → List CollectionBinding) where
  -- _recover_and_notify, and the call of a setup without its events
  unfoldable pub recover_ranges : List ℕ → Bool → Exchange → DeviceTable → Emits
  unfolding find put_node notify_properties_changed
  recover_ranges key reachable exchange t = elim (find t.nodes key) [
    | none ↦ (t, [])
    | some old ↦
        let (node, changed) =
          recover_uninitialized_collection_ranges (bindings (class_code old.eoj)) reachable exchange
            old in
        (put_node key node t, notify_properties_changed key changed)
  ]

  unfoldable pub table_after : TableStep → DeviceTable → DeviceTable
  unfolding process_frame_event receive_instance_list next_job start_setup register_node
      recover_ranges request_initial end_setup record_polling cache_accepted async_stop
  table_after (frame_received event) t = (process_frame_event bindings event t).0
  table_after (instance_list_received event) t = (receive_instance_list event t).0
  table_after (job_ended node_id) t = (next_job node_id t).0
  table_after (setup_started node_id eoj) t = (start_setup node_id eoj t).0
  table_after (node_registered now node) t = (register_node bindings now node t).0
  table_after (ranges_recovered key reachable exchange) t =
      (recover_ranges key reachable exchange t).0
  table_after (initial_requested key reachable exchange) t =
      request_initial key reachable exchange t
  table_after (setup_ended key complete) t = (end_setup key complete t).0
  table_after (polled key available) t = (record_polling key available t).0
  table_after (values_accepted key ps r) t = (cache_accepted key ps r t).0
  table_after stopped t = async_stop t

  unfoldable pub after_steps : List TableStep → DeviceTable → DeviceTable
  unfolding table_after
  after_steps [] t = t
  after_steps (step ∷ steps) t = after_steps steps (table_after step t)

-- The table of a manager that has just been made
unfoldable pub empty_table : DeviceTable
empty_table = record {
  nodes = [];
  last_activity_at = none;
  pending_setups = [];
  node_jobs = [];
  node_workers = [];
  deferred_frames = [];
}
