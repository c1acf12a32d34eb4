-- ===== src/Examples/Tables.antt =====
-- A setup with a frame that comes during it (src/pyhems/device_manager.py).
use pyhems.Common.{ℕ_key, list_key, find, remove, ℕ, ◌≡◌, refl, true, some, List, [], ◌∷◌, ◌++◌}
use pyhems.Codecs.Definitions.{CollectionBinding}
use pyhems.Devices.Nodes.{apply_frame}
use pyhems.Devices.Table.{FrameEvent, DeviceTable, device_key, register_node, or_no_events}
use pyhems.Devices.Table.Steps.{
  TableStep, frame_received, instance_list_received, job_ended, setup_started, node_registered,
  setup_ended, after_steps, empty_table,
}
use pyhems.Devices.Table.Waiting.{IsTidy}
use pyhems.Devices.Table.Deferred.{applied_all, register_node_lem}
use pyhems.Devices.Table.Reachable.{after_steps-IsTidy}
use pyhems.Examples.Objects.{air_conditioner, node, update}

abbrev no_bindings : ℕ → List CollectionBinding
no_bindings class = []

abbrev updated : FrameEvent
updated = record { received_at = 5; frame = update; node_id = 49 ∷ []; eoj = air_conditioner }

-- "1-013001"
abbrev key : List ℕ
key = 49 ∷ 45 ∷ 48 ∷ 49 ∷ 51 ∷ 48 ∷ 48 ∷ 49 ∷ []

device_key_test : device_key (49 ∷ []) air_conditioner ≡ key
unfolding device_key
device_key_test = refl

-- An instance list is received and its job taken up; the setup of the object begins; a frame comes.
abbrev setting_up : List TableStep
setting_up =
    instance_list_received
      (record { received_at = 3; instances = air_conditioner ∷ []; node_id = 49 ∷ [] })
    ∷ job_ended (49 ∷ [])
    ∷ setup_started (49 ∷ []) air_conditioner
    ∷ frame_received updated
    ∷ []

abbrev waiting : DeviceTable
waiting = after_steps no_bindings setting_up empty_table

waiting_test : waiting.deferred_frames ≡ (key, updated ∷ []) ∷ []
unfolding after_steps empty_table
waiting_test = refl

abbrev complete : List TableStep
complete = setting_up ++ node_registered 6 node ∷ setup_ended key true ∷ job_ended (49 ∷ []) ∷ []

after_steps_test :
    let t = after_steps no_bindings complete empty_table in
    (t.deferred_frames ≡ [])
    × (t.node_workers ≡ [])
    × (t.pending_setups ≡ [])
    × (t.last_activity_at ≡ some 6)
    × (t.nodes ≡ (key, (apply_frame node update).0) ∷ [])
unfolding after_steps empty_table apply_frame
after_steps_test = (refl, refl, refl, refl, refl)

after_steps-IsTidy_example : IsTidy (after_steps no_bindings complete empty_table)
after_steps-IsTidy_example = after_steps-IsTidy no_bindings complete

register_node_lem_example :
    let after = (register_node no_bindings 6 node waiting).0 in
    (find after.nodes (device_key node.node_id node.eoj)
      ≡ some (
          applied_all node
            (or_no_events (find waiting.deferred_frames (device_key node.node_id node.eoj)))))
    × (after.deferred_frames ≡ remove waiting.deferred_frames (device_key node.node_id node.eoj))
register_node_lem_example = register_node_lem no_bindings waiting 6 node
