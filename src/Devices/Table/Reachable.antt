-- ===== src/Devices/Table/Reachable.antt =====
-- The device tables that a manager reaches, src/pyhems/device_manager.py.
use pyhems.Common.{
  Bool-cases, ℕ_key, list_key, find, has_key, ℕ, ◌≡◌, refl, sym, ap, ◌∙◌, inl, inr, Bool, ◌||◌,
  none, some, List, [], ◌∷◌,
}
use pyhems.Protocol.Objects.{Eoj}
use pyhems.Codecs.Definitions.{CollectionBinding}
use pyhems.Devices.Table.{DeviceTable, process_instance_list_event, or_no_jobs, device_key}
use pyhems.Client.Routing.{is_listed}
use pyhems.Devices.Table.Jobs.{next_job, receive_instance_list, start_setup, end_setup, async_stop}
use pyhems.Devices.Table.Steps.{
  TableStep, frame_received, instance_list_received, job_ended, setup_started, node_registered,
  ranges_recovered, initial_requested, setup_ended, polled, values_accepted, stopped, table_after,
  after_steps, empty_table,
}
use pyhems.Devices.Table.Waiting.{
  IsWaiting, IsTidy, enqueue_node_job-IsTidy, record_activity-IsTidy,
}
use pyhems.Devices.Table.Tidy.{
  run_first-IsTidy, process_frame_event-IsTidy, register_node-IsTidy, recover_ranges-IsTidy,
  request_initial-IsTidy, record_polling-IsTidy, cache_accepted-IsTidy,
}

start_setup-IsTidy :
    (t : DeviceTable) (node_id : List ℕ) (eoj : Eoj)
    → IsTidy t
    → IsTidy (start_setup node_id eoj t).0
unfolding start_setup IsTidy
start_setup-IsTidy t node_id eoj tidy =
    let key = device_key node_id eoj in
    elim (Bool-cases (has_key t.nodes key || is_listed t.pending_setups key)) [
      | inl there ↦ rw there tidy
      | inr new ↦ rw new (λ k events found. record {
        unknown = (tidy k events found).unknown;
        bounded = (tidy k events found).bounded;
        awaited = (tidy k events found).awaited;
      })
    ]

end_setup-IsTidy :
    (t : DeviceTable) (key : List ℕ) (complete : Bool)
    → IsTidy t
    → IsTidy (end_setup key complete t).0
unfolding end_setup IsTidy
end_setup-IsTidy t key complete tidy k events found = record {
  unknown = (tidy k events found).unknown;
  bounded = (tidy k events found).bounded;
  awaited = (tidy k events found).awaited;
}

empty_lem : (t : DeviceTable) → t.deferred_frames ≡ [] → IsTidy t
unfolding IsTidy find
empty_lem t none_left k events found =
    let none_found : find t.deferred_frames k ≡ none = ap (λ d. find d k) none_left in
    absurd_found (sym none_found ∙ found)
  where
    absurd_found : none ≡ some events → IsWaiting t k events
    absurd_found e = cc

module _ (bindings : ℕ → List CollectionBinding) where
  table_after-IsTidy :
      (step : TableStep) (t : DeviceTable) → IsTidy t → IsTidy (table_after bindings step t)
  unfolding table_after receive_instance_list next_job async_stop
  table_after-IsTidy (frame_received event) t tidy =
      process_frame_event-IsTidy bindings t event tidy
  table_after-IsTidy (instance_list_received event) t tidy =
      enqueue_node_job-IsTidy _ event.node_id (process_instance_list_event event)
        (record_activity-IsTidy t event.received_at tidy)
  table_after-IsTidy (job_ended node_id) t tidy =
      run_first-IsTidy t node_id (or_no_jobs (find t.node_jobs node_id)) tidy
  table_after-IsTidy (setup_started node_id eoj) t tidy = start_setup-IsTidy t node_id eoj tidy
  table_after-IsTidy (node_registered now node) t tidy =
      register_node-IsTidy bindings t now node tidy
  table_after-IsTidy (ranges_recovered key reachable exchange) t tidy =
      recover_ranges-IsTidy bindings t key reachable exchange tidy
  table_after-IsTidy (initial_requested key reachable exchange) t tidy =
      request_initial-IsTidy t key reachable exchange tidy
  table_after-IsTidy (setup_ended key complete) t tidy = end_setup-IsTidy t key complete tidy
  table_after-IsTidy (polled key available) t tidy = record_polling-IsTidy t key available tidy
  table_after-IsTidy (values_accepted key ps r) t tidy = cache_accepted-IsTidy t key ps r tidy
  table_after-IsTidy stopped t tidy = empty_lem _ refl

  steps-IsTidy :
      (steps : List TableStep) (t : DeviceTable) → IsTidy t → IsTidy (after_steps bindings steps t)
  unfolding after_steps
  steps-IsTidy [] t tidy = tidy
  steps-IsTidy (step ∷ steps) t tidy = steps-IsTidy steps _ (table_after-IsTidy step t tidy)

  -- Whatever steps a manager has made since its start, in whatever order: the frames that wait for the
  -- setup of an object are at least one and at most 64, the object is not in the table yet, and a
  -- worker runs for the node that the first of them came from.
  pub after_steps-IsTidy :
      (steps : List TableStep) → IsTidy (after_steps bindings steps empty_table)
  unfolding empty_table
  after_steps-IsTidy steps = steps-IsTidy steps empty_table (empty_lem _ refl)
