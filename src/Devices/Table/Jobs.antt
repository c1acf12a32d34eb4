-- ===== src/Devices/Table/Jobs.antt =====
-- The setups and the jobs of a node, and the operations that change a device object which the table
-- holds, of src/pyhems/device_manager.py.
use pyhems.Common.{
  if◌then◌else◌, select, ℕ_key, same_list, list_key, Dict, find, put, remove, has_key, ℕ, Bool,
  true, false, not, ◌&&◌, ◌||◌, none, some, List, [], ◌∷◌,
}
use pyhems.Protocol.Objects.{Eoj}
use pyhems.Protocol.Frame.{Property}
use pyhems.Client.Routing.{is_listed}
use pyhems.Client.Replies.{SetRequestResult}
use pyhems.Devices.Nodes.{apply_accepted_properties, set_polling_available}
use pyhems.Devices.Table.{
  recover_and_notify, device_key, FrameEvent, InstanceListEvent, process_instance_list_event,
  device_added, availability_changed, DeviceTable, Job, or_no_jobs, Emits, record_activity,
  notify_properties_changed, enqueue_node_job, put_node,
}

-- What `process_instance_list_event` does for one instance before it waits for its setup.
unfoldable pub start_setup : List ℕ → Eoj → DeviceTable → DeviceTable × Bool
unfolding device_key find is_listed
start_setup node_id eoj t =
    let key = device_key node_id eoj in
    if has_key t.nodes key || is_listed t.pending_setups key
    then (t, false)
    else (record t { pending_setups = key ∷ t.pending_setups }, true)

-- The end of `setup_device`, with the device key; a setup that is complete adds the device.
unfoldable pub end_setup : List ℕ → Bool → DeviceTable → Emits
end_setup key complete t = (
  record t { pending_setups = select (λ k. not (same_list k key)) t.pending_setups },
  if complete then device_added key ∷ [] else [],
)

-- The keys of the frames that wait for a node, whose objects are not in the table.
unfoldable pub abandoned : List ℕ → DeviceTable → Dict (List ℕ) (List FrameEvent) → List (List ℕ)
unfolding find same_list
abandoned node_id t [] = []
abandoned node_id t ((key, []) ∷ d) = abandoned node_id t d
abandoned node_id t ((key, e ∷ es) ∷ d) =
    let rest = abandoned node_id t d in
    if same_list e.node_id node_id && not (has_key t.nodes key) then key ∷ rest else rest

-- del d[key], for each key
unfoldable pub remove_all :
    Dict (List ℕ) (List FrameEvent) → List (List ℕ) → Dict (List ℕ) (List FrameEvent)
unfolding remove
remove_all d [] = d
remove_all d (key ∷ keys) = remove_all (remove d key) keys

-- The `finally` of `_run_node_jobs`
unfoldable pub end_worker : List ℕ → DeviceTable → DeviceTable
unfolding abandoned remove_all remove
end_worker node_id t = record t {
  node_jobs = remove t.node_jobs node_id;
  node_workers = remove t.node_workers node_id;
  deferred_frames = remove_all t.deferred_frames (abandoned node_id t t.deferred_frames);
}

-- What a job does before its first request.
unfoldable pub begin_job : Job → DeviceTable → Emits
unfolding record_activity
begin_job (process_instance_list_event event) t = record_activity event.received_at t
begin_job (recover_and_notify key) t = (t, [])

unfoldable pub run_first : List ℕ → List Job → DeviceTable → Emits
unfolding end_worker begin_job put
run_first node_id [] t = (end_worker node_id t, [])
run_first node_id (job ∷ jobs) t = begin_job job (record t {
  node_jobs = put t.node_jobs node_id jobs;
  node_workers = put t.node_workers node_id (some job);
})

-- The test of the loop of `_run_node_jobs`, when the job before has ended: the worker begins the next
-- job, or ends.
unfoldable pub next_job : List ℕ → DeviceTable → Emits
unfolding run_first or_no_jobs find
next_job node_id t = run_first node_id (or_no_jobs (find t.node_jobs node_id)) t

-- An instance list from the event queue
unfoldable pub receive_instance_list : InstanceListEvent → DeviceTable → Emits
unfolding record_activity enqueue_node_job
receive_instance_list event t =
    let (active, activity) = record_activity event.received_at t in
    (enqueue_node_job event.node_id (process_instance_list_event event) active, activity)

-- The table part of `async_stop`
unfoldable pub async_stop : DeviceTable → DeviceTable
async_stop t = record t { node_jobs = []; node_workers = []; deferred_frames = [] }

-- _set_polling_available
unfoldable pub record_polling : List ℕ → Bool → DeviceTable → Emits
unfolding set_polling_available put_node find
record_polling key available t = elim (find t.nodes key) [
  | none ↦ (t, [])
  | some old ↦
      let (node, changed) = set_polling_available old available in
      (put_node key node t, if changed then availability_changed key available ∷ [] else [])
]

-- What `set_properties` does with the result of the request, without the refresh.
unfoldable pub cache_accepted : List ℕ → List Property → SetRequestResult → DeviceTable → Emits
unfolding apply_accepted_properties put_node notify_properties_changed find
cache_accepted key ps r t = elim (find t.nodes key) [
  | none ↦ (t, [])
  | some old ↦
      let (node, changed) = apply_accepted_properties old ps r.accepted_epcs in
      if r.sent then (put_node key node t, notify_properties_changed key changed) else (t, [])
]
