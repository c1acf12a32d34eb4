-- ===== src/Devices/Table/Tidy.antt =====
-- The operations of the device table, src/pyhems/device_manager.py, and the frames that wait.
use pyhems.Common.{
  if◌then◌else◌, Bool-cases, Option-cases, is_empty, ℕ_key, same_list, same_list_iff, list_key,
  Dict, find, put, remove, has_key, find-put, find-remove, ℕ, ◌≡◌, refl, ap, ◌∙◌, inl, inr, Bool,
  true, false, Option, none, some, List, [], ◌∷◌, arith,
}
use pyhems.Client.Routing.{is_listed}
use pyhems.Client.Replies.{SetRequestResult, Exchange}
use pyhems.Protocol.Objects.{class_code}
use pyhems.Protocol.Frame.{Property, Frame, is_response_or_notification}
use pyhems.Codecs.Definitions.{CollectionBinding}
use pyhems.Devices.Nodes.{NodeState, apply_frame, carries_values}
use pyhems.Devices.Ranges.{recovery_properties}
use pyhems.Devices.Table.{
  FrameEvent, Job, recover_and_notify, process_instance_list_event, DeviceTable, device_key,
  put_node, enqueue_node_job, apply_values, apply_to_node, apply_next, process_known,
  process_frame_event, apply_all, apply_deferred_frames, register_node, record_activity,
  or_no_events, Emits,
}
use pyhems.Devices.Table.Jobs.{
  abandoned, end_worker, begin_job, run_first, record_polling, cache_accepted,
}
use pyhems.Devices.Table.Steps.{request_initial, recover_ranges}
use pyhems.Devices.Table.Waiting.{
  is_awaited, IsWaiting, IsTidy, known_lem, put_node-IsTidy, enqueue_node_job-IsTidy,
  record_activity-IsTidy, remove-IsTidy, defer_frame-IsTidy, find-remove_all, is_listed-abandoned,
}

-- The awaited frames of other nodes are still awaited when a worker ends, and those of its node that
-- are kept are of none.
still_awaited :
    (t : DeviceTable) (node_id key : List ℕ) (events : List FrameEvent)
    → find t.deferred_frames key ≡ some events
    → IsWaiting t key events
    → is_listed (abandoned node_id t t.deferred_frames) key ≡ false
    → is_awaited (remove t.node_workers node_id) events ≡ true
unfolding is_awaited
still_awaited t node_id key [] found w kept = w.awaited
still_awaited t node_id key (e ∷ es) found w kept =
    elim (Bool-cases (same_list e.node_id node_id)) [
      | inl same ↦
          let listed =
            is_listed-abandoned node_id t t.deferred_frames key e es found same w.unknown in
          cc
      | inr other ↦ ground (
        arith,
        find-remove t.node_workers node_id e.node_id,
        same_list_iff node_id e.node_id,
        same_list_iff e.node_id node_id,
        other,
        w.awaited,
      )
    ]

end_worker-IsTidy : (t : DeviceTable) (node_id : List ℕ) → IsTidy t → IsTidy (end_worker node_id t)
unfolding IsTidy end_worker
end_worker-IsTidy t node_id tidy k events found =
    let all = find-remove_all t.deferred_frames (abandoned node_id t t.deferred_frames) k in
    let kept : is_listed (abandoned node_id t t.deferred_frames) k ≡ false =
      ground (arith, all, found) in
    let before : find t.deferred_frames k ≡ some events = ground (arith, all, found) in
    let w = tidy k events before in
    record {
      unknown = w.unknown;
      bounded = w.bounded;
      awaited = still_awaited t node_id k events before w kept;
    }

is_awaited-put :
    (workers : Dict (List ℕ) (Option Job)) (node_id : List ℕ) (job : Option Job)
    (events : List FrameEvent)
    → is_awaited workers events ≡ true
    → is_awaited (put workers node_id job) events ≡ true
unfolding is_awaited
is_awaited-put workers node_id job [] h = h
is_awaited-put workers node_id job (e ∷ es) h =
    ground (arith, find-put workers node_id e.node_id job, same_list_iff node_id e.node_id, h)

take_job-IsTidy :
    (t : DeviceTable) (node_id : List ℕ) (job : Job) (jobs : List Job)
    → IsTidy t
    → IsTidy (record t {
      node_jobs = put t.node_jobs node_id jobs;
      node_workers = put t.node_workers node_id (some job);
    })
unfolding IsTidy
take_job-IsTidy t node_id job jobs tidy k events found = record {
  unknown = (tidy k events found).unknown;
  bounded = (tidy k events found).bounded;
  awaited = is_awaited-put t.node_workers node_id (some job) events (tidy k events found).awaited;
}

begin_job-IsTidy : (t : DeviceTable) (job : Job) → IsTidy t → IsTidy (begin_job job t).0
unfolding begin_job
begin_job-IsTidy t (process_instance_list_event event) tidy =
    record_activity-IsTidy t event.received_at tidy
begin_job-IsTidy t (recover_and_notify key) tidy = tidy

pub run_first-IsTidy :
    (t : DeviceTable) (node_id : List ℕ) (jobs : List Job)
    → IsTidy t
    → IsTidy (run_first node_id jobs t).0
unfolding run_first
run_first-IsTidy t node_id [] tidy = end_worker-IsTidy t node_id tidy
run_first-IsTidy t node_id (job ∷ jobs) tidy =
    begin_job-IsTidy _ job (take_job-IsTidy t node_id job jobs tidy)

pub request_initial-IsTidy :
    (t : DeviceTable) (key : List ℕ) (reachable : Bool) (exchange : Exchange)
    → IsTidy t
    → IsTidy (request_initial key reachable exchange t)
unfolding request_initial
request_initial-IsTidy t key reachable exchange tidy = elim (Option-cases (find t.nodes key)) [
  | inl gone ↦ rw (gone, request_initial) tidy
  | inr (old, known) ↦
      rw (known, request_initial) (put_node-IsTidy t key _ tidy (known_lem t key old tidy known))
]

pub record_polling-IsTidy :
    (t : DeviceTable) (key : List ℕ) (available : Bool)
    → IsTidy t
    → IsTidy (record_polling key available t).0
unfolding record_polling
record_polling-IsTidy t key available tidy = elim (Option-cases (find t.nodes key)) [
  | inl gone ↦ rw (gone, record_polling) tidy
  | inr (old, known) ↦
      rw (known, record_polling) (put_node-IsTidy t key _ tidy (known_lem t key old tidy known))
]

pub cache_accepted-IsTidy :
    (t : DeviceTable) (key : List ℕ) (ps : List Property) (r : SetRequestResult)
    → IsTidy t
    → IsTidy (cache_accepted key ps r t).0
unfolding cache_accepted
cache_accepted-IsTidy t key ps r tidy = elim (Option-cases (find t.nodes key)) [
  | inl gone ↦ rw (gone, cache_accepted) tidy
  | inr (old, known) ↦ elim (Bool-cases r.sent) [
    | inl sent ↦
        rw (known, sent, cache_accepted)
          (put_node-IsTidy t key _ tidy (known_lem t key old tidy known))
    | inr unsent ↦ rw (known, unsent, cache_accepted) tidy
  ]
]

module _ (bindings : ℕ → List CollectionBinding) where
  apply_values_lem :
      (t : DeviceTable) (key : List ℕ) (values : NodeState × List ℕ)
      → IsTidy t
      → find t.deferred_frames key ≡ none
      → IsTidy (apply_values bindings key values t).0
        × ((apply_values bindings key values t).0.deferred_frames ≡ t.deferred_frames)
  unfolding apply_values put_node enqueue_node_job
  apply_values_lem t key (node, changed) tidy free =
      let written = put_node-IsTidy t key node tidy free in
      elim (Bool-cases (is_empty (recovery_properties node (bindings (class_code node.eoj))))) [
        | inl nothing ↦ rw nothing (written, refl)
        | inr unset ↦ rw unset (
          enqueue_node_job-IsTidy (put_node key node t) node.node_id (recover_and_notify key)
              written,
          refl,
        )
      ]

  -- The writes under a test
  apply_if_lem :
      (t : DeviceTable) (key : List ℕ) (values : NodeState × List ℕ) (test : Bool)
      → IsTidy t
      → find t.deferred_frames key ≡ none
      → IsTidy (if test then apply_values bindings key values t else (t, [], false)).0
        × ((if test then apply_values bindings key values t else (t, [], false)).0.deferred_frames
            ≡ t.deferred_frames)
  apply_if_lem t key values true tidy free = apply_values_lem t key values tidy free
  apply_if_lem t key values false tidy free = (tidy, refl)

  apply_to_node_lem :
      (t : DeviceTable) (key : List ℕ) (frame : Frame) (node : NodeState)
      → IsTidy t
      → find t.deferred_frames key ≡ none
      → IsTidy (apply_to_node bindings key frame node t).0
        × ((apply_to_node bindings key frame node t).0.deferred_frames ≡ t.deferred_frames)
  unfolding apply_to_node
  apply_to_node_lem t key frame node tidy free =
      apply_if_lem t key (apply_frame node frame) (carries_values frame.esv) tidy free

  process_known-IsTidy :
      (t : DeviceTable) (event : FrameEvent) (known : Option NodeState)
      → IsTidy t
      → find t.nodes (device_key event.node_id event.eoj) ≡ known
      → IsTidy (process_known bindings event known t).0
  unfolding process_known
  process_known-IsTidy t event (some node) tidy h =
      let key = device_key event.node_id event.eoj in
      (apply_to_node_lem t key event.frame node tidy (known_lem t key node tidy h)).0
  process_known-IsTidy t event none tidy h =
      elim (Bool-cases (has_key t.node_workers event.node_id)) [
        | inl running ↦ rw running (defer_frame-IsTidy t event tidy h running)
        | inr idle ↦ rw idle tidy
      ]

  pub process_frame_event-IsTidy :
      (t : DeviceTable) (event : FrameEvent)
      → IsTidy t
      → IsTidy (process_frame_event bindings event t).0
  unfolding process_frame_event
  process_frame_event-IsTidy t event tidy =
      elim (Bool-cases (is_response_or_notification event.frame)) [
        | inr request ↦ rw request tidy
        | inl response ↦
            rw response (
              process_known-IsTidy _ event _ (record_activity-IsTidy t event.received_at tidy) refl)
      ]

  apply_next_lem :
      (key : List ℕ) (frame : Frame) (known : Option NodeState) (s : Emits)
      → IsTidy s.0
      → find s.0.deferred_frames key ≡ none
      → IsTidy (apply_next bindings key frame known s).0
        × ((apply_next bindings key frame known s).0.deferred_frames ≡ s.0.deferred_frames)
  unfolding apply_next
  apply_next_lem key frame none (t, events) tidy free = (tidy, refl)
  apply_next_lem key frame (some node) (t, events) tidy free =
      apply_to_node_lem t key frame node tidy free

  apply_all-IsTidy :
      (key : List ℕ) (es : List FrameEvent) (s : Emits)
      → IsTidy s.0
      → find s.0.deferred_frames key ≡ none
      → IsTidy (apply_all bindings key es s).0
  unfolding apply_all
  apply_all-IsTidy key [] s tidy free = tidy
  apply_all-IsTidy key (e ∷ es) s tidy free =
      let after = apply_next_lem key e.frame (find s.0.nodes key) s tidy free in
      apply_all-IsTidy key es (apply_next bindings key e.frame (find s.0.nodes key) s) after.0
        (ap (λ d. find d key) after.1 ∙ free)

  pub register_node-IsTidy :
      (t : DeviceTable) (now : ℕ) (node : NodeState)
      → IsTidy t
      → IsTidy (register_node bindings now node t).0
  unfolding register_node apply_deferred_frames put_node
  register_node-IsTidy t now node tidy =
      let key = device_key node.node_id node.eoj in
      let active = (record_activity now t).0 in
      let freed = record active { deferred_frames = remove active.deferred_frames key } in
      let free : find freed.deferred_frames key ≡ none =
        ground (arith, find-remove active.deferred_frames key key, same_list_iff key key) in
      let clean : IsTidy freed = remove-IsTidy active key (record_activity-IsTidy t now tidy) in
      apply_all-IsTidy key (or_no_events (find active.deferred_frames key))
        (put_node key node freed, []) (put_node-IsTidy freed key node clean free) free

  pub recover_ranges-IsTidy :
      (t : DeviceTable) (key : List ℕ) (reachable : Bool) (exchange : Exchange)
      → IsTidy t
      → IsTidy (recover_ranges bindings key reachable exchange t).0
  unfolding recover_ranges
  recover_ranges-IsTidy t key reachable exchange tidy = elim (Option-cases (find t.nodes key)) [
    | inl gone ↦ rw (gone, recover_ranges) tidy
    | inr (old, known) ↦
        rw (known, recover_ranges) (put_node-IsTidy t key _ tidy (known_lem t key old tidy known))
  ]
