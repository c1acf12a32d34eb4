-- ===== src/Devices/Table/Waiting.antt =====
-- Frames that wait for the setup of their object, `_deferred_frames` of src/pyhems/device_manager.py.
use pyhems.Common.{
  ltb, if◌then◌else◌, Bool-cases, Option-cases, some_inj, length, length-append, ℕ_key, same_list,
  same_list_iff, list_key, Dict, find, put, remove, has_key, set_default, find-put, find-remove,
  find-set_default, ℕ, ◌≤◌, ◌≡◌, refl, sym, subst, ◌⊎◌, inl, inr, Bool, true, false, Option, none,
  some, List, [], ◌∷◌, ◌++◌, arith,
}
use pyhems.Devices.Nodes.{NodeState}
use pyhems.Client.Routing.{is_listed}
use pyhems.Devices.Table.Jobs.{abandoned, remove_all}
use pyhems.Devices.Table.{
  FrameEvent, Job, DeviceTable, device_key, put_node, enqueue_node_job, defer_frame,
  record_activity, or_no_events,
}

-- Whether a worker is there for the first of the frames.
unfoldable pub is_awaited : Dict (List ℕ) (Option Job) → List FrameEvent → Bool
unfolding find
is_awaited workers [] = false
is_awaited workers (e ∷ es) = has_key workers e.node_id

-- The frames that wait under a key are one to 64, their object is not in the table, and a worker of
-- the node of the first of them runs.
pub record IsWaiting (t : DeviceTable) (key : List ℕ) (events : List FrameEvent) : Type 0 where
  pub unknown : has_key t.nodes key ≡ false
  pub bounded : length events ≤ 64
  pub awaited : is_awaited t.node_workers events ≡ true

unfoldable pub IsTidy : DeviceTable → Type 0
IsTidy t =
    (key : List ℕ) (events : List FrameEvent)
    → find t.deferred_frames key ≡ some events
    → IsWaiting t key events

-- A node that the table holds has no frame that waits.
pub known_lem :
    (t : DeviceTable) (key : List ℕ) (node : NodeState)
    → IsTidy t
    → find t.nodes key ≡ some node
    → find t.deferred_frames key ≡ none
unfolding IsTidy
known_lem t key node tidy known = elim (Option-cases (find t.deferred_frames key)) [
  | inl nothing ↦ nothing
  | inr (events, found) ↦ let w = (tidy key events found).unknown in cc
]

pub put_node-IsTidy :
    (t : DeviceTable) (key : List ℕ) (node : NodeState)
    → IsTidy t
    → find t.deferred_frames key ≡ none
    → IsTidy (put_node key node t)
unfolding IsTidy put_node
put_node-IsTidy t key node tidy free k events found = record {
  unknown = ground (
    arith,
    find-put t.nodes key k node,
    same_list_iff key k,
    (tidy k events found).unknown,
    free,
    found,
  );
  bounded = (tidy k events found).bounded;
  awaited = (tidy k events found).awaited;
}

is_awaited-set_default :
    (workers : Dict (List ℕ) (Option Job)) (node_id : List ℕ) (job : Option Job)
    (events : List FrameEvent)
    → is_awaited workers events ≡ true
    → is_awaited (set_default workers node_id job) events ≡ true
unfolding is_awaited
is_awaited-set_default workers node_id job [] h = h
is_awaited-set_default workers node_id job (e ∷ es) h =
    ground
      (arith, find-set_default workers node_id e.node_id job, same_list_iff node_id e.node_id, h)

pub enqueue_node_job-IsTidy :
    (t : DeviceTable) (node_id : List ℕ) (job : Job)
    → IsTidy t
    → IsTidy (enqueue_node_job node_id job t)
unfolding IsTidy enqueue_node_job
enqueue_node_job-IsTidy t node_id job tidy k events found = record {
  unknown = (tidy k events found).unknown;
  bounded = (tidy k events found).bounded;
  awaited = is_awaited-set_default t.node_workers node_id none events (tidy k events found).awaited;
}

pub record_activity-IsTidy :
    (t : DeviceTable) (now : ℕ) → IsTidy t → IsTidy (record_activity now t).0
unfolding IsTidy record_activity
record_activity-IsTidy t now tidy k events found = record {
  unknown = (tidy k events found).unknown;
  bounded = (tidy k events found).bounded;
  awaited = (tidy k events found).awaited;
}

pub remove-IsTidy :
    (t : DeviceTable) (key : List ℕ)
    → IsTidy t
    → IsTidy (record t { deferred_frames = remove t.deferred_frames key })
unfolding IsTidy
remove-IsTidy t key tidy k events found =
    let before : find t.deferred_frames k ≡ some events =
      ground (arith, find-remove t.deferred_frames key k, found) in
    record {
      unknown = (tidy k events before).unknown;
      bounded = (tidy k events before).bounded;
      awaited = (tidy k events before).awaited;
    }

-- A list of frames with one more, where there is room
room_for :
    (kept : List FrameEvent) (event : FrameEvent)
    → length kept ≤ 64
    → length (if ltb (length kept) 64 then kept ++ event ∷ [] else kept) ≤ 64
room_for kept event h = ground (arith, length-append kept (event ∷ []))

is_awaited-append :
    (workers : Dict (List ℕ) (Option Job)) (kept more : List FrameEvent)
    → is_awaited workers kept ≡ true
    → is_awaited workers (kept ++ more) ≡ true
unfolding is_awaited
is_awaited-append workers [] more h = cc
is_awaited-append workers (e ∷ es) more h = h

is_awaited-deferred :
    (workers : Dict (List ℕ) (Option Job)) (kept : List FrameEvent) (event : FrameEvent)
    → (kept ≡ []) ⊎ (is_awaited workers kept ≡ true)
    → has_key workers event.node_id ≡ true
    → is_awaited workers (if ltb (length kept) 64 then kept ++ event ∷ [] else kept) ≡ true
unfolding is_awaited
is_awaited-deferred workers kept event (inl nothing) h = rw nothing h
is_awaited-deferred workers kept event (inr before) h = elim (Bool-cases (ltb (length kept) 64)) [
  | inl room ↦ rw room (is_awaited-append workers kept (event ∷ []) before)
  | inr full ↦ rw full before
]

put_deferred-IsTidy :
    (t : DeviceTable) (key : List ℕ) (waiting : List FrameEvent)
    → IsTidy t
    → IsWaiting t key waiting
    → IsTidy (record t { deferred_frames = put t.deferred_frames key waiting })
unfolding IsTidy
put_deferred-IsTidy t key waiting tidy w k events found = elim (Bool-cases (same_list key k)) [
  | inl same ↦
      let here : key ≡ k = (same_list_iff key k).0 same in
      let all : waiting ≡ events =
        some_inj (ground (arith, find-put t.deferred_frames key k waiting, same, found)) in
      record {
        unknown = subst (λ j. has_key t.nodes j ≡ false) here w.unknown;
        bounded = subst (λ es. length es ≤ 64) all w.bounded;
        awaited = subst (λ es. is_awaited t.node_workers es ≡ true) all w.awaited;
      }
  | inr other ↦
      let before : find t.deferred_frames k ≡ some events =
        ground (arith, find-put t.deferred_frames key k waiting, other, found) in
      record {
        unknown = (tidy k events before).unknown;
        bounded = (tidy k events before).bounded;
        awaited = (tidy k events before).awaited;
      }
]

-- What was kept under a key, with one more frame
kept_lem :
    (t : DeviceTable) (key : List ℕ) (kept : Option (List FrameEvent))
    → IsTidy t
    → find t.deferred_frames key ≡ kept
    → (length (or_no_events kept) ≤ 64)
      × ((or_no_events kept ≡ []) ⊎ (is_awaited t.node_workers (or_no_events kept) ≡ true))
unfolding IsTidy or_no_events
kept_lem t key none tidy h = (omega arith, inl refl)
kept_lem t key (some events) tidy h = ((tidy key events h).bounded, inr (tidy key events h).awaited)

pub defer_frame-IsTidy :
    (t : DeviceTable) (event : FrameEvent)
    → IsTidy t
    → find t.nodes (device_key event.node_id event.eoj) ≡ none
    → has_key t.node_workers event.node_id ≡ true
    → IsTidy (defer_frame event t)
unfolding defer_frame
defer_frame-IsTidy t event tidy unknown running =
    let key = device_key event.node_id event.eoj in
    let kept = kept_lem t key (find t.deferred_frames key) tidy refl in
    put_deferred-IsTidy t key _ tidy (record {
      unknown = rw unknown refl;
      bounded = room_for _ event kept.0;
      awaited = is_awaited-deferred t.node_workers _ event kept.1 running;
    })

pub find-remove_all :
    (d : Dict (List ℕ) (List FrameEvent)) (keys : List (List ℕ)) (k : List ℕ)
    → find (remove_all d keys) k ≡ (if is_listed keys k then none else find d k)
unfolding remove_all is_listed
find-remove_all d [] k = refl
find-remove_all d (key ∷ keys) k =
    ground (arith, find-remove_all (remove d key) keys k, find-remove d key k)

pub is_listed-abandoned :
    (node_id : List ℕ) (t : DeviceTable) (d : Dict (List ℕ) (List FrameEvent)) (k : List ℕ)
    (e : FrameEvent) (es : List FrameEvent)
    → find d k ≡ some (e ∷ es)
    → same_list e.node_id node_id ≡ true
    → has_key t.nodes k ≡ false
    → is_listed (abandoned node_id t d) k ≡ true
unfolding abandoned is_listed find
is_listed-abandoned node_id t [] k e es found same unknown = cc
is_listed-abandoned node_id t ((key, []) ∷ d) k e es found same unknown =
    is_listed-abandoned node_id t d k e es (ground (arith, found)) same unknown
is_listed-abandoned node_id t ((key, f ∷ fs) ∷ d) k e es found same unknown =
    elim (Bool-cases (same_list key k)) [
      | inl here ↦
          let first : f ≡ e = cc in
          let known : has_key t.nodes key ≡ false =
            subst (λ j. has_key t.nodes j ≡ false) (sym ((same_list_iff key k).0 here)) unknown in
          let of_node : same_list f.node_id node_id ≡ true =
            subst (λ g. same_list g.node_id node_id ≡ true) (sym first) same in
          rw (of_node, known, here) refl
      | inr other ↦ ground (
        arith,
        found,
        is_listed-abandoned node_id t d k e es (ground (arith, found, other)) same unknown,
      )
    ]
