-- ===== src/Client/Routing/Bounds.antt =====
-- How much `_process_frame` (src/pyhems/runtime.py) keeps of senders that it does not know.
use pyhems.Common.{
  leb, ◌==◌, Bool-cases, Option-cases, length, drop, is_empty, length-append, contains, Result, ok,
  raised, ℕ_key, same_list, list_key, Dict, find, put, remove, has_key, find-put, find-remove,
  length-put, length-put_old, length-remove, ℕ, ◌-◌, ◌≤◌, ◌≡◌, refl, sym, subst, inl, inr, not,
  ◌&&◌, Option, none, some, List, [], ◌∷◌, arith,
}
use pyhems.Protocol.Services.{Esv, esv_code}
use pyhems.Protocol.Objects.{Eoj, class_code}
use pyhems.Protocol.Frame.{Frame}
use pyhems.Client.Discovery.{extract_discovery_info}
use pyhems.Client.Routing.{
  QueuedFrame, Routes, Action, answer_pending, schedule_address_discovery, push_frame, is_request,
  matches_request, is_listed, queue_unknown_frame, node_profile_class,
  clear_get_capabilities_for_node, identify, report_instances, handle_profile_info,
  handle_node_profile, acknowledge, deliver, route, process_frame,
}

-- At most 32 addresses, with at most 16 frames each.
pub record IsBounded (d : Dict (List ℕ) (List QueuedFrame)) : Type 0 where
  pub addresses : length d ≤ 32
  pub frames : (a : List ℕ) (fs : List QueuedFrame) → find d a ≡ some fs → length fs ≤ 16

length-drop_one : (fs : List QueuedFrame) → length (drop 1 fs) ≡ length fs - 1
length-drop_one [] = refl
length-drop_one (f ∷ fs) = omega arith

push_frame-length :
    (fs : List QueuedFrame) (f : QueuedFrame) → length fs ≤ 16 → length (push_frame fs f) ≤ 16
unfolding push_frame
push_frame-length fs f h = elim (Bool-cases (leb 16 (length fs))) [
  | inl full ↦ rw full (omega (arith, length-append (drop 1 fs) (f ∷ []), length-drop_one fs))
  | inr room ↦ rw room (ground (arith, length-append fs (f ∷ [])))
]

put-IsBounded :
    (d : Dict (List ℕ) (List QueuedFrame)) (a : List ℕ) (fs : List QueuedFrame)
    → IsBounded d
    → length (put d a fs) ≤ 32
    → length fs ≤ 16
    → IsBounded (put d a fs)
put-IsBounded d a fs b n h = record {
  addresses = n;
  frames = λ k gs e. ground (arith, find-put d a k fs, b.frames k gs);
}

remove-IsBounded :
    (d : Dict (List ℕ) (List QueuedFrame)) (a : List ℕ) → IsBounded d → IsBounded (remove d a)
remove-IsBounded d a b = record {
  addresses = omega (arith, length-remove d a, b.addresses);
  frames = λ k gs e. ground (arith, find-remove d a k, b.frames k gs);
}

abbrev pub frames_of : Routes × List Action → Dict (List ℕ) (List QueuedFrame)
frames_of (s, actions) = s.pending_frames

schedule-frames :
    (address : List ℕ) (s : Routes)
    → frames_of (schedule_address_discovery address s) ≡ s.pending_frames
unfolding schedule_address_discovery
schedule-frames address s = elim (Bool-cases (is_listed s.discovery_tasks address)) [
  | inl running ↦ rw running refl
  | inr new ↦ rw new refl
]

length-put_known :
    (d : Dict (List ℕ) (List QueuedFrame)) (a : List ℕ) (fs gs : List QueuedFrame)
    → find d a ≡ some fs
    → length (put d a gs) ≡ length d
length-put_known d a fs gs e = length-put_old d a gs (rw e refl)

queue_unknown_frame-IsBounded :
    (now : ℕ) (frame : Frame) (address : List ℕ) (s : Routes)
    → IsBounded s.pending_frames
    → IsBounded (frames_of (queue_unknown_frame now frame address s))
unfolding queue_unknown_frame
queue_unknown_frame-IsBounded now frame address s b =
    elim (Option-cases (find s.pending_frames address)) [
      | inl unknown ↦ elim (Bool-cases (leb 32 (length s.pending_frames))) [
        | inl full ↦ rw (queue_unknown_frame, unknown, full) b
        | inr room ↦
            rw (queue_unknown_frame, unknown, room, schedule-frames)
              (put-IsBounded s.pending_frames address (f ∷ []) b
                (ground (arith, length-put s.pending_frames address (f ∷ []))) (omega arith))
      ]
      | inr (fs, e) ↦
          rw (queue_unknown_frame, e, schedule-frames)
            (put-IsBounded s.pending_frames address (push_frame fs f) b
              (omega (
                arith,
                length-put_known s.pending_frames address fs (push_frame fs f) e,
                b.addresses,
              ))
              (push_frame-length fs f (b.frames address fs e)))
    ]
  where
    f : QueuedFrame
    f = record { frame = frame; received_at = now }

deliver-IsBounded :
    (now : ℕ) (frame : Frame) (address : List ℕ) (s : Routes)
    → IsBounded s.pending_frames
    → IsBounded (frames_of (deliver now frame address s))
unfolding deliver
deliver-IsBounded now frame address s b = by_node (find s.device_addresses address) refl
  where
    by_node :
        (o : Option (List ℕ))
        → find s.device_addresses address ≡ o
        → IsBounded (frames_of (deliver now frame address s))
    by_node none e = rw (deliver, e) (queue_unknown_frame-IsBounded now frame address s b)
    by_node (some []) e = rw (deliver, e) (queue_unknown_frame-IsBounded now frame address s b)
    by_node (some (c ∷ cs)) e = rw (deliver, e) b

acknowledge-frames :
    (frame : Frame) (address : List ℕ) (r : Routes × List Action)
    → frames_of (acknowledge frame address r) ≡ frames_of r
unfolding acknowledge
acknowledge-frames frame address (s, actions) =
    elim (Bool-cases (esv_code frame.esv == esv_code Esv.infc)) [
      | inl infc ↦ rw infc refl
      | inr other ↦ rw other refl
    ]

answer_pending-frames :
    (frame : Frame) (address : List ℕ) (s : Routes)
    → frames_of (answer_pending frame address s) ≡ s.pending_frames
unfolding answer_pending
answer_pending-frames frame address s = elim (Option-cases (find s.pending frame.tid)) [
  | inl none_pending ↦ rw (answer_pending, none_pending) refl
  | inr (r, e) ↦
      elim (Bool-cases
        (contains r.response_esvs (esv_code frame.esv) && matches_request frame address r)) [
          | inl answered ↦ rw (answer_pending, e, answered) refl
          | inr other ↦ rw (answer_pending, e, other) refl
        ]
]

module _ (forceput : Dict (List ℕ) (List ℕ) → List ℕ → List ℕ → Dict (List ℕ) (List ℕ)) where
  report_instances-IsBounded :
      (now : ℕ) (address : List ℕ) (es : List Eoj) (node_id : List ℕ) (s : Routes)
      → IsBounded s.pending_frames
      → IsBounded (frames_of (report_instances forceput now address es node_id s))
  unfolding report_instances
  report_instances-IsBounded now address [] node_id s b = b
  report_instances-IsBounded now address (e ∷ es) node_id s b =
      remove-IsBounded s.pending_frames address b

  identify-frames :
      (address node_id : List ℕ) (s : Routes)
      → (identify forceput address node_id s).pending_frames ≡ s.pending_frames
  unfolding identify clear_get_capabilities_for_node
  identify-frames address node_id s = elim (Option-cases (find s.device_addresses address)) [
    | inl unknown ↦ rw (identify, unknown) refl
    | inr (previous, e) ↦
        elim (Bool-cases (not (is_empty previous) && not (same_list previous node_id))) [
          | inl replaced ↦ rw (identify, e, replaced) refl
          | inr kept ↦ rw (identify, e, kept) refl
        ]
  ]

  unnamed-IsBounded :
      (now : ℕ) (address : List ℕ) (es : List Eoj) (s : Routes) (o : Option (List ℕ))
      → find s.device_addresses address ≡ o
      → IsBounded s.pending_frames
      → IsBounded (frames_of (handle_profile_info forceput now address (none, es) s))
  unfolding handle_profile_info
  unnamed-IsBounded now address es s none e b = rw (handle_profile_info, e, schedule-frames) b
  unnamed-IsBounded now address es s (some []) e b = rw (handle_profile_info, e, schedule-frames) b
  unnamed-IsBounded now address es s (some (c ∷ cs)) e b =
      rw (handle_profile_info, e) (report_instances-IsBounded now address es (c ∷ cs) s b)

  handle_profile_info-IsBounded :
      (now : ℕ) (address : List ℕ) (info : Option (List ℕ) × List Eoj) (s : Routes)
      → IsBounded s.pending_frames
      → IsBounded (frames_of (handle_profile_info forceput now address info s))
  unfolding handle_profile_info
  handle_profile_info-IsBounded now address (none, es) s b =
      unnamed-IsBounded now address es s (find s.device_addresses address) refl b
  handle_profile_info-IsBounded now address (some [], es) s b =
      unnamed-IsBounded now address es s (find s.device_addresses address) refl b
  handle_profile_info-IsBounded now address (some (c ∷ cs), es) s b =
      report_instances-IsBounded now address es (c ∷ cs) _
        (subst IsBounded (sym (identify-frames address (c ∷ cs) s)) b)

  handle_node_profile-IsBounded :
      (now : ℕ) (frame : Frame) (address : List ℕ) (s : Routes)
      → IsBounded s.pending_frames
      → IsBounded (frames_of (handle_node_profile forceput now frame address s))
  unfolding handle_node_profile
  handle_node_profile-IsBounded now frame address s b = by_info (extract_discovery_info frame)
    where
      by_info :
          (r : Result (Option (List ℕ) × List Eoj))
          → IsBounded (
              frames_of (elim r [
                | raised e ↦ (s, [])
                | ok info ↦ handle_profile_info forceput now address info s
              ]))
      by_info (raised e) = b
      by_info (ok info) = handle_profile_info-IsBounded now address info s b

  route-IsBounded :
      (now : ℕ) (frame : Frame) (address : List ℕ) (s : Routes)
      → IsBounded s.pending_frames
      → IsBounded (frames_of (route forceput now frame address s))
  unfolding route
  route-IsBounded now frame address s b =
      elim (Bool-cases (
        esv_code frame.esv == esv_code Esv.inf
        && (not (has_key s.device_addresses address)
            && not (class_code frame.seoj == node_profile_class)))) [
              | inl unknown ↦
                  rw (route, unknown) (queue_unknown_frame-IsBounded now frame address s b)
              | inr other ↦ elim (Bool-cases (class_code frame.seoj == node_profile_class)) [
                | inl profile ↦
                    rw (route, other, profile) (handle_node_profile-IsBounded now frame address s b)
                | inr object ↦
                    rw (route, other, object)
                      (subst IsBounded
                        (sym (acknowledge-frames frame address (deliver now frame address s)))
                        (deliver-IsBounded now frame address s b))
              ]
            ]

  -- Whatever frames come, from whatever addresses, `_process_frame` keeps frames of at most 32
  -- addresses that it does not know, and of each of them at most 16 frames.
  pub process_frame-IsBounded :
      (now : ℕ) (frame : Frame) (address : List ℕ) (s : Routes)
      → IsBounded s.pending_frames
      → IsBounded (frames_of (process_frame forceput now frame address s))
  unfolding process_frame
  process_frame-IsBounded now frame address s b = elim (Bool-cases (is_request frame.esv)) [
    | inl request ↦ rw (process_frame, request) b
    | inr other ↦
        rw (process_frame, other)
          (route-IsBounded now frame address _
            (subst IsBounded (sym (answer_pending-frames frame address s)) b))
  ]
