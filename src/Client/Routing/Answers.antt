-- ===== src/Client/Routing/Answers.antt =====
-- Which requests a frame answers in `_process_frame` (src/pyhems/runtime.py).
use pyhems.Common.{
  leb, ◌==◌, ==_iff, &&_left, &&_right, Bool-cases, Option-cases, length, is_empty, contains,
  Result, ok, raised, ℕ_key, same_list, same_list_iff, list_key, Dict, find, remove, has_key, ℕ,
  ◌≡◌, refl, sym, ◌∙◌, subst, ◌⊎◌, inl, inr, true, not, ◌&&◌, Option, none, some, List, [], ◌∷◌,
}
use pyhems.Protocol.Services.{Esv, esv_code}
use pyhems.Protocol.Objects.{Eoj, class_code, eoj_eq}
use pyhems.Protocol.Frame.{Frame}
use pyhems.Client.Discovery.{extract_discovery_info}
use pyhems.Client.Routing.{
  PendingRequest, Routes, Action, answer_pending, schedule_address_discovery, is_request,
  matches_request, is_listed, queue_unknown_frame, node_profile_class,
  clear_get_capabilities_for_node, identify, report_instances, handle_profile_info,
  handle_node_profile, acknowledge, deliver, route, process_frame,
}

abbrev pub pending_of : Routes × List Action → Dict ℕ PendingRequest
pending_of (s, actions) = s.pending

-- The frame is of a kind that the request waits for, comes from where the request went, and from
-- the object that it went to.
pub record Answers (s : Routes) (frame : Frame) (address : List ℕ) (r : PendingRequest)
    : Type 0 where
  pub waits : find s.pending frame.tid ≡ some r
  pub kind : contains r.response_esvs (esv_code frame.esv) ≡ true
  pub sender : address ≡ r.address
  pub from_object : frame.seoj.value ≡ r.deoj.value
  pub to_object : frame.deoj.value ≡ r.seoj.value

-- The pending requests after a frame.
abbrev pub IsAnswered : Routes → Frame → List ℕ → Dict ℕ PendingRequest → Type 0
IsAnswered s frame address after =
    (after ≡ s.pending)
    ⊎ ((r : PendingRequest) × Answers s frame address r × (after ≡ remove s.pending frame.tid))

matches_request_lem :
    (frame : Frame) (address : List ℕ) (r : PendingRequest)
    → matches_request frame address r ≡ true
    → (address ≡ r.address)
      × ((frame.seoj.value ≡ r.deoj.value) × (frame.deoj.value ≡ r.seoj.value))
unfolding matches_request eoj_eq
matches_request_lem frame address r h = (
  (same_list_iff address r.address).0 (&&_left _ _ h),
  let rest = &&_right (same_list address r.address) _ h in
      ((==_iff _ _).0 (&&_left _ _ rest), (==_iff _ _).0 (&&_right _ _ rest)),
)

answer_pending-IsAnswered :
    (frame : Frame) (address : List ℕ) (s : Routes)
    → IsAnswered s frame address (pending_of (answer_pending frame address s))
unfolding answer_pending
answer_pending-IsAnswered frame address s = elim (Option-cases (find s.pending frame.tid)) [
  | inl none_pending ↦ inl (rw (answer_pending, none_pending) refl)
  | inr (r, e) ↦
      elim (Bool-cases
        (contains r.response_esvs (esv_code frame.esv) && matches_request frame address r)) [
          | inr other ↦ inl (rw (answer_pending, e, other) refl)
          | inl matched ↦
              let (sender, objects) = matches_request_lem frame address r (&&_right _ _ matched) in
              inr (
                r,
                record {
                  waits = e;
                  kind = &&_left _ _ matched;
                  sender = sender;
                  from_object = objects.0;
                  to_object = objects.1;
                },
                rw (answer_pending, e, matched) refl,
              )
        ]
]

schedule-pending :
    (address : List ℕ) (s : Routes) → pending_of (schedule_address_discovery address s) ≡ s.pending
unfolding schedule_address_discovery
schedule-pending address s = elim (Bool-cases (is_listed s.discovery_tasks address)) [
  | inl running ↦ rw running refl
  | inr new ↦ rw new refl
]

queue_unknown_frame-pending :
    (now : ℕ) (frame : Frame) (address : List ℕ) (s : Routes)
    → pending_of (queue_unknown_frame now frame address s) ≡ s.pending
unfolding queue_unknown_frame
queue_unknown_frame-pending now frame address s =
    elim (Option-cases (find s.pending_frames address)) [
      | inl unknown ↦ elim (Bool-cases (leb 32 (length s.pending_frames))) [
        | inl full ↦ rw (queue_unknown_frame, unknown, full) refl
        | inr room ↦ rw (queue_unknown_frame, unknown, room) (schedule-pending address _)
      ]
      | inr (fs, e) ↦ rw (queue_unknown_frame, e) (schedule-pending address _)
    ]

deliver-pending :
    (now : ℕ) (frame : Frame) (address : List ℕ) (s : Routes) (o : Option (List ℕ))
    → find s.device_addresses address ≡ o
    → pending_of (deliver now frame address s) ≡ s.pending
unfolding deliver
deliver-pending now frame address s none e =
    rw (deliver, e) (queue_unknown_frame-pending now frame address s)
deliver-pending now frame address s (some []) e =
    rw (deliver, e) (queue_unknown_frame-pending now frame address s)
deliver-pending now frame address s (some (c ∷ cs)) e = rw (deliver, e) refl

acknowledge-pending :
    (frame : Frame) (address : List ℕ) (r : Routes × List Action)
    → pending_of (acknowledge frame address r) ≡ pending_of r
unfolding acknowledge
acknowledge-pending frame address (s, actions) =
    elim (Bool-cases (esv_code frame.esv == esv_code Esv.infc)) [
      | inl infc ↦ rw infc refl
      | inr other ↦ rw other refl
    ]

module _ (forceput : Dict (List ℕ) (List ℕ) → List ℕ → List ℕ → Dict (List ℕ) (List ℕ)) where
  report_instances-pending :
      (now : ℕ) (address : List ℕ) (es : List Eoj) (node_id : List ℕ) (s : Routes)
      → pending_of (report_instances forceput now address es node_id s) ≡ s.pending
  unfolding report_instances
  report_instances-pending now address [] node_id s = refl
  report_instances-pending now address (e ∷ es) node_id s = refl

  identify-pending :
      (address node_id : List ℕ) (s : Routes)
      → (identify forceput address node_id s).pending ≡ s.pending
  unfolding identify clear_get_capabilities_for_node
  identify-pending address node_id s = elim (Option-cases (find s.device_addresses address)) [
    | inl unknown ↦ rw (identify, unknown) refl
    | inr (previous, e) ↦
        elim (Bool-cases (not (is_empty previous) && not (same_list previous node_id))) [
          | inl replaced ↦ rw (identify, e, replaced) refl
          | inr kept ↦ rw (identify, e, kept) refl
        ]
  ]

  unnamed-pending :
      (now : ℕ) (address : List ℕ) (es : List Eoj) (s : Routes) (o : Option (List ℕ))
      → find s.device_addresses address ≡ o
      → pending_of (handle_profile_info forceput now address (none, es) s) ≡ s.pending
  unfolding handle_profile_info
  unnamed-pending now address es s none e = rw (handle_profile_info, e) (schedule-pending address s)
  unnamed-pending now address es s (some []) e =
      rw (handle_profile_info, e) (schedule-pending address s)
  unnamed-pending now address es s (some (c ∷ cs)) e =
      rw (handle_profile_info, e) (report_instances-pending now address es (c ∷ cs) s)

  handle_profile_info-pending :
      (now : ℕ) (address : List ℕ) (info : Option (List ℕ) × List Eoj) (s : Routes)
      → pending_of (handle_profile_info forceput now address info s) ≡ s.pending
  unfolding handle_profile_info
  handle_profile_info-pending now address (none, es) s =
      unnamed-pending now address es s (find s.device_addresses address) refl
  handle_profile_info-pending now address (some [], es) s =
      unnamed-pending now address es s (find s.device_addresses address) refl
  handle_profile_info-pending now address (some (c ∷ cs), es) s =
      report_instances-pending now address es (c ∷ cs) _ ∙ identify-pending address (c ∷ cs) s

  handle_node_profile-pending :
      (now : ℕ) (frame : Frame) (address : List ℕ) (s : Routes)
      → pending_of (handle_node_profile forceput now frame address s) ≡ s.pending
  unfolding handle_node_profile
  handle_node_profile-pending now frame address s = by_info (extract_discovery_info frame)
    where
      by_info :
          (r : Result (Option (List ℕ) × List Eoj))
          → pending_of (elim r [
            | raised e ↦ (s, [])
            | ok info ↦ handle_profile_info forceput now address info s
          ])
            ≡ s.pending
      by_info (raised e) = refl
      by_info (ok info) = handle_profile_info-pending now address info s

  route-pending :
      (now : ℕ) (frame : Frame) (address : List ℕ) (s : Routes)
      → pending_of (route forceput now frame address s) ≡ s.pending
  unfolding route
  route-pending now frame address s =
      elim (Bool-cases (
        esv_code frame.esv == esv_code Esv.inf
        && (not (has_key s.device_addresses address)
            && not (class_code frame.seoj == node_profile_class)))) [
              | inl unknown ↦ rw (route, unknown) (queue_unknown_frame-pending now frame address s)
              | inr other ↦ elim (Bool-cases (class_code frame.seoj == node_profile_class)) [
                | inl profile ↦
                    rw (route, other, profile) (handle_node_profile-pending now frame address s)
                | inr object ↦
                    rw (route, other, object)
                      (acknowledge-pending frame address (deliver now frame address s)
                        ∙ deliver-pending now frame address s (find s.device_addresses address)
                            refl)
              ]
            ]

  -- A frame takes at most one request out of the pending ones: the one with its transaction ID, and
  -- only if the frame is of a kind that this request waits for, comes from the address and the
  -- object that it was sent to, and is for the object that sent it. All other requests stay.
  pub process_frame-IsAnswered :
      (now : ℕ) (frame : Frame) (address : List ℕ) (s : Routes)
      → IsAnswered s frame address (pending_of (process_frame forceput now frame address s))
  unfolding process_frame
  process_frame-IsAnswered now frame address s = elim (Bool-cases (is_request frame.esv)) [
    | inl request ↦ rw (process_frame, request) (inl refl)
    | inr other ↦
        rw (process_frame, other)
          (subst (IsAnswered s frame address) (sym (route-pending now frame address _))
            (answer_pending-IsAnswered frame address s))
  ]
