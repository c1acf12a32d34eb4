-- ===== src/Devices/Table/Deferred.antt =====
-- What a setup makes of the frames that waited for it, src/pyhems/device_manager.py.
use pyhems.Common.{
  if◌then◌else◌, Bool-cases, is_empty, ℕ_key, same_list_iff, list_key, find, put, remove, find-put,
  ℕ, ◌≡◌, refl, sym, ap, ◌∙◌, subst, inl, inr, Bool, true, false, some, List, [], ◌∷◌, arith,
}
use pyhems.Protocol.Objects.{class_code}
use pyhems.Protocol.Frame.{Frame}
use pyhems.Codecs.Definitions.{CollectionBinding}
use pyhems.Devices.Nodes.{NodeState, apply_frame, carries_values}
use pyhems.Devices.Ranges.{recovery_properties}
use pyhems.Devices.Table.{
  FrameEvent, DeviceTable, device_key, put_node, enqueue_node_job, apply_values, apply_to_node,
  apply_next, apply_all, apply_deferred_frames, register_node, record_activity, or_no_events, Emits,
}

-- The node that took the frames, one after the other.
pub applied_all : NodeState → List FrameEvent → NodeState
applied_all node [] = node
applied_all node (e ∷ es) = applied_all (apply_frame node e.frame).0 es

apply_frame-none :
    (node : NodeState) (frame : Frame)
    → carries_values frame.esv ≡ false
    → (apply_frame node frame).0 ≡ node
unfolding apply_frame
apply_frame-none node frame h = rw h refl

module _ (bindings : ℕ → List CollectionBinding) where
  apply_values-node :
      (t : DeviceTable) (key : List ℕ) (values : NodeState × List ℕ)
      → (find (apply_values bindings key values t).0.nodes key ≡ some values.0)
        × ((apply_values bindings key values t).0.deferred_frames ≡ t.deferred_frames)
  unfolding apply_values put_node enqueue_node_job
  apply_values-node t key (node, changed) =
      let held : find (put t.nodes key node) key ≡ some node =
        ground (arith, find-put t.nodes key key node, same_list_iff key key) in
      elim (Bool-cases (is_empty (recovery_properties node (bindings (class_code node.eoj))))) [
        | inl nothing ↦ rw nothing (held, refl)
        | inr unset ↦ rw unset (held, refl)
      ]

  -- The writes under a test that leaves the node as it is where it fails
  apply_if-node :
      (t : DeviceTable) (key : List ℕ) (values : NodeState × List ℕ) (node : NodeState)
      (test : Bool)
      → find t.nodes key ≡ some node
      → (test ≡ false → values.0 ≡ node)
      → (find (if test then apply_values bindings key values t else (t, [], false)).0.nodes key
          ≡ some values.0)
        × ((if test then apply_values bindings key values t else (t, [], false)).0.deferred_frames
            ≡ t.deferred_frames)
  apply_if-node t key values node true known same = apply_values-node t key values
  apply_if-node t key values node false known same = (known ∙ ap some (sym (same refl)), refl)

  apply_to_node-node :
      (t : DeviceTable) (key : List ℕ) (frame : Frame) (node : NodeState)
      → find t.nodes key ≡ some node
      → (find (apply_to_node bindings key frame node t).0.nodes key
          ≡ some (apply_frame node frame).0)
        × ((apply_to_node bindings key frame node t).0.deferred_frames ≡ t.deferred_frames)
  unfolding apply_to_node
  apply_to_node-node t key frame node known =
      apply_if-node t key (apply_frame node frame) node (carries_values frame.esv) known
        (λ h. apply_frame-none node frame h)

  apply_all-node :
      (key : List ℕ) (es : List FrameEvent) (s : Emits) (node : NodeState)
      → find s.0.nodes key ≡ some node
      → (find (apply_all bindings key es s).0.nodes key ≡ some (applied_all node es))
        × ((apply_all bindings key es s).0.deferred_frames ≡ s.0.deferred_frames)
  unfolding apply_all applied_all apply_next
  apply_all-node key [] s node known = (known, refl)
  apply_all-node key (e ∷ es) (t, events) node known =
      let one = apply_to_node-node t key e.frame node known in
      let rest =
        apply_all-node key es (apply_next bindings key e.frame (some node) (t, events))
          (apply_frame node e.frame).0 one.0 in
      subst
        (λ o.
          let after = apply_all bindings key es (apply_next bindings key e.frame o (t, events)) in
          (find after.0.nodes key ≡ some (applied_all (apply_frame node e.frame).0 es))
          × (after.0.deferred_frames ≡ t.deferred_frames))
        (sym known) (rest.0, rest.1 ∙ one.1)

  -- When a node is registered, its object in the table is the node after the frames that waited for
  -- it, applied in the order in which they were received; no frame waits for it any more, and the
  -- frames that wait for other objects are as before.
  pub register_node_lem :
      (t : DeviceTable) (now : ℕ) (node : NodeState)
      → let key = device_key node.node_id node.eoj in
        let after = (register_node bindings now node t).0 in
        (find after.nodes key ≡ some (applied_all node (or_no_events (find t.deferred_frames key))))
        × (after.deferred_frames ≡ remove t.deferred_frames key)
  unfolding register_node apply_deferred_frames put_node record_activity
  register_node_lem t now node =
      let key = device_key node.node_id node.eoj in
      apply_all-node key (or_no_events (find t.deferred_frames key)) _ node
        (ground (arith, find-put t.nodes key key node, same_list_iff key key))
