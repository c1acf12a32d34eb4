-- ===== src/Devices/Nodes/Cache.antt =====
-- What a frame and an accepted write do to the cached values (src/pyhems/device_manager.py).
use pyhems.Common.{
  ◌==◌, if◌then◌else◌, ==_iff, Bool-cases, Option-cases, select, contains, contains-cons, ℕ_key,
  same_list, same_list_iff, list_key, Dict, find, put, find-put, ℕ, ◌≡◌, refl, ap, ◌∙◌, subst, inl,
  inr, Bool, true, false, not, ◌&&◌, ◌||◌, Option, some, List, [], ◌∷◌, map, arith,
}
use pyhems.Protocol.Frame.{Property, Frame}
use pyhems.Devices.Nodes.{
  NodeState, differs, write_values, carries_values, apply_frame, apply_accepted_properties,
}

-- The value that a list of properties leaves for an EPC, where `test` lets a property through:
-- that of its last such property, or what was there before.
pub last_value : (Property → Bool) → List Property → Option (List ℕ) → ℕ → Option (List ℕ)
last_value test [] before a = before
last_value test (p ∷ ps) before a =
    last_value test ps (if test p && p.epc == a then some p.edt else before) a

-- The EPCs of the properties that the test lets through.
pub named : (Property → Bool) → List Property → List ℕ
named test ps = map (λ p. p.epc) (select test ps)

-- The cache holds the last values, and an EPC with another value than before is reported.
pub record IsUpdate (test : Property → Bool) (ps : List Property) (d d' : Dict ℕ (List ℕ))
    (before changed : List ℕ) : Type 0 where
  pub holds_last : (a : ℕ) → find d' a ≡ last_value test ps (find d a) a
  pub reported :
      (a : ℕ) → contains changed a ≡ false → (contains before a ≡ false) × (find d' a ≡ find d a)
  pub only_named :
      (a : ℕ) → contains changed a ≡ true → (contains before a || contains (named test ps) a) ≡ true

differs_lem :
    (d : Dict ℕ (List ℕ)) (epc : ℕ) (edt : List ℕ)
    → differs d epc edt ≡ false
    → find d epc ≡ some edt
unfolding differs
differs_lem d epc edt h = elim (Option-cases (find d epc)) [
  | inl missing ↦ let clash : true ≡ false = rw (differs, missing) at h in cc
  | inr (old, e) ↦
      let same_value : not (same_list old edt) ≡ false = rw (differs, e) at h in
      let eq = (same_list_iff old edt).0 (ground arith) in e ∙ ap some eq
]

contains-named :
    (test : Property → Bool) (p : Property) (ps : List Property) (a : ℕ)
    → contains (named test (p ∷ ps)) a
      ≡ (if test p && p.epc == a then true else contains (named test ps) a)
unfolding named contains
contains-named test p ps a = ground arith

written_value :
    (test : Property → Bool) (p : Property) (d : Dict ℕ (List ℕ)) (a : ℕ)
    → (test p && differs d p.epc p.edt) ≡ true
    → find (put d p.epc p.edt) a ≡ (if test p && p.epc == a then some p.edt else find d a)
written_value test p d a h = ground (arith, find-put d p.epc a p.edt)

kept_value :
    (test : Property → Bool) (p : Property) (d : Dict ℕ (List ℕ)) (a : ℕ)
    → (test p && differs d p.epc p.edt) ≡ false
    → find d a ≡ (if test p && p.epc == a then some p.edt else find d a)
kept_value test p d a h = elim (Bool-cases (test p && p.epc == a)) [
  | inr other ↦ rw other refl
  | inl here ↦
      let same_epc = (==_iff p.epc a).0 (ground arith) in
      let old : find d p.epc ≡ some p.edt = differs_lem d p.epc p.edt (ground arith) in
      rw here (subst (λ e. find d e ≡ some p.edt) same_epc old)
]

write_values-IsUpdate :
    (test : Property → Bool) (ps : List Property) (d : Dict ℕ (List ℕ)) (before : List ℕ)
    → IsUpdate test ps d
        (write_values test ps (d, before)).0
        before
        (write_values test ps (d, before)).1
unfolding write_values last_value
write_values-IsUpdate test [] d before = record {
  holds_last = λ a. refl;
  reported = λ a h. (h, refl);
  only_named = λ a h. ground arith;
}
write_values-IsUpdate test (p ∷ ps) d before = elim (Bool-cases (test p && differs d p.epc p.edt)) [
  | inl written ↦
      let rest = write_values-IsUpdate test ps (put d p.epc p.edt) (p.epc ∷ before) in
      rw (write_values, written)
        (record {
          holds_last = λ a.
              rest.holds_last a
              ∙ ap (λ o. last_value test ps o a) (written_value test p d a written);
          reported = λ a h.
              let (quiet, same_value) = rest.reported a h in
              ground (arith, contains-cons p.epc before a, find-put d p.epc a p.edt);
          only_named = λ a h. ground (
            arith,
            rest.only_named a h,
            contains-cons p.epc before a,
            contains-named test p ps a,
          );
        })
  | inr skipped ↦
      let rest = write_values-IsUpdate test ps d before in
      rw (write_values, skipped)
        (record {
          holds_last = λ a.
              rest.holds_last a ∙ ap (λ o. last_value test ps o a) (kept_value test p d a skipped);
          reported = λ a h. rest.reported a h;
          only_named = λ a h. ground (arith, rest.only_named a h, contains-named test p ps a);
        })
]

abbrev pub IsApplied : NodeState → Frame → NodeState × List ℕ → Type 0
IsApplied node frame (after, changed) =
    (carries_values frame.esv ≡ true
      → IsUpdate (λ _. true) frame.properties node.properties after.properties [] changed)
    × (carries_values frame.esv ≡ false → (after ≡ node) × (changed ≡ []))

-- A frame with property values leaves for each EPC the value of its last property in the frame, or
-- the value from before; every EPC whose value differs afterwards is reported as changed, and
-- only EPCs of the frame are. Any other frame changes and reports nothing.
pub apply_frame-IsApplied :
    (node : NodeState) (frame : Frame) → IsApplied node frame (apply_frame node frame)
unfolding apply_frame
apply_frame-IsApplied node frame = elim (Bool-cases (carries_values frame.esv)) [
  | inl values ↦ rw values (
    λ _. write_values-IsUpdate (λ _. true) frame.properties node.properties [],
    λ clash. absurd cc,
  )
  | inr other ↦ rw other (λ clash. absurd cc, λ _. (refl, refl))
]

-- Of an acknowledged write, the cache takes the written values of the accepted EPCs, the last one
-- where an EPC is written twice, and leaves every other value.
pub apply_accepted_properties-IsUpdate :
    (node : NodeState) (ps : List Property) (accepted : List ℕ)
    → let r = apply_accepted_properties node ps accepted in
      IsUpdate (λ p. contains accepted p.epc) ps node.properties r.0.properties [] r.1
unfolding apply_accepted_properties
apply_accepted_properties-IsUpdate node ps accepted =
    write_values-IsUpdate (λ p. contains accepted p.epc) ps node.properties []
