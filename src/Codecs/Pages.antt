-- ===== src/Codecs/Pages.antt =====
-- The pages of paged lists, the end of src/pyhems/codecs.py. The registry with the structured
-- values and the bindings is generated data, an argument.
use native.Mathlib.Nat.{div-add-mod}
use pyhems.Codecs.Numbers.{ℤ, pos, int, Arithmetic}
use pyhems.Codecs.Definitions.{
  ItemBounds, PropertyValueDefinition, array, CollectionBinding, DefinitionsRegistry,
}
use pyhems.Codecs.Numeric.{PropertyCodec, boolean, number, Context}
use pyhems.Codecs.Selection.{or_no_items, get_codec_for_epc}
use pyhems.Codecs.Layout.{
  Decoded, null, leaf, dict, tuple, Members, no_member, member, Items, no_item, item, slices,
  rejects_items, over_maximum, under_minimum,
}
use pyhems.Codecs.Structured.{decode_each, decode_items, decode_property_value}
use pyhems.Common.{
  ◌==◌, if◌then◌else◌, ==_iff, Bool-cases, length, take, drop, length-append, take-append-drop,
  length-take_of_le, Result, ok, ◌>>=◌, ok_inj, bind_ok, ℕ_key, same_list, list_key, find, ℕ, zero,
  suc, ◌*◌, ◌/◌, ◌%◌, ◌≤◌, ◌≡◌, refl, sym, ap, subst, inl, inr, Bool, true, false, Option, none,
  some, List, [], ◌∷◌, ◌++◌, arith,
}

pub record CollectionPage (F : Type 0) : Type 0 where
  pub start : ℤ
  pub count : ℤ
  pub items : Items F

abbrev pub length_items : {F : Type 0} → Items F → ℕ
length_items no_item = 0
length_items (item v vs) = suc (length_items vs)

-- `page_count != len(items)`, of a count that may be negative
is_count : ℤ → ℕ → Bool
is_count (pos n) m = n == m
is_count _ m = false

binding_of : ℕ → List CollectionBinding → Option CollectionBinding
binding_of result_epc [] = none
binding_of result_epc (b ∷ bs) =
    if b.result_epc == result_epc then some b else binding_of result_epc bs

module _ {F : Type 0} where
  -- d.get(key)
  member_value : List ℕ → Members F → Decoded F
  unfolding same_list
  member_value k no_member = null
  member_value k (member j v ms) = if same_list j k then v else member_value k ms

  step_into : List ℕ → Decoded F → Decoded F
  unfolding member_value
  step_into k (dict ms) = member_value k ms
  step_into k _ = null

  -- _get_path; what is no dictionary has no key.
  get_path : Decoded F → List (List ℕ) → Decoded F
  unfolding step_into
  get_path node [] = node
  get_path node (k ∷ path) = get_path (step_into k node) path

  -- isinstance(value, int), which holds of a bool too
  int_of : Decoded F → Option ℤ
  int_of (leaf (number (int z))) = some z
  int_of (leaf (boolean true)) = some (pos 1)
  int_of (leaf (boolean false)) = some (pos 0)
  int_of _ = none

  page_of : Items F → Option ℤ → Option ℤ → Option (CollectionPage F)
  unfolding is_count
  page_of items (some start) (some count) =
      if is_count count (length_items items)
      then some (record { start = start; count = count; items = items })
      else none
  page_of items _ _ = none

  -- The items, if they are a tuple.
  page_of_items : Decoded F → Option ℤ → Option ℤ → Option (CollectionPage F)
  unfolding page_of
  page_of_items (tuple items) start count = page_of items start count
  page_of_items _ start count = none

  pub decode_collection : CollectionBinding → Decoded F → Option (CollectionPage F)
  unfolding page_of_items get_path int_of
  decode_collection b value =
      page_of_items (get_path value b.items_path) (int_of (get_path value b.start_path))
        (int_of (get_path value b.page_count_path))

  pub get_structured_value : DefinitionsRegistry F → ℕ → ℕ → Option (PropertyValueDefinition F)
  unfolding find or_no_items
  get_structured_value registry class_code epc =
      find (or_no_items (find registry.structured_values class_code)) epc

  pub get_collection_binding : DefinitionsRegistry F → ℕ → ℕ → Option CollectionBinding
  unfolding binding_of find or_no_items
  get_collection_binding registry class_code result_epc =
      binding_of result_epc (or_no_items (find registry.collection_bindings class_code))

  module _ (a : Arithmetic F) (registry : DefinitionsRegistry F) (fuel : ℕ) (context : Context)
      (class_code : ℕ) where
    -- get_codec_for_epc, for a coefficient
    abbrev pub look : ℕ → ℕ → Result (PropertyCodec F)
    look c e = get_codec_for_epc registry fuel c e none 0

    page_of_definitions :
        Option (PropertyValueDefinition F)
        → Option CollectionBinding
        → List ℕ
        → Result (Option (CollectionPage F))
    unfolding decode_collection
    page_of_definitions (some d) (some b) edt =
        decode_property_value a look context (some class_code) d edt >>= λ value.
        ok (decode_collection b value)
    page_of_definitions _ _ edt = ok none

    pub decode_collection_page : ℕ → List ℕ → Result (Option (CollectionPage F))
    unfolding page_of_definitions get_structured_value get_collection_binding
    decode_collection_page result_epc edt =
        page_of_definitions (get_structured_value registry class_code result_epc)
          (get_collection_binding registry class_code result_epc) edt

-- At least the minimum and at most the maximum, where they are given.
abbrev pub IsWithin : Option ℕ → Option ℕ → ℕ → Type 0
IsWithin none none n = Unit
IsWithin (some low) none n = low ≤ n
IsWithin none (some high) n = n ≤ high
IsWithin (some low) (some high) n = (low ≤ n) × (n ≤ high)

over_maximum-IsWithin :
    (low high : Option ℕ) (n : ℕ)
    → over_maximum high n ≡ false
    → under_minimum low n ≡ false
    → IsWithin low high n
unfolding over_maximum under_minimum
over_maximum-IsWithin none none n h k = tt
over_maximum-IsWithin (some low) none n h k = ground arith
over_maximum-IsWithin none (some high) n h k = ground arith
over_maximum-IsWithin (some low) (some high) n h k = (ground arith, ground arith)

accepted_items :
    (b : ItemBounds) (n : ℕ)
    → rejects_items b n ≡ false
    → (n ≡ b.item_size * (n / b.item_size)) × IsWithin b.min_items b.max_items (n / b.item_size)
unfolding rejects_items
accepted_items b n h =
    let count = n / b.item_size in
    let divides : (n % b.item_size == 0) ≡ true = ground (arith, h) in
    let few : over_maximum b.max_items count ≡ false = ground (arith, h) in
    let enough : under_minimum b.min_items count ≡ false = ground (arith, h) in
    let whole : n % b.item_size ≡ 0 = (==_iff (n % b.item_size) 0).0 divides in
    (
      omega (arith, div-add-mod n b.item_size),
      over_maximum-IsWithin b.min_items b.max_items count few enough,
    )

-- The items of `size` bytes that a chunk consists of, and nothing else: one decoded from each.
pub HasItems : {F : Type 0} → (List ℕ → Result (Decoded F)) → ℕ → Items F → List ℕ → Type 0
HasItems value size no_item chunk = chunk ≡ []
HasItems value size (item v vs) chunk =
    (bytes : List ℕ) × (rest : List ℕ) × (chunk ≡ bytes ++ rest)
    × (length bytes ≡ size)
    × (value bytes ≡ ok v)
    × HasItems value size vs rest

module _ {F : Type 0} (value : List ℕ → Result (Decoded F)) (size : ℕ) where
  nothing_left : (chunk : List ℕ) → length chunk ≡ 0 → chunk ≡ []
  nothing_left [] e = refl
  nothing_left (b ∷ bs) e = absurd (omega (arith, e))

  HasItems-decode_each :
      (count : ℕ) (chunk : List ℕ) (vs : Items F)
      → length chunk ≡ size * count
      → decode_each value (slices size count chunk) ≡ ok vs
      → HasItems value size vs chunk × (length_items vs ≡ count)
  unfolding decode_each slices HasItems
  HasItems-decode_each zero chunk vs whole e =
      subst (λ ws. HasItems value size ws chunk × (length_items ws ≡ 0)) (ok_inj e)
        (nothing_left chunk (omega (arith, whole)), refl)
  HasItems-decode_each (suc count) chunk vs whole e =
      let (v, decoded, others) = bind_ok (value (take size chunk)) _ vs e in
      let (ws, rest, all) =
        bind_ok (decode_each value (slices size count (drop size chunk))) _ vs others in
      let cut : take size chunk ++ drop size chunk ≡ chunk = take-append-drop size chunk in
      let enough : length (take size chunk) ≡ size =
        length-take_of_le size chunk (omega (arith, whole)) in
      let left : length (drop size chunk) ≡ size * count = omega (
        arith,
        whole,
        enough,
        length-append (take size chunk) (drop size chunk),
        ap (λ bs. length bs) cut,
      ) in
      let (good, same) = HasItems-decode_each count (drop size chunk) ws left rest in
      subst (λ us. HasItems value size us chunk × (length_items us ≡ suc count)) (ok_inj all)
        ((take size chunk, drop size chunk, sym cut, enough, decoded, good), ap suc same)

module _ {F : Type 0} where
  -- A tuple that an array's definition decodes has as many items as the definition allows, and the
  -- chunk consists of their bytes: of the size of the definition for each item, one after the other
  -- in the order of the items, with nothing between them and nothing left over.
  pub decode_property_value-array :
      (a : Arithmetic F) (look : ℕ → ℕ → Result (PropertyCodec F)) (context : Context)
      (class_code : Option ℕ) (d : PropertyValueDefinition F) (b : ItemBounds) (chunk : List ℕ)
      (items : Items F)
      → decode_property_value a look context class_code (array d b) chunk ≡ ok (tuple items)
      → HasItems (decode_property_value a look context class_code d) b.item_size items chunk
        × IsWithin b.min_items b.max_items (length_items items)
  unfolding decode_property_value decode_items
  decode_property_value-array a look_up context class_code d b chunk items e =
      elim (Bool-cases (rejects_items b (length chunk))) [
        | inl rejected ↦ let clash = rw rejected at e in absurd cc
        | inr accepted ↦
            let value = decode_property_value a look_up context class_code d in
            let count : ℕ = length chunk / b.item_size in
            let (whole, within) = accepted_items b (length chunk) accepted in
            let (vs, decoded, all) =
              bind_ok (decode_each value (slices b.item_size count chunk)) _ (tuple items)
                (rw accepted at e) in
            let (good, counted) =
              HasItems-decode_each value b.item_size count chunk vs whole decoded in
            let same : vs ≡ items = tuple_inj (ok_inj all) in
            subst
              (λ ws.
                HasItems value b.item_size ws chunk
                × IsWithin b.min_items b.max_items (length_items ws))
              same (good, rw counted within)
      ]
    where
      tuple_inj : {vs ws : Items F} → Path (Decoded F) (tuple vs) (tuple ws) → vs ≡ ws
      tuple_inj p = cc
