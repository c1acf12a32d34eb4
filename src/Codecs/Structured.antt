-- ===== src/Codecs/Structured.antt =====
-- Structured values, `decode_property_value` of src/pyhems/codecs.py. The look-up of codecs for
-- coefficients and the values of other properties are arguments.
pub mod Slices
use pyhems.Codecs.Numbers.{Number, Arithmetic}
use pyhems.Codecs.Definitions.{
  EnumValue, NumericValueEntry, ScalarDefinition, ItemBounds, PropertyValueDefinition, scalar,
  object, array, one_of, ObjectFields, no_field, field, Options, no_option, option,
}
use pyhems.Codecs.Numeric.{
  PropertyCodec, numeric_codec, no_coefficient, PropertyValue, number, Context,
  decode_numeric_value, decode_property,
}
use pyhems.Codecs.Selection.{coefficient_codecs, format_text, numbers_by_edt}
use pyhems.Codecs.Layout.{
  Decoded, null, leaf, raw, dict, tuple, Members, no_member, member, Items, no_item, item, slice,
  slices, rejects_items, fixed_sizes, is_array, is_last, is_null, leaf_of, number_leaf, key_of_raw,
  with_member, only_member, dict_of,
}
use pyhems.Common.{
  ltb, ◌==◌, if◌then◌else◌, is_some, length, drop, is_empty, int_from_bytes, Result, ok, raised,
  ◌>>=◌, ℕ_key, list_key, ℕ, ◌+◌, ◌/◌, not, ◌&&◌, Option, none, some, List, [], ◌∷◌,
}

module _ {F : Type 0} where
  -- The first value of the two that is not None; the second is tried only then.
  pub or_try : Result (Decoded F) → Decoded F → Result (Decoded F)
  unfolding is_null
  or_try next v = if is_null v then next else ok v

  pub field_of : List ℕ → Result (Decoded F) → Members F → Result (Option (Members F))
  unfolding with_member
  field_of k value ms = value >>= λ v. ok (some (with_member k v ms))

  -- What follows the decoding of the later fields for one size: the field itself, or the next size.
  pub with_rest :
      List ℕ
      → Result (Decoded F)
      → Result (Option (Members F))
      → Option (Members F)
      → Result (Option (Members F))
  unfolding field_of
  with_rest k value next none = next
  with_rest k value next (some ms) = field_of k value ms

  -- The loop over the sizes of a field: `value` decodes its bytes, `later` the fields after it.
  pub try_sizes :
      List ℕ
      → List ℕ
      → ℕ
      → (List ℕ → Result (Decoded F))
      → (ℕ → Result (Option (Members F)))
      → List ℕ
      → Result (Option (Members F))
  unfolding with_rest
  try_sizes k chunk cursor value later [] = ok none
  try_sizes k chunk cursor value later (size ∷ sizes) =
      let next = try_sizes k chunk cursor value later sizes in
      if ltb (length chunk) (cursor + size)
      then next
      else later (cursor + size) >>= with_rest k (value (slice chunk cursor size)) next

  -- No size at all is a None.
  pub try_fixed :
      List ℕ
      → List ℕ
      → ℕ
      → (List ℕ → Result (Decoded F))
      → (ℕ → Result (Option (Members F)))
      → Result (List ℕ)
      → Result (Option (Members F))
  unfolding try_sizes
  try_fixed k chunk cursor value later (raised e) = ok none
  try_fixed k chunk cursor value later (ok sizes) = try_sizes k chunk cursor value later sizes

  unfoldable pub decode_each : (List ℕ → Result (Decoded F)) → List (List ℕ) → Result (Items F)
  decode_each value [] = ok no_item
  decode_each value (c ∷ cs) = value c >>= λ v. decode_each value cs >>= λ vs. ok (item v vs)

  unfoldable pub decode_items :
      (List ℕ → Result (Decoded F)) → ItemBounds → List ℕ → Result (Decoded F)
  unfolding rejects_items decode_each slices
  decode_items value b chunk =
      if rejects_items b (length chunk)
      then ok null
      else decode_each value (slices b.item_size (length chunk / b.item_size) chunk) >>= λ vs.
          ok (tuple vs)

module _ {F : Type 0} (a : Arithmetic F) (look : ℕ → ℕ → Result (PropertyCodec F))
    (context : Context) (class_code : Option ℕ) where
  decode_number : ScalarDefinition F → List ℕ → Result (Decoded F)
  unfolding leaf_of format_text decode_property coefficient_codecs
  decode_number d chunk =
      (if is_some class_code
        then coefficient_codecs look d.coefficient_epcs class_code
        else ok no_coefficient)
      >>= λ coefficients.
          decode_property a
            (numeric_codec
              (record {
                mra_format = format_text d.format;
                scale = d.multiple_of;
                minimum = d.minimum;
                maximum = d.maximum;
                byte_offset = 0;
              })
              coefficients)
            chunk context
          >>= λ o. ok (leaf_of o)

  decode_untabled : ScalarDefinition F → List ℕ → Result (Decoded F)
  unfolding decode_number key_of_raw format_text int_from_bytes
  decode_untabled d chunk =
      if not (is_empty d.enum_values)
      then ok (key_of_raw (int_from_bytes chunk) d.enum_values)
      else if is_empty (format_text d.format)
      then ok (raw chunk)
      else if not (is_empty d.coefficient_epcs) && not (is_some class_code)
      then ok null
      else decode_number d chunk

  decode_sized :
      ScalarDefinition F → List ℕ → Option (List (NumericValueEntry F)) → Result (Decoded F)
  unfolding decode_untabled number_leaf numbers_by_edt decode_numeric_value
  decode_sized d chunk none = decode_untabled d chunk
  decode_sized d chunk (some values) = ok (
      number_leaf (
        decode_numeric_value a (record { by_edt = numbers_by_edt [] values; byte_offset = 0 })
          chunk))

  -- _decode_scalar
  unfoldable pub decode_scalar : ScalarDefinition F → List ℕ → Result (Decoded F)
  unfolding decode_sized
  decode_scalar d chunk =
      if length chunk == d.size then decode_sized d chunk d.numeric_values else ok null

  unfoldable mutual
    unfolding decode_scalar or_try dict_of decode_items is_array is_last only_member try_fixed
        fixed_sizes

    pub decode_property_value : PropertyValueDefinition F → List ℕ → Result (Decoded F)
    decode_property_value (scalar d) chunk = decode_scalar d chunk
    decode_property_value (one_of options) chunk = decode_options options chunk
    decode_property_value (object fields) chunk =
        decode_fields fields chunk 0 >>= λ ms. ok (dict_of ms)
    decode_property_value (array d bounds) chunk =
        decode_items (λ c. decode_property_value d c) bounds chunk

    pub decode_options : Options F → List ℕ → Result (Decoded F)
    decode_options no_option chunk = ok null
    decode_options (option d options) chunk =
        decode_property_value d chunk >>= or_try (decode_options options chunk)

    pub decode_fields : ObjectFields F → List ℕ → ℕ → Result (Option (Members F))
    decode_fields no_field chunk cursor =
        if cursor == length chunk then ok (some no_member) else ok none
    decode_fields (field k d fields) chunk cursor =
        let tail = decode_property_value d (drop cursor chunk) in
        let fixed =
          try_fixed k chunk cursor (λ c. decode_property_value d c)
            (λ next. decode_fields fields chunk next) (fixed_sizes d) in
        if not (is_array d)
        then fixed
        else if is_last fields
        then tail >>= (λ v. ok (only_member k v))
        else ok none
