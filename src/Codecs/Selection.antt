-- ===== src/Codecs/Selection.antt =====
-- The choice of a codec, `get_codec` and `get_codec_for_epc` of src/pyhems/codecs.py. The registry is
-- generated data, an argument.
pub mod Precedence
pub mod Termination
use pyhems.Codecs.{BinaryCodec, EnumCodec}
use pyhems.Codecs.Numbers.{Number}
use pyhems.Codecs.Definitions.{
  EnumValue, NumericValueEntry, TemporalDefinition, EntityDefinition, edts_by_key, is_binary,
  get_binary_values, DefinitionsRegistry,
}
use pyhems.Codecs.Numeric.{
  NumericFormat, NumericValueCodec, PropertyCodec, temporal_codec, binary_codec, enum_codec,
  numeric_codec, numeric_value_codec, Coefficients, no_coefficient, coefficient,
}
use pyhems.Common.{
  ◌==◌, if◌then◌else◌, is_some, is_empty, value_error, lookup_error, recursion_error, Result, ok,
  raised, ◌>>=◌, ℕ_key, list_key, Dict, find, put, ℕ, zero, suc, Bool, false, not, ◌&&◌, Option,
  none, some, List, [], ◌∷◌,
}

-- {ev.edt: ev.key for ev in values}, onto `d`
keys_by_edt : Dict ℕ (List ℕ) → List EnumValue → Dict ℕ (List ℕ)
unfolding put
keys_by_edt d [] = d
keys_by_edt d (v ∷ vs) = keys_by_edt (put d v.edt v.key) vs

-- on_edt[0], of bytes that are one byte
first_byte : List ℕ → Result ℕ
first_byte [] = raised lookup_error
first_byte (b ∷ bs) = ok b

unfoldable pub or_no_items {ℓ} : {A : Type ℓ} → Option (List A) → List A
or_no_items none = []
or_no_items (some xs) = xs

-- The key of a missing or an empty format is false.
unfoldable pub format_text : Option (List ℕ) → List ℕ
unfolding or_no_items
format_text format = or_no_items format

-- a == b, for a code that may be missing
pub is_code : Option ℕ → ℕ → Bool
is_code none code = false
is_code (some c) code = c == code

module _ {F : Type 0} where
  -- {nv.edt: nv.value for nv in values}, onto `d`
  unfoldable pub numbers_by_edt : Dict ℕ (Number F) → List (NumericValueEntry F) → Dict ℕ (Number F)
  unfolding put
  numbers_by_edt d [] = d
  numbers_by_edt d (v ∷ vs) = numbers_by_edt (put d v.edt v.value) vs

  binary_codec_of : EntityDefinition F → List ℕ × List ℕ → Result (PropertyCodec F)
  unfolding first_byte
  binary_codec_of d values = first_byte values.0 >>= λ on. first_byte values.1 >>= λ off.
      ok (binary_codec (record { on_edt = on; off_edt = off; byte_offset = d.byte_offset }))

  state_codec : EntityDefinition F → Result (PropertyCodec F)
  unfolding edts_by_key keys_by_edt is_binary get_binary_values binary_codec_of
  state_codec d =
      if is_binary d.enum_values
      then get_binary_values d.enum_values >>= binary_codec_of d
      else ok (
          enum_codec (record {
            by_key = edts_by_key [] d.enum_values;
            by_edt = keys_by_edt [] d.enum_values;
            enum_offset = d.byte_offset;
          }))

  temporal_codec_of : EntityDefinition F → TemporalDefinition → Result (PropertyCodec F)
  temporal_codec_of d t =
      if d.byte_offset == 0
      then ok (temporal_codec (record { temporal = t; states = d.enum_values }))
      else raised value_error

  coefficients_of : (ℕ → ℕ → Result (PropertyCodec F)) → ℕ → List ℕ → Result (Coefficients F)
  coefficients_of look class_code [] = ok no_coefficient
  coefficients_of look class_code (epc ∷ epcs) = look class_code epc >>= λ codec.
      coefficients_of look class_code epcs >>= λ rest. ok (coefficient epc codec rest)

  -- _coefficient_codecs
  unfoldable pub coefficient_codecs :
      (ℕ → ℕ → Result (PropertyCodec F)) → List ℕ → Option ℕ → Result (Coefficients F)
  unfolding coefficients_of
  coefficient_codecs look [] class_code = ok no_coefficient
  coefficient_codecs look (epc ∷ epcs) none = raised value_error
  coefficient_codecs look (epc ∷ epcs) (some class_code) =
      coefficients_of look class_code (epc ∷ epcs)

  pub number_codec :
      (ℕ → ℕ → Result (PropertyCodec F)) → Option ℕ → EntityDefinition F → Result (PropertyCodec F)
  unfolding coefficient_codecs or_no_items format_text
  number_codec look class_code d =
      if is_empty (format_text d.format)
      then raised value_error
      else coefficient_codecs look (or_no_items d.coefficient_epcs) class_code >>= λ coefficients.
          ok (
            numeric_codec
              (record {
                mra_format = format_text d.format;
                scale = d.multiple_of;
                minimum = d.minimum;
                maximum = d.maximum;
                byte_offset = d.byte_offset;
              })
              coefficients)

  untimed_codec :
      (ℕ → ℕ → Result (PropertyCodec F)) → Option ℕ → EntityDefinition F → Result (PropertyCodec F)
  unfolding numbers_by_edt state_codec number_codec or_no_items
  untimed_codec look class_code d =
      if not (is_empty (or_no_items d.numeric_values))
      then ok (
          numeric_value_codec (record {
            by_edt = numbers_by_edt [] (or_no_items d.numeric_values);
            byte_offset = d.byte_offset;
          }))
      else if not (is_empty d.enum_values)
      then state_codec d
      else number_codec look class_code d

  choose_codec :
      (ℕ → ℕ → Result (PropertyCodec F))
      → Option ℕ
      → EntityDefinition F
      → Option TemporalDefinition
      → Result (PropertyCodec F)
  unfolding temporal_codec_of untimed_codec
  choose_codec look class_code d (some t) = temporal_codec_of d t
  choose_codec look class_code d none = untimed_codec look class_code d

  -- get_codec, with the look-up that resolves coefficients
  pub get_codec :
      (ℕ → ℕ → Result (PropertyCodec F)) → EntityDefinition F → Option ℕ → Result (PropertyCodec F)
  unfolding choose_codec
  get_codec look d class_code = choose_codec look class_code d d.temporal

  pub is_specific : Option ℕ → EntityDefinition F → Bool
  unfolding is_code
  is_specific none d = false
  is_specific (some code) d = is_code d.manufacturer_code code

  pub is_generic : EntityDefinition F → Bool
  is_generic d = not (is_some d.manufacturer_code)

  pub is_field : ℕ → ℕ → EntityDefinition F → Bool
  is_field epc byte_offset d = d.epc == epc && d.byte_offset == byte_offset

  -- The loop of get_codec_for_epc, with the generic definition found so far.
  pub select_definition :
      ℕ
      → ℕ
      → Option ℕ
      → Option (EntityDefinition F)
      → List (EntityDefinition F)
      → Option (EntityDefinition F)
  unfolding is_field is_specific is_generic
  select_definition epc byte_offset code generic [] = generic
  select_definition epc byte_offset code generic (d ∷ ds) =
      if not (is_field epc byte_offset d)
      then select_definition epc byte_offset code generic ds
      else if is_specific code d
      then some d
      else select_definition epc byte_offset code
          (if is_generic d && not (is_some generic) then some d else generic) ds

  codec_of_definition :
      (ℕ → ℕ → Result (PropertyCodec F))
      → ℕ
      → Option (EntityDefinition F)
      → Result (PropertyCodec F)
  unfolding get_codec
  codec_of_definition look class_code none = raised lookup_error
  codec_of_definition look class_code (some d) = get_codec look d (some class_code)

  -- get_codec_for_epc, on fuel for the calls within calls
  pub get_codec_for_epc :
      DefinitionsRegistry F → ℕ → ℕ → ℕ → Option ℕ → ℕ → Result (PropertyCodec F)
  unfolding select_definition codec_of_definition or_no_items find
  get_codec_for_epc registry zero class_code epc code byte_offset = raised recursion_error
  get_codec_for_epc registry (suc fuel) class_code epc code byte_offset =
      codec_of_definition (λ c e. get_codec_for_epc registry fuel c e none 0) class_code
        (select_definition epc byte_offset code none
          (or_no_items (find registry.entities class_code)))
