-- ===== src/Examples/Structures.antt =====
-- Numbers, definitions and structured values at concrete inputs (src/pyhems/codecs.py).
use pyhems.Codecs.Numbers.{
  ℤ, pos, negsuc, signed_from_bytes, signed_to_bytes, Number, int, float, Arithmetic,
}
use pyhems.Codecs.Definitions.{
  EntityDefinition, PropertyValueDefinition, scalar, object, array, ItemBounds, ObjectFields,
  no_field, field, DefinitionsRegistry,
}
use pyhems.Codecs.{reject_byte_offset}
use pyhems.Codecs.Numeric.{
  NumericFormat, PropertyCodec, numeric_codec, no_coefficient, number, format_info, out_of_range,
  scaled, raw_in_range, decode_raw, decode_format, numeric_of_raw, with_coefficients,
  decode_property, raw_bytes, as_value_error, raw_of_value, encode_format, encode_numeric,
  encode_property,
}
use pyhems.Codecs.Numeric.RoundTrips.{
  decode_property-encode_property, encode_property-decode_property,
}
use pyhems.Codecs.Selection.{select_definition, get_codec_for_epc, or_no_items}
use pyhems.Codecs.Selection.Precedence.{
  first_where, or_else, is_specific_field, is_generic_field, select_definition_lem,
}
use pyhems.Codecs.Selection.Termination.{Ends, IsRanked, get_codec_for_epc-Ends}
use pyhems.Codecs.Layout.{
  null, raw, dict, tuple, Items, no_item, item, value_definition_byte_size, fields_size, slices,
  rejects_items,
}
use pyhems.Codecs.Structured.{decode_scalar, decode_each, decode_items, decode_property_value}
use pyhems.Codecs.Structured.Slices.{decode_in_place, decode_property_value-object}
use pyhems.Codecs.Pages.{HasItems, IsWithin, length_items, decode_property_value-array}
use pyhems.Common.{
  ltb, ◌==◌, if◌then◌else◌, All, int_from_bytes, digits_be, value_error, lookup_error, Result, ok,
  raised, ◌>>=◌, ℕ_key, same_list, list_key, find, ℕ, zero, suc, ◌-◌, ◌*◌, ◌/◌, ◌≡◌, refl, Bool,
  true, false, not, ◌||◌, Option, none, some, List, [], ◌∷◌, arith,
}

-- Arithmetic without floats.
less_int : ℤ → ℤ → Bool
less_int (pos a) (pos b) = ltb a b
less_int (negsuc a) (pos b) = true
less_int (pos a) (negsuc b) = false
less_int (negsuc a) (negsuc b) = ltb b a

product_of : ℤ → ℤ → ℤ
product_of (pos a) (pos b) = pos (a * b)
product_of (pos zero) (negsuc b) = pos 0
product_of (pos (suc a)) (negsuc b) = negsuc (suc a * suc b - 1)
product_of (negsuc a) (pos zero) = pos 0
product_of (negsuc a) (pos (suc b)) = negsuc (suc a * suc b - 1)
product_of (negsuc a) (negsuc b) = pos (suc a * suc b)

less_number : Number Unit → Number Unit → Bool
unfolding less_int
less_number (int x) (int y) = less_int x y
less_number _ _ = false

times_number : Number Unit → Number Unit → Number Unit
unfolding product_of
times_number (int x) (int y) = int (product_of x y)
times_number _ _ = float tt

divide_number : Number Unit → Number Unit → Result (Number Unit)
divide_number (int (pos a)) (int (pos (suc b))) = ok (int (pos (a / suc b)))
divide_number _ _ = raised value_error

rounded_number : Number Unit → Result ℤ
rounded_number (int z) = ok z
rounded_number (float x) = raised value_error

is_one : Number Unit → Bool
is_one (int (pos n)) = n == 1
is_one _ = false

same_number : Number Unit → Number Unit → Bool
unfolding less_number
same_number x y = not (less_number x y || less_number y x)

abbrev integers : Arithmetic Unit
unfolding less_number times_number divide_number rounded_number is_one same_number
integers = record {
  one = int (pos 1);
  equals_one = is_one;
  less = less_number;
  times = times_number;
  divide = divide_number;
  rounded = rounded_number;
  is_close = same_number;
}

-- A temperature from -100 in two signed bytes; its format is "int16".
abbrev temperature : NumericFormat Unit
temperature = record {
  mra_format = 105 ∷ 110 ∷ 116 ∷ 49 ∷ 54 ∷ [];
  scale = int (pos 1);
  minimum = some (int (negsuc 99));
  maximum = none;
  byte_offset = 0;
}

temperature-int16 : format_info temperature.mra_format ≡ some (true, 2)
unfolding format_info find same_list
temperature-int16 = refl

encode_property_test :
    encode_property integers (numeric_codec temperature no_coefficient) (number (int (negsuc 9)))
    ≡ ok (0xFF ∷ 0xF6 ∷ [])
unfolding encode_property encode_numeric encode_format reject_byte_offset raw_of_value raw_bytes
    out_of_range as_value_error signed_to_bytes format_info find same_list digits_be integers
encode_property_test = refl

decode_property-encode_property_example :
    (z : ℤ) × (raw_of_value integers temperature (int (negsuc 9)) ≡ ok z)
    × (decode_property integers (numeric_codec temperature no_coefficient) (0xFF ∷ 0xF6 ∷ []) none
        ≡ ok (some (number (scaled integers temperature z))))
decode_property-encode_property_example =
    decode_property-encode_property integers temperature (int (negsuc 9)) (0xFF ∷ 0xF6 ∷ []) none
      encode_property_test

signed_test : signed_from_bytes true (0xFF ∷ 0xF6 ∷ []) ≡ negsuc 9
unfolding signed_from_bytes int_from_bytes
signed_test = refl

raw_of_value_test :
    raw_of_value integers temperature
      (scaled integers temperature (signed_from_bytes true (0xFF ∷ 0xF6 ∷ [])))
    ≡ ok (signed_from_bytes true (0xFF ∷ 0xF6 ∷ []))
unfolding raw_of_value scaled signed_from_bytes int_from_bytes integers
raw_of_value_test = refl

decode_property_test :
    decode_property integers (numeric_codec temperature no_coefficient) (0xFF ∷ 0xF6 ∷ []) none
    ≡ ok (some (number (int (negsuc 9))))
unfolding decode_property numeric_of_raw with_coefficients scaled decode_raw decode_format
    raw_in_range out_of_range format_info find same_list signed_from_bytes int_from_bytes integers
decode_property_test = refl

encode_property-decode_property_example :
    encode_property integers (numeric_codec temperature no_coefficient) (number (int (negsuc 9)))
    ≡ ok (0xFF ∷ 0xF6 ∷ [])
encode_property-decode_property_example =
    encode_property-decode_property integers temperature (true, 2) (0xFF ∷ 0xF6 ∷ []) none
      (number (int (negsuc 9))) temperature-int16 refl (omega arith, (omega arith, tt)) refl
      raw_of_value_test decode_property_test

abbrev definition_of : ℕ → Option ℕ → List ℕ → EntityDefinition Unit
definition_of epc code coefficient_epcs = record {
  epc = epc;
  format = some temperature.mra_format;
  minimum = none;
  maximum = none;
  multiple_of = int (pos 1);
  enum_values = [];
  byte_offset = 0;
  manufacturer_code = code;
  numeric_values = none;
  coefficient_epcs = some coefficient_epcs;
  temporal = none;
}

-- Three definitions: for every maker, for one of them, and the coefficient of the other two.
abbrev meters : List (EntityDefinition Unit)
meters =
    definition_of 0xE0 none (0xE1 ∷ [])
    ∷ definition_of 0xE0 (some 22) (0xE1 ∷ [])
    ∷ definition_of 0xE1 none []
    ∷ []

select_definition_lem_example :
    select_definition 0xE0 0 (some 22) none meters
    ≡ or_else
        (first_where (is_specific_field 0xE0 0 (some 22)) meters)
        (first_where (is_generic_field 0xE0 0 (some 22)) meters)
select_definition_lem_example = select_definition_lem 0xE0 0 (some 22) meters

abbrev meter_registry : DefinitionsRegistry Unit
meter_registry = record {
  entities = (0x0280, meters) ∷ [];
  structured_values = [];
  collection_bindings = [];
}

abbrev coefficients_last : ℕ → ℕ
coefficients_last epc = if epc == 0xE0 then 1 else 0

meters-IsRanked :
    All (IsRanked coefficients_last) (or_no_items (find meter_registry.entities 0x0280))
unfolding find or_no_items
meters-IsRanked = ((omega arith, tt), ((omega arith, tt), (tt, tt)))

get_codec_for_epc-Ends_example : Ends (get_codec_for_epc meter_registry 2 0x0280 0xE0 (some 22) 0)
get_codec_for_epc-Ends_example =
    get_codec_for_epc-Ends meter_registry 0x0280 coefficients_last meters-IsRanked 2 0xE0 0
      (some 22) (omega arith)

abbrev bytes_of_size : ℕ → PropertyValueDefinition Unit
bytes_of_size n = scalar (record {
  size = n;
  format = none;
  minimum = none;
  maximum = none;
  multiple_of = int (pos 1);
  enum_values = [];
  numeric_values = none;
  coefficient_epcs = [];
})

-- A header of one byte, and a field of two.
abbrev header_fields : ObjectFields Unit
header_fields = field (97 ∷ []) (bytes_of_size 1) (field (98 ∷ []) (bytes_of_size 2) no_field)

abbrev no_codec : ℕ → ℕ → Result (PropertyCodec Unit)
no_codec class_code epc = raised lookup_error

header_size_test : value_definition_byte_size (object header_fields) ≡ ok 3
unfolding value_definition_byte_size fields_size
header_size_test = refl

decode_property_value-object_example :
    decode_property_value integers no_codec none none (object header_fields) (1 ∷ 2 ∷ 3 ∷ []) ≡ (
      if 3 == 3
      then decode_in_place integers no_codec none none header_fields (1 ∷ 2 ∷ 3 ∷ []) 0
        >>= (λ ms. ok (dict ms))
      else ok null)
decode_property_value-object_example =
    decode_property_value-object integers no_codec none none header_fields (1 ∷ 2 ∷ 3 ∷ []) 3
      header_size_test

abbrev pair_bounds : ItemBounds
pair_bounds = record { item_size = 2; min_items = some 1; max_items = some 4 }

abbrev pairs : Items Unit
pairs = item (raw (1 ∷ 2 ∷ [])) (item (raw (3 ∷ 4 ∷ [])) no_item)

pairs_test :
    decode_property_value integers no_codec none none
      (array (bytes_of_size 2) pair_bounds)
      (1 ∷ 2 ∷ 3 ∷ 4 ∷ [])
    ≡ ok (tuple pairs)
unfolding decode_property_value decode_items rejects_items decode_each slices decode_scalar
pairs_test = refl

decode_property_value-array_example :
    HasItems
      (decode_property_value integers no_codec none none (bytes_of_size 2))
      2
      pairs
      (1 ∷ 2 ∷ 3 ∷ 4 ∷ [])
    × IsWithin (some 1) (some 4) (length_items pairs)
decode_property_value-array_example =
    decode_property_value-array integers no_codec none none (bytes_of_size 2) pair_bounds
      (1 ∷ 2 ∷ 3 ∷ 4 ∷ []) pairs pairs_test
