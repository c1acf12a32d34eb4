-- ===== src/Codecs/Numeric.antt =====
-- `PropertyCodec` of src/pyhems/codecs.py with its implementations as one type, `NumericCodec` and
-- `NumericValueCodec` among them. `context` gives the values of the other properties by EPC.
pub mod RoundTrips
use pyhems.Codecs.{
  single_byte, reject_byte_offset, InstallationLocation, decode_installation_location,
  encode_location, BinaryCodec, decode_binary, encode_binary, EnumCodec, decode_enum, encode_enum,
}
use pyhems.Codecs.Numbers.{ℤ, signed_from_bytes, signed_to_bytes, Number, int, float, Arithmetic}
use pyhems.Codecs.Temporal.{TemporalCodec, StateOrTime, decode_state_or_time, encode_state_or_time}
use pyhems.Common.{
  ltb, if◌then◌else◌, length, take, drop, is_empty, get_elem?, value_error, type_error, Result, ok,
  raised, ◌>>=◌, ℕ_key, same_list, list_key, Dict, find, ℕ, ◌+◌, Bool, true, false, ◌||◌, Option,
  none, some, List, [], ◌∷◌,
}

-- _FORMAT_INFO: whether the format is signed, and its bytes. The keys are the texts "uint8",
-- "int8", "uint16", "int16", "uint32" and "int32".
abbrev pub format_table : Dict (List ℕ) (Bool × ℕ)
format_table =
    (117 ∷ 105 ∷ 110 ∷ 116 ∷ 56 ∷ [], (false, 1))
    ∷ (105 ∷ 110 ∷ 116 ∷ 56 ∷ [], (true, 1))
    ∷ (117 ∷ 105 ∷ 110 ∷ 116 ∷ 49 ∷ 54 ∷ [], (false, 2))
    ∷ (105 ∷ 110 ∷ 116 ∷ 49 ∷ 54 ∷ [], (true, 2))
    ∷ (117 ∷ 105 ∷ 110 ∷ 116 ∷ 51 ∷ 50 ∷ [], (false, 4))
    ∷ (105 ∷ 110 ∷ 116 ∷ 51 ∷ 50 ∷ [], (true, 4))
    ∷ []

unfoldable pub format_info : List ℕ → Option (Bool × ℕ)
unfolding find same_list
format_info mra_format = find format_table mra_format

-- NumericCodec, without its coefficients
pub record NumericFormat (F : Type 0) : Type 0 where
  pub mra_format : List ℕ
  pub scale : Number F
  pub minimum : Option (Number F)
  pub maximum : Option (Number F)
  pub byte_offset : ℕ

pub record NumericValueCodec (F : Type 0) : Type 0 where
  pub by_edt : Dict ℕ (Number F)
  pub byte_offset : ℕ

mutual
  pub data PropertyCodec (F : Type 0) : Type 0 where
    temporal_codec : TemporalCodec → PropertyCodec F
    binary_codec : BinaryCodec → PropertyCodec F
    enum_codec : EnumCodec → PropertyCodec F
    numeric_codec : NumericFormat F → Coefficients F → PropertyCodec F
    numeric_value_codec : NumericValueCodec F → PropertyCodec F
    location_codec : PropertyCodec F

  -- The EPCs of the coefficients with the codecs that decode them.
  pub data Coefficients (F : Type 0) : Type 0 where
    no_coefficient : Coefficients F
    coefficient : ℕ → PropertyCodec F → Coefficients F → Coefficients F

-- What a codec exchanges.
pub data PropertyValue (F : Type 0) : Type 0 where
  boolean : Bool → PropertyValue F
  key : List ℕ → PropertyValue F
  number : Number F → PropertyValue F
  temporal : StateOrTime → PropertyValue F
  location : InstallationLocation → PropertyValue F

abbrev pub Context : Type 0
Context = Option (ℕ → Option (List ℕ))

module _ {F : Type 0} (a : Arithmetic F) where
  below_minimum : Option (Number F) → Number F → Bool
  below_minimum none raw = false
  below_minimum (some m) raw = a.less raw m

  above_maximum : Option (Number F) → Number F → Bool
  above_maximum none raw = false
  above_maximum (some m) raw = a.less m raw

  unfoldable pub out_of_range : NumericFormat F → Number F → Bool
  unfolding below_minimum above_maximum
  out_of_range c raw = below_minimum c.minimum raw || above_maximum c.maximum raw

  unfoldable pub scaled : NumericFormat F → ℤ → Number F
  scaled c raw = if a.equals_one c.scale then int raw else a.times (int raw) c.scale

  unfoldable pub raw_in_range : NumericFormat F → ℤ → Option ℤ
  unfolding out_of_range
  raw_in_range c raw = if out_of_range c (int raw) then none else some raw

  unfoldable pub decode_format : NumericFormat F → List ℕ → Option (Bool × ℕ) → Option ℤ
  unfolding raw_in_range
  decode_format c edt none = none
  decode_format c edt (some info) =
      if is_empty edt || ltb (length edt) (c.byte_offset + info.1)
      then none
      else raw_in_range c (signed_from_bytes info.0 (take info.1 (drop c.byte_offset edt)))

  -- The raw value of the field, if it is there and in the range.
  unfoldable pub decode_raw : NumericFormat F → List ℕ → Option ℤ
  unfolding decode_format format_info
  decode_raw c edt = decode_format c edt (format_info c.mra_format)

  -- isinstance(value, int | float) and not isinstance(value, bool)
  number_of : Option (PropertyValue F) → Option (Number F)
  number_of (some (number n)) = some n
  number_of _ = none

  unfoldable pub decode_numeric_value : NumericValueCodec F → List ℕ → Option (Number F)
  unfolding find
  decode_numeric_value c edt = elim (get_elem? edt c.byte_offset) [
    | none ↦ none
    | some b ↦ find c.by_edt b
  ]

  option_map : {A B : Type 0} → (A → B) → Option A → Option B
  option_map f none = none
  option_map f (some x) = some (f x)

  -- The scaled value, by itself or multiplied with the coefficients' product.
  unfoldable pub with_coefficients :
      NumericFormat F → Coefficients F → ℤ → Option (Number F) → Option (PropertyValue F)
  unfolding scaled option_map
  with_coefficients c no_coefficient raw product = some (number (scaled c raw))
  with_coefficients c (coefficient epc codec rest) raw product =
      option_map (λ f. number (a.times (scaled c raw) f)) product

  -- The coefficients count only where there is a raw value.
  unfoldable pub numeric_of_raw :
      NumericFormat F
      → Coefficients F
      → Option ℤ
      → Result (Option (Number F))
      → Result (Option (PropertyValue F))
  unfolding with_coefficients
  numeric_of_raw c coefficients none product = ok none
  numeric_of_raw c coefficients (some raw) product =
      product >>= λ f. ok (with_coefficients c coefficients raw f)

  unfoldable mutual
    unfolding number_of option_map decode_raw numeric_of_raw decode_numeric_value

    -- PropertyCodec.decode
    pub decode_property : PropertyCodec F → List ℕ → Context → Result (Option (PropertyValue F))
    decode_property (temporal_codec c) edt context =
        decode_state_or_time c edt >>= λ o. ok (option_map temporal o)
    decode_property (binary_codec c) edt context = ok (option_map boolean (decode_binary c edt))
    decode_property (enum_codec c) edt context = ok (option_map key (decode_enum c edt))
    decode_property (numeric_value_codec c) edt context =
        ok (option_map number (decode_numeric_value c edt))
    decode_property location_codec edt context =
        decode_installation_location (some edt) >>= λ o. ok (option_map location o)
    decode_property (numeric_codec c coefficients) edt context =
        numeric_of_raw c coefficients (decode_raw c edt) (multiply coefficients context a.one)

    -- The loop over the coefficients, from a product.
    multiply : Coefficients F → Context → Number F → Result (Option (Number F))
    multiply no_coefficient context f = ok (some f)
    multiply (coefficient epc codec rest) none f = ok none
    multiply (coefficient epc codec rest) (some values) f = elim (values epc) [
      | none ↦ ok none
      | some edt ↦ decode_property codec edt none >>= λ o. elim (number_of o) [
        | none ↦ ok none
        | some n ↦ multiply rest (some values) (a.times f n)
      ]
    ]

  -- An overflow is a ValueError.
  unfoldable pub as_value_error : Result (List ℕ) → Result (List ℕ)
  as_value_error (ok edt) = ok edt
  as_value_error (raised e) = raised value_error

  unfoldable pub raw_bytes : NumericFormat F → Bool × ℕ → ℤ → Result (List ℕ)
  unfolding out_of_range as_value_error
  raw_bytes c info raw =
      if out_of_range c (int raw)
      then raised value_error
      else as_value_error (signed_to_bytes info.0 info.1 raw)

  -- `round(value / self.scale) if self.scale != 1.0 else round(value)`
  unfoldable pub raw_of_value : NumericFormat F → Number F → Result ℤ
  raw_of_value c value =
      if a.equals_one c.scale then a.rounded value else a.divide value c.scale >>= a.rounded

  unfoldable pub encode_format : NumericFormat F → Number F → Option (Bool × ℕ) → Result (List ℕ)
  unfolding raw_bytes raw_of_value
  encode_format c value none = raised value_error
  encode_format c value (some info) = raw_of_value c value >>= raw_bytes c info

  unfoldable pub encode_numeric : NumericFormat F → Coefficients F → Number F → Result (List ℕ)
  unfolding encode_format format_info
  encode_numeric c (coefficient epc codec rest) value = raised value_error
  encode_numeric c no_coefficient value =
      reject_byte_offset c.byte_offset >>= λ _. encode_format c value (format_info c.mra_format)

  -- The loop of NumericValueCodec.encode.
  edt_of_number : Dict ℕ (Number F) → Number F → Result (List ℕ)
  edt_of_number [] value = raised value_error
  edt_of_number ((edt, n) ∷ by_edt) value =
      if a.is_close n value then single_byte edt else edt_of_number by_edt value

  pub encode_numeric_value : NumericValueCodec F → Number F → Result (List ℕ)
  unfolding edt_of_number
  encode_numeric_value c value =
      reject_byte_offset c.byte_offset >>= λ _. edt_of_number c.by_edt value

  -- PropertyCodec.encode, of a value of the kind that the codec exchanges.
  unfoldable pub encode_property : PropertyCodec F → PropertyValue F → Result (List ℕ)
  unfolding encode_numeric encode_numeric_value
  encode_property (temporal_codec c) (temporal v) = encode_state_or_time c v
  encode_property (binary_codec c) (boolean b) = encode_binary c b
  encode_property (enum_codec c) (key k) = encode_enum c k
  encode_property (numeric_codec c coefficients) (number n) = encode_numeric c coefficients n
  encode_property (numeric_value_codec c) (number n) = encode_numeric_value c n
  encode_property location_codec (location l) = encode_location l
  encode_property _ _ = raised type_error
