-- ===== src/Codecs/Numeric/RoundTrips.antt =====
-- Reading and writing numbers, `NumericCodec` of src/pyhems/codecs.py, one after the other.
use pyhems.Codecs.{reject_byte_offset}
use pyhems.Codecs.Numbers.{
  ℤ, signed_from_bytes, signed_to_bytes, Number, int, Arithmetic, signed_to_bytes-signed_from_bytes,
  signed_from_bytes-signed_to_bytes,
}
use pyhems.Codecs.Numeric.{
  NumericFormat, numeric_codec, no_coefficient, PropertyValue, number, Context, format_table,
  format_info, out_of_range, scaled, raw_in_range, decode_raw, decode_format, encode_format,
  as_value_error, numeric_of_raw, with_coefficients, decode_property, multiply, raw_bytes,
  raw_of_value, encode_numeric, encode_property,
}
use pyhems.Common.{
  ltb, ◌==◌, ==_iff, Bool-cases, Option-cases, some_inj, length, take, is_empty, All, AllBytes,
  Result, ok, raised, ◌>>=◌, ℕ_key, same_list, list_key, Dict, find, ℕ, ◌+◌, ◌<◌, ◌≡◌, refl, sym,
  ap, ◌∙◌, subst, inl, inr, Bool, false, Option, some, List, [], ◌∷◌, arith,
}

take_all : (edt : List ℕ) (n : ℕ) → length edt ≡ n → take n edt ≡ edt
take_all edt n h = rw (sym h) (whole edt)
  where
    whole : (bs : List ℕ) → take (length bs) bs ≡ bs
    whole [] = refl
    whole (b ∷ bs) = ap (λ t. b ∷ t) (whole bs)

-- Every format of the table has a byte at least.
find-All :
    (P : Bool × ℕ → Type 0) (table : Dict (List ℕ) (Bool × ℕ)) (k : List ℕ) (info : Bool × ℕ)
    → All (λ row. P row.1) table
    → find table k ≡ some info
    → P info
unfolding find
find-All P [] k info h e = cc
find-All P ((j, row) ∷ table) k info h e = elim (Bool-cases (same_list j k)) [
  | inl hit ↦ subst P (some_inj (rw hit at e)) h.0
  | inr miss ↦ find-All P table k info h.1 (rw miss at e)
]

format_info_pos : (f : List ℕ) (info : Bool × ℕ) → format_info f ≡ some info → 0 < info.1
unfolding format_info
format_info_pos f info e =
    find-All (λ i. 0 < i.1) format_table f info
      (omega arith, (omega arith, (omega arith, (omega arith, (omega arith, (omega arith, tt)))))) e

module _ {F : Type 0} (a : Arithmetic F) (c : NumericFormat F) where
  -- What a field without an offset decodes to.
  decode_raw_whole :
      (edt : List ℕ) (info : Bool × ℕ)
      → format_info c.mra_format ≡ some info
      → c.byte_offset ≡ 0
      → length edt ≡ info.1
      → decode_raw a c edt ≡ raw_in_range a c (signed_from_bytes info.0 edt)
  unfolding decode_raw decode_format
  decode_raw_whole edt info e start size =
      let pos_size = format_info_pos c.mra_format info e in
      let some_byte : is_empty edt ≡ false = not_empty edt info.1 size pos_size in
      let enough : ltb (length edt) (0 + info.1) ≡ false = ground arith in
      rw (e, start, some_byte, enough, take_all edt info.1 size) refl
    where
      not_empty : (bs : List ℕ) (n : ℕ) → length bs ≡ n → 0 < n → is_empty bs ≡ false
      not_empty [] n h p = absurd (omega arith)
      not_empty (b ∷ bs) n h p = refl

  raw_bytes_cases :
      (info : Bool × ℕ) (raw : ℤ) (edt : List ℕ)
      → raw_bytes a c info raw ≡ ok edt
      → (out_of_range a c (int raw) ≡ false) × (signed_to_bytes info.0 info.1 raw ≡ ok edt)
  unfolding raw_bytes as_value_error
  raw_bytes_cases info raw edt e = elim (Bool-cases (out_of_range a c (int raw))) [
    | inl out ↦ let clash = rw out at e in absurd cc
    | inr within ↦ (within, written (signed_to_bytes info.0 info.1 raw) refl (rw within at e))
  ]
    where
      written :
          (r : Result (List ℕ))
          → signed_to_bytes info.0 info.1 raw ≡ r
          → as_value_error a r ≡ ok edt
          → signed_to_bytes info.0 info.1 raw ≡ ok edt
      written (ok bs) p q = p ∙ q
      written (raised x) p q = absurd cc

  -- Whatever number a numeric codec without coefficients encodes: the bytes decode, in every
  -- context, to the scaled value of the rounded quotient of the number and the scale.
  pub decode_property-encode_property :
      (value : Number F) (edt : List ℕ) (context : Context)
      → encode_property a (numeric_codec c no_coefficient) (number value) ≡ ok edt
      → (raw : ℤ) × (raw_of_value a c value ≡ ok raw)
        × (decode_property a (numeric_codec c no_coefficient) edt context
            ≡ ok (some (number (scaled a c raw))))
  unfolding encode_property encode_numeric encode_format reject_byte_offset decode_property multiply
      numeric_of_raw with_coefficients
  decode_property-encode_property value edt context e = elim (Bool-cases (c.byte_offset == 0)) [
    | inr later ↦ let clash = rw later at e in absurd cc
    | inl first ↦ elim (Option-cases (format_info c.mra_format)) [
      | inl unknown ↦ let clash = rw (first, unknown) at e in absurd cc
      | inr (info, known) ↦
          of_raw info known ((==_iff c.byte_offset 0).0 first) (raw_of_value a c value) refl
            (rw (first, known) at e)
    ]
  ]
    where
      of_raw :
          (info : Bool × ℕ)
          → format_info c.mra_format ≡ some info
          → c.byte_offset ≡ 0
          → (r : Result ℤ) → raw_of_value a c value ≡ r
          → (raw_of_value a c value >>= raw_bytes a c info) ≡ ok edt
          → (raw : ℤ) × (raw_of_value a c value ≡ ok raw)
            × (decode_property a (numeric_codec c no_coefficient) edt context
                ≡ ok (some (number (scaled a c raw))))
      of_raw info known start (raised x) p q = let clash = rw p at q in absurd cc
      of_raw info known start (ok raw) p q =
          let (within, written) = raw_bytes_cases info raw edt (rw p at q) in
          let (again, size, bytes) =
            signed_from_bytes-signed_to_bytes info.0 info.1 raw edt written in
          (
            raw,
            p,
            rw (decode_raw_whole edt info known start size, again, raw_in_range, within) refl,
          )

  -- A numeric codec without an offset and coefficients that decodes the bytes of its format to a
  -- value encodes this value as the bytes again, if the scaled raw value is one whose rounded
  -- quotient by the scale is the raw value.
  pub encode_property-decode_property :
      (info : Bool × ℕ) (edt : List ℕ) (context : Context) (v : PropertyValue F)
      → format_info c.mra_format ≡ some info
      → c.byte_offset ≡ 0
      → AllBytes edt
      → length edt ≡ info.1
      → raw_of_value a c (scaled a c (signed_from_bytes info.0 edt))
        ≡ ok (signed_from_bytes info.0 edt)
      → decode_property a (numeric_codec c no_coefficient) edt context ≡ ok (some v)
      → encode_property a (numeric_codec c no_coefficient) v ≡ ok edt
  unfolding encode_property encode_numeric encode_format reject_byte_offset decode_property multiply
      numeric_of_raw with_coefficients raw_bytes as_value_error
  encode_property-decode_property info edt context v known start bytes size exact e =
      elim (Bool-cases (out_of_range a c (int (signed_from_bytes info.0 edt)))) [
        | inl out ↦
            let clash = rw (decode_raw_whole edt info known start size, raw_in_range, out) at e in
            absurd cc
        | inr within ↦
            subst (λ x. encode_property a (numeric_codec c no_coefficient) x ≡ ok edt)
              (ok_some_inj
                (rw (decode_raw_whole edt info known start size, raw_in_range, within) at e))
              (rw
                (
                  start,
                  known,
                  exact,
                  within,
                  signed_to_bytes-signed_from_bytes info.0 edt info.1 bytes size,
                )
                refl)
      ]
    where
      ok_some_inj :
          {x y : PropertyValue F}
          → Path (Result (Option (PropertyValue F))) (ok (some x)) (ok (some y))
          → x ≡ y
      ok_some_inj p = cc
