-- ===== src/Codecs/Selection/Termination.antt =====
-- The calls of `get_codec_for_epc` (src/pyhems/codecs.py) within its own calls, for coefficients.
use pyhems.Codecs.Definitions.{
  EnumValue, TemporalDefinition, EntityDefinition, DefinitionsRegistry, get_binary_values,
  byte_of_entry, is_binary, edts_by_key, true_key, false_key,
}
use pyhems.Codecs.Numeric.{PropertyCodec}
use pyhems.Codecs.Selection.{
  first_byte, or_no_items, format_text, binary_codec_of, state_codec, temporal_codec_of,
  coefficients_of, coefficient_codecs, number_codec, untimed_codec, choose_codec, get_codec,
  is_field, is_specific, is_generic, select_definition, codec_of_definition, get_codec_for_epc,
}
use pyhems.Common.{
  ltb, ◌==◌, if◌then◌else◌, Bool-cases, is_some, some_inj, is_empty, All, All-map, Exception,
  recursion_error, Result, ok, raised, ◌>>=◌, ℕ_key, list_key, find, ℕ, zero, suc, ◌<◌, ◌≡◌, refl,
  ap, subst, ◌≢◌, inl, inr, Bool, true, false, not, ◌&&◌, Option, none, some, List, [], ◌∷◌, arith,
}

-- A result that is not the error of too deep calls.
abbrev pub Ends {ℓ} : {A : Type ℓ} → Result A → Type ℓ
Ends {A} r = r ≢ raised recursion_error

raised_inj {ℓ} : {A : Type ℓ} {e x : Exception} → Path (Result A) (raised e) (raised x) → e ≡ x
raised_inj p = cc

Ends-bind {ℓ κ} :
    {A : Type ℓ} {B : Type κ} (r : Result A) (f : A → Result B)
    → Ends r
    → ((a : A) → Ends (f a))
    → Ends (r >>= f)
Ends-bind (ok a) f h k = k a
Ends-bind (raised e) f h k = λ p. h (ap raised (raised_inj p))

Ends-ok {ℓ} : {A : Type ℓ} (a : A) → Ends (ok a)
Ends-ok a p = cc

Ends-if {ℓ} : {A : Type ℓ} (b : Bool) (r s : Result A) → Ends r → Ends s → Ends (if b then r else s)
Ends-if true r s h k = h
Ends-if false r s h k = k

byte_of_entry-Ends : (o : Option ℕ) → Ends (byte_of_entry o)
unfolding byte_of_entry
byte_of_entry-Ends none = λ p. cc
byte_of_entry-Ends (some n) = Ends-if (ltb n 256) _ _ (Ends-ok _) (λ p. cc)

first_byte-Ends : (bs : List ℕ) → Ends (first_byte bs)
unfolding first_byte
first_byte-Ends [] p = cc
first_byte-Ends (b ∷ bs) p = cc

get_binary_values-Ends : (vs : List EnumValue) → Ends (get_binary_values vs)
unfolding get_binary_values
get_binary_values-Ends vs =
    Ends-if (not (is_binary vs)) _ _ (λ p. cc)
      (Ends-bind _ _ (byte_of_entry-Ends (find (edts_by_key [] vs) true_key)) (λ on.
        Ends-bind _ _ (byte_of_entry-Ends (find (edts_by_key [] vs) false_key))
          (λ off. Ends-ok (on, off))))

module _ {F : Type 0} where
  state_codec-Ends : (d : EntityDefinition F) → Ends (state_codec d)
  unfolding state_codec binary_codec_of
  state_codec-Ends d =
      Ends-if (is_binary d.enum_values) _ _
        (Ends-bind _ _ (get_binary_values-Ends d.enum_values) λ values.
          Ends-bind _ _ (first_byte-Ends values.0)
            λ on. Ends-bind _ _ (first_byte-Ends values.1) λ off. Ends-ok _)
        (Ends-ok _)

  module _ (look : ℕ → ℕ → Result (PropertyCodec F)) (class_code : ℕ) where
    coefficients_of-Ends :
        (epcs : List ℕ)
        → All (λ e. Ends (look class_code e)) epcs
        → Ends (coefficients_of look class_code epcs)
    unfolding coefficients_of
    coefficients_of-Ends [] h = Ends-ok _
    coefficients_of-Ends (epc ∷ epcs) h =
        Ends-bind (look class_code epc) _ h.0
          λ codec. Ends-bind _ _ (coefficients_of-Ends epcs h.1) λ rest. Ends-ok _

    coefficient_codecs-Ends :
        (epcs : List ℕ)
        → All (λ e. Ends (look class_code e)) epcs
        → Ends (coefficient_codecs look epcs (some class_code))
    unfolding coefficient_codecs
    coefficient_codecs-Ends [] h = Ends-ok _
    coefficient_codecs-Ends (epc ∷ epcs) h = coefficients_of-Ends (epc ∷ epcs) h

    choose_codec-Ends :
        (d : EntityDefinition F) (t : Option TemporalDefinition)
        → All (λ e. Ends (look class_code e)) (or_no_items d.coefficient_epcs)
        → Ends (choose_codec look (some class_code) d t)
    unfolding choose_codec temporal_codec_of untimed_codec number_codec
    choose_codec-Ends d (some t) h = Ends-if (d.byte_offset == 0) _ _ (Ends-ok _) (λ p. cc)
    choose_codec-Ends d none h =
        Ends-if (not (is_empty (or_no_items d.numeric_values))) _ _ (Ends-ok _) (
          Ends-if (not (is_empty d.enum_values)) _ _ (state_codec-Ends d) (
            Ends-if (is_empty (format_text d.format)) _ _ (λ p. cc)
              (Ends-bind _ _ (coefficient_codecs-Ends (or_no_items d.coefficient_epcs) h)
                λ coefficients. Ends-ok _)))

  -- Each coefficient of a definition has a smaller rank than the definition.
  abbrev pub IsRanked : (ℕ → ℕ) → EntityDefinition F → Type 0
  IsRanked rank d = All (λ e. rank e < rank d.epc) (or_no_items d.coefficient_epcs)

  -- What holds of a definition that may be selected holds of the selected one.
  select_definition-keeps :
      (P : EntityDefinition F → Type 0) (epc byte_offset : ℕ) (code : Option ℕ)
      (ds : List (EntityDefinition F)) (generic : Option (EntityDefinition F))
      → ((d : EntityDefinition F) → generic ≡ some d → P d × (d.epc ≡ epc))
      → All P ds
      → (d : EntityDefinition F) → select_definition epc byte_offset code generic ds ≡ some d
      → P d × (d.epc ≡ epc)
  unfolding select_definition is_field
  select_definition-keeps P epc byte_offset code [] generic g all d e = g d e
  select_definition-keeps P epc byte_offset code (x ∷ ds) generic g all d e =
      elim (Bool-cases (is_field epc byte_offset x)) [
        | inr other ↦
            select_definition-keeps P epc byte_offset code ds generic g all.1 d (rw other at e)
        | inl field ↦ elim (Bool-cases (is_specific code x)) [
          | inl specific ↦
              subst (λ y. P y × (y.epc ≡ epc)) (some_inj (rw (field, specific) at e))
                (all.0, same_epc field)
          | inr no_match ↦
              select_definition-keeps P epc byte_offset code ds
                (if is_generic x && not (is_some generic) then some x else generic)
                (next (is_generic x && not (is_some generic)) (same_epc field)) all.1 d
                (rw (field, no_match) at e)
        ]
      ]
    where
      same_epc : is_field epc byte_offset x ≡ true → x.epc ≡ epc
      same_epc h = ground arith

      next :
          (b : Bool)
          → x.epc ≡ epc
          → (y : EntityDefinition F) → (if b then some x else generic) ≡ some y
          → P y × (y.epc ≡ epc)
      next true same y p = subst (λ z. P z × (z.epc ≡ epc)) (some_inj p) (all.0, same)
      next false same y p = g y p

  module _ (registry : DefinitionsRegistry F) (class_code : ℕ) (rank : ℕ → ℕ)
      (ranked : All (IsRanked rank) (or_no_items (find registry.entities class_code))) where
    -- If the coefficients of a class are ranked, so that no property is scaled by itself in the end,
    -- the look-up of a codec does not run out of nested calls: one more of them than the rank of the
    -- EPC are enough.
    pub get_codec_for_epc-Ends :
        (fuel epc byte_offset : ℕ) (code : Option ℕ)
        → rank epc < fuel
        → Ends (get_codec_for_epc registry fuel class_code epc code byte_offset)
    unfolding get_codec_for_epc
    get_codec_for_epc-Ends zero epc byte_offset code h = absurd (omega arith)
    get_codec_for_epc-Ends (suc fuel) epc byte_offset code h =
        of_selected
          (select_definition epc byte_offset code none
            (or_no_items (find registry.entities class_code)))
          (λ d e.
            select_definition-keeps (IsRanked rank) epc byte_offset code
              (or_no_items (find registry.entities class_code)) none (λ x p. cc) ranked d e)
          (λ e k. get_codec_for_epc-Ends fuel e 0 none k)
      where
        of_selected :
            (o : Option (EntityDefinition F))
            → ((d : EntityDefinition F) → o ≡ some d → IsRanked rank d × (d.epc ≡ epc))
            → ((e : ℕ) → rank e < fuel → Ends (get_codec_for_epc registry fuel class_code e none 0))
            → Ends (
                codec_of_definition
                  (λ c e. get_codec_for_epc registry fuel c e none 0)
                  class_code
                  o)
        of_selected none s ih = λ p. unfold codec_of_definition in cc
        of_selected (some d) s ih =
            unfold codec_of_definition get_codec in
            let (smaller, same) = s d refl in
            choose_codec-Ends (λ c e. get_codec_for_epc registry fuel c e none 0) class_code d
              d.temporal
              (All-map _ _ (or_no_items d.coefficient_epcs)
                (λ e k. ih e (omega (arith, ap rank same))) smaller)
