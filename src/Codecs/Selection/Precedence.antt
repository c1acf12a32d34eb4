-- ===== src/Codecs/Selection/Precedence.antt =====
-- Which definition `get_codec_for_epc` of src/pyhems/codecs.py takes.
use pyhems.Codecs.Definitions.{EntityDefinition}
use pyhems.Codecs.Selection.{is_specific, is_generic, is_field, select_definition}
use pyhems.Common.{
  if◌then◌else◌, Bool-cases, is_some, ℕ_key, list_key, ℕ, ◌≡◌, refl, inl, inr, Bool, not, ◌&&◌,
  Option, none, some, List, [], ◌∷◌,
}

module _ {ℓ} {A : Type ℓ} where
  -- The first item that passes a test.
  pub first_where : (A → Bool) → List A → Option A
  first_where p [] = none
  first_where p (x ∷ xs) = if p x then some x else first_where p xs

  pub or_else : Option A → Option A → Option A
  or_else (some x) y = some x
  or_else none y = y

module _ {F : Type 0} (epc byte_offset : ℕ) (code : Option ℕ) where
  abbrev pub is_specific_field : EntityDefinition F → Bool
  is_specific_field d = is_field epc byte_offset d && is_specific code d

  abbrev pub is_generic_field : EntityDefinition F → Bool
  is_generic_field d = is_field epc byte_offset d && is_generic d

  select_definition-generic :
      (generic : Option (EntityDefinition F)) (ds : List (EntityDefinition F))
      → select_definition epc byte_offset code generic ds
        ≡ or_else
            (first_where is_specific_field ds)
            (or_else generic (first_where is_generic_field ds))
  unfolding select_definition first_where or_else
  select_definition-generic none [] = refl
  select_definition-generic (some d) [] = refl
  select_definition-generic generic (d ∷ ds) = elim (Bool-cases (is_field epc byte_offset d)) [
    | inr other ↦ rw (other, select_definition-generic generic ds) refl
    | inl field ↦ elim (Bool-cases (is_specific code d)) [
      | inl specific ↦ rw (field, specific) refl
      | inr no_match ↦ elim (Bool-cases (is_generic d)) [
        | inl plain ↦
            rw (field, no_match, plain) (keep generic (λ g. select_definition-generic g ds))
        | inr bound ↦ rw (field, no_match, bound) (select_definition-generic generic ds)
      ]
    ]
  ]
    where
      keep :
          (g : Option (EntityDefinition F))
          → ((x : Option (EntityDefinition F))
              → select_definition epc byte_offset code x ds
                ≡ or_else
                    (first_where is_specific_field ds)
                    (or_else x (first_where is_generic_field ds)))
          → select_definition epc byte_offset code (if not (is_some g) then some d else g) ds
            ≡ or_else (first_where is_specific_field ds) (or_else g (some d))
      keep none ih = ih (some d)
      keep (some x) ih = ih (some x)

  -- The definition for an EPC and an offset is the first one of the manufacturer, wherever it
  -- stands; where there is none, the first generic one.
  pub select_definition_lem :
      (ds : List (EntityDefinition F))
      → select_definition epc byte_offset code none ds
        ≡ or_else (first_where is_specific_field ds) (first_where is_generic_field ds)
  unfolding or_else
  select_definition_lem ds = select_definition-generic none ds
