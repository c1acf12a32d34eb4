-- ===== src/Codecs/Definitions.antt =====
-- The types of src/pyhems/definitions.py that describe the values of properties. A name for people
-- is left out; a key is a text, the list of its codes.
use pyhems.Codecs.Numbers.{Number}
use pyhems.Common.{
  ltb, leb, ◌==◌, if◌then◌else◌, length, contains, value_error, lookup_error, Result, ok, raised,
  ◌>>=◌, ℕ_key, same_list, list_key, Dict, find, put, ℕ, Bool, true, false, not, ◌&&◌, ◌||◌, Option,
  none, some, List, [], ◌∷◌,
}

pub data TemporalKind : Type 0 where
  date_kind clock_kind duration_kind datetime_kind : TemporalKind

pub record TemporalDefinition : Type 0 where
  pub kind : TemporalKind
  pub size : ℕ
  pub maximum_hour : ℕ

supported_sizes : TemporalKind → List ℕ
supported_sizes date_kind = 4 ∷ []
supported_sizes clock_kind = 2 ∷ 3 ∷ []
supported_sizes duration_kind = 2 ∷ 3 ∷ []
supported_sizes datetime_kind = 6 ∷ 7 ∷ []

is_clock : TemporalKind → Bool
is_clock clock_kind = true
is_clock _ = false

-- __post_init__: the definition, if it is accepted.
unfoldable pub new_temporal_definition : TemporalKind → ℕ → ℕ → Result TemporalDefinition
unfolding supported_sizes is_clock
new_temporal_definition kind size maximum_hour =
    if not (contains (supported_sizes kind) size)
    then raised value_error
    else if not (leb maximum_hour 255)
    then raised value_error
    else if is_clock kind && ltb 23 maximum_hour
    then raised value_error
    else ok (record { kind = kind; size = size; maximum_hour = maximum_hour })

pub record EnumValue : Type 0 where
  pub edt : ℕ
  pub key : List ℕ

-- "true" and "false"
abbrev pub true_key : List ℕ
true_key = 116 ∷ 114 ∷ 117 ∷ 101 ∷ []

abbrev pub false_key : List ℕ
false_key = 102 ∷ 97 ∷ 108 ∷ 115 ∷ 101 ∷ []

pub record NumericValueEntry (F : Type 0) : Type 0 where
  pub edt : ℕ
  pub value : Number F

-- The fields that the choice of a codec reads.
pub record EntityDefinition (F : Type 0) : Type 0 where
  pub epc : ℕ
  pub format : Option (List ℕ)
  pub minimum : Option (Number F)
  pub maximum : Option (Number F)
  pub multiple_of : Number F
  pub enum_values : List EnumValue
  pub byte_offset : ℕ
  pub manufacturer_code : Option ℕ
  pub numeric_values : Option (List (NumericValueEntry F))
  pub coefficient_epcs : Option (List ℕ)
  pub temporal : Option TemporalDefinition

-- {value.key: value.edt for value in values}, onto `d`
unfoldable pub edts_by_key : Dict (List ℕ) ℕ → List EnumValue → Dict (List ℕ) ℕ
unfolding put
edts_by_key d [] = d
edts_by_key d (v ∷ vs) = edts_by_key (put d v.key v.edt) vs

only_binary_keys : List EnumValue → Bool
unfolding same_list
only_binary_keys [] = true
only_binary_keys (v ∷ vs) =
    (same_list v.key true_key || same_list v.key false_key) && only_binary_keys vs

has_enum_key : List ℕ → List EnumValue → Bool
unfolding same_list
has_enum_key key [] = false
has_enum_key key (v ∷ vs) = same_list v.key key || has_enum_key key vs

-- EntityDefinition.is_binary: two values, whose set of keys is {"true", "false"}.
unfoldable pub is_binary : List EnumValue → Bool
unfolding only_binary_keys has_enum_key
is_binary vs =
    length vs == 2
    && (only_binary_keys vs && (has_enum_key true_key vs && has_enum_key false_key vs))

-- bytes([values[key]])
unfoldable pub byte_of_entry : Option ℕ → Result (List ℕ)
byte_of_entry none = raised lookup_error
byte_of_entry (some n) = if ltb n 256 then ok (n ∷ []) else raised value_error

-- EntityDefinition.get_binary_values
unfoldable pub get_binary_values : List EnumValue → Result (List ℕ × List ℕ)
unfolding is_binary edts_by_key byte_of_entry find
get_binary_values vs =
    let values = edts_by_key [] vs in
    if not (is_binary vs)
    then raised value_error
    else byte_of_entry (find values true_key) >>= λ on.
        byte_of_entry (find values false_key) >>= λ off. ok (on, off)

pub record ScalarDefinition (F : Type 0) : Type 0 where
  pub size : ℕ
  pub format : Option (List ℕ)
  pub minimum : Option (Number F)
  pub maximum : Option (Number F)
  pub multiple_of : Number F
  pub enum_values : List EnumValue
  pub numeric_values : Option (List (NumericValueEntry F))
  pub coefficient_epcs : List ℕ

pub record ItemBounds : Type 0 where
  pub item_size : ℕ
  pub min_items : Option ℕ
  pub max_items : Option ℕ

-- PropertyValueDefinition with the fields of an object and the options of a oneOf.
mutual
  pub data PropertyValueDefinition (F : Type 0) : Type 0 where
    scalar : ScalarDefinition F → PropertyValueDefinition F
    object : ObjectFields F → PropertyValueDefinition F
    array : PropertyValueDefinition F → ItemBounds → PropertyValueDefinition F
    one_of : Options F → PropertyValueDefinition F

  pub data ObjectFields (F : Type 0) : Type 0 where
    no_field : ObjectFields F
    field : List ℕ → PropertyValueDefinition F → ObjectFields F → ObjectFields F

  pub data Options (F : Type 0) : Type 0 where
    no_option : Options F
    option : PropertyValueDefinition F → Options F → Options F

pub record CollectionBinding : Type 0 where
  pub result_epc : ℕ
  pub count_epc : Option ℕ
  pub items_path : List (List ℕ)
  pub start_path : List (List ℕ)
  pub page_count_path : List (List ℕ)
  pub selector_epc : Option ℕ
  pub max_range : Option ℕ

-- The maps of DefinitionsRegistry that the codecs read.
pub record DefinitionsRegistry (F : Type 0) : Type 0 where
  pub entities : Dict ℕ (List (EntityDefinition F))
  pub structured_values : Dict ℕ (Dict ℕ (PropertyValueDefinition F))
  pub collection_bindings : Dict ℕ (List CollectionBinding)
