-- ===== src/Codecs/Layout.antt =====
-- What src/pyhems/codecs.py computes of a structured value's definition before it decodes: the
-- sizes of its parts; and the decoded values. A decoded value is a value of Python, None among them;
-- a dictionary keeps its keys in order.
use pyhems.Codecs.Numbers.{Number}
use pyhems.Codecs.Definitions.{
  EnumValue, ItemBounds, PropertyValueDefinition, scalar, object, array, one_of, ObjectFields,
  no_field, field, Options, no_option, option,
}
use pyhems.Codecs.Numeric.{PropertyValue, number, key}
use pyhems.Common.{
  ltb, ◌==◌, if◌then◌else◌, take, drop, value_error, Result, ok, raised, ◌>>=◌, ℕ_key, same_list,
  list_key, ℕ, zero, suc, ◌+◌, ◌/◌, ◌%◌, Bool, true, false, not, ◌||◌, Option, none, some, List, [],
  ◌∷◌,
}

mutual
  pub data Decoded (F : Type 0) : Type 0 where
    null : Decoded F
    leaf : PropertyValue F → Decoded F
    raw : List ℕ → Decoded F
    dict : Members F → Decoded F
    tuple : Items F → Decoded F

  pub data Members (F : Type 0) : Type 0 where
    no_member : Members F
    member : List ℕ → Decoded F → Members F → Members F

  pub data Items (F : Type 0) : Type 0 where
    no_item : Items F
    item : Decoded F → Items F → Items F

-- next(iter(sizes)) of the set of the sizes, if it has one element
unfoldable pub shared_size : List ℕ → Result ℕ
shared_size [] = raised value_error
shared_size (n ∷ []) = ok n
shared_size (n ∷ m ∷ ns) =
    let rest = shared_size (m ∷ ns) in if n == m then rest else raised value_error

-- chunk[cursor:next]
abbrev pub slice : List ℕ → ℕ → ℕ → List ℕ
slice chunk cursor size = take size (drop cursor chunk)

-- The slices of `size` bytes, `count` of them.
unfoldable pub slices : ℕ → ℕ → List ℕ → List (List ℕ)
slices size zero chunk = []
slices size (suc count) chunk = take size chunk ∷ slices size count (drop size chunk)

unfoldable pub over_maximum : Option ℕ → ℕ → Bool
over_maximum none count = false
over_maximum (some m) count = ltb m count

unfoldable pub under_minimum : Option ℕ → ℕ → Bool
under_minimum none count = false
under_minimum (some m) count = ltb count m

unfoldable pub rejects_items : ItemBounds → ℕ → Bool
unfolding over_maximum under_minimum
rejects_items b n =
    b.item_size == 0
    || (not (n % b.item_size == 0)
        || (over_maximum b.max_items (n / b.item_size)
            || under_minimum b.min_items (n / b.item_size)))

module _ {F : Type 0} where
  unfoldable mutual
    unfolding shared_size

    -- _value_definition_byte_size
    pub value_definition_byte_size : PropertyValueDefinition F → Result ℕ
    value_definition_byte_size (scalar d) = ok d.size
    value_definition_byte_size (one_of options) = option_sizes options >>= shared_size
    value_definition_byte_size (object fields) = fields_size fields
    value_definition_byte_size (array d bounds) = raised value_error

    pub option_sizes : Options F → Result (List ℕ)
    option_sizes no_option = ok []
    option_sizes (option d options) =
        value_definition_byte_size d >>= λ n. option_sizes options >>= λ ns. ok (n ∷ ns)

    pub fields_size : ObjectFields F → Result ℕ
    fields_size no_field = ok 0
    fields_size (field k d fields) =
        value_definition_byte_size d >>= λ n. fields_size fields >>= λ m. ok (n + m)

  -- The sizes of _fixed_size_options
  unfoldable pub fixed_sizes : PropertyValueDefinition F → Result (List ℕ)
  fixed_sizes (one_of options) = option_sizes options
  fixed_sizes (scalar d) = value_definition_byte_size (scalar d) >>= λ n. ok (n ∷ [])
  fixed_sizes (object fields) = value_definition_byte_size (object fields) >>= λ n. ok (n ∷ [])
  fixed_sizes (array d bounds) = value_definition_byte_size (array d bounds) >>= λ n. ok (n ∷ [])

  unfoldable pub is_array : PropertyValueDefinition F → Bool
  is_array (array d bounds) = true
  is_array _ = false

  unfoldable pub is_last : ObjectFields F → Bool
  is_last no_field = true
  is_last (field k d fields) = false

  unfoldable pub is_null : Decoded F → Bool
  is_null null = true
  is_null _ = false

  unfoldable pub leaf_of : Option (PropertyValue F) → Decoded F
  leaf_of none = null
  leaf_of (some v) = leaf v

  unfoldable pub number_leaf : Option (Number F) → Decoded F
  number_leaf none = null
  number_leaf (some n) = leaf (number n)

  unfoldable pub key_of_raw : ℕ → List EnumValue → Decoded F
  key_of_raw n [] = null
  key_of_raw n (v ∷ vs) = if v.edt == n then leaf (key v.key) else key_of_raw n vs

  -- The value of a key that the other members have too is theirs; it stands first.
  pub value_among : List ℕ → Decoded F → Members F → Decoded F
  unfolding same_list
  value_among k v no_member = v
  value_among k v (member j w ms) = if same_list j k then w else value_among k v ms

  pub without_key : List ℕ → Members F → Members F
  unfolding same_list
  without_key k no_member = no_member
  without_key k (member j w ms) =
      if same_list j k then without_key k ms else member j w (without_key k ms)

  -- {k: v, **ms}
  unfoldable pub with_member : List ℕ → Decoded F → Members F → Members F
  unfolding value_among without_key
  with_member k v ms = member k (value_among k v ms) (without_key k ms)

  -- {k: v} if v is not None else None
  unfoldable pub only_member : List ℕ → Decoded F → Option (Members F)
  unfolding is_null
  only_member k v = if is_null v then none else some (member k v no_member)

  unfoldable pub dict_of : Option (Members F) → Decoded F
  dict_of none = null
  dict_of (some ms) = dict ms
