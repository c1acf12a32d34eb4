-- ===== src/Codecs/Structured/Slices.antt =====
-- Objects whose fields all have a fixed size, in `decode_property_value` of src/pyhems/codecs.py.
use pyhems.Codecs.Numbers.{Arithmetic}
use pyhems.Codecs.Definitions.{
  PropertyValueDefinition, scalar, object, array, one_of, ObjectFields, no_field, field,
}
use pyhems.Codecs.Numeric.{PropertyCodec, Context}
use pyhems.Codecs.Layout.{
  Decoded, null, dict, Members, no_member, slice, shared_size, value_definition_byte_size,
  option_sizes, fields_size, fixed_sizes, is_array, with_member, dict_of,
}
use pyhems.Codecs.Structured.{
  field_of, with_rest, try_sizes, try_fixed, decode_property_value, decode_fields,
}
use pyhems.Common.{
  ltb, ◌==◌, if◌then◌else◌, ==_iff, Bool-cases, length, All, Result, ok, raised, ◌>>=◌, ok_inj,
  bind_ok, ℕ_key, list_key, ℕ, ◌+◌, ◌≡◌, refl, ◌∙◌, subst, inl, inr, Bool, true, false, Option,
  none, some, List, [], ◌∷◌, arith,
}

shared_size-All : (n s : ℕ) (ns : List ℕ) → shared_size (n ∷ ns) ≡ ok s → All (λ m. m ≡ s) (n ∷ ns)
unfolding shared_size
shared_size-All n s [] e = (ok_inj e, tt)
shared_size-All n s (m ∷ ns) e = elim (Bool-cases (n == m)) [
  | inr other ↦ let clash = rw other at e in absurd cc
  | inl same ↦
      let rest = shared_size-All m s ns (rw same at e) in ((==_iff n m).0 same ∙ rest.0, rest)
]

module _ {F : Type 0} where
  -- The sizes to try for a definition with the fixed size `s`.
  record IsFixed (d : PropertyValueDefinition F) (s : ℕ) : Type 0 where
    pub size : ℕ
    pub others : List ℕ
    pub sizes : fixed_sizes d ≡ ok (size ∷ others)
    pub equal : All (λ m. m ≡ s) (size ∷ others)
    pub no_array : is_array d ≡ false

  value_definition_byte_size-IsFixed :
      (d : PropertyValueDefinition F) (s : ℕ) → value_definition_byte_size d ≡ ok s → IsFixed d s
  unfolding value_definition_byte_size fixed_sizes is_array
  value_definition_byte_size-IsFixed (scalar d) s e = record {
    size = d.size;
    others = [];
    sizes = refl;
    equal = (ok_inj e, tt);
    no_array = refl;
  }
  value_definition_byte_size-IsFixed (object fields) s e = record {
    size = s;
    others = [];
    sizes = rw e refl;
    equal = (refl, tt);
    no_array = refl;
  }
  value_definition_byte_size-IsFixed (array d bounds) s e = absurd cc
  value_definition_byte_size-IsFixed (one_of options) s e =
      let (ns, known, shared) = bind_ok (option_sizes options) shared_size s e in
      of_sizes ns known shared
    where
      of_sizes :
          (ns : List ℕ)
          → option_sizes options ≡ ok ns
          → shared_size ns ≡ ok s
          → IsFixed (one_of options) s
      of_sizes [] known shared = unfold shared_size in absurd cc
      of_sizes (n ∷ ns) known shared = record {
        size = n;
        others = ns;
        sizes = known;
        equal = shared_size-All n s ns shared;
        no_array = refl;
      }

  module _ (k chunk : List ℕ) (cursor s : ℕ) (value : List ℕ → Result (Decoded F))
      (later : ℕ → Result (Option (Members F))) where
    -- One attempt with the size `s`.
    attempt_size : Result (Option (Members F))
    attempt_size =
        if ltb (length chunk) (cursor + s)
        then ok none
        else later (cursor + s) >>= with_rest k (value (slice chunk cursor s)) (ok none)

    with_rest-next :
        (r : Result (Option (Members F))) (v : Result (Decoded F))
        (next : Result (Option (Members F)))
        → next ≡ (r >>= with_rest k v (ok none))
        → (r >>= with_rest k v next) ≡ (r >>= with_rest k v (ok none))
    unfolding with_rest
    with_rest-next (raised e) v next h = refl
    with_rest-next (ok none) v next h = h
    with_rest-next (ok (some ms)) v next h = refl

    size_step :
        (next : Result (Option (Members F)))
        → next ≡ attempt_size
        → (if ltb (length chunk) (cursor + s)
            then next
            else later (cursor + s) >>= with_rest k (value (slice chunk cursor s)) next)
          ≡ attempt_size
    unfolding attempt_size
    size_step next h = elim (Bool-cases (ltb (length chunk) (cursor + s))) [
      | inl over ↦ rw over (h ∙ rw (attempt_size, over) refl)
      | inr within ↦
          rw (attempt_size, within)
            (with_rest-next (later (cursor + s)) (value (slice chunk cursor s)) next
              (h ∙ rw (attempt_size, within) refl))
    ]

    -- Equal sizes are no more than one size.
    try_sizes-attempt_size :
        (size : ℕ) (sizes : List ℕ)
        → All (λ m. m ≡ s) (size ∷ sizes)
        → try_sizes k chunk cursor value later (size ∷ sizes) ≡ attempt_size
    unfolding try_sizes attempt_size
    try_sizes-attempt_size size [] h = rw (h.0) refl
    try_sizes-attempt_size size (m ∷ sizes) h = rw (h.0) (
        size_step (try_sizes k chunk cursor value later (m ∷ sizes))
          (try_sizes-attempt_size m sizes h.1))

module _ {F : Type 0} (a : Arithmetic F) (look : ℕ → ℕ → Result (PropertyCodec F))
    (context : Context) (class_code : Option ℕ) where
  -- Each field from its own bytes, the last field first, with no choice of sizes.
  pub decode_in_place : ObjectFields F → List ℕ → ℕ → Result (Members F)
  decode_in_place no_field chunk cursor = ok no_member
  decode_in_place (field k d fields) chunk cursor = value_definition_byte_size d >>= λ size.
      decode_in_place fields chunk (cursor + size) >>= λ ms.
      decode_property_value a look context class_code d (slice chunk cursor size) >>= λ v.
      ok (with_member k v ms)

  -- The fields one after the other, where the place of each is known.
  in_place : ObjectFields F → List ℕ → ℕ → ℕ → Result (Option (Members F))
  in_place fields chunk cursor n =
      if cursor + n == length chunk
      then (decode_in_place fields chunk cursor >>= λ ms. ok (some ms))
      else ok none

  place :
      (k : List ℕ) (r : Result (Members F)) (v : Result (Decoded F))
      → (r >>= (λ ms. ok (some ms)) >>= with_rest k v (ok none))
        ≡ (r >>= (λ ms. v >>= λ x. ok (with_member k x ms)) >>= λ ms. ok (some ms))
  unfolding with_rest field_of
  place k (raised e) v = refl
  place k (ok ms) (raised e) = refl
  place k (ok ms) (ok x) = refl

  -- The bytes of a field and the fields after it.
  attempt-in_place :
      (k chunk : List ℕ) (cursor s m : ℕ) (d : PropertyValueDefinition F) (fields : ObjectFields F)
      (later : ℕ → Result (Option (Members F)))
      → value_definition_byte_size d ≡ ok s
      → later (cursor + s) ≡ in_place fields chunk (cursor + s) m
      → attempt_size k chunk cursor s
          (λ c. decode_property_value a look context class_code d c)
          later
        ≡ in_place (field k d fields) chunk cursor (s + m)
  unfolding attempt_size in_place decode_in_place with_rest
  attempt-in_place k chunk cursor s m d fields later size h =
      elim (Bool-cases (ltb (length chunk) (cursor + s))) [
        | inl over ↦
            let short : (cursor + (s + m) == length chunk) ≡ false = ground arith in
            rw (over, short) refl
        | inr within ↦ elim (Bool-cases (cursor + s + m == length chunk)) [
          | inr other ↦
              let short : (cursor + (s + m) == length chunk) ≡ false = ground arith in
              rw (within, h, other, short) refl
          | inl whole ↦
              let long : (cursor + (s + m) == length chunk) ≡ true = ground arith in
              rw (within, h, whole, long, decode_in_place, size)
                (place k (decode_in_place fields chunk (cursor + s))
                  (decode_property_value a look context class_code d (slice chunk cursor s)))
        ]
      ]

  decode_fields-in_place :
      (fields : ObjectFields F) (chunk : List ℕ) (cursor n : ℕ)
      → fields_size fields ≡ ok n
      → decode_fields a look context class_code fields chunk cursor ≡ in_place fields chunk cursor n
  unfolding decode_fields fields_size value_definition_byte_size in_place decode_in_place
  decode_fields-in_place no_field chunk cursor n e =
      subst
        (λ t.
          decode_fields a look context class_code no_field chunk cursor
          ≡ in_place no_field chunk cursor t)
        (ok_inj e) (let same : cursor + 0 ≡ cursor = omega arith in rw (in_place, same) refl)
  decode_fields-in_place (field k d fields) chunk cursor n e =
      let (s, size, rest) = bind_ok (value_definition_byte_size d) _ n e in
      let (m, sizes, total) = bind_ok (fields_size fields) _ n rest in
      let p = value_definition_byte_size-IsFixed d s size in
      let tried =
        try_sizes-attempt_size k chunk cursor s
          (λ c. decode_property_value a look context class_code d c)
          (λ next. decode_fields a look context class_code fields chunk next) p.size p.others
          p.equal in
      let placed =
        attempt-in_place k chunk cursor s m d fields
          (λ next. decode_fields a look context class_code fields chunk next) size
          (decode_fields-in_place fields chunk (cursor + s) m sizes) in
      subst
        (λ t.
          decode_fields a look context class_code (field k d fields) chunk cursor
          ≡ in_place (field k d fields) chunk cursor t)
        (ok_inj total) (rw (p.no_array, p.sizes, try_fixed) (tried ∙ placed))

  whole :
      (b : Bool) (r : Result (Members F))
      → ((if b then (r >>= λ ms. ok (some ms)) else ok none) >>= λ o. ok (dict_of o))
        ≡ (if b then r >>= (λ ms. ok (dict ms)) else ok null)
  unfolding dict_of
  whole true (ok ms) = refl
  whole true (raised e) = refl
  whole false r = refl

  -- An object whose fields all have a fixed size is decoded exactly from the chunks of its whole
  -- size, each field from its own bytes; no other way to divide the chunk is ever found.
  pub decode_property_value-object :
      (fields : ObjectFields F) (chunk : List ℕ) (n : ℕ)
      → value_definition_byte_size (object fields) ≡ ok n
      → decode_property_value a look context class_code (object fields) chunk ≡ (
          if n == length chunk
          then decode_in_place fields chunk 0 >>= (λ ms. ok (dict ms))
          else ok null)
  unfolding decode_property_value value_definition_byte_size in_place dict_of
  decode_property_value-object fields chunk n e =
      let start : 0 + n ≡ n = omega arith in
      rw (decode_fields-in_place fields chunk 0 n e, start)
        (whole (n == length chunk) (decode_in_place fields chunk 0))
