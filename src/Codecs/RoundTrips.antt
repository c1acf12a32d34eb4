-- ===== src/Codecs/RoundTrips.antt =====
-- Decoding what was encoded, for the codecs of src/pyhems/codecs.py.
use pyhems.Common.{
  ltb, leb, ◌==◌, if◌then◌else◌, ltb→lt, lt→ltb, leb→le, ==_iff, &&_left, &&_right, Bool-cases,
  get_elem?, contains, value_error, Result, ok, raised, ℕ_key, same_list, same_list_iff, list_key,
  Dict, find, put, find-put, Distinct, ℕ, ◌+◌, ◌*◌, ◌/◌, ◌%◌, ◌≤◌, ◌<◌, ◌≡◌, refl, ◌∙◌, subst, ◌≢◌,
  inl, inr, Bool, true, false, ◌&&◌, Option, none, some, List, [], ◌∷◌, map, arith,
}
use pyhems.Codecs.{
  single_byte, reject_byte_offset, InstallationLocation, is_location_code, from_code,
  location_of_byte, decode_installation_location, encode_location, BinaryCodec, binary_of_byte,
  decode_binary, encode_binary, inverted, from_mapping, key_of_byte, decode_enum, byte_of_key,
  encode_enum,
}

single_byte-eq-ok : (n : ℕ) → n < 256 → single_byte n ≡ ok (n ∷ [])
unfolding single_byte
single_byte-eq-ok n h = rw (lt→ltb n 256 h) refl

-- A byte from 8 to 127 is a location with its number, and no other byte of a value is one.
abbrev pub location_at : ℕ → Option InstallationLocation
location_at byte =
    if leb 8 byte && ltb byte 128
    then some (record { code = byte / 8; location_instance = byte % 8 })
    else none

location_of_byte_lem : (byte : ℕ) → byte < 256 → location_of_byte byte ≡ ok (location_at byte)
unfolding location_of_byte from_code is_location_code
location_of_byte_lem byte h = elim (Bool-cases (leb 8 byte && ltb byte 128)) [
  | inl inside ↦
      let small : byte / 8 % 16 ≡ byte / 8 =
        omega (arith, leb→le 8 byte (&&_left _ _ inside), ltb→lt byte 128 (&&_right _ _ inside)) in
      rw (small, inside) (ground arith)
  | inr outside ↦ rw outside (ground arith)
]

encode_location-eq-ok :
    (byte : ℕ)
    → 8 ≤ byte
    → byte < 128
    → encode_location (record { code = byte / 8; location_instance = byte % 8 }) ≡ ok (byte ∷ [])
unfolding encode_location is_location_code
encode_location-eq-ok byte low high =
    let whole : byte / 8 % 16 * 8 + byte % 8 % 8 ≡ byte = omega arith in
    let is_code : (leb 1 (byte / 8) && leb (byte / 8) 15) ≡ true = ground arith in
    let in_range : ltb 7 (byte % 8) ≡ false = ground arith in
    rw (is_code, in_range, whole) (single_byte-eq-ok byte (omega arith))

-- One byte of an installation location is decoded without an error: a byte from 8 to 127 gives a
-- location, and encoding this location gives the byte again; any other byte gives none.
pub decode_installation_location_lem :
    (byte : ℕ)
    → byte < 256
    → (decode_installation_location (some (byte ∷ [])) ≡ ok (location_at byte))
      × ((l : InstallationLocation)
          → location_at byte ≡ some l
          → encode_location l ≡ ok (byte ∷ []))
unfolding decode_installation_location
decode_installation_location_lem byte h = (
  location_of_byte_lem byte h,
  λ l e. elim (Bool-cases (leb 8 byte && ltb byte 128)) [
    | inr outside ↦ absurd (no_location l (rw outside at e))
    | inl inside ↦
        subst (λ x. encode_location x ≡ ok (byte ∷ [])) (same_location l (rw inside at e))
          (encode_location-eq-ok byte (leb→le 8 byte (&&_left _ _ inside))
            (ltb→lt byte 128 (&&_right _ _ inside)))
  ],
)
  where
    no_location : (l : InstallationLocation) → Path (Option InstallationLocation) none (some l) → ⊥
    no_location l e = cc

    same_location :
        {x : InstallationLocation} (l : InstallationLocation)
        → Path (Option InstallationLocation) (some x) (some l)
        → x ≡ l
    same_location l e = cc

-- A codec of two states whose bytes differ decodes what it has encoded.
pub decode_binary-encode_binary :
    (c : BinaryCodec) (value : Bool) (edt : List ℕ)
    → c.on_edt ≢ c.off_edt
    → encode_binary c value ≡ ok edt
    → decode_binary c edt ≡ some value
unfolding decode_binary encode_binary single_byte reject_byte_offset binary_of_byte
decode_binary-encode_binary c value edt d e = elim (Bool-cases (c.byte_offset == 0)) [
  | inr later ↦ let clash = rw later at e in absurd cc
  | inl first ↦
      let start = (==_iff c.byte_offset 0).0 first in
      let byte = if value then c.on_edt else c.off_edt in
      elim (Bool-cases (ltb byte 256)) [
        | inr large ↦ let clash = rw (first, large) at e in absurd cc
        | inl small ↦
            let same_edt : byte ∷ [] ≡ edt = ok_inj (rw (first, small) at e) in
            subst (λ bs. decode_binary c bs ≡ some value) same_edt (rw start (of_value value))
      ]
]
  where
    ok_inj : {x y : List ℕ} → Path (Result (List ℕ)) (ok x) (ok y) → x ≡ y
    ok_inj h = cc

    of_value : (b : Bool) → binary_of_byte c (some (if b then c.on_edt else c.off_edt)) ≡ some b
    of_value true = ground arith
    of_value false = ground (arith, d)

-- The bytes of the mapping.
unfoldable pub values_of_keys : Dict (List ℕ) ℕ → List ℕ
values_of_keys forward = map (λ kv. kv.1) forward

find-inverted_other :
    (forward : Dict (List ℕ) ℕ) (d : Dict ℕ (List ℕ)) (v : ℕ)
    → contains (values_of_keys forward) v ≡ false
    → find (inverted d forward) v ≡ find d v
unfolding inverted values_of_keys contains
find-inverted_other [] d v h = refl
find-inverted_other ((k, w) ∷ forward) d v h =
    find-inverted_other forward (put d w k) v (ground arith) ∙ ground (arith, find-put d w v k)

find-inverted :
    (forward : Dict (List ℕ) ℕ) (d : Dict ℕ (List ℕ)) (k : List ℕ) (v : ℕ)
    → Distinct (values_of_keys forward)
    → find forward k ≡ some v
    → find (inverted d forward) v ≡ some k
unfolding inverted values_of_keys find
find-inverted [] d k v h e = cc
find-inverted ((j, w) ∷ forward) d k v h e = elim (Bool-cases (same_list j k)) [
  | inl same_key ↦
      let same_value : w ≡ v = some_inj (rw same_key at e) in
      find-inverted_other forward (put d w j) v
        (subst (λ x. contains (values_of_keys forward) x ≡ false) same_value h.0)
      ∙ ground (arith, find-put d w v j, (same_list_iff j k).0 same_key)
  | inr other ↦ find-inverted forward (put d w j) k v h.1 (rw other at e)
]
  where
    some_inj : {x y : ℕ} → Path (Option ℕ) (some x) (some y) → x ≡ y
    some_inj p = cc

-- A codec that is built from a mapping of keys to distinct bytes decodes what it has encoded.
pub decode_enum-encode_enum :
    (forward : Dict (List ℕ) ℕ) (value : List ℕ) (edt : List ℕ)
    → Distinct (values_of_keys forward)
    → encode_enum (from_mapping forward) value ≡ ok edt
    → decode_enum (from_mapping forward) edt ≡ some value
unfolding encode_enum decode_enum from_mapping reject_byte_offset byte_of_key single_byte
    key_of_byte
decode_enum-encode_enum forward value edt h e = by_byte (find forward value) refl e
  where
    ok_inj : {x y : List ℕ} → Path (Result (List ℕ)) (ok x) (ok y) → x ≡ y
    ok_inj p = cc

    by_byte :
        (o : Option ℕ)
        → find forward value ≡ o
        → byte_of_key o ≡ ok edt
        → key_of_byte (from_mapping forward) (get_elem? edt 0) ≡ some value
    by_byte none p q = absurd cc
    by_byte (some b) p q = elim (Bool-cases (ltb b 256)) [
      | inr large ↦ let clash : raised value_error ≡ ok edt = rw large at q in absurd cc
      | inl small ↦
          let same_edt : b ∷ [] ≡ edt = ok_inj (rw small at q) in
          subst (λ bs. key_of_byte (from_mapping forward) (get_elem? bs 0) ≡ some value) same_edt
            (find-inverted forward [] value b h p)
    ]
