-- ===== src/Examples/Values.antt =====
-- Values and their bytes at concrete inputs (src/pyhems/codecs.py).
use pyhems.Common.{
  contains, ok, ℕ_key, same_list, list_key, Dict, find, Distinct, ℕ, ◌≡◌, refl, false, some, List,
  [], ◌∷◌, arith,
}
use pyhems.Codecs.{
  InstallationLocation, decode_installation_location, encode_location, BinaryCodec, decode_binary,
  encode_binary, from_mapping, decode_enum, encode_enum,
}
use pyhems.Codecs.RoundTrips.{
  location_at, decode_installation_location_lem, decode_binary-encode_binary, values_of_keys,
  decode_enum-encode_enum,
}

-- The second room.
decode_installation_location_lem_example :
    (decode_installation_location (some (0x42 ∷ [])) ≡ ok (location_at 0x42))
    × ((l : InstallationLocation) → location_at 0x42 ≡ some l → encode_location l ≡ ok (0x42 ∷ []))
decode_installation_location_lem_example = decode_installation_location_lem 0x42 (omega arith)

abbrev power : BinaryCodec
power = record { on_edt = 0x30; off_edt = 0x31; byte_offset = 0 }

encode_binary_test : encode_binary power false ≡ ok (0x31 ∷ [])
unfolding encode_binary
encode_binary_test = refl

decode_binary-encode_binary_example : decode_binary power (0x31 ∷ []) ≡ some false
decode_binary-encode_binary_example =
    decode_binary-encode_binary power false (0x31 ∷ []) (λ e. omega (arith, e)) encode_binary_test

-- Two modes, named by one letter each.
abbrev modes : Dict (List ℕ) ℕ
modes = (97 ∷ [], 0x41) ∷ (98 ∷ [], 0x42) ∷ []

encode_enum_test : encode_enum (from_mapping modes) (98 ∷ []) ≡ ok (0x42 ∷ [])
unfolding encode_enum from_mapping find same_list
encode_enum_test = refl

modes-Distinct : Distinct (values_of_keys modes)
unfolding values_of_keys contains
modes-Distinct = (refl, (refl, tt))

decode_enum-encode_enum_example : decode_enum (from_mapping modes) (0x42 ∷ []) ≡ some (98 ∷ [])
decode_enum-encode_enum_example =
    decode_enum-encode_enum modes (98 ∷ []) (0x42 ∷ []) modes-Distinct encode_enum_test
