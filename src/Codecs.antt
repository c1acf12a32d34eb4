-- ===== src/Codecs.antt =====
-- Values of properties and their bytes: src/pyhems/installation_location.py and the codecs of
-- src/pyhems/codecs.py for two states, for named states and for the installation location.
pub mod RoundTrips
pub mod Numbers
pub mod Definitions
pub mod Temporal
pub mod Numeric
pub mod Selection
pub mod Layout
pub mod Structured
pub mod Pages
use pyhems.Common.{
  ltb, leb, ◌==◌, if◌then◌else◌, get_elem?, value_error, Result, ok, raised, ◌>>=◌, ℕ_key, list_key,
  Dict, find, put, ℕ, ◌+◌, ◌*◌, ◌/◌, ◌%◌, Bool, true, false, not, ◌&&◌, ◌||◌, Option, none, some,
  List, [], ◌∷◌,
}

-- bytes([n])
pub single_byte : ℕ → Result (List ℕ)
single_byte n = if ltb n 256 then ok (n ∷ []) else raised value_error

unfoldable pub reject_byte_offset : ℕ → Result {0} Unit
reject_byte_offset byte_offset = if byte_offset == 0 then ok tt else raised value_error

pub record InstallationLocation : Type 0 where
  pub code : ℕ
  pub location_instance : ℕ

-- code in INSTALLATION_LOCATIONS, whose keys are 1 to 15
pub is_location_code : ℕ → Bool
is_location_code code = leb 1 code && leb code 15

pub from_code : ℕ → ℕ → Result InstallationLocation
unfolding is_location_code
from_code code location_instance =
    if not (is_location_code code)
    then raised value_error
    else if ltb 7 location_instance
    then raised value_error
    else ok (record { code = code; location_instance = location_instance })

pub location_of_byte : ℕ → Result (Option InstallationLocation)
unfolding from_code
location_of_byte byte =
    if byte == 0x00 || (byte == 0x01 || byte == 0xFF)
    then ok none
    else if byte / 128 % 2 == 1
    then ok none
    else if not (is_location_code (byte / 8 % 16))
    then ok none
    else from_code (byte / 8 % 16) (byte % 8) >>= (λ l. ok (some l))

-- The property may be missing; a value of another length is not decoded.
pub decode_installation_location : Option (List ℕ) → Result (Option InstallationLocation)
unfolding location_of_byte
decode_installation_location (some (byte ∷ [])) = location_of_byte byte
decode_installation_location _ = ok none

pub encode_location : InstallationLocation → Result (List ℕ)
unfolding is_location_code single_byte
encode_location l =
    if not (is_location_code l.code)
    then raised value_error
    else if ltb 7 l.location_instance
    then raised value_error
    else single_byte (l.code % 16 * 8 + l.location_instance % 8)

pub record BinaryCodec : Type 0 where
  pub on_edt : ℕ
  pub off_edt : ℕ
  pub byte_offset : ℕ

pub binary_of_byte : BinaryCodec → Option ℕ → Option Bool
binary_of_byte c none = none
binary_of_byte c (some val) =
    if val == c.on_edt then some true else if val == c.off_edt then some false else none

pub decode_binary : BinaryCodec → List ℕ → Option Bool
unfolding binary_of_byte
decode_binary c edt = binary_of_byte c (get_elem? edt c.byte_offset)

unfoldable pub encode_binary : BinaryCodec → Bool → Result (List ℕ)
unfolding reject_byte_offset single_byte
encode_binary c value =
    reject_byte_offset c.byte_offset >>= λ _. single_byte (if value then c.on_edt else c.off_edt)

-- A key is a text, the list of its codes.
pub record EnumCodec : Type 0 where
  pub by_key : Dict (List ℕ) ℕ
  pub by_edt : Dict ℕ (List ℕ)
  pub enum_offset : ℕ

-- {v: k for k, v in forward.items()}, onto `d`
pub inverted : Dict ℕ (List ℕ) → Dict (List ℕ) ℕ → Dict ℕ (List ℕ)
unfolding put
inverted d [] = d
inverted d ((k, v) ∷ forward) = inverted (put d v k) forward

unfoldable pub from_mapping : Dict (List ℕ) ℕ → EnumCodec
unfolding inverted
from_mapping forward = record { by_key = forward; by_edt = inverted [] forward; enum_offset = 0 }

pub key_of_byte : EnumCodec → Option ℕ → Option (List ℕ)
key_of_byte c none = none
key_of_byte c (some b) = find c.by_edt b

pub decode_enum : EnumCodec → List ℕ → Option (List ℕ)
unfolding key_of_byte
decode_enum c edt = key_of_byte c (get_elem? edt c.enum_offset)

pub byte_of_key : Option ℕ → Result (List ℕ)
unfolding single_byte
byte_of_key none = raised value_error
byte_of_key (some b) = single_byte b

unfoldable pub encode_enum : EnumCodec → List ℕ → Result (List ℕ)
unfolding reject_byte_offset byte_of_key
encode_enum c value = reject_byte_offset c.enum_offset >>= λ _. byte_of_key (find c.by_key value)
