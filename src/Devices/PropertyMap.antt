-- ===== src/Devices/PropertyMap.antt =====
-- `_parse_property_map` of src/pyhems/device_manager.py.
use pyhems.Common.{
  ltb, leb, ◌==◌, if◌then◌else◌, ==_iff, Bool-cases, length, take, length-take_of_le, contains,
  contains-nil, contains-cons, contains-append, ℕ_key, list_key, ℕ, zero, suc, ◌+◌, ◌-◌, ◌*◌, ◌/◌,
  ◌%◌, ◌^◌, ◌≤◌, ◌<◌, ◌≡◌, refl, ◌∙◌, inl, inr, Bool, true, false, ◌&&◌, Option, none, some, List,
  [], ◌∷◌, ◌++◌, arith,
}

-- byte & (1 << i)
pub has_bit : ℕ → ℕ → Bool
has_bit byte i = byte / 2 ^ i % 2 == 1

-- The inner loop, over the bits from `bit_idx` on; `bits` of them are left.
pub bitmap_bits : ℕ → ℕ → ℕ → ℕ → List ℕ
unfolding has_bit
bitmap_bits zero bit_idx byte_idx byte = []
bitmap_bits (suc bits) bit_idx byte_idx byte =
    let rest = bitmap_bits bits (bit_idx + 1) byte_idx byte in
    if has_bit byte bit_idx then (0x80 + bit_idx * 0x10 + byte_idx) ∷ rest else rest

pub byte_epcs : ℕ → ℕ → List ℕ
unfolding bitmap_bits
byte_epcs byte_idx byte = bitmap_bits 8 0 byte_idx byte

-- The outer loop, over the bytes from `byte_idx` on.
pub bitmap_epcs : ℕ → List ℕ → List ℕ
bitmap_epcs byte_idx [] = []
bitmap_epcs byte_idx (byte ∷ bytes) = byte_epcs byte_idx byte ++ bitmap_epcs (byte_idx + 1) bytes

unfoldable pub parse_property_map : List ℕ → Option (List ℕ)
parse_property_map [] = none
parse_property_map (count ∷ rest) =
    if leb count 15
    then (if ltb (1 + length rest) (count + 1) then none else some (take count rest))
    else (if ltb (1 + length rest) 17 then none else some (bitmap_epcs 0 (take 16 rest)))

pub byte_at : List ℕ → ℕ → ℕ
byte_at [] i = 0
byte_at (b ∷ bs) zero = b
byte_at (b ∷ bs) (suc i) = byte_at bs i

byte_at-cons : (b : ℕ) (bs : List ℕ) (i k : ℕ) → i ≡ suc k → byte_at (b ∷ bs) i ≡ byte_at bs k
unfolding byte_at
byte_at-cons b bs i k e = rw e

contains-bitmap_bits :
    (bits bit_idx byte_idx byte a : ℕ)
    → byte_idx < 16
    → contains (bitmap_bits bits bit_idx byte_idx byte) a ≡ (
        a % 16 == byte_idx
        && (leb (128 + bit_idx * 16) a
            && (ltb a (128 + (bit_idx + bits) * 16) && has_bit byte ((a - 128) / 16))))
unfolding bitmap_bits
contains-bitmap_bits zero bit_idx byte_idx byte a h = ground (arith, contains-nil a)
contains-bitmap_bits (suc bits) bit_idx byte_idx byte a h =
    elim (Bool-cases (128 + bit_idx * 16 + byte_idx == a)) [
      | inl here ↦
          let e : (a - 128) / 16 ≡ bit_idx = omega (arith, (==_iff _ a).0 here) in
          let m : a % 16 ≡ byte_idx = omega (arith, (==_iff _ a).0 here) in
          ground (
            arith,
            contains-bitmap_bits bits (bit_idx + 1) byte_idx byte a h,
            contains-cons (128 + bit_idx * 16 + byte_idx)
                (bitmap_bits bits (bit_idx + 1) byte_idx byte) a,
          )
      | inr away ↦ ground (
        arith,
        contains-bitmap_bits bits (bit_idx + 1) byte_idx byte a h,
        contains-cons (128 + bit_idx * 16 + byte_idx) (bitmap_bits bits (bit_idx + 1) byte_idx byte)
            a,
      )
    ]

contains-byte_epcs :
    (byte_idx byte a : ℕ)
    → byte_idx < 16
    → contains (byte_epcs byte_idx byte) a
      ≡ (a % 16 == byte_idx && (leb 128 a && (ltb a 256 && has_bit byte ((a - 128) / 16))))
unfolding byte_epcs
contains-byte_epcs byte_idx byte a h = contains-bitmap_bits 8 0 byte_idx byte a h

contains-bitmap_epcs :
    (bytes : List ℕ) (byte_idx a : ℕ)
    → byte_idx + length bytes ≤ 16
    → contains (bitmap_epcs byte_idx bytes) a ≡ (
        leb byte_idx (a % 16)
        && (ltb (a % 16) (byte_idx + length bytes)
            && (leb 128 a
                && (ltb a 256 && has_bit (byte_at bytes (a % 16 - byte_idx)) ((a - 128) / 16)))))
unfolding bitmap_epcs
contains-bitmap_epcs [] byte_idx a h = ground (arith, contains-nil a)
contains-bitmap_epcs (byte ∷ bytes) byte_idx a h = elim (Bool-cases (a % 16 == byte_idx)) [
  | inl here ↦
      let e : a % 16 - byte_idx ≡ 0 = omega (arith, (==_iff _ _).0 here) in
      let first : byte_at (byte ∷ bytes) (a % 16 - byte_idx) ≡ byte = unfold byte_at in rw e refl in
      rw first (
        ground (
          arith,
          contains-append (byte_epcs byte_idx byte) (bitmap_epcs (byte_idx + 1) bytes) a,
          contains-byte_epcs byte_idx byte a,
          contains-bitmap_epcs bytes (byte_idx + 1) a,
        ))
  | inr away ↦ elim (Bool-cases (leb byte_idx (a % 16))) [
    | inr before ↦ ground (
      arith,
      contains-append (byte_epcs byte_idx byte) (bitmap_epcs (byte_idx + 1) bytes) a,
      contains-byte_epcs byte_idx byte a,
      contains-bitmap_epcs bytes (byte_idx + 1) a,
    )
    | inl after ↦
        let later =
          byte_at-cons byte bytes (a % 16 - byte_idx) (a % 16 - (byte_idx + 1)) (ground arith) in
        rw later (
          ground (
            arith,
            contains-append (byte_epcs byte_idx byte) (bitmap_epcs (byte_idx + 1) bytes) a,
            contains-byte_epcs byte_idx byte a,
            contains-bitmap_epcs bytes (byte_idx + 1) a,
          ))
  ]
]

-- What the Appendix of ECHONET Lite says that a map lists: its first byte counts the EPCs; up to
-- 15 follow one by one, and more as a bitmap of 16 bytes, where bit `i` of byte `j` stands for the
-- EPC `0x80 + 16 * i + j`.
pub lists : List ℕ → ℕ → Bool
lists [] a = false
lists (count ∷ rest) a =
    if leb count 15
    then contains (take count rest) a
    else leb 128 a && (ltb a 256 && has_bit (byte_at rest (a % 16)) ((a - 128) / 16))

-- Whether the data is long enough for what its first byte says.
pub is_complete : List ℕ → Bool
is_complete [] = false
is_complete (count ∷ rest) = if leb count 15 then leb count (length rest) else leb 16 (length rest)

abbrev pub IsPropertyMap : List ℕ → Option (List ℕ) → Type 0
IsPropertyMap edt none = is_complete edt ≡ false
IsPropertyMap edt (some epcs) = (is_complete edt ≡ true) × ((a : ℕ) → contains epcs a ≡ lists edt a)

byte_at-take : (n : ℕ) (bs : List ℕ) (i : ℕ) → i < n → byte_at (take n bs) i ≡ byte_at bs i
unfolding byte_at
byte_at-take zero bs i h = absurd (omega arith)
byte_at-take (suc n) [] i h = refl
byte_at-take (suc n) (b ∷ bs) zero h = refl
byte_at-take (suc n) (b ∷ bs) (suc i) h = byte_at-take n bs i (omega arith)

bitmap_lem :
    (rest : List ℕ) (a : ℕ)
    → 16 ≤ length rest
    → contains (bitmap_epcs 0 (take 16 rest)) a
      ≡ (leb 128 a && (ltb a 256 && has_bit (byte_at rest (a % 16)) ((a - 128) / 16)))
bitmap_lem rest a h =
    let n = length-take_of_le 16 rest h in
    let b = byte_at-take 16 rest (a % 16) (omega arith) in
    let z : a % 16 - 0 ≡ a % 16 = omega arith in
    contains-bitmap_epcs (take 16 rest) 0 a (omega arith) ∙ rw (z, b, n) (ground arith)

-- `_parse_property_map` returns None exactly for an empty or truncated map, and else the set of
-- the EPCs that the specification says the map lists, in both of its formats.
pub parse_property_map_lem : (edt : List ℕ) → IsPropertyMap edt (parse_property_map edt)
unfolding parse_property_map is_complete lists
parse_property_map_lem [] = refl
parse_property_map_lem (count ∷ rest) = elim (Bool-cases (leb count 15)) [
  | inl listed ↦ elim (Bool-cases (ltb (1 + length rest) (count + 1))) [
    | inl short ↦ rw (listed, short) (ground arith)
    | inr long ↦ rw (listed, long) (ground arith, λ a. rw listed refl)
  ]
  | inr bitmap ↦ elim (Bool-cases (ltb (1 + length rest) 17)) [
    | inl short ↦ rw (bitmap, short) (ground arith)
    | inr long ↦ rw (bitmap, long) (ground arith, λ a. rw bitmap (bitmap_lem rest a (ground arith)))
  ]
]
