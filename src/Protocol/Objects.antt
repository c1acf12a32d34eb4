-- ===== src/Protocol/Objects.antt =====
-- ECHONET Lite object identifiers, `EOJ` of src/pyhems/eoj.py. `>>` and `&` by powers of two are
-- division and remainder.
use pyhems.Common.{
  leb, ◌==◌, if◌then◌else◌, length, AllBytes, int_from_bytes, digits_be, int_to_bytes,
  int_from_bytes-digits_be, digits_be-int_from_bytes, int_from_bytes-lt, length-digits_be,
  int_to_bytes-eq-ok, value_error, Result, ok, raised, ℕ, ◌+◌, ◌*◌, ◌/◌, ◌%◌, ◌^◌, ◌<◌, ◌≡◌, ap,
  ◌∙◌, Bool, List, arith,
}

pub record Eoj : Type 0 where
  pub value : ℕ

-- EOJ(value), with the check of `__post_init__`.
pub make : ℕ → Result Eoj
make value = if leb value 0xFFFFFF then ok (record { value = value }) else raised value_error

class_group : Eoj → ℕ
class_group e = e.value / 2 ^ 16 % 256

class_type : Eoj → ℕ
class_type e = e.value / 2 ^ 8 % 256

unfoldable pub class_code : Eoj → ℕ
class_code e = e.value / 2 ^ 8

instance_number : Eoj → ℕ
instance_number e = e.value % 256

unfoldable pub to_bytes : Eoj → Result (List ℕ)
to_bytes e = int_to_bytes 3 e.value

unfoldable pub from_bytes : List ℕ → Result Eoj
unfolding make
from_bytes bs = if length bs == 3 then make (int_from_bytes bs) else raised value_error

-- `==` of the frozen dataclass.
unfoldable pub eoj_eq : Eoj → Eoj → Bool
eoj_eq a b = a.value == b.value

abbrev pub IsEoj : Eoj → Type 0
IsEoj e = e.value < 2 ^ 24

-- The class code is the class group above the class type, and the value is the class code above
-- the instance number.
class_code_lem :
    (e : Eoj)
    → IsEoj e
    → (class_code e ≡ class_group e * 256 + class_type e)
      × (e.value ≡ class_code e * 256 + instance_number e)
unfolding class_code class_group class_type instance_number
class_code_lem e h = (omega arith, omega arith)

pub to_bytes_lem : (e : Eoj) → IsEoj e → to_bytes e ≡ ok (digits_be 3 e.value)
unfolding to_bytes
to_bytes_lem e h = int_to_bytes-eq-ok 3 e.value h

pub from_bytes-digits_be : (e : Eoj) → IsEoj e → from_bytes (digits_be 3 e.value) ≡ ok e
unfolding from_bytes make
from_bytes-digits_be e h =
    rw (length-digits_be 3 e.value, int_from_bytes-digits_be 3 e.value h) (ground arith)

pub from_bytes-eq-ok :
    (bs : List ℕ)
    → AllBytes bs
    → length bs ≡ 3
    → (from_bytes bs ≡ ok (record { value = int_from_bytes bs })) × (int_from_bytes bs < 2 ^ 24)
unfolding from_bytes make
from_bytes-eq-ok bs h e = (rw e (ground (arith, small)), small)
  where
    small : int_from_bytes bs < 2 ^ 24
    small = rw e at (int_from_bytes-lt bs h)

-- An EOJ that is read from three bytes is below 2 to the 24 and is written as these bytes again.
pub to_bytes-from_bytes :
    (bs : List ℕ) (e : Eoj)
    → AllBytes bs
    → length bs ≡ 3
    → from_bytes bs ≡ ok e
    → (to_bytes e ≡ ok bs) × IsEoj e
to_bytes-from_bytes bs e h l p =
    let good = from_bytes-eq-ok bs h l in
    let e' : e.value ≡ int_from_bytes bs = ground (arith, good.0, p) in
    let small : IsEoj e = omega (arith, good.1, e') in
    (to_bytes_lem e small ∙ ap ok (rw e' (digits_be-int_from_bytes bs 3 h l)), small)
