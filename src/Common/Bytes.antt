-- ===== src/Common/Bytes.antt =====
-- A `bytes` value is a list of numbers below 256. Big-endian conversion of unsigned integers,
-- by the language's `int.from_bytes` and `int.to_bytes`.
use Prim.Native.Nat.{ℕ, zero, suc, ◌+◌, ◌*◌, ◌/◌, ◌%◌, ◌^◌, ◌<◌}
use mathlib.Core.Path.{◌≡◌, refl, sym, ◌∙◌}
use mathlib.Core.List.{List, [], ◌∷◌, ◌++◌, append_assoc, append-nil}
use native.Mathlib.Omega.{arith}
use native.Mathlib.Nat.{pow-suc}
use pyhems.Common.Tests.{ltb, if◌then◌else◌, lt→ltb}
use pyhems.Common.Lists.{All, All-append, length, length-append}
use pyhems.Common.Exceptions.{Result, ok, raised, overflow_error}

abbrev pub AllBytes : List ℕ → Type 0
AllBytes = All (λ b. b < 256)

from_bytes_acc : ℕ → List ℕ → ℕ
from_bytes_acc acc [] = acc
from_bytes_acc acc (b ∷ bs) = from_bytes_acc (acc * 256 + b) bs

-- int.from_bytes(data, "big")
unfoldable pub int_from_bytes : List ℕ → ℕ
unfolding from_bytes_acc
int_from_bytes bs = from_bytes_acc 0 bs

unfoldable pub digits_be : ℕ → ℕ → List ℕ
digits_be zero n = []
digits_be (suc k) n = digits_be k (n / 256) ++ n % 256 ∷ []

-- n.to_bytes(size, "big")
unfoldable pub int_to_bytes : ℕ → ℕ → Result (List ℕ)
unfolding digits_be
int_to_bytes size n = if ltb n (256 ^ size) then ok (digits_be size n) else raised overflow_error

from_bytes_acc-snoc :
    (acc : ℕ) (bs : List ℕ) (b : ℕ)
    → from_bytes_acc acc (bs ++ b ∷ []) ≡ from_bytes_acc acc bs * 256 + b
unfolding from_bytes_acc
from_bytes_acc-snoc acc [] b = refl
from_bytes_acc-snoc acc (x ∷ bs) b = from_bytes_acc-snoc (acc * 256 + x) bs b

pub int_from_bytes-digits_be : (k n : ℕ) → n < 256 ^ k → int_from_bytes (digits_be k n) ≡ n
unfolding int_from_bytes digits_be
int_from_bytes-digits_be zero n h = omega arith
int_from_bytes-digits_be (suc k) n h =
    from_bytes_acc-snoc 0 (digits_be k (n / 256)) (n % 256)
    ∙ omega (arith, int_from_bytes-digits_be k (n / 256) (omega (arith, pow-suc 256 k)))

digits_be-from_bytes_acc :
    (bs : List ℕ) (acc k n : ℕ)
    → AllBytes bs
    → n ≡ length bs + k
    → digits_be n (from_bytes_acc acc bs) ≡ digits_be k acc ++ bs
unfolding from_bytes_acc digits_be
digits_be-from_bytes_acc [] acc k n h e =
    let e' : n ≡ k = omega arith in rw e' (sym (append-nil (digits_be k acc)))
digits_be-from_bytes_acc (b ∷ bs) acc k n h e =
    let high : (acc * 256 + b) / 256 ≡ acc = omega (arith, h.0) in
    let low : (acc * 256 + b) % 256 ≡ b = omega (arith, h.0) in
    digits_be-from_bytes_acc bs (acc * 256 + b) (suc k) n h.1 (omega arith)
    ∙ rw (high, low) (append_assoc (digits_be k acc) (b ∷ []) bs)

pub digits_be-int_from_bytes :
    (bs : List ℕ) (n : ℕ) → AllBytes bs → length bs ≡ n → digits_be n (int_from_bytes bs) ≡ bs
unfolding int_from_bytes digits_be
digits_be-int_from_bytes bs n h e = digits_be-from_bytes_acc bs 0 0 n h (omega arith)

from_bytes_acc-lt :
    (bs : List ℕ) (acc m : ℕ) → AllBytes bs → acc < m → from_bytes_acc acc bs < m * 256 ^ length bs
unfolding from_bytes_acc
from_bytes_acc-lt [] acc m h e = omega arith
from_bytes_acc-lt (b ∷ bs) acc m h e =
    rw pow-suc
      (omega (arith, from_bytes_acc-lt bs (acc * 256 + b) (m * 256) h.1 (omega (arith, h.0))))

-- A number read from `n` bytes fits in `n` bytes.
pub int_from_bytes-lt : (bs : List ℕ) → AllBytes bs → int_from_bytes bs < 256 ^ length bs
unfolding int_from_bytes
int_from_bytes-lt bs h = omega (arith, from_bytes_acc-lt bs 0 1 h (omega arith))

pub digits_be-AllBytes : (k n : ℕ) → AllBytes (digits_be k n)
unfolding digits_be
digits_be-AllBytes zero n = tt
digits_be-AllBytes (suc k) n =
    All-append (λ b. b < 256) (digits_be k (n / 256)) (n % 256 ∷ [])
      (digits_be-AllBytes k (n / 256)) (omega arith)

pub length-digits_be : (k n : ℕ) → length (digits_be k n) ≡ k
unfolding digits_be
length-digits_be zero n = refl
length-digits_be (suc k) n =
    omega
      (arith, length-append (digits_be k (n / 256)) (n % 256 ∷ []), length-digits_be k (n / 256))

pub int_to_bytes-eq-ok : (k n : ℕ) → n < 256 ^ k → int_to_bytes k n ≡ ok (digits_be k n)
unfolding int_to_bytes
int_to_bytes-eq-ok k n h = rw (lt→ltb n (256 ^ k) h)
