-- ===== src/Common/Exceptions.antt =====
-- Python's exceptions as values: a function that may raise returns a `Result`.
use mathlib.Core.Path.{◌≡◌, refl}

-- Why a datagram is no ECHONET Lite frame.
pub data DecodeFault : Type 0 where
  too_short invalid_header unknown_esv incomplete_header incomplete_data : DecodeFault

pub data Exception : Type 0 where
  value_error overflow_error lookup_error type_error runtime_error recursion_error : Exception
  frame_decode_error : DecodeFault → Exception

pub data Result {ℓ} (A : Type ℓ) : Type ℓ where
  ok : A → Result A
  raised : Exception → Result A

infixl 5 ◌>>=◌
abbrev pub ◌>>=◌ {ℓ κ} : {A : Type ℓ} {B : Type κ} → Result A → (A → Result B) → Result B
ok a >>= f = f a
raised e >>= f = raised e

pub ok_inj {ℓ} : {A : Type ℓ} {x y : A} → Path (Result A) (ok x) (ok y) → x ≡ y
ok_inj h = cc

-- A bind that gives a value has one at each step.
pub bind_ok {ℓ κ} :
    {A : Type ℓ} {B : Type κ} (r : Result A) (f : A → Result B) (b : B)
    → (r >>= f) ≡ ok b
    → (x : A) × (r ≡ ok x) × (f x ≡ ok b)
bind_ok (ok x) f b e = (x, refl, e)
bind_ok (raised x) f b e = absurd cc
