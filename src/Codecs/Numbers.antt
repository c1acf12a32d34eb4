-- ===== src/Codecs/Numbers.antt =====
-- The numbers that src/pyhems/codecs.py computes with: Python's integers with their signed bytes,
-- and its floats, whose operations are an interface.
use pyhems.Common.{
  ltb, leb, if◌then◌else◌, ltb→lt, leb→le, Bool-cases, length, AllBytes, int_from_bytes, digits_be,
  int_to_bytes, int_from_bytes-digits_be, digits_be-int_from_bytes, int_from_bytes-lt,
  digits_be-AllBytes, length-digits_be, int_to_bytes-eq-ok, overflow_error, Result, ok, raised,
  ok_inj, ℕ_key, list_key, ℕ, ◌+◌, ◌-◌, ◌*◌, ◌^◌, ◌<◌, ◌≡◌, refl, sym, ap, ◌∙◌, subst, inl, inr,
  Bool, true, false, not, ◌&&◌, List, arith,
}

-- Python's int
pub data ℤ : Type 0 where
  pos negsuc : ℕ → ℤ

-- int.from_bytes(bs, "big", signed=signed)
unfoldable pub signed_from_bytes : Bool → List ℕ → ℤ
signed_from_bytes signed bs =
    let n = int_from_bytes bs in
    if signed && not (ltb (2 * n) (256 ^ length bs))
    then negsuc (256 ^ length bs - 1 - n)
    else pos n

-- z.to_bytes(size, "big", signed=signed)
unfoldable pub signed_to_bytes : Bool → ℕ → ℤ → Result (List ℕ)
signed_to_bytes false size (pos n) = int_to_bytes size n
signed_to_bytes false size (negsuc n) = raised overflow_error
signed_to_bytes true size (pos n) =
    if ltb (2 * n) (256 ^ size) then ok (digits_be size n) else raised overflow_error
signed_to_bytes true size (negsuc n) =
    if leb (2 * n + 2) (256 ^ size)
    then ok (digits_be size (256 ^ size - 1 - n))
    else raised overflow_error

-- An int or a float.
pub data Number (F : Type 0) : Type 0 where
  int : ℤ → Number F
  float : F → Number F

-- What the codecs use of Python's arithmetic on ints and floats. A division may raise
-- ZeroDivisionError, and `round` raises on a float that is not finite.
pub record Arithmetic (F : Type 0) : Type 0 where
  pub one : Number F
  pub equals_one : Number F → Bool
  pub less : Number F → Number F → Bool
  pub times : Number F → Number F → Number F
  pub divide : Number F → Number F → Result (Number F)
  pub rounded : Number F → Result ℤ
  pub is_close : Number F → Number F → Bool

-- What is read from all the bytes is written as these bytes.
pub signed_to_bytes-signed_from_bytes :
    (signed : Bool) (bs : List ℕ) (size : ℕ)
    → AllBytes bs
    → length bs ≡ size
    → signed_to_bytes signed size (signed_from_bytes signed bs) ≡ ok bs
unfolding signed_to_bytes signed_from_bytes
signed_to_bytes-signed_from_bytes true bs size h e =
    let fits : int_from_bytes bs < 256 ^ size = rw (sym e) (int_from_bytes-lt bs h) in
    let again = digits_be-int_from_bytes bs size h e in
    elim (Bool-cases (ltb (2 * int_from_bytes bs) (256 ^ size))) [
      | inl low ↦ rw (e, low) (rw (low, again) refl)
      | inr high ↦
          let m = 256 ^ size in
          let back : m - 1 - (m - 1 - int_from_bytes bs) ≡ int_from_bytes bs = omega arith in
          let small : leb (2 * (m - 1 - int_from_bytes bs) + 2) m ≡ true = ground arith in
          rw (e, high) (rw (small, back, again) refl)
    ]
signed_to_bytes-signed_from_bytes false bs size h e =
    let fits : int_from_bytes bs < 256 ^ size = rw (sym e) (int_from_bytes-lt bs h) in
    int_to_bytes-eq-ok size (int_from_bytes bs) fits ∙ ap ok (digits_be-int_from_bytes bs size h e)

-- What is written is read again.
pub signed_from_bytes-signed_to_bytes :
    (signed : Bool) (size : ℕ) (z : ℤ) (bs : List ℕ)
    → signed_to_bytes signed size z ≡ ok bs
    → (signed_from_bytes signed bs ≡ z) × (length bs ≡ size) × AllBytes bs
unfolding signed_to_bytes signed_from_bytes int_to_bytes
signed_from_bytes-signed_to_bytes false size (pos n) bs h = elim (Bool-cases (ltb n (256 ^ size))) [
  | inr large ↦ let clash = rw (int_to_bytes, large) at h in absurd cc
  | inl fits ↦
      subst (λ x. (signed_from_bytes false x ≡ pos n) × (length x ≡ size) × AllBytes x)
        (ok_inj (rw (int_to_bytes, fits) at h))
        (
          rw (int_from_bytes-digits_be size n (ltb→lt n (256 ^ size) fits)) refl,
          length-digits_be size n,
          digits_be-AllBytes size n,
        )
]
signed_from_bytes-signed_to_bytes true size (pos n) bs h =
    elim (Bool-cases (ltb (2 * n) (256 ^ size))) [
      | inr large ↦ let clash = rw large at h in absurd cc
      | inl fits ↦
          subst (λ x. (signed_from_bytes true x ≡ pos n) × (length x ≡ size) × AllBytes x)
            (ok_inj (rw fits at h))
            (
              rw
                  (
                    length-digits_be size n,
                    int_from_bytes-digits_be size n
                        (omega (arith, ltb→lt (2 * n) (256 ^ size) fits)),
                    fits,
                  )
                  refl,
              length-digits_be size n,
              digits_be-AllBytes size n,
            )
    ]
signed_from_bytes-signed_to_bytes false size (negsuc n) bs h = absurd cc
signed_from_bytes-signed_to_bytes true size (negsuc n) bs h =
    elim (Bool-cases (leb (2 * n + 2) (256 ^ size))) [
      | inr large ↦ let clash = rw large at h in absurd cc
      | inl fits ↦
          let m = 256 ^ size in
          let d : ℕ = m - 1 - n in
          let same : digits_be size d ≡ bs = ok_inj (rw fits at h) in
          let high : ltb (2 * d) m ≡ false = ground arith in
          let back : m - 1 - d ≡ n = omega (arith, leb→le (2 * n + 2) m fits) in
          subst (λ x. (signed_from_bytes true x ≡ negsuc n) × (length x ≡ size) × AllBytes x) same
            (
              rw
                  (
                    length-digits_be size d,
                    int_from_bytes-digits_be size d (omega (arith, leb→le (2 * n + 2) m fits)),
                    high,
                    back,
                  )
                  refl,
              length-digits_be size d,
              digits_be-AllBytes size d,
            )
    ]
