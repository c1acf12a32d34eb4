-- ===== src/Codecs/Temporal/RoundTrips.antt =====
-- Reading and writing temporal values, src/pyhems/codecs.py, one after the other.
use pyhems.Codecs.Definitions.{
  TemporalKind, date_kind, clock_kind, duration_kind, datetime_kind, TemporalDefinition,
}
use pyhems.Codecs.Temporal.{
  TemporalValue, is_date, is_time, date_of, datetime_of, delta_of, hours_value, clock_or_duration,
  decode_date, decode_datetime, decode_hours, decode_by_kind, decode_temporal, bytes_of,
  all_below_256, is_exact, encode_date, encode_datetime, encode_hours, encode_clock, encode_days,
  encode_delta, encode_by_kind, encode_temporal,
}
use pyhems.Common.{
  ltb, ◌==◌, lt→ltb, ==_iff, Bool-cases, some_inj, length, take, AllBytes, digits_be, int_to_bytes,
  ok, ℕ_key, list_key, ℕ, ◌+◌, ◌*◌, ◌/◌, ◌%◌, ◌<◌, ◌≡◌, refl, sym, ◌∙◌, subst, inl, inr, true,
  false, not, ◌&&◌, ◌||◌, some, List, [], ◌∷◌, arith,
}

two_bytes : (a b : ℕ) → a < 256 → b < 256 → int_to_bytes 2 (a * 256 + b) ≡ ok (a ∷ b ∷ [])
unfolding int_to_bytes digits_be
two_bytes a b h k =
    let fits : ltb (a * 256 + b) 65536 ≡ true = ground arith in
    let high : (a * 256 + b) / 256 % 256 ≡ a = omega arith in
    let low : (a * 256 + b) % 256 ≡ b = omega arith in rw (fits, high, low) refl

all_below_256_lem : (ns : List ℕ) → AllBytes ns → all_below_256 ns ≡ true
unfolding all_below_256
all_below_256_lem [] h = refl
all_below_256_lem (n ∷ ns) h = rw (lt→ltb n 256 h.0) (all_below_256_lem ns h.1)

bytes_of-eq-ok : (ns : List ℕ) → AllBytes ns → bytes_of ns ≡ ok ns
unfolding bytes_of
bytes_of-eq-ok ns h = rw (all_below_256_lem ns h) refl

encode-decode_date :
    (edt : List ℕ) (v : TemporalValue) (d : TemporalDefinition)
    → AllBytes edt
    → decode_date edt ≡ some v
    → encode_by_kind d date_kind v ≡ ok edt
unfolding decode_date date_of encode_by_kind encode_date
encode-decode_date (a ∷ b ∷ month ∷ day ∷ []) v d h e =
    elim (Bool-cases (is_date (a * 256 + b) month day)) [
      | inr bad ↦ let clash = rw bad at e in absurd cc
      | inl good ↦
          subst (λ x. encode_by_kind d date_kind x ≡ ok (a ∷ b ∷ month ∷ day ∷ []))
            (some_inj (rw good at e))
            (rw (two_bytes a b h.0 h.1.0, bytes_of-eq-ok (month ∷ day ∷ []) h.1.1) refl)
    ]
encode-decode_date [] v d h e = cc
encode-decode_date (a ∷ []) v d h e = cc
encode-decode_date (a ∷ b ∷ []) v d h e = cc
encode-decode_date (a ∷ b ∷ c ∷ []) v d h e = cc
encode-decode_date (a ∷ b ∷ c ∷ x ∷ y ∷ zs) v d h e = cc

-- The datetime of the bytes, written with the size `n` of the definition.
encode-datetime_of :
    (a b month day hour minute second : ℕ) (v : TemporalValue) (d : TemporalDefinition)
    → AllBytes (a ∷ b ∷ month ∷ day ∷ hour ∷ minute ∷ second ∷ [])
    → (d.size == 6 && not (second == 0)) ≡ false
    → datetime_of (a * 256 + b) month day hour minute second ≡ some v
    → encode_by_kind d datetime_kind v
      ≡ ok (take d.size (a ∷ b ∷ month ∷ day ∷ hour ∷ minute ∷ second ∷ []))
unfolding datetime_of encode_by_kind encode_datetime is_exact
encode-datetime_of a b month day hour minute second v d h exact e =
    elim (Bool-cases (is_date (a * 256 + b) month day && is_time hour minute second)) [
      | inr bad ↦ let clash = rw bad at e in absurd cc
      | inl good ↦
          subst
            (λ x.
              encode_by_kind d datetime_kind x
              ≡ ok (take d.size (a ∷ b ∷ month ∷ day ∷ hour ∷ minute ∷ second ∷ [])))
            (some_inj (rw good at e))
            (rw
              (
                exact,
                two_bytes a b h.0 h.1.0,
                bytes_of-eq-ok (month ∷ day ∷ hour ∷ minute ∷ second ∷ []) h.1.1,
              )
              refl)
    ]

encode-decode_datetime :
    (edt : List ℕ) (v : TemporalValue) (d : TemporalDefinition)
    → AllBytes edt
    → length edt ≡ d.size
    → decode_datetime edt ≡ some v
    → encode_by_kind d datetime_kind v ≡ ok edt
unfolding decode_datetime
encode-decode_datetime (a ∷ b ∷ month ∷ day ∷ hour ∷ minute ∷ []) v d h size e =
    encode-datetime_of a b month day hour minute 0 v d
      (h.0, (h.1.0, (h.1.1.0, (h.1.1.1.0, (h.1.1.1.1.0, (h.1.1.1.1.1.0, (omega arith, tt)))))))
      (ground arith) e
    ∙ rw (sym size) refl
encode-decode_datetime (a ∷ b ∷ month ∷ day ∷ hour ∷ minute ∷ second ∷ []) v d h size e =
    encode-datetime_of a b month day hour minute second v d h (ground (arith, size)) e
    ∙ rw (sym size) refl
encode-decode_datetime [] v d h size e = cc
encode-decode_datetime (a ∷ []) v d h size e = cc
encode-decode_datetime (a ∷ b ∷ []) v d h size e = cc
encode-decode_datetime (a ∷ b ∷ c ∷ []) v d h size e = cc
encode-decode_datetime (a ∷ b ∷ c ∷ x ∷ []) v d h size e = cc
encode-decode_datetime (a ∷ b ∷ c ∷ x ∷ y ∷ []) v d h size e = cc
encode-decode_datetime (a ∷ b ∷ c ∷ x ∷ y ∷ z ∷ t ∷ u ∷ zs) v d h size e = cc

-- Hours, minutes and seconds that fit are written as they were read.
encode_hours-eq-ok :
    (d : TemporalDefinition) (hour minute second : ℕ)
    → AllBytes (hour ∷ minute ∷ second ∷ [])
    → ltb d.maximum_hour hour ≡ false
    → (d.size == 2 && not (second == 0)) ≡ false
    → encode_hours d hour minute second ≡ ok (take d.size (hour ∷ minute ∷ second ∷ []))
unfolding encode_hours
encode_hours-eq-ok d hour minute second h low exact =
    rw (low, exact, bytes_of-eq-ok (hour ∷ minute ∷ second ∷ []) h) refl

abbrev IsHours : TemporalKind → Type 0
IsHours clock_kind = Unit
IsHours duration_kind = Unit
IsHours _ = ⊥

encode-hours_value :
    (kind : TemporalKind) (d : TemporalDefinition) (hour minute second : ℕ) (v : TemporalValue)
    → IsHours kind
    → AllBytes (hour ∷ minute ∷ second ∷ [])
    → ltb d.maximum_hour hour ≡ false
    → (d.size == 2 && not (second == 0)) ≡ false
    → ltb 59 minute ≡ false
    → ltb 59 second ≡ false
    → hours_value kind hour minute second ≡ some v
    → encode_by_kind d kind v ≡ ok (take d.size (hour ∷ minute ∷ second ∷ []))
unfolding hours_value encode_by_kind encode_clock is_exact encode_delta encode_days delta_of
encode-hours_value date_kind d hour minute second v k h low exact m s e = absurd k
encode-hours_value datetime_kind d hour minute second v k h low exact m s e = absurd k
encode-hours_value clock_kind d hour minute second v k h low exact m s e =
    elim (Bool-cases (is_time hour minute second)) [
      | inr bad ↦ let clash = rw bad at e in absurd cc
      | inl good ↦
          subst
            (λ x. encode_by_kind d clock_kind x ≡ ok (take d.size (hour ∷ minute ∷ second ∷ [])))
            (some_inj (rw good at e)) (encode_hours-eq-ok d hour minute second h low exact)
    ]
encode-hours_value duration_kind d hour minute second v k h low exact m s e =
    subst (λ x. encode_by_kind d duration_kind x ≡ ok (take d.size (hour ∷ minute ∷ second ∷ [])))
      (some_inj e)
      (let total : ℕ = hour * 3600 + minute * 60 + second in
        let whole : total / 86400 * 86400 + total % 86400 ≡ total = omega arith in
        let hours : total / 3600 ≡ hour = ground arith in
        let minutes : total % 3600 / 60 ≡ minute = ground arith in
        let seconds : total % 3600 % 60 ≡ second = ground arith in
        rw (whole, hours, minutes, seconds) (encode_hours-eq-ok d hour minute second h low exact))

encode-clock_or_duration :
    (kind : TemporalKind) (d : TemporalDefinition) (hour minute second : ℕ) (v : TemporalValue)
    → IsHours kind
    → AllBytes (hour ∷ minute ∷ second ∷ [])
    → (d.size == 2 && not (second == 0)) ≡ false
    → clock_or_duration kind d.maximum_hour hour minute second ≡ some v
    → encode_by_kind d kind v ≡ ok (take d.size (hour ∷ minute ∷ second ∷ []))
unfolding clock_or_duration
encode-clock_or_duration kind d hour minute second v k h exact e =
    elim (Bool-cases (ltb d.maximum_hour hour || (ltb 59 minute || ltb 59 second))) [
      | inl out ↦ let clash = rw out at e in absurd cc
      | inr within ↦
          encode-hours_value kind d hour minute second v k h (ground arith) exact (ground arith)
            (ground arith) (rw within at e)
    ]

encode-decode_hours :
    (kind : TemporalKind) (edt : List ℕ) (v : TemporalValue) (d : TemporalDefinition)
    → IsHours kind
    → AllBytes edt
    → length edt ≡ d.size
    → decode_hours kind d.maximum_hour edt ≡ some v
    → encode_by_kind d kind v ≡ ok edt
unfolding decode_hours
encode-decode_hours kind (hour ∷ minute ∷ []) v d k h size e =
    encode-clock_or_duration kind d hour minute 0 v k (h.0, (h.1.0, (omega arith, tt)))
      (ground arith) e
    ∙ rw (sym size) refl
encode-decode_hours kind (hour ∷ minute ∷ second ∷ []) v d k h size e =
    encode-clock_or_duration kind d hour minute second v k h (ground (arith, size)) e
    ∙ rw (sym size) refl
encode-decode_hours kind [] v d k h size e = cc
encode-decode_hours kind (a ∷ []) v d k h size e = cc
encode-decode_hours kind (a ∷ b ∷ c ∷ x ∷ zs) v d k h size e = cc

encode-decode_by_kind :
    (kind : TemporalKind) (edt : List ℕ) (v : TemporalValue) (d : TemporalDefinition)
    → AllBytes edt
    → length edt ≡ d.size
    → decode_by_kind kind d.maximum_hour edt ≡ some v
    → encode_by_kind d kind v ≡ ok edt
unfolding decode_by_kind
encode-decode_by_kind date_kind edt v d h size e = encode-decode_date edt v d h e
encode-decode_by_kind datetime_kind edt v d h size e = encode-decode_datetime edt v d h size e
encode-decode_by_kind clock_kind edt v d h size e =
    encode-decode_hours clock_kind edt v d tt h size e
encode-decode_by_kind duration_kind edt v d h size e =
    encode-decode_hours duration_kind edt v d tt h size e

-- Whatever bytes a temporal definition decodes to a date, a datetime, a time or a duration: this
-- value is encoded, without an error, as the bytes again.
pub encode_temporal-decode_temporal :
    (d : TemporalDefinition) (edt : List ℕ) (v : TemporalValue)
    → AllBytes edt
    → decode_temporal d edt ≡ some v
    → encode_temporal d v ≡ ok edt
unfolding decode_temporal encode_temporal
encode_temporal-decode_temporal d edt v h e = elim (Bool-cases (length edt == d.size)) [
  | inr other ↦ let clash = rw other at e in absurd cc
  | inl size ↦
      encode-decode_by_kind d.kind edt v d h ((==_iff (length edt) d.size).0 size) (rw size at e)
]
