-- ===== src/Examples/Times.antt =====
-- Temporal values at concrete inputs (src/pyhems/codecs.py).
use pyhems.Codecs.Numbers.{pos}
use pyhems.Codecs.Definitions.{TemporalDefinition, duration_kind, datetime_kind}
use pyhems.Codecs.Temporal.{
  TemporalValue, timedelta_value, decode_temporal, decode_by_kind, decode_hours, decode_datetime,
  clock_or_duration, hours_value, datetime_of, is_date, is_time, encode_temporal,
}
use pyhems.Codecs.Temporal.RoundTrips.{encode_temporal-decode_temporal}
use pyhems.Common.{ok, ℕ_key, list_key, ◌≡◌, refl, none, some, [], ◌∷◌, arith}

-- A reservation up to 99 hours.
abbrev reservation : TemporalDefinition
reservation = record { kind = duration_kind; size = 2; maximum_hour = 99 }

abbrev thirty_hours : TemporalValue
thirty_hours = timedelta_value (record { days = pos 1; seconds = 22200; microseconds = 0 })

decode_temporal_test : decode_temporal reservation (30 ∷ 10 ∷ []) ≡ some thirty_hours
unfolding decode_temporal decode_by_kind decode_hours clock_or_duration hours_value
decode_temporal_test = refl

encode_temporal-decode_temporal_example :
    encode_temporal reservation thirty_hours ≡ ok (30 ∷ 10 ∷ [])
encode_temporal-decode_temporal_example =
    encode_temporal-decode_temporal reservation (30 ∷ 10 ∷ []) thirty_hours
      (omega arith, (omega arith, tt)) decode_temporal_test

-- The last day of February in a leap year, and the day after it in no month.
decode_date_test :
    decode_temporal
      (record { kind = datetime_kind; size = 6; maximum_hour = 23 })
      (7 ∷ 232 ∷ 2 ∷ 30 ∷ 12 ∷ 0 ∷ [])
    ≡ none
unfolding decode_temporal decode_by_kind decode_datetime datetime_of is_date is_time
decode_date_test = refl
