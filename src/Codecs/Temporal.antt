-- ===== src/Codecs/Temporal.antt =====
-- `_decode_temporal`, `_encode_temporal` and `TemporalCodec` of src/pyhems/codecs.py. The values
-- are those of Python's datetime module; a naive value has no time zone.
pub mod RoundTrips
use pyhems.Codecs.Numbers.{ℤ, pos, negsuc}
use pyhems.Codecs.Definitions.{
  TemporalKind, date_kind, clock_kind, duration_kind, datetime_kind, TemporalDefinition, EnumValue,
}
use pyhems.Common.{
  ltb, leb, ◌==◌, if◌then◌else◌, length, take, int_to_bytes, value_error, type_error, Result, ok,
  raised, ◌>>=◌, ℕ_key, same_list, list_key, ℕ, ◌+◌, ◌-◌, ◌*◌, ◌/◌, ◌%◌, Bool, true, false, not,
  ◌&&◌, ◌||◌, Option, none, some, List, [], ◌∷◌, ◌++◌,
}

pub record Date : Type 0 where
  pub year : ℕ
  pub month : ℕ
  pub day : ℕ

-- A time of the day; `fold` and `aware` are the fold attribute and whether a time zone is set.
pub record Clock : Type 0 where
  pub hour : ℕ
  pub minute : ℕ
  pub second : ℕ
  pub microsecond : ℕ
  pub fold : Bool
  pub aware : Bool

-- A timedelta, with its `seconds` below 86400.
pub record Delta : Type 0 where
  pub days : ℤ
  pub seconds : ℕ
  pub microseconds : ℕ

pub data TemporalValue : Type 0 where
  date_value : Date → TemporalValue
  datetime_value : Date → Clock → TemporalValue
  time_value : Clock → TemporalValue
  timedelta_value : Delta → TemporalValue

is_leap : ℕ → Bool
is_leap year = year % 4 == 0 && (not (year % 100 == 0) || year % 400 == 0)

days_in_month : ℕ → ℕ → ℕ
unfolding is_leap
days_in_month year month =
    if month == 2
    then (if is_leap year then 29 else 28)
    else if month == 4 || (month == 6 || (month == 9 || month == 11))
    then 30
    else 31

-- datetime.date(year, month, day) raises no ValueError
unfoldable pub is_date : ℕ → ℕ → ℕ → Bool
unfolding days_in_month
is_date year month day =
    leb 1 year
    && (leb year 9999
        && (leb 1 month && (leb month 12 && (leb 1 day && leb day (days_in_month year month)))))

-- datetime.time(hour, minute, second) raises no ValueError
unfoldable pub is_time : ℕ → ℕ → ℕ → Bool
is_time hour minute second = ltb hour 24 && (ltb minute 60 && ltb second 60)

abbrev pub naive : ℕ → ℕ → ℕ → Clock
naive hour minute second = record {
  hour = hour;
  minute = minute;
  second = second;
  microsecond = 0;
  fold = false;
  aware = false;
}

pub date_of : ℕ → ℕ → ℕ → Option TemporalValue
unfolding is_date
date_of year month day =
    if is_date year month day
    then some (date_value (record { year = year; month = month; day = day }))
    else none

unfoldable pub datetime_of : ℕ → ℕ → ℕ → ℕ → ℕ → ℕ → Option TemporalValue
unfolding is_date is_time
datetime_of year month day hour minute second =
    if is_date year month day && is_time hour minute second
    then some (
        datetime_value (record { year = year; month = month; day = day })
          (naive hour minute second))
    else none

-- timedelta(hours=hour, minutes=minute, seconds=second)
delta_of : ℕ → ℕ → ℕ → Delta
delta_of hour minute second =
    let total = hour * 3600 + minute * 60 + second in
    record { days = pos (total / 86400); seconds = total % 86400; microseconds = 0 }

unfoldable pub hours_value : TemporalKind → ℕ → ℕ → ℕ → Option TemporalValue
unfolding is_time delta_of
hours_value clock_kind hour minute second =
    if is_time hour minute second then some (time_value (naive hour minute second)) else none
hours_value _ hour minute second = some (timedelta_value (delta_of hour minute second))

unfoldable pub clock_or_duration : TemporalKind → ℕ → ℕ → ℕ → ℕ → Option TemporalValue
unfolding hours_value
clock_or_duration kind maximum_hour hour minute second =
    if ltb maximum_hour hour || (ltb 59 minute || ltb 59 second)
    then none
    else hours_value kind hour minute second

-- The bytes by position; the value has the size of the definition.
pub decode_date : List ℕ → Option TemporalValue
unfolding date_of
decode_date (a ∷ b ∷ month ∷ day ∷ []) = date_of (a * 256 + b) month day
decode_date _ = none

unfoldable pub decode_datetime : List ℕ → Option TemporalValue
unfolding datetime_of
decode_datetime (a ∷ b ∷ month ∷ day ∷ hour ∷ minute ∷ []) =
    datetime_of (a * 256 + b) month day hour minute 0
decode_datetime (a ∷ b ∷ month ∷ day ∷ hour ∷ minute ∷ second ∷ []) =
    datetime_of (a * 256 + b) month day hour minute second
decode_datetime _ = none

unfoldable pub decode_hours : TemporalKind → ℕ → List ℕ → Option TemporalValue
unfolding clock_or_duration
decode_hours kind m (hour ∷ minute ∷ []) = clock_or_duration kind m hour minute 0
decode_hours kind m (hour ∷ minute ∷ second ∷ []) = clock_or_duration kind m hour minute second
decode_hours kind m _ = none

unfoldable pub decode_by_kind : TemporalKind → ℕ → List ℕ → Option TemporalValue
unfolding decode_date decode_datetime decode_hours
decode_by_kind date_kind m edt = decode_date edt
decode_by_kind datetime_kind m edt = decode_datetime edt
decode_by_kind clock_kind m edt = decode_hours clock_kind m edt
decode_by_kind duration_kind m edt = decode_hours duration_kind m edt

-- _decode_temporal
unfoldable pub decode_temporal : TemporalDefinition → List ℕ → Option TemporalValue
unfolding decode_by_kind
decode_temporal d edt =
    if length edt == d.size then decode_by_kind d.kind d.maximum_hour edt else none

all_below_256 : List ℕ → Bool
all_below_256 [] = true
all_below_256 (n ∷ ns) = ltb n 256 && all_below_256 ns

-- bytes(ns)
pub bytes_of : List ℕ → Result (List ℕ)
unfolding all_below_256
bytes_of ns = if all_below_256 ns then ok ns else raised value_error

is_exact : Clock → Bool
is_exact t = not (t.aware || (t.fold || not (t.microsecond == 0)))

pub encode_date : Date → Result (List ℕ)
unfolding bytes_of
encode_date x =
    int_to_bytes 2 x.year >>= λ year. bytes_of (x.month ∷ x.day ∷ []) >>= λ rest. ok (year ++ rest)

pub encode_datetime : ℕ → Date → Clock → Result (List ℕ)
unfolding bytes_of is_exact
encode_datetime size x t =
    if not (is_exact t)
    then raised value_error
    else if size == 6 && not (t.second == 0)
    then raised value_error
    else int_to_bytes 2 x.year >>= λ year.
        bytes_of (x.month ∷ x.day ∷ t.hour ∷ t.minute ∷ t.second ∷ []) >>= λ rest.
        ok (take size (year ++ rest))

-- The checks and bytes that clocks and durations share.
pub encode_hours : TemporalDefinition → ℕ → ℕ → ℕ → Result (List ℕ)
unfolding bytes_of
encode_hours d hour minute second =
    if ltb d.maximum_hour hour
    then raised value_error
    else if d.size == 2 && not (second == 0)
    then raised value_error
    else bytes_of (hour ∷ minute ∷ second ∷ []) >>= λ bs. ok (take d.size bs)

pub encode_clock : TemporalDefinition → Clock → Result (List ℕ)
unfolding is_exact encode_hours
encode_clock d t =
    if is_exact t then encode_hours d t.hour t.minute t.second else raised value_error

pub encode_days : TemporalDefinition → ℤ → ℕ → ℕ → Result (List ℕ)
unfolding encode_hours
encode_days d (negsuc n) s microseconds = raised value_error
encode_days d (pos n) s microseconds =
    let seconds = n * 86400 + s in
    if microseconds == 0
    then encode_hours d (seconds / 3600) (seconds % 3600 / 60) (seconds % 3600 % 60)
    else raised value_error

pub encode_delta : TemporalDefinition → Delta → Result (List ℕ)
unfolding encode_days
encode_delta d x = encode_days d x.days x.seconds x.microseconds

pub encode_by_kind : TemporalDefinition → TemporalKind → TemporalValue → Result (List ℕ)
unfolding encode_date encode_datetime encode_clock encode_delta
encode_by_kind d date_kind (date_value x) = encode_date x
encode_by_kind d datetime_kind (datetime_value x t) = encode_datetime d.size x t
encode_by_kind d clock_kind (time_value t) = encode_clock d t
encode_by_kind d duration_kind (timedelta_value x) = encode_delta d x
encode_by_kind d _ _ = raised value_error

-- _encode_temporal, of a value of the datetime module
pub encode_temporal : TemporalDefinition → TemporalValue → Result (List ℕ)
unfolding encode_by_kind
encode_temporal d v = encode_by_kind d d.kind v

pub record TemporalCodec : Type 0 where
  pub temporal : TemporalDefinition
  pub states : List EnumValue

-- A state's key or a temporal value.
pub data StateOrTime : Type 0 where
  state_key : List ℕ → StateOrTime
  moment : TemporalValue → StateOrTime

-- The first state whose bytes are the value's.
pub state_of_edt : ℕ → List ℕ → List EnumValue → Result (Option (List ℕ))
unfolding same_list
state_of_edt size edt [] = ok none
state_of_edt size edt (v ∷ vs) =
    let rest = state_of_edt size edt vs in
    int_to_bytes size v.edt >>= λ bs. if same_list edt bs then ok (some v.key) else rest

pub moment_of : Option TemporalValue → Option StateOrTime
moment_of none = none
moment_of (some v) = some (moment v)

pub state_or_time : Option (List ℕ) → Option TemporalValue → Option StateOrTime
unfolding moment_of
state_or_time (some key) o = some (state_key key)
state_or_time none o = moment_of o

-- TemporalCodec.decode
unfoldable pub decode_state_or_time : TemporalCodec → List ℕ → Result (Option StateOrTime)
unfolding state_of_edt state_or_time decode_temporal
decode_state_or_time c edt =
    if length edt == c.temporal.size
    then state_of_edt c.temporal.size edt c.states
      >>= (λ key. ok (state_or_time key (decode_temporal c.temporal edt)))
    else ok (moment_of (decode_temporal c.temporal edt))

-- The bytes of the first state with the key.
pub edt_of_state : ℕ → List ℕ → List EnumValue → Result (List ℕ)
unfolding same_list
edt_of_state size key [] = raised value_error
edt_of_state size key (v ∷ vs) =
    let rest = edt_of_state size key vs in
    if same_list v.key key then int_to_bytes size v.edt else rest

-- TemporalCodec.encode
unfoldable pub encode_state_or_time : TemporalCodec → StateOrTime → Result (List ℕ)
unfolding edt_of_state encode_temporal
encode_state_or_time c (state_key key) = edt_of_state c.temporal.size key c.states
encode_state_or_time c (moment v) = encode_temporal c.temporal v

is_duration : TemporalKind → Bool
is_duration duration_kind = true
is_duration _ = false

-- TemporalCodec.resolution, in seconds
pub resolution : TemporalDefinition → ℕ
resolution d = elim d.kind [ date_kind ↦ 86400 | _ ↦ if d.size == 2 || d.size == 6 then 60 else 1 ]

-- TemporalCodec.maximum_duration, in seconds
unfoldable pub maximum_duration : TemporalDefinition → Result ℕ
unfolding is_duration resolution
maximum_duration d =
    if is_duration d.kind
    then ok ((d.maximum_hour + 1) * 3600 - resolution d)
    else raised type_error
