-- ===== src/Icaltime/Date.antt =====
-- rfc/internal/icaltime/icaltime.go, ParseDate and ParseDateTime, and rfc/internal/ical/time.go,
-- decodeTime and encodeTime.
pub mod RoundTrip
pub mod Clock
pub mod Property
pub mod Examples
use runtime_go.Prelude.{
  ℕ, ◌%◌, ◌^◌, Bool, true, false, not, ◌&&◌, ◌||◌, List, [], ◌∷◌, ◌++◌, map, Option, none, some,
  ◌==◌, ltb, if◌then◌else◌, Bytes, codes, length, take, drop,
}
use runtime_go.Prelude.Outcome.{Result, ok, err, ◌>>=◌}
use runtime_go.ContentLine.Text.{cut_byte}
use runtime_go.ContentLine.Line.{Line, Params, equal, upper_byte}
use runtime_go.Icaltime.Decimal.{pad, all_digits, parse_int}

-- The fields of google.type.Date and DateTime are never negative.
pub record Date : Type 0 where
  pub year : ℕ
  pub month : ℕ
  pub day : ℕ

-- The duration of a UTC offset, as bit patterns.
pub record UtcOffset : Type 0 where
  pub offset_seconds : ℕ
  pub offset_nanos : ℕ

abbrev pub no_offset : UtcOffset
no_offset = record { offset_seconds = 0; offset_nanos = 0 }

-- DateTime.time_offset: unset, a UTC offset, or a zone's name and version.
pub data TimeOffset : Type 0 where
  floating : TimeOffset
  utc_offset : UtcOffset → TimeOffset
  zone : Bytes → Bytes → TimeOffset

pub record DateTime : Type 0 where
  pub date : Date
  pub hours : ℕ
  pub minutes : ℕ
  pub seconds : ℕ
  pub nanos : ℕ
  pub offset : TimeOffset

pub data CalendarTime : Type 0 where
  all_day : Date → CalendarTime
  at_time : DateTime → CalendarTime

pub data TimeError : Type 0 where
  bad_width not_numeric bad_year bad_month bad_day no_time : TimeError
  bad_time_width bad_hour bad_minute bad_second : TimeError

pub digits : Bytes → Option ℕ
digits v = if all_digits v then parse_int (2 ^ 31) v else none

pub days_in : ℕ → ℕ → ℕ
days_in year month =
    if month == 1
      || month == 3
      || month == 5
      || month == 7
      || month == 8
      || month == 10
      || month == 12
    then 31
    else if month == 4 || month == 6 || month == 9 || month == 11
    then 30
    else if month == 2
    then (if year % 4 == 0 && (not (year % 100 == 0) || year % 400 == 0) then 29 else 28)
    else 0

-- The range checks of ParseDate.
pub check_date : ℕ → ℕ → ℕ → Result TimeError Date
unfolding days_in
check_date y m d =
    if ltb y 1
    then err bad_year
    else if ltb m 1 || ltb 12 m
    then err bad_month
    else if ltb d 1 || ltb (days_in y m) d
    then err bad_day
    else ok (record { year = y; month = m; day = d })

pub date_of : Option ℕ → Option ℕ → Option ℕ → Result TimeError Date
date_of (some y) (some m) (some d) = check_date y m d
date_of _ _ _ = err not_numeric

pub parse_date : Bytes → Result TimeError Date
parse_date v =
    if not (length v == 8)
    then err bad_width
    else date_of (digits (take 4 v)) (digits (take 2 (drop 4 v))) (digits (take 2 (drop 6 v)))

-- strings.HasSuffix and TrimSuffix at "Z".
pub strip_z : Bytes → Bool × Bytes
strip_z [] = (false, [])
strip_z (c ∷ []) = if c == b'Z' then (true, []) else (false, c ∷ [])
strip_z (c ∷ d ∷ s) = let (found, rest) = strip_z (d ∷ s) in (found, c ∷ rest)

-- The range checks of ParseDateTime.
pub check_time : Bool → Date → ℕ → ℕ → ℕ → Result TimeError DateTime
check_time is_utc date h mi sec =
    if ltb 23 h
    then err bad_hour
    else if ltb 59 mi
    then err bad_minute
    else if ltb 60 sec
    then err bad_second
    else ok (record {
      date = date;
      hours = h;
      minutes = mi;
      seconds = sec;
      nanos = 0;
      offset = if is_utc then utc_offset no_offset else floating;
    })

pub time_of : Bool → Date → Option ℕ → Option ℕ → Option ℕ → Result TimeError DateTime
time_of is_utc date (some h) (some mi) (some sec) = check_time is_utc date h mi sec
time_of is_utc date _ _ _ = err not_numeric

pub parse_time : Bool → Bytes → Date → Result TimeError DateTime
parse_time is_utc t date =
    if not (length t == 6)
    then err bad_time_width
    else time_of is_utc date (digits (take 2 t)) (digits (take 2 (drop 2 t)))
        (digits (take 2 (drop 4 t)))

pub parse_date_time_parts : Bool → Option (Bytes × Bytes) → Result TimeError DateTime
parse_date_time_parts is_utc none = err no_time
parse_date_time_parts is_utc (some (d, t)) = do date ← parse_date d; parse_time is_utc t date

pub parse_date_time : Bytes → Result TimeError DateTime
parse_date_time v =
    let (is_utc, rest) = strip_z v in parse_date_time_parts is_utc (cut_byte b'T' rest)

-- l.Params[name]
pub lookup : Params → Bytes → List Bytes
lookup [] name = []
lookup ((k, vs) ∷ ps) name = if equal k name then vs else lookup ps name

-- strings.EqualFold against a text whose letters fold within ASCII.
unfoldable pub equal_fold : Bytes → Bytes → Bool
equal_fold s t = equal (map upper_byte s) (map upper_byte t)

pub contains_byte : ℕ → Bytes → Bool
contains_byte b [] = false
contains_byte b (c ∷ s) = c == b || contains_byte b s

pub says_date : List Bytes → Bool
says_date [] = false
says_date (v ∷ vs) = equal_fold v (codes "DATE")

pub with_zone : DateTime → List Bytes → DateTime
with_zone dt [] = dt
with_zone dt (tz ∷ _) = record dt { offset = zone tz [] }

pub decode_time : Line → Result TimeError CalendarTime
decode_time l =
    if says_date (lookup l.params (codes "VALUE"))
    then (do d ← parse_date l.value; ok (all_day d))
    else if length l.value == 8 && not (contains_byte b'T' l.value)
    then (do d ← parse_date l.value; ok (all_day d))
    else do
      dt ← parse_date_time l.value
      ok (at_time (with_zone dt (lookup l.params (codes "TZID"))))

pub encode_date : Date → Bytes
encode_date d = pad 4 d.year ++ (pad 2 d.month ++ pad 2 d.day)

pub encode_clock : DateTime → Bytes
encode_clock dt =
    encode_date dt.date ++ (b'T' ∷ (pad 2 dt.hours ++ (pad 2 dt.minutes ++ pad 2 dt.seconds)))

-- The suffix and the parameter text that an offset adds.
pub encode_offset : TimeOffset → Bytes × Bytes
encode_offset floating = ([], [])
encode_offset (utc_offset _) = (b'Z' ∷ [], [])
encode_offset (zone id _) = ([], codes ";TZID=" ++ id)

-- The value, and the parameters as they are written.
pub encode_time : CalendarTime → Bytes × Bytes
encode_time (all_day d) = (encode_date d, codes ";VALUE=DATE")
encode_time (at_time dt) =
    let (suffix, params) = encode_offset dt.offset in (encode_clock dt ++ suffix, params)
