-- ===== src/Icaltime/Duration.antt =====
-- rfc/internal/icaltime/icaltime.go, ParseDuration and EncodeDuration. A count of seconds is an
-- int64: here its bit pattern, below 2 ^ 64, and negative from 2 ^ 63 on.
pub mod Run
pub mod RoundTrip
pub mod Order
pub mod Weeks
pub mod Examples
use runtime_go.Prelude.{
  ℕ, ◌+◌, ◌-◌, ◌*◌, ◌/◌, ◌%◌, ◌^◌, Bool, true, false, not, ◌&&◌, ◌||◌, List, [], ◌∷◌, ◌++◌, Option,
  none, some, ◌==◌, ltb, leb, if◌then◌else◌, Bytes,
}
use runtime_go.Prelude.Outcome.{Result, ok, err, ◌>>=◌}
use runtime_go.ContentLine.Text.{trim_space}
use runtime_go.Icaltime.Decimal.{decimal, is_digit, parse_int}

pub data DurationError : Type 0 where
  no_prefix second_t number_before_t week_and_time unknown_unit no_number : DurationError
  misordered week_and_other outside_time number_at_end no_component empty_time : DurationError
  sub_second : DurationError

abbrev pub word : ℕ
word = 2 ^ 64

abbrev pub int_bound : ℕ
int_bound = 2 ^ 63

abbrev pub unit_none : ℕ
unit_none = 0

abbrev pub unit_week : ℕ
unit_week = 1

abbrev pub unit_day : ℕ
unit_day = 2

abbrev pub unit_time : ℕ
unit_time = 3

abbrev pub unit_hour : ℕ
unit_hour = 4

abbrev pub unit_minute : ℕ
unit_minute = 5

abbrev pub unit_second : ℕ
unit_second = 6

-- The variables of the loop of ParseDuration.
pub record Progress : Type 0 where
  pub secs : ℕ
  pub last : ℕ
  pub in_time : Bool
  pub components : ℕ
  pub num : Bytes

-- names[r]
pub unit_of : ℕ → Option ℕ
unit_of r =
    if r == b'W'
    then some unit_week
    else if r == b'D'
    then some unit_day
    else if r == b'H'
    then some unit_hour
    else if r == b'M'
    then some unit_minute
    else if r == b'S'
    then some unit_second
    else none

-- The switch over the unit, which adds `n` of it.
pub add_unit : ℕ → ℕ → Progress → Result DurationError ℕ
add_unit unit n p =
    if unit == unit_week
    then (if ltb 0 p.components
        then err week_and_other
        else ok ((p.secs + n * (7 * 24 * 3600)) % word))
    else if unit == unit_day
    then ok ((p.secs + n * (24 * 3600)) % word)
    else if not p.in_time
    then err outside_time
    else if unit == unit_hour
    then ok ((p.secs + n * 3600) % word)
    else if unit == unit_minute
    then ok ((p.secs + n * 60) % word)
    else ok ((p.secs + n) % word)

pub take_unit : Option ℕ → Option ℕ → Progress → Result DurationError Progress
take_unit none n p = err unknown_unit
take_unit (some unit) none p = err no_number
take_unit (some unit) (some n) p = if leb unit p.last then err misordered else do
  secs ← add_unit unit n p
  ok (record p { secs = secs; last = unit; components = p.components + 1; num = [] })

pub is_empty : Bytes → Bool
is_empty [] = true
is_empty (c ∷ s) = false

pub take_t : Progress → Result DurationError Progress
take_t p =
    if p.in_time
    then err second_t
    else if not (is_empty p.num)
    then err number_before_t
    else if p.last == unit_week
    then err week_and_time
    else ok (record p { in_time = true; last = unit_time })

-- The body of the loop over the text behind the P.
pub step : Progress → ℕ → Result DurationError Progress
step p r =
    if r == b'T'
    then take_t p
    else if is_digit r
    then ok (record p { num = p.num ++ r ∷ [] })
    else take_unit (unit_of r) (parse_int int_bound p.num) p

pub run : Progress → Bytes → Result DurationError Progress
run p [] = ok p
run p (r ∷ s) = do q ← step p r; run q s

abbrev pub start : Progress
start = record { secs = 0; last = unit_none; in_time = false; components = 0; num = [] }

-- What follows the loop.
pub finish : Bool → Progress → Result DurationError ℕ
finish neg p =
    if not (is_empty p.num)
    then err number_at_end
    else if p.components == 0
    then err no_component
    else if p.in_time && p.last == unit_time
    then err empty_time
    else ok (if neg then (word - p.secs) % word else p.secs)

pub behind_p : Bool → Bytes → Result DurationError ℕ
behind_p neg [] = err no_prefix
behind_p neg (c ∷ s) = if c == b'P' then (do p ← run start s; finish neg p) else err no_prefix

-- strings.TrimPrefix of one byte, and whether it was there.
pub strip_prefix : ℕ → Bytes → Bool × Bytes
strip_prefix b [] = (false, [])
strip_prefix b (c ∷ s) = if c == b then (true, s) else (false, c ∷ s)

pub parse_duration : Bytes → Result DurationError ℕ
parse_duration v =
    let (neg, s) = strip_prefix b'-' (trim_space v) in behind_p neg (strip_prefix b'+' s).1

-- One fmt.Fprintf of EncodeDuration, behind its test.
pub part : Bool → ℕ → ℕ → Bytes
part printed n unit = if printed then decimal n ++ unit ∷ [] else []

-- The time part of a rest of a day.
pub time_text : ℕ → ℕ → ℕ → Bytes
time_text h m sec =
    b'T'
    ∷ (part (ltb 0 h) h b'H'
        ++ (part (ltb 0 m) m b'M' ++ part (ltb 0 sec || h == 0 && m == 0) sec b'S'))

-- Behind the sign, for a count that is not negative.
pub magnitude_text : ℕ → Bytes
magnitude_text s =
    let days = s / 86400 in
    let rem = s % 86400 in
    let h = rem / 3600 in
    let m = rem % 3600 / 60 in
    let sec = rem % 60 in
    b'P'
    ∷ (part (ltb 0 days) days b'D'
        ++ (if ltb 0 h || ltb 0 m || ltb 0 sec || days == 0 then time_text h m sec else []))

-- -s of a negative int64; of the least one it is that again, and then every test fails.
pub encode_duration : ℕ → ℕ → Result DurationError Bytes
encode_duration seconds nanos =
    if not (nanos == 0)
    then err sub_second
    else if ltb seconds int_bound
    then ok (magnitude_text seconds)
    else if seconds == int_bound
    then ok (b'-' ∷ b'P' ∷ [])
    else ok (b'-' ∷ magnitude_text (word - seconds))
