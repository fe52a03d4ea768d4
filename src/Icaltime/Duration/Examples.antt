-- ===== src/Icaltime/Duration/Examples.antt =====
-- Durations at concrete texts.
use runtime_go.Prelude.{ℕ, ◌≡◌, refl, ◌-◌, ◌∷◌, arith, Bytes, codes}
use runtime_go.Prelude.Outcome.{ok, err}
use runtime_go.ContentLine.Text.{trim_space, trim_left, trim_right}
use runtime_go.Icaltime.Decimal.{decimal, decimal_from, is_digit, parse_int, value_from}
use runtime_go.Icaltime.Duration.{
  word, misordered, parse_duration, encode_duration, magnitude_text, part, time_text, strip_prefix,
  behind_p, run, step, take_t, take_unit, unit_of, add_unit, is_empty, finish,
}
use runtime_go.Icaltime.Duration.RoundTrip.{parse_duration-encode_duration}
use runtime_go.Icaltime.Duration.Order.{units, Rising, parse_duration-Rising}
use runtime_go.Icaltime.Duration.Weeks.{weeks_and_days, parse_duration-weeks_and_days}

-- A minute and a half before, as an int64.
abbrev before : ℕ
before = word - 90

encode_before : encode_duration before 0 ≡ ok (codes "-PT1M30S")
unfolding encode_duration magnitude_text part time_text decimal decimal_from
encode_before = refl

read_two_days : parse_duration (codes "P2DT3H") ≡ ok 183600
unfolding parse_duration strip_prefix behind_p run step take_t take_unit unit_of add_unit is_empty
    finish trim_space trim_left trim_right is_digit parse_int value_from
read_two_days = refl

both_signs : parse_duration (codes "-+PT1S") ≡ ok (word - 1)
unfolding parse_duration strip_prefix behind_p run step take_t take_unit unit_of add_unit is_empty
    finish trim_space trim_left trim_right is_digit parse_int value_from
both_signs = refl

twice_a_day : parse_duration (codes "P1D1D") ≡ err misordered
unfolding parse_duration strip_prefix behind_p run step take_t take_unit unit_of add_unit is_empty
    finish trim_space trim_left trim_right is_digit parse_int value_from
twice_a_day = refl

parse_duration-encode_duration_example : parse_duration (codes "-PT1M30S") ≡ ok before
parse_duration-encode_duration_example =
    parse_duration-encode_duration before (codes "-PT1M30S") (omega arith) (omega arith)
      encode_before

parse_duration-Rising_example :
    (t : Bytes) × ((strip_prefix b'+' (strip_prefix b'-' (trim_space (codes "P2DT3H"))).1).1
      ≡ b'P' ∷ t)
    × Rising 0 (units t)
parse_duration-Rising_example = parse_duration-Rising (codes "P2DT3H") 183600 read_two_days

parse_duration-weeks_and_days_example : parse_duration (weeks_and_days 1 1) ≡ ok 691200
parse_duration-weeks_and_days_example =
    parse_duration-weeks_and_days 1 1 (omega arith) (omega arith)
