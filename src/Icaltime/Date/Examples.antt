-- ===== src/Icaltime/Date/Examples.antt =====
-- Dates and times at concrete texts.
use runtime_go.Prelude.{◌≡◌, refl, ◌↔◌, Bool, ◌++◌, arith, Bytes, codes}
use runtime_go.Prelude.Outcome.{ok, err}
use runtime_go.ContentLine.Text.{trim_space, trim_left, trim_right, cut_byte}
use runtime_go.ContentLine.Line.{escape_param, to_upper, is_multi_valued}
use runtime_go.ContentLine.Line.RoundTrip.{IsPropertyName}
use runtime_go.Icaltime.Decimal.{all_digits, parse_int, value_from}
use runtime_go.Icaltime.Date.{
  Date, DateTime, CalendarTime, at_time, utc_offset, no_offset, zone, bad_day, digits, days_in,
  parse_date, date_of, check_date, parse_date_time, strip_z, parse_date_time_parts, parse_time,
  time_of, check_time, encode_date, encode_clock,
}
use runtime_go.Icaltime.Date.RoundTrip.{IsDate, parse_date_iff}
use runtime_go.Icaltime.Date.Clock.{IsDateTime, offset_of, suffix_of, parse_date_time-ok}
use runtime_go.Icaltime.Date.Property.{
  ReadsBack, time_property, read_of, IsWhole, decode_time-encode_time,
}

abbrev leap_day : Date
leap_day = record { year = 2024; month = 2; day = 29 }

leap_day-IsDate : IsDate leap_day
unfolding days_in
leap_day-IsDate = omega arith

no_such_day : parse_date (codes "20230229") ≡ err bad_day
unfolding parse_date date_of check_date days_in digits all_digits parse_int value_from
no_such_day = refl

parse_date_iff_example :
    parse_date (codes "20240229") ≡ ok leap_day
    ↔ (IsDate leap_day × (codes "20240229" ≡ encode_date leap_day))
parse_date_iff_example = parse_date_iff (codes "20240229") leap_day

abbrev new_year : DateTime
new_year = record {
  date = record { year = 1998; month = 12; day = 31 };
  hours = 23;
  minutes = 59;
  seconds = 60;
  nanos = 0;
  offset = utc_offset no_offset;
}

leap_second : parse_date_time (codes "19981231T235960Z") ≡ ok new_year
unfolding parse_date_time parse_date_time_parts strip_z cut_byte parse_time time_of check_time
    parse_date date_of check_date days_in digits all_digits parse_int value_from
leap_second = refl

parse_date_time-ok_example :
    (is_utc : Bool) × IsDateTime new_year
    × (new_year.offset ≡ offset_of is_utc)
    × (codes "19981231T235960Z" ≡ encode_clock new_year ++ suffix_of is_utc)
parse_date_time-ok_example = parse_date_time-ok (codes "19981231T235960Z") new_year leap_second

abbrev no_unicode : Bytes → Bytes
no_unicode s = s

abbrev meeting : CalendarTime
meeting =
    at_time (record new_year { seconds = 0; offset = zone (codes "Europe/Berlin") (codes "2026a") })

start_name : IsPropertyName (codes "DTSTART")
start_name = record {
  no_backslash = omega arith;
  no_quote = omega arith;
  no_colon = omega arith;
  no_semicolon = omega arith;
  no_dot = omega arith;
  nonempty = λ e. cc;
}

decode_time-encode_time_example :
    ReadsBack no_unicode (time_property no_unicode (codes "DTSTART") meeting) (read_of meeting)
    × ((read_of meeting ≡ meeting) ↔ IsWhole meeting)
unfolding trim_space trim_left trim_right to_upper is_multi_valued escape_param days_in
decode_time-encode_time_example =
    decode_time-encode_time no_unicode (codes "DTSTART") meeting start_name (
      record {
        date = omega arith;
        hours = omega arith;
        minutes = omega arith;
        seconds = omega arith;
      },
      (
        refl,
        record {
          key = record {
            no_backslash = omega arith;
            no_quote = omega arith;
            no_colon = omega arith;
            no_semicolon = omega arith;
            no_equals = omega arith;
            trimmed = refl;
          };
          value = record { no_backslash = omega arith; trimmed = refl; nonempty = λ e. cc };
          single = refl;
        },
      ),
    )
