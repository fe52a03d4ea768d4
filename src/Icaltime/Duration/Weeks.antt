-- ===== src/Icaltime/Duration/Weeks.antt =====
-- Weeks in front of days: RFC 5545 section 3.3.6 lets weeks stand alone only.
use runtime_go.Prelude.{
  ℕ, ◌+◌, ◌*◌, ◌%◌, ◌<◌, ◌≡◌, refl, ap, ◌∙◌, inl, false, [], ◌∷◌, ◌++◌, arith, some, Bytes,
}
use runtime_go.Prelude.Outcome.{ok}
use runtime_go.ContentLine.Text.Trim.{Ends-append, trim_space_plain}
use runtime_go.Icaltime.Decimal.{decimal, is_digit, parse_int}
use runtime_go.Icaltime.Decimal.Laws.{all_digits-decimal, parse_int-decimal}
use runtime_go.Icaltime.Duration.{
  Progress, word, int_bound, unit_of, add_unit, take_unit, step, run, start, finish, behind_p,
  parse_duration, strip_prefix, is_empty, unit_week, unit_day,
}
use runtime_go.Icaltime.Duration.Run.{run-digits, run-unit}

run-week :
    (w : ℕ) (p : Progress) (s : Bytes)
    → p.components ≡ 0
    → p.last ≡ 0
    → parse_int int_bound p.num ≡ some w
    → run p (b'W' ∷ s)
      ≡ run
          (record p {
            secs = (p.secs + w * 604800) % word;
            last = unit_week;
            components = p.components + 1;
            num = [];
          })
          s
unfolding run step take_unit unit_of add_unit is_digit
run-week w p s c l e = ground arith

abbrev pub weeks_and_days : ℕ → ℕ → Bytes
weeks_and_days w d = b'P' ∷ (decimal w ++ (b'W' ∷ (decimal d ++ b'D' ∷ [])))

behind_weeks : ℕ → Progress
behind_weeks w = record {
  secs = (0 + w * 604800) % word;
  last = unit_week;
  in_time = false;
  components = 1;
  num = [];
}

run-weeks_and_days :
    (w d : ℕ)
    → w < int_bound
    → d < int_bound
    → run start (decimal w ++ (b'W' ∷ (decimal d ++ b'D' ∷ [])))
      ≡ ok (record {
        secs = ((0 + w * 604800) % word + d * 86400) % word;
        last = unit_day;
        in_time = false;
        components = 2;
        num = [];
      })
unfolding behind_weeks run
run-weeks_and_days w d bw bd =
    let days = decimal d ++ b'D' ∷ [] in
    run-digits start (decimal w) (b'W' ∷ days) (all_digits-decimal w)
    ∙ run-week w (record start { num = decimal w }) days refl refl
        (parse_int-decimal int_bound w bw)
    ∙ run-digits (behind_weeks w) (decimal d) (b'D' ∷ []) (all_digits-decimal d)
    ∙ run-unit b'D' unit_day d (record (behind_weeks w) { num = decimal d }) [] (inl (refl, refl))
        (omega arith) (parse_int-decimal int_bound d bd)

-- ParseDuration accepts weeks followed by days, for any two numbers of an int64, and adds them up.
pub parse_duration-weeks_and_days :
    (w d : ℕ)
    → w < int_bound
    → d < int_bound
    → parse_duration (weeks_and_days w d) ≡ ok ((w * 604800 + d * 86400) % word)
unfolding parse_duration strip_prefix behind_p finish is_empty
parse_duration-weeks_and_days w d bw bd =
    let days = decimal d ++ b'D' ∷ [] in
    rw
      (trim_space_plain b'P' (decimal w ++ (b'W' ∷ days)) refl (
        Ends-append (b'P' ∷ decimal w) (b'W' ∷ days)
          (Ends-append (b'W' ∷ decimal d) (b'D' ∷ []) refl)))
      (rw (run-weeks_and_days w d bw bd) (ap ok (omega arith)))
