-- ===== src/Icaltime/Duration/Run.antt =====
-- How the loop of ParseDuration walks over what EncodeDuration writes.
use runtime_go.Prelude.{
  ℕ, ◌+◌, ◌*◌, ◌%◌, ◌≤◌, ◌<◌, ◌≡◌, ◌≢◌, refl, ◌∙◌, ◌⊎◌, Bool, true, false, [], ◌∷◌, ◌++◌, arith,
  some, ◌==◌, if◌then◌else◌, Bytes, append-nil, append_assoc,
}
use runtime_go.Icaltime.Decimal.{decimal, is_digit, all_digits, parse_int}
use runtime_go.Icaltime.Decimal.Laws.{all_digits-decimal, parse_int-decimal}
use runtime_go.Icaltime.Duration.{
  Progress, word, int_bound, unit_of, add_unit, take_unit, take_t, step, run, part, unit_hour,
  unit_minute, unit_second, unit_day, unit_time, unit_week, is_empty,
}

-- Digits are gathered.
pub run-digits :
    (p : Progress) (t s : Bytes)
    → all_digits t ≡ true
    → run p (t ++ s) ≡ run (record p { num = p.num ++ t }) s
unfolding run step all_digits is_digit
run-digits p [] s h = rw append-nil
run-digits p (c ∷ t) s h =
    ground
      (arith, run-digits (record p { num = p.num ++ c ∷ [] }) t s, append_assoc p.num (c ∷ []) t)

-- The scale of a unit.
abbrev pub scale : ℕ → ℕ
scale unit =
    if unit == unit_day
    then 86400
    else if unit == unit_hour
    then 3600
    else if unit == unit_minute
    then 60
    else 1

-- The letters that EncodeDuration writes, and where they are allowed.
abbrev pub Allowed : ℕ → ℕ → Progress → Type 0
Allowed letter unit p =
    ((letter ≡ b'D') × (unit ≡ unit_day))
    ⊎ ((letter ≡ b'H') × (unit ≡ unit_hour) × (p.in_time ≡ true))
    ⊎ ((letter ≡ b'M') × (unit ≡ unit_minute) × (p.in_time ≡ true))
    ⊎ ((letter ≡ b'S') × (unit ≡ unit_second) × (p.in_time ≡ true))

pub run-unit :
    (letter unit n : ℕ) (p : Progress) (s : Bytes)
    → Allowed letter unit p
    → p.last < unit
    → parse_int int_bound p.num ≡ some n
    → run p (letter ∷ s)
      ≡ run
          (record p {
            secs = (p.secs + n * scale unit) % word;
            last = unit;
            components = p.components + 1;
            num = [];
          })
          s
unfolding run step take_unit unit_of add_unit is_digit
run-unit letter unit n p s a l e = ground arith

-- The variables of the loop behind one component, if it is there.
unfoldable pub after : Bool → ℕ → ℕ → Progress → Progress
after printed n unit p =
    if printed
    then record p {
      secs = (p.secs + n * scale unit) % word;
      last = unit;
      components = p.components + 1;
      num = [];
    }
    else p

pub run-part :
    (printed : Bool) (letter unit n : ℕ) (p : Progress) (s : Bytes)
    → Allowed letter unit p
    → p.last < unit
    → p.num ≡ []
    → n < int_bound
    → run p (part printed n letter ++ s) ≡ run (after printed n unit p) s
unfolding part after
run-part false letter unit n p s a l e b = refl
run-part true letter unit n p s a l e b = rw (append_assoc (decimal n) (letter ∷ []) s) (
    run-digits p (decimal n) (letter ∷ s) (all_digits-decimal n)
    ∙ run-unit letter unit n (record p { num = p.num ++ decimal n }) s a l
        (rw e (parse_int-decimal int_bound n b)))

-- The T in front of the time part.
pub run-t :
    (p : Progress) (s : Bytes)
    → p.in_time ≡ false
    → p.num ≡ []
    → p.last ≢ unit_week
    → run p (b'T' ∷ s) ≡ run (record p { in_time = true; last = unit_time }) s
unfolding run step take_t is_empty
run-t p s a b c = ground arith

module _ (printed : Bool) (n unit : ℕ) (p : Progress) where
  pub in_time-after : (after printed n unit p).in_time ≡ p.in_time
  unfolding after
  in_time-after = ground arith

  pub num-after : p.num ≡ [] → (after printed n unit p).num ≡ []
  unfolding after
  num-after h = ground arith

  pub last-after : p.last ≤ unit → (after printed n unit p).last ≤ unit
  unfolding after
  last-after h = ground arith
