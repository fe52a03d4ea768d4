-- ===== src/Icaltime/Date/RoundTrip.antt =====
-- ParseDate and ParseDateTime against encodeTime: which texts they accept, and what they read.
use runtime_go.Prelude.{
  ℕ, suc, ◌+◌, ◌/◌, ◌%◌, ◌≤◌, ◌<◌, ◌≡◌, refl, ◌↔◌, [], ◌∷◌, ◌++◌, arith, Option, none, some, Bytes,
  length,
}
use runtime_go.Prelude.Outcome.{ok}
use runtime_go.Icaltime.Decimal.{all_digits, value_from, parse_int}
use runtime_go.Icaltime.Decimal.Laws.{pad-two, pad-four}
use runtime_go.Icaltime.Date.{Date, digits, days_in, check_date, date_of, parse_date, encode_date}

-- A date of the Gregorian calendar that four digits of year can write.
pub record IsDate (d : Date) : Type 0 where
  pub year_low : 1 ≤ d.year
  pub year_high : d.year ≤ 9999
  pub month_low : 1 ≤ d.month
  pub month_high : d.month ≤ 12
  pub day_low : 1 ≤ d.day
  pub day_high : d.day ≤ days_in d.year d.month

pub days_in-le : (y m : ℕ) → days_in y m ≤ 31
unfolding days_in
days_in-le y m = ground arith

check_date-ok :
    (y m d : ℕ) (date : Date)
    → y ≤ 9999
    → check_date y m d ≡ ok date
    → (date ≡ record { year = y; month = m; day = d }) × IsDate date
unfolding check_date
check_date-ok y m d date h e = ground arith

check_date-IsDate : (d : Date) → IsDate d → check_date d.year d.month d.day ≡ ok d
unfolding check_date
check_date-IsDate d h = ground arith

abbrev pub two : ℕ → Bytes
two n = (b'0' + n / 10) ∷ (b'0' + n % 10) ∷ []

abbrev pub four : ℕ → Bytes
four n =
    (b'0' + n / 10 / 10 / 10)
    ∷ (b'0' + n / 10 / 10 % 10)
    ∷ (b'0' + n / 10 % 10)
    ∷ (b'0' + n % 10)
    ∷ []

pub two-digits : (a b : ℕ) {n : ℕ} → digits (a ∷ b ∷ []) ≡ some n → (n < 100) × (a ∷ b ∷ [] ≡ two n)
unfolding digits all_digits parse_int value_from
two-digits a b h = ground arith

pub digits-two : (n : ℕ) → n < 100 → digits (two n) ≡ some n
unfolding digits all_digits parse_int value_from
digits-two n h = ground arith

four-digits :
    (a b c d : ℕ) {n : ℕ}
    → digits (a ∷ b ∷ c ∷ d ∷ []) ≡ some n
    → (n ≤ 9999) × (a ∷ b ∷ c ∷ d ∷ [] ≡ four n)
unfolding digits all_digits parse_int value_from
four-digits a b c d h = ground arith

digits-four : (n : ℕ) → n ≤ 9999 → digits (four n) ≡ some n
unfolding digits all_digits parse_int value_from
digits-four n h = ground arith

date_of-ok :
    (y m d : Option ℕ) (date : Date)
    → date_of y m d ≡ ok date
    → (j k l : ℕ) × (y ≡ some j) × (m ≡ some k) × (d ≡ some l) × (check_date j k l ≡ ok date)
unfolding date_of
date_of-ok (some y) (some m) (some d) date h = (y, m, d, refl, refl, refl, h)
date_of-ok none m d date h = cc
date_of-ok (some y) none d date h = cc
date_of-ok (some y) (some m) none date h = cc

pub uncons :
    (v : Bytes) (n : ℕ) → length v ≡ suc n → (c : ℕ) × (t : Bytes) × (v ≡ c ∷ t) × (length t ≡ n)
uncons [] n h = absurd (omega arith)
uncons (c ∷ t) n h = (c, t, refl, omega arith)

pub encode_date_lem :
    (d : Date) → IsDate d → encode_date d ≡ four d.year ++ (two d.month ++ two d.day)
unfolding encode_date
encode_date_lem d h = rw (pad-four d.year (omega (arith, h.year_high))) (
    rw (pad-two d.month (omega (arith, h.month_high)))
      (rw (pad-two d.day (omega (arith, h.day_high, days_in-le d.year d.month))) refl))

eight_digits :
    (a b c d e f g h : ℕ) (date : Date)
    → date_of (digits (a ∷ b ∷ c ∷ d ∷ [])) (digits (e ∷ f ∷ [])) (digits (g ∷ h ∷ [])) ≡ ok date
    → IsDate date × (a ∷ b ∷ c ∷ d ∷ e ∷ f ∷ g ∷ h ∷ [] ≡ encode_date date)
eight_digits a b c d e f g h date r =
    let (y, m, l, dy, dm, dd, r') = date_of-ok (digits (a ∷ b ∷ c ∷ d ∷ [])) _ _ date r in
    let (hy, ey) = four-digits a b c d dy in
    let (hm, em) = two-digits e f dm in
    let (hd, ed) = two-digits g h dd in
    let (same, valid) = check_date-ok y m l date hy r' in
    (valid, rw (encode_date_lem date valid) (rw same (ground arith)))

eight_bytes :
    (v : Bytes) → length v ≡ 8 → (a b c d e f g h : ℕ) × (v ≡ a ∷ b ∷ c ∷ d ∷ e ∷ f ∷ g ∷ h ∷ [])
eight_bytes (a ∷ b ∷ c ∷ d ∷ e ∷ f ∷ g ∷ h ∷ []) k = (a, b, c, d, e, f, g, h, refl)
eight_bytes _ k = absurd (omega arith)

parse_date_eight :
    (a b c d e f g h : ℕ) (date : Date)
    → parse_date (a ∷ b ∷ c ∷ d ∷ e ∷ f ∷ g ∷ h ∷ []) ≡ ok date
    → IsDate date × (a ∷ b ∷ c ∷ d ∷ e ∷ f ∷ g ∷ h ∷ [] ≡ encode_date date)
unfolding parse_date
parse_date_eight = eight_digits

pub parse_date-length : (v : Bytes) (d : Date) → parse_date v ≡ ok d → length v ≡ 8
unfolding parse_date
parse_date-length v d h = ground arith

pub parse_date-ok : (v : Bytes) (d : Date) → parse_date v ≡ ok d → IsDate d × (v ≡ encode_date d)
parse_date-ok v date r =
    let (a, b, c, d, e, f, g, h, same) = eight_bytes v (parse_date-length v date r) in
    rw same (parse_date_eight a b c d e f g h date (rw same at r))

pub parse_date-encode_date : (d : Date) → IsDate d → parse_date (encode_date d) ≡ ok d
parse_date-encode_date d h = rw (encode_date_lem d h) (
    unfold parse_date in
    rw (digits-four d.year h.year_high) (
      rw (digits-two d.month (omega (arith, h.month_high))) (
        rw (digits-two d.day (omega (arith, h.day_high, days_in-le d.year d.month)))
          (unfold date_of in check_date-IsDate d h))))

-- ParseDate accepts exactly the texts that encodeTime writes for a date of the Gregorian calendar
-- with a year from 1 to 9999, and reads back that date.
pub parse_date_iff : (v : Bytes) (d : Date) → parse_date v ≡ ok d ↔ (IsDate d × (v ≡ encode_date d))
parse_date_iff v d = (parse_date-ok v d, λ p. rw p.1 (parse_date-encode_date d p.0))
