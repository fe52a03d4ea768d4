-- ===== src/Icaltime/Date/Clock.antt =====
-- ParseDateTime against encodeTime.
use runtime_go.Prelude.{
  ℕ, ◌≤◌, ◌<◌, ◌≡◌, refl, sym, ap, ◌∙◌, Bool, true, false, [], ◌∷◌, ◌++◌, arith, Option, none, some,
  if◌then◌else◌, Bytes, length, append-nil,
}
use runtime_go.Prelude.Outcome.{ok, bind-eq-ok}
use runtime_go.ContentLine.Text.{cut_byte}
use runtime_go.ContentLine.Text.Laws.{Lacks, cut_byte_here, cut_byte-some}
use runtime_go.Icaltime.Decimal.Laws.{pad-two}
use runtime_go.Icaltime.Date.{
  Date, DateTime, TimeOffset, floating, utc_offset, no_offset, digits, parse_date, encode_date,
  strip_z, check_time, time_of, parse_time, parse_date_time_parts, parse_date_time, encode_clock,
}
use runtime_go.Icaltime.Date.RoundTrip.{
  IsDate, two, encode_date_lem, days_in-le, two-digits, digits-two, parse_date-ok,
  parse_date-encode_date,
}

pub record IsDateTime (dt : DateTime) : Type 0 where
  pub date : IsDate dt.date
  pub hours : dt.hours ≤ 23
  pub minutes : dt.minutes ≤ 59
  pub seconds : dt.seconds ≤ 60

-- The offset that a value without parameters tells.
abbrev pub offset_of : Bool → TimeOffset
offset_of is_utc = if is_utc then utc_offset no_offset else floating

abbrev pub suffix_of : Bool → Bytes
suffix_of is_utc = if is_utc then b'Z' ∷ [] else []

strip_z-eq : (v : Bytes) → v ≡ (strip_z v).1 ++ suffix_of (strip_z v).0
unfolding strip_z
strip_z-eq [] = refl
strip_z-eq (c ∷ []) = ground arith
strip_z-eq (c ∷ d ∷ s) = ap (◌∷◌ c) (strip_z-eq (d ∷ s))

strip_z-Lacks : (s : Bytes) → Lacks b'Z' s → strip_z s ≡ (false, s)
unfolding strip_z
strip_z-Lacks [] h = refl
strip_z-Lacks (c ∷ []) h = ground arith
strip_z-Lacks (c ∷ d ∷ s) h = rw (strip_z-Lacks (d ∷ s) h.1, strip_z)

strip_z-append : (s : Bytes) → strip_z (s ++ b'Z' ∷ []) ≡ (true, s)
unfolding strip_z
strip_z-append [] = refl
strip_z-append (c ∷ []) = refl
strip_z-append (c ∷ d ∷ s) = rw (strip_z-append (d ∷ s), strip_z)

strip_z_suffix :
    (is_utc : Bool) (s : Bytes) → Lacks b'Z' s → strip_z (s ++ suffix_of is_utc) ≡ (is_utc, s)
strip_z_suffix true s h = strip_z-append s
strip_z_suffix false s h = rw append-nil (strip_z-Lacks s h)

pub encode_clock_lem :
    (dt : DateTime)
    → IsDateTime dt
    → encode_clock dt
      ≡ encode_date dt.date ++ (b'T' ∷ (two dt.hours ++ (two dt.minutes ++ two dt.seconds)))
unfolding encode_clock
encode_clock_lem dt h = rw (pad-two dt.hours (omega (arith, h.hours))) (
    rw (pad-two dt.minutes (omega (arith, h.minutes)))
      (rw (pad-two dt.seconds (omega (arith, h.seconds))) refl))

-- Neither letter of the format stands among the digits.
encode_date-Lacks : (d : Date) (c : ℕ) → IsDate d → b'9' < c → Lacks c (encode_date d)
encode_date-Lacks d c h k =
    rw (encode_date_lem d h)
      (omega (arith, h.year_high, h.month_high, h.day_high, days_in-le d.year d.month))

clock-Lacks : (dt : DateTime) → IsDateTime dt → Lacks b'Z' (encode_clock dt)
clock-Lacks dt h = rw (encode_clock_lem dt h) (
    rw (encode_date_lem dt.date h.date) (
      omega (
        arith,
        h.hours,
        h.minutes,
        h.seconds,
        h.date.year_high,
        h.date.month_high,
        h.date.day_high,
        days_in-le dt.date.year dt.date.month,
      )))

abbrev plain : DateTime → Bool → DateTime
plain dt is_utc = record dt { nanos = 0; offset = offset_of is_utc }

parse_time-two :
    (is_utc : Bool) (dt : DateTime)
    → IsDateTime dt
    → parse_time is_utc (two dt.hours ++ (two dt.minutes ++ two dt.seconds)) dt.date
      ≡ ok (plain dt is_utc)
unfolding parse_time time_of
parse_time-two is_utc dt h = rw (digits-two dt.hours (omega (arith, h.hours))) (
    rw (digits-two dt.minutes (omega (arith, h.minutes))) (
      rw (digits-two dt.seconds (omega (arith, h.seconds)))
        (unfold check_time in ground (arith, h.hours, h.minutes, h.seconds))))

pub parse_date_time-encode_clock :
    (is_utc : Bool) (dt : DateTime)
    → IsDateTime dt
    → parse_date_time (encode_clock dt ++ suffix_of is_utc) ≡ ok (plain dt is_utc)
unfolding parse_date_time parse_date_time_parts
parse_date_time-encode_clock is_utc dt h =
    rw (strip_z_suffix is_utc (encode_clock dt) (clock-Lacks dt h)) (
      rw (encode_clock_lem dt h) (
        rw
          (cut_byte_here b'T' (encode_date dt.date) _
            (encode_date-Lacks dt.date b'T' h.date (omega arith)))
          (rw (parse_date-encode_date dt.date h.date) (parse_time-two is_utc dt h))))

time_of-ok :
    (is_utc : Bool) (date : Date) (h mi sec : Option ℕ) (dt : DateTime)
    → time_of is_utc date h mi sec ≡ ok dt
    → (j k l : ℕ) × (h ≡ some j)
      × (mi ≡ some k)
      × (sec ≡ some l)
      × (check_time is_utc date j k l ≡ ok dt)
unfolding time_of
time_of-ok is_utc date (some h) (some mi) (some sec) dt e = (h, mi, sec, refl, refl, refl, e)
time_of-ok is_utc date none mi sec dt e = cc
time_of-ok is_utc date (some h) none sec dt e = cc
time_of-ok is_utc date (some h) (some mi) none dt e = cc

check_time-ok :
    (is_utc : Bool) (date : Date) (h mi sec : ℕ) (dt : DateTime)
    → check_time is_utc date h mi sec ≡ ok dt
    → (dt ≡ record {
      date = date;
      hours = h;
      minutes = mi;
      seconds = sec;
      nanos = 0;
      offset = offset_of is_utc;
    })
      × (h ≤ 23)
      × (mi ≤ 59)
      × (sec ≤ 60)
unfolding check_time
check_time-ok is_utc date h mi sec dt e = ground arith

six_bytes : (v : Bytes) → length v ≡ 6 → (a b c d e f : ℕ) × (v ≡ a ∷ b ∷ c ∷ d ∷ e ∷ f ∷ [])
six_bytes (a ∷ b ∷ c ∷ d ∷ e ∷ f ∷ []) k = (a, b, c, d, e, f, refl)
six_bytes _ k = absurd (omega arith)

parse_time-length :
    (is_utc : Bool) (t : Bytes) (date : Date) (dt : DateTime)
    → parse_time is_utc t date ≡ ok dt
    → length t ≡ 6
unfolding parse_time
parse_time-length is_utc t date dt h = ground arith

-- What a time of day that was read says of its text.
record ReadTime (is_utc : Bool) (date : Date) (dt : DateTime) (t : Bytes) : Type 0 where
  same_date : dt.date ≡ date
  offset : dt.offset ≡ offset_of is_utc
  hours : dt.hours ≤ 23
  minutes : dt.minutes ≤ 59
  seconds : dt.seconds ≤ 60
  text : t ≡ two dt.hours ++ (two dt.minutes ++ two dt.seconds)

parse_time_six :
    (is_utc : Bool) (a b c d e f : ℕ) (date : Date) (dt : DateTime)
    → parse_time is_utc (a ∷ b ∷ c ∷ d ∷ e ∷ f ∷ []) date ≡ ok dt
    → ReadTime is_utc date dt (a ∷ b ∷ c ∷ d ∷ e ∷ f ∷ [])
unfolding parse_time
parse_time_six is_utc a b c d e f date dt r =
    let (h, mi, sec, dh, dm, ds, r') = time_of-ok is_utc date (digits (a ∷ b ∷ [])) _ _ dt r in
    let eh = (two-digits a b dh).1 in
    let em = (two-digits c d dm).1 in
    let es = (two-digits e f ds).1 in
    let (same, fh, fm, fs) = check_time-ok is_utc date h mi sec dt r' in
    rw same (record {
      same_date = refl;
      offset = refl;
      hours = fh;
      minutes = fm;
      seconds = fs;
      text = ground arith;
    })

parse_time-ok :
    (is_utc : Bool) (t : Bytes) (date : Date) (dt : DateTime)
    → parse_time is_utc t date ≡ ok dt
    → ReadTime is_utc date dt t
parse_time-ok is_utc t date dt r =
    let (a, b, c, d, e, f, same) = six_bytes t (parse_time-length is_utc t date dt r) in
    rw same (parse_time_six is_utc a b c d e f date dt (rw same at r))

ReadTime-text :
    (is_utc : Bool) (date : Date) (dt : DateTime) (d t : Bytes)
    → IsDate date
    → d ≡ encode_date date
    → ReadTime is_utc date dt t
    → IsDateTime dt × (dt.offset ≡ offset_of is_utc) × (encode_clock dt ≡ d ++ b'T' ∷ t)
ReadTime-text is_utc date dt d t valid e r =
    let valid_time : IsDateTime dt = record {
      date = rw r.same_date valid;
      hours = r.hours;
      minutes = r.minutes;
      seconds = r.seconds;
    } in
    (valid_time, r.offset, encode_clock_lem dt valid_time ∙ rw (r.same_date, ← e, ← r.text) refl)

-- ParseDateTime accepts only what encodeTime writes: a value that it reads is a date of the calendar
-- and a time of day within its limits, the leap second included, it is UTC or floating, and the text
-- is the one that this value is written as.
pub parse_date_time-ok :
    (v : Bytes) (dt : DateTime)
    → parse_date_time v ≡ ok dt
    → (is_utc : Bool) × IsDateTime dt
      × (dt.offset ≡ offset_of is_utc)
      × (v ≡ encode_clock dt ++ suffix_of is_utc)
unfolding parse_date_time parse_date_time_parts
parse_date_time-ok v dt h = parts (cut_byte b'T' (strip_z v).1) refl h
  where
    parts :
        (cut : Option (Bytes × Bytes))
        → cut_byte b'T' (strip_z v).1 ≡ cut
        → parse_date_time_parts (strip_z v).0 cut ≡ ok dt
        → (is_utc : Bool) × IsDateTime dt
          × (dt.offset ≡ offset_of is_utc)
          × (v ≡ encode_clock dt ++ suffix_of is_utc)
    parts none e r = cc
    parts (some (d, t)) e r =
        let (date, read, r') = bind-eq-ok (parse_date d) (parse_time (strip_z v).0 t) r in
        let (valid, written) = parse_date-ok d date read in
        let (valid_time, offset, text) =
          ReadTime-text (strip_z v).0 date dt d t valid written
            (parse_time-ok (strip_z v).0 t date dt r') in
        (
          (strip_z v).0,
          valid_time,
          offset,
          strip_z-eq v
              ∙ ap (λ s. s ++ suffix_of (strip_z v).0)
                  (cut_byte-some b'T' (strip_z v).1 d t e ∙ sym text),
        )
