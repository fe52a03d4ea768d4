-- ===== src/Icaltime/Date/Property.antt =====
-- decodeTime against encodeTime, through the content line between them.
use runtime_go.Prelude.{
  ℕ, ◌≡◌, ◌↔◌, refl, sym, ap, ◌∙◌, Bool, true, false, [], ◌∷◌, ◌++◌, arith, ◌==◌, Bytes, codes,
  length, append-nil,
}
use runtime_go.Prelude.Outcome.{ok}
use runtime_go.ContentLine.Text.{trim_space, trim_left, trim_right}
use runtime_go.ContentLine.Line.{
  is_multi_valued, Line, parse, encode_params, escape_param, add_param, to_upper,
}
use runtime_go.ContentLine.Line.RoundTrip.{IsPropertyName, Fits, parse_property}
use runtime_go.Icaltime.Date.{
  Date, DateTime, CalendarTime, all_day, at_time, TimeOffset, floating, utc_offset, no_offset, zone,
  parse_date, parse_date_time, encode_date, encode_clock, encode_offset, encode_time, decode_time,
  lookup, says_date, with_zone, equal_fold,
}
use runtime_go.Icaltime.Date.RoundTrip.{IsDate, encode_date_lem, parse_date-encode_date}
use runtime_go.Icaltime.Date.Clock.{
  IsDateTime, offset_of, suffix_of, encode_clock_lem, parse_date_time-encode_clock,
}

-- A value with a clock is never taken for a date: it is longer than eight bytes.
clock_is_long :
    (dt : DateTime) (s : Bytes) → IsDateTime dt → (length (encode_clock dt ++ s) == 8) ≡ false
clock_is_long dt s h =
    rw (encode_clock_lem dt h) (rw (encode_date_lem dt.date h.date) (ground arith))

decode_clock :
    (l : Line) (dt : DateTime)
    → says_date (lookup l.params (codes "VALUE")) ≡ false
    → (length l.value == 8) ≡ false
    → parse_date_time l.value ≡ ok dt
    → decode_time l ≡ ok (at_time (with_zone dt (lookup l.params (codes "TZID"))))
unfolding decode_time
decode_clock l dt a b c = rw a (rw b (rw c refl))

decode_date :
    (l : Line) (d : Date)
    → says_date (lookup l.params (codes "VALUE")) ≡ true
    → parse_date l.value ≡ ok d
    → decode_time l ≡ ok (all_day d)
unfolding decode_time
decode_date l d a b = rw a (rw b refl)

-- What is read of a time that was written: its nanos, the amount of its UTC offset and the version
-- of its zone are not in the text.
abbrev pub read_offset : TimeOffset → TimeOffset
read_offset floating = floating
read_offset (utc_offset _) = utc_offset no_offset
read_offset (zone id _) = zone id []

abbrev pub read_of : CalendarTime → CalendarTime
read_of (all_day d) = all_day d
read_of (at_time dt) = at_time (record dt { nanos = 0; offset = read_offset dt.offset })

-- A time whose parts are all in its text.
abbrev pub IsWritten : TimeOffset → Type 0
IsWritten floating = Unit
IsWritten (utc_offset u) = u ≡ no_offset
IsWritten (zone id version) = version ≡ []

abbrev pub IsWhole : CalendarTime → Type 0
IsWhole (all_day d) = Unit
IsWhole (at_time dt) = (dt.nanos ≡ 0) × IsWritten dt.offset

read_offset-IsWritten : (o : TimeOffset) → (read_offset o ≡ o) ↔ IsWritten o
read_offset-IsWritten floating = (λ e. tt, λ e. refl)
read_offset-IsWritten (utc_offset u) = (λ e. cc, λ e. ap utc_offset (sym e))
read_offset-IsWritten (zone id version) = (λ e. cc, λ e. ap (zone id) (sym e))

at_time-injective : {a b : DateTime} → at_time a ≡ at_time b → a ≡ b
at_time-injective e = cc

read_of-IsWhole : (t : CalendarTime) → (read_of t ≡ t) ↔ IsWhole t
read_of-IsWhole (all_day d) = (λ e. tt, λ e. refl)
read_of-IsWhole (at_time dt) =
    let (to, from) = read_offset-IsWritten dt.offset in
    (
      λ e.
          let p = at_time-injective e in
          (sym (ap (λ (d : DateTime). d.nanos) p), to (ap (λ (d : DateTime). d.offset) p)),
      λ h.
          ap (λ (n : ℕ). at_time (record dt { nanos = n; offset = read_offset dt.offset }))
            (sym h.0)
          ∙ ap (λ (o : TimeOffset). at_time (record dt { offset = o })) (from h.1),
    )

module _ (unicode_upper : Bytes → Bytes) where
  -- A zone's name that needs no quotes in the parameter text.
  abbrev pub ZoneFits : TimeOffset → Type 0
  ZoneFits floating = Unit
  ZoneFits (utc_offset _) = Unit
  ZoneFits (zone id _) = (escape_param id ≡ ok id) × Fits unicode_upper (codes "TZID", id)

  abbrev pub IsTime : CalendarTime → Type 0
  IsTime (all_day d) = IsDate d
  IsTime (at_time dt) = IsDateTime dt × ZoneFits dt.offset

  -- The content line of a property `name` whose value is a time.
  abbrev pub time_property : Bytes → CalendarTime → Bytes
  time_property name t = name ++ ((encode_time t).1 ++ (b':' ∷ (encode_time t).0))

  abbrev pub ReadsBack : Bytes → CalendarTime → Type 0
  ReadsBack raw t = (l : Line) × (parse unicode_upper raw ≡ ok l) × (decode_time l ≡ ok t)

  value_date-Fits : Fits unicode_upper (codes "VALUE", codes "DATE")
  unfolding trim_space trim_left trim_right to_upper is_multi_valued
  value_date-Fits = record {
    key = record {
      no_backslash = omega arith;
      no_quote = omega arith;
      no_colon = omega arith;
      no_semicolon = omega arith;
      no_equals = omega arith;
      trimmed = refl;
    };
    value = record { no_backslash = omega arith; trimmed = refl; nonempty = λ e. cc };
    single = refl;
  }

  date_property :
      (name : Bytes) (d : Date)
      → IsPropertyName name
      → IsDate d
      → ReadsBack (time_property name (all_day d)) (all_day d)
  unfolding encode_time
  date_property name d n h = (
    _,
    parse_property unicode_upper name ((codes "VALUE", codes "DATE") ∷ []) (codes ";VALUE=DATE")
        (encode_date d) n (value_date-Fits, tt) (unfold encode_params escape_param in refl),
    decode_date _ d (unfold lookup says_date equal_fold to_upper add_param in refl)
        (parse_date-encode_date d h),
  )

  -- The parameters that a line of a time with a clock is parsed into, and how it is decoded.
  decode_clock_line :
      (o : TimeOffset) (is_utc : Bool) (dt : DateTime) (l : Line)
      → IsDateTime dt
      → l.value ≡ encode_clock (record dt { offset = o }) ++ suffix_of is_utc
      → says_date (lookup l.params (codes "VALUE")) ≡ false
      → with_zone
          (record dt { nanos = 0; offset = offset_of is_utc })
          (lookup l.params (codes "TZID"))
        ≡ record dt { nanos = 0; offset = read_offset o }
      → decode_time l ≡ ok (at_time (record dt { nanos = 0; offset = read_offset o }))
  decode_clock_line o is_utc dt l h v no_date zoned =
      let dt' : DateTime = record dt { offset = o } in
      let h' : IsDateTime dt' = record {
        date = h.date;
        hours = h.hours;
        minutes = h.minutes;
        seconds = h.seconds;
      } in
      decode_clock l (record dt { nanos = 0; offset = offset_of is_utc }) no_date
        (rw v (clock_is_long dt' (suffix_of is_utc) h'))
        (rw v (parse_date_time-encode_clock is_utc dt' h'))
      ∙ ap (λ d. ok (at_time d)) zoned

  clock_property :
      (o : TimeOffset) (name : Bytes) (dt : DateTime)
      → IsPropertyName name
      → IsDateTime dt
      → ZoneFits o
      → let t : CalendarTime = at_time (record dt { offset = o }) in
        ReadsBack (time_property name t) (read_of t)
  unfolding encode_time encode_offset
  clock_property floating name dt n h z = (
    _,
    parse_property unicode_upper name [] [] _ n tt (unfold encode_params in refl),
    decode_clock_line floating false dt _ h refl (unfold lookup says_date in refl)
        (unfold lookup with_zone in refl),
  )
  clock_property (utc_offset u) name dt n h z = (
    _,
    parse_property unicode_upper name [] [] _ n tt (unfold encode_params in refl),
    decode_clock_line (utc_offset u) true dt _ h refl (unfold lookup says_date in refl)
        (unfold lookup with_zone in refl),
  )
  clock_property (zone id version) name dt n h z = (
    _,
    parse_property unicode_upper name ((codes "TZID", id) ∷ []) (codes ";TZID=" ++ id) _ n (z.1, tt)
        (unfold encode_params in rw z.0 (rw append-nil refl)),
    decode_clock_line (zone id version) false dt _ h refl
        (unfold lookup says_date to_upper add_param in refl)
        (unfold lookup with_zone to_upper add_param in refl),
  )

  -- A calendar time that encodeTime writes into a content line is read back by Parse and decodeTime
  -- with the same date, hours, minutes and seconds and in the same form: a date as a date, a floating
  -- time as floating, any UTC offset as one of zero and a zone with its name. It is the same time if
  -- and only if it has no nanos, no UTC offset other than zero and no version of its zone. For dates
  -- of the calendar with a year up to 9999, and zone names that need no quotes in a parameter, hold
  -- no backslash and begin and end with no white space.
  pub decode_time-encode_time :
      (name : Bytes) (t : CalendarTime)
      → IsPropertyName name
      → IsTime t
      → ReadsBack (time_property name t) (read_of t) × ((read_of t ≡ t) ↔ IsWhole t)
  decode_time-encode_time name (all_day d) n h =
      (date_property name d n h, read_of-IsWhole (all_day d))
  decode_time-encode_time name (at_time dt) n h =
      (clock_property dt.offset name dt n h.0 h.1, read_of-IsWhole (at_time dt))
