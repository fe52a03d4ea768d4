-- ===== src/Icaltime/Duration/RoundTrip.antt =====
-- ParseDuration reads back what EncodeDuration writes.
use runtime_go.Prelude.{
  ℕ, ◌+◌, ◌-◌, ◌*◌, ◌/◌, ◌%◌, ◌≤◌, ◌<◌, ◌≡◌, ◌≢◌, refl, sym, ap, ◌∙◌, Bool, true, false, ◌&&◌, ◌||◌,
  [], ◌∷◌, ◌++◌, arith, inl, inr, ◌==◌, ltb, if◌then◌else◌, Bytes, append-nil, Bool-cases, ltb→lt,
  ltb→ge,
}
use runtime_go.Prelude.Outcome.{ok, ok-injective}
use runtime_go.ContentLine.Text.Trim.{is_plain, Ends, Ends-append, trim_space_plain}
use runtime_go.Icaltime.Decimal.{decimal}
use runtime_go.Icaltime.Duration.{
  Progress, word, int_bound, run, part, time_text, magnitude_text, start, finish, is_empty,
  unit_hour, unit_minute, unit_second, unit_day, unit_time, behind_p, parse_duration,
  encode_duration, strip_prefix,
}
use runtime_go.Icaltime.Duration.Run.{after, run-part, run-t, in_time-after, num-after, last-after}

-- The loop over the time part.
abbrev after_time : ℕ → ℕ → ℕ → Progress → Progress
after_time h m sec p = after (ltb 0 sec || h == 0 && m == 0) sec unit_second (
    after (ltb 0 m) m unit_minute
      (after (ltb 0 h) h unit_hour (record p { in_time = true; last = unit_time })))

run-time_text :
    (h m sec : ℕ) (p : Progress)
    → p.in_time ≡ false
    → p.num ≡ []
    → p.last ≤ unit_day
    → p.last ≢ 1
    → h < 24
    → m < 60
    → sec < 60
    → run p (time_text h m sec) ≡ ok (after_time h m sec p)
unfolding time_text
run-time_text h m sec p t num l w bh bm bs =
    let p1 : Progress = record p { in_time = true; last = unit_time } in
    let p2 = after (ltb 0 h) h unit_hour p1 in
    let p3 = after (ltb 0 m) m unit_minute p2 in
    let t2 = in_time-after (ltb 0 h) h unit_hour p1 in
    let n2 = num-after (ltb 0 h) h unit_hour p1 num in
    let l2 : p2.last ≤ unit_hour = last-after (ltb 0 h) h unit_hour p1 (omega arith) in
    let t3 = in_time-after (ltb 0 m) m unit_minute p2 ∙ t2 in
    let n3 = num-after (ltb 0 m) m unit_minute p2 n2 in
    let l3 : p3.last ≤ unit_minute = last-after (ltb 0 m) m unit_minute p2 (omega (arith, l2)) in
    run-t p _ t num w
    ∙ run-part (ltb 0 h) b'H' unit_hour h p1 _ (inr (inl (refl, refl, refl))) (omega arith) num
        (omega arith)
    ∙ run-part (ltb 0 m) b'M' unit_minute m p2 _ (inr (inr (inl (refl, refl, t2))))
        (omega (arith, l2)) n2 (omega arith)
    ∙ ap (run p3) (sym (append-nil _))
    ∙ run-part (ltb 0 sec || h == 0 && m == 0) b'S' unit_second sec p3 []
        (inr (inr (inr (refl, refl, t3)))) (omega (arith, l3)) n3 (omega arith)
    ∙ unfold run in refl

-- The day part, and the test for the time part.
abbrev day_part : ℕ → Progress
day_part days = after (ltb 0 days) days unit_day start

abbrev has_time : ℕ → ℕ → ℕ → ℕ → Bool
has_time days h m sec = ltb 0 h || ltb 0 m || ltb 0 sec || days == 0

abbrev whole : ℕ → ℕ → ℕ → ℕ → Progress
whole days h m sec =
    if has_time days h m sec then after_time h m sec (day_part days) else day_part days

run-magnitude :
    (days h m sec : ℕ)
    → days < int_bound
    → h < 24
    → m < 60
    → sec < 60
    → run start
        (part (ltb 0 days) days b'D' ++ (if has_time days h m sec then time_text h m sec else []))
      ≡ ok (whole days h m sec)
run-magnitude days h m sec bd bh bm bs =
    run-part (ltb 0 days) b'D' unit_day days start _ (inl (refl, refl)) (omega arith) refl bd
    ∙ elim (Bool-cases (has_time days h m sec)) [
      | inl timed ↦ rw timed (
          run-time_text h m sec (day_part days) (in_time-after (ltb 0 days) days unit_day start)
            (num-after (ltb 0 days) days unit_day start refl)
            (last-after (ltb 0 days) days unit_day start (omega arith))
            (unfold after in ground arith) bh bm bs)
      | inr plain ↦ rw plain (unfold run in refl)
    ]

-- The checks behind the loop pass, and the sum is that of the components.
finish-whole :
    (neg : Bool) (days h m sec : ℕ)
    → days * 86400 + h * 3600 + m * 60 + sec < int_bound
    → finish neg (whole days h m sec)
      ≡ ok (
          if neg
          then (word - (days * 86400 + h * 3600 + m * 60 + sec)) % word
          else days * 86400 + h * 3600 + m * 60 + sec)
unfolding finish after is_empty
finish-whole neg days h m sec b = ground arith

Ends-part : (n unit : ℕ) → is_plain unit ≡ true → Ends (part true n unit)
unfolding part
Ends-part n unit h = Ends-append (decimal n) (unit ∷ []) h

Ends-hours : (h : ℕ) → Ends (b'T' ∷ (decimal h ++ b'H' ∷ []) ++ [])
Ends-hours h = rw append-nil (Ends-append (b'T' ∷ decimal h) (b'H' ∷ []) refl)

Ends-minutes : (m : ℕ) (before : Bytes) → Ends (b'T' ∷ (before ++ ((decimal m ++ b'M' ∷ []) ++ [])))
Ends-minutes m before = rw append-nil (
    Ends-append (b'T' ∷ before) (decimal m ++ b'M' ∷ []) (Ends-append (decimal m) (b'M' ∷ []) refl))

Ends-seconds :
    (sec : ℕ) (before between : Bytes)
    → Ends (b'T' ∷ (before ++ (between ++ (decimal sec ++ b'S' ∷ []))))
Ends-seconds sec before between =
    Ends-append (b'T' ∷ before) (between ++ (decimal sec ++ b'S' ∷ []))
      (Ends-append between (decimal sec ++ b'S' ∷ []) (Ends-append (decimal sec) (b'S' ∷ []) refl))

Ends-time_text : (h m sec : ℕ) → Ends (time_text h m sec)
unfolding time_text part
Ends-time_text h m sec = elim (Bool-cases (ltb 0 sec || h == 0 && m == 0)) [
  | inl seconds ↦ rw seconds (Ends-seconds sec (part (ltb 0 h) h b'H') (part (ltb 0 m) m b'M'))
  | inr none_left ↦ elim (Bool-cases (ltb 0 m)) [
    | inl minutes ↦ rw (none_left, minutes) (Ends-minutes m (part (ltb 0 h) h b'H'))
    | inr no_minutes ↦
        let hours : ltb 0 h ≡ true = ground arith in
        rw (none_left, no_minutes, hours) (Ends-hours h)
  ]
]

Ends-days : (days : ℕ) → Ends (b'P' ∷ ((decimal days ++ b'D' ∷ []) ++ []))
Ends-days days = rw append-nil (Ends-append (b'P' ∷ decimal days) (b'D' ∷ []) refl)

Ends-magnitude_text : (s : ℕ) → Ends (magnitude_text s)
unfolding magnitude_text part
Ends-magnitude_text s =
    let days = s / 86400 in
    let h = s % 86400 / 3600 in
    let m = s % 86400 % 3600 / 60 in
    let sec = s % 86400 % 60 in
    elim (Bool-cases (has_time days h m sec)) [
      | inl timed ↦ rw timed (
          Ends-append (b'P' ∷ part (ltb 0 days) days b'D') (time_text h m sec)
            (Ends-time_text h m sec))
      | inr plain ↦
          let some_days : ltb 0 days ≡ true = ground arith in rw (plain, some_days) (Ends-days days)
    ]

behind_p-magnitude_text :
    (neg : Bool) (s : ℕ)
    → s < int_bound
    → behind_p neg (magnitude_text s) ≡ ok (if neg then (word - s) % word else s)
unfolding behind_p magnitude_text
behind_p-magnitude_text neg s b =
    let days = s / 86400 in
    let h = s % 86400 / 3600 in
    let m = s % 86400 % 3600 / 60 in
    let sec = s % 86400 % 60 in
    let total : days * 86400 + h * 3600 + m * 60 + sec ≡ s = omega arith in
    rw (run-magnitude days h m sec (omega arith) (omega arith) (omega arith) (omega arith))
      (finish-whole neg days h m sec (rw total b) ∙ rw total refl)

-- The text behind the P of a magnitude.
magnitude_text-cons : (s : ℕ) → (t : Bytes) × (magnitude_text s ≡ b'P' ∷ t)
unfolding magnitude_text
magnitude_text-cons s = (_, refl)

parse_duration_plain :
    (t : Bytes) → Ends (b'P' ∷ t) → parse_duration (b'P' ∷ t) ≡ behind_p false (b'P' ∷ t)
unfolding parse_duration strip_prefix
parse_duration_plain t h = rw (trim_space_plain b'P' t refl h) refl

parse_duration_minus :
    (t : Bytes) → Ends (b'P' ∷ t) → parse_duration (b'-' ∷ b'P' ∷ t) ≡ behind_p true (b'P' ∷ t)
unfolding parse_duration strip_prefix
parse_duration_minus t h = rw (trim_space_plain b'-' (b'P' ∷ t) refl h) refl

parse_duration-magnitude_text :
    (s : ℕ)
    → s < int_bound
    → (parse_duration (magnitude_text s) ≡ ok s)
      × (parse_duration (b'-' ∷ magnitude_text s) ≡ ok ((word - s) % word))
parse_duration-magnitude_text s b =
    let (t, same) = magnitude_text-cons s in
    let ends : Ends (b'P' ∷ t) = rw (← same) (Ends-magnitude_text s) in
    (
      rw same (parse_duration_plain t ends ∙ rw (← same) (behind_p-magnitude_text false s b)),
      rw same (parse_duration_minus t ends ∙ rw (← same) (behind_p-magnitude_text true s b)),
    )

-- ParseDuration reads back every duration that EncodeDuration writes, negative ones included: the
-- same number of seconds, for every int64 but the least.
pub parse_duration-encode_duration :
    (seconds : ℕ) (text : Bytes)
    → seconds < word
    → seconds ≢ int_bound
    → encode_duration seconds 0 ≡ ok text
    → parse_duration text ≡ ok seconds
unfolding encode_duration
parse_duration-encode_duration seconds text b ne h = elim (Bool-cases (ltb seconds int_bound)) [
  | inl plus ↦
      rw (← ok-injective (rw plus at h)) (parse_duration-magnitude_text seconds (ltb→lt _ _ plus)).0
  | inr minus ↦
      let other : (seconds == int_bound) ≡ false = ground arith in
      let below : word - seconds < int_bound = omega (arith, ltb→ge _ _ minus) in
      rw (← ok-injective (rw (minus, other) at h)) (
        (parse_duration-magnitude_text (word - seconds) below).1
        ∙ ap ok (omega (arith, ltb→ge _ _ minus)))
]
