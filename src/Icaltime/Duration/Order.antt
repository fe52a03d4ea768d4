-- ===== src/Icaltime/Duration/Order.antt =====
-- The order of the components that ParseDuration accepts.
use runtime_go.Prelude.{
  ℕ, ◌≤◌, ◌<◌, ◌≡◌, ap, Bool, false, List, [], ◌∷◌, arith, inl, inr, none, some, ◌==◌, ==_iff,
  Bool-cases, if◌then◌else◌, Bytes,
}
use runtime_go.Prelude.Outcome.{ok, bind-eq-ok}
use runtime_go.ContentLine.Text.{trim_space}
use runtime_go.Icaltime.Decimal.{is_digit}
use runtime_go.Icaltime.Duration.{
  Progress, unit_of, add_unit, take_unit, take_t, step, run, start, finish, behind_p,
  parse_duration, strip_prefix,
}

-- The units of a text, in order: the grammar of RFC 5545 section 3.3.6 with T as a unit of its own.
abbrev pub units : Bytes → List ℕ
units [] = []
units (r ∷ s) =
    if r == b'T'
    then 3 ∷ units s
    else elim (unit_of r) [ none ↦ units s | some unit ↦ unit ∷ units s ]

-- Each unit is above the one before it.
abbrev pub Rising : ℕ → List ℕ → Type 0
Rising last [] = Unit
Rising last (unit ∷ us) = (last < unit) × Rising unit us

abbrev BeforeT : Progress → Type 0
BeforeT p = p.in_time ≡ false → p.last ≤ 2

step-Rising :
    (p q : Progress) (r : ℕ) (s : Bytes)
    → BeforeT p
    → step p r ≡ ok q
    → Rising q.last (units s)
    → Rising p.last (units (r ∷ s))
unfolding step take_t take_unit add_unit is_digit unit_of
step-Rising p q r s b h t = ground arith

step-BeforeT : (p q : Progress) (r : ℕ) → BeforeT p → step p r ≡ ok q → BeforeT q
unfolding step take_t take_unit add_unit is_digit unit_of
step-BeforeT p q r b h = ground arith

run-Rising : (p q : Progress) (s : Bytes) → BeforeT p → run p s ≡ ok q → Rising p.last (units s)
unfolding run
run-Rising p q [] b h = tt
run-Rising p q (r ∷ s) b h =
    let (p', stepped, rest) = bind-eq-ok (step p r) (λ p. run p s) h in
    step-Rising p p' r s b stepped (run-Rising p' q s (step-BeforeT p p' r b stepped) rest)

behind_p-Rising :
    (neg : Bool) (s : Bytes) (n : ℕ)
    → behind_p neg s ≡ ok n
    → (t : Bytes) × (s ≡ b'P' ∷ t) × Rising 0 (units t)
unfolding behind_p
behind_p-Rising neg [] n h = cc
behind_p-Rising neg (c ∷ s) n h = elim (Bool-cases (c == b'P')) [
  | inl p ↦
      let (q, ran, finished) = bind-eq-ok (run start s) (finish neg) (rw p at h) in
      (s, ap (λ b. b ∷ s) ((==_iff c b'P').0 p), run-Rising start q s (λ e. omega arith) ran)
  | inr other ↦ cc (rw other at h)
]

-- In every text that ParseDuration accepts, a P stands behind the sign, and behind it each unit
-- stands at most once, in the order weeks, days, T, hours, minutes, seconds.
pub parse_duration-Rising :
    (v : Bytes) (n : ℕ)
    → parse_duration v ≡ ok n
    → (t : Bytes) × ((strip_prefix b'+' (strip_prefix b'-' (trim_space v)).1).1 ≡ b'P' ∷ t)
      × Rising 0 (units t)
unfolding parse_duration
parse_duration-Rising v n h =
    let (neg, s) = strip_prefix b'-' (trim_space v) in
    behind_p-Rising neg (strip_prefix b'+' s).1 n h
