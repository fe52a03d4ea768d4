-- ===== src/Icaltime/Decimal/Laws.antt =====
-- A printed number is made of digits and has its value.
use runtime_go.Prelude.{
  ℕ, zero, suc, ◌+◌, ◌-◌, ◌/◌, ◌%◌, ◌≤◌, ◌<◌, ◌≢◌, ◌≡◌, refl, ap, ◌∙◌, true, [], ◌∷◌, arith, inl,
  inr, some, ltb, Bytes, lt→ltb, le→ltb, ltb→lt, ltb→ge, Bool-cases, tests, sym,
}
use runtime_go.Icaltime.Decimal.{decimal_from, decimal, pad, all_digits, value_from, parse_int}

value_from-decimal_from :
    (fuel n : ℕ) (out : Bytes)
    → n < fuel
    → value_from 0 (decimal_from fuel n out) ≡ value_from n out
unfolding decimal_from
value_from-decimal_from zero n out h = absurd (omega arith)
value_from-decimal_from (suc fuel) n out h = elim (Bool-cases (ltb n 10)) [
  | inl last ↦ rw last (unfold value_from in ap (λ k. value_from k out) (omega arith))
  | inr more ↦ rw more (
      value_from-decimal_from fuel (n / 10) ((b'0' + n % 10) ∷ out) (omega (tests, more))
      ∙ unfold value_from in ap (λ k. value_from k out) (omega arith))
]

all_digits-decimal_from :
    (fuel n : ℕ) (out : Bytes) → all_digits out ≡ true → all_digits (decimal_from fuel n out) ≡ true
unfolding decimal_from all_digits
all_digits-decimal_from zero n out h = h
all_digits-decimal_from (suc fuel) n out h =
    ground (arith, all_digits-decimal_from fuel (n / 10) ((b'0' + n % 10) ∷ out))

decimal_from-ne-nil : (fuel n : ℕ) (out : Bytes) → out ≢ [] → decimal_from fuel n out ≢ []
unfolding decimal_from
decimal_from-ne-nil zero n out h = h
decimal_from-ne-nil (suc fuel) n out h =
    ground (arith, decimal_from-ne-nil fuel (n / 10) ((b'0' + n % 10) ∷ out))

pub value_from-decimal : (n : ℕ) → value_from 0 (decimal n) ≡ n
unfolding decimal
value_from-decimal n =
    value_from-decimal_from (suc n) n [] (omega arith) ∙ unfold value_from in refl

pub all_digits-decimal : (n : ℕ) → all_digits (decimal n) ≡ true
unfolding decimal
all_digits-decimal n = all_digits-decimal_from (suc n) n [] (unfold all_digits in refl)

pub decimal-ne-nil : (n : ℕ) → decimal n ≢ []
unfolding decimal decimal_from
decimal-ne-nil n = elim (Bool-cases (ltb n 10)) [
  | inl last ↦ rw last (λ e. cc)
  | inr more ↦ rw more (decimal_from-ne-nil n (n / 10) _ (λ e. cc))
]

-- ParseInt reads back a number that is in range.
pub parse_int-decimal : (bound n : ℕ) → n < bound → parse_int bound (decimal n) ≡ some n
parse_int-decimal bound n h = read (decimal n) (decimal-ne-nil n) (value_from-decimal n)
  where
    read : (s : Bytes) → s ≢ [] → value_from 0 s ≡ n → parse_int bound s ≡ some n
    read [] ne e = absurd (ne refl)
    read (c ∷ s) ne e = unfold parse_int in rw (e, lt→ltb _ _ h)

module _ (fuel n : ℕ) (out : Bytes) where
  decimal_from_last : n < 10 → decimal_from (suc fuel) n out ≡ (b'0' + n) ∷ out
  unfolding decimal_from
  decimal_from_last h = rw (lt→ltb _ _ h)

  decimal_from_more :
      10 ≤ n → decimal_from (suc fuel) n out ≡ decimal_from fuel (n / 10) ((b'0' + n % 10) ∷ out)
  unfolding decimal_from
  decimal_from_more h = rw (le→ltb _ _ h)

-- A number with at least so many digits has fuel for as many rounds.
refuel : (n k : ℕ) → suc k ≡ n → decimal n ≡ decimal_from (suc (suc k)) n []
unfolding decimal
refuel n k h = ap (λ j. decimal_from (suc j) n []) (sym h)

pub decimal-one : (n : ℕ) → n < 10 → decimal n ≡ (b'0' + n) ∷ []
unfolding decimal
decimal-one n h = decimal_from_last n n [] h

pub decimal-two : (n : ℕ) → 10 ≤ n → n < 100 → decimal n ≡ (b'0' + n / 10) ∷ (b'0' + n % 10) ∷ []
decimal-two n h k =
    refuel n (n - 1) (omega arith)
    ∙ decimal_from_more (suc (n - 1)) n [] h
    ∙ decimal_from_last (n - 1) (n / 10) _ (omega arith)

pub decimal-three :
    (n : ℕ)
    → 100 ≤ n
    → n < 1000
    → decimal n ≡ (b'0' + n / 10 / 10) ∷ (b'0' + n / 10 % 10) ∷ (b'0' + n % 10) ∷ []
decimal-three n h k =
    refuel n (suc (n - 2)) (omega arith)
    ∙ decimal_from_more (suc (suc (n - 2))) n [] (omega arith)
    ∙ decimal_from_more (suc (n - 2)) (n / 10) _ (omega arith)
    ∙ decimal_from_last (n - 2) (n / 10 / 10) _ (omega arith)

pub decimal-four :
    (n : ℕ)
    → 1000 ≤ n
    → n < 10000
    → decimal n
      ≡ (b'0' + n / 10 / 10 / 10)
        ∷ (b'0' + n / 10 / 10 % 10)
        ∷ (b'0' + n / 10 % 10)
        ∷ (b'0' + n % 10)
        ∷ []
decimal-four n h k =
    refuel n (suc (suc (n - 3))) (omega arith)
    ∙ decimal_from_more (suc (suc (suc (n - 3)))) n [] (omega arith)
    ∙ decimal_from_more (suc (suc (n - 3))) (n / 10) _ (omega arith)
    ∙ decimal_from_more (suc (n - 3)) (n / 10 / 10) _ (omega arith)
    ∙ decimal_from_last (n - 3) (n / 10 / 10 / 10) _ (omega arith)

-- %02d and %04d of numbers that fit are their digits.
pub pad-two : (n : ℕ) → n < 100 → pad 2 n ≡ (b'0' + n / 10) ∷ (b'0' + n % 10) ∷ []
unfolding pad
pad-two n h = elim (Bool-cases (ltb n 10)) [
  | inl small ↦ rw (decimal-one n (ltb→lt _ _ small)) (ground arith)
  | inr large ↦ rw (decimal-two n (ltb→ge _ _ large) h) refl
]

pub pad-four :
    (n : ℕ)
    → n < 10000
    → pad 4 n
      ≡ (b'0' + n / 10 / 10 / 10)
        ∷ (b'0' + n / 10 / 10 % 10)
        ∷ (b'0' + n / 10 % 10)
        ∷ (b'0' + n % 10)
        ∷ []
unfolding pad
pad-four n h = elim (Bool-cases (ltb n 10)) [
  | inl one ↦ rw (decimal-one n (ltb→lt _ _ one)) (ground arith)
  | inr more ↦ elim (Bool-cases (ltb n 100)) [
    | inl two ↦ rw (decimal-two n (ltb→ge _ _ more) (ltb→lt _ _ two)) (ground arith)
    | inr more2 ↦ elim (Bool-cases (ltb n 1000)) [
      | inl three ↦ rw (decimal-three n (ltb→ge _ _ more2) (ltb→lt _ _ three)) (ground arith)
      | inr four ↦ rw (decimal-four n (ltb→ge _ _ four) h) refl
    ]
  ]
]
