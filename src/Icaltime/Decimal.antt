-- ===== src/Icaltime/Decimal.antt =====
-- Decimal numbers as Go prints them (%d, %04d, %02d) and reads them (strconv.ParseInt over digits).
pub mod Laws
use runtime_go.Prelude.{
  ℕ, zero, suc, ◌+◌, ◌-◌, ◌*◌, ◌/◌, ◌%◌, Bool, true, false, ◌&&◌, List, [], ◌∷◌, ◌++◌, Option, none,
  some, ltb, leb, if◌then◌else◌, Bytes, length,
}

-- %d of a number that is not negative; a number has fewer digits than its value and one more.
unfoldable pub decimal_from : ℕ → ℕ → Bytes → Bytes
decimal_from zero n out = out
decimal_from (suc fuel) n out =
    let more = decimal_from fuel (n / 10) ((b'0' + n % 10) ∷ out) in
    if ltb n 10 then (b'0' + n) ∷ out else more

unfoldable pub decimal : ℕ → Bytes
unfolding decimal_from
decimal n = decimal_from (suc n) n []

unfoldable pub zeros : ℕ → Bytes → Bytes
zeros zero s = s
zeros (suc n) s = b'0' ∷ zeros n s

-- %0wd
unfoldable pub pad : ℕ → ℕ → Bytes
unfolding zeros
pad w n = zeros (w - length (decimal n)) (decimal n)

unfoldable pub is_digit : ℕ → Bool
is_digit c = leb b'0' c && leb c b'9'

unfoldable pub all_digits : Bytes → Bool
unfolding is_digit
all_digits [] = true
all_digits (c ∷ s) = is_digit c && all_digits s

unfoldable pub value_from : ℕ → Bytes → ℕ
value_from n [] = n
value_from n (c ∷ s) = value_from (n * 10 + (c - b'0')) s

-- strconv.ParseInt(v, 10, w) of a text of digits: refused if it is empty or out of range.
unfoldable pub parse_int : ℕ → Bytes → Option ℕ
parse_int bound [] = none
parse_int bound (c ∷ s) = let n = value_from 0 (c ∷ s) in if ltb n bound then some n else none
