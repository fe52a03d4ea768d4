-- ===== src/Events/Delivery/Backoff.antt =====
-- The waits between attempts: 30 seconds, doubled, at most six hours.
use Prim.Native.Nat.{ℕ, zero, suc, ◌≤◌}
use runtime_go.Prelude.{
  ◌≡◌, ap, ◌∙◌, inl, inr, Bool-cases, arith, ltb, ◌+◌, ◌-◌, ◌*◌, ◌^◌, min, ltb→ge,
}
use runtime_go.Events.Delivery.{backoff, backoff_wait, seconds, six_hours}

pub pow_pos : (n : ℕ) → 1 ≤ 2 ^ n
pow_pos zero = omega arith
pow_pos (suc n) = omega (arith, pow_pos n)

min_over : (a b m : ℕ) → m ≤ a → m ≤ b → min a m ≡ min b m
min_over a b m h g = omega arith

mul_le : (w p : ℕ) → 1 ≤ p → w ≤ w * p
mul_le w zero h = elim h [ ]
mul_le w (suc p) h = omega arith

double : (w n : ℕ) → w * 2 * 2 ^ n ≡ w * 2 ^ suc n
double w n = grind arith

-- Below a limit, or at it from then on, the loop is a power of two times its start.
backoff_wait-min : (n wait : ℕ) → min (backoff_wait n wait) six_hours ≡ min (wait * 2 ^ n) six_hours
unfolding backoff_wait
backoff_wait-min zero wait = omega arith
backoff_wait-min (suc n) wait = elim (Bool-cases (ltb wait six_hours)) [
  | inl t ↦ rw (t) (backoff_wait-min n (wait * 2) ∙ ap (λ x. min x six_hours) (double wait n))
  | inr f ↦ rw (f) (
      min_over wait (wait * 2 ^ suc n) six_hours (ltb→ge wait six_hours f)
        (omega (arith, ltb→ge wait six_hours f, mul_le wait (2 ^ suc n) (pow_pos (suc n)))))
]

-- The wait after failure n + 1 is 30 seconds times 2 ^ n, cut at six hours.
pub backoff-min : (n : ℕ) → backoff (suc n) ≡ min (seconds 30 * 2 ^ n) six_hours
unfolding backoff
backoff-min n = let p : suc n - 1 ≡ n = omega arith in rw (p) (backoff_wait-min n (seconds 30))

-- The time from the first attempt at a delivery to the one after n waits.
pub total_wait : ℕ → ℕ
total_wait zero = 0
total_wait (suc n) = total_wait n + backoff (suc n)

pow_le : (n k : ℕ) → n ≤ k → 2 ^ n ≤ 2 ^ k
pow_le zero k h = pow_pos k
pow_le (suc n) zero h = elim h [ ]
pow_le (suc n) (suc k) h = omega (arith, pow_le n k (omega (arith, h)))

-- For n up to ten, the first n waits add up to 30 seconds times 2 ^ n, less 30 seconds.
pub total_wait-doubled : (n : ℕ) → n ≤ 10 → total_wait n + seconds 30 ≡ seconds 30 * 2 ^ n
unfolding total_wait
total_wait-doubled zero h = omega arith
total_wait-doubled (suc n) h =
    omega (arith, total_wait-doubled n (omega arith), backoff-min n, pow_le n 9 (omega arith))
