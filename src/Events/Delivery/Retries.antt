-- ===== src/Events/Delivery/Retries.antt =====
-- What an attempt leaves of a delivery, and how many attempts there are.
use Prim.Native.Nat.{ℕ, ◌≤◌, ◌<◌, zero, suc}
use runtime_go.Prelude.{
  ◌≡◌, ◌≢◌, refl, sym, ap, ◌∙◌, Bool, true, false, List, [], ◌∷◌, Option, none, some, arith, ◌⊎◌,
  inl, inr, length, ◌+◌, ◌^◌, if◌then◌else◌, ◌||◌,
}
use runtime_go.Events.Delivery.{
  Delivery, DeliveryState, delivery_pending, delivery_succeeded, delivery_failed, Options, Clock,
  outcome_failed, outcome_retrying, Outcome, PostError, conclude, conclude_counted, conclude_failed,
  next_count, is_spent, backoff, backoff_count, backoff_wait,
}
use runtime_go.Events.Delivery.Backoff.{backoff-min, pow_pos}

-- A delivery as an attempt leaves it: due again if and only if it is pending, with attempts left,
-- without an error if it succeeded and with one otherwise.
pub record IsConcluded (max : ℕ) (dl : Delivery) : Type 0 where
  pub waits : dl.state ≡ delivery_pending → (dl.attempt_count < max) × (0 < dl.next_attempt_time)
  pub rests : dl.state ≢ delivery_pending → dl.next_attempt_time ≡ 0
  pub accepted : dl.state ≡ delivery_succeeded → dl.error_message ≡ none
  pub explained : dl.state ≢ delivery_succeeded → (e : PostError) × (dl.error_message ≡ some e)

backoff_pos : (n : ℕ) → 0 < backoff n
backoff_pos zero = unfold backoff backoff_wait in omega arith
backoff_pos (suc n) = omega (arith, backoff-min n, pow_pos n)

next_count_lem : (n m : ℕ) → n < m → m < 2 ^ 31 → next_count n ≡ suc n
unfolding next_count
next_count_lem n m h g = omega (arith, h, g)

unspent : (deleted : Bool) (max n : ℕ) → n < 2 ^ 31 → (deleted || is_spent max n) ≡ false → n < max
unfolding is_spent
unspent deleted max n g h = ground arith

conclude_failed-IsConcluded :
    (opts : Options) (clock : Clock) (deleted : Bool) (dl : Delivery) (e : PostError)
    → dl.attempt_count < 2 ^ 31
    → IsConcluded opts.max_attempts (conclude_failed opts clock deleted dl e).0
unfolding conclude_failed
conclude_failed-IsConcluded opts clock deleted dl e g =
    go (deleted || is_spent opts.max_attempts dl.attempt_count)
      (unspent deleted opts.max_attempts dl.attempt_count g)
  where
    go :
        (b : Bool)
        → (b ≡ false → dl.attempt_count < opts.max_attempts)
        → IsConcluded opts.max_attempts
            (if◌then◌else◌ {A = Delivery × Outcome} b
              (
                record dl {
                  state = delivery_failed;
                  error_message = some e;
                  next_attempt_time = 0;
                },
                outcome_failed,
              )
              (
                record dl {
                  state = delivery_pending;
                  error_message = some e;
                  next_attempt_time = clock.ended + backoff (backoff_count dl.attempt_count);
                },
                outcome_retrying,
              )).0
    go true h = record {
      waits = λ p. cc;
      rests = λ p. refl;
      accepted = λ p. cc;
      explained = λ p. (e, refl);
    }
    go false h = record {
      waits = λ p. (h refl, omega (arith, backoff_pos (backoff_count dl.attempt_count)));
      rests = λ p. absurd (p refl);
      accepted = λ p. cc;
      explained = λ p. (e, refl);
    }

-- An attempt at a delivery with attempts left leaves it concluded, whatever the endpoint
-- answered and whether or not the webhook is still there: pending with attempts left and a next
-- attempt, or without one, with an error unless it succeeded. For a MaxAttempts below 2 ^ 31.
pub conclude-IsConcluded :
    (opts : Options) (clock : Clock) (deleted : Bool) (dl : Delivery)
    (answer : ℕ × Option PostError)
    → dl.attempt_count < opts.max_attempts
    → opts.max_attempts < 2 ^ 31
    → IsConcluded opts.max_attempts (conclude opts clock deleted dl answer).0
unfolding conclude conclude_counted
conclude-IsConcluded opts clock deleted dl (code, none) h g = record {
  waits = λ p. cc;
  rests = λ p. refl;
  accepted = λ p. refl;
  explained = λ p. absurd (p refl);
}
conclude-IsConcluded opts clock deleted dl (code, some e) h g =
    conclude_failed-IsConcluded opts clock deleted
      (record dl { attempt_count = next_count dl.attempt_count; response_code = code }) e
      (omega (arith, h, g, next_count_lem dl.attempt_count opts.max_attempts h g))

conclude_failed-count :
    (opts : Options) (clock : Clock) (deleted : Bool) (dl : Delivery) (e : PostError)
    → (conclude_failed opts clock deleted dl e).0.attempt_count ≡ dl.attempt_count
unfolding conclude_failed
conclude_failed-count opts clock deleted dl e = ground arith

conclude-count :
    (opts : Options) (clock : Clock) (deleted : Bool) (dl : Delivery)
    (answer : ℕ × Option PostError)
    → (conclude opts clock deleted dl answer).0.attempt_count ≡ next_count dl.attempt_count
unfolding conclude conclude_counted
conclude-count opts clock deleted dl (code, none) = refl
conclude-count opts clock deleted dl (code, some e) = conclude_failed-count opts clock deleted _ e

abbrev while_pending : DeliveryState → Delivery → Delivery → Delivery
while_pending delivery_pending more dl = more
while_pending delivery_succeeded more dl = dl
while_pending delivery_failed more dl = dl

while_pending-cases :
    (s : DeliveryState) (more dl : Delivery)
    → ((s ≡ delivery_pending) × (while_pending s more dl ≡ more))
      ⊎ ((s ≢ delivery_pending) × (while_pending s more dl ≡ dl))
while_pending-cases delivery_pending more dl = inl (refl, refl)
while_pending-cases delivery_succeeded more dl = inr (λ e. cc, refl)
while_pending-cases delivery_failed more dl = inr (λ e. cc, refl)

-- The attempts that the rounds make at a delivery while it is pending, one for each answer.
pub retry : Options → List (Clock × (ℕ × Option PostError)) → Delivery → Delivery
retry opts [] dl = dl
retry opts ((clock, answer) ∷ rest) dl =
    let more = retry opts rest (conclude opts clock false dl answer).0 in
    while_pending dl.state more dl

-- However the endpoint answers, a delivery that has attempts left while it is pending is no
-- longer pending once its attempts, those before included, are as many as MaxAttempts, for a
-- MaxAttempts below 2 ^ 31.
pub retry-ends :
    (opts : Options) (answers : List (Clock × (ℕ × Option PostError))) (dl : Delivery)
    → opts.max_attempts < 2 ^ 31
    → (dl.state ≡ delivery_pending → dl.attempt_count < opts.max_attempts)
    → opts.max_attempts ≤ dl.attempt_count + length answers
    → (retry opts answers dl).state ≢ delivery_pending
unfolding retry
retry-ends opts [] dl g h le p = omega (arith, h p, le)
retry-ends opts ((clock, answer) ∷ rest) dl g h le p =
    let dl' = (conclude opts clock false dl answer).0 in
    elim (while_pending-cases dl.state (retry opts rest dl') dl) [
      | inl (s, q) ↦
          let n = conclude-count opts clock false dl answer in
          let m = next_count_lem dl.attempt_count opts.max_attempts (h s) g in
          let c = conclude-IsConcluded opts clock false dl answer (h s) g in
          retry-ends opts rest dl' g (λ e. (c.waits e).0) (omega (arith, n, m, le))
            (ap (λ x. x.state) (sym q) ∙ p)
      | inr (s, q) ↦ s (ap (λ x. x.state) (sym q) ∙ p)
    ]
