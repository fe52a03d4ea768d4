-- ===== src/Events/Feed/Dispatch/Recording.antt =====
-- A change that was recorded has a delivery for every webhook that wants it, and is seen until it
-- is forgotten.
use runtime_go.Prelude.{
  ℕ, ◌≤◌, Bool, true, false, ◌≡◌, refl, sym, ap, ◌∙◌, List, [], ◌∷◌, none, Bytes, All, arith, ◌⊎◌,
  inl, inr, Bool-cases, Option-cases,
}
use mathlib.Core.Path.{subst}
use runtime_go.Prelude.Outcome.{Result, ok, err, Result-cases}
use runtime_go.Events.Delivery.{Webhook, Delivery, StoreError, Ack, ack}
use runtime_go.ContentLine.Line.Equal.{equal_refl}
use runtime_go.Events.Feed.{
  Change, Fetched, FeedStore, Rendering, FeedOptions, Dispatcher, time_at, set_time, forget_before,
  event_id, delivery_name, wants, payload_of, delivery_for,
}
use runtime_go.Events.Feed.Dispatch.{
  fault, seen, is_present, record_hooks, remembered, record_change,
}

-- A store whose CreateDelivery makes the delivery or finds it, and loses none.
pub record KeepsDeliveries {S : Type 0} (store : FeedStore S) (has : S → Bytes → Bool)
    : Type 0 where
  pub created :
      (dl : Delivery) (s : S)
      → fault (store.create_delivery dl s).0 ≡ none
      → has (store.create_delivery dl s).1 dl.name ≡ true
  pub kept :
      (dl : Delivery) (s : S) (n : Bytes)
      → has s n ≡ true
      → has (store.create_delivery dl s).1 n ≡ true

time_at-set_time :
    (m : List (Bytes × ℕ)) (k : Bytes) (t : ℕ) → is_present (time_at (set_time m k t) k) ≡ true
unfolding time_at set_time is_present
time_at-set_time [] k t = rw (equal_refl k)
time_at-set_time ((j, u) ∷ m) k t = ground (arith, time_at-set_time m k t)

forget_before-set_time :
    (m : List (Bytes × ℕ)) (k : Bytes) (t cutoff : ℕ)
    → cutoff ≤ t
    → is_present (time_at (forget_before cutoff (set_time m k t)) k) ≡ true
unfolding forget_before time_at set_time is_present
forget_before-set_time [] k t cutoff h = ground (arith, equal_refl k, h)
forget_before-set_time ((j, u) ∷ m) k t cutoff h =
    ground (arith, forget_before-set_time m k t cutoff h, h)

false_not_true : ◌≡◌ {A = Bool} false true → ⊥
false_not_true e = cc

module _ {S : Type 0} (store : FeedStore S) (has : S → Bytes → Bool) (r : Rendering)
    (opts : FeedOptions) (now : ℕ) where
  record_hooks-kept :
      KeepsDeliveries store has
      → (ws : List Webhook) (c : Change) (f : Fetched) (payload : Bytes) (s : S) (n : Bytes)
      → has s n ≡ true
      → has (record_hooks store r opts now ws c f payload s).1 n ≡ true
  unfolding record_hooks
  record_hooks-kept k [] c f payload s n h = h
  record_hooks-kept k (w ∷ ws) c f payload s n h = grind (arith, record_hooks-kept k ws c f, k.kept)

  abbrev Recorded : Change → S → List Webhook → Type 0
  Recorded c s = All (λ w. wants w c ≡ true → has s (delivery_name r w.name (event_id r c)) ≡ true)

  -- A hook is passed over, or its delivery is made and the others follow.
  record_hooks-cons :
      (w : Webhook) (ws : List Webhook) (c : Change) (f : Fetched) (payload : Bytes) (s : S)
      → (record_hooks store r opts now (w ∷ ws) c f payload s).0 ≡ ok ack
      → ((wants w c ≡ false)
          × (record_hooks store r opts now ws c f payload s
              ≡ record_hooks store r opts now (w ∷ ws) c f payload s))
        ⊎ ((p : Bytes) × (fault (store.create_delivery (delivery_for r w c p now) s).0 ≡ none)
            × (record_hooks store r opts now ws c f p
                  (store.create_delivery (delivery_for r w c p now) s).1
                ≡ record_hooks store r opts now (w ∷ ws) c f payload s))
  unfolding record_hooks
  record_hooks-cons w ws c f payload s h = elim (Bool-cases (wants w c)) [
    | inr e ↦ inl (e, rw (e))
    | inl e ↦ elim (Result-cases (payload_of r opts c f payload)) [
      | inr (x, q) ↦
          let z : (record_hooks store r opts now (w ∷ ws) c f payload s).0 ≡ err x = rw (e, q) in cc
      | inl (p, q) ↦
          elim (Option-cases (fault (store.create_delivery (delivery_for r w c p now) s).0)) [
            | inl z ↦ inr (p, z, rw (e, q, z))
            | inr (x, z) ↦
                let y : (record_hooks store r opts now (w ∷ ws) c f payload s).0 ≡ err x =
                  rw (e, q, z) in
                cc
          ]
    ]
  ]

  record_hooks-Recorded :
      KeepsDeliveries store has
      → (ws : List Webhook) (c : Change) (f : Fetched) (payload : Bytes) (s : S)
      → (record_hooks store r opts now ws c f payload s).0 ≡ ok ack
      → Recorded c (record_hooks store r opts now ws c f payload s).1 ws
  record_hooks-Recorded k [] c f payload s e = tt
  record_hooks-Recorded k (w ∷ ws) c f payload s e =
      let after = record_hooks store r opts now (w ∷ ws) c f payload s in
      elim (record_hooks-cons w ws c f payload s e) [
        | inl (off, q) ↦
            let e₁ = ap (λ x. x.0) q ∙ e in
            (
              λ on. absurd (false_not_true (sym off ∙ on)),
              subst (λ x. Recorded c x.1 ws) q (record_hooks-Recorded k ws c f payload s e₁),
            )
        | inr (p, z, q) ↦
            let dl = delivery_for r w c p now in
            let s₁ = (store.create_delivery dl s).1 in
            let e₁ = ap (λ x. x.0) q ∙ e in
            let there =
              record_hooks-kept k ws c f p s₁ (delivery_name r w.name (event_id r c))
                (unfold delivery_for in k.created dl s z) in
            (
              λ on. subst (λ x. has x.1 (delivery_name r w.name (event_id r c)) ≡ true) q there,
              subst (λ x. Recorded c x.1 ws) q (record_hooks-Recorded k ws c f p s₁ e₁),
            )
      ]

  -- For a store whose CreateDelivery makes a delivery or finds it, and loses none: where a
  -- change is recorded without an error, every webhook that wants it has the delivery named
  -- after the webhook and the change, the dispatcher has seen the change, and it still has after
  -- it has forgotten what is older than a cutoff that is not after the change.
  pub record_change-Recorded :
      KeepsDeliveries store has
      → (hooks : List Webhook) (c : Change) (f : Fetched) (d : Dispatcher S) (cutoff : ℕ)
      → (record_change store r opts now hooks c f d).0 ≡ ok ack
      → cutoff ≤ c.time
      → All
          (λ w.
            wants w c ≡ true
            → has
                (record_change store r opts now hooks c f d).1.store
                (delivery_name r w.name (event_id r c))
              ≡ true)
          hooks
        × (seen r (record_change store r opts now hooks c f d).1.recorded c ≡ true)
        × (seen r (forget_before cutoff (record_change store r opts now hooks c f d).1.recorded) c
            ≡ true)
  unfolding record_change remembered seen
  record_change-Recorded k hooks c f d cutoff e young =
      go (record_hooks store r opts now hooks c f [] d.store)
        (record_hooks-Recorded k hooks c f [] d.store) e
    where
      go :
          (o : Result StoreError Ack × S)
          → (o.0 ≡ ok ack → Recorded c o.1 hooks)
          → (remembered store r opts now c o d).0 ≡ ok ack
          → Recorded c (remembered store r opts now c o d).1.store hooks
            × (seen r (remembered store r opts now c o d).1.recorded c ≡ true)
            × (seen r (forget_before cutoff (remembered store r opts now c o d).1.recorded) c
                ≡ true)
      go (err x, s) h e = cc
      go (ok ack, s) h e = (
        h refl,
        time_at-set_time d.recorded (event_id r c) c.time,
        forget_before-set_time d.recorded (event_id r c) c.time cutoff young,
      )
