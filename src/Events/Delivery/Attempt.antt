-- ===== src/Events/Delivery/Attempt.antt =====
-- One attempt sends at most one request, and only after it claimed the delivery.
use Prim.Native.Nat.{ℕ, ◌≤◌, ◌<◌}
use runtime_go.Prelude.{
  ◌≡◌, ◌≢◌, refl, sym, ap, ◌∙◌, true, false, List, [], ◌∷◌, Option, none, some, Bytes, arith, ◌⊎◌,
  inl, inr, ◌+◌, if◌then◌else◌,
}
use runtime_go.Prelude.Outcome.{Result, ok, err}
use runtime_go.Events.Sealing.{Crypto}
use runtime_go.Events.Signing.{Signer}
use runtime_go.Events.Delivery.{
  Webhook, Delivery, FieldPath, path_next_attempt_time, StoreError, not_found, already_exists,
  conflict, failed, Ack, Update, Options, Client, Clock, World, deliver, claimed, claim, attempt,
  claim_for, Options, ack,
}

-- A store that keeps a version of each delivery, whose name is its etag: every write makes a new
-- one, and a write with another etag than the current one's is no write.
pub record IsGuarded {S : Type 0} (update : Update S) (version : S → Bytes → ℕ) (etag : ℕ → Bytes)
    : Type 0 where
  pub etag-injective : (a b : ℕ) → etag a ≡ etag b → a ≡ b
  pub guarded :
      (d d' : Delivery) (ps : List FieldPath) (s s' : S)
      → update d ps s ≡ (ok d', s')
      → (d.etag ≡ etag (version s d.name)) × (version s d.name < version s' d.name)

module _ {S : Type 0} (update : Update S) (crypto : Crypto) (signer : Signer) (opts : Options)
    (client : Client) (clock : Clock) where
  -- The claim of a delivery, as the attempt writes it.
  abbrev claim_of : Delivery → Delivery
  claim_of dl = record dl { next_attempt_time = clock.start + claim_for }

  -- An attempt that sent something claimed the delivery first.
  abbrev Claims : Delivery → Option Webhook → World S → Result StoreError Ack × World S → Type 0
  Claims dl hook w r =
      (dl' : Delivery) × (s : S) × (update (claim_of dl) (path_next_attempt_time ∷ []) w.store
        ≡ (ok dl', s))
      × (r ≡ deliver update crypto signer opts client clock dl' hook (record w { store = s }))

  claimed-Claims :
      (dl : Delivery) (hook : Option Webhook) (w : World S) (o : Result StoreError Delivery × S)
      → update (claim_of dl) (path_next_attempt_time ∷ []) w.store ≡ o
      → (claimed update crypto signer opts client clock o hook w).1.sent ≢ w.sent
      → Claims dl hook w (claimed update crypto signer opts client clock o hook w)
  unfolding claimed
  claimed-Claims dl hook w (ok dl', s) e h = (dl', s, e, refl)
  claimed-Claims dl hook w (err conflict, s) e h = absurd (h refl)
  claimed-Claims dl hook w (err not_found, s) e h = absurd (h refl)
  claimed-Claims dl hook w (err already_exists, s) e h = absurd (h refl)
  claimed-Claims dl hook w (err (failed c), s) e h = absurd (h refl)

  claim-Claims :
      (dl : Delivery) (hook : Option Webhook) (w : World S)
      → (claim update crypto signer opts client clock dl hook w).1.sent ≢ w.sent
      → Claims dl hook w (claim update crypto signer opts client clock dl hook w)
  unfolding claim
  claim-Claims dl hook w h = claimed-Claims dl hook w _ refl h

  attempt_paused :
      (dl : Delivery) (hook : Webhook) (w : World S)
      → (attempt update crypto signer opts client clock dl (some hook) w ≡ (ok ack, w))
        ⊎ (attempt update crypto signer opts client clock dl (some hook) w
            ≡ claim update crypto signer opts client clock dl (some hook) w)
  unfolding attempt
  attempt_paused dl hook w =
      elim hook.paused
        as (λ b.
          ((if b
              then (ok ack, w)
              else claim update crypto signer opts client clock dl (some hook) w)
            ≡ (ok ack, w))
          ⊎ ((if b
                then (ok ack, w)
                else claim update crypto signer opts client clock dl (some hook) w)
              ≡ claim update crypto signer opts client clock dl (some hook) w)) [
                | true ↦ inl refl
                | false ↦ inr refl
              ]

  attempt-Claims :
      (dl : Delivery) (hook : Option Webhook) (w : World S)
      → (attempt update crypto signer opts client clock dl hook w).1.sent ≢ w.sent
      → Claims dl hook w (attempt update crypto signer opts client clock dl hook w)
  attempt-Claims dl none w h = unfold attempt in claim-Claims dl none w h
  attempt-Claims dl (some hook) w h = elim (attempt_paused dl hook w) [
    | inl p ↦ absurd (h (rw (p)))
    | inr p ↦ rw (p) (claim-Claims dl (some hook) w (λ e. h (rw (p) e)))
  ]

-- For a store whose etags guard its writes: of two attempts at a delivery as it was read once,
-- at most one sends a request, whichever servers make them. Where one sends a request, another that
-- starts in any state of the store no older than the one that the claim of the first left sends
-- none: while the first has still to send, while it has still to write how it ended, and later.
pub attempt-once :
    {S : Type 0} (update : Update S) (version : S → Bytes → ℕ) (etag : ℕ → Bytes)
    → IsGuarded update version etag
    → (crypto : Crypto) (signer : Signer) (opts opts₂ : Options) (client client₂ : Client)
    → (clock clock₂ : Clock) (dl : Delivery) (hook hook₂ : Option Webhook) (w w₂ : World S)
    → (attempt update crypto signer opts client clock dl hook w).1.sent ≢ w.sent
    → version
        (update
          (record dl { next_attempt_time = clock.start + claim_for })
          (path_next_attempt_time ∷ [])
          w.store).1
        dl.name
      ≤ version w₂.store dl.name
    → ¬ ((attempt update crypto signer opts₂ client₂ clock₂ dl hook₂ w₂).1.sent ≢ w₂.sent)
attempt-once update version etag g crypto signer opts opts₂ client client₂ clock clock₂ dl hook
      hook₂ w w₂ h le h₂ =
    let (a, s, e, p) = attempt-Claims update crypto signer opts client clock dl hook w h in
    let (a₂, s₂, e₂, p₂) =
      attempt-Claims update crypto signer opts₂ client₂ clock₂ dl hook₂ w₂ h₂ in
    let (tag, less) = g.guarded _ a _ w.store s e in
    let (tag₂, less₂) = g.guarded _ a₂ _ w₂.store s₂ e₂ in
    let same = g.etag-injective _ _ (sym tag ∙ tag₂) in
    let left = ap (λ r. version r.1 dl.name) e in omega (arith, same, less, left, le)
