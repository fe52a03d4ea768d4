-- ===== src/Idempotency/Replay.antt =====
-- What a retried request gets: the recorded response, a refusal, or a run of its own.
use runtime_go.Prelude.{
  ℕ, ◌≡◌, ◌≢◌, ◌↔◌, ◌⊎◌, inl, inr, refl, sym, ap, ◌∙◌, Bool, Bool-cases, true, false, Option, none,
  some, Bytes, arith, ◌<◌, ◌≤◌, ◌+◌, ◌*◌, ◌^◌,
}
use runtime_go.Prelude.Outcome.{Result, ok, err, bind-eq-ok}
use runtime_go.Idempotency.{
  in_flight, done, Key, StoreError, not_found, request_in_flight, request_abandoned, aborted, ack,
  Store, Codec, Options, World, Handler, Message, proto, string_field, request_id_field, key_name,
  Error, Value, opts_in, is_stale, stale_limit, claim_key, Ack, reclaimed, refuse, answer,
  replay_of, replay, intercept, encode, decode, recorded,
}
use runtime_go.Idempotency.Claim.{IsStore, intercept-taken}
use runtime_go.Idempotency.Run.{intercept-call}

-- protojson and anypb read back what they wrote.
pub record IsCodec (codec : Codec) : Type 0 where
  pub unpack-pack : (m : Message) (a : Bytes × Bytes) → codec.pack m ≡ ok a → codec.unpack a ≡ ok m
  pub unmarshal-marshal :
      (a : Bytes × Bytes) (s : Bytes) → codec.marshal a ≡ ok s → codec.unmarshal s ≡ ok a

-- A read that finds what is there.
unfoldable pub reported : Option Key → Result StoreError Key
reported none = err not_found
reported (some k) = ok k

pub decode-encode :
    {codec : Codec}
    → IsCodec codec
    → (m : Message) (s : Bytes) → encode codec m ≡ ok s
    → decode codec s ≡ ok m
unfolding encode decode
decode-encode {codec} is m s e =
    let (a, p, q) = bind-eq-ok (codec.pack m) codec.marshal e in
    rw (is.unmarshal-marshal a s q) (is.unpack-pack m a p)

-- The limit that Interceptor fills in where StaleAfter is zero.
abbrev pub IsLimit : Options → ℕ → Type 0
IsLimit opts limit =
    ((opts.stale_after ≡ 0) × (limit ≡ 600 * 10 ^ 9))
    ⊎ ((opts.stale_after ≢ 0) × (limit ≡ opts.stale_after))

true_not_false : ◌≡◌ {A = Bool} true false → ⊥
true_not_false e = cc

too_old :
    (now : ℕ) (k : Key) (limit : ℕ)
    → 0 < k.create_time
    → k.create_time + limit < now
    → ¬ ((k.create_time ≡ 0) ⊎ (now ≤ k.create_time + limit))
too_old now k limit pos old (inl z) = omega (arith, pos, z)
too_old now k limit pos old (inr z) = omega (arith, old, z)

is_stale-young :
    (opts : Options) (now : ℕ) (k : Key) (limit : ℕ)
    → IsLimit opts limit
    → (is_stale opts now k ≡ false) ↔ ((k.create_time ≡ 0) ⊎ (now ≤ k.create_time + limit))
unfolding is_stale stale_limit
is_stale-young opts now k limit l = elim l [
  | inl (z, e) ↦ rw (z, e) (ground arith)
  | inr (n, e) ↦ ground arith
]

module _ {S W : Type 0} (store : Store S) (find : S → Bytes → Option Key) (codec : Codec)
    (opts : Options) (now : ℕ) where
  pub answer-done :
      (k : Key) (n : Bytes) (w : World S W)
      → k.state ≡ done
      → answer store codec opts now k n w ≡ (recorded (decode codec k.response), w)
  unfolding answer
  answer-done k n w d = rw (d)

  pub answer-in_flight :
      (k : Key) (n : Bytes) (w : World S W)
      → k.state ≡ in_flight
      → answer store codec opts now k n w ≡ refuse store codec opts now k n w
  unfolding answer
  answer-in_flight k n w d = rw (d)

  pub intercept-found :
      IsStore store find
      → (method : Bytes) (h : Handler W) (m : Message) (w : World S W) (k : Key) → opts_in m ≡ true
      → (let n = key_name codec method (string_field m request_id_field) in
          (find w.keys n ≡ some k)
          → (store.get n w.keys ≡ reported (find w.keys n))
          → (intercept store codec opts now method h (proto m) w
              ≡ answer store codec opts now k n w))
  unfolding replay replay_of reported
  intercept-found is method h m w k o f g =
      let (e, c) = intercept-taken store find codec opts now is method h m w k o f in c ∙ rw (g, f)

  reclaimed-abandons :
      (o : Result StoreError Ack × S) (w : World S W)
      → (reclaimed store codec opts now o w).0 ≢ err (aborted request_in_flight opts.domain)
  unfolding reclaimed
  reclaimed-abandons (ok _, s) w h = cc
  reclaimed-abandons (err e, s) w h = cc

  refuse-young :
      (k : Key) (n : Bytes) (w : World S W)
      → (refuse store codec opts now k n w ≡ (err (aborted request_in_flight opts.domain), w))
        ↔ (is_stale opts now k ≡ false)
  unfolding refuse
  refuse-young k n w = elim (Bool-cases (is_stale opts now k)) [
    | inl t ↦ (
      λ h.
          let e : refuse store codec opts now k n w
              ≡ reclaimed store codec opts now (store.delete n w.keys) w =
            rw (t) refl in
          absurd (
            reclaimed-abandons (store.delete n w.keys) w
              (ap (λ (r : Result Error Value × World S W). r.0) (sym e ∙ h))),
      λ f. absurd (true_not_false (sym t ∙ f)),
    )
    | inr f ↦ (λ h. f, λ g. rw (f) refl)
  ]

  -- Where the store reads the key of a call with a request_id, and the key is in flight: the call
  -- is refused as in flight, and nothing changes, if and only if the key has no create time, or no
  -- more than the limit has passed since: StaleAfter, or ten minutes where that is zero. At the
  -- limit itself the key still counts.
  pub intercept-in_flight :
      IsStore store find
      → (method : Bytes) (h : Handler W) (m : Message) (w : World S W) (k : Key) (limit : ℕ)
      → opts_in m ≡ true
      → find w.keys (key_name codec method (string_field m request_id_field)) ≡ some k
      → store.get (key_name codec method (string_field m request_id_field)) w.keys
        ≡ reported (find w.keys (key_name codec method (string_field m request_id_field)))
      → k.state ≡ in_flight
      → IsLimit opts limit
      → (intercept store codec opts now method h (proto m) w
          ≡ (err (aborted request_in_flight opts.domain), w))
        ↔ ((k.create_time ≡ 0) ⊎ (now ≤ k.create_time + limit))
  intercept-in_flight is method h m w k limit o f g d l =
      let c = intercept-found is method h m w k o f g ∙ answer-in_flight k _ w d in
      let (to, from) = refuse-young k _ w in
      let (young, old) = is_stale-young opts now k limit l in
      (λ e. young (to (sym c ∙ e)), λ e. c ∙ from (old e))

  -- Where the store reads the key of a call with a request_id, and the key is in flight, was made
  -- longer ago than the limit, StaleAfter or ten minutes where that is zero, and is deleted: the
  -- call is refused as abandoned, nothing else changes, and the key is gone; and the next call of
  -- the method with the id, if the store then creates its key, answers what its own handler does,
  -- and keeps what that changes.
  pub intercept-abandoned :
      IsStore store find
      → (method : Bytes) (h : Handler W) (m : Message) (w : World S W) (k : Key) (limit : ℕ)
        (s s₁ : S)
      → opts_in m ≡ true
      → find w.keys (key_name codec method (string_field m request_id_field)) ≡ some k
      → store.get (key_name codec method (string_field m request_id_field)) w.keys
        ≡ reported (find w.keys (key_name codec method (string_field m request_id_field)))
      → k.state ≡ in_flight
      → IsLimit opts limit
      → 0 < k.create_time
      → k.create_time + limit < now
      → store.delete (key_name codec method (string_field m request_id_field)) w.keys ≡ (ok ack, s)
      → (later : ℕ) (h₂ : Handler W) (m₂ : Message) → opts_in m₂ ≡ true
      → string_field m₂ request_id_field ≡ string_field m request_id_field
      → store.create (claim_key codec method (string_field m₂ request_id_field)) s ≡ (ok ack, s₁)
      → (intercept store codec opts now method h (proto m) w
          ≡ (err (aborted request_abandoned opts.domain), record w { keys = s }))
        × (find s (key_name codec method (string_field m₂ request_id_field)) ≡ none)
        × ((intercept store codec opts later method h₂ (proto m₂) (record w { keys = s })).0
            ≡ (h₂ (proto m₂) w.data_of).0)
        × ((intercept store codec opts later method h₂ (proto m₂) (record w { keys = s })).1.data_of
            ≡ (h₂ (proto m₂) w.data_of).1)
  unfolding refuse
  intercept-abandoned is method h m w k limit s s₁ o f g d l pos old del later h₂ m₂ o₂ same made =
      let (young, _) = is_stale-young opts now k limit l in
      let t : is_stale opts now k ≡ true = elim (Bool-cases (is_stale opts now k)) [
        | inl t ↦ t
        | inr u ↦ absurd (too_old now k limit pos old (young u))
      ] in
      let ran =
        intercept-call store find codec opts later method h₂ m₂ (record w { keys = s }) s₁ o₂
          made in
      (
        intercept-found is method h m w k o f g
            ∙ answer-in_flight k _ w d
            ∙ rw (t, del) unfold reclaimed in refl,
        rw (same) (is.delete-ok _ w.keys s del),
        ran.0,
        ran.1,
      )
