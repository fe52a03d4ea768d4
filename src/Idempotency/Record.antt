-- ===== src/Idempotency/Record.antt =====
-- What a call that succeeds leaves under its key.
use Prim.Native.Nat.{ℕ}
use runtime_go.Prelude.{
  ◌≡◌, refl, sym, ap, ◌∙◌, true, List, ◌∷◌, Option, some, Bytes, ◌⊎◌, inl, inr, Bool-cases, arith,
  length, ◌≢◌,
}
use runtime_go.Prelude.Outcome.{Result, ok, err}
use runtime_go.Idempotency.{
  State, in_flight, done, Key, StoreError, not_found, failed, request_in_flight, Error, aborted,
  Ack, ack, Store, Codec, Options, World, Handler, Message, Value, proto, plain, string_field,
  request_id_field, key_name, claim_key, opts_in, is_stale, reclaimed, refuse, replay_of, replay,
  claimed, run_claimed, call, finish, intercept, settle, settled, settle_encoded, settle_failed,
  encode_failed, encode, decode, recorded,
}
use runtime_go.Idempotency.Claim.{IsStore}
use runtime_go.Idempotency.Replay.{
  IsCodec, decode-encode, reported, intercept-found, answer-done, answer-in_flight,
}

-- A key that is done, and whose response decodes to a message.
pub record Records (codec : Codec) (o : Option Key) (m : Message) : Type 0 where
  pub key : Key
  pub is_there : o ≡ some key
  pub is_done : key.state ≡ done
  pub decodes : decode codec key.response ≡ ok m

cons_differs {ℓ} : {A : Type ℓ} (x : A) (xs : List A) → (x ∷ xs) ≢ xs
cons_differs x xs e = omega (arith, ap length e)

State-cases : (s : State) → (s ≡ done) ⊎ (s ≡ in_flight)
State-cases done = inl refl
State-cases in_flight = inr refl

recorded-ok : (o : Result Bytes Message) (m : Message) → recorded o ≡ ok (proto m) → o ≡ ok m
unfolding recorded
recorded-ok (ok x) m e = cc
recorded-ok (err x) m e = cc

module _ {S W : Type 0} (store : Store S) (find : S → Bytes → Option Key) (codec : Codec)
    (opts : Options) (now : ℕ) where
  settled-Records :
      IsStore store find
      → (k : Key) (m : Message) (o : Result StoreError Ack × S) (w w₁ : World S W)
      → store.settle_key k w.keys ≡ o
      → k.state ≡ done
      → decode codec k.response ≡ ok m
      → settled store codec opts now k o w ≡ w₁
      → w₁.log ≡ w.log
      → Records codec (find w₁.keys k.name) m
  unfolding settled
  settled-Records is k m (ok ack, s) w w₁ c d r e l =
      let (k', f, st, rs) = is.settle-ok k w.keys s c in
      record {
        key = k';
        is_there = ap (λ v. find v.keys k.name) (sym e) ∙ f;
        is_done = st ∙ d;
        decodes = ap (decode codec) rs ∙ r;
      }
  settled-Records is k m (err x, s) w w₁ c d r e l =
      elim (cons_differs (settle_failed k.method k.request_id x) w.log (ap (λ v. v.log) e ∙ l)) [ ]

  settle-Records :
      IsStore store find
      → IsCodec codec
      → (k : Key) (m : Message) (w w₁ : World S W) → settle store codec opts now k (proto m) w ≡ w₁
      → w₁.log ≡ w.log
      → Records codec (find w₁.keys k.name) m
  unfolding settle settle_encoded
  settle-Records is ic k m w w₁ e l = go (encode codec m) refl e
    where
      go :
          (o : Result Bytes Bytes)
          → encode codec m ≡ o
          → settle_encoded store codec opts now k o w ≡ w₁
          → Records codec (find w₁.keys k.name) m
      go (ok s) q e =
          settled-Records is (record k { state = done; response = s }) m
            (store.settle_key (record k { state = done; response = s }) w.keys) w w₁ refl refl
            (decode-encode ic m s q) e l
      go (err x) q e =
          elim (cons_differs (encode_failed k.method k.request_id x) w.log
            (ap (λ v. v.log) e ∙ l)) [ ]

  finish-Records :
      IsStore store find
      → IsCodec codec
      → (k : Key) (m : Message) (r : Result Error Value) (w w₁ : World S W)
      → finish store codec opts now k r w ≡ (ok (proto m), w₁)
      → w₁.log ≡ w.log
      → Records codec (find w₁.keys k.name) m
  unfolding finish
  finish-Records is ic k m (err x) w w₁ e l = cc
  finish-Records is ic k m (ok (plain n)) w w₁ e l = cc
  finish-Records is ic k m (ok (proto m')) w w₁ e l = settle-Records is ic k m w w₁ (cc) l

  refused-Refuses :
      (o : Result StoreError Ack × S) (v : Value) (w w₁ : World S W)
      → reclaimed store codec opts now o w ≡ (ok v, w₁)
      → ⊥
  unfolding reclaimed
  refused-Refuses (ok _, s) v w w₁ e = cc
  refused-Refuses (err x, s) v w w₁ e = cc

  refuse-Refuses :
      (k : Key) (n : Bytes) (v : Value) (w w₁ : World S W)
      → refuse store codec opts now k n w ≡ (ok v, w₁)
      → ⊥
  unfolding refuse
  refuse-Refuses k n v w w₁ e = elim (Bool-cases (is_stale opts now k)) [
    | inl t ↦ refused-Refuses (store.delete n w.keys) v w w₁ (sym (rw (t)) ∙ e)
    | inr t ↦
        let p : refuse store codec opts now k n w
            ≡ (err (aborted request_in_flight opts.domain), w) =
          rw (t) in
        cc
  ]

  replay_of-Records :
      IsStore store find
      → (n : Bytes) (e : StoreError) (m : Message) (o : Result StoreError Key) (w w₁ : World S W)
      → store.get n w.keys ≡ o
      → replay_of store codec opts now o n e w ≡ (ok (proto m), w₁)
      → Records codec (find w₁.keys n) m
  unfolding replay_of
  replay_of-Records is n e m (err not_found) w w₁ g q = cc
  replay_of-Records is n e m (err (failed c)) w w₁ g q = cc
  replay_of-Records is n e m (ok k) w w₁ g q = elim (State-cases k.state) [
    | inl d ↦ record {
      key = k;
      is_there =
          ap (λ r. find r.1.keys n) (sym (sym (answer-done store find codec opts now k n w d) ∙ q))
          ∙ is.get-ok n w.keys k g;
      is_done = d;
      decodes =
          recorded-ok (decode codec k.response) m
            (ap (λ r. r.0) (sym (answer-done store find codec opts now k n w d) ∙ q));
    }
    | inr d ↦
        elim (refuse-Refuses k n (proto m) w w₁
          (sym (answer-in_flight store find codec opts now k n w d) ∙ q)) [ ]
  ]

  claimed-Records :
      IsStore store find
      → IsCodec codec
      → (h : Handler W) (req : Value) (k : Key) (m : Message)
      → (o : Result StoreError Ack × S) (w w₁ : World S W)
      → claimed store codec opts now h req k o w ≡ (ok (proto m), w₁)
      → w₁.log ≡ w.log
      → Records codec (find w₁.keys k.name) m
  unfolding claimed run_claimed call replay
  claimed-Records is ic h req k m (err e, s) w w₁ c l =
      replay_of-Records is k.name e m (store.get k.name s) (record w { keys = s }) w₁ refl c
  claimed-Records is ic h req k m (ok _, s) w w₁ c l =
      finish-Records is ic k m (h req w.data_of).0
        (record w { keys = s; data_of = (h req w.data_of).1 }) w₁ c l

  pub intercept-Records :
      IsStore store find
      → IsCodec codec
      → (method : Bytes) (h : Handler W) (m r : Message) (w w₁ : World S W) → opts_in m ≡ true
      → intercept store codec opts now method h (proto m) w ≡ (ok (proto r), w₁)
      → w₁.log ≡ w.log
      → Records codec (find w₁.keys (key_name codec method (string_field m request_id_field))) r
  unfolding intercept claim_key
  intercept-Records is ic method h m r w w₁ o e l =
      let k = claim_key codec method (string_field m request_id_field) in
      claimed-Records is ic h (proto m) k r (store.create k w.keys) w w₁ (sym (rw (o)) ∙ e) l

-- For a store and a codec that keep their promises: where a call with a request_id returned a
-- message and logged no failure, a later call of that method and id returns the same message and
-- changes nothing, whatever its handler, its other fields and the clock are, if the store then
-- reads what it holds.
pub intercept-Replays :
    {S W : Type 0} (store : Store S) (find : S → Bytes → Option Key) (codec : Codec)
    (opts : Options)
    → IsStore store find
    → IsCodec codec
    → (now later : ℕ) (method : Bytes) (h h₂ : Handler W) (m m₂ r : Message) (w w₁ : World S W)
    → opts_in m ≡ true
    → opts_in m₂ ≡ true
    → string_field m₂ request_id_field ≡ string_field m request_id_field
    → intercept store codec opts now method h (proto m) w ≡ (ok (proto r), w₁)
    → w₁.log ≡ w.log
    → ((n : Bytes) → store.get n w₁.keys ≡ reported (find w₁.keys n))
    → intercept store codec opts later method h₂ (proto m₂) w₁ ≡ (ok (proto r), w₁)
unfolding recorded
intercept-Replays store find codec opts is ic now later method h h₂ m m₂ r w w₁ o o₂ same e l g =
    let rec = intercept-Records store find codec opts now is ic method h m r w w₁ o e l in
    let n = key_name codec method (string_field m₂ request_id_field) in
    let there : find w₁.keys n ≡ some rec.key = rw (same) rec.is_there in
    intercept-found store find codec opts later is method h₂ m₂ w₁ rec.key o₂ there (g n)
    ∙ answer-done store find codec opts later rec.key n w₁ rec.is_done
    ∙ rw (rec.decodes)
