-- ===== src/Idempotency/Claim.antt =====
-- What a store promises of its keys, and the calls whose key is taken: they never reach the handler.
use Prim.Native.Nat.{ℕ}
use runtime_go.Prelude.{◌≡◌, refl, ap, ◌∙◌, true, Option, none, some, Bytes, arith}
use runtime_go.Prelude.Outcome.{Result, ok, err}
use runtime_go.Idempotency.{
  Key, StoreError, not_found, failed, Ack, ack, Store, Codec, Options, World, Handler, Message,
  proto, string_field, request_id_field, key_name, claim_key, opts_in, reclaimed, refuse, answer,
  replay_of, replay, claimed, intercept,
}

-- Of any state, whether or not the operation succeeds there. The key that a claim stores carries
-- the store's time.
pub record IsStore {S : Type 0} (store : Store S) (find : S → Bytes → Option Key) : Type 0 where
  pub create-taken :
      (k old : Key) (s : S)
      → find s k.name ≡ some old
      → (e : StoreError) × (store.create k s ≡ (err e, s))
  pub create-err : (k : Key) (s s' : S) (e : StoreError) → store.create k s ≡ (err e, s') → s' ≡ s
  pub get-ok : (n : Bytes) (s : S) (k : Key) → store.get n s ≡ ok k → find s n ≡ some k
  pub get-none : (n : Bytes) (s : S) → store.get n s ≡ err not_found → find s n ≡ none
  pub settle-ok :
      (k : Key) (s s' : S)
      → store.settle_key k s ≡ (ok ack, s')
      → (k' : Key) × (find s' k.name ≡ some k') × (k'.state ≡ k.state) × (k'.response ≡ k.response)
  pub delete-ok : (n : Bytes) (s s' : S) → store.delete n s ≡ (ok ack, s') → find s' n ≡ none

module _ {S W : Type 0} (store : Store S) (find : S → Bytes → Option Key) (codec : Codec)
    (opts : Options) (now : ℕ) where
  reclaimed-data_of :
      (o : Result StoreError Ack × S) (w : World S W)
      → ((reclaimed store codec opts now o w)).1.data_of ≡ w.data_of
  unfolding reclaimed
  reclaimed-data_of (ok _, s) w = refl
  reclaimed-data_of (err e, s) w = refl

  refuse-data_of :
      (k : Key) (n : Bytes) (w : World S W)
      → ((refuse store codec opts now k n w)).1.data_of ≡ w.data_of
  unfolding refuse
  refuse-data_of k n w = ground (arith, reclaimed-data_of (store.delete n w.keys) w)

  replay_of-data_of :
      (o : Result StoreError Key) (n : Bytes) (e : StoreError) (w : World S W)
      → ((replay_of store codec opts now o n e w)).1.data_of ≡ w.data_of
  unfolding replay_of answer
  replay_of-data_of (err not_found) n e w = refl
  replay_of-data_of (err (failed c)) n e w = refl
  replay_of-data_of (ok k) n e w = ground (arith, refuse-data_of k n w)

  -- The call with a claimed name becomes a replay.
  pub intercept-taken :
      IsStore store find
      → (method : Bytes) (h : Handler W) (m : Message) (w : World S W) (old : Key)
      → opts_in m ≡ true
      → find w.keys (key_name codec method (string_field m request_id_field)) ≡ some old
      → (e : StoreError) × (intercept store codec opts now method h (proto m) w
          ≡ replay store codec opts now
              (key_name codec method (string_field m request_id_field))
              e
              w)
  unfolding intercept claim_key
  intercept-taken is method h m w old o f =
      let (e, c) =
        is.create-taken (claim_key codec method (string_field m request_id_field)) old w.keys f in
      (e, rw (o) rw (c) unfold claimed in refl)

  -- For a store that keeps its promises: a call with a request_id whose key exists never changes
  -- what the handlers keep, whatever the key's state is, the clock says and the store answers
  -- when it reads or deletes.
  pub intercept-data_of :
      IsStore store find
      → (method : Bytes) (h : Handler W) (m : Message) (w : World S W) (old : Key)
      → opts_in m ≡ true
      → find w.keys (key_name codec method (string_field m request_id_field)) ≡ some old
      → ((intercept store codec opts now method h (proto m) w)).1.data_of ≡ w.data_of
  unfolding replay
  intercept-data_of is method h m w old o f =
      let n = key_name codec method (string_field m request_id_field) in
      let (e, c) = intercept-taken is method h m w old o f in
      ap (λ r. r.1.data_of) c ∙ replay_of-data_of (store.get n w.keys) n e w
