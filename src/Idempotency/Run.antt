-- ===== src/Idempotency/Run.antt =====
-- The call that claims its key: it answers as its handler does, and a failed handler frees the key.
use Prim.Native.Nat.{ℕ}
use runtime_go.Prelude.{◌≡◌, refl, true, Option, none, Bytes}
use runtime_go.Prelude.Outcome.{Result, ok, err}
use runtime_go.Idempotency.{
  Key, StoreError, Error, Ack, ack, Store, Codec, Options, World, Handler, Message, Value, proto,
  plain, string_field, request_id_field, key_name, claim_key, opts_in, claimed, run_claimed, call,
  finish, released, intercept, settle, settled, settle_encoded,
}
use runtime_go.Idempotency.Claim.{IsStore}

module _ {S W : Type 0} (store : Store S) (find : S → Bytes → Option Key) (codec : Codec)
    (opts : Options) (now : ℕ) where
  settled-data_of :
      (k : Key) (o : Result StoreError Ack × S) (w : World S W)
      → (settled store codec opts now k o w).data_of ≡ w.data_of
  unfolding settled
  settled-data_of k (ok _, s) w = refl
  settled-data_of k (err e, s) w = refl

  settle_encoded-data_of :
      (k : Key) (o : Result Bytes Bytes) (w : World S W)
      → (settle_encoded store codec opts now k o w).data_of ≡ w.data_of
  unfolding settle_encoded
  settle_encoded-data_of k (ok s) w = settled-data_of _ _ w
  settle_encoded-data_of k (err e) w = refl

  released-data_of :
      (k : Key) (o : Result StoreError Ack × S) (w : World S W)
      → (released store codec opts now k o w).data_of ≡ w.data_of
  unfolding released
  released-data_of k (ok _, s) w = refl
  released-data_of k (err e, s) w = refl

  finish-data_of :
      (k : Key) (r : Result Error Value) (w : World S W)
      → ((finish store codec opts now k r w).0 ≡ r)
        × ((finish store codec opts now k r w).1.data_of ≡ w.data_of)
  unfolding finish settle
  finish-data_of k (err e) w = (refl, released-data_of k _ w)
  finish-data_of k (ok (plain n)) w = (refl, refl)
  finish-data_of k (ok (proto m)) w = (refl, settle_encoded-data_of k _ w)

  -- A call that claims its key returns what its handler returned and keeps what the handler
  -- changed, whether or not the outcome can then be recorded or the key released.
  pub intercept-call :
      (method : Bytes) (h : Handler W) (m : Message) (w : World S W) (s : S)
      → opts_in m ≡ true
      → store.create (claim_key codec method (string_field m request_id_field)) w.keys ≡ (ok ack, s)
      → ((intercept store codec opts now method h (proto m) w).0 ≡ (h (proto m) w.data_of).0)
        × ((intercept store codec opts now method h (proto m) w).1.data_of
            ≡ (h (proto m) w.data_of).1)
  unfolding intercept
  intercept-call method h m w s o c =
      rw (o, c) (unfold claimed run_claimed call in finish-data_of _ _ _)

  -- Where a call claimed its key and its handler failed, the handler's error is returned as it
  -- is, and the key is gone if the store deletes it.
  pub intercept-released :
      IsStore store find
      → (method : Bytes) (h : Handler W) (m : Message) (w : World S W) (s s₁ : S) (e : Error)
      → opts_in m ≡ true
      → store.create (claim_key codec method (string_field m request_id_field)) w.keys ≡ (ok ack, s)
      → (h (proto m) w.data_of).0 ≡ err e
      → store.delete (key_name codec method (string_field m request_id_field)) s ≡ (ok ack, s₁)
      → ((intercept store codec opts now method h (proto m) w).0 ≡ err e)
        × (find
              (intercept store codec opts now method h (proto m) w).1.keys
              (key_name codec method (string_field m request_id_field))
            ≡ none)
  unfolding intercept
  intercept-released is method h m w s s₁ e o c f d =
      rw (o, c)
        (unfold claimed run_claimed call in
          rw (f)
            (unfold finish claim_key in rw (d) (unfold released in (refl, is.delete-ok _ s s₁ d))))
