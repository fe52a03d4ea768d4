-- ===== src/Idempotency/KeyMap.antt =====
-- A store in memory, like memStore of the tests of grpc/idempotency: a map by name.
use Prim.Native.Nat.{ℕ}
use runtime_go.Prelude.{◌≡◌, refl, sym, ap, ◌∙◌, [], Option, none, some, Bytes, if◌then◌else◌}
use runtime_go.Prelude.Outcome.{Result, ok, err}
use runtime_go.ContentLine.Line.{equal}
use runtime_go.ContentLine.Line.Equal.{equal_refl}
use runtime_go.Idempotency.{Key, StoreError, not_found, failed, Ack, ack, Store}
use runtime_go.Idempotency.Claim.{IsStore}
use runtime_go.Idempotency.Replay.{reported}

abbrev pub KeyMap : Type 0
KeyMap = Bytes → Option Key

abbrev pub put : Bytes → Option Key → KeyMap → KeyMap
put n v s = λ m. if equal m n then v else s m

abbrev pub create_at : ℕ → Option Key → Key → KeyMap → Result StoreError Ack × KeyMap
create_at t (some old) k s = (err (failed []), s)
create_at t none k s = (ok ack, put k.name (some (record k { create_time = t })) s)

abbrev pub map_store : ℕ → Store KeyMap
map_store t = record {
  create = λ k s. create_at t (s k.name) k s;
  get = λ n s. reported (s n);
  settle_key = λ k s. (ok ack, put k.name (some k) s);
  delete = λ n s. (ok ack, put n none s);
}

create_at-err :
    (t : ℕ) (o : Option Key) (k : Key) (s s' : KeyMap) (e : StoreError)
    → create_at t o k s ≡ (err e, s')
    → s' ≡ s
create_at-err t (some old) k s s' e h = cc
create_at-err t none k s s' e h = cc

reported-ok : (o : Option Key) (k : Key) → reported o ≡ ok k → o ≡ some k
unfolding reported
reported-ok none k h = cc
reported-ok (some x) k h = cc

reported-none : (o : Option Key) → reported o ≡ err not_found → o ≡ none
unfolding reported
reported-none none h = refl
reported-none (some x) h = cc

pub map_store-IsStore : (t : ℕ) → IsStore (map_store t) (λ s n. s n)
map_store-IsStore t = record {
  create-taken = λ k old s f. (failed [], rw (f));
  create-err = λ k s s' e h. create_at-err t (s k.name) k s s' e h;
  get-ok = λ n s k h. reported-ok (s n) k h;
  get-none = λ n s h. reported-none (s n) h;
  settle-ok = λ k s s' h. (k, sym (ap (λ p. p.1 k.name) h) ∙ rw (equal_refl k.name), refl, refl);
  delete-ok = λ n s s' h. sym (ap (λ p. p.1 n) h) ∙ rw (equal_refl n);
}
