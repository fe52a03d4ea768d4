-- ===== src/Cache/Aside/Claims.antt =====
-- The claim of an id by the lock of another system.
use mathlib.Core.Path.{subst}
use runtime_go.Prelude.{
  ◌≡◌, inl, inr, refl, sym, Bool, Bool-cases, true, false, Option, none, some, Bytes,
}
use runtime_go.Prelude.Outcome.{Result, ok, err}
use runtime_go.Cache.Keyspace.{entry, lock}
use runtime_go.Cache.Aside.{
  DriverError, Error, Fenced, Unpacked, Aside, opened, read, Claim, joined, published, added, drawn,
  claim, claim_by,
}
use runtime_go.Cache.Aside.Coherence.{
  IsBackend, Valued, Valued-carried, Coherent, Keeps-Coherent, lock-Coherent,
}
use runtime_go.Cache.Aside.Frames.{opened-state, Says, opened-Says}

module _ {T V : Type 0} (a : Aside T V) (holds : T → Bytes → Bytes → Type 0)
    (truth : T → Bytes → Option V) where
  -- Bytes that another process has published are those of what is there.
  pub record Claims (id : Bytes) (o : Claim a × T) : Type 0 where
    pub coherent : Coherent a holds truth o.1
    pub joined-truth : (b : Bytes) → o.0 ≡ joined b → Valued a holds truth o.1 id b

  pub published-Claims :
      (id : Bytes) (o : Result Error Unpacked × T)
      → Coherent a holds truth o.1
      → Says a holds truth o.1 id o.0
      → Claims id (published a o)
  unfolding published
  published-Claims id (err e, t) c s = record { coherent = c; joined-truth = λ b h. cc }
  published-Claims id (ok got, t) c s = elim (Bool-cases got.void) [
    | inl v ↦ rw (v) record { coherent = c; joined-truth = λ b h. cc }
    | inr v ↦ rw (v) record {
      coherent = c;
      joined-truth = λ b h. Valued-carried a holds truth t id (cc) ((s got refl).value-some v);
    }
  ]

  module _ (is : IsBackend a holds truth) where
    pub read-Coherent :
        (id : Bytes) (t : T) → Coherent a holds truth t → Coherent a holds truth (read a id t).1
    unfolding read
    read-Coherent id t c =
        subst (Coherent a holds truth) (sym (opened-state a (a.driver.get (entry a.keys id) t)))
          (Keeps-Coherent a holds truth (is.get-Keeps (entry a.keys id) t) c)

    pub read-Says :
        (id : Bytes) (t : T)
        → Coherent a holds truth t
        → Says a holds truth (read a id t).1 id (read a id t).0
    unfolding read
    read-Says id t c =
        let o = a.driver.get (entry a.keys id) t in
        subst (λ s. Says a holds truth s id (opened a o).0) (sym (opened-state a o))
          (opened-Says a holds truth id o
            (Keeps-Coherent a holds truth (is.get-Keeps (entry a.keys id) t) c)
            (λ b q. is.get-holds (entry a.keys id) b t q))

    pub added-Claims :
        (id token : Bytes) (o : Result DriverError Bool × T)
        → Coherent a holds truth o.1
        → Claims id (added a id token o)
    unfolding added
    added-Claims id token (ok true, t) c = record { coherent = c; joined-truth = λ b h. cc }
    added-Claims id token (ok false, t) c =
        published-Claims id (read a id t) (read-Coherent id t c) (read-Says id t c)
    added-Claims id token (err e, t) c =
        published-Claims id (read a id t) (read-Coherent id t c) (read-Says id t c)

    pub drawn-Claims :
        (id : Bytes) (o : Result Bytes Bytes × T)
        → Coherent a holds truth o.1
        → Claims id (drawn a id o)
    unfolding drawn
    drawn-Claims id (err e, t) c = record { coherent = c; joined-truth = λ b h. cc }
    drawn-Claims id (ok token, t) c =
        added-Claims id token (a.driver.add (lock a.keys id) token a.lease t)
          (lock-Coherent a holds truth id (is.add-Writes (lock a.keys id) token a.lease t) c)

    pub claim_by-Claims :
        (f : Option (Fenced T)) (id : Bytes) (t : T)
        → Coherent a holds truth t
        → Claims id (claim_by a f id t)
    unfolding claim_by
    claim_by-Claims none id t c = record { coherent = c; joined-truth = λ b h. cc }
    claim_by-Claims (some f) id t c =
        drawn-Claims id (a.random t) (Keeps-Coherent a holds truth (is.random-Keeps t) c)

    pub claim-Claims : (id : Bytes) (t : T) → Coherent a holds truth t → Claims id (claim a id t)
    unfolding claim
    claim-Claims id t c = claim_by-Claims a.fenced id t c
