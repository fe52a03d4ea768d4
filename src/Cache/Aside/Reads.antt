-- ===== src/Cache/Aside/Reads.antt =====
-- A read-through view keeps the entries right, and answers with what is there.
use mathlib.Core.Path.{subst}
use runtime_go.Prelude.{
  ◌≡◌, inl, inr, refl, sym, ap, ◌∙◌, Bool-cases, true, false, Option, none, some, Bytes,
}
use runtime_go.Prelude.Outcome.{Result, ok, err, Ack, ack, ok-injective}
use runtime_go.Cache.Keyspace.{entry}
use runtime_go.Cache.Aside.{
  DriverError, Error, is_miss, is_absent, Options, Unpacked, Aside, read, fly, decode, decoded,
  answered, get_or_load, refreshed, refresh, invalidate, dropped,
}
use runtime_go.Cache.Aside.Coherence.{
  IsBackend, IsJson, IsLoader, Valued-carried, Coherent, CoherentBut, Right-carried,
}
use runtime_go.Cache.Aside.Frames.{opened-err, Says}
use runtime_go.Cache.Aside.Claims.{read-Coherent, read-Says}
use runtime_go.Cache.Aside.Loads.{Good, fly-Good}

module _ {T V : Type 0} (a : Aside T V) (holds : T → Bytes → Bytes → Type 0)
    (truth : T → Bytes → Option V) where
  -- A value that is answered is what the loader would load, and an answered absence is one.
  pub record Answers (id : Bytes) (o : Result Error V × T) : Type 0 where
    pub coherent : Coherent a holds truth o.1
    pub ok-truth : (v : V) → o.0 ≡ ok v → truth o.1 id ≡ some v
    pub absent-truth : (e : Error) → o.0 ≡ err e → is_absent e ≡ true → truth o.1 id ≡ none

  module _ (is : IsBackend a holds truth) (json : IsJson a holds truth)
      (loader : IsLoader a holds truth) where
    decoded-Answers :
        (id : Bytes) (o : Result Error Bytes × T)
        → Good a holds truth id o
        → Answers id (decoded a o)
    unfolding decoded decode
    decoded-Answers id (err e, t) g = record {
      coherent = g.coherent;
      ok-truth = λ v h. cc;
      absent-truth = λ x h n. g.absent-truth x (cc) n;
    }
    decoded-Answers id (ok b, t) g =
        let (v, m, s) = g.ok-truth b refl in
        rw (json.unmarshal-marshal v b m) (record {
          coherent = g.coherent;
          ok-truth = λ w h. s ∙ ap some (ok-injective h);
          absent-truth = λ x h n. cc;
        })

    answered-Answers :
        (id : Bytes) (o : Options) (r : Result Error Unpacked × T)
        → Coherent a holds truth r.1
        → Says a holds truth r.1 id r.0
        → ((e : Error) → r.0 ≡ err e → is_absent e ≡ false)
        → Answers id (answered a id o r).1
    unfolding answered
    answered-Answers id o (ok got, t) c s n = elim (Bool-cases got.void) [
      | inl v ↦ rw (v) (record {
        coherent = c;
        ok-truth = λ w h. cc;
        absent-truth = λ x h y. (s got refl).void-none v;
      })
      | inr v ↦ rw (v) (
          decoded-Answers id (ok got.value, t)
            (record {
              coherent = c;
              ok-truth = λ b h.
                  Valued-carried a holds truth t id (ok-injective h) ((s got refl).value-some v);
              absent-truth = λ x h y. cc;
            }))
    ]
    answered-Answers id o (err e, t) c s n =
        let f = n e refl in
        elim (Bool-cases (is_miss e)) [
          | inl m ↦
              rw (m)
                (decoded-Answers id (fly a id o t) (fly-Good a holds truth is json loader id o t c))
          | inr m ↦
              rw (m) (record { coherent = c; ok-truth = λ v h. cc; absent-truth = λ x h y. (cc) })
        ]

    read-err : (id : Bytes) (t : T) (e : Error) → (read a id t).0 ≡ err e → is_absent e ≡ false
    unfolding read
    read-err id t e h = opened-err a (a.driver.get (entry a.keys id) t) e h

    -- Where the backend, json and the loader keep their promises and every entry is right:
    -- get_or_load leaves every entry right, whatever fails, expires or is locked on its way; a value
    -- that it answers, stale or not, is the one that the loader's source has for the id, and it says
    -- that the id is not found only where the source has none.
    pub get_or_load-Answers :
        (id : Bytes) (o : Options) (t : T)
        → Coherent a holds truth t
        → Answers id (get_or_load a id o t).1
    unfolding get_or_load
    get_or_load-Answers id o t c =
        answered-Answers id o (read a id t) (read-Coherent a holds truth is id t c)
          (read-Says a holds truth is id t c) (read-err id t)

    refreshed-state : (o : Result Error Bytes × T) → (refreshed a o).1 ≡ o.1
    unfolding refreshed
    refreshed-state (ok b, t) = refl
    refreshed-state (err e, t) = refl

    pub refresh-Coherent :
        (id : Bytes) (o : Options) (t : T)
        → Coherent a holds truth t
        → Coherent a holds truth (refresh a id o t).1
    unfolding refresh
    refresh-Coherent id o t c =
        subst (Coherent a holds truth) (sym (refreshed-state (fly a id o t)))
          ((fly-Good a holds truth is json loader id o t c).coherent)

    pub dropped-ok :
        (id : Bytes) (o : Result DriverError Ack × T)
        → (dropped a id o).0 ≡ ok ack
        → (o.0 ≡ ok ack) × ((dropped a id o).1 ≡ o.1)
    unfolding dropped
    dropped-ok id (err e, t) h = cc
    dropped-ok id (ok ack, t) h = (refl, refl)

    -- An invalidation that succeeds makes up for what one id's entry got wrong.
    pub invalidate-Coherent :
        (id : Bytes) (t : T)
        → CoherentBut a holds truth id t
        → (invalidate a id t).0 ≡ ok ack
        → Coherent a holds truth (invalidate a id t).1
    unfolding invalidate
    invalidate-Coherent id t c h =
        let k = entry a.keys id in
        let o = a.driver.delete k t in
        let (d, s) = dropped-ok id o h in
        subst (Coherent a holds truth) (sym s) (λ j body e p u.
          Right-carried a holds truth ((is.delete-Keeps k t).truth-keeps j) (
            c j body e
              (λ q. is.delete-ok k body t d (subst (λ i. holds o.1 (entry a.keys i) body) q p))
              ((is.delete-Keeps k t).holds-keeps (entry a.keys j) body p) u))
