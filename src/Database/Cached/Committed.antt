-- ===== src/Database/Cached/Committed.antt =====
-- A transaction through a cached driver leaves the cache's entries right.
use mathlib.Core.Path.{subst}
use runtime_go.Prelude.{
  ◌≡◌, ◌≢◌, refl, sym, ap, ◌∙◌, Bool-cases, inl, inr, false, List, [], ◌∷◌, Option, Bytes, All,
}
use runtime_go.Prelude.Outcome.{Result, ok, err, Ack, ok-injective}
use runtime_go.ContentLine.Line.{equal}
use runtime_go.ContentLine.Line.Equal.{equal_sound}
use runtime_go.Cache
use runtime_go.Cache.Keyspace.{entry}
use runtime_go.Cache.Aside.{Envelope, invalidate}
use runtime_go.Cache.Aside.Coherence.{IsBackend, IsJson, Right, Keeps-Coherent, Right-carried}
use runtime_go.Cache.Aside.Reads.{dropped-ok}
use runtime_go.Database.Cached.{Error, Resource, View, Driver, World, aside, invalidated, forget}
use runtime_go.Database.Cached.Adapter.{Settings, dropped, from_aside}
use runtime_go.Database.Cached.Coherence.{
  driver_over, view, truth, body_of, IsStore, Untouched-Keeps, Sound, Drops,
}
use runtime_go.Database.Cached.Loading.{view-IsLoader, aside-only}
use runtime_go.Database.Cached.Transactions.{
  Touch, Recorded, Transact, Write, recorder, closed, forget_all, ended, run, write_all,
}
use runtime_go.Database.Cached.Recording.{
  touches, IsTransact, AnswersKeys, IsTouch, write_all-Progress, start-Progress,
}

module _ {T M : Type 0} (d : Driver T M) (s : Settings T) (r : Resource)
    (holds : T → Bytes → Bytes → Type 0) (records : T → Bytes → Option M)
    (st : IsStore d s r holds records)
    (back : IsBackend (view d s r) holds (truth d s r holds records))
    (json : IsJson (view d s r) holds (truth d s r holds records)) where
  -- Every entry is right but those of the keys touched.
  abbrev CoherentExcept : List Touch → T → Type 0
  CoherentExcept xs t =
      (j body : Bytes) (e : Envelope)
      → touches xs j ≡ false
      → holds t (Cache.Keyspace.entry (view d s r).keys j) body
      → (view d s r).json.unframe body ≡ ok e
      → Right (view d s r) holds (truth d s r holds records) t j e.void e.value

  record IsExcept (xs : List Touch) (w : World T) : Type 0 where
    except : CoherentExcept xs w.outer
    only : All (λ (q : Resource). q ≡ r) w.asides

  -- A drop of an entry that succeeds.
  drop-CoherentExcept :
      (x : Touch) (xs : List Touch) (t : T)
      → CoherentExcept (x ∷ xs) t
      → Drops d s r x.key t
      → CoherentExcept xs (invalidate (view d s r) x.key t).1
  unfolding invalidate touches
  drop-CoherentExcept x xs t c h j body e f p u =
      let k = Cache.Keyspace.entry (view d s r).keys x.key in
      let o = (view d s r).driver.delete k t in
      let (g, q) =
        dropped-ok (view d s r) holds (truth d s r holds records) back json
          (view-IsLoader d s r holds records st) x.key o h in
      let p' = subst (λ y. holds y (Cache.Keyspace.entry (view d s r).keys j) body) q p in
      subst (λ y. Right (view d s r) holds (truth d s r holds records) y j e.void e.value) (sym q)
        (elim (Bool-cases (equal x.key j)) [
          | inl m ↦ absurd (
              back.delete-ok k body t g (
                subst (λ i. holds o.1 (Cache.Keyspace.entry (view d s r).keys i) body)
                  (sym (equal_sound x.key j m)) p'))
          | inr m ↦
              Right-carried (view d s r) holds (truth d s r holds records)
                ((back.delete-Keeps k t).truth-keeps j)
                (c j body e (rw (m) f)
                  ((back.delete-Keeps k t).holds-keeps (Cache.Keyspace.entry (view d s r).keys j)
                    body p')
                  u)
        ])

  dropped-IsExcept :
      (xs : List Touch) (o : Result Cache.Aside.Error Ack × T) (asides : List Resource)
      → All (λ (q : Resource). q ≡ r) asides
      → CoherentExcept xs o.1
      → IsExcept xs (invalidated (driver_over s d) asides (dropped s o))
  unfolding invalidated dropped
  dropped-IsExcept xs (ok x, t) asides a c = record { except = c; only = a }
  dropped-IsExcept xs (err x, t) asides a c = record { except = c; only = a }

  forget-IsExcept :
      (key : Bytes) (xs : List Touch) (asides : List Resource) (t : T)
      → key ≢ []
      → All (λ (q : Resource). q ≡ r) asides
      → CoherentExcept (record { res = r; key = key } ∷ xs) t
      → Drops d s r key t
      → IsExcept xs (forget (driver_over s d) r key (record { asides = asides; outer = t }))
  unfolding forget from_aside
  forget-IsExcept [] xs asides t n a c h = absurd (n refl)
  forget-IsExcept (k ∷ key) xs asides t n a c h =
      let (e, b) = aside-only d s r holds records asides a in
      subst
        (λ (v : View T). IsExcept xs (
          invalidated (driver_over s d) (aside (driver_over s d) r asides).1
            (v.invalidate (k ∷ key) t)))
        (sym e)
        (dropped-IsExcept xs (invalidate (view d s r) (k ∷ key) t)
          (aside (driver_over s d) r asides).1 b
          (drop-CoherentExcept (record { res = r; key = k ∷ key }) xs t c h))

  module _ (drops : (key : Bytes) (t : T) → Drops d s r key t) where
    forget_all-Sound :
        (xs : List Touch) (w : World T)
        → All (IsTouch d s r holds records st) xs
        → IsExcept xs w
        → Sound d s r holds records (forget_all (driver_over s d) xs w)
    unfolding forget_all touches
    forget_all-Sound [] w v h = record {
      coherent = λ j body e p u. h.except j body e refl p u;
      only = h.only;
    }
    forget_all-Sound (x ∷ xs) w v h =
        let (f, n) = v.0 in
        forget_all-Sound xs (forget (driver_over s d) x.res x.key w) v.1 (
          subst (λ (q : Resource). IsExcept xs (forget (driver_over s d) q x.key w)) (sym f)
            (forget-IsExcept x.key xs w.asides w.outer n h.only
              (λ j body e t p u. h.except j body e t p u) (drops x.key w.outer)))

    -- What a body has done, closed.
    closed-touched :
        (o : Result Error Ack × Recorded T) (xs : List Touch)
        → (closed (driver_over s d) o).0 ≡ ok xs
        → (o.1.touched ≡ xs) × ((closed (driver_over s d) o).1 ≡ o.1.outer)
    unfolding closed
    closed-touched (ok _, w) xs h = (ok-injective h, refl)
    closed-touched (err e, w) xs h = cc

    ended-Sound :
        (asides : List Resource) (o : Result Error (List Touch) × T)
        → ((e : Error)
            → o.0 ≡ err e
            → Sound d s r holds records (record { asides = asides; outer = o.1 }))
        → ((xs : List Touch)
            → o.0 ≡ ok xs
            → All (IsTouch d s r holds records st) xs
              × IsExcept xs (record { asides = asides; outer = o.1 }))
        → Sound d s r holds records (ended (driver_over s d) asides o).1
    unfolding ended
    ended-Sound asides (err e, t) f g = f e refl
    ended-Sound asides (ok xs, t) f g =
        let (v, h) = g xs refl in forget_all-Sound xs (record { asides = asides; outer = t }) v h

    -- A transaction of writes, whether it commits or not.
    pub run-Sound :
        (transact : Transact T)
        → IsTransact d s r holds records st transact
        → AnswersKeys d s r holds records st
        → (ws : List (Write M)) (w : World T) → Sound d s r holds records w
        → Sound d s r holds records
            (run (driver_over s d) transact (λ store. write_all store r ws) w).1
    unfolding run
    run-Sound transact is keys ws w h =
        let body : T → Result Error Ack × Recorded T =
          λ t. write_all (recorder (driver_over s d)) r ws (record { outer = t; touched = [] }) in
        let f : T → Result Error (List Touch) × T = λ t. closed (driver_over s d) (body t) in
        ended-Sound w.asides (transact f w.outer)
          (λ e q. record {
            coherent =
                Keeps-Coherent (view d s r) holds (truth d s r holds records)
                  (Untouched-Keeps d s r holds records (is.rollback f w.outer e q)) h.coherent;
            only = h.only;
          })
          (λ xs q.
            let (t, before, g, behind) = is.commit f w.outer xs q in
            let p =
              write_all-Progress d s r holds records st keys t ws
                (record { outer = t; touched = [] }) (start-Progress d s r holds records st t) in
            let (e, m) = closed-touched (body t) xs g in
            (
              subst (All (IsTouch d s r holds records st)) e p.valid,
              record {
                except = λ j bytes env n y u.
                    Right-carried (view d s r) holds (truth d s r holds records)
                      (ap (body_of d s r holds records) (
                        behind.records-same j
                        ∙ ap (λ z. records z j) m
                        ∙ p.records-others j (ap (λ z. touches z j) e ∙ n)
                        ∙ before.records-same j))
                      (h.coherent j bytes env
                        (let k = entry (view d s r).keys j in
                          before.holds-same k bytes (
                            p.holds-same k bytes
                              (subst (λ (z : T). holds z k bytes) m (behind.holds-same k bytes y))))
                        u);
                only = h.only;
              },
            ))
