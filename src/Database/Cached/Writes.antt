-- ===== src/Database/Cached/Writes.antt =====
-- A cached driver's Create, Update and Delete, and sequences of operations of one resource.
use mathlib.Core.Path.{subst}
use runtime_go.Prelude.{◌≡◌, ◌≢◌, refl, sym, ap, List, [], ◌∷◌, Option, Bytes, All}
use runtime_go.Prelude.Outcome.{Result, ok, err, Ack, ack, ok-injective}
use runtime_go.Cache
use runtime_go.Cache.Aside.{Aside, Options, is_absent, get_or_load, invalidate}
use runtime_go.Cache.Aside.Coherence.{
  IsBackend, IsJson, Coherent, CoherentBut, Keeps-Coherent, Right-carried,
}
use runtime_go.Cache.Aside.Reads.{invalidate-Coherent, refresh-Coherent}
use runtime_go.Database.Cached.{
  Error, Resource, View, WriteResult, Driver, World, either_key, key_of, load_of, aside,
  invalidated, forget, forget_known, created, create, updated, update, deleted, delete, get,
}
use runtime_go.Database.Cached.Transactions.{
  Transact, Write, creating, updating, deleting, Operation, reading, refreshing, writing,
  transacting, run, write_all,
}
use runtime_go.Database.Cached.Recording.{IsTransact, AnswersKeys}
use runtime_go.Database.Cached.Committed.{run-Sound}
use runtime_go.Database.Cached.Lookups.{get-Reads}
use runtime_go.Database.Cached.Adapter.{Settings, dropped, background, from_aside}
use runtime_go.Database.Cached.Coherence.{
  driver_over, view, truth, Untouched, body_of, Touched, IsStore, IsProto, Untouched-Keeps, Sound,
  Reads, Drops,
}
use runtime_go.Database.Cached.Loading.{view-IsLoader, aside-only}

module _ {T M : Type 0} (d : Driver T M) (s : Settings T) (r : Resource)
    (transact : Transact T) where
  unfoldable pub perform_write : Write M → World T → World T
  perform_write (creating m) w = (create d r m w).1
  perform_write (updating m) w = (update d r m w).1
  perform_write (deleting key) w = (delete d r key w).1

  unfoldable pub perform : Operation M → World T → World T
  perform (reading key) w = (get d r key w).1
  perform (refreshing key) w = record w { outer = background s (load_of d r) key w.outer }
  perform (writing x) w = perform_write x w
  perform (transacting xs) w = (run d transact (λ store. write_all store r xs) w).1

  unfoldable pub perform_all : List (Operation M) → World T → World T
  perform_all [] w = w
  perform_all (o ∷ os) w = perform_all os (perform o w)

module _ {T M : Type 0} (d : Driver T M) (s : Settings T) (r : Resource)
    (holds : T → Bytes → Bytes → Type 0) (records : T → Bytes → Option M)
    (st : IsStore d s r holds records) (proto : IsProto d s r holds records)
    (back : IsBackend (view d s r) holds (truth d s r holds records))
    (json : IsJson (view d s r) holds (truth d s r holds records)) where
  Touched-CoherentBut :
      (key : Bytes) (t t' : T)
      → Coherent (view d s r) holds (truth d s r holds records) t
      → Touched d s r holds records key t t'
      → CoherentBut (view d s r) holds (truth d s r holds records) key t'
  Touched-CoherentBut key t t' c u j body e n h f =
      Right-carried (view d s r) holds (truth d s r holds records)
        (ap (body_of d s r holds records) (u.records-others j n))
        (c j body e (u.holds-same (Cache.Keyspace.entry (view d s r).keys j) body h) f)

  dropped-Sound :
      (o : Result Cache.Aside.Error Ack × T) (asides : List Resource)
      → All (λ (q : Resource). q ≡ r) asides
      → Coherent (view d s r) holds (truth d s r holds records) o.1
      → Sound d s r holds records (invalidated (driver_over s d) asides (dropped s o))
  unfolding invalidated dropped
  dropped-Sound (ok x, t) asides a c = record { coherent = c; only = a }
  dropped-Sound (err x, t) asides a c = record { coherent = c; only = a }

  invalidated-Sound :
      (key : Bytes) (asides : List Resource) (t : T)
      → All (λ (q : Resource). q ≡ r) asides
      → CoherentBut (view d s r) holds (truth d s r holds records) key t
      → Drops d s r key t
      → Sound d s r holds records (
          invalidated
            (driver_over s d)
            asides
            ((from_aside s (load_of (driver_over s d) r)).invalidate key t))
  unfolding invalidated from_aside
  invalidated-Sound key asides t a c h = dropped-Sound (invalidate (view d s r) key t) asides a (
      invalidate-Coherent (view d s r) holds (truth d s r holds records) back json
        (view-IsLoader d s r holds records st) key t c h)

  forget-Sound :
      (key : Bytes) (asides : List Resource) (t : T)
      → key ≢ []
      → All (λ (q : Resource). q ≡ r) asides
      → CoherentBut (view d s r) holds (truth d s r holds records) key t
      → Drops d s r key t
      → Sound d s r holds records
          (forget (driver_over s d) r key (record { asides = asides; outer = t }))
  unfolding forget
  forget-Sound [] asides t n a c h = absurd (n refl)
  forget-Sound (x ∷ key) asides t n a c h =
      let (e, b) = aside-only d s r holds records asides a in
      subst
        (λ (v : View T). Sound d s r holds records (
          invalidated (driver_over s d) (aside (driver_over s d) r asides).1
            (v.invalidate (x ∷ key) t)))
        (sym e) (invalidated-Sound (x ∷ key) (aside (driver_over s d) r asides).1 t b c h)

  forget_known-Sound :
      (k : Result Error Bytes) (key : Bytes) (asides : List Resource) (t t' : T)
      → k ≡ ok key
      → key ≢ []
      → Sound d s r holds records (record { asides = asides; outer = t })
      → Touched d s r holds records key t t'
      → Drops d s r key t'
      → Sound d s r holds records
          (forget_known (driver_over s d) r k (record { asides = asides; outer = t' }))
  unfolding forget_known
  forget_known-Sound (err e) key asides t t' f n w u h = cc
  forget_known-Sound (ok k) key asides t t' f n w u h =
      subst
        (λ (q : Bytes).
          Sound d s r holds records
            (forget (driver_over s d) r q (record { asides = asides; outer = t' })))
        (sym (ok-injective f))
        (forget-Sound key asides t' n w.only (Touched-CoherentBut key t t' w.coherent u) h)

  Untouched-Sound :
      (w : World T) (t' : T)
      → Sound d s r holds records w
      → Untouched d s r holds records w.outer t'
      → Sound d s r holds records (record { asides = w.asides; outer = t' })
  Untouched-Sound w t' h u = record {
    coherent =
        Keeps-Coherent (view d s r) holds (truth d s r holds records)
          (Untouched-Keeps d s r holds records u) h.coherent;
    only = h.only;
  }

  created-Sound :
      (m : M) (w : World T) (o : Result Error (WriteResult M) × T)
      → d.next.create r m w.outer ≡ o
      → Sound d s r holds records w
      → ((key : Bytes) → Drops d s r key o.1)
      → Sound d s r holds records (created (driver_over s d) r m w.asides o).1
  unfolding created
  created-Sound m w (err e, t) f h k = Untouched-Sound w t h (
      subst (λ p. Untouched d s r holds records w.outer p) (ap (λ p. p.1) f)
        (st.create-err m e w.outer (ap (λ p. p.0) f)))
  created-Sound m w (ok out, t) f h k =
      let (key, e, n, u) = st.create-ok m out w.outer (ap (λ p. p.0) f) in
      forget_known-Sound
        (either_key (driver_over s d) (key_of (driver_over s d) r out.message)
          (key_of (driver_over s d) r m))
        key w.asides w.outer t e n h
        (subst (λ p. Touched d s r holds records key w.outer p) (ap (λ p. p.1) f) u) (k key)

  updated-Sound :
      (m : M) (w : World T) (o : Result Error (WriteResult M) × T)
      → d.next.update r m w.outer ≡ o
      → Sound d s r holds records w
      → ((key : Bytes) → Drops d s r key o.1)
      → Sound d s r holds records (updated (driver_over s d) r m w.asides o).1
  unfolding updated
  updated-Sound m w (err e, t) f h k = Untouched-Sound w t h (
      subst (λ p. Untouched d s r holds records w.outer p) (ap (λ p. p.1) f)
        (st.update-err m e w.outer (ap (λ p. p.0) f)))
  updated-Sound m w (ok out, t) f h k =
      let (key, e, n, u) = st.update-ok m out w.outer (ap (λ p. p.0) f) in
      forget_known-Sound (key_of (driver_over s d) r m) key w.asides w.outer t e n h
        (subst (λ p. Touched d s r holds records key w.outer p) (ap (λ p. p.1) f) u) (k key)

  deleted-Sound :
      (key : Bytes) (w : World T) (o : Result Error Ack × T)
      → d.next.delete r key w.outer ≡ o
      → Sound d s r holds records w
      → Drops d s r key o.1
      → Sound d s r holds records (deleted (driver_over s d) r key w.asides o).1
  unfolding deleted
  deleted-Sound key w (err e, t) f h k = Untouched-Sound w t h (
      subst (λ p. Untouched d s r holds records w.outer p) (ap (λ p. p.1) f)
        (st.delete-err key e w.outer (ap (λ p. p.0) f)))
  deleted-Sound key w (ok ack, t) f h k =
      let (n, u) = st.delete-ok key w.outer (ap (λ p. p.0) f) in
      forget-Sound key w.asides t n h.only
        (Touched-CoherentBut key w.outer t h.coherent
          (subst (λ p. Touched d s r holds records key w.outer p) (ap (λ p. p.1) f) u))
        k

  module _ (drops : (key : Bytes) (t : T) → Drops d s r key t) (transact : Transact T)
      (is : IsTransact d s r holds records st transact)
      (keys : AnswersKeys d s r holds records st) where
    perform_write-Sound :
        (x : Write M) (w : World T)
        → Sound d s r holds records w
        → Sound d s r holds records (perform_write (driver_over s d) s r transact x w)
    unfolding perform_write create update delete
    perform_write-Sound (creating m) w h =
        created-Sound m w (d.next.create r m w.outer) refl h (λ key. drops key _)
    perform_write-Sound (updating m) w h =
        updated-Sound m w (d.next.update r m w.outer) refl h (λ key. drops key _)
    perform_write-Sound (deleting key) w h =
        deleted-Sound key w (d.next.delete r key w.outer) refl h (drops key _)

    perform-Sound :
        (o : Operation M) (w : World T)
        → Sound d s r holds records w
        → Sound d s r holds records (perform (driver_over s d) s r transact o w)
    unfolding perform background
    perform-Sound (reading key) w h =
        (get-Reads d s r holds records st proto back json key w h).sound
    perform-Sound (refreshing key) w h = record {
      coherent =
          refresh-Coherent (view d s r) holds (truth d s r holds records) back json
            (view-IsLoader d s r holds records st) key s.options w.outer h.coherent;
      only = h.only;
    }
    perform-Sound (writing x) w h = perform_write-Sound x w h
    perform-Sound (transacting xs) w h =
        run-Sound d s r holds records st back json drops transact is keys xs w h

    perform_all-Sound :
        (os : List (Operation M)) (w : World T)
        → Sound d s r holds records w
        → Sound d s r holds records (perform_all (driver_over s d) s r transact os w)
    unfolding perform_all
    perform_all-Sound [] w h = h
    perform_all-Sound (o ∷ os) w h =
        perform_all-Sound os (perform (driver_over s d) s r transact o w) (perform-Sound o w h)

    -- For one resource, where no other resource has a view yet and none is used: where the store,
    -- package proto, json and the cache's backend keep their promises, the drop of an entry never
    -- fails, a transaction commits what its body did or leaves the records as they were, a record
    -- that Create answers has its key, and the cache's entries are right at first: after any reads,
    -- refreshes in the background, writes and transactions of writes of that resource through the
    -- driver, one after the other, whether they succeed or not, Get refines the store's lookup. A
    -- message that it answers is the store's record of the key, and it says that a record is not
    -- found only where the store has none.
    pub get-perform_all :
        (os : List (Operation M)) (key : Bytes) (w : World T)
        → Sound d s r holds records w
        → Reads d s r holds records key
            (get (driver_over s d) r key (perform_all (driver_over s d) s r transact os w))
    get-perform_all os key w h =
        get-Reads d s r holds records st proto back json key
          (perform_all (driver_over s d) s r transact os w) (perform_all-Sound os w h)
