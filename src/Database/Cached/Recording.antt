-- ===== src/Database/Cached/Recording.antt =====
-- What the body of a transaction has touched is all that it has changed.
use mathlib.Core.Path.{subst}
use runtime_go.Prelude.{
  ◌≡◌, ◌≢◌, refl, sym, ap, ◌∙◌, Bool, false, ◌||◌, List, [], ◌∷◌, ◌++◌, Option, Bytes, All, arith,
}
use runtime_go.Prelude.Outcome.{Result, ok, err, Ack, ack, ok-injective}
use runtime_go.ContentLine.Line.{equal}
use runtime_go.ContentLine.Line.Equal.{equal_refl}
use runtime_go.Database.Cached.{Error, Resource, WriteResult, Driver, either_key, key_of}
use runtime_go.Database.Cached.Adapter.{Settings}
use runtime_go.Database.Cached.Coherence.{driver_over, Untouched, Touched, IsStore}
use runtime_go.Database.Cached.Transactions.{
  Touch, Recorded, Transact, Write, creating, updating, deleting, noted, note_created, note_updated,
  note_deleted, recorder, acked, write_one, go_on, write_all,
}

unfoldable pub touches : List Touch → Bytes → Bool
touches [] j = false
touches (x ∷ xs) j = equal x.key j || touches xs j

touches-append :
    (xs : List Touch) (x : Touch) (j : Bytes)
    → touches (xs ++ x ∷ []) j ≡ (touches xs j || equal x.key j)
unfolding touches
touches-append [] x j = ground arith
touches-append (y ∷ xs) x j = ground (arith, touches-append xs x j)

pub or-false : (a b : Bool) → (a || b) ≡ false → (a ≡ false) × (b ≡ false)
or-false a b h = ground arith

pub differs : (k j : Bytes) → equal k j ≡ false → j ≢ k
differs k j h q = let e = equal_refl k in let f = ap (equal k) q in cc

All-append :
    (P : Touch → Type 0) (xs : List Touch) (x : Touch) → All P xs → P x → All P (xs ++ x ∷ [])
All-append P [] x a p = (p, tt)
All-append P (y ∷ xs) x a p = (a.0, All-append P xs x a.1 p)

module _ {T M : Type 0} (d : Driver T M) (s : Settings T) (r : Resource)
    (holds : T → Bytes → Bytes → Type 0) (records : T → Bytes → Option M)
    (st : IsStore d s r holds records) where
  -- A runner of transactions commits what its body has done, on a state with the same records, or
  -- leaves the records as they were.
  pub record IsTransact (transact : Transact T) : Type 0 where
    pub commit :
        (f : T → Result Error (List Touch) × T) (t : T) (xs : List Touch)
        → (transact f t).0 ≡ ok xs
        → (t' : T) × Untouched d s r holds records t t'
          × ((f t').0 ≡ ok xs)
          × Untouched d s r holds records (f t').1 (transact f t).1
    pub rollback :
        (f : T → Result Error (List Touch) × T) (t : T) (e : Error)
        → (transact f t).0 ≡ err e
        → Untouched d s r holds records t (transact f t).1

  -- The record that a create answers has its key.
  abbrev pub AnswersKeys : Type 0
  AnswersKeys =
      (m : M) (out : WriteResult M) (t : T)
      → (d.next.create r m t).0 ≡ ok out
      → (key : Bytes) × (key_of (driver_over s d) r out.message ≡ ok key)

  abbrev pub IsTouch : Touch → Type 0
  IsTouch x = (x.res ≡ r) × (x.key ≢ [])

  -- What has changed since t is touched, by touches of the resource.
  pub record Progress (t : T) (w : Recorded T) : Type 0 where
    pub valid : All IsTouch w.touched
    pub records-others : (j : Bytes) → touches w.touched j ≡ false → records w.outer j ≡ records t j
    pub holds-same : (k v : Bytes) → holds w.outer k v → holds t k v

  pub start-Progress : (t : T) → Progress t (record { outer = t; touched = [] })
  start-Progress t = record { valid = tt; records-others = λ j h. refl; holds-same = λ k v h. h }

  untouched-Progress :
      (t : T) (w : Recorded T) (t' : T)
      → Progress t w
      → Untouched d s r holds records w.outer t'
      → Progress t (record { outer = t'; touched = w.touched })
  untouched-Progress t w t' p u = record {
    valid = p.valid;
    records-others = λ j h. u.records-same j ∙ p.records-others j h;
    holds-same = λ k v h. p.holds-same k v (u.holds-same k v h);
  }

  touched-Progress :
      (t : T) (w : Recorded T) (t' : T) (key : Bytes)
      → Progress t w
      → key ≢ []
      → Touched d s r holds records key w.outer t'
      → Progress t
          (record { outer = t'; touched = w.touched ++ record { res = r; key = key } ∷ [] })
  touched-Progress t w t' key p n u = record {
    valid = All-append IsTouch w.touched _ p.valid (refl, n);
    records-others = λ j h.
        let (a, b) =
          or-false (touches w.touched j) (equal key j) (sym (touches-append w.touched _ j) ∙ h) in
        u.records-others j (differs key j b) ∙ p.records-others j a;
    holds-same = λ k v h. p.holds-same k v (u.holds-same k v h);
  }

  noted-Progress :
      (t : T) (w : Recorded T) (t' : T) (k : Result Error Bytes) (key : Bytes)
      → k ≡ ok key
      → Progress t w
      → key ≢ []
      → Touched d s r holds records key w.outer t'
      → Progress t (record { outer = t'; touched = noted (driver_over s d) r k w.touched })
  unfolding noted
  noted-Progress t w t' (err e) key f p n u = cc
  noted-Progress t w t' (ok x) key f p n u =
      touched-Progress t w t' x p (λ q. n (sym (ok-injective f) ∙ q))
        (subst (λ y. Touched d s r holds records y w.outer t') (sym (ok-injective f)) u)

  module _ (keys : AnswersKeys) where
    created-Progress :
        (t : T) (m : M) (w : Recorded T) (o : Result Error (WriteResult M) × T)
        → d.next.create r m w.outer ≡ o
        → Progress t w
        → Progress t (note_created (driver_over s d) r w.touched o).1
    unfolding note_created either_key
    created-Progress t m w (err e, t') f p = untouched-Progress t w t' p (
        subst (λ q. Untouched d s r holds records w.outer q) (ap (λ q. q.1) f)
          (st.create-err m e w.outer (ap (λ q. q.0) f)))
    created-Progress t m w (ok out, t') f p =
        let (key, g) = keys m out w.outer (ap (λ q. q.0) f) in
        let (key', e, n, u) = st.create-ok m out w.outer (ap (λ q. q.0) f) in
        let same : key ≡ key' =
          ok-injective
            (sym (ap (λ k. either_key (driver_over s d) k (key_of (driver_over s d) r m)) g) ∙ e) in
        noted-Progress t w t' (key_of (driver_over s d) r out.message) key' (g ∙ ap ok same) p n
          (subst (λ q. Touched d s r holds records key' w.outer q) (ap (λ q. q.1) f) u)

    updated-Progress :
        (t : T) (m : M) (w : Recorded T) (o : Result Error (WriteResult M) × T)
        → d.next.update r m w.outer ≡ o
        → Progress t w
        → Progress t (note_updated (driver_over s d) r m w.touched o).1
    unfolding note_updated
    updated-Progress t m w (err e, t') f p = untouched-Progress t w t' p (
        subst (λ q. Untouched d s r holds records w.outer q) (ap (λ q. q.1) f)
          (st.update-err m e w.outer (ap (λ q. q.0) f)))
    updated-Progress t m w (ok out, t') f p =
        let (key, e, n, u) = st.update-ok m out w.outer (ap (λ q. q.0) f) in
        noted-Progress t w t' (key_of (driver_over s d) r m) key e p n
          (subst (λ q. Touched d s r holds records key w.outer q) (ap (λ q. q.1) f) u)

    deleted-Progress :
        (t : T) (key : Bytes) (w : Recorded T) (o : Result Error Ack × T)
        → d.next.delete r key w.outer ≡ o
        → Progress t w
        → Progress t (note_deleted (driver_over s d) r key w.touched o).1
    unfolding note_deleted
    deleted-Progress t key w (err e, t') f p = untouched-Progress t w t' p (
        subst (λ q. Untouched d s r holds records w.outer q) (ap (λ q. q.1) f)
          (st.delete-err key e w.outer (ap (λ q. q.0) f)))
    deleted-Progress t key w (ok ack, t') f p =
        let (n, u) = st.delete-ok key w.outer (ap (λ q. q.0) f) in
        touched-Progress t w t' key p n
          (subst (λ q. Touched d s r holds records key w.outer q) (ap (λ q. q.1) f) u)

    acked-state :
        {A : Type 0} (o : Result Error A × Recorded T)
        → (acked (recorder (driver_over s d)) r o).1 ≡ o.1
    unfolding acked
    acked-state (ok x, w) = refl
    acked-state (err e, w) = refl

    write_one-Progress :
        (t : T) (x : Write M) (w : Recorded T)
        → Progress t w
        → Progress t (write_one (recorder (driver_over s d)) r x w).1
    unfolding write_one recorder
    write_one-Progress t (creating m) w p =
        subst (Progress t)
          (sym
            (acked-state (note_created (driver_over s d) r w.touched (d.next.create r m w.outer))))
          (created-Progress t m w (d.next.create r m w.outer) refl p)
    write_one-Progress t (updating m) w p =
        subst (Progress t)
          (sym (
            acked-state (note_updated (driver_over s d) r m w.touched (d.next.update r m w.outer))))
          (updated-Progress t m w (d.next.update r m w.outer) refl p)
    write_one-Progress t (deleting key) w p =
        deleted-Progress t key w (d.next.delete r key w.outer) refl p

    go_on-Progress :
        (t : T) (xs : List (Write M)) (o : Result Error Ack × Recorded T)
        → ((w : Recorded T)
            → Progress t w
            → Progress t (write_all (recorder (driver_over s d)) r xs w).1)
        → Progress t o.1
        → Progress t
            (go_on (recorder (driver_over s d)) r (write_all (recorder (driver_over s d)) r xs) o).1
    unfolding go_on
    go_on-Progress t xs (ok _, w) f p = f w p
    go_on-Progress t xs (err e, w) f p = p

    pub write_all-Progress :
        (t : T) (xs : List (Write M)) (w : Recorded T)
        → Progress t w
        → Progress t (write_all (recorder (driver_over s d)) r xs w).1
    unfolding write_all
    write_all-Progress t [] w p = p
    write_all-Progress t (x ∷ xs) w p =
        go_on-Progress t xs (write_one (recorder (driver_over s d)) r x w) (write_all-Progress t xs)
          (write_one-Progress t x w p)
