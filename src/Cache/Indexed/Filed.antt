-- ===== src/Cache/Indexed/Filed.antt =====
-- An entry is filed under the fields and values that its record names.
use runtime_go.Prelude.{
  ◌≡◌, sym, ap, ◌∙◌, Bool, Bool-cases, inl, inr, true, false, ◌||◌, [], ◌∷◌, Bytes, All, arith,
}
use runtime_go.Prelude.Outcome.{Result, ok, Ack, ack}
use runtime_go.ContentLine.Line.{contains}
use runtime_go.ContentLine.Line.Equal.{equal_refl}
use runtime_go.Cache.Keyspace.{Keyspace, by, fields}
use runtime_go.Cache.Indexed.{
  Sets, FilingError, pair, Indexes, pairs, filing, recording, reading_indexes, and_then, file_each,
  file, drop_pairs, forget_pairs, refile, done, record_pairs, refile_dropped, refile_had,
  driver_error, unfile_all, unfile_had, unfile,
}
use runtime_go.Cache.Indexed.Pairs.{
  equal-false, by-fields, by-pair, and_then-ok, ack-ok, false_from, after-ok, IsField, IsSets,
}
use runtime_go.Cache.Indexed.Dropped.{drop_pairs-Dropped, forget_pairs-stands, unfile_all-stands}

module _ {T : Type 0} (sets : Sets T) (keys : Keyspace) (id : Bytes)
    (holds : T → Bytes → Bytes → Bool) (st : IsSets sets holds) where
  -- What a call that succeeds answers, as a step.
  abbrev result : Result FilingError Ack × T → Result FilingError Ack
  result z = z.0

  -- The fields of an entry's indexes.
  abbrev pub AreFields : Indexes → Type 0
  AreFields = All (λ x. IsField x.0)

  -- Every set of a field and value that holds the id has its pair in the record of the id.
  abbrev pub IsFiled : T → Type 0
  IsFiled t =
      (f v : Bytes)
      → IsField f
      → holds t (by keys f v) id ≡ true
      → holds t (fields keys id) (pair f v) ≡ true

  module _ (f v : Bytes) (p : IsField f) where
    abbrev stands : T → Bool
    stands t = holds t (by keys f v) id

    file_each-stands :
        (want : Indexes) (t : T)
        → AreFields want
        → (file_each sets keys id want t).0 ≡ ok ack
        → stands (file_each sets keys id want t).1 ≡ (stands t || contains (pairs want) (pair f v))
    unfolding file_each pairs contains
    file_each-stands [] t q h = ground arith
    file_each-stands ((g, u) ∷ rest) t q h =
        let (a, e, s) =
          and_then-ok (filing id g) (λ a. file_each sets keys id rest)
            (sets.set_add (by keys g u) (id ∷ []) t) h in
        let ih =
          file_each-stands rest (sets.set_add (by keys g u) (id ∷ []) t).1 q.1
            (sym (ap (λ (z : Result FilingError Ack × T). z.0) s) ∙ h) in
        let d = st.added (by keys g u) (id ∷ []) t e (by keys f v) id in
        let i = by-pair keys g u f v q.0 p in
        let j = equal_refl id in
        ap (λ (z : Result FilingError Ack × T). stands z.1) s ∙ ih ∙ (ground (arith, d, i, j))

    recorded :
        (want : Indexes) (t t' : T) (a : Ack) {r : Result FilingError Ack × T}
        → r ≡ record_pairs sets keys id want a t'
        → stands t' ≡ (stands t || contains (pairs want) (pair f v))
        → r.0 ≡ ok ack
        → (stands r.1 ≡ (stands t || contains (pairs want) (pair f v)))
          × (contains (pairs want) (pair f v) ≡ true → holds r.1 (fields keys id) (pair f v) ≡ true)
    unfolding record_pairs
    recorded want t t' a s i h =
        let (b, e, u) =
          and_then-ok (recording id) done (sets.set_add (fields keys id) (pairs want) t')
            (sym (ap result s) ∙ h) in
        let d = st.added (fields keys id) (pairs want) t' e in
        let m = ap (λ (z : Result FilingError Ack × T). z.1) (s ∙ u) in
        let x = d (by keys f v) id in
        let y = d (fields keys id) (pair f v) in
        let n =
          equal-false (fields keys id) (by keys f v) (λ z. by-fields keys f v id p.0 (sym z)) in
        let k = equal_refl (fields keys id) in
        (
          ap stands m ∙ (ground (arith, x, n, i)),
          λ c. ap (λ (z : T). holds z (fields keys id) (pair f v)) m ∙ (ground (arith, y, k, c)),
        )

    false-true : contains (pairs []) (pair f v) ≡ true → ⊥
    unfolding pairs contains
    false-true c = cc

    pub file-stands :
        (want : Indexes) (t : T)
        → AreFields want
        → (file sets keys id want t).0 ≡ ok ack
        → (stands (file sets keys id want t).1 ≡ (stands t || contains (pairs want) (pair f v)))
          × (contains (pairs want) (pair f v) ≡ true
              → holds (file sets keys id want t).1 (fields keys id) (pair f v) ≡ true)
    unfolding file
    file-stands [] t q h = (unfold pairs contains in (ground arith), λ c. absurd (false-true c))
    file-stands (x ∷ rest) t q h =
        let want : Indexes = x ∷ rest in
        let (a, e, s) =
          after-ok (record_pairs sets keys id want) (file_each sets keys id want t) h in
        recorded want t (file_each sets keys id want t).1 a s
          (file_each-stands want t q (e ∙ ack-ok a)) h

    -- After a refile the id stands under what is wanted and no more, and its record names it.
    refile-stands :
        (want : Indexes) (t : T)
        → AreFields want
        → IsFiled t
        → (refile sets keys id want t).0 ≡ ok ack
        → (stands (refile sets keys id want t).1 ≡ contains (pairs want) (pair f v))
          × (contains (pairs want) (pair f v) ≡ true
              → holds (refile sets keys id want t).1 (fields keys id) (pair f v) ≡ true)
    unfolding refile refile_had refile_dropped
    refile-stands want t q filed h =
        let (had, e, s) =
          and_then-ok (reading_indexes id) (refile_had sets keys id want)
            (sets.set_members (fields keys id) t) h in
        let t1 = (sets.set_members (fields keys id) t).1 in
        let (xs, g, w) =
          after-ok (refile_dropped sets keys id want) (drop_pairs sets keys id (pairs want) had t1)
            (sym (ap result s) ∙ h) in
        let t2 = (drop_pairs sets keys id (pairs want) had t1).1 in
        let t3 = forget_pairs sets keys id xs t2 in
        let o = s ∙ w in
        let (now, rec) = file-stands want t3 q (sym (ap result o) ∙ h) in
        let m = ap (λ (z : Result FilingError Ack × T). z.1) o in
        let (stay, gone) = drop_pairs-Dropped sets keys id holds st f v p (pairs want) had t1 g in
        let b = st.members (fields keys id) t e (pair f v) in
        let c = st.members-same (fields keys id) t (by keys f v) id in
        (
          ap stands m ∙ now ∙ elim (Bool-cases (contains (pairs want) (pair f v))) [
            | inl y ↦ ground (arith, y)
            | inr y ↦
                let z =
                  false_from (stands t3) (stands t2)
                    (forget_pairs-stands sets keys id holds st f v p xs t2)
                    (elim (Bool-cases (contains had (pair f v))) [
                      | inl u ↦ gone y u
                      | inr u ↦
                          false_from (stands t2) (holds t (fields keys id) (pair f v))
                            (λ r. filed f v p (sym c ∙ stay r)) (sym b ∙ u)
                    ]) in
                ground (arith, y, z)
          ],
          λ y. ap (λ (z : T). holds z (fields keys id) (pair f v)) m ∙ rec y,
        )

    -- After an unfile the id stands nowhere.
    unfile-stands :
        (t : T)
        → IsFiled t
        → (unfile sets keys id t).0 ≡ ok ack
        → stands (unfile sets keys id t).1 ≡ false
    unfolding unfile unfile_had
    unfile-stands t filed h =
        let (had, e, s) =
          and_then-ok (reading_indexes id) (unfile_had sets keys id)
            (sets.set_members (fields keys id) t) h in
        let t1 = (sets.set_members (fields keys id) t).1 in
        let (a, g, w) =
          after-ok
            (λ (a : Ack) (t' : T). and_then driver_error done (sets.delete_key (fields keys id) t'))
            (unfile_all sets keys id had t1) (sym (ap result s) ∙ h) in
        let t2 = (unfile_all sets keys id had t1).1 in
        let (d, k, u) =
          and_then-ok driver_error done (sets.delete_key (fields keys id) t2)
            (sym (ap result (s ∙ w)) ∙ h) in
        let m = ap stands (ap (λ (z : Result FilingError Ack × T). z.1) (s ∙ w ∙ u)) in
        let (stay, gone) = unfile_all-stands sets keys id holds st f v p had t1 g in
        let b = st.members (fields keys id) t e (pair f v) in
        let c = st.members-same (fields keys id) t (by keys f v) id in
        m
        ∙ false_from (stands (sets.delete_key (fields keys id) t2).1) (stands t2)
            (st.delete-only (fields keys id) t2 (by keys f v) id)
            (elim (Bool-cases (contains had (pair f v))) [
              | inl y ↦ gone y
              | inr y ↦
                  false_from (stands t2) (holds t (fields keys id) (pair f v))
                    (λ r. filed f v p (sym c ∙ stay r)) (sym b ∙ y)
            ])

  -- Where the wanted fields hold no ':' and no '=', and the id stands under no field and value that
  -- its record lacks: after a refile that succeeds, it stands under every field and value that is
  -- wanted and under no others whose field holds neither, so what it was filed under before no
  -- longer finds it; and after an unfile that succeeds next, it stands under none of them.
  pub unfile-refile :
      (want : Indexes) (t : T)
      → AreFields want
      → IsFiled t
      → (refile sets keys id want t).0 ≡ ok ack
      → (f v : Bytes) → IsField f
      → (holds (refile sets keys id want t).1 (by keys f v) id ≡ contains (pairs want) (pair f v))
        × ((unfile sets keys id (refile sets keys id want t).1).0 ≡ ok ack
            → holds (unfile sets keys id (refile sets keys id want t).1).1 (by keys f v) id ≡ false)
  unfile-refile want t q filed h f v p =
      let filed_again : IsFiled (refile sets keys id want t).1 =
        λ g u r s. let (now, rec) = refile-stands g u r want t q filed h in rec (sym now ∙ s) in
      (
        (refile-stands f v p want t q filed h).0,
        λ g. unfile-stands f v p (refile sets keys id want t).1 filed_again g,
      )
