-- ===== src/Cache/Indexed/Dropped.antt =====
-- What a refile or an unfile takes the id out of no longer holds it.
use runtime_go.Prelude.{
  ◌≡◌, refl, sym, ap, ◌∙◌, Bool, Bool-cases, inl, inr, true, false, List, [], ◌∷◌, Bytes, arith,
}
use runtime_go.Prelude.Outcome.{Result, ok, err, Ack}
use runtime_go.ContentLine.Line.{equal, contains}
use runtime_go.ContentLine.Line.Equal.{equal_refl, equal_sound}
use runtime_go.Cache.Keyspace.{Keyspace, by, fields}
use runtime_go.Cache.Indexed.{
  Sets, FilingError, pair, cut_pair, unfile_from, add_dropped, drop_step, drop_pairs, forget_pairs,
  done, unfiling, unfile_all,
}
use runtime_go.Cache.Indexed.Pairs.{
  cut_pair-pair, and_then-ok, false_from, after-ok, IsField, IsSets,
}

module _ {T : Type 0} (sets : Sets T) (keys : Keyspace) (id : Bytes)
    (holds : T → Bytes → Bytes → Bool) (st : IsSets sets holds) (f v : Bytes) (p : IsField f) where
  abbrev stands : T → Bool
  stands t = holds t (by keys f v) id

  abbrev result : Result FilingError Ack × T → Result FilingError Ack
  result z = z.0

  -- What is dropped no longer stands.
  abbrev pub Dropped : List Bytes → List Bytes → T → T → Type 0
  Dropped keep had t t' =
      (stands t' ≡ true → stands t ≡ true)
      × (contains keep (pair f v) ≡ false → contains had (pair f v) ≡ true → stands t' ≡ false)

  unfile_from-stands :
      (x : Bytes) (t : T) {a : Ack}
      → (unfile_from sets keys id x t).0 ≡ ok a
      → (stands (unfile_from sets keys id x t).1 ≡ true → stands t ≡ true)
        × (equal x (pair f v) ≡ true → stands (unfile_from sets keys id x t).1 ≡ false)
  unfolding unfile_from contains
  unfile_from-stands x t h =
      let c = cut_pair x in
      let k = by keys c.0 c.1 in
      let (b, e, s) = and_then-ok (unfiling id c.0) done (sets.set_remove k (id ∷ []) t) h in
      let m = ap stands (ap (λ (z : Result FilingError Ack × T). z.1) s) in
      let d = st.removed k (id ∷ []) t e (by keys f v) id in
      let i = equal_refl id in
      (
        λ y. st.remove-only k (id ∷ []) t (by keys f v) id (sym m ∙ y),
        λ y.
            let q = ap cut_pair (equal_sound x (pair f v) y) ∙ cut_pair-pair f v p.1 in
            let j =
              ap (λ (z : Bytes × Bytes). equal (by keys z.0 z.1) (by keys f v)) q
              ∙ equal_refl (by keys f v) in
            m ∙ (ground (arith, d, i, j)),
      )

  add_dropped-ok :
      (x : Bytes) (z : Result FilingError (List Bytes) × T) {xs : List Bytes}
      → (add_dropped sets keys id x z).0 ≡ ok xs
      → (ys : List Bytes) × (z.0 ≡ ok ys) × ((add_dropped sets keys id x z).1 ≡ z.1)
  unfolding add_dropped
  add_dropped-ok x (ok ys, t) h = (ys, refl, refl)
  add_dropped-ok x (err e, t) h = cc

  drop_step-Dropped :
      (keep had : List Bytes) (x : Bytes) (b : Bool)
      → contains keep x ≡ b
      → (rest : T → Result FilingError (List Bytes) × T)
      → ((t : T) (xs : List Bytes) → (rest t).0 ≡ ok xs → Dropped keep had t (rest t).1)
      → (t : T) {xs : List Bytes} → (drop_step sets keys id b x rest t).0 ≡ ok xs
      → Dropped keep (x ∷ had) t (drop_step sets keys id b x rest t).1
  unfolding drop_step contains
  drop_step-Dropped keep had x true c rest ih t h =
      let (stay, gone) = ih t _ h in
      (
        stay,
        λ n m. elim (Bool-cases (equal x (pair f v))) [
          | inl e ↦ (let q = ap (contains keep) (equal_sound x (pair f v) e) in cc)
          | inr e ↦ gone n (ground (arith, e, m))
        ],
      )
  drop_step-Dropped keep had x false c rest ih t h =
      let t1 = (unfile_from sets keys id x t).1 in
      let (a, e, s) =
        after-ok (λ (a : Ack) (t' : T). add_dropped sets keys id x (rest t'))
          (unfile_from sets keys id x t) h in
      let (ys, g, w) =
        add_dropped-ok x (rest t1)
          (sym (ap (λ (z : Result FilingError (List Bytes) × T). z.0) s) ∙ h) in
      let (stay, gone) = ih t1 ys g in
      let (back, out) = unfile_from-stands x t e in
      let m = ap stands (ap (λ (z : Result FilingError (List Bytes) × T). z.1) s ∙ w) in
      (
        λ y. back (stay (sym m ∙ y)),
        λ n z. m ∙ elim (Bool-cases (equal x (pair f v))) [
          | inl q ↦ false_from (stands (rest t1).1) (stands t1) stay (out q)
          | inr q ↦ gone n (ground (arith, q, z))
        ],
      )

  pub drop_pairs-Dropped :
      (keep had : List Bytes) (t : T) {dropped : List Bytes}
      → (drop_pairs sets keys id keep had t).0 ≡ ok dropped
      → Dropped keep had t (drop_pairs sets keys id keep had t).1
  unfolding drop_pairs contains
  drop_pairs-Dropped keep [] t h = (λ s. s, λ n c. cc)
  drop_pairs-Dropped keep (x ∷ had) t h =
      drop_step-Dropped keep had x (contains keep x) refl (drop_pairs sets keys id keep had)
        (λ t' xs g. drop_pairs-Dropped keep had t' g) t h

  pub forget_pairs-stands :
      (xs : List Bytes) (t : T) → stands (forget_pairs sets keys id xs t) ≡ true → stands t ≡ true
  unfolding forget_pairs
  forget_pairs-stands [] t h = h
  forget_pairs-stands (x ∷ xs) t h = st.remove-only (fields keys id) (x ∷ xs) t (by keys f v) id h

  pub unfile_all-stands :
      (had : List Bytes) (t : T) {a : Ack}
      → (unfile_all sets keys id had t).0 ≡ ok a
      → (stands (unfile_all sets keys id had t).1 ≡ true → stands t ≡ true)
        × (contains had (pair f v) ≡ true → stands (unfile_all sets keys id had t).1 ≡ false)
  unfolding unfile_all contains
  unfile_all-stands [] t h = (λ y. y, λ c. cc)
  unfile_all-stands (x ∷ had) t h =
      let t1 = (unfile_from sets keys id x t).1 in
      let (a, e, s) =
        after-ok (λ (a : Ack). unfile_all sets keys id had) (unfile_from sets keys id x t) h in
      let (stay, gone) = unfile_all-stands had t1 (sym (ap result s) ∙ h) in
      let (back, out) = unfile_from-stands x t e in
      let m = ap stands (ap (λ (z : Result FilingError Ack × T). z.1) s) in
      (
        λ y. back (stay (sym m ∙ y)),
        λ z. m ∙ elim (Bool-cases (equal x (pair f v))) [
          | inl q ↦ false_from (stands (unfile_all sets keys id had t1).1) (stands t1) stay (out q)
          | inr q ↦ gone (ground (arith, q, z))
        ],
      )
