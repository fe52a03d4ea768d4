-- ===== src/Database/Cached/Loading.antt =====
-- The loader of a resource's view, and the view that a resource has.
use mathlib.Core.Path.{subst}
use runtime_go.Prelude.{
  ◌≡◌, ◌⊎◌, inl, inr, refl, sym, ap, ◌∙◌, Bool, Bool-cases, true, false, List, [], ◌∷◌,
  if◌then◌else◌, Option, Option-cases, none, some, Bytes, arith, All,
}
use runtime_go.Prelude.Outcome.{Result, ok, err, ok-injective, none-some, some-injective}
use runtime_go.ContentLine.Line.{equal}
use runtime_go.Cache
use runtime_go.Cache.Aside.{Aside, Options, is_absent, get_or_load, invalidate}
use runtime_go.Cache.Aside.Coherence.{Keeps, IsLoader, Coherent, Keeps-Coherent}
use runtime_go.Database.Cached.{
  Error, is_not_found, Resource, Driver, encoded, encode_all, load_of, bound, view_at, aside,
  with_asides,
}
use runtime_go.Database.Cached.Adapter.{Settings, absence, translated, inner, from_aside}
use runtime_go.Database.Cached.Coherence.{
  driver_over, view, truth, body_of, body_at, IsStore, IsProto, Untouched-Keeps, Reads,
}

failed-not_found :
    {c : Bytes} {e : Cache.Aside.Error}
    → ◌≡◌ {A = Result Cache.Aside.Error Bytes} (err (Cache.Aside.failed c)) (err e)
    → Cache.Aside.is_not_found e ≡ false
unfolding Cache.Aside.is_not_found Cache.Aside.is_miss is_absent
failed-not_found h =
    ap
      (λ (o : Result Cache.Aside.Error Bytes). elim o [
        | ok _ ↦ false
        | err x ↦ Cache.Aside.is_not_found x
      ])
      (sym h)

first-or :
    {A : Type 0} (c : Bool) (x y : A) (rest : Option A)
    → (if c then some x else rest) ≡ some y
    → (x ≡ y) ⊎ (rest ≡ some y)
first-or true x y rest h = inl (some-injective h)
first-or false x y rest h = inr h

bound-only :
    (r : Resource) (name : Bytes) (asides : List Resource) (b : Resource)
    → All (λ (q : Resource). q ≡ r) asides
    → bound name asides ≡ some b
    → b ≡ r
unfolding bound
bound-only r name [] b a h = cc
bound-only r name (q ∷ qs) b a h = elim (first-or (equal q.name name) q b (bound name qs) h) [
  | inl e ↦ sym e ∙ a.0
  | inr e ↦ bound-only r name qs b a.1 e
]

module _ {T M : Type 0} (d : Driver T M) (s : Settings T) (r : Resource)
    (holds : T → Bytes → Bytes → Type 0) (records : T → Bytes → Option M) where
  encoded-ok :
      (x : Result Bytes Bytes) (m : M) (t : T) (v key : Bytes)
      → d.marshal m ≡ x
      → records t key ≡ some m
      → (absence s key (encoded (driver_over s d) r x, t)).0 ≡ ok v
      → truth d s r holds records (absence s key (encoded (driver_over s d) r x, t)).1 key ≡ some v
  unfolding encoded absence is_not_found
  encoded-ok (ok b) m t v key f h q = rw (h, f) (ap some (ok-injective q))
  encoded-ok (err e) m t v key f h q = cc

  encoded-not_found :
      (x : Result Bytes Bytes) (t : T) (e : Cache.Aside.Error) (key : Bytes)
      → (absence s key (encoded (driver_over s d) r x, t)).0 ≡ err e
      → Cache.Aside.is_not_found e ≡ false
  unfolding encoded absence is_not_found Cache.Aside.is_not_found Cache.Aside.is_miss is_absent
  encoded-not_found (ok b) t e key q = cc
  encoded-not_found (err x) t e key q = failed-not_found q

  encoded-state :
      (x : Result Bytes Bytes) (t : T) (key : Bytes)
      → (absence s key (encoded (driver_over s d) r x, t)).1 ≡ t
  unfolding encoded absence is_not_found
  encoded-state (ok b) t key = refl
  encoded-state (err x) t key = refl

  encode_all-ok :
      (o : Result Error M × T) (v : Bytes) (key : Bytes)
      → ((m : M) → o.0 ≡ ok m → records o.1 key ≡ some m)
      → (absence s key (encode_all (driver_over s d) r o)).0 ≡ ok v
      → truth d s r holds records (absence s key (encode_all (driver_over s d) r o)).1 key ≡ some v
  unfolding encode_all absence
  encode_all-ok (ok m, t) v key h q = encoded-ok (d.marshal m) m t v key refl (h m refl) q
  encode_all-ok (err e, t) v key h q = elim (Bool-cases (is_not_found e)) [
    | inl f ↦ ground (arith, f, q)
    | inr f ↦ ground (arith, f, q)
  ]

  absence-failed :
      (x : Error) (t : T) (key : Bytes)
      → is_not_found x ≡ false
      → absence s key (err x, t) ≡ (err (Cache.Aside.failed (s.text x)), t)
  unfolding absence
  absence-failed x t key f = rw (f) refl

  encode_all-not_found :
      (o : Result Error M × T) (e : Cache.Aside.Error) (key : Bytes)
      → ((x : Error) → o.0 ≡ err x → is_not_found x ≡ true → records o.1 key ≡ none)
      → (absence s key (encode_all (driver_over s d) r o)).0 ≡ err e
      → Cache.Aside.is_not_found e ≡ true
      → truth d s r holds records (absence s key (encode_all (driver_over s d) r o)).1 key ≡ none
  unfolding encode_all absence
  encode_all-not_found (ok m, t) e key h q n =
      let f = encoded-not_found (d.marshal m) t e key q in cc
  encode_all-not_found (err x, t) e key h q n = elim (Bool-cases (is_not_found x)) [
    | inl f ↦ rw (f, h x refl f) refl
    | inr f ↦ let g = failed-not_found (sym (ap (λ p. p.0) (absence-failed x t key f)) ∙ q) in cc
  ]

  encode_all-state :
      (o : Result Error M × T) (key : Bytes)
      → (absence s key (encode_all (driver_over s d) r o)).1 ≡ o.1
  unfolding encode_all absence
  encode_all-state (ok m, t) key = encoded-state (d.marshal m) t key
  encode_all-state (err x, t) key = elim (Bool-cases (is_not_found x)) [
    | inl f ↦ rw (f) refl
    | inr f ↦ rw (f) refl
  ]

  pub view-IsLoader :
      IsStore d s r holds records → IsLoader (view d s r) holds (truth d s r holds records)
  unfolding inner translated load_of
  view-IsLoader st = record {
    load-ok = λ id v t h. encode_all-ok (d.next.get r id t) v id (λ m q. st.get-ok id m t q) h;
    load-not_found = λ id e t h n.
        encode_all-not_found (d.next.get r id t) e id (λ x q y. st.get-not_found id x t q y) h n;
    load-Keeps = λ id t.
        subst (Keeps (view d s r) holds (truth d s r holds records) t)
          (sym (encode_all-state (d.next.get r id t) id))
          (Untouched-Keeps d s r holds records (st.get-Untouched id t));
  }

  view_at-only :
      (o : Option Resource) (asides : List Resource)
      → ((b : Resource) → o ≡ some b → b ≡ r)
      → All (λ (q : Resource). q ≡ r) asides
      → ((view_at (driver_over s d) o r asides).0 ≡ from_aside s (load_of (driver_over s d) r))
        × All (λ (q : Resource). q ≡ r) (view_at (driver_over s d) o r asides).1
  unfolding view_at
  view_at-only none asides h a = (refl, (refl, a))
  view_at-only (some b) asides h a =
      (ap (λ q. from_aside s (load_of (driver_over s d) q)) (h b refl), a)

  pub aside-only :
      (asides : List Resource)
      → All (λ (q : Resource). q ≡ r) asides
      → ((aside (driver_over s d) r asides).0 ≡ from_aside s (load_of (driver_over s d) r))
        × All (λ (q : Resource). q ≡ r) (aside (driver_over s d) r asides).1
  unfolding aside
  aside-only asides a =
      view_at-only (bound r.name asides) asides (λ b h. bound-only r r.name asides b a h) a

  pub body_of-some :
      IsProto d s r holds records
      → (t : T) (key b : Bytes) → truth d s r holds records t key ≡ some b
      → (m : M) × (records t key ≡ some m) × (d.unmarshal r b ≡ ok m)
  body_of-some proto t key b h = elim (Option-cases (records t key)) [
    | inl e ↦ absurd (none-some (sym (ap (body_of d s r holds records) e) ∙ h))
    | inr (m, e) ↦
        let (c, f) = proto.marshal-ok t key m e in
        (
          m,
          e,
          proto.unmarshal-marshal m b (
              f
              ∙ ap ok (
                  some-injective (
                    sym (ap (body_of d s r holds records) e ∙ ap (body_at d s r holds records) f)
                    ∙ h))),
        )
  ]

  pub body_of-none :
      IsProto d s r holds records
      → (t : T) (key : Bytes) → truth d s r holds records t key ≡ none
      → records t key ≡ none
  body_of-none proto t key h = elim (Option-cases (records t key)) [
    | inl e ↦ e
    | inr (m, e) ↦
        let (c, f) = proto.marshal-ok t key m e in
        absurd (
          none-some
            (sym h ∙ ap (body_of d s r holds records) e ∙ ap (body_at d s r holds records) f))
  ]

  pub next-Reads :
      IsStore d s r holds records
      → (key : Bytes) (t : T) (asides : List Resource)
      → Coherent (view d s r) holds (truth d s r holds records) t
      → All (λ (q : Resource). q ≡ r) asides
      → (o : Result Error M × T) → d.next.get r key t ≡ o
      → Reads d s r holds records key (with_asides (driver_over s d) asides o)
  unfolding with_asides
  next-Reads st key t asides c a o h =
      subst
        (λ (p : Result Error M × T).
          Reads d s r holds records key (with_asides (driver_over s d) asides p))
        h
        (record {
          sound = record {
            coherent =
                Keeps-Coherent (view d s r) holds (truth d s r holds records)
                  (Untouched-Keeps d s r holds records (st.get-Untouched key t)) c;
            only = a;
          };
          ok-records = λ m q. st.get-ok key m t q;
          absent-records = λ e q n. st.get-not_found key e t q n;
        })
