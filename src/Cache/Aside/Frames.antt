-- ===== src/Cache/Aside/Frames.antt =====
-- What the frames that are read and written say.
use mathlib.Core.Path.{subst}
use runtime_go.Prelude.{
  ◌==◌, ℕ, ◌≡◌, inl, inr, refl, sym, ap, ◌∙◌, Bool-cases, false, Option, Bytes,
}
use runtime_go.Prelude.Outcome.{Result, ok, err, ok-injective}
use runtime_go.Cache.Keyspace.{entry}
use runtime_go.Cache.Aside.{
  DriverError, Error, is_absent, Envelope, Unpacked, Aside, said, framed, unpack, opened, value_of,
  unframed, packed,
}
use runtime_go.Cache.Aside.Coherence.{Right, Coherent}

module _ {T V : Type 0} (a : Aside T V) where
  pub opened-state : (o : Result DriverError Bytes × T) → (opened a o).1 ≡ o.1
  unfolding opened
  opened-state (err e, t) = refl
  opened-state (ok b, t) = refl

  pub framed-ok : (r : Result Bytes Bytes) (b : Bytes) → framed a r ≡ ok b → r ≡ ok b
  unfolding framed
  framed-ok (ok x) b h = ap ok (ok-injective h)
  framed-ok (err e) b h = cc

  pub framed-err : (r : Result Bytes Bytes) (e : Error) → framed a r ≡ err e → is_absent e ≡ false
  unfolding framed is_absent
  framed-err (ok b) e h = cc
  framed-err (err x) e h =
      ap (λ (r : Result Error Bytes). elim r [ ok _ ↦ false | err y ↦ is_absent y ]) (sym h)

  pub packed-err :
      (n : ℕ) (t : T) (r : Result Bytes Bytes) (e : Error)
      → packed a n t r ≡ err e
      → is_absent e ≡ false
  unfolding packed is_absent
  packed-err n t (err x) e h =
      ap (λ (r : Result Error Bytes). elim r [ ok _ ↦ false | err y ↦ is_absent y ]) (sym h)
  packed-err n t (ok x) e h = framed-err _ e h

  pub value_of-ok :
      (t : T) (r : Result Bytes Envelope) (e : Envelope)
      → r ≡ ok e
      → e.void ≡ false
      → value_of a (unframed a t r) ≡ ok e.value
  unfolding unframed said value_of
  value_of-ok t (err x) e h v = cc
  value_of-ok t (ok x) e h v =
      subst (λ (y : Envelope). value_of a (unframed a t (ok x)) ≡ ok y.value) (ok-injective h)
        (let w : x.void ≡ false = ap (λ (y : Envelope). y.void) (ok-injective h) ∙ v in
          elim (Bool-cases (x.fresh == 0)) [ inl f ↦ rw (w, f) refl | inr f ↦ rw (w, f) refl ])

  pub unframed-err :
      (t : T) (r : Result Bytes Envelope) (e : Error) → unframed a t r ≡ err e → is_absent e ≡ false
  unfolding unframed is_absent
  unframed-err t (ok x) e h = cc
  unframed-err t (err x) e h =
      ap (λ (r : Result Error Unpacked). elim r [ ok _ ↦ false | err y ↦ is_absent y ]) (sym h)

  pub opened-err :
      (o : Result DriverError Bytes × T) (e : Error) → (opened a o).0 ≡ err e → is_absent e ≡ false
  unfolding opened unpack is_absent
  opened-err (err x, t) e h =
      ap (λ (r : Result Error Unpacked). elim r [ ok _ ↦ false | err y ↦ is_absent y ]) (sym h)
  opened-err (ok b, t) e h = unframed-err t (a.json.unframe b) e h

module _ {T V : Type 0} (a : Aside T V) (holds : T → Bytes → Bytes → Type 0)
    (truth : T → Bytes → Option V) where
  -- What unpacked bytes say, where the entry they were read from is right.
  abbrev pub Says : T → Bytes → Result Error Unpacked → Type 0
  Says t id r = (u : Unpacked) → r ≡ ok u → Right a holds truth t id u.void u.value

  pub said-Right :
      (t now : T) (id : Bytes) (e : Envelope)
      → Right a holds truth t id e.void e.value
      → Right a holds truth t id (said a e now).void (said a e now).value
  unfolding said
  said-Right t now id e r = elim (Bool-cases e.void) [
    | inl v ↦ rw (v) record { void-none = λ _. r.void-none v; value-some = λ h. cc }
    | inr v ↦ rw (v) elim (Bool-cases (e.fresh == 0)) [
      | inl f ↦ rw (f) record { void-none = λ h. cc; value-some = λ _. r.value-some v }
      | inr f ↦ rw (f) record { void-none = λ h. cc; value-some = λ _. r.value-some v }
    ]
  ]

  pub unframed-Says :
      (t now : T) (id : Bytes) (r : Result Bytes Envelope)
      → ((e : Envelope) → r ≡ ok e → Right a holds truth t id e.void e.value)
      → Says t id (unframed a now r)
  unfolding unframed
  unframed-Says t now id (err e) h u q = cc
  unframed-Says t now id (ok e) h u q =
      subst (λ (w : Unpacked). Right a holds truth t id w.void w.value) (ok-injective q)
        (said-Right t now id e (h e refl))

  pub unpack-Says :
      (t now : T) (id body : Bytes)
      → Coherent a holds truth t
      → holds t (entry a.keys id) body
      → Says t id (unpack a body now)
  unfolding unpack
  unpack-Says t now id body c h =
      unframed-Says t now id (a.json.unframe body) (λ e f. c id body e h f)

  pub opened-Says :
      (id : Bytes) (o : Result DriverError Bytes × T)
      → Coherent a holds truth o.1
      → ((b : Bytes) → o.0 ≡ ok b → holds o.1 (entry a.keys id) b)
      → Says o.1 id (opened a o).0
  unfolding opened
  opened-Says id (err e, t) c h = λ u q. cc
  opened-Says id (ok b, t) c h = unpack-Says t t id b c (h b refl)
