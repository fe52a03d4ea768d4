-- ===== src/Cache/Aside/Coherence.antt =====
-- What the backend, json and the loader promise, and the states in which every entry is right.
use mathlib.Core.Path.{subst}
use runtime_go.Prelude.{
  ℕ, ◌≡◌, ◌≢◌, ◌⊎◌, inl, inr, sym, ap, ◌∙◌, Bool, true, false, Option, none, some, Bytes,
}
use runtime_go.Prelude.Outcome.{ok, err, ack, ok-injective}
use runtime_go.Cache.Keyspace.{entry, lock}
use runtime_go.Cache.Keyspace.Names.{entry-injective, entry-lock}
use runtime_go.Cache.Aside.{Error, is_not_found, Fenced, Envelope, Aside}

module _ {T V : Type 0} (a : Aside T V) (holds : T → Bytes → Bytes → Type 0)
    (truth : T → Bytes → Option V) where
  -- Nothing is served behind a step that was not before, and what is cached has not changed.
  pub record Keeps (t t' : T) : Type 0 where
    pub holds-keeps : (k v : Bytes) → holds t' k v → holds t k v
    pub truth-keeps : (id : Bytes) → truth t' id ≡ truth t id

  -- A step that may have written v under k.
  pub record Writes (k v : Bytes) (t t' : T) : Type 0 where
    pub holds-writes : (j u : Bytes) → holds t' j u → ((j ≡ k) × (u ≡ v)) ⊎ holds t j u
    pub truth-writes : (id : Bytes) → truth t' id ≡ truth t id

  -- A backend may lose an entry at any time, and may fail behind a write as before it.
  pub record IsBackend : Type 0 where
    pub get-holds :
        (k v : Bytes) (t : T) → (a.driver.get k t).0 ≡ ok v → holds (a.driver.get k t).1 k v
    pub get-Keeps : (k : Bytes) (t : T) → Keeps t (a.driver.get k t).1
    pub set-Writes : (k v : Bytes) (n : ℕ) (t : T) → Writes k v t (a.driver.set k v n t).1
    pub add-Writes : (k v : Bytes) (n : ℕ) (t : T) → Writes k v t (a.driver.add k v n t).1
    pub delete-ok :
        (k v : Bytes) (t : T)
        → (a.driver.delete k t).0 ≡ ok ack
        → ¬ holds (a.driver.delete k t).1 k v
    pub delete-Keeps : (k : Bytes) (t : T) → Keeps t (a.driver.delete k t).1
    pub delete_if-Keeps :
        (f : Fenced T) → a.fenced ≡ some f → (k v : Bytes) (t : T) → Keeps t (f k v t).1
    pub random-Keeps : (t : T) → Keeps t (a.random t).1

  pub record IsJson : Type 0 where
    pub unmarshal-marshal :
        (v : V) (b : Bytes) → a.json.marshal v ≡ ok b → a.json.unmarshal b ≡ ok v
    pub unframe-frame : (e : Envelope) (b : Bytes) → a.json.frame e ≡ ok b → a.json.unframe b ≡ ok e

  -- The loader reports what is there behind its call.
  pub record IsLoader : Type 0 where
    pub load-ok :
        (id : Bytes) (v : V) (t : T) → (a.load id t).0 ≡ ok v → truth (a.load id t).1 id ≡ some v
    pub load-not_found :
        (id : Bytes) (e : Error) (t : T)
        → (a.load id t).0 ≡ err e
        → is_not_found e ≡ true
        → truth (a.load id t).1 id ≡ none
    pub load-Keeps : (id : Bytes) (t : T) → Keeps t (a.load id t).1

  -- The bytes are those of what is there.
  abbrev pub Valued : T → Bytes → Bytes → Type 0
  Valued t id b = (v : V) × (a.json.marshal v ≡ ok b) × (truth t id ≡ some v)

  -- That an id is absent, or has a value, is so.
  pub record Right (t : T) (id : Bytes) (void : Bool) (value : Bytes) : Type 0 where
    pub void-none : void ≡ true → truth t id ≡ none
    pub value-some : void ≡ false → Valued t id value

  abbrev pub Coherent : T → Type 0
  Coherent t =
      (id body : Bytes) (e : Envelope)
      → holds t (entry a.keys id) body
      → a.json.unframe body ≡ ok e
      → Right t id e.void e.value

  pub Right-carried :
      {t t' : T} {id value : Bytes} {void : Bool}
      → truth t' id ≡ truth t id
      → Right t id void value
      → Right t' id void value
  Right-carried h r = record {
    void-none = λ v. h ∙ r.void-none v;
    value-some = λ v. let (x, m, s) = r.value-some v in (x, m, h ∙ s);
  }

  pub Keeps-Coherent : {t t' : T} → Keeps t t' → Coherent t → Coherent t'
  Keeps-Coherent k c id body e h u =
      Right-carried (k.truth-keeps id) (c id body e (k.holds-keeps (entry a.keys id) body h) u)

  -- A write under an entry's key of a frame that is right.
  pub Writes-Coherent :
      {id body : Bytes} {t t' : T} {e : Envelope}
      → a.json.unframe body ≡ ok e
      → Right t id e.void e.value
      → Writes (entry a.keys id) body t t'
      → Coherent t
      → Coherent t'
  Writes-Coherent {id = id} {body = body} {t = t} f r w c j b x h u =
      Right-carried (w.truth-writes j) (elim (w.holds-writes (entry a.keys j) b h) [
        | inl (p, q) ↦
            subst (λ i. Right t i x.void x.value) (sym (entry-injective a.keys j id p))
              (subst (λ y. Right t id y.void y.value)
                (ok-injective (sym f ∙ ap (λ d. a.json.unframe d) (sym q) ∙ u)) r)
        | inr old ↦ c j b x old u
      ])

  -- A write under a lock's key.
  pub lock-Coherent :
      (id : Bytes) {token : Bytes} {t t' : T}
      → Writes (lock a.keys id) token t t'
      → Coherent t
      → Coherent t'
  lock-Coherent id w c j b x h u =
      Right-carried (w.truth-writes j) (elim (w.holds-writes (entry a.keys j) b h) [
        | inl (p, q) ↦ absurd (entry-lock a.keys j id p)
        | inr old ↦ c j b x old u
      ])

  pub Valued-carried : {b c : Bytes} (t : T) (id : Bytes) → b ≡ c → Valued t id b → Valued t id c
  Valued-carried t id h v = subst (Valued t id) h v

  -- Every entry is right, but for one id's.
  abbrev pub CoherentBut : Bytes → T → Type 0
  CoherentBut id t =
      (j body : Bytes) (e : Envelope)
      → j ≢ id
      → holds t (entry a.keys j) body
      → a.json.unframe body ≡ ok e
      → Right t j e.void e.value
