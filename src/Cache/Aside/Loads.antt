-- ===== src/Cache/Aside/Loads.antt =====
-- A load keeps the entries right.
use runtime_go.Prelude.{
  ltb, ◌||◌, ℕ, ◌≡◌, inl, inr, refl, sym, ap, ◌∙◌, Bool, Bool-cases, true, false, not, [], Option,
  none, some, Bytes, arith,
}
use runtime_go.Prelude.Outcome.{Result, ok, err, Ack, ok-injective}
use runtime_go.Cache.Keyspace.{entry, lock}
use runtime_go.Cache.Aside.{
  DriverError, Error, loading, storing, is_absent, is_not_found, overloaded, freshness, check_ttl,
  Fenced, Envelope, Options, Aside, pack, pack_void, unpack, Claim, won, unlocked, joined, claim,
  unlock, unlock_by, remember, packed, stored, keep, loaded, released, claimed, checked,
  load_and_store, fly,
}
use runtime_go.Cache.Aside.Coherence.{
  Keeps, IsBackend, IsJson, IsLoader, Valued, Valued-carried, Coherent, Keeps-Coherent,
  Writes-Coherent,
}
use runtime_go.Cache.Aside.Frames.{framed-ok, packed-err, value_of-ok}
use runtime_go.Cache.Aside.Claims.{Claims, claim-Claims}

module _ {T V : Type 0} (a : Aside T V) (holds : T → Bytes → Bytes → Type 0)
    (truth : T → Bytes → Option V) where
  -- Bytes that are answered are those of what is there, and an absence is one.
  pub record Good (id : Bytes) (o : Result Error Bytes × T) : Type 0 where
    pub coherent : Coherent a holds truth o.1
    pub ok-truth : (b : Bytes) → o.0 ≡ ok b → Valued a holds truth o.1 id b
    pub absent-truth : (e : Error) → o.0 ≡ err e → is_absent e ≡ true → truth o.1 id ≡ none

  module _ (is : IsBackend a holds truth) (json : IsJson a holds truth)
      (loader : IsLoader a holds truth) where
    pub unlock_by-Keeps :
        (o : Option (Fenced T))
        → ((f : Fenced T) → o ≡ some f → a.fenced ≡ some f)
        → (id token : Bytes) (t : T) → Keeps a holds truth t (unlock_by a o id token t)
    unfolding unlock_by
    unlock_by-Keeps none h id token t = record { holds-keeps = λ k v x. x; truth-keeps = λ i. refl }
    unlock_by-Keeps (some f) h id token t = is.delete_if-Keeps f (h f refl) (lock a.keys id) token t

    pub released-Good :
        (id token : Bytes) (o : Result Error Bytes × T)
        → Good id o
        → Good id (released a id token o)
    unfolding released unlock
    released-Good id token (r, t) g =
        let k = unlock_by-Keeps a.fenced (λ f h. h) id token t in
        record {
          coherent = Keeps-Coherent a holds truth k g.coherent;
          ok-truth = λ b h. let (v, m, s) = g.ok-truth b h in (v, m, k.truth-keeps id ∙ s);
          absent-truth = λ e h n. k.truth-keeps id ∙ g.absent-truth e h n;
        }

    -- An absence that is remembered is one.
    pub remember-Coherent :
        (id : Bytes) (r : Result Error Bytes) (t : T)
        → ((b : Bytes)
            → r ≡ ok b
            → a.json.frame (record { value = []; fresh = 0; void = true }) ≡ ok b)
        → truth t id ≡ none
        → Coherent a holds truth t
        → Coherent a holds truth (remember a id r t)
    unfolding remember
    remember-Coherent id (err e) t h n c = c
    remember-Coherent id (ok b) t h n c =
        Writes-Coherent a holds truth (json.unframe-frame _ b (h b refl))
          (record { void-none = λ _. n; value-some = λ f. cc })
          (is.set-Writes (entry a.keys id) b a.empty t) c

    pub set-truth :
        (id body : Bytes) (n : ℕ) (t : T)
        → truth (a.driver.set (entry a.keys id) body n t).1 id ≡ truth t id
    set-truth id body n t = (is.set-Writes (entry a.keys id) body n t).truth-writes id

    pub remember-truth :
        (id : Bytes) (r : Result Error Bytes) (t : T) → truth (remember a id r t) id ≡ truth t id
    unfolding remember
    remember-truth id (err e) t = refl
    remember-truth id (ok b) t = set-truth id b a.empty t

    pub packed-ok :
        (n : ℕ) (t : T) (r : Result Bytes Bytes) (b : Bytes)
        → packed a n t r ≡ ok b
        → (e : Envelope) × (a.json.unframe b ≡ ok e) × (e.void ≡ false) × (r ≡ ok e.value)
    unfolding packed
    packed-ok n t (err e) b h = cc
    packed-ok n t (ok x) b h = (_, json.unframe-frame _ b (framed-ok a _ b h), refl, refl)

    pub unchanged-Good :
        (id : Bytes) (e : Error) (t : T)
        → is_absent e ≡ false
        → Coherent a holds truth t
        → Good id (err e, t)
    unchanged-Good id e t n c = record {
      coherent = c;
      ok-truth = λ b h. cc;
      absent-truth = λ x h a'. (cc);
    }

    pub stored-Good :
        (id body : Bytes) (v : V) (o : Result DriverError Ack × T) (e : Envelope)
        → a.json.unframe body ≡ ok e
        → e.void ≡ false
        → a.json.marshal v ≡ ok e.value
        → truth o.1 id ≡ some v
        → Coherent a holds truth o.1
        → Good id (stored a id body o)
    unfolding stored unpack is_absent
    stored-Good id body v (err x, t) e f w m s c = unchanged-Good id (storing id x) t refl c
    stored-Good id body v (ok _, t) e f w m s c =
        let g = value_of-ok a t (a.json.unframe body) e f w in
        record {
          coherent = c;
          ok-truth = λ b h. (v, m ∙ ap ok (ok-injective (sym g ∙ h)), s);
          absent-truth = λ x h n. cc;
        }

    pub keep-Good :
        (id : Bytes) (v : V) (n hard : ℕ) (t : T)
        → truth t id ≡ some v
        → Coherent a holds truth t
        → (r : Result Error Bytes) → packed a n t (a.json.marshal v) ≡ r
        → Good id (keep a id hard r t)
    unfolding keep
    keep-Good id v n hard t s c (err e) h =
        unchanged-Good id e t (packed-err a n t (a.json.marshal v) e h) c
    keep-Good id v n hard t s c (ok b) h =
        let (e, u, w, m) = packed-ok n t (a.json.marshal v) b h in
        stored-Good id b v (a.driver.set (entry a.keys id) b hard t) e u w m
          (set-truth id b hard t ∙ s)
          (Writes-Coherent a holds truth u
            (record { void-none = λ f. cc; value-some = λ _. (v, m, s) })
            (is.set-Writes (entry a.keys id) b hard t) c)

    is_not_found-is_absent : (e : Error) → is_not_found e ≡ false → is_absent e ≡ false
    unfolding is_not_found
    is_not_found-is_absent e h = ground arith

    pub loaded-Good :
        (id : Bytes) (o : Options) (r : Result Error V × T)
        → Coherent a holds truth r.1
        → ((v : V) → r.0 ≡ ok v → truth r.1 id ≡ some v)
        → ((e : Error) → r.0 ≡ err e → is_not_found e ≡ true → truth r.1 id ≡ none)
        → Good id (loaded a id o r)
    unfolding loaded pack pack_void is_absent
    loaded-Good id o (err e, t) c h n = elim (Bool-cases (is_not_found e)) [
      | inl f ↦ rw (f) (record {
        coherent = remember-Coherent id (pack_void a) t (λ b q. framed-ok a _ b q) (n e refl f) c;
        ok-truth = λ b q. cc;
        absent-truth = λ x q y. remember-truth id (pack_void a) t ∙ n e refl f;
      })
      | inr f ↦ rw (f) (unchanged-Good id (loading id e) t (is_not_found-is_absent e f) c)
    ]
    loaded-Good id o (ok v, t) c h n =
        keep-Good id v (freshness o).0 (freshness o).1 t (h v refl) c _ refl

    pub load-Good :
        (id : Bytes) (o : Options) (t : T)
        → Coherent a holds truth t
        → Good id (loaded a id o (a.load id t))
    load-Good id o t c =
        loaded-Good id o (a.load id t) (Keeps-Coherent a holds truth (loader.load-Keeps id t) c)
          (λ v h. loader.load-ok id v t h) (λ e h n. loader.load-not_found id e t h n)

    pub claimed-Good :
        (id : Bytes) (o : Options) (r : Claim a × T)
        → Claims a holds truth id r
        → Good id (claimed a id o r)
    unfolding claimed
    claimed-Good id o (joined b, t) c = record {
      coherent = c.coherent;
      ok-truth = λ x h. Valued-carried a holds truth t id (ok-injective h) (c.joined-truth b refl);
      absent-truth = λ x h n. cc;
    }
    claimed-Good id o (unlocked, t) c = load-Good id o t c.coherent
    claimed-Good id o (won token, t) c =
        released-Good id token (loaded a id o (a.load id t)) (load-Good id o t c.coherent)

    pub checked-Good :
        (id : Bytes) (o : Options) (r : Result Error Ack) (t : T)
        → ((e : Error) → r ≡ err e → is_absent e ≡ false)
        → Coherent a holds truth t
        → Good id (checked a id o r t)
    unfolding checked
    checked-Good id o (err e) t h c = unchanged-Good id e t (h e refl) c
    checked-Good id o (ok _) t h c =
        claimed-Good id o (claim a id t) (claim-Claims a holds truth is id t c)

    pub check_ttl-err :
        (r : Bool) (o : Options) (id : Bytes) (e : Error)
        → check_ttl r o id ≡ err e
        → is_absent e ≡ false
    unfolding check_ttl is_absent
    check_ttl-err r o id e h = elim (Bool-cases (not r || (ltb 0 o.ttl || o.permanent))) [
      | inl f ↦ ground (arith, f)
      | inr f ↦ ground (arith, f)
    ]

    pub load_and_store-Good :
        (id : Bytes) (o : Options) (t : T)
        → Coherent a holds truth t
        → Good id (load_and_store a id o t)
    unfolding load_and_store
    load_and_store-Good id o t c =
        checked-Good id o (check_ttl a.require o id) t (check_ttl-err a.require o id) c

    pub fly-Good :
        (id : Bytes) (o : Options) (t : T) → Coherent a holds truth t → Good id (fly a id o t)
    unfolding fly is_absent
    fly-Good id o t c = elim (Bool-cases (a.is_full t)) [
      | inl f ↦ rw (f) (unchanged-Good id (overloaded id) t refl c)
      | inr f ↦ rw (f) (load_and_store-Good id o t c)
    ]
