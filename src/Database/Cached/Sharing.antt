-- ===== src/Database/Cached/Sharing.antt =====
-- The entries of a cached driver are those of all its resources.
use mathlib.Core.Path.{subst}
use runtime_go.Prelude.{
  ◌≡◌, refl, sym, ap, ◌∙◌, Bool-cases, inl, inr, false, List, ◌==◌, Option, none, some, Bytes,
}
use runtime_go.Prelude.Outcome.{Result, ok}
use runtime_go.Cache
use runtime_go.Cache.Keyspace.{entry}
use runtime_go.Cache.Aside.{
  Envelope, Unpacked, Options, said, unframed, unpack, opened, read, decode, answered, get_or_load,
}
use runtime_go.Database.Cached.{
  Error, Resource, Loader, View, Driver, World, load_of, bound, view_at, aside, made, fetched,
  with_asides, get,
}
use runtime_go.Database.Cached.Adapter.{Settings, inner, restored, from_aside}
use runtime_go.Database.Cached.Coherence.{driver_over}

module _ {T M : Type 0} (d : Driver T M) (s : Settings T) where
  view_at-from_aside :
      (o : Option Resource) (r : Resource) (asides : List Resource)
      → (b : Resource) × ((view_at (driver_over s d) o r asides).0
          ≡ from_aside s (load_of (driver_over s d) b))
  unfolding view_at
  view_at-from_aside none r asides = (r, refl)
  view_at-from_aside (some b) r asides = (b, refl)

  said-value :
      (load : Loader T) (e : Envelope) (t : T)
      → e.void ≡ false
      → ((said (inner s load) e t).void ≡ false) × ((said (inner s load) e t).value ≡ e.value)
  unfolding said
  said-value load e t h = elim (Bool-cases (e.fresh == 0)) [
    | inl f ↦ rw (h, f) (refl, refl)
    | inr f ↦ rw (h, f) (refl, refl)
  ]

  -- What the cache answers is what is under the key, whatever the loader would load.
  answered-value :
      (load : Loader T) (key body : Bytes) (o : Options) (u : Unpacked) (t : T)
      → u.void ≡ false
      → s.base.json.unmarshal u.value ≡ ok body
      → (answered (inner s load) key o (ok u, t)).1 ≡ (ok body, t)
  unfolding answered Cache.Aside.decoded decode inner
  answered-value load key body o u t v j = rw (v, j) refl

  hit-value :
      (load : Loader T) (key frame body : Bytes) (e : Envelope) (t t' : T)
      → s.base.driver.get (entry s.base.keys key) t ≡ (ok frame, t')
      → s.base.json.unframe frame ≡ ok e
      → e.void ≡ false
      → s.base.json.unmarshal e.value ≡ ok body
      → (get_or_load (inner s load) key s.options t).1 ≡ (ok body, t')
  unfolding get_or_load read opened unpack unframed inner
  hit-value load key frame body e t t' g f v j =
      let (w, x) = said-value load e t' v in
      rw (g, f)
        (answered-value load key body s.options (said (inner s load) e t') t' w
          (ap s.base.json.unmarshal x ∙ j))

  restored-made :
      (r : Resource) (key body : Bytes) (t : T) (asides : List Resource)
      → ((with_asides
            (driver_over s d)
            asides
            (fetched (driver_over s d) r key (restored s key (ok body, t)))).0
          ≡ made (driver_over s d) r body r.has_new)
        × ((with_asides
              (driver_over s d)
              asides
              (fetched (driver_over s d) r key (restored s key (ok body, t)))).1.outer
            ≡ t)
  unfolding with_asides fetched restored
  restored-made r key body t asides = (refl, refl)

  -- Where the bytes under a key's entry are a frame that is no remembered absence, and hold the
  -- bytes of a record: Get answers every resource with these bytes, decoded as the resource's, and
  -- asks no store, so that records of two resources with one key are answered for each other.
  pub get-hit :
      (r : Resource) (w : World T) (key frame body : Bytes) (e : Envelope) (t : T)
      → s.base.driver.get (entry s.base.keys key) w.outer ≡ (ok frame, t)
      → s.base.json.unframe frame ≡ ok e
      → e.void ≡ false
      → s.base.json.unmarshal e.value ≡ ok body
      → ((get (driver_over s d) r key w).0 ≡ made (driver_over s d) r body r.has_new)
        × ((get (driver_over s d) r key w).1.outer ≡ t)
  unfolding get aside from_aside
  get-hit r w key frame body e t g f v j =
      let (b, q) = view_at-from_aside (bound r.name w.asides) r w.asides in
      let l = load_of (driver_over s d) b in
      let built = (view_at (driver_over s d) (bound r.name w.asides) r w.asides).1 in
      subst
        (λ (o : Result Error Bytes × T).
          ((with_asides (driver_over s d) built (fetched (driver_over s d) r key o)).0
            ≡ made (driver_over s d) r body r.has_new)
          × ((with_asides (driver_over s d) built (fetched (driver_over s d) r key o)).1.outer ≡ t))
        (sym (
          ap (λ (x : View T). x.get_or_load key w.outer) q
          ∙ ap (restored s key) (hit-value l key frame body e w.outer t g f v j)))
        (restored-made r key body t built)
