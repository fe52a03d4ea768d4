-- ===== src/Database/Cached/Coherence.antt =====
-- What a store and package proto promise, and that a cached driver answers as its store would.
use runtime_go.Prelude.{◌≡◌, ◌≢◌, ap, true, [], Option, none, some, Bytes, All}
use runtime_go.Prelude.Outcome.{Result, ok, err, ack}
use runtime_go.Cache.Aside.{Aside, invalidate}
use runtime_go.Cache.Aside.Coherence.{Keeps, Coherent}
use runtime_go.Database.Cached.{
  Error, is_not_found, Resource, WriteResult, Driver, World, either_key, key_of, load_of,
}
use runtime_go.Database.Cached.Adapter.{Settings, inner, from_aside}

-- The driver over the read-through cache of cache/core.
abbrev pub driver_over : {T M : Type 0} → Settings T → Driver T M → Driver T M
driver_over s d = record d { cache = from_aside s }

-- The cache's view of a resource.
abbrev pub view : {T M : Type 0} → Driver T M → Settings T → Resource → Aside T Bytes
view d s r = inner s (load_of (driver_over s d) r)

-- That dropping the entry of a key succeeds in a state of the world.
abbrev pub Drops : {T M : Type 0} → Driver T M → Settings T → Resource → Bytes → T → Type 0
Drops d s r key t = (invalidate (view d s r) key t).0 ≡ ok ack

module _ {T M : Type 0} (d : Driver T M) (s : Settings T) (r : Resource)
    (holds : T → Bytes → Bytes → Type 0) (records : T → Bytes → Option M) where
  abbrev pub body_at : Result Bytes Bytes → Option Bytes
  body_at (ok body) = some body
  body_at (err e) = none

  abbrev pub body_of : Option M → Option Bytes
  body_of none = none
  body_of (some msg) = body_at (d.marshal msg)

  -- The bytes of the record that the store has under a key.
  abbrev pub truth : T → Bytes → Option Bytes
  truth t key = body_of (records t key)

  -- A step that leaves the records as they are, and one that changes none but one key's.
  pub record Untouched (t t' : T) : Type 0 where
    pub records-same : (key : Bytes) → records t' key ≡ records t key
    pub holds-same : (k v : Bytes) → holds t' k v → holds t k v

  pub record Touched (key : Bytes) (t t' : T) : Type 0 where
    pub records-others : (j : Bytes) → j ≢ key → records t' j ≡ records t j
    pub holds-same : (k v : Bytes) → holds t' k v → holds t k v

  pub record IsStore : Type 0 where
    pub get-ok :
        (key : Bytes) (m : M) (t : T)
        → (d.next.get r key t).0 ≡ ok m
        → records (d.next.get r key t).1 key ≡ some m
    pub get-not_found :
        (key : Bytes) (e : Error) (t : T)
        → (d.next.get r key t).0 ≡ err e
        → is_not_found e ≡ true
        → records (d.next.get r key t).1 key ≡ none
    pub get-Untouched : (key : Bytes) (t : T) → Untouched t (d.next.get r key t).1
    pub create-ok :
        (m : M) (out : WriteResult M) (t : T)
        → (d.next.create r m t).0 ≡ ok out
        → (key : Bytes) × (either_key
              (driver_over s d)
              (key_of (driver_over s d) r out.message)
              (key_of (driver_over s d) r m)
            ≡ ok key)
          × (key ≢ [])
          × Touched key t (d.next.create r m t).1
    pub create-err :
        (m : M) (e : Error) (t : T)
        → (d.next.create r m t).0 ≡ err e
        → Untouched t (d.next.create r m t).1
    pub update-ok :
        (m : M) (out : WriteResult M) (t : T)
        → (d.next.update r m t).0 ≡ ok out
        → (key : Bytes) × (key_of (driver_over s d) r m ≡ ok key)
          × (key ≢ [])
          × Touched key t (d.next.update r m t).1
    pub update-err :
        (m : M) (e : Error) (t : T)
        → (d.next.update r m t).0 ≡ err e
        → Untouched t (d.next.update r m t).1
    pub delete-ok :
        (key : Bytes) (t : T)
        → (d.next.delete r key t).0 ≡ ok ack
        → (key ≢ []) × Touched key t (d.next.delete r key t).1
    pub delete-err :
        (key : Bytes) (e : Error) (t : T)
        → (d.next.delete r key t).0 ≡ err e
        → Untouched t (d.next.delete r key t).1

  -- Records encode, and decode to themselves.
  pub record IsProto : Type 0 where
    pub marshal-ok :
        (t : T) (key : Bytes) (m : M) → records t key ≡ some m → (b : Bytes) × (d.marshal m ≡ ok b)
    pub unmarshal-marshal : (m : M) (b : Bytes) → d.marshal m ≡ ok b → d.unmarshal r b ≡ ok m

  pub Untouched-Keeps : {t t' : T} → Untouched t t' → Keeps (view d s r) holds truth t t'
  Untouched-Keeps u = record {
    holds-keeps = u.holds-same;
    truth-keeps = λ id. ap body_of (u.records-same id);
  }

  -- Every entry of the cache is right, and no other resource has a view.
  pub record Sound (w : World T) : Type 0 where
    pub coherent : Coherent (view d s r) holds truth w.outer
    pub only : All (λ (q : Resource). q ≡ r) w.asides

  -- A record that is answered is the store's, and an absence is one.
  pub record Reads (key : Bytes) (o : Result Error M × World T) : Type 0 where
    pub sound : Sound o.1
    pub ok-records : (m : M) → o.0 ≡ ok m → records o.1.outer key ≡ some m
    pub absent-records :
        (e : Error) → o.0 ≡ err e → is_not_found e ≡ true → records o.1.outer key ≡ none
