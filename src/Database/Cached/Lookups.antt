-- ===== src/Database/Cached/Lookups.antt =====
-- A cached driver's Get.
use mathlib.Core.Path.{subst}
use runtime_go.Prelude.{
  ◌≡◌, inl, inr, refl, sym, ap, ◌∙◌, Bool, Bool-cases, true, false, List, Option, none, some, Bytes,
  All,
}
use runtime_go.Prelude.Outcome.{Result, ok, err, ok-injective}
use runtime_go.Cache
use runtime_go.Cache.Aside.{Aside, Options, is_absent, get_or_load, invalidate}
use runtime_go.Cache.Aside.Coherence.{IsBackend, IsJson, Coherent}
use runtime_go.Cache.Aside.Reads.{Answers, get_or_load-Answers}
use runtime_go.Database.Cached.{
  Error, not_found, failed, is_not_found, is_overloaded, Resource, View, Driver, World, aside,
  no_new, decoded, made, fetched, with_asides, get,
}
use runtime_go.Database.Cached.Adapter.{Settings, restored, from_aside}
use runtime_go.Database.Cached.Coherence.{driver_over, view, truth, IsStore, IsProto, Sound, Reads}
use runtime_go.Database.Cached.Loading.{
  view-IsLoader, aside-only, body_of-some, body_of-none, next-Reads,
}

module _ {T M : Type 0} (d : Driver T M) (s : Settings T) (r : Resource)
    (holds : T → Bytes → Bytes → Type 0) (records : T → Bytes → Option M)
    (st : IsStore d s r holds records) (proto : IsProto d s r holds records)
    (back : IsBackend (view d s r) holds (truth d s r holds records))
    (json : IsJson (view d s r) holds (truth d s r holds records)) where
  decoded-ok :
      (t : T) (key b : Bytes) (m : M)
      → truth d s r holds records t key ≡ some b
      → decoded (driver_over s d) r (d.unmarshal r b) ≡ ok m
      → records t key ≡ some m
  unfolding decoded
  decoded-ok t key b m h q =
      let (x, e, f) = body_of-some d s r holds records proto t key b h in
      e ∙ ap some (ok-injective (sym (ap (decoded (driver_over s d) r) f) ∙ q))

  decoded-err :
      (x : Result Bytes M) (e : Error)
      → decoded (driver_over s d) r x ≡ err e
      → is_not_found e ≡ false
  unfolding decoded is_not_found
  decoded-err (ok m) e h = cc
  decoded-err (err c) e h =
      ap (λ (o : Result Error M). elim o [ ok _ ↦ false | err x ↦ is_not_found x ]) (sym h)

  no_new-present :
      {n : Bytes} {e : Error}
      → ◌≡◌ {A = Result Error M} (err (no_new n)) (err e)
      → is_not_found e ≡ false
  unfolding is_not_found
  no_new-present h =
      ap (λ (o : Result Error M). elim o [ ok _ ↦ false | err x ↦ is_not_found x ]) (sym h)

  failed-present : (c : Bytes) → is_not_found (failed c) ≡ true → ⊥
  unfolding is_not_found
  failed-present c h = cc

  -- An error is answered, which says that there is no record where it says that one is not found.
  failed-Reads :
      (key : Bytes) (e : Error) (t : T) (asides : List Resource)
      → Coherent (view d s r) holds (truth d s r holds records) t
      → All (λ (q : Resource). q ≡ r) asides
      → (is_not_found e ≡ true → records t key ≡ none)
      → Reads d s r holds records key (with_asides (driver_over s d) asides (err e, t))
  unfolding with_asides
  failed-Reads key e t asides c a h = record {
    sound = record { coherent = c; only = a };
    ok-records = λ m q. cc;
    absent-records = λ x q n. h (cc);
  }

  made-Reads :
      (c : Bool) (key body : Bytes) (t : T) (asides : List Resource)
      → Answers (view d s r) holds (truth d s r holds records) key (ok body, t)
      → All (λ (q : Resource). q ≡ r) asides
      → Reads d s r holds records key
          (with_asides (driver_over s d) asides (made (driver_over s d) r body c, t))
  unfolding made with_asides is_not_found
  made-Reads true key body t asides g a = record {
    sound = record { coherent = g.coherent; only = a };
    ok-records = λ m q. decoded-ok t key body m (g.ok-truth body refl) q;
    absent-records = λ e q n. let f = decoded-err (d.unmarshal r body) e q in cc;
  }
  made-Reads false key body t asides g a = record {
    sound = record { coherent = g.coherent; only = a };
    ok-records = λ m q. cc;
    absent-records = λ e q n. let f = no_new-present q in cc;
  }

  restored-Reads :
      (key : Bytes) (o : Result Cache.Aside.Error Bytes × T) (asides : List Resource)
      → Answers (view d s r) holds (truth d s r holds records) key o
      → All (λ (q : Resource). q ≡ r) asides
      → Reads d s r holds records key (
          with_asides (driver_over s d) asides (fetched (driver_over s d) r key (restored s key o)))
  unfolding fetched restored is_overloaded
  restored-Reads key (ok body, t) asides g a = made-Reads r.has_new key body t asides g a
  restored-Reads key (err e, t) asides g a = elim (Bool-cases (is_absent e)) [
    | inl f ↦ rw (f) (
        failed-Reads key (not_found key) t asides g.coherent a
          (λ n. body_of-none d s r holds records proto t key (g.absent-truth e refl f)))
    | inr f ↦ elim (Bool-cases (Cache.Aside.is_overloaded e)) [
      | inl q ↦
          rw (f, q)
            (next-Reads d s r holds records st key t asides g.coherent a (d.next.get r key t) refl)
      | inr q ↦
          rw (f, q)
            (failed-Reads key (failed (s.cache_text e)) t asides g.coherent a
              (λ n. absurd (failed-present (s.cache_text e) n)))
    ]
  ]

  -- Where the store, package proto,
  -- json and the cache's backend keep their promises, and the cache's entries are right: Get
  -- leaves them right, a message that it answers is the store's record of the key, and it says
  -- that a record is not found only where the store has none.
  pub get-Reads :
      (key : Bytes) (w : World T)
      → Sound d s r holds records w
      → Reads d s r holds records key (get (driver_over s d) r key w)
  unfolding get from_aside
  get-Reads key w h =
      let (e, a) = aside-only d s r holds records w.asides h.only in
      subst
        (λ (v : View T). Reads d s r holds records key (
          with_asides (driver_over s d) (aside (driver_over s d) r w.asides).1
            (fetched (driver_over s d) r key (v.get_or_load key w.outer))))
        (sym e)
        (restored-Reads key (get_or_load (view d s r) key s.options w.outer).1
          (aside (driver_over s d) r w.asides).1
          (get_or_load-Answers (view d s r) holds (truth d s r holds records) back json
            (view-IsLoader d s r holds records st) key s.options w.outer h.coherent)
          a)
