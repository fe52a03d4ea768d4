-- ===== src/Database/Cached/Adapter.antt =====
-- database/cached/aside.go: a view over the read-through cache of cache/core.
use runtime_go.Prelude.{Bytes, if◌then◌else◌}
use runtime_go.Prelude.Outcome.{Result, ok, err, Ack}
use runtime_go.Cache
use runtime_go.Cache.Aside.{Aside, Options, is_absent, get_or_load, refresh, invalidate}
use runtime_go.Database.Cached.{Error, not_found, overloaded, failed, is_not_found, Loader, View}

-- What the cache's database gives, with the loader's place open, the options of its views, and
-- the texts of errors.
pub record Settings (T : Type 0) : Type 0 where
  pub base : Aside T Bytes
  pub options : Options
  pub text : Error → Bytes
  pub cache_text : Cache.Aside.Error → Bytes

module _ {T : Type 0} (s : Settings T) where
  unfoldable pub absence : Bytes → Result Error Bytes × T → Result Cache.Aside.Error Bytes × T
  absence id (ok body, t) = (ok body, t)
  absence id (err e, t) =
      if is_not_found e
      then (err (Cache.Aside.not_found id), t)
      else (err (Cache.Aside.failed (s.text e)), t)

  -- The loader that the cache calls.
  unfoldable pub translated : Loader T → Bytes → T → Result Cache.Aside.Error Bytes × T
  translated load id t = absence id (load id t)

  unfoldable pub inner : Loader T → Aside T Bytes
  inner load = record {
    driver = s.base.driver;
    fenced = s.base.fenced;
    keys = s.base.keys;
    load = translated load;
    empty = s.base.empty;
    lease = s.base.lease;
    require = s.base.require;
    json = s.base.json;
    clock = s.base.clock;
    random = s.base.random;
    is_full = s.base.is_full;
  }

  unfoldable pub restored : Bytes → Result Cache.Aside.Error Bytes × T → Result Error Bytes × T
  restored key (ok body, t) = (ok body, t)
  restored key (err e, t) = (
    (if is_absent e
        then err (not_found key)
        else if Cache.Aside.is_overloaded e
        then err (overloaded key)
        else err (failed (s.cache_text e))),
    t,
  )

  unfoldable pub dropped : Result Cache.Aside.Error Ack × T → Result Error Ack × T
  dropped (ok a, t) = (ok a, t)
  dropped (err e, t) = (err (failed (s.cache_text e)), t)

  -- The refresh in the background that a stale hit starts, once it runs: nobody waits for its
  -- answer.
  unfoldable pub background : Loader T → Bytes → T → T
  background load key t = (refresh (inner load) key s.options t).1

  -- A refresh that get_or_load asks for is a call of background of its own, later. invalidate
  -- is called for one key.
  unfoldable pub from_aside : Loader T → View T
  from_aside load = record {
    get_or_load = λ key t. restored key (get_or_load (inner load) key s.options t).1;
    invalidate = λ key t. dropped (invalidate (inner load) key t);
  }
