-- ===== src/Cache/Aside.antt =====
-- cache/core: aside.go, loader.go and envelope.go, the read-through view of a loader.
pub mod Frames
pub mod Claims
pub mod Loads
pub mod Reads
pub mod Coherence
use runtime_go.Prelude.{
  ℕ, ◌+◌, ◌/◌, ◌^◌, Bool, true, false, not, ◌&&◌, ◌||◌, List, [], ◌∷◌, Option, none, some, ◌==◌,
  ltb, if◌then◌else◌, Bytes,
}
use runtime_go.Prelude.Outcome.{Result, ok, err, Ack, ack}
use runtime_go.Cache.Keyspace.{Keyspace, entry, lock}

-- A driver's errors: ErrMiss, and a failure.
pub data DriverError : Type 0 where
  miss : DriverError
  broken : Bytes → DriverError

-- Errors, with the errors that they wrap.
pub data Error : Type 0 where
  driver_error : DriverError → Error
  not_found overloaded no_ttl failed : Bytes → Error
  loading : Bytes → Error → Error
  storing invalidating : Bytes → DriverError → Error
  encoding framing unframing decoding : Bytes → Error

-- errors.Is with ErrMiss and with cache.ErrNotFound.
unfoldable pub is_miss : Error → Bool
is_miss (driver_error miss) = true
is_miss (storing id miss) = true
is_miss (invalidating id miss) = true
is_miss (loading id e) = is_miss e
is_miss _ = false

unfoldable pub is_absent : Error → Bool
is_absent (not_found id) = true
is_absent (loading id e) = is_absent e
is_absent _ = false

-- errors.Is with cache.ErrOverloaded.
unfoldable pub is_overloaded : Error → Bool
is_overloaded (overloaded id) = true
is_overloaded (loading id e) = is_overloaded e
is_overloaded _ = false

unfoldable pub is_not_found : Error → Bool
is_not_found e = is_miss e || is_absent e

-- A Driver over the states T of the world, with the methods that read-through calls.
pub record Driver (T : Type 0) : Type 0 where
  pub get : Bytes → T → Result DriverError Bytes × T
  pub set : Bytes → Bytes → ℕ → T → Result DriverError Ack × T
  pub add : Bytes → Bytes → ℕ → T → Result DriverError Bool × T
  pub delete : Bytes → T → Result DriverError Ack × T

-- The method DeleteIf of a backend that is Fenced.
abbrev pub Fenced : Type 0 → Type 0
Fenced T = Bytes → Bytes → T → Result DriverError Bool × T

-- A duration that is not positive is 0.
pub record Options : Type 0 where
  pub ttl : ℕ
  pub stale : ℕ
  pub permanent : Bool

-- The value is what json has made of the caller's; a freshness of 0 has no end.
pub record Envelope : Type 0 where
  pub value : Bytes
  pub fresh : ℕ
  pub void : Bool

pub record Unpacked : Type 0 where
  pub value : Bytes
  pub stale : Bool
  pub void : Bool

-- Package encoding/json, for values of V and for frames.
pub record Json (V : Type 0) : Type 0 where
  pub marshal : V → Result Bytes Bytes
  pub unmarshal : Bytes → Result Bytes V
  pub frame : Envelope → Result Bytes Bytes
  pub unframe : Bytes → Result Bytes Envelope

-- An aside, with what it calls: the clock of package time in nanoseconds, rand.Read, and whether
-- the flight refuses to start another load.
pub record Aside (T V : Type 0) : Type 0 where
  pub driver : Driver T
  pub fenced : Option (Fenced T)
  pub keys : Keyspace
  pub load : Bytes → T → Result Error V × T
  pub empty : ℕ
  pub lease : ℕ
  pub require : Bool
  pub json : Json V
  pub clock : T → ℕ
  pub random : T → Result Bytes Bytes × T
  pub is_full : T → Bool

unfoldable pub unix_milli : ℕ → ℕ
unix_milli t = t / 10 ^ 6

unfoldable pub check_ttl : Bool → Options → Bytes → Result Error Ack
check_ttl require o id =
    if not require || (ltb 0 o.ttl || o.permanent) then ok ack else err (no_ttl id)

unfoldable pub freshness : Options → ℕ × ℕ
freshness o =
    if o.ttl == 0 then (0, 0) else if o.stale == 0 then (0, o.ttl) else (o.ttl, o.ttl + o.stale)

module _ {T V : Type 0} (a : Aside T V) where
  unfoldable pub framed : Result Bytes Bytes → Result Error Bytes
  framed (ok body) = ok body
  framed (err e) = err (framing e)

  unfoldable pub packed : ℕ → T → Result Bytes Bytes → Result Error Bytes
  packed fresh t (err e) = err (encoding e)
  packed fresh t (ok body) = framed (
      a.json.frame (record {
        value = body;
        fresh = if fresh == 0 then 0 else unix_milli (a.clock t + fresh);
        void = false;
      }))

  unfoldable pub pack : V → ℕ → T → Result Error Bytes
  pack value fresh t = packed fresh t (a.json.marshal value)

  unfoldable pub pack_void : Result Error Bytes
  pack_void = framed (a.json.frame (record { value = []; fresh = 0; void = true }))

  unfoldable pub said : Envelope → T → Unpacked
  said e t =
      if e.void
      then record { value = []; stale = false; void = true }
      else if e.fresh == 0
      then record { value = e.value; stale = false; void = false }
      else record { value = e.value; stale = ltb e.fresh (unix_milli (a.clock t)); void = false }

  unfoldable pub unframed : T → Result Bytes Envelope → Result Error Unpacked
  unframed t (err e) = err (unframing e)
  unframed t (ok e) = ok (said e t)

  unfoldable pub unpack : Bytes → T → Result Error Unpacked
  unpack body t = unframed t (a.json.unframe body)

  -- What was read, unpacked.
  unfoldable pub opened : Result DriverError Bytes × T → Result Error Unpacked × T
  opened (err e, t) = (err (driver_error e), t)
  opened (ok body, t) = (unpack body t, t)

  unfoldable pub read : Bytes → T → Result Error Unpacked × T
  read id t = opened (a.driver.get (entry a.keys id) t)

  -- The claim of an id: to load it, with the token to release or without a lock, or not to load
  -- it, since another process has published its value.
  pub data Claim : Type 0 where
    won : Bytes → Claim
    unlocked : Claim
    joined : Bytes → Claim

  unfoldable pub published : Result Error Unpacked × T → Claim × T
  published (err e, t) = (unlocked, t)
  published (ok got, t) = ((if not got.void then joined got.value else unlocked), t)

  unfoldable pub added : Bytes → Bytes → Result DriverError Bool × T → Claim × T
  added id token (ok true, t) = (won token, t)
  added id token (ok false, t) = published (read id t)
  added id token (err e, t) = published (read id t)

  unfoldable pub drawn : Bytes → Result Bytes Bytes × T → Claim × T
  drawn id (err e, t) = (unlocked, t)
  drawn id (ok token, t) = added id token (a.driver.add (lock a.keys id) token a.lease t)

  unfoldable pub claim_by : Option (Fenced T) → Bytes → T → Claim × T
  claim_by none id t = (unlocked, t)
  claim_by (some _) id t = drawn id (a.random t)

  unfoldable pub claim : Bytes → T → Claim × T
  claim id t = claim_by a.fenced id t

  unfoldable pub unlock_by : Option (Fenced T) → Bytes → Bytes → T → T
  unlock_by none id token t = t
  unlock_by (some delete_if) id token t = (delete_if (lock a.keys id) token t).1

  unfoldable pub unlock : Bytes → Bytes → T → T
  unlock id token t = unlock_by a.fenced id token t

  -- An absence that cannot be framed, or kept, is not remembered.
  unfoldable pub remember : Bytes → Result Error Bytes → T → T
  remember id (err e) t = t
  remember id (ok void) t = (a.driver.set (entry a.keys id) void a.empty t).1

  unfoldable pub value_of : Result Error Unpacked → Result Error Bytes
  value_of (ok got) = ok got.value
  value_of (err e) = err e

  unfoldable pub stored : Bytes → Bytes → Result DriverError Ack × T → Result Error Bytes × T
  stored id body (err e, t) = (err (storing id e), t)
  stored id body (ok _, t) = (value_of (unpack body t), t)

  unfoldable pub keep : Bytes → ℕ → Result Error Bytes → T → Result Error Bytes × T
  keep id hard (err e) t = (err e, t)
  keep id hard (ok body) t = stored id body (a.driver.set (entry a.keys id) body hard t)

  unfoldable pub loaded : Bytes → Options → Result Error V × T → Result Error Bytes × T
  loaded id o (err e, t) =
      if is_not_found e
      then (err (not_found id), remember id pack_void t)
      else (err (loading id e), t)
  loaded id o (ok value, t) = keep id (freshness o).1 (pack value (freshness o).0 t) t

  -- The deferred release runs behind the load.
  unfoldable pub released : Bytes → Bytes → Result Error Bytes × T → Result Error Bytes × T
  released id token (r, t) = (r, unlock id token t)

  unfoldable pub claimed : Bytes → Options → Claim × T → Result Error Bytes × T
  claimed id o (joined body, t) = (ok body, t)
  claimed id o (unlocked, t) = loaded id o (a.load id t)
  claimed id o (won token, t) = released id token (loaded id o (a.load id t))

  unfoldable pub checked : Bytes → Options → Result Error Ack → T → Result Error Bytes × T
  checked id o (err e) t = (err e, t)
  checked id o (ok _) t = claimed id o (claim id t)

  unfoldable pub load_and_store : Bytes → Options → T → Result Error Bytes × T
  load_and_store id o t = checked id o (check_ttl a.require o id) t

  -- flight.Do for a caller that joins no other's load.
  unfoldable pub fly : Bytes → Options → T → Result Error Bytes × T
  fly id o t = if a.is_full t then (err (overloaded id), t) else load_and_store id o t

  unfoldable pub decode : Result Bytes V → Result Error V
  decode (ok value) = ok value
  decode (err e) = err (decoding e)

  unfoldable pub decoded : Result Error Bytes × T → Result Error V × T
  decoded (err e, t) = (err e, t)
  decoded (ok body, t) = (decode (a.json.unmarshal body), t)

  -- The answer of get_or_load and whether it asks for a refresh in the background.
  unfoldable pub answered :
      Bytes → Options → Result Error Unpacked × T → Bool × (Result Error V × T)
  answered id o (ok got, t) =
      if got.void then (false, (err (not_found id), t)) else (got.stale, decoded (ok got.value, t))
  answered id o (err e, t) =
      if not (is_miss e) then (false, (err e, t)) else (false, decoded (fly id o t))

  unfoldable pub get_or_load : Bytes → Options → T → Bool × (Result Error V × T)
  get_or_load id o t = answered id o (read id t)

  unfoldable pub refreshed : Result Error Bytes × T → Result Error Ack × T
  refreshed (err e, t) = (err e, t)
  refreshed (ok _, t) = (ok ack, t)

  unfoldable pub refresh : Bytes → Options → T → Result Error Ack × T
  refresh id o t = refreshed (fly id o t)

  unfoldable pub dropped : Bytes → Result DriverError Ack × T → Result Error Ack × T
  dropped id (err e, t) = (err (invalidating id e), t)
  dropped id (ok _, t) = (ok ack, t)

  unfoldable pub invalidate : Bytes → T → Result Error Ack × T
  invalidate id t = dropped id (a.driver.delete (entry a.keys id) t)
