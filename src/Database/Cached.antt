-- ===== src/Database/Cached.antt =====
-- database/cached: cached.go and aside.go, the driver that reads a store through a cache. Keys and
-- columns are those of database/store: resource.go and bridge.go.
pub mod Adapter
pub mod Coherence
pub mod Loading
pub mod Lookups
pub mod Transactions
pub mod Recording
pub mod Committed
pub mod Writes
pub mod Sharing
pub mod Memory
pub mod Promises
pub mod Examples
use runtime_go.Prelude.{
  ℕ, Bool, true, false, List, [], ◌∷◌, ◌++◌, Option, none, some, if◌then◌else◌, Bytes,
}
use runtime_go.Prelude.Outcome.{Result, ok, err, Ack, ack}
use runtime_go.ContentLine.Line.{equal}

pub record Column : Type 0 where
  pub name : Bytes
  pub field : Bytes

pub record Resource : Type 0 where
  pub name : Bytes
  pub pk_column : Bytes
  pub has_new : Bool
  pub columns : List Column

pub data Error : Type 0 where
  not_found overloaded : Bytes → Error
  no_new no_primary_key : Bytes → Error
  no_field : Bytes → Bytes → Error
  encoding decoding : Bytes → Bytes → Error
  failed : Bytes → Error

-- errors.Is with store.ErrNotFound and with ErrOverloaded.
unfoldable pub is_not_found : Error → Bool
is_not_found (not_found key) = true
is_not_found _ = false

unfoldable pub is_overloaded : Error → Bool
is_overloaded (overloaded key) = true
is_overloaded _ = false

unfoldable pub find_column : Bytes → List Column → Option Column
find_column name [] = none
find_column name (c ∷ cs) =
    let rest = find_column name cs in if equal c.name name then some c else rest

unfoldable pub pk : Resource → Option Column
pk r = find_column r.pk_column r.columns

abbrev pub Loader : Type 0 → Type 0
Loader T = Bytes → T → Result Error Bytes × T

-- The interface Aside, over the states T of the world.
pub record View (T : Type 0) : Type 0 where
  pub get_or_load : Loader T
  pub invalidate : Bytes → T → Result Error Ack × T

pub record WriteResult (M : Type 0) : Type 0 where
  pub message : M
  pub pending : Bool

-- The interface Driver of database/store, for messages of M, less the calls that pass through.
pub record Store (T M : Type 0) : Type 0 where
  pub get : Resource → Bytes → T → Result Error M × T
  pub create : Resource → M → T → Result Error (WriteResult M) × T
  pub update : Resource → M → T → Result Error (WriteResult M) × T
  pub delete : Resource → Bytes → T → Result Error Ack × T

-- A cached driver, with package proto: its encoding of a message, and its decoding into the type
-- that a resource's New makes; and protoreflect: the text of the field of a name.
pub record Driver (T M : Type 0) : Type 0 where
  pub next : Store T M
  pub cache : Loader T → View T
  pub marshal : M → Result Bytes Bytes
  pub unmarshal : Resource → Bytes → Result Bytes M
  pub text_of : M → Bytes → Option Bytes

-- The world, and the resources whose views have been built.
pub record World (T : Type 0) : Type 0 where
  pub asides : List Resource
  pub outer : T

-- The resource whose view has been built for a name.
unfoldable pub bound : Bytes → List Resource → Option Resource
bound name [] = none
bound name (r ∷ rs) = let rest = bound name rs in if equal r.name name then some r else rest

module _ {T M : Type 0} (d : Driver T M) where
  unfoldable pub text_at : Resource → Bytes → Option Bytes → Result Error Bytes
  text_at r field none = err (no_field r.name field)
  text_at r field (some key) = ok key

  unfoldable pub key_at : Resource → M → Option Column → Result Error Bytes
  key_at r msg none = err (no_primary_key r.name)
  key_at r msg (some c) = text_at r c.field (d.text_of msg c.field)

  unfoldable pub key_of : Resource → M → Result Error Bytes
  key_of r msg = key_at r msg (pk r)

  unfoldable pub encoded : Resource → Result Bytes Bytes → Result Error Bytes
  encoded r (ok body) = ok body
  encoded r (err e) = err (encoding r.name e)

  unfoldable pub encode_all : Resource → Result Error M × T → Result Error Bytes × T
  encode_all r (err e, t) = (err e, t)
  encode_all r (ok msg, t) = (encoded r (d.marshal msg), t)

  -- The loader of a resource's view.
  unfoldable pub load_of : Resource → Loader T
  load_of r key t = encode_all r (d.next.get r key t)

  unfoldable pub view_at : Option Resource → Resource → List Resource → View T × List Resource
  view_at (some b) r asides = (d.cache (load_of b), asides)
  view_at none r asides = (d.cache (load_of r), r ∷ asides)

  -- The view of a resource, built once for its name.
  unfoldable pub aside : Resource → List Resource → View T × List Resource
  aside r asides = view_at (bound r.name asides) r asides

  unfoldable pub decoded : Resource → Result Bytes M → Result Error M
  decoded r (ok msg) = ok msg
  decoded r (err e) = err (decoding r.name e)

  unfoldable pub made : Resource → Bytes → Bool → Result Error M
  made r body true = decoded r (d.unmarshal r body)
  made r body false = err (no_new r.name)

  unfoldable pub fetched : Resource → Bytes → Result Error Bytes × T → Result Error M × T
  fetched r key (ok body, t) = (made r body r.has_new, t)
  fetched r key (err e, t) = if is_overloaded e then d.next.get r key t else (err e, t)

  unfoldable pub with_asides : {A : Type 0} → List Resource → A × T → A × World T
  with_asides asides (x, t) = (x, record { asides = asides; outer = t })

  unfoldable pub get : Resource → Bytes → World T → Result Error M × World T
  get r key w =
      let (view, asides) = aside r w.asides in
      with_asides asides (fetched r key (view.get_or_load key w.outer))

  unfoldable pub invalidated : List Resource → Result Error Ack × T → World T
  invalidated asides (_, t) = record { asides = asides; outer = t }

  unfoldable pub forget : Resource → Bytes → World T → World T
  forget r [] w = w
  forget r (c ∷ key) w =
      let (view, asides) = aside r w.asides in
      invalidated asides (view.invalidate (c ∷ key) w.outer)

  unfoldable pub forget_known : Resource → Result Error Bytes → World T → World T
  forget_known r (err e) w = w
  forget_known r (ok key) w = forget r key w

  -- The key of the record written, else of the message given.
  unfoldable pub either_key : Result Error Bytes → Result Error Bytes → Result Error Bytes
  either_key (ok key) other = ok key
  either_key (err e) other = other

  unfoldable pub created :
      Resource
      → M
      → List Resource
      → Result Error (WriteResult M) × T
      → Result Error (WriteResult M) × World T
  created r msg asides (err e, t) = (err e, record { asides = asides; outer = t })
  created r msg asides (ok out, t) = (
    ok out,
    forget_known r (either_key (key_of r out.message) (key_of r msg))
        (record { asides = asides; outer = t }),
  )

  unfoldable pub create : Resource → M → World T → Result Error (WriteResult M) × World T
  create r msg w = created r msg w.asides (d.next.create r msg w.outer)

  unfoldable pub updated :
      Resource
      → M
      → List Resource
      → Result Error (WriteResult M) × T
      → Result Error (WriteResult M) × World T
  updated r msg asides (err e, t) = (err e, record { asides = asides; outer = t })
  updated r msg asides (ok out, t) =
      (ok out, forget_known r (key_of r msg) (record { asides = asides; outer = t }))

  unfoldable pub update : Resource → M → World T → Result Error (WriteResult M) × World T
  update r msg w = updated r msg w.asides (d.next.update r msg w.outer)

  unfoldable pub deleted :
      Resource → Bytes → List Resource → Result Error Ack × T → Result Error Ack × World T
  deleted r key asides (err e, t) = (err e, record { asides = asides; outer = t })
  deleted r key asides (ok a, t) = (ok a, forget r key (record { asides = asides; outer = t }))

  unfoldable pub delete : Resource → Bytes → World T → Result Error Ack × World T
  delete r key w = deleted r key w.asides (d.next.delete r key w.outer)
