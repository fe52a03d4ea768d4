-- ===== src/Database/Cached/Memory.antt =====
-- A store and a cache in memory, under a cached driver, like fakeStore of database/cached's tests.
use runtime_go.Prelude.{
  ℕ, zero, suc, ◌≡◌, Bool, true, false, List, [], ◌∷◌, Option, none, some, if◌then◌else◌, Bytes,
  codes,
}
use runtime_go.Prelude.Table.{Table, put}
use runtime_go.Prelude.Outcome.{Result, ok, err, Ack, ack}
use runtime_go.ContentLine.Line.{equal}
use runtime_go.Cache
use runtime_go.Cache.Aside.{DriverError, miss, Envelope, Json, Options, Aside}
use runtime_go.Database.Cached.{Error, not_found, failed, WriteResult, Store, Driver}
use runtime_go.Database.Cached.Transactions.{Touch, Transact}
use runtime_go.Database.Cached.Adapter.{Settings}

pub record Book : Type 0 where
  pub id : Bytes
  pub title : ℕ

pub record Memory : Type 0 where
  pub rows : Table Book
  pub cells : Table Bytes

abbrev pub cell : Option Bytes → Memory → Result DriverError Bytes × Memory
cell none t = (err miss, t)
cell (some b) t = (ok b, t)

abbrev pub add_cell : Bytes → Bytes → Option Bytes → Memory → Result DriverError Bool × Memory
add_cell k b (some _) t = (ok false, t)
add_cell k b none t = (ok true, record t { cells = put k (some b) t.cells })

abbrev pub memory_driver : Cache.Aside.Driver Memory
memory_driver = record {
  get = λ k t. cell (t.cells k) t;
  set = λ k b n t. (ok ack, record t { cells = put k (some b) t.cells });
  add = λ k b n t. add_cell k b (t.cells k) t;
  delete = λ k t. (ok ack, record t { cells = put k none t.cells });
}

abbrev pub flag : Bool → ℕ
flag true = 1
flag false = 0

abbrev pub open_frame : Bytes → Result Bytes Envelope
open_frame (f ∷ zero ∷ v) = ok (record { value = v; fresh = f; void = false })
open_frame (f ∷ suc _ ∷ v) = ok (record { value = v; fresh = f; void = true })
open_frame _ = err []

abbrev pub bytes_json : Json Bytes
bytes_json = record {
  marshal = ok;
  unmarshal = ok;
  frame = λ e. ok (e.fresh ∷ flag e.void ∷ e.value);
  unframe = open_frame;
}

abbrev pub found : Bytes → Option Book → Memory → Result Error Book × Memory
found key none t = (err (not_found key), t)
found key (some m) t = (ok m, t)

abbrev pub stores : Book → Memory → Result Error (WriteResult Book) × Memory
stores m t =
    (ok (record { message = m; pending = false }), record t { rows = put m.id (some m) t.rows })

-- A book has an id, and a title: it is not created twice, nor updated or deleted where it is not.
abbrev pub create_book :
    Book → Bytes → Option Book → Memory → Result Error (WriteResult Book) × Memory
create_book m [] _ t = (err (failed []), t)
create_book m (c ∷ id) (some _) t = (err (failed []), t)
create_book m (c ∷ id) none t = stores m t

abbrev pub update_book :
    Book → Bytes → Option Book → Memory → Result Error (WriteResult Book) × Memory
update_book m [] _ t = (err (failed []), t)
update_book m (c ∷ id) none t = (err (not_found m.id), t)
update_book m (c ∷ id) (some _) t = stores m t

abbrev pub delete_book : Bytes → Option Book → Memory → Result Error Ack × Memory
delete_book [] _ t = (err (failed []), t)
delete_book (c ∷ id) none t = (err (not_found (c ∷ id)), t)
delete_book (c ∷ id) (some _) t = (ok ack, record t { rows = put (c ∷ id) none t.rows })

abbrev pub memory_store : Store Memory Book
memory_store = record {
  get = λ r key t. found key (t.rows key) t;
  create = λ r m t. create_book m m.id (t.rows m.id) t;
  update = λ r m t. update_book m m.id (t.rows m.id) t;
  delete = λ r key t. delete_book key (t.rows key) t;
}

abbrev pub book_of : Bytes → Result Bytes Book
book_of [] = err []
book_of (title ∷ id) = ok (record { id = id; title = title })

abbrev pub memory : Driver Memory Book
memory = record {
  next = memory_store;
  cache = λ load. record { get_or_load = load; invalidate = λ key t. (ok ack, t) };
  marshal = λ m. ok (m.title ∷ m.id);
  unmarshal = λ r body. book_of body;
  text_of = λ m field. if equal field (codes "id") then some m.id else none;
}

abbrev pub settings : Settings Memory
settings = record {
  base = record {
    driver = memory_driver;
    fenced = none;
    keys = record { base = codes "cache:aside:" };
    load = λ id t. (err (Cache.Aside.failed []), t);
    empty = 0;
    lease = 0;
    require = false;
    json = bytes_json;
    clock = λ t. 0;
    random = λ t. (ok [], t);
    is_full = λ t. false;
  };
  options = record { ttl = 60; stale = 0; permanent = false };
  text = λ e. [];
  cache_text = λ e. [];
}

abbrev pub HoldsCell : Memory → Bytes → Bytes → Type 0
HoldsCell t k v = t.cells k ≡ some v

abbrev pub row_of : Memory → Bytes → Option Book
row_of t key = t.rows key

-- A transaction is a call of its body, whose state is put back where it fails.
abbrev pub settle : Memory → Result Error (List Touch) × Memory → Result Error (List Touch) × Memory
settle t (ok xs, u) = (ok xs, u)
settle t (err e, u) = (err e, t)

abbrev pub transact : Transact Memory
transact f t = settle t (f t)
