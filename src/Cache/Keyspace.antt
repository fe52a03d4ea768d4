-- ===== src/Cache/Keyspace.antt =====
-- cache/core/keyspace.go: the names of a cache's keys.
pub mod Names
pub mod Heads
pub mod Examples
use runtime_go.Prelude.{
  ℕ, Bool, true, false, List, [], ◌∷◌, ◌++◌, Option, none, some, if◌then◌else◌, Bytes, codes,
}
use runtime_go.Prelude.Outcome.{Result, ok, err, Ack, ack}
use runtime_go.ContentLine.Text.{cut_byte}
use runtime_go.ContentLine.Line.{contains}
use runtime_go.Icaltime.Decimal.{decimal}

pub record Keyspace : Type 0 where
  pub base : Bytes

pub data NameError : Type 0 where
  empty_name : NameError
  holds_colon : Bytes → NameError
  not_configured : Bytes → List Bytes → NameError

abbrev pub cut_colon : Bytes → Option (Bytes × Bytes)
cut_colon = cut_byte b':'

-- The name with its separator, and nothing for no name.
unfoldable pub segment : Bytes → Bytes
segment [] = []
segment (c ∷ n) = c ∷ n ++ codes ":"

-- The index of a database is a natural number.
unfoldable pub db_segment : ℕ → Bool → Bytes
db_segment db embed_db = if embed_db then codes "db" ++ (decimal db ++ codes ":") else []

unfoldable pub new_keyspace : Bytes → Bytes → ℕ → Bool → Keyspace
new_keyspace prefix namespace db embed_db = record {
  base = segment prefix ++ (segment namespace ++ (db_segment db embed_db ++ codes "cache:"));
}

unfoldable pub check_namespace : Bytes → Result NameError Ack
check_namespace [] = err empty_name
check_namespace (c ∷ name) = elim (cut_colon (c ∷ name)) [
  | some _ ↦ err (holds_colon (c ∷ name))
  | none ↦ ok ack
]

unfoldable pub check_known : Bytes → List Bytes → Result NameError Ack
check_known name [] = ok ack
check_known name (k ∷ known) =
    if contains (k ∷ known) name then ok ack else err (not_configured name (k ∷ known))

unfoldable pub head : Keyspace → Bytes
head k = k.base

unfoldable pub strategy : Keyspace → Bytes → Keyspace
strategy k name = record { base = k.base ++ (name ++ codes ":") }

unfoldable pub entry : Keyspace → Bytes → Bytes
entry k id = k.base ++ (codes "entry:" ++ id)

unfoldable pub index : Keyspace → Bytes
index k = k.base ++ codes "index"

unfoldable pub by : Keyspace → Bytes → Bytes → Bytes
by k field value = k.base ++ (codes "by:" ++ (field ++ (codes ":" ++ value)))

unfoldable pub fields : Keyspace → Bytes → Bytes
fields k id = k.base ++ (codes "fields:" ++ id)

unfoldable pub raw : Keyspace → Bytes → Bytes
raw k name = k.base ++ name

unfoldable pub lock : Keyspace → Bytes → Bytes
lock k id = k.base ++ (codes "lock:" ++ id)

unfoldable pub pattern_of : Keyspace → Bytes → Bytes
pattern_of k glob = k.base ++ glob
