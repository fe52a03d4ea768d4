-- ===== src/Cache/Keyspace/Names.antt =====
-- The keys that a strategy forms of its keyspace, by what they are for.
use runtime_go.Prelude.{
  ◌≡◌, refl, sym, ap, ◌∙◌, ◌≢◌, ◌∷◌, ◌++◌, Option, none, some, if◌then◌else◌, Bytes, codes,
  append_assoc, append_cancel_left,
}
use runtime_go.ContentLine.Text.{cut_byte}
use runtime_go.ContentLine.Text.Laws.{Lacks, cut_byte_here}
use runtime_go.ContentLine.Line.{equal}
use runtime_go.Cache.Keyspace.{Keyspace, cut_colon, strategy, entry, index, by, fields, lock}

-- What the strategies document, index and aside keep under a name.
pub data Name : Type 0 where
  entry_name fields_name lock_name : Bytes → Name
  index_name : Name
  by_name : Bytes → Bytes → Name

unfoldable pub key_of : Keyspace → Name → Bytes
key_of k (entry_name id) = entry k id
key_of k (fields_name id) = fields k id
key_of k (lock_name id) = lock k id
key_of k index_name = index k
key_of k (by_name field value) = by k field value

-- A field whose name can be told from its value.
abbrev pub IsPlain : Name → Type 0
IsPlain (by_name field value) = Lacks b':' field
IsPlain _ = Unit

tail_of : Name → Bytes
tail_of (entry_name id) = codes "entry:" ++ id
tail_of (fields_name id) = codes "fields:" ++ id
tail_of (lock_name id) = codes "lock:" ++ id
tail_of index_name = codes "index"
tail_of (by_name field value) = codes "by:" ++ (field ++ (codes ":" ++ value))

key_of-tail_of : (k : Keyspace) (n : Name) → key_of k n ≡ k.base ++ tail_of n
unfolding key_of tail_of entry fields lock index by
key_of-tail_of k (entry_name id) = refl
key_of-tail_of k (fields_name id) = refl
key_of-tail_of k (lock_name id) = refl
key_of-tail_of k index_name = refl
key_of-tail_of k (by_name field value) = refl

field_and_value : Option (Bytes × Bytes) → Name
field_and_value none = index_name
field_and_value (some (field, value)) = by_name field value

read_tag : Bytes → Bytes → Name
read_tag tag rest =
    if equal tag (codes "entry")
    then entry_name rest
    else if equal tag (codes "fields")
    then fields_name rest
    else if equal tag (codes "lock")
    then lock_name rest
    else field_and_value (cut_colon rest)

read_name : Option (Bytes × Bytes) → Name
read_name none = index_name
read_name (some (tag, rest)) = read_tag tag rest

read_name-tail_of : (n : Name) → IsPlain n → read_name (cut_colon (tail_of n)) ≡ n
unfolding read_name read_tag tail_of equal cut_byte field_and_value
read_name-tail_of (entry_name id) p = refl
read_name-tail_of (fields_name id) p = refl
read_name-tail_of (lock_name id) p = refl
read_name-tail_of index_name p = refl
read_name-tail_of (by_name field value) p = ap field_and_value (cut_byte_here b':' field value p)

tail_of-injective : {m n : Name} → IsPlain m → IsPlain n → tail_of m ≡ tail_of n → m ≡ n
tail_of-injective {m = m} {n = n} p q h =
    sym (read_name-tail_of m p) ∙ ap (λ t. read_name (cut_colon t)) h ∙ read_name-tail_of n q

-- The keys of one keyspace are told apart.
pub same_keyspace-injective :
    (k : Keyspace) {m n : Name} → IsPlain m → IsPlain n → key_of k m ≡ key_of k n → m ≡ n
same_keyspace-injective k {m = m} {n = n} p q h =
    tail_of-injective p q
      (append_cancel_left k.base (sym (key_of-tail_of k m) ∙ h ∙ key_of-tail_of k n))

pub entry-injective : (k : Keyspace) (i j : Bytes) → entry k i ≡ entry k j → i ≡ j
entry-injective k i j h =
    let e =
      same_keyspace-injective k {m = entry_name i} {n = entry_name j} tt tt (unfold key_of in h) in
    cc

pub entry-lock : (k : Keyspace) (i j : Bytes) → entry k i ≢ lock k j
entry-lock k i j h =
    let e =
      same_keyspace-injective k {m = entry_name i} {n = lock_name j} tt tt (unfold key_of in h) in
    cc

strategy-cut : (k : Keyspace) (s t : Bytes) → (strategy k s).base ++ t ≡ k.base ++ (s ++ b':' ∷ t)
unfolding strategy
strategy-cut k s t = append_assoc k.base _ t ∙ ap (λ u. k.base ++ u) (append_assoc s _ t)

cut_colon-strategy :
    (k : Keyspace) {s t u v : Bytes}
    → Lacks b':' s
    → Lacks b':' t
    → (strategy k s).base ++ u ≡ (strategy k t).base ++ v
    → ◌≡◌ {A = Option (Bytes × Bytes)} (some (s, u)) (some (t, v))
cut_colon-strategy k {s = s} {t = t} {u = u} {v = v} p q h =
    sym (cut_byte_here b':' s u p)
    ∙ ap cut_colon (append_cancel_left k.base (sym (strategy-cut k s u) ∙ h ∙ strategy-cut k t v))
    ∙ cut_byte_here b':' t v q

-- In one database: where the names of two strategies, and the fields that entries are filed
-- under, hold no ':', equal keys are keys of one strategy, of one kind and for the same id, or
-- for the same field and value.
pub key_of-injective :
    (k : Keyspace) (s t : Bytes) (m n : Name)
    → Lacks b':' s
    → Lacks b':' t
    → IsPlain m
    → IsPlain n
    → key_of (strategy k s) m ≡ key_of (strategy k t) n
    → (s ≡ t) × (m ≡ n)
key_of-injective k s t m n ps pt pm pn h =
    let e =
      cut_colon-strategy k ps pt
        (sym (key_of-tail_of (strategy k s) m) ∙ h ∙ key_of-tail_of (strategy k t) n) in
    (cc, tail_of-injective pm pn (cc))
