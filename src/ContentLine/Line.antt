-- ===== src/ContentLine/Line.antt =====
-- rfc/internal/contentline: Parse of line.go and EscapeParam of escape.go, with encodeExtension of
-- rfc/internal/ical/encode.go, which writes what Parse reads.
pub mod Scan
pub mod RoundTrip
pub mod Equal
pub mod Examples
use runtime_go.Prelude.{
  ℕ, Bool, true, false, not, ◌&&◌, ◌||◌, List, [], ◌∷◌, ◌++◌, map, Option, none, some, ◌==◌, ltb,
  leb, if◌then◌else◌, Bytes, codes, ◌-◌,
}
use runtime_go.Prelude.Outcome.{Result, ok, err, ◌>>=◌}
use runtime_go.ContentLine.Text.{cut_byte, trim_space}
use runtime_go.ContentLine.Escape.{split_unescaped, join_list}

-- Line.Params: each key once, with its values in order.
abbrev pub Params : Type 0
Params = List (Bytes × List Bytes)

pub record Line : Type 0 where
  pub group : Bytes
  pub name : Bytes
  pub raw_name : Bytes
  pub params : Params
  pub value : Bytes

pub data Error : Type 0 where
  no_separator no_name bad_param : Error

unfoldable pub equal : Bytes → Bytes → Bool
equal [] [] = true
equal (a ∷ s) (b ∷ t) = a == b && equal s t
equal _ _ = false

-- l.Params[k] = append(l.Params[k], v)
unfoldable pub add_param : Params → Bytes → Bytes → Params
unfolding equal
add_param [] k v = (k, v ∷ []) ∷ []
add_param ((j, vs) ∷ ps) k v =
    if equal j k then (j, vs ++ v ∷ []) ∷ ps else (j, vs) ∷ add_param ps k v

-- The loop that looks for the first colon outside quotes: what is before it and behind it.
pub find_colon : Bool → Bytes → Option (Bytes × Bytes)
find_colon quoted [] = none
find_colon quoted (c ∷ s) =
    let flag = if c == b'"' then not quoted else quoted in
    let rest = find_colon flag s in
    if c == b':' && not quoted
    then some ([], s)
    else elim rest [ none ↦ none | some (before, after) ↦ some (c ∷ before, after) ]

-- The bytes before a closing quote, if the text ends in one.
pub strip_last : Bytes → Option Bytes
strip_last [] = none
strip_last (c ∷ []) = if c == b'"' then some [] else none
strip_last (c ∷ d ∷ s) = elim (strip_last (d ∷ s)) [ none ↦ none | some t ↦ some (c ∷ t) ]

-- one[1 : len(one)-1], if `one` is two bytes or more and stands in quotes.
pub unquote : Bytes → Option Bytes
unfolding strip_last
unquote [] = none
unquote (c ∷ s) = if c == b'"' then strip_last s else none

-- strings.ToUpper takes its fast way on ASCII.
unfoldable pub is_ascii : Bytes → Bool
is_ascii [] = true
is_ascii (c ∷ s) = ltb c 128 && is_ascii s

unfoldable pub upper_byte : ℕ → ℕ
upper_byte c = if leb b'a' c && leb c b'z' then c - 32 else c

abbrev multi_valued_names : List Bytes
multi_valued_names =
    codes "TYPE"
    ∷ codes "PID"
    ∷ codes "SORT-AS"
    ∷ codes "DELEGATED-FROM"
    ∷ codes "DELEGATED-TO"
    ∷ codes "MEMBER"
    ∷ []

unfoldable pub contains : List Bytes → Bytes → Bool
unfolding equal
contains [] k = false
contains (j ∷ js) k = equal j k || contains js k

-- multiValuedParams
unfoldable pub is_multi_valued : Bytes → Bool
unfolding contains
is_multi_valued k = contains multi_valued_names k

-- The values of a list in quotes, each trimmed, the empty ones dropped.
pub add_subs : Params → Bytes → List Bytes → Params
add_subs ps k [] = ps
add_subs ps k (sub ∷ subs) = elim (trim_space sub) [
  | [] ↦ add_subs ps k subs
  | c ∷ s ↦ add_subs (add_param ps k (c ∷ s)) k subs
]

pub add_nonempty : Params → Bytes → Bytes → Params
add_nonempty ps k [] = ps
add_nonempty ps k (c ∷ s) = add_param ps k (c ∷ s)

-- The body of the loop over the values of one parameter; `one` is trimmed, and stood in quotes or not.
pub add_one : Params → Bytes → Bytes → Params
unfolding add_subs add_nonempty unquote is_multi_valued
add_one ps k one = elim (unquote one) [
  | none ↦ add_nonempty ps k one
  | some inner ↦
      if is_multi_valued k
      then add_subs ps k (split_unescaped inner b',')
      else add_nonempty ps k inner
]

pub add_values : Params → Bytes → List Bytes → Params
unfolding add_one
add_values ps k [] = ps
add_values ps k (one ∷ rest) = add_values (add_one ps k (trim_space one)) k rest

-- [group "."] name
pub split_group : Bytes → Bytes × Bytes
split_group field = elim (cut_byte b'.' field) [
  | none ↦ ([], field)
  | some (group, name) ↦ (group, name)
]

-- `unicode_upper` is strings.ToUpper on a text that is not ASCII, which follows Unicode's tables.
module _ (unicode_upper : Bytes → Bytes) where
  unfoldable pub to_upper : Bytes → Bytes
  unfolding is_ascii upper_byte
  to_upper s = if is_ascii s then map upper_byte s else unicode_upper s

  -- One round of the loop over parts[1:].
  pub add_part : Params → Bytes → Params
  unfolding add_values to_upper
  add_part ps p = elim (cut_byte b'=' p) [
    | none ↦
        add_values ps (to_upper (trim_space (codes "TYPE"))) (split_unescaped (trim_space p) b',')
    | some (k, v) ↦ add_values ps (to_upper (trim_space k)) (split_unescaped (trim_space v) b',')
  ]

  pub add_parts : Params → List Bytes → Params
  unfolding add_part
  add_parts ps [] = ps
  add_parts ps (p ∷ rest) = add_parts (add_part ps p) rest

  pub parse_parts : List Bytes → Bytes → Result Error Line
  unfolding add_parts split_group
  parse_parts [] value = err no_name
  parse_parts ([] ∷ parts) value = err no_name
  parse_parts ((c ∷ field) ∷ parts) value =
      let (group, name) = split_group (c ∷ field) in
      ok (record {
        group = group;
        name = to_upper name;
        raw_name = name;
        params = add_parts [] parts;
        value = value;
      })

  pub parse : Bytes → Result Error Line
  unfolding find_colon parse_parts
  parse raw = elim (find_colon false raw) [
    | none ↦ err no_separator
    | some (before, after) ↦ parse_parts (split_unescaped before b';') after
  ]

unfoldable pub is_one_of : List ℕ → ℕ → Bool
is_one_of [] c = false
is_one_of (d ∷ ds) c = d == c || is_one_of ds c

-- strings.ContainsAny, for ASCII characters.
unfoldable pub contains_any : List ℕ → Bytes → Bool
unfolding is_one_of
contains_any cs [] = false
contains_any cs (c ∷ s) = is_one_of cs c || contains_any cs s

-- EscapeParam
unfoldable pub escape_param : Bytes → Result Error Bytes
unfolding contains_any
escape_param s =
    if contains_any (b'"' ∷ b'\r' ∷ b'\n' ∷ []) s
    then err bad_param
    else if contains_any (b':' ∷ b';' ∷ b',' ∷ []) s
    then ok (b'"' ∷ (s ++ b'"' ∷ []))
    else ok s

-- Go's order of strings, by bytes.
pub less : Bytes → Bytes → Bool
less [] [] = false
less [] (b ∷ t) = true
less (a ∷ s) [] = false
less (a ∷ s) (b ∷ t) = ltb a b || a == b && less s t

pub insert_param : Bytes × Bytes → List (Bytes × Bytes) → List (Bytes × Bytes)
unfolding less
insert_param p [] = p ∷ []
insert_param p (q ∷ ps) = if less q.0 p.0 then q ∷ insert_param p ps else p ∷ q ∷ ps

-- The parameters of the map, in the order of sort.Strings over its keys.
pub sort_params : List (Bytes × Bytes) → List (Bytes × Bytes)
unfolding insert_param
sort_params [] = []
sort_params (p ∷ ps) = insert_param p (sort_params ps)

-- The loop of encodeExtension over the sorted keys.
unfoldable pub encode_params : List (Bytes × Bytes) → Result Error Bytes
unfolding escape_param
encode_params [] = ok []
encode_params ((k, v) ∷ ps) = do
  esc ← escape_param v
  rest ← encode_params ps
  ok (b';' ∷ (k ++ (b'=' ∷ (esc ++ rest))))

pub encode_extension : Bytes → List (Bytes × Bytes) → List Bytes → Result Error Bytes
unfolding encode_params sort_params
encode_extension key ps values = do
  text ← encode_params (sort_params ps)
  ok (key ++ (text ++ (b':' ∷ join_list values)))
