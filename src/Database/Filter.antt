-- ===== src/Database/Filter.antt =====
-- database/core/filter.go: the filters that every driver accepts, over the runes of an expression.
pub mod Scan
pub mod Words
pub mod Trim
pub mod Clauses
pub mod RoundTrip
pub mod Examples
use mathlib.Core.List.{reverse}
use runtime_go.Prelude.{
  ℕ, zero, suc, Bool, true, false, not, ◌&&◌, ◌||◌, List, [], ◌∷◌, ◌++◌, Option, none, some, ◌==◌,
  leb, if◌then◌else◌, Bytes, codes, take, drop,
}
use runtime_go.Prelude.Outcome.{Result, ok, err, ◌>>=◌}
use runtime_go.Icaltime.Date.{equal_fold}

-- The runes of a Go string.
abbrev pub Runes : Type 0
Runes = List ℕ

pub data Op : Type 0 where
  op_ge op_le op_ne op_eq op_gt op_lt : Op

pub record Clause : Type 0 where
  pub column : Runes
  pub op : Op
  pub value : Runes

pub data FilterError : Type 0 where
  uses_or incomplete not_understood : Runes → FilterError

-- unicode.IsSpace
pub is_space : ℕ → Bool
is_space c =
    leb 9 c && leb c 13
    || c == 32
    || c == 133
    || c == 160
    || c == 5760
    || leb 8192 c && leb c 8202
    || c == 8232
    || c == 8233
    || c == 8239
    || c == 8287
    || c == 12288

-- strings.TrimSpace
pub trim_front : Runes → Runes
trim_front [] = []
trim_front (c ∷ s) = let rest = trim_front s in if is_space c then rest else c ∷ s

pub trim : Runes → Runes
trim s = reverse (trim_front (reverse (trim_front s)))

pub is_quote : ℕ → Bool
is_quote c = c == b'"' || c == b'\''

abbrev pub is_none : Runes → Bool
is_none [] = true
is_none (_ ∷ _) = false

-- The quote that is open behind a rune; 0 is none.
pub next_quote : ℕ → ℕ → ℕ
next_quote zero c = if is_quote c then c else 0
next_quote (suc q) c = if c == suc q then 0 else suc q

abbrev pub ends_word : Runes → Bool
ends_word [] = true
ends_word (c ∷ s) = c == b' '

-- A word at the start of a text, with a space or nothing behind it.
pub word_at : Runes → ℕ → Runes → Bool
word_at word n s = equal_fold (take n s) word && ends_word (drop n s)

-- The loop of splitConjunction: the runes of an AND still to skip, whether a word may start here,
-- the open quote, and the part that is being read.
pub split_from : ℕ → Bool → ℕ → Runes → Runes → List Runes
split_from skip before quote cur [] = let t = trim cur in if is_none t then [] else t ∷ []
split_from (suc n) before quote cur (c ∷ s) = split_from n false quote cur s
split_from zero before quote cur (c ∷ s) =
    let more = split_from 0 (c == b' ') (next_quote quote c) (cur ++ c ∷ []) s in
    let next = split_from 2 false 0 [] s in
    if not (quote == 0) || is_quote c
    then more
    else if before && word_at (codes "AND") 3 (c ∷ s)
    then cur ∷ next
    else more

pub split_conjunction : Runes → List Runes
split_conjunction expr = split_from 0 true 0 [] expr

-- The loop of bareWord at a word of n runes.
pub has_word : Runes → ℕ → Bool → ℕ → Runes → Bool
has_word word n before quote [] = false
has_word word n before quote (c ∷ s) =
    let more = has_word word n (c == b' ') (next_quote quote c) s in
    if not (quote == 0) || is_quote c then more else before && word_at word n (c ∷ s) || more

pub bare_word : Runes → Runes → ℕ → Bool
bare_word expr word n = has_word word n true 0 expr

-- The longest operator at the start of a text, and what is behind it.
pub operator_one : ℕ → Option Op
operator_one c =
    if c == b'='
    then some op_eq
    else if c == b'>'
    then some op_gt
    else if c == b'<'
    then some op_lt
    else none

pub operator_two : ℕ → ℕ → Option Op
operator_two c d =
    if not (d == b'=')
    then none
    else if c == b'>'
    then some op_ge
    else if c == b'<'
    then some op_le
    else if c == b'!'
    then some op_ne
    else none

pub with_rest : Option Op → Runes → Option (Op × Runes)
with_rest none s = none
with_rest (some o) s = some (o, s)

pub operator_at : Runes → Option (Op × Runes)
operator_at [] = none
operator_at (c ∷ []) = with_rest (operator_one c) []
operator_at (c ∷ d ∷ s) = elim (operator_two c d) [
  | some o ↦ some (o, s)
  | none ↦ with_rest (operator_one c) (d ∷ s)
]

-- The loop of parseClause: what is before the first operator that is not at the start, the
-- operator, and what is behind it.
pub find_operator : ℕ → Runes → Runes → Option (Runes × (Op × Runes))
find_operator quote pre [] = none
find_operator quote pre (c ∷ s) =
    let more = find_operator (next_quote quote c) (pre ++ c ∷ []) s in
    if not (quote == 0) || is_quote c || is_none pre
    then more
    else elim (operator_at (c ∷ s)) [ none ↦ more | some (o, rest) ↦ some (pre, (o, rest)) ]

-- The last rune of c ∷ s, and what is between.
pub last_of : ℕ → Runes → Runes × ℕ
last_of c [] = ([], c)
last_of c (d ∷ s) = let (init, z) = last_of d s in (c ∷ init, z)

pub unquote_runes : Runes → Runes
unquote_runes [] = []
unquote_runes (c ∷ []) = c ∷ []
unquote_runes (c ∷ d ∷ s) =
    let (init, z) = last_of d s in if is_quote c && z == c then init else c ∷ d ∷ s

pub clause_of : Runes → Option (Runes × (Op × Runes)) → Result FilterError Clause
clause_of clause none = err (not_understood clause)
clause_of clause (some (pre, (o, rest))) =
    if is_none (trim pre) || is_none (trim rest)
    then err (incomplete clause)
    else ok (record { column = trim pre; op = o; value = unquote_runes (trim rest) })

pub parse_clause : Runes → Result FilterError Clause
parse_clause s = let t = trim s in clause_of t (find_operator 0 [] t)

pub parse_clauses : List Runes → Result FilterError (List Clause)
parse_clauses [] = ok []
parse_clauses (s ∷ ss) = do c ← parse_clause s; cs ← parse_clauses ss; ok (c ∷ cs)

pub parse_filter : Runes → Result FilterError (List Clause)
parse_filter expr =
    let t = trim expr in
    if is_none t
    then ok []
    else if bare_word t (codes "OR") 2
    then err (uses_or t)
    else parse_clauses (split_conjunction t)
