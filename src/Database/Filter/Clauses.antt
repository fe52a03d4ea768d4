-- ===== src/Database/Filter/Clauses.antt =====
-- A clause that is written with a quoted value is read back.
use mathlib.Core.Path.{subst}
use mathlib.Core.List.{reverse, reverse-append}
use runtime_go.Prelude.{
  ℕ, Bool, true, false, ◌≡◌, refl, sym, ap, ◌∙◌, List, [], ◌∷◌, ◌++◌, some, codes, append_assoc,
  append-nil,
}
use runtime_go.Prelude.Outcome.{ok}
use runtime_go.ContentLine.Text.Laws.{Lacks}
use runtime_go.Database.Filter.{
  Runes, Op, Clause, is_quote, is_space, split_from, has_word, find_operator, is_none, trim,
  clause_of, parse_clause, unquote_runes, last_of,
}
use runtime_go.Database.Filter.Scan.{quoted, quoted-skipped}
use runtime_go.Database.Filter.Trim.{Starts, blank, trim-blank, IsWords-reverse, IsWords-Starts}
use runtime_go.Database.Filter.Words.{
  IsColumn, spaced, split_from-words, has_word-words, find_operator-words, column-no_and,
  column-no_or, split_from-spaced, has_or-spaced, find_operator-spaced, word-not_space,
  word-not_quote, word-next_quote, word-not_blank,
}

abbrev pub value_text : Runes → Runes
value_text v = quoted b'"' v

is_quote_mark : is_quote b'"' ≡ true
unfolding is_quote
is_quote_mark = refl

-- A clause as it is written, its value in quotation marks.
abbrev pub print_clause : Clause → Runes
print_clause c = c.column ++ (spaced c.op ++ value_text c.value)

abbrev pub print_filter : List Clause → Runes
print_filter [] = []
print_filter (c ∷ []) = print_clause c
print_filter (c ∷ d ∷ cs) = print_clause c ++ (codes " AND " ++ print_filter (d ∷ cs))

-- The column is words and neither AND nor OR; the value has no quotation mark.
abbrev pub IsClause : Clause → Type 0
IsClause c = IsColumn c.column × Lacks b'"' c.value

print_clause-append :
    (c : Clause) (s : Runes)
    → print_clause c ++ s ≡ c.column ++ (spaced c.op ++ (value_text c.value ++ s))
print_clause-append c s = simp append_assoc

split_from-column :
    (col cur s : Runes)
    → IsColumn col
    → split_from 0 true 0 cur (col ++ b' ' ∷ s) ≡ split_from 0 false 0 (cur ++ col) (b' ' ∷ s)
unfolding split_from
split_from-column [] cur s h = absurd h
split_from-column (c ∷ t) cur s h =
    rw
      (
        word-not_quote c h.0.0,
        column-no_and c t s h,
        word-next_quote c h.0.0,
        word-not_blank c h.0.0,
      )
      (split_from-words (cur ++ c ∷ []) t (b' ' ∷ s) h.0.1
        ∙ ap (λ x. split_from 0 false 0 x (b' ' ∷ s)) (append_assoc cur (c ∷ []) t))

has_or-column :
    (col s : Runes)
    → IsColumn col
    → has_word (codes "OR") 2 true 0 (col ++ b' ' ∷ s) ≡ has_word (codes "OR") 2 false 0 (b' ' ∷ s)
unfolding has_word
has_or-column [] s h = absurd h
has_or-column (c ∷ t) s h =
    rw
      (
        word-not_quote c h.0.0,
        column-no_or c t s h,
        word-next_quote c h.0.0,
        word-not_blank c h.0.0,
      )
      (has_word-words (codes "OR") 2 t (b' ' ∷ s) h.0.1)

pub split_from-clause :
    (c : Clause) (cur s : Runes)
    → IsClause c
    → split_from 0 true 0 cur (print_clause c ++ s) ≡ split_from 0 false 0 (cur ++ print_clause c) s
split_from-clause c cur s h =
    let o = c.op in
    let v = value_text c.value in
    ap (split_from 0 true 0 cur) (print_clause-append c s)
    ∙ split_from-column c.column cur _ h.0
    ∙ split_from-spaced o (cur ++ c.column) (v ++ s)
    ∙ (quoted-skipped b'"' c.value s ((cur ++ c.column) ++ spaced o) [] [] 0 true is_quote_mark
        h.1).0
    ∙ ap (λ x. split_from 0 false 0 x s) (simp append_assoc)

pub has_or-clause :
    (c : Clause) (s : Runes)
    → IsClause c
    → has_word (codes "OR") 2 true 0 (print_clause c ++ s) ≡ has_word (codes "OR") 2 false 0 s
has_or-clause c s h =
    ap (has_word (codes "OR") 2 true 0) (print_clause-append c s)
    ∙ has_or-column c.column _ h.0
    ∙ has_or-spaced c.op (value_text c.value ++ s)
    ∙ (quoted-skipped b'"' c.value s [] [] (codes "OR") 2 true is_quote_mark h.1).1

pub Starts-reverse : (s : Runes) (z : ℕ) → is_space z ≡ false → Starts (reverse (s ++ z ∷ []))
Starts-reverse s z h = subst Starts (sym (reverse-append s (z ∷ []))) h

column-Starts : (col : Runes) → IsColumn col → Starts col
column-Starts [] h = absurd h
column-Starts (c ∷ t) h = word-not_space c h.0.0

append-is_none : (s : Runes) (z : ℕ) → is_none (s ++ z ∷ []) ≡ false
append-is_none [] z = refl
append-is_none (c ∷ s) z = refl

column-Starts_back : (col : Runes) → IsColumn col → Starts (reverse col)
column-Starts_back [] h = absurd h
column-Starts_back (c ∷ t) h =
    IsWords-Starts (reverse (c ∷ t))
      (ap is_none (reverse-append (c ∷ []) t) ∙ append-is_none (reverse t) c)
      (IsWords-reverse (c ∷ t) h.0)

column-is_none : (col : Runes) → IsColumn col → is_none col ≡ false
column-is_none [] h = absurd h
column-is_none (c ∷ t) h = refl

mark_not_space : is_space b'"' ≡ false
unfolding is_space
mark_not_space = refl

pub value-Starts_back : (s v : Runes) → Starts (reverse (s ++ value_text v))
value-Starts_back s v =
    subst (λ x. Starts (reverse x)) (append_assoc s (b'"' ∷ v) (b'"' ∷ []))
      (Starts-reverse (s ++ b'"' ∷ v) b'"' mark_not_space)

pub print_clause-Starts : (c : Clause) → IsColumn c.column → Starts (print_clause c)
print_clause-Starts c h = go c.column h
  where
    go : (col : Runes) → IsColumn col → Starts (col ++ (spaced c.op ++ value_text c.value))
    go [] h = absurd h
    go (d ∷ t) h = word-not_space d h.0.0

pub trim-part :
    (a b : Bool) (c : Clause)
    → IsClause c
    → trim (blank a ++ (print_clause c ++ blank b)) ≡ print_clause c
trim-part a b c h = trim-blank a b (print_clause c) (print_clause-Starts c h.0) (
    subst (λ x. Starts (reverse x)) (append_assoc c.column (spaced c.op) (value_text c.value))
      (value-Starts_back (c.column ++ spaced c.op) c.value))

find_operator-clause :
    (col v : Runes) (o : Op)
    → IsColumn col
    → find_operator 0 [] (col ++ (spaced o ++ v)) ≡ some (col ++ b' ' ∷ [], (o, b' ' ∷ v))
find_operator-clause [] v o h = absurd h
find_operator-clause (c ∷ t) v o h =
    find_operator-words [] (c ∷ t) (spaced o ++ v) h.0 ∙ find_operator-spaced o c t v

last_of-end : (d : ℕ) (s : Runes) (z : ℕ) → last_of d (s ++ z ∷ []) ≡ (d ∷ s, z)
unfolding last_of
last_of-end d [] z = refl
last_of-end d (e ∷ s) z = rw (last_of-end e s z)

unquote_runes-value : (v : Runes) → unquote_runes (value_text v) ≡ v
unfolding unquote_runes is_quote
unquote_runes-value [] = unfold last_of in refl
unquote_runes-value (d ∷ s) = rw (last_of-end d s b'"')

-- A clause is read back from its text, spaces before and behind it left out.
pub parse_clause-print :
    (a b : Bool) (c : Clause)
    → IsClause c
    → parse_clause (blank a ++ (print_clause c ++ blank b)) ≡ ok c
unfolding parse_clause clause_of
parse_clause-print a b c h =
    let v = value_text c.value in
    let col : trim (c.column ++ b' ' ∷ []) ≡ c.column =
      trim-blank false true c.column (column-Starts c.column h.0)
        (column-Starts_back c.column h.0) in
    let val : trim (b' ' ∷ v) ≡ v =
      ap (λ x. trim (b' ' ∷ x)) (sym (append-nil v))
      ∙ trim-blank true false v mark_not_space (value-Starts_back [] c.value) in
    rw (
      trim-part a b c h,
      find_operator-clause c.column v c.op h.0,
      col,
      val,
      unquote_runes-value c.value,
      column-is_none c.column h.0,
    )
