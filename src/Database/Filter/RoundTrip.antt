-- ===== src/Database/Filter/RoundTrip.antt =====
-- A conjunction that is written with quoted values is read back.
use mathlib.Core.Path.{subst}
use mathlib.Core.List.{reverse, reverse-append}
use runtime_go.Prelude.{
  Bool, true, false, ◌≡◌, refl, sym, ap, ◌∙◌, List, [], ◌∷◌, ◌++◌, codes, append_assoc, append-nil,
  All,
}
use runtime_go.Prelude.Outcome.{ok}
use runtime_go.ContentLine.Line.{equal, upper_byte}
use runtime_go.Icaltime.Date.{equal_fold}
use runtime_go.Database.Filter.{
  Runes, Clause, is_quote, next_quote, split_from, has_word, is_none, word_at, trim, trim_front,
  parse_clause, parse_clauses, parse_filter, split_conjunction, bare_word,
}
use runtime_go.Database.Filter.Trim.{Starts, blank, trim-blank}
use runtime_go.Database.Filter.Words.{spaced}
use runtime_go.Database.Filter.Clauses.{
  IsClause, print_clause, print_filter, split_from-clause, has_or-clause, print_clause-Starts,
  value-Starts_back, trim-part, parse_clause-print, value_text,
}

split_from-and :
    (cur s : Runes)
    → split_from 0 false 0 cur (codes " AND " ++ s)
      ≡ (cur ++ b' ' ∷ []) ∷ split_from 0 true 0 (b' ' ∷ []) s
unfolding split_from is_quote next_quote word_at equal_fold equal upper_byte
split_from-and cur s = refl

has_or-and :
    (s : Runes)
    → has_word (codes "OR") 2 false 0 (codes " AND " ++ s) ≡ has_word (codes "OR") 2 true 0 s
unfolding has_word is_quote next_quote word_at equal_fold equal upper_byte
has_or-and s = refl

Starts-append : (s t : Runes) → Starts s → Starts (s ++ t)
Starts-append [] t h = absurd h
Starts-append (c ∷ s) t h = h

Starts-is_none : (s : Runes) → Starts s → is_none s ≡ false
Starts-is_none [] h = absurd h
Starts-is_none (c ∷ s) h = refl

print_filter-Starts : (c : Clause) (cs : List Clause) → IsClause c → Starts (print_filter (c ∷ cs))
print_filter-Starts c [] h = print_clause-Starts c h.0
print_filter-Starts c (d ∷ cs) h = Starts-append (print_clause c) _ (print_clause-Starts c h.0)

print_clause-Starts_back : (c : Clause) → Starts (reverse (print_clause c))
print_clause-Starts_back c =
    subst (λ x. Starts (reverse x)) (append_assoc c.column (spaced c.op) (value_text c.value))
      (value-Starts_back (c.column ++ spaced c.op) c.value)

print_filter-Starts_back :
    (c : Clause) (cs : List Clause) → Starts (reverse (print_filter (c ∷ cs)))
print_filter-Starts_back c [] = print_clause-Starts_back c
print_filter-Starts_back c (d ∷ cs) =
    let rest = print_filter (d ∷ cs) in
    let e : reverse (print_clause c ++ (codes " AND " ++ rest))
        ≡ (reverse rest ++ reverse (codes " AND ")) ++ reverse (print_clause c) =
      reverse-append (print_clause c) (codes " AND " ++ rest)
      ∙ ap (λ x. x ++ reverse (print_clause c)) (reverse-append (codes " AND ") rest) in
    subst Starts (sym e) (
      Starts-append (reverse rest ++ reverse (codes " AND ")) (reverse (print_clause c))
        (Starts-append (reverse rest) (reverse (codes " AND ")) (print_filter-Starts_back d cs)))

has_or-filter :
    (c : Clause) (cs : List Clause)
    → All IsClause (c ∷ cs)
    → has_word (codes "OR") 2 true 0 (print_filter (c ∷ cs)) ≡ false
has_or-filter c [] h =
    ap (has_word (codes "OR") 2 true 0) (sym (append-nil (print_clause c)))
    ∙ has_or-clause c [] h.0
    ∙ unfold has_word in refl
has_or-filter c (d ∷ cs) h =
    has_or-clause c (codes " AND " ++ print_filter (d ∷ cs)) h.0
    ∙ has_or-and (print_filter (d ∷ cs))
    ∙ has_or-filter d cs h.1

split_from-last :
    (a : Bool) (c : Clause)
    → IsClause c
    → split_from 0 true 0 (blank a) (print_clause c) ≡ print_clause c ∷ []
split_from-last a c h =
    let e : trim (blank a ++ print_clause c) ≡ print_clause c =
      ap (λ x. trim (blank a ++ x)) (sym (append-nil (print_clause c))) ∙ trim-part a false c h in
    ap (split_from 0 true 0 (blank a)) (sym (append-nil (print_clause c)))
    ∙ split_from-clause c (blank a) [] h
    ∙ unfold split_from in rw (e, Starts-is_none (print_clause c) (print_clause-Starts c h.0))

parse_clauses-split_from :
    (a : Bool) (c : Clause) (cs : List Clause)
    → All IsClause (c ∷ cs)
    → parse_clauses (split_from 0 true 0 (blank a) (print_filter (c ∷ cs))) ≡ ok (c ∷ cs)
unfolding parse_clauses
parse_clauses-split_from a c [] h =
    let e : parse_clause (print_clause c) ≡ ok c =
      ap parse_clause (sym (append-nil (print_clause c))) ∙ parse_clause-print false false c h.0 in
    rw (split_from-last a c h.0, e)
parse_clauses-split_from a c (d ∷ cs) h =
    let rest = print_filter (d ∷ cs) in
    let e : parse_clause ((blank a ++ print_clause c) ++ b' ' ∷ []) ≡ ok c =
      ap parse_clause (append_assoc (blank a) (print_clause c) (b' ' ∷ []))
      ∙ parse_clause-print a true c h.0 in
    rw (
      split_from-clause c (blank a) (codes " AND " ++ rest) h.0,
      split_from-and (blank a ++ print_clause c) rest,
      e,
      parse_clauses-split_from true d cs h.1,
    )

-- ParseFilter reads back every conjunction whose columns are words other than AND and OR and whose
-- values, written in quotation marks, hold any text without such a mark.
pub parse_filter-print_filter :
    (cs : List Clause) → All IsClause cs → parse_filter (print_filter cs) ≡ ok cs
unfolding parse_filter bare_word split_conjunction
parse_filter-print_filter [] h = unfold trim trim_front in refl
parse_filter-print_filter (c ∷ cs) h =
    let t = print_filter (c ∷ cs) in
    let e : trim t ≡ t =
      ap trim (sym (append-nil t))
      ∙ trim-blank false false t (print_filter-Starts c cs h.0) (print_filter-Starts_back c cs) in
    rw (e, Starts-is_none t (print_filter-Starts c cs h.0), has_or-filter c cs h)
      (parse_clauses-split_from false c cs h)
