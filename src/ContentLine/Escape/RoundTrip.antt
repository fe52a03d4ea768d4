-- ===== src/ContentLine/Escape/RoundTrip.antt =====
-- rfc/internal/contentline/escape.go: Escape against Unescape, and JoinList against SplitList.
use mathlib.Core.List.{cons-ne-nil, append-ne-nil_of_right_ne-nil}
use runtime_go.Prelude.{
  ℕ, Bool, true, false, not, ◌||◌, ◌≡◌, refl, ◌≢◌, ◌∙◌, ap, List, [], ◌∷◌, ◌++◌, map, arith, Bytes,
  ◌==◌, if◌then◌else◌, append-nil, append_assoc, All,
}
use runtime_go.ContentLine.Escape.{
  unescape, escape, escape_byte, split_from, split_unescaped, split_compound, keep_unescaped,
  split_list, join, join_list,
}

unescape-escape_byte : (c : ℕ) (s : Bytes) → unescape (escape_byte c ++ s) ≡ c ∷ unescape s
unfolding unescape escape_byte
unescape-escape_byte c [] = ground arith
unescape-escape_byte c (d ∷ s) = ground arith

-- Unescape undoes Escape on every text.
pub unescape-escape : (s : Bytes) → unescape (escape s) ≡ s
unfolding escape
unescape-escape [] = unfold unescape in refl
unescape-escape (c ∷ s) = unescape-escape_byte c (escape s) ∙ ap (◌∷◌ c) (unescape-escape s)

-- Whether a text holds an odd number of double quotes.
abbrev pub odd_quotes : Bool → Bytes → Bool
odd_quotes q [] = q
odd_quotes q (c ∷ s) = odd_quotes (if c == b'"' then not q else q) s

escape-ne-nil : (c : ℕ) (s : Bytes) → escape (c ∷ s) ≢ []
unfolding escape escape_byte
escape-ne-nil c s = ground arith

abbrev pub IsSep : ℕ → Type 0
IsSep sep = (sep == b',' || sep == b';') ≡ true

module _ (sep : ℕ) (is_sep : IsSep sep) where
  -- The splitter walks over an escaped byte without splitting, and only a quote turns its flag.
  split_from-escape_byte :
      (q : Bool) (cur : Bytes) (c : ℕ) (rest : Bytes)
      → rest ≢ []
      → split_from sep q cur (escape_byte c ++ rest)
        ≡ split_from sep (if c == b'"' then not q else q) (cur ++ escape_byte c) rest
  unfolding split_from escape_byte
  split_from-escape_byte q cur c [] ne = absurd (ne refl)
  split_from-escape_byte q cur c (d ∷ rest) ne = ground arith

  split_from-escape_byte_end :
      (q : Bool) (cur : Bytes) (c : ℕ)
      → split_from sep q cur (escape_byte c) ≡ (cur ++ escape_byte c) ∷ []
  unfolding split_from escape_byte
  split_from-escape_byte_end q cur c = ground arith

  split_from-escape :
      (v : Bytes) (q : Bool) (cur rest : Bytes)
      → rest ≢ []
      → split_from sep q cur (escape v ++ rest)
        ≡ split_from sep (odd_quotes q v) (cur ++ escape v) rest
  unfolding escape
  split_from-escape [] q cur rest ne = rw append-nil
  split_from-escape (c ∷ v) q cur rest ne =
      rw append_assoc (
        split_from-escape_byte q cur c (escape v ++ rest)
          (append-ne-nil_of_right_ne-nil (escape v) ne))
      ∙ split_from-escape v (if c == b'"' then not q else q) (cur ++ escape_byte c) rest ne
      ∙ rw append_assoc

  split_from-escape_end :
      (v : Bytes) (q : Bool) (cur : Bytes)
      → split_from sep q cur (escape v) ≡ (cur ++ escape v) ∷ []
  unfolding escape
  split_from-escape_end [] q cur = unfold split_from in rw append-nil
  split_from-escape_end (c ∷ []) q cur = rw append-nil (split_from-escape_byte_end q cur c)
  split_from-escape_end (c ∷ d ∷ v) q cur =
      split_from-escape_byte q cur c (escape (d ∷ v)) (escape-ne-nil d v)
      ∙ split_from-escape_end (d ∷ v) (if c == b'"' then not q else q) (cur ++ escape_byte c)
      ∙ rw append_assoc

  -- One separator ends the part, where no quotation is open.
  split_from_sep :
      (cur rest : Bytes)
      → split_from sep false cur (sep ∷ rest) ≡ cur ∷ split_from sep false [] rest
  unfolding split_from
  split_from_sep cur [] = ground arith
  split_from_sep cur (d ∷ rest) = ground arith

  split_from-join :
      (v : Bytes) (vs : List Bytes)
      → All (λ w. odd_quotes false w ≡ false) (v ∷ vs)
      → split_from sep false [] (join (sep ∷ []) (map escape (v ∷ vs))) ≡ map escape (v ∷ vs)
  unfolding join
  split_from-join v [] h = split_from-escape_end v false []
  split_from-join v (w ∷ vs) h =
      split_from-escape v false [] (sep ∷ join (sep ∷ []) (map escape (w ∷ vs))) (cons-ne-nil _ _)
      ∙ rw h.0 (split_from_sep (escape v) (join (sep ∷ []) (map escape (w ∷ vs))))
      ∙ ap (◌∷◌ (escape v)) (split_from-join w vs h.1)

  split_from_sep_text :
      (cur rest : Bytes)
      → rest ≢ []
      → split_from sep true cur (sep ∷ rest) ≡ split_from sep true (cur ++ sep ∷ []) rest
  unfolding split_from
  split_from_sep_text cur [] ne = absurd (ne refl)
  split_from_sep_text cur (d ∷ rest) ne = ground arith

  split_from_sep_quoted :
      (cur w : Bytes) → split_from sep true cur (sep ∷ escape w) ≡ (cur ++ sep ∷ escape w) ∷ []
  split_from_sep_quoted cur [] = unfold split_from escape in ground arith
  split_from_sep_quoted cur (d ∷ w) =
      split_from_sep_text cur (escape (d ∷ w)) (escape-ne-nil d w)
      ∙ split_from-escape_end (d ∷ w) true (cur ++ sep ∷ [])
      ∙ rw append_assoc

  -- With a quotation left open by the first value, the separator behind it is taken as text.
  split_from_open :
      (v w : Bytes)
      → odd_quotes false v ≡ true
      → split_from sep false [] (join (sep ∷ []) (map escape (v ∷ w ∷ [])))
        ≡ (escape v ++ sep ∷ escape w) ∷ []
  unfolding join
  split_from_open v w h =
      split_from-escape v false [] (sep ∷ escape w) (cons-ne-nil _ _)
      ∙ rw h (split_from_sep_quoted (escape v) w)

map-unescape-escape : (vs : List Bytes) → map unescape (map escape vs) ≡ vs
map-unescape-escape [] = refl
map-unescape-escape (v ∷ vs) = cc (unescape-escape v, map-unescape-escape vs)

-- A compound value (N, ADR) that is built by escaping its components and joining them with
-- semicolons is split back into the same components, empty ones included, as long as every
-- component holds an even number of double quotes.
pub split_compound-join :
    (v : Bytes) (vs : List Bytes)
    → All (λ w. odd_quotes false w ≡ false) (v ∷ vs)
    → split_compound (join (b';' ∷ []) (map escape (v ∷ vs))) ≡ v ∷ vs
unfolding split_compound split_unescaped
split_compound-join v vs h = rw (split_from-join b';' refl v vs h) (map-unescape-escape (v ∷ vs))

keep_unescaped-escape :
    (vs : List Bytes) → All (λ w. w ≢ []) vs → keep_unescaped (map escape vs) ≡ vs
unfolding keep_unescaped
keep_unescaped-escape [] h = refl
keep_unescaped-escape ([] ∷ vs) h = absurd (h.0 refl)
keep_unescaped-escape ((c ∷ s) ∷ vs) h =
    rw (unescape-escape (c ∷ s), keep_unescaped) (ap (◌∷◌ (c ∷ s)) (keep_unescaped-escape vs h.1))

split_list_unfolded :
    (s : Bytes) → s ≢ [] → split_list s ≡ keep_unescaped (split_from b',' false [] s)
unfolding split_list split_unescaped
split_list_unfolded [] ne = absurd (ne refl)
split_list_unfolded (c ∷ s) ne = refl

join-escape-ne-nil :
    (v : Bytes) (vs : List Bytes) → v ≢ [] → join (b',' ∷ []) (map escape (v ∷ vs)) ≢ []
unfolding join
join-escape-ne-nil [] vs ne = absurd (ne refl)
join-escape-ne-nil (c ∷ v) [] ne = escape-ne-nil c v
join-escape-ne-nil (c ∷ v) (w ∷ vs) ne =
    append-ne-nil_of_right_ne-nil (escape (c ∷ v)) (cons-ne-nil _ _)

nonempty : (v : Bytes) → odd_quotes false v ≡ true → v ≢ []
nonempty [] odd = cc
nonempty (c ∷ v) odd = cons-ne-nil c v

unescape-escape_append : (v s : Bytes) → unescape (escape v ++ s) ≡ v ++ unescape s
unfolding escape
unescape-escape_append [] s = refl
unescape-escape_append (c ∷ v) s =
    rw append_assoc (unescape-escape_byte c (escape v ++ s))
    ∙ ap (◌∷◌ c) (unescape-escape_append v s)

unescape_comma : (w : Bytes) → unescape (b',' ∷ escape w) ≡ b',' ∷ w
unescape_comma [] = unfold unescape escape in refl
unescape_comma (d ∷ w) =
    unescape_plain (escape (d ∷ w)) (escape-ne-nil d w) ∙ ap (◌∷◌ b',') (unescape-escape (d ∷ w))
  where
    unescape_plain : (s : Bytes) → s ≢ [] → unescape (b',' ∷ s) ≡ b',' ∷ unescape s
    unescape_plain [] ne = absurd (ne refl)
    unescape_plain (c ∷ s) ne = unfold unescape in refl

merged : (v w : Bytes) → keep_unescaped ((escape v ++ b',' ∷ escape w) ∷ []) ≡ (v ++ b',' ∷ w) ∷ []
merged v w =
    keep_one _ _ (unescape-escape_append v _ ∙ ap (λ s. v ++ s) (unescape_comma w))
      (append-ne-nil_of_right_ne-nil v (cons-ne-nil _ _))
  where
    keep_one : (p u : Bytes) → unescape p ≡ u → u ≢ [] → keep_unescaped (p ∷ []) ≡ u ∷ []
    keep_one p [] e ne = absurd (ne refl)
    keep_one p (c ∷ u) e ne = unfold keep_unescaped in rw (e, keep_unescaped)

-- JoinList and then SplitList give back the same values, commas, semicolons, newlines and
-- backslashes in them included, if no value is empty and every value holds an even number of double
-- quotes.
pub split_list-join_list :
    (vs : List Bytes)
    → All (λ w. w ≢ []) vs
    → All (λ w. odd_quotes false w ≡ false) vs
    → split_list (join_list vs) ≡ vs
unfolding join_list
split_list-join_list [] ne even = unfold split_list join in refl
split_list-join_list (v ∷ vs) ne even =
    split_list_unfolded _ (join-escape-ne-nil v vs ne.0)
    ∙ rw (split_from-join b',' refl v vs even) (keep_unescaped-escape (v ∷ vs) ne)

-- A first value with an odd number of double quotes swallows the comma behind it: JoinList and then
-- SplitList make one value of the two, whatever the second value is.
pub split_list-join_list_open_quote :
    (v w : Bytes)
    → odd_quotes false v ≡ true
    → split_list (join_list (v ∷ w ∷ [])) ≡ (v ++ b',' ∷ w) ∷ []
unfolding join_list
split_list-join_list_open_quote v w odd =
    split_list_unfolded _ (join-escape-ne-nil v (w ∷ []) (nonempty v odd))
    ∙ rw (split_from_open b',' refl v w odd) (merged v w)
