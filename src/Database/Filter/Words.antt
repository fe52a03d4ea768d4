-- ===== src/Database/Filter/Words.antt =====
-- The loops over a column and an operator, as they are written before a value.
use runtime_go.Prelude.{
  ℕ, Bool, true, false, ◌&&◌, ◌||◌, ◌≡◌, refl, ap, ◌∙◌, [], ◌∷◌, ◌++◌, none, some, ◌==◌, codes,
  arith, append_assoc, append-nil, All, if◌then◌else◌, leb,
}
use runtime_go.ContentLine.Line.{equal, upper_byte}
use runtime_go.Icaltime.Date.{equal_fold}
use runtime_go.Database.Filter.{
  Runes, Op, op_ge, op_le, op_ne, op_eq, op_gt, op_lt, is_quote, is_space, next_quote, split_from,
  has_word, find_operator, is_none, word_at, operator_at, operator_one, operator_two, with_rest,
}

-- A letter, a digit, an underscore or a dot.
abbrev pub is_word : ℕ → Bool
is_word c =
    leb b'a' c && leb c b'z'
    || leb b'A' c && leb c b'Z'
    || leb b'0' c && leb c b'9'
    || c == b'_'
    || c == b'.'

abbrev pub IsWords : Runes → Type 0
IsWords = All (λ c. is_word c ≡ true)

pub word-not_space : (c : ℕ) → is_word c ≡ true → is_space c ≡ false
unfolding is_space
word-not_space c h = ground arith

pub word-not_blank : (c : ℕ) → is_word c ≡ true → (c == b' ') ≡ false
word-not_blank c h = ground arith

pub word-not_quote : (c : ℕ) → is_word c ≡ true → is_quote c ≡ false
unfolding is_quote
word-not_quote c h = ground arith

pub word-next_quote : (c : ℕ) → is_word c ≡ true → next_quote 0 c ≡ 0
unfolding next_quote
word-next_quote c h = rw (word-not_quote c h)

word-operator_at : (c : ℕ) (s : Runes) → is_word c ≡ true → operator_at (c ∷ s) ≡ none
unfolding operator_at operator_one operator_two with_rest
word-operator_at c [] h = ground arith
word-operator_at c (d ∷ s) h = ground arith

pub if_same {ℓ} : {A : Type ℓ} (b : Bool) (x : A) → (if b then x else x) ≡ x
if_same true x = refl
if_same false x = refl

pub split_from-words :
    (cur t s : Runes)
    → IsWords t
    → split_from 0 false 0 cur (t ++ s) ≡ split_from 0 false 0 (cur ++ t) s
unfolding split_from
split_from-words cur [] s h = rw append-nil
split_from-words cur (c ∷ t) s h =
    rw (word-not_quote c h.0, word-next_quote c h.0, word-not_blank c h.0)
      (split_from-words (cur ++ c ∷ []) t s h.1
        ∙ ap (λ x. split_from 0 false 0 x s) (append_assoc cur (c ∷ []) t))

pub has_word-words :
    (word : Runes) (n : ℕ) (t s : Runes)
    → IsWords t
    → has_word word n false 0 (t ++ s) ≡ has_word word n false 0 s
unfolding has_word
has_word-words word n [] s h = refl
has_word-words word n (c ∷ t) s h =
    rw (word-not_quote c h.0, word-next_quote c h.0, word-not_blank c h.0)
      (has_word-words word n t s h.1)

pub find_operator-words :
    (pre t s : Runes) → IsWords t → find_operator 0 pre (t ++ s) ≡ find_operator 0 (pre ++ t) s
unfolding find_operator
find_operator-words pre [] s h = rw append-nil
find_operator-words pre (c ∷ t) s h =
    rw
      (
        word-not_quote c h.0,
        word-next_quote c h.0,
        word-operator_at c (t ++ s) h.0,
        word-next_quote c h.0,
        if_same (is_none pre) (find_operator 0 (pre ++ c ∷ []) (t ++ s)),
      )
      (find_operator-words (pre ++ c ∷ []) t s h.1
        ∙ ap (λ x. find_operator 0 x s) (append_assoc pre (c ∷ []) t))

-- A column: words that are neither AND nor OR.
abbrev pub IsColumn : Runes → Type 0
IsColumn [] = ⊥
IsColumn (c ∷ t) =
    IsWords (c ∷ t)
    × (equal_fold (c ∷ t) (codes "AND") ≡ false)
    × (equal_fold (c ∷ t) (codes "OR") ≡ false)

pub column-no_and :
    (c : ℕ) (t s : Runes) → IsColumn (c ∷ t) → word_at (codes "AND") 3 (c ∷ (t ++ b' ' ∷ s)) ≡ false
unfolding word_at equal_fold equal upper_byte
column-no_and c [] s h = ground arith
column-no_and c (d ∷ []) s h = ground arith
column-no_and c (d ∷ e ∷ []) s h = ground arith
column-no_and c (d ∷ e ∷ f ∷ t) s h = ground arith

pub column-no_or :
    (c : ℕ) (t s : Runes) → IsColumn (c ∷ t) → word_at (codes "OR") 2 (c ∷ (t ++ b' ' ∷ s)) ≡ false
unfolding word_at equal_fold equal upper_byte
column-no_or c [] s h = ground arith
column-no_or c (d ∷ []) s h = ground arith
column-no_or c (d ∷ e ∷ t) s h = ground arith

abbrev pub op_text : Op → Runes
op_text op_ge = codes ">="
op_text op_le = codes "<="
op_text op_ne = codes "!="
op_text op_eq = codes "="
op_text op_gt = codes ">"
op_text op_lt = codes "<"

-- What stands between a column and its value.
abbrev pub spaced : Op → Runes
spaced o = b' ' ∷ (op_text o ++ b' ' ∷ [])

pub split_from-spaced :
    (o : Op) (cur s : Runes)
    → split_from 0 false 0 cur (spaced o ++ s) ≡ split_from 0 true 0 (cur ++ spaced o) s
unfolding split_from is_quote next_quote word_at equal_fold equal upper_byte
split_from-spaced op_ge cur s = simp append_assoc
split_from-spaced op_le cur s = simp append_assoc
split_from-spaced op_ne cur s = simp append_assoc
split_from-spaced op_eq cur s = simp append_assoc
split_from-spaced op_gt cur s = simp append_assoc
split_from-spaced op_lt cur s = simp append_assoc

pub has_or-spaced :
    (o : Op) (s : Runes)
    → has_word (codes "OR") 2 false 0 (spaced o ++ s) ≡ has_word (codes "OR") 2 true 0 s
unfolding has_word is_quote next_quote word_at equal_fold equal upper_byte
has_or-spaced op_ge s = refl
has_or-spaced op_le s = refl
has_or-spaced op_ne s = refl
has_or-spaced op_eq s = refl
has_or-spaced op_gt s = refl
has_or-spaced op_lt s = refl

pub find_operator-spaced :
    (o : Op) (c : ℕ) (pre s : Runes)
    → find_operator 0 (c ∷ pre) (spaced o ++ s) ≡ some ((c ∷ pre) ++ b' ' ∷ [], (o, b' ' ∷ s))
unfolding find_operator is_quote next_quote operator_at operator_one operator_two with_rest
find_operator-spaced op_ge c pre s = refl
find_operator-spaced op_le c pre s = refl
find_operator-spaced op_ne c pre s = refl
find_operator-spaced op_eq c pre s = refl
find_operator-spaced op_gt c pre s = refl
find_operator-spaced op_lt c pre s = refl
