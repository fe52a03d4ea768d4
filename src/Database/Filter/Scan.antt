-- ===== src/Database/Filter/Scan.antt =====
-- What is quoted is passed over by the three loops over an expression.
use runtime_go.Prelude.{
  ℕ, zero, suc, Bool, true, false, ◌≡◌, ◌≢◌, ap, ◌∙◌, [], ◌∷◌, ◌++◌, ◌==◌, arith, append_assoc,
}
use runtime_go.ContentLine.Text.Laws.{Lacks}
use runtime_go.Database.Filter.{Runes, is_quote, next_quote, split_from, has_word, find_operator}

next_quote-inside : (q c : ℕ) → c ≢ suc q → next_quote (suc q) c ≡ suc q
unfolding next_quote
next_quote-inside q c h = ground arith

next_quote-close : (q : ℕ) → next_quote (suc q) (suc q) ≡ 0
unfolding next_quote
next_quote-close q = ground arith

next_quote-open : (c : ℕ) → is_quote c ≡ true → next_quote 0 c ≡ c
unfolding next_quote
next_quote-open c h = rw (h)

suc_not_zero : (q : ℕ) → (suc q == 0) ≡ false
suc_not_zero q = ground arith

zero_not_quote : is_quote 0 ≡ true → ⊥
unfolding is_quote
zero_not_quote h = cc

quote_not_space : (c : ℕ) → is_quote c ≡ true → (c == b' ') ≡ false
unfolding is_quote
quote_not_space c h = ground arith

split_from-inside :
    (before : Bool) (q : ℕ) (cur v s : Runes)
    → is_quote (suc q) ≡ true
    → Lacks (suc q) v
    → split_from 0 before (suc q) cur (v ++ suc q ∷ s)
      ≡ split_from 0 false 0 (cur ++ (v ++ suc q ∷ [])) s
unfolding split_from
split_from-inside before q cur [] s h l =
    rw (suc_not_zero q, next_quote-close q, quote_not_space (suc q) h)
split_from-inside before q cur (c ∷ v) s h l =
    rw (suc_not_zero q, next_quote-inside q c l.0)
      (split_from-inside (c == b' ') q (cur ++ c ∷ []) v s h l.1
        ∙ ap (λ x. split_from 0 false 0 x s) (append_assoc cur (c ∷ []) (v ++ suc q ∷ [])))

has_word-inside :
    (word : Runes) (n : ℕ) (before : Bool) (q : ℕ) (v s : Runes)
    → is_quote (suc q) ≡ true
    → Lacks (suc q) v
    → has_word word n before (suc q) (v ++ suc q ∷ s) ≡ has_word word n false 0 s
unfolding has_word
has_word-inside word n before q [] s h l =
    rw (suc_not_zero q, next_quote-close q, quote_not_space (suc q) h)
has_word-inside word n before q (c ∷ v) s h l =
    rw (suc_not_zero q, next_quote-inside q c l.0) (has_word-inside word n (c == b' ') q v s h l.1)

find_operator-inside :
    (q : ℕ) (pre v s : Runes)
    → Lacks (suc q) v
    → find_operator (suc q) pre (v ++ suc q ∷ s) ≡ find_operator 0 (pre ++ (v ++ suc q ∷ [])) s
unfolding find_operator
find_operator-inside q pre [] s l = rw (suc_not_zero q, next_quote-close q)
find_operator-inside q pre (c ∷ v) s l =
    rw (suc_not_zero q, next_quote-inside q c l.0)
      (find_operator-inside q (pre ++ c ∷ []) v s l.1
        ∙ ap (λ x. find_operator 0 x s) (append_assoc pre (c ∷ []) (v ++ suc q ∷ [])))

-- A quotation: its marks, and a text without the mark between them.
abbrev pub quoted : ℕ → Runes → Runes
quoted q v = q ∷ (v ++ q ∷ [])

-- What stands in a quotation is never read as an AND, as an OR or as an operator: each of the
-- three loops, outside a quotation, goes on behind the closing mark with nothing found, for a
-- text without that mark.
pub quoted-skipped :
    (q : ℕ) (v s cur pre : Runes) (word : Runes) (n : ℕ) (before : Bool)
    → is_quote q ≡ true
    → Lacks q v
    → (split_from 0 before 0 cur (quoted q v ++ s) ≡ split_from 0 false 0 (cur ++ quoted q v) s)
      × (has_word word n before 0 (quoted q v ++ s) ≡ has_word word n false 0 s)
      × (find_operator 0 pre (quoted q v ++ s) ≡ find_operator 0 (pre ++ quoted q v) s)
unfolding split_from has_word find_operator
quoted-skipped zero v s cur pre word n before h l = absurd (zero_not_quote h)
quoted-skipped (suc q) v s cur pre word n before h l =
    let e : (v ++ suc q ∷ []) ++ s ≡ v ++ suc q ∷ s = append_assoc v (suc q ∷ []) s in
    (
      rw (h, next_quote-open (suc q) h, e)
          (split_from-inside (suc q == b' ') q (cur ++ suc q ∷ []) v s h l
            ∙ ap (λ x. split_from 0 false 0 x s) (append_assoc cur (suc q ∷ []) (v ++ suc q ∷ []))),
      rw (h, next_quote-open (suc q) h, e) (has_word-inside word n (suc q == b' ') q v s h l),
      rw (h, next_quote-open (suc q) h, e)
          (find_operator-inside q (pre ++ suc q ∷ []) v s l
            ∙ ap (λ x. find_operator 0 x s) (append_assoc pre (suc q ∷ []) (v ++ suc q ∷ []))),
    )
