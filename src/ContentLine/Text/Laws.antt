-- ===== src/ContentLine/Text/Laws.antt =====
-- Laws of the functions of package strings.
use runtime_go.Prelude.{
  Option-cases, inl, inr, ℕ, ◌≡◌, refl, sym, ◌≢◌, ◌∙◌, ap, [], ◌∷◌, ◌++◌, none, some, arith, Bytes,
  append-nil, append_assoc, All,
}
use runtime_go.ContentLine.Text.{replace_pair, replace_byte, split_byte, cut_byte}

abbrev pub Lacks : ℕ → Bytes → Type 0
Lacks a = All (λ c. c ≢ a)

-- A part without the first byte of what is replaced is passed over.
pub replace_pair-append :
    (a b : ℕ) (new t s : Bytes)
    → Lacks a t
    → replace_pair a b new (t ++ s) ≡ t ++ replace_pair a b new s
unfolding replace_pair
replace_pair-append a b new [] s h = refl
replace_pair-append a b new (x ∷ []) [] h = refl
replace_pair-append a b new (x ∷ []) (y ∷ s) h = ground arith
replace_pair-append a b new (x ∷ z ∷ t) s h =
    ground (arith, replace_pair-append a b new (z ∷ t) s h.1)

pub replace_pair-Lacks : (a b : ℕ) (new t : Bytes) → Lacks a t → replace_pair a b new t ≡ t
replace_pair-Lacks a b new t h =
    ap (replace_pair a b new) (sym (append-nil t))
    ∙ replace_pair-append a b new t [] h
    ∙ unfold replace_pair in append-nil t

pub replace_pair_here :
    (a b : ℕ) (new s : Bytes) → replace_pair a b new (a ∷ b ∷ s) ≡ new ++ replace_pair a b new s
unfolding replace_pair
replace_pair_here a b new s = ground arith

pub replace_byte-Lacks : (a b : ℕ) (t : Bytes) → Lacks a t → replace_byte a b t ≡ t
unfolding replace_byte
replace_byte-Lacks a b [] h = refl
replace_byte-Lacks a b (x ∷ t) h = ground (arith, replace_byte-Lacks a b t h.1)

pub replace_byte-append :
    (a b : ℕ) (t s : Bytes) → replace_byte a b (t ++ s) ≡ replace_byte a b t ++ replace_byte a b s
unfolding replace_byte
replace_byte-append a b [] s = refl
replace_byte-append a b (x ∷ t) s = rw (replace_byte-append a b t s)

pub split_byte-Lacks :
    (sep : ℕ) (cur t : Bytes) → Lacks sep t → split_byte sep cur t ≡ (cur ++ t) ∷ []
unfolding split_byte
split_byte-Lacks sep cur [] h = rw append-nil
split_byte-Lacks sep cur (x ∷ t) h =
    ground (arith, split_byte-Lacks sep (cur ++ x ∷ []) t h.1, append_assoc cur (x ∷ []) t)

pub cut_byte_here :
    (sep : ℕ) (t s : Bytes) → Lacks sep t → cut_byte sep (t ++ sep ∷ s) ≡ some (t, s)
unfolding cut_byte
cut_byte_here sep [] s h = ground arith
cut_byte_here sep (x ∷ t) s h = ground (arith, cut_byte_here sep t s h.1)

pub cut_byte-Lacks : (sep : ℕ) (t : Bytes) → Lacks sep t → cut_byte sep t ≡ none
unfolding cut_byte
cut_byte-Lacks sep [] h = refl
cut_byte-Lacks sep (x ∷ t) h = ground (arith, cut_byte-Lacks sep t h.1)

pub cut_byte-some :
    (sep : ℕ) (v before after : Bytes)
    → cut_byte sep v ≡ some (before, after)
    → v ≡ before ++ sep ∷ after
unfolding cut_byte
cut_byte-some sep [] before after h = cc
cut_byte-some sep (x ∷ v) [] after h = ground arith
cut_byte-some sep (x ∷ v) (b ∷ before) after h = ground (arith, cut_byte-some sep v before after)

pub cut_byte-none : (sep : ℕ) (t : Bytes) → cut_byte sep t ≡ none → Lacks sep t
unfolding cut_byte
cut_byte-none sep [] h = tt
cut_byte-none sep (x ∷ t) h = elim (Option-cases (cut_byte sep t)) [
  | inl e ↦ ((λ q. ground (arith, q)), cut_byte-none sep t e)
  | inr (p, e) ↦ ground (arith, e)
]
