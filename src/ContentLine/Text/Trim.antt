-- ===== src/ContentLine/Text/Trim.antt =====
-- strings.TrimSpace leaves a text alone that begins and ends with visible ASCII characters.
use mathlib.Core.List.{reverse, reverse-append, reverse-reverse}
use runtime_go.Prelude.{
  ℕ, Bool, true, ◌&&◌, ◌≡◌, refl, sym, ap, ◌∙◌, [], ◌∷◌, ◌++◌, arith, ltb, Bytes,
}
use runtime_go.ContentLine.Text.{trim_left, trim_right, trim_space}

-- Neither white space nor a part of a longer rune.
abbrev pub is_plain : ℕ → Bool
is_plain c = ltb b' ' c && ltb c 128

-- The text is not empty, and its last byte is such a character.
abbrev pub Ends : Bytes → Type 0
Ends [] = ⊥
Ends (c ∷ []) = is_plain c ≡ true
Ends (c ∷ d ∷ s) = Ends (d ∷ s)

trim_left_plain : (c : ℕ) (s : Bytes) → is_plain c ≡ true → trim_left (c ∷ s) ≡ c ∷ s
unfolding trim_left
trim_left_plain c [] h = ground arith
trim_left_plain c (d ∷ []) h = ground arith
trim_left_plain c (d ∷ e ∷ s) h = ground arith

trim_right_plain : (c : ℕ) (s : Bytes) → is_plain c ≡ true → trim_right (c ∷ s) ≡ c ∷ s
unfolding trim_right
trim_right_plain c [] h = ground arith
trim_right_plain c (d ∷ []) h = ground arith
trim_right_plain c (d ∷ e ∷ s) h = ground arith

pub Ends-cons : (c : ℕ) (s : Bytes) → Ends s → Ends (c ∷ s)
Ends-cons c [] h = absurd h
Ends-cons c (d ∷ s) h = h

pub Ends-append : (t s : Bytes) → Ends s → Ends (t ++ s)
Ends-append [] s h = h
Ends-append (c ∷ t) s h = Ends-cons c (t ++ s) (Ends-append t s h)

Ends-split : (s : Bytes) → Ends s → (t : Bytes) × (d : ℕ) × (s ≡ t ++ d ∷ []) × (is_plain d ≡ true)
Ends-split [] h = absurd h
Ends-split (c ∷ []) h = ([], c, refl, h)
Ends-split (c ∷ d ∷ s) h =
    let (t, e, same, plain) = Ends-split (d ∷ s) h in (c ∷ t, e, ap (◌∷◌ c) same, plain)

trim_right-Ends : (s : Bytes) → Ends s → reverse (trim_right (reverse s)) ≡ s
trim_right-Ends s h =
    let (t, d, same, plain) = Ends-split s h in
    rw same (
      ap (λ r. reverse (trim_right r)) (reverse-append t (d ∷ []))
      ∙ ap reverse (trim_right_plain d (reverse t) plain)
      ∙ ap reverse (sym (reverse-append t (d ∷ [])))
      ∙ reverse-reverse (t ++ d ∷ []))

pub trim_space_plain :
    (c : ℕ) (s : Bytes) → is_plain c ≡ true → Ends (c ∷ s) → trim_space (c ∷ s) ≡ c ∷ s
unfolding trim_space
trim_space_plain c s h e = rw (trim_left_plain c s h) (trim_right-Ends (c ∷ s) e)
