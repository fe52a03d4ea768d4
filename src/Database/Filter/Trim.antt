-- ===== src/Database/Filter/Trim.antt =====
-- strings.TrimSpace of a text with a space before or behind it.
use mathlib.Core.List.{reverse, reverse-append, reverse-reverse}
use mathlib.Core.Path.{subst}
use runtime_go.Prelude.{Bool, true, false, ◌≡◌, refl, sym, ap, ◌∙◌, [], ◌∷◌, ◌++◌, append-nil}
use runtime_go.Database.Filter.{Runes, is_space, trim, trim_front, is_none}
use runtime_go.Database.Filter.Words.{IsWords, word-not_space}

-- The text begins with a rune that is no space.
abbrev pub Starts : Runes → Type 0
Starts [] = ⊥
Starts (c ∷ s) = is_space c ≡ false

-- A space, or nothing.
abbrev pub blank : Bool → Runes
blank true = b' ' ∷ []
blank false = []

trim_front-Starts : (s t : Runes) → Starts s → trim_front (s ++ t) ≡ s ++ t
unfolding trim_front
trim_front-Starts [] t h = absurd h
trim_front-Starts (c ∷ s) t h = rw (h)

trim_front-blank : (b : Bool) (s : Runes) → trim_front (blank b ++ s) ≡ trim_front s
unfolding trim_front is_space
trim_front-blank true s = refl
trim_front-blank false s = refl

reverse-blank : (b : Bool) → reverse (blank b) ≡ blank b
reverse-blank true = refl
reverse-blank false = refl

pub trim-blank :
    (a b : Bool) (s : Runes) → Starts s → Starts (reverse s) → trim (blank a ++ (s ++ blank b)) ≡ s
unfolding trim
trim-blank a b s h g =
    let front : trim_front (blank a ++ (s ++ blank b)) ≡ s ++ blank b =
      trim_front-blank a (s ++ blank b) ∙ trim_front-Starts s (blank b) h in
    let back : reverse (s ++ blank b) ≡ blank b ++ reverse s =
      reverse-append s (blank b) ∙ ap (λ x. x ++ reverse s) (reverse-blank b) in
    let rest : trim_front (reverse s) ≡ reverse s =
      ap trim_front (sym (append-nil (reverse s)))
      ∙ trim_front-Starts (reverse s) [] g
      ∙ append-nil (reverse s) in
    rw (front, back, trim_front-blank b (reverse s), rest) (reverse-reverse s)

All-append : (s t : Runes) → IsWords s → IsWords t → IsWords (s ++ t)
All-append [] t h g = g
All-append (c ∷ s) t h g = (h.0, All-append s t h.1 g)

pub IsWords-reverse : (s : Runes) → IsWords s → IsWords (reverse s)
IsWords-reverse [] h = tt
IsWords-reverse (c ∷ s) h =
    subst IsWords (sym (reverse-append (c ∷ []) s))
      (All-append (reverse s) (c ∷ []) (IsWords-reverse s h.1) (h.0, tt))

pub IsWords-Starts : (s : Runes) → (is_none s ≡ false) → IsWords s → Starts s
IsWords-Starts [] n h = cc
IsWords-Starts (c ∷ s) n h = word-not_space c h.0
