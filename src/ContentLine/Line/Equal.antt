-- ===== src/ContentLine/Line/Equal.antt =====
-- The comparison of byte strings decides their equality.
use runtime_go.Prelude.{true, ◌≡◌, refl, [], ◌∷◌, Bytes, arith}
use runtime_go.ContentLine.Line.{equal}

pub equal_refl : (n : Bytes) → equal n n ≡ true
unfolding equal
equal_refl [] = refl
equal_refl (c ∷ n) = ground (arith, equal_refl n)

pub equal_sound : (s t : Bytes) → equal s t ≡ true → s ≡ t
unfolding equal
equal_sound [] [] h = refl
equal_sound [] (b ∷ t) h = cc
equal_sound (a ∷ s) [] h = cc
equal_sound (a ∷ s) (b ∷ t) h = ground (arith, equal_sound s t)
