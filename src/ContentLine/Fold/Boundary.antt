-- ===== src/ContentLine/Fold/Boundary.antt =====
-- Where Fold breaks a line: never inside a multi-byte sequence of UTF-8.
use mathlib.Core.Path.{subst}
use runtime_go.Prelude.{
  ℕ, zero, suc, ◌+◌, ◌≤◌, ◌<◌, true, false, ◌&&◌, ◌≡◌, inl, inr, [], ◌∷◌, ◌++◌, arith, some, ◌==◌,
  leb, if◌then◌else◌, Bytes, Bool-cases, length, take, drop, get_elem?, leb→gt, lt→ltb, append-nil,
}
use runtime_go.ContentLine.Fold.{limit, is_continuation, walk_back, next_end, fold_from, fold}
use runtime_go.ContentLine.Fold.RoundTrip.{
  IsLine, IsLine-take, IsLine-drop, next_end_bounds, drop_fits,
}

-- The text is at its end or at a byte that begins a rune.
abbrev pub StartsRune : Bytes → Type 0
StartsRune [] = Unit
StartsRune (c ∷ s) = is_continuation (some c) ≡ false

abbrev pub AfterBreak : Bytes → Type 0
AfterBreak [] = Unit
AfterBreak (space ∷ s) = StartsRune s

-- Behind every line feed and the space that marks a continuation, a rune begins.
abbrev pub BreaksAtRunes : Bytes → Type 0
BreaksAtRunes [] = Unit
BreaksAtRunes (c ∷ s) = (if c == b'\n' then AfterBreak s else Unit) × BreaksAtRunes s

-- Among any four bytes in a row one begins a rune, as in all UTF-8.
abbrev pub RunesAreShort : Bytes → Type 0
RunesAreShort (a ∷ b ∷ c ∷ d ∷ s) =
    ((is_continuation (some a)
        && is_continuation (some b)
        && is_continuation (some c)
        && is_continuation (some d))
      ≡ false)
    × RunesAreShort (b ∷ c ∷ d ∷ s)
RunesAreShort _ = Unit

four_back :
    (s : Bytes) (n : ℕ)
    → RunesAreShort s
    → n + 3 < length s
    → (is_continuation (get_elem? s n)
        && is_continuation (get_elem? s (suc n))
        && is_continuation (get_elem? s (suc (suc n)))
        && is_continuation (get_elem? s (suc (suc (suc n)))))
      ≡ false
four_back (a ∷ b ∷ c ∷ d ∷ s) zero h l = h.0
four_back (a ∷ b ∷ c ∷ d ∷ s) (suc n) h l = four_back (b ∷ c ∷ d ∷ s) n h.1 (omega arith)
four_back [] n h l = absurd (omega arith)
four_back (a ∷ []) n h l = absurd (omega arith)
four_back (a ∷ b ∷ []) n h l = absurd (omega arith)
four_back (a ∷ b ∷ c ∷ []) n h l = absurd (omega arith)

RunesAreShort-drop : (n : ℕ) (s : Bytes) → RunesAreShort s → RunesAreShort (drop n s)
RunesAreShort-drop zero s h = h
RunesAreShort-drop (suc n) [] h = h
RunesAreShort-drop (suc n) (a ∷ b ∷ c ∷ d ∷ s) h = RunesAreShort-drop n (b ∷ c ∷ d ∷ s) h.1
RunesAreShort-drop (suc n) (a ∷ []) h = RunesAreShort-drop n [] tt
RunesAreShort-drop (suc n) (a ∷ b ∷ []) h = RunesAreShort-drop n (b ∷ []) tt
RunesAreShort-drop (suc n) (a ∷ b ∷ c ∷ []) h = RunesAreShort-drop n (b ∷ c ∷ []) tt

walk_back_start :
    (s : Bytes) (n : ℕ) → 0 < walk_back s n → is_continuation (get_elem? s (walk_back s n)) ≡ false
unfolding walk_back
walk_back_start s zero h = absurd (omega arith)
walk_back_start s (suc n) h = elim (Bool-cases (is_continuation (get_elem? s (suc n)))) [
  | inl back ↦ rw back (walk_back_start s n (rw back at h))
  | inr stop ↦ rw stop stop
]

walk_back_pos :
    (s : Bytes) (n : ℕ)
    → RunesAreShort s
    → suc (suc (suc (suc n))) < length s
    → 0 < walk_back s (suc (suc (suc (suc n))))
unfolding walk_back
walk_back_pos s n h l = ground (arith, four_back s (suc n) h (omega arith))

StartsRune-drop :
    (s : Bytes) (n : ℕ) → is_continuation (get_elem? s n) ≡ false → StartsRune (drop n s)
StartsRune-drop [] zero h = tt
StartsRune-drop [] (suc n) h = tt
StartsRune-drop (c ∷ s) zero h = h
StartsRune-drop (c ∷ s) (suc n) h = StartsRune-drop s n h

StartsRune-drop_all : (s : Bytes) → StartsRune (drop (length s) s)
StartsRune-drop_all [] = tt
StartsRune-drop_all (c ∷ s) = StartsRune-drop_all s

-- A round that starts with more text than one window ends where a rune begins.
next_end-StartsRune :
    (n : ℕ) (s : Bytes)
    → RunesAreShort s
    → StartsRune (drop (next_end (suc (suc (suc (suc n)))) s) s)
unfolding next_end
next_end-StartsRune n s h =
    let w = suc (suc (suc (suc n))) in
    elim (Bool-cases (leb (length s) w)) [
      | inl last ↦ rw last (StartsRune-drop_all s)
      | inr more ↦
          let pos = walk_back_pos s n h (leb→gt _ _ more) in
          rw (more, lt→ltb 0 _ pos) (StartsRune-drop s (walk_back s w) (walk_back_start s w pos))
    ]

BreaksAtRunes-append : (t s : Bytes) → IsLine t → BreaksAtRunes s → BreaksAtRunes (t ++ s)
BreaksAtRunes-append [] s l h = h
BreaksAtRunes-append (c ∷ t) s l h =
    ground (arith, BreaksAtRunes-append t s (record { no_cr = l.no_cr.1; no_lf = l.no_lf.1 }) h)

StartsRune-take :
    (n c : ℕ) (s later : Bytes) → 0 < n → StartsRune (c ∷ s) → StartsRune (take n (c ∷ s) ++ later)
StartsRune-take zero c s later p h = absurd (omega arith)
StartsRune-take (suc n) c s later p h = h

fold_from-BreaksAtRunes :
    (fuel : ℕ) (s : Bytes)
    → length s ≤ fuel
    → IsLine s
    → RunesAreShort s
    → StartsRune s
    → BreaksAtRunes (fold_from fuel false s)
unfolding fold_from
fold_from-BreaksAtRunes zero s h l r b = tt
fold_from-BreaksAtRunes (suc fuel) [] h l r b = tt
fold_from-BreaksAtRunes (suc fuel) (c ∷ s) h l r b =
    let end = next_end 74 (c ∷ s) in
    let advances = next_end_bounds 74 (c ∷ s) (omega arith) (omega arith) in
    let piece = BreaksAtRunes-append (take end (c ∷ s)) _ (IsLine-take end l) (
      fold_from-BreaksAtRunes fuel (drop end (c ∷ s)) (drop_fits fuel 74 (c ∷ s) (omega arith) h)
        (IsLine-drop end l) (RunesAreShort-drop end (c ∷ s) r)
        (next_end-StartsRune 70 (c ∷ s) r)) in
    (tt, (StartsRune-take end c s _ advances.0 b, (tt, piece)))

fold_from_first-BreaksAtRunes :
    (fuel : ℕ) (s : Bytes)
    → length s ≤ fuel
    → IsLine s
    → RunesAreShort s
    → BreaksAtRunes (fold_from fuel true s)
unfolding fold_from
fold_from_first-BreaksAtRunes zero s h l r = tt
fold_from_first-BreaksAtRunes (suc fuel) [] h l r = tt
fold_from_first-BreaksAtRunes (suc fuel) (c ∷ s) h l r =
    let end = next_end limit (c ∷ s) in
    BreaksAtRunes-append (take end (c ∷ s)) _ (IsLine-take end l) (
      fold_from-BreaksAtRunes fuel (drop end (c ∷ s)) (drop_fits fuel limit (c ∷ s) (omega arith) h)
        (IsLine-drop end l) (RunesAreShort-drop end (c ∷ s) r) (next_end-StartsRune 71 (c ∷ s) r))

-- Fold never breaks a line inside a multi-byte sequence: what stands behind each fold marker is the
-- first byte of a rune, for any content line in which no more than three continuation bytes follow
-- one another.
pub fold-BreaksAtRunes : (s : Bytes) → IsLine s → RunesAreShort s → BreaksAtRunes (fold s)
unfolding fold
fold-BreaksAtRunes s l r = elim (Bool-cases (leb (length s) limit)) [
  | inl short ↦ rw short (subst BreaksAtRunes (append-nil s) (BreaksAtRunes-append s [] l tt))
  | inr long ↦ rw long (fold_from_first-BreaksAtRunes (length s) s (omega arith) l r)
]
