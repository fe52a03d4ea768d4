-- ===== src/ContentLine/Fold/RoundTrip.antt =====
-- Unfold against Fold: no byte is lost or added.
use runtime_go.Prelude.{
  ℕ, zero, suc, ◌≤◌, ◌<◌, Bool, true, false, ◌≡◌, refl, ◌≢◌, ◌∙◌, ap, [], ◌∷◌, ◌++◌, arith, leb,
  Bytes, Bool-cases, All, length, take, drop, length-drop, take-append-drop, sym, append-nil, inl,
  inr,
}
use runtime_go.ContentLine.Text.{replace_pair, replace_byte, trim_space}
use runtime_go.ContentLine.Text.Laws.{
  Lacks, replace_pair-append, replace_pair_here, replace_byte-append, replace_byte-Lacks,
  replace_pair-Lacks, split_byte-Lacks,
}
use runtime_go.ContentLine.Fold.{
  limit, next_end, fold_from, fold, unfold_markers, keep_lines, unfold_lines, walk_back,
}

-- What the fold markers become, and what is left of them.
undo_markers : Bytes → Bytes
undo_markers s =
    replace_pair b'\n' b' ' [] (replace_byte b'\r' b'\n' (replace_pair b'\r' b'\n' (b'\n' ∷ []) s))

-- No carriage return and no line feed: what a content line holds.
pub record IsLine (s : Bytes) : Type 0 where
  pub no_cr : Lacks b'\r' s
  pub no_lf : Lacks b'\n' s

undo_markers-append : (t s : Bytes) → IsLine t → undo_markers (t ++ s) ≡ t ++ undo_markers s
unfolding undo_markers
undo_markers-append t s h = rw (replace_pair-append b'\r' b'\n' (b'\n' ∷ []) t s h.no_cr) (
    rw (replace_byte-append b'\r' b'\n' t) (
      rw (replace_byte-Lacks b'\r' b'\n' t h.no_cr)
        (replace_pair-append b'\n' b' ' [] t _ h.no_lf)))

undo_markers_marker : (s : Bytes) → undo_markers (b'\r' ∷ b'\n' ∷ b' ' ∷ s) ≡ undo_markers s
unfolding undo_markers
undo_markers_marker s = rw (replace_pair_here b'\r' b'\n' (b'\n' ∷ []) (b' ' ∷ s)) (
    rw (replace_pair-append b'\r' b'\n' (b'\n' ∷ []) (b' ' ∷ []) s (ground arith, tt))
      (unfold replace_byte in replace_pair_here b'\n' b' ' [] _))

All-take : (P : ℕ → Type 0) (n : ℕ) (s : Bytes) → All P s → All P (take n s)
All-take P zero s h = tt
All-take P (suc n) [] h = tt
All-take P (suc n) (c ∷ s) h = (h.0, All-take P n s h.1)

All-drop : (P : ℕ → Type 0) (n : ℕ) (s : Bytes) → All P s → All P (drop n s)
All-drop P zero s h = h
All-drop P (suc n) [] h = tt
All-drop P (suc n) (c ∷ s) h = All-drop P n s h.1

pub IsLine-take : (n : ℕ) {s : Bytes} → IsLine s → IsLine (take n s)
IsLine-take n {s} h = record { no_cr = All-take _ n s h.no_cr; no_lf = All-take _ n s h.no_lf }

pub IsLine-drop : (n : ℕ) {s : Bytes} → IsLine s → IsLine (drop n s)
IsLine-drop n {s} h = record { no_cr = All-drop _ n s h.no_cr; no_lf = All-drop _ n s h.no_lf }

walk_back-le : (rest : Bytes) (n : ℕ) → walk_back rest n ≤ n
unfolding walk_back
walk_back-le rest zero = omega arith
walk_back-le rest (suc n) = ground (arith, walk_back-le rest n)

-- A round takes at least one byte, at most the window, and no more than there are.
pub next_end_bounds :
    (width : ℕ) (rest : Bytes)
    → 0 < width
    → 0 < length rest
    → (0 < next_end width rest)
      × (next_end width rest ≤ width)
      × (next_end width rest ≤ length rest)
unfolding next_end
next_end_bounds width rest w l = ground (arith, walk_back-le rest width)

undo_line : (s : Bytes) → IsLine s → undo_markers s ≡ s
undo_line s l =
    ap undo_markers (sym (append-nil s))
    ∙ undo_markers-append s [] l
    ∙ unfold undo_markers replace_pair replace_byte in append-nil s

-- What is left after a round fits the fuel that is left.
pub drop_fits :
    (fuel width : ℕ) (rest : Bytes)
    → 0 < width
    → length rest ≤ suc fuel
    → length (drop (next_end width rest) rest) ≤ fuel
drop_fits fuel width [] w h = omega (arith, length-drop {A = ℕ} (next_end width []) [])
drop_fits fuel width (c ∷ s) w h = omega (
  arith,
  next_end_bounds width (c ∷ s) w (omega arith),
  length-drop (next_end width (c ∷ s)) (c ∷ s),
)

undo_round :
    (end : ℕ) (rest later : Bytes)
    → IsLine rest
    → undo_markers later ≡ drop end rest
    → undo_markers (take end rest ++ later) ≡ rest
undo_round end rest later l e =
    undo_markers-append (take end rest) later (IsLine-take end l) ∙ rw e (take-append-drop end rest)

undo_markers-fold_from :
    (fuel : ℕ) (first : Bool) (s : Bytes)
    → length s ≤ fuel
    → IsLine s
    → undo_markers (fold_from fuel first s) ≡ s
unfolding fold_from
undo_markers-fold_from zero first [] h l = unfold undo_markers replace_pair replace_byte in refl
undo_markers-fold_from zero first (c ∷ s) h l = absurd (omega arith)
undo_markers-fold_from (suc fuel) first [] h l =
    unfold undo_markers replace_pair replace_byte in refl
undo_markers-fold_from (suc fuel) true (c ∷ s) h l =
    let end = next_end limit (c ∷ s) in
    undo_round end (c ∷ s) _ l (
      undo_markers-fold_from fuel false (drop end (c ∷ s))
        (drop_fits fuel limit (c ∷ s) (omega arith) h) (IsLine-drop end l))
undo_markers-fold_from (suc fuel) false (c ∷ s) h l =
    let end = next_end 74 (c ∷ s) in
    undo_markers_marker _
    ∙ undo_round end (c ∷ s) _ l (
        undo_markers-fold_from fuel false (drop end (c ∷ s))
          (drop_fits fuel 74 (c ∷ s) (omega arith) h) (IsLine-drop end l))

undo_markers-fold : (s : Bytes) → IsLine s → undo_markers (fold s) ≡ s
unfolding fold
undo_markers-fold s l = elim (Bool-cases (leb (length s) limit)) [
  | inl short ↦ rw short (undo_line s l)
  | inr long ↦ rw long (undo_markers-fold_from (length s) true s (omega arith) l)
]

unfold_markers-fold : (s : Bytes) → IsLine s → unfold_markers (fold s) ≡ s
unfolding unfold_markers undo_markers
unfold_markers-fold s l =
    ap (replace_pair b'\n' b'\t' []) (undo_markers-fold s l)
    ∙ replace_pair-Lacks b'\n' b'\t' [] s l.no_lf

keep_lines_one : (s : Bytes) → trim_space s ≢ [] → keep_lines (s ∷ []) ≡ s ∷ []
unfolding keep_lines
keep_lines_one s ne = ground arith

-- Unfolding what Fold has written gives back the one content line, byte for byte, whatever its
-- length and wherever its spaces and tabs stand: for a line that is not blank and holds neither a
-- carriage return nor a line feed.
pub unfold_lines-fold : (s : Bytes) → IsLine s → trim_space s ≢ [] → unfold_lines (fold s) ≡ s ∷ []
unfolding unfold_lines
unfold_lines-fold s l ne =
    rw (unfold_markers-fold s l) (rw (split_byte-Lacks b'\n' [] s l.no_lf) (keep_lines_one s ne))
