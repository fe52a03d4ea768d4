-- ===== src/ContentLine/Fold/Width.antt =====
-- The physical lines that Fold writes, measured in octets: RFC 6350 section 3.2.
use mathlib.Core.Path.{subst}
use runtime_go.Prelude.{
  ℕ, zero, suc, ◌+◌, ◌≤◌, true, false, inl, inr, [], ◌∷◌, ◌++◌, arith, ◌==◌, leb, if◌then◌else◌,
  Bytes, Bool-cases, length, take, drop, length-take, append-nil, leb→le,
}
use runtime_go.ContentLine.Fold.{limit, next_end, fold_from, fold}
use runtime_go.ContentLine.Fold.RoundTrip.{
  IsLine, IsLine-take, IsLine-drop, next_end_bounds, drop_fits,
}

-- Every physical line has at most `limit` octets, its line break not counted; `n` octets of the
-- present one have been read.
abbrev pub LinesFit : ℕ → Bytes → Type 0
LinesFit n [] = n ≤ limit
LinesFit n (c ∷ s) =
    if c == b'\n'
    then (n ≤ limit) × LinesFit 0 s
    else if c == b'\r'
    then LinesFit n s
    else LinesFit (n + 1) s

LinesFit-append : (n : ℕ) (t s : Bytes) → IsLine t → LinesFit (n + length t) s → LinesFit n (t ++ s)
LinesFit-append n [] s l h = subst (λ k. LinesFit k s) (omega arith) h
LinesFit-append n (c ∷ t) s l h = ground (
  arith,
  LinesFit-append (n + 1) t s (record { no_cr = l.no_cr.1; no_lf = l.no_lf.1 })
      (subst (λ k. LinesFit k s) (omega arith) h),
)

-- A piece, and the later pieces behind it, whose first line begins inside the window.
fit_round :
    (n end : ℕ) (rest later : Bytes)
    → IsLine rest
    → n + end ≤ limit
    → ((k : ℕ) → k ≤ limit → LinesFit k later)
    → LinesFit n (take end rest ++ later)
fit_round n end rest later l h ih =
    LinesFit-append n (take end rest) later (IsLine-take end l)
      (ih _ (omega (arith, length-take end rest)))

-- Behind the first piece the present line is ended before anything else is written.
fold_from-LinesFit :
    (fuel n : ℕ) (s : Bytes)
    → length s ≤ fuel
    → IsLine s
    → n ≤ limit
    → LinesFit n (fold_from fuel false s)
unfolding fold_from
fold_from-LinesFit zero n s h l m = m
fold_from-LinesFit (suc fuel) n [] h l m = m
fold_from-LinesFit (suc fuel) n (c ∷ s) h l m =
    let end = next_end 74 (c ∷ s) in
    (
      m,
      fit_round 1 end (c ∷ s) _ l
          (omega (arith, next_end_bounds 74 (c ∷ s) (omega arith) (omega arith)))
          (λ k.
            fold_from-LinesFit fuel k (drop end (c ∷ s)) (drop_fits fuel 74 (c ∷ s) (omega arith) h)
              (IsLine-drop end l)),
    )

fold_from_first-LinesFit :
    (fuel : ℕ) (s : Bytes) → length s ≤ fuel → IsLine s → LinesFit 0 (fold_from fuel true s)
fold_from_first-LinesFit zero s h l = unfold fold_from in omega arith
fold_from_first-LinesFit (suc fuel) [] h l = unfold fold_from in omega arith
fold_from_first-LinesFit (suc fuel) (c ∷ s) h l =
    let end = next_end limit (c ∷ s) in
    unfold fold_from in
    fit_round 0 end (c ∷ s) _ l
      (omega (arith, next_end_bounds limit (c ∷ s) (omega arith) (omega arith)))
      (λ k.
        fold_from-LinesFit fuel k (drop end (c ∷ s)) (drop_fits fuel limit (c ∷ s) (omega arith) h)
          (IsLine-drop end l))

-- No physical line that Fold writes is longer than 75 octets, the space in front of a continuation
-- included, for any content line, however long.
pub fold-LinesFit : (s : Bytes) → IsLine s → LinesFit 0 (fold s)
unfolding fold
fold-LinesFit s l = elim (Bool-cases (leb (length s) limit)) [
  | inl short ↦ rw short (one_line s l (leb→le _ _ short))
  | inr long ↦ rw long (fold_from_first-LinesFit (length s) s (omega arith) l)
]
  where
    one_line : (t : Bytes) → IsLine t → length t ≤ limit → LinesFit 0 t
    one_line t k h = subst (LinesFit 0) (append-nil t) (LinesFit-append 0 t [] k (omega arith))
