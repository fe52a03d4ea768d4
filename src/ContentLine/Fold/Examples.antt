-- ===== src/ContentLine/Fold/Examples.antt =====
-- Folding at concrete lines.
use runtime_go.Prelude.{ℕ, zero, suc, ◌≡◌, refl, [], ◌∷◌, ◌++◌, arith, Bytes, codes}
use runtime_go.ContentLine.Text.{
  trim_space, trim_left, trim_right, replace_pair, replace_byte, split_byte,
}
use runtime_go.ContentLine.Fold.{
  fold, fold_from, next_end, walk_back, is_continuation, unfold_lines, unfold_markers, keep_lines,
}
use runtime_go.ContentLine.Fold.RoundTrip.{IsLine, unfold_lines-fold}
use runtime_go.ContentLine.Fold.Width.{LinesFit, fold-LinesFit}
use runtime_go.ContentLine.Fold.Boundary.{BreaksAtRunes, fold-BreaksAtRunes}

abbrev repeat : ℕ → Bytes → Bytes
repeat zero s = []
repeat (suc n) s = s ++ repeat n s

-- 80 bytes: a name, then runes of two bytes each, of which one straddles the limit.
abbrev summary : Bytes
summary = codes "SUMMARY:" ++ repeat 36 (0xc3 ∷ 0xa9 ∷ [])

fold-summary :
    fold summary
    ≡ codes "SUMMARY:"
      ++ (repeat 33 (0xc3 ∷ 0xa9 ∷ []) ++ (codes "\r\n " ++ repeat 3 (0xc3 ∷ 0xa9 ∷ [])))
unfolding fold fold_from next_end walk_back is_continuation
fold-summary = refl

unfold_two :
    unfold_lines (codes "A:1\r\n  2\r\n\r\n \r\nB:\t3\n") ≡ codes "A:1 2" ∷ codes "B:\t3" ∷ []
unfolding unfold_lines unfold_markers keep_lines trim_space trim_left trim_right replace_pair
    replace_byte split_byte
unfold_two = refl

summary-IsLine : IsLine summary
summary-IsLine = omega arith

unfold_lines-fold_example : unfold_lines (fold summary) ≡ summary ∷ []
unfolding trim_space trim_left trim_right
unfold_lines-fold_example = unfold_lines-fold summary summary-IsLine cc

fold-LinesFit_example : LinesFit 0 (fold summary)
fold-LinesFit_example = fold-LinesFit summary summary-IsLine

fold-BreaksAtRunes_example : BreaksAtRunes (fold summary)
unfolding is_continuation
fold-BreaksAtRunes_example = fold-BreaksAtRunes summary summary-IsLine (ground arith)
