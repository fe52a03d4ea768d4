-- ===== src/ContentLine/Escape/Split.antt =====
-- The steps of SplitUnescaped, one byte at a time, whatever follows.
use runtime_go.Prelude.{ℕ, Bool, false, not, ◌&&◌, ◌≡◌, ◌≢◌, [], ◌∷◌, ◌++◌, arith, ◌==◌, Bytes}
use runtime_go.ContentLine.Escape.{split_from}

module _ (sep : ℕ) (cur : Bytes) where
  pub split_from_byte :
      (q : Bool) (c : ℕ) (s : Bytes)
      → c ≢ b'\\'
      → c ≢ b'"'
      → (c == sep && not q) ≡ false
      → split_from sep q cur (c ∷ s) ≡ split_from sep q (cur ++ c ∷ []) s
  unfolding split_from
  split_from_byte q c [] h k l = ground arith
  split_from_byte q c (d ∷ s) h k l = ground arith

  pub split_from_quote :
      (q : Bool) (s : Bytes)
      → split_from sep q cur (b'"' ∷ s) ≡ split_from sep (not q) (cur ++ b'"' ∷ []) s
  unfolding split_from
  split_from_quote q [] = ground arith
  split_from_quote q (d ∷ s) = ground arith

  pub split_from_sep :
      (s : Bytes)
      → sep ≢ b'\\'
      → sep ≢ b'"'
      → split_from sep false cur (sep ∷ s) ≡ cur ∷ split_from sep false [] s
  unfolding split_from
  split_from_sep [] h k = ground arith
  split_from_sep (d ∷ s) h k = ground arith
