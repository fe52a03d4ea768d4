-- ===== src/ContentLine/Fold.antt =====
-- rfc/internal/contentline: Fold of escape.go and Unfold of line.go.
pub mod RoundTrip
pub mod Width
pub mod Boundary
pub mod Examples
use Prim.Native.Nat.{bit_and}
use runtime_go.Prelude.{
  ℕ, zero, suc, ◌-◌, Bool, true, false, List, [], ◌∷◌, ◌++◌, Option, none, some, ◌==◌, ltb, leb,
  if◌then◌else◌, Bytes, length, get_elem?, take, drop,
}
use runtime_go.ContentLine.Text.{replace_pair, replace_byte, split_byte, trim_space}

abbrev pub limit : ℕ
limit = 75

-- s[i]&0xC0 == 0x80; an index in range.
pub is_continuation : Option ℕ → Bool
is_continuation none = false
is_continuation (some c) = bit_and c 0xc0 == 0x80

-- The inner loop: `bound` walks back over continuation bytes, relative to `start`.
pub walk_back : Bytes → ℕ → ℕ
walk_back rest zero = 0
walk_back rest (suc bound) =
    let back = walk_back rest bound in
    if is_continuation (get_elem? rest (suc bound)) then back else suc bound

-- The width of the window: the space in front of a continuation counts.
abbrev pub window : Bool → ℕ
window first = if first then limit else limit - 1

-- `end - start` for the text from `start` on.
pub next_end : ℕ → Bytes → ℕ
next_end width rest =
    let bound = walk_back rest width in
    if leb (length rest) width then length rest else if ltb 0 bound then bound else width

-- The outer loop, over s[start:]; `first` is `start == 0`. A round takes at least one byte, so as
-- many rounds as there are bytes are enough.
pub fold_from : ℕ → Bool → Bytes → Bytes
fold_from zero first rest = []
fold_from (suc fuel) first [] = []
fold_from (suc fuel) first (c ∷ s) =
    let end = next_end (window first) (c ∷ s) in
    let piece = take end (c ∷ s) ++ fold_from fuel false (drop end (c ∷ s)) in
    if first then piece else b'\r' ∷ b'\n' ∷ b' ' ∷ piece

pub fold : Bytes → Bytes
fold s = if leb (length s) limit then s else fold_from (length s) true s

-- The four replacements at the top of Unfold.
pub unfold_markers : Bytes → Bytes
unfolding replace_pair replace_byte
unfold_markers s = replace_pair b'\n' b'\t' [] (
    replace_pair b'\n' b' ' [] (replace_byte b'\r' b'\n' (replace_pair b'\r' b'\n' (b'\n' ∷ []) s)))

-- The loop that drops blank lines.
pub keep_lines : List Bytes → List Bytes
unfolding trim_space
keep_lines [] = []
keep_lines (l ∷ ls) = elim (trim_space l) [ [] ↦ keep_lines ls | c ∷ s ↦ l ∷ keep_lines ls ]

pub unfold_lines : Bytes → List Bytes
unfolding unfold_markers split_byte keep_lines
unfold_lines s = keep_lines (split_byte b'\n' [] (unfold_markers s))
