-- ===== src/ContentLine/Text.antt =====
-- The functions of Go's package strings that rfc/internal/contentline calls, over byte strings.
pub mod Laws
pub mod Trim
use runtime_go.Prelude.{
  ℕ, Bool, true, false, ◌&&◌, ◌||◌, List, [], ◌∷◌, ◌++◌, Option, none, some, ◌==◌, leb,
  if◌then◌else◌, Bytes,
}
use mathlib.Core.List.{reverse}

-- strings.ReplaceAll of an `old` of two bytes: from left to right, and not in what it has put.
unfoldable pub replace_pair : ℕ → ℕ → Bytes → Bytes → Bytes
replace_pair a b new [] = []
replace_pair a b new (x ∷ []) = x ∷ []
replace_pair a b new (x ∷ y ∷ s) =
    let replaced = new ++ replace_pair a b new s in
    let kept = x ∷ replace_pair a b new (y ∷ s) in if x == a && y == b then replaced else kept

-- strings.ReplaceAll of one byte by one byte.
unfoldable pub replace_byte : ℕ → ℕ → Bytes → Bytes
replace_byte a b [] = []
replace_byte a b (x ∷ s) = (if x == a then b else x) ∷ replace_byte a b s

-- strings.Split at a separator of one byte.
unfoldable pub split_byte : ℕ → Bytes → Bytes → List Bytes
split_byte sep cur [] = cur ∷ []
split_byte sep cur (x ∷ s) =
    let next = cur ∷ split_byte sep [] s in
    let more = split_byte sep (cur ++ x ∷ []) s in if x == sep then next else more

-- strings.IndexByte and the two slices around it: what is before the byte and what is behind it.
unfoldable pub cut_byte : ℕ → Bytes → Option (Bytes × Bytes)
cut_byte sep [] = none
cut_byte sep (x ∷ s) =
    if x == sep
    then some ([], s)
    else elim (cut_byte sep s) [ none ↦ none | some (before, after) ↦ some (x ∷ before, after) ]

unfoldable pub is_ascii_space : ℕ → Bool
is_ascii_space c = leb 9 c && leb c 13 || c == b' '

-- The UTF-8 forms of the white space of unicode.IsSpace beyond ASCII.
unfoldable pub is_space2 : ℕ → ℕ → Bool
is_space2 c d = c == 0xc2 && (d == 0x85 || d == 0xa0)

unfoldable pub is_space3 : ℕ → ℕ → ℕ → Bool
is_space3 c d e =
    c == 0xe1 && d == 0x9a && e == 0x80
    || c == 0xe2 && d == 0x80 && (leb 0x80 e && leb e 0x8a || e == 0xa8 || e == 0xa9 || e == 0xaf)
    || c == 0xe2 && d == 0x81 && e == 0x9f
    || c == 0xe3 && d == 0x80 && e == 0x80

unfoldable pub trim_left : Bytes → Bytes
unfolding is_ascii_space is_space2 is_space3
trim_left [] = []
trim_left (c ∷ []) = if is_ascii_space c then [] else c ∷ []
trim_left (c ∷ d ∷ []) =
    let one = trim_left (d ∷ []) in
    if is_ascii_space c then one else if is_space2 c d then [] else c ∷ d ∷ []
trim_left (c ∷ d ∷ e ∷ s) =
    let one = trim_left (d ∷ e ∷ s) in
    let two = trim_left (e ∷ s) in
    let three = trim_left s in
    if is_ascii_space c
    then one
    else if is_space2 c d
    then two
    else if is_space3 c d e
    then three
    else c ∷ d ∷ e ∷ s

-- From the right, over the bytes in reverse.
unfoldable pub trim_right : Bytes → Bytes
unfolding is_ascii_space is_space2 is_space3
trim_right [] = []
trim_right (c ∷ []) = if is_ascii_space c then [] else c ∷ []
trim_right (c ∷ d ∷ []) =
    let one = trim_right (d ∷ []) in
    if is_ascii_space c then one else if is_space2 d c then [] else c ∷ d ∷ []
trim_right (c ∷ d ∷ e ∷ s) =
    let one = trim_right (d ∷ e ∷ s) in
    let two = trim_right (e ∷ s) in
    let three = trim_right s in
    if is_ascii_space c
    then one
    else if is_space2 d c
    then two
    else if is_space3 e d c
    then three
    else c ∷ d ∷ e ∷ s

-- strings.TrimSpace
unfoldable pub trim_space : Bytes → Bytes
unfolding trim_left trim_right
trim_space s = reverse (trim_right (reverse (trim_left s)))
