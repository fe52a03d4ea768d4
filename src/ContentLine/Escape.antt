-- ===== src/ContentLine/Escape.antt =====
-- rfc/internal/contentline/escape.go and the splitter of line.go: TEXT escaping and the lists and
-- compound values that are built on it.
pub mod Split
pub mod RoundTrip
pub mod Examples
use runtime_go.Prelude.{
  ℕ, Bool, true, false, not, ◌&&◌, ◌||◌, List, [], ◌∷◌, ◌++◌, map, ◌==◌, if◌then◌else◌, Bytes,
}

-- Unescape, from the byte under the cursor on. A backslash at the very end is kept.
pub unescape : Bytes → Bytes
unescape [] = []
unescape (c ∷ []) = c ∷ []
unescape (c ∷ d ∷ s) =
    let kept = c ∷ unescape (d ∷ s) in
    let escaped = (if d == b'n' || d == b'N' then b'\n' else d) ∷ unescape s in
    if c == b'\\' then escaped else kept

-- What the replacer of Escape puts for one byte.
unfoldable pub escape_byte : ℕ → Bytes
escape_byte c =
    if c == b'\\'
    then b'\\' ∷ b'\\' ∷ []
    else if c == b'\n'
    then b'\\' ∷ b'n' ∷ []
    else if c == b','
    then b'\\' ∷ b',' ∷ []
    else if c == b';'
    then b'\\' ∷ b';' ∷ []
    else c ∷ []

unfoldable pub escape : Bytes → Bytes
escape [] = []
escape (c ∷ s) = escape_byte c ++ escape s

-- SplitUnescaped, with the bytes of the current part and whether a quotation is open. The parts
-- found so far are put in front by the caller.
unfoldable pub split_from : ℕ → Bool → Bytes → Bytes → List Bytes
split_from sep quoted cur [] = cur ∷ []
split_from sep quoted cur (c ∷ []) =
    if c == b'"'
    then (cur ++ c ∷ []) ∷ []
    else if c == sep && not quoted
    then cur ∷ [] ∷ []
    else (cur ++ c ∷ []) ∷ []
split_from sep quoted cur (c ∷ d ∷ s) =
    let after_escape = split_from sep quoted (cur ++ c ∷ d ∷ []) s in
    let after_quote = split_from sep (not quoted) (cur ++ c ∷ []) (d ∷ s) in
    let after_sep = cur ∷ split_from sep quoted [] (d ∷ s) in
    let after_byte = split_from sep quoted (cur ++ c ∷ []) (d ∷ s) in
    if c == b'\\'
    then after_escape
    else if c == b'"'
    then after_quote
    else if c == sep && not quoted
    then after_sep
    else after_byte

unfoldable pub split_unescaped : Bytes → ℕ → List Bytes
unfolding split_from
split_unescaped s sep = split_from sep false [] s

pub split_compound : Bytes → List Bytes
unfolding split_unescaped unescape
split_compound s = map unescape (split_unescaped s b';')

-- The loop of SplitList drops the parts that are empty once unescaped.
pub keep_unescaped : List Bytes → List Bytes
keep_unescaped [] = []
keep_unescaped (p ∷ ps) = elim (unescape p) [
  | [] ↦ keep_unescaped ps
  | c ∷ s ↦ (c ∷ s) ∷ keep_unescaped ps
]

pub split_list : Bytes → List Bytes
unfolding split_unescaped unescape keep_unescaped
split_list [] = []
split_list s = keep_unescaped (split_unescaped s b',')

-- strings.Join
unfoldable pub join : Bytes → List Bytes → Bytes
join sep [] = []
join sep (p ∷ []) = p
join sep (p ∷ q ∷ ps) = p ++ (sep ++ join sep (q ∷ ps))

unfoldable pub join_list : List Bytes → Bytes
unfolding join escape escape_byte
join_list vs = join (b',' ∷ []) (map escape vs)
