-- ===== src/ContentLine/Line/Scan.antt =====
-- How the scanners of a content line walk over its parts: the search for the colon and the splits.
use runtime_go.Prelude.{
  ℕ, Bool, true, false, not, ◌&&◌, ◌≡◌, refl, sym, ◌⊎◌, inl, inr, ◌∙◌, ap, [], ◌∷◌, ◌++◌, arith,
  Option, none, some, ◌==◌, if◌then◌else◌, Bytes, append-nil, append_assoc,
}
use runtime_go.ContentLine.Line.{find_colon, escape_param, contains_any}
use runtime_go.Prelude.Outcome.{ok}
use runtime_go.ContentLine.Text.Laws.{Lacks}
use runtime_go.ContentLine.Escape.{split_from}
use runtime_go.ContentLine.Escape.Split.{split_from_byte, split_from_quote}

-- The flag behind a text that holds no colon outside quotes.
abbrev pub scan : Bool → Bytes → Option Bool
scan q [] = some q
scan q (c ∷ s) = if c == b':' && not q then none else scan (if c == b'"' then not q else q) s

abbrev pub prepend : Bytes → Option (Bytes × Bytes) → Option (Bytes × Bytes)
prepend t none = none
prepend t (some (before, after)) = some (t ++ before, after)

pub find_colon-append :
    (q q' : Bool) (t s : Bytes)
    → scan q t ≡ some q'
    → find_colon q (t ++ s) ≡ prepend t (find_colon q' s)
unfolding find_colon
find_colon-append q q' [] s h = ground arith
find_colon-append q q' (c ∷ t) s h =
    ground (arith, find_colon-append (if c == b'"' then not q else q) q' t s)

pub scan-append : (q q' : Bool) (t s : Bytes) → scan q t ≡ some q' → scan q (t ++ s) ≡ scan q' s
scan-append q q' [] s h = ground arith
scan-append q q' (c ∷ t) s h = ground (arith, scan-append (if c == b'"' then not q else q) q' t s)

pub scan_quoted : (t : Bytes) → Lacks b'"' t → scan true t ≡ some true
scan_quoted [] h = refl
scan_quoted (c ∷ t) h = ground (arith, scan_quoted t h.1)

pub scan_bare : (t : Bytes) → Lacks b'"' t → Lacks b':' t → scan false t ≡ some false
scan_bare [] h k = refl
scan_bare (c ∷ t) h k = ground (arith, scan_bare t h.1 k.1)

module _ (sep : ℕ) where
  pub split_from_quoted :
      (cur t s : Bytes)
      → Lacks b'\\' t
      → Lacks b'"' t
      → split_from sep true cur (t ++ s) ≡ split_from sep true (cur ++ t) s
  split_from_quoted cur [] s h k = rw append-nil
  split_from_quoted cur (c ∷ t) s h k =
      split_from_byte sep cur true c (t ++ s) h.0 k.0 (ground arith)
      ∙ split_from_quoted (cur ++ c ∷ []) t s h.1 k.1
      ∙ rw append_assoc

  pub split_from_bare :
      (cur t s : Bytes)
      → Lacks b'\\' t
      → Lacks b'"' t
      → Lacks sep t
      → split_from sep false cur (t ++ s) ≡ split_from sep false (cur ++ t) s
  split_from_bare cur [] s h k l = rw append-nil
  split_from_bare cur (c ∷ t) s h k l =
      split_from_byte sep cur false c (t ++ s) h.0 k.0 (ground (arith, l.0))
      ∙ split_from_bare (cur ++ c ∷ []) t s h.1 k.1 l.1
      ∙ rw append_assoc

-- What EscapeParam accepts holds none of these bytes.
Lacks-of_contains_any :
    (a b c : ℕ) (s : Bytes)
    → contains_any (a ∷ b ∷ c ∷ []) s ≡ false
    → Lacks a s × Lacks b s × Lacks c s
unfolding contains_any
Lacks-of_contains_any a b c [] h = (tt, tt, tt)
Lacks-of_contains_any a b c (x ∷ s) h = ground (arith, Lacks-of_contains_any a b c s)

-- A parameter value that EscapeParam lets through bare.
pub record IsBare (v : Bytes) : Type 0 where
  pub no_colon : Lacks b':' v
  pub no_semicolon : Lacks b';' v
  pub no_comma : Lacks b',' v

abbrev pub quoted : Bytes → Bytes
quoted v = b'"' ∷ (v ++ b'"' ∷ [])

-- EscapeParam succeeds only on a value without a quote, and gives the value bare or in quotes.
pub escape_param_form :
    (v e : Bytes) → escape_param v ≡ ok e → Lacks b'"' v × (((e ≡ v) × IsBare v) ⊎ (e ≡ quoted v))
unfolding escape_param
escape_param_form v e h =
    ground (arith, Lacks-of_contains_any b'"' b'\r' b'\n' v, Lacks-of_contains_any b':' b';' b',' v)

module _ (v e : Bytes) (form : ((e ≡ v) × IsBare v) ⊎ (e ≡ quoted v))
    (no_quote : Lacks b'"' v) where
  pub scan_param : scan false e ≡ some false
  scan_param = elim form [
    | inl (same, bare) ↦ rw same (scan_bare v no_quote bare.no_colon)
    | inr q ↦ rw q (scan-append true true v (b'"' ∷ []) (scan_quoted v no_quote))
  ]

  module _ (no_backslash : Lacks b'\\' v) where
    split_from_quotes :
        (sep : ℕ) (cur s : Bytes)
        → split_from sep false cur (quoted v ++ s) ≡ split_from sep false (cur ++ quoted v) s
    split_from_quotes sep cur s =
        split_from_quote sep cur false ((v ++ b'"' ∷ []) ++ s)
        ∙ rw (append_assoc v (b'"' ∷ []) s)
            (split_from_quoted sep (cur ++ b'"' ∷ []) v (b'"' ∷ s) no_backslash no_quote)
        ∙ split_from_quote sep ((cur ++ b'"' ∷ []) ++ v) true s
        ∙ rw (append_assoc, append_assoc)

    pub split_from_param :
        (cur s : Bytes) → split_from b';' false cur (e ++ s) ≡ split_from b';' false (cur ++ e) s
    split_from_param cur s = elim form [
      | inl (same, bare) ↦
          rw same (split_from_bare b';' cur v s no_backslash no_quote bare.no_semicolon)
      | inr q ↦ rw q (split_from_quotes b';' cur s)
    ]

    pub split_unescaped_param : split_from b',' false [] e ≡ e ∷ []
    split_unescaped_param = elim form [
      | inl (same, bare) ↦ rw same (
          ap (split_from b',' false []) (sym (append-nil v))
          ∙ split_from_bare b',' [] v [] no_backslash no_quote bare.no_comma
          ∙ unfold split_from in refl)
      | inr q ↦ rw q (
          ap (split_from b',' false []) (sym (append-nil (quoted v)))
          ∙ split_from_quotes b',' [] []
          ∙ unfold split_from in refl)
    ]
