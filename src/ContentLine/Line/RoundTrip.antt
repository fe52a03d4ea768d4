-- ===== src/ContentLine/Line/RoundTrip.antt =====
-- Parse reads back what encodeExtension writes.
use mathlib.Core.Path.{subst}
use runtime_go.Prelude.{
  false, ◌≡◌, refl, ◌≢◌, ◌⊎◌, inl, inr, ◌∙◌, ap, List, [], ◌∷◌, ◌++◌, arith, none, some, Bytes,
  append-nil, append_assoc, All, Bool-cases,
}
use runtime_go.Prelude.Outcome.{ok, bind-eq-ok, ok-injective}
use runtime_go.ContentLine.Text.{trim_space}
use runtime_go.ContentLine.Text.Trim.{Ends-append, trim_space_plain}
use runtime_go.ContentLine.Text.Laws.{Lacks, cut_byte_here, cut_byte-Lacks}
use runtime_go.ContentLine.Escape.{split_from, split_unescaped, join_list}
use runtime_go.ContentLine.Escape.Split.{split_from_byte, split_from_sep}
use runtime_go.ContentLine.Line.{
  Params, add_param, find_colon, strip_last, unquote, is_multi_valued, add_nonempty, add_one,
  add_values, split_group, to_upper, add_part, add_parts, parse_parts, parse, escape_param,
  insert_param, sort_params, encode_params, encode_extension, less,
}
use runtime_go.ContentLine.Line.Scan.{
  scan, prepend, find_colon-append, scan-append, scan_bare, split_from_bare, IsBare, quoted,
  escape_param_form, scan_param, split_from_param, split_unescaped_param,
}

-- White space inside quotes is kept.
trim_space-quoted : (v : Bytes) → trim_space (quoted v) ≡ quoted v
trim_space-quoted v =
    trim_space_plain b'"' (v ++ b'"' ∷ []) refl (Ends-append (b'"' ∷ v) (b'"' ∷ []) refl)

strip_last_quote : (v : Bytes) → strip_last (v ++ b'"' ∷ []) ≡ some v
unfolding strip_last
strip_last_quote [] = refl
strip_last_quote (c ∷ []) = refl
strip_last_quote (c ∷ d ∷ v) = rw (strip_last_quote (d ∷ v), strip_last)

unquote-quoted : (v : Bytes) → unquote (quoted v) ≡ some v
unfolding unquote
unquote-quoted v = strip_last_quote v

unquote_bare : (v : Bytes) → Lacks b'"' v → unquote v ≡ none
unfolding unquote
unquote_bare [] h = refl
unquote_bare (c ∷ v) h = ground (arith, h.0)

-- A key that Parse can tell from what stands around it.
pub record IsParamKey (k : Bytes) : Type 0 where
  pub no_backslash : Lacks b'\\' k
  pub no_quote : Lacks b'"' k
  pub no_colon : Lacks b':' k
  pub no_semicolon : Lacks b';' k
  pub no_equals : Lacks b'=' k
  pub trimmed : trim_space k ≡ k

pub record IsParamValue (v : Bytes) : Type 0 where
  pub no_backslash : Lacks b'\\' v
  pub trimmed : trim_space v ≡ v
  pub nonempty : v ≢ []

pub record IsPropertyName (k : Bytes) : Type 0 where
  pub no_backslash : Lacks b'\\' k
  pub no_quote : Lacks b'"' k
  pub no_colon : Lacks b':' k
  pub no_semicolon : Lacks b';' k
  pub no_dot : Lacks b'.' k
  pub nonempty : k ≢ []

add_nonempty_lem : (ps : Params) (k v : Bytes) → v ≢ [] → add_nonempty ps k v ≡ add_param ps k v
unfolding add_nonempty
add_nonempty_lem ps k [] ne = absurd (ne refl)
add_nonempty_lem ps k (c ∷ v) ne = refl

add_one_bare : (ps : Params) (k v : Bytes) → unquote v ≡ none → add_one ps k v ≡ add_nonempty ps k v
unfolding add_one
add_one_bare ps k v h = rw (h, add_one)

add_one_quoted :
    (ps : Params) (k v e : Bytes)
    → unquote e ≡ some v
    → is_multi_valued k ≡ false
    → add_one ps k e ≡ add_nonempty ps k v
unfolding add_one
add_one_quoted ps k v e h single = rw (h, add_one) (rw single)

add_one_param :
    (ps : Params) (k v e : Bytes)
    → ((e ≡ v) × IsBare v) ⊎ (e ≡ quoted v)
    → Lacks b'"' v
    → v ≢ []
    → is_multi_valued k ≡ false
    → add_one ps k e ≡ add_param ps k v
add_one_param ps k v e form no_quote ne single = elim form [
  | inl (same, bare) ↦
      rw same (add_one_bare ps k v (unquote_bare v no_quote) ∙ add_nonempty_lem ps k v ne)
  | inr q ↦
      rw q (add_one_quoted ps k v (quoted v) (unquote-quoted v) single ∙ add_nonempty_lem ps k v ne)
]

trim_space_param :
    (v e : Bytes) → ((e ≡ v) × IsBare v) ⊎ (e ≡ quoted v) → trim_space v ≡ v → trim_space e ≡ e
trim_space_param v e form t = elim form [
  | inl (same, bare) ↦ rw same t
  | inr q ↦ rw q (trim_space-quoted v)
]

module _ (unicode_upper : Bytes → Bytes) where
  -- A parameter whose one value Parse keeps whole.
  pub record Fits (p : Bytes × Bytes) : Type 0 where
    pub key : IsParamKey p.0
    pub value : IsParamValue p.1
    pub single : is_multi_valued (to_upper unicode_upper p.0) ≡ false

  -- The parameters as Parse collects them: each key in upper case.
  abbrev pub collect : Params → List (Bytes × Bytes) → Params
  collect acc [] = acc
  collect acc ((k, v) ∷ ps) = collect (add_param acc (to_upper unicode_upper k) v) ps

  add_part_param :
      (acc : Params) (k v e : Bytes)
      → Fits (k, v)
      → escape_param v ≡ ok e
      → add_part unicode_upper acc (k ++ b'=' ∷ e) ≡ add_param acc (to_upper unicode_upper k) v
  unfolding add_part add_values split_unescaped
  add_part_param acc k v e f h =
      let (no_quote, form) = escape_param_form v e h in
      rw (cut_byte_here b'=' k e f.key.no_equals, add_part)
        (rw (f.key.trimmed, trim_space_param v e form f.value.trimmed)
          (rw (split_unescaped_param v e form no_quote f.value.no_backslash) (
            rw (trim_space_param v e form f.value.trimmed)
              (add_one_param acc _ v e form no_quote f.value.nonempty f.single))))

  -- The text of the parameters: how the two scanners walk over it.
  record Written (ps : List (Bytes × Bytes)) (text : Bytes) : Type 0 where
    parts : List Bytes
    scanned : scan false text ≡ some false
    splits : (cur : Bytes) → split_from b';' false cur text ≡ cur ∷ parts
    collected : (acc : Params) → add_parts unicode_upper acc parts ≡ collect acc ps

  Written-cons :
      (k v e : Bytes) (ps : List (Bytes × Bytes)) (rest : Bytes)
      → Fits (k, v)
      → escape_param v ≡ ok e
      → Written ps rest
      → Written ((k, v) ∷ ps) (b';' ∷ (k ++ (b'=' ∷ (e ++ rest))))
  Written-cons k v e ps rest f h w =
      let (no_quote, form) = escape_param_form v e h in
      record {
        parts = (k ++ b'=' ∷ e) ∷ w.parts;
        scanned =
            scan-append false false k _ (scan_bare k f.key.no_quote f.key.no_colon)
            ∙ scan-append false false e rest (scan_param v e form no_quote)
            ∙ w.scanned;
        splits = λ cur.
            split_from_sep b';' cur _ (omega arith) (omega arith)
            ∙ ap (◌∷◌ cur) (
                split_from_bare b';' [] k _ f.key.no_backslash f.key.no_quote f.key.no_semicolon
                ∙ split_from_byte b';' k false b'=' (e ++ rest) (omega arith) (omega arith) refl
                ∙ split_from_param v e form no_quote f.value.no_backslash (k ++ b'=' ∷ []) rest
                ∙ rw (append_assoc k (b'=' ∷ []) e) (w.splits (k ++ b'=' ∷ e)));
        collected = λ acc.
            unfold add_parts in
            rw (add_part_param acc k v e f h)
              (w.collected (add_param acc (to_upper unicode_upper k) v));
      }

  encode_params-Written :
      (ps : List (Bytes × Bytes)) (text : Bytes)
      → All Fits ps
      → encode_params ps ≡ ok text
      → Written ps text
  unfolding encode_params
  encode_params-Written [] text f h = subst (Written []) (ok-injective h) (record {
    parts = [];
    scanned = refl;
    splits = λ cur. unfold split_from in refl;
    collected = λ acc. unfold add_parts in refl;
  })
  encode_params-Written ((k, v) ∷ ps) text f h =
      let (e, escaped, h') = bind-eq-ok (escape_param v) _ h in
      let (rest, written, h'') = bind-eq-ok (encode_params ps) _ h' in
      subst (Written ((k, v) ∷ ps)) (ok-injective h'')
        (Written-cons k v e ps rest f.0 escaped (encode_params-Written ps rest f.1 written))

  All-insert_param :
      (p : Bytes × Bytes) (ps : List (Bytes × Bytes))
      → Fits p
      → All Fits ps
      → All Fits (insert_param p ps)
  unfolding insert_param
  All-insert_param p [] f fs = (f, tt)
  All-insert_param p (q ∷ ps) f fs = elim (Bool-cases (less q.0 p.0)) [
    | inl later ↦ rw later (fs.0, All-insert_param p ps f fs.1)
    | inr here ↦ rw here (f, fs)
  ]

  All-sort_params : (ps : List (Bytes × Bytes)) → All Fits ps → All Fits (sort_params ps)
  unfolding sort_params
  All-sort_params [] fs = tt
  All-sort_params (p ∷ ps) fs = All-insert_param p (sort_params ps) fs.0 (All-sort_params ps fs.1)

  parse_parts_lem :
      (key : Bytes) (parts : List Bytes) (value : Bytes)
      → IsPropertyName key
      → parse_parts unicode_upper (key ∷ parts) value
        ≡ ok (record {
          group = [];
          name = to_upper unicode_upper key;
          raw_name = key;
          params = add_parts unicode_upper [] parts;
          value = value;
        })
  unfolding parse_parts split_group
  parse_parts_lem [] parts value n = absurd (n.nonempty refl)
  parse_parts_lem (c ∷ key) parts value n = rw (cut_byte-Lacks b'.' (c ∷ key) n.no_dot, split_group)

  find_colon_text :
      (key text value : Bytes)
      → IsPropertyName key
      → scan false text ≡ some false
      → find_colon false (key ++ (text ++ b':' ∷ value)) ≡ some (key ++ (text ++ []), value)
  find_colon_text key text value n h =
      find_colon-append false false key _ (scan_bare key n.no_quote n.no_colon)
      ∙ ap (prepend key) (find_colon-append false false text (b':' ∷ value) h)
      ∙ unfold find_colon in refl

  -- Parse reads a name, parameters that EscapeParam has rendered, and a value behind the colon.
  pub parse_property :
      (key : Bytes) (ps : List (Bytes × Bytes)) (text value : Bytes)
      → IsPropertyName key
      → All Fits ps
      → encode_params ps ≡ ok text
      → parse unicode_upper (key ++ (text ++ (b':' ∷ value)))
        ≡ ok (record {
          group = [];
          name = to_upper unicode_upper key;
          raw_name = key;
          params = collect [] ps;
          value = value;
        })
  unfolding parse split_unescaped
  parse_property key ps text value n fs written =
      let w = encode_params-Written ps text fs written in
      rw (find_colon_text key text value n w.scanned, parse)
        (rw (append-nil text) (
          rw (split_from_bare b';' [] key text n.no_backslash n.no_quote n.no_semicolon)
            (rw (w.splits key) (parse_parts_lem key w.parts value n ∙ rw (w.collected [])))))

  -- Parse reads back a property that encodeExtension wrote: the name as it was written and in upper
  -- case, every parameter whole under its key in upper case, in the order of the sorted keys, even
  -- where it holds colons, semicolons or commas, and the value untouched. For a name without a dot
  -- and parameters that are not lists by RFC, whose texts hold no backslash and begin and end with
  -- no white space.
  pub parse-encode_extension :
      (key : Bytes) (ps : List (Bytes × Bytes)) (values : List Bytes) (raw : Bytes)
      → IsPropertyName key
      → All Fits ps
      → encode_extension key ps values ≡ ok raw
      → parse unicode_upper raw
        ≡ ok (record {
          group = [];
          name = to_upper unicode_upper key;
          raw_name = key;
          params = collect [] (sort_params ps);
          value = join_list values;
        })
  unfolding encode_extension
  parse-encode_extension key ps values raw n fs h =
      let (text, written, h') = bind-eq-ok (encode_params (sort_params ps)) _ h in
      rw (← ok-injective h') (
        parse_property key (sort_params ps) text (join_list values) n (All-sort_params ps fs)
          written)
