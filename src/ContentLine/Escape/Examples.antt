-- ===== src/ContentLine/Escape/Examples.antt =====
-- TEXT escaping at concrete values.
use runtime_go.Prelude.{◌≡◌, refl, [], ◌∷◌, map, Bytes, codes}
use runtime_go.ContentLine.Escape.{
  unescape, escape, escape_byte, split_from, split_unescaped, split_compound, keep_unescaped,
  split_list, join, join_list,
}
use runtime_go.ContentLine.Escape.RoundTrip.{
  unescape-escape, split_compound-join, split_list-join_list, split_list-join_list_open_quote,
}

abbrev address : Bytes
address = codes "1, Main; St\\N\nFloor"

escape-address : escape address ≡ codes "1\\, Main\\; St\\\\N\\nFloor"
unfolding escape escape_byte
escape-address = refl

split_list_mixed : split_list (codes "work,,home\\,away") ≡ codes "work" ∷ codes "home,away" ∷ []
unfolding split_list split_unescaped split_from keep_unescaped unescape
split_list_mixed = refl

split_list_quoted : split_list (codes "\"a,b\",c") ≡ codes "\"a,b\"" ∷ codes "c" ∷ []
unfolding split_list split_unescaped split_from keep_unescaped unescape
split_list_quoted = refl

unescape-escape_example : unescape (escape address) ≡ address
unescape-escape_example = unescape-escape address

split_compound-join_example :
    split_compound (join (b';' ∷ []) (map escape (codes "Doe; jr" ∷ [] ∷ address ∷ [])))
    ≡ codes "Doe; jr" ∷ [] ∷ address ∷ []
split_compound-join_example =
    split_compound-join (codes "Doe; jr") ([] ∷ address ∷ []) (refl, (refl, (refl, tt)))

split_list-join_list_example :
    split_list (join_list (address ∷ codes "\"quoted\", twice" ∷ []))
    ≡ address ∷ codes "\"quoted\", twice" ∷ []
split_list-join_list_example =
    split_list-join_list (address ∷ codes "\"quoted\", twice" ∷ []) ((cc), ((cc), tt))
      (refl, (refl, tt))

split_list-join_list_open_quote_example :
    split_list (join_list (codes "5\" pipe" ∷ codes "valve" ∷ [])) ≡ codes "5\" pipe,valve" ∷ []
split_list-join_list_open_quote_example =
    split_list-join_list_open_quote (codes "5\" pipe") (codes "valve") refl
