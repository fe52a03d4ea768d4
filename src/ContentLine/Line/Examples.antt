-- ===== src/ContentLine/Line/Examples.antt =====
-- Content lines at concrete texts.
use runtime_go.Prelude.{◌≡◌, refl, [], ◌∷◌, arith, Bytes, codes, All, List}
use runtime_go.Prelude.Outcome.{ok}
use runtime_go.ContentLine.Text.{trim_space, trim_left, trim_right, cut_byte}
use runtime_go.ContentLine.Escape.{split_unescaped, split_from, join_list}
use runtime_go.ContentLine.Line.{
  parse, find_colon, parse_parts, add_parts, to_upper, split_group, is_multi_valued, add_param,
  encode_extension, sort_params,
}
use runtime_go.ContentLine.Line.RoundTrip.{IsPropertyName, Fits, collect, parse-encode_extension}

-- Any function serves where every text is ASCII.
abbrev no_unicode : Bytes → Bytes
no_unicode s = s

parse_attendee :
    parse no_unicode (codes "item1.Attendee;cn=\"Doe, John\";MEMBER=\"a,b\";work:mailto:x")
    ≡ ok (record {
      group = codes "item1";
      name = codes "ATTENDEE";
      raw_name = codes "Attendee";
      params =
          (codes "CN", codes "Doe, John" ∷ [])
          ∷ (codes "MEMBER", codes "a" ∷ codes "b" ∷ [])
          ∷ (codes "TYPE", codes "work" ∷ [])
          ∷ [];
      value = codes "mailto:x";
    })
unfolding parse find_colon parse_parts add_parts split_group split_unescaped split_from trim_space
    trim_left trim_right cut_byte add_param
parse_attendee = refl

abbrev params : List (Bytes × Bytes)
params = (codes "x-b", codes "12:30") ∷ (codes "x-a", codes "Doe, John") ∷ []

abbrev written : Bytes
written = codes "X-Prop;x-a=\"Doe, John\";x-b=\"12:30\":one\\,two,three"

encode_written :
    encode_extension (codes "X-Prop") params (codes "one,two" ∷ codes "three" ∷ []) ≡ ok written
unfolding encode_extension join_list
encode_written = refl

name : IsPropertyName (codes "X-Prop")
name = record {
  no_backslash = omega arith;
  no_quote = omega arith;
  no_colon = omega arith;
  no_semicolon = omega arith;
  no_dot = omega arith;
  nonempty = λ e. cc;
}

params-Fits : All (Fits no_unicode) params
unfolding trim_space trim_left trim_right to_upper is_multi_valued
params-Fits = (
  record {
    key = record {
      no_backslash = omega arith;
      no_quote = omega arith;
      no_colon = omega arith;
      no_semicolon = omega arith;
      no_equals = omega arith;
      trimmed = refl;
    };
    value = record { no_backslash = omega arith; trimmed = refl; nonempty = λ e. cc };
    single = refl;
  },
  (
    record {
      key = record {
        no_backslash = omega arith;
        no_quote = omega arith;
        no_colon = omega arith;
        no_semicolon = omega arith;
        no_equals = omega arith;
        trimmed = refl;
      };
      value = record { no_backslash = omega arith; trimmed = refl; nonempty = λ e. cc };
      single = refl;
    },
    tt,
  ),
)

parse-encode_extension_example :
    parse no_unicode written
    ≡ ok (record {
      group = [];
      name = to_upper no_unicode (codes "X-Prop");
      raw_name = codes "X-Prop";
      params = collect no_unicode [] (sort_params params);
      value = join_list (codes "one,two" ∷ codes "three" ∷ []);
    })
parse-encode_extension_example =
    parse-encode_extension no_unicode (codes "X-Prop") params (codes "one,two" ∷ codes "three" ∷ [])
      written name params-Fits encode_written
