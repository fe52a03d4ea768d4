-- ===== src/Events/Signing.antt =====
-- events/signing.go: a delivery's signatures, and how a receiver checks them.
pub mod Fields
pub mod Verify
use runtime_go.Prelude.{
  ℕ, Bool, true, false, ◌||◌, List, [], ◌∷◌, ◌++◌, Option, none, some, if◌then◌else◌, Bytes, codes,
  ◌/◌, ◌^◌,
}
use runtime_go.Prelude.Outcome.{Result, ok, err}
use runtime_go.ContentLine.Text.{is_ascii_space}
use runtime_go.ContentLine.Line.{equal}
use runtime_go.Icaltime.Decimal.{decimal}
use runtime_go.Events.Sealing.{cut_prefix}

-- Packages encoding/base64 and crypto/hmac with crypto/sha256.
pub record Signer : Type 0 where
  pub decode64 : Bytes → Option Bytes
  pub encode64 : Bytes → Bytes
  pub hmac : Bytes → Bytes → Bytes

pub data SignError : Type 0 where
  unreadable_secret : SignError

abbrev pub secret_prefix : Bytes
secret_prefix = codes "whsec_"

abbrev pub or_text : Option Bytes → Bytes → Bytes
or_text none s = s
or_text (some t) s = t

-- strings.TrimPrefix
unfoldable pub trim_prefix : Bytes → Bytes → Bytes
trim_prefix s p = or_text (cut_prefix s p) s

unfoldable pub sign_under : Signer → Option Bytes → Bytes → Result SignError Bytes
sign_under signer none text = err unreadable_secret
sign_under signer (some []) text = err unreadable_secret
sign_under signer (some (k ∷ key)) text =
    ok (codes "v1," ++ signer.encode64 (signer.hmac (k ∷ key) text))

unfoldable pub sign : Signer → Bytes → Bytes → Bytes → Result SignError Bytes
sign signer secret prefix body =
    sign_under signer (signer.decode64 (trim_prefix secret secret_prefix)) (prefix ++ body)

-- The header webhook-timestamp: Unix seconds, of a time in nanoseconds.
unfoldable pub timestamp : ℕ → Bytes
timestamp at = decimal (at / 10 ^ 9)

unfoldable pub signed_prefix : Bytes → Bytes → Bytes
signed_prefix id ts = id ++ (b'.' ∷ (ts ++ b'.' ∷ []))

unfoldable pub sign_at : Signer → Bytes → Bytes → ℕ → Bytes → Result SignError Bytes
sign_at signer secret id at body = sign signer secret (signed_prefix id (timestamp at)) body

-- strings.Fields of an ASCII text: cur is the field that is open.
pub fields_from : Bytes → Bytes → List Bytes
fields_from [] [] = []
fields_from (b ∷ cur) [] = (b ∷ cur) ∷ []
fields_from cur (c ∷ s) =
    let next = fields_from [] s in
    let more = fields_from (cur ++ c ∷ []) s in
    if is_ascii_space c then (if equal cur [] then next else cur ∷ next) else more

pub any_equal : Bytes → List Bytes → Bool
any_equal want [] = false
any_equal want (got ∷ gots) = equal got want || any_equal want gots

pub verify_against : Result SignError Bytes → Bytes → Bool
verify_against (err e) signatures = false
verify_against (ok want) signatures = any_equal want (fields_from [] signatures)

pub verify : Signer → Bytes → Bytes → Bytes → Bytes → Bytes → Bool
verify signer secret id ts body signatures =
    verify_against (sign signer secret (signed_prefix id ts) body) signatures
