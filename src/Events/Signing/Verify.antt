-- ===== src/Events/Signing/Verify.antt =====
-- A signature is one word of the header, and a receiver finds it there.
use runtime_go.Prelude.{
  ℕ, true, ◌≡◌, refl, sym, List, [], ◌∷◌, ◌++◌, Option, none, some, Bytes, arith, codes,
}
use runtime_go.Prelude.Outcome.{ok, ok-injective}
use runtime_go.ContentLine.Text.{is_ascii_space}
use runtime_go.ContentLine.Line.Equal.{equal_refl}
use runtime_go.Events.Signing.{
  Signer, sign_under, sign, sign_at, any_equal, verify_against, verify, fields_from, timestamp,
}
use runtime_go.Events.Signing.Fields.{HasNoSpace, IsWord}

-- Base64 has no white space in it.
abbrev pub IsSigner : Signer → Type 0
IsSigner signer = (s : Bytes) → HasNoSpace (signer.encode64 s)

sign_under-IsWord :
    (signer : Signer) (k : Option Bytes) (text sig : Bytes)
    → IsSigner signer
    → sign_under signer k text ≡ ok sig
    → IsWord sig
unfolding sign_under
sign_under-IsWord signer none text sig is e = cc
sign_under-IsWord signer (some []) text sig is e = cc
sign_under-IsWord signer (some (c ∷ k)) text sig is e =
    let p : codes "v1," ++ signer.encode64 (signer.hmac (c ∷ k) text) ≡ sig = ok-injective e in
    rw (sym p) (unfold is_ascii_space in (refl, (refl, (refl, is (signer.hmac (c ∷ k) text)))))

pub sign_at-IsWord :
    (signer : Signer) (secret id body sig : Bytes) (at : ℕ)
    → IsSigner signer
    → sign_at signer secret id at body ≡ ok sig
    → IsWord sig
unfolding sign_at sign
sign_at-IsWord signer secret id body sig at is e = sign_under-IsWord signer _ _ sig is e

pub any_equal_here : (s : Bytes) (ss : List Bytes) → any_equal s (s ∷ ss) ≡ true
unfolding any_equal
any_equal_here s ss = rw (equal_refl s)

pub any_equal_later :
    (s t : Bytes) (ss : List Bytes) → any_equal s ss ≡ true → any_equal s (t ∷ ss) ≡ true
unfolding any_equal
any_equal_later s t ss h = ground arith

pub verify-lem :
    (signer : Signer) (secret id body sig signatures : Bytes) (at : ℕ)
    → sign_at signer secret id at body ≡ ok sig
    → any_equal sig (fields_from [] signatures) ≡ true
    → verify signer secret id (timestamp at) body signatures ≡ true
unfolding sign_at verify verify_against
verify-lem signer secret id body sig signatures at e h = rw (e) h
