-- ===== src/Events/Sealing/Examples.antt =====
-- A secret sealed under a key that was replaced since.
use runtime_go.Prelude.{◌≡◌, refl, [], ◌∷◌, some, codes, inl, inr}
use runtime_go.Prelude.Outcome.{ok}
use runtime_go.ContentLine.Line.{equal}
use runtime_go.Events.Sealing.{Crypto, SealKey, seal, open_secret}
use runtime_go.Events.Sealing.Rotation.{IsCrypto, open_secret-seal}

abbrev plain_crypto : Crypto
plain_crypto = record {
  decode64 = λ s. some s;
  encode64 = λ s. s;
  sha256 = λ s. s;
  nonce_size = 2;
  aead_seal = λ k n s. s;
  aead_open = λ k n s. some s;
}

plain_crypto-IsCrypto : IsCrypto plain_crypto
plain_crypto-IsCrypto = record {
  decode64-encode64 = λ s. refl;
  aead_open-aead_seal = λ k n s. refl;
}

abbrev old_key : SealKey
old_key = record { id = codes "0a"; key = codes "k1" }

abbrev new_key : SealKey
new_key = record { id = codes "0b"; key = codes "k2" }

open_secret-seal_example :
    open_secret plain_crypto
      (some (new_key ∷ old_key ∷ []))
      (seal plain_crypto (some (old_key ∷ [])) (codes "nn") (codes "whsec_x"))
    ≡ ok (codes "whsec_x")
unfolding equal
open_secret-seal_example =
    open_secret-seal plain_crypto plain_crypto-IsCrypto old_key [] (new_key ∷ old_key ∷ [])
      (codes "nn") (codes "whsec_x") (λ e. cc, (λ e. cc, tt)) refl (inr (refl, inl refl))
