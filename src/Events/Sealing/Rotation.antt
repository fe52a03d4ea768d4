-- ===== src/Events/Sealing/Rotation.antt =====
-- A secret opens under any sealer that still has the key it was sealed with.
use runtime_go.Prelude.{
  false, ◌≡◌, refl, sym, ◌∙◌, List, [], ◌∷◌, ◌++◌, some, Bytes, arith, length, take, drop, ltb,
  length-append, le→ltb, ◌⊎◌, inl, inr,
}
use runtime_go.Prelude.Outcome.{ok}
use runtime_go.ContentLine.Text.Laws.{Lacks, cut_byte_here}
use runtime_go.ContentLine.Line.{equal}
use runtime_go.ContentLine.Line.Equal.{equal_refl}
use runtime_go.Events.Sealing.{
  Crypto, SealKey, sealed_prefix, cut_prefix, seal_under, seal_keys, seal, opened, open_box,
  open_with, open_keys, open_parts, open_rest, open_secret,
}

-- Base64 reads back what it wrote, and a box opens under the key and the nonce that sealed it.
pub record IsCrypto (crypto : Crypto) : Type 0 where
  pub decode64-encode64 : (s : Bytes) → crypto.decode64 (crypto.encode64 s) ≡ some s
  pub aead_open-aead_seal :
      (key nonce s : Bytes) → crypto.aead_open key nonce (crypto.aead_seal key nonce s) ≡ some s

-- The key is the first of its id among the keys.
abbrev pub Finds : SealKey → List SealKey → Type 0
Finds k [] = ⊥
Finds k (j ∷ js) = (j ≡ k) ⊎ ((equal j.id k.id ≡ false) × Finds k js)

take-append : (s t : Bytes) → take (length s) (s ++ t) ≡ s
take-append [] t = refl
take-append (c ∷ s) t = rw (take-append s t)

drop-append : (s t : Bytes) → drop (length s) (s ++ t) ≡ t
drop-append [] t = refl
drop-append (c ∷ s) t = drop-append s t

cut_prefix-sealed_prefix : (s : Bytes) → cut_prefix (sealed_prefix ++ s) sealed_prefix ≡ some s
unfolding cut_prefix
cut_prefix-sealed_prefix s = refl

open_box-lem :
    (crypto : Crypto)
    → IsCrypto crypto
    → (k : SealKey) (nonce secret : Bytes) → length nonce ≡ crypto.nonce_size
    → open_box crypto k (nonce ++ crypto.aead_seal k.key nonce secret) ≡ ok secret
unfolding open_box opened
open_box-lem crypto ic k nonce secret n =
    let box = crypto.aead_seal k.key nonce secret in
    let short : ltb (length (nonce ++ box)) (length nonce) ≡ false =
      le→ltb (length (nonce ++ box)) (length nonce) (omega (arith, length-append nonce box)) in
    rw (
      sym n,
      short,
      take-append nonce box,
      drop-append nonce box,
      ic.aead_open-aead_seal k.key nonce secret,
    )

open_with-Finds :
    (crypto : Crypto) (k : SealKey) (ks : List SealKey) (box : Bytes)
    → Finds k ks
    → open_with crypto ks k.id box ≡ open_box crypto k box
unfolding open_with
open_with-Finds crypto k [] box f = absurd f
open_with-Finds crypto k (j ∷ js) box (inl e) = rw (e, equal_refl k.id)
open_with-Finds crypto k (j ∷ js) box (inr (d, f)) = rw (d) (open_with-Finds crypto k js box f)

open_secret-seal_under :
    (crypto : Crypto)
    → IsCrypto crypto
    → (k : SealKey) (ks : List SealKey) (nonce secret : Bytes) → Lacks b':' k.id
    → length nonce ≡ crypto.nonce_size
    → Finds k ks
    → open_secret crypto (some ks) (seal_under crypto k nonce secret) ≡ ok secret
unfolding open_secret seal_under
open_secret-seal_under crypto ic k ks nonce secret lacks n f =
    let box = nonce ++ crypto.aead_seal k.key nonce secret in
    let enc = crypto.encode64 box in
    rw (cut_prefix-sealed_prefix (k.id ++ b':' ∷ enc)) (
      unfold open_rest in
      rw (cut_byte_here b':' k.id enc lacks) (
        unfold open_parts in
        rw (ic.decode64-encode64 box) (
          unfold open_keys in
          open_with-Finds crypto k ks box f ∙ open_box-lem crypto ic k nonce secret n)))

-- What any sealer sealed under its first key opens under every sealer in which that key is the
-- first of its id, so a key that is replaced goes on opening what it sealed. For an id without a
-- colon, a nonce of the cipher's size, and a base64 and a cipher that read back what they wrote.
pub open_secret-seal :
    (crypto : Crypto)
    → IsCrypto crypto
    → (k : SealKey) (older ks : List SealKey) (nonce secret : Bytes) → Lacks b':' k.id
    → length nonce ≡ crypto.nonce_size
    → Finds k ks
    → open_secret crypto (some ks) (seal crypto (some (k ∷ older)) nonce secret) ≡ ok secret
unfolding seal seal_keys
open_secret-seal crypto ic k older ks nonce [] lacks n f =
    unfold open_secret cut_prefix open_rest equal in refl
open_secret-seal crypto ic k older ks nonce (c ∷ secret) lacks n f =
    unfold equal in open_secret-seal_under crypto ic k ks nonce (c ∷ secret) lacks n f
