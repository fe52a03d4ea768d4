-- ===== src/Events/Sealing.antt =====
-- events/sealing.go: signing secrets are stored encrypted, and open under the keys they were sealed with.
pub mod Rotation
pub mod Examples
use runtime_go.Prelude.{
  ℕ, suc, Bool, true, false, not, ◌||◌, List, [], ◌∷◌, ◌++◌, Option, none, some, ◌==◌, ltb,
  if◌then◌else◌, Bytes, codes, length, take, drop,
}
use runtime_go.Prelude.Outcome.{Result, ok, err, ◌>>=◌}
use runtime_go.Prelude.Hex.{hex}
use runtime_go.ContentLine.Text.{cut_byte, trim_space}
use runtime_go.ContentLine.Line.{equal}

-- Packages encoding/base64, crypto/sha256 and, under a key, crypto/cipher's GCM.
pub record Crypto : Type 0 where
  pub decode64 : Bytes → Option Bytes
  pub encode64 : Bytes → Bytes
  pub sha256 : Bytes → Bytes
  pub nonce_size : ℕ
  pub aead_seal : Bytes → Bytes → Bytes → Bytes
  pub aead_open : Bytes → Bytes → Bytes → Option Bytes

pub record SealKey : Type 0 where
  pub id : Bytes
  pub key : Bytes

pub data SealError : Type 0 where
  no_current_key malformed no_sealer does_not_open : SealError
  bad_key : ℕ → SealError
  unknown_key : Bytes → SealError

-- The first key seals and all open. A nil Sealer is none.
abbrev pub Sealer : Type 0
Sealer = Option (List SealKey)

abbrev pub sealed_prefix : Bytes
sealed_prefix = codes "enc:v1:"

-- strings.CutPrefix
unfoldable pub cut_prefix : Bytes → Bytes → Option Bytes
cut_prefix s [] = some s
cut_prefix [] (p ∷ ps) = none
cut_prefix (c ∷ s) (p ∷ ps) = let rest = cut_prefix s ps in if c == p then rest else none

-- The key at index i: the current one is 0.
pub read_key : Crypto → ℕ → Option Bytes → Result SealError SealKey
read_key crypto i none = err (bad_key i)
read_key crypto i (some raw) =
    if length raw == 32
    then ok (record { id = hex (take 4 (crypto.sha256 raw)); key = raw })
    else err (bad_key i)

pub read_keys : Crypto → ℕ → List Bytes → Result SealError (List SealKey)
read_keys crypto i [] = ok []
read_keys crypto i (enc ∷ encs) = do
  k ← read_key crypto i (crypto.decode64 (trim_space enc))
  ks ← read_keys crypto (suc i) encs
  ok (k ∷ ks)

pub new_sealer : Crypto → Bytes → List Bytes → Result SealError Sealer
new_sealer crypto [] [] = ok none
new_sealer crypto [] (_ ∷ _) = err no_current_key
new_sealer crypto (c ∷ current) previous = do
  ks ← read_keys crypto 0 ((c ∷ current) ∷ previous)
  ok (some ks)

-- What Seal writes under a key, with a nonce that was read from the random source.
pub seal_under : Crypto → SealKey → Bytes → Bytes → Bytes
seal_under crypto k nonce secret =
    sealed_prefix
    ++ (k.id ++ (b':' ∷ crypto.encode64 (nonce ++ crypto.aead_seal k.key nonce secret)))

pub seal_keys : Crypto → List SealKey → Bytes → Bytes → Bytes
seal_keys crypto [] nonce secret = secret
seal_keys crypto (k ∷ ks) nonce secret =
    if equal secret [] then secret else seal_under crypto k nonce secret

pub seal : Crypto → Sealer → Bytes → Bytes → Bytes
seal crypto none nonce secret = secret
seal crypto (some ks) nonce secret = seal_keys crypto ks nonce secret

pub opened : Option Bytes → Result SealError Bytes
opened none = err does_not_open
opened (some plain) = ok plain

pub open_box : Crypto → SealKey → Bytes → Result SealError Bytes
open_box crypto k box =
    if ltb (length box) crypto.nonce_size
    then err malformed
    else opened (crypto.aead_open k.key (take crypto.nonce_size box) (drop crypto.nonce_size box))

pub open_with : Crypto → List SealKey → Bytes → Bytes → Result SealError Bytes
open_with crypto [] id box = err (unknown_key id)
open_with crypto (k ∷ ks) id box =
    let rest = open_with crypto ks id box in if equal k.id id then open_box crypto k box else rest

pub open_keys : Crypto → List SealKey → Bytes → Option Bytes → Result SealError Bytes
open_keys crypto ks id none = err malformed
open_keys crypto ks id (some box) = open_with crypto ks id box

pub open_parts : Crypto → Sealer → Option (Bytes × Bytes) → Result SealError Bytes
open_parts crypto s none = err malformed
open_parts crypto none (some (id, enc)) = err no_sealer
open_parts crypto (some ks) (some (id, enc)) = open_keys crypto ks id (crypto.decode64 enc)

unfoldable pub open_rest : Crypto → Sealer → Bytes → Option Bytes → Result SealError Bytes
open_rest crypto s stored none = ok stored
open_rest crypto s stored (some rest) = open_parts crypto s (cut_byte b':' rest)

unfoldable pub open_secret : Crypto → Sealer → Bytes → Result SealError Bytes
open_secret crypto s stored = open_rest crypto s stored (cut_prefix stored sealed_prefix)
