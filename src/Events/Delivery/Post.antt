-- ===== src/Events/Delivery/Post.antt =====
-- The signature header of a request that post sends.
use Prim.Native.Nat.{ℕ}
use runtime_go.Prelude.{true, ◌≡◌, sym, ap, List, [], ◌∷◌, Bytes, All, All-map}
use mathlib.Core.Path.{subst}
use runtime_go.Prelude.Outcome.{Result, ok, err, bind-eq-ok, ok-injective}
use runtime_go.ContentLine.Escape.{join}
use runtime_go.Events.Sealing.{Crypto, Sealer, SealError, open_secret}
use runtime_go.Events.Signing.{Signer, SignError, sign_at, any_equal, verify}
use runtime_go.Events.Signing.Fields.{IsWord, fields_from-join}
use runtime_go.Events.Signing.Verify.{
  IsSigner, sign_at-IsWord, any_equal_here, any_equal_later, verify-lem,
}
use runtime_go.Events.Delivery.{
  Webhook, Delivery, Options, Request, signing_secrets, opened, signed, sign_each, request_of,
  prepare,
}

opened-ok : (r : Result SealError Bytes) (s : Bytes) → opened r ≡ ok s → r ≡ ok s
unfolding opened
opened-ok (ok x) s e = ap ok (ok-injective e)
opened-ok (err x) s e = cc

signed-ok : (r : Result SignError Bytes) (s : Bytes) → signed r ≡ ok s → r ≡ ok s
unfolding signed
signed-ok (ok x) s e = ap ok (ok-injective e)
signed-ok (err x) s e = cc

module _ (crypto : Crypto) (signer : Signer) (sealer : Sealer) (dl : Delivery) (now : ℕ) where
  -- The secret that is stored so opens, and signs one of the words.
  abbrev Signs : List Bytes → Bytes → Type 0
  Signs sigs stored =
      (secret : Bytes) × (sig : Bytes) × (open_secret crypto sealer stored ≡ ok secret)
      × (sign_at signer secret dl.event_id now dl.payload ≡ ok sig)
      × (any_equal sig sigs ≡ true)

  Signs-later :
      (sig : Bytes) (sigs : List Bytes) (stored : Bytes)
      → Signs sigs stored
      → Signs (sig ∷ sigs) stored
  Signs-later sig sigs stored (secret, s, o, e, m) = (secret, s, o, e, any_equal_later s sig sigs m)

  Signs-All :
      (secrets : List Bytes) (sig : Bytes) (sigs : List Bytes)
      → All (Signs sigs) secrets
      → All (Signs (sig ∷ sigs)) secrets
  Signs-All [] sig sigs h = tt
  Signs-All (stored ∷ rest) sig sigs h =
      (Signs-later sig sigs stored h.0, Signs-All rest sig sigs h.1)

  sign_each-Signs :
      IsSigner signer
      → (secrets sigs : List Bytes) → sign_each crypto signer sealer dl now secrets ≡ ok sigs
      → All (Signs sigs) secrets × All IsWord sigs
  unfolding sign_each
  sign_each-Signs is [] sigs e = let p : [] ≡ sigs = ok-injective e in rw (sym p) (tt, tt)
  sign_each-Signs is (stored ∷ rest) sigs e =
      let (secret, o, e₁) = bind-eq-ok (opened (open_secret crypto sealer stored)) _ e in
      let (sig, s, e₂) =
        bind-eq-ok (signed (sign_at signer secret dl.event_id now dl.payload)) _ e₁ in
      let (more, m, e₃) = bind-eq-ok (sign_each crypto signer sealer dl now rest) _ e₂ in
      let (signs, words) = sign_each-Signs is rest more m in
      let s' = signed-ok _ sig s in
      let p : sig ∷ more ≡ sigs = ok-injective e₃ in
      subst (λ x. All (Signs x) (stored ∷ rest) × All IsWord x) p
        (
          (
            (secret, sig, opened-ok _ secret o, s', any_equal_here sig more),
            Signs-All rest sig more signs,
          ),
          (sign_at-IsWord signer secret dl.event_id dl.payload sig now is s', words),
        )

-- Where a request is made ready, every secret that it is signed under, the current one and,
-- within the grace, the one it replaced, opens, and with it a receiver verifies the request's
-- signature, id, timestamp and body. For a base64 without white space.
pub prepare-Verifies :
    (crypto : Crypto) (signer : Signer) (opts : Options) (hook : Webhook) (dl : Delivery) (now : ℕ)
    → (r : Request) → IsSigner signer
    → prepare crypto signer opts hook dl now ≡ ok r
    → All
        (λ stored.
          (secret : Bytes) × (open_secret crypto opts.sealer stored ≡ ok secret)
          × (verify signer secret r.id r.timestamp r.body r.signature ≡ true))
        (signing_secrets opts.rotation_grace hook now)
unfolding prepare request_of
prepare-Verifies crypto signer opts hook dl now r is e =
    let secrets = signing_secrets opts.rotation_grace hook now in
    let (sigs, s, e₁) = bind-eq-ok (sign_each crypto signer opts.sealer dl now secrets) _ e in
    let (signs, words) = sign_each-Signs crypto signer opts.sealer dl now is secrets sigs s in
    let p : request_of opts hook dl now sigs ≡ r = ok-injective e₁ in
    rw (sym p) (
      All-map
        (λ stored (secret, sig, o, g, m). (
          secret,
          o,
          verify-lem signer secret dl.event_id dl.payload sig (join (b' ' ∷ []) sigs) now g
              (rw (fields_from-join sigs words) m),
        ))
        secrets signs)
