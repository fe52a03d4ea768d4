-- ===== src/Events/Delivery/Examples.antt =====
-- Attempts over a store of versions, and the theorems at them.
use Prim.Native.Nat.{ℕ, suc, ◌<◌}
use runtime_go.Prelude.{
  ◌≡◌, ◌≢◌, refl, ap, Bool, true, false, [], ◌∷◌, none, some, Bytes, codes, arith, if◌then◌else◌,
  ◌+◌, All,
}
use runtime_go.Prelude.Outcome.{Result, ok, err}
use runtime_go.ContentLine.Line.{equal}
use runtime_go.ContentLine.Text.{is_ascii_space}
use runtime_go.ContentLine.Escape.{join}
use runtime_go.Icaltime.Decimal.{decimal, decimal_from}
use runtime_go.Events.Sealing.{Crypto, open_secret, open_rest, cut_prefix}
use runtime_go.Events.Signing.Fields.{HasNoSpace}
use runtime_go.ContentLine.Line.Equal.{equal_refl}
use runtime_go.Events.Signing.{
  Signer, verify, sign_at, sign, sign_under, trim_prefix, signed_prefix, timestamp,
}
use runtime_go.Events.Delivery.{
  Webhook, Delivery, Options, Client, Clock, World, Update, Request, StoreError, conflict,
  delivery_pending, attempt, claim, claimed, deliver, post, post_prepared, prepare, sign_each,
  opened, signed, request_of, write, written, conclude, conclude_counted, answer_of,
  signing_secrets, backoff, seconds, six_hours, claim_for, path_next_attempt_time, cannot_send,
}
use runtime_go.Events.Delivery.Attempt.{IsGuarded, attempt-once}
use runtime_go.Events.Delivery.Backoff.{backoff-min, total_wait, total_wait-doubled}
use runtime_go.Events.Delivery.Retries.{IsConcluded, conclude-IsConcluded, retry, retry-ends}
use runtime_go.Events.Delivery.Post.{prepare-Verifies}

abbrev Versions : Type 0
Versions = Bytes → ℕ

abbrev tag : ℕ → Bytes
tag n = n ∷ []

abbrev bump : Bytes → Versions → Versions
bump n s = λ m. if equal m n then suc (s m) else s m

abbrev checked : Bool → Delivery → Versions → Result StoreError Delivery × Versions
checked true d s = (ok (record d { etag = tag (suc (s d.name)) }), bump d.name s)
checked false d s = (err conflict, s)

abbrev versioned : Update Versions
versioned = λ d ps s. checked (equal d.etag (tag (s d.name))) d s

equal-tag : (t : Bytes) (n : ℕ) → equal t (tag n) ≡ true → t ≡ tag n
unfolding equal
equal-tag [] n h = cc
equal-tag (c ∷ []) n h = ap (λ x. x ∷ []) (ground arith)
equal-tag (c ∷ d ∷ t) n h = ground arith

checked-guards :
    (b : Bool) (d d' : Delivery) (s s' : Versions)
    → (b ≡ true → d.etag ≡ tag (s d.name))
    → checked b d s ≡ (ok d', s')
    → (d.etag ≡ tag (s d.name)) × (s d.name < s' d.name)
checked-guards false d d' s s' t e = cc
checked-guards true d d' s s' t e =
    let p : bump d.name s d.name ≡ s' d.name = ap (λ r. r.1 d.name) e in
    let q : bump d.name s d.name ≡ suc (s d.name) = rw (equal_refl d.name) refl in
    (t refl, omega (arith, p, q))

versioned-IsGuarded : IsGuarded versioned (λ s n. s n) tag
versioned-IsGuarded = record {
  etag-injective = λ a b e. cc;
  guarded = λ d d' ps s s' e.
      checked-guards (equal d.etag (tag (s d.name))) d d' s s' (equal-tag d.etag (s d.name)) e;
}

abbrev plain_crypto : Crypto
plain_crypto = record {
  decode64 = λ s. some s;
  encode64 = λ s. s;
  sha256 = λ s. s;
  nonce_size = 1;
  aead_seal = λ k n s. s;
  aead_open = λ k n s. some s;
}

-- A signature as long as the text has letters.
abbrev dashes : Bytes → Bytes
dashes [] = []
dashes (c ∷ s) = b'-' ∷ dashes s

abbrev dash_signer : Signer
dash_signer = record { decode64 = λ s. some s; encode64 = dashes; hmac = λ k s. s }

dashes-HasNoSpace : (s : Bytes) → HasNoSpace (dashes s)
unfolding is_ascii_space
dashes-HasNoSpace [] = tt
dashes-HasNoSpace (c ∷ s) = (refl, dashes-HasNoSpace s)

-- A webhook whose secret was replaced at 1000.
abbrev rotated : Webhook
rotated = record {
  name = codes "webhooks/w";
  uri = codes "https://a.example";
  event_types = [];
  scope = [];
  paused = false;
  secret = codes "new";
  previous_secret = codes "old";
  rotate_time = 1000;
  create_time = 0;
}

abbrev due : Delivery
due = record {
  name = codes "webhooks/w/deliveries/d";
  webhook = codes "webhooks/w";
  event_id = codes "e";
  event_type = codes "t";
  subject = codes "s";
  payload = codes "b";
  state = delivery_pending;
  attempt_count = 6;
  response_code = 0;
  error_message = none;
  next_attempt_time = 5;
  deliver_time = 0;
  create_time = 1;
  etag = tag 3;
}

abbrev eight_attempts : Options
eight_attempts = record { user_agent = []; max_attempts = 8; rotation_grace = 500; sealer = none }

abbrev accepting : Client
accepting = λ r. ok (record { status_code = 204; status = [] })

abbrev at_1400 : Clock
at_1400 = record { start = 1400; posted = 1401; ended = 1402 }

abbrev before : World Versions
before = record { store = λ n. 3; sent = []; attempts = []; lags = [] }

abbrev first_attempt : World Versions
first_attempt =
    (attempt versioned plain_crypto dash_signer eight_attempts accepting at_1400 due (some rotated)
      before).1

first_attempt_sends : first_attempt.sent ≢ before.sent
unfolding attempt claim claimed deliver post post_prepared prepare sign_each opened signed write
    written conclude conclude_counted answer_of signing_secrets open_secret open_rest cut_prefix
    equal sign_at sign sign_under trim_prefix
first_attempt_sends e = cc

-- Another server reads the store between the claim and the request.
abbrev claimed_first : World Versions
claimed_first = record before {
  store =
      (versioned (record due { next_attempt_time = 1400 + claim_for }) (path_next_attempt_time ∷ [])
        (λ n. 3)).1;
}

attempt-once_example : ¬ (
    (attempt versioned plain_crypto dash_signer eight_attempts accepting at_1400 due
      (some rotated)
      claimed_first).1.sent
    ≢ claimed_first.sent)
attempt-once_example =
    attempt-once versioned (λ s n. s n) tag versioned-IsGuarded plain_crypto dash_signer
      eight_attempts eight_attempts accepting accepting at_1400 at_1400 due (some rotated)
      (some rotated) before claimed_first first_attempt_sends (omega arith)

abbrev request : Request
request = record {
  uri = codes "https://a.example";
  body = codes "b";
  agent = [];
  id = codes "e";
  timestamp = codes "0";
  signature = codes "v1,----- v1,-----";
}

request_prepared : prepare plain_crypto dash_signer eight_attempts rotated due 1400 ≡ ok request
unfolding prepare sign_each opened signed signing_secrets open_secret open_rest cut_prefix equal
    sign_at sign sign_under trim_prefix request_of join timestamp decimal decimal_from signed_prefix
request_prepared = refl

prepare-Verifies_example :
    All
      (λ stored.
        (secret : Bytes) × (open_secret plain_crypto none stored ≡ ok secret)
        × (verify dash_signer secret request.id request.timestamp request.body request.signature
            ≡ true))
      (signing_secrets 500 rotated 1400)
prepare-Verifies_example =
    prepare-Verifies plain_crypto dash_signer eight_attempts rotated due 1400 request
      dashes-HasNoSpace request_prepared

backoff-min_example : backoff 12 ≡ six_hours
backoff-min_example = backoff-min 11

-- The waits of a delivery whose webhook allows eight attempts: 3810 seconds.
total_wait-doubled_example : total_wait 7 + seconds 30 ≡ seconds 3840
total_wait-doubled_example = total_wait-doubled 7 (omega arith)

conclude-IsConcluded_example :
    IsConcluded 8 (conclude eight_attempts at_1400 false due (0, some (cannot_send []))).0
conclude-IsConcluded_example =
    conclude-IsConcluded eight_attempts at_1400 false due (0, some (cannot_send [])) (omega arith)
      (omega arith)

retry-ends_example :
    (retry eight_attempts
      ((at_1400, (0, some (cannot_send []))) ∷ (at_1400, (0, some (cannot_send []))) ∷ [])
      due).state
    ≢ delivery_pending
retry-ends_example =
    retry-ends eight_attempts
      ((at_1400, (0, some (cannot_send []))) ∷ (at_1400, (0, some (cannot_send []))) ∷ []) due
      (omega arith) (λ e. omega arith) (omega arith)
