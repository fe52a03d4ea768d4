-- ===== src/Events/Delivery.antt =====
-- events/store.go and events/dispatcher.go: webhooks, deliveries, and one attempt at a delivery.
pub mod Backoff
pub mod Post
pub mod Attempt
pub mod Retries
pub mod Examples
use Prim.Native.Nat.{ℕ, zero, suc}
use runtime_go.Prelude.{
  Bool, true, false, not, ◌&&◌, ◌||◌, List, [], ◌∷◌, ◌++◌, Option, none, some, if◌then◌else◌, Bytes,
  codes, ◌+◌, ◌-◌, ◌*◌, ◌^◌, ltb, leb, min, ◌==◌, ◌%◌,
}
use runtime_go.Prelude.Outcome.{Result, ok, err, ◌>>=◌}
use runtime_go.ContentLine.Escape.{join}
use runtime_go.ContentLine.Line.{equal}
use runtime_go.Events.Sealing.{Crypto, Sealer, SealError, open_secret}
use runtime_go.Events.Signing.{Signer, SignError, sign_at, timestamp}

-- Times and durations are in nanoseconds; 0 is the zero time.
pub record Webhook : Type 0 where
  pub name : Bytes
  pub uri : Bytes
  pub event_types : List Bytes
  pub scope : Bytes
  pub paused : Bool
  pub secret : Bytes
  pub previous_secret : Bytes
  pub rotate_time : ℕ
  pub create_time : ℕ

pub data DeliveryState : Type 0 where
  delivery_pending delivery_succeeded delivery_failed : DeliveryState

pub data PostError : Type 0 where
  cannot_open : SealError → PostError
  cannot_sign : SignError → PostError
  cannot_send : Bytes → PostError
  answered : Bytes → PostError
  webhook_deleted : PostError

pub record Delivery : Type 0 where
  pub name : Bytes
  pub webhook : Bytes
  pub event_id : Bytes
  pub event_type : Bytes
  pub subject : Bytes
  pub payload : Bytes
  pub state : DeliveryState
  pub attempt_count : ℕ
  pub response_code : ℕ
  pub error_message : Option PostError
  pub next_attempt_time : ℕ
  pub deliver_time : ℕ
  pub create_time : ℕ
  pub etag : Bytes

pub data FieldPath : Type 0 where
  path_state path_attempt_count path_response_code : FieldPath
  path_error_message path_next_attempt_time path_deliver_time : FieldPath

pub data StoreError : Type 0 where
  not_found already_exists conflict : StoreError
  failed : Bytes → StoreError

-- A store's success, a nil error.
pub data Ack : Type 0 where
  ack : Ack

-- Store.UpdateDelivery, over the states of what implements it.
abbrev pub Update : Type 0 → Type 0
Update S = Delivery → List FieldPath → S → Result StoreError Delivery × S

pub record Options : Type 0 where
  pub user_agent : Bytes
  pub max_attempts : ℕ
  pub rotation_grace : ℕ
  pub sealer : Sealer

pub record Request : Type 0 where
  pub uri : Bytes
  pub body : Bytes
  pub agent : Bytes
  pub id : Bytes
  pub timestamp : Bytes
  pub signature : Bytes

pub record Response : Type 0 where
  pub status_code : ℕ
  pub status : Bytes

-- The readings of the clock in one attempt.
pub record Clock : Type 0 where
  pub start : ℕ
  pub posted : ℕ
  pub ended : ℕ

pub data Outcome : Type 0 where
  outcome_succeeded outcome_retrying outcome_failed : Outcome

-- The store, the requests that were sent, and the metrics.
pub record World (S : Type 0) : Type 0 where
  pub store : S
  pub sent : List Request
  pub attempts : List Outcome
  pub lags : List ℕ

abbrev pub seconds : ℕ → ℕ
seconds n = n * 10 ^ 9

abbrev pub six_hours : ℕ
six_hours = seconds 21600

abbrev pub claim_for : ℕ
claim_for = seconds 60

-- The loop of Backoff, with the rounds that are left.
pub backoff_wait : ℕ → ℕ → ℕ
backoff_wait zero wait = wait
backoff_wait (suc n) wait =
    let more = backoff_wait n (wait * 2) in if ltb wait six_hours then more else wait

pub backoff : ℕ → ℕ
backoff n = min (backoff_wait (n - 1) (seconds 30)) six_hours

-- int(AttemptCount) of a bit pattern, with 0 for a negative number, after which Backoff waits no
-- longer.
pub backoff_count : ℕ → ℕ
backoff_count n = if ltb n (2 ^ 31) then n else 0

-- The stored secrets that a delivery is signed under.
pub signing_secrets : ℕ → Webhook → ℕ → List Bytes
signing_secrets grace w now =
    if not (equal w.previous_secret []) && ltb now (w.rotate_time + grace)
    then w.secret ∷ w.previous_secret ∷ []
    else w.secret ∷ []

pub opened : Result SealError Bytes → Result PostError Bytes
opened (ok s) = ok s
opened (err e) = err (cannot_open e)

pub signed : Result SignError Bytes → Result PostError Bytes
signed (ok s) = ok s
signed (err e) = err (cannot_sign e)

pub sign_each : Crypto → Signer → Sealer → Delivery → ℕ → List Bytes → Result PostError (List Bytes)
sign_each crypto signer sealer dl now [] = ok []
sign_each crypto signer sealer dl now (stored ∷ rest) = do
  secret ← opened (open_secret crypto sealer stored)
  sig ← signed (sign_at signer secret dl.event_id now dl.payload)
  sigs ← sign_each crypto signer sealer dl now rest
  ok (sig ∷ sigs)

pub request_of : Options → Webhook → Delivery → ℕ → List Bytes → Request
request_of opts w dl now sigs = record {
  uri = w.uri;
  body = dl.payload;
  agent = opts.user_agent;
  id = dl.event_id;
  timestamp = timestamp now;
  signature = join (b' ' ∷ []) sigs;
}

-- What the client makes of the answer: a status code, and an error outside 2xx.
pub answer_of : Result Bytes Response → ℕ × Option PostError
answer_of (err e) = (0, some (cannot_send e))
answer_of (ok r) =
    if ltb r.status_code 200 || ltb 299 r.status_code
    then (r.status_code, some (answered r.status))
    else (r.status_code, none)

-- The request that post sends, unless the secrets do not let it sign one.
pub prepare : Crypto → Signer → Options → Webhook → Delivery → ℕ → Result PostError Request
prepare crypto signer opts w dl now = do
  sigs ← sign_each crypto signer opts.sealer dl now (signing_secrets opts.rotation_grace w now)
  ok (request_of opts w dl now sigs)

abbrev pub Client : Type 0
Client = Request → Result Bytes Response

module _ {S : Type 0} where
  pub post_prepared : Client → Result PostError Request → World S → (ℕ × Option PostError) × World S
  post_prepared client (err e) w = ((0, some e), w)
  post_prepared client (ok r) w = (answer_of (client r), record w { sent = r ∷ w.sent })

  pub post :
      Crypto
      → Signer
      → Options
      → Client
      → ℕ
      → Webhook
      → Delivery
      → World S
      → (ℕ × Option PostError) × World S
  post crypto signer opts client now hook dl w =
      post_prepared client (prepare crypto signer opts hook dl now) w

-- int32(AttemptCount) + 1, as a bit pattern.
pub next_count : ℕ → ℕ
next_count n = (n + 1) % 2 ^ 32

-- int(AttemptCount) >= MaxAttempts, of a bit pattern.
pub is_spent : ℕ → ℕ → Bool
is_spent max n = leb max n && ltb n (2 ^ 31)

-- The delivery that an attempt writes. The webhook was deleted, or is there.
pub conclude_failed : Options → Clock → Bool → Delivery → PostError → Delivery × Outcome
conclude_failed opts clock deleted dl e =
    if deleted || is_spent opts.max_attempts dl.attempt_count
    then (
      record dl { state = delivery_failed; error_message = some e; next_attempt_time = 0 },
      outcome_failed,
    )
    else (
      record dl {
        state = delivery_pending;
        error_message = some e;
        next_attempt_time = clock.ended + backoff (backoff_count dl.attempt_count);
      },
      outcome_retrying,
    )

pub conclude_counted : Options → Clock → Bool → Delivery → Option PostError → Delivery × Outcome
conclude_counted opts clock deleted dl none = (
  record dl {
    state = delivery_succeeded;
    error_message = none;
    next_attempt_time = 0;
    deliver_time = clock.ended;
  },
  outcome_succeeded,
)
conclude_counted opts clock deleted dl (some e) = conclude_failed opts clock deleted dl e

pub conclude : Options → Clock → Bool → Delivery → ℕ × Option PostError → Delivery × Outcome
conclude opts clock deleted dl (code, e) =
    conclude_counted opts clock deleted
      (record dl { attempt_count = next_count dl.attempt_count; response_code = code }) e

pub lag_of : Delivery → Outcome → List ℕ
lag_of dl outcome_succeeded =
    if dl.create_time == 0 then [] else (dl.deliver_time - dl.create_time) ∷ []
lag_of dl _ = []

pub paths_of : Outcome → List FieldPath
paths_of outcome_succeeded =
    path_state ∷ path_attempt_count ∷ path_response_code ∷ path_error_message
    ∷ path_next_attempt_time ∷ path_deliver_time ∷ []
paths_of _ =
    path_state ∷ path_attempt_count ∷ path_response_code ∷ path_error_message
    ∷ path_next_attempt_time ∷ []

module _ {S : Type 0} (update : Update S) where
  pub written : World S → Result StoreError Delivery × S → Result StoreError Ack × World S
  written w (ok _, s) = (ok ack, record w { store = s })
  written w (err e, s) = (err e, record w { store = s })

  pub write : Delivery × Outcome → World S → Result StoreError Ack × World S
  write (dl, o) w =
      written (record w { attempts = o ∷ w.attempts; lags = lag_of dl o ++ w.lags })
        (update dl (paths_of o) w.store)

  module _ (crypto : Crypto) (signer : Signer) (opts : Options) (client : Client)
      (clock : Clock) where
    -- A claimed delivery, at its webhook or without one.
    pub deliver : Delivery → Option Webhook → World S → Result StoreError Ack × World S
    deliver dl none w = write (conclude opts clock true dl (0, some webhook_deleted)) w
    deliver dl (some hook) w =
        let (answer, w') = post crypto signer opts client clock.posted hook dl w in
        write (conclude opts clock false dl answer) w'

    pub claimed :
        Result StoreError Delivery × S → Option Webhook → World S → Result StoreError Ack × World S
    claimed (ok dl, s) hook w = deliver dl hook (record w { store = s })
    claimed (err conflict, s) hook w = (ok ack, record w { store = s })
    claimed (err e, s) hook w = (err e, record w { store = s })

    pub claim : Delivery → Option Webhook → World S → Result StoreError Ack × World S
    claim dl hook w =
        claimed
          (update (record dl { next_attempt_time = clock.start + claim_for })
            (path_next_attempt_time ∷ []) w.store)
          hook w

    pub attempt : Delivery → Option Webhook → World S → Result StoreError Ack × World S
    attempt dl none w = claim dl none w
    attempt dl (some hook) w = if hook.paused then (ok ack, w) else claim dl (some hook) w
