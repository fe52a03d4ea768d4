-- ===== src/Idempotency.antt =====
-- grpc/idempotency/idempotency.go: the interceptor that runs a request_id's handler once.
pub mod Record
pub mod Replay
pub mod Run
pub mod KeyMap
pub mod Claim
pub mod Examples
use Prim.Native.String.{String}
use runtime_go.Prelude.{
  ℕ, ◌+◌, ◌-◌, ◌*◌, ◌/◌, ◌%◌, ◌^◌, Bool, true, false, not, ◌&&◌, ◌||◌, List, [], ◌∷◌, ◌++◌, Option,
  none, some, ◌==◌, ltb, if◌then◌else◌, Bytes, codes,
}
use runtime_go.Prelude.Outcome.{Result, ok, err, ◌>>=◌}
use runtime_go.Prelude.Hex.{hex}
use runtime_go.ContentLine.Line.{equal}

-- What a message's descriptor says of a field, and the field's value.
pub data FieldValue : Type 0 where
  string_value : Bytes → FieldValue
  bool_value : Bool → FieldValue
  other_value : FieldValue

pub record Field : Type 0 where
  pub name : Bytes
  pub is_list : Bool
  pub is_map : Bool
  pub value : FieldValue

-- A message by its fields; a value that is no message by a number.
pub record Message : Type 0 where
  pub type_name : Bytes
  pub fields : List Field

pub data Value : Type 0 where
  proto : Message → Value
  plain : ℕ → Value

pub data State : Type 0 where
  in_flight done : State

-- A create_time of 0 is the zero time.
pub record Key : Type 0 where
  pub name : Bytes
  pub method : Bytes
  pub request_id : Bytes
  pub state : State
  pub response : Bytes
  pub create_time : ℕ

pub data StoreError : Type 0 where
  not_found : StoreError
  failed : Bytes → StoreError

pub data Reason : Type 0 where
  request_in_flight request_abandoned : Reason

-- The statuses that the interceptor makes, and the errors that it passes on.
pub data Error : Type 0 where
  aborted : Reason → Bytes → Error
  claim_failed read_failed reclaim_failed : StoreError → Error
  decode_failed : Bytes → Error
  given : Bytes → Error

pub data Log : Type 0 where
  release_failed settle_failed : Bytes → Bytes → StoreError → Log
  encode_failed : Bytes → Bytes → Bytes → Log

-- A store's success, a nil error.
pub data Ack : Type 0 where
  ack : Ack

-- The interface Store, over the states S of what implements it.
pub record Store (S : Type 0) : Type 0 where
  pub create : Key → S → Result StoreError Ack × S
  pub get : Bytes → S → Result StoreError Key
  pub settle_key : Key → S → Result StoreError Ack × S
  pub delete : Bytes → S → Result StoreError Ack × S

-- Packages anypb, protojson and sha256.
pub record Codec : Type 0 where
  pub pack : Message → Result Bytes (Bytes × Bytes)
  pub marshal : Bytes × Bytes → Result Bytes Bytes
  pub unmarshal : Bytes → Result Bytes (Bytes × Bytes)
  pub unpack : Bytes × Bytes → Result Bytes Message
  pub sha256 : Bytes → Bytes

pub record Options : Type 0 where
  pub domain : Bytes
  pub stale_after : ℕ
  pub create_error : Option (StoreError → Error)

-- The keys, what the handlers change, and the log.
pub record World (S W : Type 0) : Type 0 where
  pub keys : S
  pub data_of : W
  pub log : List Log

abbrev pub Handler : Type 0 → Type 0
Handler W = Value → W → Result Error Value × W

pub field : List Field → Bytes → Option Field
field [] name = none
field (f ∷ fs) name =
    let rest = field fs name in
    if equal f.name name then (if f.is_list || f.is_map then none else some f) else rest

pub string_of : Option Field → Bytes
string_of none = []
string_of (some f) = elim f.value [ string_value s ↦ s | _ ↦ [] ]

pub bool_of : Option Field → Bool
bool_of none = false
bool_of (some f) = elim f.value [ bool_value b ↦ b | _ ↦ false ]

pub string_field : Message → Bytes → Bytes
string_field m name = string_of (field m.fields name)

pub bool_field : Message → Bytes → Bool
bool_field m name = bool_of (field m.fields name)

abbrev pub request_id_field : Bytes
request_id_field = codes "request_id"

abbrev pub validate_only_field : Bytes
validate_only_field = codes "validate_only"

pub key_name : Codec → Bytes → Bytes → Bytes
key_name codec method id = codes "idempotencyKeys/" ++ hex (codec.sha256 (method ++ (0 ∷ id)))

pub encode : Codec → Message → Result Bytes Bytes
encode codec m = do a ← codec.pack m; codec.marshal a

pub decode : Codec → Bytes → Result Bytes Message
decode codec s = do a ← codec.unmarshal s; codec.unpack a

-- The defaults that Interceptor fills in: ten minutes, and an Internal status.
pub stale_limit : Options → ℕ
stale_limit o = if o.stale_after == 0 then 600 * 10 ^ 9 else o.stale_after

pub error_of_claim : Option (StoreError → Error) → StoreError → Error
error_of_claim none e = claim_failed e
error_of_claim (some f) e = f e

pub is_stale : Options → ℕ → Key → Bool
is_stale opts now k = not (k.create_time == 0) && ltb (stale_limit opts) (now - k.create_time)

pub recorded : Result Bytes Message → Result Error Value
recorded (ok m) = ok (proto m)
recorded (err e) = err (decode_failed e)

pub claim_key : Codec → Bytes → Bytes → Key
claim_key codec method id = record {
  name = key_name codec method id;
  method = method;
  request_id = id;
  state = in_flight;
  response = [];
  create_time = 0;
}

-- A request that opts in: it has an id, and is no dry run.
pub opts_in : Message → Bool
opts_in m = not (equal (string_field m request_id_field) [] || bool_field m validate_only_field)

module _ {S W : Type 0} (store : Store S) (codec : Codec) (opts : Options) (now : ℕ) where
  pub reclaimed : Result StoreError Ack × S → World S W → Result Error Value × World S W
  reclaimed (err e, s) w = (err (reclaim_failed e), record w { keys = s })
  reclaimed (ok _, s) w = (err (aborted request_abandoned opts.domain), record w { keys = s })

  pub refuse : Key → Bytes → World S W → Result Error Value × World S W
  refuse k name w =
      if is_stale opts now k
      then reclaimed (store.delete name w.keys) w
      else (err (aborted request_in_flight opts.domain), w)

  pub answer : Key → Bytes → World S W → Result Error Value × World S W
  answer k name w = elim k.state [
    | done ↦ (recorded (decode codec k.response), w)
    | in_flight ↦ refuse k name w
  ]

  pub replay_of :
      Result StoreError Key → Bytes → StoreError → World S W → Result Error Value × World S W
  replay_of (err not_found) name e w = (err (error_of_claim opts.create_error e), w)
  replay_of (err (failed c)) name e w = (err (read_failed (failed c)), w)
  replay_of (ok k) name e w = answer k name w

  pub replay : Bytes → StoreError → World S W → Result Error Value × World S W
  replay name e w = replay_of (store.get name w.keys) name e w

  pub settled : Key → Result StoreError Ack × S → World S W → World S W
  settled k (ok _, s) w = record w { keys = s }
  settled k (err e, s) w = record w {
    keys = s;
    log = settle_failed k.method k.request_id e ∷ w.log;
  }

  pub settle_encoded : Key → Result Bytes Bytes → World S W → World S W
  settle_encoded k (err e) w = record w { log = encode_failed k.method k.request_id e ∷ w.log }
  settle_encoded k (ok s) w =
      let k' = record k { state = done; response = s } in settled k' (store.settle_key k' w.keys) w

  pub settle : Key → Value → World S W → World S W
  settle k (plain _) w = w
  settle k (proto m) w = settle_encoded k (encode codec m) w

  pub released : Key → Result StoreError Ack × S → World S W → World S W
  released k (ok _, s) w = record w { keys = s }
  released k (err e, s) w = record w {
    keys = s;
    log = release_failed k.method k.request_id e ∷ w.log;
  }

  -- What follows the handler.
  pub finish : Key → Result Error Value → World S W → Result Error Value × World S W
  finish k (err e) w = (err e, released k (store.delete k.name w.keys) w)
  finish k (ok v) w = (ok v, settle k v w)

  pub call : Handler W → Value → World S W → Result Error Value × World S W
  call handler req w = let (r, d) = handler req w.data_of in (r, record w { data_of = d })

  pub run_claimed : Handler W → Value → Key → World S W → Result Error Value × World S W
  run_claimed handler req k w = let (r, w') = call handler req w in finish k r w'

  pub claimed :
      Handler W
      → Value
      → Key
      → Result StoreError Ack × S
      → World S W
      → Result Error Value × World S W
  claimed handler req k (err e, s) w = replay k.name e (record w { keys = s })
  claimed handler req k (ok _, s) w = run_claimed handler req k (record w { keys = s })

  pub intercept : Bytes → Handler W → Value → World S W → Result Error Value × World S W
  intercept method handler (plain n) w = call handler (plain n) w
  intercept method handler (proto m) w =
      if opts_in m
      then (let k = claim_key codec method (string_field m request_id_field) in
          claimed handler (proto m) k (store.create k w.keys) w)
      else call handler (proto m) w
