-- ===== src/Events/Feed.antt =====
-- events/dispatcher.go, feed.go and cloudevents.go: the changes that a round reads from a feed and
-- records as deliveries.
pub mod Dispatch
use runtime_go.Prelude.{
  ℕ, Bool, true, false, not, ◌&&◌, ◌||◌, List, [], ◌∷◌, ◌++◌, map, Option, none, some,
  if◌then◌else◌, Bytes, codes, take, ltb, leb, ◌+◌, ◌-◌, ◌==◌,
}
use runtime_go.Prelude.Outcome.{Result, ok, err, ◌>>=◌}
use runtime_go.Prelude.Hex.{hex}
use runtime_go.ContentLine.Line.{equal, less}
use runtime_go.Events.Delivery.{
  Webhook, Delivery, delivery_pending, StoreError, not_found, already_exists, conflict, failed, Ack,
  ack,
}

pub record Change : Type 0 where
  pub name : Bytes
  pub etag : Bytes
  pub type_of : Bytes
  pub time : ℕ
  pub scope : Bytes

-- The bounds of a read; its order and its page size are the same in every one.
pub record Query : Type 0 where
  pub since : ℕ
  pub since_inclusive : Bool
  pub until_time : ℕ

-- The answers to the reads of one loop over page tokens: the last has no next token.
pub data Pages (A : Type 0) : Type 0 where
  last_page : List A → Pages A
  page : List A → Pages A → Pages A
  no_page : StoreError → Pages A

pub record Fetched : Type 0 where
  pub etag : Bytes
  pub rendered : Result StoreError Bytes

pub record Feed : Type 0 where
  pub id : Bytes
  pub read : Query → Pages Change
  pub fetch : List Bytes → Result StoreError (Bytes → Option Fetched)

pub record CursorOf : Type 0 where
  pub feed : Bytes
  pub position : ℕ
  pub etag : Bytes

-- The operations of Store that dispatching uses, over the states of what implements it.
pub record FeedStore (S : Type 0) : Type 0 where
  pub list_webhooks : S → Pages Webhook
  pub get_cursor : Bytes → S → Result StoreError CursorOf
  pub create_cursor : CursorOf → S → Result StoreError CursorOf × S
  pub update_cursor : CursorOf → S → Result StoreError Ack × S
  pub create_delivery : Delivery → S → Result StoreError Ack × S

-- Package crypto/sha256, and the JSON document of CloudEvent: its id, source, type, subject, time
-- and data.
pub record Rendering : Type 0 where
  pub sha256 : Bytes → Bytes
  pub cloud_event : Bytes → Bytes → Bytes → Bytes → ℕ → Bytes → Result StoreError Bytes

pub record FeedOptions : Type 0 where
  pub source : Bytes
  pub lag : ℕ
  pub hook_settle : ℕ

-- The maps recorded and settled hold a key once.
pub record Dispatcher (S : Type 0) : Type 0 where
  pub store : S
  pub recorded : List (Bytes × ℕ)
  pub settled : List (Bytes × ℕ)

pub time_at : List (Bytes × ℕ) → Bytes → Option ℕ
time_at [] k = none
time_at ((j, t) ∷ m) k = let rest = time_at m k in if equal j k then some t else rest

pub set_time : List (Bytes × ℕ) → Bytes → ℕ → List (Bytes × ℕ)
set_time [] k t = (k, t) ∷ []
set_time ((j, u) ∷ m) k t =
    let rest = set_time m k t in if equal j k then (j, t) ∷ m else (j, u) ∷ rest

pub forget_before : ℕ → List (Bytes × ℕ) → List (Bytes × ℕ)
forget_before cutoff [] = []
forget_before cutoff ((j, t) ∷ m) =
    let rest = forget_before cutoff m in if ltb t cutoff then rest else (j, t) ∷ rest

pub digest : Rendering → Bytes → Bytes → Bytes
digest r a b = hex (take 16 (r.sha256 (a ++ (0 ∷ b))))

pub event_id : Rendering → Change → Bytes
event_id r c = digest r c.name c.etag

pub delivery_name : Rendering → Bytes → Bytes → Bytes
delivery_name r webhook id = webhook ++ (codes "/deliveries/d" ++ take 31 (digest r webhook id))

abbrev pub is_empty_list : List Bytes → Bool
is_empty_list [] = true
is_empty_list (_ ∷ _) = false

pub is_one : Bytes → List Bytes → Bool
is_one t [] = false
is_one t (s ∷ ss) = equal s t || is_one t ss

pub wants : Webhook → Change → Bool
wants w c =
    if not (is_empty_list w.event_types) && not (is_one c.type_of w.event_types)
    then false
    else if not (equal w.scope []) && not (equal c.scope w.scope)
    then false
    else not (ltb c.time w.create_time)

pub wanted_by : List Webhook → Change → Bool
wanted_by [] c = false
wanted_by (w ∷ ws) c = wants w c || wanted_by ws c

-- slices.Sort and slices.Compact
pub insert_name : Bytes → List Bytes → List Bytes
insert_name n [] = n ∷ []
insert_name n (m ∷ ms) = let rest = insert_name n ms in if less m n then m ∷ rest else n ∷ m ∷ ms

pub sort_names : List Bytes → List Bytes
sort_names [] = []
sort_names (n ∷ ns) = insert_name n (sort_names ns)

pub compact_from : Bytes → List Bytes → List Bytes
compact_from n [] = n ∷ []
compact_from n (m ∷ ms) =
    let same = compact_from n ms in
    let next = compact_from m ms in if equal n m then same else n ∷ next

pub compact : List Bytes → List Bytes
compact [] = []
compact (n ∷ ns) = compact_from n ns

-- The payload is rendered for the first webhook that wants the change.
pub payload_of : Rendering → FeedOptions → Change → Fetched → Bytes → Result StoreError Bytes
payload_of r opts c f [] = do
  data_of ← f.rendered
  r.cloud_event (event_id r c) opts.source c.type_of c.name c.time data_of
payload_of r opts c f (b ∷ payload) = ok (b ∷ payload)

pub delivery_for : Rendering → Webhook → Change → Bytes → ℕ → Delivery
delivery_for r w c payload now = record {
  name = delivery_name r w.name (event_id r c);
  webhook = w.name;
  event_id = event_id r c;
  event_type = c.type_of;
  subject = c.name;
  payload = payload;
  state = delivery_pending;
  attempt_count = 0;
  response_code = 0;
  error_message = none;
  next_attempt_time = now;
  deliver_time = 0;
  create_time = 0;
  etag = [];
}
