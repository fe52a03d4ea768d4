-- ===== src/Events/Feed/Dispatch.antt =====
-- events/dispatcher.go: dispatch and dispatchFeed, over a store and the dispatcher's own maps.
pub mod Recording
pub mod Bounds
pub mod Positions
pub mod Examples
use runtime_go.Prelude.{
  ℕ, Bool, true, false, not, ◌&&◌, ◌||◌, List, [], ◌∷◌, ◌++◌, map, Option, none, some,
  if◌then◌else◌, Bytes, ltb, ◌+◌, ◌-◌, ◌==◌,
}
use runtime_go.Prelude.Outcome.{Result, ok, err}
use runtime_go.ContentLine.Line.{equal}
use runtime_go.Events.Delivery.{
  Webhook, StoreError, not_found, already_exists, conflict, failed, Ack, ack,
}
use runtime_go.Events.Feed.{
  Change, Query, Pages, last_page, page, no_page, Fetched, Feed, CursorOf, FeedStore, Rendering,
  FeedOptions, Dispatcher, time_at, set_time, forget_before, event_id, wants, wanted_by, sort_names,
  compact, payload_of, delivery_for,
}

-- A delivery that exists already is recorded.
pub fault : Result StoreError Ack → Option StoreError
fault (ok _) = none
fault (err already_exists) = none
fault (err e) = some e

pub is_present : Option ℕ → Bool
is_present none = false
is_present (some _) = true

pub seen : Rendering → List (Bytes × ℕ) → Change → Bool
seen r m c = is_present (time_at m (event_id r c))

pub is_at : Option ℕ → ℕ → Bool
is_at none t = false
is_at (some u) t = u == t

-- The changes of a page: the latest time, the changes to record, and what was recorded for nobody.
pub scan :
    Rendering
    → List Webhook
    → List Change
    → ℕ
    → List (Bytes × ℕ)
    → ℕ × (List Change × List (Bytes × ℕ))
scan r hooks [] latest m = (latest, ([], m))
scan r hooks (c ∷ cs) latest m =
    let top = if ltb latest c.time then c.time else latest in
    let (l, (sent, m')) = scan r hooks cs top m in
    let unwanted = scan r hooks cs top (set_time m (event_id r c) c.time) in
    if equal c.type_of [] || seen r m c
    then (l, (sent, m'))
    else if not (wanted_by hooks c)
    then unwanted
    else (l, (c ∷ sent, m'))

pub active : List Webhook → List Webhook
active [] = []
active (w ∷ ws) = let rest = active ws in if w.paused then rest else w ∷ rest

pub active_of : Pages Webhook → Result StoreError (List Webhook)
active_of (last_page ws) = ok (active ws)
active_of (page ws rest) = elim (active_of rest) [
  | err e ↦ err e
  | ok hooks ↦ ok (active ws ++ hooks)
]
active_of (no_page e) = err e

-- The reads of a feed at its cursor.
pub query_at : FeedOptions → Bool → ℕ → ℕ → Query
query_at opts is_settled position up_to =
    if is_settled
    then record { since = position; since_inclusive = false; until_time = up_to }
    else record { since = position - opts.lag; since_inclusive = true; until_time = up_to }

module _ {S : Type 0} (store : FeedStore S) (r : Rendering) (opts : FeedOptions) (now : ℕ) where
  pub record_hooks : List Webhook → Change → Fetched → Bytes → S → Result StoreError Ack × S
  record_hooks [] c f payload s = (ok ack, s)
  record_hooks (w ∷ ws) c f payload s =
      let skip = record_hooks ws c f payload s in
      if wants w c
      then elim (payload_of r opts c f payload) [
        | err e ↦ (err e, s)
        | ok p ↦
            let (o, s') = store.create_delivery (delivery_for r w c p now) s in
            elim (fault o) [ some e ↦ (err e, s') | none ↦ record_hooks ws c f p s' ]
      ]
      else skip

  pub remembered :
      Change → Result StoreError Ack × S → Dispatcher S → Result StoreError Ack × Dispatcher S
  remembered c (err e, s) d = (err e, record d { store = s })
  remembered c (ok _, s) d =
      (ok ack, record d { store = s; recorded = set_time d.recorded (event_id r c) c.time })

  pub record_change :
      List Webhook → Change → Fetched → Dispatcher S → Result StoreError Ack × Dispatcher S
  record_change hooks c f d = remembered c (record_hooks hooks c f [] d.store) d

  pub record_changes :
      List Webhook
      → (Bytes → Option Fetched)
      → List Change
      → Dispatcher S
      → Result StoreError Ack × Dispatcher S
  record_changes hooks records [] d = (ok ack, d)
  record_changes hooks records (c ∷ cs) d =
      let skip = record_changes hooks records cs d in
      elim (records c.name) [
        | none ↦ skip
        | some f ↦
            if not (equal f.etag c.etag)
            then skip
            else (let (o, d') = record_change hooks c f d in
                elim o [ err e ↦ (err e, d') | ok _ ↦ record_changes hooks records cs d' ])
      ]

  pub record_all :
      Feed → List Webhook → List Change → Dispatcher S → Result StoreError Ack × Dispatcher S
  record_all feed hooks [] d = (ok ack, d)
  record_all feed hooks (c ∷ cs) d =
      elim (feed.fetch (compact (sort_names (map (λ x. x.name) (c ∷ cs))))) [
        | err e ↦ (err e, d)
        | ok records ↦ record_changes hooks records (c ∷ cs) d
      ]

  pub read_page :
      Feed → List Webhook → List Change → ℕ → Dispatcher S → Result StoreError ℕ × Dispatcher S
  read_page feed hooks cs latest d =
      let (l, (sent, m)) = scan r hooks cs latest d.recorded in
      let (o, d') = record_all feed hooks sent (record d { recorded = m }) in
      elim o [ err e ↦ (err e, d') | ok _ ↦ (ok l, d') ]

  pub read_pages :
      Feed → List Webhook → Pages Change → ℕ → Dispatcher S → Result StoreError ℕ × Dispatcher S
  read_pages feed hooks (no_page e) latest d = (err e, d)
  read_pages feed hooks (last_page cs) latest d = read_page feed hooks cs latest d
  read_pages feed hooks (page cs rest) latest d =
      let (o, d') = read_page feed hooks cs latest d in
      elim o [ err e ↦ (err e, d') | ok l ↦ read_pages feed hooks rest l d' ]

  pub cursor_created : Bytes → Result StoreError CursorOf × S → Result StoreError CursorOf × S
  cursor_created id (err already_exists, s) = (store.get_cursor id s, s)
  cursor_created id (o, s) = (o, s)

  pub cursor_got : Bytes → Result StoreError CursorOf → S → Result StoreError CursorOf × S
  cursor_got id (err not_found) s =
      cursor_created id (store.create_cursor (record { feed = id; position = now; etag = [] }) s)
  cursor_got id o s = (o, s)

  pub cursor_of : Bytes → S → Result StoreError CursorOf × S
  cursor_of id s = cursor_got id (store.get_cursor id s) s

  -- Another server may have moved the cursor.
  pub moved : Result StoreError Ack × S → Dispatcher S → Result StoreError Ack × Dispatcher S
  moved (err conflict, s) d = (ok ack, record d { store = s })
  moved (o, s) d = (o, record d { store = s })

  pub finish_feed : Feed → ℕ → CursorOf → ℕ → Dispatcher S → Result StoreError Ack × Dispatcher S
  finish_feed feed up_to cur latest d =
      let d₁ = record d { recorded = forget_before (latest - opts.lag) d.recorded } in
      if not (ltb cur.position latest)
      then (
        ok ack,
        (if not (ltb up_to (cur.position + opts.lag))
            then record d₁ { settled = set_time d₁.settled feed.id cur.position }
            else d₁),
      )
      else moved (store.update_cursor (record cur { position = latest }) d₁.store) d₁

  pub dispatch_from :
      Feed → List Webhook → ℕ → CursorOf → Dispatcher S → Result StoreError Ack × Dispatcher S
  dispatch_from feed hooks up_to cur d =
      let q = query_at opts (is_at (time_at d.settled feed.id) cur.position) cur.position up_to in
      let (o, d') = read_pages feed hooks (feed.read q) cur.position d in
      elim o [ err e ↦ (err e, d') | ok latest ↦ finish_feed feed up_to cur latest d' ]

  pub dispatch_feed : Feed → List Webhook → ℕ → Dispatcher S → Result StoreError Ack × Dispatcher S
  dispatch_feed feed hooks up_to d =
      let (o, s) = cursor_of feed.id d.store in
      elim o [
        | err e ↦ (err e, record d { store = s })
        | ok cur ↦ dispatch_from feed hooks up_to cur (record d { store = s })
      ]

  pub dispatch_feeds :
      List Feed → List Webhook → ℕ → Dispatcher S → Result StoreError Ack × Dispatcher S
  dispatch_feeds [] hooks up_to d = (ok ack, d)
  dispatch_feeds (feed ∷ feeds) hooks up_to d =
      let (o, d') = dispatch_feed feed hooks up_to d in
      elim o [ err e ↦ (err e, d') | ok _ ↦ dispatch_feeds feeds hooks up_to d' ]

  pub dispatch : List Feed → Dispatcher S → Result StoreError Ack × Dispatcher S
  dispatch feeds d = elim (active_of (store.list_webhooks d.store)) [
    | err e ↦ (err e, d)
    | ok hooks ↦ dispatch_feeds feeds hooks (now - opts.hook_settle) d
  ]
