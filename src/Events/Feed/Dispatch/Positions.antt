-- ===== src/Events/Feed/Dispatch/Positions.antt =====
-- A feed's cursor never moves back.
use Prim.Native.Nat.{ℕ, ◌≤◌}
use runtime_go.Prelude.{
  ◌≡◌, refl, sym, ap, ◌∙◌, List, [], ◌∷◌, Option, Bytes, arith, ◌-◌, ltb, ◌⊎◌, inl, inr, Bool-cases,
  ltb→lt,
}
use runtime_go.Prelude.Outcome.{Result, ok, err}
use runtime_go.Events.Delivery.{
  Webhook, Delivery, StoreError, not_found, already_exists, conflict, failed, Ack,
}
use runtime_go.Events.Feed.{
  Change, Pages, last_page, page, no_page, Fetched, Feed, CursorOf, FeedStore, Rendering,
  FeedOptions, Dispatcher, time_at, forget_before,
}
use runtime_go.Events.Feed.Dispatch.{
  is_at, record_hooks, remembered, record_change, record_changes, record_all, read_page, read_pages,
  cursor_created, cursor_got, cursor_of, moved, finish_feed, dispatch_from, dispatch_feed, query_at,
}

-- The positions that a store keeps: a cursor that is read has the feed's position, only
-- UpdateCursor moves one, and it moves it to the cursor's position or not at all.
pub record KeepsPositions {S : Type 0} (store : FeedStore S) (position : S → Bytes → ℕ)
    : Type 0 where
  pub get-ok :
      (id : Bytes) (s : S) (cur : CursorOf)
      → store.get_cursor id s ≡ ok cur
      → (cur.feed ≡ id) × (cur.position ≡ position s id)
  pub create_cursor-ok :
      (c cur : CursorOf) (s s' : S)
      → store.create_cursor c s ≡ (ok cur, s')
      → (cur.feed ≡ c.feed) × (cur.position ≡ position s' c.feed)
  pub create_cursor-position :
      (c : CursorOf) (s : S) (n : Bytes) → position s n ≤ position (store.create_cursor c s).1 n
  pub create_delivery-position :
      (dl : Delivery) (s : S) (n : Bytes) → position (store.create_delivery dl s).1 n ≡ position s n
  pub update_cursor-position :
      (c : CursorOf) (s : S) (n : Bytes)
      → (position (store.update_cursor c s).1 n ≡ position s n)
        ⊎ ((n ≡ c.feed) × (position (store.update_cursor c s).1 n ≡ c.position))

module _ {S : Type 0} (store : FeedStore S) (position : S → Bytes → ℕ) (r : Rendering)
    (opts : FeedOptions) (now : ℕ) where
  record_hooks-position :
      KeepsPositions store position
      → (hooks : List Webhook) (c : Change) (f : Fetched) (payload : Bytes) (s : S) (n : Bytes)
      → position (record_hooks store r opts now hooks c f payload s).1 n ≡ position s n
  unfolding record_hooks
  record_hooks-position k [] c f payload s n = refl
  record_hooks-position k (w ∷ ws) c f payload s n =
      grind (arith, record_hooks-position k ws c f, k.create_delivery-position)

  record_change-position :
      KeepsPositions store position
      → (hooks : List Webhook) (c : Change) (f : Fetched) (d : Dispatcher S) (n : Bytes)
      → position (record_change store r opts now hooks c f d).1.store n ≡ position d.store n
  unfolding record_change remembered
  record_change-position k hooks c f d n =
      ground (arith, record_hooks-position k hooks c f [] d.store n)

  record_changes-position :
      KeepsPositions store position
      → (hooks : List Webhook) (records : Bytes → Option Fetched) (cs : List Change)
        (d : Dispatcher S) (n : Bytes)
      → position (record_changes store r opts now hooks records cs d).1.store n ≡ position d.store n
  unfolding record_changes
  record_changes-position k hooks records [] d n = refl
  record_changes-position k hooks records (c ∷ cs) d n =
      grind (arith, record_changes-position k hooks records cs, record_change-position k hooks c)

  record_all-position :
      KeepsPositions store position
      → (feed : Feed) (hooks : List Webhook) (cs : List Change) (d : Dispatcher S) (n : Bytes)
      → position (record_all store r opts now feed hooks cs d).1.store n ≡ position d.store n
  unfolding record_all
  record_all-position k feed hooks [] d n = refl
  record_all-position k feed hooks (c ∷ cs) d n = grind (arith, record_changes-position k hooks)

  read_page-position :
      KeepsPositions store position
      → (feed : Feed) (hooks : List Webhook) (cs : List Change) (latest : ℕ) (d : Dispatcher S)
        (n : Bytes)
      → position (read_page store r opts now feed hooks cs latest d).1.store n ≡ position d.store n
  unfolding read_page
  read_page-position k feed hooks cs latest d n = grind (arith, record_all-position k feed hooks)

  read_pages-position :
      KeepsPositions store position
      → (feed : Feed) (hooks : List Webhook) (ps : Pages Change) (latest : ℕ) (d : Dispatcher S)
        (n : Bytes)
      → position (read_pages store r opts now feed hooks ps latest d).1.store n ≡ position d.store n
  unfolding read_pages
  read_pages-position k feed hooks (no_page e) latest d n = refl
  read_pages-position k feed hooks (last_page cs) latest d n =
      read_page-position k feed hooks cs latest d n
  read_pages-position k feed hooks (page cs ps) latest d n =
      grind
        (arith, read_page-position k feed hooks cs latest d n, read_pages-position k feed hooks ps)

  moved-store :
      (o : Result StoreError Ack × S) (d : Dispatcher S)
      → (moved store r opts now o d).1.store ≡ o.1
  unfolding moved
  moved-store (ok _, s) d = refl
  moved-store (err not_found, s) d = refl
  moved-store (err already_exists, s) d = refl
  moved-store (err conflict, s) d = refl
  moved-store (err (failed c), s) d = refl

  update_cursor-forward :
      KeepsPositions store position
      → (c : CursorOf) (s : S) (n : Bytes) → position s c.feed ≤ c.position
      → position s n ≤ position (store.update_cursor c s).1 n
  update_cursor-forward k c s n le = elim (k.update_cursor-position c s n) [
    | inl e ↦ omega (arith, e)
    | inr (q, e) ↦ omega (arith, ap (position s) q, e, le)
  ]

  finish_feed-position :
      KeepsPositions store position
      → (feed : Feed) (up_to latest : ℕ) (cur : CursorOf) (d : Dispatcher S) (n : Bytes)
      → cur.position ≡ position d.store cur.feed
      → position d.store n
        ≤ position (finish_feed store r opts now feed up_to cur latest d).1.store n
  unfolding finish_feed
  finish_feed-position k feed up_to latest cur d n p = elim (Bool-cases (ltb cur.position latest)) [
    | inl e ↦
        let c = record cur { position = latest } in
        rw (e) (
          rw
            (moved-store (store.update_cursor c d.store)
              (record d { recorded = forget_before (latest - opts.lag) d.recorded }))
            (update_cursor-forward k c d.store n (omega (arith, p, ltb→lt cur.position latest e))))
    | inr e ↦ rw (e) ground arith
  ]

  -- A cursor that is read or made is its feed's, at the feed's position.
  abbrev Reads : Bytes → S → Result StoreError CursorOf × S → Type 0
  Reads id s o =
      ((n : Bytes) → position s n ≤ position o.1 n)
      × ((cur : CursorOf) → o.0 ≡ ok cur → (cur.feed ≡ id) × (cur.position ≡ position o.1 id))

  create_cursor-forward :
      KeepsPositions store position
      → (c : CursorOf) (s : S) (o : Result StoreError CursorOf × S) → store.create_cursor c s ≡ o
      → (n : Bytes) → position s n ≤ position o.1 n
  create_cursor-forward k c s o p n = rw (sym p) (k.create_cursor-position c s n)

  cursor_created-Reads :
      KeepsPositions store position
      → (id : Bytes) (s : S) (o : Result StoreError CursorOf × S)
      → store.create_cursor (record { feed = id; position = now; etag = [] }) s ≡ o
      → Reads id s (cursor_created store r opts now id o)
  unfolding cursor_created
  cursor_created-Reads k id s (ok cur, s') p = (
    create_cursor-forward k _ s _ p,
    λ c e. k.create_cursor-ok (record { feed = id; position = now; etag = [] }) c s s' (p ∙ cc),
  )
  cursor_created-Reads k id s (err already_exists, s') p =
      (create_cursor-forward k _ s _ p, λ c e. k.get-ok id s' c e)
  cursor_created-Reads k id s (err not_found, s') p = (create_cursor-forward k _ s _ p, λ c e. cc)
  cursor_created-Reads k id s (err conflict, s') p = (create_cursor-forward k _ s _ p, λ c e. cc)
  cursor_created-Reads k id s (err (failed x), s') p = (create_cursor-forward k _ s _ p, λ c e. cc)

  cursor_got-Reads :
      KeepsPositions store position
      → (id : Bytes) (s : S) (o : Result StoreError CursorOf) → store.get_cursor id s ≡ o
      → Reads id s (cursor_got store r opts now id o s)
  unfolding cursor_got
  cursor_got-Reads k id s (ok cur) p = (λ n. omega arith, λ c e. k.get-ok id s c (p ∙ e))
  cursor_got-Reads k id s (err not_found) p = cursor_created-Reads k id s _ refl
  cursor_got-Reads k id s (err already_exists) p = (λ n. omega arith, λ c e. cc)
  cursor_got-Reads k id s (err conflict) p = (λ n. omega arith, λ c e. cc)
  cursor_got-Reads k id s (err (failed x)) p = (λ n. omega arith, λ c e. cc)

  cursor_of-Reads :
      KeepsPositions store position
      → (id : Bytes) (s : S) → Reads id s (cursor_of store r opts now id s)
  unfolding cursor_of
  cursor_of-Reads k id s = cursor_got-Reads k id s _ refl

  dispatch_from-position :
      KeepsPositions store position
      → (feed : Feed) (hooks : List Webhook) (up_to : ℕ) (cur : CursorOf) (d : Dispatcher S)
        (n : Bytes)
      → cur.position ≡ position d.store cur.feed
      → position d.store n
        ≤ position (dispatch_from store r opts now feed hooks up_to cur d).1.store n
  unfolding dispatch_from
  dispatch_from-position k feed hooks up_to cur d n p =
      let q = query_at opts (is_at (time_at d.settled feed.id) cur.position) cur.position up_to in
      let ps = feed.read q in
      let d' = (read_pages store r opts now feed hooks ps cur.position d).1 in
      let same = read_pages-position k feed hooks ps cur.position d in
      grind (
        arith,
        same n,
        same cur.feed,
        p,
        λ (latest : ℕ). finish_feed-position k feed up_to latest cur d' n,
      )

  -- For a store whose positions only UpdateCursor moves, and only to the cursor's: a round of a
  -- feed moves no cursor back, whatever it reads, records and fails to record.
  pub dispatch_feed-position :
      KeepsPositions store position
      → (feed : Feed) (hooks : List Webhook) (up_to : ℕ) (d : Dispatcher S) (n : Bytes)
      → position d.store n ≤ position (dispatch_feed store r opts now feed hooks up_to d).1.store n
  unfolding dispatch_feed
  dispatch_feed-position k feed hooks up_to d n =
      go (cursor_of store r opts now feed.id d.store) (cursor_of-Reads k feed.id d.store)
    where
      go :
          (o : Result StoreError CursorOf × S)
          → Reads feed.id d.store o
          → position d.store n
            ≤ position
                (elim o.0 as (λ x. Result StoreError Ack × Dispatcher S) [
                  | err e ↦ (err e, record d { store = o.1 })
                  | ok cur ↦
                      dispatch_from store r opts now feed hooks up_to cur (record d { store = o.1 })
                ]).1.store
                n
      go (err e, s) (le, f) = le n
      go (ok cur, s) (le, f) =
          let (q, p) = f cur refl in
          omega (
            arith,
            le n,
            dispatch_from-position k feed hooks up_to cur (record d { store = s }) n
                (p ∙ ap (position s) (sym q)),
          )
