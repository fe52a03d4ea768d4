-- ===== src/Events/Feed/Dispatch/Examples.antt =====
-- A round over one feed, and the theorems at it.
use Prim.Native.Nat.{ℕ, ◌≤◌}
use runtime_go.Prelude.{
  ◌≡◌, refl, Bool, true, false, ◌||◌, [], ◌∷◌, some, Bytes, codes, arith, if◌then◌else◌, All, inl,
  inr, Bool-cases,
}
use runtime_go.Prelude.Outcome.{ok, err}
use runtime_go.ContentLine.Line.{equal}
use runtime_go.ContentLine.Line.Equal.{equal_refl, equal_sound}
use runtime_go.Events.Delivery.{Webhook, already_exists, ack}
use runtime_go.Events.Feed.{
  Change, last_page, page, Fetched, Feed, FeedStore, Rendering, FeedOptions, Dispatcher, wants,
  delivery_name, event_id, forget_before, is_one, time_at, payload_of, wanted_by,
}
use runtime_go.Events.Feed.Dispatch.{
  dispatch_feed, read_pages, read_page, record_change, record_hooks, remembered, scan, seen,
  is_present, fault, record_all, record_changes,
}
use runtime_go.Events.Feed.Dispatch.Bounds.{AllPages, read_pages-Bounds}
use runtime_go.Events.Feed.Dispatch.Positions.{KeepsPositions, dispatch_feed-position}
use runtime_go.Events.Feed.Dispatch.Recording.{KeepsDeliveries, record_change-Recorded}

-- Positions by feed, and whether there is a delivery of a name.
abbrev Tables : Type 0
Tables = (Bytes → ℕ) × (Bytes → Bool)

abbrev tables : FeedStore Tables
tables = record {
  list_webhooks = λ s. last_page [];
  get_cursor = λ id s. ok (record { feed = id; position = s.0 id; etag = [] });
  create_cursor = λ c s. (err already_exists, s);
  update_cursor = λ c s. (ok ack, (λ n. if equal n c.feed then c.position else s.0 n, s.1));
  create_delivery = λ dl s. (ok ack, (s.0, λ n. equal n dl.name || s.1 n));
}

tables-KeepsPositions : KeepsPositions tables (λ s n. s.0 n)
tables-KeepsPositions = record {
  get-ok = λ id s cur e. (cc, cc);
  create_cursor-ok = λ c cur s s' e. cc;
  create_cursor-position = λ c s n. omega arith;
  create_delivery-position = λ dl s n. refl;
  update_cursor-position = λ c s n. elim (Bool-cases (equal n c.feed)) [
    | inl e ↦ inr (equal_sound n c.feed e, rw (e))
    | inr e ↦ inl (rw (e))
  ];
}

tables-KeepsDeliveries : KeepsDeliveries tables (λ s n. s.1 n)
tables-KeepsDeliveries = record {
  created = λ dl s e. rw (equal_refl dl.name);
  kept = λ dl s n h. ground arith;
}

abbrev plain : Rendering
plain = record { sha256 = λ s. s; cloud_event = λ id source type_of name time data_of. ok data_of }

abbrev second_lag : FeedOptions
second_lag = record { source = []; lag = 10; hook_settle = 1 }

abbrev hook : Webhook
hook = record {
  name = codes "w";
  uri = [];
  event_types = [];
  scope = [];
  paused = false;
  secret = [];
  previous_secret = [];
  rotate_time = 0;
  create_time = 0;
}

abbrev paid : Change
paid = record {
  name = codes "orders/1";
  etag = codes "a";
  type_of = codes "paid";
  time = 40;
  scope = [];
}

abbrev silent : Change
silent = record { name = codes "orders/2"; etag = codes "b"; type_of = []; time = 50; scope = [] }

abbrev order : Fetched
order = record { etag = codes "a"; rendered = ok (codes "x") }

abbrev orders : Feed
orders = record {
  id = codes "orders";
  read = λ q. page (paid ∷ []) (last_page (silent ∷ []));
  fetch = λ names. ok (λ n. some order);
}

abbrev started : Dispatcher Tables
started = record { store = (λ n. 30, λ n. false); recorded = []; settled = [] }

dispatch_feed-position_example :
    30
    ≤ (dispatch_feed tables plain second_lag 60 orders (hook ∷ []) 59 started).1.store.0
        (codes "orders")
dispatch_feed-position_example =
    dispatch_feed-position tables (λ s n. s.0 n) plain second_lag 60 tables-KeepsPositions orders
      (hook ∷ []) 59 started (codes "orders")

recorded_order :
    (record_change tables plain second_lag 60 (hook ∷ []) paid order started).0 ≡ ok ack
unfolding record_change record_hooks remembered wants payload_of fault equal is_one
recorded_order = refl

record_change-Recorded_example :
    All
      (λ w.
        wants w paid ≡ true
        → (record_change tables plain second_lag 60 (hook ∷ []) paid order started).1.store.1
            (delivery_name plain w.name (event_id plain paid))
          ≡ true)
      (hook ∷ [])
    × (seen plain
          (record_change tables plain second_lag 60 (hook ∷ []) paid order started).1.recorded
          paid
        ≡ true)
    × (seen plain
          (forget_before 40
            (record_change tables plain second_lag 60 (hook ∷ []) paid order started).1.recorded)
          paid
        ≡ true)
record_change-Recorded_example =
    record_change-Recorded tables (λ s n. s.1 n) plain second_lag 60 tables-KeepsDeliveries
      (hook ∷ []) paid order started 40 recorded_order (omega arith)

abbrev after_reads : Dispatcher Tables
after_reads =
    (read_pages tables plain second_lag 60 orders (hook ∷ [])
      (page (paid ∷ []) (last_page (silent ∷ []))) 30 started).1

reads_order :
    read_pages tables plain second_lag 60 orders
      (hook ∷ [])
      (page (paid ∷ []) (last_page (silent ∷ [])))
      30
      started
    ≡ (ok 50, after_reads)
unfolding read_pages read_page scan seen is_present time_at record_all record_changes record_change
    record_hooks remembered wants payload_of fault equal is_one wanted_by
reads_order = refl

read_pages-Bounds_example :
    (30 ≤ 50) × AllPages (λ c. c.time ≤ 50) (page (paid ∷ []) (last_page (silent ∷ [])))
read_pages-Bounds_example =
    read_pages-Bounds tables plain second_lag 60 orders (hook ∷ [])
      (page (paid ∷ []) (last_page (silent ∷ []))) 30 50 started after_reads reads_order
