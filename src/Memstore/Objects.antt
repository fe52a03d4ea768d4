-- ===== src/Memstore/Objects.antt =====
-- rfc/caldav/memstore/store.go: the objects of a calendar, and rfc/caldav/store.go: their etags.
use runtime_go.Prelude.{
  ℕ, Bool, true, false, ◌||◌, List, [], ◌∷◌, ◌++◌, Option, none, some, take, if◌then◌else◌, Bytes,
  codes,
}
use runtime_go.Prelude.Outcome.{Result, ok, err, Ack, ack}
use runtime_go.Prelude.Hex.{hex}
use runtime_go.Prelude.Table.{Table, put, without}
use runtime_go.ContentLine.Line.{equal, less}
use runtime_go.ContentLine.Escape.{join}
use runtime_go.Memstore.{
  Event, Availability, Object, Entry, Store, Error, PutRequest, Plan, Calls, format36, next_seq,
  last_segment, entry, calendar_not_found, object_not_found, created_meanwhile, object_changed,
  no_uid, refused,
}

unfoldable pub insert_text : Bytes → List Bytes → List Bytes
insert_text t [] = t ∷ []
insert_text t (u ∷ us) = let rest = insert_text t us in if less u t then u ∷ rest else t ∷ u ∷ us

-- slices.Sort of texts.
unfoldable pub sort_texts : List Bytes → List Bytes
sort_texts [] = []
sort_texts (t ∷ ts) = insert_text t (sort_texts ts)

unfoldable pub override_parts : List Event → List Bytes
override_parts [] = []
override_parts (e ∷ es) = (e.name ++ 0 ∷ e.etag) ∷ override_parts es

unfoldable pub event_etag : Option Event → Bytes
event_etag none = []
event_etag (some e) = e.etag

unfoldable pub is_event : Object → Bool
is_event o = elim o.event [ none ↦ false | some _ ↦ true ]

-- The zero Object, which a map of Go gives for a name that it lacks.
unfoldable pub stored_object : Option Object → Object
stored_object none = record { name = []; event = none; overrides = []; availability = none }
stored_object (some o) = o

-- The objects of the names that are events, or that are not.
unfoldable pub of_kind : Bool → Table Object → List Bytes → List Object
of_kind wanted f [] = []
of_kind wanted f (n ∷ ns) =
    let rest = of_kind wanted f ns in
    let o = stored_object (f n) in
    if is_event o then (if wanted then o ∷ rest else rest) else (if wanted then rest else o ∷ rest)

unfoldable pub objects : Bytes → Store → Result Error (List Object)
objects id s = elim (entry id s) [
  | err x ↦ err x
  | ok e ↦ ok (of_kind true e.objects e.order ++ of_kind false e.objects e.order)
]

unfoldable pub found : Bytes → Bytes → Option Object → Result Error Object
found id name none = err (object_not_found name id)
found id name (some o) = ok o

unfoldable pub object : Bytes → Bytes → Store → Result Error Object
object id name s = elim (entry id s) [ err x ↦ err x | ok e ↦ found id name (e.objects name) ]

unfoldable pub has_uid : Bytes → Object → Bool
has_uid uid o =
    (elim o.event [ none ↦ false | some e ↦ equal e.ical_uid uid ])
    || (elim o.availability [ none ↦ false | some a ↦ equal a.ical_uid uid ])

unfoldable pub with_uid : Bytes → Table Object → List Bytes → Result Error Object
with_uid uid f [] = err (no_uid uid)
with_uid uid f (n ∷ ns) =
    let rest = with_uid uid f ns in
    let o = stored_object (f n) in if has_uid uid o then ok o else rest

unfoldable pub object_by_uid : Bytes → Bytes → Store → Result Error Object
object_by_uid id uid s = elim (entry id s) [ err x ↦ err x | ok e ↦ with_uid uid e.objects e.order ]

-- The name keeps its place in the order when it is there.
unfoldable pub place : Bytes → Option Object → List Bytes → List Bytes
place name none order = order ++ name ∷ []
place name (some _) order = order

unfoldable pub put_in_entry : Object → Entry → Entry
put_in_entry o e = record e {
  objects = put o.name (some o) e.objects;
  order = place o.name (e.objects o.name) e.order;
}

unfoldable pub put_all : List Object → Entry → Entry
put_all [] e = e
put_all (o ∷ os) e = put_all os (put_in_entry o e)

unfoldable pub created_at : Option Object → ℕ → Option ℕ
created_at none now = some now
created_at (some o) now = elim o.availability [
  | some a ↦ a.create_time
  | none ↦ elim o.event [ some e ↦ e.create_time | none ↦ none ]
]

unfoldable pub stamped : Event → Bytes → Option ℕ → ℕ → ℕ → Event × ℕ
stamped ev name created now seq = (
  record ev {
    name = name;
    etag = format36 (next_seq seq);
    create_time = created;
    update_time = some now;
    delete_time = none;
    expire_time = none;
  },
  next_seq seq,
)

module _ (calls : Calls) where
  unfoldable pub etag_of : Object → Bytes
  etag_of o = elim o.availability [
    | some a ↦ a.etag
    | none ↦ elim o.overrides [
      | [] ↦ event_etag o.event
      | e ∷ es ↦ hex (
          take 16 (
            calls.sha256
              (join (0 ∷ []) (event_etag o.event ∷ sort_texts (override_parts (e ∷ es))))))
    ]
  ]

  unfoldable pub stamp_all : List Event → Bytes → ℕ → ℕ → List Event × ℕ
  stamp_all [] series now seq = ([], seq)
  stamp_all (o ∷ os) series now seq =
      let (first, seq') =
        stamped o (series ++ (codes "/overrides/" ++ calls.instance_stamp o)) (some now) now seq in
      let (rest, seq'') = stamp_all os series now seq' in (first ∷ rest, seq'')

  unfoldable pub guard : Bytes → Bytes → Option Object → Option Object → Result Error Ack
  guard id name (some o) none = err (created_meanwhile name)
  guard id name none (some x) = err (object_not_found name id)
  guard id name none none = ok ack
  guard id name (some o) (some x) =
      if equal (etag_of o) (etag_of x) then ok ack else err (object_changed name)

  -- The calendar's entry with the objects written, and the number behind the last etag.
  unfoldable pub kept : Bytes → Entry → List Object → ℕ → Store → Store
  kept id e os seq s = record s { seq = seq; calendars = put id (some (put_all os e)) s.calendars }

  unfoldable pub put_availability :
      Bytes → Entry → PutRequest → ℕ → Availability → Store → Result Error Bool × Store
  put_availability id e req now a s =
      let seq = next_seq s.seq in
      let put_one : Object = record {
        name = req.name;
        event = none;
        overrides = [];
        availability = some (record a {
          name = req.calendar.name ++ (codes "/availabilities/" ++ req.name);
          etag = format36 seq;
          create_time = created_at (e.objects req.name) now;
          update_time = some now;
          delete_time = none;
          expire_time = none;
        });
      } in
      (ok false, kept id e (put_one ∷ []) seq s)

  unfoldable pub series_object : Bytes → Event → List Event → Object
  series_object name ev overrides = record {
    name = name;
    event = some ev;
    overrides = overrides;
    availability = none;
  }

  -- The new series that a split leaves, and the overrides behind the instance.
  unfoldable pub put_tail :
      Bytes
      → Entry
      → Object
      → Event
      → List Event
      → ℕ
      → ℕ
      → Option ℕ
      → Store
      → Result Error Bool × Store
  put_tail id e first tail rehomed now seq created s =
      let (tail', seq') = stamped tail tail.name created now seq in
      let (moved, seq'') = stamp_all rehomed tail.name now seq' in
      (ok true, kept id e (first ∷ series_object (last_segment tail.name) tail' moved ∷ []) seq'' s)

  unfoldable pub put_tail_over :
      Bytes
      → Entry
      → Object
      → Event
      → List Event
      → ℕ
      → ℕ
      → Option Object
      → Store
      → Result Error Bool × Store
  put_tail_over id e first tail rehomed now seq none s =
      put_tail id e first tail rehomed now seq (some now) s
  put_tail_over id e first tail rehomed now seq (some old) s =
      if is_event old
      then put_tail id e first tail rehomed now seq (created_at (some old) now) s
      else (err (refused (last_segment tail.name)), record s { seq = seq })

  -- A split whose series ends, or changes in place, or goes on as a tail.
  unfoldable pub put_planned :
      Bytes
      → Entry
      → PutRequest
      → Plan
      → Bytes
      → ℕ
      → List Event × ℕ
      → Option Event
      → Store
      → Result Error Bool × Store
  put_planned id e req p event_name now (before, seq) none s =
      let (behind, seq') = stamp_all p.rehomed event_name now seq in
      (ok true, kept id e (series_object req.name p.truncated (before ++ behind) ∷ []) seq' s)
  put_planned id e req p event_name now (before, seq) (some tail) s =
      put_tail_over id e (series_object req.name p.truncated before) tail p.rehomed now seq
        (e.objects (last_segment tail.name)) s

  unfoldable pub put_split :
      Bytes
      → Entry
      → PutRequest
      → Bytes
      → ℕ
      → ℕ
      → Result Error Plan
      → Store
      → Result Error Bool × Store
  put_split id e req event_name now seq (err x) s = (err x, record s { seq = seq })
  put_split id e req event_name now seq (ok p) s =
      put_planned id e req p event_name now (stamp_all p.kept event_name now seq) p.tail s

  unfoldable pub put_series :
      Bytes
      → Entry
      → PutRequest
      → Bytes
      → ℕ
      → Event × ℕ
      → Option Event
      → Store
      → Result Error Bool × Store
  put_series id e req event_name now (series, seq) none s =
      let (overrides, seq') = stamp_all req.overrides event_name now seq in
      (ok false, kept id e (series_object req.name series overrides ∷ []) seq' s)
  put_series id e req event_name now (series, seq) (some edit) s =
      put_split id e req event_name now seq
        (calls.plan_split series req.overrides edit req.calendar) s

  unfoldable pub put_event : Bytes → Entry → PutRequest → ℕ → Store → Result Error Bool × Store
  put_event id e req now s =
      let event_name = req.calendar.name ++ (codes "/events/" ++ req.name) in
      put_series id e req event_name now
        (stamped req.event event_name (created_at (e.objects req.name) now) now s.seq) req.split s

  unfoldable pub put_kind :
      Bytes → Entry → PutRequest → ℕ → Option Availability → Store → Result Error Bool × Store
  put_kind id e req now (some a) s = put_availability id e req now a s
  put_kind id e req now none s = put_event id e req now s

  unfoldable pub put_guarded :
      Bytes → Entry → PutRequest → ℕ → Result Error Ack → Store → Result Error Bool × Store
  put_guarded id e req now (err x) s = (err x, s)
  put_guarded id e req now (ok _) s = put_kind id e req now req.availability s

  unfoldable pub put_at : Bytes → PutRequest → ℕ → Option Entry → Store → Result Error Bool × Store
  put_at id req now none s = (err (calendar_not_found id), s)
  put_at id req now (some e) s =
      put_guarded id e req now (guard id req.name (e.objects req.name) req.existing) s

  unfoldable pub put_object : PutRequest → ℕ → Store → Result Error Bool × Store
  put_object req now s =
      put_at (last_segment req.calendar.name) req now (s.calendars (last_segment req.calendar.name))
        s

  unfoldable pub drop_stored :
      Bytes → Entry → Object → Option Object → Store → Result Error Ack × Store
  drop_stored id e o none s = (err (object_not_found o.name id), s)
  drop_stored id e o (some stored) s =
      if equal (etag_of stored) (etag_of o)
      then (
        ok ack,
        record s {
          calendars =
              put id
                (some (record e {
                  objects = put o.name none e.objects;
                  order = without o.name e.order;
                }))
                s.calendars;
        },
      )
      else (err (object_changed o.name), s)

  unfoldable pub drop_at : Bytes → Object → Option Entry → Store → Result Error Ack × Store
  drop_at id o none s = (err (calendar_not_found id), s)
  drop_at id o (some e) s = drop_stored id e o (e.objects o.name) s

  unfoldable pub delete_object : Bytes → Object → Store → Result Error Ack × Store
  delete_object id o s = drop_at id o (s.calendars id) s
