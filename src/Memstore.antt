-- ===== src/Memstore.antt =====
-- rfc/caldav/memstore/store.go: calendars and their objects in memory.
pub mod Objects
pub mod Puts
pub mod Listing
pub mod Failure
pub mod Guard
pub mod Examples
use runtime_go.Prelude.{
  ℕ, zero, suc, ◌+◌, ◌/◌, ◌%◌, ◌^◌, Bool, true, false, not, ◌&&◌, ◌||◌, List, [], ◌∷◌, ◌++◌, Option,
  none, some, take, ltb, ◌==◌, ◌-◌, if◌then◌else◌, Bytes, codes,
}
use runtime_go.Prelude.Outcome.{Result, ok, err, Ack, ack}
use runtime_go.Prelude.Hex.{hex}
use runtime_go.Prelude.Table.{Table, put, without}
use runtime_go.ContentLine.Line.{equal, less}
use runtime_go.ContentLine.Escape.{join}

-- Messages by the fields that the store reads or writes, and the others as they are. A time is a
-- number, and no time none.
pub record Calendar : Type 0 where
  pub name : Bytes
  pub etag : Bytes
  pub display_name : Bytes
  pub description : Bytes
  pub create_time : Option ℕ
  pub update_time : Option ℕ
  pub rest : Bytes

pub record Event : Type 0 where
  pub name : Bytes
  pub etag : Bytes
  pub ical_uid : Bytes
  pub create_time : Option ℕ
  pub update_time : Option ℕ
  pub delete_time : Option ℕ
  pub expire_time : Option ℕ
  pub rest : Bytes

pub record Availability : Type 0 where
  pub name : Bytes
  pub etag : Bytes
  pub ical_uid : Bytes
  pub create_time : Option ℕ
  pub update_time : Option ℕ
  pub delete_time : Option ℕ
  pub expire_time : Option ℕ
  pub rest : Bytes

pub record Object : Type 0 where
  pub name : Bytes
  pub event : Option Event
  pub overrides : List Event
  pub availability : Option Availability

pub record Entry : Type 0 where
  pub cal : Calendar
  pub objects : Table Object
  pub order : List Bytes

pub record Store : Type 0 where
  pub seq : ℕ
  pub calendars : Table Entry
  pub order : List Bytes

pub data Error : Type 0 where
  calendar_not_found already_exists calendar_changed not_writable : Bytes → Error
  object_not_found : Bytes → Bytes → Error
  created_meanwhile object_changed no_uid : Bytes → Error
  refused : Bytes → Error

pub record PutRequest : Type 0 where
  pub calendar : Calendar
  pub name : Bytes
  pub existing : Option Object
  pub event : Event
  pub overrides : List Event
  pub split : Option Event
  pub availability : Option Availability

-- The plan of split.go.
pub record Plan : Type 0 where
  pub truncated : Event
  pub kept : List Event
  pub tail : Option Event
  pub rehomed : List Event

-- What store.go calls: planSplit of split.go, with the calendar's zone; the stamp of the instance
-- that an override replaces; and package sha256.
pub record Calls : Type 0 where
  pub plan_split : Event → List Event → Event → Calendar → Result Error Plan
  pub instance_stamp : Event → Bytes
  pub sha256 : Bytes → Bytes

-- strconv.FormatUint to the base 36, with as many rounds as the number and one more.
unfoldable pub digit36 : ℕ → ℕ
digit36 n = if ltb n 10 then b'0' + n else b'a' + (n - 10)

unfoldable pub format_from : ℕ → ℕ → Bytes → Bytes
format_from zero n out = out
format_from (suc fuel) n out =
    let more = format_from fuel (n / 36) (digit36 (n % 36) ∷ out) in
    if ltb n 36 then digit36 n ∷ out else more

unfoldable pub format36 : ℕ → Bytes
format36 n = format_from (suc n) n []

-- The number behind the last of 64 bits is 0.
unfoldable pub next_seq : ℕ → ℕ
next_seq seq = (seq + 1) % 2 ^ 64

unfoldable pub last_segment_from : Bytes → Bytes → Bytes
last_segment_from [] segment = segment
last_segment_from (c ∷ name) segment =
    let behind = last_segment_from name name in
    let more = last_segment_from name segment in if c == b'/' then behind else more

unfoldable pub last_segment : Bytes → Bytes
last_segment name = last_segment_from name name

unfoldable pub calendar_name : Bytes → Bytes
calendar_name id = codes "calendars/" ++ id

-- Times that create takes its own of: the readings of the clock.
unfoldable pub create_at :
    Bytes → Calendar → ℕ → ℕ → Option Entry → Store → Result Error Ack × Store
create_at id c now now' (some e) s = (err (already_exists id), s)
create_at id c now now' none s =
    let seq = next_seq s.seq in
    (
      ok ack,
      record {
        seq = seq;
        calendars =
            put id
              (some (record {
                cal = record c {
                  name = calendar_name id;
                  etag = format36 seq;
                  create_time = some now;
                  update_time = some now';
                };
                objects = λ name. none;
                order = [];
              }))
              s.calendars;
        order = s.order ++ id ∷ [];
      },
    )

unfoldable pub create_calendar : Calendar → ℕ → ℕ → Store → Result Error Ack × Store
create_calendar c now now' s =
    create_at (last_segment c.name) c now now' (s.calendars (last_segment c.name)) s

-- Whether an etag is given that is not the one stored.
unfoldable pub is_changed : Calendar → Calendar → Bool
is_changed c stored = not (equal c.etag []) && not (equal c.etag stored.etag)

unfoldable pub write_fields : List Bytes → Calendar → Calendar → Result Error Calendar
write_fields [] c next = ok next
write_fields (p ∷ ps) c next =
    let named = write_fields ps c (record next { display_name = c.display_name }) in
    let described = write_fields ps c (record next { description = c.description }) in
    if equal p (codes "display_name")
    then named
    else if equal p (codes "description")
    then described
    else err (not_writable p)

unfoldable pub written :
    Bytes → Entry → ℕ → Result Error Calendar → Store → Result Error Ack × Store
written id e now (err x) s = (err x, s)
written id e now (ok next) s =
    let seq = next_seq s.seq in
    (
      ok ack,
      record s {
        seq = seq;
        calendars =
            put id
              (some
                (record e { cal = record next { etag = format36 seq; update_time = some now } }))
              s.calendars;
      },
    )

unfoldable pub update_at :
    Calendar → List Bytes → ℕ → Option Entry → Store → Result Error Ack × Store
update_at c paths now none s = (err (calendar_not_found c.name), s)
update_at c paths now (some e) s =
    if is_changed c e.cal
    then (err (calendar_changed c.name), s)
    else written (last_segment c.name) e now (write_fields paths c e.cal) s

unfoldable pub update_calendar : Calendar → List Bytes → ℕ → Store → Result Error Ack × Store
update_calendar c paths now s = update_at c paths now (s.calendars (last_segment c.name)) s

unfoldable pub delete_at : Bytes → Calendar → Option Entry → Store → Result Error Ack × Store
delete_at id c none s = (err (calendar_not_found id), s)
delete_at id c (some e) s =
    if is_changed c e.cal
    then (err (calendar_changed id), s)
    else (ok ack, record s { calendars = put id none s.calendars; order = without id s.order })

unfoldable pub delete_calendar : Calendar → Store → Result Error Ack × Store
delete_calendar c s = delete_at (last_segment c.name) c (s.calendars (last_segment c.name)) s

unfoldable pub list_calendars : Table Entry → List Bytes → List Calendar
list_calendars f [] = []
list_calendars f (id ∷ ids) =
    let rest = list_calendars f ids in elim (f id) [ none ↦ rest | some e ↦ e.cal ∷ rest ]

unfoldable pub calendars : Store → List Calendar
calendars s = list_calendars s.calendars s.order

unfoldable pub entry : Bytes → Store → Result Error Entry
entry id s = elim (s.calendars id) [ none ↦ err (calendar_not_found id) | some e ↦ ok e ]

unfoldable pub calendar : Bytes → Store → Result Error Calendar
calendar id s = elim (entry id s) [ err x ↦ err x | ok e ↦ ok e.cal ]
