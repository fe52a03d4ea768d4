-- ===== src/Memstore/Examples.antt =====
-- A calendar with one event, and a split of its series.
use runtime_go.Prelude.{◌≡◌, refl, false, [], none, some, codes}
use runtime_go.Prelude.Outcome.{ok, err}
use runtime_go.ContentLine.Line.{equal}
use runtime_go.Memstore.{
  Calendar, Event, Store, created_meanwhile, refused, PutRequest, Calls, create_calendar, create_at,
  last_segment, last_segment_from, format36, format_from, digit36,
}
use runtime_go.Memstore.Objects.{
  put_object, put_at, put_guarded, guard, put_kind, put_event, put_series, put_split, stamped,
}
use runtime_go.Memstore.Listing.{fresh, calendar_created, object_put, IsListed, Reachable-IsListed}
use runtime_go.Memstore.Failure.{put_object-failed}
use runtime_go.Memstore.Guard.{put_object-created}

abbrev work : Calendar
work = record {
  name = codes "calendars/work";
  etag = [];
  display_name = codes "Work";
  description = [];
  create_time = none;
  update_time = none;
  rest = [];
}

abbrev standup : Event
standup = record {
  name = [];
  etag = [];
  ical_uid = codes "u1";
  create_time = none;
  update_time = none;
  delete_time = none;
  expire_time = none;
  rest = [];
}

-- Every split is refused.
abbrev no_splits : Calls
no_splits = record {
  plan_split = λ series overrides edit c. err (refused (codes "no rule"));
  instance_stamp = λ o. codes "20270125T090000Z";
  sha256 = λ b. b;
}

abbrev creating : PutRequest
creating = record {
  calendar = work;
  name = codes "a.ics";
  existing = none;
  event = standup;
  overrides = [];
  split = none;
  availability = none;
}

abbrev splitting : PutRequest
splitting = record creating { split = some standup }

abbrev new_store : Store
new_store = record { seq = 0; calendars = λ id. none; order = [] }

abbrev with_work : Store
with_work = (create_calendar work 5 5 new_store).1

created_first : (put_object no_splits creating 7 with_work).0 ≡ ok false
unfolding put_object put_at put_guarded guard put_kind put_event put_series create_calendar
    create_at last_segment last_segment_from equal stamped
created_first = refl

split_refused : (put_object no_splits splitting 7 with_work).0 ≡ err (refused (codes "no rule"))
unfolding put_object put_at put_guarded guard put_kind put_event put_series put_split
    create_calendar create_at last_segment last_segment_from equal stamped
split_refused = refl

tags : format36 1295 ≡ codes "zz"
unfolding format36 format_from digit36
tags = refl

Reachable-IsListed_example : IsListed (put_object no_splits creating 7 with_work).1
Reachable-IsListed_example =
    Reachable-IsListed no_splits (put_object no_splits creating 7 with_work).1
      (object_put creating 7 with_work (calendar_created work 5 5 new_store fresh))

put_object-failed_example :
    ((put_object no_splits splitting 7 with_work).1.calendars ≡ with_work.calendars)
    × ((put_object no_splits splitting 7 with_work).1.order ≡ with_work.order)
put_object-failed_example =
    put_object-failed no_splits splitting 7 with_work (refused (codes "no rule")) split_refused

put_object-created_example :
    put_object no_splits creating 8 (put_object no_splits creating 7 with_work).1
    ≡ (err (created_meanwhile (codes "a.ics")), (put_object no_splits creating 7 with_work).1)
put_object-created_example =
    put_object-created no_splits creating creating 7 8 with_work false refl refl refl created_first
