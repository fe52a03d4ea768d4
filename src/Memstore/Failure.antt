-- ===== src/Memstore/Failure.antt =====
-- A PutObject that fails leaves every calendar as it was.
use runtime_go.Prelude.{ℕ, ◌≡◌, refl, Option, none, some, Bytes, Bool}
use runtime_go.Prelude.Outcome.{Result, err}
use runtime_go.Memstore.{Entry, Store, Error, PutRequest, Calls, last_segment}
use runtime_go.Memstore.Objects.{guard, put_at, put_object}
use runtime_go.Memstore.Puts.{PutOutcome, wrote, kept_all, put_guarded-PutOutcome}

module _ (calls : Calls) where
  PutOutcome-failed :
      (id name : Bytes) (e : Entry) (s : Store) (r : Result Error Bool × Store) (x : Error)
      → PutOutcome calls id e name s r
      → r.0 ≡ err x
      → (r.1.calendars ≡ s.calendars) × (r.1.order ≡ s.order)
  PutOutcome-failed id name e s r x (wrote b o os seq n) h = cc
  PutOutcome-failed id name e s r x (kept_all y seq) h = (refl, refl)

  put_at-failed :
      (id : Bytes) (req : PutRequest) (now : ℕ) (o : Option Entry) (s : Store) (x : Error)
      → (put_at calls id req now o s).0 ≡ err x
      → ((put_at calls id req now o s).1.calendars ≡ s.calendars)
        × ((put_at calls id req now o s).1.order ≡ s.order)
  unfolding put_at
  put_at-failed id req now none s x h = (refl, refl)
  put_at-failed id req now (some e) s x h =
      PutOutcome-failed id req.name e s _ x
        (put_guarded-PutOutcome calls id e req now
          (guard calls id req.name (e.objects req.name) req.existing) s)
        h

  -- A PutObject that answers an error, at whatever point it fails, leaves the calendars, their
  -- objects and the orders as they were: no part of a split is written without the other.
  pub put_object-failed :
      (req : PutRequest) (now : ℕ) (s : Store) (x : Error)
      → (put_object calls req now s).0 ≡ err x
      → ((put_object calls req now s).1.calendars ≡ s.calendars)
        × ((put_object calls req now s).1.order ≡ s.order)
  unfolding put_object
  put_object-failed req now s x h =
      put_at-failed (last_segment req.calendar.name) req now
        (s.calendars (last_segment req.calendar.name)) s x h
