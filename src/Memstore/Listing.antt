-- ===== src/Memstore/Listing.antt =====
-- The orders of a store list its calendars and their objects, each once.
use mathlib.Core.Path.{subst}
use runtime_go.Prelude.{
  ℕ, ◌≡◌, inl, inr, refl, sym, ap, ◌∙◌, Bool, Bool-cases, List, [], ◌∷◌, Option, none, some, Bytes,
}
use runtime_go.Prelude.Outcome.{Result, ok, err, none-some, some-injective}
use runtime_go.Prelude.Table.{
  Table, distinct, put, put-some, without, Lists, Lists-append, Lists-replace, Lists-without,
}
use runtime_go.ContentLine.Line.{contains, equal}
use runtime_go.Memstore.Puts.{PutOutcome, wrote, kept_all, put_guarded-PutOutcome}
use runtime_go.Memstore.{
  last_segment, Calendar, Object, Entry, Store, Error, PutRequest, Calls, create_at,
  create_calendar, is_changed, write_fields, written, update_at, update_calendar, delete_at,
  delete_calendar,
}
use runtime_go.Memstore.Objects.{
  etag_of, place, put_in_entry, put_all, guard, kept, put_at, put_object, drop_stored, drop_at,
  delete_object,
}

pub record IsEntry (e : Entry) : Type 0 where
  pub lists : Lists e.objects e.order
  pub named : (n : Bytes) (o : Object) → e.objects n ≡ some o → o.name ≡ n

-- Every calendar is in the order once, and so is every object in its calendar's, under its name.
pub record IsListed (s : Store) : Type 0 where
  pub lists : Lists s.calendars s.order
  pub entries : (id : Bytes) (e : Entry) → s.calendars id ≡ some e → IsEntry e

place-Lists :
    (o : Object) (f : Table Object) (order : List Bytes) (old : Option Object)
    → f o.name ≡ old
    → Lists f order
    → Lists (put o.name (some o) f) (place o.name old order)
unfolding place
place-Lists o f order none h l = Lists-append f order l o.name o h
place-Lists o f order (some u) h l = Lists-replace f order l o.name u o h

put_in_entry-IsEntry : (o : Object) (e : Entry) → IsEntry e → IsEntry (put_in_entry o e)
unfolding put_in_entry
put_in_entry-IsEntry o e h = record {
  lists = place-Lists o e.objects e.order (e.objects o.name) refl h.lists;
  named = λ n x q. elim (put-some o.name n (some o) e.objects x q) [
    | inl (p, f) ↦ ap (λ (y : Object). y.name) (some-injective (sym f)) ∙ sym p
    | inr old ↦ h.named n x old
  ];
}

without-IsEntry :
    (name : Bytes) (e : Entry)
    → IsEntry e
    → IsEntry (record e { objects = put name none e.objects; order = without name e.order })
without-IsEntry name e h = record {
  lists = Lists-without e.objects e.order h.lists name;
  named = λ n x q. elim (put-some name n none e.objects x q) [
    | inl (p, f) ↦ absurd (none-some f)
    | inr old ↦ h.named n x old
  ];
}

put_all-IsEntry : (os : List Object) (e : Entry) → IsEntry e → IsEntry (put_all os e)
unfolding put_all
put_all-IsEntry [] e h = h
put_all-IsEntry (o ∷ os) e h = put_all-IsEntry os (put_in_entry o e) (put_in_entry-IsEntry o e h)

replaced-IsListed :
    (s : Store) (id : Bytes) (e e' : Entry) (seq : ℕ)
    → IsListed s
    → s.calendars id ≡ some e
    → IsEntry e'
    → IsListed (record s { seq = seq; calendars = put id (some e') s.calendars })
replaced-IsListed s id e e' seq h f i = record {
  lists = Lists-replace s.calendars s.order h.lists id e e' f;
  entries = λ n x q. elim (put-some id n (some e') s.calendars x q) [
    | inl (p, g) ↦ subst IsEntry (some-injective g) i
    | inr old ↦ h.entries n x old
  ];
}

empty-IsEntry : (c : Calendar) → IsEntry (record { cal = c; objects = λ name. none; order = [] })
empty-IsEntry c = record {
  lists = record { listed = λ n. unfold contains in refl; once = unfold distinct in refl };
  named = λ n o h. absurd (none-some h);
}

create_at-IsListed :
    (id : Bytes) (c : Calendar) (now now' : ℕ) (o : Option Entry) (s : Store)
    → s.calendars id ≡ o
    → IsListed s
    → IsListed (create_at id c now now' o s).1
unfolding create_at
create_at-IsListed id c now now' (some e) s f h = h
create_at-IsListed id c now now' none s f h = record {
  lists = Lists-append s.calendars s.order h.lists id _ f;
  entries = λ n x q. elim (put-some id n _ s.calendars x q) [
    | inl (p, g) ↦ subst IsEntry (some-injective g) (empty-IsEntry _)
    | inr old ↦ h.entries n x old
  ];
}

written-IsListed :
    (id : Bytes) (e : Entry) (now : ℕ) (r : Result Error Calendar) (s : Store)
    → s.calendars id ≡ some e
    → IsListed s
    → IsListed (written id e now r s).1
unfolding written
written-IsListed id e now (err x) s f h = h
written-IsListed id e now (ok next) s f h =
    replaced-IsListed s id e _ _ h f
      (record { lists = (h.entries id e f).lists; named = (h.entries id e f).named })

update_at-IsListed :
    (c : Calendar) (paths : List Bytes) (now : ℕ) (o : Option Entry) (s : Store)
    → s.calendars (last_segment c.name) ≡ o
    → IsListed s
    → IsListed (update_at c paths now o s).1
unfolding update_at
update_at-IsListed c paths now none s f h = h
update_at-IsListed c paths now (some e) s f h = elim (Bool-cases (is_changed c e.cal)) [
  | inl q ↦ rw (q) h
  | inr q ↦ rw (q) (written-IsListed (last_segment c.name) e now (write_fields paths c e.cal) s f h)
]

delete_at-IsListed :
    (id : Bytes) (c : Calendar) (o : Option Entry) (s : Store)
    → IsListed s
    → IsListed (delete_at id c o s).1
unfolding delete_at
delete_at-IsListed id c none s h = h
delete_at-IsListed id c (some e) s h = elim (Bool-cases (is_changed c e.cal)) [
  | inl q ↦ rw (q) h
  | inr q ↦ rw (q) (record {
    lists = Lists-without s.calendars s.order h.lists id;
    entries = λ n x g. elim (put-some id n none s.calendars x g) [
      | inl (p, k) ↦ absurd (none-some k)
      | inr old ↦ h.entries n x old
    ];
  })
]

module _ (calls : Calls) where
  kept-IsListed :
      (id : Bytes) (e : Entry) (os : List Object) (seq : ℕ) (s : Store)
      → s.calendars id ≡ some e
      → IsListed s
      → IsListed (kept calls id e os seq s)
  unfolding kept
  kept-IsListed id e os seq s f h =
      replaced-IsListed s id e (put_all os e) seq h f (put_all-IsEntry os e (h.entries id e f))

  -- The number of the etags is no part of what is listed.
  reseq-IsListed : (s : Store) (seq : ℕ) → IsListed s → IsListed (record s { seq = seq })
  reseq-IsListed s seq h = record { lists = h.lists; entries = h.entries }

  PutOutcome-IsListed :
      (id name : Bytes) (e : Entry) (s : Store) (r : Result Error Bool × Store)
      → PutOutcome calls id e name s r
      → s.calendars id ≡ some e
      → IsListed s
      → IsListed r.1
  PutOutcome-IsListed id name e s r (wrote b o os seq n) f h = kept-IsListed id e (o ∷ os) seq s f h
  PutOutcome-IsListed id name e s r (kept_all x seq) f h = reseq-IsListed s seq h

  put_at-IsListed :
      (id : Bytes) (req : PutRequest) (now : ℕ) (o : Option Entry) (s : Store)
      → s.calendars id ≡ o
      → IsListed s
      → IsListed (put_at calls id req now o s).1
  unfolding put_at
  put_at-IsListed id req now none s f h = h
  put_at-IsListed id req now (some e) s f h =
      PutOutcome-IsListed id req.name e s _
        (put_guarded-PutOutcome calls id e req now
          (guard calls id req.name (e.objects req.name) req.existing) s)
        f h

  drop_stored-IsListed :
      (id : Bytes) (e : Entry) (o : Object) (stored : Option Object) (s : Store)
      → s.calendars id ≡ some e
      → IsListed s
      → IsListed (drop_stored calls id e o stored s).1
  unfolding drop_stored
  drop_stored-IsListed id e o none s f h = h
  drop_stored-IsListed id e o (some x) s f h =
      elim (Bool-cases (equal (etag_of calls x) (etag_of calls o))) [
        | inl q ↦
            rw (q)
              (replaced-IsListed s id e _ s.seq h f (without-IsEntry o.name e (h.entries id e f)))
        | inr q ↦ rw (q) h
      ]

  drop_at-IsListed :
      (id : Bytes) (o : Object) (e : Option Entry) (s : Store)
      → s.calendars id ≡ e
      → IsListed s
      → IsListed (drop_at calls id o e s).1
  unfolding drop_at
  drop_at-IsListed id o none s f h = h
  drop_at-IsListed id o (some e) s f h = drop_stored-IsListed id e o (e.objects o.name) s f h

-- The states that a new store comes to by the calls of its methods, in any order.
pub data Reachable (calls : Calls) : Store → Type 0 where
  fresh : Reachable calls (record { seq = 0; calendars = λ id. none; order = [] })
  calendar_created :
      (c : Calendar) (now now' : ℕ) (s : Store)
      → Reachable calls s
      → Reachable calls (create_calendar c now now' s).1
  calendar_updated :
      (c : Calendar) (paths : List Bytes) (now : ℕ) (s : Store)
      → Reachable calls s
      → Reachable calls (update_calendar c paths now s).1
  calendar_deleted :
      (c : Calendar) (s : Store) → Reachable calls s → Reachable calls (delete_calendar c s).1
  object_put :
      (req : PutRequest) (now : ℕ) (s : Store)
      → Reachable calls s
      → Reachable calls (put_object calls req now s).1
  object_deleted :
      (id : Bytes) (o : Object) (s : Store)
      → Reachable calls s
      → Reachable calls (delete_object calls id o s).1

-- In every state that a new store comes to: the order of the calendars lists each calendar that is
-- there and no other, once; the order of each calendar's objects does so for them; and an object
-- stands under its name. This holds whatever calls fail, and whatever the split of a series plans.
pub Reachable-IsListed : (calls : Calls) (s : Store) → Reachable calls s → IsListed s
unfolding create_calendar update_calendar delete_calendar put_object delete_object
Reachable-IsListed calls s fresh = record {
  lists = record { listed = λ n. unfold contains in refl; once = unfold distinct in refl };
  entries = λ id e h. absurd (none-some h);
}
Reachable-IsListed calls s (calendar_created c now now' t r) =
    create_at-IsListed (last_segment c.name) c now now' _ t refl (Reachable-IsListed calls t r)
Reachable-IsListed calls s (calendar_updated c paths now t r) =
    update_at-IsListed c paths now _ t refl (Reachable-IsListed calls t r)
Reachable-IsListed calls s (calendar_deleted c t r) =
    delete_at-IsListed (last_segment c.name) c _ t (Reachable-IsListed calls t r)
Reachable-IsListed calls s (object_put req now t r) =
    put_at-IsListed calls (last_segment req.calendar.name) req now _ t refl
      (Reachable-IsListed calls t r)
Reachable-IsListed calls s (object_deleted id o t r) =
    drop_at-IsListed calls id o _ t refl (Reachable-IsListed calls t r)
