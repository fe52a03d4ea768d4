-- ===== src/Memstore/Guard.antt =====
-- Of two writers that create one object, the second is refused.
use runtime_go.Prelude.{
  ℕ, ◌≡◌, inl, inr, refl, sym, ap, ◌∙◌, Bool, Bool-cases, List, [], ◌∷◌, Option, none, some, Bytes,
}
use runtime_go.Prelude.Outcome.{Result, ok, err}
use runtime_go.Prelude.Table.{put, put_here}
use runtime_go.ContentLine.Line.{equal}
use runtime_go.Memstore.{
  Entry, Store, Error, created_meanwhile, Object, PutRequest, Calls, last_segment,
}
use runtime_go.Memstore.Objects.{
  guard, kept, put_in_entry, put_all, put_guarded, put_at, put_object,
}
use runtime_go.Memstore.Puts.{PutOutcome, wrote, kept_all, put_guarded-PutOutcome}

-- An object stays where it is when others are put.
put_all-keeps :
    (os : List Object) (e : Entry) (name : Bytes) (o : Object)
    → e.objects name ≡ some o
    → (x : Object) × ((put_all os e).objects name ≡ some x)
unfolding put_all put_in_entry
put_all-keeps [] e name o h = (o, h)
put_all-keeps (p ∷ os) e name o h = elim (Bool-cases (equal name p.name)) [
  | inl q ↦ put_all-keeps os (put_in_entry p e) name p (rw (q) refl)
  | inr q ↦ put_all-keeps os (put_in_entry p e) name o (rw (q) h)
]

put_all-first :
    (o : Object) (os : List Object) (e : Entry) (name : Bytes)
    → o.name ≡ name
    → (x : Object) × ((put_all (o ∷ os) e).objects name ≡ some x)
unfolding put_all put_in_entry
put_all-first o os e name h =
    put_all-keeps os (put_in_entry o e) name o
      (ap (λ n. put o.name (some o) e.objects n) (sym h) ∙ put_here o.name (some o) e.objects)

module _ (calls : Calls) where
  -- An object of the name stands in the calendar.
  abbrev pub Stands : Bytes → Bytes → Store → Type 0
  Stands id name s =
      (e : Entry) × (o : Object) × (s.calendars id ≡ some e) × (e.objects name ≡ some o)

  PutOutcome-Stands :
      (id name : Bytes) (e : Entry) (s : Store) (r : Result Error Bool × Store) (b : Bool)
      → PutOutcome calls id e name s r
      → r.0 ≡ ok b
      → Stands id name r.1
  unfolding kept
  PutOutcome-Stands id name e s r b (kept_all x seq) h = cc
  PutOutcome-Stands id name e s r b (wrote c o os seq n) h =
      let (x, f) = put_all-first o os e name n in
      (put_all (o ∷ os) e, x, put_here id (some (put_all (o ∷ os) e)) s.calendars, f)

  put_at-Stands :
      (id : Bytes) (req : PutRequest) (now : ℕ) (o : Option Entry) (s : Store) (b : Bool)
      → (put_at calls id req now o s).0 ≡ ok b
      → Stands id req.name (put_at calls id req now o s).1
  unfolding put_at
  put_at-Stands id req now none s b h = cc
  put_at-Stands id req now (some e) s b h =
      PutOutcome-Stands id req.name e s _ b
        (put_guarded-PutOutcome calls id e req now
          (guard calls id req.name (e.objects req.name) req.existing) s)
        h

  put_object-Stands :
      (req : PutRequest) (now : ℕ) (s : Store) (b : Bool)
      → (put_object calls req now s).0 ≡ ok b
      → Stands (last_segment req.calendar.name) req.name (put_object calls req now s).1
  unfolding put_object
  put_object-Stands req now s b h =
      put_at-Stands (last_segment req.calendar.name) req now
        (s.calendars (last_segment req.calendar.name)) s b h

  put_object-refused :
      (req : PutRequest) (now : ℕ) (s : Store)
      → Stands (last_segment req.calendar.name) req.name s
      → req.existing ≡ none
      → put_object calls req now s ≡ (err (created_meanwhile req.name), s)
  unfolding put_object put_at guard put_guarded
  put_object-refused req now s (e, o, f, g) h =
      let id = last_segment req.calendar.name in
      ap (λ z. put_at calls id req now z s) f
      ∙ ap (λ z. put_guarded calls id e req now (guard calls id req.name z req.existing) s) g
      ∙ ap (λ z. put_guarded calls id e req now (guard calls id req.name (some o) z) s) h

  -- Of two PutObject calls that create an object of one name in one calendar, knowing of none, the
  -- second is refused where the first has succeeded, and leaves the store as the first has made it.
  pub put_object-created :
      (first second : PutRequest) (now later : ℕ) (s : Store) (b : Bool)
      → last_segment second.calendar.name ≡ last_segment first.calendar.name
      → second.name ≡ first.name
      → second.existing ≡ none
      → (put_object calls first now s).0 ≡ ok b
      → put_object calls second later (put_object calls first now s).1
        ≡ (err (created_meanwhile second.name), (put_object calls first now s).1)
  put_object-created first second now later s b c n x h =
      let (e, o, f, g) = put_object-Stands first now s b h in
      put_object-refused second later (put_object calls first now s).1
        (e, o, ap (put_object calls first now s).1.calendars c ∙ f, ap e.objects n ∙ g) x
