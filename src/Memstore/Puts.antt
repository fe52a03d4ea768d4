-- ===== src/Memstore/Puts.antt =====
-- How PutObject ends: with objects written into their calendar, or as it was.
use runtime_go.Prelude.{
  ℕ, ◌≡◌, refl, Bool, Bool-cases, inl, inr, true, false, List, [], ◌∷◌, Option, none, some, Bytes,
}
use runtime_go.Prelude.Outcome.{Result, ok, err, Ack}
use runtime_go.Memstore.{
  Event, Availability, Object, Entry, Store, Error, PutRequest, Plan, Calls, last_segment,
}
use runtime_go.Memstore.Objects.{
  kept, put_availability, put_tail, put_tail_over, put_planned, put_split, put_series, put_event,
  put_kind, put_guarded, stamp_all, is_event, series_object,
}

module _ (calls : Calls) (id : Bytes) (e : Entry) (name : Bytes) (s : Store) where
  -- The first object that is written has the request's name.
  pub data PutOutcome : Result Error Bool × Store → Type 0 where
    wrote :
        (b : Bool) (o : Object) (os : List Object) (seq : ℕ)
        → o.name ≡ name
        → PutOutcome (ok b, kept calls id e (o ∷ os) seq s)
    kept_all : (x : Error) (seq : ℕ) → PutOutcome (err x, record s { seq = seq })

module _ (calls : Calls) (id : Bytes) (e : Entry) where
  put_tail_over-PutOutcome :
      (first : Object) (tail : Event) (rehomed : List Event) (now seq : ℕ) (o : Option Object)
      (s : Store)
      → PutOutcome calls id e first.name s (put_tail_over calls id e first tail rehomed now seq o s)
  unfolding put_tail_over put_tail
  put_tail_over-PutOutcome first tail rehomed now seq none s = wrote true first _ _ refl
  put_tail_over-PutOutcome first tail rehomed now seq (some old) s =
      elim (Bool-cases (is_event old)) [
        | inl q ↦ rw (q) (wrote true first _ _ refl)
        | inr q ↦ rw (q) (kept_all _ seq)
      ]

  put_planned-PutOutcome :
      (req : PutRequest) (p : Plan) (event_name : Bytes) (now : ℕ) (b : List Event × ℕ)
      (tail : Option Event) (s : Store)
      → PutOutcome calls id e req.name s (put_planned calls id e req p event_name now b tail s)
  unfolding put_planned series_object
  put_planned-PutOutcome req p event_name now (before, seq) none s = wrote true _ [] _ refl
  put_planned-PutOutcome req p event_name now (before, seq) (some tail) s =
      put_tail_over-PutOutcome (series_object calls req.name p.truncated before) tail p.rehomed now
        seq (e.objects (last_segment tail.name)) s

  put_split-PutOutcome :
      (req : PutRequest) (event_name : Bytes) (now seq : ℕ) (r : Result Error Plan) (s : Store)
      → PutOutcome calls id e req.name s (put_split calls id e req event_name now seq r s)
  unfolding put_split
  put_split-PutOutcome req event_name now seq (err x) s = kept_all x seq
  put_split-PutOutcome req event_name now seq (ok p) s =
      put_planned-PutOutcome req p event_name now (stamp_all calls p.kept event_name now seq) p.tail
        s

  put_series-PutOutcome :
      (req : PutRequest) (event_name : Bytes) (now : ℕ) (b : Event × ℕ) (split : Option Event)
      (s : Store)
      → PutOutcome calls id e req.name s (put_series calls id e req event_name now b split s)
  unfolding put_series series_object
  put_series-PutOutcome req event_name now (series, seq) none s = wrote false _ [] _ refl
  put_series-PutOutcome req event_name now (series, seq) (some edit) s =
      put_split-PutOutcome req event_name now seq
        (calls.plan_split series req.overrides edit req.calendar) s

  put_kind-PutOutcome :
      (req : PutRequest) (now : ℕ) (a : Option Availability) (s : Store)
      → PutOutcome calls id e req.name s (put_kind calls id e req now a s)
  unfolding put_kind put_availability put_event
  put_kind-PutOutcome req now (some a) s = wrote false _ [] _ refl
  put_kind-PutOutcome req now none s = put_series-PutOutcome req _ now _ req.split s

  pub put_guarded-PutOutcome :
      (req : PutRequest) (now : ℕ) (r : Result Error Ack) (s : Store)
      → PutOutcome calls id e req.name s (put_guarded calls id e req now r s)
  unfolding put_guarded
  put_guarded-PutOutcome req now (err x) s = kept_all x s.seq
  put_guarded-PutOutcome req now (ok _) s = put_kind-PutOutcome req now req.availability s
