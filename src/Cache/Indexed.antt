-- ===== src/Cache/Indexed.antt =====
-- cache/core/filing.go: the sets of the ids under an index's value, and the record of the values that
-- an id is filed under.
pub mod Pairs
pub mod Dropped
pub mod Filed
pub mod Examples
use runtime_go.Prelude.{
  Bool, true, false, List, [], ◌∷◌, ◌++◌, map, Option, none, some, Bytes, codes,
}
use runtime_go.Prelude.Outcome.{Result, ok, err, Ack, ack}
use runtime_go.ContentLine.Text.{cut_byte}
use runtime_go.ContentLine.Line.{contains}
use runtime_go.Cache.Keyspace.{Keyspace, by, fields}
use runtime_go.Cache.Aside.{DriverError}

-- The interface Sets of a backend, and the Delete of one key of its driver.
pub record Sets (T : Type 0) : Type 0 where
  pub set_add : Bytes → List Bytes → T → Result DriverError Ack × T
  pub set_remove : Bytes → List Bytes → T → Result DriverError Ack × T
  pub set_members : Bytes → T → Result DriverError (List Bytes) × T
  pub delete_key : Bytes → T → Result DriverError Ack × T

-- Errors, with the errors that they wrap.
pub data FilingError : Type 0 where
  driver_error : DriverError → FilingError
  filing unfiling : Bytes → Bytes → DriverError → FilingError
  recording reading_indexes : Bytes → DriverError → FilingError

unfoldable pub pair : Bytes → Bytes → Bytes
pair field value = field ++ b'=' ∷ value

-- A map of fields to values, in the order in which a range visits it.
abbrev pub Indexes : Type 0
Indexes = List (Bytes × Bytes)

unfoldable pub pairs : Indexes → List Bytes
pairs [] = []
pairs ((field, value) ∷ rest) = pair field value ∷ pairs rest

abbrev pub halves : Bytes → Option (Bytes × Bytes) → Bytes × Bytes
halves p none = (p, [])
halves p (some x) = x

-- strings.Cut at '=', without whether it was found.
unfoldable pub cut_pair : Bytes → Bytes × Bytes
cut_pair p = halves p (cut_byte b'=' p)

-- The next step, where a call has not failed, and else its error, wrapped.
unfoldable pub and_then :
    {T A B : Type 0}
    → (DriverError → FilingError)
    → (A → T → Result FilingError B × T)
    → Result DriverError A × T
    → Result FilingError B × T
and_then wrap next (ok a, t) = next a t
and_then wrap next (err e, t) = (err (wrap e), t)

unfoldable pub after :
    {T A B : Type 0}
    → (A → T → Result FilingError B × T)
    → Result FilingError A × T
    → Result FilingError B × T
after next (ok a, t) = next a t
after next (err e, t) = (err e, t)

abbrev pub done : {T A : Type 0} → A → T → Result FilingError Ack × T
done a t = (ok ack, t)

module _ {T : Type 0} (sets : Sets T) (keys : Keyspace) (id : Bytes) where
  unfoldable pub file_each : Indexes → T → Result FilingError Ack × T
  file_each [] t = (ok ack, t)
  file_each ((field, value) ∷ rest) t =
      and_then (filing id field) (λ a. file_each rest)
        (sets.set_add (by keys field value) (id ∷ []) t)

  unfoldable pub record_pairs : Indexes → Ack → T → Result FilingError Ack × T
  record_pairs want a t =
      and_then (recording id) done (sets.set_add (fields keys id) (pairs want) t)

  unfoldable pub file : Indexes → T → Result FilingError Ack × T
  file [] t = (ok ack, t)
  file (x ∷ rest) t = after (record_pairs (x ∷ rest)) (file_each (x ∷ rest) t)

  -- The id is taken out of the set of one pair.
  unfoldable pub unfile_from : Bytes → T → Result FilingError Ack × T
  unfile_from p t =
      and_then (unfiling id (cut_pair p).0) done
        (sets.set_remove (by keys (cut_pair p).0 (cut_pair p).1) (id ∷ []) t)

  unfoldable pub add_dropped :
      Bytes → Result FilingError (List Bytes) × T → Result FilingError (List Bytes) × T
  add_dropped p (ok dropped, t) = (ok (p ∷ dropped), t)
  add_dropped p (err e, t) = (err e, t)

  unfoldable pub drop_step :
      Bool
      → Bytes
      → (T → Result FilingError (List Bytes) × T)
      → T
      → Result FilingError (List Bytes) × T
  drop_step true p rest t = rest t
  drop_step false p rest t = after (λ a t'. add_dropped p (rest t')) (unfile_from p t)

  -- The id is taken out of the sets of the pairs that are not kept, which are the answer.
  unfoldable pub drop_pairs : List Bytes → List Bytes → T → Result FilingError (List Bytes) × T
  drop_pairs keep [] t = (ok [], t)
  drop_pairs keep (p ∷ had) t = drop_step (contains keep p) p (drop_pairs keep had) t

  -- Whether this removal fails is not asked.
  unfoldable pub forget_pairs : List Bytes → T → T
  forget_pairs [] t = t
  forget_pairs (p ∷ dropped) t = (sets.set_remove (fields keys id) (p ∷ dropped) t).1

  unfoldable pub refile_dropped : Indexes → List Bytes → T → Result FilingError Ack × T
  refile_dropped want dropped t = file want (forget_pairs dropped t)

  unfoldable pub refile_had : Indexes → List Bytes → T → Result FilingError Ack × T
  refile_had want had t = after (refile_dropped want) (drop_pairs (pairs want) had t)

  unfoldable pub refile : Indexes → T → Result FilingError Ack × T
  refile want t =
      and_then (reading_indexes id) (refile_had want) (sets.set_members (fields keys id) t)

  unfoldable pub unfile_all : List Bytes → T → Result FilingError Ack × T
  unfile_all [] t = (ok ack, t)
  unfile_all (p ∷ had) t = after (λ a. unfile_all had) (unfile_from p t)

  unfoldable pub unfile_had : List Bytes → T → Result FilingError Ack × T
  unfile_had had t =
      after (λ a t'. and_then driver_error done (sets.delete_key (fields keys id) t'))
        (unfile_all had t)

  unfoldable pub unfile : T → Result FilingError Ack × T
  unfile t = and_then (reading_indexes id) unfile_had (sets.set_members (fields keys id) t)
