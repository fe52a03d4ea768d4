-- ===== src/Database/Cached/Transactions.antt =====
-- database/cached/cached.go: cachedTx, which runs a transaction, and recorder, the driver that its
-- body writes through.
use runtime_go.Prelude.{List, [], ◌∷◌, ◌++◌, Bytes}
use runtime_go.Prelude.Outcome.{Result, ok, err, Ack, ack}
use runtime_go.Database.Cached.{Error, Resource, WriteResult, Store, Driver, World, key_of, forget}

pub record Touch : Type 0 where
  pub res : Resource
  pub key : Bytes

-- The world inside a transaction, and what the recorder has touched.
pub record Recorded (T : Type 0) : Type 0 where
  pub outer : T
  pub touched : List Touch

-- The interface Transactional: runs a body, which answers what it has touched, and commits or rolls
-- back.
abbrev pub Transact : Type 0 → Type 0
Transact T = (T → Result Error (List Touch) × T) → T → Result Error (List Touch) × T

-- A write of one record, and what is done through a driver, the cache's refreshes included.
pub data Write (M : Type 0) : Type 0 where
  creating updating : M → Write M
  deleting : Bytes → Write M

pub data Operation (M : Type 0) : Type 0 where
  reading refreshing : Bytes → Operation M
  writing : Write M → Operation M
  transacting : List (Write M) → Operation M

module _ {T M : Type 0} (d : Driver T M) where
  unfoldable pub noted : Resource → Result Error Bytes → List Touch → List Touch
  noted r (ok key) touched = touched ++ record { res = r; key = key } ∷ []
  noted r (err e) touched = touched

  unfoldable pub note_created :
      Resource
      → List Touch
      → Result Error (WriteResult M) × T
      → Result Error (WriteResult M) × Recorded T
  note_created r touched (err e, t) = (err e, record { outer = t; touched = touched })
  note_created r touched (ok out, t) =
      (ok out, record { outer = t; touched = noted r (key_of d r out.message) touched })

  unfoldable pub note_updated :
      Resource
      → M
      → List Touch
      → Result Error (WriteResult M) × T
      → Result Error (WriteResult M) × Recorded T
  note_updated r m touched (err e, t) = (err e, record { outer = t; touched = touched })
  note_updated r m touched (ok out, t) =
      (ok out, record { outer = t; touched = noted r (key_of d r m) touched })

  unfoldable pub note_deleted :
      Resource → Bytes → List Touch → Result Error Ack × T → Result Error Ack × Recorded T
  note_deleted r key touched (err e, t) = (err e, record { outer = t; touched = touched })
  note_deleted r key touched (ok a, t) =
      (ok a, record { outer = t; touched = touched ++ record { res = r; key = key } ∷ [] })

  -- The recorder over the transaction's driver, which acts as the driver underneath does.
  unfoldable pub recorder : Store (Recorded T) M
  recorder = record {
    get = λ r key w.
        let (o, t) = d.next.get r key w.outer in (o, record { outer = t; touched = w.touched });
    create = λ r m w. note_created r w.touched (d.next.create r m w.outer);
    update = λ r m w. note_updated r m w.touched (d.next.update r m w.outer);
    delete = λ r key w. note_deleted r key w.touched (d.next.delete r key w.outer);
  }

  -- What the body of a transaction answers.
  unfoldable pub closed : Result Error Ack × Recorded T → Result Error (List Touch) × T
  closed (err e, w) = (err e, w.outer)
  closed (ok _, w) = (ok w.touched, w.outer)

  unfoldable pub forget_all : List Touch → World T → World T
  forget_all [] w = w
  forget_all (x ∷ xs) w = forget_all xs (forget d x.res x.key w)

  unfoldable pub ended : List Resource → Result Error (List Touch) × T → Result Error Ack × World T
  ended asides (err e, t) = (err e, record { asides = asides; outer = t })
  ended asides (ok touched, t) =
      (ok ack, forget_all touched (record { asides = asides; outer = t }))

  -- cachedTx.Run
  unfoldable pub run :
      Transact T
      → (Store (Recorded T) M → Recorded T → Result Error Ack × Recorded T)
      → World T
      → Result Error Ack × World T
  run transact body w =
      ended w.asides
        (transact (λ t. closed (body recorder (record { outer = t; touched = [] }))) w.outer)

-- A body that makes its writes in order, up to the first that fails.
module _ {S M : Type 0} (store : Store S M) (r : Resource) where
  unfoldable pub acked : {A : Type 0} → Result Error A × S → Result Error Ack × S
  acked (ok _, s) = (ok ack, s)
  acked (err e, s) = (err e, s)

  unfoldable pub write_one : Write M → S → Result Error Ack × S
  write_one (creating m) s = acked (store.create r m s)
  write_one (updating m) s = acked (store.update r m s)
  write_one (deleting key) s = store.delete r key s

  unfoldable pub go_on : (S → Result Error Ack × S) → Result Error Ack × S → Result Error Ack × S
  go_on next (ok _, s) = next s
  go_on next (err e, s) = (err e, s)

  unfoldable pub write_all : List (Write M) → S → Result Error Ack × S
  write_all [] s = (ok ack, s)
  write_all (w ∷ ws) s = go_on (write_all ws) (write_one w s)
