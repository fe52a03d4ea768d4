-- ===== src/Database/Cached/Promises.antt =====
-- The store and the cache in memory keep the promises that a cached driver relies on.
use runtime_go.Prelude.{
  ℕ, ◌≡◌, ◌≢◌, inl, inr, refl, sym, ap, ◌∙◌, Bool, true, false, List, [], ◌∷◌, Option, none, some,
  Bytes, codes,
}
use runtime_go.Prelude.Table.{put, put-some, put_here, put_others}
use runtime_go.Prelude.Outcome.{Result, ok, err, ack, ok-injective}
use runtime_go.ContentLine.Line.{equal}
use runtime_go.Cache.Aside.{Aside}
use runtime_go.Cache.Aside.Coherence.{Keeps, Writes, IsBackend, IsJson}
use runtime_go.Database.Cached.{Error, Resource, WriteResult, key_of, either_key}
use runtime_go.Database.Cached.Adapter.{inner}
use runtime_go.Prelude.Outcome.{none-some}
use runtime_go.Database.Cached.Coherence.{
  driver_over, view, truth, Untouched, Touched, IsStore, IsProto,
}
use runtime_go.Database.Cached.{find_column, pk, key_at, text_at}
use runtime_go.Database.Cached.Transactions.{Touch}
use runtime_go.Database.Cached.Recording.{IsTransact, AnswersKeys}
use runtime_go.Database.Cached.Memory.{
  settle, transact, Book, Memory, cell, add_cell, flag, open_frame, found, create_book, update_book,
  delete_book, book_of, memory, settings, HoldsCell, row_of,
}

abbrev pub books : Resource
books = record {
  name = codes "Book";
  pk_column = codes "id";
  has_new = true;
  columns = record { name = codes "id"; field = codes "id" } ∷ [];
}

-- The same table, but for another resource.
abbrev pub shelves : Resource
shelves = record books { name = codes "Shelf" }

abbrev pub books_view : Aside Memory Bytes
books_view = view memory settings books

abbrev pub titles : Memory → Bytes → Option Bytes
titles = truth memory settings books HoldsCell row_of

cell-state : (o : Option Bytes) (t : Memory) → (cell o t).1 ≡ t
cell-state none t = refl
cell-state (some b) t = refl

cell-ok : (o : Option Bytes) (t : Memory) (v : Bytes) → (cell o t).0 ≡ ok v → o ≡ some v
cell-ok none t v h = cc
cell-ok (some b) t v h = cc

same-Keeps : (t t' : Memory) → t' ≡ t → Keeps books_view HoldsCell titles t t'
same-Keeps t t' h = record {
  holds-keeps = λ k v x. ap (λ (u : Memory). u.cells k) (sym h) ∙ x;
  truth-keeps = λ id. ap (λ (u : Memory). titles u id) h;
}

set-Writes :
    (k v : Bytes) (t : Memory)
    → Writes books_view HoldsCell titles k v t (record t { cells = put k (some v) t.cells })
set-Writes k v t = record {
  holds-writes = λ j u h. elim (put-some k j (some v) t.cells u h) [
    | inl (p, q) ↦ inl (p, (cc))
    | inr old ↦ inr old
  ];
  truth-writes = λ id. refl;
}

add-Writes :
    (k v : Bytes) (o : Option Bytes) (t : Memory)
    → Writes books_view HoldsCell titles k v t (add_cell k v o t).1
add-Writes k v none t = set-Writes k v t
add-Writes k v (some b) t = record { holds-writes = λ j u h. inr h; truth-writes = λ id. refl }

pub memory-IsBackend : IsBackend books_view HoldsCell titles
unfolding inner
memory-IsBackend = record {
  get-holds = λ k v t h.
      ap (λ (u : Memory). u.cells k) (cell-state (t.cells k) t) ∙ cell-ok (t.cells k) t v h;
  get-Keeps = λ k t. same-Keeps t _ (cell-state (t.cells k) t);
  set-Writes = λ k v n t. set-Writes k v t;
  add-Writes = λ k v n t. add-Writes k v (t.cells k) t;
  delete-ok = λ k v t h x. none-some (sym (put_here k none t.cells) ∙ x);
  delete-Keeps = λ k t. record {
    holds-keeps = λ j v h. elim (put-some k j none t.cells v h) [
      | inl (p, q) ↦ absurd (none-some q)
      | inr old ↦ old
    ];
    truth-keeps = λ id. refl;
  };
  delete_if-Keeps = λ f h. absurd (none-some h);
  random-Keeps = λ t. same-Keeps t t refl;
}

open_frame-flag :
    (n : ℕ) (v : Bool) (b : Bytes)
    → open_frame (n ∷ flag v ∷ b) ≡ ok (record { value = b; fresh = n; void = v })
open_frame-flag n true b = refl
open_frame-flag n false b = refl

pub memory-IsJson : IsJson books_view HoldsCell titles
unfolding inner
memory-IsJson = record {
  unmarshal-marshal = λ v b h. sym h;
  unframe-frame =
      λ e b h. ap open_frame (ok-injective (sym h)) ∙ open_frame-flag e.fresh e.void e.value;
}

pub memory-IsProto : IsProto memory settings books HoldsCell row_of
memory-IsProto = record {
  marshal-ok = λ t key m h. (m.title ∷ m.id, refl);
  unmarshal-marshal = λ m b h. ap book_of (ok-injective (sym h));
}

same-Untouched : (t t' : Memory) → t' ≡ t → Untouched memory settings books HoldsCell row_of t t'
same-Untouched t t' h = record {
  records-same = λ key. ap (λ (u : Memory). u.rows key) h;
  holds-same = λ k v x. ap (λ (u : Memory). u.cells k) (sym h) ∙ x;
}

put-Touched :
    (key : Bytes) (o : Option Book) (t t' : Memory)
    → t' ≡ record t { rows = put key o t.rows }
    → Touched memory settings books HoldsCell row_of key t t'
put-Touched key o t t' h = record {
  records-others = λ j n. ap (λ (u : Memory). u.rows j) h ∙ put_others key j o t.rows n;
  holds-same = λ k v x. ap (λ (u : Memory). u.cells k) (sym h) ∙ x;
}

found-state : (key : Bytes) (o : Option Book) (t : Memory) → (found key o t).1 ≡ t
found-state key none t = refl
found-state key (some m) t = refl

found-ok :
    (key : Bytes) (o : Option Book) (t : Memory) (m : Book) → (found key o t).0 ≡ ok m → o ≡ some m
found-ok key none t m h = cc
found-ok key (some x) t m h = ap some (ok-injective h)

found-none :
    (key : Bytes) (o : Option Book) (t : Memory) (e : Error) → (found key o t).0 ≡ err e → o ≡ none
found-none key none t e h = refl
found-none key (some x) t e h = cc

-- What a write that succeeds does.
abbrev Stored :
    Book → Bytes → Memory → Result Error (WriteResult Book) × Memory → WriteResult Book → Type 0
Stored m id t o out =
    (out.message ≡ m) × (id ≢ []) × (o.1 ≡ record t { rows = put m.id (some m) t.rows })

create_book-ok :
    (m : Book) (id : Bytes) (o : Option Book) (t : Memory) (out : WriteResult Book)
    → (create_book m id o t).0 ≡ ok out
    → Stored m id t (create_book m id o t) out
create_book-ok m [] o t out h = cc
create_book-ok m (c ∷ id) (some _) t out h = cc
create_book-ok m (c ∷ id) none t out h =
    (ap (λ (w : WriteResult Book). w.message) (ok-injective (sym h)), (λ n. cc), refl)

create_book-err :
    (m : Book) (id : Bytes) (o : Option Book) (t : Memory) (e : Error)
    → (create_book m id o t).0 ≡ err e
    → (create_book m id o t).1 ≡ t
create_book-err m [] o t e h = refl
create_book-err m (c ∷ id) (some _) t e h = refl
create_book-err m (c ∷ id) none t e h = cc

update_book-ok :
    (m : Book) (id : Bytes) (o : Option Book) (t : Memory) (out : WriteResult Book)
    → (update_book m id o t).0 ≡ ok out
    → Stored m id t (update_book m id o t) out
update_book-ok m [] o t out h = cc
update_book-ok m (c ∷ id) none t out h = cc
update_book-ok m (c ∷ id) (some _) t out h =
    (ap (λ (w : WriteResult Book). w.message) (ok-injective (sym h)), (λ n. cc), refl)

update_book-err :
    (m : Book) (id : Bytes) (o : Option Book) (t : Memory) (e : Error)
    → (update_book m id o t).0 ≡ err e
    → (update_book m id o t).1 ≡ t
update_book-err m [] o t e h = refl
update_book-err m (c ∷ id) none t e h = refl
update_book-err m (c ∷ id) (some _) t e h = cc

delete_book-ok :
    (id : Bytes) (o : Option Book) (t : Memory)
    → (delete_book id o t).0 ≡ ok ack
    → (id ≢ []) × ((delete_book id o t).1 ≡ record t { rows = put id none t.rows })
delete_book-ok [] o t h = cc
delete_book-ok (c ∷ id) none t h = cc
delete_book-ok (c ∷ id) (some _) t h = ((λ n. cc), refl)

delete_book-err :
    (id : Bytes) (o : Option Book) (t : Memory) (e : Error)
    → (delete_book id o t).0 ≡ err e
    → (delete_book id o t).1 ≡ t
delete_book-err [] o t e h = refl
delete_book-err (c ∷ id) none t e h = refl
delete_book-err (c ∷ id) (some _) t e h = cc

key_of-books : (m : Book) → key_of (driver_over settings memory) books m ≡ ok m.id
unfolding key_of pk find_column key_at text_at equal
key_of-books m = refl

written_key :
    (m x : Book)
    → x ≡ m
    → either_key
        (driver_over settings memory)
        (key_of (driver_over settings memory) books x)
        (key_of (driver_over settings memory) books m)
      ≡ ok m.id
unfolding either_key
written_key m x h = rw (key_of-books x, h) refl

pub memory-IsStore : IsStore memory settings books HoldsCell row_of
memory-IsStore = record {
  get-ok = λ key m t h.
      ap (λ (u : Memory). u.rows key) (found-state key (t.rows key) t)
      ∙ found-ok key (t.rows key) t m h;
  get-not_found = λ key e t h n.
      ap (λ (u : Memory). u.rows key) (found-state key (t.rows key) t)
      ∙ found-none key (t.rows key) t e h;
  get-Untouched = λ key t. same-Untouched t _ (found-state key (t.rows key) t);
  create-ok = λ m out t h.
      let (e, n, f) = create_book-ok m m.id (t.rows m.id) t out h in
      (m.id, written_key m out.message e, n, put-Touched m.id (some m) t _ f);
  create-err = λ m e t h. same-Untouched t _ (create_book-err m m.id (t.rows m.id) t e h);
  update-ok = λ m out t h.
      let (e, n, f) = update_book-ok m m.id (t.rows m.id) t out h in
      (m.id, key_of-books m, n, put-Touched m.id (some m) t _ f);
  update-err = λ m e t h. same-Untouched t _ (update_book-err m m.id (t.rows m.id) t e h);
  delete-ok = λ key t h.
      let (n, f) = delete_book-ok key (t.rows key) t h in (n, put-Touched key none t _ f);
  delete-err = λ key e t h. same-Untouched t _ (delete_book-err key (t.rows key) t e h);
}

settle-ok :
    (t : Memory) (o : Result Error (List Touch) × Memory) (xs : List Touch)
    → (settle t o).0 ≡ ok xs
    → (o.0 ≡ ok xs) × ((settle t o).1 ≡ o.1)
settle-ok t (ok ys, u) xs h = (h, refl)
settle-ok t (err e, u) xs h = cc

settle-err :
    (t : Memory) (o : Result Error (List Touch) × Memory) (e : Error)
    → (settle t o).0 ≡ err e
    → (settle t o).1 ≡ t
settle-err t (ok ys, u) e h = cc
settle-err t (err x, u) e h = refl

pub memory-IsTransact : IsTransact memory settings books HoldsCell row_of memory-IsStore transact
memory-IsTransact = record {
  commit = λ f t xs h.
      let (a, b) = settle-ok t (f t) xs h in
      (t, same-Untouched t t refl, a, same-Untouched (f t).1 (settle t (f t)).1 b);
  rollback = λ f t e h. same-Untouched t (settle t (f t)).1 (settle-err t (f t) e h);
}

pub memory-AnswersKeys : AnswersKeys memory settings books HoldsCell row_of memory-IsStore
memory-AnswersKeys m out t h = (out.message.id, key_of-books out.message)
