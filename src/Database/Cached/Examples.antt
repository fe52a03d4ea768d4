-- ===== src/Database/Cached/Examples.antt =====
-- Books in memory, behind a cache.
use runtime_go.Prelude.{
  ◌≡◌, refl, true, false, List, [], ◌∷◌, none, some, if◌then◌else◌, Bytes, codes,
}
use runtime_go.Prelude.Outcome.{ok}
use runtime_go.ContentLine.Line.{equal}
use runtime_go.Cache.Keyspace.{entry}
use runtime_go.Cache.Aside.{get_or_load, invalidate, dropped}
use runtime_go.Cache.Aside.Reads.{Answers, get_or_load-Answers}
use runtime_go.Database.Cached.{World, get, made}
use runtime_go.Database.Cached.Adapter.{inner}
use runtime_go.Prelude.Outcome.{none-some}
use runtime_go.Database.Cached.Coherence.{driver_over, Sound, Reads, Drops}
use runtime_go.Database.Cached.Loading.{view-IsLoader}
use runtime_go.Database.Cached.Transactions.{
  Operation, reading, refreshing, writing, transacting, creating, deleting,
}
use runtime_go.Database.Cached.Writes.{perform_all, get-perform_all}
use runtime_go.Database.Cached.Sharing.{get-hit}
use runtime_go.Database.Cached.Memory.{transact, Book, Memory, memory, settings, HoldsCell, row_of}
use runtime_go.Database.Cached.Promises.{
  books, shelves, books_view, titles, memory-IsBackend, memory-IsJson, memory-IsProto,
  memory-IsTransact, memory-AnswersKeys, memory-IsStore,
}

abbrev at_first : World Memory
at_first = record { asides = []; outer = record { rows = λ key. none; cells = λ k. none } }

abbrev one : Book
one = record { id = codes "b1"; title = 7 }

at_first-Sound : Sound memory settings books HoldsCell row_of at_first
at_first-Sound = record { coherent = λ id body e h u. absurd (none-some h); only = tt }

memory-Drops : (key : Bytes) (t : Memory) → Drops memory settings books key t
unfolding invalidate dropped inner
memory-Drops key t = refl

-- A book is looked for, created, read, and deleted and created anew in a transaction.
abbrev visit : List (Operation Book)
visit =
    reading (codes "b1")
    ∷ writing (creating one)
    ∷ refreshing (codes "b1")
    ∷ reading (codes "b1")
    ∷ transacting (deleting (codes "b1") ∷ creating (record one { title = 8 }) ∷ [])
    ∷ []

get-perform_all_example : Reads memory settings books HoldsCell row_of (codes "b1") (
    get
      (driver_over settings memory)
      books
      (codes "b1")
      (perform_all (driver_over settings memory) settings books transact visit at_first))
get-perform_all_example =
    get-perform_all memory settings books HoldsCell row_of memory-IsStore memory-IsProto
      memory-IsBackend memory-IsJson memory-Drops transact memory-IsTransact memory-AnswersKeys
      visit (codes "b1") at_first at_first-Sound

get_or_load-Answers_example :
    Answers books_view HoldsCell titles
      (codes "b1")
      (get_or_load books_view (codes "b1") settings.options at_first.outer).1
get_or_load-Answers_example =
    get_or_load-Answers books_view HoldsCell titles memory-IsBackend memory-IsJson
      (view-IsLoader memory settings books HoldsCell row_of memory-IsStore) (codes "b1")
      settings.options at_first.outer at_first-Sound.coherent

-- The book b1 is in the cache: a shelf of this key is answered with it.
abbrev cached_book : World Memory
cached_book = record {
  asides = books ∷ [];
  outer = record {
    rows = λ key. none;
    cells = λ k.
        if equal k (entry settings.base.keys (codes "b1"))
        then some (0 ∷ 0 ∷ 7 ∷ codes "b1")
        else none;
  };
}

cached_cell :
    settings.base.driver.get (entry settings.base.keys (codes "b1")) cached_book.outer
    ≡ (ok (0 ∷ 0 ∷ 7 ∷ codes "b1"), cached_book.outer)
unfolding entry equal
cached_cell = refl

get-hit_example :
    ((get (driver_over settings memory) shelves (codes "b1") cached_book).0
      ≡ made (driver_over settings memory) shelves (7 ∷ codes "b1") true)
    × ((get (driver_over settings memory) shelves (codes "b1") cached_book).1.outer
        ≡ cached_book.outer)
get-hit_example =
    get-hit memory settings shelves cached_book (codes "b1") (0 ∷ 0 ∷ 7 ∷ codes "b1")
      (7 ∷ codes "b1") (record { value = 7 ∷ codes "b1"; fresh = 0; void = false })
      cached_book.outer cached_cell refl refl refl
