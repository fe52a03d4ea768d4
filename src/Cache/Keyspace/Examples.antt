-- ===== src/Cache/Keyspace/Examples.antt =====
-- The keys of a database of orders.
use runtime_go.Prelude.{◌≡◌, ◌≢◌, refl, false, [], codes}
use runtime_go.Prelude.Outcome.{ok, ack}
use runtime_go.ContentLine.Text.Laws.{Lacks}
use runtime_go.ContentLine.Text.{cut_byte}
use runtime_go.Cache.Keyspace.{
  Keyspace, segment, db_segment, new_keyspace, check_namespace, strategy, entry, by,
}
use runtime_go.Cache.Keyspace.Names.{by_name, key_of-injective}
use runtime_go.Cache.Keyspace.Heads.{head-apart}

abbrev orders : Keyspace
orders = record { base = codes "app:orders:cache:" }

orders_base : new_keyspace (codes "app") (codes "orders") 0 false ≡ orders
unfolding new_keyspace segment db_segment
orders_base = refl

doc_entry :
    entry (strategy orders (codes "doc")) (codes "42") ≡ codes "app:orders:cache:doc:entry:42"
unfolding entry strategy
doc_entry = refl

by_key :
    by (strategy orders (codes "idx")) (codes "tenant") (codes "a:b")
    ≡ codes "app:orders:cache:idx:by:tenant:a:b"
unfolding by strategy
by_key = refl

doc-Lacks : Lacks b':' (codes "doc")
doc-Lacks = ((λ h. cc), ((λ h. cc), ((λ h. cc), tt)))

tag-Lacks : Lacks b':' (codes "tag")
tag-Lacks = ((λ h. cc), ((λ h. cc), ((λ h. cc), tt)))

key_of-injective_example :
    (codes "doc" ≡ codes "doc")
    × (by_name (codes "tag") (codes "a:b") ≡ by_name (codes "tag") (codes "a:b"))
key_of-injective_example =
    key_of-injective orders (codes "doc") (codes "doc") (by_name (codes "tag") (codes "a:b"))
      (by_name (codes "tag") (codes "a:b")) doc-Lacks doc-Lacks tag-Lacks tag-Lacks refl

accepted : check_namespace (codes "orders") ≡ ok ack
unfolding check_namespace cut_byte
accepted = refl

refused : check_namespace (codes "app:orders") ≢ ok ack
unfolding check_namespace cut_byte
refused h = cc

head-apart_example : codes "orders" ≡ codes "orders"
head-apart_example =
    head-apart (codes "app") (codes "orders") (codes "orders") 0 0 false false [] [] accepted
      accepted refl
