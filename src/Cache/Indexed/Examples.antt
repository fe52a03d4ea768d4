-- ===== src/Cache/Indexed/Examples.antt =====
-- The filing of an entry in a backend that keeps its sets as lists.
use runtime_go.Prelude.{
  ◌≡◌, refl, sym, ap, ◌∙◌, Bool, Bool-cases, inl, inr, true, false, ◌&&◌, ◌||◌, not, List, [], ◌∷◌,
  ◌++◌, Bytes, arith, codes, if◌then◌else◌,
}
use runtime_go.Prelude.Outcome.{ok, ack, ok-injective}
use runtime_go.ContentLine.Text.{cut_byte}
use runtime_go.ContentLine.Line.{equal, contains}
use runtime_go.ContentLine.Line.Equal.{equal_sound}
use runtime_go.Cache.Keyspace.{Keyspace, by, fields}
use runtime_go.Cache.Indexed.{
  Sets, pair, pairs, cut_pair, and_then, after, file_each, record_pairs, file, unfile_from,
  add_dropped, drop_step, drop_pairs, forget_pairs, refile_dropped, refile_had, refile, unfile,
}
use runtime_go.Cache.Indexed.Pairs.{IsSets, IsField}
use runtime_go.Cache.Indexed.Filed.{IsFiled, file-stands, unfile-refile}

abbrev Shelves : Type 0
Shelves = Bytes → List Bytes

unfoldable minus : List Bytes → List Bytes → List Bytes
unfolding contains
minus [] xs = []
minus (y ∷ ys) xs = if contains xs y then minus ys xs else y ∷ minus ys xs

unfoldable at : Bytes → (List Bytes → List Bytes) → Shelves → Shelves
unfolding equal
at k change t j = if equal k j then change (t j) else t j

unfoldable on : Shelves → Bytes → Bytes → Bool
unfolding contains
on t j x = contains (t j) x

abbrev shelves : Sets Shelves
shelves = record {
  set_add = λ k xs t. (ok ack, at k (λ ys. xs ++ ys) t);
  set_remove = λ k xs t. (ok ack, at k (λ ys. minus ys xs) t);
  set_members = λ k t. (ok (t k), t);
  delete_key = λ k t. (ok ack, at k (λ ys. []) t);
}

contains-union :
    (xs ys : List Bytes) (x : Bytes) → contains (xs ++ ys) x ≡ (contains xs x || contains ys x)
unfolding contains
contains-union [] ys x = refl
contains-union (y ∷ xs) ys x = ground (arith, contains-union xs ys x)

contains-minus :
    (ys xs : List Bytes) (x : Bytes)
    → contains (minus ys xs) x ≡ (contains ys x && not (contains xs x))
unfolding minus contains
contains-minus [] xs x = refl
contains-minus (y ∷ ys) xs x = elim (Bool-cases (equal y x)) [
  | inl e ↦
      let q = ap (contains xs) (equal_sound y x e) in ground (arith, e, q, contains-minus ys xs x)
  | inr e ↦ ground (arith, e, contains-minus ys xs x)
]

-- Elsewhere a change of one set changes nothing.
on-at :
    (k : Bytes) (change : List Bytes → List Bytes) (t : Shelves) (j x : Bytes)
    → on (at k change t) j x ≡ (if equal k j then contains (change (t j)) x else on t j x)
unfolding on at
on-at k change t j x = ground arith

shelves-IsSets : IsSets shelves on
shelves-IsSets = record {
  members = λ k t h x. unfold on in (sym (ap (λ (z : List Bytes). contains z x) (ok-injective h)));
  members-same = λ k t j x. refl;
  added = λ k xs t h j x.
      on-at k (λ ys. xs ++ ys) t j x ∙ unfold on in (ground (arith, contains-union xs (t j) x));
  removed = λ k xs t h j x.
      on-at k (λ ys. minus ys xs) t j x ∙ unfold on in (ground (arith, contains-minus (t j) xs x));
  remove-only = λ k xs t j x h.
      let e = on-at k (λ ys. minus ys xs) t j x in
      unfold on in (ground (arith, contains-minus (t j) xs x, e, h));
  delete-only =
      λ k t j x h. let e = on-at k (λ ys. []) t j x in unfold on contains in (ground (arith, e, h));
}

abbrev users : Keyspace
users = record { base = codes "users:" }

abbrev email : Bytes
email = codes "email"

email-IsField : IsField email
email-IsField = (
  ((λ h. cc), ((λ h. cc), ((λ h. cc), ((λ h. cc), ((λ h. cc), tt))))),
  ((λ h. cc), ((λ h. cc), ((λ h. cc), ((λ h. cc), ((λ h. cc), tt))))),
)

abbrev filed : Shelves
filed = (file shelves users (codes "u1") ((email, codes "old") ∷ []) (λ k. [])).1

filed_ok : (file shelves users (codes "u1") ((email, codes "old") ∷ []) (λ k. [])).0 ≡ ok ack
unfolding file file_each and_then after record_pairs
filed_ok = refl

filed-IsFiled : IsFiled shelves users (codes "u1") on shelves-IsSets filed
unfolding contains on
filed-IsFiled f v p h =
    let (now, rec) =
      file-stands shelves users (codes "u1") on shelves-IsSets f v p ((email, codes "old") ∷ [])
        (λ k. []) (email-IsField, tt) filed_ok in
    rec (sym now ∙ h)

-- A user whose address changes, and who is then deleted.
abbrev moved : Shelves
moved = (refile shelves users (codes "u1") ((email, codes "new") ∷ []) filed).1

moved_ok : (refile shelves users (codes "u1") ((email, codes "new") ∷ []) filed).0 ≡ ok ack
unfolding refile and_then refile_had after drop_pairs file file_each record_pairs at fields pairs
    drop_step contains pair unfile_from add_dropped by cut_pair forget_pairs refile_dropped equal
    cut_byte
moved_ok = refl

unfile-refile_example :
    (on moved (by users email (codes "old")) (codes "u1")
      ≡ contains (pairs ((email, codes "new") ∷ [])) (pair email (codes "old")))
    × ((unfile shelves users (codes "u1") moved).0 ≡ ok ack
        → on (unfile shelves users (codes "u1") moved).1 (by users email (codes "old")) (codes "u1")
          ≡ false)
unfile-refile_example =
    unfile-refile shelves users (codes "u1") on shelves-IsSets ((email, codes "new") ∷ []) filed
      (email-IsField, tt) filed-IsFiled moved_ok email (codes "old") email-IsField

moved_away : on moved (by users email (codes "old")) (codes "u1") ≡ false
unfolding refile and_then refile_had after drop_pairs file file_each record_pairs at fields pairs
    drop_step contains pair unfile_from add_dropped by cut_pair forget_pairs refile_dropped equal
    cut_byte on minus
moved_away = refl

found_anew : on moved (by users email (codes "new")) (codes "u1") ≡ true
unfolding refile and_then refile_had after drop_pairs file file_each record_pairs at fields pairs
    drop_step contains pair unfile_from add_dropped by cut_pair forget_pairs refile_dropped equal
    cut_byte on minus
found_anew = refl
