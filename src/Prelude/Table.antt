-- ===== src/Prelude/Table.antt =====
-- Maps by name, as functions, and lists of their keys in the order in which they were put.
use runtime_go.Prelude.{
  ◌≡◌, ◌≢◌, ◌⊎◌, inl, inr, refl, sym, ap, ◌∙◌, Bool, Bool-cases, true, false, not, ◌&&◌, ◌||◌, List,
  [], ◌∷◌, ◌++◌, Option, none, some, if◌then◌else◌, Bytes, arith,
}
use runtime_go.ContentLine.Line.{equal, contains}
use runtime_go.ContentLine.Line.Equal.{equal_refl, equal_sound}

abbrev pub Table : Type 0 → Type 0
Table A = Bytes → Option A

module _ {A : Type 0} where
  abbrev pub put : Bytes → Option A → Table A → Table A
  put n v f = λ m. if equal m n then v else f m

  abbrev pub is_some : Option A → Bool
  is_some none = false
  is_some (some _) = true

  pub put-some :
      (n m : Bytes) (v : Option A) (f : Table A) (x : A)
      → put n v f m ≡ some x
      → ((m ≡ n) × (v ≡ some x)) ⊎ (f m ≡ some x)
  put-some n m v f x h = elim (Bool-cases (equal m n)) [
    | inl e ↦ inl (equal_sound m n e, sym (rw (e) refl) ∙ h)
    | inr e ↦ inr (sym (rw (e) refl) ∙ h)
  ]

  pub put_here : (n : Bytes) (v : Option A) (f : Table A) → put n v f n ≡ v
  put_here n v f = rw (equal_refl n) refl

  pub put_others : (n m : Bytes) (v : Option A) (f : Table A) → m ≢ n → put n v f m ≡ f m
  put_others n m v f d = elim (Bool-cases (equal m n)) [
    | inl e ↦ absurd (d (equal_sound m n e))
    | inr e ↦ rw (e) refl
  ]

-- slices.DeleteFunc at the equal names.
unfoldable pub without : Bytes → List Bytes → List Bytes
without n [] = []
without n (x ∷ xs) = let rest = without n xs in if equal x n then rest else x ∷ rest

unfoldable pub distinct : List Bytes → Bool
distinct [] = true
distinct (x ∷ xs) = not (contains xs x) && distinct xs

pub equal_sym : (m n : Bytes) → equal m n ≡ equal n m
unfolding equal
equal_sym [] [] = refl
equal_sym [] (b ∷ n) = refl
equal_sym (a ∷ m) [] = refl
equal_sym (a ∷ m) (b ∷ n) = ground (arith, equal_sym m n)

contains-append :
    (xs : List Bytes) (x n : Bytes) → contains (xs ++ x ∷ []) n ≡ (contains xs n || equal x n)
unfolding contains
contains-append [] x n = ground arith
contains-append (y ∷ xs) x n = ground (arith, contains-append xs x n)

distinct-append :
    (xs : List Bytes) (x : Bytes)
    → distinct xs ≡ true
    → contains xs x ≡ false
    → distinct (xs ++ x ∷ []) ≡ true
unfolding distinct contains
distinct-append [] x d h = refl
distinct-append (y ∷ xs) x d h =
    ground (arith, distinct-append xs x, contains-append xs x y, equal_sym x y)

contains-without :
    (n : Bytes) (xs : List Bytes) (m : Bytes)
    → contains (without n xs) m ≡ (contains xs m && not (equal m n))
unfolding without contains
contains-without n [] m = refl
contains-without n (x ∷ xs) m = elim (Bool-cases (equal x n)) [
  | inl e ↦
      let q : equal x m ≡ equal m n = ap (λ y. equal y m) (equal_sound x n e) ∙ equal_sym n m in
      ground (arith, e, q, contains-without n xs m)
  | inr e ↦ elim (Bool-cases (equal x m)) [
    | inl h ↦
        let q : equal m n ≡ equal x n = ap (λ y. equal y n) (sym (equal_sound x m h)) in
        ground (arith, e, h, q, contains-without n xs m)
    | inr h ↦ ground (arith, e, h, contains-without n xs m)
  ]
]

distinct-without :
    (n : Bytes) (xs : List Bytes) → distinct xs ≡ true → distinct (without n xs) ≡ true
unfolding without distinct
distinct-without n [] d = refl
distinct-without n (x ∷ xs) d = ground (arith, distinct-without n xs, contains-without n xs x)

-- The list names each key of the map, once.
pub record Lists {A : Type 0} (f : Table A) (order : List Bytes) : Type 0 where
  pub listed : (n : Bytes) → contains order n ≡ is_some (f n)
  pub once : distinct order ≡ true

module _ {A : Type 0} (f : Table A) (order : List Bytes) (l : Lists f order) where
  pub Lists-append : (n : Bytes) (v : A) → f n ≡ none → Lists (put n (some v) f) (order ++ n ∷ [])
  Lists-append n v h = record {
    listed = λ m. contains-append order n m ∙ elim (Bool-cases (equal m n)) [
      | inl e ↦ rw (e, l.listed m, equal_sym n m) (ground (arith, e))
      | inr e ↦ rw (e, l.listed m, equal_sym n m) (ground (arith, e))
    ];
    once = distinct-append order n l.once (l.listed n ∙ ap is_some h);
  }

  pub Lists-replace : (n : Bytes) (u v : A) → f n ≡ some u → Lists (put n (some v) f) order
  Lists-replace n u v h = record {
    listed = λ m. elim (Bool-cases (equal m n)) [
      | inl e ↦
          l.listed m ∙ ap (λ k. is_some (f k)) (equal_sound m n e) ∙ ap is_some h ∙ rw (e) refl
      | inr e ↦ l.listed m ∙ rw (e) refl
    ];
    once = l.once;
  }

  pub Lists-without : (n : Bytes) → Lists (put n none f) (without n order)
  Lists-without n = record {
    listed = λ m. contains-without n order m ∙ elim (Bool-cases (equal m n)) [
      | inl e ↦ rw (e, l.listed m) (ground (arith, e))
      | inr e ↦ rw (e, l.listed m) (ground (arith, e))
    ];
    once = distinct-without n order l.once;
  }
