-- ===== src/Cache/Indexed/Pairs.antt =====
-- What the sets of a backend promise, and how keys and pairs tell fields and values apart.
use runtime_go.Prelude.{
  ◌≡◌, ◌≢◌, refl, sym, ap, ◌∙◌, Bool, Bool-cases, inl, inr, true, false, ◌&&◌, ◌||◌, not, List, ◌∷◌,
  ◌++◌, Bytes,
}
use runtime_go.Prelude.Outcome.{Result, ok, err, Ack, ack}
use runtime_go.ContentLine.Text.Laws.{Lacks, cut_byte_here}
use runtime_go.ContentLine.Line.{equal, contains}
use runtime_go.ContentLine.Line.Equal.{equal_refl, equal_sound}
use runtime_go.Cache.Keyspace.{Keyspace, by, fields}
use runtime_go.Cache.Keyspace.Names.{key_of, by_name, fields_name, same_keyspace-injective}
use runtime_go.Cache.Aside.{DriverError}
use runtime_go.Cache.Indexed.{Sets, FilingError, pair, halves, cut_pair, and_then, after}

pub cut_pair-pair : (f v : Bytes) → Lacks b'=' f → cut_pair (pair f v) ≡ (f, v)
unfolding cut_pair pair
cut_pair-pair f v h = ap (halves (f ++ b'=' ∷ v)) (cut_byte_here b'=' f v h)

pair-injective :
    {f v g u : Bytes} → Lacks b'=' f → Lacks b'=' g → pair f v ≡ pair g u → (f ≡ g) × (v ≡ u)
pair-injective {f = f} {v = v} {g = g} {u = u} p q h =
    let e = sym (cut_pair-pair f v p) ∙ ap cut_pair h ∙ cut_pair-pair g u q in
    (ap (λ (x : Bytes × Bytes). x.0) e, ap (λ (x : Bytes × Bytes). x.1) e)

by-injective :
    (k : Keyspace) {f v g u : Bytes}
    → Lacks b':' f
    → Lacks b':' g
    → by k f v ≡ by k g u
    → (f ≡ g) × (v ≡ u)
by-injective k {f = f} {v = v} {g = g} {u = u} p q h =
    let e =
      same_keyspace-injective k {m = by_name f v} {n = by_name g u} p q (unfold key_of in h) in
    (cc, cc)

pub by-fields : (k : Keyspace) (f v id : Bytes) → Lacks b':' f → by k f v ≢ fields k id
by-fields k f v id p h =
    let e =
      same_keyspace-injective k {m = by_name f v} {n = fields_name id} p tt (unfold key_of in h) in
    cc

pub equal-false : (s t : Bytes) → s ≢ t → equal s t ≡ false
equal-false s t n = elim (Bool-cases (equal s t)) [
  | inl e ↦ absurd (n (equal_sound s t e))
  | inr e ↦ e
]

-- Two tests of byte strings agree where each equation follows from the other.
equal_iff : (a b c d : Bytes) → (a ≡ b → c ≡ d) → (c ≡ d → a ≡ b) → equal a b ≡ equal c d
equal_iff a b c d f g = elim (Bool-cases (equal a b)) [
  | inl e ↦ e ∙ sym (ap (λ z. equal z d) (f (equal_sound a b e)) ∙ equal_refl d)
  | inr e ↦
      e
      ∙ sym (
          equal-false c d
            (λ q. (let r = g q in let t = ap (λ z. equal z b) r ∙ equal_refl b in cc)))
]

-- A field that keys and pairs tell from its value.
abbrev pub IsField : Bytes → Type 0
IsField f = Lacks b':' f × Lacks b'=' f

pub by-pair :
    (k : Keyspace) (f v g u : Bytes)
    → IsField f
    → IsField g
    → equal (by k f v) (by k g u) ≡ equal (pair f v) (pair g u)
by-pair k f v g u p q =
    equal_iff (by k f v) (by k g u) (pair f v) (pair g u)
      (λ h. let (a, b) = by-injective k p.0 q.0 h in cc)
      (λ h. let (a, b) = pair-injective p.1 q.1 h in cc)

-- What a backend's sets promise: a call that succeeds does what it says, and a removal that fails
-- takes out no more and puts in nothing.
pub record IsSets {T : Type 0} (sets : Sets T) (holds : T → Bytes → Bytes → Bool) : Type 0 where
  pub members :
      (k : Bytes) (t : T) {xs : List Bytes}
      → (sets.set_members k t).0 ≡ ok xs
      → (x : Bytes) → contains xs x ≡ holds t k x
  pub members-same :
      (k : Bytes) (t : T) (j x : Bytes) → holds (sets.set_members k t).1 j x ≡ holds t j x
  pub added :
      (k : Bytes) (xs : List Bytes) (t : T) {a : Ack}
      → (sets.set_add k xs t).0 ≡ ok a
      → (j x : Bytes)
      → holds (sets.set_add k xs t).1 j x ≡ (holds t j x || equal k j && contains xs x)
  pub removed :
      (k : Bytes) (xs : List Bytes) (t : T) {a : Ack}
      → (sets.set_remove k xs t).0 ≡ ok a
      → (j x : Bytes)
      → holds (sets.set_remove k xs t).1 j x ≡ (holds t j x && not (equal k j && contains xs x))
  pub remove-only :
      (k : Bytes) (xs : List Bytes) (t : T) (j x : Bytes)
      → holds (sets.set_remove k xs t).1 j x ≡ true
      → holds t j x ≡ true
  pub delete-only :
      (k : Bytes) (t : T) (j x : Bytes)
      → holds (sets.delete_key k t).1 j x ≡ true
      → holds t j x ≡ true

pub and_then-ok :
    {T A B : Type 0} (wrap : DriverError → FilingError) (next : A → T → Result FilingError B × T)
    (r : Result DriverError A × T) {b : B}
    → (and_then wrap next r).0 ≡ ok b
    → (a : A) × (r.0 ≡ ok a) × (and_then wrap next r ≡ next a r.1)
unfolding and_then
and_then-ok wrap next (ok a, t) h = (a, refl, refl)
and_then-ok wrap next (err e, t) h = cc

pub ack-ok : (a : Ack) → ◌≡◌ {A = Result FilingError Ack} (ok a) (ok ack)
ack-ok ack = refl

pub false_from : (a b : Bool) → (a ≡ true → b ≡ true) → b ≡ false → a ≡ false
false_from true b f h = (let t = f refl in cc)
false_from false b f h = refl

pub after-ok :
    {T A B : Type 0} (next : A → T → Result FilingError B × T) (r : Result FilingError A × T)
    {b : B}
    → (after next r).0 ≡ ok b
    → (a : A) × (r.0 ≡ ok a) × (after next r ≡ next a r.1)
unfolding after
after-ok next (ok a, t) h = (a, refl, refl)
after-ok next (err e, t) h = cc
