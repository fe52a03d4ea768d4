-- ===== src/Cache/Keyspace/Heads.antt =====
-- The heads under which databases of different names keep their keys.
use runtime_go.Prelude.{
  Option-cases, inl, inr, ℕ, ◌≡◌, refl, sym, ap, ◌∙◌, Bool, [], ◌∷◌, ◌++◌, Bytes, codes,
  append_assoc, append_cancel_left, arith,
}
use runtime_go.Prelude.Outcome.{ok, ack}
use runtime_go.ContentLine.Text.Laws.{Lacks, cut_byte_here, cut_byte-none}
use runtime_go.Cache.Keyspace.{cut_colon, segment, db_segment, new_keyspace, check_namespace, head}

-- check_namespace accepts a name that lacks the separator.
check_namespace-Lacks :
    (n : Bytes) → check_namespace n ≡ ok ack → Lacks b':' n × (segment n ≡ n ++ b':' ∷ [])
unfolding check_namespace segment
check_namespace-Lacks [] h = cc
check_namespace-Lacks (c ∷ n) h = elim (Option-cases (cut_colon (c ∷ n))) [
  | inl e ↦ (cut_byte-none b':' (c ∷ n) e, refl)
  | inr (x, e) ↦ ground (arith, e)
]

head-cut :
    (p n : Bytes) (db : ℕ) (e : Bool) (rest : Bytes)
    → check_namespace n ≡ ok ack
    → head (new_keyspace p n db e) ++ rest
      ≡ segment p ++ (n ++ b':' ∷ ((db_segment db e ++ codes "cache:") ++ rest))
unfolding head new_keyspace
head-cut p n db e rest h = let (_, g) = check_namespace-Lacks n h in rw (g) simp (append_assoc)

-- Two databases of one prefix, whose names check_namespace accepts, keep no key in common.
pub head-apart :
    (p m n : Bytes) (db db' : ℕ) (e e' : Bool) (u v : Bytes)
    → check_namespace m ≡ ok ack
    → check_namespace n ≡ ok ack
    → head (new_keyspace p m db e) ++ u ≡ head (new_keyspace p n db' e') ++ v
    → m ≡ n
head-apart p m n db db' e e' u v a b h =
    let (la, _) = check_namespace-Lacks m a in
    let (lb, _) = check_namespace-Lacks n b in
    let c =
      sym (cut_byte_here b':' m _ la)
      ∙ ap cut_colon (
          append_cancel_left (segment p)
            (sym (head-cut p m db e u a) ∙ h ∙ head-cut p n db' e' v b))
      ∙ cut_byte_here b':' n _ lb in
    cc
