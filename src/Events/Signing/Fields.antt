-- ===== src/Events/Signing/Fields.antt =====
-- strings.Fields undoes the joining of words with spaces.
use runtime_go.Prelude.{
  false, ◌≡◌, refl, sym, ap, ◌∙◌, List, [], ◌∷◌, ◌++◌, Bytes, All, append_assoc, append-nil,
}
use runtime_go.ContentLine.Text.{is_ascii_space}
use runtime_go.ContentLine.Line.{equal}
use runtime_go.ContentLine.Escape.{join}
use runtime_go.Events.Signing.{fields_from}

abbrev pub HasNoSpace : Bytes → Type 0
HasNoSpace = All (λ c. is_ascii_space c ≡ false)

abbrev pub IsWord : Bytes → Type 0
IsWord [] = ⊥
IsWord (c ∷ s) = HasNoSpace (c ∷ s)

-- A word without spaces is read up to what follows it.
fields_from-append :
    (cur t s : Bytes) → HasNoSpace t → fields_from cur (t ++ s) ≡ fields_from (cur ++ t) s
unfolding fields_from
fields_from-append cur [] s h = rw append-nil
fields_from-append cur (c ∷ t) s h = rw (h.0) (
    fields_from-append (cur ++ c ∷ []) t s h.1
    ∙ ap (λ x. fields_from x s) (append_assoc cur (c ∷ []) t))

fields_from-word : (p : Bytes) → IsWord p → fields_from p [] ≡ p ∷ []
unfolding fields_from
fields_from-word [] h = absurd h
fields_from-word (c ∷ p) h = refl

fields_from-space : (p s : Bytes) → IsWord p → fields_from p (b' ' ∷ s) ≡ p ∷ fields_from [] s
unfolding fields_from equal is_ascii_space
fields_from-space [] s h = absurd h
fields_from-space (c ∷ p) s h = refl

IsWord-HasNoSpace : (p : Bytes) → IsWord p → HasNoSpace p
IsWord-HasNoSpace [] h = absurd h
IsWord-HasNoSpace (c ∷ p) h = h

pub fields_from-join : (ws : List Bytes) → All IsWord ws → fields_from [] (join (b' ' ∷ []) ws) ≡ ws
unfolding join
fields_from-join [] h = unfold fields_from in refl
fields_from-join (p ∷ []) h =
    ap (fields_from []) (sym (append-nil p))
    ∙ fields_from-append [] p [] (IsWord-HasNoSpace p h.0)
    ∙ fields_from-word p h.0
fields_from-join (p ∷ q ∷ ps) h =
    fields_from-append [] p (b' ' ∷ join (b' ' ∷ []) (q ∷ ps)) (IsWord-HasNoSpace p h.0)
    ∙ fields_from-space p (join (b' ' ∷ []) (q ∷ ps)) h.0
    ∙ ap (λ s. p ∷ s) (fields_from-join (q ∷ ps) h.1)
