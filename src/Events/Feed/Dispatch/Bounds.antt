-- ===== src/Events/Feed/Dispatch/Bounds.antt =====
-- Everything that was read of a feed stands at or before the position that its reads leave.
use Prim.Native.Nat.{ℕ, ◌≤◌}
use runtime_go.Prelude.{
  ◌≡◌, refl, List, [], ◌∷◌, Bytes, All, All-map, arith, if◌then◌else◌, ltb, ◌⊎◌, inl, inr,
  Bool-cases, ◌||◌,
}
use mathlib.Core.Path.{subst}
use runtime_go.Prelude.Outcome.{Result, ok, err}
use runtime_go.ContentLine.Line.{equal}
use runtime_go.Events.Delivery.{Webhook, StoreError}
use runtime_go.Events.Feed.{
  Change, Pages, last_page, page, no_page, Feed, FeedStore, Rendering, FeedOptions, Dispatcher,
  set_time, event_id, wanted_by,
}
use runtime_go.Events.Feed.Dispatch.{seen, scan, read_page, read_pages}

-- The time is no earlier than the one before, nor than that of any change.
abbrev pub Bounds : List Change → ℕ → ℕ → Type 0
Bounds cs latest l = (latest ≤ l) × All (λ c. c.time ≤ l) cs

abbrev top_of : ℕ → ℕ → ℕ
top_of latest t = if ltb latest t then t else latest

scan-cases :
    (r : Rendering) (hooks : List Webhook) (c : Change) (cs : List Change) (latest : ℕ)
    → (m : List (Bytes × ℕ))
    → ((scan r hooks cs (top_of latest c.time) m).0 ≡ (scan r hooks (c ∷ cs) latest m).0)
      ⊎ ((scan r hooks cs (top_of latest c.time) (set_time m (event_id r c) c.time)).0
          ≡ (scan r hooks (c ∷ cs) latest m).0)
unfolding scan
scan-cases r hooks c cs latest m = elim (Bool-cases (equal c.type_of [] || seen r m c)) [
  | inl e ↦ inl (rw (e))
  | inr e ↦ elim (Bool-cases (wanted_by hooks c)) [
    | inl f ↦ inl (rw (e, f))
    | inr f ↦ inr (rw (e, f))
  ]
]

Bounds-cons :
    (c : Change) (cs : List Change) (latest l : ℕ)
    → Bounds cs (top_of latest c.time) l
    → Bounds (c ∷ cs) latest l
Bounds-cons c cs latest l (h, a) = (ground arith, (ground arith, a))

scan-Bounds :
    (r : Rendering) (hooks : List Webhook) (cs : List Change) (latest : ℕ) (m : List (Bytes × ℕ))
    → Bounds cs latest (scan r hooks cs latest m).0
scan-Bounds r hooks [] latest m = unfold scan in (omega arith, tt)
scan-Bounds r hooks (c ∷ cs) latest m =
    let top = top_of latest c.time in
    Bounds-cons c cs latest (scan r hooks (c ∷ cs) latest m).0
      (elim (scan-cases r hooks c cs latest m) [
        | inl e ↦ subst (Bounds cs top) e (scan-Bounds r hooks cs top m)
        | inr e ↦
            subst (Bounds cs top) e (scan-Bounds r hooks cs top (set_time m (event_id r c) c.time))
      ])

abbrev pub AllPages : (Change → Type 0) → Pages Change → Type 0
AllPages P (no_page e) = Unit
AllPages P (last_page cs) = All P cs
AllPages P (page cs rest) = All P cs × AllPages P rest

module _ {S : Type 0} (store : FeedStore S) (r : Rendering) (opts : FeedOptions) (now : ℕ) where
  read_page-Bounds :
      (feed : Feed) (hooks : List Webhook) (cs : List Change) (latest l : ℕ) (d d' : Dispatcher S)
      → read_page store r opts now feed hooks cs latest d ≡ (ok l, d')
      → Bounds cs latest l
  unfolding read_page
  read_page-Bounds feed hooks cs latest l d d' h =
      let p : (scan r hooks cs latest d.recorded).0 ≡ l = ground arith in
      subst (Bounds cs latest) p (scan-Bounds r hooks cs latest d.recorded)

  -- Where the reads of a feed succeed, no change that they gave is after the position they leave, and
  -- that position is no earlier than the one they began at.
  pub read_pages-Bounds :
      (feed : Feed) (hooks : List Webhook) (ps : Pages Change) (latest l : ℕ) (d d' : Dispatcher S)
      → read_pages store r opts now feed hooks ps latest d ≡ (ok l, d')
      → (latest ≤ l) × AllPages (λ c. c.time ≤ l) ps
  unfolding read_pages
  read_pages-Bounds feed hooks (no_page e) latest l d d' h = cc
  read_pages-Bounds feed hooks (last_page cs) latest l d d' h =
      read_page-Bounds feed hooks cs latest l d d' h
  read_pages-Bounds feed hooks (page cs ps) latest l d d' h =
      go (λ x d₁ q. read_pages-Bounds feed hooks ps x l d₁ d' q)
        (read_page store r opts now feed hooks cs latest d) refl h
    where
      go :
          ((x : ℕ) (d₁ : Dispatcher S)
            → read_pages store r opts now feed hooks ps x d₁ ≡ (ok l, d')
            → (x ≤ l) × AllPages (λ c. c.time ≤ l) ps)
          → (o : Result StoreError ℕ × Dispatcher S)
          → read_page store r opts now feed hooks cs latest d ≡ o
          → (elim o.0 as (λ x. Result StoreError ℕ × Dispatcher S) [
            | err e ↦ (err e, o.1)
            | ok x ↦ read_pages store r opts now feed hooks ps x o.1
          ])
            ≡ (ok l, d')
          → (latest ≤ l) × (All (λ c. c.time ≤ l) cs × AllPages (λ c. c.time ≤ l) ps)
      go ih (err e, d₁) p h = cc
      go ih (ok x, d₁) p h =
          let (le, a) = read_page-Bounds feed hooks cs latest x d d₁ p in
          let (le₂, b) = ih x d₁ h in
          (omega (arith, le, le₂), (All-map (λ c q. omega (arith, q, le₂)) cs a, b))
