-- ===== src/Snapshots/Evict/Protected.antt =====
-- Eviction removes nothing that a chain still needs.
use stimela_ninja.Prelude.{
  String, true, ◌||◌, Option, none, some, List, [], ◌∷◌, ◌++◌, map, In, ◌⊎◌, inl, inr, ◌≡◌, refl,
  arith, ap, sym, ◌∙◌,
}
use stimela_ninja.Prelude.Dict.{Dict}
use stimela_ninja.Snapshots.{GroupItem, Marker, Chain}
use stimela_ninja.Snapshots.Evict.{optional, group_names, marker_names, chain_names, has}
use text.Mathlib.TextEquality.{eq_iff}

-- What a chain may still be restored from: its head, the anchor of its taint, a state that a step
-- consumed, and the states of a mutation in flight and of the group it belongs to.
pub data Needs (c : Chain) (n : String) : Type 0 where
  at_head : c.head ≡ some n → Needs c n
  tainted : c.tainted_through ≡ some n → Needs c n
  consumed : (step : String) → In (step, n) c.consumed → Needs c n
  rollback : (m : Marker) → c.marker ≡ some m → m.strict_rollback_state ≡ some n → Needs c n
  predecessor : (m : Marker) → c.marker ≡ some m → m.strict_predecessor_state ≡ some n → Needs c n
  grouped :
      (m : Marker) (items : List GroupItem) (item : GroupItem)
      → c.marker ≡ some m
      → m.strict_group ≡ some items
      → In item items
      → (item.rollback ≡ some n) ⊎ ((item.successor ≡ n) ⊎ (item.predecessor ≡ some n))
      → Needs c n

pub has-append : (n : String) (xs ys : List String) → has n (xs ++ ys) ≡ (has n xs || has n ys)
has-append n [] ys = refl
has-append n (x ∷ xs) ys = ground (arith, has-append n xs ys)

has_self : (n : String) (xs : List String) → has n (n ∷ xs) ≡ true
has_self n xs = ground (arith, eq_iff n n)

has-optional : (n : String) (o : Option String) → o ≡ some n → has n (optional o) ≡ true
has-optional n o e = rw e (has_self n [])

has-consumed :
    (n step : String) (d : Dict String) → In (step, n) d → has n (map (λ entry. entry.1) d) ≡ true
has-consumed n step [] i = absurd (i tt)
has-consumed n step (x ∷ d) (inl e) = ground (arith, eq_iff x.1 n, ap (λ y. y.1) e)
has-consumed n step (x ∷ d) (inr i) = ground (arith, has-consumed n step d i)

has-group_names :
    (n : String) (item : GroupItem) (items : List GroupItem)
    → In item items
    → (item.rollback ≡ some n) ⊎ ((item.successor ≡ n) ⊎ (item.predecessor ≡ some n))
    → has n (group_names items) ≡ true
has-group_names n item [] i h = absurd (i tt)
has-group_names n item (x ∷ items) (inr i) h = ground (
  arith,
  has-group_names n item items i h,
  has-append n (optional x.rollback) ((x.successor ∷ optional x.predecessor) ++ group_names items),
  has-append n (x.successor ∷ optional x.predecessor) (group_names items),
)
has-group_names n item (x ∷ items) (inl e) h =
    let parts =
      has-append n (optional x.rollback)
        ((x.successor ∷ optional x.predecessor) ++ group_names items) in
    let others = has-append n (x.successor ∷ optional x.predecessor) (group_names items) in
    elim h [
      | inl r ↦ ground (arith, parts, has-optional n x.rollback (ap (λ y. y.rollback) (sym e) ∙ r))
      | inr (inl s) ↦
          ground (arith, parts, others, eq_iff x.successor n, ap (λ y. y.successor) (sym e) ∙ s)
      | inr (inr p) ↦
          ground (
            arith,
            parts,
            others,
            has-optional n x.predecessor (ap (λ y. y.predecessor) (sym e) ∙ p),
          )
    ]

has-marker_names :
    (n : String) (m : Marker)
    → (has n (marker_names (some m)) ≡ (
        has n (optional m.strict_rollback_state)
        || (has n (optional m.strict_predecessor_state)
            || has n (elim m.strict_group [ none ↦ [] | some items ↦ group_names items ]))))
has-marker_names n m =
    let group : List String = elim m.strict_group [ none ↦ [] | some items ↦ group_names items ] in
    ground (
      arith,
      has-append n (optional m.strict_rollback_state)
          (optional m.strict_predecessor_state ++ group),
      has-append n (optional m.strict_predecessor_state) group,
    )

has-chain_names :
    (n : String) (c : Chain)
    → (has n (chain_names c) ≡ (
        has n (optional c.head)
        || (has n (optional c.tainted_through)
            || (has n (map (λ entry. entry.1) c.consumed) || has n (marker_names c.marker)))))
has-chain_names n c =
    let consumed' = map (λ entry. entry.1) c.consumed in
    ground (
      arith,
      has-append n (optional c.head)
          (optional c.tainted_through ++ consumed' ++ marker_names c.marker),
      has-append n (optional c.tainted_through) (consumed' ++ marker_names c.marker),
      has-append n consumed' (marker_names c.marker),
    )

pub Needs-chain_names : (n : String) (c : Chain) → Needs c n → has n (chain_names c) ≡ true
Needs-chain_names n c (at_head e) = ground (arith, has-chain_names n c, has-optional n c.head e)
Needs-chain_names n c (tainted e) =
    ground (arith, has-chain_names n c, has-optional n c.tainted_through e)
Needs-chain_names n c (consumed step i) =
    ground (arith, has-chain_names n c, has-consumed n step c.consumed i)
Needs-chain_names n c (rollback m e r) = ground (
  arith,
  has-chain_names n c,
  ap (λ x. has n (marker_names x)) e,
  has-marker_names n m,
  has-optional n m.strict_rollback_state r,
)
Needs-chain_names n c (predecessor m e r) = ground (
  arith,
  has-chain_names n c,
  ap (λ x. has n (marker_names x)) e,
  has-marker_names n m,
  has-optional n m.strict_predecessor_state r,
)
Needs-chain_names n c (grouped m items item e g i h) = ground (
  arith,
  has-chain_names n c,
  ap (λ x. has n (marker_names x)) e,
  has-marker_names n m,
  ap (λ x. has n (elim x [ none ↦ [] | some l ↦ group_names l ])) g,
  has-group_names n item items i h,
)
