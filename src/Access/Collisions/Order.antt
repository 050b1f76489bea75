-- ===== src/Access/Collisions/Order.antt =====
-- The order of the groups by the parts of their paths, in which a path stands before what lies in it
-- and between the two there is only what lies in it.
use stimela_ninja.Prelude.{
  ◌≡◌, refl, arith, Bool, true, false, ◌&&◌, ◌||◌, List, [], ◌∷◌, All, any, all, inl, inr,
  Bool-cases,
}
use stimela_ninja.Access.{Parts, is_relative_to}
use stimela_ninja.Access.Collisions.{Group, parts_before, insert_by_parts, by_parts}
use stimela_ninja.Access.Collisions.TextOrder.{
  text_before_irrefl, text_before_trans, text_before_total,
}
use text.Mathlib.TextEquality.{eq_iff}

pub parts_before_trans :
    (p q r : Parts) → parts_before p q ≡ true → parts_before q r ≡ true → parts_before p r ≡ true
unfolding parts_before
parts_before_trans [] [] r a b = ground (arith, a)
parts_before_trans [] (y ∷ q) [] a b = ground (arith, b)
parts_before_trans [] (y ∷ q) (z ∷ r) a b = refl
parts_before_trans (x ∷ p) [] r a b = ground (arith, a)
parts_before_trans (x ∷ p) (y ∷ q) [] a b = ground (arith, b)
parts_before_trans (x ∷ p) (y ∷ q) (z ∷ r) a b = ground (
  arith,
  a,
  b,
  parts_before_trans p q r,
  text_before_trans x y z,
  eq_iff x y,
  eq_iff y z,
  eq_iff x z,
)

pub parts_before_total : (p q : Parts) → parts_before p q ≡ false → parts_before q p ≡ false → p ≡ q
unfolding parts_before
parts_before_total [] [] a b = refl
parts_before_total [] (y ∷ q) a b = ground (arith, a)
parts_before_total (x ∷ p) [] a b = ground (arith, b)
parts_before_total (x ∷ p) (y ∷ q) a b =
    ground (arith, a, b, text_before_total x y, eq_iff x y, eq_iff y x, parts_before_total p q)

pub parts_before_asym : (p q : Parts) → parts_before p q ≡ true → parts_before q p ≡ false
unfolding parts_before
parts_before_asym [] [] a = refl
parts_before_asym [] (y ∷ q) a = refl
parts_before_asym (x ∷ p) [] a = ground (arith, a)
parts_before_asym (x ∷ p) (y ∷ q) a = ground (
  arith,
  a,
  text_before_trans x y x,
  text_before_irrefl x,
  eq_iff x y,
  eq_iff y x,
  parts_before_asym p q,
)

pub is_relative_to_refl : (p : Parts) → is_relative_to p p ≡ true
unfolding is_relative_to
is_relative_to_refl [] = refl
is_relative_to_refl (x ∷ p) = ground (arith, eq_iff x x, is_relative_to_refl p)

pub is_relative_to_trans :
    (r q p : Parts)
    → is_relative_to r q ≡ true
    → is_relative_to q p ≡ true
    → is_relative_to r p ≡ true
unfolding is_relative_to
is_relative_to_trans r q [] a b = refl
is_relative_to_trans r [] (x ∷ p) a b = ground (arith, b)
is_relative_to_trans [] (y ∷ q) (x ∷ p) a b = ground (arith, a)
is_relative_to_trans (z ∷ r) (y ∷ q) (x ∷ p) a b =
    ground (arith, a, b, is_relative_to_trans r q p, eq_iff z y, eq_iff y x, eq_iff z x)

-- What does not stand before a path that lies in it is the path.
pub is_relative_to_back :
    (q p : Parts) → is_relative_to q p ≡ true → parts_before p q ≡ false → is_relative_to p q ≡ true
unfolding is_relative_to parts_before
is_relative_to_back [] p a b = refl
is_relative_to_back (y ∷ q) [] a b = ground (arith, b)
is_relative_to_back (y ∷ q) (x ∷ p) a b =
    ground (arith, a, b, is_relative_to_back q p, eq_iff y x, eq_iff x y)

-- Between a path and what lies in it there is only what lies in it.
pub is_relative_to_between :
    (p l q : Parts)
    → is_relative_to q p ≡ true
    → parts_before l p ≡ false
    → parts_before q l ≡ false
    → is_relative_to l p ≡ true
unfolding is_relative_to parts_before
is_relative_to_between [] l q r a b = refl
is_relative_to_between (x ∷ p) l [] r a b = ground (arith, r)
is_relative_to_between (x ∷ p) [] (y ∷ q) r a b = ground (arith, a)
is_relative_to_between (x ∷ p) (z ∷ l) (y ∷ q) r a b = ground (
  arith,
  r,
  a,
  b,
  text_before_total x z,
  is_relative_to_between p l q,
  eq_iff y x,
  eq_iff z x,
  eq_iff x z,
)

-- No later group stands before an earlier one.
abbrev pub IsAfter : Group → Group → Type 0
IsAfter g h = parts_before h.path g.path ≡ false

abbrev pub IsOrdered : List Group → Type 0
IsOrdered [] = Unit
IsOrdered (g ∷ gs) = All (IsAfter g) gs × IsOrdered gs

All-insert_by_parts :
    (g f : Group) (hs : List Group)
    → IsAfter f g
    → All (IsAfter f) hs
    → All (IsAfter f) (insert_by_parts g hs)
unfolding insert_by_parts
All-insert_by_parts g f [] a b = (a, tt)
All-insert_by_parts g f (h ∷ hs) a (b, c) = elim (Bool-cases (parts_before h.path g.path)) [
  | inl e ↦ rw e (b, All-insert_by_parts g f hs a c)
  | inr e ↦ rw e (a, (b, c))
]

after_trans :
    (p q r : Parts) → parts_before q p ≡ false → parts_before r q ≡ false → parts_before r p ≡ false
after_trans p q r a b = elim (Bool-cases (parts_before r p)) [
  | inl e ↦ elim (Bool-cases (parts_before p q)) [
    | inl d ↦ ground (arith, b, parts_before_trans r p q e d)
    | inr d ↦ rw (parts_before_total p q d a) b
  ]
  | inr e ↦ e
]

later : (g h : Group) (hs : List Group) → IsAfter g h → All (IsAfter h) hs → All (IsAfter g) hs
later g h [] a b = tt
later g h (f ∷ hs) a (b, c) = (after_trans g.path h.path f.path a b, later g h hs a c)

insert_by_parts-IsOrdered :
    (g : Group) (hs : List Group) → IsOrdered hs → IsOrdered (insert_by_parts g hs)
unfolding insert_by_parts
insert_by_parts-IsOrdered g [] o = (tt, tt)
insert_by_parts-IsOrdered g (h ∷ hs) (a, o) = elim (Bool-cases (parts_before h.path g.path)) [
  | inl e ↦ rw e (
    All-insert_by_parts g h hs (parts_before_asym h.path g.path e) a,
    insert_by_parts-IsOrdered g hs o,
  )
  | inr e ↦ rw e ((e, later g h hs e a), (a, o))
]

pub by_parts-IsOrdered : (gs : List Group) → IsOrdered (by_parts gs)
unfolding by_parts
by_parts-IsOrdered [] = tt
by_parts-IsOrdered (g ∷ gs) = insert_by_parts-IsOrdered g (by_parts gs) (by_parts-IsOrdered gs)

-- Sorting keeps what some group and what every group is.
module _ (f : Group → Bool) where
  any-insert_by_parts :
      (g : Group) (hs : List Group) → any f (insert_by_parts g hs) ≡ (f g || any f hs)
  unfolding insert_by_parts
  any-insert_by_parts g [] = refl
  any-insert_by_parts g (h ∷ hs) = ground (arith, any-insert_by_parts g hs)

  pub any-by_parts : (gs : List Group) → any f (by_parts gs) ≡ any f gs
  unfolding by_parts
  any-by_parts [] = refl
  any-by_parts (g ∷ gs) = ground (arith, any-insert_by_parts g (by_parts gs), any-by_parts gs)

  all-insert_by_parts :
      (g : Group) (hs : List Group) → all f (insert_by_parts g hs) ≡ (f g && all f hs)
  unfolding insert_by_parts
  all-insert_by_parts g [] = refl
  all-insert_by_parts g (h ∷ hs) = ground (arith, all-insert_by_parts g hs)

  pub all-by_parts : (gs : List Group) → all f (by_parts gs) ≡ all f gs
  unfolding by_parts
  all-by_parts [] = refl
  all-by_parts (g ∷ gs) = ground (arith, all-insert_by_parts g (by_parts gs), all-by_parts gs)
