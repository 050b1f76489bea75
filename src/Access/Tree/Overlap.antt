-- ===== src/Access/Tree/Overlap.antt =====
-- The overlapping states that `resolve` returns are those whose paths overlap.
use stimela_ninja.Prelude.{
  String, true, ◌&&◌, Option, none, some, List, [], ◌∷◌, ◌++◌, map, ◌≡◌, refl, arith,
}
use stimela_ninja.Access.{Parts, Place, same_place, path_eq, is_relative_to, paths_overlap}
use stimela_ninja.Access.Tree.{
  AccessState, Children, leaf, child, find, under, own, descendants, overlapping,
}
use stimela_ninja.Access.Tree.Find.{member, member-append, member-under_end, member-under}
use stimela_ninja.Prelude.{is_some}
use text.Mathlib.Text.{◌==◌}
use text.Mathlib.TextEquality.{eq_iff}

pub paths_overlap-root : (p : Parts) → paths_overlap p [] ≡ true
unfolding paths_overlap path_eq is_relative_to
paths_overlap-root [] = refl
paths_overlap-root (x ∷ p) = ground arith

pub root-paths_overlap : (p : Parts) → paths_overlap [] p ≡ true
unfolding paths_overlap path_eq is_relative_to
root-paths_overlap [] = refl
root-paths_overlap (x ∷ p) = ground arith

pub paths_overlap-cons :
    (k j : String) (p q : Parts) → paths_overlap (k ∷ p) (j ∷ q) ≡ (k == j && paths_overlap p q)
unfolding paths_overlap path_eq is_relative_to
paths_overlap-cons k j p q = ground (arith, eq_iff k j, eq_iff j k)

-- The places that a node contributes: its own, when it has a state, and those below it.
member_node-end :
    (k j : String) (t : Option AccessState) (xs : List Place)
    → member (k, []) (own j t ++ map (under j) xs) ≡ (k == j && is_some t)
unfolding own member same_place path_eq
member_node-end k j none xs = ground (arith, member-under_end k j xs)
member_node-end k j (some s) xs = ground (arith, member-under_end k j xs)

member_node :
    (k i j : String) (p : Parts) (t : Option AccessState) (xs : List Place)
    → member (k, i ∷ p) (own j t ++ map (under j) xs) ≡ (k == j && member (i, p) xs)
unfolding own member same_place path_eq
member_node k i j p none xs = ground (arith, member-under k i j p xs)
member_node k i j p (some s) xs = ground (arith, member-under k i j p xs)

pub member-descendants :
    (k : String) (p : Parts) (cs : Children) (s : AccessState)
    → find k p cs ≡ some s
    → member (k, p) (descendants cs) ≡ true
unfolding find descendants
member-descendants k p leaf s e = ground arith
member-descendants k [] (child j t below rest) s e = ground (
  arith,
  eq_iff j k,
  eq_iff k j,
  member-append (k, []) (descendants rest) (own j t ++ map (under j) (descendants below)),
  member_node-end k j t (descendants below),
  member-descendants k [] rest s,
)
member-descendants k (i ∷ p) (child j t below rest) s e = ground (
  arith,
  eq_iff j k,
  eq_iff k j,
  member-append (k, i ∷ p) (descendants rest) (own j t ++ map (under j) (descendants below)),
  member_node k i j p t (descendants below),
  member-descendants k (i ∷ p) rest s,
  member-descendants i p below s,
)

pub member-overlapping :
    (k : String) (p : Parts) (j : String) (q : Parts) (cs : Children) (s : AccessState)
    → find k p cs ≡ some s
    → paths_overlap (k ∷ p) (j ∷ q) ≡ true
    → member (k, p) (overlapping j q cs) ≡ true
unfolding find overlapping
member-overlapping k p j q leaf s e o = ground arith
member-overlapping k [] j [] (child h t below rest) s e o = ground (
  arith,
  eq_iff h k,
  eq_iff h j,
  eq_iff k j,
  paths_overlap-cons k j [] [],
  member_node-end k h t (descendants below),
  member-overlapping k [] j [] rest s,
)
member-overlapping k (i ∷ p) j [] (child h t below rest) s e o = ground (
  arith,
  eq_iff h k,
  eq_iff h j,
  eq_iff k j,
  paths_overlap-cons k j (i ∷ p) [],
  member_node k i h p t (descendants below),
  member-descendants i p below s,
  member-overlapping k (i ∷ p) j [] rest s,
)
member-overlapping k [] j (l ∷ q) (child h t below rest) s e o = ground (
  arith,
  eq_iff h k,
  eq_iff h j,
  eq_iff k j,
  paths_overlap-cons k j [] (l ∷ q),
  member_node-end k h t (overlapping l q below),
  member-overlapping k [] j (l ∷ q) rest s,
)
member-overlapping k (i ∷ p) j (l ∷ q) (child h t below rest) s e o = ground (
  arith,
  eq_iff h k,
  eq_iff h j,
  eq_iff k j,
  paths_overlap-cons k j (i ∷ p) (l ∷ q),
  member_node k i h p t (overlapping l q below),
  member-overlapping i p l q below s,
  member-overlapping k (i ∷ p) j (l ∷ q) rest s,
)
