-- ===== src/Access/Tree/Find.antt =====
-- What is found in a tree after each of its operations.
use stimela_ninja.Prelude.{
  String, Bool, false, ◌&&◌, ◌||◌, some, List, [], ◌∷◌, ◌++◌, map, ◌≡◌, refl, arith, any,
  if◌then◌else◌,
}
use stimela_ninja.Access.{Parts, Place, same_place, path_eq}
use stimela_ninja.Access.Tree.{
  AccessState, Children, leaf, child, find, or_untouched, reach, under, mapped, modify,
}
use text.Mathlib.Text.{◌==◌}
use text.Mathlib.TextEquality.{eq_iff}

unfoldable pub member : Place → List Place → Bool
unfolding same_place
member q places = any (same_place q) places

pub member-append :
    (q : Place) (xs ys : List Place) → member q (xs ++ ys) ≡ (member q xs || member q ys)
unfolding member
member-append q [] ys = refl
member-append q (x ∷ xs) ys = ground (arith, member-append q xs ys)

pub member-under_end : (k j : String) (xs : List Place) → member (k, []) (map (under j) xs) ≡ false
unfolding member under same_place path_eq
member-under_end k j [] = refl
member-under_end k j ((i, q) ∷ xs) = ground (arith, member-under_end k j xs)

pub member-under :
    (k i j : String) (p : Parts) (xs : List Place)
    → member (k, i ∷ p) (map (under j) xs) ≡ (k == j && member (i, p) xs)
unfolding member under same_place path_eq
member-under k i j p [] = ground arith
member-under k i j p ((l, q) ∷ xs) = ground (arith, member-under k i j p xs)

pub find-reach :
    (k : String) (p : Parts) (j : String) (q : Parts) (cs : Children)
    → find k p (reach j q cs)
      ≡ (if same_place (k, p) (j, q) then some (or_untouched (find k p cs)) else find k p cs)
unfolding find reach same_place path_eq
find-reach k [] j [] leaf = ground (arith, eq_iff j k, eq_iff k j)
find-reach k (i ∷ p) j [] leaf = ground (arith, eq_iff j k, eq_iff k j)
find-reach k [] j (l ∷ q) leaf = ground (arith, eq_iff j k, eq_iff k j)
find-reach k (i ∷ p) j (l ∷ q) leaf =
    ground (arith, eq_iff j k, eq_iff k j, find-reach i p l q leaf)
find-reach k [] j [] (child h s below rest) =
    ground (arith, eq_iff h j, eq_iff h k, eq_iff k j, find-reach k [] j [] rest)
find-reach k (i ∷ p) j [] (child h s below rest) =
    ground (arith, eq_iff h j, eq_iff h k, eq_iff k j, find-reach k (i ∷ p) j [] rest)
find-reach k [] j (l ∷ q) (child h s below rest) =
    ground (arith, eq_iff h j, eq_iff h k, eq_iff k j, find-reach k [] j (l ∷ q) rest)
find-reach k (i ∷ p) j (l ∷ q) (child h s below rest) = ground (
  arith,
  eq_iff h j,
  eq_iff h k,
  eq_iff k j,
  find-reach i p l q below,
  find-reach k (i ∷ p) j (l ∷ q) rest,
)

pub find-modify :
    (f : AccessState → AccessState) (k : String) (p : Parts) (j : String) (q : Parts)
    (cs : Children)
    → find k p (modify f j q cs)
      ≡ (if same_place (k, p) (j, q) then mapped f (find k p cs) else find k p cs)
unfolding find modify same_place path_eq
find-modify f k p j q leaf = ground arith
find-modify f k [] j [] (child h s below rest) =
    ground (arith, eq_iff h j, eq_iff h k, eq_iff k j, find-modify f k [] j [] rest)
find-modify f k (i ∷ p) j [] (child h s below rest) =
    ground (arith, eq_iff h j, eq_iff h k, eq_iff k j, find-modify f k (i ∷ p) j [] rest)
find-modify f k [] j (l ∷ q) (child h s below rest) =
    ground (arith, eq_iff h j, eq_iff h k, eq_iff k j, find-modify f k [] j (l ∷ q) rest)
find-modify f k (i ∷ p) j (l ∷ q) (child h s below rest) = ground (
  arith,
  eq_iff h j,
  eq_iff h k,
  eq_iff k j,
  find-modify f i p l q below,
  find-modify f k (i ∷ p) j (l ∷ q) rest,
)
