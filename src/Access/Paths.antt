-- ===== src/Access/Paths.antt =====
-- Laws of the equality of paths of src/shinobi/dataset_access.py.
use stimela_ninja.Prelude.{◌≡◌, refl, arith, true, [], ◌∷◌}
use stimela_ninja.Access.{Parts, path_eq}
use text.Mathlib.TextEquality.{eq_iff}

pub path_eq_lem : (p q : Parts) → path_eq p q ≡ true → p ≡ q
unfolding path_eq
path_eq_lem [] [] e = refl
path_eq_lem [] (y ∷ q) e = ground (arith, e)
path_eq_lem (x ∷ p) [] e = ground (arith, e)
path_eq_lem (x ∷ p) (y ∷ q) e = ground (arith, e, eq_iff x y, path_eq_lem p q)

pub path_eq_refl : (p : Parts) → path_eq p p ≡ true
unfolding path_eq
path_eq_refl [] = refl
path_eq_refl (x ∷ p) = ground (arith, eq_iff x x, path_eq_refl p)
