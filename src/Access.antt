-- ===== src/Access.antt =====
-- Canonical paths and the claims on them: `paths_overlap` of src/shinobi/steps/schema.py, and the
-- access records of src/shinobi/dataset_access.py that its planner reads.
pub mod Paths
pub mod Tree
pub mod Planner
mod Collisions
use stimela_ninja.Prelude.{String, Bool, true, false, ◌&&◌, ◌||◌, Option, List, [], ◌∷◌}
use text.Mathlib.Text.{◌==◌}

-- `path.parts` of a canonical POSIX path, on which `os.path.normcase` is the identity.
abbrev pub Parts : Type 0
Parts = List String

unfoldable pub path_eq : Parts → Parts → Bool
path_eq [] [] = true
path_eq [] (y ∷ q) = false
path_eq (x ∷ p) [] = false
path_eq (x ∷ p) (y ∷ q) = x == y && path_eq p q

-- A canonical path is absolute, so it has at least one part.
abbrev pub Place : Type 0
Place = String × Parts

abbrev pub parts : Place → Parts
parts (k, p) = k ∷ p

unfoldable pub same_place : Place → Place → Bool
same_place (k, p) (j, q) = k == j && path_eq p q

-- `a.is_relative_to(b)`: `b` is `a` or one of its parents.
unfoldable pub is_relative_to : Parts → Parts → Bool
is_relative_to a [] = true
is_relative_to [] (y ∷ b) = false
is_relative_to (x ∷ a) (y ∷ b) = x == y && is_relative_to a b

unfoldable pub paths_overlap : Parts → Parts → Bool
paths_overlap a b = path_eq a b || is_relative_to a b || is_relative_to b a

pub data DatasetMode : Type 0 where
  read write create : DatasetMode

-- The fields of a `ResolvedDatasetAccess` that the planner reads, `exclusive` from its declaration.
pub record ResolvedDatasetAccess : Type 0 where
  resources : List Place
  mode : DatasetMode
  exclusive : Bool
  label : String

abbrev pub is_read : DatasetMode → Bool
is_read read = true
is_read write = false
is_read create = false

pub requires_exclusive : ResolvedDatasetAccess → Bool
requires_exclusive access = elim access.mode [ read ↦ access.exclusive | _ ↦ true ]
