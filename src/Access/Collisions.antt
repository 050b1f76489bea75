-- ===== src/Access/Collisions.antt =====
-- `_validate_scatter_collisions` of src/shinobi/dataset_access.py: whether two slices of a scatter
-- claim overlapping resources of which one is written.
mod TextOrder
mod Order
mod Groups
mod Scan
mod Raised
mod Collected
mod Checked
mod Samples
use stimela_ninja.Prelude.{
  ℕ, suc, String, Bool, true, false, ◌&&◌, ◌||◌, Option, none, some, List, [], ◌∷◌, length, ltb,
  nat_eq, if◌then◌else◌,
}
use stimela_ninja.Access.{Parts, path_eq, is_relative_to}
use stimela_ninja.Access.Collisions.TextOrder.{text_before}
use text.Mathlib.Text.{◌==◌}

-- A resource of a slice and whether the slice writes it.
abbrev pub Claimed : Type 0
Claimed = Parts × Bool

-- The slices that claim a path and those that write it, up to two of each. A set of numbers is
-- its ascending list.
pub record Group : Type 0 where
  pub path : Parts
  pub owners : List ℕ
  pub writers : List ℕ

-- `owners.add(owner)`
unfoldable pub insert : ℕ → List ℕ → List ℕ
insert n [] = n ∷ []
insert n (m ∷ ms) =
    let rest = insert n ms in
    if ltb n m then n ∷ m ∷ ms else if nat_eq n m then m ∷ ms else m ∷ rest

-- `if len(owners) < 2`
unfoldable pub add : ℕ → List ℕ → List ℕ
add n ms = if ltb (length ms) 2 then insert n ms else ms

abbrev pub joined : ℕ → Bool → Group → Group
joined owner writes g = record {
  path = g.path;
  owners = add owner g.owners;
  writers = if writes then add owner g.writers else g.writers;
}

-- One claim, into the group of its path.
unfoldable pub record_claim : ℕ → Claimed → List Group → List Group
record_claim owner (path, writes) [] =
    joined owner writes (record { path = path; owners = []; writers = [] }) ∷ []
record_claim owner (path, writes) (g ∷ gs) =
    let rest = record_claim owner (path, writes) gs in
    if path_eq g.path path then joined owner writes g ∷ gs else g ∷ rest

unfoldable pub record_claims : ℕ → List Claimed → List Group → List Group
record_claims owner [] gs = gs
record_claims owner (claim ∷ claims) gs = record_claims owner claims (record_claim owner claim gs)

-- The groups of the slices from an index on.
unfoldable pub groups_from : ℕ → List (List Claimed) → List Group → List Group
groups_from i [] gs = gs
groups_from i (claims ∷ slices) gs = groups_from (suc i) slices (record_claims i claims gs)

-- The slices that an error names, the smaller first.
abbrev pub Pair : Type 0
Pair = ℕ × ℕ

infixr 4 ◌or◌
abbrev pub ◌or◌ : Option Pair → Option Pair → Option Pair
none or o = o
some e or o = some e

unfoldable pub conflict_with : ℕ → List ℕ → Option Pair
conflict_with left [] = none
conflict_with left (right ∷ owners) =
    let rest = conflict_with left owners in
    if nat_eq left right
    then rest
    else if ltb left right
    then some (left, right)
    else some (right, left)

-- `conflict(writers, owners)`, with the error that it raises
unfoldable pub conflict : List ℕ → List ℕ → Option Pair
conflict [] owners = none
conflict (left ∷ writers) owners = conflict_with left owners or conflict writers owners

-- `sorted(groups, key=lambda item: item.parts)`
unfoldable pub parts_before : Parts → Parts → Bool
parts_before [] [] = false
parts_before [] (y ∷ q) = true
parts_before (x ∷ p) [] = false
parts_before (x ∷ p) (y ∷ q) = text_before x y || (x == y && parts_before p q)

unfoldable pub insert_by_parts : Group → List Group → List Group
insert_by_parts g [] = g ∷ []
insert_by_parts g (h ∷ hs) =
    let rest = insert_by_parts g hs in if parts_before h.path g.path then h ∷ rest else g ∷ h ∷ hs

unfoldable pub by_parts : List Group → List Group
by_parts [] = []
by_parts (g ∷ gs) = insert_by_parts g (by_parts gs)

-- The stack of ancestors with the last first, less what the path does not lie in.
unfoldable pub unwind : Parts → List Group → List Group
unwind path [] = []
unwind path (a ∷ ancestors) =
    let rest = unwind path ancestors in if is_relative_to path a.path then a ∷ ancestors else rest

-- `for _parent, parent_owners, parent_writers in ancestors`, from the first ancestor on
unfoldable pub against : Group → List Group → Option Pair
against g [] = none
against g (a ∷ ancestors) =
    against g ancestors or conflict g.writers a.owners or conflict a.writers g.owners

unfoldable pub scan : List Group → List Group → Option Pair
scan ancestors [] = none
scan ancestors (g ∷ gs) =
    let above = unwind g.path ancestors in
    conflict g.writers g.owners or against g above or scan (g ∷ above) gs

unfoldable pub validate_scatter_collisions : List (List Claimed) → Option Pair
validate_scatter_collisions slices = scan [] (by_parts (groups_from 0 slices []))
