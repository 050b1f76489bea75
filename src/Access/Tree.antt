-- ===== src/Access/Tree.antt =====
-- `_AccessState` and `_AccessTree` of src/shinobi/dataset_access.py: the accesses of the plan so
-- far, indexed by canonical path. A reference to a state in the tree is the path of its node.
pub mod Find
pub mod Overlap
use stimela_ninja.Prelude.{
  String, Bool, true, false, ◌&&◌, Option, none, some, List, [], ◌∷◌, ◌++◌, map, if◌then◌else◌,
}
use stimela_ninja.Prelude.Dict.{Dict}
use stimela_ninja.Access.{Parts, Place, path_eq}
use text.Mathlib.Text.{◌==◌}

-- The last writer and the readers since, by step name, each with its label.
pub record AccessState : Type 0 where
  pub last_writer : Option (String × String)
  pub readers_since_write : Dict String

abbrev pub untouched : AccessState
untouched = record { last_writer = none; readers_since_write = [] }

-- `children: dict[str, _AccessTree]`: a key, the state and the children of its node, and the other
-- entries. The root is the tree of the file system, above every path, and never has a state.
pub data Children : Type 0 where
  leaf : Children
  child : String → Option AccessState → Children → Children → Children

unfoldable pub find : String → Parts → Children → Option AccessState
find k p leaf = none
find k [] (child j s below rest) = let other = find k [] rest in if j == k then s else other
find k (i ∷ p) (child j s below rest) =
    let deeper = find i p below in
    let other = find k (i ∷ p) rest in if j == k then deeper else other

abbrev pub or_untouched : Option AccessState → AccessState
or_untouched none = untouched
or_untouched (some s) = s

-- The nodes that `resolve` creates on its way, and the state at the end of the path.
unfoldable pub reach : String → Parts → Children → Children
reach k [] leaf = child k (some untouched) leaf leaf
reach k (i ∷ p) leaf = child k none (reach i p leaf) leaf
reach k [] (child j s below rest) =
    let other = reach k [] rest in
    if j == k then child j (some (or_untouched s)) below rest else child j s below other
reach k (i ∷ p) (child j s below rest) =
    let deeper = reach i p below in
    let other = reach k (i ∷ p) rest in
    if j == k then child j s deeper rest else child j s below other

-- `j` with the place below it.
unfoldable pub under : String → Place → Place
under j (k, p) = (j, k ∷ p)

unfoldable pub own : String → Option AccessState → List Place
own j none = []
own j (some s) = (j, []) ∷ []

-- The states of a subtree in the order of the stack `pending`: the last child first.
unfoldable pub descendants : Children → List Place
unfolding own under
descendants leaf = []
descendants (child j s below rest) =
    descendants rest ++ (own j s ++ map (under j) (descendants below))

-- The places of the states that overlap a path: above it, at it, and below it.
unfoldable pub overlapping : String → Parts → Children → List Place
unfolding own under descendants
overlapping k p leaf = []
overlapping k [] (child j s below rest) =
    let other = overlapping k [] rest in
    if j == k then own j s ++ map (under j) (descendants below) else other
overlapping k (i ∷ p) (child j s below rest) =
    let deeper = overlapping i p below in
    let other = overlapping k (i ∷ p) rest in
    if j == k then own j s ++ map (under j) deeper else other

abbrev pub mapped : (AccessState → AccessState) → Option AccessState → Option AccessState
mapped f none = none
mapped f (some s) = some (f s)

-- A change of the state at a place.
unfoldable pub modify : (AccessState → AccessState) → String → Parts → Children → Children
modify f k p leaf = leaf
modify f k [] (child j s below rest) =
    let other = modify f k [] rest in
    if j == k then child j (mapped f s) below rest else child j s below other
modify f k (i ∷ p) (child j s below rest) =
    let deeper = modify f i p below in
    let other = modify f k (i ∷ p) rest in
    if j == k then child j s deeper rest else child j s below other
