-- ===== src/Graph/Edges.antt =====
-- The edge sets that `_build_graph` of src/shinobi/graph.py fills: `deps` and `dependents`.
use stimela_ninja.Prelude.{
  ℕ, zero, suc, ◌≤◌, ◌<◌, ◌&&◌, List, [], ◌∷◌, length, ltb, ◌==◌, if◌then◌else◌, ◌≡◌, refl, arith,
}
use stimela_ninja.Graph.Topology.{row}
use stimela_ninja.Graph.Topology.Counts.{occ}

pub record Edges : Type 0 where
  pub deps : List (List ℕ)
  pub dependents : List (List ℕ)

-- `[set() for _ in names]`
pub empty_sets : ℕ → List (List ℕ)
empty_sets zero = []
empty_sets (suc n) = [] ∷ empty_sets n

-- `rows[i].add(d)`
unfoldable pub insert : ℕ → List ℕ → List ℕ
unfolding occ
insert d xs = if ltb 0 (occ d xs) then xs else d ∷ xs

unfoldable pub add_to : ℕ → ℕ → List (List ℕ) → List (List ℕ)
unfolding insert
add_to i d [] = []
add_to zero d (xs ∷ rows) = insert d xs ∷ rows
add_to (suc i) d (xs ∷ rows) = xs ∷ add_to i d rows

unfoldable pub no_edges : ℕ → Edges
unfolding empty_sets
no_edges n = record { deps = empty_sets n; dependents = empty_sets n }

-- Step `i` depends on step `d`.
unfoldable pub add_edge : ℕ → ℕ → Edges → Edges
unfolding add_to
add_edge i d edges = record {
  deps = add_to i d edges.deps;
  dependents = add_to d i edges.dependents;
}

pub occ-row-add_to :
    (y j i d : ℕ) (rows : List (List ℕ))
    → occ y (row j (add_to i d rows)) ≡ (
        if ltb 0 (occ y (row j rows))
        then occ y (row j rows)
        else if (j == i && y == d) && ltb i (length rows)
        then 1
        else 0)
unfolding occ row add_to
occ-row-add_to y j i d [] = ground arith
occ-row-add_to y zero zero d (xs ∷ rows) = ground arith
occ-row-add_to y zero (suc i) d (xs ∷ rows) = ground arith
occ-row-add_to y (suc j) zero d (xs ∷ rows) = ground arith
occ-row-add_to y (suc j) (suc i) d (xs ∷ rows) = ground (arith, occ-row-add_to y j i d rows)

pub length-add_to : (i d : ℕ) (rows : List (List ℕ)) → length (add_to i d rows) ≡ length rows
unfolding add_to
length-add_to i d [] = refl
length-add_to zero d (xs ∷ rows) = refl
length-add_to (suc i) d (xs ∷ rows) = omega (arith, length-add_to i d rows)

pub length-empty_sets : (n : ℕ) → length (empty_sets n) ≡ n
unfolding empty_sets
length-empty_sets zero = refl
length-empty_sets (suc n) = omega (arith, length-empty_sets n)

pub occ-row-empty_sets : (y j n : ℕ) → occ y (row j (empty_sets n)) ≡ 0
unfolding occ row empty_sets
occ-row-empty_sets y j zero = refl
occ-row-empty_sets y zero (suc n) = refl
occ-row-empty_sets y (suc j) (suc n) = occ-row-empty_sets y j n

-- What edges are, in terms of the graph: sets with their reverse, over the steps of the recipe.
pub record IsEdges (n : ℕ) (e : Edges) : Type 0 where
  pub size : (length e.deps ≡ n) × (length e.dependents ≡ n)
  pub reversed : (i x : ℕ) → occ i (row x e.dependents) ≡ occ x (row i e.deps)
  pub distinct : (i x : ℕ) → occ x (row i e.deps) ≤ 1
  pub in_range : (i x : ℕ) → 1 ≤ occ x (row i e.deps) → x < n

pub no_edges-IsEdges : (n : ℕ) → IsEdges n (no_edges n)
unfolding no_edges
no_edges-IsEdges n = record {
  size = (length-empty_sets n, length-empty_sets n);
  reversed = λ i x. omega (arith, occ-row-empty_sets i x n, occ-row-empty_sets x i n);
  distinct = λ i x. omega (arith, occ-row-empty_sets x i n);
  in_range = λ i x h. absurd (omega (arith, h, occ-row-empty_sets x i n));
}

pub add_edge-IsEdges :
    (n i d : ℕ) (e : Edges) → i < n → d < n → IsEdges n e → IsEdges n (add_edge i d e)
unfolding add_edge
add_edge-IsEdges n i d e li ld inv = record {
  size = (
    omega (arith, length-add_to i d e.deps, inv.size.0),
    omega (arith, length-add_to d i e.dependents, inv.size.1),
  );
  reversed = λ j x. ground (
    arith,
    occ-row-add_to j x d i e.dependents,
    occ-row-add_to x j i d e.deps,
    inv.reversed j x,
    inv.size.0,
    inv.size.1,
    li,
    ld,
  );
  distinct = λ j x. ground (arith, occ-row-add_to x j i d e.deps, inv.distinct j x);
  in_range = λ j x h. ground (arith, occ-row-add_to x j i d e.deps, inv.in_range j x, h, ld);
}
