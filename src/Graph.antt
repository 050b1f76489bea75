-- ===== src/Graph.antt =====
-- The graph of a recipe's steps: `RecipeGraph` of src/shinobi/graph.py.
pub mod Topology
pub mod Edges
pub mod Build
use stimela_ninja.Prelude.{ℕ, String, List}

-- A step is its index in the recipe. The sets of indices are lists without duplicates.
pub record RecipeGraph : Type 0 where
  pub names : List String
  pub deps : List (List ℕ)
  pub dependents : List (List ℕ)
