-- ===== src/Graph/Build/Samples.antt =====
-- The wiring of small recipes.
use stimela_ninja.Prelude.{String, true, false, List, [], ◌∷◌, ◌≡◌, refl}
use stimela_ninja.Prelude.Results.{ok, refused}
use stimela_ninja.Graph.{RecipeGraph}
use stimela_ninja.Graph.Edges.{no_edges, add_edge}
use stimela_ninja.Graph.Topology.Drained.{IsGraph}
use stimela_ninja.Graph.Build.{
  Source, input_ref, output_ref, Scope, StepRef, Recipe, duplicate_step, self_after,
  unknown_producer, key_error, wire,
}
use stimela_ninja.Graph.Build.Wired.{wire-IsGraph}
use stimela_ninja.Graph.Build.Declared.{declared_at, wire-declared}
use stimela_ninja.Graph.Topology.{row}
use stimela_ninja.Graph.Topology.Counts.{occ}
use stimela_ninja.Prelude.{ltb}

abbrev tool : Scope
tool = record {
  input_fields = "ms" ∷ [];
  output_fields = "ms" ∷ [];
  match_pattern = λ field. false;
  match_output_pattern = λ field. true;
  families = [];
  is_recipe = false;
  has_resources = true;
}

abbrev step_of : String → List String → List Source → StepRef
step_of name after sources = record {
  name = name;
  scope = tool;
  after = after;
  scatter = [];
  params = [];
  wiring = ("ms", sources) ∷ [];
}

abbrev recipe_of : List StepRef → Recipe
recipe_of steps = record {
  input_fields = "ms" ∷ [];
  output_fields = "ms" ∷ [];
  steps = steps;
  output_wiring = [];
}

abbrev reduction : Recipe
reduction = recipe_of (
    step_of "image" [] (output_ref "calibrate" "ms" false ∷ [])
    ∷ step_of "calibrate" [] (input_ref "ms" ∷ [])
    ∷ step_of "plot" ("image" ∷ []) (output_ref "calibrate" "ms" false ∷ [])
    ∷ [])

abbrev reduction_graph : RecipeGraph
reduction_graph = elim (wire reduction) [
  | ok g ↦ g
  | refused e ↦ record { names = []; deps = []; dependents = [] }
]

reduction-deps : reduction_graph.deps ≡ (1 ∷ []) ∷ [] ∷ (1 ∷ 0 ∷ []) ∷ []
unfolding wire no_edges add_edge
reduction-deps = refl

twice : wire (recipe_of (step_of "a" [] [] ∷ step_of "a" [] [] ∷ [])) ≡ refused (duplicate_step "a")
unfolding wire no_edges add_edge
twice = refl

after_itself : wire (recipe_of (step_of "a" ("a" ∷ []) [] ∷ [])) ≡ refused (self_after "a")
unfolding wire no_edges add_edge
after_itself = refl

from_nowhere :
    wire (recipe_of (step_of "a" [] (output_ref "b" "ms" false ∷ []) ∷ []))
    ≡ refused (unknown_producer "b")
unfolding wire no_edges add_edge
from_nowhere = refl

-- A selection from an output that only a pattern declares is no `RecipeGraphError`.
from_pattern :
    wire (recipe_of (step_of "a" [] [] ∷ step_of "b" [] (output_ref "a" "log" true ∷ []) ∷ []))
    ≡ refused (key_error "log")
unfolding wire no_edges add_edge
from_pattern = refl

wire-IsGraph_example : IsGraph reduction_graph
unfolding wire no_edges add_edge
wire-IsGraph_example = wire-IsGraph reduction reduction_graph refl

wire-declared_example :
    ltb 0 (occ 0 (row 2 reduction_graph.deps)) ≡ declared_at reduction 0 2 0 reduction.steps
unfolding wire no_edges add_edge
wire-declared_example = wire-declared reduction reduction_graph 2 0 refl
