-- ===== src/Graph/Build.antt =====
-- The wiring of a recipe as `_build_graph` of src/shinobi/graph.py reads it: the checks of one
-- recipe's references and the dependency edges. Derived reads, cycles and nested recipes are
-- checked around this part.
pub mod Wired
pub mod Declared
mod Samples
use stimela_ninja.Prelude.{
  ℕ, zero, suc, ◌+◌, String, Bool, true, false, not, ◌&&◌, ◌||◌, Option, none, some, List, [], ◌∷◌,
  map, any, length, if◌then◌else◌,
}
use stimela_ninja.Prelude.Results.{Result, ok, refused, and_then, check, found}
use stimela_ninja.Graph.{RecipeGraph}
use stimela_ninja.Graph.Edges.{Edges, no_edges, add_edge}
use text.Mathlib.Text.{◌==◌}

-- What a wired input reads: a field of the recipe, or one of a step, maybe at selected coordinates.
pub data Source : Type 0 where
  input_ref : String → Source
  output_ref : String → String → Bool → Source

-- A step's schema: its fields, which names its patterns match, and which outputs are families.
pub record Scope : Type 0 where
  input_fields : List String
  output_fields : List String
  match_pattern : String → Bool
  match_output_pattern : String → Bool
  families : List String
  is_recipe : Bool
  has_resources : Bool

pub record StepRef : Type 0 where
  name : String
  scope : Scope
  after : List String
  scatter : List String
  params : List String
  wiring : List (String × List Source)

pub record Recipe : Type 0 where
  input_fields : List String
  output_fields : List String
  steps : List StepRef
  output_wiring : List (String × (String × String × Bool))

-- The reasons for a `RecipeGraphError`, each with the step or field that its message names, and
-- the `KeyError` of a selection from an output that only a pattern declares.
pub data GraphError : Type 0 where
  duplicate_step unknown_after self_after recipe_resources : String → GraphError
  unknown_scatter unknown_param unknown_input : String → GraphError
  unknown_recipe_input unknown_producer unknown_output not_family : String → GraphError
  unknown_recipe_output : String → GraphError
  key_error : String → GraphError

abbrev pub is_named : String → String → Bool
is_named name other = other == name

abbrev pub contains : List String → String → Bool
contains names name = any (λ other. other == name) names

pub is_input_field : Scope → String → Bool
is_input_field scope field = contains scope.input_fields field || scope.match_pattern field

pub is_output_field : Scope → String → Bool
is_output_field scope field = contains scope.output_fields field || scope.match_output_pattern field

-- `index[name]`, where the names are distinct.
pub index_of : String → List StepRef → Option ℕ
index_of name [] = none
index_of name (ref ∷ steps) =
    if ref.name == name
    then some 0
    else elim (index_of name steps) [ none ↦ none | some i ↦ some (suc i) ]

pub step_at : ℕ → List StepRef → Option StepRef
step_at i [] = none
step_at zero (ref ∷ steps) = some ref
step_at (suc i) (ref ∷ steps) = step_at i steps

-- `if name in index: raise`
pub distinct_names : List String → List StepRef → Result GraphError (Unit {0})
distinct_names seen [] = ok tt
distinct_names seen (ref ∷ steps) =
    if contains seen ref.name
    then refused (duplicate_step ref.name)
    else distinct_names (ref.name ∷ seen) steps

pub all_known : (String → Bool) → (String → GraphError) → List String → Result GraphError (Unit {0})
all_known known error [] = ok tt
all_known known error (field ∷ fields) =
    and_then (check (known field) (error field)) λ _. all_known known error fields

module _ (r : Recipe) where
  -- The loop over `ref.after`.
  pub after_edges : ℕ → String → List String → Edges → Result GraphError Edges
  unfolding index_of
  after_edges i name [] edges = ok edges
  after_edges i name (other ∷ rest) edges =
      and_then (found (index_of other r.steps) (unknown_after other)) λ d.
        and_then (check (not (other == name)) (self_after name))
          λ _. after_edges i name rest (add_edge i d edges)

  -- An output that is read: its step, its field, and the family where it is selected from.
  pub check_output : String → String → Bool → Result GraphError ℕ
  unfolding index_of step_at is_output_field
  check_output producer field selected =
      and_then (found (index_of producer r.steps) (unknown_producer producer)) λ d.
        and_then (found (step_at d r.steps) (unknown_producer producer)) λ ref.
          and_then (check (is_output_field ref.scope field) (unknown_output field)) λ _.
            and_then
              (check (not selected || contains ref.scope.output_fields field) (key_error field))
              λ _.
                and_then
                  (check (not selected || contains ref.scope.families field) (not_family field))
                  λ _. ok d

  pub source_edge : ℕ → Source → Edges → Result GraphError Edges
  unfolding check_output
  source_edge i (input_ref field) edges =
      and_then (check (contains r.input_fields field) (unknown_recipe_input field)) λ _. ok edges
  source_edge i (output_ref producer field selected) edges =
      and_then (check_output producer field selected) λ d. ok (add_edge i d edges)

  pub source_edges : ℕ → List Source → Edges → Result GraphError Edges
  unfolding source_edge
  source_edges i [] edges = ok edges
  source_edges i (source ∷ rest) edges =
      and_then (source_edge i source edges) λ next. source_edges i rest next

  -- The loop over `ref.wiring`.
  pub wiring_edges : ℕ → Scope → List (String × List Source) → Edges → Result GraphError Edges
  unfolding source_edges is_input_field
  wiring_edges i scope [] edges = ok edges
  wiring_edges i scope ((field, sources) ∷ rest) edges =
      and_then (check (is_input_field scope field) (unknown_input field))
        λ _. and_then (source_edges i sources edges) λ next. wiring_edges i scope rest next

  pub step_edges : ℕ → StepRef → Edges → Result GraphError Edges
  unfolding after_edges all_known wiring_edges is_input_field
  step_edges i ref edges = and_then (after_edges i ref.name ref.after edges) λ ordered.
      and_then
        (check (not (ref.scope.is_recipe && ref.scope.has_resources)) (recipe_resources ref.name))
        λ _. and_then (all_known (is_input_field ref.scope) unknown_scatter ref.scatter) λ _.
          and_then (all_known (is_input_field ref.scope) unknown_param ref.params)
            λ _. wiring_edges i ref.scope ref.wiring ordered

  pub steps_edges : ℕ → List StepRef → Edges → Result GraphError Edges
  unfolding step_edges
  steps_edges i [] edges = ok edges
  steps_edges i (ref ∷ rest) edges =
      and_then (step_edges i ref edges) λ next. steps_edges (suc i) rest next

  -- The loop over `recipe.output_wiring`.
  pub check_outputs : List (String × (String × String × Bool)) → Result GraphError (Unit {0})
  unfolding check_output
  check_outputs [] = ok tt
  check_outputs ((field, (producer, output, selected)) ∷ rest) =
      and_then (check (contains r.output_fields field) (unknown_recipe_output field))
        λ _. and_then (check_output producer output selected) λ _. check_outputs rest

  pub wire : Result GraphError RecipeGraph
  unfolding distinct_names steps_edges check_outputs
  wire = and_then (distinct_names [] r.steps) λ _.
      and_then (steps_edges 0 r.steps (no_edges (length r.steps))) λ edges.
        and_then (check_outputs r.output_wiring) λ _. ok (record {
          names = map (λ ref. ref.name) r.steps;
          deps = edges.deps;
          dependents = edges.dependents;
        })
