-- ===== src/Graph/Build/Wired.antt =====
-- The edges of a wired recipe are sets with their reverse.
use stimela_ninja.Prelude.{
  ℕ, suc, ◌+◌, ◌≤◌, ◌<◌, String, Bool, not, ◌&&◌, ◌||◌, Option, none, some, List, [], ◌∷◌, length,
  map, ◌≡◌, refl, arith, inl, inr, Bool-cases, subst,
}
use stimela_ninja.Prelude.Results.{ok, check, found, and_then_ok, found_ok, ok_inj}
use stimela_ninja.Graph.{RecipeGraph}
use stimela_ninja.Graph.Edges.{
  Edges, no_edges, add_edge, IsEdges, no_edges-IsEdges, add_edge-IsEdges,
}
use stimela_ninja.Graph.Topology.Drained.{IsGraph}
use stimela_ninja.Graph.Build.{
  Source, input_ref, output_ref, Scope, StepRef, Recipe, unknown_after, self_after,
  unknown_producer, unknown_output, key_error, not_family, unknown_recipe_input, unknown_input,
  recipe_resources, unknown_scatter, unknown_param, contains, is_input_field, is_output_field,
  index_of, step_at, distinct_names, all_known, after_edges, check_output, source_edge,
  source_edges, wiring_edges, step_edges, steps_edges, check_outputs, wire,
}
use text.Mathlib.Text.{◌==◌}

some_bound :
    (o : Option ℕ) (n i : ℕ)
    → ((j : ℕ) → o ≡ some j → j < n)
    → elim o [ none ↦ none | some j ↦ some (suc j) ] ≡ some i
    → i < suc n
some_bound none n i h e = ground (arith, e)
some_bound (some j) n i h e = ground (arith, e, h j refl)

pub index_of-length :
    (name : String) (steps : List StepRef) (i : ℕ) → index_of name steps ≡ some i → i < length steps
unfolding index_of
index_of-length name [] i e = ground (arith, e)
index_of-length name (ref ∷ steps) i e = elim (Bool-cases (ref.name == name)) [
  | inl h ↦ ground (arith, e, h)
  | inr h ↦
      some_bound (index_of name steps) (length steps) i (index_of-length name steps) (rw h at e)
]

module _ (r : Recipe) where
  abbrev pub IsWired : Edges → Type 0
  IsWired e = IsEdges (length r.steps) e

  pub after_edges-IsWired :
      (i : ℕ) (name : String) (others : List String) (e f : Edges)
      → i < length r.steps
      → IsWired e
      → after_edges r i name others e ≡ ok f
      → IsWired f
  unfolding after_edges
  after_edges-IsWired i name [] e f li inv h = subst IsWired (ok_inj e f h) inv
  after_edges-IsWired i name (other ∷ others) e f li inv h =
      let (d, o, h1) = and_then_ok (found (index_of other r.steps) (unknown_after other)) _ f h in
      let (_, _, h2) = and_then_ok (check (not (other == name)) (self_after name)) _ f h1 in
      after_edges-IsWired i name others (add_edge i d e) f li
        (add_edge-IsEdges (length r.steps) i d e li
          (index_of-length other r.steps d
            (found_ok (index_of other r.steps) (unknown_after other) d o))
          inv)
        h2

  pub check_output-length :
      (producer field : String) (selected : Bool) (d : ℕ)
      → check_output r producer field selected ≡ ok d
      → d < length r.steps
  unfolding check_output
  check_output-length producer field selected d h =
      let (d', o, h1) =
        and_then_ok (found (index_of producer r.steps) (unknown_producer producer)) _ d h in
      let (ref, _, h2) =
        and_then_ok (found (step_at d' r.steps) (unknown_producer producer)) _ d h1 in
      let (_, _, h3) =
        and_then_ok (check (is_output_field ref.scope field) (unknown_output field)) _ d h2 in
      let (_, _, h4) =
        and_then_ok
          (check (not selected || contains ref.scope.output_fields field) (key_error field)) _ d
          h3 in
      let (_, _, h5) =
        and_then_ok (check (not selected || contains ref.scope.families field) (not_family field)) _
          d h4 in
      subst (λ x. x < length r.steps) (ok_inj d' d h5)
        (index_of-length producer r.steps d'
          (found_ok (index_of producer r.steps) (unknown_producer producer) d' o))

  pub source_edge-IsWired :
      (i : ℕ) (source : Source) (e f : Edges)
      → i < length r.steps
      → IsWired e
      → source_edge r i source e ≡ ok f
      → IsWired f
  unfolding source_edge
  source_edge-IsWired i (input_ref field) e f li inv h =
      let (_, _, h1) =
        and_then_ok (check (contains r.input_fields field) (unknown_recipe_input field)) _ f h in
      subst IsWired (ok_inj e f h1) inv
  source_edge-IsWired i (output_ref producer field selected) e f li inv h =
      let (d, o, h1) = and_then_ok (check_output r producer field selected) _ f h in
      subst IsWired (ok_inj (add_edge i d e) f h1) (
        add_edge-IsEdges (length r.steps) i d e li (check_output-length producer field selected d o)
          inv)

  pub source_edges-IsWired :
      (i : ℕ) (sources : List Source) (e f : Edges)
      → i < length r.steps
      → IsWired e
      → source_edges r i sources e ≡ ok f
      → IsWired f
  unfolding source_edges
  source_edges-IsWired i [] e f li inv h = subst IsWired (ok_inj e f h) inv
  source_edges-IsWired i (source ∷ rest) e f li inv h =
      let (g, o, h1) = and_then_ok (source_edge r i source e) _ f h in
      source_edges-IsWired i rest g f li (source_edge-IsWired i source e g li inv o) h1

  pub wiring_edges-IsWired :
      (i : ℕ) (scope : Scope) (wiring : List (String × List Source)) (e f : Edges)
      → i < length r.steps
      → IsWired e
      → wiring_edges r i scope wiring e ≡ ok f
      → IsWired f
  unfolding wiring_edges
  wiring_edges-IsWired i scope [] e f li inv h = subst IsWired (ok_inj e f h) inv
  wiring_edges-IsWired i scope ((field, sources) ∷ rest) e f li inv h =
      let (_, _, h1) =
        and_then_ok (check (is_input_field scope field) (unknown_input field)) _ f h in
      let (g, o, h2) = and_then_ok (source_edges r i sources e) _ f h1 in
      wiring_edges-IsWired i scope rest g f li (source_edges-IsWired i sources e g li inv o) h2

  pub step_edges-IsWired :
      (i : ℕ) (ref : StepRef) (e f : Edges)
      → i < length r.steps
      → IsWired e
      → step_edges r i ref e ≡ ok f
      → IsWired f
  unfolding step_edges
  step_edges-IsWired i ref e f li inv h =
      let (g, o, h1) = and_then_ok (after_edges r i ref.name ref.after e) _ f h in
      let (_, _, h2) =
        and_then_ok
          (check (not (ref.scope.is_recipe && ref.scope.has_resources)) (recipe_resources ref.name))
          _ f h1 in
      let (_, _, h3) =
        and_then_ok (all_known (is_input_field ref.scope) unknown_scatter ref.scatter) _ f h2 in
      let (_, _, h4) =
        and_then_ok (all_known (is_input_field ref.scope) unknown_param ref.params) _ f h3 in
      wiring_edges-IsWired i ref.scope ref.wiring g f li
        (after_edges-IsWired i ref.name ref.after e g li inv o) h4

  pub steps_edges-IsWired :
      (i : ℕ) (refs : List StepRef) (e f : Edges)
      → i + length refs ≤ length r.steps
      → IsWired e
      → steps_edges r i refs e ≡ ok f
      → IsWired f
  unfolding steps_edges
  steps_edges-IsWired i [] e f li inv h = subst IsWired (ok_inj e f h) inv
  steps_edges-IsWired i (ref ∷ rest) e f li inv h =
      let (g, o, h1) = and_then_ok (step_edges r i ref e) _ f h in
      steps_edges-IsWired (suc i) rest g f (omega (arith, li))
        (step_edges-IsWired i ref e g (omega (arith, li)) inv o) h1

-- The graph of a recipe whose wiring is accepted has each dependency once, between steps of the
-- recipe, and its dependents are exactly the reverse of its dependencies.
pub wire-IsGraph : (r : Recipe) (g : RecipeGraph) → wire r ≡ ok g → IsGraph g
unfolding wire
wire-IsGraph r g h =
    let (_, _, h1) = and_then_ok (distinct_names [] r.steps) _ g h in
    let (e, o, h2) = and_then_ok (steps_edges r 0 r.steps (no_edges (length r.steps))) _ g h1 in
    let (_, _, h3) = and_then_ok (check_outputs r r.output_wiring) _ g h2 in
    subst IsGraph (ok_inj _ g h3) (
      graph_of r e (
        steps_edges-IsWired r 0 r.steps (no_edges (length r.steps)) e (omega arith)
          (no_edges-IsEdges (length r.steps)) o))
  where
    graph_of :
        (r : Recipe) (e : Edges)
        → IsEdges (length r.steps) e
        → IsGraph (record {
          names = map (λ ref. ref.name) r.steps;
          deps = e.deps;
          dependents = e.dependents;
        })
    graph_of r e inv = record {
      reversed = inv.reversed;
      distinct = inv.distinct;
      in_range = λ i x b. omega (arith, inv.in_range i x b, inv.size.0);
    }
