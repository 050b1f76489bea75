-- ===== src/Graph/Build/Declared.antt =====
-- The edges of a wired recipe are those that its steps declare.
use stimela_ninja.Prelude.{
  ℕ, suc, ◌+◌, ◌≤◌, ◌<◌, String, Bool, false, not, ◌&&◌, ◌||◌, Option, none, some, List, [], ◌∷◌,
  length, any, ltb, ◌==◌, ◌≡◌, arith, sym, ap, ◌∙◌,
}
use stimela_ninja.Prelude.Results.{ok, check, found, and_then_ok, found_ok, ok_inj}
use stimela_ninja.Graph.{RecipeGraph}
use stimela_ninja.Graph.Edges.{
  Edges, no_edges, add_edge, IsEdges, no_edges-IsEdges, add_edge-IsEdges, occ-row-add_to,
  occ-row-empty_sets,
}
use stimela_ninja.Graph.Topology.{row}
use stimela_ninja.Graph.Topology.Counts.{occ}
use stimela_ninja.Graph.Build.{
  Source, input_ref, output_ref, Scope, StepRef, Recipe, unknown_after, self_after,
  unknown_producer, unknown_output, key_error, not_family, unknown_recipe_input, unknown_input,
  recipe_resources, unknown_scatter, unknown_param, contains, is_named, is_input_field,
  is_output_field, index_of, step_at, distinct_names, all_known, after_edges, check_output,
  source_edge, source_edges, wiring_edges, step_edges, steps_edges, check_outputs, wire,
}
use stimela_ninja.Graph.Build.Wired.{
  IsWired, index_of-length, after_edges-IsWired, source_edge-IsWired, source_edges-IsWired,
  step_edges-IsWired,
}

-- Whether a name is that of step `d`.
abbrev is_step : ℕ → Option ℕ → Bool
is_step d none = false
is_step d (some i) = i == d

abbrev reads_step : Recipe → ℕ → Source → Bool
reads_step r d (input_ref field) = false
reads_step r d (output_ref producer field selected) = is_step d (index_of producer r.steps)

-- A step declares another by `after`, or by wiring one of its outputs.
pub declares : Recipe → ℕ → StepRef → Bool
declares r d ref =
    any (λ other. is_step d (index_of other r.steps)) ref.after
    || any (λ wired. any (reads_step r d) wired.1) ref.wiring

abbrev pub has : Edges → ℕ → ℕ → Bool
has e j d = ltb 0 (occ d (row j e.deps))

has-add_edge :
    (n i d : ℕ) (e : Edges) (j y : ℕ)
    → i < n
    → IsEdges n e
    → has (add_edge i d e) j y ≡ (has e j y || (j == i && d == y))
unfolding add_edge
has-add_edge n i d e j y li inv = ground (arith, occ-row-add_to y j i d e.deps, inv.size.0, li)

check_output-index_of :
    (r : Recipe) (producer field : String) (selected : Bool) (d : ℕ)
    → check_output r producer field selected ≡ ok d
    → index_of producer r.steps ≡ some d
unfolding check_output
check_output-index_of r producer field selected d h =
    let (d', o, h1) =
      and_then_ok (found (index_of producer r.steps) (unknown_producer producer)) _ d h in
    let (ref, _, h2) =
      and_then_ok (found (step_at d' r.steps) (unknown_producer producer)) _ d h1 in
    let (_, _, h3) =
      and_then_ok (check (is_output_field ref.scope field) (unknown_output field)) _ d h2 in
    let (_, _, h4) =
      and_then_ok (check (not selected || contains ref.scope.output_fields field) (key_error field))
        _ d h3 in
    let (_, _, h5) =
      and_then_ok (check (not selected || contains ref.scope.families field) (not_family field)) _ d
        h4 in
    found_ok (index_of producer r.steps) (unknown_producer producer) d' o
    ∙ ap (λ x. some x) (ok_inj d' d h5)

module _ (r : Recipe) (i j y : ℕ) (li : i < length r.steps) where
  has-after_edges :
      (name : String) (others : List String) (e f : Edges)
      → IsWired r e
      → after_edges r i name others e ≡ ok f
      → has f j y
        ≡ (has e j y || (j == i && any (λ other. is_step y (index_of other r.steps)) others))
  unfolding after_edges
  has-after_edges name [] e f inv h = ground (arith, ap (λ z. has z j y) (ok_inj e f h))
  has-after_edges name (other ∷ others) e f inv h =
      let (d, o, h1) = and_then_ok (found (index_of other r.steps) (unknown_after other)) _ f h in
      let (_, _, h2) = and_then_ok (check (not (is_named name other)) (self_after name)) _ f h1 in
      let e1 = found_ok (index_of other r.steps) (unknown_after other) d o in
      ground (
        arith,
        has-after_edges name others (add_edge i d e) f
            (add_edge-IsEdges (length r.steps) i d e li (index_of-length other r.steps d e1) inv)
            h2,
        has-add_edge (length r.steps) i d e j y li inv,
        ap (is_step y) e1,
      )

  has-source_edge :
      (source : Source) (e f : Edges)
      → IsWired r e
      → source_edge r i source e ≡ ok f
      → has f j y ≡ (has e j y || (j == i && reads_step r y source))
  unfolding source_edge
  has-source_edge (input_ref field) e f inv h =
      let (_, _, h1) =
        and_then_ok (check (contains r.input_fields field) (unknown_recipe_input field)) _ f h in
      ground (arith, ap (λ z. has z j y) (ok_inj e f h1))
  has-source_edge (output_ref producer field selected) e f inv h =
      let (d, o, h1) = and_then_ok (check_output r producer field selected) _ f h in
      ground (
        arith,
        ap (λ z. has z j y) (ok_inj (add_edge i d e) f h1),
        has-add_edge (length r.steps) i d e j y li inv,
        ap (is_step y) (check_output-index_of r producer field selected d o),
      )

  has-source_edges :
      (sources : List Source) (e f : Edges)
      → IsWired r e
      → source_edges r i sources e ≡ ok f
      → has f j y ≡ (has e j y || (j == i && any (reads_step r y) sources))
  unfolding source_edges
  has-source_edges [] e f inv h = ground (arith, ap (λ z. has z j y) (ok_inj e f h))
  has-source_edges (source ∷ rest) e f inv h =
      let (g, o, h1) = and_then_ok (source_edge r i source e) _ f h in
      ground (
        arith,
        has-source_edge source e g inv o,
        has-source_edges rest g f (source_edge-IsWired r i source e g li inv o) h1,
      )

  has-wiring_edges :
      (scope : Scope) (wiring : List (String × List Source)) (e f : Edges)
      → IsWired r e
      → wiring_edges r i scope wiring e ≡ ok f
      → has f j y ≡ (has e j y || (j == i && any (λ wired. any (reads_step r y) wired.1) wiring))
  unfolding wiring_edges
  has-wiring_edges scope [] e f inv h = ground (arith, ap (λ z. has z j y) (ok_inj e f h))
  has-wiring_edges scope ((field, sources) ∷ rest) e f inv h =
      let (_, _, h1) =
        and_then_ok (check (is_input_field scope field) (unknown_input field)) _ f h in
      let (g, o, h2) = and_then_ok (source_edges r i sources e) _ f h1 in
      ground (
        arith,
        has-source_edges sources e g inv o,
        has-wiring_edges scope rest g f (source_edges-IsWired r i sources e g li inv o) h2,
      )

  has-step_edges :
      (ref : StepRef) (e f : Edges)
      → IsWired r e
      → step_edges r i ref e ≡ ok f
      → has f j y ≡ (has e j y || (j == i && declares r y ref))
  unfolding step_edges declares
  has-step_edges ref e f inv h =
      let (g, o, h1) = and_then_ok (after_edges r i ref.name ref.after e) _ f h in
      let (_, _, h2) =
        and_then_ok
          (check (not (ref.scope.is_recipe && ref.scope.has_resources)) (recipe_resources ref.name))
          _ f h1 in
      let (_, _, h3) =
        and_then_ok (all_known (is_input_field ref.scope) unknown_scatter ref.scatter) _ f h2 in
      let (_, _, h4) =
        and_then_ok (all_known (is_input_field ref.scope) unknown_param ref.params) _ f h3 in
      ground (
        arith,
        has-after_edges ref.name ref.after e g inv o,
        has-wiring_edges ref.scope ref.wiring g f
            (after_edges-IsWired r i ref.name ref.after e g li inv o) h4,
      )

-- Whether the `j`th of the steps from the `i`th on declares `y`.
pub declared_at : Recipe → ℕ → ℕ → ℕ → List StepRef → Bool
declared_at r y j i [] = false
declared_at r y j i (ref ∷ rest) = (j == i && declares r y ref) || declared_at r y j (suc i) rest

has-steps_edges :
    (r : Recipe) (j y i : ℕ) (refs : List StepRef) (e f : Edges)
    → i + length refs ≤ length r.steps
    → IsWired r e
    → steps_edges r i refs e ≡ ok f
    → has f j y ≡ (has e j y || declared_at r y j i refs)
unfolding steps_edges declared_at
has-steps_edges r j y i [] e f li inv h = ground (arith, ap (λ z. has z j y) (ok_inj e f h))
has-steps_edges r j y i (ref ∷ rest) e f li inv h =
    let (g, o, h1) = and_then_ok (step_edges r i ref e) _ f h in
    ground (
      arith,
      has-step_edges r i j y (omega (arith, li)) ref e g inv o,
      has-steps_edges r j y (suc i) rest g f (omega (arith, li))
          (step_edges-IsWired r i ref e g (omega (arith, li)) inv o) h1,
    )

no_edges-has : (n j y : ℕ) → has (no_edges n) j y ≡ false
unfolding no_edges
no_edges-has n j y = ground (arith, occ-row-empty_sets y j n)

-- In an accepted recipe a step depends on another exactly when it declares it, by `after` or by
-- wiring one of its outputs: no edge is lost and none is invented.
pub wire-declared :
    (r : Recipe) (g : RecipeGraph) (j y : ℕ)
    → wire r ≡ ok g
    → ltb 0 (occ y (row j g.deps)) ≡ declared_at r y j 0 r.steps
unfolding wire
wire-declared r g j y h =
    let (_, _, h1) = and_then_ok (distinct_names [] r.steps) _ g h in
    let (e, o, h2) = and_then_ok (steps_edges r 0 r.steps (no_edges (length r.steps))) _ g h1 in
    let (_, _, h3) = and_then_ok (check_outputs r r.output_wiring) _ g h2 in
    ap (λ z. ltb 0 (occ y (row j z.deps))) (sym (ok_inj _ g h3))
    ∙ has-steps_edges r j y 0 r.steps (no_edges (length r.steps)) e (omega arith)
        (no_edges-IsEdges (length r.steps)) o
    ∙ ap (λ b. b || declared_at r y j 0 r.steps) (no_edges-has (length r.steps) j y)
