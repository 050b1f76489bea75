-- ===== src/Graph/Topology/Samples.antt =====
-- The order of a small recipe.
use stimela_ninja.Prelude.{
  ℕ, zero, suc, ◌≤◌, ◌<◌, true, [], ◌∷◌, ltb, if◌then◌else◌, ◌≡◌, refl, arith,
}
use stimela_ninja.Graph.{RecipeGraph}
use stimela_ninja.Graph.Topology.{row, topological_indices}
use stimela_ninja.Graph.Topology.Counts.{occ}
use stimela_ninja.Graph.Topology.Drained.{IsGraph, in_order}
use stimela_ninja.Graph.Topology.Complete.{IsAcyclic, topological_indices-IsTopological}

-- The first step waits for the last, the second for both.
abbrev wired : RecipeGraph
wired = record {
  names = "image" ∷ "plot" ∷ "calibrate" ∷ [];
  deps = (2 ∷ []) ∷ (0 ∷ 2 ∷ []) ∷ [] ∷ [];
  dependents = (1 ∷ []) ∷ [] ∷ (0 ∷ 1 ∷ []) ∷ [];
}

wired-order : topological_indices wired ≡ 2 ∷ 0 ∷ 1 ∷ []
unfolding topological_indices
wired-order = refl

-- Steps that can start are emitted by the recipe's order, not by the round they became free in.
abbrev loose : RecipeGraph
loose = record {
  names = "a" ∷ "b" ∷ "c" ∷ "d" ∷ [];
  deps = [] ∷ (0 ∷ []) ∷ [] ∷ [] ∷ [];
  dependents = (1 ∷ []) ∷ [] ∷ [] ∷ [] ∷ [];
}

loose-order : topological_indices loose ≡ 0 ∷ 1 ∷ 2 ∷ 3 ∷ []
unfolding topological_indices
loose-order = refl

wired-reversed : (i x : ℕ) → occ i (row x wired.dependents) ≡ occ x (row i wired.deps)
unfolding occ row
wired-reversed zero zero = ground arith
wired-reversed zero (suc zero) = ground arith
wired-reversed zero (suc (suc zero)) = ground arith
wired-reversed zero (suc (suc (suc x))) = ground arith
wired-reversed (suc zero) zero = ground arith
wired-reversed (suc zero) (suc zero) = ground arith
wired-reversed (suc zero) (suc (suc zero)) = ground arith
wired-reversed (suc zero) (suc (suc (suc x))) = ground arith
wired-reversed (suc (suc zero)) zero = ground arith
wired-reversed (suc (suc zero)) (suc zero) = ground arith
wired-reversed (suc (suc zero)) (suc (suc zero)) = ground arith
wired-reversed (suc (suc zero)) (suc (suc (suc x))) = ground arith
wired-reversed (suc (suc (suc i))) zero = ground arith
wired-reversed (suc (suc (suc i))) (suc zero) = ground arith
wired-reversed (suc (suc (suc i))) (suc (suc zero)) = ground arith
wired-reversed (suc (suc (suc i))) (suc (suc (suc x))) = ground arith

wired-distinct : (i x : ℕ) → occ x (row i wired.deps) ≤ 1
unfolding occ row
wired-distinct zero x = ground arith
wired-distinct (suc zero) x = ground arith
wired-distinct (suc (suc zero)) x = ground arith
wired-distinct (suc (suc (suc i))) x = ground arith

wired-in_range : (i x : ℕ) → 1 ≤ occ x (row i wired.deps) → x < 3
unfolding occ row
wired-in_range zero x h = ground (arith, h)
wired-in_range (suc zero) x h = ground (arith, h)
wired-in_range (suc (suc zero)) x h = ground (arith, h)
wired-in_range (suc (suc (suc i))) x h = ground (arith, h)

wired-IsGraph : IsGraph wired
wired-IsGraph = record {
  reversed = wired-reversed;
  distinct = wired-distinct;
  in_range = wired-in_range;
}

abbrev round : ℕ → ℕ
round zero = 1
round (suc zero) = 2
round (suc (suc i)) = 0

wired-IsAcyclic : IsAcyclic wired round
unfolding occ row
wired-IsAcyclic zero x h = ground (arith, h)
wired-IsAcyclic (suc zero) x h = ground (arith, h)
wired-IsAcyclic (suc (suc zero)) x h = ground (arith, h)
wired-IsAcyclic (suc (suc (suc i))) x h = ground (arith, h)

topological_indices-IsTopological_example :
    ((i : ℕ) → occ i (topological_indices wired) ≡ (if ltb i 3 then 1 else 0))
    × (in_order wired.deps [] (topological_indices wired) ≡ true)
topological_indices-IsTopological_example =
    topological_indices-IsTopological wired round wired-IsGraph wired-IsAcyclic
