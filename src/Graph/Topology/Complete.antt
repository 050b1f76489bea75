-- ===== src/Graph/Topology/Complete.antt =====
-- The loop runs until the heap is empty, and then every step of an acyclic graph is emitted.
use stimela_ninja.Prelude.{
  Bool-cases, ℕ, zero, suc, ◌+◌, ◌≤◌, ◌<◌, true, List, [], ◌∷◌, ◌++◌, length, length-append, ltb,
  if◌then◌else◌, ◌≡◌, refl, arith, ap, inl, inr, ◌⊎◌,
}
use stimela_ninja.Graph.{RecipeGraph}
use stimela_ninja.Graph.Topology.{
  row, least, Drain, emit, pop_least, drain, initial, topological_indices,
}
use stimela_ninja.Graph.Topology.Counts.{occ, occ-append, occ-least}
use stimela_ninja.Graph.Topology.Distinct.{length_bound}
use stimela_ninja.Graph.Topology.Drained.{
  IsGraph, waiting, in_order, free, IsDraining, initial-IsDraining, emit-IsDraining,
}

pop_least-IsDraining :
    (g : RecipeGraph)
    → IsGraph g
    → (counts ready ordered : List ℕ)
    → IsDraining g (record { counts = counts; ready = ready; ordered = ordered })
    → IsDraining g (pop_least g counts ready ordered)
unfolding pop_least
pop_least-IsDraining g graph counts [] ordered inv = inv
pop_least-IsDraining g graph counts (r ∷ ready) ordered inv =
    emit-IsDraining g graph counts (r ∷ ready) ordered (least r ready) inv (occ-least r ready)

drain-IsDraining :
    (fuel : ℕ) (g : RecipeGraph) (s : Drain)
    → IsGraph g
    → IsDraining g s
    → IsDraining g (drain fuel g s)
unfolding drain
drain-IsDraining zero g s graph inv = inv
drain-IsDraining (suc fuel) g s graph inv =
    drain-IsDraining fuel g (pop_least g s.counts s.ready s.ordered) graph
      (pop_least-IsDraining g graph s.counts s.ready s.ordered inv)

-- A round emits a step, unless the heap is empty.
pop_least-length :
    (g : RecipeGraph) (counts ready ordered : List ℕ)
    → (ready ≡ []) ⊎ (length (pop_least g counts ready ordered).ordered ≡ suc (length ordered))
unfolding pop_least emit
pop_least-length g counts [] ordered = inl refl
pop_least-length g counts (r ∷ ready) ordered =
    inr (omega (arith, length-append ordered (least r ready ∷ [])))

pop_least-empty :
    (g : RecipeGraph) (counts ready ordered : List ℕ)
    → ready ≡ []
    → (pop_least g counts ready ordered).ready ≡ []
unfolding pop_least
pop_least-empty g counts [] ordered e = refl
pop_least-empty g counts (r ∷ ready) ordered e = ground (arith, e)

drain-empty : (fuel : ℕ) (g : RecipeGraph) (s : Drain) → s.ready ≡ [] → (drain fuel g s).ready ≡ []
unfolding drain
drain-empty zero g s e = e
drain-empty (suc fuel) g s e =
    drain-empty fuel g (pop_least g s.counts s.ready s.ordered)
      (pop_least-empty g s.counts s.ready s.ordered e)

drain-length :
    (fuel : ℕ) (g : RecipeGraph) (s : Drain)
    → ((drain fuel g s).ready ≡ []) ⊎ (length (drain fuel g s).ordered ≡ fuel + length s.ordered)
unfolding drain
drain-length zero g s = inr (omega arith)
drain-length (suc fuel) g s = elim (pop_least-length g s.counts s.ready s.ordered) [
  | inl e ↦ inl (
      drain-empty fuel g (pop_least g s.counts s.ready s.ordered)
        (pop_least-empty g s.counts s.ready s.ordered e))
  | inr e ↦ elim (drain-length fuel g (pop_least g s.counts s.ready s.ordered)) [
    | inl done ↦ inl done
    | inr more ↦ inr (omega (arith, e, more))
  ]
]

free_bound : (g : RecipeGraph) (ordered : List ℕ) (i : ℕ) → free g ordered i ≤ 1
unfolding free
free_bound g ordered i = ground arith

free_outside :
    (g : RecipeGraph) (ordered : List ℕ) (i : ℕ) → length g.deps ≤ i → free g ordered i ≡ 0
unfolding free
free_outside g ordered i le = ground (arith, le)

-- What is in the heap and what is emitted are different steps of the recipe.
IsDraining-length :
    (g : RecipeGraph) (s : Drain)
    → IsDraining g s
    → length s.ready + length s.ordered ≤ length g.deps
IsDraining-length g s inv = omega (
  arith,
  length-append s.ready s.ordered,
  length_bound (length g.deps) (s.ready ++ s.ordered)
      (λ i le.
        omega (arith, occ-append i s.ready s.ordered, inv.once i, free_outside g s.ordered i le))
      (λ i. omega (arith, occ-append i s.ready s.ordered, inv.once i, free_bound g s.ordered i)),
)

abbrev final : RecipeGraph → Drain
final g = drain (length g.deps) g (initial g)

nil_of_length : (xs : List ℕ) → length xs ≤ 0 → xs ≡ []
nil_of_length [] h = refl
nil_of_length (x ∷ xs) h = ground (arith, h)

final_empty : (g : RecipeGraph) → IsGraph g → (final g).ready ≡ []
final_empty g graph = elim (drain-length (length g.deps) g (initial g)) [
  | inl e ↦ e
  | inr e ↦ nil_of_length (final g).ready (
      omega (
        arith,
        e,
        IsDraining-length g (final g)
            (drain-IsDraining (length g.deps) g (initial g) graph (initial-IsDraining g)),
      ))
]

pub waiting-all :
    (ds ordered : List ℕ) → ((d : ℕ) → 1 ≤ occ d ds → occ d ordered ≡ 1) → waiting ds ordered ≡ 0
unfolding waiting occ
waiting-all [] ordered h = refl
waiting-all (d ∷ ds) ordered h =
    ground (arith, h d (ground arith), waiting-all ds ordered (λ e le. h e (ground (arith, le))))

final-IsDraining : (g : RecipeGraph) → IsGraph g → IsDraining g (final g)
final-IsDraining g graph =
    drain-IsDraining (length g.deps) g (initial g) graph (initial-IsDraining g)

-- The heap is empty at the end, so what is emitted is what can start.
occ-final :
    (g : RecipeGraph) → IsGraph g → (i : ℕ) → occ i (final g).ordered ≡ free g (final g).ordered i
unfolding occ
occ-final g graph i =
    omega (arith, (final-IsDraining g graph).once i, ap (λ xs. occ i xs) (final_empty g graph))

-- Every dependency has a smaller rank.
abbrev pub IsAcyclic : RecipeGraph → (ℕ → ℕ) → Type 0
IsAcyclic g rank = (i d : ℕ) → 1 ≤ occ d (row i g.deps) → rank d < rank i

emitted_below :
    (g : RecipeGraph) (rank : ℕ → ℕ)
    → IsGraph g
    → IsAcyclic g rank
    → (k i : ℕ) → rank i < k
    → i < length g.deps
    → occ i (final g).ordered ≡ 1
unfolding free
emitted_below g rank graph acyclic zero i lt inside = absurd (omega (arith, lt))
emitted_below g rank graph acyclic (suc k) i lt inside = ground (
  arith,
  inside,
  occ-final g graph i,
  waiting-all (row i g.deps) (final g).ordered (λ d h.
      emitted_below g rank graph acyclic k d (omega (arith, lt, acyclic i d h))
        (graph.in_range i d h)),
)

-- The order of an acyclic graph has every step of the recipe exactly once, and nothing else, and
-- each step in it comes after all its dependencies.
pub topological_indices-IsTopological :
    (g : RecipeGraph) (rank : ℕ → ℕ)
    → IsGraph g
    → IsAcyclic g rank
    → ((i : ℕ) → occ i (topological_indices g) ≡ (if ltb i (length g.deps) then 1 else 0))
      × (in_order g.deps [] (topological_indices g) ≡ true)
unfolding topological_indices
topological_indices-IsTopological g rank graph acyclic =
    (members, (final-IsDraining g graph).sorted)
  where
    members : (i : ℕ) → occ i (final g).ordered ≡ (if ltb i (length g.deps) then 1 else 0)
    members i = elim (Bool-cases (ltb i (length g.deps))) [
      | inl h ↦
          rw h
            (emitted_below g rank graph acyclic (suc (rank i)) i (omega arith) (ground (arith, h)))
      | inr h ↦ rw h (
          omega
            (arith, occ-final g graph i, free_outside g (final g).ordered i (ground (arith, h))))
    ]
