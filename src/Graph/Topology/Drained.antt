-- ===== src/Graph/Topology/Drained.antt =====
-- What stays true of the heap and of the steps that are emitted.
use mathlib.Core.List.{append_assoc, append-nil}
use stimela_ninja.Prelude.{
  ℕ, zero, suc, ◌+◌, ◌≤◌, ◌<◌, Bool, true, ◌&&◌, List, [], ◌∷◌, ◌++◌, map, length, ltb, ◌==◌,
  if◌then◌else◌, ◌≡◌, refl, arith, ap,
}
use stimela_ninja.Graph.{RecipeGraph}
use stimela_ninja.Graph.Topology.{nth, row, zeros, remove, Drain, emit, initial}
use stimela_ninja.Graph.Topology.Counts.{
  occ, occ-append, nth-map-length, occ-zeros, occ-remove, notify-counts, notify-ready,
}

-- `dependents` is the reverse of `deps`; both are sets of steps of the recipe.
pub record IsGraph (g : RecipeGraph) : Type 0 where
  pub reversed : (i x : ℕ) → occ i (row x g.dependents) ≡ occ x (row i g.deps)
  pub distinct : (i x : ℕ) → occ x (row i g.deps) ≤ 1
  pub in_range : (i x : ℕ) → 1 ≤ occ x (row i g.deps) → x < length g.deps

-- How many of the dependencies are not emitted.
unfoldable pub waiting : List ℕ → List ℕ → ℕ
waiting [] ordered = 0
waiting (d ∷ ds) ordered = (if ltb 0 (occ d ordered) then 0 else 1) + waiting ds ordered

waiting-none : (ds : List ℕ) → waiting ds [] ≡ length ds
unfolding waiting occ
waiting-none [] = refl
waiting-none (d ∷ ds) = ground (arith, waiting-none ds)

pub waiting-emit :
    (x : ℕ) (ds ordered : List ℕ)
    → occ x ordered ≡ 0
    → waiting ds (ordered ++ x ∷ []) + occ x ds ≡ waiting ds ordered
unfolding waiting occ
waiting-emit x [] ordered e = ground arith
waiting-emit x (d ∷ ds) ordered e = ground (
  arith,
  e,
  waiting-emit x ds ordered e,
  occ-append d ordered (x ∷ []),
  occ-append x ordered (x ∷ []),
)

-- Every step comes after its dependencies, in a list that goes on from the steps `seen`.
unfoldable pub in_order : List (List ℕ) → List ℕ → List ℕ → Bool
in_order deps seen [] = true
in_order deps seen (x ∷ xs) = waiting (row x deps) seen == 0 && in_order deps (seen ++ x ∷ []) xs

pub in_order-emit :
    (deps : List (List ℕ)) (seen xs : List ℕ) (x : ℕ)
    → in_order deps seen (xs ++ x ∷ [])
      ≡ (in_order deps seen xs && waiting (row x deps) (seen ++ xs) == 0)
unfolding in_order
in_order-emit deps seen [] x = ground (arith, ap (λ z. waiting (row x deps) z) (append-nil seen))
in_order-emit deps seen (y ∷ xs) x = ground (
  arith,
  in_order-emit deps (seen ++ y ∷ []) xs x,
  ap (λ z. waiting (row x deps) z) (append_assoc seen (y ∷ []) xs),
)

-- The steps that can start: in the recipe, with no dependency left.
unfoldable pub free : RecipeGraph → List ℕ → ℕ → ℕ
free g ordered i = if ltb i (length g.deps) && waiting (row i g.deps) ordered == 0 then 1 else 0

-- The invariant of the loop: the indegrees are the dependencies left, the heap holds just the steps
-- that can start and are not emitted, each once, and what is emitted is in order.
pub record IsDraining (g : RecipeGraph) (s : Drain) : Type 0 where
  pub counted : (i : ℕ) → nth i s.counts ≡ waiting (row i g.deps) s.ordered
  pub once : (i : ℕ) → occ i s.ready + occ i s.ordered ≡ free g s.ordered i
  pub sorted : in_order g.deps [] s.ordered ≡ true

zero_add : (i : ℕ) → 0 + i ≡ i
zero_add i = omega arith

length-map : (rows : List (List ℕ)) → length (map length rows) ≡ length rows
length-map [] = refl
length-map (r ∷ rows) = omega (arith, length-map rows)

pub initial-IsDraining : (g : RecipeGraph) → IsDraining g (initial g)
unfolding initial occ free in_order
initial-IsDraining g = record {
  counted = λ i. ground (arith, nth-map-length i g.deps, waiting-none (row i g.deps));
  once = λ i. ground (
    arith,
    occ-zeros i 0 (map length g.deps),
    ap (λ n. occ n (zeros 0 (map length g.deps))) (zero_add i),
    length-map g.deps,
    nth-map-length i g.deps,
    waiting-none (row i g.deps),
  );
  sorted = refl;
}

pub row_range : (i x : ℕ) (rows : List (List ℕ)) → 1 ≤ occ x (row i rows) → i < length rows
unfolding row occ
row_range i x [] h = ground (arith, h)
row_range zero x (r ∷ rows) h = omega arith
row_range (suc i) x (r ∷ rows) h = omega (arith, row_range i x rows h)

emit-once :
    (g : RecipeGraph)
    → IsGraph g
    → (counts ready ordered : List ℕ) (x : ℕ)
    → IsDraining g (record { counts = counts; ready = ready; ordered = ordered })
    → 1 ≤ occ x ready
    → (i : ℕ)
    → occ i (emit g x (remove x ready) counts ordered).ready + occ i (ordered ++ x ∷ [])
      ≡ free g (ordered ++ x ∷ []) i
unfolding emit free occ
emit-once g graph counts ready ordered x inv h i = ground (
  arith,
  notify-ready i (row x g.dependents) counts (remove x ready)
      (λ j. omega (arith, graph.reversed j x, graph.distinct j x)),
  graph.reversed i x,
  graph.distinct i x,
  row_range i x g.deps,
  inv.counted i,
  inv.once i,
  inv.once x,
  occ-remove i x ready,
  occ-append i ordered (x ∷ []),
  h,
  waiting-emit x (row i g.deps) ordered,
)

pub emit-IsDraining :
    (g : RecipeGraph)
    → IsGraph g
    → (counts ready ordered : List ℕ) (x : ℕ)
    → IsDraining g (record { counts = counts; ready = ready; ordered = ordered })
    → 1 ≤ occ x ready
    → IsDraining g (emit g x (remove x ready) counts ordered)
unfolding emit free
emit-IsDraining g graph counts ready ordered x inv h = record {
  counted = λ i. ground (
    arith,
    notify-counts i (row x g.dependents) counts (remove x ready),
    graph.reversed i x,
    inv.counted i,
    inv.once x,
    h,
    waiting-emit x (row i g.deps) ordered,
  );
  once = emit-once g graph counts ready ordered x inv h;
  sorted = ground (arith, in_order-emit g.deps [] ordered x, inv.sorted, inv.once x, h);
}
