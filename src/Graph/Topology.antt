-- ===== src/Graph/Topology.antt =====
-- `RecipeGraph.topological_indices` of src/shinobi/graph.py.
pub mod Counts
pub mod Drained
pub mod Distinct
pub mod Complete
mod Samples
use stimela_ninja.Prelude.{
  ℕ, zero, suc, ◌+◌, ◌-◌, Bool, true, false, ◌&&◌, Option, none, some, List, [], ◌∷◌, ◌++◌, map,
  length, ltb, ◌==◌, if◌then◌else◌,
}
use stimela_ninja.Graph.{RecipeGraph}

-- `indegree[i]`
unfoldable pub nth : ℕ → List ℕ → ℕ
nth i [] = 0
nth zero (x ∷ xs) = x
nth (suc i) (x ∷ xs) = nth i xs

-- `indegree[i] -= 1`
unfoldable pub decrement : ℕ → List ℕ → List ℕ
decrement i [] = []
decrement zero (x ∷ xs) = (x - 1) ∷ xs
decrement (suc i) (x ∷ xs) = x ∷ decrement i xs

-- `self.deps[i]`
unfoldable pub row : ℕ → List (List ℕ) → List ℕ
row i [] = []
row zero (r ∷ rows) = r
row (suc i) (r ∷ rows) = row i rows

-- `[index for index, count in enumerate(indegree) if count == 0]`, from an index on.
unfoldable pub zeros : ℕ → List ℕ → List ℕ
zeros k [] = []
zeros k (count ∷ counts) =
    let later = zeros (suc k) counts in if count == 0 then k ∷ later else later

-- A heap is the list of what is in it; a pop takes the least.
unfoldable pub least : ℕ → List ℕ → ℕ
least x [] = x
least x (y ∷ ys) = let m = least y ys in if ltb m x then m else x

unfoldable pub remove : ℕ → List ℕ → List ℕ
remove x [] = []
remove x (y ∷ ys) = let rest = remove x ys in if y == x then ys else y ∷ rest

-- The inner loop: each dependent of the emitted step has one dependency less to wait for.
unfoldable pub notify : List ℕ → List ℕ → List ℕ → List ℕ × List ℕ
unfolding decrement nth
notify [] counts ready = (counts, ready)
notify (d ∷ ds) counts ready =
    let counts' = decrement d counts in
    notify ds counts' (if nth d counts' == 0 then d ∷ ready else ready)

-- The state of the loop: the indegrees, the heap, and what has been emitted.
pub record Drain : Type 0 where
  pub counts : List ℕ
  pub ready : List ℕ
  pub ordered : List ℕ

pub emit : RecipeGraph → ℕ → List ℕ → List ℕ → List ℕ → Drain
unfolding notify row
emit g x rest counts ordered =
    let (counts', ready') = notify (row x g.dependents) counts rest in
    record { counts = counts'; ready = ready'; ordered = ordered ++ x ∷ [] }

pub pop_least : RecipeGraph → List ℕ → List ℕ → List ℕ → Drain
unfolding emit least remove
pop_least g counts [] ordered = record { counts = counts; ready = []; ordered = ordered }
pop_least g counts (r ∷ ready) ordered =
    let x = least r ready in emit g x (remove x (r ∷ ready)) counts ordered

-- `while ready`, for at most `fuel` rounds.
pub drain : ℕ → RecipeGraph → Drain → Drain
unfolding pop_least
drain zero g s = s
drain (suc fuel) g s = drain fuel g (pop_least g s.counts s.ready s.ordered)

unfoldable pub initial : RecipeGraph → Drain
unfolding zeros
initial g =
    let indegree = map length g.deps in
    record { counts = indegree; ready = zeros 0 indegree; ordered = [] }

-- A round emits one step, so there are as many rounds as steps.
pub topological_indices : RecipeGraph → List ℕ
unfolding drain initial
topological_indices g = (drain (length g.deps) g (initial g)).ordered
