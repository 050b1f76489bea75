-- ===== src/Scheduler/Started.antt =====
-- What runs: steps whose dependencies are done, each once, and no more units than workers.
use stimela_ninja.Prelude.{ℕ, zero, suc, ◌≤◌, ◌<◌, true, List, length, any, ◌≡◌, arith}
use stimela_ninja.Graph.{RecipeGraph}
use stimela_ninja.Graph.Topology.{row}
use stimela_ninja.Graph.Topology.Counts.{occ}
use stimela_ninja.Graph.Topology.Drained.{IsGraph, waiting, free}
use stimela_ninja.Scheduler.{same_entry, Scheduler, begin}
use stimela_ninja.Scheduler.Steps.{Reach}
use stimela_ninja.Scheduler.Counts.{occ_entry, occ_entry-any, opening-le}
use stimela_ninja.Scheduler.Invariant.{done, IsScheduling}
use stimela_ninja.Scheduler.Kept.{begin-IsScheduling}
use stimela_ninja.Scheduler.Runs.{Reach-IsScheduling}

free-IsReady :
    (g : RecipeGraph) (ordered : List ℕ) (i : ℕ)
    → 1 ≤ free g ordered i
    → (i < length g.deps) × (waiting (row i g.deps) ordered ≡ 0)
unfolding free
free-IsReady g ordered i h = (ground (arith, h), ground (arith, h))

free_once : (g : RecipeGraph) (ordered : List ℕ) (i : ℕ) → free g ordered i ≤ 1
unfolding free
free_once g ordered i = ground arith

-- A unit in the pool is a place of its step.
placed :
    (g : RecipeGraph) (s : Scheduler) (i k : ℕ)
    → IsScheduling g s
    → 1 ≤ occ_entry i k s.futures
    → (1 ≤ free g (done s) i) × (occ i (done s) ≡ 0) × (occ_entry i k s.futures ≡ 1)
placed g s i zero h m = (
  omega (arith, h.within i, m),
  omega (arith, h.within i, m, free_once g (done s) i),
  omega (arith, h.within i, m, free_once g (done s) i),
)
placed g s i (suc k) h m = (
  omega (arith, h.within i, h.slotted i k, opening-le i k s.gathering, m),
  omega (arith, h.within i, h.slotted i k, opening-le i k s.gathering, m, free_once g (done s) i),
  omega (arith, h.within i, h.slotted i k, opening-le i k s.gathering, m, free_once g (done s) i),
)

-- In any reachable state, a unit in the pool is there once, and belongs to a step of the recipe
-- that has not completed and all of whose dependencies have completed with returncode 0.
pub running_may_run :
    {g : RecipeGraph} {workers : ℕ} {s : Scheduler} (graph : IsGraph g)
    (run : Reach g workers (begin g) s) (i k : ℕ)
    → any (same_entry (i, k)) s.futures ≡ true
    → (i < length g.deps)
      × (waiting (row i g.deps) (done s) ≡ 0)
      × (occ i (done s) ≡ 0)
      × (occ_entry i k s.futures ≡ 1)
running_may_run {g} {workers} {s} graph run i k m =
    let h = Reach-IsScheduling graph run (begin-IsScheduling g) in
    let (f, fresh, once) = placed g s i k h (occ_entry-any i k s.futures m) in
    let (inside, none_left) = free-IsReady g (done s) i f in (inside, none_left, fresh, once)
