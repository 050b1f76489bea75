-- ===== src/Scheduler/Invariant.antt =====
-- What stays true of the scheduler: every step is in one place, and what is there may run.
use stimela_ninja.Prelude.{ℕ, zero, suc, ◌+◌, ◌≤◌, true, List, [], ◌∷◌, ◌++◌, ◌≡◌, refl, ap, ◌⊎◌}
use stimela_ninja.Graph.{RecipeGraph}
use stimela_ninja.Graph.Topology.{nth, row}
use stimela_ninja.Graph.Topology.Counts.{bump, occ}
use stimela_ninja.Graph.Topology.Drained.{waiting, in_order, free}
use stimela_ninja.Scheduler.{Scheduler}
use stimela_ninja.Scheduler.Counts.{occ_entry, occ_key, opening, all_open}

-- The steps that completed with returncode 0, in the order of their completion.
unfoldable pub succeeded : List (ℕ × ℕ) → List ℕ
succeeded [] = []
succeeded ((i, zero) ∷ rs) = i ∷ succeeded rs
succeeded ((i, suc code) ∷ rs) = succeeded rs

pub succeeded-append_success :
    (i : ℕ) (rs : List (ℕ × ℕ)) → succeeded (rs ++ (i, 0) ∷ []) ≡ succeeded rs ++ i ∷ []
unfolding succeeded
succeeded-append_success i [] = refl
succeeded-append_success i ((j, zero) ∷ rs) = ap (λ l. j ∷ l) (succeeded-append_success i rs)
succeeded-append_success i ((j, suc c) ∷ rs) = succeeded-append_success i rs

pub succeeded-append_failure :
    (i code : ℕ) (rs : List (ℕ × ℕ)) → succeeded (rs ++ (i, suc code) ∷ []) ≡ succeeded rs
unfolding succeeded
succeeded-append_failure i code [] = refl
succeeded-append_failure i code ((j, zero) ∷ rs) =
    ap (λ l. j ∷ l) (succeeded-append_failure i code rs)
succeeded-append_failure i code ((j, suc c) ∷ rs) = succeeded-append_failure i code rs

abbrev pub done : Scheduler → List ℕ
done s = succeeded s.results

-- The places of a step other than the heap of ready steps and the results.
abbrev pub working : Scheduler → ℕ → ℕ
working s i = occ_entry i 0 s.pending + (occ_entry i 0 s.futures + occ_key i s.gathering)

-- How often a step is ready, queued, running, waiting for slices or done.
abbrev pub tally : Scheduler → ℕ → ℕ
tally s i = occ i s.ready + (working s i + occ i (done s))

-- How often a slice is queued or running.
abbrev pub slices : Scheduler → ℕ → ℕ → ℕ
slices s i k = occ_entry i (suc k) s.pending + occ_entry i (suc k) s.futures

-- Steps are in one place at most, and in one exactly while nothing has stopped the scheduler: the
-- free ones, whose dependencies are done. `x` is a step that the scheduler has in hand, or a number
-- that is no step.
pub record IsHolding (g : RecipeGraph) (s : Scheduler) (extra : ℕ → ℕ) : Type 0 where
  pub counted : (i : ℕ) → nth i s.counts ≡ waiting (row i g.deps) (done s)
  pub within : (i : ℕ) → tally s i + extra i ≤ free g (done s) i
  pub slotted : (i k : ℕ) → slices s i k ≤ opening i k s.gathering
  pub opened : all_open s.gathering ≡ true
  pub sorted : in_order g.deps [] (done s) ≡ true
  pub exact :
      (s.stop ≡ true)
      ⊎ (((i : ℕ) → tally s i + extra i ≡ free g (done s) i)
          × ((i k : ℕ) → slices s i k ≡ opening i k s.gathering))

abbrev pub none_held : ℕ → ℕ
none_held i = 0

abbrev pub IsScheduling : RecipeGraph → Scheduler → Type 0
IsScheduling g s = IsHolding g s none_held

abbrev pub held : ℕ → ℕ → ℕ
held x i = bump i x
