-- ===== src/Scheduler.antt =====
-- The scheduler of one recipe, `_run_recipe` of src/shinobi/steps/dispatch.py: its state and what
-- its local functions do to it.
pub mod Steps
pub mod Counts
pub mod Invariant
pub mod Released
pub mod Kept
pub mod Collected
pub mod Runs
pub mod Started
pub mod Finished
pub mod Stopped
pub mod Ends
mod Samples
use stimela_ninja.Prelude.{
  ℕ, zero, suc, ◌-◌, Bool, true, false, not, ◌&&◌, ◌||◌, Option, none, some, List, [], ◌∷◌, ◌++◌,
  map, length, ltb, ◌==◌, if◌then◌else◌, is_some, all,
}
use stimela_ninja.Graph.{RecipeGraph}
use stimela_ninja.Graph.Topology.{row, zeros, least, remove, notify}

-- An admission unit: a step and a slot, 0 for the whole step and k + 1 for its slice k (the source
-- has -1 for the whole).
abbrev pub Entry : Type 0
Entry = ℕ × ℕ

abbrev pub same_entry : Entry → Entry → Bool
same_entry (i, k) (j, l) = i == j && k == l

-- The order of the heap of units.
abbrev pub before : Entry → Entry → Bool
before (i, k) (j, l) = ltb i j || (i == j && ltb k l)

unfoldable pub least_entry : Entry → List Entry → Entry
least_entry e [] = e
least_entry e (f ∷ fs) = let m = least_entry f fs in if before m e then m else e

unfoldable pub remove_entry : Entry → List Entry → List Entry
remove_entry e [] = []
remove_entry e (f ∷ fs) = let rest = remove_entry e fs in if same_entry f e then fs else f ∷ rest

-- The results of the slices of a step, none for one that has not come back.
abbrev pub Slots : Type 0
Slots = List (Option ℕ)

-- A result is its returncode. `results` is in the order of completion.
pub record Scheduler : Type 0 where
  pub counts : List ℕ
  pub ready : List ℕ
  pub pending : List Entry
  pub futures : List Entry
  pub gathering : List (ℕ × Slots)
  pub results : List (ℕ × ℕ)
  pub failures : List (ℕ × ℕ)
  pub errors : List ℕ
  pub stop : Bool

unfoldable pub begin : RecipeGraph → Scheduler
begin g =
    let indegree = map length g.deps in
    record {
      counts = indegree;
      ready = zeros 0 indegree;
      pending = [];
      futures = [];
      gathering = [];
      results = [];
      failures = [];
      errors = [];
      stop = false;
    }

-- `_step_completed` and `_release_dependents`
unfoldable pub released : RecipeGraph → ℕ → Scheduler → Scheduler
released g i s =
    let (counts', ready') = notify (row i g.dependents) s.counts s.ready in
    record s { counts = counts'; ready = ready' }

abbrev pub with_result : ℕ → ℕ → Scheduler → Scheduler
with_result i code s = record s { results = s.results ++ (i, code) ∷ [] }

unfoldable pub step_completed : RecipeGraph → ℕ → ℕ → Scheduler → Scheduler
step_completed g i zero s = released g i (with_result i 0 s)
step_completed g i (suc code) s =
    let s' = with_result i (suc code) s in
    record s' { failures = s.failures ++ (i, suc code) ∷ []; stop = true }

-- What a step's inputs turn out to be once they are resolved: they do not resolve, the step's loop
-- has converged, it runs as a whole, or it runs in a number of slices.
pub data Expansion : Type 0 where
  unresolved passed_through whole : Expansion
  sliced : ℕ → Expansion

-- The units of the slices 0 to n - 1.
unfoldable pub units : ℕ → ℕ → List Entry → List Entry
units i zero pending = pending
units i (suc n) pending = units i n ((i, suc n) ∷ pending)

unfoldable pub empty_slots : ℕ → Slots
empty_slots zero = []
empty_slots (suc n) = none ∷ empty_slots n

-- The returncode of `_aggregate_scatter_results`: the first failure by slice index.
unfoldable pub aggregate : Slots → ℕ
aggregate [] = 0
aggregate (none ∷ slots) = aggregate slots
aggregate (some zero ∷ slots) = aggregate slots
aggregate (some (suc code) ∷ slots) = suc code

-- `_expand_safely`
unfoldable pub expand : RecipeGraph → Expansion → ℕ → Scheduler → Scheduler
expand g unresolved i s = record s { errors = s.errors ++ i ∷ []; stop = true }
expand g passed_through i s = step_completed g i 0 s
expand g whole i s = record s { pending = (i, 0) ∷ s.pending }
expand g (sliced zero) i s = step_completed g i (aggregate []) s
expand g (sliced (suc n)) i s = record s {
  pending = units i (suc n) s.pending;
  gathering = (i, empty_slots (suc n)) ∷ s.gathering;
}

-- `heapq.heappop(ready)`, of a heap that is not empty
abbrev pub pop_ready : ℕ → Scheduler → Scheduler
pop_ready i s = record s { ready = remove i s.ready }

-- `_submit_unit`, of a unit that leaves the queue
abbrev pub submit : Entry → Scheduler → Scheduler
submit e s = record s { pending = remove_entry e s.pending; futures = e ∷ s.futures }

-- `slice_results[i][slice_idx] = res`
unfoldable pub fill : ℕ → ℕ → Slots → Slots
fill k code [] = []
fill zero code (slot ∷ slots) = some code ∷ slots
fill (suc k) code (slot ∷ slots) = slot ∷ fill k code slots

unfoldable pub fill_in : ℕ → ℕ → ℕ → List (ℕ × Slots) → List (ℕ × Slots)
fill_in i k code [] = []
fill_in i k code ((j, slots) ∷ others) =
    let rest = fill_in i k code others in
    if i == j then (j, fill k code slots) ∷ others else (j, slots) ∷ rest

unfoldable pub slots_of : ℕ → List (ℕ × Slots) → Slots
slots_of i [] = []
slots_of i ((j, slots) ∷ others) = if i == j then slots else slots_of i others

unfoldable pub drop : ℕ → List (ℕ × Slots) → List (ℕ × Slots)
drop i [] = []
drop i ((j, slots) ∷ others) =
    let rest = drop i others in if i == j then others else (j, slots) ∷ rest

abbrev pub complete : Slots → Bool
complete slots = all is_some slots

-- A slice came back: the step completes with its last slice.
unfoldable pub gathered : RecipeGraph → ℕ → ℕ → ℕ → Scheduler → Scheduler
gathered g i k code s =
    let filled = fill_in i k code s.gathering in
    let slots = slots_of i filled in
    if complete slots
    then step_completed g i (aggregate slots) (record s { gathering = drop i filled })
    else record s { gathering = filled }

pub data Outcome : Type 0 where
  raised : Outcome
  returned : ℕ → Outcome

-- One future of the loop `for fut in done`.
unfoldable pub reaped : RecipeGraph → Entry → Outcome → Scheduler → Scheduler
reaped g (i, slot) raised s = record s { errors = s.errors ++ i ∷ []; stop = true }
reaped g (i, zero) (returned code) s = step_completed g i code s
reaped g (i, suc k) (returned code) s = gathered g i k code s

abbrev pub reap : RecipeGraph → Entry → Outcome → Scheduler → Scheduler
reap g e outcome s = reaped g e outcome (record s { futures = remove_entry e s.futures })
