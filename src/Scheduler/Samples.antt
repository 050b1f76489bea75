-- ===== src/Scheduler/Samples.antt =====
-- A step in two slices, and a step that waits for it, on two workers.
use mathlib.Core.WellFounded.{Acc}
use stimela_ninja.Prelude.{
  ℕ, zero, suc, ◌≤◌, ◌<◌, true, false, not, ◌&&◌, [], ◌∷◌, length, ltb, if◌then◌else◌, any, ◌≡◌,
  refl, arith,
}
use stimela_ninja.Graph.{RecipeGraph}
use stimela_ninja.Graph.Topology.{row, zeros, least, remove, notify, nth, decrement}
use stimela_ninja.Graph.Topology.Counts.{occ}
use stimela_ninja.Graph.Topology.Drained.{IsGraph, waiting, in_order}
use stimela_ninja.Graph.Topology.Complete.{IsAcyclic}
use stimela_ninja.Scheduler.{
  Scheduler, same_entry, begin, sliced, whole, returned, raised, expand, pop_ready, submit, reap,
  least_entry, remove_entry, released, step_completed, units, empty_slots, aggregate, fill, fill_in,
  slots_of, drop, gathered, reaped,
}
use stimela_ninja.Scheduler.Steps.{Reach, here, next, refill, admit, collect}
use stimela_ninja.Scheduler.Counts.{occ_entry}
use stimela_ninja.Scheduler.Invariant.{succeeded, done}
use stimela_ninja.Scheduler.Started.{running_may_run}
use stimela_ninja.Scheduler.Finished.{IsFinished, finished_all_done}
use stimela_ninja.Scheduler.Stopped.{pool_bounded, failure_drains}
use stimela_ninja.Scheduler.Ends.{After, run_ends}

abbrev two : RecipeGraph
two = record {
  names = "split" ∷ "image" ∷ [];
  deps = [] ∷ (0 ∷ []) ∷ [];
  dependents = (1 ∷ []) ∷ [] ∷ [];
}

two-reversed : (i x : ℕ) → occ i (row x two.dependents) ≡ occ x (row i two.deps)
unfolding occ row
two-reversed zero zero = ground arith
two-reversed zero (suc zero) = ground arith
two-reversed zero (suc (suc x)) = ground arith
two-reversed (suc zero) zero = ground arith
two-reversed (suc zero) (suc zero) = ground arith
two-reversed (suc zero) (suc (suc x)) = ground arith
two-reversed (suc (suc i)) zero = ground arith
two-reversed (suc (suc i)) (suc zero) = ground arith
two-reversed (suc (suc i)) (suc (suc x)) = ground arith

two-distinct : (i x : ℕ) → occ x (row i two.deps) ≤ 1
unfolding occ row
two-distinct zero x = ground arith
two-distinct (suc zero) x = ground arith
two-distinct (suc (suc i)) x = ground arith

two-in_range : (i x : ℕ) → 1 ≤ occ x (row i two.deps) → x < length two.deps
unfolding occ row
two-in_range zero x h = ground (arith, h)
two-in_range (suc zero) x h = ground (arith, h)
two-in_range (suc (suc i)) x h = ground (arith, h)

two-IsGraph : IsGraph two
two-IsGraph = record { reversed = two-reversed; distinct = two-distinct; in_range = two-in_range }

two-IsAcyclic : IsAcyclic two (λ i. i)
unfolding occ row
two-IsAcyclic zero d h = ground (arith, h)
two-IsAcyclic (suc zero) d h = ground (arith, h)
two-IsAcyclic (suc (suc i)) d h = ground (arith, h)

program : Unit {0}
unfolding begin expand least_entry remove_entry released step_completed units empty_slots aggregate
    fill fill_in slots_of drop gathered reaped row zeros least remove notify nth decrement occ
    occ_entry succeeded waiting in_order
program = tt

abbrev start : Scheduler
start = begin two

abbrev expanded : Scheduler
expanded = expand two (sliced 2) 0 (pop_ready 0 start)

abbrev one_runs : Scheduler
one_runs = submit (0, 1) expanded

abbrev both_run : Scheduler
both_run = submit (0, 2) one_runs

abbrev one_back : Scheduler
one_back = reap two (0, 2) (returned 0) both_run

abbrev both_back : Scheduler
both_back = reap two (0, 1) (returned 0) one_back

abbrev second_queued : Scheduler
second_queued = expand two whole 1 (pop_ready 1 both_back)

abbrev second_runs : Scheduler
second_runs = submit (1, 0) second_queued

abbrev all_back : Scheduler
all_back = reap two (1, 0) (returned 0) second_runs

to_both_run : Reach two 2 start both_run
unfolding program
to_both_run =
    next
      (next (next here (refill start 0 [] (sliced 2) refl refl refl))
        (admit expanded (0, 1) ((0, 2) ∷ []) refl refl (omega arith)))
      (admit one_runs (0, 2) [] refl refl (omega arith))

to_all_back : Reach two 2 start all_back
unfolding program
to_all_back =
    next
      (next
        (next
          (next (next to_both_run (collect both_run (0, 2) (returned 0) refl))
            (collect one_back (0, 1) (returned 0) refl))
          (refill both_back 1 [] whole refl refl refl))
        (admit second_queued (1, 0) [] refl refl (omega arith)))
      (collect second_runs (1, 0) (returned 0) refl)

running_may_run_example :
    (0 < 2)
    × (waiting (row 0 two.deps) (done both_run) ≡ 0)
    × (occ 0 (done both_run) ≡ 0)
    × (occ_entry 0 2 both_run.futures ≡ 1)
unfolding program
running_may_run_example = running_may_run two-IsGraph to_both_run 0 2 refl

pool_bounded_example : length both_run.futures ≤ 2
unfolding program
pool_bounded_example = pool_bounded to_both_run

all_back-IsFinished : IsFinished all_back
unfolding program
all_back-IsFinished = record { idle = refl; unqueued = refl; unready = refl; unstopped = refl }

finished_all_done_example :
    ((i : ℕ) → occ i (done all_back) ≡ (if ltb i 2 then 1 else 0))
    × (in_order two.deps [] (done all_back) ≡ true)
finished_all_done_example =
    finished_all_done (λ i. i) two-IsGraph two-IsAcyclic to_all_back all_back-IsFinished

run_ends_example : Acc (After two 2) both_run
run_ends_example = run_ends two-IsGraph to_both_run

-- A slice raises: the other one still comes back.
abbrev halted : Scheduler
halted = reap two (0, 1) raised both_run

abbrev drained : Scheduler
drained = reap two (0, 2) (returned 0) halted

-- A failure of the first slice stops the scheduler when the other one is back too.
abbrev half_failed : Scheduler
half_failed = reap two (0, 1) (returned 3) both_run

failure_drains_example :
    (halted.stop ≡ true)
    × ((any (same_entry (0, 2)) halted.futures
          && not (any (same_entry (0, 2)) (remove_entry (0, 1) both_run.futures)))
        ≡ false)
unfolding program
failure_drains_example =
    failure_drains {g = two} {workers = 2} both_run (0, 1) (0, 2) raised refl here

last_slice_stops : (reap two (0, 2) (returned 0) half_failed).stop ≡ true
unfolding program
last_slice_stops = refl

drained_runs : (drained.futures ≡ []) × (drained.errors ≡ 0 ∷ []) × (drained.ready ≡ [])
unfolding program
drained_runs = (refl, refl, refl)

-- A slice that returned a failure does not stop the scheduler while the other one is out.
failed_slice_goes_on : (reap two (0, 1) (returned 3) both_run).stop ≡ false
unfolding program
failed_slice_goes_on = refl
