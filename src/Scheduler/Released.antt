-- ===== src/Scheduler/Released.antt =====
-- A step in hand completes, fails or is queued.
use stimela_ninja.Prelude.{
  ℕ, zero, suc, ◌+◌, ◌≤◌, true, List, [], ◌∷◌, ◌++◌, ◌==◌, ◌≡◌, refl, arith, inl, inr,
}
use stimela_ninja.Graph.{RecipeGraph}
use stimela_ninja.Graph.Topology.{nth, row, notify}
use stimela_ninja.Graph.Topology.Counts.{bump, occ, occ-append, notify-counts, notify-ready}
use stimela_ninja.Graph.Topology.Drained.{
  IsGraph, waiting, in_order-emit, free, row_range, waiting-emit,
}
use stimela_ninja.Scheduler.{Scheduler, released, step_completed}
use stimela_ninja.Scheduler.Invariant.{
  succeeded-append_success, succeeded-append_failure, done, working, IsHolding, IsScheduling, held,
}

-- The step that completes frees those that waited for it alone.
module _ (g : RecipeGraph) (graph : IsGraph g) (counts ready ordered : List ℕ) (x : ℕ)
    (counted : (i : ℕ) → nth i counts ≡ waiting (row i g.deps) ordered) (fresh : occ x ordered ≡ 0)
    (starts : free g ordered x ≡ 1) where
  notified-within :
      (i others : ℕ)
      → occ i ready + (others + occ i ordered) + bump i x ≤ free g ordered i
      → occ i (notify (row x g.dependents) counts ready).1 + (others + occ i (ordered ++ x ∷ []))
        ≤ free g (ordered ++ x ∷ []) i
  unfolding free occ
  notified-within i others h = ground (
    arith,
    h,
    fresh,
    starts,
    notify-ready i (row x g.dependents) counts ready
        (λ j. omega (arith, graph.reversed j x, graph.distinct j x)),
    graph.reversed i x,
    graph.distinct i x,
    row_range i x g.deps,
    counted i,
    occ-append i ordered (x ∷ []),
    waiting-emit x (row i g.deps) ordered fresh,
  )

  notified-exact :
      (i others : ℕ)
      → occ i ready + (others + occ i ordered) + bump i x ≡ free g ordered i
      → occ i (notify (row x g.dependents) counts ready).1 + (others + occ i (ordered ++ x ∷ []))
        ≡ free g (ordered ++ x ∷ []) i
  unfolding free occ
  notified-exact i others h = ground (
    arith,
    h,
    fresh,
    starts,
    notify-ready i (row x g.dependents) counts ready
        (λ j. omega (arith, graph.reversed j x, graph.distinct j x)),
    graph.reversed i x,
    graph.distinct i x,
    row_range i x g.deps,
    counted i,
    occ-append i ordered (x ∷ []),
    waiting-emit x (row i g.deps) ordered fresh,
  )

  notified-counted :
      (i : ℕ)
      → nth i (notify (row x g.dependents) counts ready).0
        ≡ waiting (row i g.deps) (ordered ++ x ∷ [])
  notified-counted i = omega (
    arith,
    notify-counts i (row x g.dependents) counts ready,
    graph.reversed i x,
    counted i,
    waiting-emit x (row i g.deps) ordered fresh,
  )

-- A step in hand is free and not done.
pub held-fresh :
    (g : RecipeGraph) (s : Scheduler) (x : ℕ)
    → IsHolding g s (held x)
    → (occ x (done s) ≡ 0) × (free g (done s) x ≡ 1)
unfolding free
held-fresh g s x h = (ground (arith, h.within x), ground (arith, h.within x))

free-waiting :
    (g : RecipeGraph) (x : ℕ) (ordered : List ℕ)
    → free g ordered x ≡ 1
    → (waiting (row x g.deps) ordered == 0) ≡ true
unfolding free
free-waiting g x ordered e = ground (arith, e)

completed-IsScheduling :
    (g : RecipeGraph) (s : Scheduler) (x : ℕ)
    → IsGraph g
    → IsHolding g s (held x)
    → IsScheduling g (step_completed g x 0 s)
unfolding step_completed released
completed-IsScheduling g s x graph h =
    let (fresh, starts) = held-fresh g s x h in
    record {
      counted = λ i.
          rw (succeeded-append_success x s.results)
            (notified-counted g graph s.counts s.ready (done s) x h.counted fresh starts i);
      within = λ i. rw (succeeded-append_success x s.results) (
          omega (
            arith,
            notified-within g graph s.counts s.ready (done s) x h.counted fresh starts i
                (working s i) (omega (arith, h.within i)),
          ));
      slotted = h.slotted;
      opened = h.opened;
      sorted = rw (succeeded-append_success x s.results) (
          ground (
            arith,
            in_order-emit g.deps [] (done s) x,
            h.sorted,
            free-waiting g x (done s) starts,
          ));
      exact = elim h.exact [
        | inl e ↦ inl e
        | inr (e, f) ↦ inr (
          λ i. rw (succeeded-append_success x s.results) (
              omega (
                arith,
                notified-exact g graph s.counts s.ready (done s) x h.counted fresh starts i
                    (working s i) (omega (arith, e i)),
              )),
          f,
        )
      ];
    }

failed-IsScheduling :
    (g : RecipeGraph) (s : Scheduler) (x code : ℕ)
    → IsHolding g s (held x)
    → IsScheduling g (step_completed g x (suc code) s)
unfolding step_completed
failed-IsScheduling g s x code h = record {
  counted = λ i. rw (succeeded-append_failure x code s.results) (h.counted i);
  within = λ i. rw (succeeded-append_failure x code s.results) (omega (arith, h.within i));
  slotted = h.slotted;
  opened = h.opened;
  sorted = rw (succeeded-append_failure x code s.results) h.sorted;
  exact = inl refl;
}

pub step_completed-IsScheduling :
    (g : RecipeGraph) (s : Scheduler) (x code : ℕ)
    → IsGraph g
    → IsHolding g s (held x)
    → IsScheduling g (step_completed g x code s)
step_completed-IsScheduling g s x zero graph h = completed-IsScheduling g s x graph h
step_completed-IsScheduling g s x (suc code) graph h = failed-IsScheduling g s x code h
