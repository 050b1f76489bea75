-- ===== src/Scheduler/Ends.antt =====
-- The loop of `_run_recipe` does finitely much besides waiting for the budget.
use mathlib.Core.WellFounded.{Acc}
use stimela_ninja.Prelude.{
  ℕ, zero, suc, ◌+◌, ◌*◌, ◌≤◌, ◌<◌, true, some, List, [], ◌∷◌, length, ◌==◌, if◌then◌else◌, ◌≡◌,
  refl, arith, sym, subst, ◌⊎◌, inl, inr, Bool-cases, Option-cases, some_inj,
}
use stimela_ninja.Graph.{RecipeGraph}
use stimela_ninja.Graph.Topology.{nth, decrement, row, least, remove, notify}
use stimela_ninja.Graph.Topology.Counts.{occ, nth-decrement, occ-least}
use stimela_ninja.Graph.Topology.Drained.{IsGraph, waiting-emit}
use stimela_ninja.Scheduler.{
  Entry, least_entry, remove_entry, Scheduler, begin, released, step_completed, Expansion,
  unresolved, passed_through, whole, sliced, aggregate, expand, pop_ready, submit, fill_in,
  slots_of, drop, complete, gathered, Outcome, raised, returned, reaped, reap,
}
use stimela_ninja.Scheduler.Steps.{
  Answers, first_fit, chosen, backfill_lookahead, backfill_behind, Step, refill, admit, overtake,
  park, works, collect, Reach,
}
use stimela_ninja.Scheduler.Counts.{occ_entry, occ_entry-any, occ_entry-least, occ_entry-remove_le}
use stimela_ninja.Scheduler.Invariant.{done, IsHolding, IsScheduling, held}
use stimela_ninja.Scheduler.Released.{held-fresh}
use stimela_ninja.Scheduler.Kept.{popped-IsHolding, begin-IsScheduling}
use stimela_ninja.Scheduler.Collected.{returned-IsHolding, dropped-IsHolding}
use stimela_ninja.Scheduler.Runs.{
  occ_entry-first_fit, occ-chosen, Step-IsScheduling, Reach-IsScheduling,
}

-- Steps that wait for a dependency.
nonzeros : List ℕ → ℕ
nonzeros [] = 0
nonzeros (c ∷ cs) = (if c == 0 then 0 else 1) + nonzeros cs

nonzeros-decrement :
    (d : ℕ) (cs : List ℕ)
    → 1 ≤ nth d cs
    → (if nth d (decrement d cs) == 0 then 1 else 0) + nonzeros (decrement d cs) ≡ nonzeros cs
unfolding nonzeros nth decrement
nonzeros-decrement d [] h = absurd (omega (arith, h))
nonzeros-decrement zero (c ∷ cs) h = ground (arith, h)
nonzeros-decrement (suc d) (c ∷ cs) h = ground (arith, h, nonzeros-decrement d cs)

-- A step that becomes ready waits no longer.
notify-nonzeros :
    (ds counts ready : List ℕ)
    → ((j : ℕ) → occ j ds ≤ nth j counts)
    → length (notify ds counts ready).1 + nonzeros (notify ds counts ready).0
      ≡ length ready + nonzeros counts
unfolding notify occ
notify-nonzeros [] counts ready h = refl
notify-nonzeros (d ∷ ds) counts ready h = ground (
  arith,
  h d,
  nonzeros-decrement d counts,
  notify-nonzeros ds (decrement d counts)
      (if nth d (decrement d counts) == 0 then d ∷ ready else ready)
      (λ j. ground (arith, h j, nth-decrement j d counts)),
)

-- Steps that were not expanded, ready or not.
ahead : Scheduler → ℕ
ahead s = length s.ready + nonzeros s.counts

step_completed-ahead :
    (g : RecipeGraph) (s : Scheduler) (x code : ℕ)
    → IsGraph g
    → IsHolding g s (held x)
    → ahead (step_completed g x code s) ≤ ahead s
unfolding ahead step_completed released
step_completed-ahead g s x (suc code) graph h = omega arith
step_completed-ahead g s x zero graph h = omega (
  arith,
  notify-nonzeros (row x g.dependents) s.counts s.ready (λ j. omega (
    arith,
    graph.reversed j x,
    h.counted j,
    waiting-emit x (row j g.deps) (done s) (held-fresh g s x h).0,
  )),
)

expand-ahead :
    (g : RecipeGraph) (s : Scheduler) (found : Expansion) (x : ℕ)
    → IsGraph g
    → IsHolding g s (held x)
    → ahead (expand g found x s) ≤ ahead s
unfolding ahead expand
expand-ahead g s unresolved x graph h = omega arith
expand-ahead g s passed_through x graph h = step_completed-ahead g s x 0 graph h
expand-ahead g s whole x graph h = omega arith
expand-ahead g s (sliced zero) x graph h = step_completed-ahead g s x (aggregate []) graph h
expand-ahead g s (sliced (suc n)) x graph h = omega arith

reap-ahead :
    (g : RecipeGraph) (s : Scheduler) (e : Entry) (outcome : Outcome)
    → IsGraph g
    → 1 ≤ occ_entry e.0 e.1 s.futures
    → IsScheduling g s
    → ahead (reap g e outcome s) ≤ ahead s
unfolding ahead reaped gathered
reap-ahead g s (x, l) raised graph m h = omega arith
reap-ahead g s (x, zero) (returned code) graph m h =
    step_completed-ahead g (record s { futures = remove_entry (x, 0) s.futures }) x code graph
      (returned-IsHolding g s x m h)
reap-ahead g s (x, suc k) (returned code) graph m h =
    elim (Bool-cases (complete (slots_of x (fill_in x k code s.gathering)))) [
      | inl c ↦ rw c (step_completed-ahead g _ x _ graph (dropped-IsHolding g s x k code m h c))
      | inr c ↦ rw c (omega arith)
    ]

length-remove : (x : ℕ) (xs : List ℕ) → 1 ≤ occ x xs → suc (length (remove x xs)) ≡ length xs
unfolding occ remove
length-remove x [] h = absurd (omega (arith, h))
length-remove x (y ∷ xs) h = ground (arith, h, length-remove x xs)

length-remove_entry :
    (i k : ℕ) (es : List Entry)
    → 1 ≤ occ_entry i k es
    → suc (length (remove_entry (i, k) es)) ≡ length es
unfolding occ_entry remove_entry
length-remove_entry i k [] h = absurd (omega (arith, h))
length-remove_entry i k ((j, l) ∷ es) h = ground (arith, h, length-remove_entry i k es)

-- A queued unit has to be submitted and to come back.
queue : Scheduler → ℕ
queue s = 2 * length s.pending + length s.futures

-- A turn expands a step, or moves a unit on.
abbrev Falls : Scheduler → Scheduler → Type 0
Falls s t = (ahead t < ahead s) ⊎ ((ahead t ≤ ahead s) × (queue t < queue s))

popped-ahead :
    (g : RecipeGraph) (s : Scheduler) (found : Expansion) (x : ℕ)
    → IsGraph g
    → 1 ≤ occ x s.ready
    → IsScheduling g s
    → ahead (expand g found x (pop_ready x s)) < ahead s
unfolding ahead
popped-ahead g s found x graph m h =
    let after = expand-ahead g (pop_ready x s) found x graph (popped-IsHolding g s x m h) in
    omega (arith, after, length-remove x s.ready m)

submit-Falls : (s : Scheduler) (e : Entry) → 1 ≤ occ_entry e.0 e.1 s.pending → Falls s (submit e s)
unfolding ahead queue
submit-Falls s (i, k) m = inr (omega arith, omega (arith, length-remove_entry i k s.pending m))

step_completed-queue :
    (g : RecipeGraph) (i code : ℕ) (s : Scheduler) → queue (step_completed g i code s) ≡ queue s
unfolding queue step_completed released
step_completed-queue g i zero s = refl
step_completed-queue g i (suc code) s = refl

reaped-queue :
    (g : RecipeGraph) (e : Entry) (outcome : Outcome) (s : Scheduler)
    → queue (reaped g e outcome s) ≡ queue s
unfolding queue reaped gathered
reaped-queue g (i, slot) raised s = refl
reaped-queue g (i, zero) (returned code) s = step_completed-queue g i code s
reaped-queue g (i, suc k) (returned code) s =
    elim (Bool-cases (complete (slots_of i (fill_in i k code s.gathering)))) [
      | inl c ↦ rw c (
          step_completed-queue g i (aggregate (slots_of i (fill_in i k code s.gathering)))
            (record s { gathering = drop i (fill_in i k code s.gathering) }))
      | inr c ↦ rw c refl
    ]

backfill_behind-Falls :
    (g : RecipeGraph) (answers : Answers) (inputs : ℕ → Expansion) (head : Entry) (s t : Scheduler)
    → IsGraph g
    → backfill_behind g answers inputs head s ≡ some t
    → IsScheduling g s
    → Falls s t
unfolding backfill_behind
backfill_behind-Falls g answers inputs head s t graph e h =
    let behind = remove_entry head s.pending in
    elim (Option-cases (first_fit (length behind) answers.try_backfill behind)) [
      | inr (u, f) ↦ subst (Falls s) (some_inj (submit u s) t (rw (f, backfill_behind) at e)) (
          submit-Falls s u (
            omega (
              arith,
              occ_entry-first_fit (length behind) answers.try_backfill behind u f,
              occ_entry-remove_le u.0 u.1 head.0 head.1 s.pending,
            )))
      | inl f ↦
          elim (Option-cases (chosen backfill_lookahead head.0 answers.can_backfill s.ready)) [
            | inl c ↦ ground (arith, rw (f, c, backfill_behind) at e)
            | inr (x, c) ↦
                subst (Falls s)
                  (some_inj (expand g (inputs x) x (pop_ready x s)) t
                    (rw (f, c, backfill_behind) at e))
                  (inl (
                    popped-ahead g s (inputs x) x graph
                      (occ-chosen backfill_lookahead head.0 answers.can_backfill s.ready x c) h))
          ]
    ]

Step-Falls :
    {g : RecipeGraph} {workers : ℕ} {s t : Scheduler}
    → IsGraph g
    → (st : Step g workers s t) → works st ≡ true
    → IsScheduling g s
    → Falls s t
unfolding queue
Step-Falls {g} graph (refill s x rest found a b c) w h = inl (
    popped-ahead g s found (least x rest) graph
      (subst (λ l. 1 ≤ occ (least x rest) l) (sym c) (occ-least x rest)) h)
Step-Falls {g} graph (admit s e rest a b c) w h = submit-Falls s (least_entry e rest) (
    subst (λ l. 1 ≤ occ_entry (least_entry e rest).0 (least_entry e rest).1 l) (sym b)
      (occ_entry-least e rest))
Step-Falls {g} graph (overtake s t e rest answers inputs a b c d f) w h =
    backfill_behind-Falls g answers inputs (least_entry e rest) s t graph f h
Step-Falls graph (park s e rest answers inputs a b c d f) w h = ground (arith, w)
Step-Falls {g} graph (collect s e outcome a) w h =
    let there = occ_entry-any e.0 e.1 s.futures a in
    inr (
      reap-ahead g s e outcome graph there h,
      omega (
        arith,
        reaped-queue g e outcome (record s { futures = remove_entry e s.futures }),
        length-remove_entry e.0 e.1 s.futures there,
      ),
    )

-- The state after a turn that is not a wait for the budget. A wait leaves the state as it is.
abbrev pub After : RecipeGraph → ℕ → Scheduler → Scheduler → Type 0
After g workers t s = (turn : Step g workers s t) × (works turn ≡ true)

falling :
    (g : RecipeGraph) (workers : ℕ)
    → IsGraph g
    → (a b : ℕ) (s : Scheduler) → ahead s < a
    → queue s < b
    → IsScheduling g s
    → Acc (After g workers) s
falling g workers graph zero b s u v h = absurd (omega (arith, u))
falling g workers graph (suc a) zero s u v h = absurd (omega (arith, v))
falling g workers graph (suc a) (suc b) s u v h = Acc.intro s (λ t st.
    elim (Step-Falls graph st.0 st.1 h) [
      | inl lt ↦
          falling g workers graph a (suc (queue t)) t (omega (arith, u, lt)) (omega arith)
            (Step-IsScheduling graph st.0 h)
      | inr (le, lt) ↦
          falling g workers graph (suc a) b t (omega (arith, u, le)) (omega (arith, v, lt))
            (Step-IsScheduling graph st.0 h)
    ])

-- A run of the scheduler has only finitely many turns that are not waits for the budget, whatever
-- the futures return, the budget answers and the inputs turn out to be: every reachable state is
-- accessible against the direction of these turns, and a wait leaves the state as it is. A run
-- that goes on forever waits forever, with nothing in the pool, for a budget that keeps refusing.
pub run_ends :
    {g : RecipeGraph} {workers : ℕ} {s : Scheduler} (graph : IsGraph g)
    → Reach g workers (begin g) s
    → Acc (After g workers) s
run_ends {g} {workers} {s} graph run =
    falling g workers graph (suc (ahead s)) (suc (queue s)) s (omega arith) (omega arith)
      (Reach-IsScheduling graph run (begin-IsScheduling g))
