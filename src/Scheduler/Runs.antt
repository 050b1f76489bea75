-- ===== src/Scheduler/Runs.antt =====
-- Every turn of the scheduler's loops keeps the invariant.
use stimela_ninja.Prelude.{
  ℕ, zero, suc, ◌≤◌, Bool, ◌||◌, some, List, [], ◌∷◌, length, ltb, ◌≡◌, arith, sym, subst, inl, inr,
  Bool-cases, Option-cases, some_inj,
}
use stimela_ninja.Graph.{RecipeGraph}
use stimela_ninja.Graph.Topology.{least, remove}
use stimela_ninja.Graph.Topology.Counts.{occ, occ-least, occ-remove}
use stimela_ninja.Graph.Topology.Drained.{IsGraph}
use stimela_ninja.Scheduler.{
  Entry, least_entry, remove_entry, Scheduler, Expansion, expand, pop_ready, submit,
}
use stimela_ninja.Scheduler.Steps.{
  Answers, first_fit, chosen, backfill_lookahead, backfill_behind, Step, refill, admit, overtake,
  park, collect, Reach, here, next,
}
use stimela_ninja.Scheduler.Counts.{occ_entry, occ_entry-remove_le, occ_entry-any, occ_entry-least}
use stimela_ninja.Scheduler.Invariant.{IsScheduling}
use stimela_ninja.Scheduler.Kept.{popped-IsHolding, expand-IsScheduling, submit-IsScheduling}
use stimela_ninja.Scheduler.Collected.{reap-IsScheduling}

pub occ_entry-first_fit :
    (fuel : ℕ) (fits : Entry → Bool) (es : List Entry) (e : Entry)
    → first_fit fuel fits es ≡ some e
    → 1 ≤ occ_entry e.0 e.1 es
unfolding first_fit
occ_entry-first_fit zero fits es e h = ground (arith, h)
occ_entry-first_fit (suc fuel) fits [] e h = ground (arith, h)
occ_entry-first_fit (suc fuel) fits (u ∷ es) e h =
    let least_one = least_entry u es in
    elim (Bool-cases (fits least_one)) [
      | inl f ↦
          subst (λ (x : Entry). 1 ≤ occ_entry x.0 x.1 (u ∷ es))
            (some_inj least_one e (rw (f, first_fit) at h)) (occ_entry-least u es)
      | inr f ↦ omega (
        arith,
        occ_entry-first_fit fuel fits (remove_entry least_one (u ∷ es)) e (rw (f, first_fit) at h),
        occ_entry-remove_le e.0 e.1 least_one.0 least_one.1 (u ∷ es),
      )
    ]

pub occ-chosen :
    (rounds head : ℕ) (can : ℕ → Bool) (ready : List ℕ) (x : ℕ)
    → chosen rounds head can ready ≡ some x
    → 1 ≤ occ x ready
unfolding chosen
occ-chosen zero head can ready x h = ground (arith, h)
occ-chosen (suc rounds) head can [] x h = ground (arith, h)
occ-chosen (suc rounds) head can (r ∷ ready) x h =
    let y = least r ready in
    elim (Bool-cases (ltb y head || can y)) [
      | inl f ↦
          subst (λ (z : ℕ). 1 ≤ occ z (r ∷ ready)) (some_inj y x (rw (f, chosen) at h))
            (occ-least r ready)
      | inr f ↦ ground (
        arith,
        occ-chosen rounds head can (remove y (r ∷ ready)) x (rw (f, chosen) at h),
        occ-remove x y (r ∷ ready),
      )
    ]

backfill_behind-IsScheduling :
    (g : RecipeGraph) (answers : Answers) (inputs : ℕ → Expansion) (head : Entry) (s t : Scheduler)
    → IsGraph g
    → backfill_behind g answers inputs head s ≡ some t
    → IsScheduling g s
    → IsScheduling g t
unfolding backfill_behind
backfill_behind-IsScheduling g answers inputs head s t graph e h =
    let behind = remove_entry head s.pending in
    elim (Option-cases (first_fit (length behind) answers.try_backfill behind)) [
      | inr (u, f) ↦
          subst (IsScheduling g) (some_inj (submit u s) t (rw (f, backfill_behind) at e)) (
            submit-IsScheduling g s u
              (omega (
                arith,
                occ_entry-first_fit (length behind) answers.try_backfill behind u f,
                occ_entry-remove_le u.0 u.1 head.0 head.1 s.pending,
              ))
              h)
      | inl f ↦
          elim (Option-cases (chosen backfill_lookahead head.0 answers.can_backfill s.ready)) [
            | inl c ↦ ground (arith, rw (f, c, backfill_behind) at e)
            | inr (x, c) ↦
                subst (IsScheduling g)
                  (some_inj (expand g (inputs x) x (pop_ready x s)) t
                    (rw (f, c, backfill_behind) at e))
                  (expand-IsScheduling g (pop_ready x s) (inputs x) x graph (
                    popped-IsHolding g s x
                      (occ-chosen backfill_lookahead head.0 answers.can_backfill s.ready x c) h))
          ]
    ]

pub Step-IsScheduling :
    {g : RecipeGraph} {workers : ℕ} {s t : Scheduler}
    → IsGraph g
    → Step g workers s t
    → IsScheduling g s
    → IsScheduling g t
Step-IsScheduling {g} graph (refill s x rest found a b c) h =
    expand-IsScheduling g (pop_ready (least x rest) s) found (least x rest) graph (
      popped-IsHolding g s (least x rest)
        (subst (λ l. 1 ≤ occ (least x rest) l) (sym c) (occ-least x rest)) h)
Step-IsScheduling {g} graph (admit s e rest a b c) h =
    submit-IsScheduling g s (least_entry e rest)
      (subst (λ l. 1 ≤ occ_entry (least_entry e rest).0 (least_entry e rest).1 l) (sym b)
        (occ_entry-least e rest))
      h
Step-IsScheduling {g} graph (overtake s t e rest answers inputs a b c d f) h =
    backfill_behind-IsScheduling g answers inputs (least_entry e rest) s t graph f h
Step-IsScheduling graph (park s e rest answers inputs a b c d f) h = h
Step-IsScheduling {g} graph (collect s e outcome a) h =
    reap-IsScheduling g s e outcome graph (occ_entry-any e.0 e.1 s.futures a) h

pub Reach-IsScheduling :
    {g : RecipeGraph} {workers : ℕ} {s t : Scheduler}
    → IsGraph g
    → Reach g workers s t
    → IsScheduling g s
    → IsScheduling g t
Reach-IsScheduling graph here h = h
Reach-IsScheduling graph (next r st) h = Step-IsScheduling graph st (Reach-IsScheduling graph r h)
