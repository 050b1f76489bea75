-- ===== src/Scheduler/Kept.antt =====
-- Steps that are expanded and units that are submitted keep the invariant.
use stimela_ninja.Prelude.{ℕ, zero, suc, ◌≤◌, true, List, [], ◌∷◌, ◌++◌, ◌≡◌, refl, arith, inl, inr}
use stimela_ninja.Graph.{RecipeGraph}
use stimela_ninja.Graph.Topology.{initial}
use stimela_ninja.Graph.Topology.Counts.{occ, occ-remove}
use stimela_ninja.Graph.Topology.Drained.{IsGraph, in_order, free, initial-IsDraining}
use stimela_ninja.Scheduler.{
  Entry, Scheduler, begin, Expansion, unresolved, passed_through, whole, sliced, units, empty_slots,
  aggregate, expand, pop_ready, submit,
}
use stimela_ninja.Scheduler.Counts.{
  occ_entry, occ_entry-remove, occ_entry-units, occ_key, opening, all_open, open_at-empty_slots,
  complete-empty_slots,
}
use stimela_ninja.Scheduler.Invariant.{succeeded, IsHolding, IsScheduling, held}
use stimela_ninja.Scheduler.Released.{step_completed-IsScheduling}

pub begin-IsScheduling : (g : RecipeGraph) → IsScheduling g (begin g)
unfolding begin succeeded occ_entry occ_key opening all_open in_order initial
begin-IsScheduling g =
    let inv = initial-IsDraining g in
    record {
      counted = inv.counted;
      within = λ i. omega (arith, inv.once i);
      slotted = λ i k. omega arith;
      opened = refl;
      sorted = refl;
      exact = inr (λ i. omega (arith, inv.once i), λ i k. omega arith);
    }

-- A step leaves the heap of the ready ones.
pub popped-IsHolding :
    (g : RecipeGraph) (s : Scheduler) (x : ℕ)
    → 1 ≤ occ x s.ready
    → IsScheduling g s
    → IsHolding g (pop_ready x s) (held x)
popped-IsHolding g s x m h = record {
  counted = h.counted;
  within = λ i. ground (arith, h.within i, occ-remove i x s.ready, m);
  slotted = h.slotted;
  opened = h.opened;
  sorted = h.sorted;
  exact = elim h.exact [
    | inl e ↦ inl e
    | inr (e, f) ↦ inr (λ i. ground (arith, e i, occ-remove i x s.ready, m), f)
  ];
}

-- A stopped scheduler may let go of the step in hand.
stopped-IsScheduling :
    (g : RecipeGraph) (s : Scheduler) (errors : List ℕ) (extra : ℕ → ℕ)
    → IsHolding g s extra
    → IsScheduling g (record s { errors = errors; stop = true })
stopped-IsScheduling g s errors extra h = record {
  counted = h.counted;
  within = λ i. omega (arith, h.within i);
  slotted = h.slotted;
  opened = h.opened;
  sorted = h.sorted;
  exact = inl refl;
}

queued-IsScheduling :
    (g : RecipeGraph) (s : Scheduler) (x : ℕ)
    → IsHolding g s (held x)
    → IsScheduling g (record s { pending = (x, 0) ∷ s.pending })
unfolding occ_entry
queued-IsScheduling g s x h = record {
  counted = h.counted;
  within = λ i. ground (arith, h.within i);
  slotted = λ i k. ground (arith, h.slotted i k);
  opened = h.opened;
  sorted = h.sorted;
  exact = elim h.exact [
    | inl e ↦ inl e
    | inr (e, f) ↦ inr (λ i. ground (arith, e i), λ i k. ground (arith, f i k))
  ];
}

-- A step in hand has no slices.
unkeyed :
    (g : RecipeGraph) (s : Scheduler) (x : ℕ) → IsHolding g s (held x) → occ_key x s.gathering ≡ 0
unfolding free
unkeyed g s x h = ground (arith, h.within x)

sliced-IsScheduling :
    (g : RecipeGraph) (s : Scheduler) (x n : ℕ)
    → IsHolding g s (held x)
    → IsScheduling g (record s {
      pending = units x (suc n) s.pending;
      gathering = (x, empty_slots (suc n)) ∷ s.gathering;
    })
unfolding occ_key opening all_open
sliced-IsScheduling g s x n h =
    let bare = unkeyed g s x h in
    record {
      counted = h.counted;
      within = λ i. ground (arith, h.within i, occ_entry-units i 0 x (suc n) s.pending);
      slotted = λ i k. ground (
        arith,
        h.slotted i k,
        occ_entry-units i (suc k) x (suc n) s.pending,
        open_at-empty_slots k (suc n),
      );
      opened = ground (arith, h.opened, complete-empty_slots n);
      sorted = h.sorted;
      exact = elim h.exact [
        | inl e ↦ inl e
        | inr (e, f) ↦ inr (
          λ i. ground (arith, e i, occ_entry-units i 0 x (suc n) s.pending),
          λ i k. ground (
            arith,
            f i k,
            occ_entry-units i (suc k) x (suc n) s.pending,
            open_at-empty_slots k (suc n),
          ),
        )
      ];
    }

pub expand-IsScheduling :
    (g : RecipeGraph) (s : Scheduler) (found : Expansion) (x : ℕ)
    → IsGraph g
    → IsHolding g s (held x)
    → IsScheduling g (expand g found x s)
unfolding expand
expand-IsScheduling g s unresolved x graph h =
    stopped-IsScheduling g s (s.errors ++ x ∷ []) (held x) h
expand-IsScheduling g s passed_through x graph h = step_completed-IsScheduling g s x 0 graph h
expand-IsScheduling g s whole x graph h = queued-IsScheduling g s x h
expand-IsScheduling g s (sliced zero) x graph h =
    step_completed-IsScheduling g s x (aggregate []) graph h
expand-IsScheduling g s (sliced (suc n)) x graph h = sliced-IsScheduling g s x n h

-- A unit moves from the queue to the pool.
pub submit-IsScheduling :
    (g : RecipeGraph) (s : Scheduler) (e : Entry)
    → 1 ≤ occ_entry e.0 e.1 s.pending
    → IsScheduling g s
    → IsScheduling g (submit e s)
unfolding occ_entry
submit-IsScheduling g s (x, l) m h = record {
  counted = h.counted;
  within = λ i. ground (arith, h.within i, occ_entry-remove i 0 x l s.pending, m);
  slotted = λ i k. ground (arith, h.slotted i k, occ_entry-remove i (suc k) x l s.pending, m);
  opened = h.opened;
  sorted = h.sorted;
  exact = elim h.exact [
    | inl e ↦ inl e
    | inr (e, f) ↦ inr (
      λ i. ground (arith, e i, occ_entry-remove i 0 x l s.pending, m),
      λ i k. ground (arith, f i k, occ_entry-remove i (suc k) x l s.pending, m),
    )
  ];
}
