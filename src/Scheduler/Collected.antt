-- ===== src/Scheduler/Collected.antt =====
-- A unit that comes back keeps the invariant.
use stimela_ninja.Prelude.{
  ℕ, zero, suc, ◌+◌, ◌≤◌, true, false, List, [], ◌∷◌, ◌++◌, ◌≡◌, refl, arith, inl, inr, Bool-cases,
}
use stimela_ninja.Graph.{RecipeGraph}
use stimela_ninja.Graph.Topology.Drained.{IsGraph, free}
use stimela_ninja.Scheduler.{
  Slots, Entry, remove_entry, Scheduler, fill_in, slots_of, drop, complete, gathered, Outcome,
  raised, returned, reaped, reap,
}
use stimela_ninja.Scheduler.Counts.{
  occ_entry, occ_entry-remove, occ_key, opening, opening-le, occ_key-fill_in, opening-fill_in,
  occ_key-drop, opening-drop, all_open-fill_in, all_open-drop,
}
use stimela_ninja.Scheduler.Invariant.{done, slices, IsHolding, IsScheduling, held}
use stimela_ninja.Scheduler.Released.{step_completed-IsScheduling}

-- A whole step leaves the pool.
pub returned-IsHolding :
    (g : RecipeGraph) (s : Scheduler) (x : ℕ)
    → 1 ≤ occ_entry x 0 s.futures
    → IsScheduling g s
    → IsHolding g (record s { futures = remove_entry (x, 0) s.futures }) (held x)
returned-IsHolding g s x m h = record {
  counted = h.counted;
  within = λ i. ground (arith, h.within i, occ_entry-remove i 0 x 0 s.futures, m);
  slotted = λ i k. ground (arith, h.slotted i k, occ_entry-remove i (suc k) x 0 s.futures);
  opened = h.opened;
  sorted = h.sorted;
  exact = elim h.exact [
    | inl e ↦ inl e
    | inr (e, f) ↦ inr (
      λ i. ground (arith, e i, occ_entry-remove i 0 x 0 s.futures, m),
      λ i k. ground (arith, f i k, occ_entry-remove i (suc k) x 0 s.futures),
    )
  ];
}

-- A unit that raised leaves the pool of a scheduler that stops.
raised-IsScheduling :
    (g : RecipeGraph) (s : Scheduler) (x l : ℕ) (errors : List ℕ)
    → IsScheduling g s
    → IsScheduling g
        (record s { futures = remove_entry (x, l) s.futures; errors = errors; stop = true })
raised-IsScheduling g s x l errors h = record {
  counted = h.counted;
  within = λ i. ground (arith, h.within i, occ_entry-remove i 0 x l s.futures);
  slotted = λ i k. ground (arith, h.slotted i k, occ_entry-remove i (suc k) x l s.futures);
  opened = h.opened;
  sorted = h.sorted;
  exact = inl refl;
}

-- A slice leaves the pool and closes its slot.
module _ (g : RecipeGraph) (s : Scheduler) (x k code : ℕ) (m : 1 ≤ occ_entry x (suc k) s.futures)
    (h : IsScheduling g s) where
  abbrev pub filled : List (ℕ × Slots)
  filled = fill_in x k code s.gathering

  abbrev pub without : List Entry
  without = remove_entry (x, suc k) s.futures

  free_bound : (i : ℕ) → free g (done s) i ≤ 1
  unfolding free
  free_bound i = ground arith

  keyed_once : (i : ℕ) → occ_key i s.gathering ≤ 1
  keyed_once i = omega (arith, h.within i, free_bound i)

  keyed : 1 ≤ occ_key x s.gathering
  keyed = omega (arith, h.slotted x k, opening-le x k s.gathering, m)

  filled-slotted :
      (i l : ℕ) → occ_entry i (suc l) s.pending + occ_entry i (suc l) without ≤ opening i l filled
  filled-slotted i l = ground (
    arith,
    h.slotted i l,
    occ_entry-remove i (suc l) x (suc k) s.futures,
    opening-fill_in i l x k code s.gathering,
    keyed_once x,
    keyed_once i,
    opening-le i l s.gathering,
    m,
  )

  filled-exact :
      (slices s x k ≡ opening x k s.gathering)
      → (i l : ℕ) → slices s i l ≡ opening i l s.gathering
      → occ_entry i (suc l) s.pending + occ_entry i (suc l) without ≡ opening i l filled
  filled-exact own i l e = ground (
    arith,
    e,
    own,
    occ_entry-remove i (suc l) x (suc k) s.futures,
    opening-fill_in i l x k code s.gathering,
    keyed_once x,
    keyed_once i,
    opening-le i l s.gathering,
    m,
  )

  waits-IsScheduling :
      complete (slots_of x filled) ≡ false
      → IsScheduling g (record s { futures = without; gathering = filled })
  waits-IsScheduling c = record {
    counted = h.counted;
    within = λ i. ground (
      arith,
      h.within i,
      occ_entry-remove i 0 x (suc k) s.futures,
      occ_key-fill_in i x k code s.gathering,
    );
    slotted = filled-slotted;
    opened = all_open-fill_in x k code s.gathering h.opened c;
    sorted = h.sorted;
    exact = elim h.exact [
      | inl e ↦ inl e
      | inr (e, f) ↦ inr (
        λ i. ground (
          arith,
          e i,
          occ_entry-remove i 0 x (suc k) s.futures,
          occ_key-fill_in i x k code s.gathering,
        ),
        λ i l. filled-exact (f x k) i l (f i l),
      )
    ];
  }

  pub dropped-IsHolding :
      complete (slots_of x filled) ≡ true
      → IsHolding g (record s { futures = without; gathering = drop x filled }) (held x)
  dropped-IsHolding c = record {
    counted = h.counted;
    within = λ i. ground (
      arith,
      h.within i,
      occ_entry-remove i 0 x (suc k) s.futures,
      keyed,
      occ_key-fill_in i x k code s.gathering,
      occ_key-fill_in x x k code s.gathering,
      occ_key-drop i x filled,
    );
    slotted = λ i l. ground (arith, filled-slotted i l, opening-drop i l x filled c);
    opened = all_open-drop x k code s.gathering h.opened;
    sorted = h.sorted;
    exact = elim h.exact [
      | inl e ↦ inl e
      | inr (e, f) ↦ inr (
        λ i. ground (
          arith,
          e i,
          occ_entry-remove i 0 x (suc k) s.futures,
          keyed,
          occ_key-fill_in i x k code s.gathering,
          occ_key-fill_in x x k code s.gathering,
          occ_key-drop i x filled,
        ),
        λ i l. ground (arith, filled-exact (f x k) i l (f i l), opening-drop i l x filled c),
      )
    ];
  }

pub reap-IsScheduling :
    (g : RecipeGraph) (s : Scheduler) (e : Entry) (outcome : Outcome)
    → IsGraph g
    → 1 ≤ occ_entry e.0 e.1 s.futures
    → IsScheduling g s
    → IsScheduling g (reap g e outcome s)
unfolding reaped gathered
reap-IsScheduling g s (x, l) raised graph m h = raised-IsScheduling g s x l (s.errors ++ x ∷ []) h
reap-IsScheduling g s (x, zero) (returned code) graph m h =
    step_completed-IsScheduling g (record s { futures = remove_entry (x, 0) s.futures }) x code
      graph (returned-IsHolding g s x m h)
reap-IsScheduling g s (x, suc k) (returned code) graph m h =
    elim (Bool-cases (complete (slots_of x (fill_in x k code s.gathering)))) [
      | inl c ↦
          rw c (step_completed-IsScheduling g _ x _ graph (dropped-IsHolding g s x k code m h c))
      | inr c ↦ rw c (waits-IsScheduling g s x k code m h c)
    ]
