-- ===== src/Scheduler/Finished.antt =====
-- A run that ends without a failure has completed every step.
use stimela_ninja.Prelude.{
  none, some, ℕ, zero, suc, ◌+◌, ◌≤◌, ◌<◌, true, false, List, [], ◌∷◌, length, ltb, ◌==◌,
  if◌then◌else◌, ◌≡◌, refl, arith, ap, inl, inr, Bool-cases,
}
use stimela_ninja.Graph.{RecipeGraph}
use stimela_ninja.Graph.Topology.{row}
use stimela_ninja.Graph.Topology.Counts.{occ}
use stimela_ninja.Graph.Topology.Drained.{IsGraph, in_order, free}
use stimela_ninja.Graph.Topology.Complete.{IsAcyclic, waiting-all}
use stimela_ninja.Scheduler.{Slots, Scheduler, begin, complete}
use stimela_ninja.Scheduler.Steps.{Reach}
use stimela_ninja.Scheduler.Counts.{occ_entry, occ_key, open_at, opening, all_open}
use stimela_ninja.Scheduler.Invariant.{done, tally, slices, IsScheduling}
use stimela_ninja.Scheduler.Kept.{begin-IsScheduling}
use stimela_ninja.Scheduler.Runs.{Reach-IsScheduling}

-- The first empty slot.
gap : (slots : Slots) → complete slots ≡ false → (k : ℕ) × (open_at k slots ≡ 1)
unfolding open_at
gap [] h = ground (arith, h)
gap (none ∷ slots) h = (0, refl)
gap (some code ∷ slots) h = let (k, e) = gap slots (ground (arith, h)) in (suc k, e)

-- A step that waits for slices has an open slot.
keyed-opening :
    (i : ℕ) (g : List (ℕ × Slots))
    → all_open g ≡ true
    → 1 ≤ occ_key i g
    → (k : ℕ) × (1 ≤ opening i k g)
unfolding all_open occ_key opening
keyed-opening i [] h m = absurd (omega (arith, m))
keyed-opening i ((j, slots) ∷ g) h m = elim (Bool-cases (i == j)) [
  | inl e ↦ let (k, o) = gap slots (ground (arith, h)) in (k, ground (arith, e, o))
  | inr e ↦
      let (k, o) = keyed-opening i g (ground (arith, h)) (ground (arith, m, e)) in
      (k, ground (arith, e, o))
]

-- The loop of `_run_recipe` is over and nothing has stopped it.
pub record IsFinished (s : Scheduler) : Type 0 where
  pub idle : s.futures ≡ []
  pub unqueued : s.pending ≡ []
  pub unready : s.ready ≡ []
  pub unstopped : s.stop ≡ false

module _ (g : RecipeGraph) (s : Scheduler) (h : IsScheduling g s) (f : IsFinished s) where
  no_slices : (i k : ℕ) → slices s i k ≡ 0
  unfolding occ_entry
  no_slices i k =
      omega
        (arith, ap (λ l. occ_entry i (suc k) l) f.idle, ap (λ l. occ_entry i (suc k) l) f.unqueued)

  exactly :
      ((i : ℕ) → tally s i + 0 ≡ free g (done s) i)
      × ((i k : ℕ) → slices s i k ≡ opening i k s.gathering)
  exactly = elim h.exact [ inl e ↦ ground (arith, e, f.unstopped) | inr p ↦ p ]

  no_keys : (i : ℕ) → occ_key i s.gathering ≡ 0
  no_keys i = elim (Bool-cases (ltb 0 (occ_key i s.gathering))) [
    | inl e ↦
        let (k, o) = keyed-opening i s.gathering h.opened (ground (arith, e)) in
        absurd (omega (arith, o, exactly.1 i k, no_slices i k))
    | inr e ↦ ground (arith, e)
  ]

  free_once_done : (i : ℕ) → occ i (done s) ≡ free g (done s) i
  unfolding occ occ_entry
  free_once_done i = omega (
    arith,
    exactly.0 i,
    no_keys i,
    ap (λ l. occ i l) f.unready,
    ap (λ l. occ_entry i 0 l) f.idle,
    ap (λ l. occ_entry i 0 l) f.unqueued,
  )

  done_below :
      (rank : ℕ → ℕ)
      → IsGraph g
      → IsAcyclic g rank
      → (k i : ℕ) → rank i < k
      → i < length g.deps
      → occ i (done s) ≡ 1
  unfolding free
  done_below rank graph acyclic zero i lt inside = absurd (omega (arith, lt))
  done_below rank graph acyclic (suc k) i lt inside = ground (
    arith,
    inside,
    free_once_done i,
    waiting-all (row i g.deps) (done s) (λ d m.
        done_below rank graph acyclic k d (omega (arith, lt, acyclic i d m))
          (graph.in_range i d m)),
  )

-- When the loop over an acyclic recipe ends and nothing has stopped it, every step has completed
-- with returncode 0 exactly once, nothing else has, and each completed after its dependencies.
pub finished_all_done :
    {g : RecipeGraph} {workers : ℕ} {s : Scheduler} (rank : ℕ → ℕ) (graph : IsGraph g)
    (acyclic : IsAcyclic g rank) (run : Reach g workers (begin g) s) (finished : IsFinished s)
    → ((i : ℕ) → occ i (done s) ≡ (if ltb i (length g.deps) then 1 else 0))
      × (in_order g.deps [] (done s) ≡ true)
unfolding free
finished_all_done {g} {workers} {s} rank graph acyclic run finished =
    let h = Reach-IsScheduling graph run (begin-IsScheduling g) in
    (
      λ i. elim (Bool-cases (ltb i (length g.deps))) [
        | inl e ↦ rw e (
            done_below g s h finished rank graph acyclic (suc (rank i)) i (omega arith)
              (ground (arith, e)))
        | inr e ↦ rw e (ground (arith, e, free_once_done g s h finished i))
      ],
      h.sorted,
    )
