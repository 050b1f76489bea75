-- ===== src/Scheduler/Steps.antt =====
-- One turn of the loops of `submit_ready` and `_run_recipe`, as a step relation: which futures are
-- done, what the budget answers and what a step's inputs turn out to be is not up to the scheduler.
use stimela_ninja.Prelude.{
  ℕ, zero, suc, ◌<◌, Bool, true, false, ◌||◌, Option, none, some, List, [], ◌∷◌, any, length, ltb,
  if◌then◌else◌, ◌≡◌,
}
use stimela_ninja.Graph.{RecipeGraph}
use stimela_ninja.Graph.Topology.{least, remove}
use stimela_ninja.Scheduler.{
  Entry, same_entry, Scheduler, Expansion, Outcome, expand, pop_ready, submit, reap, least_entry,
  remove_entry,
}

-- The answers of the budget to one call of `_backfill_behind`.
pub record Answers : Type 0 where
  pub try_backfill : Entry → Bool
  pub can_backfill : ℕ → Bool

-- `for entry in sorted(pending)[1:]`, the units in their order, of which the first that fits is
-- taken; one round for each unit.
unfoldable pub first_fit : ℕ → (Entry → Bool) → List Entry → Option Entry
first_fit zero fits units = none
first_fit (suc fuel) fits [] = none
first_fit (suc fuel) fits (u ∷ units) =
    let e = least_entry u units in
    let later = first_fit fuel fits (remove_entry e (u ∷ units)) in if fits e then some e else later

-- `_BACKFILL_LOOKAHEAD`
abbrev pub backfill_lookahead : ℕ
backfill_lookahead = 8

-- The candidates of `ready` are popped in turn; those not taken are pushed back.
unfoldable pub chosen : ℕ → ℕ → (ℕ → Bool) → List ℕ → Option ℕ
chosen zero head can ready = none
chosen (suc rounds) head can [] = none
chosen (suc rounds) head can (r ∷ ready) =
    let x = least r ready in
    let later = chosen rounds head can (remove x (r ∷ ready)) in
    if ltb x head || can x then some x else later

-- `_backfill_behind`: a unit is submitted, a step is expanded, or nothing can be done.
unfoldable pub backfill_behind :
    RecipeGraph → Answers → (ℕ → Expansion) → Entry → Scheduler → Option Scheduler
backfill_behind g answers inputs head s =
    let behind = remove_entry head s.pending in
    elim (first_fit (length behind) answers.try_backfill behind) [
      | some e ↦ some (submit e s)
      | none ↦ elim (chosen backfill_lookahead head.0 answers.can_backfill s.ready) [
        | none ↦ none
        | some x ↦ some (expand g (inputs x) x (pop_ready x s))
      ]
    ]

-- `max_workers > 1 and _backfill_behind(i, demand)`
abbrev pub behind :
    ℕ → RecipeGraph → Answers → (ℕ → Expansion) → Entry → Scheduler → Option Scheduler
behind workers g answers inputs head s =
    if ltb 1 workers then backfill_behind g answers inputs head s else none

pub data Step (g : RecipeGraph) (workers : ℕ) : Scheduler → Scheduler → Type 0 where
  -- `while not pending and ready and not stop`
  refill :
      (s : Scheduler) (x : ℕ) (rest : List ℕ) (found : Expansion)
      → s.stop ≡ false
      → s.pending ≡ []
      → s.ready ≡ x ∷ rest
      → Step g workers s (expand g found (least x rest) (pop_ready (least x rest) s))
  -- The head is granted.
  admit :
      (s : Scheduler) (e : Entry) (rest : List Entry)
      → s.stop ≡ false
      → s.pending ≡ e ∷ rest
      → length s.futures < workers
      → Step g workers s (submit (least_entry e rest) s)
  -- The head is refused.
  overtake :
      (s t : Scheduler) (e : Entry) (rest : List Entry) (answers : Answers) (inputs : ℕ → Expansion)
      → s.stop ≡ false
      → s.pending ≡ e ∷ rest
      → length s.futures < workers
      → 1 < workers
      → backfill_behind g answers inputs (least_entry e rest) s ≡ some t
      → Step g workers s t
  -- The head is refused, nothing of the scheduler's runs and nothing can be done behind the head:
  -- the thread waits for a change of the budget and tries again.
  park :
      (s : Scheduler) (e : Entry) (rest : List Entry) (answers : Answers) (inputs : ℕ → Expansion)
      → s.stop ≡ false
      → s.pending ≡ e ∷ rest
      → s.futures ≡ []
      → 0 < workers
      → behind workers g answers inputs (least_entry e rest) s ≡ none
      → Step g workers s s
  -- A future is done.
  collect :
      (s : Scheduler) (e : Entry) (outcome : Outcome)
      → any (same_entry e) s.futures ≡ true
      → Step g workers s (reap g e outcome s)

-- Is the turn anything but a wait for the budget?
abbrev pub works : {g : RecipeGraph} {workers : ℕ} {s t : Scheduler} → Step g workers s t → Bool
works (refill s x rest found a b c) = true
works (admit s e rest a b c) = true
works (overtake s t e rest answers inputs a b c d f) = true
works (park s e rest answers inputs a b c d f) = false
works (collect s e outcome a) = true

pub data Reach (g : RecipeGraph) (workers : ℕ) (s : Scheduler) : Scheduler → Type 0 where
  here : Reach g workers s s
  next : {t u : Scheduler} → Reach g workers s t → Step g workers t u → Reach g workers s u
