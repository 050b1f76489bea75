-- ===== src/Resources/Budget/Ledger/Balance.antt =====
-- What the budget counts is what its schedulers hold.
use stimela_ninja.Prelude.{
  ℕ, zero, suc, ◌+◌, ◌≡◌, some, List, [], ◌∷◌, arith, if◌then◌else◌, remove_at, Option-cases, inl,
  inr,
}
use stimela_ninja.Resources.{Amounts, is_empty, declares_nothing, resolved_against}
use stimela_ninja.Resources.Budget.{
  Budget, or_zero, acquire_amounts, try_acquire, try_backfill, release, abandon, grant, enqueue,
  backfill, release_amounts,
}
use stimela_ninja.Resources.Budget.Ledger.{
  Grant, Ledger, start, Action, acquire, overtake, give_back, leave, grant_at, given_back, step,
  run, sum_of, memory_of, if_backfilled,
}

pub record IsBalanced (l : Ledger) : Type 0 where
  pub memory : l.budget.memory_used ≡ sum_of (memory_of l.budget.total) l.held
  pub backfilled_memory :
      l.budget.backfilled_memory ≡ sum_of (if_backfilled (memory_of l.budget.total)) l.held

pub sum_of-remove :
    (f : Grant → ℕ) (i : ℕ) (held : List Grant) {g : Grant}
    → grant_at i held ≡ some g
    → sum_of f held ≡ f g + sum_of f (remove_at i held)
sum_of-remove f i [] h = ground arith
sum_of-remove f zero (x ∷ held) h = ground arith
sum_of-remove f (suc i) (x ∷ held) h = omega (arith, sum_of-remove f i held h)

pub acquire_counters :
    (ident : ℕ) (d : Amounts) (b : Budget)
    → ((acquire_amounts ident d b).2.total ≡ b.total)
      × ((acquire_amounts ident d b).2.memory_used ≡ (
          if (acquire_amounts ident d b).0
          then or_zero d.memory + b.memory_used
          else b.memory_used))
      × ((acquire_amounts ident d b).2.backfilled_memory ≡ b.backfilled_memory)
unfolding acquire_amounts grant enqueue is_empty
acquire_counters ident d b = ground arith

given_back-IsBalanced :
    (l : Ledger) (i : ℕ) (g : Grant)
    → grant_at i l.held ≡ some g
    → IsBalanced l
    → IsBalanced (given_back i (some g) l)
unfolding release release_amounts declares_nothing resolved_against
given_back-IsBalanced l i g e h =
    let total = l.budget.total in
    ground (
      arith,
      sum_of-remove (memory_of total) i l.held e,
      sum_of-remove (if_backfilled (memory_of total)) i l.held e,
    )

pub step-IsBalanced : (l : Ledger) (a : Action) → IsBalanced l → IsBalanced (step l a)
unfolding step try_acquire try_backfill abandon backfill is_empty resolved_against
step-IsBalanced l (acquire ident d) h =
    ground (arith, acquire_counters ident (resolved_against d l.budget.total) l.budget)
step-IsBalanced l (overtake ident d behind) h = ground arith
step-IsBalanced l (give_back i) h = elim (Option-cases (grant_at i l.held)) [
  | inl e ↦ rw e h
  | inr (g, e) ↦ rw e (given_back-IsBalanced l i g e h)
]
step-IsBalanced l (leave ident) h = ground arith

pub run-IsBalanced_from :
    (l : Ledger) (actions : List Action) → IsBalanced l → IsBalanced (run l actions)
unfolding run
run-IsBalanced_from l [] h = h
run-IsBalanced_from l (a ∷ actions) h =
    run-IsBalanced_from (step l a) actions (step-IsBalanced l a h)

-- Whatever calls the schedulers make, in whatever order, the memory that the budget counts
-- as used is the sum of the grants that are held, and what it counts as backfilled is the sum of the
-- held grants that `try_backfill` gave. Cores, which are rounded, need not add up.
pub run-IsBalanced :
    (total : Amounts) (actions : List Action) → IsBalanced (run (start total) actions)
run-IsBalanced total actions = run-IsBalanced_from (start total) actions (omega arith)
