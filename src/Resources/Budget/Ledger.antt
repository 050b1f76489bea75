-- ===== src/Resources/Budget/Ledger.antt =====
-- A budget beside the grants that its schedulers hold, as `_run_recipe` keeps them in `held`
-- (src/shinobi/steps/dispatch.py), under any interleaving of their calls.
pub mod Balance
pub mod Within
pub mod Head
pub mod Wakeups
use stimela_ninja.Prelude.{
  ℕ, zero, suc, ◌+◌, Bool, true, false, Option, none, some, List, [], ◌∷◌, if◌then◌else◌, remove_at,
}
use stimela_ninja.Resources.{Resources, Amounts, resolved_against}
use stimela_ninja.Resources.Budget.{
  Budget, fresh, or_zero, try_acquire, try_backfill, release, abandon,
}

pub record Grant : Type 0 where
  pub demand : Resources
  pub backfilled : Bool

pub record Ledger : Type 0 where
  pub budget : Budget
  pub held : List Grant

abbrev pub start : Amounts → Ledger
start total = record { budget = fresh total; held = [] }

-- A call that a scheduler makes; `give_back i` releases the grant at index `i` of those held.
pub data Action : Type 0 where
  acquire : ℕ → Resources → Action
  overtake : ℕ → Resources → Resources → Action
  give_back : ℕ → Action
  leave : ℕ → Action

abbrev pub grant_at : ℕ → List Grant → Option Grant
grant_at i [] = none
grant_at zero (g ∷ held) = some g
grant_at (suc i) (g ∷ held) = grant_at i held

abbrev pub recorded : Bool → Grant → List Grant → List Grant
recorded granted g held = if granted then g ∷ held else held

abbrev pub given_back : ℕ → Option Grant → Ledger → Ledger
given_back i none l = l
given_back i (some g) l = record {
  budget = release g.demand g.backfilled l.budget;
  held = remove_at i l.held;
}

unfoldable pub step : Ledger → Action → Ledger
step l (acquire ident demand) =
    let (granted, _, b) = try_acquire ident demand l.budget in
    record {
      budget = b;
      held = recorded granted (record { demand = demand; backfilled = false }) l.held;
    }
step l (overtake ident demand behind) =
    let (granted, b) = try_backfill ident demand behind l.budget in
    record {
      budget = b;
      held = recorded granted (record { demand = demand; backfilled = true }) l.held;
    }
step l (give_back i) = given_back i (grant_at i l.held) l
step l (leave ident) = record l { budget = abandon ident l.budget }

unfoldable pub run : Ledger → List Action → Ledger
run l [] = l
run l (a ∷ actions) = run (step l a) actions

-- Sums over the grants held, each resolved against the pool's totals.
abbrev pub sum_of : (Grant → ℕ) → List Grant → ℕ
sum_of f [] = 0
sum_of f (g ∷ held) = f g + sum_of f held

abbrev pub memory_of : Amounts → Grant → ℕ
memory_of total g = or_zero (resolved_against g.demand total).memory

abbrev pub if_backfilled : (Grant → ℕ) → Grant → ℕ
if_backfilled f g = if g.backfilled then f g else 0
