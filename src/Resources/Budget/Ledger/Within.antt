-- ===== src/Resources/Budget/Ledger/Within.antt =====
-- The ordinary grants that are held together never pass the pool.
use stimela_ninja.Prelude.{
  ℕ, ◌+◌, ◌≤◌, ◌≡◌, ◌⊎◌, Bool, true, false, Option, none, some, List, [], ◌∷◌, arith, if◌then◌else◌,
  remove_at, Option-cases, inl, inr,
}
use stimela_ninja.Resources.{Resources, Amounts, is_empty, resolved_against}
use stimela_ninja.Resources.Budget.{
  Budget, or_zero, acquire_amounts, try_acquire, try_backfill, release, abandon, backfill,
  release_amounts, backfillable, exceeds_total, fits, fresh,
}
use stimela_ninja.Resources.Budget.Ledger.{
  Grant, Ledger, start, Action, acquire, overtake, give_back, leave, grant_at, given_back, step,
  run, recorded, sum_of, memory_of,
}
use stimela_ninja.Resources.Budget.Ledger.Balance.{
  IsBalanced, acquire_counters, sum_of-remove, step-IsBalanced,
}

-- What an ordinary grant adds; one that is larger than the whole pool adds nothing here.
abbrev pub if_ordinary : Amounts → (Grant → ℕ) → Grant → ℕ
if_ordinary total f g =
    if exceeds_total (fresh total) (resolved_against g.demand total) then 0 else f g

-- A bound by a total that may be unset.
abbrev pub Within : ℕ → Option ℕ → Type 0
Within n none = Unit
Within n (some total) = n ≤ total

pub record IsWithin (l : Ledger) : Type 0 where
  pub memory :
      Within
        (sum_of (if_ordinary l.budget.total (memory_of l.budget.total)) l.held)
        l.budget.total.memory

sum_of-if_ordinary :
    (total : Amounts) (f : Grant → ℕ) (held : List Grant)
    → sum_of (if_ordinary total f) held ≤ sum_of f held
sum_of-if_ordinary total f [] = omega arith
sum_of-if_ordinary total f (g ∷ held) = ground (arith, sum_of-if_ordinary total f held)

Within-mono : (m n : ℕ) (total : Option ℕ) → m ≤ n → Within n total → Within m total
Within-mono m n none h w = tt
Within-mono m n (some t) h w = omega arith

-- Oversize does not depend on what is reserved.
pub exceeds_total-fresh :
    (b : Budget) (d : Amounts) → exceeds_total b d ≡ exceeds_total (fresh b.total) d
unfolding exceeds_total
exceeds_total-fresh b d = ground arith

module _ (b : Budget) (d : Amounts) (fit : fits b d ≡ true) (s : ℕ) where
  fits-memory :
      s ≤ b.memory_used → Within s b.total.memory → Within (or_zero d.memory + s) b.total.memory
  unfolding fits
  fits-memory h w = ground arith

-- Why a demand is granted.
acquire_cases :
    (ident : ℕ) (d : Amounts) (b : Budget)
    → ((acquire_amounts ident d b).0 ≡ false)
      ⊎ (is_empty d ≡ true)
      ⊎ (exceeds_total b d ≡ true)
      ⊎ (fits b d ≡ true)
unfolding acquire_amounts
acquire_cases ident d b = ground arith

-- What one more grant does to the two bounds.
module _ (l : Ledger) (bal : IsBalanced l) (w : IsWithin l) (g : Grant) where
  abbrev total : Amounts
  total = l.budget.total

  abbrev d : Amounts
  d = resolved_against g.demand total

  abbrev Bounds : Type 0
  Bounds = Within (sum_of (if_ordinary total (memory_of total)) (g ∷ l.held)) total.memory

  Bounds-empty : is_empty d ≡ true → Bounds
  unfolding is_empty
  Bounds-empty h = Within-mono _ _ total.memory (ground arith) w.memory

  Bounds-oversized : exceeds_total l.budget d ≡ true → Bounds
  Bounds-oversized h =
      let e = exceeds_total-fresh l.budget d in Within-mono _ _ total.memory (ground arith) w.memory

  Bounds-fitting : fits l.budget d ≡ true → Bounds
  Bounds-fitting h =
      let ms = sum_of-if_ordinary total (memory_of total) l.held in
      Within-mono _ _ total.memory (ground arith)
        (fits-memory l.budget d h _ (rw bal.memory ms) w.memory)

-- Taking a grant out leaves the bounds.
Within-remove :
    (f : Grant → ℕ) (i : ℕ) (held : List Grant) {g : Grant} (total : Option ℕ)
    → grant_at i held ≡ some g
    → Within (sum_of f held) total
    → Within (sum_of f (remove_at i held)) total
Within-remove f i held total e w = Within-mono _ _ total (omega (arith, sum_of-remove f i held e)) w

-- An operation that keeps the totals, with the bounds shown over the old ones.
IsWithin-of :
    (total : Amounts) (l : Ledger)
    → l.budget.total ≡ total
    → Within (sum_of (if_ordinary total (memory_of total)) l.held) total.memory
    → IsWithin l
IsWithin-of total l e w = record { memory = rw e w }

recorded-bounds :
    (l : Ledger) (bal : IsBalanced l) (w : IsWithin l) (g : Grant) (granted : Bool)
    → (granted ≡ false) ⊎ Bounds l bal w g
    → Within
        (sum_of (if_ordinary l.budget.total (memory_of l.budget.total)) (recorded granted g l.held))
        l.budget.total.memory
recorded-bounds l bal w g false h = w.memory
recorded-bounds l bal w g true (inl e) = cc
recorded-bounds l bal w g true (inr bounds) = bounds

acquire_bounds :
    (l : Ledger) (bal : IsBalanced l) (w : IsWithin l) (ident : ℕ) (demand : Resources)
    → ((try_acquire ident demand l.budget).0 ≡ false)
      ⊎ Bounds l bal w (record { demand = demand; backfilled = false })
unfolding try_acquire
acquire_bounds l bal w ident demand =
    let d = resolved_against demand l.budget.total in
    let g : Grant = record { demand = demand; backfilled = false } in
    elim (acquire_cases ident d l.budget) [
      | inl refused ↦ inl refused
      | inr (inl empty) ↦ inr (Bounds-empty l bal w g empty)
      | inr (inr (inl large)) ↦ inr (Bounds-oversized l bal w g large)
      | inr (inr (inr fit)) ↦ inr (Bounds-fitting l bal w g fit)
    ]

overtake_cases :
    (ident : ℕ) (demand behind : Resources) (b : Budget)
    → ((try_backfill ident demand behind b).0 ≡ false)
      ⊎ (is_empty (resolved_against demand b.total) ≡ true)
      ⊎ (fits b (resolved_against demand b.total) ≡ true)
unfolding try_backfill backfillable
overtake_cases ident demand behind b = ground arith

overtake_bounds :
    (l : Ledger) (bal : IsBalanced l) (w : IsWithin l) (ident : ℕ) (demand behind : Resources)
    → ((try_backfill ident demand behind l.budget).0 ≡ false)
      ⊎ Bounds l bal w (record { demand = demand; backfilled = true })
overtake_bounds l bal w ident demand behind =
    let g : Grant = record { demand = demand; backfilled = true } in
    elim (overtake_cases ident demand behind l.budget) [
      | inl refused ↦ inl refused
      | inr (inl empty) ↦ inr (Bounds-empty l bal w g empty)
      | inr (inr fit) ↦ inr (Bounds-fitting l bal w g fit)
    ]

acquire-total :
    (ident : ℕ) (demand : Resources) (b : Budget) → (try_acquire ident demand b).2.total ≡ b.total
unfolding try_acquire
acquire-total ident demand b = (acquire_counters ident (resolved_against demand b.total) b).0

overtake-total :
    (ident : ℕ) (demand behind : Resources) (b : Budget)
    → (try_backfill ident demand behind b).1.total ≡ b.total
unfolding try_backfill backfill
overtake-total ident demand behind b = ground arith

given_back-IsWithin :
    (l : Ledger) (i : ℕ) (g : Grant)
    → grant_at i l.held ≡ some g
    → IsWithin l
    → IsWithin (given_back i (some g) l)
unfolding release release_amounts
given_back-IsWithin l i g e w =
    IsWithin-of l.budget.total (given_back i (some g) l) (ground arith)
      (Within-remove _ i l.held _ e w.memory)

step-IsWithin : (l : Ledger) (a : Action) → IsBalanced l → IsWithin l → IsWithin (step l a)
unfolding step abandon
step-IsWithin l (acquire ident d) bal w =
    IsWithin-of l.budget.total (step l (acquire ident d)) (acquire-total ident d l.budget) (
      recorded-bounds l bal w (record { demand = d; backfilled = false }) _
        (acquire_bounds l bal w ident d))
step-IsWithin l (overtake ident d behind) bal w =
    IsWithin-of l.budget.total (step l (overtake ident d behind))
      (overtake-total ident d behind l.budget)
      (recorded-bounds l bal w (record { demand = d; backfilled = true }) _
        (overtake_bounds l bal w ident d behind))
step-IsWithin l (give_back i) bal w = elim (Option-cases (grant_at i l.held)) [
  | inl e ↦ rw e w
  | inr (g, e) ↦ rw e (given_back-IsWithin l i g e w)
]
step-IsWithin l (leave ident) bal w =
    IsWithin-of l.budget.total (step l (leave ident)) (ground arith) w.memory

run-IsWithin_from :
    (l : Ledger) (actions : List Action) → IsBalanced l → IsWithin l → IsWithin (run l actions)
unfolding run
run-IsWithin_from l [] bal w = w
run-IsWithin_from l (a ∷ actions) bal w =
    run-IsWithin_from (step l a) actions (step-IsBalanced l a bal) (step-IsWithin l a bal w)

start-IsWithin : (total : Amounts) → IsWithin (start total)
start-IsWithin total = record {
  memory = elim total.memory as (λ t. Within 0 t) [ none ↦ tt | some n ↦ omega arith ];
}

-- Whatever calls the schedulers make, in whatever order, the grants held at any time that are not
-- larger than the whole pool, in cores or in memory, stay within its memory together.
pub run-IsWithin : (total : Amounts) (actions : List Action) → IsWithin (run (start total) actions)
run-IsWithin total actions =
    run-IsWithin_from (start total) actions (omega arith) (start-IsWithin total)
