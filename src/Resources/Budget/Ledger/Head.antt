-- ===== src/Resources/Budget/Ledger/Head.antt =====
-- Backfill does not delay the unit that it overtakes.
use stimela_ninja.Prelude.{
  ℕ, ◌+◌, ◌≤◌, ◌≡◌, ◌≢◌, ◌⊎◌, refl, inl, inr, Bool, true, false, Option, none, some, List, [], ◌∷◌,
  subst, sym, ◌∙◌, arith, All, Option-cases, Bool-cases,
}
use stimela_ninja.Resources.{Resources, Amounts, declares_nothing, resolved_against}
use stimela_ninja.Resources.Budget.{
  Budget, fresh, is_behind, fits, exceeds_total, leaves_room_for, acquire_amounts, try_acquire,
  try_backfill, backfillable, backfill, release, release_amounts, abandon, enqueue, ticket_of,
}
use stimela_ninja.Resources.Budget.Ledger.{
  Grant, Ledger, Action, acquire, overtake, give_back, leave, grant_at, step, run, sum_of,
  if_backfilled,
}
use stimela_ninja.Resources.Budget.Ledger.Balance.{IsBalanced, run-IsBalanced_from}
use stimela_ninja.Resources.Budget.Ledger.Within.{exceeds_total-fresh}
use stimela_ninja.Resources.Budget.Queue.{
  Leads, Leads-behind, Leads-not_behind, Leads-enqueue, Leads-without, Leads-same,
}

-- A head's memory beside what is backfilled.
abbrev pub Beside : Option ℕ → ℕ → Option ℕ → Type 0
Beside none outstanding total = Unit
Beside (some needed) outstanding none = Unit
Beside (some needed) outstanding (some total) = needed + outstanding ≤ total

-- The head declares no cores, and its memory is there once all work but the backfilled drains.
pub record HasRoom (head : Amounts) (b : Budget) : Type 0 where
  pub cpus : head.cpus ≡ none
  pub memory : Beside head.memory b.backfilled_memory b.total.memory

-- The calls that other threads and the head's own scheduler may make while the head waits: the
-- scheduler only backfills past this head, and no one asks for more than the whole pool.
abbrev pub Patient : Amounts → ℕ → Resources → Action → Type 0
Patient total ident head (acquire who demand) =
    (who ≢ ident) × (exceeds_total (fresh total) (resolved_against demand total) ≡ false)
Patient total ident head (overtake who demand behind) = (who ≢ ident) ⊎ (behind ≡ head)
Patient total ident head (give_back i) = Unit
Patient total ident head (leave who) = who ≢ ident

backfill-HasRoom :
    (head demand : Amounts) (b : Budget)
    → leaves_room_for b demand head ≡ true
    → HasRoom head b
    → HasRoom head (backfill demand b)
unfolding leaves_room_for backfill
backfill-HasRoom head demand b fit r = record { cpus = r.cpus; memory = ground (arith, r.memory) }

-- The head, its ticket and the budget while it waits.
pub record Waits (total : Amounts) (ident ticket : ℕ) (head : Resources) (b : Budget) : Type 0 where
  pub pool : b.total ≡ total
  pub leads : Leads ident ticket b
  pub room : HasRoom (resolved_against head total) b

-- What the head's bound rests on.
HasRoom-of :
    (head : Amounts) (b b' : Budget)
    → b'.total ≡ b.total
    → b'.backfilled_memory ≤ b.backfilled_memory
    → HasRoom head b
    → HasRoom head b'
HasRoom-of head b b' e m r = record { cpus = r.cpus; memory = rw e (ground (arith, r.memory)) }

acquire_refused :
    (who : ℕ) (d : Amounts) (b : Budget)
    → is_behind who b.waiters ≡ true
    → exceeds_total (fresh b.total) d ≡ false
    → ((acquire_amounts who d b).2 ≡ b) ⊎ ((acquire_amounts who d b).2 ≡ enqueue who b)
unfolding acquire_amounts
acquire_refused who d b behind small = let e = exceeds_total-fresh b d in ground arith

overtake_result :
    (who : ℕ) (demand behind : Resources) (b : Budget)
    → ((try_backfill who demand behind b).1 ≡ b)
      ⊎ (is_behind who b.waiters ≡ false)
        × (leaves_room_for b (resolved_against demand b.total) (resolved_against behind b.total)
            ≡ true)
        × ((try_backfill who demand behind b).1 ≡ backfill (resolved_against demand b.total) b)
unfolding try_backfill backfillable
overtake_result who demand behind b = ground arith

module _ {total : Amounts} {ident ticket : ℕ} {head : Resources} where
  Waits-enqueue :
      (who : ℕ) (b : Budget)
      → Waits total ident ticket head b
      → Waits total ident ticket head (enqueue who b)
  unfolding enqueue
  Waits-enqueue who b w = record {
    pool = ground (arith, w.pool);
    leads = Leads-enqueue who w.leads;
    room = HasRoom-of _ b (enqueue who b) (ground arith) (ground arith) w.room;
  }

  Waits-acquire :
      (who : ℕ) (demand : Resources) (b : Budget)
      → Patient total ident head (acquire who demand)
      → Waits total ident ticket head b
      → Waits total ident ticket head (try_acquire who demand b).2
  unfolding try_acquire
  Waits-acquire who demand b p w =
      elim (acquire_refused who (resolved_against demand b.total) b (Leads-behind who p.0 w.leads)
        (rw w.pool p.1)) [ inl e ↦ rw e w | inr e ↦ rw e (Waits-enqueue who b w) ]

  Waits-backfill :
      (demand : Amounts) (b : Budget)
      → leaves_room_for b demand (resolved_against head b.total) ≡ true
      → Waits total ident ticket head b
      → Waits total ident ticket head (backfill demand b)
  unfolding backfill
  Waits-backfill demand b fit w = record {
    pool = w.pool;
    leads = Leads-same (backfill demand b) refl refl w.leads;
    room =
        backfill-HasRoom (resolved_against head total) demand b
          (subst (λ t. leaves_room_for b demand (resolved_against head t) ≡ true) w.pool fit)
          w.room;
  }

  Waits-overtake :
      (who : ℕ) (demand behind : Resources) (b : Budget)
      → Patient total ident head (overtake who demand behind)
      → Waits total ident ticket head b
      → Waits total ident ticket head (try_backfill who demand behind b).1
  Waits-overtake who demand behind b p w = elim (overtake_result who demand behind b) [
    | inl e ↦ rw e w
    | inr (front, fit, e) ↦ elim p [
      | inl other ↦ absurd (let q = Leads-behind who other w.leads in ground arith)
      | inr same ↦ rw e (
          Waits-backfill (resolved_against demand b.total) b
            (subst
              (λ h.
                leaves_room_for b (resolved_against demand b.total) (resolved_against h b.total)
                ≡ true)
              same fit)
            w)
    ]
  ]

  Waits-release :
      (demand : Resources) (backfilled : Bool) (b : Budget)
      → Waits total ident ticket head b
      → Waits total ident ticket head (release demand backfilled b)
  unfolding release release_amounts
  Waits-release demand backfilled b w = elim (Bool-cases (declares_nothing demand)) [
    | inl e ↦ rw e w
    | inr e ↦ rw e (record {
      pool = w.pool;
      leads = Leads-same _ refl refl w.leads;
      room = HasRoom-of _ b _ refl (ground arith) w.room;
    })
  ]

  Waits-abandon :
      (who : ℕ) (b : Budget)
      → who ≢ ident
      → Waits total ident ticket head b
      → Waits total ident ticket head (abandon who b)
  unfolding abandon
  Waits-abandon who b ne w = elim (Option-cases (ticket_of who b.waiters)) [
    | inl e ↦ rw e w
    | inr (t, e) ↦ rw e (record {
      pool = w.pool;
      leads = Leads-without who _ ne refl refl w.leads;
      room = HasRoom-of _ b _ refl (ground arith) w.room;
    })
  ]

  step-Waits :
      (l : Ledger) (a : Action)
      → Patient total ident head a
      → Waits total ident ticket head l.budget
      → Waits total ident ticket head (step l a).budget
  unfolding step
  step-Waits l (acquire who demand) p w = Waits-acquire who demand l.budget p w
  step-Waits l (overtake who demand behind) p w = Waits-overtake who demand behind l.budget p w
  step-Waits l (give_back i) p w = elim (Option-cases (grant_at i l.held)) [
    | inl e ↦ rw e w
    | inr (g, e) ↦ rw e (Waits-release g.demand g.backfilled l.budget w)
  ]
  step-Waits l (leave who) p w = Waits-abandon who l.budget p w

  pub run-Waits :
      (l : Ledger) (actions : List Action)
      → All (Patient total ident head) actions
      → Waits total ident ticket head l.budget
      → Waits total ident ticket head (run l actions).budget
  unfolding run
  run-Waits l [] p w = w
  run-Waits l (a ∷ actions) p w = run-Waits (step l a) actions p.1 (step-Waits l a p.0 w)

sum_of-backfilled :
    (f : Grant → ℕ) (held : List Grant)
    → All (λ g. g.backfilled ≡ true) held
    → sum_of (if_backfilled f) held ≡ sum_of f held
sum_of-backfilled f [] h = refl
sum_of-backfilled f (g ∷ held) h =
    let ih = sum_of-backfilled f held h.1 in let e = h.0 in ground arith

-- A demand of which only backfilled work is in the way fits.
HasRoom-fits :
    (d : Amounts) (b : Budget) → b.memory_used ≡ b.backfilled_memory → HasRoom d b → fits b d ≡ true
unfolding fits
HasRoom-fits d b m r = ground (arith, r.cpus, r.memory)

acquire_fitting :
    (ident : ℕ) (demand : Resources) (b : Budget)
    → is_behind ident b.waiters ≡ false
    → fits b (resolved_against demand b.total) ≡ true
    → (try_acquire ident demand b).0 ≡ true
unfolding try_acquire acquire_amounts
acquire_fitting ident demand b front fit = ground arith

-- A waiting head that declares memory only and leads the queue, with room beside what is backfilled, is granted as soon as
-- every grant that is not a backfill has been returned: whatever its scheduler backfilled past
-- it meanwhile, and whatever others asked for, released or gave up, short of a demand that is
-- larger than the whole pool.
pub head_starts :
    (total : Amounts) (ident ticket : ℕ) (head : Resources) (l : Ledger) (actions : List Action)
    → IsBalanced l
    → Waits total ident ticket head l.budget
    → All (Patient total ident head) actions
    → All (λ g. g.backfilled ≡ true) (run l actions).held
    → (try_acquire ident head (run l actions).budget).0 ≡ true
head_starts total ident ticket head l actions bal w p drained =
    let b = (run l actions).budget in
    let end = run-IsBalanced_from l actions bal in
    let w' = run-Waits l actions p w in
    acquire_fitting ident head b (Leads-not_behind w'.leads) (
      HasRoom-fits (resolved_against head b.total) b
        (end.memory ∙ sym (end.backfilled_memory ∙ sum_of-backfilled _ _ drained))
        (rw w'.pool w'.room))
