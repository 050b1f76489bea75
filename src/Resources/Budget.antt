-- ===== src/Resources/Budget.antt =====
-- The class `Budget` of src/shinobi/resources.py.
pub mod Ledger
pub mod Queue
mod Samples
use stimela_ninja.Prelude.{
  ℕ, ◌+◌, ◌-◌, Bool, true, false, not, ◌&&◌, Option, none, some, List, [], ◌∷◌, ◌++◌, ltb, leb,
  ◌==◌, if◌then◌else◌, all, any,
}
use stimela_ninja.Resources.Floats.{Float, plus, minus}
use stimela_ninja.Resources.{Resources, Amounts, is_empty, declares_nothing, resolved_against}

pub record Budget : Type 0 where
  pub total : Amounts
  pub cpus_used : Float
  pub memory_used : ℕ
  pub generation : ℕ
  pub next_ticket : ℕ
  pub backfilled_cpus : Float
  pub backfilled_memory : ℕ
  -- thread identity and ticket, in insertion order
  pub waiters : List (ℕ × ℕ)

abbrev pub fresh : Amounts → Budget
fresh total = record {
  total = total;
  cpus_used = 0;
  memory_used = 0;
  generation = 0;
  next_ticket = 0;
  backfilled_cpus = 0;
  backfilled_memory = 0;
  waiters = [];
}

-- `(reserved, requested, total)`, and `reserved + requested`, which is rounded for cores.
abbrev pub Dimension : Type 0
Dimension = ℕ × ℕ × ℕ × ℕ

-- The sum of two memory sizes.
abbrev sum : ℕ → ℕ → ℕ
sum a b = a + b

-- A dimension that the budget does not constrain or the demand does not declare is skipped.
abbrev dimension : (ℕ → ℕ → ℕ) → ℕ → Option ℕ → Option ℕ → List Dimension
dimension add reserved none total = []
dimension add reserved (some requested) none = []
dimension add reserved (some requested) (some total) =
    (reserved, requested, total, add reserved requested) ∷ []

pub dimensions : Budget → Amounts → List Dimension
dimensions b demand =
    dimension plus b.cpus_used demand.cpus b.total.cpus
    ++ dimension sum b.memory_used demand.memory b.total.memory

pub fits : Budget → Amounts → Bool
unfolding dimensions
fits b demand = all (λ d. leb d.3 d.2) (dimensions b demand)

abbrev pub or_zero : Option ℕ → ℕ
or_zero none = 0
or_zero (some n) = n

abbrev room : (ℕ → ℕ → ℕ) → Option ℕ → ℕ → Option ℕ → Option ℕ → Bool
room add held outstanding none total = true
room add held outstanding (some requested) none = true
room add held outstanding (some requested) (some total) =
    leb (add (add (or_zero held) outstanding) requested) total

pub leaves_room_for : Budget → Amounts → Amounts → Bool
leaves_room_for b demand behind =
    room plus behind.cpus b.backfilled_cpus demand.cpus b.total.cpus
    && room sum behind.memory b.backfilled_memory demand.memory b.total.memory

pub exceeds_total : Budget → Amounts → Bool
unfolding dimensions
exceeds_total b demand = any (λ d. ltb d.2 d.1) (dimensions b demand)

pub reserve : Amounts → Budget → Budget
reserve demand b = record b {
  cpus_used = plus b.cpus_used (or_zero demand.cpus);
  memory_used = b.memory_used + or_zero demand.memory;
}

-- `self._waiters.get(ident)`
pub ticket_of : ℕ → List (ℕ × ℕ) → Option ℕ
ticket_of ident [] = none
ticket_of ident ((who, ticket) ∷ rest) = if who == ident then some ticket else ticket_of ident rest

-- `self._waiters.pop(ident, None)`
pub without : ℕ → List (ℕ × ℕ) → List (ℕ × ℕ)
without ident [] = []
without ident ((who, ticket) ∷ rest) =
    let kept = without ident rest in if who == ident then kept else (who, ticket) ∷ kept

abbrev smaller : ℕ → Option ℕ → ℕ
smaller t none = t
smaller t (some u) = if ltb u t then u else t

-- `min(self._waiters.values(), default=None)`
pub oldest : List (ℕ × ℕ) → Option ℕ
oldest [] = none
oldest ((who, ticket) ∷ rest) = some (smaller ticket (oldest rest))

abbrev precedes : Option ℕ → Option ℕ → Bool
precedes none mine = false
precedes (some t) none = true
precedes (some t) (some mine) = ltb t mine

-- Whether someone else is queued ahead of the thread.
pub is_behind : ℕ → List (ℕ × ℕ) → Bool
is_behind ident waiters = precedes (oldest waiters) (ticket_of ident waiters)

abbrev enqueue_ticket : ℕ → Option ℕ → Budget → Budget
enqueue_ticket ident none b = record b {
  waiters = b.waiters ++ (ident, b.next_ticket) ∷ [];
  next_ticket = b.next_ticket + 1;
}
enqueue_ticket ident (some ticket) b = b

-- A refused thread takes a ticket, unless it has one.
pub enqueue : ℕ → Budget → Budget
enqueue ident b = enqueue_ticket ident (ticket_of ident b.waiters) b

-- A grant gives up the thread's place in the queue.
pub grant : ℕ → Amounts → Budget → Budget
unfolding reserve
grant ident demand b = reserve demand (record b { waiters = without ident b.waiters })

-- `try_acquire` with its demand resolved: whether it was granted, the generation, the new state.
pub acquire_amounts : ℕ → Amounts → Budget → Bool × ℕ × Budget
acquire_amounts ident demand b =
    if is_empty demand
    then (true, b.generation, b)
    else if exceeds_total b demand
    then (true, b.generation, grant ident demand b)
    else if not (is_behind ident b.waiters) && fits b demand
    then (true, b.generation, grant ident demand b)
    else (false, b.generation, enqueue ident b)

pub try_acquire : ℕ → Resources → Budget → Bool × ℕ × Budget
unfolding acquire_amounts
try_acquire ident declared b = acquire_amounts ident (resolved_against declared b.total) b

-- Both footprints resolved, or `none` for a candidate that reserves nothing.
pub backfill_operands : Resources → Resources → Budget → Option (Amounts × Amounts)
backfill_operands declared behind b =
    let demand = resolved_against declared b.total in
    if is_empty demand then none else some (demand, resolved_against behind b.total)

pub backfillable : ℕ → Amounts → Amounts → Budget → Bool
backfillable ident demand behind b =
    if is_behind ident b.waiters then false else fits b demand && leaves_room_for b demand behind

pub can_backfill : ℕ → Resources → Resources → Budget → Bool
unfolding backfill_operands
can_backfill ident declared behind b = elim (backfill_operands declared behind b) [
  | none ↦ true
  | some (demand, head) ↦ backfillable ident demand head b
]

-- The grant of a backfill leaves the queue alone.
pub backfill : Amounts → Budget → Budget
unfolding reserve
backfill demand b = record (reserve demand b) {
  backfilled_cpus = plus b.backfilled_cpus (or_zero demand.cpus);
  backfilled_memory = b.backfilled_memory + or_zero demand.memory;
}

pub try_backfill : ℕ → Resources → Resources → Budget → Bool × Budget
unfolding backfill_operands
try_backfill ident declared behind b = elim (backfill_operands declared behind b) [
  | none ↦ (true, b)
  | some (demand, head) ↦
      if backfillable ident demand head b then (true, backfill demand b) else (false, b)
]

pub release_amounts : Amounts → Bool → Budget → Budget
release_amounts demand backfilled b = record b {
  cpus_used = minus b.cpus_used (or_zero demand.cpus);
  memory_used = b.memory_used - or_zero demand.memory;
  backfilled_cpus =
      if backfilled then minus b.backfilled_cpus (or_zero demand.cpus) else b.backfilled_cpus;
  backfilled_memory =
      if backfilled then b.backfilled_memory - or_zero demand.memory else b.backfilled_memory;
  generation = b.generation + 1;
}

pub release : Resources → Bool → Budget → Budget
unfolding release_amounts
release declared backfilled b =
    if declares_nothing declared
    then b
    else release_amounts (resolved_against declared b.total) backfilled b

-- Whether `wait_for_change` blocks: it returns at once if the generation has moved.
pub must_wait : ℕ → Budget → Bool
must_wait since b = b.generation == since

abbrev abandon_ticket : ℕ → Option ℕ → Budget → Budget
abandon_ticket ident none b = b
abandon_ticket ident (some ticket) b = record b {
  waiters = without ident b.waiters;
  generation = b.generation + 1;
}

pub abandon : ℕ → Budget → Budget
abandon ident b = abandon_ticket ident (ticket_of ident b.waiters) b
