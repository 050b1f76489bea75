-- ===== src/Resources/Budget/Samples.antt =====
-- Small runs of a budget, and the theorems about it at concrete inputs.
use Prim.Native.Nat.{◌^◌}
use stimela_ninja.Prelude.{
  ℕ, ◌*◌, ◌≡◌, refl, inl, inr, true, false, none, some, List, [], ◌∷◌, arith,
}
use stimela_ninja.Resources.{
  cores, all, Resources, Amounts, is_empty, declares_nothing, resolved_against,
}
use stimela_ninja.Resources.Floats.{Float, rounded}
use stimela_ninja.Resources.Budget.{
  Budget, fresh, fits, exceeds_total, leaves_room_for, ticket_of, without, oldest, is_behind,
  enqueue, grant, acquire_amounts, try_acquire, backfillable, can_backfill, try_backfill, backfill,
  release, must_wait, abandon,
}
use stimela_ninja.Resources.Budget.Queue.{ServedInOrder, acquire_in_order}
use stimela_ninja.Resources.Budget.Ledger.{
  Ledger, start, Action, acquire, overtake, give_back, leave, step, run,
}
use stimela_ninja.Resources.Budget.Ledger.Balance.{IsBalanced, run-IsBalanced}
use stimela_ninja.Resources.Budget.Ledger.Within.{IsWithin, run-IsWithin}
use stimela_ninja.Resources.Budget.Ledger.Head.{Waits, head_starts}
use stimela_ninja.Resources.Budget.Ledger.Wakeups.{missed_wakeup}

-- So many cores.
abbrev core : ℕ → Float
core n = n * 2 ^ 1074

abbrev pool : Amounts
pool = record { cpus = some (core 4); memory = some 10 }

abbrev memory_only : ℕ → Resources
memory_only n = record { cpus = none; memory = some n }

abbrev all_cpus : Resources
all_cpus = record { cpus = some all; memory = some 3 }

program : Unit {0}
unfolding rounded step run try_acquire acquire_amounts is_behind oldest ticket_of without enqueue
    grant fits exceeds_total is_empty resolved_against try_backfill backfillable leaves_room_for
    backfill release declares_nothing abandon must_wait can_backfill
program = tt

-- Thread 2 holds 7 bytes and thread 1 waits for 8.
abbrev waiting : Ledger
waiting = run (start pool) (acquire 2 (memory_only 7) ∷ acquire 1 (memory_only 8) ∷ [])

waiting-used : waiting.budget.memory_used ≡ 7
unfolding program
waiting-used = refl

-- Past the head, 2 bytes are backfilled and 3 are not.
backfill_room :
    ((try_backfill 1 (memory_only 2) (memory_only 8) waiting.budget).0 ≡ true)
    × ((try_backfill 1 (memory_only 3) (memory_only 8) waiting.budget).0 ≡ false)
unfolding program
backfill_room = (refl, refl)

-- "all" cannot start beside anything, and another thread does not jump the queue.
others_wait :
    ((try_acquire 3 all_cpus waiting.budget).0 ≡ false)
    × ((try_acquire 3 (memory_only 1) waiting.budget).0 ≡ false)
    × ((try_backfill 3 (memory_only 1) (memory_only 8) waiting.budget).0 ≡ false)
unfolding program
others_wait = (refl, refl, refl)

abbrev script : List Action
script =
    acquire 2 (memory_only 7)
    ∷ acquire 1 (memory_only 8)
    ∷ overtake 1 (memory_only 2) (memory_only 8)
    ∷ acquire 3 all_cpus
    ∷ give_back 1
    ∷ leave 3
    ∷ []

run-IsBalanced_example : IsBalanced (run (start pool) script)
run-IsBalanced_example = run-IsBalanced pool script

run-IsWithin_example : IsWithin (run (start pool) script)
run-IsWithin_example = run-IsWithin pool script

waiting-Waits : Waits pool 1 0 (memory_only 8) waiting.budget
unfolding program
waiting-Waits = record {
  pool = refl;
  leads = record {
    mine = refl;
    first = omega arith;
    others = (inl refl, tt);
    issued = omega arith;
  };
  room = record { cpus = refl; memory = omega arith };
}

abbrev meanwhile : List Action
meanwhile =
    overtake 1 (memory_only 2) (memory_only 8)
    ∷ acquire 3 (memory_only 1)
    ∷ give_back 1
    ∷ leave 3
    ∷ []

head_starts_example : (try_acquire 1 (memory_only 8) (run waiting meanwhile).budget).0 ≡ true
unfolding program
head_starts_example =
    head_starts pool 1 0 (memory_only 8) waiting meanwhile
      (run-IsBalanced pool (acquire 2 (memory_only 7) ∷ acquire 1 (memory_only 8) ∷ []))
      waiting-Waits (inr refl, (((λ e. omega arith), refl), (tt, ((λ e. omega arith), tt))))
      (refl, tt)

-- 1.3, 1.1 and 2.6 cores in Python's floats.
abbrev of_1_3 : Float
of_1_3 = 5854679515581645 * 2 ^ 1022

abbrev of_1_1 : Float
of_1_1 = 4953959590107546 * 2 ^ 1022

abbrev of_2_6 : Float
of_2_6 = 5854679515581645 * 2 ^ 1023

abbrev some_cores : Float → Resources
some_cores n = record { cpus = some (cores n); memory = none }

-- A pool of 2.6 cores after 1.3 and 1.1 of them were taken and given back.
abbrev idle : Ledger
idle =
    run (start (record { cpus = some of_2_6; memory = none })) (
      acquire 2 (some_cores of_1_3)
      ∷ acquire 2 (some_cores of_1_1)
      ∷ give_back 0
      ∷ give_back 0
      ∷ [])

-- Nothing is held or waits, a residue of 2 ^ -52 is counted as used, and all cores are refused.
idle_refuses :
    (idle.held ≡ [])
    × (idle.budget.cpus_used ≡ 2 ^ 1022)
    × (idle.budget.waiters ≡ [])
    × ((try_acquire 1 (some_cores of_2_6) idle.budget).0 ≡ false)
unfolding program
idle_refuses = (refl, refl, refl, refl)

-- Thread 1 waits for 4 bytes and thread 2 for 3, and all ten are free.
abbrev both : Budget
both = record (fresh pool) { waiters = (1, 0) ∷ (2, 1) ∷ []; next_ticket = 2 }

missed_wakeup_example :
    ((try_acquire 2 (memory_only 3) both).0 ≡ false)
    × ((try_acquire 1 (memory_only 4) both).0 ≡ true)
    × (must_wait (try_acquire 2 (memory_only 3) both).1 (try_acquire 1 (memory_only 4) both).2
        ≡ true)
    × ((try_acquire 2 (memory_only 3) (try_acquire 1 (memory_only 4) both).2).0 ≡ true)
unfolding program
missed_wakeup_example =
    missed_wakeup 1 2 0 1 (memory_only 4) (memory_only 3) both
      (refl, (λ e. omega arith), omega arith) (refl, refl, refl) (refl, refl, refl)

-- Thread 1 has the older ticket of the two that wait.
acquire_in_order_example : ServedInOrder 1 both.waiters
unfolding program
acquire_in_order_example = acquire_in_order 1 (memory_only 4) both refl refl refl
