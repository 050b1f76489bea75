-- ===== src/Scheduler/Counts.antt =====
-- The scheduler's lists counted by steps and units.
use stimela_ninja.Prelude.{
  ℕ, zero, suc, ◌+◌, ◌-◌, ◌≤◌, Bool, true, false, not, ◌&&◌, none, some, List, [], ◌∷◌, ltb, leb,
  ◌==◌, if◌then◌else◌, any, ◌≡◌, refl, arith,
}
use stimela_ninja.Graph.Topology.Counts.{bump}
use stimela_ninja.Scheduler.{
  Entry, same_entry, least_entry, remove_entry, Slots, units, empty_slots, fill, fill_in, slots_of,
  drop, complete,
}

-- How often a unit is in a list.
unfoldable pub occ_entry : ℕ → ℕ → List Entry → ℕ
occ_entry i k [] = 0
occ_entry i k ((j, l) ∷ es) = (if i == j && k == l then 1 else 0) + occ_entry i k es

pub occ_entry-remove :
    (i k j l : ℕ) (es : List Entry)
    → occ_entry i k (remove_entry (j, l) es)
      ≡ occ_entry i k es - (if ltb 0 (occ_entry j l es) && (i == j && k == l) then 1 else 0)
unfolding occ_entry remove_entry
occ_entry-remove i k j l [] = ground arith
occ_entry-remove i k j l ((m, n) ∷ es) = ground (arith, occ_entry-remove i k j l es)

pub occ_entry-any :
    (j l : ℕ) (es : List Entry) → any (same_entry (j, l)) es ≡ true → 1 ≤ occ_entry j l es
unfolding occ_entry
occ_entry-any j l [] h = ground (arith, h)
occ_entry-any j l ((m, n) ∷ es) h = ground (arith, h, occ_entry-any j l es)

pub occ_entry-least :
    (e : Entry) (es : List Entry) → 1 ≤ occ_entry (least_entry e es).0 (least_entry e es).1 (e ∷ es)
unfolding occ_entry least_entry
occ_entry-least (i, k) [] = ground arith
occ_entry-least (i, k) ((j, l) ∷ es) = ground (arith, occ_entry-least (j, l) es)

pub occ_entry-units :
    (i k j n : ℕ) (es : List Entry)
    → occ_entry i k (units j n es)
      ≡ occ_entry i k es + (if i == j && (ltb 0 k && leb k n) then 1 else 0)
unfolding occ_entry units
occ_entry-units i k j zero es = ground arith
occ_entry-units i k j (suc n) es = ground (arith, occ_entry-units i k j n ((j, suc n) ∷ es))

-- Steps that wait for slices.
unfoldable pub occ_key : ℕ → List (ℕ × Slots) → ℕ
occ_key i [] = 0
occ_key i ((j, slots) ∷ others) = bump i j + occ_key i others

-- Is the slot of the index there and empty?
unfoldable pub open_at : ℕ → Slots → ℕ
open_at k [] = 0
open_at zero (none ∷ slots) = 1
open_at zero (some code ∷ slots) = 0
open_at (suc k) (slot ∷ slots) = open_at k slots

unfoldable pub opening : ℕ → ℕ → List (ℕ × Slots) → ℕ
opening i k [] = 0
opening i k ((j, slots) ∷ others) = (if i == j then open_at k slots else 0) + opening i k others

-- Every step that waits for slices waits for one at least.
unfoldable pub all_open : List (ℕ × Slots) → Bool
all_open [] = true
all_open ((j, slots) ∷ others) = not (complete slots) && all_open others

pub opening_unkeyed : (i k : ℕ) (g : List (ℕ × Slots)) → occ_key i g ≡ 0 → opening i k g ≡ 0
unfolding occ_key opening
opening_unkeyed i k [] h = refl
opening_unkeyed i k ((j, slots) ∷ g) h = ground (arith, h, opening_unkeyed i k g)

pub open_at-empty_slots : (k n : ℕ) → open_at k (empty_slots n) ≡ (if ltb k n then 1 else 0)
unfolding open_at empty_slots
open_at-empty_slots k zero = ground arith
open_at-empty_slots zero (suc n) = ground arith
open_at-empty_slots (suc k) (suc n) = ground (arith, open_at-empty_slots k n)

pub open_at-fill :
    (k l code : ℕ) (slots : Slots)
    → open_at l (fill k code slots) ≡ (if k == l then 0 else open_at l slots)
unfolding open_at fill
open_at-fill k l code [] = ground arith
open_at-fill zero zero code (none ∷ slots) = ground arith
open_at-fill zero zero code (some c ∷ slots) = ground arith
open_at-fill zero (suc l) code (slot ∷ slots) = ground arith
open_at-fill (suc k) zero code (none ∷ slots) = ground arith
open_at-fill (suc k) zero code (some c ∷ slots) = ground arith
open_at-fill (suc k) (suc l) code (slot ∷ slots) = ground (arith, open_at-fill k l code slots)

pub open_at-complete : (l : ℕ) (slots : Slots) → complete slots ≡ true → open_at l slots ≡ 0
unfolding open_at
open_at-complete l [] h = refl
open_at-complete zero (none ∷ slots) h = ground (arith, h)
open_at-complete zero (some c ∷ slots) h = refl
open_at-complete (suc l) (none ∷ slots) h = ground (arith, h)
open_at-complete (suc l) (some c ∷ slots) h = ground (arith, h, open_at-complete l slots)

pub complete-empty_slots : (n : ℕ) → complete (empty_slots (suc n)) ≡ false
unfolding empty_slots
complete-empty_slots n = refl

pub occ_key-fill_in :
    (j i k code : ℕ) (g : List (ℕ × Slots)) → occ_key j (fill_in i k code g) ≡ occ_key j g
unfolding occ_key fill_in
occ_key-fill_in j i k code [] = refl
occ_key-fill_in j i k code ((m, slots) ∷ g) = ground (arith, occ_key-fill_in j i k code g)

-- A result closes its slot, of a step that has one place at most.
pub opening-fill_in :
    (j l i k code : ℕ) (g : List (ℕ × Slots))
    → occ_key i g ≤ 1
    → opening j l (fill_in i k code g) ≡ (if j == i && k == l then 0 else opening j l g)
unfolding opening occ_key fill_in
opening-fill_in j l i k code [] h = ground arith
opening-fill_in j l i k code ((m, slots) ∷ g) h =
    ground
      (arith, h, opening-fill_in j l i k code g, open_at-fill k l code slots, opening_unkeyed i l g)

pub occ_key-drop :
    (j i : ℕ) (g : List (ℕ × Slots))
    → occ_key j (drop i g) ≡ occ_key j g - (if ltb 0 (occ_key i g) then bump j i else 0)
unfolding occ_key drop
occ_key-drop j i [] = ground arith
occ_key-drop j i ((m, slots) ∷ g) = ground (arith, occ_key-drop j i g)

-- A complete step that is dropped had no open slot.
pub opening-drop :
    (j l i : ℕ) (g : List (ℕ × Slots))
    → complete (slots_of i g) ≡ true
    → opening j l (drop i g) ≡ opening j l g
unfolding opening drop slots_of
opening-drop j l i [] h = refl
opening-drop j l i ((m, slots) ∷ g) h =
    ground (arith, h, opening-drop j l i g, open_at-complete l slots)

pub all_open-fill_in :
    (i k code : ℕ) (g : List (ℕ × Slots))
    → all_open g ≡ true
    → complete (slots_of i (fill_in i k code g)) ≡ false
    → all_open (fill_in i k code g) ≡ true
unfolding all_open fill_in slots_of
all_open-fill_in i k code [] h c = refl
all_open-fill_in i k code ((m, slots) ∷ g) h c = ground (arith, h, c, all_open-fill_in i k code g)

pub all_open-drop :
    (i k code : ℕ) (g : List (ℕ × Slots))
    → all_open g ≡ true
    → all_open (drop i (fill_in i k code g)) ≡ true
unfolding all_open fill_in drop
all_open-drop i k code [] h = refl
all_open-drop i k code ((m, slots) ∷ g) h = ground (arith, h, all_open-drop i k code g)

open_at-le : (k : ℕ) (slots : Slots) → open_at k slots ≤ 1
unfolding open_at
open_at-le k [] = omega arith
open_at-le zero (none ∷ slots) = omega arith
open_at-le zero (some code ∷ slots) = omega arith
open_at-le (suc k) (slot ∷ slots) = open_at-le k slots

pub opening-le : (i k : ℕ) (g : List (ℕ × Slots)) → opening i k g ≤ occ_key i g
unfolding opening occ_key
opening-le i k [] = omega arith
opening-le i k ((j, slots) ∷ g) = ground (arith, open_at-le k slots, opening-le i k g)

pub occ_entry-remove_le :
    (i k j l : ℕ) (es : List Entry) → occ_entry i k (remove_entry (j, l) es) ≤ occ_entry i k es
occ_entry-remove_le i k j l es = ground (arith, occ_entry-remove i k j l es)
