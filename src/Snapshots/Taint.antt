-- ===== src/Snapshots/Taint.antt =====
-- A restore is allowed to the states after the taint only.
use stimela_ninja.Prelude.{
  ℕ, suc, ◌+◌, String, Bool, true, false, not, Option, none, some, List, [], ◌∷◌, ◌≡◌, refl, arith,
  if◌then◌else◌, is_some, Option-cases, inl, inr,
}
use stimela_ninja.Prelude.Dict.{Dict, get, put, get-put}
use stimela_ninja.Snapshots.{
  Generation, Chain, named, indexed, order_of, at_or_behind, taint_blocks,
}
use text.Mathlib.Text.{◌==◌}

-- The position of the last state of a name.
unfoldable pub last : String → List Generation → Option ℕ
last n [] = none
last n (g ∷ gs) = elim (last n gs) [
  | some k ↦ some (suc k)
  | none ↦ if g.name == n then some 0 else none
]

abbrev moved : ℕ → Option ℕ → Option ℕ → Option ℕ
moved i none other = other
moved i (some k) other = some (i + k)

pub get-indexed :
    (n : String) (i : ℕ) (gs : List Generation) (order : Dict ℕ)
    → get n (indexed i gs order) ≡ moved i (last n gs) (get n order)
unfolding indexed last
get-indexed n i [] order = refl
get-indexed n i (g ∷ gs) order =
    ground (arith, get-indexed n (suc i) gs (put g.name i order), get-put g.name n i order)

pub get-order_of : (n : String) (gs : List Generation) → get n (order_of gs) ≡ last n gs
unfolding get
get-order_of n gs = ground (arith, get-indexed n 0 gs [])

-- The states after the last one of a name.
unfoldable pub after : String → List Generation → Option (List Generation)
after n [] = none
after n (g ∷ gs) = elim (after n gs) [
  | some later ↦ some later
  | none ↦ if g.name == n then some gs else none
]

abbrev pub holds_later : String → Option (List Generation) → Bool
holds_later n none = false
holds_later n (some later) = named n later

-- Known positions in order: the state is among those after the taint.
pub is_some-last : (n : String) (gs : List Generation) → is_some (last n gs) ≡ named n gs
unfolding last
is_some-last n [] = refl
is_some-last n (g ∷ gs) = ground (arith, is_some-last n gs)

is_some-after : (n : String) (gs : List Generation) → is_some (after n gs) ≡ is_some (last n gs)
unfolding last after
is_some-after n [] = refl
is_some-after n (g ∷ gs) = ground (arith, is_some-after n gs)

pub at_or_behind-after :
    (taint required : String) (gs : List Generation)
    → at_or_behind (last taint gs) (last required gs) ≡ not (holds_later required (after taint gs))
unfolding last after
at_or_behind-after t r [] = refl
at_or_behind-after t r (g ∷ gs) =
    ground (arith, at_or_behind-after t r gs, is_some-last r gs, is_some-after t gs)

-- Can the state be restored without losing a write that the journal could not name?
abbrev pub restorable : Chain → String → Bool
restorable c required = elim c.tainted_through [
  | none ↦ true
  | some taint ↦ holds_later required (after taint c.generations)
]

-- A restore to a state is refused exactly when a taint is known and the state is not recorded
-- after the last generation of the taint's name, unknown names included.
pub taint_blocks_lem :
    (c : Chain) (required : String) → taint_blocks c required ≡ not (restorable c required)
unfolding taint_blocks
taint_blocks_lem c required = elim (Option-cases c.tainted_through) [
  | inl e ↦ rw e refl
  | inr (t, e) ↦ ground (
    arith,
    e,
    get-order_of t c.generations,
    get-order_of required c.generations,
    at_or_behind-after t required c.generations,
  )
]
