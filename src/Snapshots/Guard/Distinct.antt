-- ===== src/Snapshots/Guard/Distinct.antt =====
-- The generations of a chain have distinct names.
use stimela_ninja.Prelude.{
  String, Bool, true, false, not, ◌||◌, Option, none, some, List, [], ◌∷◌, ◌++◌, is_some, ◌≡◌, refl,
  arith, ap, Bool-cases, inl, inr,
}
use stimela_ninja.Snapshots.{Generation, Chain, named, taint_blocks}
use stimela_ninja.Snapshots.Guard.{
  Taken, Commit, or_new, altered, seen_again, renewed, renewed_if, record_generation, move_taint,
  taint, with_produced, located, commit_named, adopt, Mutation, recorded, marked, adopted,
  committing, tainting, cleared, mutate, mutations,
}
use stimela_ninja.Snapshots.Guard.Honoured.{named-append}
use text.Mathlib.Text.{◌==◌}
use text.Mathlib.TextEquality.{eq_iff}

abbrev pub IsDistinct : List Generation → Type 0
IsDistinct [] = Unit
IsDistinct (g ∷ gs) = (named g.name gs ≡ false) × IsDistinct gs

abbrev pub HasDistinct : Option Chain → Type 0
HasDistinct none = Unit
HasDistinct (some c) = IsDistinct c.generations

IsDistinct-append :
    (g : Generation) (gs : List Generation)
    → named g.name gs ≡ false
    → IsDistinct gs
    → IsDistinct (gs ++ (g ∷ []))
IsDistinct-append g [] n d = (refl, tt)
IsDistinct-append g (x ∷ gs) n d = (
  ground (arith, n, d.0, named-append x.name g gs, eq_iff g.name x.name, eq_iff x.name g.name),
  IsDistinct-append g gs (ground (arith, n)) d.1,
)

named-altered :
    (n m : String) (f : Generation → Generation) (gs : List Generation)
    → ((g : Generation) → (f g).name ≡ g.name)
    → named n (altered m f gs) ≡ named n gs
unfolding altered
named-altered n m f [] same = refl
named-altered n m f (g ∷ gs) same =
    ground (arith, named-altered n m f gs same, ap (λ x. x == n) (same g))

IsDistinct-altered :
    (m : String) (f : Generation → Generation) (gs : List Generation)
    → ((g : Generation) → (f g).name ≡ g.name)
    → IsDistinct gs
    → IsDistinct (altered m f gs)
unfolding altered
IsDistinct-altered m f [] same d = tt
IsDistinct-altered m f (g ∷ gs) same d = elim (Bool-cases (g.name == m)) [
  | inl e ↦ rw (e, IsDistinct) (ground (arith, d.0, ap (λ x. named x gs) (same g)), d.1)
  | inr e ↦
      rw (e, IsDistinct)
        (ground (arith, d.0, named-altered g.name m f gs same), IsDistinct-altered m f gs same d.1)
]

IsDistinct-record_generation :
    (t : Taken) (c : Chain)
    → IsDistinct c.generations
    → IsDistinct (record_generation t c).generations
unfolding record_generation
IsDistinct-record_generation t c d = elim (Bool-cases (named t.name c.generations)) [
  | inl e ↦ rw e (IsDistinct-altered t.name (seen_again t) c.generations (λ g. refl) d)
  | inr e ↦ rw e (IsDistinct-append _ c.generations e d)
]

IsDistinct-renewed_if :
    (strict : Bool) (a : Commit) (produced : String) (gs : List Generation)
    → IsDistinct gs
    → IsDistinct (renewed_if strict a produced gs)
IsDistinct-renewed_if false a produced gs d = d
IsDistinct-renewed_if true a produced gs d =
    IsDistinct-altered produced (renewed a) gs (λ g. refl) d

IsDistinct-with_produced :
    (a : Commit) (produced : String) (gs : List Generation)
    → IsDistinct gs
    → IsDistinct (with_produced a produced gs)
unfolding with_produced
IsDistinct-with_produced a produced gs d = elim (Bool-cases (named produced gs)) [
  | inl e ↦ rw e (IsDistinct-renewed_if a.strict a produced gs d)
  | inr e ↦ rw e (IsDistinct-append _ gs e d)
]

IsDistinct-taint :
    (through : Option String) (c : Chain)
    → IsDistinct c.generations
    → IsDistinct (taint through c).generations
unfolding move_taint
IsDistinct-taint none c d = d
IsDistinct-taint (some t) c d =
    elim (Bool-cases (not (is_some c.tainted_through) || not (taint_blocks c t))) [
      | inl e ↦ rw e d
      | inr e ↦ rw e d
    ]

IsDistinct-commit_named :
    (a : Commit) (produced : Option String) (c : Chain)
    → IsDistinct c.generations
    → IsDistinct (commit_named a produced c).generations
unfolding commit_named
IsDistinct-commit_named a none c d = IsDistinct-taint c.head c d
IsDistinct-commit_named a (some produced) c d = IsDistinct-with_produced a produced c.generations d

IsDistinct-adopt :
    (required : String) (c : Chain)
    → IsDistinct c.generations
    → IsDistinct (adopt required c).generations
IsDistinct-adopt required c d = elim (Bool-cases (is_some c.head)) [
  | inl e ↦ rw e d
  | inr e ↦ rw e d
]

mutate-HasDistinct :
    (x : Mutation) (chain : Option Chain) → HasDistinct chain → HasDistinct (mutate x chain)
unfolding mutate
mutate-HasDistinct (recorded t) none d = tt
mutate-HasDistinct (recorded t) (some c) d = IsDistinct-record_generation t c d
mutate-HasDistinct (marked st path marker) none d = tt
mutate-HasDistinct (marked st path marker) (some c) d = d
mutate-HasDistinct (adopted required) none d = tt
mutate-HasDistinct (adopted required) (some c) d = IsDistinct-adopt required c d
mutate-HasDistinct (committing a) none d =
    IsDistinct-commit_named a a.produced (located a.stat (or_new none a.stat a.path)) tt
mutate-HasDistinct (committing a) (some c) d =
    IsDistinct-commit_named a a.produced (located a.stat c) d
mutate-HasDistinct (tainting through) none d = tt
mutate-HasDistinct (tainting through) (some c) d = IsDistinct-taint through c d
mutate-HasDistinct cleared none d = tt
mutate-HasDistinct cleared (some c) d = d

-- From a path without a chain, or a chain whose generations have distinct names, any sequence of
-- these updates leaves distinct names: recording a state, marking, adopting a head, committing,
-- tainting and clearing the marker.
pub mutations-HasDistinct :
    (xs : List Mutation) (chain : Option Chain)
    → HasDistinct chain
    → HasDistinct (mutations xs chain)
unfolding mutations
mutations-HasDistinct [] chain d = d
mutations-HasDistinct (x ∷ xs) chain d =
    mutations-HasDistinct xs (mutate x chain) (mutate-HasDistinct x chain d)
