-- ===== src/Snapshots/Reuse/Walk.antt =====
-- The loop over the parents ends, and follows the parents.
use stimela_ninja.Prelude.{
  ℕ, zero, suc, ◌<◌, ◌≤◌, String, Bool, true, false, some, List, [], ◌∷◌, is_some, length,
  if◌then◌else◌, ◌≡◌, arith, ap, Bool-cases, Option-cases, some_inj, inl, inr,
}
use stimela_ninja.Snapshots.{Generation, named}
use stimela_ninja.Snapshots.Evict.{has}
use stimela_ninja.Snapshots.Reuse.{generation, parent_in, walk, descended}
use text.Mathlib.Text.{◌==◌}
use text.Mathlib.TextEquality.{eq_iff}

-- A state is the produced one, or its recorded parent descends from it.
pub data Descends (gs : List Generation) (produced : String) : Generation → Type 0 where
  itself : (g : Generation) → g.name ≡ produced → Descends gs produced g
  from_parent :
      (g p : Generation) → parent_in gs g ≡ some p → Descends gs produced p → Descends gs produced g

walk-Descends :
    (fuel : ℕ) (gs : List Generation) (produced : String) (g : Generation) (seen : List String)
    → walk fuel gs produced (some g) seen ≡ some true
    → Descends gs produced g
unfolding walk
walk-Descends zero gs produced g seen e = ground (arith, e)
walk-Descends (suc fuel) gs produced g seen e = elim (Bool-cases (g.name == produced)) [
  | inl h ↦ itself g ((eq_iff g.name produced).0 h)
  | inr h ↦ elim (Option-cases (parent_in gs g)) [
    | inl n ↦ ground (arith, e, h, ap (λ o. walk fuel gs produced o (g.name ∷ seen)) n)
    | inr (p, n) ↦ from_parent g p n (
        walk-Descends fuel gs produced p (g.name ∷ seen)
          (ground (arith, e, h, ap (λ o. walk fuel gs produced o (g.name ∷ seen)) n)))
  ]
]

pub descended-Descends :
    (gs : List Generation) (produced : String) (head : Generation)
    → descended gs produced head ≡ some true
    → Descends gs produced head
descended-Descends gs produced head e = walk-Descends (suc (length gs)) gs produced head [] e

-- How many generations have a name that was not seen.
unseen : List String → List Generation → ℕ
unseen seen [] = 0
unseen seen (g ∷ gs) = if has g.name seen then unseen seen gs else suc (unseen seen gs)

unseen-≤ :
    (n : String) (seen : List String) (gs : List Generation) → unseen (n ∷ seen) gs ≤ unseen seen gs
unfolding unseen
unseen-≤ n seen [] = omega arith
unseen-≤ n seen (g ∷ gs) = ground (arith, unseen-≤ n seen gs)

unseen-< :
    (n : String) (seen : List String) (gs : List Generation)
    → named n gs ≡ true
    → has n seen ≡ false
    → unseen (n ∷ seen) gs < unseen seen gs
unfolding unseen
unseen-< n seen [] h k = ground (arith, h)
unseen-< n seen (g ∷ gs) h k = ground (
  arith,
  h,
  k,
  unseen-≤ n seen gs,
  unseen-< n seen gs,
  eq_iff g.name n,
  eq_iff n g.name,
  λ (e : g.name ≡ n). ap (λ m. has m seen) e,
)

unseen-length : (gs : List Generation) → unseen [] gs ≤ length gs
unfolding unseen
unseen-length [] = omega arith
unseen-length (g ∷ gs) = ground (arith, unseen-length gs)

pub generation-named :
    (n : String) (gs : List Generation) (g : Generation)
    → generation n gs ≡ some g
    → named g.name gs ≡ true
unfolding generation
generation-named n [] g e = ground (arith, e)
generation-named n (x ∷ gs) g e = elim (Bool-cases (x.name == n)) [
  | inl h ↦
      let same : x ≡ g = some_inj x g (rw (h, generation) at e) in
      ground (arith, eq_iff x.name g.name, ap (λ y. y.name) same)
  | inr h ↦ ground (arith, generation-named n gs g (rw (h, generation) at e))
]

parent_in-named :
    (gs : List Generation) (g p : Generation) → parent_in gs g ≡ some p → named p.name gs ≡ true
parent_in-named gs g p e = elim (Option-cases g.parent) [
  | inl h ↦ ground (arith, rw h at e)
  | inr (n, h) ↦ generation-named n gs p (rw h at e)
]

walk-some :
    (fuel : ℕ) (gs : List Generation) (produced : String) (g : Generation) (seen : List String)
    → named g.name gs ≡ true
    → unseen seen gs < fuel
    → is_some (walk fuel gs produced (some g) seen) ≡ true
unfolding walk
walk-some zero gs produced g seen h k = absurd (omega (arith, k))
walk-some (suc fuel) gs produced g seen h k = elim (Bool-cases (has g.name seen)) [
  | inl e ↦ ground (arith, e)
  | inr e ↦ elim (Option-cases (parent_in gs g)) [
    | inl n ↦ ground (arith, ap (λ o. is_some (walk fuel gs produced o (g.name ∷ seen))) n)
    | inr (p, n) ↦
        let further =
          walk-some fuel gs produced p (g.name ∷ seen) (parent_in-named gs g p n)
            (omega (arith, unseen-< g.name seen gs h e, k)) in
        ground (arith, further, ap (λ o. is_some (walk fuel gs produced o (g.name ∷ seen))) n)
  ]
]

-- The loop over the parents of a generation of the chain ends within one round more than the
-- chain has generations, also where the parents form a cycle.
pub descended_ends :
    (n : String) (gs : List Generation) (produced : String) (head : Generation)
    → generation n gs ≡ some head
    → (answer : Bool) × (descended gs produced head ≡ some answer)
descended_ends n gs produced head e = elim (Option-cases (descended gs produced head)) [
  | inl h ↦
      let ends =
        walk-some (suc (length gs)) gs produced head [] (generation-named n gs head e)
          (omega (arith, unseen-length gs)) in
      absurd (ground (arith, ends, h))
  | inr a ↦ a
]
