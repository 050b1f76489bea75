-- ===== src/Resources.antt =====
-- src/shinobi/resources.py
pub mod Floats
pub mod Budget
pub mod Limits
use stimela_ninja.Prelude.{◌≡◌, arith, ℕ, Bool, ◌&&◌, false, true, Option, none, some}
use stimela_ninja.Resources.Floats.{Float}

-- The `cpus` of a declared footprint: the literal "all" or a number of units.
pub data Cpus : Type 0 where
  all : Cpus
  cores : Float → Cpus

-- A declared footprint; `none` is undeclared.
pub record Resources : Type 0 where
  pub cpus : Option Cpus
  pub memory : Option ℕ

-- A footprint with no "all": a pool's totals, or a footprint resolved against them.
pub record Amounts : Type 0 where
  pub cpus : Option Float
  pub memory : Option ℕ

abbrev pub is_none {ℓ} : {A : Type ℓ} → Option A → Bool
is_none none = true
is_none (some a) = false

pub is_empty : Amounts → Bool
is_empty r = is_none r.cpus && is_none r.memory

pub declares_nothing : Resources → Bool
declares_nothing r = is_none r.cpus && is_none r.memory

abbrev resolved_cpus : Option Cpus → Option Float → Option Float
resolved_cpus none total = none
resolved_cpus (some all) total = total
resolved_cpus (some (cores n)) total = some n

pub resolved_against : Resources → Amounts → Amounts
resolved_against r total = record { cpus = resolved_cpus r.cpus total.cpus; memory = r.memory }

-- What a backend can cap a step at: "all" is no limit.
pub enforceable_cpus : Resources → Option Float
enforceable_cpus r = elim r.cpus [ none ↦ none | some c ↦ elim c [ all ↦ none | cores n ↦ some n ] ]

-- A core count that a backend caps a step at is the one that the pool is asked for.
pub resolved-enforceable :
    (r : Resources) (total : Amounts) (n : ℕ)
    → enforceable_cpus r ≡ some n
    → (resolved_against r total).cpus ≡ some n
unfolding enforceable_cpus resolved_against
resolved-enforceable r total n h = ground arith
