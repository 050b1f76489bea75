-- ===== src/Resources/Limits.antt =====
-- `_walk_limits` of src/shinobi/resources.py: the tightest limit on the way from the root of the
-- cgroups to the own one. `read` is the first line of the limit file of a level.
mod Tightest
mod Samples
use stimela_ninja.Prelude.{
  ℕ, String, Bool, Option, none, some, List, [], ◌∷◌, map, leb, if◌then◌else◌,
}

-- What `parse` makes of a line: a limit, no constraint at this level, or an exception.
pub data Limit : Type 0 where
  limit : ℕ → Limit
  unconstrained unreadable : Limit

-- `components[:depth]` for every depth, from the root on.
unfoldable pub levels : List String → List (List String)
levels [] = [] ∷ []
levels (c ∷ cs) = [] ∷ map (λ level. c ∷ level) (levels cs)

-- An unreadable file, an exception and no constraint all leave the level out.
abbrev pub limit_of : (String → Limit) → Option String → Option ℕ
limit_of parse none = none
limit_of parse (some raw) = elim (parse raw) [
  | limit n ↦ some n
  | unconstrained ↦ none
  | unreadable ↦ none
]

unfoldable pub limits :
    (List String → Option String) → (String → Limit) → List (List String) → List ℕ
limits read parse [] = []
limits read parse (level ∷ rest) = elim (limit_of parse (read level)) [
  | none ↦ limits read parse rest
  | some n ↦ n ∷ limits read parse rest
]

-- `min(limits) if limits else None`
unfoldable pub tightest : List ℕ → Option ℕ
tightest [] = none
tightest (n ∷ ns) = elim (tightest ns) [
  | none ↦ some n
  | some m ↦ if leb n m then some n else some m
]

unfoldable pub walk_limits :
    (List String → Option String) → (String → Limit) → List String → Option ℕ
walk_limits read parse components = tightest (limits read parse (levels components))
