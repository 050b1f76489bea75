-- ===== src/Resources/Limits/Samples.antt =====
-- A quota that stands above the own cgroup.
use stimela_ninja.Prelude.{
  ℕ, ◌≤◌, String, Option, none, some, List, [], ◌∷◌, ◌++◌, In, ◌≡◌, refl, if◌then◌else◌,
}
use stimela_ninja.Resources.Limits.{
  Limit, limit, unconstrained, unreadable, levels, limits, tightest, walk_limits,
}
use stimela_ninja.Resources.Limits.Tightest.{walk_limits_tightest}
use text.Mathlib.Text.{◌==◌}

-- The root has no limit file, the slice has a quota, the leaf has none.
abbrev read : List String → Option String
read [] = none
read (top ∷ []) = some "max"
read (top ∷ user ∷ []) = some "512"
read (top ∷ user ∷ scope ∷ rest) = some "max"

abbrev parse : String → Limit
parse raw = if raw == "max" then unconstrained else (if raw == "512" then limit 512 else unreadable)

program : Unit {0}
unfolding levels limits tightest walk_limits
program = tt

walk_runs :
    (walk_limits read parse ("user.slice" ∷ "user-1.slice" ∷ "run.scope" ∷ []) ≡ some 512)
    × (walk_limits read parse ("user.slice" ∷ []) ≡ none)
unfolding program
walk_runs = (refl, refl)

walk_limits_tightest_example :
    (m : ℕ) × (walk_limits read parse (("user.slice" ∷ "user-1.slice" ∷ []) ++ ("run.scope" ∷ []))
      ≡ some m)
    × (m ≤ 512)
    × In m (limits read parse (levels (("user.slice" ∷ "user-1.slice" ∷ []) ++ ("run.scope" ∷ []))))
walk_limits_tightest_example =
    walk_limits_tightest read parse ("user.slice" ∷ "user-1.slice" ∷ []) ("run.scope" ∷ []) 512 refl
