-- ===== src/Access/Collisions/Raised.antt =====
-- An error of the scan comes from two groups of which one lies in the other.
use stimela_ninja.Prelude.{
  ◌≡◌, arith, Option, none, some, List, [], ◌∷◌, All, inl, inr, ◌⊎◌, Bool-cases,
}
use stimela_ninja.Access.{Parts, is_relative_to}
use stimela_ninja.Access.Collisions.{Group, Pair, ◌or◌, conflict, unwind, against, scan}
use stimela_ninja.Access.Collisions.Order.{is_relative_to_refl}
use stimela_ninja.Access.Collisions.Scan.{LiesIn, IsChain, unwind-IsChain, unwind-LiesIn}

pub or_some : (o p : Option Pair) (e : Pair) → (o or p) ≡ some e → (o ≡ some e) ⊎ (p ≡ some e)
or_some none p e h = inr h
or_some (some x) p e h = inl h

-- The groups `h` and `a` raise the error.
abbrev pub IsRaised : Pair → Group → Group → Type 0
IsRaised e h a = (conflict h.writers a.owners ≡ some e) ⊎ (conflict a.writers h.owners ≡ some e)

-- What holds of every group holds of the two.
module _ (P : Group → Type 0) where
  abbrev pub Culprits : Pair → Type 0
  Culprits e = (h : Group) × (a : Group) × P h × P a × LiesIn h a × IsRaised e h a

  against-Culprits :
      (g : Group) (stack : List Group) (e : Pair)
      → against g stack ≡ some e
      → P g
      → All P stack
      → All (LiesIn g) stack
      → Culprits e
  unfolding against
  against-Culprits g [] e h p ps ls = ground (arith, h)
  against-Culprits g (a ∷ stack) e h p (pa, ps) (l, ls) = elim (or_some (against g stack) _ e h) [
    | inl q ↦ against-Culprits g stack e q p ps ls
    | inr q ↦ (g, a, p, pa, l, or_some (conflict g.writers a.owners) _ e q)
  ]

  All-unwind : (path : Parts) (stack : List Group) → All P stack → All P (unwind path stack)
  unfolding unwind
  All-unwind path [] ps = tt
  All-unwind path (a ∷ stack) (p, ps) = elim (Bool-cases (is_relative_to path a.path)) [
    | inl e ↦ rw e (p, ps)
    | inr e ↦ rw e (All-unwind path stack ps)
  ]

  pub scan-Culprits :
      (stack gs : List Group) (e : Pair)
      → scan stack gs ≡ some e
      → IsChain stack
      → All P stack
      → All P gs
      → Culprits e
  unfolding scan
  scan-Culprits stack [] e h c ps qs = ground (arith, h)
  scan-Culprits stack (g ∷ gs) e h c ps (q, qs) =
      elim (or_some (conflict g.writers g.owners) _ e h) [
        | inl o ↦ (g, g, q, q, is_relative_to_refl g.path, inl o)
        | inr o ↦ elim (or_some (against g (unwind g.path stack)) _ e o) [
          | inl r ↦
              against-Culprits g (unwind g.path stack) e r q (All-unwind g.path stack ps)
                (unwind-LiesIn g stack c)
          | inr r ↦
              scan-Culprits (g ∷ unwind g.path stack) gs e r
                (unwind-LiesIn g stack c, unwind-IsChain g.path stack c)
                (q, All-unwind g.path stack ps) qs
        ]
      ]
