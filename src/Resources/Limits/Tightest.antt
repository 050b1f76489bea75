-- ===== src/Resources/Limits/Tightest.antt =====
-- The limit that is found is the tightest of all levels.
use stimela_ninja.Prelude.{
  ℕ, ◌≤◌, String, Option, some, List, [], ◌∷◌, ◌++◌, map, leb, if◌then◌else◌, In, inl, inr, ◌≡◌,
  refl, sym, ap, ◌∙◌, arith, Option-cases, Bool-cases, some_inj,
}
use stimela_ninja.Resources.Limits.{Limit, levels, limit_of, limits, tightest, walk_limits}

-- Every beginning of the components is a level.
In-levels : (level rest : List String) → In level (levels (level ++ rest))
unfolding levels
In-levels [] [] = inl refl
In-levels [] (c ∷ rest) = inl refl
In-levels (c ∷ level) rest = inr (In-map level (levels (level ++ rest)) (In-levels level rest))
  where
    In-map :
        (x : List String) (xs : List (List String)) → In x xs → In (c ∷ x) (map (λ l. c ∷ l) xs)
    In-map x [] i = i
    In-map x (y ∷ xs) (inl e) = inl (ap (λ l. c ∷ l) e)
    In-map x (y ∷ xs) (inr i) = inr (In-map x xs i)

In-limits :
    (read : List String → Option String) (parse : String → Limit) (level : List String)
    (all : List (List String)) (n : ℕ)
    → In level all
    → limit_of parse (read level) ≡ some n
    → In n (limits read parse all)
unfolding limits
In-limits read parse level [] n i e = absurd (i tt)
In-limits read parse level (l ∷ all) n (inl h) e =
    let here : limit_of parse (read l) ≡ some n = ap (λ x. limit_of parse (read x)) (sym h) ∙ e in
    rw (here, In) (inl refl)
In-limits read parse level (l ∷ all) n (inr i) e = elim (Option-cases (limit_of parse (read l))) [
  | inl o ↦ rw (o, In) (In-limits read parse level all n i e)
  | inr (m, o) ↦ rw (o, In) (inr (In-limits read parse level all n i e))
]

tightest-≤ : (n : ℕ) (ns : List ℕ) → In n ns → (m : ℕ) × (tightest ns ≡ some m) × (m ≤ n)
unfolding tightest
tightest-≤ n [] i = absurd (i tt)
tightest-≤ n (k ∷ ns) (inl e) = elim (Option-cases (tightest ns)) [
  | inl o ↦ (k, ground (arith, o), omega (arith, e))
  | inr (m, o) ↦ (if leb k m then k else m, ground (arith, o), ground (arith, e))
]
tightest-≤ n (k ∷ ns) (inr i) =
    let (m, o, h) = tightest-≤ n ns i in
    (if leb k m then k else m, ground (arith, o), ground (arith, h))

In-tightest : (ns : List ℕ) (m : ℕ) → tightest ns ≡ some m → In m ns
unfolding tightest
In-tightest [] m e = ground (arith, e)
In-tightest (k ∷ ns) m e = elim (Option-cases (tightest ns)) [
  | inl o ↦ inl (sym (some_inj k m (rw (o, tightest) at e)))
  | inr (j, o) ↦ elim (Bool-cases (leb k j)) [
    | inl b ↦ inl (ground (arith, e, o, b))
    | inr b ↦ inr (In-tightest ns m (ground (arith, e, o, b)))
  ]
]

-- When some level on the way to the own cgroup has a limit, the walk finds a limit, which is no
-- larger and is among the limits that the levels have.
pub walk_limits_tightest :
    (read : List String → Option String) (parse : String → Limit) (level rest : List String) (n : ℕ)
    → limit_of parse (read level) ≡ some n
    → (m : ℕ) × (walk_limits read parse (level ++ rest) ≡ some m)
      × (m ≤ n)
      × In m (limits read parse (levels (level ++ rest)))
unfolding walk_limits
walk_limits_tightest read parse level rest n e =
    let found = limits read parse (levels (level ++ rest)) in
    let (m, o, h) =
      tightest-≤ n found
        (In-limits read parse level (levels (level ++ rest)) n (In-levels level rest) e) in
    (m, o, h, In-tightest found m o)
