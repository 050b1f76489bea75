-- ===== src/Access/Collisions/Checked.antt =====
-- The check of a scatter against the comparison of every two claims of its slices.
use stimela_ninja.Prelude.{
  ◌≡◌, refl, arith, subst, sym, ℕ, Bool, true, false, ◌&&◌, ◌||◌, none, some, List, [], ◌∷◌, In,
  All, any, all, ltb, nat_eq, Bool-cases, inl, inr,
}
use stimela_ninja.Access.{Parts, path_eq, is_relative_to, paths_overlap}
use stimela_ninja.Access.Paths.{path_eq_lem}
use stimela_ninja.Access.Collisions.{
  Group, Pair, Claimed, conflict, groups_from, by_parts, validate_scatter_collisions,
}
use stimela_ninja.Access.Collisions.Order.{
  by_parts-IsOrdered, any-by_parts, all-by_parts, is_relative_to_refl,
}
use stimela_ninja.Access.Collisions.Groups.{
  Owned, owner, path_of, writes, tells, is_few, matches, claimed, meant, has, conflict-none,
  conflict-some,
}
use stimela_ninja.Access.Collisions.Collected.{
  owned, collide, is_few-groups_from, tells-groups_from, meant-groups_from, all-is_claimed,
}
use stimela_ninja.Access.Collisions.Scan.{LiesIn, IsQuiet, IsScanning, scan-IsQuiet}
use stimela_ninja.Access.Collisions.Raised.{scan-Culprits}

any-found :
    (f : Group → Bool) (gs : List Group) → any f gs ≡ true → (g : Group) × In g gs × (f g ≡ true)
any-found f [] e = ground (arith, e)
any-found f (g ∷ gs) e = elim (Bool-cases (f g)) [
  | inl h ↦ (g, inl refl, h)
  | inr h ↦ let (a, i, k) = any-found f gs (ground (arith, e, h)) in (a, inr i, k)
]

all-In : (f : Group → Bool) (gs : List Group) (g : Group) → all f gs ≡ true → In g gs → f g ≡ true
all-In f [] g e i = ground (arith, i)
all-In f (a ∷ gs) g e (inl q) = subst (λ x. f x ≡ true) (sym q) (ground (arith, e))
all-In f (a ∷ gs) g e (inr i) = all-In f gs g (ground (arith, e)) i

-- Two claims of quiet groups are of one slice, when the first writes.
quiet_writer :
    (x y : Owned) (g h : Group)
    → conflict g.writers h.owners ≡ none
    → is_few g ≡ true
    → is_few h ≡ true
    → tells x g ≡ true
    → tells y h ≡ true
    → writes x ≡ true
    → owner x ≡ owner y
quiet_writer x y g h e k l a b w =
    conflict-none (owner x) (owner y) g.writers h.owners e (ground (arith, k)) (ground (arith, l))
      (ground (arith, a, w)) (ground (arith, b))

quiet_pair :
    (x y : Owned) (g h : Group)
    → IsQuiet g h
    → is_few g ≡ true
    → is_few h ≡ true
    → tells x g ≡ true
    → tells y h ≡ true
    → nat_eq (owner x) (owner y) ≡ false
    → (writes x || writes y) ≡ false
quiet_pair x y g h (p, q) k l a b d =
    ground (arith, d, quiet_writer x y g h p k l a b, quiet_writer y x h g q l k b a)

abbrev sorted_groups : List (List Claimed) → List Group
sorted_groups slices = by_parts (groups_from 0 slices [])

scanned : (slices : List (List Claimed)) → IsScanning [] (sorted_groups slices)
scanned slices = record {
  chain = tt;
  ordered = by_parts-IsOrdered (groups_from 0 slices []);
  behind = tt;
}

-- Where the path of `y` lies in the path of `x`.
free_below :
    (slices : List (List Claimed)) (x y : Owned) (g h : Group)
    → validate_scatter_collisions slices ≡ none
    → In g (sorted_groups slices)
    → In h (sorted_groups slices)
    → tells x g ≡ true
    → tells y h ≡ true
    → is_relative_to (path_of y) (path_of x) ≡ true
    → nat_eq (owner y) (owner x) ≡ false
    → (writes y || writes x) ≡ false
unfolding validate_scatter_collisions
free_below slices x y g h e i j a b r d =
    let few_groups : all is_few (sorted_groups slices) ≡ true =
      rw (all-by_parts is_few (groups_from 0 slices [])) (is_few-groups_from 0 slices [] refl) in
    let p = path_eq_lem g.path (path_of x) (ground (arith, a)) in
    let q = path_eq_lem h.path (path_of y) (ground (arith, b)) in
    let lies : LiesIn h g = rw (p, q) r in
    quiet_pair y x h g (scan-IsQuiet [] (sorted_groups slices) g h (scanned slices) e i j lies)
      (all-In is_few (sorted_groups slices) h few_groups j)
      (all-In is_few (sorted_groups slices) g few_groups i) b a d

told :
    (slices : List (List Claimed)) (x : Owned)
    → In x (owned slices)
    → (g : Group) × In g (sorted_groups slices) × (tells x g ≡ true)
told slices x i =
    any-found (tells x) (sorted_groups slices) (
      rw (any-by_parts (tells x) (groups_from 0 slices []))
        (tells-groups_from x 0 slices [] refl i))

apart :
    (p q : Parts)
    → is_relative_to p q ≡ false
    → is_relative_to q p ≡ false
    → paths_overlap p q ≡ false
unfolding paths_overlap
apart p q a b = elim (Bool-cases (path_eq p q)) [
  | inl e ↦
      ground (
        arith,
        b,
        subst (λ r. is_relative_to r p ≡ true) (path_eq_lem p q e) (is_relative_to_refl p),
      )
  | inr e ↦ ground (arith, e, a, b)
]

-- When a scatter is accepted, no two claims of different slices collide: they are not of one path,
-- nor is one of a path inside the other's, unless both only read.
pub accepted_apart :
    (slices : List (List Claimed)) (x y : Owned)
    → validate_scatter_collisions slices ≡ none
    → In x (owned slices)
    → In y (owned slices)
    → nat_eq (owner x) (owner y) ≡ false
    → collide x y ≡ false
accepted_apart slices x y e i j d =
    let (g, gi, a) = told slices x i in
    let (h, hi, b) = told slices y j in
    let d' : nat_eq (owner y) (owner x) ≡ false = ground (arith, d) in
    elim (Bool-cases (is_relative_to (path_of y) (path_of x))) [
      | inl r ↦ ground (arith, free_below slices x y g h e gi hi a b r d')
      | inr r ↦ elim (Bool-cases (is_relative_to (path_of x) (path_of y))) [
        | inl s ↦ ground (arith, free_below slices y x h g e hi gi b a s d)
        | inr s ↦ ground (arith, apart (path_of x) (path_of y) s r)
      ]
    ]

-- What an error names: two claims of the two slices that collide.
abbrev pub HasCollision : List Owned → Pair → Type 0
HasCollision xs (i, j) =
    (x : Owned) × (y : Owned) × In x xs
    × In y xs
    × (owner x ≡ i)
    × (owner y ≡ j)
    × (collide x y ≡ true)

claim_found :
    (xs : List Owned) (p : Parts) (w : Bool) (n : ℕ)
    → claimed xs p w n ≡ true
    → (x : Owned) × In x xs × (matches n p w x ≡ true)
claim_found [] p w n e = ground (arith, e)
claim_found (x ∷ xs) p w n e = elim (Bool-cases (matches n p w x)) [
  | inl h ↦ (x, inl refl, h)
  | inr h ↦ let (y, i, k) = claim_found xs p w n (ground (arith, e, h)) in (y, inr i, k)
]

all-has : (f : ℕ → Bool) (n : ℕ) (ms : List ℕ) → all f ms ≡ true → has n ms ≡ true → f n ≡ true
all-has f n [] e h = ground (arith, h)
all-has f n (m ∷ ms) e h = ground (arith, e, h, all-has f n ms)

both_claimed :
    (xs : List Owned) (p q : Parts) (w v : Bool) (i j : ℕ)
    → claimed xs p w i ≡ true
    → claimed xs q v j ≡ true
    → paths_overlap p q ≡ true
    → (w || v) ≡ true
    → HasCollision xs (i, j)
both_claimed xs p q w v i j a b r o =
    let (x, xi, k) = claim_found xs p w i a in
    let (y, yi, l) = claim_found xs q v j b in
    let overlap : paths_overlap (path_of x) (path_of y) ≡ true =
      rw
        (
          path_eq_lem (path_of x) p (ground (arith, k)),
          path_eq_lem (path_of y) q (ground (arith, l)),
        )
        r in
    (x, y, xi, yi, ground (arith, k), ground (arith, l), ground (arith, k, l, o, overlap))

lies_in_overlap :
    (p q : Parts)
    → is_relative_to p q ≡ true
    → (paths_overlap p q ≡ true) × (paths_overlap q p ≡ true)
unfolding paths_overlap
lies_in_overlap p q r = (ground (arith, r), ground (arith, r))

conflict-HasCollision :
    (xs : List Owned) (u v : Group) (i j : ℕ)
    → conflict u.writers v.owners ≡ some (i, j)
    → meant xs u ≡ true
    → meant xs v ≡ true
    → paths_overlap u.path v.path ≡ true
    → paths_overlap v.path u.path ≡ true
    → (ltb i j ≡ true) × HasCollision xs (i, j)
conflict-HasCollision xs u v i j e mu mv o o' =
    let named = conflict-some i j u.writers v.owners e in
    let wrote = λ (n : ℕ). all-has (claimed xs u.path true) n u.writers (ground (arith, mu)) in
    let owned_by = λ (n : ℕ). all-has (claimed xs v.path false) n v.owners (ground (arith, mv)) in
    (
      ground (arith, named),
      elim (Bool-cases (has i u.writers && has j v.owners)) [
        | inl h ↦
            both_claimed xs u.path v.path true false i j (wrote i (ground (arith, h)))
              (owned_by j (ground (arith, h))) o refl
        | inr h ↦
            both_claimed xs v.path u.path false true i j (owned_by i (ground (arith, h, named)))
              (wrote j (ground (arith, h, named))) o' refl
      ],
    )

All-of : (f : Group → Bool) (gs : List Group) → all f gs ≡ true → All (λ g. f g ≡ true) gs
All-of f [] e = tt
All-of f (g ∷ gs) e = (ground (arith, e), All-of f gs (ground (arith, e)))

-- When a scatter is refused, the error names two slices, the smaller first, that have claims which
-- collide.
pub refused_collision :
    (slices : List (List Claimed)) (i j : ℕ)
    → validate_scatter_collisions slices ≡ some (i, j)
    → (ltb i j ≡ true) × HasCollision (owned slices) (i, j)
unfolding validate_scatter_collisions
refused_collision slices i j e =
    let xs = owned slices in
    let groups = groups_from 0 slices [] in
    let kept = meant-groups_from xs 0 slices [] (all-is_claimed xs) refl in
    let kept_sorted : all (meant xs) (by_parts groups) ≡ true =
      rw (all-by_parts (meant xs) groups) kept in
    let (h, a, mh, ma, r, raised) =
      scan-Culprits (λ g. meant xs g ≡ true) [] (by_parts groups) (i, j) e tt tt
        (All-of (meant xs) (by_parts groups) kept_sorted) in
    let (o, o') = lies_in_overlap h.path a.path r in
    elim raised [
      | inl c ↦ conflict-HasCollision xs h a i j c mh ma o o'
      | inr c ↦ conflict-HasCollision xs a h i j c ma mh o' o
    ]
