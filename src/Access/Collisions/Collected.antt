-- ===== src/Access/Collisions/Collected.antt =====
-- The groups that all claims of the slices make: each claim is told, and only what is claimed.
use stimela_ninja.Prelude.{
  ◌≡◌, refl, arith, subst, sym, ℕ, suc, Bool, true, ◌&&◌, ◌||◌, List, [], ◌∷◌, ◌++◌, In, any, all,
  inl, inr, ◌⊎◌,
}
use stimela_ninja.Access.{paths_overlap}
use stimela_ninja.Access.Paths.{path_eq_refl}
use stimela_ninja.Access.Collisions.{Group, Claimed, record_claim, record_claims, groups_from}
use stimela_ninja.Access.Collisions.Groups.{
  Owned, owner, path_of, writes, tells, is_few, claimed, meant, is_few-record_claim,
  tells-record_claim, record_claim_keeps, meant-record_claim,
}

abbrev pub tagged : ℕ → List Claimed → List Owned
tagged i [] = []
tagged i (claim ∷ claims) = (i, claim) ∷ tagged i claims

-- All claims of the slices from an index on, each with its slice.
abbrev pub owned_from : ℕ → List (List Claimed) → List Owned
owned_from i [] = []
owned_from i (claims ∷ slices) = tagged i claims ++ owned_from (suc i) slices

abbrev pub owned : List (List Claimed) → List Owned
owned slices = owned_from 0 slices

-- Two claims of one path or of a path in the other, of which one writes.
abbrev pub collide : Owned → Owned → Bool
collide x y = paths_overlap (path_of x) (path_of y) && (writes x || writes y)

In-append : (x : Owned) (xs ys : List Owned) → In x (xs ++ ys) → In x xs ⊎ In x ys
In-append x [] ys i = inr i
In-append x (y ∷ xs) ys (inl q) = inl (inl q)
In-append x (y ∷ xs) ys (inr i) = elim (In-append x xs ys i) [ inl j ↦ inl (inr j) | inr j ↦ inr j ]

is_few-record_claims :
    (n : ℕ) (cs : List Claimed) (gs : List Group)
    → all is_few gs ≡ true
    → all is_few (record_claims n cs gs) ≡ true
unfolding record_claims
is_few-record_claims n [] gs h = h
is_few-record_claims n ((p, w) ∷ cs) gs h =
    is_few-record_claims n cs (record_claim n (p, w) gs) (is_few-record_claim n p w gs h)

pub is_few-groups_from :
    (i : ℕ) (slices : List (List Claimed)) (gs : List Group)
    → all is_few gs ≡ true
    → all is_few (groups_from i slices gs) ≡ true
unfolding groups_from
is_few-groups_from i [] gs h = h
is_few-groups_from i (cs ∷ slices) gs h =
    is_few-groups_from (suc i) slices (record_claims i cs gs) (is_few-record_claims i cs gs h)

record_claims_keeps :
    (x : Owned) (n : ℕ) (cs : List Claimed) (gs : List Group)
    → all is_few gs ≡ true
    → any (tells x) gs ≡ true
    → any (tells x) (record_claims n cs gs) ≡ true
unfolding record_claims
record_claims_keeps x n [] gs h e = e
record_claims_keeps x n ((p, w) ∷ cs) gs h e =
    record_claims_keeps x n cs (record_claim n (p, w) gs) (is_few-record_claim n p w gs h)
      (record_claim_keeps x n p w gs h e)

groups_from_keeps :
    (x : Owned) (i : ℕ) (slices : List (List Claimed)) (gs : List Group)
    → all is_few gs ≡ true
    → any (tells x) gs ≡ true
    → any (tells x) (groups_from i slices gs) ≡ true
unfolding groups_from
groups_from_keeps x i [] gs h e = e
groups_from_keeps x i (cs ∷ slices) gs h e =
    groups_from_keeps x (suc i) slices (record_claims i cs gs) (is_few-record_claims i cs gs h)
      (record_claims_keeps x i cs gs h e)

tells-record_claims :
    (x : Owned) (n : ℕ) (cs : List Claimed) (gs : List Group)
    → all is_few gs ≡ true
    → In x (tagged n cs)
    → any (tells x) (record_claims n cs gs) ≡ true
unfolding record_claims
tells-record_claims x n [] gs h i = ground (arith, i)
tells-record_claims x n ((p, w) ∷ cs) gs h (inl q) =
    subst (λ y. any (tells y) (record_claims n cs (record_claim n (p, w) gs)) ≡ true) (sym q)
      (record_claims_keeps (n, (p, w)) n cs (record_claim n (p, w) gs)
        (is_few-record_claim n p w gs h) (tells-record_claim n p w gs h (path_eq_refl p)))
tells-record_claims x n ((p, w) ∷ cs) gs h (inr i) =
    tells-record_claims x n cs (record_claim n (p, w) gs) (is_few-record_claim n p w gs h) i

pub tells-groups_from :
    (x : Owned) (i : ℕ) (slices : List (List Claimed)) (gs : List Group)
    → all is_few gs ≡ true
    → In x (owned_from i slices)
    → any (tells x) (groups_from i slices gs) ≡ true
unfolding groups_from
tells-groups_from x i [] gs h j = ground (arith, j)
tells-groups_from x i (cs ∷ slices) gs h j =
    elim (In-append x (tagged i cs) (owned_from (suc i) slices) j) [
      | inl k ↦
          groups_from_keeps x (suc i) slices (record_claims i cs gs)
            (is_few-record_claims i cs gs h) (tells-record_claims x i cs gs h k)
      | inr k ↦
          tells-groups_from x (suc i) slices (record_claims i cs gs)
            (is_few-record_claims i cs gs h) k
    ]

module _ (xs : List Owned) where
  abbrev pub is_claimed : Owned → Bool
  is_claimed x = claimed xs (path_of x) (writes x) (owner x)

  meant-record_claims :
      (n : ℕ) (cs : List Claimed) (gs : List Group)
      → all is_claimed (tagged n cs) ≡ true
      → all (meant xs) gs ≡ true
      → all (meant xs) (record_claims n cs gs) ≡ true
  unfolding record_claims
  meant-record_claims n [] gs c h = h
  meant-record_claims n ((p, w) ∷ cs) gs c h =
      meant-record_claims n cs (record_claim n (p, w) gs) (ground (arith, c))
        (meant-record_claim xs n p w gs (ground (arith, c)) h)

  all-append :
      (as_ bs : List Owned) → all is_claimed (as_ ++ bs) ≡ (all is_claimed as_ && all is_claimed bs)
  all-append [] bs = refl
  all-append (a ∷ as_) bs = ground (arith, all-append as_ bs)

  pub meant-groups_from :
      (i : ℕ) (slices : List (List Claimed)) (gs : List Group)
      → all is_claimed (owned_from i slices) ≡ true
      → all (meant xs) gs ≡ true
      → all (meant xs) (groups_from i slices gs) ≡ true
  unfolding groups_from
  meant-groups_from i [] gs c h = h
  meant-groups_from i (cs ∷ slices) gs c h =
      let split = all-append (tagged i cs) (owned_from (suc i) slices) in
      meant-groups_from (suc i) slices (record_claims i cs gs) (ground (arith, c, split))
        (meant-record_claims i cs gs (ground (arith, c, split)) h)

is_claimed_more :
    (y : Owned) (xs : List Owned) (x : Owned)
    → is_claimed xs x ≡ true
    → is_claimed (y ∷ xs) x ≡ true
is_claimed_more y xs x e = ground (arith, e)

all-is_claimed_more :
    (y : Owned) (xs ys : List Owned)
    → all (is_claimed xs) ys ≡ true
    → all (is_claimed (y ∷ xs)) ys ≡ true
all-is_claimed_more y xs [] e = refl
all-is_claimed_more y xs (x ∷ ys) e =
    ground (arith, e, all-is_claimed_more y xs ys, is_claimed_more y xs x)

-- Every claim is among the claims.
pub all-is_claimed : (xs : List Owned) → all (is_claimed xs) xs ≡ true
all-is_claimed [] = refl
all-is_claimed (x ∷ xs) =
    ground (arith, path_eq_refl (path_of x), all-is_claimed_more x xs xs (all-is_claimed xs))
