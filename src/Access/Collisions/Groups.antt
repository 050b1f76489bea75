-- ===== src/Access/Collisions/Groups.antt =====
-- What the groups keep of the claims: two slices of a path are enough to find a conflict.
use stimela_ninja.Prelude.{
  ◌≡◌, refl, arith, ℕ, Bool, true, false, not, ◌&&◌, ◌||◌, none, some, List, [], ◌∷◌, any, all,
  length, ltb, nat_eq, Bool-cases, inl, inr, subst, sym,
}
use stimela_ninja.Access.{Parts, path_eq}
use stimela_ninja.Access.Paths.{path_eq_lem}
use stimela_ninja.Access.Collisions.Raised.{or_some}
use stimela_ninja.Access.Collisions.{
  Group, Claimed, conflict_with, conflict, insert, add, joined, record_claim,
}

-- At most two numbers, in order.
abbrev pub few : List ℕ → Bool
few [] = true
few (a ∷ []) = true
few (a ∷ b ∷ []) = ltb a b
few (a ∷ b ∷ c ∷ rest) = false

-- A number is there, or two others are in its place.
abbrev pub covers : ℕ → List ℕ → Bool
covers n ms = any (λ m. nat_eq n m) ms || ltb 1 (length ms)

few-add : (n : ℕ) (ms : List ℕ) → few ms ≡ true → few (add n ms) ≡ true
unfolding add insert
few-add n [] h = refl
few-add n (a ∷ []) h = ground arith
few-add n (a ∷ b ∷ []) h = ground (arith, h)
few-add n (a ∷ b ∷ c ∷ rest) h = ground (arith, h)

covers-add : (n : ℕ) (ms : List ℕ) → few ms ≡ true → covers n (add n ms) ≡ true
unfolding add insert
covers-add n [] h = ground arith
covers-add n (a ∷ []) h = ground arith
covers-add n (a ∷ b ∷ []) h = ground (arith, h)
covers-add n (a ∷ b ∷ c ∷ rest) h = ground (arith, h)

covers-add_kept :
    (n m : ℕ) (ms : List ℕ) → few ms ≡ true → covers n ms ≡ true → covers n (add m ms) ≡ true
unfolding add insert
covers-add_kept n m [] h e = ground (arith, e)
covers-add_kept n m (a ∷ []) h e = ground (arith, e)
covers-add_kept n m (a ∷ b ∷ []) h e = ground (arith, h)
covers-add_kept n m (a ∷ b ∷ c ∷ rest) h e = ground (arith, h)

-- Without an error, a writer and an owner are one slice.
pub conflict-none :
    (v o : ℕ) (ws os : List ℕ)
    → conflict ws os ≡ none
    → few ws ≡ true
    → few os ≡ true
    → covers v ws ≡ true
    → covers o os ≡ true
    → v ≡ o
unfolding conflict conflict_with
conflict-none v o [] os e h k a b = ground (arith, a)
conflict-none v o (w ∷ ws) [] e h k a b = ground (arith, b)
conflict-none v o (w ∷ []) (x ∷ []) e h k a b = ground (arith, e, a, b)
conflict-none v o (w ∷ []) (x ∷ y ∷ []) e h k a b = ground (arith, e, a, b, k)
conflict-none v o (w ∷ z ∷ []) (x ∷ []) e h k a b = ground (arith, e, a, b, h)
conflict-none v o (w ∷ z ∷ []) (x ∷ y ∷ []) e h k a b = ground (arith, e, a, b, h, k)
conflict-none v o (w ∷ z ∷ t ∷ ws) os e h k a b = ground (arith, h)
conflict-none v o (w ∷ ws) (x ∷ y ∷ t ∷ os) e h k a b = ground (arith, k)

abbrev pub has : ℕ → List ℕ → Bool
has n ms = any (λ m. nat_eq n m) ms

-- An error names a writer and an owner that are two slices, the smaller first.
conflict_with-some :
    (v i j : ℕ) (os : List ℕ)
    → conflict_with v os ≡ some (i, j)
    → (ltb i j && ((nat_eq v i && has j os) || (nat_eq v j && has i os))) ≡ true
unfolding conflict_with
conflict_with-some v i j [] e = ground (arith, e)
conflict_with-some v i j (o ∷ os) e = ground (arith, e, conflict_with-some v i j os)

pub conflict-some :
    (i j : ℕ) (ws os : List ℕ)
    → conflict ws os ≡ some (i, j)
    → (ltb i j && ((has i ws && has j os) || (has j ws && has i os))) ≡ true
unfolding conflict
conflict-some i j [] os e = ground (arith, e)
conflict-some i j (w ∷ ws) os e = elim (or_some (conflict_with w os) (conflict ws os) (i, j) e) [
  | inl q ↦ ground (arith, conflict_with-some w i j os q)
  | inr q ↦ ground (arith, conflict-some i j ws os q)
]

-- A claim of a slice.
abbrev pub Owned : Type 0
Owned = ℕ × Claimed

abbrev pub owner : Owned → ℕ
owner x = x.0

abbrev pub path_of : Owned → Parts
path_of x = x.1.0

abbrev pub writes : Owned → Bool
writes x = x.1.1

-- The group of the claim's path has the claim, or two others in its place.
abbrev pub tells : Owned → Group → Bool
tells x g =
    path_eq g.path (path_of x)
    && covers (owner x) g.owners
    && (not (writes x) || covers (owner x) g.writers)

abbrev pub is_few : Group → Bool
is_few g = few g.owners && few g.writers

-- A claim of that slice on that path, and one that writes if the test asks for it.
abbrev pub matches : ℕ → Parts → Bool → Owned → Bool
matches n p w x = nat_eq n (owner x) && path_eq (path_of x) p && (not w || writes x)

abbrev pub claimed : List Owned → Parts → Bool → ℕ → Bool
claimed xs p w n = any (matches n p w) xs

-- What the group says is claimed.
abbrev pub meant : List Owned → Group → Bool
meant xs g = all (claimed xs g.path false) g.owners && all (claimed xs g.path true) g.writers

is_few-joined : (n : ℕ) (w : Bool) (g : Group) → is_few g ≡ true → is_few (joined n w g) ≡ true
is_few-joined n true g h = ground (arith, h, few-add n g.owners, few-add n g.writers)
is_few-joined n false g h = ground (arith, h, few-add n g.owners)

pub is_few-record_claim :
    (n : ℕ) (p : Parts) (w : Bool) (gs : List Group)
    → all is_few gs ≡ true
    → all is_few (record_claim n (p, w) gs) ≡ true
unfolding record_claim
is_few-record_claim n p w [] h =
    ground (arith, is_few-joined n w (record { path = p; owners = []; writers = [] }))
is_few-record_claim n p w (g ∷ gs) h =
    ground (arith, h, is_few-joined n w g, is_few-record_claim n p w gs)

tells-joined :
    (n : ℕ) (p : Parts) (w : Bool) (g : Group)
    → is_few g ≡ true
    → path_eq g.path p ≡ true
    → tells (n, (p, w)) (joined n w g) ≡ true
tells-joined n p true g h e = ground (arith, h, e, covers-add n g.owners, covers-add n g.writers)
tells-joined n p false g h e = ground (arith, h, e, covers-add n g.owners)

tells_kept :
    (x : Owned) (m : ℕ) (w : Bool) (g : Group)
    → is_few g ≡ true
    → tells x g ≡ true
    → tells x (joined m w g) ≡ true
tells_kept x m true g h e =
    ground
      (arith, h, e, covers-add_kept (owner x) m g.owners, covers-add_kept (owner x) m g.writers)
tells_kept x m false g h e = ground (arith, h, e, covers-add_kept (owner x) m g.owners)

pub tells-record_claim :
    (n : ℕ) (p : Parts) (w : Bool) (gs : List Group)
    → all is_few gs ≡ true
    → path_eq p p ≡ true
    → any (tells (n, (p, w))) (record_claim n (p, w) gs) ≡ true
unfolding record_claim
tells-record_claim n p w [] h r =
    ground (arith, tells-joined n p w (record { path = p; owners = []; writers = [] }) refl r)
tells-record_claim n p w (g ∷ gs) h r =
    ground (arith, h, tells-joined n p w g, tells-record_claim n p w gs, r)

pub record_claim_keeps :
    (x : Owned) (n : ℕ) (p : Parts) (w : Bool) (gs : List Group)
    → all is_few gs ≡ true
    → any (tells x) gs ≡ true
    → any (tells x) (record_claim n (p, w) gs) ≡ true
unfolding record_claim
record_claim_keeps x n p w [] h e = ground (arith, e)
record_claim_keeps x n p w (g ∷ gs) h e =
    ground (arith, h, e, tells_kept x n w g, record_claim_keeps x n p w gs)

all-insert :
    (f : ℕ → Bool) (n : ℕ) (ms : List ℕ) → f n ≡ true → all f ms ≡ true → all f (insert n ms) ≡ true
unfolding insert
all-insert f n [] a b = ground (arith, a)
all-insert f n (m ∷ ms) a b = ground (arith, a, b, all-insert f n ms a)

all-add :
    (f : ℕ → Bool) (n : ℕ) (ms : List ℕ) → f n ≡ true → all f ms ≡ true → all f (add n ms) ≡ true
unfolding add
all-add f n ms a b = ground (arith, a, b, all-insert f n ms a b)

-- A claim that writes is a claim.
claimed_read :
    (xs : List Owned) (p : Parts) (n : ℕ) → claimed xs p true n ≡ true → claimed xs p false n ≡ true
claimed_read [] p n e = ground (arith, e)
claimed_read (x ∷ xs) p n e = ground (arith, e, claimed_read xs p n)

meant-joined :
    (xs : List Owned) (n : ℕ) (w : Bool) (g : Group)
    → claimed xs g.path w n ≡ true
    → meant xs g ≡ true
    → meant xs (joined n w g) ≡ true
meant-joined xs n true g c m = ground (
  arith,
  c,
  m,
  claimed_read xs g.path n c,
  all-add (claimed xs g.path false) n g.owners,
  all-add (claimed xs g.path true) n g.writers,
)
meant-joined xs n false g c m = ground (arith, c, m, all-add (claimed xs g.path false) n g.owners)

pub meant-record_claim :
    (xs : List Owned) (n : ℕ) (p : Parts) (w : Bool) (gs : List Group)
    → claimed xs p w n ≡ true
    → all (meant xs) gs ≡ true
    → all (meant xs) (record_claim n (p, w) gs) ≡ true
unfolding record_claim
meant-record_claim xs n p w [] c m =
    ground (arith, meant-joined xs n w (record { path = p; owners = []; writers = [] }) c refl)
meant-record_claim xs n p w (g ∷ gs) c m = elim (Bool-cases (path_eq g.path p)) [
  | inl e ↦
      let c' = subst (λ q. claimed xs q w n ≡ true) (sym (path_eq_lem g.path p e)) c in
      rw e (ground (arith, m, meant-joined xs n w g c'))
  | inr e ↦ rw e (ground (arith, m, meant-record_claim xs n p w gs c))
]
