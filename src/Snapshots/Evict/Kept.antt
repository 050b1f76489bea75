-- ===== src/Snapshots/Evict/Kept.antt =====
-- Eviction removes nothing that a chain still needs.
use stimela_ninja.Prelude.{
  ℕ, ◌+◌, String, Bool, true, false, ◌||◌, none, some, List, [], ◌∷◌, ◌++◌, map, is_some, In, inl,
  inr, ◌≡◌, refl, arith, ap, sym, Bool-cases,
}
use stimela_ninja.Prelude.Dict.{Dict, get, get-pop}
use stimela_ninja.Snapshots.{Generation, Chain, Journal}
use stimela_ninja.Snapshots.Evict.{
  Volume, Candidate, chain_names, protected_names, protecting, has, unprotected, reverse,
  superseded, dead, before, insert_by_age, sorted, candidates, free, removed_by, remove_snapshots,
  evict,
}
use stimela_ninja.Snapshots.Evict.Protected.{Needs, Needs-chain_names, has-append}
use text.Mathlib.Text.{◌==◌}
use text.Mathlib.TextEquality.{eq_iff}

abbrev pub names : List Candidate → List String
names xs = map (λ x. x.0) xs

abbrev pub timed_names : List (ℕ × Candidate) → List String
timed_names xs = map (λ x. x.1.0) xs

has-protected_names :
    (n cid : String) (c : Chain) (chains : Journal)
    → In (cid, c) chains
    → Needs c n
    → has n (protected_names chains) ≡ true
unfolding protected_names
has-protected_names n cid c [] i h = absurd (i tt)
has-protected_names n cid c (x ∷ chains) (inl e) h = ground (
  arith,
  has-append n (chain_names x.1) (protected_names chains),
  ap (λ y. has n (chain_names y.1)) e,
  Needs-chain_names n c h,
)
has-protected_names n cid c (x ∷ chains) (inr i) h = ground (
  arith,
  has-append n (chain_names x.1) (protected_names chains),
  has-protected_names n cid c chains i h,
)

In-protecting :
    (disk : Volume) (cid : String) (c : Chain) (chains : Journal)
    → In (cid, c) chains
    → (disk.exists c.path || is_some c.marker) ≡ true
    → In (cid, c) (protecting disk chains)
unfolding protecting
In-protecting disk cid c [] i h = absurd (i tt)
In-protecting disk cid c (x ∷ chains) (inl e) h =
    let kept : (disk.exists x.1.path || is_some x.1.marker) ≡ true =
      rw (sym (ap (λ y. disk.exists y.1.path || is_some y.1.marker) e)) h in
    rw kept (inl e)
In-protecting disk cid c (x ∷ chains) (inr i) h =
    elim (Bool-cases (disk.exists x.1.path || is_some x.1.marker)) [
      | inl e ↦ rw e (inr (In-protecting disk cid c chains i h))
      | inr e ↦ rw e (In-protecting disk cid c chains i h)
    ]

-- No name of the first list stands in the second.
abbrev Avoids : List String → List String → Type 0
Avoids xs protected = (n : String) → has n protected ≡ true → has n xs ≡ false

pub names-append :
    (n : String) (xs ys : List Candidate)
    → has n (names (xs ++ ys)) ≡ (has n (names xs) || has n (names ys))
names-append n [] ys = refl
names-append n (x ∷ xs) ys = ground (arith, names-append n xs ys)

unprotected-avoids :
    (n : String) (protected : List String) (gs : List Generation)
    → has n protected ≡ true
    → has n (names (unprotected protected gs)) ≡ false
unfolding unprotected
unprotected-avoids n protected [] h = refl
unprotected-avoids n protected (g ∷ gs) h = ground (
  arith,
  unprotected-avoids n protected gs h,
  eq_iff g.name n,
  λ (e : g.name ≡ n). ap (λ m. has m protected) e,
)

superseded-avoids :
    (n : String) (disk : Volume) (protected : List String) (chains : Journal)
    → has n protected ≡ true
    → has n (names (superseded disk protected chains)) ≡ false
unfolding superseded
superseded-avoids n disk protected [] h = refl
superseded-avoids n disk protected ((cid, c) ∷ chains) h = ground (
  arith,
  superseded-avoids n disk protected chains h,
  unprotected-avoids n protected (reverse c.generations) h,
  names-append n (unprotected protected (reverse c.generations)) (superseded disk protected chains),
)

pub timed-append :
    (n : String) (f : Candidate → ℕ) (xs : List Candidate) (ys : List (ℕ × Candidate))
    → has n (timed_names (map (λ x. (f x, x)) xs ++ ys))
      ≡ (has n (names xs) || has n (timed_names ys))
timed-append n f [] ys = refl
timed-append n f (x ∷ xs) ys = ground (arith, timed-append n f xs ys)

dead-avoids :
    (n : String) (disk : Volume) (protected : List String) (chains : Journal)
    → has n protected ≡ true
    → has n (timed_names (dead disk protected chains)) ≡ false
unfolding dead
dead-avoids n disk protected [] h = refl
dead-avoids n disk protected ((cid, c) ∷ chains) h = ground (
  arith,
  dead-avoids n disk protected chains h,
  unprotected-avoids n protected c.generations h,
  timed-append n (λ candidate. elim (get candidate.0 disk.states) [ none ↦ 0 | some time ↦ time ])
      (unprotected protected c.generations) (dead disk protected chains),
)

has-insert_by_age :
    (n : String) (x : ℕ × Candidate) (ys : List (ℕ × Candidate))
    → has n (timed_names (insert_by_age x ys)) ≡ ((x.1.0 == n) || has n (timed_names ys))
unfolding insert_by_age
has-insert_by_age n x [] = refl
has-insert_by_age n x (y ∷ ys) = elim (Bool-cases (before y x)) [
  | inl e ↦ rw e (ground (arith, has-insert_by_age n x ys))
  | inr e ↦ rw e refl
]

pub has-sorted :
    (n : String) (xs : List (ℕ × Candidate))
    → has n (names (map (λ x. x.1) (sorted xs))) ≡ has n (timed_names xs)
unfolding sorted
has-sorted n xs = ground (arith, untimed (sorted xs), same xs)
  where
    untimed :
        (ys : List (ℕ × Candidate)) → has n (names (map (λ x. x.1) ys)) ≡ has n (timed_names ys)
    untimed [] = refl
    untimed (y ∷ ys) = ground (arith, untimed ys)

    same : (ys : List (ℕ × Candidate)) → has n (timed_names (sorted ys)) ≡ has n (timed_names ys)
    same [] = refl
    same (y ∷ ys) = ground (arith, same ys, has-insert_by_age n y (sorted ys))

has-free :
    (n : String) (target freed : ℕ) (seen : List String) (cs : List Candidate)
    → has n (names cs) ≡ false
    → has n (names (free target freed seen cs)) ≡ false
unfolding free
has-free n target freed seen [] h = refl
has-free n target freed seen ((m, size) ∷ cs) h =
    ground
      (arith, h, has-free n target freed seen cs, has-free n target (freed + size) (m ∷ seen) cs)

pub get-remove_snapshots :
    (n : String) (works : String → Bool) (xs : List String) (states : Dict ℕ)
    → has n xs ≡ false
    → get n (remove_snapshots works xs states) ≡ get n states
unfolding remove_snapshots
get-remove_snapshots n works [] states h = refl
get-remove_snapshots n works (x ∷ xs) states h = ground (
  arith,
  h,
  get-remove_snapshots n works xs states,
  get-pop x n (remove_snapshots works xs states),
)

-- A state that a chain needs, where the chain's path exists or a step is in flight on it, is not
-- among the removed ones, and its snapshot stays as it was.
pub evict_keeps_needed :
    (works : String → Bool) (disk : Volume) (target : ℕ) (chains : Journal) (cid : String)
    (c : Chain) (n : String)
    → In (cid, c) chains
    → (disk.exists c.path || is_some c.marker) ≡ true
    → Needs c n
    → (has n (map (λ x. x.0) (evict works disk target chains).removed) ≡ false)
      × (get n (evict works disk target chains).states ≡ get n disk.states)
unfolding evict
evict_keeps_needed works disk target chains cid c n i h needs =
    let protected = protected_names (protecting disk chains) in
    let held : has n protected ≡ true =
      has-protected_names n cid c (protecting disk chains) (In-protecting disk cid c chains i h)
        needs in
    let spared : has n (names (candidates disk chains)) ≡ false = ground (
      arith,
      names-append n (superseded disk protected chains)
          (map (λ x. x.1) (sorted (dead disk protected chains))),
      superseded-avoids n disk protected chains held,
      has-sorted n (dead disk protected chains),
      dead-avoids n disk protected chains held,
    ) in
    let gone : has n (names (removed_by disk target chains)) ≡ false =
      has-free n target 0 [] (candidates disk chains) spared in
    (gone, get-remove_snapshots n works (names (removed_by disk target chains)) disk.states gone)
