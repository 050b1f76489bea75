-- ===== src/Snapshots/Evict/Freed.antt =====
-- How much an eviction frees: enough where there is enough, and no more than it must.
use stimela_ninja.Prelude.{
  ℕ, ◌+◌, ◌<◌, ◌≤◌, String, Bool, true, false, not, ◌&&◌, ◌||◌, none, some, List, [], ◌∷◌, ◌++◌,
  map, leb, In, ◌⊎◌, inl, inr, ◌≡◌, refl, arith, ap, subst, Bool-cases,
}
use stimela_ninja.Prelude.Dict.{get}
use stimela_ninja.Snapshots.{Generation, Chain, Journal}
use stimela_ninja.Snapshots.Evict.{
  Volume, Candidate, protected_names, protecting, has, unprotected, reverse, superseded, dead,
  sorted, candidates, free, evict,
}
use stimela_ninja.Snapshots.Evict.Kept.{names, timed_names, names-append, timed-append, has-sorted}
use text.Mathlib.TextEquality.{eq_iff}

abbrev pub total : List Candidate → ℕ
total [] = 0
total (x ∷ xs) = x.1 + total xs

-- Less than the target is freed before each of them.
abbrev Below : ℕ → ℕ → List Candidate → Type 0
Below target freed [] = Unit
Below target freed (x ∷ xs) = (freed < target) × Below target (freed + x.1) xs

Below-split :
    (target freed : ℕ) (xs : List Candidate) (x : Candidate) (ys : List Candidate)
    → Below target freed (xs ++ (x ∷ ys))
    → freed + total xs < target
Below-split target freed [] x ys h = omega (arith, h.0)
Below-split target freed (z ∷ xs) x ys h =
    omega (arith, Below-split target (freed + z.1) xs x ys h.1)

free-Below :
    (target freed : ℕ) (seen : List String) (cs : List Candidate)
    → Below target freed (free target freed seen cs)
unfolding free
free-Below target freed seen [] = tt
free-Below target freed seen ((n, size) ∷ cs) = elim (Bool-cases (leb target freed)) [
  | inl e ↦ rw (e, Below) tt
  | inr e ↦ elim (Bool-cases (has n seen)) [
    | inl h ↦ rw (e, Below) (rw (h, Below) (free-Below target freed seen cs))
    | inr h ↦
        rw (e, Below)
          (rw (h, Below) (ground (arith, e), free-Below target (freed + size) (n ∷ seen) cs))
  ]
]

-- A candidate is removed unless enough is freed.
free-removes :
    (n : String) (target freed : ℕ) (seen : List String) (cs : List Candidate)
    → has n (names cs) ≡ true
    → (leb target (freed + total (free target freed seen cs))
        || (has n seen || has n (names (free target freed seen cs))))
      ≡ true
unfolding free
free-removes n target freed seen [] h = ground (arith, h)
free-removes n target freed seen ((m, size) ∷ cs) h = ground (
  arith,
  h,
  eq_iff m n,
  λ (e : m ≡ n). ap (λ x. has x seen) e,
  free-removes n target freed seen cs,
  free-removes n target (freed + size) (m ∷ seen) cs,
)

free-unseen :
    (n : String) (target freed : ℕ) (seen : List String) (cs : List Candidate)
    → has n seen ≡ true
    → has n (names (free target freed seen cs)) ≡ false
unfolding free
free-unseen n target freed seen [] h = refl
free-unseen n target freed seen ((m, size) ∷ cs) h = ground (
  arith,
  h,
  eq_iff m n,
  λ (e : m ≡ n). ap (λ x. has x seen) e,
  free-unseen n target freed seen cs h,
  free-unseen n target (freed + size) (m ∷ seen) cs,
)

abbrev pub IsDistinct : List String → Type 0
IsDistinct [] = Unit
IsDistinct (n ∷ ns) = (has n ns ≡ false) × IsDistinct ns

free-IsDistinct :
    (target freed : ℕ) (seen : List String) (cs : List Candidate)
    → IsDistinct (names (free target freed seen cs))
unfolding free
free-IsDistinct target freed seen [] = tt
free-IsDistinct target freed seen ((n, size) ∷ cs) = elim (Bool-cases (leb target freed)) [
  | inl e ↦ rw (e, IsDistinct) tt
  | inr e ↦ elim (Bool-cases (has n seen)) [
    | inl h ↦ rw (e, IsDistinct) (rw (h, IsDistinct) (free-IsDistinct target freed seen cs))
    | inr h ↦
        rw (e, IsDistinct)
          (rw (h, IsDistinct)
            (
              free-unseen n target (freed + size) (n ∷ seen) cs (ground (arith, eq_iff n n)),
              free-IsDistinct target (freed + size) (n ∷ seen) cs,
            ))
  ]
]

In-snoc : (g x : Generation) (gs : List Generation) → (g ≡ x) ⊎ In g gs → In g (gs ++ (x ∷ []))
In-snoc g x [] (inl e) = inl e
In-snoc g x [] (inr i) = absurd (i tt)
In-snoc g x (y ∷ gs) (inl e) = inr (In-snoc g x gs (inl e))
In-snoc g x (y ∷ gs) (inr (inl e)) = inl e
In-snoc g x (y ∷ gs) (inr (inr i)) = inr (In-snoc g x gs (inr i))

In-reverse : (g : Generation) (gs : List Generation) → In g gs → In g (reverse gs)
unfolding reverse
In-reverse g [] i = absurd (i tt)
In-reverse g (x ∷ gs) (inl e) = In-snoc g x (reverse gs) (inl e)
In-reverse g (x ∷ gs) (inr i) = In-snoc g x (reverse gs) (inr (In-reverse g gs i))

module _ (disk : Volume) (protected : List String) (g : Generation)
    (present : g.snapshot_present ≡ true) (free_to_go : has g.name protected ≡ false) where
  has-unprotected :
      (gs : List Generation) → In g gs → has g.name (names (unprotected protected gs)) ≡ true
  unfolding unprotected
  has-unprotected [] i = absurd (i tt)
  has-unprotected (x ∷ gs) (inl e) =
      let chosen : (x.snapshot_present && not (has x.name protected)) ≡ true =
        subst (λ y. (y.snapshot_present && not (has y.name protected)) ≡ true) e
          (ground (arith, present, free_to_go)) in
      rw chosen (ground (arith, eq_iff x.name g.name, ap (λ y. y.name) e))
  has-unprotected (x ∷ gs) (inr i) = ground (arith, has-unprotected gs i)

  has-passes :
      (cid : String) (c : Chain) (chains : Journal)
      → In (cid, c) chains
      → In g c.generations
      → (has g.name (names (superseded disk protected chains))
          || has g.name (timed_names (dead disk protected chains)))
        ≡ true
  unfolding superseded dead
  has-passes cid c [] i j = absurd (i tt)
  has-passes cid c (x ∷ chains) (inl e) j =
      let here : In g x.1.generations = subst (λ y. In g y.1.generations) e j in
      ground (
        arith,
        names-append g.name (unprotected protected (reverse x.1.generations))
            (superseded disk protected chains),
        timed-append g.name
            (λ candidate. elim (get candidate.0 disk.states) [ none ↦ 0 | some time ↦ time ])
            (unprotected protected x.1.generations) (dead disk protected chains),
        has-unprotected x.1.generations here,
        has-unprotected (reverse x.1.generations) (In-reverse g x.1.generations here),
      )
  has-passes cid c (x ∷ chains) (inr i) j = ground (
    arith,
    names-append g.name (unprotected protected (reverse x.1.generations))
        (superseded disk protected chains),
    timed-append g.name
        (λ candidate. elim (get candidate.0 disk.states) [ none ↦ 0 | some time ↦ time ])
        (unprotected protected x.1.generations) (dead disk protected chains),
    has-passes cid c chains i j,
  )

-- Before each removal less than the target is freed, and no name is removed twice.
pub evict_stops :
    (works : String → Bool) (disk : Volume) (target : ℕ) (chains : Journal) (xs : List Candidate)
    (x : Candidate) (ys : List Candidate)
    → (evict works disk target chains).removed ≡ xs ++ (x ∷ ys)
    → (total xs < target) × IsDistinct (map (λ y. y.0) (evict works disk target chains).removed)
unfolding evict
evict_stops works disk target chains xs x ys e = (
  omega (
    arith,
    Below-split target 0 xs x ys
        (subst (Below target 0) e (free-Below target 0 [] (candidates disk chains))),
  ),
  free-IsDistinct target 0 [] (candidates disk chains),
)

-- A present state whose name no protecting chain holds is removed, unless the removals reach the
-- target.
pub evict_frees :
    (works : String → Bool) (disk : Volume) (target : ℕ) (chains : Journal) (cid : String)
    (c : Chain) (g : Generation)
    → In (cid, c) chains
    → In g c.generations
    → g.snapshot_present ≡ true
    → has g.name (protected_names (protecting disk chains)) ≡ false
    → (target ≤ total (evict works disk target chains).removed)
      ⊎ (has g.name (map (λ x. x.0) (evict works disk target chains).removed) ≡ true)
unfolding evict
evict_frees works disk target chains cid c g i j present h =
    let protected = protected_names (protecting disk chains) in
    let listed : has g.name (names (candidates disk chains)) ≡ true = ground (
      arith,
      names-append g.name (superseded disk protected chains)
          (map (λ x. x.1) (sorted (dead disk protected chains))),
      has-sorted g.name (dead disk protected chains),
      has-passes disk protected g present h cid c chains i j,
    ) in
    ground (arith, free-removes g.name target 0 [] (candidates disk chains) listed)
