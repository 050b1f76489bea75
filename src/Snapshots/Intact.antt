-- ===== src/Snapshots/Intact.antt =====
-- A state that the journal records as present has its snapshot on disk.
use stimela_ninja.Prelude.{
  ℕ, String, Bool, true, false, not, ◌||◌, Option, none, some, List, [], ◌∷◌, map, any, all,
  is_some, is_nil, if◌then◌else◌, All, ◌≡◌, refl, arith, subst, Bool-cases, inl, inr,
}
use stimela_ninja.Prelude.Dict.{Dict, get}
use stimela_ninja.Prelude.Results.{ok}
use stimela_ninja.Snapshots.{Generation, Chain, Journal}
use stimela_ninja.Snapshots.Evict.{Volume, removed_by, remove_snapshots, mark, prune_all, evict}
use stimela_ninja.Snapshots.Evict.Kept.{get-remove_snapshots}
use stimela_ninja.Snapshots.Invalidate.{
  Cache, Entry, cache_key_of, remove_entries, is_of, produced_by, surviving, rolled, downstream_of,
  invalidate_chains, invalidate_states, invalidate,
}
use stimela_ninja.Snapshots.Invalidate.Rolled.{rolled-IsForgotten, has-produced_by}
use stimela_ninja.Snapshots.Invalidate.Forgotten.{invalidate_ok}

abbrev pub intact : Dict ℕ → List Generation → Bool
intact states gs = all (λ g. not g.snapshot_present || is_some (get g.name states)) gs

-- Each state of the journal that is recorded as present is on disk.
abbrev pub IsIntact : Dict ℕ → Journal → Type 0
IsIntact states chains = All (λ entry. intact states entry.1.generations ≡ true) chains

mark-intact :
    (works : String → Bool) (dropped : List String) (states : Dict ℕ) (gs : List Generation)
    → intact states gs ≡ true
    → intact (remove_snapshots works dropped states) (mark dropped gs) ≡ true
unfolding mark
mark-intact works dropped states [] h = refl
mark-intact works dropped states (g ∷ gs) h = ground (
  arith,
  h,
  mark-intact works dropped states gs,
  get-remove_snapshots g.name works dropped states,
)

prune_all-IsIntact :
    (works : String → Bool) (dropped : List String) (states : Dict ℕ) (chains : Journal)
    → IsIntact states chains
    → IsIntact (remove_snapshots works dropped states) (prune_all dropped chains)
unfolding prune_all
prune_all-IsIntact works dropped states [] h = tt
prune_all-IsIntact works dropped states ((cid, c) ∷ chains) h = (
  mark-intact works dropped states c.generations h.0,
  prune_all-IsIntact works dropped states chains h.1,
)

-- An eviction, whichever removals fail, leaves every state that is recorded as present on disk,
-- where that was so before.
pub evict-IsIntact :
    (works : String → Bool) (disk : Volume) (target : ℕ) (chains : Journal)
    → IsIntact disk.states chains
    → IsIntact (evict works disk target chains).states (evict works disk target chains).chains
unfolding evict remove_snapshots
evict-IsIntact works disk target chains h =
    of_names (map (λ x. x.0) (removed_by disk target chains))
  where
    of_names :
        (dropped : List String)
        → IsIntact
            (remove_snapshots works dropped disk.states)
            (if is_nil dropped then chains else prune_all dropped chains)
    of_names [] = h
    of_names (n ∷ ns) = prune_all-IsIntact works (n ∷ ns) disk.states chains h

-- The removed snapshots are of the key.
get-invalidated :
    (works : String → Bool) (key : Option String) (n : String) (chains : Journal)
    (manifest : Dict Entry) (states : Dict ℕ)
    → is_of key n ≡ false
    → get n (invalidate_chains works key chains manifest states).states ≡ get n states
unfolding invalidate_chains
get-invalidated works key n [] manifest states h = refl
get-invalidated works key n ((cid, c) ∷ chains) manifest states h = ground (
  arith,
  h,
  get-invalidated works key n chains (remove_entries (downstream_of key c) manifest)
      (remove_snapshots works (produced_by key c.generations) states) h,
  get-remove_snapshots n works (produced_by key c.generations) states,
  has-produced_by key n c.generations,
)

-- Snapshots of other keys, all of them still there.
intact-other :
    (key : Option String) (states left : Dict ℕ) (gs : List Generation)
    → ((n : String) → is_of key n ≡ false → get n left ≡ get n states)
    → any (λ g. is_of key g.name) gs ≡ false
    → intact states gs ≡ true
    → intact left gs ≡ true
intact-other key states left [] h k i = refl
intact-other key states left (g ∷ gs) h k i =
    ground (arith, k, i, h g.name, intact-other key states left gs h)

surviving-intact :
    (produced : List String) (states : Dict ℕ) (gs : List Generation)
    → intact states gs ≡ true
    → intact states (surviving produced gs) ≡ true
unfolding surviving
surviving-intact produced states [] h = refl
surviving-intact produced states (g ∷ gs) h = ground (arith, h, surviving-intact produced states gs)

rolled-intact :
    (key : Option String) (states : Dict ℕ) (c : Chain)
    → intact states c.generations ≡ true
    → intact states (rolled key c).generations ≡ true
unfolding rolled
rolled-intact key states c h = elim (Bool-cases (is_nil (produced_by key c.generations))) [
  | inl e ↦ rw (e, rolled) h
  | inr e ↦ rw (e, rolled) (surviving-intact (produced_by key c.generations) states c.generations h)
]

chains-IsIntact :
    (works : String → Bool) (key : Option String) (before left : Dict ℕ) (chains : Journal)
    (manifest : Dict Entry) (states : Dict ℕ)
    → ((n : String) → is_of key n ≡ false → get n left ≡ get n before)
    → IsIntact before chains
    → IsIntact left (invalidate_chains works key chains manifest states).chains
unfolding invalidate_chains
chains-IsIntact works key before left [] manifest states same h = tt
chains-IsIntact works key before left ((cid, c) ∷ chains) manifest states same h = (
  intact-other key before left (rolled key c).generations same (rolled-IsForgotten key c)
      (rolled-intact key before c h.0),
  chains-IsIntact works key before left chains (remove_entries (downstream_of key c) manifest)
      (remove_snapshots works (produced_by key c.generations) states) same h.1,
)

-- An invalidation, whichever removals fail, leaves every state that is recorded as present on
-- disk, where that was so before.
pub invalidate-IsIntact :
    (works : String → Bool) (step : String) (cache after : Cache)
    → IsIntact cache.states cache.chains
    → invalidate works step cache ≡ ok after
    → IsIntact after.states after.chains
unfolding invalidate_states
invalidate-IsIntact works step cache after h e =
    subst (λ c. IsIntact c.states c.chains) (invalidate_ok works step cache after e)
      (of_key (cache_key_of (get step cache.manifest)))
  where
    started : Cache
    started = record cache { manifest = remove_entries (step ∷ []) cache.manifest }

    of_key :
        (key : Option String)
        → IsIntact
            (invalidate_states works key started).states
            (invalidate_states works key started).chains
    of_key none = h
    of_key (some key) =
        chains-IsIntact works (some key) cache.states
          (invalidate_chains works (some key) cache.chains started.manifest cache.states).states
          cache.chains started.manifest cache.states
          (λ n k. get-invalidated works (some key) n cache.chains started.manifest cache.states k) h
