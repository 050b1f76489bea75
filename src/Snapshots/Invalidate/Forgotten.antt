-- ===== src/Snapshots/Invalidate/Forgotten.antt =====
-- What an invalidation removes, and what the journal keeps true.
use stimela_ninja.Prelude.{
  ℕ, String, Bool, Option, none, some, List, [], ◌∷◌, any, if◌then◌else◌, All, ◌≡◌, refl, arith,
  subst, Bool-cases, inl, inr,
}
use stimela_ninja.Prelude.Dict.{Dict, get, pop, get-pop}
use stimela_ninja.Prelude.Results.{ok, ok_inj}
use stimela_ninja.Snapshots.{Journal}
use stimela_ninja.Snapshots.Evict.{has, remove_snapshots}
use stimela_ninja.Snapshots.Invalidate.{
  Cache, Entry, cache_key_of, remove_entries, produced_by, downstream_of, invalidate_chains,
  invalidate_states, invalidate, blocks,
}
use stimela_ninja.Snapshots.Invalidate.Rolled.{
  IsForgotten, IsAnchored, rolled-IsForgotten, rolled-IsAnchored,
}
use text.Mathlib.TextEquality.{eq_iff}

pub get-remove_entries :
    (k : String) (steps : List String) (manifest : Dict Entry)
    → get k (remove_entries steps manifest) ≡ (if has k steps then none else get k manifest)
unfolding remove_entries
get-remove_entries k [] manifest = refl
get-remove_entries k (step ∷ steps) manifest =
    ground (arith, get-remove_entries k steps (pop step manifest), get-pop step k manifest)

module _ (works : String → Bool) (key : Option String) where
  -- Entries that are gone stay gone.
  pub get-invalidate_chains :
      (k : String) (chains : Journal) (manifest : Dict Entry) (states : Dict ℕ)
      → get k manifest ≡ none
      → get k (invalidate_chains works key chains manifest states).manifest ≡ none
  unfolding invalidate_chains
  get-invalidate_chains k [] manifest states h = h
  get-invalidate_chains k ((cid, c) ∷ chains) manifest states h =
      get-invalidate_chains k chains (remove_entries (downstream_of key c) manifest)
        (remove_snapshots works (produced_by key c.generations) states)
        (ground (arith, h, get-remove_entries k (downstream_of key c) manifest))

  chains-IsForgotten :
      (chains : Journal) (manifest : Dict Entry) (states : Dict ℕ)
      → All
          (λ entry. IsForgotten key entry.1)
          (invalidate_chains works key chains manifest states).chains
  unfolding invalidate_chains
  chains-IsForgotten [] manifest states = tt
  chains-IsForgotten ((cid, c) ∷ chains) manifest states = (
    rolled-IsForgotten key c,
    chains-IsForgotten chains (remove_entries (downstream_of key c) manifest)
        (remove_snapshots works (produced_by key c.generations) states),
  )

  chains-IsAnchored :
      (chains : Journal) (manifest : Dict Entry) (states : Dict ℕ)
      → All (λ entry. IsAnchored entry.1) chains
      → All
          (λ entry. IsAnchored entry.1)
          (invalidate_chains works key chains manifest states).chains
  unfolding invalidate_chains
  chains-IsAnchored [] manifest states h = tt
  chains-IsAnchored ((cid, c) ∷ chains) manifest states h = (
    rolled-IsAnchored key c h.0,
    chains-IsAnchored chains (remove_entries (downstream_of key c) manifest)
        (remove_snapshots works (produced_by key c.generations) states) h.1,
  )

-- What an invalidation that is not refused returns.
abbrev pub invalidated : (String → Bool) → String → Cache → Cache
invalidated works step cache =
    invalidate_states works (cache_key_of (get step cache.manifest))
      (record cache { manifest = remove_entries (step ∷ []) cache.manifest })

pub invalidate_ok :
    (works : String → Bool) (step : String) (cache after : Cache)
    → invalidate works step cache ≡ ok after
    → invalidated works step cache ≡ after
unfolding invalidate
invalidate_ok works step cache after e =
    elim (Bool-cases
      (any (λ entry. blocks step (cache_key_of (get step cache.manifest)) entry.1) cache.chains)) [
        | inl h ↦ ground (arith, rw (h, invalidate) at e)
        | inr h ↦ ok_inj (invalidated works step cache) after (rw (h, invalidate) at e)
      ]

-- After an invalidation the step has no cached result and, where its entry had a key, no chain
-- records a state of that key.
pub invalidate_forgets :
    (works : String → Bool) (step key : String) (cache after : Cache)
    → cache_key_of (get step cache.manifest) ≡ some key
    → invalidate works step cache ≡ ok after
    → (get step after.manifest ≡ none) × All (λ entry. IsForgotten (some key) entry.1) after.chains
unfolding invalidate_states
invalidate_forgets works step key cache after k e =
    let manifest = remove_entries (step ∷ []) cache.manifest in
    let reached : invalidate_chains works (some key) cache.chains manifest cache.states ≡ after =
      rw k at (invalidate_ok works step cache after e) in
    let gone : get step manifest ≡ none =
      ground (arith, get-remove_entries step (step ∷ []) cache.manifest, eq_iff step step) in
    (
      subst (λ c. get step c.manifest ≡ none) reached
          (get-invalidate_chains works (some key) step cache.chains manifest cache.states gone),
      subst (λ c. All (λ entry. IsForgotten (some key) entry.1) c.chains) reached
          (chains-IsForgotten works (some key) cache.chains manifest cache.states),
    )

-- An invalidation leaves every head and every consumed state among the recorded generations, where
-- they were so before.
pub invalidate-IsAnchored :
    (works : String → Bool) (step : String) (cache after : Cache)
    → All (λ entry. IsAnchored entry.1) cache.chains
    → invalidate works step cache ≡ ok after
    → All (λ entry. IsAnchored entry.1) after.chains
unfolding invalidate_states
invalidate-IsAnchored works step cache after h e =
    subst (λ c. All (λ entry. IsAnchored entry.1) c.chains) (invalidate_ok works step cache after e)
      (of_key (cache_key_of (get step cache.manifest)))
  where
    of_key :
        (key : Option String)
        → All
            (λ entry. IsAnchored entry.1)
            (invalidate_states works key
              (record cache { manifest = remove_entries (step ∷ []) cache.manifest })).chains
    of_key none = h
    of_key (some key) =
        chains-IsAnchored works (some key) cache.chains (remove_entries (step ∷ []) cache.manifest)
          cache.states h
