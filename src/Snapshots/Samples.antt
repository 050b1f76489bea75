-- ===== src/Snapshots/Samples.antt =====
-- The chain of one measurement set: a first state, one of a calibration and one of a later step.
use stimela_ninja.Prelude.{
  ℕ, String, Bool, true, false, Option, none, some, [], ◌∷◌, map, ◌≡◌, refl, inl, inr, In, All, ◌≤◌,
  ◌⊎◌,
}
use stimela_ninja.Prelude.Dict.{get, put, pop}
use stimela_ninja.Prelude.Results.{ok, refused}
use text.Mathlib.Text.{◌==◌}
use stimela_ninja.Snapshots.{Generation, Chain, Journal, trusted, taint_blocks, indexed}
use stimela_ninja.Snapshots.Intact.{IsIntact, evict-IsIntact, invalidate-IsIntact}
use stimela_ninja.Snapshots.Taint.{taint_blocks_lem, after}
use stimela_ninja.Snapshots.Evict.{
  Volume, evict, has, protected_names, protecting, unprotected, reverse, superseded, dead,
  insert_by_age, sorted, free, remove_snapshots, mark, prune_all,
}
use stimela_ninja.Snapshots.Evict.Protected.{consumed}
use stimela_ninja.Snapshots.Evict.Kept.{evict_keeps_needed}
use stimela_ninja.Snapshots.Evict.Freed.{evict_frees, total}
use stimela_ninja.Snapshots.Invalidate.{
  Cache, Entry, invalidate, cache_key_of, is_of, step_of, invalidate_chains, remove_entries, blocks,
  produced_by, first_of, downstream, surviving, previous_of, still_consumed, rolled,
  invalidate_states,
}
use stimela_ninja.Snapshots.Invalidate.Rolled.{IsForgotten}
use stimela_ninja.Snapshots.Invalidate.Forgotten.{invalidate_forgets}
use stimela_ninja.Snapshots.Invalidate.Downstream.{invalidate_reruns_downstream, anchor_lost}

abbrev state : String → ℕ → Generation
state name size = record {
  name = name;
  size = size;
  snapshot_present = true;
  structural_signature = none;
  content_fingerprint = none;
  parent = none;
  identity_profile = none;
}

abbrev tainted_at : Option String → Chain
tainted_at taint = record {
  dev = 1;
  ino = 2;
  ctime_ns = 3;
  path = "/data/obs.ms";
  generations = state "gen0__a" 10 ∷ state "k1__ms" 20 ∷ state "k2__ms" 30 ∷ state "k3__ms" 40 ∷ [];
  head = some "k3__ms";
  status = trusted;
  marker = none;
  consumed =
      ("cal.solve::ms", "gen0__a") ∷ ("cal.apply::ms", "k1__ms") ∷ ("image::ms", "k3__ms") ∷ [];
  tainted_through = taint;
}

abbrev obs : Chain
obs = tainted_at none

abbrev old : Chain
old = record obs {
  path = "/data/old.ms";
  generations = state "k9__ms" 5 ∷ [];
  head = none;
  consumed = [];
}

abbrev journal : Journal
journal = ("/data/obs.ms", obs) ∷ ("/data/old.ms", old) ∷ []

abbrev disk : Volume
disk = record {
  exists = λ path. path == "/data/obs.ms";
  states = ("gen0__a", 1) ∷ ("k1__ms", 2) ∷ ("k2__ms", 3) ∷ ("k3__ms", 4) ∷ ("k9__ms", 5) ∷ [];
}

abbrev works : String → Bool
works path = true

abbrev entry : String → Entry
entry key = record { cache_key = some key }

abbrev cache : Cache
cache = record {
  manifest = ("cal.solve", entry "k1") ∷ ("cal.apply", entry "k2") ∷ ("image", entry "k4") ∷ [];
  states = disk.states;
  chains = journal;
}

program : Unit {0}
unfolding get put pop indexed taint_blocks after evict invalidate invalidate_chains protected_names
    protecting unprotected reverse superseded dead insert_by_age sorted free remove_snapshots mark
    prune_all remove_entries is_of blocks produced_by first_of step_of downstream surviving
    previous_of still_consumed rolled invalidate_states
program = tt

-- States at or behind the taint are blocked, and so are unknown ones.
taint_runs :
    (taint_blocks (tainted_at (some "k1__ms")) "gen0__a" ≡ true)
    × (taint_blocks (tainted_at (some "k1__ms")) "k2__ms" ≡ false)
    × (taint_blocks (tainted_at (some "k1__ms")) "k7__ms" ≡ true)
    × (taint_blocks obs "k7__ms" ≡ false)
unfolding program
taint_runs = (refl, refl, refl, refl)

taint_blocks_lem_example : taint_blocks (tainted_at (some "k1__ms")) "k2__ms" ≡ false
unfolding program
taint_blocks_lem_example = taint_blocks_lem (tainted_at (some "k1__ms")) "k2__ms"

-- The state that nobody consumed goes first, then that of the path that is gone.
evict_runs :
    ((evict works disk 12 journal).removed ≡ ("k2__ms", 30) ∷ [])
    × ((evict works disk 31 journal).removed ≡ ("k2__ms", 30) ∷ ("k9__ms", 5) ∷ [])
    × (get "k2__ms" (evict works disk 12 journal).states ≡ none)
unfolding program
evict_runs = (refl, refl, refl)

evict_keeps_needed_example :
    (has "k1__ms" (map (λ x. x.0) (evict works disk 99 journal).removed) ≡ false)
    × (get "k1__ms" (evict works disk 99 journal).states ≡ get "k1__ms" disk.states)
evict_keeps_needed_example =
    evict_keeps_needed works disk 99 journal "/data/obs.ms" obs "k1__ms" (inl refl) refl
      (consumed "cal.apply::ms" (inr (inl refl)))

k9_unprotected : has "k9__ms" (protected_names (protecting disk journal)) ≡ false
unfolding program
k9_unprotected = refl

evict_frees_example :
    (31 ≤ total (evict works disk 31 journal).removed)
    ⊎ (has "k9__ms" (map (λ x. x.0) (evict works disk 31 journal).removed) ≡ true)
evict_frees_example =
    evict_frees works disk 31 journal "/data/old.ms" old (state "k9__ms" 5) (inr (inl refl))
      (inl refl) refl k9_unprotected

journal-IsIntact : IsIntact disk.states journal
unfolding program
journal-IsIntact = (refl, (refl, tt))

evict-IsIntact_example :
    IsIntact (evict works disk 31 journal).states (evict works disk 31 journal).chains
evict-IsIntact_example = evict-IsIntact works disk 31 journal journal-IsIntact

abbrev left : Cache
left = elim (invalidate works "cal.solve" cache) [ ok c ↦ c | refused e ↦ cache ]

invalidate_runs :
    (left.manifest ≡ [])
    × (map (λ x. x.1.head) left.chains ≡ some "k3__ms" ∷ none ∷ [])
    × (map (λ x. x.1.consumed) left.chains
        ≡ (("cal.solve::ms", "gen0__a") ∷ ("image::ms", "k3__ms") ∷ []) ∷ [] ∷ [])
unfolding program
invalidate_runs = (refl, refl, refl)

left-ok : invalidate works "cal.solve" cache ≡ ok left
unfolding program
left-ok = refl

left_solve : cache_key_of (get "cal.solve" cache.manifest) ≡ some "k1"
unfolding program
left_solve = refl

invalidate_forgets_example :
    (get "cal.solve" left.manifest ≡ none) × All (λ x. IsForgotten (some "k1") x.1) left.chains
invalidate_forgets_example = invalidate_forgets works "cal.solve" "k1" cache left left_solve left-ok

invalidate-IsIntact_example : IsIntact left.states left.chains
invalidate-IsIntact_example =
    invalidate-IsIntact works "cal.solve" cache left journal-IsIntact left-ok

k1_is_of : is_of (some "k1") "k1__ms" ≡ true
unfolding program
k1_is_of = refl

invalidate_reruns_downstream_example : get (step_of "image::ms") left.manifest ≡ none
invalidate_reruns_downstream_example =
    invalidate_reruns_downstream works "cal.solve" "k1" cache left "/data/obs.ms" obs
      (state "gen0__a" 10 ∷ []) (state "k1__ms" 20) (state "k2__ms" 30 ∷ state "k3__ms" 40 ∷ [])
      "image::ms" "k3__ms" left_solve left-ok (inl refl) refl k1_is_of refl refl
      (inr (inr (inl refl)))

abbrev tainted_cache : Cache
tainted_cache = record cache { chains = ("/data/obs.ms", tainted_at (some "k1__ms")) ∷ [] }

abbrev unanchored : Cache
unanchored = elim (invalidate works "cal.solve" tainted_cache) [ ok c ↦ c | refused e ↦ cache ]

unanchored-ok : invalidate works "cal.solve" tainted_cache ≡ ok unanchored
unfolding program
unanchored-ok = refl

anchor_lost_example :
    (after : Chain) × In ("/data/obs.ms", after) unanchored.chains
    × ((required : String) → taint_blocks after required ≡ true)
anchor_lost_example =
    anchor_lost works "cal.solve" "k1" tainted_cache unanchored "/data/obs.ms"
      (tainted_at (some "k1__ms")) "k1__ms" left_solve unanchored-ok (inl refl) refl k1_is_of
