-- ===== src/Snapshots/Invalidate.antt =====
-- `invalidate` of src/shinobi/snapshots.py: a step's cached result is dropped together with the
-- states it produced. The messages that it returns are left out.
pub mod Rolled
pub mod Forgotten
pub mod Downstream
use stimela_ninja.Prelude.{
  ℕ, String, Bool, true, false, not, ◌&&◌, ◌||◌, Option, none, some, List, [], ◌∷◌, map, any, leb,
  ltb, is_some, is_nil, if◌then◌else◌,
}
use stimela_ninja.Prelude.Dict.{Dict, get, pop}
use stimela_ninja.Prelude.Results.{Result, ok, refused}
use stimela_ninja.Snapshots.{Generation, Marker, Chain, Journal, order_of, untrusted}
use stimela_ninja.Snapshots.Evict.{has, remove_snapshots}
use Prim.Native.String.{◌++◌, slice}
use text.Mathlib.Text.{◌==◌, starts_with, find?}

-- What the cache manifest holds of a step, of which only the key is read here.
pub record Entry : Type 0 where
  pub cache_key : Option String

pub record Cache : Type 0 where
  pub manifest : Dict Entry
  pub states : Dict ℕ
  pub chains : Journal

pub data LifecycleError : Type 0 where
  in_flight_group : LifecycleError

abbrev pub cache_key_of : Option Entry → Option String
cache_key_of none = none
cache_key_of (some entry) = entry.cache_key

-- CacheManifest.remove
unfoldable pub remove_entries : List String → Dict Entry → Dict Entry
remove_entries [] manifest = manifest
remove_entries (step ∷ steps) manifest = remove_entries steps (pop step manifest)

-- `f"{cache_key}__"`, also of a missing key
abbrev pub prefix : Option String → String
prefix none = "None__"
prefix (some key) = key ++ "__"

unfoldable pub is_of : Option String → String → Bool
is_of key name = starts_with name (prefix key)

-- A strict group in flight on the step, or on a chain that holds states of its key.
unfoldable pub blocks : String → Option String → Chain → Bool
blocks step key c = elim c.marker [
  | none ↦ false
  | some m ↦
      is_some m.strict_group && (m.step_path == step || any (λ g. is_of key g.name) c.generations)
]

unfoldable pub produced_by : Option String → List Generation → List String
produced_by key [] = []
produced_by key (g ∷ gs) =
    let rest = produced_by key gs in if is_of key g.name then g.name ∷ rest else rest

-- `min(order[name] for name in produced)`, none for no name
unfoldable pub first_of : Dict ℕ → List String → Option ℕ
first_of order [] = none
first_of order (n ∷ ns) = elim (get n order) [
  | none ↦ first_of order ns
  | some i ↦ elim (first_of order ns) [
    | none ↦ some i
    | some j ↦ if ltb i j then some i else some j
  ]
]

-- `key.split("::")[0]`
unfoldable pub step_of : String → String
step_of key = elim (find? key "::") [ none ↦ key | some i ↦ slice key 0 i ]

abbrev pub not_before : Option ℕ → Option ℕ → Bool
not_before none position = false
not_before (some first) none = false
not_before (some first) (some i) = leb first i

-- The steps that consumed the first produced state or one after it.
unfoldable pub downstream : Dict ℕ → Option ℕ → Dict String → List String
downstream order first [] = []
downstream order first ((key, state) ∷ consumed) =
    let rest = downstream order first consumed in
    if not_before first (get state order) then step_of key ∷ rest else rest

unfoldable pub surviving : List String → List Generation → List Generation
surviving produced [] = []
surviving produced (g ∷ gs) =
    let rest = surviving produced gs in if has g.name produced then rest else g ∷ rest

-- The name of the last one.
unfoldable pub previous_of : List Generation → Option String
previous_of [] = none
previous_of (g ∷ gs) = elim (previous_of gs) [ none ↦ some g.name | some n ↦ some n ]

unfoldable pub still_consumed : List String → Dict String → Dict String
still_consumed produced [] = []
still_consumed produced ((key, state) ∷ consumed) =
    let rest = still_consumed produced consumed in
    if has state produced then rest else (key, state) ∷ rest

abbrev pub rolled_head : List String → Option String → Option String → Option String
rolled_head produced previous none = none
rolled_head produced previous (some head) = if has head produced then previous else some head

abbrev pub roll_back_chain : List String → Chain → Chain
roll_back_chain produced c = record c {
  generations = surviving produced c.generations;
  head = rolled_head produced (previous_of (surviving produced c.generations)) c.head;
  consumed = still_consumed produced c.consumed;
  status = untrusted;
}

-- A chain without a state of the key is left alone.
unfoldable pub rolled : Option String → Chain → Chain
rolled key c =
    let produced = produced_by key c.generations in
    if is_nil produced then c else roll_back_chain produced c

-- The manifest entries of the steps downstream of the key on a chain.
abbrev pub downstream_of : Option String → Chain → List String
downstream_of key c =
    let order = order_of c.generations in
    downstream order (first_of order (produced_by key c.generations)) c.consumed

-- One round of the loop over the chains; the chain is updated in its place of the journal.
unfoldable pub invalidate_chains :
    (String → Bool) → Option String → Journal → Dict Entry → Dict ℕ → Cache
invalidate_chains works key [] manifest states = record {
  manifest = manifest;
  states = states;
  chains = [];
}
invalidate_chains works key ((cid, c) ∷ chains) manifest states =
    let rest =
      invalidate_chains works key chains (remove_entries (downstream_of key c) manifest)
        (remove_snapshots works (produced_by key c.generations) states) in
    record rest { chains = (cid, rolled key c) ∷ rest.chains }

-- Without a key nothing names the states of the step.
unfoldable pub invalidate_states : (String → Bool) → Option String → Cache → Cache
invalidate_states works none cache = cache
invalidate_states works (some key) cache =
    invalidate_chains works (some key) cache.chains cache.manifest cache.states

unfoldable pub invalidate : (String → Bool) → String → Cache → Result LifecycleError Cache
invalidate works step cache =
    let key = cache_key_of (get step cache.manifest) in
    if any (λ entry. blocks step key entry.1) cache.chains
    then refused in_flight_group
    else ok (
        invalidate_states works key
          (record cache { manifest = remove_entries (step ∷ []) cache.manifest }))
