-- ===== src/Snapshots/Evict.antt =====
-- `_protected_names` and `evict` of src/shinobi/snapshots.py, with the snapshot directory as the
-- modification times of its states.
pub mod Protected
pub mod Kept
pub mod Freed
use stimela_ninja.Prelude.{
  ℕ, ◌+◌, String, Bool, true, false, not, ◌&&◌, ◌||◌, Option, none, some, List, [], ◌∷◌, ◌++◌, map,
  any, leb, ltb, is_some, is_nil, if◌then◌else◌, nat_eq,
}
use stimela_ninja.Prelude.Dict.{Dict, get, pop}
use stimela_ninja.Snapshots.{Generation, GroupItem, Marker, Chain, Journal}
use Prim.Native.String.{compare}
use text.Mathlib.Text.{◌==◌, is_lt}

-- The workspace paths that exist, and the snapshots with their times.
pub record Volume : Type 0 where
  pub exists : String → Bool
  pub states : Dict ℕ

abbrev pub optional : Option String → List String
optional none = []
optional (some n) = n ∷ []

abbrev pub group_names : List GroupItem → List String
group_names [] = []
group_names (item ∷ items) =
    optional item.rollback ++ (item.successor ∷ optional item.predecessor) ++ group_names items

abbrev pub marker_names : Option Marker → List String
marker_names none = []
marker_names (some m) =
    optional m.strict_rollback_state
    ++ optional m.strict_predecessor_state
    ++ elim m.strict_group [ none ↦ [] | some items ↦ group_names items ]

abbrev pub chain_names : Chain → List String
chain_names c =
    optional c.head
    ++ optional c.tainted_through
    ++ map (λ entry. entry.1) c.consumed
    ++ marker_names c.marker

unfoldable pub protected_names : Journal → List String
protected_names [] = []
protected_names ((cid, c) ∷ chains) = chain_names c ++ protected_names chains

-- A chain protects its names while its path exists or a step is in flight.
unfoldable pub protecting : Volume → Journal → Journal
protecting disk [] = []
protecting disk ((cid, c) ∷ chains) =
    let others = protecting disk chains in
    if disk.exists c.path || is_some c.marker then (cid, c) ∷ others else others

abbrev pub has : String → List String → Bool
has n names = any (λ m. m == n) names

abbrev pub Candidate : Type 0
Candidate = String × ℕ

-- The present states of one chain that nothing protects, in the order of the list.
unfoldable pub unprotected : List String → List Generation → List Candidate
unprotected protected [] = []
unprotected protected (g ∷ gs) =
    let others = unprotected protected gs in
    if g.snapshot_present && not (has g.name protected) then (g.name, g.size) ∷ others else others

unfoldable pub reverse : List Generation → List Generation
reverse [] = []
reverse (g ∷ gs) = reverse gs ++ (g ∷ [])

-- Pass 1: the live chains, each from its newest state on.
unfoldable pub superseded : Volume → List String → Journal → List Candidate
superseded disk protected [] = []
superseded disk protected ((cid, c) ∷ chains) =
    let others = superseded disk protected chains in
    if disk.exists c.path then unprotected protected (reverse c.generations) ++ others else others

abbrev pub age : Volume → String → ℕ
age disk n = elim (get n disk.states) [ none ↦ 0 | some time ↦ time ]

-- Pass 2: the chains whose path is gone.
unfoldable pub dead : Volume → List String → Journal → List (ℕ × Candidate)
dead disk protected [] = []
dead disk protected ((cid, c) ∷ chains) =
    let others = dead disk protected chains in
    if disk.exists c.path
    then others
    else map (λ candidate. (age disk candidate.0, candidate)) (unprotected protected c.generations)
      ++ others

-- Tuples compare by time, then by name, then by size.
abbrev pub before : ℕ × Candidate → ℕ × Candidate → Bool
before (s, (n, k)) (t, (m, l)) =
    ltb s t || (nat_eq s t && (is_lt (compare n m) || (n == m && ltb k l)))

unfoldable pub insert_by_age : ℕ × Candidate → List (ℕ × Candidate) → List (ℕ × Candidate)
insert_by_age x [] = x ∷ []
insert_by_age x (y ∷ ys) =
    let rest = insert_by_age x ys in if before y x then y ∷ rest else x ∷ y ∷ ys

unfoldable pub sorted : List (ℕ × Candidate) → List (ℕ × Candidate)
sorted [] = []
sorted (x ∷ xs) = insert_by_age x (sorted xs)

abbrev pub candidates : Volume → Journal → List Candidate
candidates disk chains =
    let protected = protected_names (protecting disk chains) in
    superseded disk protected chains ++ map (λ x. x.1) (sorted (dead disk protected chains))

-- The loop over the candidates: what is removed until enough is freed.
unfoldable pub free : ℕ → ℕ → List String → List Candidate → List Candidate
free target freed seen [] = []
free target freed seen ((n, size) ∷ rest) = elim (leb target freed) [
  | true ↦ []
  | false ↦ elim (has n seen) [
    | true ↦ free target freed seen rest
    | false ↦ (n, size) ∷ free target (freed + size) (n ∷ seen) rest
  ]
]

abbrev pub removed_by : Volume → ℕ → Journal → List Candidate
removed_by disk target chains = free target 0 [] (candidates disk chains)

-- `remove_snapshot_path(..., ignore_errors=True)`: a failure leaves the snapshot.
unfoldable pub remove_snapshots : (String → Bool) → List String → Dict ℕ → Dict ℕ
remove_snapshots works [] states = states
remove_snapshots works (n ∷ names) states =
    let rest = remove_snapshots works names states in if works n then pop n rest else rest

unfoldable pub mark : List String → List Generation → List Generation
mark dropped [] = []
mark dropped (g ∷ gs) =
    record g { snapshot_present = g.snapshot_present && not (has g.name dropped) } ∷ mark dropped gs

abbrev pub prune : List String → Chain → Chain
prune dropped c = record c { generations = mark dropped c.generations }

-- Every chain of the journal is updated under its own key.
unfoldable pub prune_all : List String → Journal → Journal
prune_all dropped [] = []
prune_all dropped ((cid, c) ∷ chains) = (cid, prune dropped c) ∷ prune_all dropped chains

pub record Evicted : Type 0 where
  pub removed : List Candidate
  pub states : Dict ℕ
  pub chains : Journal

unfoldable pub evict : (String → Bool) → Volume → ℕ → Journal → Evicted
evict works disk target chains =
    let removed = removed_by disk target chains in
    let dropped = map (λ x. x.0) removed in
    record {
      removed = removed;
      states = remove_snapshots works dropped disk.states;
      chains = if is_nil dropped then chains else prune_all dropped chains;
    }
