-- ===== src/Ownership/Claim.antt =====
-- `acquire_workspace`, `release_workspace` and their cleanup in src/shinobi/ownership.py: a claim
-- is written to the workspace's store and to the shared registry, each of which can fail.
pub mod Records
pub mod Same
pub mod Backed
pub mod Settled
pub mod Dropped
use stimela_ninja.Prelude.{
  ℕ, String, Bool, true, false, not, ◌&&◌, ◌||◌, Option, none, some, List, [], ◌∷◌, any, all,
  is_nil, if◌then◌else◌,
}
use stimela_ninja.Prelude.Dict.{Dict, get, put, pop}
use stimela_ninja.Prelude.Results.{Result, ok, refused, and_then, check}
use stimela_ninja.Access.{Place, parts, same_place, is_relative_to}
use stimela_ninja.Ownership.{
  WorkspaceAccess, WorkspaceOwner, Kind, local, slurm, OwnershipError, changed_access,
  conflicting_metadata, unavailable, locked, no_registry_claim, same_claim, same_owner,
}
use stimela_ninja.Ownership.Registry
use stimela_ninja.Ownership.Registry.{Registry}
use stimela_ninja.Ownership.Root
use stimela_ninja.Ownership.Root.{RootData}

-- `merged[canonical] = merged.get(canonical, False) or writes`, on canonical paths.
pub merge : Place × Bool → List WorkspaceAccess → List WorkspaceAccess
unfolding same_place
merge (path, writes) [] = record { path = path; writes = writes } ∷ []
merge (path, writes) (a ∷ rest) =
    let merged = merge (path, writes) rest in
    if same_place a.path path
    then record { path = a.path; writes = a.writes || writes } ∷ rest
    else a ∷ merged

unfoldable pub merge_all : List (Place × Bool) → List WorkspaceAccess → List WorkspaceAccess
unfolding merge
merge_all [] merged = merged
merge_all (access ∷ rest) merged = merge_all rest (merge access merged)

-- Without accesses the claim is the whole workspace, for writing.
unfoldable pub canonical_accesses : Place → List (Place × Bool) → List WorkspaceAccess
unfolding merge_all
canonical_accesses workspace [] = merge_all ((workspace, true) ∷ []) []
canonical_accesses workspace (access ∷ rest) = merge_all (access ∷ rest) []

-- An access within the allocation that was validated before.
pub is_allowed : List (Place × Bool) → WorkspaceAccess → Bool
unfolding is_relative_to
is_allowed partition access =
    any
      (λ granted.
        is_relative_to (parts access.path) (parts granted.0) && (granted.1 || not access.writes))
      partition

abbrev pub all_allowed : Option (List (Place × Bool)) → List WorkspaceAccess → Bool
all_allowed none accesses = true
all_allowed (some partition) accesses = all (is_allowed partition) accesses

-- The stores, and the leases of this process for the workspace.
pub record World : Type 0 where
  pub root : RootData
  pub registry : Registry
  pub leases : Dict WorkspaceOwner

-- Which of the calls work: the liveness lock, the two stores, and the three calls of the cleanup.
pub record Faults : Type 0 where
  pub lock : Bool
  pub root : Bool
  pub registry : Bool
  pub root_undo : Bool
  pub redo : Bool

-- A lease, or an error with the notes of the cleanup.
pub data Outcome : Type 0 where
  leased : WorkspaceOwner → Outcome
  raised : OwnershipError → List OwnershipError → Outcome

-- An update that fails commits nothing.
abbrev pub attempt : {A : Type 0} → Bool → Result OwnershipError A → Result OwnershipError A
attempt true r = r
attempt false r = refused unavailable

-- The registry side is established again when the root could not be removed.
pub restored :
    OwnershipError
    → OwnershipError
    → World
    → Result OwnershipError (Bool × Registry)
    → World × Outcome
restored e c w (ok (inserted, registry)) = (record w { registry = registry }, raised e (c ∷ []))
restored e c w (refused c') = (w, raised e (c ∷ c' ∷ []))

pub undone :
    Faults
    → WorkspaceOwner
    → OwnershipError
    → World
    → Result OwnershipError (Bool × RootData)
    → World × Outcome
unfolding restored Registry.acquire
undone f owner e w (ok (removed, root)) = (record w { root = root }, raised e [])
undone f owner e w (refused c) = restored e c w (attempt f.redo (Registry.acquire owner w.registry))

-- The handler of a claim that the registry did not take.
pub roll_back : Faults → Bool → WorkspaceOwner → OwnershipError → World → World × Outcome
unfolding undone Root.release
roll_back f false owner e w = (w, raised e [])
roll_back f true owner e w =
    undone f owner e w (attempt f.root_undo (Root.release owner.workflow_id w.root))

pub registered :
    Faults
    → Bool
    → WorkspaceOwner
    → World
    → Result OwnershipError (Bool × Registry)
    → World × Outcome
unfolding roll_back
registered f added owner w (ok (inserted, registry)) =
    (record w { registry = registry; leases = put owner.workflow_id owner w.leases }, leased owner)
registered f added owner w (refused e) = roll_back f added owner e w

pub rooted :
    Faults → World → Result OwnershipError (WorkspaceOwner × Bool × RootData) → World × Outcome
unfolding registered Registry.acquire
rooted f w (ok (persisted, added, root)) =
    registered f added persisted (record w { root = root })
      (attempt f.registry (Registry.acquire persisted w.registry))
rooted f w (refused e) = (w, raised e [])

pub lease : Faults → WorkspaceOwner → World → Option WorkspaceOwner → World × Outcome
unfolding rooted Root.acquire same_claim
lease f owner w (some existing) =
    if same_claim existing owner
    then (w, leased existing)
    else (w, raised (conflicting_metadata owner.workflow_id) [])
lease f owner w none = elim owner.kind [
  | slurm ↦ rooted f w (attempt f.root (Root.acquire owner w.root))
  | local ↦
      if f.lock
      then rooted f w (attempt f.root (Root.acquire owner w.root))
      else (w, raised locked [])
]

-- The claim as `acquire_workspace` builds it from its arguments, under a partition or none.
unfoldable pub acquire_workspace :
    Faults → Option (List (Place × Bool)) → WorkspaceOwner → World → World × Outcome
unfolding lease is_allowed
acquire_workspace f partition owner w =
    if all_allowed partition owner.accesses
    then lease f owner w (get owner.workflow_id w.leases)
    else (w, raised changed_access [])

-- Which calls of a release work: the two stores, and the restoration of the root.
pub record ReleaseFaults : Type 0 where
  pub root : Bool
  pub registry : Bool
  pub restore : Bool

pub data Released : Type 0 where
  released : Bool → Released
  failed : OwnershipError → List OwnershipError → Released

pub root_restored :
    World → Result OwnershipError (WorkspaceOwner × Bool × RootData) → World × Released
root_restored w (ok (persisted, added, root)) = (record w { root = root }, failed unavailable [])
root_restored w (refused c) = (w, failed unavailable (c ∷ []))

pub root_released :
    ReleaseFaults
    → WorkspaceOwner
    → World
    → Result OwnershipError (Bool × RootData)
    → World × Released
unfolding root_restored Root.acquire Registry.release
root_released f owner w (refused e) = (w, failed e [])
root_released f owner w (ok (false, root)) =
    (record w { leases = pop owner.workflow_id w.leases }, released true)
root_released f owner w (ok (true, root)) =
    if f.registry
    then (
      record w {
        root = root;
        registry = (Registry.release owner.workflow_id w.registry).1;
        leases = pop owner.workflow_id w.leases;
      },
      released true,
    )
    else root_restored (record w { root = root }) (attempt f.restore (Root.acquire owner root))

-- `store.release` of a workflow that the workspace does not record.
pub absent : World → Result OwnershipError (Bool × RootData) → World × Released
absent w (ok (removed, root)) = (record w { root = root }, released removed)
absent w (refused e) = (w, failed e [])

-- `release_workspace`: the root record first, then the registry's.
pub release_current :
    ReleaseFaults
    → String
    → World
    → Result OwnershipError (Option WorkspaceOwner)
    → World × Released
unfolding absent root_released Root.release
release_current f workflow w (refused e) = (w, failed e [])
release_current f workflow w (ok none) = absent w (attempt f.root (Root.release workflow w.root))
release_current f workflow w (ok (some owner)) =
    root_released f owner w (attempt f.root (Root.release owner.workflow_id w.root))

unfoldable pub release_workspace : ReleaseFaults → String → World → World × Released
unfolding release_current Root.owner_in
release_workspace f workflow w = release_current f workflow w (Root.owner_in workflow w.root)

-- `_require_registry`
unfoldable pub require_registry : WorkspaceOwner → Registry → Result OwnershipError (Unit {0})
unfolding Registry.owner_of same_owner
require_registry owner registry = elim (Registry.owner_of owner.workflow_id registry) [
  | none ↦ refused no_registry_claim
  | some claim ↦ check (same_owner claim owner) no_registry_claim
]
