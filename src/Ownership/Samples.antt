-- ===== src/Ownership/Samples.antt =====
-- Claims of a few workflows on one workspace.
use stimela_ninja.Prelude.{
  String, Bool, true, false, ◌||◌, ◌&&◌, none, some, List, [], ◌∷◌, ◌≡◌, ◌≢◌, refl, inl, inr, ◌⊎◌,
  arith,
}
use stimela_ninja.Prelude.Dict.{get, put, pop}
use stimela_ninja.Prelude.Results.{refused}
use stimela_ninja.Access.{Place, parts, path_eq, paths_overlap}
use stimela_ninja.Ownership.{
  WorkspaceOwner, local, path_conflict, unavailable, same_owner, accesses_conflict, owners_conflict,
}
use stimela_ninja.Ownership.Registry
use stimela_ninja.Ownership.Registry.Exclusive.{claim, drop, calls, calls_exclusive}
use stimela_ninja.Ownership.Root
use stimela_ninja.Ownership.Root.{RootData}
use stimela_ninja.Ownership.Claim.{
  World, Faults, leased, raised, canonical_accesses, acquire_workspace, ReleaseFaults, released,
  failed, release_workspace,
}
use stimela_ninja.Ownership.Claim.Backed.{IsBacked}
use stimela_ninja.Ownership.Claim.Settled.{failed_twice, acquire_workspace-IsBacked}
use stimela_ninja.Ownership.Claim.Dropped.{release_workspace-IsBacked}
use stimela_ninja.Ownership.Inspect.{Evidence, reconciled, refused_as, live, reconcile_ownership}
use stimela_ninja.Ownership.Inspect.Dead.{Reconciles, reconcile_ownership-IsDead}
use text.Mathlib.TextEquality.{eq_iff}

abbrev table : Place
table = ("/", "data" ∷ "obs.ms" ∷ [])

abbrev column : Place
column = ("/", "data" ∷ "obs.ms" ∷ "DATA" ∷ [])

abbrev image : Place
image = ("/", "data" ∷ "image" ∷ [])

abbrev owner_of : String → List (Place × Bool) → WorkspaceOwner
owner_of workflow accesses = record {
  workflow_id = workflow;
  kind = local;
  workspace = "/data";
  acquired_at = 5;
  submission = none;
  accesses = canonical_accesses ("/", "data" ∷ []) accesses;
  registry = "/home/registry.json";
  partitioned = false;
}

abbrev flagging : WorkspaceOwner
flagging = owner_of "flagging" ((column, true) ∷ (table, false) ∷ (column, false) ∷ [])

abbrev plotting : WorkspaceOwner
plotting = owner_of "plotting" ((table, false) ∷ [])

abbrev drawing : WorkspaceOwner
drawing = owner_of "drawing" ((image, true) ∷ [])

program : Unit {0}
unfolding path_eq calls Registry.acquire Registry.release get put pop same_owner owners_conflict
    accesses_conflict paths_overlap canonical_accesses acquire_workspace release_workspace
    Root.acquire Root.release Root.owners_of Root.saved failed_twice reconcile_ownership
program = tt

-- The reader overlaps the writer and is refused; the other writer is not.
registry_runs :
    (Registry.acquire plotting (calls (claim flagging ∷ []) [])
      ≡ refused (path_conflict "plotting"))
    × (get "drawing" (calls (claim flagging ∷ claim plotting ∷ claim drawing ∷ []) [])
        ≡ some drawing)
    × (get "plotting" (calls (claim flagging ∷ drop "flagging" ∷ claim plotting ∷ []) [])
        ≡ some plotting)
unfolding program
registry_runs = (refl, refl, refl)

calls_exclusive_example : ((true || true) && paths_overlap (parts column) (parts image)) ≡ false
unfolding program
calls_exclusive_example =
    calls_exclusive (claim flagging ∷ claim plotting ∷ claim drawing ∷ []) "flagging" "drawing"
      flagging drawing (record { path = column; writes = true })
      (record { path = image; writes = true }) apart refl refl (inl refl) (inl refl)
  where
    apart : flagging.workflow_id ≢ drawing.workflow_id
    apart e = ground (arith, (eq_iff flagging.workflow_id drawing.workflow_id).1 e)

abbrev nobody : World
nobody = record {
  root = record { schema_version = none; owners = none; owner = none };
  registry = [];
  leases = [];
}

nobody-IsBacked : IsBacked nobody
unfolding program
nobody-IsBacked [] e k o g = ground (arith, g)
nobody-IsBacked (x ∷ d) e k o g = ground (arith, e)

abbrev all_work : Faults
all_work = record { lock = true; root = true; registry = true; root_undo = true; redo = true }

-- The registry is unavailable, and so is the root when its record is to be removed again.
abbrev cleanup_fails : Faults
cleanup_fails = record {
  lock = true;
  root = true;
  registry = false;
  root_undo = false;
  redo = true;
}

claims_run :
    ((acquire_workspace all_work none flagging nobody).1 ≡ leased flagging)
    × ((acquire_workspace cleanup_fails none flagging nobody).1
        ≡ raised unavailable (unavailable ∷ []))
    × (get "flagging" (acquire_workspace cleanup_fails none flagging nobody).0.registry
        ≡ some flagging)
unfolding program
claims_run = (refl, refl, refl)

acquire_workspace-IsBacked_example :
    IsBacked (acquire_workspace cleanup_fails none flagging nobody).0
    ⊎ (failed_twice (acquire_workspace cleanup_fails none flagging nobody).1 ≡ true)
acquire_workspace-IsBacked_example =
    acquire_workspace-IsBacked cleanup_fails none flagging nobody nobody-IsBacked

abbrev held : World
held = (acquire_workspace all_work none flagging nobody).0

held-IsBacked : IsBacked held
unfolding program
held-IsBacked = elim (acquire_workspace-IsBacked all_work none flagging nobody nobody-IsBacked) [
  | inl h ↦ h
  | inr h ↦ ground (arith, h)
]

-- The registry cannot be written, so the root's record comes back.
abbrev registry_fails : ReleaseFaults
registry_fails = record { root = true; registry = false; restore = true }

release_runs : (release_workspace registry_fails "flagging" held).1 ≡ failed unavailable []
unfolding program
release_runs = refl

release_workspace-IsBacked_example : IsBacked (release_workspace registry_fails "flagging" held).0
release_workspace-IsBacked_example =
    release_workspace-IsBacked registry_fails "flagging" held held-IsBacked

abbrev lock_is : Bool → Evidence
lock_is held' = record { lock_held = some held'; submission = none; states = none }

abbrev no_faults : ReleaseFaults
no_faults = record { root = true; registry = true; restore = true }

reconcile_runs :
    ((reconcile_ownership no_faults none held (lock_is true)).1 ≡ refused_as live)
    × ((reconcile_ownership no_faults none held (lock_is false)).1
        ≡ reconciled flagging (released true))
unfolding program
reconcile_runs = (refl, refl)

reconcile_ownership-IsDead_example :
    Reconciles no_faults none held
      (lock_is false)
      (reconcile_ownership no_faults none held (lock_is false)).0
reconcile_ownership-IsDead_example = reconcile_ownership-IsDead no_faults none held (lock_is false)
