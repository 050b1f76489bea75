-- ===== src/Ownership/Registry.antt =====
-- `WorkspaceRegistryStore` of src/shinobi/ownership.py: the claims of all workspaces by workflow.
-- Each method is one update of its file, which runs alone.
pub mod Exclusive
use stimela_ninja.Prelude.{
  String, Bool, true, false, not, Option, none, some, any, is_some, if◌then◌else◌,
}
use stimela_ninja.Prelude.Dict.{Dict, get, put, pop}
use stimela_ninja.Prelude.Results.{Result, ok, refused, and_then, check}
use stimela_ninja.Ownership.{
  WorkspaceOwner, OwnershipError, conflicting_metadata, path_conflict, same_owner, owners_conflict,
}

abbrev pub Registry : Type 0
Registry = Dict WorkspaceOwner

-- Whether the transaction inserted the claim, with the registry after it.
unfoldable pub acquire : WorkspaceOwner → Registry → Result OwnershipError (Bool × Registry)
unfolding get put same_owner owners_conflict
acquire owner owners = elim (get owner.workflow_id owners) [
  | some current ↦
      and_then (check (same_owner current owner) (conflicting_metadata owner.workflow_id))
        λ _. ok (false, owners)
  | none ↦
      and_then
        (check (not (any (λ held. owners_conflict owner held.1) owners))
          (path_conflict owner.workflow_id))
        λ _. ok (true, put owner.workflow_id owner owners)
]

unfoldable pub owner_of : String → Registry → Option WorkspaceOwner
unfolding get
owner_of workflow owners = get workflow owners

unfoldable pub release : String → Registry → Bool × Registry
unfolding get pop
release workflow owners = (is_some (get workflow owners), pop workflow owners)
