-- ===== src/Ownership/Root.antt =====
-- `WorkspaceOwnershipStore` of src/shinobi/ownership.py: the owners of one workspace. The entries
-- are kept in the order of their insertion: the source sorts them when it writes and lists them.
use stimela_ninja.Prelude.{
  ℕ, String, Bool, true, false, not, ◌&&◌, ◌||◌, Option, none, some, [], ◌∷◌, any, is_some, nat_eq,
}
use stimela_ninja.Prelude.Dict.{Dict, get, put, pop}
use stimela_ninja.Prelude.Results.{Result, ok, refused, and_then, check}
use stimela_ninja.Ownership.{
  WorkspaceOwner, OwnershipError, unsupported_version, missing_version, key_disagrees,
  legacy_conflicts, conflicting_metadata, owned_by, not_owner, ambiguous, same_owner, same_claim,
  owners_conflict, read_claim,
}
use text.Mathlib.Text.{◌==◌}

-- The JSON object: version 1 has one `owner`, version 2 a mapping of `owners`.
pub record RootData : Type 0 where
  pub schema_version : Option ℕ
  pub owners : Option (Dict WorkspaceOwner)
  pub owner : Option WorkspaceOwner

abbrev pub is_two : Option ℕ → Bool
is_two none = false
is_two (some v) = nat_eq v 2

abbrev pub entries : Option (Dict WorkspaceOwner) → Dict WorkspaceOwner
entries none = []
entries (some owners) = owners

-- A key names the workflow of its record.
unfoldable pub check_keys : Dict WorkspaceOwner → Result OwnershipError (Unit {0})
check_keys [] = ok tt
check_keys ((k, owner) ∷ rest) =
    and_then (check (k == owner.workflow_id) (key_disagrees k)) λ _. check_keys rest

-- The version-1 record, beside the versioned ones.
unfoldable pub with_legacy :
    Option WorkspaceOwner → Dict WorkspaceOwner → Result OwnershipError (Dict WorkspaceOwner)
unfolding get put same_owner
with_legacy none owners = ok owners
with_legacy (some owner) owners = elim (get owner.workflow_id owners) [
  | none ↦ ok (put owner.workflow_id owner owners)
  | some previous ↦
      and_then (check (same_owner previous owner) (legacy_conflicts owner.workflow_id))
        λ _. ok owners
]

unfoldable pub owners_of : RootData → Result OwnershipError (Dict WorkspaceOwner)
unfolding check_keys with_legacy
owners_of data' =
    and_then
      (check (not (is_some data'.schema_version) || is_two data'.schema_version)
        unsupported_version)
      λ _.
        and_then (check (not (is_some data'.owners) || is_two data'.schema_version) missing_version)
          λ _.
            and_then (check_keys (entries data'.owners))
              λ _. with_legacy data'.owner (entries data'.owners)

unfoldable pub owner_in : String → RootData → Result OwnershipError (Option WorkspaceOwner)
unfolding owners_of get
owner_in workflow data' = and_then (owners_of data') λ owners. ok (get workflow owners)

abbrev only : Dict WorkspaceOwner → Result OwnershipError (Option WorkspaceOwner)
only [] = ok none
only ((k, owner) ∷ []) = ok (some owner)
only ((k, owner) ∷ x ∷ rest) = refused ambiguous

-- `owner()` without an identity.
unfoldable pub sole_owner : RootData → Result OwnershipError (Option WorkspaceOwner)
unfolding owners_of
sole_owner data' = and_then (owners_of data') only

-- Read-only claims share a workspace, and partitioned ones that are disjoint.
pub excludes : WorkspaceOwner → WorkspaceOwner → Bool
unfolding read_claim owners_conflict
excludes owner held =
    (not (read_claim owner) || not (read_claim held))
    && not (owner.partitioned && (held.partitioned && not (owners_conflict owner held)))

unfoldable pub saved : Dict WorkspaceOwner → RootData
saved owners = record { schema_version = some 2; owners = some owners; owner = none }

-- The claim beside the owners that are read, given the record of its own workflow.
unfoldable pub admit :
    WorkspaceOwner
    → RootData
    → Dict WorkspaceOwner
    → Option WorkspaceOwner
    → Result OwnershipError (WorkspaceOwner × Bool × RootData)
unfolding put same_claim excludes saved
admit owner data' owners (some current) =
    and_then (check (same_claim current owner) (conflicting_metadata owner.workflow_id))
      λ _. ok (current, false, data')
admit owner data' owners none =
    and_then (check (not (any (λ held. excludes owner held.1) owners)) (owned_by owner.workflow_id))
      λ _. ok (owner, true, saved (put owner.workflow_id owner owners))

-- The persisted owner, and whether this transaction inserted it.
unfoldable pub acquire :
    WorkspaceOwner → RootData → Result OwnershipError (WorkspaceOwner × Bool × RootData)
unfolding owners_of get admit
acquire owner data' =
    and_then (owners_of data') λ owners. admit owner data' owners (get owner.workflow_id owners)

unfoldable pub remove :
    String → RootData → Dict WorkspaceOwner → Result OwnershipError (Bool × RootData)
unfolding get pop saved
remove workflow data' [] = ok (false, data')
remove workflow data' (entry ∷ rest) =
    and_then (check (is_some (get workflow (entry ∷ rest))) (not_owner workflow))
      λ _. ok (true, saved (pop workflow (entry ∷ rest)))

unfoldable pub release : String → RootData → Result OwnershipError (Bool × RootData)
unfolding owners_of remove
release workflow data' = and_then (owners_of data') λ owners. remove workflow data' owners
