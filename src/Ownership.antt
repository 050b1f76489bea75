-- ===== src/Ownership.antt =====
-- The claims of workflows on paths: the records of src/shinobi/ownership.py and when two of them
-- exclude each other.
pub mod Registry
pub mod Root
pub mod Claim
pub mod Inspect
mod Samples
use stimela_ninja.Prelude.{
  ℕ, String, Bool, true, false, not, ◌&&◌, ◌||◌, Option, none, some, List, [], ◌∷◌, any, is_nil,
  if◌then◌else◌, nat_eq,
}
use stimela_ninja.Access.{Place, parts, same_place, paths_overlap}
use text.Mathlib.Text.{◌==◌}

-- `writes` is the strength of the reservation.
pub record WorkspaceAccess : Type 0 where
  pub path : Place
  pub writes : Bool

pub data Kind : Type 0 where
  local slurm : Kind

-- The schema version of a record is 2 just when it is partitioned.
pub record WorkspaceOwner : Type 0 where
  pub workflow_id : String
  pub kind : Kind
  pub workspace : String
  pub acquired_at : ℕ
  pub submission : Option String
  pub accesses : List WorkspaceAccess
  pub registry : String
  pub partitioned : Bool

pub data OwnershipError : Type 0 where
  unsupported_version missing_version : OwnershipError
  key_disagrees legacy_conflicts : String → OwnershipError
  conflicting_metadata owned_by not_owner path_conflict : String → OwnershipError
  changed_access no_registry_claim ambiguous : OwnershipError
  -- A store that could not be read or written, or a liveness lock that another process holds.
  unavailable locked : OwnershipError

abbrev pub bool_eq : Bool → Bool → Bool
bool_eq true b = b
bool_eq false b = not b

abbrev pub same_kind : Kind → Kind → Bool
same_kind local local = true
same_kind local slurm = false
same_kind slurm local = false
same_kind slurm slurm = true

abbrev pub same_text : Option String → Option String → Bool
same_text none none = true
same_text none (some b) = false
same_text (some a) none = false
same_text (some a) (some b) = a == b

abbrev pub same_access : WorkspaceAccess → WorkspaceAccess → Bool
same_access a b = same_place a.path b.path && bool_eq a.writes b.writes

pub same_accesses : List WorkspaceAccess → List WorkspaceAccess → Bool
unfolding same_place
same_accesses [] [] = true
same_accesses [] (b ∷ bs) = false
same_accesses (a ∷ as_) [] = false
same_accesses (a ∷ as_) (b ∷ bs) = same_access a b && same_accesses as_ bs

-- The stable identity of a claim, without the time of its acquisition.
pub same_claim : WorkspaceOwner → WorkspaceOwner → Bool
unfolding same_accesses
same_claim left right =
    left.workflow_id == right.workflow_id
    && (same_kind left.kind right.kind
        && (left.workspace == right.workspace
            && (same_text left.submission right.submission
                && (same_accesses left.accesses right.accesses
                    && (left.registry == right.registry
                        && bool_eq left.partitioned right.partitioned)))))

-- Equality of records: `left == right` of the source.
pub same_owner : WorkspaceOwner → WorkspaceOwner → Bool
unfolding same_claim
same_owner left right = same_claim left right && nat_eq left.acquired_at right.acquired_at

-- Two accesses of different workflows that must not coexist.
pub accesses_conflict : WorkspaceAccess → WorkspaceAccess → Bool
unfolding paths_overlap
accesses_conflict a b = (a.writes || b.writes) && paths_overlap (parts a.path) (parts b.path)

-- Records without accesses are old and cannot prove that they are disjoint from anything.
pub owners_conflict : WorkspaceOwner → WorkspaceOwner → Bool
unfolding accesses_conflict
owners_conflict left right =
    if is_nil left.accesses || is_nil right.accesses
    then true
    else any (λ a. any (accesses_conflict a) right.accesses) left.accesses

-- Every path of the claim is only read.
pub read_claim : WorkspaceOwner → Bool
read_claim owner = not (is_nil owner.accesses) && not (any (λ a. a.writes) owner.accesses)
