-- ===== src/Ownership/Claim/Same.antt =====
-- A record equals itself.
use stimela_ninja.Prelude.{
  String, true, Option, none, some, List, [], ◌∷◌, ◌≡◌, refl, arith, Bool-cases,
}
use stimela_ninja.Access.{same_place}
use stimela_ninja.Ownership.{
  same_text, same_kind, WorkspaceAccess, WorkspaceOwner, Kind, local, slurm, same_accesses,
  same_claim, same_owner,
}
use stimela_ninja.Access.Paths.{path_eq_refl}
use text.Mathlib.TextEquality.{eq_iff}

same_accesses_refl : (as_ : List WorkspaceAccess) → same_accesses as_ as_ ≡ true
unfolding same_accesses same_place
same_accesses_refl [] = refl
same_accesses_refl (a ∷ as_) = ground (
  arith,
  same_accesses_refl as_,
  path_eq_refl a.path.1,
  eq_iff a.path.0 a.path.0,
  Bool-cases a.writes,
)

same_text_refl : (t : Option String) → same_text t t ≡ true
same_text_refl none = refl
same_text_refl (some t) = ground (arith, eq_iff t t)

same_kind_refl : (k : Kind) → same_kind k k ≡ true
same_kind_refl local = refl
same_kind_refl slurm = refl

pub same_owner_refl : (o : WorkspaceOwner) → same_owner o o ≡ true
unfolding same_owner same_claim
same_owner_refl o = ground (
  arith,
  eq_iff o.workflow_id o.workflow_id,
  eq_iff o.workspace o.workspace,
  eq_iff o.registry o.registry,
  same_text_refl o.submission,
  same_kind_refl o.kind,
  same_accesses_refl o.accesses,
  Bool-cases o.partitioned,
)
