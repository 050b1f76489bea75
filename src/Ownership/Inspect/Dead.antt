-- ===== src/Ownership/Inspect/Dead.antt =====
-- Only owners that the evidence shows to be dead are released.
use stimela_ninja.Prelude.{
  String, Bool, true, false, not, Option, none, some, List, [], any, All, is_nil, ap, ◌≢◌, ◌≡◌,
  refl, arith, Bool-cases, inl, inr, ◌⊎◌,
}
use stimela_ninja.Prelude.Dict.{Dict}
use stimela_ninja.Prelude.Results.{Result, ok, refused}
use stimela_ninja.Ownership.{WorkspaceOwner, Kind, local, slurm, OwnershipError}
use stimela_ninja.Ownership.Claim.{World, ReleaseFaults, release_workspace}
use stimela_ninja.Ownership.Inspect.{
  Liveness, free, live, dead, uncertain, SubmittedJob, Submission, settles, Evidence, Mismatch,
  check_submission, outcome, judge, judge_states, detached_checked, detached, of_lock, submitted,
  of_kind, of_owner, nobody, of_record, recorded, inspect_ownership, reconcile, reconcile_ownership,
}
use stimela_ninja.Ownership.Claim.{require_registry}
use stimela_ninja.Ownership.Registry.{Registry}
use stimela_ninja.Ownership.Inspect.Own.{IsOwn, check_submission-IsOwn}
use stimela_ninja.Ownership.Inspect.Ended.{
  HasEnded, HasJob, HasSettlement, jobs-HasEnded, planned-HasJob, settles-HasSettlement,
}

-- The evidence that a detached workflow has ended: its submission is the owner's, there is a job,
-- every job has ended, and every planned step has one.
pub record IsSettled (owner : WorkspaceOwner) (s : Submission) (states : Dict String) : Type 0 where
  pub own : IsOwn owner s
  pub submitted : s.jobs ≢ []
  pub ended : All (HasEnded states) s.jobs
  pub complete : All (HasJob s.jobs) s.planned
  pub settlement : HasSettlement owner s

-- The evidence that an owner is dead: its liveness lock is free, or its jobs have settled.
abbrev pub IsDead : Evidence → WorkspaceOwner → Type 0
IsDead e owner =
    ((owner.kind ≡ local) × (e.lock_held ≡ some false))
    ⊎ ((owner.kind ≡ slurm)
        × ((s : Submission) × (states : Dict String) × (e.submission ≡ some s)
            × (e.states ≡ some states)
            × IsSettled owner s states))

judge-dead :
    (s : Submission) (states : Dict String)
    → judge s states ≡ dead
    → All (HasEnded states) s.jobs
      × All (HasJob s.jobs) s.planned
      × ((s.has_lifecycle ≡ false) ⊎ (settles s s.settlement ≡ dead))
unfolding judge
judge-dead s states e =
    let ended : any (λ j. not (outcome states j).1) s.jobs ≡ false = ground (arith, e) in
    (
      jobs-HasEnded states s.jobs ended,
      planned-HasJob s.jobs s.planned (ground (arith, e)),
      elim (Bool-cases s.has_lifecycle) [ inl h ↦ inr (ground (arith, e)) | inr h ↦ inl h ],
    )

states-dead :
    (owner : WorkspaceOwner) (s : Submission) (o : Option (Dict String))
    → IsOwn owner s
    → s.jobs ≢ []
    → judge_states s o ≡ dead
    → (states : Dict String) × (o ≡ some states) × IsSettled owner s states
unfolding judge_states
states-dead owner s none c n e = ground (arith, e)
states-dead owner s (some states) c n e =
    let (a, m, l) = judge-dead s states e in
    let settlement : HasSettlement owner s = elim l [
      | inl h ↦ inl h
      | inr h ↦ settles-HasSettlement owner s s.settlement c.submitted_id refl h
    ] in
    (
      states,
      refl,
      record { own = c; submitted = n; ended = a; complete = m; settlement = settlement },
    )

is_nil-not : (jobs : List SubmittedJob) → is_nil jobs ≡ false → jobs ≢ []
is_nil-not jobs e q = ground (arith, e, ap is_nil q)

checked-dead :
    (owner : WorkspaceOwner) (s : Submission) (o : Option (Dict String))
    (r : Result Mismatch (Unit {0}))
    → check_submission owner s ≡ r
    → detached_checked s o r ≡ dead
    → (states : Dict String) × (o ≡ some states) × IsSettled owner s states
unfolding detached_checked
checked-dead owner s o (refused g) c e = ground (arith, e)
checked-dead owner s o (ok tt) c e = elim (Bool-cases (is_nil s.jobs)) [
  | inl h ↦ ground (arith, e, h)
  | inr h ↦
      states-dead owner s o (check_submission-IsOwn owner s c) (is_nil-not s.jobs h)
        (rw (h, detached_checked) at e)
]

detached-dead :
    (owner : WorkspaceOwner) (t : Option Submission) (o : Option (Dict String))
    → detached owner t o ≡ dead
    → (s : Submission) × (states : Dict String) × (t ≡ some s)
      × (o ≡ some states)
      × IsSettled owner s states
unfolding detached
detached-dead owner none o e = ground (arith, e)
detached-dead owner (some s) o e =
    let (states, q, c) = checked-dead owner s o (check_submission owner s) refl e in
    (s, states, refl, q, c)

submitted-some :
    (directory : Option String) (t : Option Submission) (s : Submission)
    → elim directory [ none ↦ none | some d ↦ t ] ≡ some s
    → t ≡ some s
submitted-some none t s e = ground (arith, e)
submitted-some (some d) t s e = e

lock-dead : (l : Option Bool) → of_lock l ≡ dead → l ≡ some false
lock-dead none e = ground (arith, e)
lock-dead (some true) e = ground (arith, e)
lock-dead (some false) e = refl

kind-dead :
    (k : Kind) (owner : WorkspaceOwner) (e : Evidence)
    → owner.kind ≡ k
    → of_kind k owner e ≡ dead
    → IsDead e owner
unfolding of_kind
kind-dead local owner e k d = inl (k, lock-dead e.lock_held d)
kind-dead slurm owner e k d =
    let (s, states, t, q, settled) = detached-dead owner (submitted owner e) e.states d in
    inr (k, (s, states, submitted-some owner.submission e.submission s t, q, settled))

owner-dead :
    (owner : WorkspaceOwner) (e : Evidence) (registry : Registry)
    (r : Result OwnershipError (Unit {0}))
    → require_registry owner registry ≡ r
    → of_owner owner e r ≡ dead
    → (require_registry owner registry ≡ ok tt) × IsDead e owner
unfolding of_owner
owner-dead owner e registry (refused g) q d = ground (arith, d)
owner-dead owner e registry (ok tt) q d = (q, kind-dead owner.kind owner e refl d)

-- What a reconciliation does: nothing, or the release of the recorded owner, whose claim the
-- registry confirms and who is dead.
abbrev pub Reconciles : ReleaseFaults → Option String → World → Evidence → World → Type 0
Reconciles f workflow w e w' =
    (w' ≡ w)
    ⊎ ((owner : WorkspaceOwner) × (recorded workflow w ≡ ok (some owner))
        × (require_registry owner w.registry ≡ ok tt)
        × IsDead e owner
        × (w' ≡ (release_workspace f owner.workflow_id w).0))

reconcile-none :
    (f : ReleaseFaults) (workflow : Option String) (w : World) (e : Evidence) (l : Liveness)
    → Reconciles f workflow w e (reconcile f w (record { owner = none; liveness = l })).0
unfolding reconcile
reconcile-none f workflow w e free = inl refl
reconcile-none f workflow w e live = inl refl
reconcile-none f workflow w e dead = inl refl
reconcile-none f workflow w e uncertain = inl refl

reconcile-some :
    (f : ReleaseFaults) (workflow : Option String) (w : World) (e : Evidence)
    (owner : WorkspaceOwner) (l : Liveness)
    → recorded workflow w ≡ ok (some owner)
    → (l ≡ dead → (require_registry owner w.registry ≡ ok tt) × IsDead e owner)
    → Reconciles f workflow w e (reconcile f w (record { owner = some owner; liveness = l })).0
unfolding reconcile
reconcile-some f workflow w e owner free r d = inl refl
reconcile-some f workflow w e owner live r d = inl refl
reconcile-some f workflow w e owner dead r d =
    let (confirmed, evidence) = d refl in inr (owner, r, confirmed, evidence, refl)
reconcile-some f workflow w e owner uncertain r d = inl refl

record-Reconciles :
    (f : ReleaseFaults) (workflow : Option String) (w : World) (e : Evidence)
    (r : Result OwnershipError (Option WorkspaceOwner))
    → recorded workflow w ≡ r
    → Reconciles f workflow w e (reconcile f w (of_record workflow w e r)).0
unfolding of_record
record-Reconciles f workflow w e (refused g) q = reconcile-none f workflow w e uncertain
record-Reconciles f workflow w e (ok none) q = reconcile-none f workflow w e (nobody workflow w)
record-Reconciles f workflow w e (ok (some owner)) q =
    reconcile-some f workflow w e owner (of_owner owner e (require_registry owner w.registry)) q
      (owner-dead owner e w.registry (require_registry owner w.registry) refl)

-- A reconciliation leaves every store and lease as it is, or releases the owner that is recorded in
-- the workspace for the workflow (the only one, where none is named), whose claim the registry
-- confirms, on evidence that it is dead: the liveness lock of a local owner was probed and is free;
-- of a detached owner a submission was read whose identities, workspace, registry and accesses are
-- the owner's, there is a job, every job is of the planned attempt and its scheduler state was
-- reported to be cancelled, failed in a listed way or completed, every planned step has a job, and
-- the settlement of a lifecycle, where there is one, is the owner's and of the current attempts.
pub reconcile_ownership-IsDead :
    (f : ReleaseFaults) (workflow : Option String) (w : World) (e : Evidence)
    → Reconciles f workflow w e (reconcile_ownership f workflow w e).0
unfolding reconcile_ownership inspect_ownership
reconcile_ownership-IsDead f workflow w e =
    record-Reconciles f workflow w e (recorded workflow w) refl
