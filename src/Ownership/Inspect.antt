-- ===== src/Ownership/Inspect.antt =====
-- `inspect_ownership` and `reconcile_ownership` of src/shinobi/ownership.py: whether a recorded
-- owner is dead, from the evidence that its files and the scheduler give. A file that cannot be
-- read or parsed is an absent part of the evidence.
pub mod Own
pub mod Ended
pub mod Dead
use stimela_ninja.Prelude.{
  ℕ, String, Bool, true, false, not, ◌&&◌, ◌||◌, Option, none, some, List, [], ◌∷◌, any, all,
  is_nil, is_some, if◌then◌else◌,
}
use stimela_ninja.Prelude.Dict.{Dict, get}
use stimela_ninja.Prelude.Results.{Result, ok, refused, and_then, check, found}
use stimela_ninja.Ownership.{
  WorkspaceAccess, WorkspaceOwner, Kind, local, slurm, OwnershipError, same_accesses,
}
use stimela_ninja.Ownership.Claim.{
  World, ReleaseFaults, Released, released, failed, release_workspace, require_registry,
}
use stimela_ninja.Ownership.Root
use text.Mathlib.Text.{◌==◌, starts_with}

pub data Liveness : Type 0 where
  free live dead uncertain : Liveness

pub record OwnershipInspection : Type 0 where
  pub owner : Option WorkspaceOwner
  pub liveness : Liveness

-- One job that the scheduler accepted, and the attempt that was planned for its step.
pub record SubmittedJob : Type 0 where
  pub workflow_id : String
  pub bundle_digest : String
  pub step_path : String
  pub attempt_id : String

pub record Settlement : Type 0 where
  pub workflow_id : String
  pub bundle_digest : String
  pub current_attempts : Bool

-- What the submission directory of a detached workflow holds; `planned` gives attempts by step.
pub record Submission : Type 0 where
  pub workflow_id : String
  pub bundle_digest : String
  pub frozen_digest : String
  pub execution_workflow : String
  pub execution_digest : String
  pub ownership_workspace : Option String
  pub ownership_registry : Option String
  pub ownership_required : Bool
  pub accesses : List WorkspaceAccess
  pub planned : Dict String
  pub jobs : List SubmittedJob
  pub has_lifecycle : Bool
  pub settlement : Option Settlement

-- The liveness lock if it could be probed, the submission if it could be read, and the scheduler's
-- states by step if it answered.
pub record Evidence : Type 0 where
  pub lock_held : Option Bool
  pub submission : Option Submission
  pub states : Option (Dict String)

pub data Mismatch : Type 0 where
  identity digests workspace registry requirement foreign_job duplicate_job unplanned_job
        wrong_attempt :
      Mismatch

abbrev is_text : Option String → String → Bool
is_text none b = false
is_text (some a) b = a == b

abbrev has_step : String → List SubmittedJob → Bool
has_step step jobs = any (λ j. j.step_path == step) jobs

pub distinct_steps : List SubmittedJob → Bool
distinct_steps [] = true
distinct_steps (j ∷ jobs) = not (has_step j.step_path jobs) && distinct_steps jobs

-- The identities that have to agree before the jobs say anything of the owner.
pub check_submission : WorkspaceOwner → Submission → Result Mismatch (Unit {0})
unfolding same_accesses distinct_steps get
check_submission owner s =
    and_then
      (check (s.workflow_id == owner.workflow_id && s.execution_workflow == s.workflow_id) identity)
      λ _.
        and_then
          (check (s.bundle_digest == s.frozen_digest && s.execution_digest == s.frozen_digest)
            digests)
          λ _. and_then (check (is_text s.ownership_workspace owner.workspace) workspace) λ _.
            and_then (check (is_text s.ownership_registry owner.registry) registry) λ _.
              and_then
                (check (s.ownership_required && same_accesses s.accesses owner.accesses)
                  requirement)
                λ _.
                  and_then
                    (check
                      (all
                        (λ j. j.workflow_id == s.workflow_id && j.bundle_digest == s.frozen_digest)
                        s.jobs)
                      foreign_job)
                    λ _. and_then (check (distinct_steps s.jobs) duplicate_job) λ _.
                      and_then
                        (check (all (λ j. is_some (get j.step_path s.planned)) s.jobs)
                          unplanned_job)
                        λ _.
                          check (all (λ j. is_text (get j.step_path s.planned) j.attempt_id) s.jobs)
                            wrong_attempt

pub data AttemptState : Type 0 where
  cancelled failure unknown running : AttemptState

abbrev failed_states : List String
failed_states =
    "FAILED" ∷ "TIMEOUT" ∷ "NODE_FAIL" ∷ "OUT_OF_MEMORY" ∷ "PREEMPTED" ∷ "BOOT_FAIL" ∷ "DEADLINE"
    ∷ "REVOKED" ∷ "SPECIAL_EXIT" ∷ []

abbrev running_states : List String
running_states =
    "PENDING" ∷ "RUNNING" ∷ "CONFIGURING" ∷ "COMPLETING" ∷ "REQUEUED" ∷ "RESIZING" ∷ "SUSPENDED"
    ∷ "STOPPED" ∷ []

-- `_scheduler_attempt_state` of src/shinobi/offload/worker.py on the normalized word: the
-- observation, and whether it is terminal.
pub scheduler_attempt_state : String → AttemptState × Bool
scheduler_attempt_state word =
    if starts_with word "CANCELLED"
    then (cancelled, true)
    else if any (λ state. word == state) failed_states
    then (failure, true)
    else if word == "COMPLETED"
    then (unknown, true)
    else if any (λ state. word == state) running_states
    then (running, false)
    else (unknown, false)

abbrev or_unknown : Option String → String
or_unknown none = "UNKNOWN"
or_unknown (some word) = word

pub outcome : Dict String → SubmittedJob → AttemptState × Bool
unfolding get scheduler_attempt_state
outcome states job = scheduler_attempt_state (or_unknown (get job.step_path states))

abbrev is_unknown : AttemptState → Bool
is_unknown unknown = true
is_unknown _ = false

pub settles : Submission → Option Settlement → Liveness
settles s none = uncertain
settles s (some settlement) =
    if settlement.workflow_id == s.workflow_id
      && (settlement.bundle_digest == s.frozen_digest && settlement.current_attempts)
    then dead
    else uncertain

-- Planned steps without a job record.
abbrev missing : Submission → Bool
missing s = any (λ entry. not (has_step entry.0 s.jobs)) s.planned

pub judge : Submission → Dict String → Liveness
unfolding outcome settles
judge s states =
    if any (λ j. not (outcome states j).1 && not (is_unknown (outcome states j).0)) s.jobs
    then live
    else if any (λ j. not (outcome states j).1) s.jobs
    then uncertain
    else if missing s
    then uncertain
    else if s.has_lifecycle
    then settles s s.settlement
    else dead

pub judge_states : Submission → Option (Dict String) → Liveness
unfolding judge
judge_states s none = uncertain
judge_states s (some states) = judge s states

-- Without a job record the scheduler is not asked.
pub detached_checked : Submission → Option (Dict String) → Result Mismatch (Unit {0}) → Liveness
unfolding judge_states
detached_checked s states (refused e) = uncertain
detached_checked s states (ok _) = if is_nil s.jobs then uncertain else judge_states s states

pub detached : WorkspaceOwner → Option Submission → Option (Dict String) → Liveness
unfolding check_submission detached_checked
detached owner none states = uncertain
detached owner (some s) states = detached_checked s states (check_submission owner s)

-- `local_owner_live`
abbrev of_lock : Option Bool → Liveness
of_lock none = uncertain
of_lock (some true) = live
of_lock (some false) = dead

-- A detached owner without a submission directory has no submission to read.
abbrev submitted : WorkspaceOwner → Evidence → Option Submission
submitted owner e = elim owner.submission [ none ↦ none | some directory ↦ e.submission ]

pub of_kind : Kind → WorkspaceOwner → Evidence → Liveness
unfolding detached
of_kind local owner e = of_lock e.lock_held
of_kind slurm owner e = detached owner (submitted owner e) e.states

pub of_owner : WorkspaceOwner → Evidence → Result OwnershipError (Unit {0}) → Liveness
unfolding of_kind
of_owner owner e (refused g) = uncertain
of_owner owner e (ok _) = of_kind owner.kind owner e

pub nobody : Option String → World → Liveness
unfolding Root.sole_owner Root.owners_of
nobody workflow w = elim workflow [
  | none ↦ free
  | some id ↦ elim (Root.owners_of w.root) [
    | refused e ↦ uncertain
    | ok owners ↦ if is_nil owners then free else uncertain
  ]
]

pub of_record :
    Option String
    → World
    → Evidence
    → Result OwnershipError (Option WorkspaceOwner)
    → OwnershipInspection
unfolding nobody of_owner require_registry
of_record workflow w e (refused g) = record { owner = none; liveness = uncertain }
of_record workflow w e (ok none) = record { owner = none; liveness = nobody workflow w }
of_record workflow w e (ok (some owner)) = record {
  owner = some owner;
  liveness = of_owner owner e (require_registry owner w.registry);
}

-- The owner that is asked for, or the only one.
pub recorded : Option String → World → Result OwnershipError (Option WorkspaceOwner)
unfolding Root.sole_owner Root.owner_in
recorded none w = Root.sole_owner w.root
recorded (some workflow) w = Root.owner_in workflow w.root

pub inspect_ownership : Option String → World → Evidence → OwnershipInspection
unfolding of_record recorded
inspect_ownership workflow w e = of_record workflow w e (recorded workflow w)

pub data Reconciled : Type 0 where
  nothing_held : Reconciled
  refused_as : Liveness → Reconciled
  reconciled : WorkspaceOwner → Released → Reconciled

pub reconcile : ReleaseFaults → World → OwnershipInspection → World × Reconciled
unfolding release_workspace
reconcile f w i = elim i.owner [
  | none ↦ elim i.liveness [ free ↦ (w, nothing_held) | l ↦ (w, refused_as l) ]
  | some owner ↦ elim i.liveness [
    | dead ↦
        let (w', outcome') = release_workspace f owner.workflow_id w in
        (w', reconciled owner outcome')
    | l ↦ (w, refused_as l)
  ]
]

unfoldable pub reconcile_ownership :
    ReleaseFaults → Option String → World → Evidence → World × Reconciled
unfolding inspect_ownership reconcile
reconcile_ownership f workflow w e = reconcile f w (inspect_ownership workflow w e)
