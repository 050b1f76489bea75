-- ===== src/Ownership/Inspect/Own.antt =====
-- When the files of a detached workflow are those of its owner.
use stimela_ninja.Prelude.{
  String, Bool, true, false, Option, none, some, List, [], ◌∷◌, all, All, is_some, ap, ◌&&◌, ◌∙◌,
  ◌≡◌, refl, arith,
}
use stimela_ninja.Prelude.Dict.{get}
use stimela_ninja.Prelude.Results.{Result, ok, and_then, check, check_ok}
use stimela_ninja.Ownership.{WorkspaceOwner, same_accesses}
use stimela_ninja.Ownership.Inspect.{
  SubmittedJob, Submission, Mismatch, check_submission, is_text, identity, requirement, foreign_job,
  duplicate_job, unplanned_job, wrong_attempt, distinct_steps,
}
use text.Mathlib.Text.{◌==◌}
use text.Mathlib.TextEquality.{eq_iff}

-- A job that the scheduler accepted for the attempt that was planned for its step.
abbrev pub IsPlanned : WorkspaceOwner → Submission → SubmittedJob → Type 0
IsPlanned owner s j =
    (j.workflow_id ≡ owner.workflow_id)
    × (j.bundle_digest ≡ s.frozen_digest)
    × (get j.step_path s.planned ≡ some j.attempt_id)

-- The submission is the owner's: the identities of all its files agree.
pub record IsOwn (owner : WorkspaceOwner) (s : Submission) : Type 0 where
  pub submitted_id : s.workflow_id ≡ owner.workflow_id
  pub executed_id : s.execution_workflow ≡ owner.workflow_id
  pub submitted_digest : s.bundle_digest ≡ s.frozen_digest
  pub executed_digest : s.execution_digest ≡ s.frozen_digest
  pub workspace : s.ownership_workspace ≡ some owner.workspace
  pub registry : s.ownership_registry ≡ some owner.registry
  pub is_required : s.ownership_required ≡ true
  pub accesses : same_accesses s.accesses owner.accesses ≡ true
  pub jobs : All (IsPlanned owner s) s.jobs

check_then :
    (b : Bool) (g : Mismatch) (f : Unit {0} → Result Mismatch (Unit {0}))
    → and_then (check b g) f ≡ ok tt
    → (b ≡ true) × (f tt ≡ ok tt)
check_then true g f e = (refl, e)
check_then false g f e = ground (arith, e)

is_text-some : (o : Option String) (b : String) → is_text o b ≡ true → o ≡ some b
is_text-some none b e = ground (arith, e)
is_text-some (some a) b e = ap some ((eq_iff a b).0 e)

pub and_true : (a b : Bool) → (a && b) ≡ true → (a ≡ true) × (b ≡ true)
and_true a b e = (ground (arith, e), ground (arith, e))

eq_both : (a b c d : String) → (a == b && c == d) ≡ true → (a ≡ b) × (c ≡ d)
eq_both a b c d e =
    let (l, r) = and_true (a == b) (c == d) e in ((eq_iff a b).0 l, (eq_iff c d).0 r)

jobs-IsPlanned :
    (owner : WorkspaceOwner) (s : Submission) (jobs : List SubmittedJob)
    → s.workflow_id ≡ owner.workflow_id
    → all (λ j. j.workflow_id == s.workflow_id && j.bundle_digest == s.frozen_digest) jobs ≡ true
    → all (λ j. is_text (get j.step_path s.planned) j.attempt_id) jobs ≡ true
    → All (IsPlanned owner s) jobs
jobs-IsPlanned owner s [] o e h = tt
jobs-IsPlanned owner s (j ∷ jobs) o e h =
    let (a, as_) =
      and_true (j.workflow_id == s.workflow_id && j.bundle_digest == s.frozen_digest)
        (all (λ k. k.workflow_id == s.workflow_id && k.bundle_digest == s.frozen_digest) jobs) e in
    let (b, bs) =
      and_true (is_text (get j.step_path s.planned) j.attempt_id)
        (all (λ k. is_text (get k.step_path s.planned) k.attempt_id) jobs) h in
    let (w, d) = eq_both j.workflow_id s.workflow_id j.bundle_digest s.frozen_digest a in
    (
      (w ∙ o, d, is_text-some (get j.step_path s.planned) j.attempt_id b),
      jobs-IsPlanned owner s jobs o as_ bs,
    )

pub check_submission-IsOwn :
    (owner : WorkspaceOwner) (s : Submission) → check_submission owner s ≡ ok tt → IsOwn owner s
unfolding check_submission
check_submission-IsOwn owner s e =
    let (identities, e1) =
      check_then (s.workflow_id == owner.workflow_id && s.execution_workflow == s.workflow_id)
        identity _ e in
    let (digests', e2) =
      check_then (s.bundle_digest == s.frozen_digest && s.execution_digest == s.frozen_digest)
        Mismatch.digests _ e1 in
    let (place, e3) =
      check_then (is_text s.ownership_workspace owner.workspace) Mismatch.workspace _ e2 in
    let (entry, e4) =
      check_then (is_text s.ownership_registry owner.registry) Mismatch.registry _ e3 in
    let (required, e5) =
      check_then (s.ownership_required && same_accesses s.accesses owner.accesses) requirement _
        e4 in
    let (foreign, e6) =
      check_then
        (all (λ j. j.workflow_id == s.workflow_id && j.bundle_digest == s.frozen_digest) s.jobs)
        foreign_job _ e5 in
    let (distinct, e7) = check_then (distinct_steps s.jobs) duplicate_job _ e6 in
    let (planned, e8) =
      check_then (all (λ j. is_some (get j.step_path s.planned)) s.jobs) unplanned_job _ e7 in
    let (id, execution) =
      eq_both s.workflow_id owner.workflow_id s.execution_workflow s.workflow_id identities in
    let (bundle, executed) =
      eq_both s.bundle_digest s.frozen_digest s.execution_digest s.frozen_digest digests' in
    let (flag, same) =
      and_true s.ownership_required (same_accesses s.accesses owner.accesses) required in
    record {
      submitted_id = id;
      executed_id = execution ∙ id;
      submitted_digest = bundle;
      executed_digest = executed;
      workspace = is_text-some s.ownership_workspace owner.workspace place;
      registry = is_text-some s.ownership_registry owner.registry entry;
      is_required = flag;
      accesses = same;
      jobs = jobs-IsPlanned owner s s.jobs id foreign (check_ok _ wrong_attempt tt e8);
    }
