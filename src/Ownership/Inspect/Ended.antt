-- ===== src/Ownership/Inspect/Ended.antt =====
-- When the jobs of a detached workflow have ended.
use stimela_ninja.Prelude.{
  String, Bool, true, false, not, Option, none, some, List, [], ◌∷◌, any, All, In, ◌&&◌, ◌||◌, ◌∙◌,
  ◌≡◌, refl, arith, Bool-cases, inl, inr, ◌⊎◌,
}
use stimela_ninja.Prelude.Dict.{Dict, get}
use stimela_ninja.Ownership.{WorkspaceOwner}
use stimela_ninja.Ownership.Inspect.{
  dead, SubmittedJob, Submission, Settlement, settles, outcome, has_step, or_unknown, failed_states,
  scheduler_attempt_state,
}
use text.Mathlib.Text.{◌==◌, starts_with}
use text.Mathlib.TextEquality.{eq_iff}
use stimela_ninja.Ownership.Inspect.Own.{and_true}

-- The words of the scheduler after which a job does not run again.
abbrev pub Ended : String → Type 0
Ended word =
    (starts_with word "CANCELLED" ≡ true)
    ⊎ In word (
        "COMPLETED" ∷ "FAILED" ∷ "TIMEOUT" ∷ "NODE_FAIL" ∷ "OUT_OF_MEMORY" ∷ "PREEMPTED"
        ∷ "BOOT_FAIL" ∷ "DEADLINE" ∷ "REVOKED" ∷ "SPECIAL_EXIT" ∷ [])

-- The scheduler reports such a word of the job.
abbrev pub HasEnded : Dict String → SubmittedJob → Type 0
HasEnded states j = (word : String) × (get j.step_path states ≡ some word) × Ended word

abbrev pub HasJob : List SubmittedJob → String × String → Type 0
HasJob jobs entry = (j : SubmittedJob) × In j jobs × (j.step_path ≡ entry.0)

-- The settlement that a lifecycle leaves behind, where there is one, is the owner's and of the
-- current attempts.
abbrev pub HasSettlement : WorkspaceOwner → Submission → Type 0
HasSettlement owner s =
    (s.has_lifecycle ≡ false)
    ⊎ ((t : Settlement) × (s.settlement ≡ some t)
        × (t.workflow_id ≡ owner.workflow_id)
        × (t.bundle_digest ≡ s.frozen_digest)
        × (t.current_attempts ≡ true))

any-listed :
    (word : String) (words : List String)
    → any (λ state. word == state) words ≡ true
    → In word words
any-listed word [] e = ground (arith, e)
any-listed word (w ∷ words) e = elim (Bool-cases (word == w)) [
  | inl h ↦ inl ((eq_iff word w).0 h)
  | inr h ↦ inr (any-listed word words (ground (arith, e, h)))
]

terminal-Ended : (word : String) → (scheduler_attempt_state word).1 ≡ true → Ended word
unfolding scheduler_attempt_state
terminal-Ended word e = elim (Bool-cases (starts_with word "CANCELLED")) [
  | inl c ↦ inl c
  | inr c ↦ elim (Bool-cases (any (λ state. word == state) failed_states)) [
    | inl f ↦ inr (inr (any-listed word failed_states f))
    | inr f ↦ elim (Bool-cases (word == "COMPLETED")) [
      | inl d ↦ inr (inl ((eq_iff word "COMPLETED").0 d))
      | inr d ↦ ground (arith, e, c, f, d)
    ]
  ]
]

outcome-HasEnded :
    (states : Dict String) (j : SubmittedJob) (o : Option String)
    → get j.step_path states ≡ o
    → (scheduler_attempt_state (or_unknown o)).1 ≡ true
    → HasEnded states j
unfolding scheduler_attempt_state
outcome-HasEnded states j none g e = ground (arith, e)
outcome-HasEnded states j (some word) g e = (word, g, terminal-Ended word e)

not_or_false : (b r : Bool) → (not b || r) ≡ false → (b ≡ true) × (r ≡ false)
not_or_false true r e = (refl, e)
not_or_false false r e = ground (arith, e)

pub jobs-HasEnded :
    (states : Dict String) (jobs : List SubmittedJob)
    → any (λ j. not (outcome states j).1) jobs ≡ false
    → All (HasEnded states) jobs
unfolding outcome
jobs-HasEnded states [] e = tt
jobs-HasEnded states (j ∷ jobs) e =
    let (here, rest) =
      not_or_false (outcome states j).1 (any (λ k. not (outcome states k).1) jobs) e in
    (outcome-HasEnded states j (get j.step_path states) refl here, jobs-HasEnded states jobs rest)

has_step-In :
    (entry : String × String) (jobs : List SubmittedJob)
    → has_step entry.0 jobs ≡ true
    → HasJob jobs entry
has_step-In entry [] e = ground (arith, e)
has_step-In entry (j ∷ jobs) e = elim (Bool-cases (j.step_path == entry.0)) [
  | inl h ↦ (j, inl refl, (eq_iff j.step_path entry.0).0 h)
  | inr h ↦ let (k, i, q) = has_step-In entry jobs (ground (arith, e, h)) in (k, inr i, q)
]

pub planned-HasJob :
    (jobs : List SubmittedJob) (planned : Dict String)
    → any (λ entry. not (has_step entry.0 jobs)) planned ≡ false
    → All (HasJob jobs) planned
planned-HasJob jobs [] e = tt
planned-HasJob jobs (entry ∷ planned) e =
    let (here, rest) =
      not_or_false (has_step entry.0 jobs) (any (λ other. not (has_step other.0 jobs)) planned) e in
    (has_step-In entry jobs here, planned-HasJob jobs planned rest)

pub settles-HasSettlement :
    (owner : WorkspaceOwner) (s : Submission) (o : Option Settlement)
    → s.workflow_id ≡ owner.workflow_id
    → s.settlement ≡ o
    → settles s o ≡ dead
    → HasSettlement owner s
unfolding settles
settles-HasSettlement owner s none i q e = ground (arith, e)
settles-HasSettlement owner s (some t) i q e =
    let agree : (t.workflow_id == s.workflow_id
          && (t.bundle_digest == s.frozen_digest && t.current_attempts))
        ≡ true =
      ground (arith, e) in
    let (w, rest) = and_true _ _ agree in
    let (d, c) = and_true (t.bundle_digest == s.frozen_digest) t.current_attempts rest in
    inr (
      t,
      q,
      (eq_iff t.workflow_id s.workflow_id).0 w ∙ i,
      (eq_iff t.bundle_digest s.frozen_digest).0 d,
      c,
    )
