-- ===== src/Access/Planner/Steps.antt =====
-- From the claims to the steps that make them.
use mathlib.Core.List.{append_assoc}
use stimela_ninja.Prelude.{
  ◌⊎◌, String, Bool, true, false, ◌||◌, none, some, List, [], ◌∷◌, ◌++◌, ◌≡◌, refl, arith, map, inl,
  inr, subst, sym, ap, In, Bool-cases, ◌∙◌, any, if◌then◌else◌,
}
use stimela_ninja.Access.{Place, parts, paths_overlap, ResolvedDatasetAccess}
use stimela_ninja.Access.Planner.{
  Claim, Plan, fresh, claim_all, Step, step_claims, order_after, plan_all, and_then, contradicts,
  claims_of, dataset_claims, resource_claims, generic_claims, Generic, is_within,
  declared_resources,
}
use stimela_ninja.Access.Planner.Order.{Follows}
use stimela_ninja.Access.Planner.Conflicts.{conflict_ordered, claim_all-append}

unfoldable pub all_claims : List Step → List Claim
all_claims [] = []
all_claims (s ∷ steps) = step_claims s ++ all_claims steps

pub order_refused :
    (s : Step) (plan : Plan)
    → any (λ access. contradicts access s.generic) s.datasets ≡ true
    → order_after true s.name s.datasets s.generic plan ≡ none
unfolding order_after
order_refused s plan h = rw h refl

pub order_planned :
    (s : Step) (plan : Plan)
    → any (λ access. contradicts access s.generic) s.datasets ≡ false
    → order_after true s.name s.datasets s.generic plan ≡ some (claim_all (step_claims s) plan)
unfolding order_after
order_planned s plan h = rw h refl

-- A plan that is not refused is that of all the steps' claims.
plan_all-claim_all :
    (steps : List Step) (plan q : Plan)
    → plan_all steps plan ≡ some q
    → claim_all (all_claims steps) plan ≡ q
unfolding plan_all order_after all_claims claim_all
plan_all-claim_all [] plan q e = ground (arith, e)
plan_all-claim_all (s ∷ steps) plan q e =
    elim (Bool-cases (any (λ access. contradicts access s.generic) s.datasets)) [
      | inl h ↦
          ground
            (arith, e, ap (λ o. and_then o (λ next. plan_all steps next)) (order_refused s plan h))
      | inr h ↦
          claim_all-append (step_claims s) (all_claims steps) plan
          ∙ plan_all-claim_all steps (claim_all (step_claims s) plan) q (
              sym (ap (λ o. and_then o (λ next. plan_all steps next)) (order_planned s plan h)) ∙ e)
    ]

pub all_claims-append : (xs ys : List Step) → all_claims (xs ++ ys) ≡ all_claims xs ++ all_claims ys
unfolding all_claims
all_claims-append [] ys = refl
all_claims-append (x ∷ xs) ys =
    rw (all_claims-append xs ys)
      (sym (append_assoc (step_claims x) (all_claims xs) (all_claims ys)))

In-append : (a : Claim) (xs ys : List Claim) → In a (xs ++ ys) → In a xs ⊎ In a ys
In-append a [] ys i = inr i
In-append a (x ∷ xs) ys (inl e) = inl (inl e)
In-append a (x ∷ xs) ys (inr i) = elim (In-append a xs ys i) [ inl h ↦ inl (inr h) | inr h ↦ inr h ]

In-split :
    (a : Claim) (xs : List Claim)
    → In a xs
    → (pre : List Claim) × (post : List Claim) × (xs ≡ pre ++ a ∷ post)
In-split a [] i = absurd (i tt)
In-split a (x ∷ xs) (inl e) = ([], xs, ap (λ y. y ∷ xs) (sym e))
In-split a (x ∷ xs) (inr i) =
    let (pre, post, e) = In-split a xs i in (x ∷ pre, post, ap (λ ys. x ∷ ys) e)

In-map_name :
    (n : String) (f : Place → Claim) (b : Claim) (xs : List Place)
    → ((p : Place) → (f p).name ≡ n)
    → In b (map f xs)
    → b.name ≡ n
In-map_name n f b [] h i = absurd (i tt)
In-map_name n f b (x ∷ xs) h (inl e) = ap (λ c. c.name) e ∙ h x
In-map_name n f b (x ∷ xs) h (inr i) = In-map_name n f b xs h i

dataset_claims-name :
    (n : String) (b : Claim) (datasets : List ResolvedDatasetAccess)
    → In b (dataset_claims n datasets)
    → b.name ≡ n
unfolding dataset_claims resource_claims
dataset_claims-name n b [] i = absurd (i tt)
dataset_claims-name n b (d ∷ datasets) i =
    elim (In-append b (resource_claims n d) (dataset_claims n datasets) i) [
      | inl h ↦ In-map_name n _ b d.resources (λ p. refl) h
      | inr h ↦ dataset_claims-name n b datasets h
    ]

In-kept :
    (b c : Claim) (t : Bool) (kept : List Claim)
    → In b (if t then kept else c ∷ kept)
    → In b (c ∷ kept)
In-kept b c true kept i = inr i
In-kept b c false kept i = i

generic_claims-name :
    (n : String) (b : Claim) (declared : List Place) (generic : List Generic)
    → In b (generic_claims n declared generic)
    → b.name ≡ n
unfolding generic_claims
generic_claims-name n b declared [] i = absurd (i tt)
generic_claims-name n b declared ((place, writes, text) ∷ rest) i =
    elim (In-kept b _ (is_within place declared) (generic_claims n declared rest) i) [
      | inl e ↦ ap (λ c. c.name) e
      | inr h ↦ generic_claims-name n b declared rest h
    ]

-- A step's claims carry its name.
pub step_claims-name : (s : Step) (b : Claim) → In b (step_claims s) → b.name ≡ s.name
unfolding claims_of
step_claims-name s b i =
    elim (In-append b (dataset_claims s.name s.datasets)
      (generic_claims s.name (declared_resources s.datasets) s.generic) i) [
        | inl h ↦ dataset_claims-name s.name b s.datasets h
        | inr h ↦ generic_claims-name s.name b (declared_resources s.datasets) s.generic h
      ]

-- A step `x` before a step `y` in the plan, with what stands around them.
abbrev pub arranged : List Step → Step → List Step → Step → List Step → List Step
arranged before x between y after = before ++ x ∷ (between ++ y ∷ after)

-- The claims around `a` of `x` and `b` of `y`.
all_claims-arranged :
    (before between after : List Step) (x y : Step) (a b : Claim) (p q r s : List Claim)
    → step_claims x ≡ p ++ a ∷ q
    → step_claims y ≡ r ++ b ∷ s
    → all_claims (arranged before x between y after)
      ≡ (all_claims before ++ p)
        ++ a ∷ ((q ++ all_claims between ++ r) ++ b ∷ (s ++ all_claims after))
unfolding all_claims
all_claims-arranged before between after x y a b p q r s e f =
    rw
      (
        all_claims-append before (x ∷ (between ++ y ∷ after)),
        all_claims-append between (y ∷ after),
        e,
        f,
      )
      (simp append_assoc)

-- Where the planner refuses nothing: of two steps with accesses that overlap, one of them a write,
-- the later one in the plan's order is the earlier one by name, or waits for it, directly or
-- through other steps.
pub steps_ordered :
    (before between after : List Step) (x y : Step) (a b : Claim) (plan : Plan)
    → plan_all (arranged before x between y after) fresh ≡ some plan
    → In a (step_claims x)
    → In b (step_claims y)
    → paths_overlap (parts a.place) (parts b.place) ≡ true
    → (b.writes || a.writes) ≡ true
    → Follows plan.reasons y.name x.name
steps_ordered before between after x y a b plan e ia ib o w =
    let (p, q, ea) = In-split a (step_claims x) ia in
    let (r, s, eb) = In-split b (step_claims y) ib in
    let made =
      sym (
        ap (λ cs. claim_all cs fresh)
          (all_claims-arranged before between after x y a b p q r s ea eb))
      ∙ plan_all-claim_all (arranged before x between y after) fresh plan e in
    subst (λ n. Follows plan.reasons n x.name) (step_claims-name y b ib)
      (subst (Follows plan.reasons b.name) (step_claims-name x a ia) (
        subst (λ z. Follows z.reasons b.name a.name) made
          (conflict_ordered (all_claims before ++ p) (q ++ all_claims between ++ r)
            (s ++ all_claims after) a b o w)))
