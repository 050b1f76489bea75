-- ===== src/Access/Planner/Ranked.antt =====
-- The check of `plan_recipe_accesses` for dependencies that do not point backwards.
use stimela_ninja.Prelude.{
  ◌≢◌, String, Bool, true, false, ◌||◌, List, [], ◌∷◌, ◌++◌, ◌≡◌, refl, arith, any, Bool-cases, inl,
  inr, subst, sym, ap, ◌∙◌, In, ◌<◌, leb,
}
use mathlib.Core.List.{append_assoc}
use stimela_ninja.Access.Planner.{
  Claim, Plan, Reason, fresh, claim_all, Step, step_claims, plan_all, plan_ranked, contradicts,
  rank, non_backward,
}
use stimela_ninja.Access.Planner.Order.{depends}
use stimela_ninja.Access.Planner.Conflicts.{claim_all-append}
use stimela_ninja.Access.Planner.Steps.{
  all_claims, all_claims-append, order_refused, order_planned, step_claims-name,
}
use stimela_ninja.Access.Planner.Backward.{made_by, made_by-append, Precedes, dependencies_backward}
use text.Mathlib.Text.{◌==◌}
use text.Mathlib.TextEquality.{eq_iff}

abbrev has_name : String → List Step → Bool
has_name n steps = any (λ s. s.name == n) steps

-- The steps of a recipe have names of their own.
abbrev pub HasNames : List Step → Type 0
HasNames [] = Unit
HasNames (s ∷ steps) = (has_name s.name steps ≡ false) × HasNames steps

has_name-append :
    (n : String) (xs ys : List Step) → has_name n (xs ++ ys) ≡ (has_name n xs || has_name n ys)
has_name-append n [] ys = refl
has_name-append n (x ∷ xs) ys = ground (arith, has_name-append n xs ys)

-- A later step's name is not an earlier one's.
HasNames-fresh :
    (done : List Step) (s : Step) (rest : List Step)
    → HasNames (done ++ s ∷ rest)
    → has_name s.name done ≡ false
HasNames-fresh [] s rest h = refl
HasNames-fresh (d ∷ done) s rest (e, h) = ground (
  arith,
  e,
  HasNames-fresh done s rest h,
  has_name-append d.name done (s ∷ rest),
  eq_iff d.name s.name,
  eq_iff s.name d.name,
)

rank-lt :
    (done : List Step) (s : Step) (rest : List Step) (p : String)
    → has_name s.name done ≡ false
    → has_name p done ≡ true
    → rank p (done ++ s ∷ rest) < rank s.name (done ++ s ∷ rest)
unfolding rank
rank-lt [] s rest p e h = ground (arith, h)
rank-lt (d ∷ done) s rest p e h = ground (arith, e, h, rank-lt done s rest p)

any-refuted :
    (f : Reason → Bool) (xs : List Reason)
    → ((x : Reason) → In x xs → f x ≡ true → ⊥)
    → any f xs ≡ false
any-refuted f [] h = refl
any-refuted f (x ∷ xs) h = elim (Bool-cases (f x)) [
  | inl e ↦ absurd (h x (inl refl) e)
  | inr e ↦ ground (arith, e, any-refuted f xs (λ y i. h y (inr i)))
]

depends-In :
    (r : Reason) (reasons : List Reason) → In r reasons → depends reasons r.name r.parent ≡ true
unfolding depends
depends-In r [] i = absurd (i tt)
depends-In r (x ∷ reasons) (inl e) =
    rw (sym e) (ground (arith, eq_iff r.name r.name, eq_iff r.parent r.parent))
depends-In r (x ∷ reasons) (inr i) = ground (arith, depends-In r reasons i)

made_by-name :
    (p n : String) (cs : List Claim)
    → ((c : Claim) → In c cs → c.name ≡ n)
    → made_by p cs ≡ true
    → n ≡ p
unfolding made_by
made_by-name p n [] h e = ground (arith, e)
made_by-name p n (c ∷ cs) h e = elim (Bool-cases (c.name == p)) [
  | inl q ↦ sym (h c (inl refl)) ∙ (eq_iff c.name p).0 q
  | inr q ↦ made_by-name p n cs (λ b i. h b (inr i)) (ground (arith, e, q))
]

made_by-has_name :
    (p : String) (steps : List Step) → made_by p (all_claims steps) ≡ true → has_name p steps ≡ true
unfolding all_claims made_by
made_by-has_name p [] e = ground (arith, e)
made_by-has_name p (s ∷ steps) e = elim (Bool-cases (made_by p (step_claims s))) [
  | inl h ↦
      ground (arith, eq_iff s.name p, made_by-name p s.name (step_claims s) (step_claims-name s) h)
  | inr h ↦
      ground
        (arith, e, h, made_by-append p (step_claims s) (all_claims steps), made_by-has_name p steps)
]

Precedes-made_by : (p n : String) (cs : List Claim) → Precedes p n cs → made_by p cs ≡ true
Precedes-made_by p n cs (before, c, after, e, _, m) =
    rw e (ground (arith, m, made_by-append p before (c ∷ after)))

-- The decision of the step after `done` passes the check.
decision_passes :
    (done : List Step) (s : Step) (rest : List Step)
    → HasNames (done ++ s ∷ rest)
    → any
        (non_backward (done ++ s ∷ rest) s.name)
        (claim_all (all_claims (done ++ s ∷ [])) fresh).reasons
      ≡ false
unfolding non_backward
decision_passes done s rest h =
    let alone = HasNames-fresh done s rest h in
    let reasons : List Reason = (claim_all (all_claims (done ++ s ∷ [])) fresh).reasons in
    any-refuted (non_backward (done ++ s ∷ rest) s.name) reasons λ r i e.
      let mine : r.name ≡ s.name = (eq_iff r.name s.name).0 (ground (arith, e)) in
      let late : leb (rank s.name (done ++ s ∷ rest)) (rank r.parent (done ++ s ∷ rest)) ≡ true =
        ground (arith, e) in
      let (found, other) =
        dependencies_backward (all_claims (done ++ s ∷ [])) s.name r.parent
          (subst (λ n. depends reasons n r.parent ≡ true) mine (depends-In r reasons i)) in
      let known =
        made_by-has_name r.parent (done ++ s ∷ []) (Precedes-made_by r.parent s.name _ found) in
      let distinct : s.name ≢ r.parent = λ q. other (sym q) in
      let earlier : has_name r.parent done ≡ true =
        ground (
          arith,
          known,
          has_name-append r.parent done (s ∷ []),
          eq_iff s.name r.parent,
          distinct,
        ) in
      ground (arith, late, rank-lt done s rest r.parent alone earlier)

claim_all-next :
    (done : List Step) (s : Step) (plan : Plan)
    → claim_all (all_claims done) fresh ≡ plan
    → claim_all (all_claims (done ++ s ∷ [])) fresh ≡ claim_all (step_claims s) plan
unfolding all_claims claim_all
claim_all-next done s plan e =
    ap (λ cs. claim_all cs fresh) (all_claims-append done (s ∷ []))
    ∙ claim_all-append (all_claims done) (step_claims s ++ []) fresh
    ∙ claim_all-append (step_claims s) [] (claim_all (all_claims done) fresh)
    ∙ ap (claim_all (step_claims s)) e

plan_ranked-from :
    (recipe done steps : List Step) (plan : Plan)
    → recipe ≡ done ++ steps
    → HasNames recipe
    → claim_all (all_claims done) fresh ≡ plan
    → plan_ranked recipe steps plan ≡ plan_all steps plan
unfolding plan_ranked plan_all
plan_ranked-from recipe done [] plan r h e = refl
plan_ranked-from recipe done (s ∷ steps) plan r h e =
    elim (Bool-cases (any (λ access. contradicts access s.generic) s.datasets)) [
      | inl c ↦ rw (order_refused s plan c) refl
      | inr c ↦
          let next = claim_all (step_claims s) plan in
          let made : claim_all (all_claims (done ++ s ∷ [])) fresh ≡ next =
            claim_all-next done s plan e in
          let passes : any (non_backward recipe s.name) next.reasons ≡ false =
            subst (λ x. any (non_backward x s.name) next.reasons ≡ false) (sym r)
              (subst (λ q. any (non_backward (done ++ s ∷ steps) s.name) q.reasons ≡ false) made
                (decision_passes done s steps (subst HasNames r h))) in
          rw (order_planned s plan c, passes)
            (plan_ranked-from recipe (done ++ s ∷ []) steps next
              (r ∙ sym (append_assoc done (s ∷ []) steps)) h made)
    ]

-- For a recipe whose steps have names of their own, the check for dependencies that do not point
-- backwards refuses nothing: the plan with the check is the plan without it.
pub plan_ranked-plan_all :
    (recipe : List Step) → HasNames recipe → plan_ranked recipe recipe fresh ≡ plan_all recipe fresh
unfolding all_claims claim_all
plan_ranked-plan_all recipe h = plan_ranked-from recipe [] recipe fresh refl h refl
