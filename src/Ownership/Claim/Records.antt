-- ===== src/Ownership/Claim/Records.antt =====
-- The records that the calls of a claim find and leave.
use stimela_ninja.Prelude.{
  String, Bool, true, false, not, ◌||◌, Option, none, some, [], ◌∷◌, any, is_some, ◌≡◌, refl, sym,
  ap, subst, ◌∙◌, arith, Bool-cases, Option-cases, inl, inr, ◌⊎◌,
}
use stimela_ninja.Prelude.Dict.{Dict, get, put, pop}
use stimela_ninja.Prelude.Results.{ok, check, and_then_ok, check_ok, ok_inj}
use stimela_ninja.Ownership.{
  WorkspaceOwner, key_disagrees, legacy_conflicts, owned_by, not_owner, conflicting_metadata,
  unsupported_version, missing_version, same_claim, same_owner,
}
use stimela_ninja.Ownership.Root.{
  RootData, check_keys, with_legacy, owners_of, acquire, admit, remove, release, saved, excludes,
  entries, is_two,
}
use text.Mathlib.Text.{◌==◌}
use text.Mathlib.TextEquality.{eq_iff}

some_inj : (a b : WorkspaceOwner) → some a ≡ some b → a ≡ b
some_inj a b q = ap (λ o. elim o [ none ↦ a | some x ↦ x ]) q

-- The keys of a store are those of its records.
abbrev pub IsKeyed : Dict WorkspaceOwner → Type 0
IsKeyed d = check_keys d ≡ ok tt

IsKeyed-cons :
    (k : String) (x : WorkspaceOwner) (d : Dict WorkspaceOwner)
    → k ≡ x.workflow_id
    → IsKeyed d
    → IsKeyed ((k, x) ∷ d)
unfolding check_keys
IsKeyed-cons k x d e h = rw ((eq_iff k x.workflow_id).1 e) h

IsKeyed-uncons :
    (k : String) (x : WorkspaceOwner) (d : Dict WorkspaceOwner)
    → IsKeyed ((k, x) ∷ d)
    → (k ≡ x.workflow_id) × IsKeyed d
unfolding check_keys
IsKeyed-uncons k x d h =
    let (u, c, h') = and_then_ok (check (k == x.workflow_id) (key_disagrees k)) _ tt h in
    ((eq_iff k x.workflow_id).0 (check_ok (k == x.workflow_id) (key_disagrees k) u c), h')

put-IsKeyed :
    (o : WorkspaceOwner) (d : Dict WorkspaceOwner) → IsKeyed d → IsKeyed (put o.workflow_id o d)
unfolding put
put-IsKeyed o [] h = IsKeyed-cons o.workflow_id o [] refl h
put-IsKeyed o ((k, x) ∷ d) h =
    let (e, h') = IsKeyed-uncons k x d h in
    elim (Bool-cases (k == o.workflow_id)) [
      | inl q ↦ rw q (IsKeyed-cons o.workflow_id o d refl h')
      | inr q ↦ rw q (IsKeyed-cons k x (put o.workflow_id o d) e (put-IsKeyed o d h'))
    ]

pop-IsKeyed : (w : String) (d : Dict WorkspaceOwner) → IsKeyed d → IsKeyed (pop w d)
unfolding pop
pop-IsKeyed w [] h = h
pop-IsKeyed w ((k, x) ∷ d) h =
    let (e, h') = IsKeyed-uncons k x d h in
    elim (Bool-cases (k == w)) [
      | inl q ↦ rw q (pop-IsKeyed w d h')
      | inr q ↦ rw q (IsKeyed-cons k x (pop w d) e (pop-IsKeyed w d h'))
    ]

pub get-IsKeyed :
    (k : String) (o : WorkspaceOwner) (d : Dict WorkspaceOwner)
    → IsKeyed d
    → get k d ≡ some o
    → k ≡ o.workflow_id
unfolding get
get-IsKeyed k o [] h g = ground (arith, g)
get-IsKeyed k o ((j, x) ∷ d) h g =
    let (e, h') = IsKeyed-uncons j x d h in
    elim (Bool-cases (j == k)) [
      | inl q ↦ sym ((eq_iff j k).0 q) ∙ e ∙ ap (λ y. y.workflow_id) (some_inj x o (rw q at g))
      | inr q ↦ get-IsKeyed k o d h' (rw q at g)
    ]

-- A store that can be read has keyed records, the version-1 record among them.
with_legacy-IsKeyed :
    (l : Option WorkspaceOwner) (d e : Dict WorkspaceOwner)
    → IsKeyed d
    → with_legacy l d ≡ ok e
    → IsKeyed e
unfolding with_legacy
with_legacy-IsKeyed none d e h q = subst IsKeyed (ok_inj d e q) h
with_legacy-IsKeyed (some o) d e h q = elim (Option-cases (get o.workflow_id d)) [
  | inl n ↦
      subst IsKeyed (ok_inj (put o.workflow_id o d) e (rw (n, with_legacy) at q))
        (put-IsKeyed o d h)
  | inr (p, g) ↦
      let (u, c, q1) =
        and_then_ok (check (same_owner p o) (legacy_conflicts o.workflow_id)) _ e
          (rw (g, with_legacy) at q) in
      subst IsKeyed (ok_inj d e q1) h
]

pub owners_of-IsKeyed : (r : RootData) (d : Dict WorkspaceOwner) → owners_of r ≡ ok d → IsKeyed d
unfolding owners_of
owners_of-IsKeyed r d e =
    let (_, _, e1) =
      and_then_ok
        (check (not (is_some r.schema_version) || is_two r.schema_version) unsupported_version) _ d
        e in
    let (_, _, e2) =
      and_then_ok (check (not (is_some r.owners) || is_two r.schema_version) missing_version) _ d
        e1 in
    let (tt, k, e3) = and_then_ok (check_keys (entries r.owners)) _ d e2 in
    with_legacy-IsKeyed r.owner (entries r.owners) d k e3

pub owners_of-saved : (d : Dict WorkspaceOwner) → IsKeyed d → owners_of (saved d) ≡ ok d
unfolding owners_of saved with_legacy
owners_of-saved d h = rw h refl

-- The record that a claim meets or leaves, in a store with the owners `d`.
abbrev pub Admitted :
    WorkspaceOwner → WorkspaceOwner → Bool → RootData → RootData → Dict WorkspaceOwner → Type 0
Admitted o p added r r' d =
    ((p.workflow_id ≡ o.workflow_id) × (get p.workflow_id d ≡ some p) × (added ≡ false) × (r' ≡ r))
    ⊎ ((p ≡ o)
        × (get o.workflow_id d ≡ none)
        × (added ≡ true)
        × (owners_of r' ≡ ok (put o.workflow_id o d)))

admit-cases :
    (o p : WorkspaceOwner) (added : Bool) (r r' : RootData) (d : Dict WorkspaceOwner)
    (found : Option WorkspaceOwner)
    → IsKeyed d
    → get o.workflow_id d ≡ found
    → admit o r d found ≡ ok (p, added, r')
    → Admitted o p added r r' d
unfolding admit
admit-cases o p added r r' d (some c) k g e =
    let (_, _, e1) =
      and_then_ok (check (same_claim c o) (conflicting_metadata o.workflow_id)) _ (p, added, r')
        e in
    let q = ok_inj (c, false, r) (p, added, r') e1 in
    let cp : c ≡ p = ap (λ x. x.0) q in
    let w : o.workflow_id ≡ p.workflow_id =
      get-IsKeyed o.workflow_id c d k g ∙ ap (λ x. x.workflow_id) cp in
    inl (
      sym w,
      subst (λ x. get x d ≡ some p) w (g ∙ ap some cp),
      sym (ap (λ x. x.1) q),
      sym (ap (λ x. x.2) q),
    )
admit-cases o p added r r' d none k g e =
    let (_, _, e1) =
      and_then_ok (check (not (any (λ held. excludes o held.1) d)) (owned_by o.workflow_id)) _
        (p, added, r') e in
    let q = ok_inj (o, true, saved (put o.workflow_id o d)) (p, added, r') e1 in
    inr (
      sym (ap (λ x. x.0) q),
      g,
      sym (ap (λ x. x.1) q),
      subst (λ x. owners_of x ≡ ok (put o.workflow_id o d)) (ap (λ x. x.2) q)
          (owners_of-saved (put o.workflow_id o d) (put-IsKeyed o d k)),
    )

pub acquire-cases :
    (o p : WorkspaceOwner) (added : Bool) (r r' : RootData)
    → acquire o r ≡ ok (p, added, r')
    → (d : Dict WorkspaceOwner) × (owners_of r ≡ ok d) × Admitted o p added r r' d
unfolding acquire
acquire-cases o p added r r' e =
    let (d, q, e1) = and_then_ok (owners_of r) _ (p, added, r') e in
    (d, q, admit-cases o p added r r' d (get o.workflow_id d) (owners_of-IsKeyed r d q) refl e1)

remove-cases :
    (w : String) (b : Bool) (r r' : RootData) (d : Dict WorkspaceOwner)
    → IsKeyed d
    → remove w r d ≡ ok (b, r')
    → ((b ≡ false) × (r' ≡ r) × (d ≡ [])) ⊎ ((b ≡ true) × (owners_of r' ≡ ok (pop w d)))
unfolding remove
remove-cases w b r r' [] k e =
    let q = ok_inj (false, r) (b, r') e in inl (sym (ap (λ x. x.0) q), sym (ap (λ x. x.1) q), refl)
remove-cases w b r r' (x ∷ d) k e =
    let (_, _, e1) = and_then_ok (check (is_some (get w (x ∷ d))) (not_owner w)) _ (b, r') e in
    let q = ok_inj (true, saved (pop w (x ∷ d))) (b, r') e1 in
    inr (
      sym (ap (λ x. x.0) q),
      subst (λ y. owners_of y ≡ ok (pop w (x ∷ d))) (ap (λ x. x.1) q)
          (owners_of-saved (pop w (x ∷ d)) (pop-IsKeyed w (x ∷ d) k)),
    )

pub release-cases :
    (w : String) (b : Bool) (r r' : RootData)
    → release w r ≡ ok (b, r')
    → (d : Dict WorkspaceOwner) × (owners_of r ≡ ok d)
      × (((b ≡ false) × (r' ≡ r) × (d ≡ [])) ⊎ ((b ≡ true) × (owners_of r' ≡ ok (pop w d))))
unfolding release
release-cases w b r r' e =
    let (d, q, e1) = and_then_ok (owners_of r) _ (b, r') e in
    (d, q, remove-cases w b r r' d (owners_of-IsKeyed r d q) e1)
