-- ===== src/Ownership/Registry/Exclusive.antt =====
-- No two workflows of the registry hold claims that conflict.
use stimela_ninja.Prelude.{
  ◌⊎◌, any-In, any_swap, fun_ext, String, Bool, true, false, not, ◌&&◌, ◌||◌, none, some, List, [],
  ◌∷◌, any, ◌≡◌, ◌≢◌, refl, sym, ap, ◌∙◌, arith, Option-cases, inl, inr, In, subst,
}
use stimela_ninja.Prelude.Dict.{get, put, pop, get-put_cases, get-pop, any-get}
use stimela_ninja.Prelude.Results.{Result, ok, refused, check, and_then_ok, check_ok, ok_inj}
use stimela_ninja.Access.{parts, path_eq, paths_overlap}
use stimela_ninja.Ownership.{
  WorkspaceAccess, WorkspaceOwner, OwnershipError, conflicting_metadata, path_conflict, same_owner,
  accesses_conflict, owners_conflict,
}
use stimela_ninja.Ownership.Registry.{Registry, acquire, release}
use text.Mathlib.TextEquality.{eq_iff}

path_eq-sym : (p q : List String) → path_eq p q ≡ path_eq q p
unfolding path_eq
path_eq-sym [] [] = refl
path_eq-sym [] (y ∷ q) = refl
path_eq-sym (x ∷ p) [] = refl
path_eq-sym (x ∷ p) (y ∷ q) = ground (arith, path_eq-sym p q, eq_iff x y, eq_iff y x)

paths_overlap-sym : (p q : List String) → paths_overlap p q ≡ paths_overlap q p
unfolding paths_overlap
paths_overlap-sym p q = ground (arith, path_eq-sym p q)

accesses_conflict-sym : (a b : WorkspaceAccess) → accesses_conflict a b ≡ accesses_conflict b a
unfolding accesses_conflict
accesses_conflict-sym a b = ground (arith, paths_overlap-sym (parts a.path) (parts b.path))

-- Every pair of accesses of two compatible claims is compatible.
pub owners_conflict-accesses :
    (l r : WorkspaceOwner) (a b : WorkspaceAccess)
    → owners_conflict l r ≡ false
    → In a l.accesses
    → In b r.accesses
    → accesses_conflict a b ≡ false
unfolding owners_conflict
owners_conflict-accesses l r a b e i j =
    any-In (accesses_conflict a) r.accesses b
      (any-In (λ x. any (accesses_conflict x) r.accesses) l.accesses a (ground (arith, e)) i) j

owners_conflict-sym : (l r : WorkspaceOwner) → owners_conflict l r ≡ owners_conflict r l
unfolding owners_conflict
owners_conflict-sym l r =
    let swapped = any_swap accesses_conflict l.accesses r.accesses in
    let turned =
      ap
        (λ (f : WorkspaceAccess → WorkspaceAccess → Bool).
          any (λ b. any (f b) l.accesses) r.accesses)
        (fun_ext λ b. fun_ext λ a. accesses_conflict-sym a b) in
    ground (arith, swapped, turned)

-- Claims of different workflows do not conflict.
abbrev pub IsExclusive : Registry → Type 0
IsExclusive r =
    (j k : String) (a b : WorkspaceOwner)
    → j ≢ k
    → get j r ≡ some a
    → get k r ≡ some b
    → owners_conflict a b ≡ false

put-IsExclusive :
    (o : WorkspaceOwner) (r : Registry)
    → IsExclusive r
    → any (λ held. owners_conflict o held.1) r ≡ false
    → IsExclusive (put o.workflow_id o r)
put-IsExclusive o r inv h j k a b d f g = elim (get-put_cases o.workflow_id j o a r f) [
  | inl (p, q) ↦ elim (get-put_cases o.workflow_id k o b r g) [
    | inl (p', q') ↦ absurd (d (sym p ∙ p'))
    | inr (n', g') ↦
        subst (λ x. owners_conflict x b ≡ false) q (any-get (owners_conflict o) r k b h g')
  ]
  | inr (n, f') ↦ elim (get-put_cases o.workflow_id k o b r g) [
    | inl (p', q') ↦
        subst (λ x. owners_conflict a x ≡ false) q'
          (owners_conflict-sym a o ∙ any-get (owners_conflict o) r j a h f')
    | inr (n', g') ↦ inv j k a b d f' g'
  ]
]

pop-IsExclusive : (w : String) (r : Registry) → IsExclusive r → IsExclusive (pop w r)
pop-IsExclusive w r inv j k a b d f g =
    inv j k a b d (ground (arith, f, get-pop w j r)) (ground (arith, g, get-pop w k r))

-- What a transaction leaves: the registry as it was, or with a claim that conflicts with none.
pub acquire-cases :
    (o : WorkspaceOwner) (r r' : Registry) (inserted : Bool)
    → acquire o r ≡ ok (inserted, r')
    → ((r' ≡ r)
        × (inserted ≡ false)
        × ((c : WorkspaceOwner) × (get o.workflow_id r ≡ some c) × (same_owner c o ≡ true)))
      ⊎ ((r' ≡ put o.workflow_id o r)
          × (inserted ≡ true)
          × (get o.workflow_id r ≡ none)
          × (any (λ held. owners_conflict o held.1) r ≡ false))
unfolding acquire
acquire-cases o r r' inserted e = elim (Option-cases (get o.workflow_id r)) [
  | inl n ↦
      let (u, c, e1) =
        and_then_ok
          (check (not (any (λ held. owners_conflict o held.1) r)) (path_conflict o.workflow_id)) _
          (inserted, r') (rw (n, acquire) at e) in
      let q = ok_inj (true, put o.workflow_id o r) (inserted, r') e1 in
      inr (
        sym (ap (λ x. x.1) q),
        sym (ap (λ x. x.0) q),
        n,
        ground (
          arith,
          check_ok (not (any (λ held. owners_conflict o held.1) r)) (path_conflict o.workflow_id) u
              c,
        ),
      )
  | inr (c, g) ↦
      let (u, h, e1) =
        and_then_ok (check (same_owner c o) (conflicting_metadata o.workflow_id)) _ (inserted, r')
          (rw (g, acquire) at e) in
      let q = ok_inj (false, r) (inserted, r') e1 in
      inl (
        sym (ap (λ x. x.1) q),
        sym (ap (λ x. x.0) q),
        (c, g, check_ok (same_owner c o) (conflicting_metadata o.workflow_id) u h),
      )
]

acquire-IsExclusive :
    (o : WorkspaceOwner) (r r' : Registry) (inserted : Bool)
    → IsExclusive r
    → acquire o r ≡ ok (inserted, r')
    → IsExclusive r'
acquire-IsExclusive o r r' inserted inv e = elim (acquire-cases o r r' inserted e) [
  | inl (q, _, _) ↦ subst IsExclusive (sym q) inv
  | inr (q, _, _, h) ↦ subst IsExclusive (sym q) (put-IsExclusive o r inv h)
]

-- The calls that workflows make of a shared registry.
pub data Call : Type 0 where
  claim : WorkspaceOwner → Call
  drop : String → Call

abbrev kept : Registry → Result OwnershipError (Bool × Registry) → Registry
kept r (ok (inserted, r')) = r'
kept r (refused e) = r

-- A refused call leaves the registry as it is.
pub call : Call → Registry → Registry
unfolding acquire release
call (claim o) r = kept r (acquire o r)
call (drop w) r = (release w r).1

unfoldable pub calls : List Call → Registry → Registry
unfolding call
calls [] r = r
calls (c ∷ cs) r = calls cs (call c r)

kept-IsExclusive :
    (o : WorkspaceOwner) (r : Registry) (x : Result OwnershipError (Bool × Registry))
    → acquire o r ≡ x
    → IsExclusive r
    → IsExclusive (kept r x)
kept-IsExclusive o r (ok (inserted, r')) e inv = acquire-IsExclusive o r r' inserted inv e
kept-IsExclusive o r (refused g) e inv = inv

call-IsExclusive : (c : Call) (r : Registry) → IsExclusive r → IsExclusive (call c r)
unfolding call release
call-IsExclusive (claim o) r inv = kept-IsExclusive o r (acquire o r) refl inv
call-IsExclusive (drop w) r inv = pop-IsExclusive w r inv

calls-IsExclusive : (cs : List Call) (r : Registry) → IsExclusive r → IsExclusive (calls cs r)
unfolding calls
calls-IsExclusive [] r inv = inv
calls-IsExclusive (c ∷ cs) r inv = calls-IsExclusive cs (call c r) (call-IsExclusive c r inv)

none-IsExclusive : IsExclusive []
unfolding get
none-IsExclusive j k a b d f g = ground (arith, f)

-- Whatever claims are made and dropped at a registry that starts empty, two different workflows
-- that it records never hold overlapping paths of which one is reserved for writing.
pub calls_exclusive :
    (cs : List Call) (j k : String) (l r : WorkspaceOwner) (a b : WorkspaceAccess)
    → j ≢ k
    → get j (calls cs []) ≡ some l
    → get k (calls cs []) ≡ some r
    → In a l.accesses
    → In b r.accesses
    → ((a.writes || b.writes) && paths_overlap (parts a.path) (parts b.path)) ≡ false
unfolding accesses_conflict
calls_exclusive cs j k l r a b d f g i i' =
    owners_conflict-accesses l r a b (calls-IsExclusive cs [] none-IsExclusive j k l r d f g) i i'
