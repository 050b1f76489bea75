-- ===== src/Ownership/Claim/Dropped.antt =====
-- A release leaves the records backed too, whichever of its calls fail.
use stimela_ninja.Prelude.{
  String, Bool, true, false, Option, none, some, ◌≡◌, refl, sym, subst, ◌∙◌, arith, Bool-cases, inl,
  inr, ◌⊎◌,
}
use stimela_ninja.Prelude.Dict.{Dict, get, put, pop, get-put_cases, get-pop}
use stimela_ninja.Prelude.Results.{Result, ok, refused, and_then_ok, ok_inj}
use stimela_ninja.Ownership.{WorkspaceOwner, OwnershipError, unavailable}
use stimela_ninja.Ownership.Registry
use stimela_ninja.Ownership.Registry.{Registry}
use stimela_ninja.Ownership.Root
use stimela_ninja.Ownership.Root.{RootData, owners_of}
use stimela_ninja.Ownership.Claim.{
  World, attempt, ReleaseFaults, absent, root_restored, root_released, release_current,
  release_workspace,
}
use stimela_ninja.Ownership.Claim.Records.{
  Admitted, acquire-cases, release-cases, owners_of-IsKeyed, get-IsKeyed,
}
use stimela_ninja.Ownership.Claim.Backed.{Backs, IsBacked}
use stimela_ninja.Ownership.Claim.Settled.{attempt-cases}
use text.Mathlib.Text.{◌==◌}

get-pop-some :
    (w k : String) (x : WorkspaceOwner) (d : Dict WorkspaceOwner)
    → get k (pop w d) ≡ some x
    → ((w == k) ≡ false) × (get k d ≡ some x)
get-pop-some w k x d g = (ground (arith, g, get-pop w k d), ground (arith, g, get-pop w k d))

-- The records that stay are backed by what stays in the registry.
popped-IsBacked :
    (w : World) (wf : String) (root : RootData) (leases : Dict WorkspaceOwner)
    (d : Dict WorkspaceOwner)
    → IsBacked w
    → owners_of w.root ≡ ok d
    → owners_of root ≡ ok (pop wf d)
    → IsBacked (record { root = root; registry = pop wf w.registry; leases = leases })
popped-IsBacked w wf root leases d inv q q' e qe k x g =
    let (apart, g') =
      get-pop-some wf k x d (subst (λ y. get k y ≡ some x) (ok_inj e (pop wf d) (sym qe ∙ q')) g) in
    let (c, gc, s) = inv d q k x g' in (c, ground (arith, gc, get-pop wf k w.registry, apart), s)

smaller-IsBacked :
    (w : World) (wf : String) (root : RootData) (leases : Dict WorkspaceOwner)
    (d : Dict WorkspaceOwner)
    → IsBacked w
    → owners_of w.root ≡ ok d
    → owners_of root ≡ ok (pop wf d)
    → IsBacked (record { root = root; registry = w.registry; leases = leases })
smaller-IsBacked w wf root leases d inv q q' e qe k x g =
    inv d q k x
      (get-pop-some wf k x d
        (subst (λ y. get k y ≡ some x) (ok_inj e (pop wf d) (sym qe ∙ q')) g)).1

new-IsBacked :
    (w : World) (o : WorkspaceOwner) (root' : RootData) (d : Dict WorkspaceOwner)
    → IsBacked w
    → owners_of w.root ≡ ok d
    → get o.workflow_id d ≡ some o
    → owners_of root' ≡ ok (put o.workflow_id o (pop o.workflow_id d))
    → IsBacked (record { root = root'; registry = w.registry; leases = w.leases })
new-IsBacked w o root' d inv q own q'' e qe k x g =
    elim (get-put_cases o.workflow_id k o x (pop o.workflow_id d) (
      subst (λ y. get k y ≡ some x)
        (ok_inj e (put o.workflow_id o (pop o.workflow_id d)) (sym qe ∙ q'')) g)) [
          | inl (wk, ox) ↦
              subst (λ y. Backs w.registry y x) wk
                (subst (Backs w.registry o.workflow_id) ox (inv d q o.workflow_id o own))
          | inr (_, g') ↦ inv d q k x (get-pop-some o.workflow_id k x d g').1
        ]

-- The root's record is written again while the registry still has the claim.
again-IsBacked :
    (w : World) (o p : WorkspaceOwner) (added : Bool) (root root' : RootData)
    (d : Dict WorkspaceOwner)
    → IsBacked w
    → owners_of w.root ≡ ok d
    → owners_of root ≡ ok (pop o.workflow_id d)
    → get o.workflow_id d ≡ some o
    → Admitted o p added root root' (pop o.workflow_id d)
    → IsBacked (record { root = root'; registry = w.registry; leases = w.leases })
again-IsBacked w o p added root root' d inv q q' own (inl (_, _, _, same)) =
    subst (λ z. IsBacked (record { root = z; registry = w.registry; leases = w.leases })) (sym same)
      (smaller-IsBacked w o.workflow_id root w.leases d inv q q')
again-IsBacked w o p added root root' d inv q q' own (inr (_, _, _, q'')) =
    new-IsBacked w o root' d inv q own q''

root_restored-IsBacked :
    (w : World) (o : WorkspaceOwner) (root : RootData) (d : Dict WorkspaceOwner)
    (y : Result OwnershipError (WorkspaceOwner × Bool × RootData))
    → Root.acquire o root ≡ y ⊎ y ≡ refused unavailable
    → IsBacked w
    → owners_of w.root ≡ ok d
    → owners_of root ≡ ok (pop o.workflow_id d)
    → get o.workflow_id d ≡ some o
    → IsBacked (root_restored (record w { root = root }) y).0
unfolding root_restored
root_restored-IsBacked w o root d (ok (p, added, root')) (inl a) inv q q' own =
    let (d', qd, ad) = acquire-cases o p added root root' a in
    again-IsBacked w o p added root root' d inv q q' own
      (subst (Admitted o p added root root') (ok_inj d' (pop o.workflow_id d) (sym qd ∙ q')) ad)
root_restored-IsBacked w o root d (ok (p, added, root')) (inr u) inv q q' own = ground (arith, u)
root_restored-IsBacked w o root d (refused g) a inv q q' own =
    smaller-IsBacked w o.workflow_id root w.leases d inv q q'

root_released-IsBacked :
    (f : ReleaseFaults) (o : WorkspaceOwner) (w : World) (d : Dict WorkspaceOwner)
    (y : Result OwnershipError (Bool × RootData))
    → Root.release o.workflow_id w.root ≡ y ⊎ y ≡ refused unavailable
    → IsBacked w
    → owners_of w.root ≡ ok d
    → get o.workflow_id d ≡ some o
    → IsBacked (root_released f o w y).0
unfolding root_released Registry.release
root_released-IsBacked f o w d (refused e) a inv q own = inv
root_released-IsBacked f o w d (ok (false, root)) a inv q own = inv
root_released-IsBacked f o w d (ok (true, root)) (inr u) inv q own = ground (arith, u)
root_released-IsBacked f o w d (ok (true, root)) (inl a) inv q own =
    let (d', qd, c) = release-cases o.workflow_id true w.root root a in
    let same : d' ≡ d = ok_inj d' d (sym qd ∙ q) in
    elim c [
      | inl (t, _, _) ↦ ground (arith, t)
      | inr (_, q1) ↦
          let q' = subst (λ z. owners_of root ≡ ok (pop o.workflow_id z)) same q1 in
          elim (Bool-cases f.registry) [
            | inl h ↦
                rw h (popped-IsBacked w o.workflow_id root (pop o.workflow_id w.leases) d inv q q')
            | inr h ↦ rw h (
                root_restored-IsBacked w o root d (attempt f.restore (Root.acquire o root))
                  (attempt-cases f.restore (Root.acquire o root)) inv q q' own)
          ]
    ]

owner_in-cases :
    (wf : String) (r : RootData) (o : WorkspaceOwner)
    → Root.owner_in wf r ≡ ok (some o)
    → (d : Dict WorkspaceOwner) × (owners_of r ≡ ok d) × (get o.workflow_id d ≡ some o)
unfolding Root.owner_in
owner_in-cases wf r o e =
    let (d, q, e1) = and_then_ok (owners_of r) _ (some o) e in
    let g : get wf d ≡ some o = ok_inj (get wf d) (some o) e1 in
    (d, q, subst (λ x. get x d ≡ some o) (get-IsKeyed wf o d (owners_of-IsKeyed r d q) g) g)

-- A release of a workflow that the workspace does not record.
absent-IsBacked :
    (wf : String) (w : World) (y : Result OwnershipError (Bool × RootData))
    → Root.release wf w.root ≡ y ⊎ y ≡ refused unavailable
    → IsBacked w
    → IsBacked (absent w y).0
unfolding absent
absent-IsBacked wf w (ok (b, root)) (inl a) inv =
    let (d, q, c) = release-cases wf b w.root root a in
    elim c [
      | inl (_, same, _) ↦ subst (λ z. IsBacked (record w { root = z })) (sym same) inv
      | inr (_, q') ↦ smaller-IsBacked w wf root w.leases d inv q q'
    ]
absent-IsBacked wf w (ok (b, root)) (inr u) inv = ground (arith, u)
absent-IsBacked wf w (refused e) a inv = inv

current-IsBacked :
    (f : ReleaseFaults) (wf : String) (w : World)
    (y : Result OwnershipError (Option WorkspaceOwner))
    → Root.owner_in wf w.root ≡ y
    → IsBacked w
    → IsBacked (release_current f wf w y).0
unfolding release_current
current-IsBacked f wf w (refused e) a inv = inv
current-IsBacked f wf w (ok none) a inv =
    absent-IsBacked wf w (attempt f.root (Root.release wf w.root))
      (attempt-cases f.root (Root.release wf w.root)) inv
current-IsBacked f wf w (ok (some o)) a inv =
    let (d, q, own) = owner_in-cases wf w.root o a in
    root_released-IsBacked f o w d (attempt f.root (Root.release o.workflow_id w.root))
      (attempt-cases f.root (Root.release o.workflow_id w.root)) inv q own

-- A release leaves every record of the workspace backed by the registry, whichever of its calls to
-- the two stores fail, that of its own restoration included.
pub release_workspace-IsBacked :
    (f : ReleaseFaults) (wf : String) (w : World)
    → IsBacked w
    → IsBacked (release_workspace f wf w).0
unfolding release_workspace
release_workspace-IsBacked f wf w inv = current-IsBacked f wf w (Root.owner_in wf w.root) refl inv
