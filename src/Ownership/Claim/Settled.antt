-- ===== src/Ownership/Claim/Settled.antt =====
-- A claim leaves the records backed, whichever of its calls fail.
use stimela_ninja.Prelude.{
  Bool, true, false, Option, none, some, List, [], ◌∷◌, if◌then◌else◌, ◌≡◌, refl, sym, subst, arith,
  Bool-cases, inl, inr, ◌⊎◌,
}
use stimela_ninja.Prelude.Dict.{Dict, get}
use stimela_ninja.Prelude.Results.{Result, ok, refused}
use stimela_ninja.Access.{Place}
use stimela_ninja.Ownership.{
  locked, WorkspaceOwner, Kind, local, slurm, OwnershipError, unavailable, same_claim,
}
use stimela_ninja.Ownership.Registry
use stimela_ninja.Ownership.Registry.{Registry}
use stimela_ninja.Ownership.Root
use stimela_ninja.Ownership.Root.{RootData, owners_of}
use stimela_ninja.Ownership.Claim.{
  World, Faults, Outcome, leased, raised, attempt, restored, undone, roll_back, registered, rooted,
  lease, acquire_workspace, all_allowed,
}
use stimela_ninja.Ownership.Claim.Records.{Admitted, acquire-cases}
use stimela_ninja.Ownership.Claim.Backed.{IsBacked, both-IsBacked, undone-IsBacked}

-- The cleanup failed twice: the claim stays in the root alone.
unfoldable pub failed_twice : Outcome → Bool
failed_twice (leased o) = false
failed_twice (raised e []) = false
failed_twice (raised e (c ∷ [])) = false
failed_twice (raised e (c ∷ c' ∷ notes)) = true

abbrev pub Settles : World × Outcome → Type 0
Settles x = IsBacked x.0 ⊎ (failed_twice x.1 ≡ true)

restored-Settles :
    (f : Faults) (o p : WorkspaceOwner) (c e : OwnershipError) (w : World) (root : RootData)
    (d : Dict WorkspaceOwner) (y : Result OwnershipError (Bool × Registry))
    → Registry.acquire p w.registry ≡ y ⊎ y ≡ refused unavailable
    → IsBacked w
    → owners_of w.root ≡ ok d
    → Admitted o p true w.root root d
    → Settles (restored e c (record w { root = root }) y)
unfolding restored failed_twice
restored-Settles f o p c e w root d (ok (b, r)) (inl a) inv q ad =
    inl (both-IsBacked o p true w root d r b inv q ad a)
restored-Settles f o p c e w root d (ok (b, r)) (inr u) inv q ad = ground (arith, u)
restored-Settles f o p c e w root d (refused g) a inv q ad = inr refl

pub attempt-cases :
    {A : Type 0} (b : Bool) (x : Result OwnershipError A)
    → x ≡ attempt b x ⊎ attempt b x ≡ refused unavailable
attempt-cases true x = inl refl
attempt-cases false x = inr refl

undone-Settles :
    (f : Faults) (o p : WorkspaceOwner) (e : OwnershipError) (w : World) (root : RootData)
    (d : Dict WorkspaceOwner) (y : Result OwnershipError (Bool × RootData))
    → Root.release p.workflow_id root ≡ y ⊎ y ≡ refused unavailable
    → IsBacked w
    → owners_of w.root ≡ ok d
    → Admitted o p true w.root root d
    → Settles (undone f p e (record w { root = root }) y)
unfolding undone
undone-Settles f o p e w root d (ok (b, r)) (inl a) inv q ad =
    inl (undone-IsBacked o p w root r d b inv q ad a)
undone-Settles f o p e w root d (ok (b, r)) (inr u) inv q ad = ground (arith, u)
undone-Settles f o p e w root d (refused g) a inv q ad =
    restored-Settles f o p g e w root d (attempt f.redo (Registry.acquire p w.registry))
      (attempt-cases f.redo (Registry.acquire p w.registry)) inv q ad

roll_back-Settles :
    (f : Faults) (added : Bool) (o p : WorkspaceOwner) (e : OwnershipError) (w : World)
    (root : RootData) (d : Dict WorkspaceOwner)
    → IsBacked w
    → owners_of w.root ≡ ok d
    → Admitted o p added w.root root d
    → Settles (roll_back f added p e (record w { root = root }))
unfolding roll_back
roll_back-Settles f false o p e w root d inv q (inl (_, _, _, same)) =
    inl (subst (λ z. IsBacked (record w { root = z })) (sym same) inv)
roll_back-Settles f false o p e w root d inv q (inr (_, _, t, _)) = ground (arith, t)
roll_back-Settles f true o p e w root d inv q ad =
    undone-Settles f o p e w root d (attempt f.root_undo (Root.release p.workflow_id root))
      (attempt-cases f.root_undo (Root.release p.workflow_id root)) inv q ad

registered-Settles :
    (f : Faults) (added : Bool) (o p : WorkspaceOwner) (w : World) (root : RootData)
    (d : Dict WorkspaceOwner) (y : Result OwnershipError (Bool × Registry))
    → Registry.acquire p w.registry ≡ y ⊎ y ≡ refused unavailable
    → IsBacked w
    → owners_of w.root ≡ ok d
    → Admitted o p added w.root root d
    → Settles (registered f added p (record w { root = root }) y)
unfolding registered
registered-Settles f added o p w root d (ok (b, r)) (inl a) inv q ad =
    inl (both-IsBacked o p added w root d r b inv q ad a)
registered-Settles f added o p w root d (ok (b, r)) (inr u) inv q ad = ground (arith, u)
registered-Settles f added o p w root d (refused g) a inv q ad =
    roll_back-Settles f added o p g w root d inv q ad

rooted-Settles :
    (f : Faults) (o : WorkspaceOwner) (w : World)
    (y : Result OwnershipError (WorkspaceOwner × Bool × RootData))
    → Root.acquire o w.root ≡ y ⊎ y ≡ refused unavailable
    → IsBacked w
    → Settles (rooted f w y)
unfolding rooted
rooted-Settles f o w (ok (p, added, root)) (inl a) inv =
    let (d, q, ad) = acquire-cases o p added w.root root a in
    registered-Settles f added o p w root d (attempt f.registry (Registry.acquire p w.registry))
      (attempt-cases f.registry (Registry.acquire p w.registry)) inv q ad
rooted-Settles f o w (ok (p, added, root)) (inr u) inv = ground (arith, u)
rooted-Settles f o w (refused g) a inv = inl inv

lease-Settles :
    (f : Faults) (o : WorkspaceOwner) (w : World) (x : Option WorkspaceOwner)
    → IsBacked w
    → Settles (lease f o w x)
unfolding lease
lease-Settles f o w (some existing) inv = elim (Bool-cases (same_claim existing o)) [
  | inl h ↦ rw h (inl inv)
  | inr h ↦ rw h (inl inv)
]
lease-Settles f o w none inv = by_kind o.kind
  where
    claimed : Settles (rooted f w (attempt f.root (Root.acquire o w.root)))
    claimed =
        rooted-Settles f o w (attempt f.root (Root.acquire o w.root))
          (attempt-cases f.root (Root.acquire o w.root)) inv

    by_kind :
        (k : Kind)
        → Settles (elim k [
          | slurm ↦ rooted f w (attempt f.root (Root.acquire o w.root))
          | local ↦
              if f.lock
              then rooted f w (attempt f.root (Root.acquire o w.root))
              else (w, raised locked [])
        ])
    by_kind slurm = claimed
    by_kind local = elim (Bool-cases f.lock) [ inl h ↦ rw h claimed | inr h ↦ rw h (inl inv) ]

-- A claim that is made under any failures of the lock, the two stores and its own cleanup leaves
-- every record of the workspace backed by the same claim in the registry, as they were before,
-- unless the root's record could neither be removed again nor registered.
pub acquire_workspace-IsBacked :
    (f : Faults) (partition : Option (List (Place × Bool))) (o : WorkspaceOwner) (w : World)
    → IsBacked w
    → IsBacked (acquire_workspace f partition o w).0
      ⊎ (failed_twice (acquire_workspace f partition o w).1 ≡ true)
unfolding acquire_workspace
acquire_workspace-IsBacked f partition o w inv =
    elim (Bool-cases (all_allowed partition o.accesses)) [
      | inl h ↦ rw h (lease-Settles f o w (get o.workflow_id w.leases) inv)
      | inr h ↦ rw h (inl inv)
    ]
