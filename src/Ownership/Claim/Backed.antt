-- ===== src/Ownership/Claim/Backed.antt =====
-- Every record of a workspace is backed by the same claim in the shared registry.
use stimela_ninja.Prelude.{
  String, Bool, true, none, some, [], ◌≡◌, sym, ap, subst, ◌∙◌, arith, Bool-cases, inl, inr,
}
use stimela_ninja.Prelude.Dict.{Dict, get, put, pop, get-put, get-put_cases, get-pop}
use stimela_ninja.Prelude.Results.{ok, ok_inj}
use stimela_ninja.Ownership.{WorkspaceOwner, same_owner}
use stimela_ninja.Ownership.Registry
use stimela_ninja.Ownership.Registry.{Registry}
use stimela_ninja.Ownership.Registry.Exclusive
use stimela_ninja.Ownership.Root
use stimela_ninja.Ownership.Root.{RootData, owners_of}
use stimela_ninja.Ownership.Claim.{World}
use stimela_ninja.Ownership.Claim.Same.{same_owner_refl}
use stimela_ninja.Ownership.Claim.Records.{Admitted, release-cases}
use text.Mathlib.Text.{◌==◌}
use text.Mathlib.TextEquality.{eq_iff}

-- The registry records the same claim for a workflow: what `require_registry` asks for.
abbrev pub Backs : Registry → String → WorkspaceOwner → Type 0
Backs r k o = (c : WorkspaceOwner) × (get k r ≡ some c) × (same_owner c o ≡ true)

abbrev pub IsBacked : World → Type 0
IsBacked w =
    (d : Dict WorkspaceOwner)
    → owners_of w.root ≡ ok d
    → (k : String) (o : WorkspaceOwner) → get k d ≡ some o
    → Backs w.registry k o

-- A transaction of the registry backs its claim, and goes on backing the others.
acquired-Backs :
    (o : WorkspaceOwner) (r r' : Registry) (b : Bool)
    → Registry.acquire o r ≡ ok (b, r')
    → Backs r' o.workflow_id o
acquired-Backs o r r' b e = elim (Exclusive.acquire-cases o r r' b e) [
  | inl (q, _, (c, g, s)) ↦ (c, rw q g, s)
  | inr (q, _, n, h) ↦ (
    o,
    ground (arith, q, get-put o.workflow_id o.workflow_id o r, eq_iff o.workflow_id o.workflow_id),
    same_owner_refl o,
  )
]

get-put_apart :
    (k : String) (o c : WorkspaceOwner) (d : Dict WorkspaceOwner)
    → get o.workflow_id d ≡ none
    → get k d ≡ some c
    → get k (put o.workflow_id o d) ≡ some c
get-put_apart k o c d n g = elim (Bool-cases (o.workflow_id == k)) [
  | inl h ↦ ground (arith, g, subst (λ x. get x d ≡ none) ((eq_iff o.workflow_id k).0 h) n)
  | inr h ↦ ground (arith, g, get-put o.workflow_id k o d, h)
]

keeps-Backs :
    (o x : WorkspaceOwner) (k : String) (r r' : Registry) (b : Bool)
    → Registry.acquire o r ≡ ok (b, r')
    → Backs r k x
    → Backs r' k x
keeps-Backs o x k r r' b e (c, g, s) = elim (Exclusive.acquire-cases o r r' b e) [
  | inl (q, _, _) ↦ (c, rw q g, s)
  | inr (q, _, n, h) ↦ (c, rw q (get-put_apart k o c r n g), s)
]

-- After the root's transaction, a registry that backs the claim too backs every record.
pub both-IsBacked :
    (o p : WorkspaceOwner) (added : Bool) (w : World) (root : RootData) (d : Dict WorkspaceOwner)
    (r : Registry) (b : Bool)
    → IsBacked w
    → owners_of w.root ≡ ok d
    → Admitted o p added w.root root d
    → Registry.acquire p w.registry ≡ ok (b, r)
    → (e : Dict WorkspaceOwner) → owners_of root ≡ ok e
    → (k : String) (x : WorkspaceOwner) → get k e ≡ some x
    → Backs r k x
both-IsBacked o p added w root d r b inv q (inl (_, _, _, same)) a e qe k x g =
    keeps-Backs p x k w.registry r b a (inv e (subst (λ y. owners_of y ≡ ok e) same qe) k x g)
both-IsBacked o p added w root d r b inv q (inr (po, n, _, q')) a e qe k x g =
    let e' : put o.workflow_id o d ≡ e = ok_inj (put o.workflow_id o d) e (sym q' ∙ qe) in
    elim (get-put_cases o.workflow_id k o x d (subst (λ y. get k y ≡ some x) (sym e') g)) [
      | inl (kw, ox) ↦
          subst (λ y. Backs r y x) (ap (λ y. y.workflow_id) po ∙ kw)
            (subst (Backs r p.workflow_id) (po ∙ ox) (acquired-Backs p w.registry r b a))
      | inr (_, g') ↦ keeps-Backs p x k w.registry r b a (inv d q k x g')
    ]

put_nonempty : (o : WorkspaceOwner) (d : Dict WorkspaceOwner) → put o.workflow_id o d ≡ [] → ⊥
unfolding get
put_nonempty o d e = ground (
  arith,
  ap (get o.workflow_id) e,
  get-put o.workflow_id o.workflow_id o d,
  eq_iff o.workflow_id o.workflow_id,
)

get-pop-put :
    (k : String) (o x : WorkspaceOwner) (d : Dict WorkspaceOwner)
    → get k (pop o.workflow_id (put o.workflow_id o d)) ≡ some x
    → get k d ≡ some x
get-pop-put k o x d e =
    ground (arith, e, get-pop o.workflow_id k (put o.workflow_id o d), get-put o.workflow_id k o d)

-- Removing the claim again leaves the records that were there.
pub undone-IsBacked :
    (o p : WorkspaceOwner) (w : World) (root root' : RootData) (d : Dict WorkspaceOwner) (b : Bool)
    → IsBacked w
    → owners_of w.root ≡ ok d
    → Admitted o p true w.root root d
    → Root.release p.workflow_id root ≡ ok (b, root')
    → (e : Dict WorkspaceOwner) → owners_of root' ≡ ok e
    → (k : String) (x : WorkspaceOwner) → get k e ≡ some x
    → Backs w.registry k x
undone-IsBacked o p w root root' d b inv q (inl (_, _, f, _)) a e qe k x g = ground (arith, f)
undone-IsBacked o p w root root' d b inv q (inr (po, n, _, q')) a e qe k x g =
    let (d', qd, c) = release-cases p.workflow_id b root root' a in
    let same : put o.workflow_id o d ≡ d' = ok_inj (put o.workflow_id o d) d' (sym q' ∙ qd) in
    elim c [
      | inl (_, _, nil) ↦ absurd (put_nonempty o d (same ∙ nil))
      | inr (_, qr) ↦
          let left : pop o.workflow_id (put o.workflow_id o d) ≡ e =
            ap (λ z. pop z.workflow_id (put o.workflow_id o d)) (sym po)
            ∙ ap (pop p.workflow_id) same
            ∙ ok_inj (pop p.workflow_id d') e (sym qr ∙ qe) in
          inv d q k x (get-pop-put k o x d (subst (λ y. get k y ≡ some x) (sym left) g))
    ]
