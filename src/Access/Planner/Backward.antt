-- ===== src/Access/Planner/Backward.antt =====
-- A step waits for earlier steps only.
use mathlib.Core.List.{append_assoc}
use stimela_ninja.Prelude.{
  String, Bool, true, false, not, ◌&&◌, ◌||◌, Option, none, some, List, [], ◌∷◌, ◌++◌, ◌≡◌, refl,
  arith, any, if◌then◌else◌, Bool-cases, inl, inr, ◌⊎◌, subst, ◌≢◌,
}
use stimela_ninja.Prelude.Dict.{Dict}
use stimela_ninja.Access.{Place}
use stimela_ninja.Access.Tree.{AccessState, find, or_untouched, mapped}
use stimela_ninja.Access.Planner.{
  Claim, Plan, Hazard, fresh, imposed, after_readers, after_writer, hazards, hazards_of, hazards_at,
  written_by, read_by, claim, claim_all,
}
use stimela_ninja.Access.Planner.Order.{depends, depends-append, reads, reads-put}
use stimela_ninja.Access.Planner.Claimed.{places_of, find-write, find-read}
use text.Mathlib.Text.{◌==◌}
use text.Mathlib.TextEquality.{eq_iff}

-- Some claim of the list is made by the step.
unfoldable pub made_by : String → List Claim → Bool
made_by n cs = any (λ c. c.name == n) cs

abbrev wrote : Option (String × String) → String → Bool
wrote none n = false
wrote (some (w, l)) n = w == n

-- The steps that a state names: its readers and its last writer.
names : Option AccessState → String → Bool
names none n = false
names (some s) n = reads n s.readers_since_write || wrote s.last_writer n

-- What `c` is made to wait for at one state is named there, and is not itself.
depends-imposed_iff :
    (c : Claim) (h : Hazard) (w l n p : String)
    → depends (imposed c h (w, l)) n p ≡ ((c.name == n && w == p) && not (w == c.name))
unfolding imposed depends
depends-imposed_iff c h w l n p = ground arith

abbrev waits : Claim → Option AccessState → String → String → Bool
waits c o n p = (c.name == n && names o p) && not (p == c.name)

readers-waits :
    (c : Claim) (d : Dict String) (n p : String)
    → depends (after_readers c d) n p ≡ true
    → ((c.name == n && reads p d) && not (p == c.name)) ≡ true
unfolding after_readers depends
readers-waits c [] n p e = ground arith
readers-waits c ((r, l) ∷ d) n p e = ground (
  arith,
  eq_iff r p,
  depends-append (imposed c Hazard.write_after_read (r, l)) (after_readers c d) n p,
  depends-imposed_iff c Hazard.write_after_read r l n p,
  readers-waits c d n p,
)

writer-waits :
    (c : Claim) (lw : Option (String × String)) (n p : String)
    → depends (after_writer c lw) n p ≡ true
    → ((c.name == n && wrote lw p) && not (p == c.name)) ≡ true
unfolding after_writer depends
writer-waits c none n p e = ground arith
writer-waits c (some (w, l)) n p e = ground (
  arith,
  e,
  eq_iff w p,
  depends-imposed_iff c (if c.writes then Hazard.write_after_write else Hazard.read_after_write) w l
      n p,
)

depends-none : (n p : String) → depends [] n p ≡ true → ⊥
unfolding depends
depends-none n p e = ground (arith, e)

hazards-waits :
    (c : Claim) (o : Option AccessState) (n p : String)
    → depends (hazards_of c o) n p ≡ true
    → waits c o n p ≡ true
unfolding hazards_of hazards names
hazards-waits c none n p e = absurd (depends-none n p e)
hazards-waits c (some s) n p e =
    ground (arith, e, readers-waits c s.readers_since_write n p, writer-waits c s.last_writer n p)

-- Every step that the tree names has made one of the claims so far.
abbrev IsKnown : List Claim → Plan → Type 0
IsKnown cs plan =
    (k : String) (p : List String) (n : String)
    → names (find k p plan.tree) n ≡ true
    → made_by n cs ≡ true

hazards_at-known :
    (cs : List Claim) (plan : Plan) (c : Claim) (places : List Place) (n p : String)
    → IsKnown cs plan
    → depends (hazards_at c places plan.tree) n p ≡ true
    → ((c.name == n && made_by p cs) && not (p == c.name)) ≡ true
unfolding hazards_at
hazards_at-known cs plan c [] n p known e = absurd (depends-none n p e)
hazards_at-known cs plan c ((k, q) ∷ places) n p known e =
    elim (Bool-cases (depends (hazards_of c (find k q plan.tree)) n p)) [
      | inl h ↦ ground (arith, hazards-waits c (find k q plan.tree) n p h, known k q p)
      | inr h ↦ hazards_at-known cs plan c places n p known (
          ground (
            arith,
            e,
            h,
            depends-append (hazards_of c (find k q plan.tree)) (hazards_at c places plan.tree) n p,
          ))
    ]

names-written :
    (c : Claim) (s : AccessState) (n : String) → names (some (written_by c s)) n ≡ (c.name == n)
unfolding names written_by
names-written c s n = refl

names-mapped :
    (c : Claim) (o : Option AccessState) (n : String)
    → names (mapped (written_by c) o) n ≡ true
    → (c.name == n) ≡ true
unfolding names written_by
names-mapped c none n e = ground (arith, e)
names-mapped c (some s) n e = e

names-read :
    (c : Claim) (o : Option AccessState) (n : String)
    → names (some (read_by c (or_untouched o))) n ≡ (c.name == n || names o n)
unfolding names read_by
names-read c none n = ground (arith, reads-put n c.name c.label [])
names-read c (some s) n = ground (arith, reads-put n c.name c.label s.readers_since_write)

pub made_by-append :
    (n : String) (xs ys : List Claim) → made_by n (xs ++ ys) ≡ (made_by n xs || made_by n ys)
unfolding made_by
made_by-append n [] ys = refl
made_by-append n (x ∷ xs) ys = ground (arith, made_by-append n xs ys)

names-claim :
    (c : Claim) (plan : Plan) (k : String) (p : List String) (n : String)
    → names (find k p (claim c plan).tree) n ≡ true
    → (names (find k p plan.tree) n || c.name == n) ≡ true
names-claim c plan k p n e = elim (Bool-cases c.writes) [
  | inl w ↦ ground (
    arith,
    e,
    find-write c plan k p w,
    names-written c (or_untouched (find k p plan.tree)) n,
    names-mapped c (find k p plan.tree) n,
  )
  | inr r ↦ ground (arith, e, find-read c plan k p r, names-read c (find k p plan.tree) n)
]

claim-IsKnown :
    (cs : List Claim) (plan : Plan) (c : Claim)
    → IsKnown cs plan
    → IsKnown (cs ++ c ∷ []) (claim c plan)
unfolding made_by
claim-IsKnown cs plan c known k p n e =
    ground (arith, names-claim c plan k p n e, known k p n, made_by-append n cs (c ∷ []))

-- The claim of `n` stands in the list, and a claim of `p` before it.
abbrev pub Precedes : String → String → List Claim → Type 0
Precedes p n cs =
    (before : List Claim) × (c : Claim) × (after : List Claim) × (cs ≡ before ++ c ∷ after)
    × (c.name ≡ n)
    × (made_by p before ≡ true)

from_waits :
    (c : Claim) (cs : List Claim) (n p : String)
    → ((c.name == n && made_by p cs) && not (p == c.name)) ≡ true
    → (c.name ≡ n) × (made_by p cs ≡ true) × (p ≢ n)
from_waits c cs n p w = (
  (eq_iff c.name n).0 (ground (arith, w)),
  ground (arith, w),
  λ q. ground (arith, w, q, eq_iff p c.name, eq_iff c.name n),
)

depends-claim :
    (cs : List Claim) (plan : Plan) (c : Claim) (n p : String)
    → IsKnown cs plan
    → depends (claim c plan).reasons n p ≡ true
    → (depends plan.reasons n p ≡ true) ⊎ ((c.name ≡ n) × (made_by p cs ≡ true) × (p ≢ n))
unfolding claim
depends-claim cs plan c n p known e = elim (Bool-cases (depends plan.reasons n p)) [
  | inl h ↦ inl h
  | inr h ↦ inr (
      from_waits c cs n p (
        hazards_at-known cs plan c (places_of c plan) n p known (
          ground (
            arith,
            e,
            h,
            depends-append plan.reasons (hazards_at c (places_of c plan) plan.tree) n p,
          ))))
]

depends-claim_all :
    (seen cs : List Claim) (plan : Plan) (n p : String)
    → IsKnown seen plan
    → depends (claim_all cs plan).reasons n p ≡ true
    → (depends plan.reasons n p ≡ true) ⊎ (Precedes p n (seen ++ cs) × (p ≢ n))
unfolding claim_all
depends-claim_all seen [] plan n p known e = inl e
depends-claim_all seen (c ∷ cs) plan n p known e =
    elim (depends-claim_all (seen ++ c ∷ []) cs (claim c plan) n p (claim-IsKnown seen plan c known)
      e) [
        | inl h ↦ elim (depends-claim seen plan c n p known h) [
          | inl old ↦ inl old
          | inr (e', m, d) ↦ inr ((seen, c, cs, refl, e', m), d)
        ]
        | inr (found, d) ↦ inr (subst (Precedes p n) (append_assoc seen (c ∷ []) cs) found, d)
      ]

fresh-IsKnown : IsKnown [] fresh
unfolding find names
fresh-IsKnown k p n e = ground (arith, e)

-- A step is only made to wait for another step, which made a claim before one of its own: the
-- dependencies point backwards in the plan's order.
pub dependencies_backward :
    (cs : List Claim) (n p : String)
    → depends (claim_all cs fresh).reasons n p ≡ true
    → Precedes p n cs × (p ≢ n)
dependencies_backward cs n p e = elim (depends-claim_all [] cs fresh n p fresh-IsKnown e) [
  | inl h ↦ absurd (depends-none n p h)
  | inr found ↦ found
]
