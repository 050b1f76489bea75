-- ===== src/Access/Planner/Order.antt =====
-- Why the planner's dependencies order every pair of accesses that conflict.
use stimela_ninja.Prelude.{
  subst, sym, String, Bool, true, false, ◌&&◌, ◌||◌, some, List, [], ◌∷◌, ◌++◌, any, ◌≡◌, refl,
  arith, Bool-cases, inl, inr,
}
use stimela_ninja.Prelude.Dict.{Dict, put}
use stimela_ninja.Access.{Place, same_place}
use stimela_ninja.Access.Tree.{AccessState, Children, find}
use stimela_ninja.Access.Tree.Find.{member}
use stimela_ninja.Access.Planner.{
  Hazard, write_after_read, Reason, Claim, imposed, after_readers, hazards, hazards_of, hazards_at,
}
use stimela_ninja.Access.Paths.{path_eq_lem}
use text.Mathlib.Text.{◌==◌}
use text.Mathlib.TextEquality.{eq_iff}

-- The decision of step `n` names `p` among its dependencies.
unfoldable pub depends : List Reason → String → String → Bool
depends reasons n p = any (λ r. r.name == n && r.parent == p) reasons

-- A step is ordered after another when it is that step or waits for it, through any others.
pub data Follows (reasons : List Reason) : String → String → Type 0 where
  same : {n : String} → Follows reasons n n
  after : {n p m : String} → depends reasons n p ≡ true → Follows reasons p m → Follows reasons n m

pub depends-append :
    (xs ys : List Reason) (n p : String)
    → depends (xs ++ ys) n p ≡ (depends xs n p || depends ys n p)
unfolding depends
depends-append [] ys n p = refl
depends-append (x ∷ xs) ys n p = ground (arith, depends-append xs ys n p)

pub Follows-append :
    {xs : List Reason} {n m : String} (ys : List Reason) → Follows xs n m → Follows (xs ++ ys) n m
Follows-append ys same = same
Follows-append {xs} ys (after {n} {p} e f) =
    after (ground (arith, depends-append xs ys n p)) (Follows-append ys f)

pub Follows-trans :
    {rs : List Reason} {a b c : String} → Follows rs a b → Follows rs b c → Follows rs a c
Follows-trans same g = g
Follows-trans (after e f) g = after e (Follows-trans f g)

-- A step that is imposed on is the one imposed, or depends on it.
pub Follows-depends :
    (rs : List Reason) (n p : String) → (p == n || depends rs n p) ≡ true → Follows rs n p
Follows-depends rs n p e = elim (Bool-cases (p == n)) [
  | inl h ↦ subst (Follows rs n) (sym ((eq_iff p n).0 h)) same
  | inr h ↦ after (ground arith) same
]

-- The readers of a state, by name.
abbrev pub reads : String → Dict String → Bool
reads r [] = false
reads r ((n, l) ∷ d) = n == r || reads r d

pub reads-put :
    (r n : String) (l : String) (d : Dict String) → reads r (put n l d) ≡ (n == r || reads r d)
unfolding put
reads-put r n l [] = ground arith
reads-put r n l ((m, k) ∷ d) = ground (arith, reads-put r n l d, eq_iff m n, eq_iff m r, eq_iff n r)

pub depends-imposed :
    (c : Claim) (h : Hazard) (w l : String)
    → (w == c.name || depends (imposed c h (w, l)) c.name w) ≡ true
unfolding imposed depends
depends-imposed c h w l = ground (arith, eq_iff w c.name, eq_iff c.name c.name, eq_iff w w)

pub depends-readers :
    (c : Claim) (r : String) (d : Dict String)
    → reads r d ≡ true
    → (r == c.name || depends (after_readers c d) c.name r) ≡ true
unfolding after_readers
depends-readers c r [] e = ground arith
depends-readers c r ((n, l) ∷ d) e = ground (
  arith,
  eq_iff n r,
  depends-imposed c write_after_read n l,
  depends-readers c r d,
  depends-append (imposed c write_after_read (n, l)) (after_readers c d) c.name r,
)

find-same_place :
    (k : String) (p : List String) (j : String) (q : List String) (tree : Children)
    → same_place (k, p) (j, q) ≡ true
    → find j q tree ≡ find k p tree
unfolding same_place
find-same_place k p j q tree e = ground (arith, path_eq_lem p q, eq_iff k j)

-- The reasons of an overlapping state are among those of the claim.
pub depends-hazards_at :
    (c : Claim) (k : String) (p : List String) (places : List Place) (tree : Children)
    (s : AccessState) (m : String)
    → find k p tree ≡ some s
    → member (k, p) places ≡ true
    → depends (hazards c s) c.name m ≡ true
    → depends (hazards_at c places tree) c.name m ≡ true
unfolding hazards_at member hazards_of
depends-hazards_at c k p [] tree s m e i d = ground arith
depends-hazards_at c k p ((j, q) ∷ places) tree s m e i d =
    elim (Bool-cases (same_place (k, p) (j, q))) [
      | inl h ↦
          rw (find-same_place k p j q tree h, e)
            (ground (arith, depends-append (hazards c s) (hazards_at c places tree) c.name m))
      | inr h ↦ ground (
        arith,
        depends-append (hazards_of c (find j q tree)) (hazards_at c places tree) c.name m,
        depends-hazards_at c k p places tree s m e,
      )
    ]
