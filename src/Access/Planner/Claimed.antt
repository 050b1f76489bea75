-- ===== src/Access/Planner/Claimed.antt =====
-- The state at each place of the tree after a claim.
use stimela_ninja.Prelude.{
  sym, ap, ◌∙◌, String, true, false, Option, none, some, List, [], ◌∷◌, ◌++◌, ◌≡◌, refl, arith,
  if◌then◌else◌, Bool-cases, inl, inr,
}
use stimela_ninja.Access.{Place, same_place, paths_overlap, path_eq}
use stimela_ninja.Access.Tree.{
  AccessState, Children, find, reach, overlapping, modify, mapped, or_untouched, untouched,
}
use stimela_ninja.Access.Tree.Find.{member, member-append, find-reach, find-modify}
use stimela_ninja.Access.Tree.Overlap.{member-overlapping}
use stimela_ninja.Access.Planner.{Claim, Plan, written_by, read_by, overwrite, settled, claim}

abbrev pub places_of : Claim → Plan → List Place
places_of c plan = overlapping c.place.0 c.place.1 plan.tree

mapped_twice :
    (c : Claim) (o : Option AccessState)
    → mapped (written_by c) (mapped (written_by c) o) ≡ mapped (written_by c) o
unfolding written_by
mapped_twice c none = refl
mapped_twice c (some s) = refl

find-overwrite :
    (c : Claim) (k : String) (p : List String) (places : List Place) (tree : Children)
    → find k p (overwrite c places tree)
      ≡ (if member (k, p) places then mapped (written_by c) (find k p tree) else find k p tree)
unfolding overwrite member
find-overwrite c k p [] tree = refl
find-overwrite c k p ((j, q) ∷ places) tree = ground (
  arith,
  find-overwrite c k p places (modify (written_by c) j q tree),
  find-modify (written_by c) k p j q tree,
  mapped_twice c (find k p tree),
)

-- A path overlaps itself.
same_place-overlap :
    (k : String) (p : List String) (j : String) (q : List String)
    → same_place (k, p) (j, q) ≡ true
    → paths_overlap (k ∷ p) (j ∷ q) ≡ true
unfolding same_place paths_overlap path_eq
same_place-overlap k p j q h = ground arith

pub same-member :
    (k : String) (p : List String) (j : String) (q : List String) (tree : Children)
    (s : AccessState)
    → find k p tree ≡ some s
    → same_place (k, p) (j, q) ≡ true
    → member (k, p) (overlapping j q tree) ≡ true
same-member k p j q tree s e h = member-overlapping k p j q tree s e (same_place-overlap k p j q h)

-- A write leaves itself as the last writer at its place and at every overlapping state.
pub find-write :
    (c : Claim) (plan : Plan) (k : String) (p : List String)
    → c.writes ≡ true
    → find k p (claim c plan).tree ≡ (
        if same_place (k, p) c.place
        then some (written_by c (or_untouched (find k p plan.tree)))
        else if member (k, p) (places_of c plan)
        then mapped (written_by c) (find k p plan.tree)
        else find k p plan.tree)
unfolding claim settled member
find-write c plan k p w = ground (
  arith,
  w,
  find-overwrite c k p (places_of c plan ++ c.place ∷ []) (reach c.place.0 c.place.1 plan.tree),
  member-append (k, p) (places_of c plan) (c.place ∷ []),
  find-reach k p c.place.0 c.place.1 plan.tree,
)

-- A read is added to the state at its place, and changes nothing else.
pub find-read :
    (c : Claim) (plan : Plan) (k : String) (p : List String)
    → c.writes ≡ false
    → find k p (claim c plan).tree ≡ (
        if same_place (k, p) c.place
        then some (read_by c (or_untouched (find k p plan.tree)))
        else find k p plan.tree)
unfolding claim settled
find-read c plan k p w = ground (
  arith,
  w,
  find-modify (read_by c) k p c.place.0 c.place.1 (reach c.place.0 c.place.1 plan.tree),
  find-reach k p c.place.0 c.place.1 plan.tree,
)

pub find-write_overlapping :
    (c : Claim) (plan : Plan) (k : String) (p : List String) (s : AccessState)
    → c.writes ≡ true
    → find k p plan.tree ≡ some s
    → member (k, p) (places_of c plan) ≡ true
    → find k p (claim c plan).tree ≡ some (written_by c s)
find-write_overlapping c plan k p s w e i = elim (Bool-cases (same_place (k, p) c.place)) [
  | inl h ↦ rw (find-write c plan k p w, h, e) refl
  | inr h ↦ rw (find-write c plan k p w, h, i, e) refl
]

pub find-write_apart :
    (c : Claim) (plan : Plan) (k : String) (p : List String) (s : AccessState)
    → c.writes ≡ true
    → find k p plan.tree ≡ some s
    → member (k, p) (places_of c plan) ≡ false
    → find k p (claim c plan).tree ≡ some s
find-write_apart c plan k p s w e i = elim (Bool-cases (same_place (k, p) c.place)) [
  | inl h ↦ ground (arith, same-member k p c.place.0 c.place.1 plan.tree s e h)
  | inr h ↦ rw (find-write c plan k p w, h, i) e
]

find-write_start :
    (c : Claim) (plan : Plan) (k : String) (p : List String)
    → c.writes ≡ true
    → find k p plan.tree ≡ none
    → same_place (k, p) c.place ≡ true
    → find k p (claim c plan).tree ≡ some (written_by c untouched)
find-write_start c plan k p w e h = rw (find-write c plan k p w, h, e) refl

-- Where there was no state, a write leaves one without readers, or none.
pub find-write_new :
    (c : Claim) (plan : Plan) (k : String) (p : List String) (s : AccessState)
    → c.writes ≡ true
    → find k p plan.tree ≡ none
    → find k p (claim c plan).tree ≡ some s
    → some (written_by c untouched) ≡ some s
find-write_new c plan k p s w e f = elim (Bool-cases (same_place (k, p) c.place)) [
  | inl h ↦ sym (find-write_start c plan k p w e h) ∙ f
  | inr h ↦ ground (arith, find-write c plan k p w, ap (λ o. mapped (written_by c) o) e)
]

pub find-read_here :
    (c : Claim) (plan : Plan) (k : String) (p : List String)
    → c.writes ≡ false
    → same_place (k, p) c.place ≡ true
    → find k p (claim c plan).tree ≡ some (read_by c (or_untouched (find k p plan.tree)))
find-read_here c plan k p r h = rw (find-read c plan k p r, h) refl

pub find-read_apart :
    (c : Claim) (plan : Plan) (k : String) (p : List String)
    → c.writes ≡ false
    → same_place (k, p) c.place ≡ false
    → find k p (claim c plan).tree ≡ find k p plan.tree
find-read_apart c plan k p r h = rw (find-read c plan k p r, h) refl
