-- ===== src/Access/Planner/Remembered.antt =====
-- The tree remembers every access, whatever is claimed later.
use stimela_ninja.Prelude.{
  ◌∙◌, String, true, false, Option, none, some, List, [], ◌≡◌, refl, arith, Bool-cases,
  Option-cases, inl, inr, ◌⊎◌, subst, sym, ap,
}
use stimela_ninja.Prelude.Dict.{Dict}
use stimela_ninja.Access.{same_place}
use stimela_ninja.Access.Tree.{AccessState, find, or_untouched, untouched}
use stimela_ninja.Access.Tree.Find.{member}
use stimela_ninja.Access.Planner.{Claim, Plan, written_by, read_by, claim}
use stimela_ninja.Access.Planner.Order.{Follows, same, reads, reads-put}
use stimela_ninja.Access.Planner.Claimed.{
  places_of, same-member, find-write, find-read, find-read_here, find-read_apart,
  find-write_overlapping, find-write_apart, find-write_new,
}
use stimela_ninja.Access.Planner.Seen.{IsReady, Remembers, writer_after, claim_after, Follows-claim}
use stimela_ninja.Access.Paths.{path_eq_refl}
use text.Mathlib.Text.{◌==◌}
use text.Mathlib.TextEquality.{eq_iff}

-- The tree has a state for the claim, which remembers it.
abbrev pub IsRemembered : Plan → Claim → Type 0
IsRemembered plan a =
    (s : AccessState) × (find a.place.0 a.place.1 plan.tree ≡ some s) × Remembers plan.reasons a s

Remembers-writer :
    (c a : Claim) (plan : Plan) (s : AccessState)
    → Follows (claim c plan).reasons c.name a.name
    → Remembers (claim c plan).reasons a (written_by c s)
unfolding written_by
Remembers-writer c a plan s f = inr (c.name, c.label, refl, f)

Remembers-reader :
    (c a : Claim) (plan : Plan) (s : AccessState)
    → Remembers plan.reasons a s
    → Remembers (claim c plan).reasons a (read_by c s)
unfolding read_by
Remembers-reader c a plan s (inl (nw, r)) =
    inl (nw, ground (arith, reads-put a.name c.name c.label s.readers_since_write))
Remembers-reader c a plan s (inr (w, l, lw, f)) = inr (w, l, lw, Follows-claim c plan f)

Remembers-claim :
    (c a : Claim) (plan : Plan) (s : AccessState)
    → Remembers plan.reasons a s
    → Remembers (claim c plan).reasons a s
Remembers-claim c a plan s (inl h) = inl h
Remembers-claim c a plan s (inr (w, l, lw, f)) = inr (w, l, lw, Follows-claim c plan f)

-- A later claim does not make the tree forget.
pub claim-IsRemembered :
    (c a : Claim) (plan : Plan) → IsReady plan → IsRemembered plan a → IsRemembered (claim c plan) a
claim-IsRemembered c a plan ready (s, e, m) = elim (Bool-cases c.writes) [
  | inl w ↦ elim (Bool-cases (member a.place (places_of c plan))) [
    | inl i ↦ (
      written_by c s,
      find-write_overlapping c plan a.place.0 a.place.1 s w e i,
      Remembers-writer c a plan s
          (claim_after c plan a a.place.0 a.place.1 s ready e i m (ground (arith, w))),
    )
    | inr i ↦ (s, find-write_apart c plan a.place.0 a.place.1 s w e i, Remembers-claim c a plan s m)
  ]
  | inr w ↦ elim (Bool-cases (same_place a.place c.place)) [
    | inl h ↦ (
      read_by c s,
      rw (find-read c plan a.place.0 a.place.1 w, h, e) refl,
      Remembers-reader c a plan s m,
    )
    | inr h ↦ (s, rw (find-read c plan a.place.0 a.place.1 w, h) e, Remembers-claim c a plan s m)
  ]
]

same_place_refl : (k : String) (p : List String) → same_place (k, p) (k, p) ≡ true
unfolding same_place
same_place_refl k p = ground (arith, eq_iff k k, path_eq_refl p)

reads-read_by :
    (c : Claim) (s : AccessState) → reads c.name (read_by c s).readers_since_write ≡ true
unfolding read_by
reads-read_by c s =
    ground (arith, reads-put c.name c.name c.label s.readers_since_write, eq_iff c.name c.name)

-- A claim is remembered when it is made.
pub self-IsRemembered : (c : Claim) (plan : Plan) → IsRemembered (claim c plan) c
self-IsRemembered c plan = elim (Bool-cases c.writes) [
  | inl w ↦ (
    written_by c here,
    rw (find-write c plan c.place.0 c.place.1 w, same_place_refl c.place.0 c.place.1) refl,
    Remembers-writer c c plan here same,
  )
  | inr w ↦ (
    read_by c here,
    rw (find-read c plan c.place.0 c.place.1 w, same_place_refl c.place.0 c.place.1) refl,
    inl (w, reads-read_by c here),
  )
]
  where
    here : AccessState
    here = or_untouched (find c.place.0 c.place.1 plan.tree)

abbrev readers_of : Option AccessState → Dict String
readers_of none = []
readers_of (some x) = x.readers_since_write

abbrev writer_of : Option AccessState → Option (String × String)
writer_of none = none
writer_of (some x) = x.last_writer

-- A state that a write leaves has no readers.
written-reads :
    (c : Claim) (s0 s : AccessState) (r : String)
    → some (written_by c s0) ≡ some s
    → reads r s.readers_since_write ≡ false
unfolding written_by
written-reads c s0 s r e = sym (ap (λ o. reads r (readers_of o)) e)

-- A step that reads comes after the last writer of the state it is added to.
read-IsReady :
    (c : Claim) (plan : Plan)
    → IsReady plan
    → (k : String) (p : List String) (s : AccessState) (r w l : String) (o : Option AccessState)
    → find k p plan.tree ≡ o
    → same_place (k, p) c.place ≡ true
    → some (read_by c (or_untouched o)) ≡ some s
    → reads r s.readers_since_write ≡ true
    → s.last_writer ≡ some (w, l)
    → Follows (claim c plan).reasons r w
unfolding read_by
read-IsReady c plan ready k p s r w l none f h e i lw = ground (arith, ap writer_of e)
read-IsReady c plan ready k p s r w l (some s0) f h e i lw = elim (Bool-cases (c.name == r)) [
  | inl n ↦
      subst (λ x. Follows (claim c plan).reasons x w) ((eq_iff c.name r).0 n)
        (writer_after c plan k p s0 w l ready f
          (same-member k p c.place.0 c.place.1 plan.tree s0 f h) (ap writer_of e ∙ lw))
  | inr n ↦ Follows-claim c plan (
      ready k p s0 r w l f
        (ground (
          arith,
          ap (λ x. reads r (readers_of x)) e,
          reads-put r c.name c.label s0.readers_since_write,
        ))
        (ap writer_of e ∙ lw))
]

pub claim-IsReady : (c : Claim) (plan : Plan) → IsReady plan → IsReady (claim c plan)
claim-IsReady c plan ready k p s r w l e i lw = elim (Bool-cases c.writes) [
  | inl cw ↦ after_write cw (Option-cases (find k p plan.tree))
  | inr cr ↦ after_read cr (Bool-cases (same_place (k, p) c.place))
]
  where
    unread :
        (s0 : AccessState) → some (written_by c s0) ≡ some s → Follows (claim c plan).reasons r w
    unread s0 f = ground (arith, i, written-reads c s0 s r f)

    after_write :
        c.writes ≡ true
        → (find k p plan.tree ≡ none) ⊎ ((s0 : AccessState) × (find k p plan.tree ≡ some s0))
        → Follows (claim c plan).reasons r w
    after_write cw (inl n) = unread untouched (find-write_new c plan k p s cw n e)
    after_write cw (inr (s0, f)) = elim (Bool-cases (member (k, p) (places_of c plan))) [
      | inl m ↦ unread s0 (sym (find-write_overlapping c plan k p s0 cw f m) ∙ e)
      | inr m ↦
          Follows-claim c plan
            (ready k p s r w l (f ∙ sym (find-write_apart c plan k p s0 cw f m) ∙ e) i lw)
    ]

    after_read :
        c.writes ≡ false
        → (same_place (k, p) c.place ≡ true) ⊎ (same_place (k, p) c.place ≡ false)
        → Follows (claim c plan).reasons r w
    after_read cr (inl h) =
        read-IsReady c plan ready k p s r w l (find k p plan.tree) refl h
          (sym (find-read_here c plan k p cr h) ∙ e) i lw
    after_read cr (inr h) =
        Follows-claim c plan (ready k p s r w l (sym (find-read_apart c plan k p cr h) ∙ e) i lw)
