-- ===== src/Access/Planner/Seen.antt =====
-- What the tree remembers of an access, and why a later claim finds it.
use stimela_ninja.Prelude.{
  String, true, false, not, ◌&&◌, ◌||◌, some, List, [], ◌∷◌, ◌++◌, ◌≡◌, refl, arith, is_nil,
  if◌then◌else◌, Bool-cases, inl, inr, ◌⊎◌,
}
use stimela_ninja.Prelude.Dict.{Dict}
use stimela_ninja.Access.Tree.{AccessState, find}
use stimela_ninja.Access.Tree.Find.{member}
use stimela_ninja.Access.Planner.{
  write_after_write, read_after_write, Reason, Claim, Plan, hazards, after_writer, hazards_at,
  claim,
}
use stimela_ninja.Access.Planner.Order.{
  depends, Follows, Follows-append, Follows-trans, Follows-depends, reads, depends-append,
  depends-imposed, depends-readers, depends-hazards_at,
}
use stimela_ninja.Access.Planner.Claimed.{places_of}
use text.Mathlib.Text.{◌==◌}
use text.Mathlib.TextEquality.{eq_iff}

-- A state at a place that overlaps the claim's, and what it imposes.
Follows-imposed :
    (c : Claim) (plan : Plan) (k : String) (p : List String) (s : AccessState) (m : String)
    → find k p plan.tree ≡ some s
    → member (k, p) (places_of c plan) ≡ true
    → (m == c.name || depends (hazards c s) c.name m) ≡ true
    → Follows (claim c plan).reasons c.name m
unfolding claim
Follows-imposed c plan k p s m e i d =
    Follows-depends (plan.reasons ++ hazards_at c (places_of c plan) plan.tree) c.name m (
      ground (
        arith,
        depends-append plan.reasons (hazards_at c (places_of c plan) plan.tree) c.name m,
        depends-hazards_at c k p (places_of c plan) plan.tree s m e i,
      ))

is_nil-reads : (r : String) (d : Dict String) → reads r d ≡ true → is_nil d ≡ false
is_nil-reads r [] e = ground arith
is_nil-reads r (x ∷ d) e = refl

some_reader : (d : Dict String) → is_nil d ≡ false → (r : String) × (reads r d ≡ true)
some_reader [] e = ground arith
some_reader ((r, l) ∷ d) e = (r, ground (arith, eq_iff r r))

hazards-reader :
    (c : Claim) (s : AccessState) (r : String)
    → c.writes ≡ true
    → reads r s.readers_since_write ≡ true
    → (r == c.name || depends (hazards c s) c.name r) ≡ true
unfolding hazards
hazards-reader c s r w e =
    ground
      (arith, depends-readers c r s.readers_since_write e, is_nil-reads r s.readers_since_write e)

hazards-writer :
    (c : Claim) (s : AccessState) (w l : String)
    → (c.writes && not (is_nil s.readers_since_write)) ≡ false
    → s.last_writer ≡ some (w, l)
    → (w == c.name || depends (hazards c s) c.name w) ≡ true
unfolding hazards after_writer
hazards-writer c s w l e lw =
    rw (e, lw) (depends-imposed c (if c.writes then write_after_write else read_after_write) w l)

pub Follows-claim :
    (c : Claim) (plan : Plan) {n m : String}
    → Follows plan.reasons n m
    → Follows (claim c plan).reasons n m
unfolding claim
Follows-claim c plan f = Follows-append (hazards_at c (places_of c plan) plan.tree) f

-- Every state's readers come after its last writer.
abbrev pub IsReady : Plan → Type 0
IsReady plan =
    (k : String) (p : List String) (s : AccessState) (r w l : String)
    → find k p plan.tree ≡ some s
    → reads r s.readers_since_write ≡ true
    → s.last_writer ≡ some (w, l)
    → Follows plan.reasons r w

-- The claim comes after the last writer of an overlapping state.
pub writer_after :
    (c : Claim) (plan : Plan) (k : String) (p : List String) (s : AccessState) (w l : String)
    → IsReady plan
    → find k p plan.tree ≡ some s
    → member (k, p) (places_of c plan) ≡ true
    → s.last_writer ≡ some (w, l)
    → Follows (claim c plan).reasons c.name w
writer_after c plan k p s w l ready e i lw =
    elim (Bool-cases (c.writes && not (is_nil s.readers_since_write))) [
      | inr h ↦ Follows-imposed c plan k p s w e i (hazards-writer c s w l h lw)
      | inl h ↦
          let (r, h') = some_reader s.readers_since_write (ground arith) in
          Follows-trans
            (Follows-imposed c plan k p s r e i (hazards-reader c s r (ground arith) h'))
            (Follows-claim c plan (ready k p s r w l e h' lw))
    ]

-- A state remembers the claim `a`: as a reader, or by a last writer that comes after it.
abbrev pub Remembers : List Reason → Claim → AccessState → Type 0
Remembers reasons a s =
    ((a.writes ≡ false) × (reads a.name s.readers_since_write ≡ true))
    ⊎ ((w : String) × (l : String) × (s.last_writer ≡ some (w, l)) × Follows reasons w a.name)

pub claim_after :
    (c : Claim) (plan : Plan) (a : Claim) (k : String) (p : List String) (s : AccessState)
    → IsReady plan
    → find k p plan.tree ≡ some s
    → member (k, p) (places_of c plan) ≡ true
    → Remembers plan.reasons a s
    → (c.writes || a.writes) ≡ true
    → Follows (claim c plan).reasons c.name a.name
claim_after c plan a k p s ready e i (inl (nw, r)) o =
    Follows-imposed c plan k p s a.name e i (hazards-reader c s a.name (ground arith) r)
claim_after c plan a k p s ready e i (inr (w, l, lw, f)) o =
    Follows-trans (writer_after c plan k p s w l ready e i lw) (Follows-claim c plan f)
