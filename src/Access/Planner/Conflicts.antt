-- ===== src/Access/Planner/Conflicts.antt =====
-- Every pair of conflicting accesses of a plan is ordered.
use stimela_ninja.Prelude.{String, true, ◌||◌, List, [], ◌∷◌, ◌++◌, ◌≡◌, refl, arith}
use stimela_ninja.Access.{parts, paths_overlap}
use stimela_ninja.Access.Tree.{find}
use stimela_ninja.Access.Tree.Overlap.{member-overlapping}
use stimela_ninja.Access.Planner.{Claim, Plan, fresh, claim, claim_all}
use stimela_ninja.Access.Planner.Order.{Follows}
use stimela_ninja.Access.Planner.Seen.{IsReady, claim_after, Follows-claim}
use stimela_ninja.Access.Planner.Remembered.{
  IsRemembered, claim-IsRemembered, self-IsRemembered, claim-IsReady,
}

fresh-IsReady : IsReady fresh
unfolding find
fresh-IsReady k p s r w l e i lw = ground arith

claim_all-IsReady : (cs : List Claim) (plan : Plan) → IsReady plan → IsReady (claim_all cs plan)
unfolding claim_all
claim_all-IsReady [] plan ready = ready
claim_all-IsReady (c ∷ cs) plan ready =
    claim_all-IsReady cs (claim c plan) (claim-IsReady c plan ready)

claim_all-IsRemembered :
    (cs : List Claim) (a : Claim) (plan : Plan)
    → IsReady plan
    → IsRemembered plan a
    → IsRemembered (claim_all cs plan) a
unfolding claim_all
claim_all-IsRemembered [] a plan ready m = m
claim_all-IsRemembered (c ∷ cs) a plan ready m =
    claim_all-IsRemembered cs a (claim c plan) (claim-IsReady c plan ready)
      (claim-IsRemembered c a plan ready m)

Follows-claim_all :
    (cs : List Claim) (plan : Plan) {n m : String}
    → Follows plan.reasons n m
    → Follows (claim_all cs plan).reasons n m
unfolding claim_all
Follows-claim_all [] plan f = f
Follows-claim_all (c ∷ cs) plan f = Follows-claim_all cs (claim c plan) (Follows-claim c plan f)

pub claim_all-append :
    (xs ys : List Claim) (plan : Plan)
    → claim_all (xs ++ ys) plan ≡ claim_all ys (claim_all xs plan)
unfolding claim_all
claim_all-append [] ys plan = refl
claim_all-append (x ∷ xs) ys plan = claim_all-append xs ys (claim x plan)

-- A remembered claim is followed by any later one that conflicts with it.
remembered-Follows :
    (a b : Claim) (plan : Plan)
    → IsReady plan
    → IsRemembered plan a
    → paths_overlap (parts a.place) (parts b.place) ≡ true
    → (b.writes || a.writes) ≡ true
    → Follows (claim b plan).reasons b.name a.name
remembered-Follows a b plan ready (s, e, m) o w =
    claim_after b plan a a.place.0 a.place.1 s ready e
      (member-overlapping a.place.0 a.place.1 b.place.0 b.place.1 plan.tree s e o) m w

later-Follows :
    (a b : Claim) (between : List Claim) (plan : Plan)
    → IsReady plan
    → paths_overlap (parts a.place) (parts b.place) ≡ true
    → (b.writes || a.writes) ≡ true
    → Follows (claim b (claim_all between (claim a plan))).reasons b.name a.name
later-Follows a b between plan ready o w =
    let ready' = claim-IsReady a plan ready in
    remembered-Follows a b (claim_all between (claim a plan))
      (claim_all-IsReady between (claim a plan) ready')
      (claim_all-IsRemembered between a (claim a plan) ready' (self-IsRemembered a plan)) o w

-- Of two accesses of a plan that overlap, one of them a write, the later one's step waits for the
-- earlier one's, directly or through other steps, unless it is the same step.
pub conflict_ordered :
    (before between after : List Claim) (a b : Claim)
    → paths_overlap (parts a.place) (parts b.place) ≡ true
    → (b.writes || a.writes) ≡ true
    → Follows (claim_all (before ++ a ∷ (between ++ b ∷ after)) fresh).reasons b.name a.name
unfolding claim_all
conflict_ordered before between after a b o w =
    rw
      (
        claim_all-append before (a ∷ (between ++ b ∷ after)) fresh,
        claim_all-append between (b ∷ after) (claim a (claim_all before fresh)),
      )
      (Follows-claim_all after (claim b (claim_all between (claim a (claim_all before fresh)))) (
        later-Follows a b between (claim_all before fresh)
          (claim_all-IsReady before fresh fresh-IsReady) o w))
