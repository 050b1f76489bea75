-- ===== src/Snapshots/Guard/Samples.antt =====
-- The chain of a path through three steps, of which the second has no cache key.
use stimela_ninja.Prelude.{String, true, false, Option, none, some, List, [], ◌∷◌, ◌≡◌, refl, map}
use stimela_ninja.Prelude.Dict.{get, put}
use stimela_ninja.Snapshots.{Chain, Generation, named, indexed, taint_blocks}
use stimela_ninja.Snapshots.Taint.{after}
use stimela_ninja.Snapshots.Guard.{
  Stat, Taken, Commit, Mutation, or_new, recorded, committing, tainting, cleared, altered,
  record_generation, move_taint, with_produced, commit_named, mutate, mutations,
}
use stimela_ninja.Snapshots.Guard.Honoured.{mutations_honour}
use stimela_ninja.Snapshots.Guard.Distinct.{HasDistinct, mutations-HasDistinct}

abbrev place : Stat
place = record { st_dev = 1; st_ino = 2; st_ctime_ns = 3 }

abbrev first : Taken
first = record { name = "gen0__a"; size = 10; present = true; identity = none; profile = none }

abbrev success : Option String → String → Commit
success produced consumed = record {
  stat = place;
  path = "/data/obs.ms";
  produced = produced;
  size = 20;
  snapshot_exists = true;
  successor = none;
  strict = false;
  profile = none;
  consumed_key = "solve::ms";
  consumed_name = some consumed;
}

abbrev started : List Mutation
started = committing (success (some "k1__ms") "gen0__a") ∷ recorded first ∷ recorded first ∷ []

abbrev later : List Mutation
later = committing (success (some "k3__ms") "k1__ms") ∷ tainting (some "gen0__a") ∷ cleared ∷ []

program : Unit {0}
unfolding get put indexed taint_blocks after altered record_generation move_taint with_produced
    commit_named mutate mutations
program = tt

abbrev or_empty : Option Chain → List Generation
or_empty none = []
or_empty (some c) = c.generations

chain_runs :
    map (λ g. g.name) (or_empty (mutations later (mutations started none)))
    ≡ "k1__ms" ∷ "gen0__a" ∷ "k3__ms" ∷ []
unfolding program
chain_runs = refl

mutations-HasDistinct_example : HasDistinct (mutations started none)
mutations-HasDistinct_example = mutations-HasDistinct started none tt

-- What the first steps leave, with the head that is given.
abbrev settled : Chain
settled = record (or_new none place "/data/obs.ms") {
  generations = or_empty (mutations started none);
  head = some "gen0__a";
}

abbrev tainted : Chain
tainted = record settled { tainted_through = some "gen0__a" }

-- The state that the first step produced stays blocked, the one of a later step is not.
mutations_honour_example :
    (left : Chain) × (mutations later (some tainted) ≡ some left)
    × (named "k1__ms" left.generations ≡ true)
    × (taint_blocks left "k1__ms" ≡ true)
unfolding program
mutations_honour_example = mutations_honour later tainted "k1__ms" refl refl

later_runs :
    elim (mutations later (some tainted)) [ none ↦ true | some c ↦ taint_blocks c "k3__ms" ] ≡ false
unfolding program
later_runs = refl
