-- ===== src/Snapshots/Reuse/Samples.antt =====
-- A chain of three states whose head was produced by re-running the second step.
use stimela_ninja.Prelude.{String, true, false, Option, none, some, List, [], ◌∷◌, ◌≡◌, ◌↔◌, refl}
use stimela_ninja.Prelude.Results.{ok, refused}
use stimela_ninja.Snapshots.{Generation, Chain, trusted}
use stimela_ninja.Snapshots.Guard.{StateIdentity}
use stimela_ninja.Snapshots.Reuse.{
  generation, walk, descended, reuse_head, reuse_chain, strict_reuse_issue, not_descended,
  files_differ,
}
use stimela_ninja.Snapshots.Reuse.Vouched.{Vouches, strict_reuse_issue-Vouches}

abbrev state : String → Option String → Generation
state name parent = record {
  name = name;
  size = 1;
  snapshot_present = true;
  structural_signature = some "three columns";
  content_fingerprint = some name;
  parent = parent;
  identity_profile = none;
}

abbrev states : List Generation
states =
    state "gen0__a" none ∷ state "k1__ms" (some "gen0__a") ∷ state "k2__ms" (some "k1__ms") ∷ []

-- Parents that name each other.
abbrev cycle : List Generation
cycle = state "a" (some "b") ∷ state "b" (some "a") ∷ []

abbrev chain : Chain
chain = record {
  dev = 1;
  ino = 2;
  ctime_ns = 3;
  path = "/data/obs.ms";
  generations = states;
  head = some "k1__ms";
  status = trusted;
  marker = none;
  consumed = [];
  tainted_through = none;
}

abbrev live : StateIdentity
live = record { signature = "three columns"; fingerprint = "k1__ms" }

program : Unit {0}
unfolding generation walk reuse_head reuse_chain strict_reuse_issue
program = tt

-- The later step is not reused over the earlier head, the earlier one is.
reuse_runs :
    (strict_reuse_issue (some chain) (some 3) "k2__ms" live ≡ refused not_descended)
    × (strict_reuse_issue (some chain) (some 3) "k1__ms" live ≡ ok tt)
    × (strict_reuse_issue (some chain) (some 3) "gen0__a" live ≡ ok tt)
    × (strict_reuse_issue (some chain) (some 3) "gen0__a" (record live { fingerprint = "k9" })
        ≡ refused files_differ)
    × (descended cycle "c" (state "a" (some "b")) ≡ some false)
unfolding program
reuse_runs = (refl, refl, refl, refl, refl)

strict_reuse_issue-Vouches_example :
    (strict_reuse_issue (some chain) (some 3) "gen0__a" live ≡ ok tt)
    ↔ ((c : Chain) × (some chain ≡ some c) × Vouches c (some 3) "gen0__a" live)
strict_reuse_issue-Vouches_example = strict_reuse_issue-Vouches (some chain) (some 3) "gen0__a" live
