-- ===== src/Snapshots/Json/Samples.antt =====
-- The journal of two measurement sets while a step of a strict group mutates one of them.
use stimela_ninja.Prelude.{◌≡◌, refl, String, true, false, none, some, List, [], ◌∷◌}
use stimela_ninja.Prelude.Dict.{get, put, pop}
use stimela_ninja.Prelude.Results.{ok, refused}
use stimela_ninja.Snapshots.{trusted, untrusted, Generation, Marker, Chain, Journal}
use stimela_ninja.Snapshots.Json.{
  string, number, object, elements, listed, members, keyed, missing_key, unexpected_argument,
  present,
}
use stimela_ninja.Snapshots.Json.States.{
  read_generation, item_json, read_item, marker_json, read_marker,
}
use stimela_ninja.Snapshots.Json.Chains.{chain_json, read_chain, get_chain, update_chains}
use stimela_ninja.Snapshots.Json.RoundTrip.{read_chain-chain_json}
use stimela_ninja.Snapshots.Json.Journal.{Change, dump, IsKeeping, update_chains-dump}

abbrev first : Generation
first = record {
  name = "gen0__a";
  size = 10;
  snapshot_present = true;
  structural_signature = some "sha256:1f";
  content_fingerprint = none;
  parent = none;
  identity_profile = none;
}

abbrev solving : Marker
solving = record {
  step_path = "cal.solve";
  field = "ms";
  cache_key = some "k1";
  run_id = "r7";
  started_at = 1700;
  success_record = none;
  success_step_path = none;
  path_was_absent = false;
  success_kind = some "dataset-lifecycle";
  worker_identity = some (("host", "n1") ∷ []);
  strict_rollback_state = some "gen0__a";
  strict_predecessor_state = some "gen0__a";
  strict_group = some (
      record { rollback = some "gen0__a"; successor = "k1__ms"; predecessor = some "gen0__a" }
      ∷ []);
  strict_rollback_source = some "states/gen0__a";
  strict_rollback_signature = some "sha256:1f";
  strict_rollback_fingerprint = none;
  identity_profile = none;
}

abbrev running : Chain
running = record {
  dev = 1;
  ino = 2;
  ctime_ns = 3;
  path = "/data/obs.ms";
  generations = first ∷ [];
  head = some "gen0__a";
  status = untrusted;
  marker = some solving;
  consumed = ("image::ms", "gen0__a") ∷ [];
  tainted_through = none;
}

abbrev idle : Chain
idle = record running { path = "/data/old.ms"; marker = none; status = trusted }

abbrev journal : Journal
journal = ("/data/obs.ms", running) ∷ ("/data/old.ms", idle) ∷ []

-- The marker is cleared.
abbrev cleared : Change
cleared none = none
cleared (some c) = some (record c { marker = none })

abbrev forgotten : Change
forgotten o = none

cleared-IsKeeping : IsKeeping cleared
cleared-IsKeeping none h = refl
cleared-IsKeeping (some c) h = refl

abbrev changes : List (String × Change)
changes = ("/data/obs.ms", cleared) ∷ ("/data/old.ms", forgotten) ∷ []

abbrev settled : Journal
settled = ("/data/obs.ms", record running { marker = none }) ∷ []

-- A signature without a source is not written.
unsourced :
    read_marker (marker_json (record solving { strict_rollback_source = none }))
    ≡ ok (record solving { strict_rollback_source = none; strict_rollback_signature = none })
unfolding read_marker marker_json read_item item_json get present elements listed members keyed
unsourced = refl

unknown_key :
    read_generation (object (keyed (("name", string "gen0__a") ∷ ("sizes", number 10) ∷ [])))
    ≡ refused unexpected_argument
unfolding read_generation get members keyed
unknown_key = refl

without_inode : read_chain (object (keyed (("dev", number 1) ∷ []))) ≡ refused missing_key
unfolding read_chain get members keyed
without_inode = refl

read_chain-chain_json_example : read_chain (chain_json running) ≡ ok running
read_chain-chain_json_example = read_chain-chain_json running refl

update_chains-dump_example :
    (update_chains changes (dump journal) ≡ ok (dump settled))
    × (get_chain "/data/obs.ms" (dump settled) ≡ ok (some (record running { marker = none })))
unfolding get put pop
update_chains-dump_example =
    update_chains-dump changes journal "/data/obs.ms" refl (cleared-IsKeeping, ((λ o h. refl), tt))
