-- ===== src/Snapshots/Json/States.antt =====
-- `Generation.as_json`, `Marker.as_json` and the calls of their constructors in `Chain.from_json`
-- of src/shinobi/snapshots.py. A generation with a reference to a FITS commit is not modelled: the
-- key is an unknown one here.
use stimela_ninja.Prelude.{String, true, false, Option, none, some, List, [], ◌∷◌, map}
use stimela_ninja.Prelude.Dict.{Dict}
use stimela_ninja.Prelude.Results.{ok, ◌>>=◌}
use stimela_ninja.Snapshots.{Generation, GroupItem, Marker}
use stimela_ninja.Snapshots.Json.{
  Json, null, boolean, number, string, array, object, listed, keyed, Read, read_text, read_number,
  read_boolean, read_object, read_list, read_dict, nullable, required, given, arguments, present,
}
use mathlib.Core.Option.{map as optionally}

-- The object with the entries of `data`, of which those without a value are not written.
abbrev pub object_of : Dict (Option Json) → Json
object_of d = object (keyed (present d))

-- `None` is written as null.
abbrev pub or_null : Option String → Json
or_null none = null
or_null (some s) = string s

abbrev pub texts : Dict String → Dict Json
texts [] = []
texts ((k, s) ∷ d) = (k, string s) ∷ texts d

abbrev pub generation_entries : Generation → Dict (Option Json)
generation_entries g =
    ("name", some (string g.name))
    ∷ ("size", some (number g.size))
    ∷ ("snapshot_present", some (boolean g.snapshot_present))
    ∷ ("structural_signature", optionally string g.structural_signature)
    ∷ ("content_fingerprint", optionally string g.content_fingerprint)
    ∷ ("parent", optionally string g.parent)
    ∷ ("identity_profile", optionally string g.identity_profile)
    ∷ []

unfoldable pub generation_json : Generation → Json
generation_json g = object_of (generation_entries g)

abbrev pub generation_arguments : List String
generation_arguments =
    "name" ∷ "size" ∷ "snapshot_present" ∷ "structural_signature" ∷ "content_fingerprint" ∷ "parent"
    ∷ "identity_profile" ∷ []

-- `Generation(**g)`
unfoldable pub read_generation : Json → Read Generation
read_generation j = do
  d ← read_object j
  _ ← arguments generation_arguments d
  name ← required read_text "name" d
  size ← given read_number 0 "size" d
  snapshot_present ← given read_boolean true "snapshot_present" d
  structural_signature ← given (nullable read_text) none "structural_signature" d
  content_fingerprint ← given (nullable read_text) none "content_fingerprint" d
  parent ← given (nullable read_text) none "parent" d
  identity_profile ← given (nullable read_text) none "identity_profile" d
  ok (record {
    name = name;
    size = size;
    snapshot_present = snapshot_present;
    structural_signature = structural_signature;
    content_fingerprint = content_fingerprint;
    parent = parent;
    identity_profile = identity_profile;
  })

-- What is read of a participant of a strict group, which the journal holds as a dict.
unfoldable pub item_json : GroupItem → Json
item_json item = object_of (
    ("rollback", some (or_null item.rollback))
    ∷ ("successor", some (string item.successor))
    ∷ ("predecessor", some (or_null item.predecessor))
    ∷ [])

unfoldable pub read_item : Json → Read GroupItem
read_item j = do
  d ← read_object j
  rollback ← required (nullable read_text) "rollback" d
  successor ← required read_text "successor" d
  predecessor ← given (nullable read_text) none "predecessor" d
  ok (record { rollback = rollback; successor = successor; predecessor = predecessor })

-- Only with a source are the signature and the fingerprint written.
abbrev pub with_source : Option String → Option String → Option Json
with_source none value = none
with_source (some source) value = some (or_null value)

abbrev pub marker_entries : Marker → Dict (Option Json)
marker_entries m =
    ("step_path", some (string m.step_path))
    ∷ ("field", some (string m.field))
    ∷ ("cache_key", some (or_null m.cache_key))
    ∷ ("run_id", some (string m.run_id))
    ∷ ("started_at", some (number m.started_at))
    ∷ ("success_record", some (or_null m.success_record))
    ∷ ("success_step_path", some (or_null m.success_step_path))
    ∷ ("path_was_absent", some (boolean m.path_was_absent))
    ∷ ("worker_identity", optionally (λ d. object (keyed (texts d))) m.worker_identity)
    ∷ ("identity_profile", optionally string m.identity_profile)
    ∷ ("success_kind", optionally string m.success_kind)
    ∷ ("strict_rollback_state", optionally string m.strict_rollback_state)
    ∷ ("strict_predecessor_state", optionally string m.strict_predecessor_state)
    ∷ ("strict_group", optionally (λ items. array (listed (map item_json items))) m.strict_group)
    ∷ ("strict_rollback_source", optionally string m.strict_rollback_source)
    ∷ (
      "strict_rollback_signature",
      with_source m.strict_rollback_source m.strict_rollback_signature,
    )
    ∷ (
      "strict_rollback_fingerprint",
      with_source m.strict_rollback_source m.strict_rollback_fingerprint,
    )
    ∷ []

unfoldable pub marker_json : Marker → Json
marker_json m = object_of (marker_entries m)

abbrev pub marker_arguments : List String
marker_arguments =
    "step_path" ∷ "field" ∷ "cache_key" ∷ "run_id" ∷ "started_at" ∷ "success_record"
    ∷ "success_step_path" ∷ "path_was_absent" ∷ "success_kind" ∷ "worker_identity"
    ∷ "strict_rollback_state" ∷ "strict_predecessor_state" ∷ "strict_group"
    ∷ "strict_rollback_source" ∷ "strict_rollback_signature" ∷ "strict_rollback_fingerprint"
    ∷ "identity_profile" ∷ []

-- `Marker(**marker)`
unfoldable pub read_marker : Json → Read Marker
read_marker j = do
  d ← read_object j
  _ ← arguments marker_arguments d
  step_path ← required read_text "step_path" d
  field ← required read_text "field" d
  cache_key ← required (nullable read_text) "cache_key" d
  run_id ← required read_text "run_id" d
  started_at ← required read_number "started_at" d
  success_record ← given (nullable read_text) none "success_record" d
  success_step_path ← given (nullable read_text) none "success_step_path" d
  path_was_absent ← given read_boolean false "path_was_absent" d
  success_kind ← given (nullable read_text) none "success_kind" d
  worker_identity ← given (nullable (read_dict read_text)) none "worker_identity" d
  rollback_state ← given (nullable read_text) none "strict_rollback_state" d
  predecessor_state ← given (nullable read_text) none "strict_predecessor_state" d
  group ← given (nullable (read_list read_item)) none "strict_group" d
  source ← given (nullable read_text) none "strict_rollback_source" d
  signature ← given (nullable read_text) none "strict_rollback_signature" d
  fingerprint ← given (nullable read_text) none "strict_rollback_fingerprint" d
  identity_profile ← given (nullable read_text) none "identity_profile" d
  ok (record {
    step_path = step_path;
    field = field;
    cache_key = cache_key;
    run_id = run_id;
    started_at = started_at;
    success_record = success_record;
    success_step_path = success_step_path;
    path_was_absent = path_was_absent;
    success_kind = success_kind;
    worker_identity = worker_identity;
    strict_rollback_state = rollback_state;
    strict_predecessor_state = predecessor_state;
    strict_group = group;
    strict_rollback_source = source;
    strict_rollback_signature = signature;
    strict_rollback_fingerprint = fingerprint;
    identity_profile = identity_profile;
  })
