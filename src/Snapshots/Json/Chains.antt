-- ===== src/Snapshots/Json/Chains.antt =====
-- `Chain.as_json`, `Chain.from_json` and the reads and updates of `ChainJournal` of
-- src/shinobi/snapshots.py, on the parsed content of the file.
use stimela_ninja.Prelude.{
  String, Bool, true, Option, none, some, not, is_nil, nat_eq, List, [], ◌∷◌, map, if◌then◌else◌,
}
use stimela_ninja.Prelude.Dict.{Dict, get, put, pop}
use stimela_ninja.Prelude.Results.{ok, refused, ◌>>=◌}
use stimela_ninja.Snapshots.{HeadStatus, trusted, untrusted, Marker, Chain}
use stimela_ninja.Snapshots.Json.{
  Json, null, boolean, number, string, array, object, listed, keyed, elements, members, Read,
  unknown_status, read_text, read_number, read_object, read_list, read_dict, values, nullable,
  required, given,
}
use stimela_ninja.Snapshots.Json.States.{
  object_of, or_null, texts, generation_json, read_generation, marker_json, read_marker,
}
use text.Mathlib.Text.{◌==◌}

abbrev pub status_value : HeadStatus → String
status_value trusted = "trusted"
status_value untrusted = "untrusted"

abbrev pub read_status : Json → Read HeadStatus
read_status j = elim j [
  | string s ↦
      if s == "trusted"
      then ok trusted
      else if s == "untrusted"
      then ok untrusted
      else refused unknown_status
  | _ ↦ refused unknown_status
]

abbrev pub marker_or_null : Option Marker → Json
marker_or_null none = null
marker_or_null (some m) = marker_json m

-- `if marker`
abbrev pub falsy : Json → Bool
falsy j = elim j [
  | null ↦ true
  | boolean b ↦ not b
  | number n ↦ nat_eq n 0
  | string s ↦ s == ""
  | array js ↦ is_nil (elements js)
  | object ms ↦ is_nil (members ms)
]

abbrev pub read_marker_if : Json → Read (Option Marker)
read_marker_if j = if falsy j then ok none else read_marker j >>= λ m. ok (some m)

abbrev pub chain_entries : Chain → Dict (Option Json)
chain_entries c =
    ("dev", some (number c.dev))
    ∷ ("ino", some (number c.ino))
    ∷ ("ctime_ns", some (number c.ctime_ns))
    ∷ ("path", some (string c.path))
    ∷ ("generations", some (array (listed (map generation_json c.generations))))
    ∷ ("head", some (or_null c.head))
    ∷ ("status", some (string (status_value c.status)))
    ∷ ("marker", some (marker_or_null c.marker))
    ∷ ("consumed", some (object (keyed (texts c.consumed))))
    ∷ ("tainted_through", some (or_null c.tainted_through))
    ∷ []

unfoldable pub chain_json : Chain → Json
chain_json c = object_of (chain_entries c)

-- `Chain.from_json`
unfoldable pub read_chain : Json → Read Chain
read_chain j = do
  d ← read_object j
  dev ← required read_number "dev" d
  ino ← required read_number "ino" d
  ctime_ns ← given read_number 0 "ctime_ns" d
  path ← given read_text "" "path" d
  generations ← given (read_list read_generation) [] "generations" d
  head ← given (nullable read_text) none "head" d
  status ← given read_status trusted "status" d
  marker ← given read_marker_if none "marker" d
  consumed ← given (read_dict read_text) [] "consumed" d
  tainted_through ← given (nullable read_text) none "tainted_through" d
  ok (record {
    dev = dev;
    ino = ino;
    ctime_ns = ctime_ns;
    path = path;
    generations = generations;
    head = head;
    status = status;
    marker = marker;
    consumed = consumed;
    tainted_through = tainted_through;
  })

-- `ChainJournal._load`
unfoldable pub load_chains : Dict Json → Read (Dict Chain)
load_chains d = values read_chain d

-- `ChainJournal.get`
unfoldable pub get_chain : String → Dict Json → Read (Option Chain)
get_chain cid d = load_chains d >>= λ chains. ok (get cid chains)

-- `Chain.from_json(data[cid]) if cid in data else None`
abbrev pub current : String → Dict Json → Read (Option Chain)
current cid d = elim (get cid d) [ none ↦ ok none | some j ↦ read_chain j >>= λ c. ok (some c) ]

-- A chain that is not given back is removed.
abbrev pub with_chain : String → Option Chain → Dict Json → Dict Json
with_chain cid none d = pop cid d
with_chain cid (some c) d = put cid (chain_json c) d

-- `ChainJournal.update_chains`, of changes that do not raise
unfoldable pub update_chains :
    List (String × (Option Chain → Option Chain)) → Dict Json → Read (Dict Json)
update_chains [] d = ok d
update_chains ((cid, mutate) ∷ changes) d = do
  c ← current cid d
  update_chains changes (with_chain cid (mutate c) d)
