-- ===== src/Snapshots/Json/RoundTrip.antt =====
-- What the journal writes of a chain is read back as the same chain.
use stimela_ninja.Prelude.{
  is_some, not, ◌&&◌, ◌||◌, ◌≡◌, refl, arith, String, Bool, true, false, Option, none, some, List,
  [], ◌∷◌, map, any,
}
use stimela_ninja.Prelude.Dict.{Dict, get}
use stimela_ninja.Prelude.Results.{ok}
use stimela_ninja.Snapshots.{HeadStatus, trusted, untrusted, Generation, GroupItem, Marker, Chain}
use stimela_ninja.Snapshots.Json.{
  Json, string, number, boolean, elements, listed, members, keyed, read_text, read_number,
  read_boolean, array, object, read_list, read_dict, values, nullable, given, present,
}
use stimela_ninja.Snapshots.Json.Fields.{
  elements-listed, members-keyed, distinct, get-present, all-present, required_ok, given_ok,
  given_optional, each-map, required_text, optional_text, flatten,
}
use stimela_ninja.Snapshots.Json.Chains.{
  chain_json, read_chain, chain_entries, marker_or_null, read_marker_if, status_value, read_status,
}
use stimela_ninja.Snapshots.Json.States.{
  with_source, or_null, texts, generation_entries, generation_json, generation_arguments,
  read_generation, item_json, read_item, marker_entries, marker_json, marker_arguments, read_marker,
}
use text.Mathlib.Text.{◌==◌}

read_text-or_null : (o : Option String) → nullable read_text (or_null o) ≡ ok o
read_text-or_null none = refl
read_text-or_null (some s) = refl

read_item-item_json : (item : GroupItem) → read_item (item_json item) ≡ ok item
unfolding read_item item_json get present elements listed members keyed
read_item-item_json item =
    rw (read_text-or_null item.rollback, read_text-or_null item.predecessor) refl

read_texts : (d : Dict String) → values read_text (texts d) ≡ ok d
read_texts [] = refl
read_texts ((k, s) ∷ d) = rw (read_texts d) refl

read_generation-generation_json : (g : Generation) → read_generation (generation_json g) ≡ ok g
unfolding read_generation generation_json get
read_generation-generation_json g =
    let d = generation_entries g in
    rw
      (
        members-keyed (present d),
        all-present (λ key. any (λ name. name == key) generation_arguments) d refl,
        required_text d refl "name" g.name refl,
        given_ok d refl read_number 0 "size" (number g.size) g.size refl refl,
        given_ok d refl read_boolean true "snapshot_present" (boolean g.snapshot_present)
            g.snapshot_present refl refl,
        optional_text d refl "structural_signature" g.structural_signature refl,
        optional_text d refl "content_fingerprint" g.content_fingerprint refl,
        optional_text d refl "parent" g.parent refl,
        optional_text d refl "identity_profile" g.identity_profile refl,
      )
      refl

read_dict-object : (ds : Dict String) → read_dict read_text (object (keyed (texts ds))) ≡ ok ds
read_dict-object ds = rw (members-keyed (texts ds)) (read_texts ds)

read_items :
    (items : List GroupItem)
    → nullable (read_list read_item) (array (listed (map item_json items))) ≡ ok (some items)
read_items items =
    rw
      (
        elements-listed (map item_json items),
        each-map read_item item_json read_item-item_json items,
      )
      refl

-- Without a source, neither a signature nor a fingerprint is written.
abbrev pub keeps_source : Marker → Bool
keeps_source m =
    is_some m.strict_rollback_source
    || (not (is_some m.strict_rollback_signature) && not (is_some m.strict_rollback_fingerprint))

sourced_text :
    (d : Dict (Option Json)) (h : distinct d ≡ true) (k : String) (source o : Option String)
    → flatten (get k d) ≡ with_source source o
    → (is_some source || not (is_some o)) ≡ true
    → given (nullable read_text) none k (present d) ≡ ok o
sourced_text d h k none none e r = rw (given, get-present k d h, e) refl
sourced_text d h k none (some s) e r = ground (arith, r)
sourced_text d h k (some source) none e r = rw (given, get-present k d h, e) refl
sourced_text d h k (some source) (some s) e r = rw (given, get-present k d h, e) refl

read_marker-marker_json : (m : Marker) → keeps_source m ≡ true → read_marker (marker_json m) ≡ ok m
unfolding read_marker marker_json get
read_marker-marker_json m h =
    let d = marker_entries m in
    rw
      (
        members-keyed (present d),
        all-present (λ key. any (λ name. name == key) marker_arguments) d refl,
        required_text d refl "step_path" m.step_path refl,
        required_text d refl "field" m.field refl,
        required_ok d refl (nullable read_text) "cache_key" (or_null m.cache_key) m.cache_key refl
            (read_text-or_null m.cache_key),
        required_text d refl "run_id" m.run_id refl,
        required_ok d refl read_number "started_at" (number m.started_at) m.started_at refl refl,
        given_ok d refl (nullable read_text) none "success_record" (or_null m.success_record)
            m.success_record refl (read_text-or_null m.success_record),
        given_ok d refl (nullable read_text) none "success_step_path" (or_null m.success_step_path)
            m.success_step_path refl (read_text-or_null m.success_step_path),
        given_ok d refl read_boolean false "path_was_absent" (boolean m.path_was_absent)
            m.path_was_absent refl refl,
        optional_text d refl "success_kind" m.success_kind refl,
        given_optional d refl (read_dict read_text) "worker_identity"
            (λ ds. object (keyed (texts ds))) m.worker_identity refl
            (λ ds. rw (members-keyed (texts ds), read_texts ds) refl),
        optional_text d refl "strict_rollback_state" m.strict_rollback_state refl,
        optional_text d refl "strict_predecessor_state" m.strict_predecessor_state refl,
        given_optional d refl (read_list read_item) "strict_group"
            (λ items. array (listed (map item_json items))) m.strict_group refl read_items,
        optional_text d refl "strict_rollback_source" m.strict_rollback_source refl,
        sourced_text d refl "strict_rollback_signature" m.strict_rollback_source
            m.strict_rollback_signature refl (ground (arith, h)),
        sourced_text d refl "strict_rollback_fingerprint" m.strict_rollback_source
            m.strict_rollback_fingerprint refl (ground (arith, h)),
        optional_text d refl "identity_profile" m.identity_profile refl,
      )
      refl

read_status-status_value : (s : HeadStatus) → read_status (string (status_value s)) ≡ ok s
read_status-status_value trusted = refl
read_status-status_value untrusted = refl

-- Can the chain's marker be written without a loss?
abbrev pub keeps_marker : Chain → Bool
keeps_marker c = elim c.marker [ none ↦ true | some m ↦ keeps_source m ]

read_marker_if-marker :
    (m : Marker) → keeps_source m ≡ true → read_marker_if (marker_json m) ≡ ok (some m)
unfolding marker_json present keyed members
read_marker_if-marker m h = rw (read_marker-marker_json m h) refl

read_marker_if-or_null :
    (o : Option Marker)
    → elim o [ none ↦ true | some m ↦ keeps_source m ] ≡ true
    → read_marker_if (marker_or_null o) ≡ ok o
read_marker_if-or_null none h = refl
read_marker_if-or_null (some m) h = read_marker_if-marker m h

-- A chain that is written is read back as it was, when its marker has a signature and a
-- fingerprint of the rollback only beside a source.
pub read_chain-chain_json : (c : Chain) → keeps_marker c ≡ true → read_chain (chain_json c) ≡ ok c
unfolding read_chain chain_json get
read_chain-chain_json c h =
    let d = chain_entries c in
    rw
      (
        members-keyed (present d),
        required_ok d refl read_number "dev" (number c.dev) c.dev refl refl,
        required_ok d refl read_number "ino" (number c.ino) c.ino refl refl,
        given_ok d refl read_number 0 "ctime_ns" (number c.ctime_ns) c.ctime_ns refl refl,
        given_ok d refl read_text "" "path" (string c.path) c.path refl refl,
        given_ok d refl (read_list read_generation) [] "generations"
            (array (listed (map generation_json c.generations))) c.generations refl
            (rw (elements-listed (map generation_json c.generations)) (
              each-map read_generation generation_json read_generation-generation_json
                c.generations)),
        given_ok d refl (nullable read_text) none "head" (or_null c.head) c.head refl
            (read_text-or_null c.head),
        given_ok d refl read_status trusted "status" (string (status_value c.status)) c.status refl
            (read_status-status_value c.status),
        given_ok d refl read_marker_if none "marker" (marker_or_null c.marker) c.marker refl
            (read_marker_if-or_null c.marker h),
        given_ok d refl (read_dict read_text) [] "consumed" (object (keyed (texts c.consumed)))
            c.consumed refl (read_dict-object c.consumed),
        given_ok d refl (nullable read_text) none "tainted_through" (or_null c.tainted_through)
            c.tainted_through refl (read_text-or_null c.tainted_through),
      )
      refl
