-- ===== src/Snapshots/Guard.antt =====
-- The updates of a chain by the class `SnapshotGuard` of src/shinobi/snapshots.py around the run of
-- one mutating step that succeeds. Each is an update of the journal under its lock. Restores and
-- rollbacks are not modelled.
pub mod Honoured
pub mod Unnamed
pub mod Distinct
mod Samples
use stimela_ninja.Prelude.{
  ℕ, String, Bool, true, false, not, ◌&&◌, ◌||◌, Option, none, some, List, [], ◌∷◌, ◌++◌, is_some,
  if◌then◌else◌,
}
use stimela_ninja.Prelude.Dict.{put}
use stimela_ninja.Snapshots.{Generation, Marker, Chain, trusted, named, taint_blocks}
use text.Mathlib.Text.{◌==◌}

pub record StateIdentity : Type 0 where
  pub signature : String
  pub fingerprint : String

pub record Stat : Type 0 where
  pub st_dev : ℕ
  pub st_ino : ℕ
  pub st_ctime_ns : ℕ

-- `Chain(dev=..., ino=..., ctime_ns=..., path=...)`
abbrev pub new_chain : Stat → String → Chain
new_chain st path = record {
  dev = st.st_dev;
  ino = st.st_ino;
  ctime_ns = st.st_ctime_ns;
  path = path;
  generations = [];
  head = none;
  status = trusted;
  marker = none;
  consumed = [];
  tainted_through = none;
}

abbrev pub or_new : Option Chain → Stat → String → Chain
or_new none st path = new_chain st path
or_new (some c) st path = c

-- The first generation of the name, altered in place.
unfoldable pub altered : String → (Generation → Generation) → List Generation → List Generation
altered n f [] = []
altered n f (g ∷ gs) = let rest = altered n f gs in if g.name == n then f g ∷ gs else g ∷ rest

abbrev or_else : Option String → Option String → Option String
or_else none other = other
or_else (some a) other = some a

abbrev pub identity_signature : Option StateIdentity → Option String
identity_signature none = none
identity_signature (some identity) = some identity.signature

abbrev pub identity_fingerprint : Option StateIdentity → Option String
identity_fingerprint none = none
identity_fingerprint (some identity) = some identity.fingerprint

-- `_record_generation`: what is taken of a named state.
pub record Taken : Type 0 where
  pub name : String
  pub size : ℕ
  pub present : Bool
  pub identity : Option StateIdentity
  pub profile : Option String

abbrev pub seen_again : Taken → Generation → Generation
seen_again t g = record g {
  snapshot_present = g.snapshot_present || t.present;
  structural_signature = or_else g.structural_signature (identity_signature t.identity);
  content_fingerprint = or_else g.content_fingerprint (identity_fingerprint t.identity);
}

unfoldable pub record_generation : Taken → Chain → Chain
record_generation t c =
    if named t.name c.generations
    then record c { generations = altered t.name (seen_again t) c.generations }
    else record c {
      generations =
          c.generations
          ++ (record {
            name = t.name;
            size = t.size;
            snapshot_present = t.present;
            structural_signature = identity_signature t.identity;
            content_fingerprint = identity_fingerprint t.identity;
            parent = none;
            identity_profile = t.profile;
          }
              ∷ []);
    }

-- The taint only moves forward.
unfoldable pub move_taint : String → Chain → Chain
move_taint through c =
    if not (is_some c.tainted_through) || not (taint_blocks c through)
    then record c { tainted_through = some through }
    else c

-- `_taint`: nothing to protect where no state precedes the write.
abbrev pub taint : Option String → Chain → Chain
taint none c = c
taint (some through) c = move_taint through c

-- `_commit_generation`: the step succeeded.
pub record Commit : Type 0 where
  pub stat : Stat
  pub path : String
  pub produced : Option String
  pub size : ℕ
  pub snapshot_exists : Bool
  pub successor : Option StateIdentity
  pub strict : Bool
  pub profile : Option String
  pub consumed_key : String
  pub consumed_name : Option String

abbrev pub parent_of : Commit → Option String
parent_of a = if a.strict then a.consumed_name else none

abbrev pub renewed : Commit → Generation → Generation
renewed a g = record g {
  structural_signature = identity_signature a.successor;
  content_fingerprint = identity_fingerprint a.successor;
  parent = parent_of a;
}

abbrev pub renewed_if : Bool → Commit → String → List Generation → List Generation
renewed_if false a produced gs = gs
renewed_if true a produced gs = altered produced (renewed a) gs

unfoldable pub with_produced : Commit → String → List Generation → List Generation
with_produced a produced gs =
    if named produced gs
    then renewed_if a.strict a produced gs
    else gs
      ++ (record {
        name = produced;
        size = a.size;
        snapshot_present = a.snapshot_exists;
        structural_signature = identity_signature a.successor;
        content_fingerprint = identity_fingerprint a.successor;
        parent = parent_of a;
        identity_profile = if a.strict then a.profile else none;
      }
          ∷ [])

abbrev pub located : Stat → Chain → Chain
located st c = record c { dev = st.st_dev; ino = st.st_ino; ctime_ns = st.st_ctime_ns }

-- A step without a name for what it produced taints the chain through its head.
unfoldable pub commit_named : Commit → Option String → Chain → Chain
commit_named a none c = taint c.head c
commit_named a (some produced) c = record c {
  generations = with_produced a produced c.generations;
  head = some produced;
  status = trusted;
  consumed = elim a.consumed_name [ none ↦ c.consumed | some n ↦ put a.consumed_key n c.consumed ];
}

abbrev pub committed : Commit → Chain → Chain
committed a c = commit_named a a.produced c

-- `_rule_a` of a strict guard: the verified state is the head of a chain that has none.
abbrev pub adopt : String → Chain → Chain
adopt required c = if is_some c.head then c else record c { head = some required; status = trusted }

-- `_mark_in_flight`: the marker of a mutation that starts.
abbrev pub mark_in_flight : Stat → String → Marker → Option Chain → Chain
mark_in_flight st path marker chain = record (or_new chain st path) { marker = some marker }

-- `_clear_marker`
abbrev pub clear_marker : Chain → Chain
clear_marker c = record c { marker = none }

-- One update of the journal by a guard. `marked` has what stat answers, or zeros for a path that
-- is absent.
pub data Mutation : Type 0 where
  recorded : Taken → Mutation
  marked : Stat → String → Marker → Mutation
  adopted : String → Mutation
  committing : Commit → Mutation
  tainting : Option String → Mutation
  cleared : Mutation

abbrev pub on_chain : (Chain → Chain) → Option Chain → Option Chain
on_chain f none = none
on_chain f (some c) = some (f c)

unfoldable pub mutate : Mutation → Option Chain → Option Chain
mutate (recorded t) chain = on_chain (record_generation t) chain
mutate (marked st path marker) chain = some (mark_in_flight st path marker chain)
mutate (adopted required) chain = on_chain (adopt required) chain
mutate (committing a) chain = some (committed a (located a.stat (or_new chain a.stat a.path)))
mutate (tainting through) chain = on_chain (taint through) chain
mutate cleared chain = on_chain clear_marker chain

unfoldable pub mutations : List Mutation → Option Chain → Option Chain
mutations [] chain = chain
mutations (x ∷ xs) chain = mutations xs (mutate x chain)
