-- ===== src/Snapshots.antt =====
-- The journal of src/shinobi/snapshots.py: for each mutated path the chain of its named states.
mod Samples
pub mod Taint
pub mod Guard
mod Reuse
mod Intact
pub mod Evict
pub mod Invalidate
mod Json
use stimela_ninja.Prelude.{
  ℕ, suc, String, Bool, true, false, Option, none, some, List, [], ◌∷◌, any, leb,
}
use stimela_ninja.Prelude.Dict.{Dict, get, put}
use text.Mathlib.Text.{◌==◌}

pub data HeadStatus : Type 0 where
  trusted untrusted : HeadStatus

-- A named state of the path, less the reference to a FITS commit that it may carry.
pub record Generation : Type 0 where
  pub name : String
  pub size : ℕ
  pub snapshot_present : Bool
  pub structural_signature : Option String
  pub content_fingerprint : Option String
  pub parent : Option String
  pub identity_profile : Option String

-- What one participant of a strict group rolls back to, produces and starts from.
pub record GroupItem : Type 0 where
  pub rollback : Option String
  pub successor : String
  pub predecessor : Option String

-- A step is mutating the path.
pub record Marker : Type 0 where
  pub step_path : String
  pub field : String
  pub cache_key : Option String
  pub run_id : String
  pub started_at : ℕ
  pub success_record : Option String
  pub success_step_path : Option String
  pub path_was_absent : Bool
  pub success_kind : Option String
  pub worker_identity : Option (Dict String)
  pub strict_rollback_state : Option String
  pub strict_predecessor_state : Option String
  pub strict_group : Option (List GroupItem)
  pub strict_rollback_source : Option String
  pub strict_rollback_signature : Option String
  pub strict_rollback_fingerprint : Option String
  pub identity_profile : Option String

-- Generations stand in the order of their commits; `consumed` has the state that each step read.
pub record Chain : Type 0 where
  pub dev : ℕ
  pub ino : ℕ
  pub ctime_ns : ℕ
  pub path : String
  pub generations : List Generation
  pub head : Option String
  pub status : HeadStatus
  pub marker : Option Marker
  pub consumed : Dict String
  pub tainted_through : Option String

abbrev pub Journal : Type 0
Journal = Dict Chain

-- Is a state of that name among the generations?
abbrev pub named : String → List Generation → Bool
named n gs = any (λ g. g.name == n) gs

-- `{generation.name: index ...}` from an index on: the last of equal names stays.
unfoldable pub indexed : ℕ → List Generation → Dict ℕ → Dict ℕ
indexed i [] order = order
indexed i (g ∷ gs) order = indexed (suc i) gs (put g.name i order)

abbrev pub order_of : List Generation → Dict ℕ
order_of gs = indexed 0 gs []

-- Positions that cannot be compared are not vouched for.
abbrev pub at_or_behind : Option ℕ → Option ℕ → Bool
at_or_behind none target = true
at_or_behind (some taint) none = true
at_or_behind (some taint) (some target) = leb target taint

unfoldable pub taint_blocks : Chain → String → Bool
taint_blocks c required = elim c.tainted_through [
  | none ↦ false
  | some taint ↦
      let order = order_of c.generations in at_or_behind (get taint order) (get required order)
]
