-- ===== src/Snapshots/Reuse.antt =====
-- `strict_reuse_issue` of src/shinobi/snapshots.py: may a cached result of a strict writer be used?
pub mod Walk
pub mod Complete
pub mod Vouched
mod Samples
use stimela_ninja.Prelude.{
  ℕ, zero, suc, String, Bool, true, false, not, ◌||◌, Option, none, some, List, [], ◌∷◌, any,
  is_some, length, if◌then◌else◌, nat_eq,
}
use stimela_ninja.Prelude.Results.{Result, ok, refused, and_then, check, found}
use stimela_ninja.Snapshots.{Generation, Chain, HeadStatus, trusted, untrusted}
use stimela_ninja.Snapshots.Evict.{has}
use stimela_ninja.Snapshots.Guard.{StateIdentity}
use text.Mathlib.Text.{◌==◌}

pub data ReuseIssue : Type 0 where
  no_history in_flight not_vouched absent root_changed no_identity : ReuseIssue
  structure_differs files_differ not_descended : ReuseIssue

-- Chain.generation
unfoldable pub generation : String → List Generation → Option Generation
generation n [] = none
generation n (g ∷ gs) = if g.name == n then some g else generation n gs

abbrev pub is_trusted : HeadStatus → Bool
is_trusted trusted = true
is_trusted untrusted = false

-- `chain.generation(current.parent) if current.parent is not None else None`
abbrev pub parent_in : List Generation → Generation → Option Generation
parent_in gs g = elim g.parent [ none ↦ none | some n ↦ generation n gs ]

-- The loop over the parents: `none` when the fuel is used up.
unfoldable pub walk : ℕ → List Generation → String → Option Generation → List String → Option Bool
walk fuel gs produced none seen = some false
walk zero gs produced (some g) seen = none
walk (suc fuel) gs produced (some g) seen =
    let further = walk fuel gs produced (parent_in gs g) (g.name ∷ seen) in
    if has g.name seen then some false else if g.name == produced then some true else further

abbrev pub is_true : Option Bool → Bool
is_true none = false
is_true (some b) = b

-- Each round sees another name of the chain.
abbrev pub descended : List Generation → String → Generation → Option Bool
descended gs produced head = walk (suc (length gs)) gs produced (some head) []

-- What stat answers is the time of the root, none for a path that is absent.
unfoldable pub reuse_head :
    List Generation → String → StateIdentity → Generation → Result ReuseIssue (Unit {0})
reuse_head gs produced live head =
    and_then (found head.structural_signature no_identity) λ signature.
      and_then (found head.content_fingerprint no_identity) λ fingerprint.
        and_then (check (signature == live.signature) structure_differs) λ u.
          and_then (check (fingerprint == live.fingerprint) files_differ)
            λ v. check (is_true (descended gs produced head)) not_descended

unfoldable pub reuse_chain :
    Chain → Option ℕ → String → StateIdentity → Result ReuseIssue (Unit {0})
reuse_chain c stat produced live = and_then (check (not (is_some c.marker)) in_flight) λ u.
    and_then (check (is_trusted c.status) not_vouched) λ v.
      and_then (found c.head not_vouched) λ name. and_then (found stat absent) λ ctime.
        and_then (check (nat_eq c.ctime_ns 0 || nat_eq c.ctime_ns ctime) root_changed) λ w.
          and_then (found (generation name c.generations) no_identity)
            (reuse_head c.generations produced live)

unfoldable pub strict_reuse_issue :
    Option Chain → Option ℕ → String → StateIdentity → Result ReuseIssue (Unit {0})
strict_reuse_issue chain stat produced live =
    and_then (found chain no_history) λ c. reuse_chain c stat produced live
