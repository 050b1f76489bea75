-- ===== src/Access/Collisions/Samples.antt =====
-- Scatters over measurement sets: slices with their own outputs, and two that share one.
use stimela_ninja.Prelude.{◌≡◌, refl, String, true, false, none, some, List, [], ◌∷◌, inl, inr, ltb}
use stimela_ninja.Access.{Parts, path_eq, is_relative_to}
use stimela_ninja.Access.Collisions.{
  Claimed, insert, add, record_claim, record_claims, groups_from, conflict_with, conflict,
  parts_before, insert_by_parts, by_parts, unwind, against, scan, validate_scatter_collisions,
}
use stimela_ninja.Access.Collisions.TextOrder.{text_before}
use stimela_ninja.Access.Collisions.Collected.{owned, collide}
use stimela_ninja.Access.Collisions.Checked.{accepted_apart, refused_collision, HasCollision}

abbrev reads : Parts → Claimed
reads p = (p, false)

abbrev wrote : Parts → Claimed
wrote p = (p, true)

abbrev shared : Parts
shared = "/" ∷ "data" ∷ "obs.ms" ∷ []

abbrev column : Parts
column = "/" ∷ "data" ∷ "obs.ms" ∷ "FLAG" ∷ []

abbrev image : String → Parts
image name = "/" ∷ "out" ∷ name ∷ []

-- Three slices read one measurement set, and each writes an image.
abbrev imaging : List (List Claimed)
imaging =
    (reads shared ∷ wrote (image "a") ∷ [])
    ∷ (reads shared ∷ wrote (image "b") ∷ [])
    ∷ (reads shared ∷ wrote (image "c") ∷ [])
    ∷ []

-- The second slice writes inside what the others read.
abbrev flagging : List (List Claimed)
flagging = (reads shared ∷ []) ∷ (wrote column ∷ []) ∷ (reads shared ∷ []) ∷ []

imaging_accepted : validate_scatter_collisions imaging ≡ none
unfolding validate_scatter_collisions groups_from record_claims record_claim add insert conflict
    conflict_with by_parts insert_by_parts parts_before text_before scan unwind against path_eq
    is_relative_to
imaging_accepted = refl

flagging_refused : validate_scatter_collisions flagging ≡ some (0, 1)
unfolding validate_scatter_collisions groups_from record_claims record_claim add insert conflict
    conflict_with by_parts insert_by_parts parts_before text_before scan unwind against path_eq
    is_relative_to
flagging_refused = refl

accepted_apart_example : collide (0, reads shared) (2, wrote (image "c")) ≡ false
accepted_apart_example =
    accepted_apart imaging (0, reads shared) (2, wrote (image "c")) imaging_accepted (inl refl)
      (inr (inr (inr (inr (inr (inl refl)))))) refl

refused_collision_example : (ltb 0 1 ≡ true) × HasCollision (owned flagging) (0, 1)
refused_collision_example = refused_collision flagging 0 1 flagging_refused
