-- ===== src/Snapshots/Guard/Unnamed.antt =====
-- A successful step without a cache key.
use stimela_ninja.Prelude.{
  ℕ, String, true, false, not, ◌||◌, Option, none, some, is_some, ◌≡◌, refl, arith, ap, Bool-cases,
  Option-cases, inl, inr, ◌∙◌,
}
use stimela_ninja.Snapshots.{Chain, named, at_or_behind, taint_blocks}
use stimela_ninja.Snapshots.Taint.{last, after, holds_later, is_some-last, at_or_behind-after}
use stimela_ninja.Snapshots.Guard.{
  Commit, move_taint, taint, located, committed, commit_named, committing, mutate,
}
use stimela_ninja.Snapshots.Guard.Honoured.{taint_blocks-blocked}

at_or_behind_chain :
    (a b r : Option ℕ)
    → is_some b ≡ true
    → at_or_behind a b ≡ true
    → at_or_behind b r ≡ true
    → at_or_behind a r ≡ true
at_or_behind_chain none b r s k l = refl
at_or_behind_chain (some a) none r s k l = ground (arith, s)
at_or_behind_chain (some a) (some b) none s k l = refl
at_or_behind_chain (some a) (some b) (some r) s k l = ground (arith, k, l)

-- The taint moves to the head, or is at or ahead of it already.
blocked-move_taint :
    (head required : String) (c : Chain)
    → named head c.generations ≡ true
    → at_or_behind (last head c.generations) (last required c.generations) ≡ true
    → taint_blocks (move_taint head c) required ≡ true
unfolding move_taint
blocked-move_taint head required c n p =
    elim (Bool-cases (not (is_some c.tainted_through) || not (taint_blocks c head))) [
      | inl e ↦ rw e (
          ground
            (arith, p, taint_blocks-blocked (record c { tainted_through = some head }) required))
      | inr e ↦ rw e (elim (Option-cases c.tainted_through) [
        | inl o ↦ ground (arith, e, o)
        | inr (t, o) ↦ ground (
          arith,
          taint_blocks-blocked c required,
          o,
          at_or_behind_chain (last t c.generations) (last head c.generations)
              (last required c.generations) (ground (arith, n, is_some-last head c.generations))
              (ground (arith, e, o, taint_blocks-blocked c head)) p,
        )
      ])
    ]

-- After a successful step that has no name for what it produced, on a chain whose head is a
-- recorded generation, every state that is not recorded after the head is blocked.
pub commit_without_key :
    (a : Commit) (c : Chain) (head required : String)
    → a.produced ≡ none
    → c.head ≡ some head
    → named head c.generations ≡ true
    → holds_later required (after head c.generations) ≡ false
    → (left : Chain) × (mutate (committing a) (some c) ≡ some left)
      × (taint_blocks left required ≡ true)
unfolding mutate commit_named
commit_without_key a c head required none_produced at_head n h =
    let started = located a.stat c in
    let position : at_or_behind (last head c.generations) (last required c.generations) ≡ true =
      ground (arith, h, at_or_behind-after head required c.generations) in
    let moved : committed a started ≡ move_taint head started =
      ap (λ p. commit_named a p started) none_produced ∙ ap (λ o. taint o started) at_head in
    (
      committed a started,
      refl,
      ap (λ x. taint_blocks x required) moved ∙ blocked-move_taint head required started n position,
    )
