-- ===== src/Snapshots/Reuse/Vouched.antt =====
-- When a cached result of a strict writer is used.
use stimela_ninja.Prelude.{
  ℕ, String, Bool, true, not, ◌||◌, Option, none, some, List, is_some, nat_eq, ◌≡◌, ◌↔◌, refl,
  arith, ap, ◌∙◌, Option-cases, inl, inr,
}
use stimela_ninja.Prelude.Results.{ok, check, found, and_then_ok, found_ok, check_ok}
use stimela_ninja.Snapshots.{Generation, Chain, HeadStatus, trusted, untrusted}
use stimela_ninja.Snapshots.Guard.{StateIdentity}
use stimela_ninja.Snapshots.Reuse.{
  no_history, in_flight, not_vouched, absent, root_changed, no_identity, structure_differs,
  files_differ, not_descended, generation, is_trusted, is_true, descended, reuse_head, reuse_chain,
  strict_reuse_issue,
}
use stimela_ninja.Snapshots.Reuse.Walk.{Descends}
use stimela_ninja.Snapshots.Reuse.Complete.{descended_lem}
use text.Mathlib.Text.{◌==◌}
use text.Mathlib.TextEquality.{eq_iff}

-- The live tree has the identity that is recorded for the head, which descends from the state.
abbrev pub IsLive : List Generation → String → StateIdentity → Generation → Type 0
IsLive gs produced live head =
    (head.structural_signature ≡ some live.signature)
    × (head.content_fingerprint ≡ some live.fingerprint)
    × Descends gs produced head

reuse_head-IsLive :
    (n : String) (gs : List Generation) (produced : String) (live : StateIdentity)
    (head : Generation)
    → generation n gs ≡ some head
    → (reuse_head gs produced live head ≡ ok tt) ↔ IsLive gs produced live head
unfolding reuse_head
reuse_head-IsLive n gs produced live head g = (forth, back)
  where
    found_so : (o : Option Bool) → is_true o ≡ true → o ≡ some true
    found_so none e = ground (arith, e)
    found_so (some b) e = ap some e

    forth : reuse_head gs produced live head ≡ ok tt → IsLive gs produced live head
    forth e =
        let (s, a, e1) = and_then_ok (found head.structural_signature no_identity) _ tt e in
        let (f, b, e2) = and_then_ok (found head.content_fingerprint no_identity) _ tt e1 in
        let (u, c, e3) = and_then_ok (check (s == live.signature) structure_differs) _ tt e2 in
        let (v, d, e4) = and_then_ok (check (f == live.fingerprint) files_differ) _ tt e3 in
        (
          found_ok head.structural_signature no_identity s a
              ∙ ap some (
                  (eq_iff s live.signature).0
                    (check_ok (s == live.signature) structure_differs u c)),
          found_ok head.content_fingerprint no_identity f b
              ∙ ap some (
                  (eq_iff f live.fingerprint).0
                    (check_ok (f == live.fingerprint) files_differ v d)),
          (descended_lem n gs produced head g).0 (
              found_so (descended gs produced head)
                (check_ok (is_true (descended gs produced head)) not_descended tt e4)),
        )

    back : IsLive gs produced live head → reuse_head gs produced live head ≡ ok tt
    back (s, f, d) = ground (
      arith,
      s,
      f,
      (descended_lem n gs produced head g).1 d,
      eq_iff live.signature live.signature,
      eq_iff live.fingerprint live.fingerprint,
    )

-- A chain without a marker whose head is trusted, over a tree whose root is unchanged.
abbrev pub Vouches : Chain → Option ℕ → String → StateIdentity → Type 0
Vouches c stat produced live =
    (c.marker ≡ none)
    × (c.status ≡ trusted)
    × ((ctime : ℕ) × (stat ≡ some ctime)
        × ((nat_eq c.ctime_ns 0 || nat_eq c.ctime_ns ctime) ≡ true))
    × ((name : String) × (head : Generation) × (c.head ≡ some name)
        × (generation name c.generations ≡ some head)
        × IsLive c.generations produced live head)

-- A cached result is used exactly when the path has a chain without a marker and with a trusted
-- head, the root's time is unchanged or was not recorded, the live identity is the one recorded
-- for the head, and the head is the produced state or descends from it through the parents.
pub strict_reuse_issue-Vouches :
    (chain : Option Chain) (stat : Option ℕ) (produced : String) (live : StateIdentity)
    → (strict_reuse_issue chain stat produced live ≡ ok tt)
      ↔ ((c : Chain) × (chain ≡ some c) × Vouches c stat produced live)
unfolding strict_reuse_issue reuse_chain
strict_reuse_issue-Vouches chain stat produced live = (forth, back)
  where
    no_marker : (c : Chain) → not (is_some c.marker) ≡ true → c.marker ≡ none
    no_marker c e = elim (Option-cases c.marker) [
      | inl h ↦ h
      | inr (m, h) ↦ absurd (ground (arith, e, h))
    ]

    is_so : (s : HeadStatus) → is_trusted s ≡ true → s ≡ trusted
    is_so trusted e = refl
    is_so untrusted e = ground (arith, e)

    forth :
        strict_reuse_issue chain stat produced live ≡ ok tt
        → ((c : Chain) × (chain ≡ some c) × Vouches c stat produced live)
    forth e =
        let (c, a, e1) = and_then_ok (found chain no_history) _ tt e in
        let (u, m, e2) = and_then_ok (check (not (is_some c.marker)) in_flight) _ tt e1 in
        let (v, t, e3) = and_then_ok (check (is_trusted c.status) not_vouched) _ tt e2 in
        let (name, h, e4) = and_then_ok (found c.head not_vouched) _ tt e3 in
        let (ctime, s, e5) = and_then_ok (found stat absent) _ tt e4 in
        let unchanged = nat_eq c.ctime_ns 0 || nat_eq c.ctime_ns ctime in
        let (w, r, e6) = and_then_ok (check unchanged root_changed) _ tt e5 in
        let (head, g, e7) =
          and_then_ok (found (generation name c.generations) no_identity) _ tt e6 in
        let at_head = found_ok (generation name c.generations) no_identity head g in
        (
          c,
          found_ok chain no_history c a,
          (
            no_marker c (check_ok (not (is_some c.marker)) in_flight u m),
            is_so c.status (check_ok (is_trusted c.status) not_vouched v t),
            (ctime, found_ok stat absent ctime s, check_ok unchanged root_changed w r),
            (
              name,
              head,
              found_ok c.head not_vouched name h,
              at_head,
              (reuse_head-IsLive name c.generations produced live head at_head).0 e7,
            ),
          ),
        )

    back :
        ((c : Chain) × (chain ≡ some c) × Vouches c stat produced live)
        → strict_reuse_issue chain stat produced live ≡ ok tt
    back (c, a, (m, t, (ctime, s, r), (name, head, h, g, l))) = ground (
      arith,
      a,
      m,
      t,
      s,
      r,
      h,
      g,
      (reuse_head-IsLive name c.generations produced live head g).1 l,
    )
