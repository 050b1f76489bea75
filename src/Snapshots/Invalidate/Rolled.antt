-- ===== src/Snapshots/Invalidate/Rolled.antt =====
-- One chain that an invalidation rolls back.
use stimela_ninja.Prelude.{
  Bool, String, true, false, not, ◌&&◌, Option, none, some, List, [], ◌∷◌, any, is_nil, All, ◌≡◌,
  refl, arith, ap, Bool-cases, Option-cases, some_inj, inl, inr,
}
use stimela_ninja.Prelude.Dict.{Dict}
use stimela_ninja.Snapshots.{Generation, Chain, named}
use stimela_ninja.Snapshots.Evict.{has}
use stimela_ninja.Snapshots.Invalidate.{
  is_of, produced_by, surviving, previous_of, still_consumed, rolled_head, rolled,
}
use text.Mathlib.TextEquality.{eq_iff}

-- No state of the key is recorded on a chain.
abbrev pub IsForgotten : Option String → Chain → Type 0
IsForgotten key c = any (λ g. is_of key g.name) c.generations ≡ false

abbrev pub head_named : Option String → List Generation → Bool
head_named none gs = true
head_named (some n) gs = named n gs

-- The head, and every state that a step consumed, is a recorded generation.
abbrev pub IsAnchored : Chain → Type 0
IsAnchored c =
    (head_named c.head c.generations ≡ true)
    × All (λ entry. named entry.1 c.generations ≡ true) c.consumed

pub has-produced_by :
    (key : Option String) (n : String) (gs : List Generation)
    → has n (produced_by key gs) ≡ (is_of key n && named n gs)
unfolding produced_by
has-produced_by key n [] = ground arith
has-produced_by key n (g ∷ gs) =
    ground (arith, has-produced_by key n gs, eq_iff g.name n, λ (e : g.name ≡ n). ap (is_of key) e)

named-surviving :
    (produced : List String) (n : String) (gs : List Generation)
    → named n (surviving produced gs) ≡ (named n gs && not (has n produced))
unfolding surviving
named-surviving produced n [] = refl
named-surviving produced n (g ∷ gs) = ground (
  arith,
  named-surviving produced n gs,
  eq_iff g.name n,
  λ (e : g.name ≡ n). ap (λ m. has m produced) e,
)

surviving-forgets :
    (key : Option String) (produced : List String) (gs : List Generation)
    → ((n : String) → named n gs ≡ true → is_of key n ≡ true → has n produced ≡ true)
    → any (λ g. is_of key g.name) (surviving produced gs) ≡ false
unfolding surviving
surviving-forgets key produced [] h = refl
surviving-forgets key produced (g ∷ gs) h = ground (
  arith,
  h g.name,
  eq_iff g.name g.name,
  surviving-forgets key produced gs (λ n e. h n (ground (arith, e))),
)

is_nil-produced_by :
    (key : Option String) (gs : List Generation)
    → is_nil (produced_by key gs) ≡ not (any (λ g. is_of key g.name) gs)
unfolding produced_by
is_nil-produced_by key [] = refl
is_nil-produced_by key (g ∷ gs) = ground (arith, is_nil-produced_by key gs)

pub rolled-IsForgotten : (key : Option String) (c : Chain) → IsForgotten key (rolled key c)
unfolding rolled
rolled-IsForgotten key c = elim (Bool-cases (is_nil (produced_by key c.generations))) [
  | inl e ↦ rw e (ground (arith, e, is_nil-produced_by key c.generations))
  | inr e ↦ rw e (
      surviving-forgets key (produced_by key c.generations) c.generations
        (λ n h k. ground (arith, has-produced_by key n c.generations, h, k)))
]

previous_of-named :
    (n : String) (gs : List Generation) → previous_of gs ≡ some n → named n gs ≡ true
unfolding previous_of
previous_of-named n [] e = ground (arith, e)
previous_of-named n (g ∷ gs) e = elim (Option-cases (previous_of gs)) [
  | inl h ↦ ground (arith, eq_iff g.name n, some_inj g.name n (rw (h, previous_of) at e))
  | inr (m, h) ↦ ground (arith, previous_of-named n gs (ground (arith, e, h)))
]

still_consumed-named :
    (produced : List String) (gs : List Generation) (consumed : Dict String)
    → All (λ entry. named entry.1 gs ≡ true) consumed
    → All (λ entry. named entry.1 (surviving produced gs) ≡ true) (still_consumed produced consumed)
unfolding still_consumed
still_consumed-named produced gs [] h = tt
still_consumed-named produced gs ((k, state) ∷ consumed) h =
    elim (Bool-cases (has state produced)) [
      | inl e ↦ rw (e, All) (still_consumed-named produced gs consumed h.1)
      | inr e ↦
          rw (e, All)
            (
              ground (arith, e, h.0, named-surviving produced state gs),
              still_consumed-named produced gs consumed h.1,
            )
    ]

pub rolled-IsAnchored : (key : Option String) (c : Chain) → IsAnchored c → IsAnchored (rolled key c)
unfolding rolled
rolled-IsAnchored key c h = elim (Bool-cases (is_nil (produced_by key c.generations))) [
  | inl e ↦ rw e h
  | inr e ↦ rw e (
    headed c.head (h.0),
    still_consumed-named (produced_by key c.generations) c.generations c.consumed h.1,
  )
]
  where
    produced : List String
    produced = produced_by key c.generations

    kept : List Generation
    kept = surviving produced c.generations

    headed :
        (head : Option String)
        → head_named head c.generations ≡ true
        → head_named (rolled_head produced (previous_of kept) head) kept ≡ true
    headed none g = refl
    headed (some m) g = elim (Bool-cases (has m produced)) [
      | inl p ↦ elim (Option-cases (previous_of kept)) [
        | inl o ↦ ground (arith, p, o)
        | inr (n, o) ↦ ground (arith, p, o, previous_of-named n kept o)
      ]
      | inr p ↦ ground (arith, p, g, named-surviving produced m c.generations)
    ]
