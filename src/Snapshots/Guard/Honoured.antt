-- ===== src/Snapshots/Guard/Honoured.antt =====
-- A write that the journal could not name is not lost by a later restore.
use stimela_ninja.Prelude.{
  ℕ, String, Bool, true, false, not, ◌||◌, Option, none, some, List, [], ◌∷◌, ◌++◌, is_some, length,
  if◌then◌else◌, ◌≡◌, refl, arith, ap, Bool-cases, Option-cases, inl, inr, ◌∙◌,
}
use stimela_ninja.Snapshots.{Generation, Chain, named, at_or_behind, taint_blocks}
use stimela_ninja.Snapshots.Taint.{last, get-order_of, is_some-last}
use stimela_ninja.Snapshots.Guard.{
  Taken, Commit, altered, seen_again, renewed, record_generation, move_taint, taint, with_produced,
  located, committed, commit_named, renewed_if, adopt, Mutation, recorded, marked, adopted,
  committing, tainting, cleared, mutate, mutations,
}
use text.Mathlib.Text.{◌==◌}
use text.Mathlib.TextEquality.{eq_iff}

abbrev pub blocked : Option String → List Generation → String → Bool
blocked none gs r = false
blocked (some t) gs r = at_or_behind (last t gs) (last r gs)

pub taint_blocks-blocked :
    (c : Chain) (r : String) → taint_blocks c r ≡ blocked c.tainted_through c.generations r
unfolding taint_blocks
taint_blocks-blocked c r = elim (Option-cases c.tainted_through) [
  | inl e ↦ rw e refl
  | inr (t, e) ↦ rw e (ground (arith, get-order_of t c.generations, get-order_of r c.generations))
]

-- A recorded state that cannot be restored.
abbrev Held : String → Option String → List Generation → Type 0
Held r tainted gs = (named r gs ≡ true) × (blocked tainted gs r ≡ true)

last-append :
    (n : String) (g : Generation) (gs : List Generation)
    → last n (gs ++ (g ∷ [])) ≡ (if g.name == n then some (length gs) else last n gs)
unfolding last
last-append n g [] = refl
last-append n g (x ∷ gs) = ground (arith, last-append n g gs)

length-last :
    (n : String) (gs : List Generation) → at_or_behind (some (length gs)) (last n gs) ≡ true
unfolding last
length-last n [] = refl
length-last n (x ∷ gs) = ground (arith, length-last n gs)

pub named-append :
    (n : String) (g : Generation) (gs : List Generation)
    → named n (gs ++ (g ∷ [])) ≡ (named n gs || (g.name == n))
named-append n g [] = ground arith
named-append n g (x ∷ gs) = ground (arith, named-append n g gs)

-- A state of a new name is recorded.
Held-append :
    (r : String) (tainted : Option String) (g : Generation) (gs : List Generation)
    → named g.name gs ≡ false
    → Held r tainted gs
    → Held r tainted (gs ++ (g ∷ []))
Held-append r none g gs new h = (ground (arith, h.0, named-append r g gs), h.1)
Held-append r (some t) g gs new h =
    let other : (g.name == r) ≡ false =
      ground (arith, new, h.0, eq_iff g.name r, λ (e : g.name ≡ r). ap (λ n. named n gs) e) in
    (
      ground (arith, h.0, named-append r g gs),
      ground (arith, h.1, other, last-append t g gs, last-append r g gs, length-last r gs),
    )

-- A generation changes in place.
last-altered :
    (n m : String) (f : Generation → Generation) (gs : List Generation)
    → ((g : Generation) → (f g).name ≡ g.name)
    → last n (altered m f gs) ≡ last n gs
unfolding last altered
last-altered n m f [] same = refl
last-altered n m f (g ∷ gs) same =
    ground (arith, last-altered n m f gs same, same g, ap (λ x. x == n) (same g))

Held-altered :
    (r m : String) (tainted : Option String) (f : Generation → Generation) (gs : List Generation)
    → ((g : Generation) → (f g).name ≡ g.name)
    → Held r tainted gs
    → Held r tainted (altered m f gs)
Held-altered r m none f gs same h = ground (arith, h.1)
Held-altered r m (some t) f gs same h = (
  ground
      (arith, h.0, is_some-last r gs, is_some-last r (altered m f gs), last-altered r m f gs same),
  ground (arith, h.1, last-altered r m f gs same, last-altered t m f gs same),
)

at_or_behind_trans :
    (a b r : Option ℕ)
    → at_or_behind a b ≡ false
    → at_or_behind a r ≡ true
    → at_or_behind b r ≡ true
at_or_behind_trans none b r h k = ground (arith, h)
at_or_behind_trans (some a) none r h k = refl
at_or_behind_trans (some a) (some b) none h k = refl
at_or_behind_trans (some a) (some b) (some r) h k = ground (arith, h, k)

abbrev Honoured : String → Chain → Type 0
Honoured r c = Held r c.tainted_through c.generations

-- A taint that moves still blocks what was blocked.
Honoured-move_taint :
    (r through : String) (c : Chain) → Honoured r c → Honoured r (move_taint through c)
unfolding move_taint
Honoured-move_taint r through c h =
    elim (Bool-cases (not (is_some c.tainted_through) || not (taint_blocks c through))) [
      | inr e ↦ rw e h
      | inl e ↦ elim (Option-cases c.tainted_through) [
        | inl n ↦ ground (arith, h.1, n)
        | inr (t, n) ↦ rw e (
          h.0,
          at_or_behind_trans (last t c.generations) (last through c.generations)
              (last r c.generations) (ground (arith, e, n, taint_blocks-blocked c through))
              (ground (arith, h.1, n)),
        )
      ]
    ]

Honoured-taint :
    (r : String) (through : Option String) (c : Chain) → Honoured r c → Honoured r (taint through c)
Honoured-taint r none c h = h
Honoured-taint r (some through) c h = Honoured-move_taint r through c h

Honoured-record_generation :
    (r : String) (t : Taken) (c : Chain) → Honoured r c → Honoured r (record_generation t c)
unfolding record_generation
Honoured-record_generation r t c h = elim (Bool-cases (named t.name c.generations)) [
  | inl e ↦
      rw e (Held-altered r t.name c.tainted_through (seen_again t) c.generations (λ g. refl) h)
  | inr e ↦ rw e (Held-append r c.tainted_through _ c.generations e h)
]

Held-renewed_if :
    (r produced : String) (tainted : Option String) (strict : Bool) (a : Commit)
    (gs : List Generation)
    → Held r tainted gs
    → Held r tainted (renewed_if strict a produced gs)
Held-renewed_if r produced tainted false a gs h = h
Held-renewed_if r produced tainted true a gs h =
    Held-altered r produced tainted (renewed a) gs (λ g. refl) h

Held-with_produced :
    (r produced : String) (tainted : Option String) (a : Commit) (gs : List Generation)
    → Held r tainted gs
    → Held r tainted (with_produced a produced gs)
unfolding with_produced
Held-with_produced r produced tainted a gs h = elim (Bool-cases (named produced gs)) [
  | inl e ↦ rw e (Held-renewed_if r produced tainted a.strict a gs h)
  | inr e ↦ rw e (Held-append r tainted _ gs e h)
]

Honoured-commit_named :
    (r : String) (a : Commit) (produced : Option String) (c : Chain)
    → Honoured r c
    → Honoured r (commit_named a produced c)
unfolding commit_named
Honoured-commit_named r a none c h = Honoured-taint r c.head c h
Honoured-commit_named r a (some produced) c h =
    Held-with_produced r produced c.tainted_through a c.generations h

Honoured-adopt : (r required : String) (c : Chain) → Honoured r c → Honoured r (adopt required c)
Honoured-adopt r required c h = elim (Bool-cases (is_some c.head)) [
  | inl e ↦ rw e h
  | inr e ↦ rw e h
]

Honoured-mutate :
    (r : String) (x : Mutation) (c : Chain)
    → Honoured r c
    → (left : Chain) × (mutate x (some c) ≡ some left) × Honoured r left
unfolding mutate
Honoured-mutate r (recorded t) c h =
    (record_generation t c, refl, Honoured-record_generation r t c h)
Honoured-mutate r (marked st path marker) c h = (record c { marker = some marker }, refl, h)
Honoured-mutate r (adopted required) c h = (adopt required c, refl, Honoured-adopt r required c h)
Honoured-mutate r (committing a) c h = (
  committed a (located a.stat c),
  refl,
  Honoured-commit_named r a a.produced (located a.stat c) h,
)
Honoured-mutate r (tainting through) c h = (taint through c, refl, Honoured-taint r through c h)
Honoured-mutate r cleared c h = (record c { marker = none }, refl, h)

Honoured-mutations :
    (r : String) (xs : List Mutation) (c : Chain)
    → Honoured r c
    → (left : Chain) × (mutations xs (some c) ≡ some left) × Honoured r left
unfolding mutations
Honoured-mutations r [] c h = (c, refl, h)
Honoured-mutations r (x ∷ xs) c h =
    let (next, e, k) = Honoured-mutate r x c h in
    let (left, f, l) = Honoured-mutations r xs next k in (left, ap (mutations xs) e ∙ f, l)

-- A recorded state whose restore is blocked by a taint stays recorded and blocked through any
-- sequence of these updates: recording a state, marking, adopting a head, committing, tainting and
-- clearing the marker.
pub mutations_honour :
    (xs : List Mutation) (c : Chain) (required : String)
    → named required c.generations ≡ true
    → taint_blocks c required ≡ true
    → (left : Chain) × (mutations xs (some c) ≡ some left)
      × (named required left.generations ≡ true)
      × (taint_blocks left required ≡ true)
mutations_honour xs c required n b =
    let start : Honoured required c = (n, ground (arith, b, taint_blocks-blocked c required)) in
    let (left, e, h) = Honoured-mutations required xs c start in
    (left, e, h.0, ground (arith, h.1, taint_blocks-blocked left required))
