-- ===== src/Access/Collisions/Scan.antt =====
-- The scan of the sorted groups compares every group with every group that its path lies in.
use stimela_ninja.Prelude.{
  ◌≡◌, refl, arith, subst, sym, true, false, Option, none, some, List, [], ◌∷◌, All, In, inl, inr,
  Bool-cases,
}
use stimela_ninja.Access.{Parts, is_relative_to}
use stimela_ninja.Access.Collisions.{
  Group, Pair, ◌or◌, conflict, parts_before, unwind, against, scan,
}
use stimela_ninja.Access.Collisions.Order.{
  IsAfter, IsOrdered, is_relative_to_trans, is_relative_to_back, is_relative_to_between,
}

-- The path of the first lies in the path of the second.
abbrev pub LiesIn : Group → Group → Type 0
LiesIn g a = is_relative_to g.path a.path ≡ true

-- Neither writes what another slice claims of the other.
abbrev pub IsQuiet : Group → Group → Type 0
IsQuiet g a = (conflict g.writers a.owners ≡ none) × (conflict a.writers g.owners ≡ none)

-- Each group of the stack lies in those below it.
abbrev pub IsChain : List Group → Type 0
IsChain [] = Unit
IsChain (a ∷ stack) = All (LiesIn a) stack × IsChain stack

pub unwind-IsChain : (p : Parts) (stack : List Group) → IsChain stack → IsChain (unwind p stack)
unfolding unwind
unwind-IsChain p [] c = tt
unwind-IsChain p (a ∷ stack) (h, c) = elim (Bool-cases (is_relative_to p a.path)) [
  | inl e ↦ rw e (h, c)
  | inr e ↦ rw e (unwind-IsChain p stack c)
]

LiesIn-all :
    (g a : Group) (stack : List Group) → LiesIn g a → All (LiesIn a) stack → All (LiesIn g) stack
LiesIn-all g a [] r h = tt
LiesIn-all g a (b ∷ stack) r (h, hs) =
    (is_relative_to_trans g.path a.path b.path r h, LiesIn-all g a stack r hs)

-- What stays on the stack are groups that the path lies in.
pub unwind-LiesIn :
    (g : Group) (stack : List Group) → IsChain stack → All (LiesIn g) (unwind g.path stack)
unfolding unwind
unwind-LiesIn g [] c = tt
unwind-LiesIn g (a ∷ stack) (h, c) = elim (Bool-cases (is_relative_to g.path a.path)) [
  | inl e ↦ rw e (e, LiesIn-all g a stack e h)
  | inr e ↦ rw e (unwind-LiesIn g stack c)
]

-- None of them is lost.
In-unwind :
    (g a : Group) (stack : List Group) → LiesIn g a → In a stack → In a (unwind g.path stack)
unfolding unwind
In-unwind g a [] r i = i
In-unwind g a (b ∷ stack) r i = elim (Bool-cases (is_relative_to g.path b.path)) [
  | inl e ↦ rw e i
  | inr e ↦ rw e (elim i [
    | inl q ↦ ground (arith, e, subst (λ x. LiesIn g x) q r)
    | inr j ↦ In-unwind g a stack r j
  ])
]

or_none_left : (o p : Option Pair) → (o or p) ≡ none → o ≡ none
or_none_left none p e = refl
or_none_left (some x) p e = ground (arith, e)

or_none_right : (o p : Option Pair) → (o or p) ≡ none → p ≡ none
or_none_right none p e = e
or_none_right (some x) p e = ground (arith, e)

against-IsQuiet :
    (g a : Group) (stack : List Group) → against g stack ≡ none → In a stack → IsQuiet g a
unfolding against
against-IsQuiet g a [] e i = ground (arith, i)
against-IsQuiet g a (b ∷ stack) e (inl q) =
    let rest = or_none_right (against g stack) _ e in
    subst (λ x. IsQuiet g x) (sym q)
      (
        or_none_left (conflict g.writers b.owners) _ rest,
        or_none_right (conflict g.writers b.owners) _ rest,
      )
against-IsQuiet g a (b ∷ stack) e (inr i) =
    against-IsQuiet g a stack (or_none_left (against g stack) _ e) i

IsQuiet-sym : (g a : Group) → IsQuiet g a → IsQuiet a g
IsQuiet-sym g a (l, r) = (r, l)

-- No group of the stack stands after one that is still to come.
abbrev pub IsBehind : List Group → List Group → Type 0
IsBehind stack gs = All (λ a. All (IsAfter a) gs) stack

IsBehind-tail : (g : Group) (stack gs : List Group) → IsBehind stack (g ∷ gs) → IsBehind stack gs
IsBehind-tail g [] gs h = tt
IsBehind-tail g (a ∷ stack) gs ((x, h), hs) = (h, IsBehind-tail g stack gs hs)

unwind-IsBehind :
    (p : Parts) (stack gs : List Group) → IsBehind stack gs → IsBehind (unwind p stack) gs
unfolding unwind
unwind-IsBehind p [] gs h = tt
unwind-IsBehind p (a ∷ stack) gs (h, hs) = elim (Bool-cases (is_relative_to p a.path)) [
  | inl e ↦ rw e (h, hs)
  | inr e ↦ rw e (unwind-IsBehind p stack gs hs)
]

All-In : (P : Group → Type 0) (gs : List Group) (g : Group) → All P gs → In g gs → P g
All-In P [] g h i = ground (arith, i)
All-In P (a ∷ gs) g (h, hs) (inl q) = subst P (sym q) h
All-In P (a ∷ gs) g (h, hs) (inr i) = All-In P gs g hs i

-- The state of the scan before the groups that are still to come.
pub record IsScanning (stack gs : List Group) : Type 0 where
  pub chain : IsChain stack
  pub ordered : IsOrdered gs
  pub behind : IsBehind stack gs

next-IsScanning :
    (stack : List Group) (g : Group) (gs : List Group)
    → IsScanning stack (g ∷ gs)
    → IsScanning (g ∷ unwind g.path stack) gs
next-IsScanning stack g gs s = record {
  chain = (unwind-LiesIn g stack s.chain, unwind-IsChain g.path stack s.chain);
  ordered = s.ordered.1;
  behind = (s.ordered.0, unwind-IsBehind g.path stack gs (IsBehind-tail g stack gs s.behind));
}

scan-IsQuiet_above :
    (stack gs : List Group) (a h : Group)
    → IsScanning stack gs
    → scan stack gs ≡ none
    → In a stack
    → In h gs
    → LiesIn h a
    → IsQuiet h a
unfolding scan
scan-IsQuiet_above stack [] a h s e i j r = ground (arith, j)
scan-IsQuiet_above stack (g ∷ gs) a h s e i (inl q) r =
    let rest = or_none_right (conflict g.writers g.owners) _ e in
    let above = or_none_left (against g (unwind g.path stack)) _ rest in
    let r' = subst (λ x. LiesIn x a) q r in
    subst (λ x. IsQuiet x a) (sym q)
      (against-IsQuiet g a (unwind g.path stack) above (In-unwind g a stack r' i))
scan-IsQuiet_above stack (g ∷ gs) a h s e i (inr j) r =
    let rest = or_none_right (conflict g.writers g.owners) _ e in
    let after = or_none_right (against g (unwind g.path stack)) _ rest in
    let between =
      is_relative_to_between a.path g.path h.path r
        ((All-In (λ x. All (IsAfter x) (g ∷ gs)) stack a s.behind i).0)
        (All-In (IsAfter g) gs h s.ordered.0 j) in
    scan-IsQuiet_above (g ∷ unwind g.path stack) gs a h (next-IsScanning stack g gs s) after
      (inr (In-unwind g a stack between i)) j r

-- After a scan without an error, no two groups of which one lies in the other are in conflict.
pub scan-IsQuiet :
    (stack gs : List Group) (a h : Group)
    → IsScanning stack gs
    → scan stack gs ≡ none
    → In a gs
    → In h gs
    → LiesIn h a
    → IsQuiet h a
unfolding scan
scan-IsQuiet stack [] a h s e i j r = ground (arith, j)
scan-IsQuiet stack (g ∷ gs) a h s e (inl p) (inl q) r =
    let own = or_none_left (conflict g.writers g.owners) _ e in
    subst (λ x. IsQuiet x a) (sym q) (subst (λ x. IsQuiet g x) (sym p) (own, own))
scan-IsQuiet stack (g ∷ gs) a h s e (inl p) (inr j) r =
    let rest = or_none_right (conflict g.writers g.owners) _ e in
    let after = or_none_right (against g (unwind g.path stack)) _ rest in
    scan-IsQuiet_above (g ∷ unwind g.path stack) gs a h (next-IsScanning stack g gs s) after (inl p)
      j r
scan-IsQuiet stack (g ∷ gs) a h s e (inr i) (inl q) r =
    let rest = or_none_right (conflict g.writers g.owners) _ e in
    let after = or_none_right (against g (unwind g.path stack)) _ rest in
    let back = is_relative_to_back h.path a.path r (
      subst (λ x. parts_before a.path x.path ≡ false) (sym q)
        (All-In (IsAfter g) gs a s.ordered.0 i)) in
    IsQuiet-sym a h (
      scan-IsQuiet_above (g ∷ unwind g.path stack) gs h a (next-IsScanning stack g gs s) after
        (inl q) i back)
scan-IsQuiet stack (g ∷ gs) a h s e (inr i) (inr j) r =
    let rest = or_none_right (conflict g.writers g.owners) _ e in
    let after = or_none_right (against g (unwind g.path stack)) _ rest in
    scan-IsQuiet (g ∷ unwind g.path stack) gs a h (next-IsScanning stack g gs s) after i j r
