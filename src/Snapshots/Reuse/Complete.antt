-- ===== src/Snapshots/Reuse/Complete.antt =====
-- The loop over the parents finds every state that the head descends from.
use stimela_ninja.Prelude.{
  ℕ, zero, suc, String, Bool, true, false, some, List, [], ◌∷◌, length, ◌≡◌, ◌↔◌, arith, ap, sym,
  ◌∙◌, Bool-cases, Option-cases, some_inj, inl, inr,
}
use stimela_ninja.Snapshots.{Generation}
use stimela_ninja.Snapshots.Evict.{has}
use stimela_ninja.Snapshots.Reuse.{generation, parent_in, walk, descended}
use stimela_ninja.Snapshots.Reuse.Walk.{
  Descends, itself, from_parent, descended-Descends, descended_ends,
}
use text.Mathlib.Text.{◌==◌}
use text.Mathlib.TextEquality.{eq_iff}

generation-name :
    (n : String) (gs : List Generation) (g : Generation) → generation n gs ≡ some g → g.name ≡ n
unfolding generation
generation-name n [] g e = ground (arith, e)
generation-name n (x ∷ gs) g e = elim (Bool-cases (x.name == n)) [
  | inl h ↦ sym (ap (λ y. y.name) (some_inj x g (rw (h, generation) at e))) ∙ (eq_iff x.name n).0 h
  | inr h ↦ generation-name n gs g (rw (h, generation) at e)
]

-- A generation that a lookup of its name finds.
abbrev IsFound : List Generation → Generation → Type 0
IsFound gs g = generation g.name gs ≡ some g

generation-IsFound :
    (n : String) (gs : List Generation) (g : Generation) → generation n gs ≡ some g → IsFound gs g
generation-IsFound n gs g e = ap (λ m. generation m gs) (generation-name n gs g e) ∙ e

parent_in-IsFound :
    (gs : List Generation) (g p : Generation) → parent_in gs g ≡ some p → IsFound gs p
parent_in-IsFound gs g p e = elim (Option-cases g.parent) [
  | inl h ↦ ground (arith, rw h at e)
  | inr (n, h) ↦ generation-IsFound n gs p (rw h at e)
]

-- The states of the first names are not the produced one, and their parents are of the second.
abbrev Leads : List Generation → String → List String → List String → Type 0
Leads gs produced seen next =
    (x : Generation)
    → IsFound gs x
    → has x.name seen ≡ true
    → ((x.name == produced) ≡ false)
      × ((q : Generation) → parent_in gs x ≡ some q → has q.name next ≡ true)

Leads-closed :
    (gs : List Generation) (produced : String) (seen : List String) (x : Generation)
    → Leads gs produced seen seen
    → IsFound gs x
    → has x.name seen ≡ true
    → Descends gs produced x
    → true ≡ false
Leads-closed gs produced seen x l f h (itself y e) =
    ground (arith, (l x f h).0, (eq_iff x.name produced).1 e)
Leads-closed gs produced seen x l f h (from_parent y p e d) =
    Leads-closed gs produced seen p l (parent_in-IsFound gs x p e) ((l x f h).1 p e) d

-- The next state joins the seen ones.
Leads-grow :
    (gs : List Generation) (produced : String) (g : Generation) (seen next : List String)
    → IsFound gs g
    → (g.name == produced) ≡ false
    → Leads gs produced seen (g.name ∷ seen)
    → ((q : Generation) → parent_in gs g ≡ some q → has q.name next ≡ true)
    → ((n : String) → has n (g.name ∷ seen) ≡ true → has n next ≡ true)
    → Leads gs produced (g.name ∷ seen) next
Leads-grow gs produced g seen next f e l parents more x k h = elim (Bool-cases (g.name == x.name)) [
  | inl s ↦
      let same : g ≡ x =
        some_inj g x (sym f ∙ ap (λ n. generation n gs) ((eq_iff g.name x.name).0 s) ∙ k) in
      (
        ground (arith, e, ap (λ y. y.name == produced) same),
        λ q p. parents q (ap (parent_in gs) same ∙ p),
      )
  | inr s ↦
      let old : has x.name seen ≡ true = ground (arith, h, s) in
      ((l x k old).0, λ q p. more q.name ((l x k old).1 q p))
]

walk-misses :
    (fuel : ℕ) (gs : List Generation) (produced : String) (g : Generation) (seen : List String)
    (x : Generation)
    → IsFound gs g
    → Leads gs produced seen (g.name ∷ seen)
    → walk fuel gs produced (some g) seen ≡ some false
    → IsFound gs x
    → has x.name (g.name ∷ seen) ≡ true
    → Descends gs produced x
    → true ≡ false
unfolding walk
walk-misses zero gs produced g seen x f l e k h d = ground (arith, e)
walk-misses (suc fuel) gs produced g seen x f l e k h d = elim (Bool-cases (has g.name seen)) [
  | inl a ↦
      let back : (n : String) → has n (g.name ∷ seen) ≡ true → has n seen ≡ true =
        λ n b. ground (arith, b, a, eq_iff g.name n, λ (c : g.name ≡ n). ap (λ m. has m seen) c) in
      Leads-closed gs produced seen x (λ y i j. ((l y i j).0, λ q p. back q.name ((l y i j).1 q p)))
        k (back x.name h) d
  | inr a ↦
      let other : (g.name == produced) ≡ false = ground (arith, e, a) in
      elim (Option-cases (parent_in gs g)) [
        | inl n ↦
            Leads-closed gs produced (g.name ∷ seen) x
              (Leads-grow gs produced g seen (g.name ∷ seen) f other l (λ q p. ground (arith, n, p))
                (λ m b. b))
              k h d
        | inr (q, n) ↦
            walk-misses fuel gs produced q (g.name ∷ seen) x (parent_in-IsFound gs g q n)
              (Leads-grow gs produced g seen (q.name ∷ g.name ∷ seen) f other l
                (λ r p.
                  ground (arith, eq_iff q.name r.name, ap (λ y. y.name) (some_inj q r (sym n ∙ p))))
                (λ m b. ground (arith, b)))
              (ground (arith, e, a, other, ap (λ o. walk fuel gs produced o (g.name ∷ seen)) n)) k
              (ground (arith, h)) d
      ]
]

-- The loop answers that the head descends from the produced state exactly when it does.
pub descended_lem :
    (n : String) (gs : List Generation) (produced : String) (head : Generation)
    → generation n gs ≡ some head
    → (descended gs produced head ≡ some true) ↔ Descends gs produced head
descended_lem n gs produced head e =
    (descended-Descends gs produced head, λ d. found_out d (descended_ends n gs produced head e))
  where
    found_out :
        Descends gs produced head
        → ((answer : Bool) × (descended gs produced head ≡ some answer))
        → descended gs produced head ≡ some true
    found_out d (true, h) = h
    found_out d (false, h) =
        let f = generation-IsFound n gs head e in
        absurd (
          ground (
            arith,
            walk-misses (suc (length gs)) gs produced head [] head f (λ x i j. ground (arith, j)) h
                f (ground (arith, eq_iff head.name head.name)) d,
          ))
