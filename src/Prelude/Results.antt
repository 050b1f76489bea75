-- ===== src/Prelude/Results.antt =====
-- Calls that return a value or raise an error of the component's own type.
use mathlib.Core.Path.{◌≡◌, refl, ap}
use native.Mathlib.Omega.{arith}
use mathlib.Core.Bool.{Bool, true, false}
use mathlib.Core.Option.{Option, none, some}

pub data Result (E A : Type 0) : Type 0 where
  ok : A → Result E A
  refused : E → Result E A

abbrev pub and_then : {E A B : Type 0} → Result E A → (A → Result E B) → Result E B
and_then (ok a) f = f a
and_then (refused e) f = refused e

infixl 5 ◌>>=◌
abbrev pub ◌>>=◌ : {E A B : Type 0} → Result E A → (A → Result E B) → Result E B
m >>= f = and_then m f

-- `if not test: raise error`
abbrev pub check : {E : Type 0} → Bool → E → Result E (Unit {0})
check true e = ok tt
check false e = refused e

-- A lookup whose failure raises.
abbrev pub found : {E A : Type 0} → Option A → E → Result E A
found none e = refused e
found (some a) e = ok a

pub and_then_ok :
    {E A B : Type 0} (x : Result E A) (f : A → Result E B) (b : B)
    → and_then x f ≡ ok b
    → (a : A) × (x ≡ ok a) × (f a ≡ ok b)
and_then_ok (ok a) f b e = (a, refl, e)
and_then_ok (refused g) f b e = ground (arith, e)

pub found_ok : {E A : Type 0} (o : Option A) (g : E) (a : A) → found o g ≡ ok a → o ≡ some a
found_ok none g a e = ground (arith, e)
found_ok (some b) g a e = ap (λ x. elim x [ ok y ↦ some y | refused h ↦ none ]) e

pub check_ok : {E : Type 0} (b : Bool) (g : E) (u : Unit {0}) → check b g ≡ ok u → b ≡ true
check_ok true g u e = refl
check_ok false g u e = ground (arith, e)

pub ok_inj : {E A : Type 0} (a b : A) → ◌≡◌ {A = Result E A} (ok a) (ok b) → a ≡ b
ok_inj a b e = ap (λ x. elim x [ ok y ↦ y | refused h ↦ a ]) e
