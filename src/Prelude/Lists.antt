-- ===== src/Prelude/Lists.antt =====
-- Lists measured by native numbers, Boolean quantifiers, and predicates on lists by recursion.
use Prim.Native.Nat.{ℕ, zero, suc, ◌+◌}
use mathlib.Core.Path.{◌≡◌, refl, sym}
use mathlib.Core.Logic.{◌⊎◌, inl, inr}
use mathlib.Core.Bool.{Bool, true, false, ◌&&◌, ◌||◌}
use mathlib.Core.List.{List, [], ◌∷◌, ◌++◌}
use native.Mathlib.Omega.{arith}

module _ {ℓ} {A : Type ℓ} where
  abbrev pub length : List A → ℕ
  length [] = 0
  length (x ∷ xs) = suc (length xs)

  abbrev pub all : (A → Bool) → List A → Bool
  all p [] = true
  all p (x ∷ xs) = p x && all p xs

  abbrev pub any : (A → Bool) → List A → Bool
  any p [] = false
  any p (x ∷ xs) = p x || any p xs

  -- The element at an index that is taken out, with the elements that stay.
  abbrev pub remove_at : ℕ → List A → List A
  remove_at i [] = []
  remove_at zero (x ∷ xs) = xs
  remove_at (suc i) (x ∷ xs) = x ∷ remove_at i xs

  abbrev pub All {κ} : (A → Type κ) → List A → Type κ
  All P [] = Unit
  All P (x ∷ xs) = P x × All P xs

  abbrev pub In : A → List A → Type ℓ
  In a [] = Unit {ℓ} → ⊥
  In a (x ∷ xs) = (a ≡ x) ⊎ In a xs

  pub length-append : (xs ys : List A) → length (xs ++ ys) ≡ length xs + length ys
  length-append [] ys = omega arith
  length-append (x ∷ xs) ys = omega (arith, length-append xs ys)

  abbrev pub is_nil : List A → Bool
  is_nil [] = true
  is_nil (x ∷ xs) = false

  pub any-In : (f : A → Bool) (xs : List A) (x : A) → any f xs ≡ false → In x xs → f x ≡ false
  any-In f [] x e i = absurd (i tt)
  any-In f (y ∷ xs) x e (inl q) = rw q (ground (arith, e))
  any-In f (y ∷ xs) x e (inr i) = any-In f xs x (ground (arith, e)) i

  pub any-or : (f g : A → Bool) (xs : List A) → any (λ x. f x || g x) xs ≡ (any f xs || any g xs)
  any-or f g [] = refl
  any-or f g (x ∷ xs) = ground (arith, any-or f g xs)

  pub any-none : (xs : List A) → any (λ x. false) xs ≡ false
  any-none [] = refl
  any-none (x ∷ xs) = any-none xs

module _ {ℓ κ} {A : Type ℓ} {B : Type κ} where
  pub any_swap :
      (f : A → B → Bool) (xs : List A) (ys : List B)
      → any (λ a. any (f a) ys) xs ≡ any (λ b. any (λ a. f a b) xs) ys
  any_swap f [] ys = sym (any-none ys)
  any_swap f (x ∷ xs) ys = rw (any_swap f xs ys) (sym (any-or (f x) (λ b. any (λ a. f a b) xs) ys))
