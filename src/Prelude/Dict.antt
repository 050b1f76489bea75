-- ===== src/Prelude/Dict.antt =====
-- Python's `dict` with string keys, as an association list.
use Prim.Native.String.{String}
use mathlib.Core.Path.{◌≡◌, refl}
use mathlib.Core.Bool.{Bool, false}
use mathlib.Core.Logic.{◌≢◌, ◌⊎◌, inl, inr}
use mathlib.Core.Option.{Option, none, some}
use mathlib.Core.List.{List, [], ◌∷◌}
use text.Mathlib.Text.{◌==◌}
use text.Mathlib.TextEquality.{eq_iff}
use native.Mathlib.Omega.{arith}
use stimela_ninja.Prelude.Tests.{if◌then◌else◌, Bool-cases, some_inj}
use stimela_ninja.Prelude.Lists.{any}

abbrev pub Dict {ℓ} : Type ℓ → Type ℓ
Dict V = List (String × V)

module _ {ℓ} {V : Type ℓ} where
  -- d.get(k)
  unfoldable pub get : String → Dict V → Option V
  get k [] = none
  get k ((j, v) ∷ d) = if j == k then some v else get k d

  -- d.pop(k, None)
  unfoldable pub pop : String → Dict V → Dict V
  pop k [] = []
  pop k ((j, v) ∷ d) = let rest = pop k d in if j == k then rest else (j, v) ∷ rest

  -- d[k] = v
  unfoldable pub put : String → V → Dict V → Dict V
  put k v [] = (k, v) ∷ []
  put k v ((j, w) ∷ d) = if j == k then (k, v) ∷ d else (j, w) ∷ put k v d

  -- The keys of a Python dictionary are distinct.
  abbrev pub Lacks : String → Dict V → Type 0
  Lacks k [] = Unit
  Lacks k ((j, v) ∷ d) = (j ≢ k) × Lacks k d

  abbrev pub IsDict : Dict V → Type 0
  IsDict [] = Unit
  IsDict ((k, v) ∷ d) = Lacks k d × IsDict d

  pub get-pop : (k j : String) (d : Dict V) → get j (pop k d) ≡ (if k == j then none else get j d)
  unfolding get pop
  get-pop k j [] = ground arith
  get-pop k j ((i, v) ∷ d) = ground (arith, get-pop k j d, eq_iff i k, eq_iff i j, eq_iff k j)

  pub get-put :
      (k j : String) (v : V) (d : Dict V) → get j (put k v d) ≡ (if k == j then some v else get j d)
  unfolding get put
  get-put k j v [] = refl
  get-put k j v ((i, w) ∷ d) = ground (arith, get-put k j v d, eq_iff k j, eq_iff i k, eq_iff i j)

  pub get-Lacks : (k : String) (d : Dict V) → Lacks k d → get k d ≡ none
  unfolding get
  get-Lacks k [] h = refl
  get-Lacks k ((j, v) ∷ d) h = ground (arith, get-Lacks k d h.1, eq_iff j k)

  -- What is found after `d[k] = v` is the new value under its key, or what was there.
  pub get-put_cases :
      (k j : String) (v w : V) (d : Dict V)
      → get j (put k v d) ≡ some w
      → ((k ≡ j) × (v ≡ w)) ⊎ ((k ≢ j) × (get j d ≡ some w))
  get-put_cases k j v w d e = elim (Bool-cases (k == j)) [
    | inl h ↦ inl ((eq_iff k j).0 h, some_inj v w (ground (arith, e, get-put k j v d, h)))
    | inr h ↦ inr (λ q. ground (arith, h, q, eq_iff k j), ground (arith, e, get-put k j v d, h))
  ]

  pub any-get :
      (f : V → Bool) (d : Dict V) (k : String) (v : V)
      → any (λ entry. f entry.1) d ≡ false
      → get k d ≡ some v
      → f v ≡ false
  unfolding get
  any-get f [] k v e g = ground (arith, g)
  any-get f ((j, x) ∷ d) k v e g = ground (arith, e, g, any-get f d k v)
