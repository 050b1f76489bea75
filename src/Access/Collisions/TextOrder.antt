-- ===== src/Access/Collisions/TextOrder.antt =====
-- The order of Python's strings, by the code points of their characters.
use Prim.Native.String.{String, [], ◌∷◌}
use Prim.Native.Char.{code}
use stimela_ninja.Prelude.{◌≡◌, refl, arith, Bool, true, false, ◌&&◌, ◌||◌, ltb, ◌==◌, ap, ◌∙◌}
use text.Mathlib.TextEquality.{Char-path}

unfoldable pub text_before : String → String → Bool
text_before [] [] = false
text_before [] (d ∷ t) = true
text_before (c ∷ s) [] = false
text_before (c ∷ s) (d ∷ t) = ltb (code c) (code d) || (code c == code d && text_before s t)

pub text_before_irrefl : (s : String) → text_before s s ≡ false
unfolding text_before
text_before_irrefl [] = refl
text_before_irrefl (c ∷ s) = ground (arith, text_before_irrefl s)

pub text_before_trans :
    (s t u : String) → text_before s t ≡ true → text_before t u ≡ true → text_before s u ≡ true
unfolding text_before
text_before_trans [] [] [] a b = ground (arith, b)
text_before_trans [] (d ∷ t) [] a b = ground (arith, b)
text_before_trans [] t (e ∷ u) a b = refl
text_before_trans (c ∷ s) [] u a b = ground (arith, a)
text_before_trans (c ∷ s) (d ∷ t) [] a b = ground (arith, b)
text_before_trans (c ∷ s) (d ∷ t) (e ∷ u) a b = ground (arith, a, b, text_before_trans s t u)

-- Strings that neither stands before the other are equal.
pub text_before_total : (s t : String) → text_before s t ≡ false → text_before t s ≡ false → s ≡ t
unfolding text_before
text_before_total [] [] a b = refl
text_before_total [] (d ∷ t) a b = ground (arith, a)
text_before_total (c ∷ s) [] a b = ground (arith, b)
text_before_total (c ∷ s) (d ∷ t) a b =
    ap (λ x. x ∷ s) (Char-path c d (ground (arith, a, b)))
    ∙ ap (λ u. d ∷ u) (text_before_total s t (ground (arith, a, b)) (ground (arith, a, b)))
