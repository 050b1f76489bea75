-- ===== src/Resources/Floats.antt =====
-- The arithmetic of Python's `float` that src/shinobi/resources.py does on cores: IEEE 754 binary64,
-- for numbers that are not negative and not infinite. Such a number is a multiple of 2 ^ -1074, the
-- least positive one, and is written as that multiple.
use Prim.Native.Nat.{◌/◌, ◌%◌}
use stimela_ninja.Prelude.{
  ℕ, zero, suc, ◌+◌, ◌-◌, ◌*◌, Bool, false, ◌&&◌, ◌||◌, ltb, ◌==◌, if◌then◌else◌,
}

abbrev pub Float : Type 0
Float = ℕ

-- A significand has 53 bits.
abbrev significands : ℕ
significands = 9007199254740992

-- To the nearest, of two equally near ones to the even; `half` is the first bit that was cut off,
-- `sticky` whether a later one was set.
abbrev up : ℕ → Bool → Bool → ℕ
up n half sticky = if half && (sticky || n % 2 == 1) then n + 1 else n

-- A bit is cut off in each round until a significand is left.
rounding : ℕ → ℕ → Bool → Bool → ℕ
rounding zero n half sticky = up n half sticky
rounding (suc fuel) n half sticky =
    let rest = rounding fuel (n / 2) (n % 2 == 1) (half || sticky) in
    if ltb n significands then up n half sticky else 2 * rest

-- There are 2046 exponents, so that a finite result needs fewer rounds.
unfoldable pub rounded : ℕ → Float
unfolding rounding
rounded n = rounding 2046 n false false

-- `x + y`
abbrev pub plus : Float → Float → Float
plus x y = rounded (x + y)

-- `max(0.0, x - y)`
abbrev pub minus : Float → Float → Float
minus x y = rounded (x - y)
