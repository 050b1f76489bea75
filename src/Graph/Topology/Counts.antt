-- ===== src/Graph/Topology/Counts.antt =====
-- Occurrences, and the loop's lists counted by them.
use stimela_ninja.Prelude.{
  ap, ℕ, zero, suc, ◌+◌, ◌-◌, ◌≤◌, ◌<◌, ◌&&◌, List, [], ◌∷◌, ◌++◌, map, length, ltb, ◌==◌,
  if◌then◌else◌, ◌≡◌, refl, arith,
}
use stimela_ninja.Graph.Topology.{nth, decrement, row, zeros, least, remove, notify}

abbrev pub bump : ℕ → ℕ → ℕ
bump i x = if i == x then 1 else 0

-- How often an index is in a list.
unfoldable pub occ : ℕ → List ℕ → ℕ
occ i [] = 0
occ i (x ∷ xs) = bump i x + occ i xs

pub occ-append : (i : ℕ) (xs ys : List ℕ) → occ i (xs ++ ys) ≡ occ i xs + occ i ys
unfolding occ
occ-append i [] ys = omega arith
occ-append i (x ∷ xs) ys = omega (arith, occ-append i xs ys)

pub nth-decrement : (i d : ℕ) (xs : List ℕ) → nth i (decrement d xs) ≡ nth i xs - bump i d
unfolding nth decrement
nth-decrement i d [] = ground arith
nth-decrement zero zero (x ∷ xs) = ground arith
nth-decrement zero (suc d) (x ∷ xs) = ground arith
nth-decrement (suc i) zero (x ∷ xs) = ground arith
nth-decrement (suc i) (suc d) (x ∷ xs) = ground (arith, nth-decrement i d xs)

pub nth-map-length : (i : ℕ) (rows : List (List ℕ)) → nth i (map length rows) ≡ length (row i rows)
unfolding nth row
nth-map-length i [] = refl
nth-map-length zero (r ∷ rows) = refl
nth-map-length (suc i) (r ∷ rows) = nth-map-length i rows

occ-zeros_low : (i k : ℕ) (counts : List ℕ) → i < k → occ i (zeros k counts) ≡ 0
unfolding occ zeros
occ-zeros_low i k [] lt = refl
occ-zeros_low i k (c ∷ counts) lt = ground (arith, lt, occ-zeros_low i (suc k) counts)

shift : (k i : ℕ) → suc k + i ≡ k + suc i
shift k i = omega arith

pub occ-zeros :
    (i k : ℕ) (counts : List ℕ)
    → occ (k + i) (zeros k counts) ≡ (if ltb i (length counts) && nth i counts == 0 then 1 else 0)
unfolding occ zeros nth
occ-zeros i k [] = ground arith
occ-zeros zero k (c ∷ counts) = ground (arith, occ-zeros_low (k + 0) (suc k) counts)
occ-zeros (suc i) k (c ∷ counts) =
    ground (arith, occ-zeros i (suc k) counts, ap (λ n. occ n (zeros (suc k) counts)) (shift k i))

pub occ-least : (x : ℕ) (xs : List ℕ) → 1 ≤ occ (least x xs) (x ∷ xs)
unfolding occ least
occ-least x [] = ground arith
occ-least x (y ∷ ys) = ground (arith, occ-least y ys)

pub occ-remove :
    (i x : ℕ) (xs : List ℕ)
    → occ i (remove x xs) ≡ occ i xs - (if ltb 0 (occ x xs) then bump i x else 0)
unfolding occ remove
occ-remove i x [] = ground arith
occ-remove i x (y ∷ ys) = ground (arith, occ-remove i x ys)

-- One round of `notify` over a set of dependents.
pub notify-counts :
    (i : ℕ) (ds counts ready : List ℕ) → nth i (notify ds counts ready).0 ≡ nth i counts - occ i ds
unfolding notify occ
notify-counts i [] counts ready = omega arith
notify-counts i (d ∷ ds) counts ready = ground (
  arith,
  notify-counts i ds (decrement d counts)
      (if nth d (decrement d counts) == 0 then d ∷ ready else ready),
  nth-decrement i d counts,
)

pub notify-ready :
    (i : ℕ) (ds counts ready : List ℕ)
    → ((j : ℕ) → occ j ds ≤ 1)
    → occ i (notify ds counts ready).1
      ≡ occ i ready + (if ltb 0 (occ i ds) && nth i counts - occ i ds == 0 then 1 else 0)
unfolding notify occ
notify-ready i [] counts ready set = ground arith
notify-ready i (d ∷ ds) counts ready set = ground (
  arith,
  notify-ready i ds (decrement d counts)
      (if nth d (decrement d counts) == 0 then d ∷ ready else ready) (λ j. omega (arith, set j)),
  nth-decrement i d counts,
  nth-decrement d d counts,
  set i,
  set d,
)
