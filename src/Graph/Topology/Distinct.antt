-- ===== src/Graph/Topology/Distinct.antt =====
-- A list without duplicates of numbers below `n` has at most `n` members.
use stimela_ninja.Prelude.{
  ℕ, zero, suc, ◌+◌, ◌≤◌, List, [], ◌∷◌, length, ltb, if◌then◌else◌, ◌≡◌, refl, arith,
}
use stimela_ninja.Graph.Topology.Counts.{occ}

-- The occurrences of the numbers below `n`.
total : ℕ → List ℕ → ℕ
total zero xs = 0
total (suc n) xs = occ n xs + total n xs

total-none : (n : ℕ) → total n [] ≡ 0
unfolding total occ
total-none zero = refl
total-none (suc n) = omega (arith, total-none n)

total-cons : (n x : ℕ) (xs : List ℕ) → total n (x ∷ xs) ≡ total n xs + (if ltb x n then 1 else 0)
unfolding total occ
total-cons zero x xs = ground arith
total-cons (suc n) x xs = ground (arith, total-cons n x xs)

total-length : (n : ℕ) (xs : List ℕ) → ((i : ℕ) → n ≤ i → occ i xs ≡ 0) → total n xs ≡ length xs
unfolding occ
total-length n [] h = omega (arith, total-none n)
total-length n (x ∷ xs) h =
    ground (arith, total-cons n x xs, h x, total-length n xs (λ i le. omega (arith, h i le)))

total_bound : (n : ℕ) (xs : List ℕ) → ((i : ℕ) → occ i xs ≤ 1) → total n xs ≤ n
unfolding total
total_bound zero xs h = omega arith
total_bound (suc n) xs h = omega (arith, h n, total_bound n xs h)

pub length_bound :
    (n : ℕ) (xs : List ℕ)
    → ((i : ℕ) → n ≤ i → occ i xs ≡ 0)
    → ((i : ℕ) → occ i xs ≤ 1)
    → length xs ≤ n
length_bound n xs low once = omega (arith, total-length n xs low, total_bound n xs once)
