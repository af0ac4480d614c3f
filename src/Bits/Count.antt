-- ===== src/Bits/Count.antt =====
-- `__builtin_popcount`: the number of ones among the lowest digits.
use scubed.Base.{ℕ, zero, suc, ◌+◌, ◌/◌, ◌%◌, ◌≤◌, ◌<◌, ◌≡◌, ◌≢◌, arith}
use scubed.Bits.Digit.{digit}

-- The ones among the digits below `n`.
abbrev pub ones_below : ℕ → ℕ → ℕ
ones_below zero w = 0
ones_below (suc n) w = w % 2 + ones_below n (w / 2)

-- From the top digit.
pub ones_below-suc : (n w : ℕ) → ones_below (suc n) w ≡ ones_below n w + digit w n
ones_below-suc zero w = omega arith
ones_below-suc (suc n) w = omega (arith, ones_below-suc n (w / 2))

-- The count depends on the digits alone.
pub ones_below_ext :
    (n v w : ℕ) → ((k : ℕ) → k < n → digit v k ≡ digit w k) → ones_below n v ≡ ones_below n w
ones_below_ext zero v w h = omega arith
ones_below_ext (suc n) v w h =
    omega
      (arith, h 0 (omega arith), ones_below_ext n (v / 2) (w / 2) (λ k lt. h (suc k) (omega arith)))

-- One digit apart.
pub ones_below_apart :
    (n v w i : ℕ)
    → i < n
    → ((k : ℕ) → k < n → k ≢ i → digit v k ≡ digit w k)
    → ones_below n v + digit w i ≡ ones_below n w + digit v i
ones_below_apart zero v w i lt h = absurd (omega arith)
ones_below_apart (suc n) v w zero lt h =
    omega (arith, ones_below_ext n (v / 2) (w / 2) (λ k lt. h (suc k) (omega arith) (omega arith)))
ones_below_apart (suc n) v w (suc i) lt h = omega (
  arith,
  h 0 (omega arith) (omega arith),
  ones_below_apart n (v / 2) (w / 2) i (omega arith)
      (λ k lt ne. h (suc k) (omega arith) (omega arith)),
)

pub ones_below-le : (n w : ℕ) → ones_below n w ≤ n
ones_below-le zero w = omega arith
ones_below-le (suc n) w = omega (arith, ones_below-le n (w / 2))
