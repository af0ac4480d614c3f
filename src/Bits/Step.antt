-- ===== src/Bits/Step.antt =====
-- One equation for the lowest digit of each operation, from the recursion that it stands for.
use Prim.Native.Nat.{digits, differ, bit_and-bitwise, bit_or-bitwise, bit_xor-bitwise}
use scubed.Base.{
  ℕ, zero, suc, ◌+◌, ◌*◌, ◌/◌, ◌%◌, ◌≤◌, min, max, bit_and, bit_or, bit_xor, ◌<◌, ◌≡◌, refl, arith,
}

-- The count of digits to go does not matter, once it covers the first number.
module _ (last : ℕ → ℕ) (op : ℕ → ℕ → ℕ) where
  same_digits : (n m a b : ℕ) → a ≤ n → a ≤ m → digits last op n a b ≡ digits last op m a b
  same_digits n m zero b p q = both n m
    where
      both : (n m : ℕ) → digits last op n zero b ≡ digits last op m zero b
      both zero zero = refl
      both zero (suc m) = refl
      both (suc n) zero = refl
      both (suc n) (suc m) = refl
  same_digits zero m (suc a) b p q = absurd (omega arith)
  same_digits (suc n) zero (suc a) b p q = absurd (omega arith)
  same_digits (suc n) (suc m) (suc a) b p q =
      omega (arith, same_digits n m (suc a / 2) (b / 2) (omega arith) (omega arith))

  digits_enough : (n a b : ℕ) → a ≤ n → digits last op n a b ≡ digits last op a a b
  digits_enough n a b p = same_digits n a a b p (omega arith)

pub bit_or_step : (a b : ℕ) → bit_or a b ≡ bit_or (a / 2) (b / 2) * 2 + max (a % 2) (b % 2)
bit_or_step zero b = omega (arith, bit_or-bitwise 0 b, bit_or-bitwise 0 (b / 2))
bit_or_step (suc a) b = omega (
  arith,
  bit_or-bitwise (suc a) b,
  bit_or-bitwise (suc a / 2) (b / 2),
  digits_enough (λ y. y) max a (suc a / 2) (b / 2) (omega arith),
)

pub bit_and_step : (a b : ℕ) → bit_and a b ≡ bit_and (a / 2) (b / 2) * 2 + min (a % 2) (b % 2)
bit_and_step zero b = omega (arith, bit_and-bitwise 0 b, bit_and-bitwise 0 (b / 2))
bit_and_step (suc a) b = omega (
  arith,
  bit_and-bitwise (suc a) b,
  bit_and-bitwise (suc a / 2) (b / 2),
  digits_enough (λ y. 0) min a (suc a / 2) (b / 2) (omega arith),
)

differ_lem : (x y : ℕ) → x < 2 → y < 2 → differ x y ≡ (x + y) % 2
differ_lem zero y h k = omega arith
differ_lem (suc zero) zero h k = refl
differ_lem (suc zero) (suc zero) h k = refl
differ_lem (suc zero) (suc (suc y)) h k = absurd (omega arith)
differ_lem (suc (suc x)) y h k = absurd (omega arith)

pub bit_xor_step : (a b : ℕ) → bit_xor a b ≡ bit_xor (a / 2) (b / 2) * 2 + (a % 2 + b % 2) % 2
bit_xor_step zero b = omega (arith, bit_xor-bitwise 0 b, bit_xor-bitwise 0 (b / 2))
bit_xor_step (suc a) b = omega (
  arith,
  bit_xor-bitwise (suc a) b,
  bit_xor-bitwise (suc a / 2) (b / 2),
  differ_lem (suc a % 2) (b % 2) (omega arith) (omega arith),
  digits_enough (λ y. y) differ a (suc a / 2) (b / 2) (omega arith),
)
