-- ===== src/Bits/Digit.antt =====
-- Digit `k` of a number, and the digits of the results of `|`, `&` and `~`.
use Prim.Native.Nat.{bit_and-bitwise}
use native.Mathlib.Nat.{
  pow-suc, one-le-pow, div-add-mod, add-mul-mod_self_left, mod-eq_of_lt, mod-lt,
}
use scubed.Base.{
  ℕ, zero, suc, ◌+◌, ◌-◌, ◌*◌, ◌/◌, ◌%◌, ◌^◌, ◌≤◌, ◌<◌, min, max, bit_and, bit_or, ◌≡◌, refl, ap,
  sym, ◌∙◌, arith, ◌==◌, if◌then◌else◌,
}
use scubed.Bits.Step.{bit_or_step, bit_and_step}

abbrev pub digit : ℕ → ℕ → ℕ
digit w zero = w % 2
digit w (suc k) = digit (w / 2) k

pub digit-le : (w k : ℕ) → digit w k ≤ 1
digit-le w zero = omega arith
digit-le w (suc k) = digit-le (w / 2) k

pub digit-zero : (k : ℕ) → digit 0 k ≡ 0
digit-zero zero = refl
digit-zero (suc k) = digit-zero k

pub digit-bit_or : (a b k : ℕ) → digit (bit_or a b) k ≡ max (digit a k) (digit b k)
digit-bit_or a b zero = omega (arith, bit_or_step a b)
digit-bit_or a b (suc k) =
    let half : bit_or a b / 2 ≡ bit_or (a / 2) (b / 2) = omega (arith, bit_or_step a b) in
    omega (arith, ap (λ w. digit w k) half, digit-bit_or (a / 2) (b / 2) k)

pub digit-bit_and : (a b k : ℕ) → digit (bit_and a b) k ≡ min (digit a k) (digit b k)
digit-bit_and a b zero = omega (arith, bit_and_step a b)
digit-bit_and a b (suc k) =
    let half : bit_and a b / 2 ≡ bit_and (a / 2) (b / 2) = omega (arith, bit_and_step a b) in
    omega (arith, ap (λ w. digit w k) half, digit-bit_and (a / 2) (b / 2) k)

half_pow : (k : ℕ) → 2 ^ suc k / 2 ≡ 2 ^ k
half_pow k = omega (arith, pow-suc 2 k)

pub digit-pow : (i k : ℕ) → digit (2 ^ i) k ≡ (if i == k then 1 else 0)
digit-pow zero zero = refl
digit-pow zero (suc k) = ground (arith, digit-zero k)
digit-pow (suc i) zero = ground (arith, pow-suc 2 i)
digit-pow (suc i) (suc k) = ground (arith, ap (λ w. digit w k) (half_pow i), digit-pow i k)

-- All ones below `n`, but for a zero at `i`: the mask `~(1 << i)` of an `n`-bit word.
abbrev pub hole : ℕ → ℕ → ℕ
hole n i = 2 ^ n - 1 - 2 ^ i

pub digit-ones : (n k : ℕ) → k < n → digit (2 ^ n - 1) k ≡ 1
digit-ones zero k h = absurd (omega arith)
digit-ones (suc n) zero h = omega (arith, pow-suc 2 n, one-le-pow n 2)
digit-ones (suc n) (suc k) h =
    let half : (2 ^ suc n - 1) / 2 ≡ 2 ^ n - 1 = omega (arith, pow-suc 2 n, one-le-pow n 2) in
    omega (arith, ap (λ w. digit w k) half, digit-ones n k (omega arith))

pub pow-lt-pow : (i n : ℕ) → i < n → 2 ^ i < 2 ^ n
pow-lt-pow i zero h = absurd (omega arith)
pow-lt-pow zero (suc n) h = omega (arith, pow-suc 2 n, one-le-pow n 2)
pow-lt-pow (suc i) (suc n) h = omega (arith, pow-suc 2 n, pow-suc 2 i, pow-lt-pow i n (omega arith))

pub digit-hole : (n i k : ℕ) → i < n → k < n → digit (hole n i) k ≡ (if i == k then 0 else 1)
digit-hole zero i k h hk = absurd (omega arith)
digit-hole (suc n) zero zero h hk = omega (arith, pow-suc 2 n, one-le-pow n 2)
digit-hole (suc n) zero (suc k) h hk =
    let half : hole (suc n) 0 / 2 ≡ 2 ^ n - 1 = omega (arith, pow-suc 2 n, one-le-pow n 2) in
    ground (arith, ap (λ w. digit w k) half, digit-ones n k)
digit-hole (suc n) (suc i) zero h hk =
    ground (arith, pow-suc 2 n, pow-suc 2 i, one-le-pow n 2, pow-lt-pow i n)
digit-hole (suc n) (suc i) (suc k) h hk =
    let half : hole (suc n) (suc i) / 2 ≡ hole n i =
      omega (arith, pow-suc 2 n, pow-suc 2 i, one-le-pow n 2, pow-lt-pow i n (omega arith)) in
    ground (arith, ap (λ w. digit w k) half, digit-hole n i k)

bit_and-nil : (fuel a : ℕ) → a ≤ fuel → bit_and a 0 ≡ 0
bit_and-nil fuel zero h = omega (arith, bit_and_step 0 0)
bit_and-nil zero (suc a) h = absurd (omega arith)
bit_and-nil (suc fuel) (suc a) h =
    omega (arith, bit_and_step (suc a) 0, bit_and-nil fuel (suc a / 2) (omega arith))

bit_or-nil : (fuel a : ℕ) → a ≤ fuel → bit_or a 0 ≡ a
bit_or-nil fuel zero h = omega (arith, bit_or_step 0 0)
bit_or-nil zero (suc a) h = absurd (omega arith)
bit_or-nil (suc fuel) (suc a) h =
    omega (arith, bit_or_step (suc a) 0, bit_or-nil fuel (suc a / 2) (omega arith))

-- `w & (1 << k)` keeps digit `k` where it stands.
pub bit_and-pow : (w k : ℕ) → bit_and w (2 ^ k) ≡ digit w k * 2 ^ k
bit_and-pow w zero = omega (arith, bit_and_step w 1, bit_and-nil (w / 2) (w / 2) (omega arith))
bit_and-pow w (suc k) = omega (
  arith,
  bit_and_step w (2 ^ suc k),
  ap (bit_and (w / 2)) (half_pow k),
  pow-suc 2 k,
  ap (λ (t : ℕ). digit (w / 2) k * t) (pow-suc 2 k),
  bit_and-pow (w / 2) k,
)

mod-double : (w m : ℕ) → 0 < m → w % (2 * m) ≡ w / 2 % m * 2 + w % 2
mod-double w m h =
    let r = w / 2 % m * 2 + w % 2 in
    let split : w ≡ r + 2 * m * (w / 2 / m) = omega (arith, div-add-mod (w / 2) m) in
    ap (λ t. t % (2 * m)) split
    ∙ add-mul-mod_self_left r (2 * m) (w / 2 / m)
    ∙ mod-eq_of_lt (omega (arith, mod-lt (w / 2) h))

-- `w & ones` is the remainder.
pub bit_and-ones : (w k : ℕ) → bit_and w (2 ^ k - 1) ≡ w % 2 ^ k
bit_and-ones w zero = omega (arith, bit_and-nil w w (omega arith))
bit_and-ones w (suc k) =
    let half : (2 ^ suc k - 1) / 2 ≡ 2 ^ k - 1 = omega (arith, pow-suc 2 k, one-le-pow k 2) in
    let twice : 2 ^ suc k ≡ 2 * 2 ^ k = omega (arith, pow-suc 2 k) in
    omega (
      arith,
      bit_and_step w (2 ^ suc k - 1),
      ap (bit_and (w / 2)) half,
      pow-suc 2 k,
      ap (λ t. w % t) twice,
      mod-double w (2 ^ k) (one-le-pow k 2 (omega arith)),
      one-le-pow k 2,
      bit_and-ones (w / 2) k,
    )

-- `(q << k) | r` puts the fields side by side, if `r` fits below.
pub bit_or_beside : (k q r : ℕ) → r < 2 ^ k → bit_or (q * 2 ^ k) r ≡ q * 2 ^ k + r
bit_or_beside zero q r h = ground (arith, bit_or-nil q q (omega arith))
bit_or_beside (suc k) q r h =
    let double : q * 2 ^ suc k ≡ 2 * (q * 2 ^ k) =
      omega (arith, ap (λ (t : ℕ). q * t) (pow-suc 2 k)) in
    let half : q * 2 ^ suc k / 2 ≡ q * 2 ^ k = omega (arith, double) in
    ground (
      arith,
      bit_or_step (q * 2 ^ suc k) r,
      double,
      half,
      bit_or_beside k q (r / 2) (omega (arith, pow-suc 2 k)),
    )

-- The same, for a sum whose high part is a multiple of `2 ^ k`.
pub bit_or-disjoint : (k x r : ℕ) → x % 2 ^ k ≡ 0 → r < 2 ^ k → bit_or x r ≡ x + r
bit_or-disjoint k x r e h =
    let split : x ≡ x / 2 ^ k * 2 ^ k = omega (arith, div-add-mod x (2 ^ k)) in
    ap (λ t. bit_or t r) split ∙ bit_or_beside k (x / 2 ^ k) r h ∙ ap (λ t. t + r) (sym split)

-- Words of `n` bits with the same digits are equal.
pub eq_of_digits :
    (n a b : ℕ) → a < 2 ^ n → b < 2 ^ n → ((k : ℕ) → k < n → digit a k ≡ digit b k) → a ≡ b
eq_of_digits zero a b ha hb h = omega arith
eq_of_digits (suc n) a b ha hb h =
    let rest =
      eq_of_digits n (a / 2) (b / 2) (omega (arith, pow-suc 2 n)) (omega (arith, pow-suc 2 n))
        (λ k lt. h (suc k) (omega arith)) in
    omega (arith, h 0 (omega arith), rest)

pub bit_or-lt : (n a b : ℕ) → a < 2 ^ n → b < 2 ^ n → bit_or a b < 2 ^ n
bit_or-lt zero a b ha hb =
    let e : a ≡ 0 = omega arith in let f : b ≡ 0 = omega arith in rw (e, f) (omega arith)
bit_or-lt (suc n) a b ha hb = omega (
  arith,
  pow-suc 2 n,
  bit_or_step a b,
  bit_or-lt n (a / 2) (b / 2) (omega (arith, pow-suc 2 n)) (omega (arith, pow-suc 2 n)),
)

pub bit_and-lt : (n a b : ℕ) → a < 2 ^ n → bit_and a b < 2 ^ n
bit_and-lt zero a b h = let e : a ≡ 0 = omega arith in rw e (omega (arith, bit_and-bitwise 0 b))
bit_and-lt (suc n) a b h = omega (
  arith,
  pow-suc 2 n,
  bit_and_step a b,
  bit_and-lt n (a / 2) (b / 2) (omega (arith, pow-suc 2 n)),
)
