-- ===== src/Bitmap/Words.antt =====
-- The array of words as a set of bits: which bits are in it, and how many.
use scubed.Base.{
  ℕ, zero, suc, ◌+◌, ◌/◌, ◌%◌, ◌^◌, ◌<◌, ◌≡◌, ap, ◌∙◌, bit_and, bit_or, List, [], ◌∷◌, arith, ◌==◌,
  if◌then◌else◌, length, get_or, set, get_or-set_self, get_or-set_ne, Bool-cases, inl, inr, ==→eq,
  ◌<<<◌, All, All-set, All-get_or, min, max,
}
use scubed.Bits.Digit.{
  digit, hole, digit-bit_or, digit-bit_and, digit-pow, digit-hole, digit-le, bit_or-lt, bit_and-lt,
  pow-lt-pow,
}
use scubed.Bits.Count.{ones_below, ones_below_apart}
use scubed.Bitmap.{or_bit, mask_bit}

-- Bit `i` of the array, as a digit.
abbrev pub member : List ℕ → ℕ → ℕ
member bits i = digit (get_or bits (i / 32) 0) (i % 32)

abbrev pub Words : List ℕ → Type 0
Words bits = All (λ w. w < 2 ^ 32) bits

one_shifted : (k : ℕ) → 1 <<< k ≡ 2 ^ k
one_shifted k = omega arith

-- The word at the place of `i`, with digits `f`, replaces the old one.
member-set :
    (bits : List ℕ) (i j w : ℕ)
    → i / 32 < length bits
    → member (set bits (i / 32) w) j
      ≡ (if i / 32 == j / 32 then digit w (j % 32) else member bits j)
member-set bits i j w h = elim (Bool-cases (i / 32 == j / 32)) [
  | inl same ↦
      rw (same, ← ==→eq _ _ same) (ap (λ v. digit v (j % 32)) (get_or-set_self bits (i / 32) w 0 h))
  | inr apart ↦
      rw apart
        (ap (λ v. digit v (j % 32)) (get_or-set_ne bits (i / 32) (j / 32) w 0 (ground arith)))
]

pub member-or_bit :
    (bits : List ℕ) (i j : ℕ)
    → i / 32 < length bits
    → member (or_bit bits i) j ≡ (if i == j then 1 else member bits j)
member-or_bit bits i j h = member-set bits i j _ h ∙ elim (Bool-cases (i / 32 == j / 32)) [
  | inl same ↦ rw same (
      ground (
        arith,
        digit-bit_or (get_or bits (i / 32) 0) (1 <<< (i % 32)) (j % 32),
        ap (λ v. digit v (j % 32)) (one_shifted (i % 32)),
        digit-pow (i % 32) (j % 32),
        digit-le (get_or bits (i / 32) 0) (j % 32),
        ap (λ k. digit (get_or bits k 0) (j % 32)) (==→eq _ _ same),
      ))
  | inr apart ↦ rw apart (ground arith)
]

pub member-mask_bit :
    (bits : List ℕ) (i j : ℕ)
    → i / 32 < length bits
    → member (mask_bit bits i) j ≡ (if i == j then 0 else member bits j)
member-mask_bit bits i j h = member-set bits i j _ h ∙ elim (Bool-cases (i / 32 == j / 32)) [
  | inl same ↦ rw same (
      ground (
        arith,
        digit-bit_and (get_or bits (i / 32) 0) (hole 32 (i % 32)) (j % 32),
        digit-hole 32 (i % 32) (j % 32) (omega arith) (omega arith),
        digit-le (get_or bits (i / 32) 0) (j % 32),
        ap (λ k. digit (get_or bits k 0) (j % 32)) (==→eq _ _ same),
      ))
  | inr apart ↦ rw apart (ground arith)
]

-- The number of ones in the array.
abbrev pub total : List ℕ → ℕ
total [] = 0
total (w ∷ ws) = ones_below 32 w + total ws

pub total-set :
    (bits : List ℕ) (k w : ℕ)
    → k < length bits
    → total (set bits k w) + ones_below 32 (get_or bits k 0) ≡ total bits + ones_below 32 w
total-set [] k w h = absurd (omega arith)
total-set (v ∷ ws) zero w h = omega arith
total-set (v ∷ ws) (suc k) w h = omega (arith, total-set ws k w (omega arith))

-- Setting a bit adds one exactly if it was clear.
pub total-or_bit :
    (bits : List ℕ) (i : ℕ)
    → i / 32 < length bits
    → total (or_bit bits i) + member bits i ≡ total bits + 1
total-or_bit bits i h =
    let v = get_or bits (i / 32) 0 in
    let v' = bit_or v (1 <<< (i % 32)) in
    let at_k : (k : ℕ) → digit v' k ≡ max (digit v k) (if i % 32 == k then 1 else 0) = λ k.
      digit-bit_or v (1 <<< (i % 32)) k
      ∙ ap (max (digit v k)) (ap (λ s. digit s k) (one_shifted (i % 32)) ∙ digit-pow (i % 32) k) in
    let apart =
      ones_below_apart 32 v' v (i % 32) (omega arith)
        (λ k lt ne. ground (arith, at_k k, digit-le v k)) in
    ground (arith, apart, total-set bits (i / 32) v' h, at_k (i % 32), digit-le v (i % 32))

-- Clearing a bit takes one exactly if it was set.
pub total-mask_bit :
    (bits : List ℕ) (i : ℕ)
    → i / 32 < length bits
    → total (mask_bit bits i) + member bits i ≡ total bits
total-mask_bit bits i h =
    let v = get_or bits (i / 32) 0 in
    let v' = bit_and v (hole 32 (i % 32)) in
    let at_k : (k : ℕ) → k < 32 → digit v' k ≡ min (digit v k) (if i % 32 == k then 0 else 1) =
      λ k lt.
        digit-bit_and v (hole 32 (i % 32)) k
        ∙ ap (min (digit v k)) (digit-hole 32 (i % 32) k (omega arith) lt) in
    let apart =
      ones_below_apart 32 v' v (i % 32) (omega arith)
        (λ k lt ne. ground (arith, at_k k lt, digit-le v k)) in
    ground
      (arith, apart, total-set bits (i / 32) v' h, at_k (i % 32) (omega arith), digit-le v (i % 32))

-- The words stay words of 32 bits.
pub or_bit-Words : (bits : List ℕ) (i : ℕ) → Words bits → Words (or_bit bits i)
or_bit-Words bits i ws =
    let v = get_or bits (i / 32) 0 in
    let old : v < 2 ^ 32 = All-get_or (λ w. w < 2 ^ 32) bits (i / 32) 0 (omega arith) ws in
    let one : 1 <<< (i % 32) < 2 ^ 32 = omega (arith, pow-lt-pow (i % 32) 32 (omega arith)) in
    All-set (λ w. w < 2 ^ 32) bits (i / 32) _ (bit_or-lt 32 v _ old one) ws

pub mask_bit-Words : (bits : List ℕ) (i : ℕ) → Words bits → Words (mask_bit bits i)
mask_bit-Words bits i ws =
    let v = get_or bits (i / 32) 0 in
    let old : v < 2 ^ 32 = All-get_or (λ w. w < 2 ^ 32) bits (i / 32) 0 (omega arith) ws in
    All-set (λ w. w < 2 ^ 32) bits (i / 32) _ (bit_and-lt 32 v _ old) ws
