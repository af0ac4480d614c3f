-- ===== src/Binio/Pieces.antt =====
-- The shifted bytes that a reader ORs together are a sum.
use scubed.Base.{ℕ, ◌+◌, ◌*◌, ◌^◌, ◌%◌, ◌<◌, ◌≡◌, ◌∙◌, ap, bit_or, bit_and, arith, ◌<<<◌}
use scubed.Bits.Digit.{bit_or-disjoint, bit_and-ones}

-- One byte is ORed to a partial sum `x`, which is a multiple of `2 ^ k`.
or_next : (k x y b : ℕ) → x ≡ y → y % 2 ^ k ≡ 0 → b < 2 ^ k → bit_or x b ≡ y + b
or_next k x y b e m h = ap (λ t. bit_or t b) e ∙ bit_or-disjoint k y b m h

pub byte_lem : (s : ℕ) → bit_and s 0xFF ≡ s % 256
byte_lem s = bit_and-ones s 8

pub or16 : (b1 b0 : ℕ) → b0 < 256 → bit_or (b1 <<< 8) b0 ≡ b1 * 2 ^ 8 + b0
or16 b1 b0 h = bit_or-disjoint 8 (b1 * 2 ^ 8) b0 (omega arith) (omega arith)

pub or32 :
    (b3 b2 b1 b0 : ℕ)
    → b2 < 256
    → b1 < 256
    → b0 < 256
    → bit_or (bit_or (bit_or (b3 <<< 24) (b2 <<< 16)) (b1 <<< 8)) b0
      ≡ b3 * 2 ^ 24 + b2 * 2 ^ 16 + b1 * 2 ^ 8 + b0
or32 b3 b2 b1 b0 h2 h1 h0 =
    let s2 = bit_or-disjoint 24 (b3 * 2 ^ 24) (b2 * 2 ^ 16) (omega arith) (omega arith) in
    let s1 = or_next 16 _ _ (b1 * 2 ^ 8) s2 (omega arith) (omega arith) in
    or_next 8 _ _ b0 s1 (omega arith) (omega arith)

pub or64 :
    (b7 b6 b5 b4 b3 b2 b1 b0 : ℕ)
    → b6 < 256
    → b5 < 256
    → b4 < 256
    → b3 < 256
    → b2 < 256
    → b1 < 256
    → b0 < 256
    → bit_or
        (bit_or
          (bit_or
            (bit_or
              (bit_or (bit_or (bit_or (b7 <<< 56) (b6 <<< 48)) (b5 <<< 40)) (b4 <<< 32))
              (b3 <<< 24))
            (b2 <<< 16))
          (b1 <<< 8))
        b0
      ≡ b7 * 2 ^ 56
        + b6 * 2 ^ 48
        + b5 * 2 ^ 40
        + b4 * 2 ^ 32
        + b3 * 2 ^ 24
        + b2 * 2 ^ 16
        + b1 * 2 ^ 8
        + b0
or64 b7 b6 b5 b4 b3 b2 b1 b0 h6 h5 h4 h3 h2 h1 h0 =
    let s6 = bit_or-disjoint 56 (b7 * 2 ^ 56) (b6 * 2 ^ 48) (omega arith) (omega arith) in
    let s5 = or_next 48 _ _ (b5 * 2 ^ 40) s6 (omega arith) (omega arith) in
    let s4 = or_next 40 _ _ (b4 * 2 ^ 32) s5 (omega arith) (omega arith) in
    let s3 = or_next 32 _ _ (b3 * 2 ^ 24) s4 (omega arith) (omega arith) in
    let s2 = or_next 24 _ _ (b2 * 2 ^ 16) s3 (omega arith) (omega arith) in
    let s1 = or_next 16 _ _ (b1 * 2 ^ 8) s2 (omega arith) (omega arith) in
    or_next 8 _ _ b0 s1 (omega arith) (omega arith)
