-- ===== src/Cipher/Xor.antt =====
-- Exclusive or undoes itself.
use scubed.Base.{
  ℕ, zero, suc, ◌+◌, ◌/◌, ◌≤◌, ◌≡◌, refl, ap, ap₂, List, [], ◌∷◌, length, bit_xor, arith,
}
use scubed.Bits.Step.{bit_xor_step}
use scubed.Cipher.{xor_block}

bit_xor_twice : (fuel a b : ℕ) → a ≤ fuel → b ≤ fuel → bit_xor (bit_xor a b) b ≡ a
bit_xor_twice zero a b ha hb =
    let e : a ≡ 0 = omega arith in let f : b ≡ 0 = omega arith in rw (e, f) refl
bit_xor_twice (suc fuel) a b ha hb =
    let half : bit_xor a b / 2 ≡ bit_xor (a / 2) (b / 2) = omega (arith, bit_xor_step a b) in
    omega (
      arith,
      bit_xor_step a b,
      bit_xor_step (bit_xor a b) b,
      ap (λ x. bit_xor x (b / 2)) half,
      bit_xor_twice fuel (a / 2) (b / 2) (omega arith) (omega arith),
    )

pub xor_block_twice : (xs ys : List ℕ) → length xs ≡ length ys → xor_block (xor_block xs ys) ys ≡ xs
unfolding xor_block
xor_block_twice [] ys e = refl
xor_block_twice (x ∷ xs) [] e = absurd (omega arith)
xor_block_twice (x ∷ xs) (y ∷ ys) e =
    ap₂ ◌∷◌ (bit_xor_twice (x + y) x y (omega arith) (omega arith))
      (xor_block_twice xs ys (omega arith))

pub length-xor_block :
    (xs ys : List ℕ) → length xs ≡ length ys → length (xor_block xs ys) ≡ length xs
unfolding xor_block
length-xor_block [] ys e = refl
length-xor_block (x ∷ xs) [] e = absurd (omega arith)
length-xor_block (x ∷ xs) (y ∷ ys) e = ap suc (length-xor_block xs ys (omega arith))
