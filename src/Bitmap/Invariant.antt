-- ===== src/Bitmap/Invariant.antt =====
-- The representation invariant of `bitmap_t`, and the operations that change one bit.
use scubed.Base.{
  ℕ, zero, suc, ◌+◌, ◌-◌, ◌*◌, ◌/◌, ◌%◌, ◌^◌, ◌≤◌, ◌<◌, ◌≡◌, refl, ap, ◌∙◌, bit_and, List, [], ◌∷◌,
  some, arith, length, get_or, length-set, length-replicate, replicate, All-replicate, lt→ltb,
  ◌<<<◌, u32,
}
use scubed.Bits.Digit.{bit_and-pow}
use scubed.Bits.Count.{ones_below, ones_below-le}
use scubed.Bitmap.Words.{
  member, Words, total, total-or_bit, total-mask_bit, or_bit-Words, mask_bit-Words,
}
use scubed.Bitmap.{Bitmap, no_words, init, getbit, or_bit, mask_bit}

pub record IsValid (b : Bitmap) : Type 0 where
  pub sized : length b.bits ≡ no_words b.no_bits
  pub small : b.no_bits + 31 < 2 ^ 32
  pub words : Words b.bits
  pub counted : b.no_set ≡ total b.bits

total-le : (bits : List ℕ) → total bits ≤ 32 * length bits
total-le [] = omega arith
total-le (w ∷ ws) = omega (arith, ones_below-le 32 w, total-le ws)

ones_below-zero : (n : ℕ) → ones_below n 0 ≡ 0
ones_below-zero zero = refl
ones_below-zero (suc n) = omega (arith, ones_below-zero n)

pub total-replicate : (n : ℕ) → total (replicate n 0) ≡ 0
total-replicate zero = refl
total-replicate (suc n) = omega (arith, ones_below-zero 32, total-replicate n)

-- `bitmap_init` makes a valid bitmap.
pub init-IsValid : (n : ℕ) → n + 31 < 2 ^ 32 → IsValid (init n)
unfolding init
init-IsValid n h = record {
  sized = length-replicate (no_words n) 0;
  small = h;
  words = All-replicate (λ w. w < 2 ^ 32) (no_words n) 0 (omega arith);
  counted = omega (arith, total-replicate (no_words n));
}

module _ {b : Bitmap} (v : IsValid b) (i : ℕ) (h : i < b.no_bits) where
  pub in_array : i / 32 < length b.bits
  in_array = omega (arith, v.sized, v.small)

  -- The masked word is the bit, in its place.
  masked : bit_and (get_or b.bits (i / 32) 0) (1 <<< (i % 32)) ≡ member b.bits i * 2 ^ (i % 32)
  masked =
      let one : 1 <<< (i % 32) ≡ 2 ^ (i % 32) = omega arith in
      ap (bit_and (get_or b.bits (i / 32) 0)) one ∙ bit_and-pow (get_or b.bits (i / 32) 0) (i % 32)

  pub getbit-eq : getbit b i ≡ some (member b.bits i * 2 ^ (i % 32))
  unfolding getbit
  getbit-eq = rw (lt→ltb _ _ h) (ap some masked)

  -- The test of the masked word is the test of the bit.
  pub getbit_clear : member b.bits i ≡ 0 → getbit b i ≡ some 0
  getbit_clear e = getbit-eq ∙ ap some (rw e (omega arith))

  pub getbit_set : member b.bits i ≡ 1 → getbit b i ≡ some (2 ^ (i % 32))
  getbit_set e = getbit-eq ∙ ap some (rw e (omega arith))

  -- Adding a bit that is clear, and removing one, keep the invariant.
  room : member b.bits i ≡ 0 → total b.bits < 2 ^ 32 - 1
  room e =
      let same : length (or_bit b.bits i) ≡ length b.bits = length-set b.bits (i / 32) _ in
      omega
        (arith, v.sized, v.small, total-le (or_bit b.bits i), total-or_bit b.bits i in_array, same)

  pub or_bit-IsValid :
      member b.bits i ≡ 0
      → IsValid (record b { bits = or_bit b.bits i; no_set = u32 (b.no_set + 1) })
  or_bit-IsValid e = record {
    sized = length-set b.bits (i / 32) _ ∙ v.sized;
    small = v.small;
    words = or_bit-Words b.bits i v.words;
    counted = omega (arith, v.counted, total-or_bit b.bits i in_array, room e);
  }

  pub mask_bit-IsValid :
      (n : ℕ)
      → n + member b.bits i ≡ total b.bits
      → IsValid (record b { bits = mask_bit b.bits i; no_set = n })
  mask_bit-IsValid n e = record {
    sized = length-set b.bits (i / 32) _ ∙ v.sized;
    small = v.small;
    words = mask_bit-Words b.bits i v.words;
    counted = omega (arith, total-mask_bit b.bits i in_array);
  }

pub total-lt : {b : Bitmap} → IsValid b → total b.bits < 2 ^ 32 - 1
total-lt {b} v = omega (arith, v.sized, v.small, total-le b.bits)
