-- ===== src/Bitmap/Members.antt =====
-- What the operations on one bit do to the set of bits, on every branch.
use scubed.Base.{
  ℕ, ◌+◌, ◌-◌, ◌%◌, ◌^◌, ◌≤◌, ◌<◌, ◌≡◌, refl, ap, sym, ◌∙◌, ==→eq, List, Option, some, none, arith,
  ◌==◌, if◌then◌else◌, lt→ltb, u32, ◌⊎◌, inl, inr, true,
}
use native.Mathlib.Nat.{one-le-pow}
use scubed.Bits.Digit.{digit-le}
use scubed.Bitmap.{Bitmap, setbit, setbit_safe, clearbit, clearbit_safe, or_bit, mask_bit, truth}
use scubed.Bitmap.Words.{
  member, total, member-or_bit, member-mask_bit, total-or_bit, total-mask_bit,
}
use scubed.Bitmap.Invariant.{
  IsValid, in_array, getbit_clear, getbit_set, or_bit-IsValid, mask_bit-IsValid, total-lt,
}

-- `b'` is the valid bitmap in which bit `i` has become `d` and no other bit has changed.
pub record Updated (b b' : Bitmap) (i d : ℕ) : Type 0 where
  pub valid : IsValid b'
  pub bit : (j : ℕ) → member b'.bits j ≡ (if i == j then d else member b.bits j)
  pub same_size : b'.no_bits ≡ b.no_bits

-- The operation succeeds, and updates bit `i` to `d`.
abbrev pub Updates : Bitmap → Option Bitmap → ℕ → ℕ → Type 0
Updates b o i d = (b' : Bitmap) × (o ≡ some b') × Updated b b' i d

-- What `bitmap_setbit_safe` leaves behind on a bit that was set already.
pub record Overcounted (b b' : Bitmap) : Type 0 where
  pub same_bits : (j : ℕ) → member b'.bits j ≡ member b.bits j
  pub counter : b'.no_set ≡ total b'.bits + 1
  pub broken : ¬ IsValid b'

member-same : (bits : List ℕ) (i j : ℕ) → member bits i ≡ 1 → (i == j) ≡ true → member bits j ≡ 1
member-same bits i j e t = ap (member bits) (sym (==→eq i j t)) ∙ e

truth-pow : (k : ℕ) → truth (2 ^ k) ≡ true
truth-pow k = ground (arith, one-le-pow k 2)

digit-cases : (d : ℕ) → d ≤ 1 → (d ≡ 0) ⊎ (d ≡ 1)
digit-cases d h = ground arith

module _ {b : Bitmap} (v : IsValid b) (i : ℕ) (h : i < b.no_bits) where
  added : Bitmap
  added = record b { bits = or_bit b.bits i; no_set = u32 (b.no_set + 1) }

  added-Updated : member b.bits i ≡ 0 → Updated b added i 1
  unfolding added
  added-Updated e = record {
    valid = or_bit-IsValid v i h e;
    bit = λ j. member-or_bit b.bits i j (in_array v i h);
    same_size = refl;
  }

  -- On a clear bit `bitmap_setbit` sets it, and nothing else changes.
  pub setbit_clear : member b.bits i ≡ 0 → Updates b (setbit b i) i 1
  unfolding setbit added
  setbit_clear e = (added, rw (lt→ltb _ _ h, getbit_clear v i h e), added-Updated e)

  -- On a bit that is set its assertion fails.
  pub setbit_set : member b.bits i ≡ 1 → setbit b i ≡ none
  unfolding setbit
  setbit_set e = rw (lt→ltb _ _ h, getbit_set v i h e, truth-pow (i % 32))

  pub setbit_safe_clear : member b.bits i ≡ 0 → Updates b (setbit_safe b i) i 1
  unfolding setbit_safe added
  setbit_safe_clear e = (added, rw (lt→ltb _ _ h), added-Updated e)

  -- On a bit that is set the counter runs ahead.
  pub setbit_safe_set :
      member b.bits i ≡ 1 → (b' : Bitmap) × (setbit_safe b i ≡ some b') × Overcounted b b'
  unfolding setbit_safe added
  setbit_safe_set e = (
    added,
    rw (lt→ltb _ _ h),
    record {
      same_bits =
          λ j. ground (arith, member-or_bit b.bits i j (in_array v i h), member-same b.bits i j e);
      counter = ahead;
      broken = λ bad. omega (arith, bad.counted, ahead);
    },
  )
    where
      ahead : u32 (b.no_set + 1) ≡ total (or_bit b.bits i) + 1
      ahead = omega (arith, v.counted, total-or_bit b.bits i (in_array v i h), total-lt v)

  cleared : ℕ → Bitmap
  cleared n = record b { bits = mask_bit b.bits i; no_set = n }

  cleared-Updated : (n : ℕ) → n + member b.bits i ≡ total b.bits → Updated b (cleared n) i 0
  unfolding cleared
  cleared-Updated n e = record {
    valid = mask_bit-IsValid v i h n e;
    bit = λ j. member-mask_bit b.bits i j (in_array v i h);
    same_size = refl;
  }

  -- A set bit makes the total positive, so that the counter does not fall below zero.
  total_pos : member b.bits i ≡ 1 → 0 < total b.bits
  total_pos e = omega (arith, total-mask_bit b.bits i (in_array v i h))

  pub clearbit_set : member b.bits i ≡ 1 → Updates b (clearbit b i) i 0
  unfolding clearbit cleared
  clearbit_set e = (
    cleared (b.no_set - 1),
    rw (lt→ltb _ _ h, getbit_set v i h e, truth-pow (i % 32), positive),
    cleared-Updated (b.no_set - 1) (omega (arith, v.counted, total_pos e)),
  )
    where
      positive : truth b.no_set ≡ true
      positive = ground (arith, v.counted, total_pos e)

  pub clearbit_clear : member b.bits i ≡ 0 → clearbit b i ≡ none
  unfolding clearbit
  clearbit_clear e = rw (lt→ltb _ _ h, getbit_clear v i h e)

  pub clearbit_safe_set : member b.bits i ≡ 1 → Updates b (clearbit_safe b i) i 0
  unfolding clearbit_safe cleared
  clearbit_safe_set e = (
    cleared (u32 (b.no_set + 2 ^ 32 - 1)),
    rw (lt→ltb _ _ h, getbit_set v i h e, truth-pow (i % 32)),
    cleared-Updated _ (omega (arith, v.counted, total_pos e, total-lt v)),
  )

  pub clearbit_safe_clear : member b.bits i ≡ 0 → Updates b (clearbit_safe b i) i 0
  unfolding clearbit_safe cleared
  clearbit_safe_clear e = (
    cleared b.no_set,
    rw (lt→ltb _ _ h, getbit_clear v i h e),
    cleared-Updated _ (omega (arith, v.counted)),
  )

-- On a valid bitmap and an index below `no_bits`, `bitmap_setbit` sets the bit, changes no other
-- and keeps the bitmap valid, if the bit is clear; if it is set, an assertion fails.
pub setbit_lem :
    {b : Bitmap} (i : ℕ)
    → IsValid b
    → i < b.no_bits
    → ((member b.bits i ≡ 0) × Updates b (setbit b i) i 1)
      ⊎ ((member b.bits i ≡ 1) × (setbit b i ≡ none))
setbit_lem {b} i v h = elim (digit-cases (member b.bits i) (digit-le _ (i % 32))) [
  | inl e ↦ inl (e, setbit_clear v i h e)
  | inr e ↦ inr (e, setbit_set v i h e)
]

-- On a valid bitmap and an index below `no_bits`, `bitmap_clearbit` clears the bit, changes no
-- other and keeps the bitmap valid, if the bit is set; if it is clear, an assertion fails.
pub clearbit_lem :
    {b : Bitmap} (i : ℕ)
    → IsValid b
    → i < b.no_bits
    → ((member b.bits i ≡ 1) × Updates b (clearbit b i) i 0)
      ⊎ ((member b.bits i ≡ 0) × (clearbit b i ≡ none))
clearbit_lem {b} i v h = elim (digit-cases (member b.bits i) (digit-le _ (i % 32))) [
  | inl e ↦ inr (e, clearbit_clear v i h e)
  | inr e ↦ inl (e, clearbit_set v i h e)
]

-- On a valid bitmap and an index below `no_bits`, `bitmap_clearbit_safe` leaves the bit clear,
-- changes no other and keeps the bitmap valid, whether the bit was set or not.
pub clearbit_safe_lem :
    {b : Bitmap} (i : ℕ) → IsValid b → i < b.no_bits → Updates b (clearbit_safe b i) i 0
clearbit_safe_lem {b} i v h = elim (digit-cases (member b.bits i) (digit-le _ (i % 32))) [
  | inl e ↦ clearbit_safe_clear v i h e
  | inr e ↦ clearbit_safe_set v i h e
]

-- On a valid bitmap and an index below `no_bits`, `bitmap_setbit_safe` sets the bit, changes no
-- other and keeps the bitmap valid, if the bit is clear. If it is set already, the
-- bits stay as they are, the counter goes one above the number of ones, and the bitmap is invalid.
pub setbit_safe_lem :
    {b : Bitmap} (i : ℕ)
    → IsValid b
    → i < b.no_bits
    → ((member b.bits i ≡ 0) × Updates b (setbit_safe b i) i 1)
      ⊎ ((member b.bits i ≡ 1) × ((b' : Bitmap) × (setbit_safe b i ≡ some b') × Overcounted b b'))
setbit_safe_lem {b} i v h = elim (digit-cases (member b.bits i) (digit-le _ (i % 32))) [
  | inl e ↦ inl (e, setbit_safe_clear v i h e)
  | inr e ↦ inr (e, setbit_safe_set v i h e)
]
