-- ===== src/Scubed/Address.antt =====
-- The packed addresses of mesoblocks: `ID` and `NO` read back what `update_block_indices` stored.
use native.Mathlib.Nat.{
  pow-suc, one-le-pow, mul-add-div_right, div-eq_of_lt, div-eq_of_lt-le, mod-eq_of_lt,
  mul-le-mul_right, pow-le-pow_right, div-add-mod', add-mul, mul_comm, mul-suc,
}
use scubed.Base.{
  ℕ, zero, suc, ◌+◌, ◌-◌, ◌*◌, ◌/◌, ◌%◌, ◌^◌, ◌≤◌, ◌<◌, ◌≡◌, ◌≢◌, ap, ◌∙◌, bit_and, arith,
}
use scubed.Bits.Digit.{bit_and-ones}
use scubed.Scubed.State.{Base, mesobits, mmpm, id_of, no_of, never}
use scubed.Scubed.Output.{pack_index}

-- A macroblock has between 1 and `2 ^ 16 - 1` data mesoblocks.
pub record Geometry (b : Base) : Type 0 where
  pub some_bits : 1 ≤ mesobits b
  pub few_bits : mesobits b ≤ 16

-- An identifier that `0xFFFFFFFF` does not have.
abbrev pub Addressable : Base → ℕ → Type 0
Addressable b id = id + 2 ≤ 2 ^ (32 - mesobits b)

pow-add : (h k : ℕ) → 2 ^ h * 2 ^ k ≡ 2 ^ (h + k)
pow-add zero k = omega (arith, ap (λ (t : ℕ). 2 ^ t) (plain k))
  where
    plain : (k : ℕ) → 0 + k ≡ k
    plain k = omega arith
pow-add (suc h) k = omega (
  arith,
  ap (λ (t : ℕ). t * 2 ^ k) (pow-suc 2 h),
  add-mul (2 ^ h) (2 ^ h) (2 ^ k),
  ap (λ (t : ℕ). t * 2 ^ k) (double (2 ^ h)),
  pow-add h k,
  pow-suc 2 (h + k),
  ap (λ (t : ℕ). 2 ^ t) (next h k),
)
  where
    double : (x : ℕ) → x * 2 ≡ x + x
    double x = omega arith

    next : (h k : ℕ) → suc h + k ≡ suc (h + k)
    next h k = omega arith

ones_over : (a c n : ℕ) → 0 < a → 0 < c → a * c ≡ n → (n - 1) / a ≡ c - 1
ones_over a zero n ha hc e = absurd (omega arith)
ones_over a (suc c) n ha hc e = quotient_of ∙ omega arith
  where
    up : (c : ℕ) → c + 1 ≡ suc c
    up c = omega arith

    quotient_of : (n - 1) / a ≡ c
    quotient_of =
        div-eq_of_lt-le a (omega (arith, e, mul_comm c a, mul-suc a c))
          (omega (arith, e, mul_comm a (suc c), ap (λ (t : ℕ). t * a) (up c)))

-- The same, in terms of the two powers.
module _ (k h : ℕ) (width : h + k ≡ 32) where
  product : 2 ^ h * 2 ^ k ≡ 2 ^ 32
  product = pow-add h k ∙ ap (λ e. 2 ^ e) width

  module _ (id slot : ℕ) (hi : id + 2 ≤ 2 ^ h) (hs : slot < 2 ^ k) where
    pack-small : id * 2 ^ k + slot + 2 ≤ 2 ^ 32
    pack-small = omega (arith, product, add-mul id 2 (2 ^ k), mul-le-mul_right (2 ^ k) hi)

    quotient : (id * 2 ^ k + slot) / 2 ^ k ≡ id
    quotient =
        omega (arith, mul-add-div_right (one-le-pow k 2 (omega arith)) id slot, div-eq_of_lt hs)

    remainder : (id * 2 ^ k + slot) % 2 ^ k ≡ slot
    remainder =
        omega (arith, div-add-mod' (id * 2 ^ k + slot) (2 ^ k), ap (λ (t : ℕ). t * 2 ^ k) quotient)

  pub mask_ones : (2 ^ 32 - 1) / 2 ^ h ≡ 2 ^ k - 1
  mask_ones =
      ones_over (2 ^ h) (2 ^ k) (2 ^ 32) (one-le-pow h 2 (omega arith))
        (one-le-pow k 2 (omega arith)) product

  never_id : (2 ^ 32 - 1) / 2 ^ k ≡ 2 ^ h - 1
  never_id =
      ones_over (2 ^ k) (2 ^ h) (2 ^ 32) (one-le-pow k 2 (omega arith))
        (one-le-pow h 2 (omega arith)) (omega (arith, product))

module _ {b : Base} (g : Geometry b) where
  width : 32 - mesobits b + mesobits b ≡ 32
  width = omega (arith, g.few_bits)

  pub mmpm_lem : mmpm b ≡ 2 ^ mesobits b - 1
  mmpm_lem =
      let powers : 2 ^ mesobits b ≤ 2 ^ 16 = pow-le-pow_right (omega arith) g.few_bits in
      mod-eq_of_lt (omega (arith, powers, one-le-pow (mesobits b) 2))

  pub no_of_lem : (index : ℕ) → no_of b index ≡ index % 2 ^ mesobits b
  unfolding no_of
  no_of_lem index =
      ap (bit_and index) (mask_ones (mesobits b) (32 - mesobits b) width)
      ∙ bit_and-ones index (mesobits b)

  module _ (id slot : ℕ) (hi : Addressable b id) (hs : slot < mmpm b) where
    pack_lem : pack_index b id slot ≡ id * 2 ^ mesobits b + slot
    unfolding pack_index
    pack_lem =
        mod-eq_of_lt (omega (arith, pack-small _ _ width id slot hi (omega (arith, mmpm_lem))))

    -- Where a packed address leads.
    pub id_of-pack_index : id_of b (pack_index b id slot) ≡ id
    unfolding id_of
    id_of-pack_index =
        ap (λ (t : ℕ). t / 2 ^ mesobits b) pack_lem
        ∙ quotient _ _ width id slot hi (omega (arith, mmpm_lem))

    pub no_of-pack_index : no_of b (pack_index b id slot) ≡ slot
    no_of-pack_index =
        no_of_lem (pack_index b id slot)
        ∙ ap (λ (t : ℕ). t % 2 ^ mesobits b) pack_lem
        ∙ remainder _ _ width id slot hi (omega (arith, mmpm_lem))

    pub pack_index_ne : pack_index b id slot ≢ never
    pack_index_ne e =
        absurd (omega (arith, pack_lem, pack-small _ _ width id slot hi (omega (arith, mmpm_lem))))

  -- The address of a mesoblock that was never written leads to no macroblock.
  pub id_of-never : (id : ℕ) → Addressable b id → id_of b never ≢ id
  unfolding id_of
  id_of-never id hi e = absurd (omega (arith, never_id (mesobits b) (32 - mesobits b) width))
