-- ===== src/Util/Tests.antt =====
-- The text "4fA0zz" in a buffer.
use scubed.Base.{
  ℕ, suc, zero, ◌*◌, ◌≡◌, ◌<◌, refl, inl, inr, List, [], ◌∷◌, some, none, true, arith,
}
use scubed.Util.{hex_value, unbase16, unbase16_loop}
use scubed.Util.Hex.{Digits, Decoded, unbase16_lem}

abbrev text : List ℕ
text = b'4' ∷ b'f' ∷ b'A' ∷ b'0' ∷ b'z' ∷ b'z' ∷ []

decoded_text : unbase16 text 4 ≡ some (0x4f ∷ 0xA0 ∷ b'A' ∷ b'0' ∷ b'z' ∷ b'z' ∷ [], true)
unfolding unbase16 unbase16_loop hex_value
decoded_text = refl

odd_length : unbase16 text 3 ≡ none
unfolding unbase16
odd_length = refl

digits : (i : ℕ) → i < 2 → (high : ℕ) × (low : ℕ) × Digits text i high low
digits zero h =
    (4, 15, record { first = (omega arith, inl refl); second = (omega arith, inl refl) })
digits (suc zero) h =
    (10, 0, record { first = (omega arith, inr refl); second = (omega arith, inl refl) })
digits (suc (suc i)) h = absurd (omega arith)

unbase16_lem_example : (r : List ℕ) × (unbase16 text (2 * 2) ≡ some (r, true)) × Decoded text r 2
unbase16_lem_example = unbase16_lem text 2 (omega arith) digits
