-- ===== src/Bitmap/Tests.antt =====
-- Small runs of src/bitmap.c, and the theorems at an input.
use scubed.Base.{◌≡◌, refl, ◌⊎◌, some, none, [], ◌∷◌, arith, replicate}
use scubed.Bitmap.{
  Bitmap, init, getbit, getbits, setbit, setbit_safe, clearbit, clearbit_safe, setbits, write, read,
}
use scubed.Bitmap.Words.{member}
use scubed.Bitmap.Invariant.{IsValid, init-IsValid}
use scubed.Bitmap.Members.{
  Updates, Overcounted, setbit_lem, clearbit_lem, clearbit_safe_lem, setbit_safe_lem,
}
use scubed.Bitmap.Disk.{read-write}
use scubed.Binio.{write_uint32_be}

-- 40 bits, of which 3 and 35 are set
abbrev two_bits : Bitmap
two_bits = record { no_bits = 40; no_set = 2; bits = 8 ∷ 8 ∷ [] }

two_bits-IsValid : IsValid two_bits
two_bits-IsValid = omega arith

reads : (getbit two_bits 35 ≡ some 8) × (getbit two_bits 34 ≡ some 0) × (getbit two_bits 40 ≡ none)
unfolding getbit
reads = (refl, refl, refl)

prefix : setbits two_bits 34 ≡ some (record two_bits { no_set = 34; bits = 0xFFFF_FFFF ∷ 3 ∷ [] })
unfolding setbits
prefix = refl

within_a_word : getbits two_bits 33 3 ≡ some 4
unfolding getbits
within_a_word = refl

-- Bits 30 to 34 are 0, 0, 1, 0, 0; the result has the one a place too high.
across_words : getbits (record { no_bits = 64; no_set = 1; bits = 0 ∷ 1 ∷ [] }) 30 5 ≡ some 8
unfolding getbits
across_words = refl

disk_order : write (replicate 8 0) 0 two_bits ≡ 0 ∷ 0 ∷ 0 ∷ 8 ∷ 0 ∷ 0 ∷ 0 ∷ 8 ∷ []
unfolding write write_uint32_be
disk_order = refl

init-IsValid_example : IsValid (init 40)
init-IsValid_example = init-IsValid 40 (omega arith)

setbit_lem_example :
    ((member two_bits.bits 4 ≡ 0) × Updates two_bits (setbit two_bits 4) 4 1)
    ⊎ ((member two_bits.bits 4 ≡ 1) × (setbit two_bits 4 ≡ none))
setbit_lem_example = setbit_lem 4 two_bits-IsValid (omega arith)

clearbit_lem_example :
    ((member two_bits.bits 35 ≡ 1) × Updates two_bits (clearbit two_bits 35) 35 0)
    ⊎ ((member two_bits.bits 35 ≡ 0) × (clearbit two_bits 35 ≡ none))
clearbit_lem_example = clearbit_lem 35 two_bits-IsValid (omega arith)

clearbit_safe_lem_example : Updates two_bits (clearbit_safe two_bits 35) 35 0
clearbit_safe_lem_example = clearbit_safe_lem 35 two_bits-IsValid (omega arith)

setbit_safe_lem_example :
    ((member two_bits.bits 35 ≡ 0) × Updates two_bits (setbit_safe two_bits 35) 35 1)
    ⊎ ((member two_bits.bits 35 ≡ 1)
        × ((b' : Bitmap) × (setbit_safe two_bits 35 ≡ some b') × Overcounted two_bits b'))
setbit_safe_lem_example = setbit_safe_lem 35 two_bits-IsValid (omega arith)

read-write_example :
    read (record two_bits { no_set = 7; bits = 1 ∷ 2 ∷ [] }) (write (replicate 9 0) 1 two_bits) 1
    ≡ two_bits
read-write_example =
    read-write (replicate 9 0) 1 two_bits (record two_bits { no_set = 7; bits = 1 ∷ 2 ∷ [] })
      two_bits-IsValid refl refl (omega arith)
