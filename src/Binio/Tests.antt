-- ===== src/Binio/Tests.antt =====
-- Small runs of src/binio.c, and the round trips at an input.
use scubed.Base.{ℕ, ◌≡◌, refl, List, [], ◌∷◌, arith, u16, u32, u64}
use scubed.Binio.{
  write_uint8, read_uint8, write_uint16_be, write_uint32_be, write_uint64_be, write_uint16_le,
  write_uint32_le, write_uint64_le, read_uint16_be, read_uint32_be, read_uint64_be, read_uint16_le,
  read_uint32_le, read_uint64_le,
}
use scubed.Binio.RoundTrip.{read-write_be, read-write_le}

abbrev buffer : List ℕ
buffer = 9 ∷ 9 ∷ 9 ∷ 9 ∷ 9 ∷ 9 ∷ 9 ∷ 9 ∷ 9 ∷ []

one_byte : read_uint8 (write_uint8 buffer 2 7) 2 ≡ 7
unfolding read_uint8 write_uint8
one_byte = refl

big_end_first : write_uint32_be buffer 1 0x0102_0304 ≡ 9 ∷ 1 ∷ 2 ∷ 3 ∷ 4 ∷ 9 ∷ 9 ∷ 9 ∷ 9 ∷ []
unfolding write_uint32_be
big_end_first = refl

little_end_first : write_uint32_le buffer 1 0x0102_0304 ≡ 9 ∷ 4 ∷ 3 ∷ 2 ∷ 1 ∷ 9 ∷ 9 ∷ 9 ∷ 9 ∷ []
unfolding write_uint32_le
little_end_first = refl

read-write_be_example :
    (read_uint16_be (write_uint16_be buffer 1 0x1_0000_0102) 1 ≡ u16 0x1_0000_0102)
    × (read_uint32_be (write_uint32_be buffer 1 0x1_0000_0102) 1 ≡ u32 0x1_0000_0102)
    × (read_uint64_be (write_uint64_be buffer 1 0x1_0000_0102) 1 ≡ u64 0x1_0000_0102)
read-write_be_example = read-write_be buffer 1 0x1_0000_0102 (omega arith)

read-write_le_example :
    (read_uint16_le (write_uint16_le buffer 1 0x1_0000_0102) 1 ≡ u16 0x1_0000_0102)
    × (read_uint32_le (write_uint32_le buffer 1 0x1_0000_0102) 1 ≡ u32 0x1_0000_0102)
    × (read_uint64_le (write_uint64_le buffer 1 0x1_0000_0102) 1 ≡ u64 0x1_0000_0102)
read-write_le_example = read-write_le buffer 1 0x1_0000_0102 (omega arith)
