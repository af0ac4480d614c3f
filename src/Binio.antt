-- ===== src/Binio.antt =====
-- src/binio.c: numbers of 8 to 64 bits in byte buffers, in both byte orders.
-- A buffer is a list of bytes, and the pointer that C passes is the buffer with an offset into it.
mod Pieces
pub mod Memory
pub mod Part
pub mod RoundTrip
pub mod Words32
mod Tests
use scubed.Base.{ℕ, ◌+◌, bit_and, bit_or, List, [], ◌∷◌, u16, u32, u64, ◌<<<◌, ◌>>>◌, get_or}
use Memory.{poke}

-- `(s >> k) & 0xFF`
abbrev byte : ℕ → ℕ → ℕ
byte s k = bit_and (s >>> k) 0xFF

-- `buf[i]` of the pointer that stands at `at`
abbrev peek : List ℕ → ℕ → ℕ → ℕ
peek buf at i = get_or buf (at + i) 0

pub write_uint8 : List ℕ → ℕ → ℕ → List ℕ
write_uint8 buf at s = poke buf at (s ∷ [])

pub write_uint16_be : List ℕ → ℕ → ℕ → List ℕ
write_uint16_be buf at s = poke buf at (byte s 8 ∷ byte s 0 ∷ [])

unfoldable pub write_uint32_be : List ℕ → ℕ → ℕ → List ℕ
write_uint32_be buf at s = poke buf at (byte s 24 ∷ byte s 16 ∷ byte s 8 ∷ byte s 0 ∷ [])

unfoldable pub write_uint64_be : List ℕ → ℕ → ℕ → List ℕ
write_uint64_be buf at s = poke buf at (
    byte s 56
    ∷ byte s 48
    ∷ byte s 40
    ∷ byte s 32
    ∷ byte s 24
    ∷ byte s 16
    ∷ byte s 8
    ∷ byte s 0
    ∷ [])

pub write_uint16_le : List ℕ → ℕ → ℕ → List ℕ
write_uint16_le buf at s = poke buf at (byte s 0 ∷ byte s 8 ∷ [])

pub write_uint32_le : List ℕ → ℕ → ℕ → List ℕ
write_uint32_le buf at s = poke buf at (byte s 0 ∷ byte s 8 ∷ byte s 16 ∷ byte s 24 ∷ [])

pub write_uint64_le : List ℕ → ℕ → ℕ → List ℕ
write_uint64_le buf at s = poke buf at (
    byte s 0
    ∷ byte s 8
    ∷ byte s 16
    ∷ byte s 24
    ∷ byte s 32
    ∷ byte s 40
    ∷ byte s 48
    ∷ byte s 56
    ∷ [])

pub read_uint8 : List ℕ → ℕ → ℕ
read_uint8 buf at = peek buf at 0

-- What the expressions of the readers make of the bytes that they fetch.
unfoldable pub join16 : ℕ → ℕ → ℕ
join16 b1 b0 = u16 (bit_or (b1 <<< 8) b0)

unfoldable pub join32 : ℕ → ℕ → ℕ → ℕ → ℕ
join32 b3 b2 b1 b0 = u32 (bit_or (bit_or (bit_or (b3 <<< 24) (b2 <<< 16)) (b1 <<< 8)) b0)

unfoldable pub join64 : ℕ → ℕ → ℕ → ℕ → ℕ → ℕ → ℕ → ℕ → ℕ
join64 b7 b6 b5 b4 b3 b2 b1 b0 =
    let w6 = bit_or (b7 <<< 56) (b6 <<< 48) in
    let w4 = bit_or (bit_or w6 (b5 <<< 40)) (b4 <<< 32) in
    let w2 = bit_or (bit_or w4 (b3 <<< 24)) (b2 <<< 16) in u64 (bit_or (bit_or w2 (b1 <<< 8)) b0)

pub read_uint16_be : List ℕ → ℕ → ℕ
read_uint16_be buf at = join16 (peek buf at 0) (peek buf at 1)

unfoldable pub read_uint32_be : List ℕ → ℕ → ℕ
read_uint32_be buf at = join32 (peek buf at 0) (peek buf at 1) (peek buf at 2) (peek buf at 3)

unfoldable pub read_uint64_be : List ℕ → ℕ → ℕ
read_uint64_be buf at =
    join64 (peek buf at 0) (peek buf at 1) (peek buf at 2) (peek buf at 3) (peek buf at 4)
      (peek buf at 5) (peek buf at 6) (peek buf at 7)

pub read_uint16_le : List ℕ → ℕ → ℕ
read_uint16_le buf at = join16 (peek buf at 1) (peek buf at 0)

pub read_uint32_le : List ℕ → ℕ → ℕ
read_uint32_le buf at = join32 (peek buf at 3) (peek buf at 2) (peek buf at 1) (peek buf at 0)

pub read_uint64_le : List ℕ → ℕ → ℕ
read_uint64_le buf at =
    join64 (peek buf at 7) (peek buf at 6) (peek buf at 5) (peek buf at 4) (peek buf at 3)
      (peek buf at 2) (peek buf at 1) (peek buf at 0)
