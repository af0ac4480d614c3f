-- ===== src/Binio/RoundTrip.antt =====
-- What is written is what is read back, at each width and in each byte order.
use scubed.Base.{
  u16, u32, u64, ℕ, ◌+◌, ◌*◌, ◌/◌, ◌%◌, ◌^◌, ◌≤◌, ◌<◌, ◌≡◌, ◌⊎◌, inl, inr, List, [], ◌∷◌, arith,
  length, get_or,
}
use scubed.Binio.Memory.{poke, length-poke, get_or-poke, get_or-poke_before, get_or-poke_behind}
use scubed.Binio.Pieces.{byte_lem, or16, or32, or64}
use scubed.Binio.{
  byte, peek, join16, join32, join64, write_uint16_be, write_uint32_be, write_uint64_be,
  write_uint16_le, write_uint32_le, write_uint64_le, read_uint16_be, read_uint32_be, read_uint64_be,
  read_uint16_le, read_uint32_le, read_uint64_le,
}

byte-eq : (s k : ℕ) → byte s k ≡ s / 2 ^ k % 256
byte-eq s k = byte_lem (s / 2 ^ k)

pub join16_lem : (b1 b0 : ℕ) → b1 < 256 → b0 < 256 → join16 b1 b0 ≡ b1 * 2 ^ 8 + b0
unfolding join16
join16_lem b1 b0 h1 h0 = omega (arith, or16 b1 b0 h0)

pub join32_lem :
    (b3 b2 b1 b0 : ℕ)
    → b3 < 256
    → b2 < 256
    → b1 < 256
    → b0 < 256
    → join32 b3 b2 b1 b0 ≡ b3 * 2 ^ 24 + b2 * 2 ^ 16 + b1 * 2 ^ 8 + b0
unfolding join32
join32_lem b3 b2 b1 b0 h3 h2 h1 h0 = omega (arith, or32 b3 b2 b1 b0 h2 h1 h0)

pub join64_lem :
    (b7 b6 b5 b4 b3 b2 b1 b0 : ℕ)
    → b7 < 256
    → b6 < 256
    → b5 < 256
    → b4 < 256
    → b3 < 256
    → b2 < 256
    → b1 < 256
    → b0 < 256
    → join64 b7 b6 b5 b4 b3 b2 b1 b0
      ≡ b7 * 2 ^ 56
        + b6 * 2 ^ 48
        + b5 * 2 ^ 40
        + b4 * 2 ^ 32
        + b3 * 2 ^ 24
        + b2 * 2 ^ 16
        + b1 * 2 ^ 8
        + b0
unfolding join64
join64_lem b7 b6 b5 b4 b3 b2 b1 b0 h7 h6 h5 h4 h3 h2 h1 h0 =
    omega (arith, or64 b7 b6 b5 b4 b3 b2 b1 b0 h6 h5 h4 h3 h2 h1 h0)

join16_bytes : (s : ℕ) → join16 (byte s 8) (byte s 0) ≡ u16 s
join16_bytes s = omega (
  arith,
  byte-eq s 8,
  byte-eq s 0,
  join16_lem (byte s 8) (byte s 0) (omega (arith, byte-eq s 8)) (omega (arith, byte-eq s 0)),
)

byte-lt : (s k : ℕ) → byte s k < 256
byte-lt s k = omega (arith, byte-eq s k)

pub join32_bytes : (s : ℕ) → join32 (byte s 24) (byte s 16) (byte s 8) (byte s 0) ≡ u32 s
join32_bytes s = omega (
  arith,
  byte-eq s 24,
  byte-eq s 16,
  byte-eq s 8,
  byte-eq s 0,
  join32_lem _ _ _ _ (byte-lt s 24) (byte-lt s 16) (byte-lt s 8) (byte-lt s 0),
)

pub join64_bytes :
    (s : ℕ)
    → join64
        (byte s 56)
        (byte s 48)
        (byte s 40)
        (byte s 32)
        (byte s 24)
        (byte s 16)
        (byte s 8)
        (byte s 0)
      ≡ u64 s
join64_bytes s = omega (
  arith,
  byte-eq s 56,
  byte-eq s 48,
  byte-eq s 40,
  byte-eq s 32,
  byte-eq s 24,
  byte-eq s 16,
  byte-eq s 8,
  byte-eq s 0,
  join64_lem _ _ _ _ _ _ _ _ (byte-lt s 56) (byte-lt s 48) (byte-lt s 40) (byte-lt s 32)
      (byte-lt s 24) (byte-lt s 16) (byte-lt s 8) (byte-lt s 0),
)

module _ (buf : List ℕ) (at : ℕ) where
  -- The byte at a place of a run of stored bytes.
  stored :
      (bs : List ℕ)
      → at + length bs ≤ length buf
      → (i : ℕ) → i < length bs
      → peek (poke buf at bs) at i ≡ get_or bs i 0
  stored bs fits i h = get_or-poke buf at bs i fits h

  pub read-write16_be :
      (s : ℕ) → at + 2 ≤ length buf → read_uint16_be (write_uint16_be buf at s) at ≡ u16 s
  unfolding read_uint16_be write_uint16_be
  read-write16_be s fits =
      let p = stored (byte s 8 ∷ byte s 0 ∷ []) fits in
      cc (p 0 (omega arith), p 1 (omega arith), join16_bytes s)

  pub read-write16_le :
      (s : ℕ) → at + 2 ≤ length buf → read_uint16_le (write_uint16_le buf at s) at ≡ u16 s
  unfolding read_uint16_le write_uint16_le
  read-write16_le s fits =
      let p = stored (byte s 0 ∷ byte s 8 ∷ []) fits in
      cc (p 0 (omega arith), p 1 (omega arith), join16_bytes s)

  pub read-write32_be :
      (s : ℕ) → at + 4 ≤ length buf → read_uint32_be (write_uint32_be buf at s) at ≡ u32 s
  unfolding read_uint32_be write_uint32_be
  read-write32_be s fits =
      let p = stored (byte s 24 ∷ byte s 16 ∷ byte s 8 ∷ byte s 0 ∷ []) fits in
      cc
        (p 0 (omega arith), p 1 (omega arith), p 2 (omega arith), p 3 (omega arith), join32_bytes s)

  pub read-write32_le :
      (s : ℕ) → at + 4 ≤ length buf → read_uint32_le (write_uint32_le buf at s) at ≡ u32 s
  unfolding read_uint32_le write_uint32_le
  read-write32_le s fits =
      let p = stored (byte s 0 ∷ byte s 8 ∷ byte s 16 ∷ byte s 24 ∷ []) fits in
      cc
        (p 0 (omega arith), p 1 (omega arith), p 2 (omega arith), p 3 (omega arith), join32_bytes s)

  pub read-write64_be :
      (s : ℕ) → at + 8 ≤ length buf → read_uint64_be (write_uint64_be buf at s) at ≡ u64 s
  unfolding read_uint64_be write_uint64_be
  read-write64_be s fits =
      let bs =
        byte s 56
        ∷ byte s 48
        ∷ byte s 40
        ∷ byte s 32
        ∷ byte s 24
        ∷ byte s 16
        ∷ byte s 8
        ∷ byte s 0
        ∷ [] in
      let p = stored bs fits in
      cc (
        p 0 (omega arith),
        p 1 (omega arith),
        p 2 (omega arith),
        p 3 (omega arith),
        p 4 (omega arith),
        p 5 (omega arith),
        p 6 (omega arith),
        p 7 (omega arith),
        join64_bytes s,
      )

  pub read-write64_le :
      (s : ℕ) → at + 8 ≤ length buf → read_uint64_le (write_uint64_le buf at s) at ≡ u64 s
  unfolding read_uint64_le write_uint64_le
  read-write64_le s fits =
      let bs =
        byte s 0
        ∷ byte s 8
        ∷ byte s 16
        ∷ byte s 24
        ∷ byte s 32
        ∷ byte s 40
        ∷ byte s 48
        ∷ byte s 56
        ∷ [] in
      let p = stored bs fits in
      cc (
        p 0 (omega arith),
        p 1 (omega arith),
        p 2 (omega arith),
        p 3 (omega arith),
        p 4 (omega arith),
        p 5 (omega arith),
        p 6 (omega arith),
        p 7 (omega arith),
        join64_bytes s,
      )

-- What the three big-endian writers store, the big-endian readers give back, cut to the width of
-- the number, wherever the buffer has eight bytes from the offset on.
pub read-write_be :
    (buf : List ℕ) (at s : ℕ)
    → at + 8 ≤ length buf
    → (read_uint16_be (write_uint16_be buf at s) at ≡ u16 s)
      × (read_uint32_be (write_uint32_be buf at s) at ≡ u32 s)
      × (read_uint64_be (write_uint64_be buf at s) at ≡ u64 s)
read-write_be buf at s fits = (
  read-write16_be buf at s (omega arith),
  read-write32_be buf at s (omega arith),
  read-write64_be buf at s fits,
)

-- What the three little-endian writers store, the little-endian readers give back, cut to the
-- width of the number, wherever the buffer has eight bytes from the offset on.
pub read-write_le :
    (buf : List ℕ) (at s : ℕ)
    → at + 8 ≤ length buf
    → (read_uint16_le (write_uint16_le buf at s) at ≡ u16 s)
      × (read_uint32_le (write_uint32_le buf at s) at ≡ u32 s)
      × (read_uint64_le (write_uint64_le buf at s) at ≡ u64 s)
read-write_le buf at s fits = (
  read-write16_le buf at s (omega arith),
  read-write32_le buf at s (omega arith),
  read-write64_le buf at s fits,
)

-- The big-endian writer of 32 bits touches four bytes, and keeps the length.
pub write32_be_outside :
    (buf : List ℕ) (at s j : ℕ)
    → (j < at) ⊎ (at + 4 ≤ j)
    → get_or (write_uint32_be buf at s) j 0 ≡ get_or buf j 0
unfolding write_uint32_be
write32_be_outside buf at s j (inl h) =
    get_or-poke_before buf at (byte s 24 ∷ byte s 16 ∷ byte s 8 ∷ byte s 0 ∷ []) j h
write32_be_outside buf at s j (inr h) =
    get_or-poke_behind buf at (byte s 24 ∷ byte s 16 ∷ byte s 8 ∷ byte s 0 ∷ []) j h

pub length-write32_be : (buf : List ℕ) (at s : ℕ) → length (write_uint32_be buf at s) ≡ length buf
unfolding write_uint32_be
length-write32_be buf at s = length-poke buf at (byte s 24 ∷ byte s 16 ∷ byte s 8 ∷ byte s 0 ∷ [])
