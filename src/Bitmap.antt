-- ===== src/Bitmap.antt =====
-- src/bitmap.c: a set of numbers below `no_bits`, kept in an array of `uint32_t` with the count of
-- its ones. An operation that asserts gives an `Option`, and `none` is a failed assertion.
pub mod Words
pub mod Invariant
pub mod Members
pub mod Disk
mod Tests
use scubed.Base.{
  ℕ, zero, suc, ◌+◌, ◌-◌, ◌*◌, ◌/◌, ◌%◌, ◌^◌, bit_and, bit_or, Bool, true, false, not, ◌&&◌, List,
  [], ◌∷◌, Option, some, none, ◌>>=◌, ◌>>◌, assert, ltb, leb, ◌==◌, if◌then◌else◌, get_or, set,
  replicate, u8, u32, ◌<<<◌, ◌>>>◌,
}
use scubed.Bits.Digit.{hole}
use scubed.Bits.Count.{ones_below}
use scubed.Binio.{read_uint32_be, write_uint32_be}

-- `bitmap_t`
pub record Bitmap : Type 0 where
  pub no_bits : ℕ
  pub no_set : ℕ
  pub bits : List ℕ

-- `(no_bits + 31) / 32`, the length of the array
abbrev pub no_words : ℕ → ℕ
no_words n = u32 (n + 31) / 32

-- `bits[i]`
abbrev pub word : Bitmap → ℕ → ℕ
word b i = get_or b.bits i 0

pub init : ℕ → Bitmap
init no_bits = record { no_bits = no_bits; no_set = 0; bits = replicate (no_words no_bits) 0 }

-- `for (; i < n; i++) bits[i] = 0xFFFFFFFF`, with `n - i` rounds left
pub fill : ℕ → ℕ → List ℕ → List ℕ
fill zero i bits = bits
fill (suc left) i bits = fill left (i + 1) (set bits i 0xFFFFFFFF)

pub setbits : Bitmap → ℕ → Option Bitmap
unfolding fill
setbits b n = do
  assert (leb n b.no_bits)
  let cleared = if b.no_set == 0 then b.bits else replicate (no_words b.no_bits) 0
  let full = fill (n / 32) 0 cleared
  let i = n % 32
  some (record b {
    no_set = n;
    bits = if i == 0 then full else set full (n / 32) (0xFFFFFFFF >>> (32 - i));
  })

-- The result is the word with all but the digit masked out: nonzero exactly if the bit is set.
unfoldable pub getbit : Bitmap → ℕ → Option ℕ
getbit b index = do
  assert (ltb index b.no_bits)
  some (bit_and (word b (index / 32)) (1 <<< (index % 32)))

-- `size` is a `uint8_t`; `offset + size` wraps at 32 bits.
unfoldable pub getbits : Bitmap → ℕ → ℕ → Option ℕ
getbits b offset size = do
  assert (ltb offset b.no_bits)
  assert (leb (u32 (offset + size)) b.no_bits)
  assert (ltb size 32)
  assert (not (size == 0))
  let dword = offset / 32
  let bit = offset % 32
  let res = word b dword >>> bit
  let mask = 0xFFFFFFFF >>> (32 - size)
  let next = u32 (word b (dword + 1) <<< (bit + size - 32))
  some (
      if ltb (bit + size) 32
      then bit_and res mask
      else if ltb 32 (bit + size)
      then bit_and (bit_or res next) mask
      else res)

-- `bits[index/32] |= 1 << index%32`
abbrev pub or_bit : List ℕ → ℕ → List ℕ
or_bit bits index = set bits (index / 32) (bit_or (get_or bits (index / 32) 0) (1 <<< (index % 32)))

-- `bits[index/32] &= ~(1 << index%32)`
abbrev pub mask_bit : List ℕ → ℕ → List ℕ
mask_bit bits index =
    set bits (index / 32) (bit_and (get_or bits (index / 32) 0) (hole 32 (index % 32)))

-- A test of a C integer.
abbrev pub truth : ℕ → Bool
truth n = not (n == 0)

unfoldable pub setbit : Bitmap → ℕ → Option Bitmap
setbit b index = do
  assert (ltb index b.no_bits)
  old ← getbit b index
  assert (not (truth old))
  some (record b { bits = or_bit b.bits index; no_set = u32 (b.no_set + 1) })

unfoldable pub setbit_safe : Bitmap → ℕ → Option Bitmap
setbit_safe b index = do
  assert (ltb index b.no_bits)
  some (record b { bits = or_bit b.bits index; no_set = u32 (b.no_set + 1) })

unfoldable pub clearbit : Bitmap → ℕ → Option Bitmap
clearbit b index = do
  assert (ltb index b.no_bits)
  old ← getbit b index
  assert (truth old)
  assert (truth b.no_set)
  some (record b { bits = mask_bit b.bits index; no_set = b.no_set - 1 })

-- `no_set--` is a decrement of a `uint32_t`.
unfoldable pub clearbit_safe : Bitmap → ℕ → Option Bitmap
clearbit_safe b index = do
  assert (ltb index b.no_bits)
  old ← getbit b index
  some (record b {
    bits = mask_bit b.bits index;
    no_set = if truth old then u32 (b.no_set + 2 ^ 32 - 1) else b.no_set;
  })

pub count : Bitmap → ℕ
count b = b.no_set

pub size : Bitmap → ℕ
size b = no_words b.no_bits * 4

-- The loop of `bitmap_read` with `left` rounds to go, at index `i` and pointer `at`.
pub read_loop : ℕ → ℕ → List ℕ → ℕ → List ℕ → ℕ → List ℕ × ℕ
read_loop zero i buf at bits no_set = (bits, no_set)
read_loop (suc left) i buf at bits no_set =
    let w = read_uint32_be buf at in
    read_loop left (i + 1) buf (at + 4) (set bits i w) (u32 (no_set + ones_below 32 w))

-- `bitmap_read` from the bytes at `at`
pub read : Bitmap → List ℕ → ℕ → Bitmap
unfolding read_loop
read b buf at =
    let (bits, no_set) = read_loop (no_words b.no_bits) 0 buf at b.bits 0 in
    record b { bits = bits; no_set = no_set }

pub write_loop : ℕ → ℕ → List ℕ → ℕ → List ℕ → List ℕ
write_loop zero i buf at bits = buf
write_loop (suc left) i buf at bits =
    write_loop left (i + 1) (write_uint32_be buf at (get_or bits i 0)) (at + 4) bits

-- `bitmap_write` to the bytes at `at`
pub write : List ℕ → ℕ → Bitmap → List ℕ
unfolding write_loop
write buf at b = write_loop (no_words b.no_bits) 0 buf at b.bits
