-- ===== src/Blockio/Index.antt =====
-- The index block, byte for byte: what `blockio_dev_write_current_macroblock` stores and
-- `blockio_dev_scan_header` makes of it. SHA-256 is libgcrypt's.
use scubed.Base.{
  ℕ, zero, suc, ◌+◌, ◌-◌, ◌*◌, List, [], ◌∷◌, get_or, set, replicate, Bool, true, false, not, ◌&&◌,
  ltb, leb, ◌==◌, if◌then◌else◌, ◌<<<◌,
}
use scubed.Binio.{write_uint32_be, write_uint64_be, read_uint32_be, read_uint64_be}
use scubed.Binio.Memory.{poke}
use scubed.Binio.Part.{part}
use scubed.Bitmap.{Bitmap}
use scubed.Bitmap

-- The macros for the places in the buffer.
abbrev pub datablocks_sha256 : ℕ
datablocks_sha256 = 0x20

abbrev pub seqnos_sha256 : ℕ
seqnos_sha256 = 0x40

abbrev pub seqno_uint64 : ℕ
seqno_uint64 = 0x60

abbrev pub next_seqno_uint64 : ℕ
next_seqno_uint64 = 0x68

abbrev pub magic64 : ℕ
magic64 = 0x70

abbrev pub no_macroblocks_uint32 : ℕ
no_macroblocks_uint32 = 0x78

abbrev pub reserved_blocks_uint32 : ℕ
reserved_blocks_uint32 = 0x7C

abbrev pub reserved_space1024 : ℕ
reserved_space1024 = 0x80

abbrev pub no_indices_uint32 : ℕ
no_indices_uint32 = 0x100

abbrev pub bitmap_offset : ℕ → ℕ
bitmap_offset mesobits = 256 + 4 <<< mesobits

-- "SSS3v0.1"
abbrev pub magic : List ℕ
magic = b'S' ∷ b'S' ∷ b'S' ∷ b'3' ∷ b'v' ∷ b'0' ∷ b'.' ∷ b'1' ∷ []

-- The sizes of a device: the bytes of a mesoblock, the bits of a slot, and `mmpm`.
pub record Sizes : Type 0 where
  pub mesoblk : ℕ
  pub mesobits : ℕ
  pub mmpm : ℕ

-- What an index block holds.
pub record Header : Type 0 where
  pub data_hash : List ℕ
  pub seqnos_hash : List ℕ
  pub seqno : ℕ
  pub next_seqno : ℕ
  pub no_macroblocks : ℕ
  pub reserved_macroblocks : ℕ
  pub no_indices : ℕ
  pub indices : List ℕ
  pub status : Bitmap

-- The two loops over the indices: the used ones, and zeroes behind them.
unfoldable pub write_indices : ℕ → ℕ → Header → List ℕ → List ℕ
write_indices zero i h buf = buf
write_indices (suc left) i h buf = write_indices left (i + 1) h (
    write_uint32_be buf (no_indices_uint32 + 4 * i)
      (if leb i h.no_indices then get_or h.indices (i - 1) 0 else 0))

module _ (sha256 : List ℕ → List ℕ) (s : Sizes) where
  -- The index block in the buffer, up to its hash.
  unfoldable pub fill_index : List ℕ → Header → List ℕ
  fill_index buf h =
      let b1 = poke buf datablocks_sha256 h.data_hash in
      let b2 = poke b1 seqnos_sha256 h.seqnos_hash in
      let b3 = write_uint64_be b2 seqno_uint64 h.seqno in
      let b4 = write_uint64_be b3 next_seqno_uint64 h.next_seqno in
      let b5 = poke b4 magic64 magic in
      let b6 = write_uint32_be b5 reserved_blocks_uint32 h.reserved_macroblocks in
      let b7 = write_uint32_be b6 no_macroblocks_uint32 h.no_macroblocks in
      let b8 = poke b7 reserved_space1024 (replicate 128 0) in
      let b9 = write_uint32_be b8 no_indices_uint32 h.no_indices in
      let b10 = write_indices s.mmpm 1 h b9 in Bitmap.write b10 (bitmap_offset s.mesobits) h.status

  -- The bytes that are hashed, and the buffer with the hash in front.
  abbrev pub hashed : List ℕ → List ℕ
  hashed buf = part buf 32 (s.mesoblk - 32)

  unfoldable pub encode : List ℕ → Header → List ℕ
  encode buf h = let filled = fill_index buf h in poke filled 0 (sha256 (hashed filled))

-- `memcmp` of two runs of bytes
abbrev pub same : List ℕ → List ℕ → Bool
same [] [] = true
same [] (y ∷ ys) = false
same (x ∷ xs) [] = false
same (x ∷ xs) (y ∷ ys) = x == y && same xs ys

-- How a scan ends: not our magic, a wrong hash, the end of the program, a write behind the array of
-- indices, or a macroblock that is ours.
pub data Scan : Type 0 where
  foreign bad_hash fatal out_of_bounds : Scan
  ours : Header → Scan

-- The loop that fills the array of indices.
unfoldable pub read_indices : ℕ → ℕ → List ℕ → List ℕ → List ℕ
read_indices zero i buf indices = indices
read_indices (suc left) i buf indices =
    read_indices left (i + 1) buf
      (set indices (i - 1) (read_uint32_be buf (no_indices_uint32 + 4 * i)))

-- The loop that looks at the unused indices.
unfoldable pub rest_zero : ℕ → ℕ → List ℕ → Bool
rest_zero zero i buf = true
rest_zero (suc left) i buf =
    let rest = rest_zero left (i + 1) buf in
    if read_uint32_be buf (no_indices_uint32 + 4 * i) == 0 then rest else false

module _ (sha256 : List ℕ → List ℕ) (s : Sizes) where
  -- The header in the buffer; `status` is the bitmap that is read into.
  abbrev pub header_of : Bitmap → List ℕ → ℕ → Header
  header_of status buf n = record {
    data_hash = part buf datablocks_sha256 32;
    seqnos_hash = part buf seqnos_sha256 32;
    seqno = read_uint64_be buf seqno_uint64;
    next_seqno = read_uint64_be buf next_seqno_uint64;
    no_macroblocks = read_uint32_be buf no_macroblocks_uint32;
    reserved_macroblocks = read_uint32_be buf reserved_blocks_uint32;
    no_indices = n;
    indices = read_indices n 1 buf (replicate s.mmpm 0);
    status = Bitmap.read status buf (bitmap_offset s.mesobits);
  }

  -- `blockio_dev_scan_header` of the decrypted block, if its number is the highest so far; of another
  -- one the hash of the numbers, the counts and the bitmap are not read.
  unfoldable pub decode : Bitmap → List ℕ → Scan
  decode status buf =
      let n = read_uint32_be buf no_indices_uint32 in
      if not (same magic (part buf magic64 8))
      then foreign
      else if not (same (part buf 0 32) (sha256 (hashed sha256 s buf)))
      then bad_hash
      else if not (same (replicate 128 0) (part buf reserved_space1024 128))
      then fatal
      else if read_uint64_be buf seqno_uint64 == 0
      then fatal
      else if leb (read_uint64_be buf next_seqno_uint64) (read_uint64_be buf seqno_uint64)
      then fatal
      else if ltb s.mmpm n
      then out_of_bounds
      else if rest_zero (s.mmpm - n) (n + 1) buf
      then ours (header_of status buf n)
      else fatal
