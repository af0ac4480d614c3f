-- ===== src/Blockio/Stored.antt =====
-- An index block that is stored is found by the scan, with all that it holds.
use native.Mathlib.Nat.{mod-eq_of_lt}
use scubed.Base.{
  ℕ, zero, suc, ◌+◌, ◌-◌, ◌*◌, ◌^◌, ◌≤◌, ◌<◌, ◌≡◌, ◌⊎◌, inl, inr, refl, sym, ◌∙◌, ap, List, [], ◌∷◌,
  arith, length, get_or, set, replicate, true, false, ◌==◌, ==→eq, eq→==, Bool-cases, if◌then◌else◌,
  leb, ltb, le→leb, leb-false, ltb-false, length-replicate, length-set, get_or-set_self,
  get_or-set_ne, get_or_ext, All, All-get_or, get_or-replicate, get_elem?, drop, some,
}
use scubed.Binio.{write_uint32_be, write_uint64_be, read_uint32_be, read_uint64_be}
use scubed.Binio.Memory.{poke}
use scubed.Binio.Part.{part, part-poke_apart}
use scubed.Binio.Words32.{
  bytes32, bytes64, words_bytes, length-words_bytes, write_words, write_words-poke,
  read_uint32-part, read_uint64-part,
}
use scubed.Bitmap.{Bitmap}
use scubed.Bitmap.Invariant.{IsValid}
use scubed.Bitmap.Disk.{write-poke, read-part}
use scubed.Blockio.Index.{
  Sizes, Header, magic, bitmap_offset, datablocks_sha256, seqnos_sha256, seqno_uint64,
  next_seqno_uint64, magic64, no_macroblocks_uint32, reserved_blocks_uint32, reserved_space1024,
  no_indices_uint32, write_indices, fill_index, hashed, encode, same, ours, read_indices, rest_zero,
  decode,
}
use scubed.Blockio.Layout.{written, Apart, length-written, part-nth}

-- The index words of the block from the place `i` on: zero behind the used ones.
abbrev pub index_words : ℕ → ℕ → Header → List ℕ
index_words zero i h = []
index_words (suc left) i h =
    (if leb i h.no_indices then get_or h.indices (i - 1) 0 else 0) ∷ index_words left (i + 1) h

length-index_words : (left i : ℕ) (h : Header) → length (index_words left i h) ≡ left
length-index_words zero i h = refl
length-index_words (suc left) i h = ap suc (length-index_words left (i + 1) h)

write_indices-words :
    (left i : ℕ) (h : Header) (buf : List ℕ)
    → write_indices left i h buf
      ≡ write_words buf (no_indices_uint32 + 4 * i) (index_words left i h)
unfolding write_indices
write_indices-words zero i h buf = refl
write_indices-words (suc left) i h buf =
    let w = if leb i h.no_indices then get_or h.indices (i - 1) 0 else 0 in
    let buf' = write_uint32_be buf (no_indices_uint32 + 4 * i) w in
    let next : no_indices_uint32 + 4 * (i + 1) ≡ no_indices_uint32 + 4 * i + 4 = omega arith in
    write_indices-words left (i + 1) h buf'
    ∙ ap (λ at. write_words buf' at (index_words left (i + 1) h)) next

index_word-used :
    (left i k : ℕ) (h : Header)
    → k < left
    → i + k ≤ h.no_indices
    → get_or (index_words left i h) k 0 ≡ get_or h.indices (i + k - 1) 0
index_word-used zero i k h lt le = absurd (omega arith)
index_word-used (suc left) i zero h lt le =
    let used : leb i h.no_indices ≡ true = le→leb _ _ (omega arith) in
    let here : i - 1 ≡ i + 0 - 1 = omega arith in rw (used) (ap (λ j. get_or h.indices j 0) here)
index_word-used (suc left) i (suc k) h lt le =
    let next : i + 1 + k - 1 ≡ i + suc k - 1 = omega arith in
    index_word-used left (i + 1) k h (omega arith) (omega arith)
    ∙ ap (λ j. get_or h.indices j 0) next

index_word-unused :
    (left i k : ℕ) (h : Header) → h.no_indices < i + k → get_or (index_words left i h) k 0 ≡ 0
index_word-unused zero i k h lt = refl
index_word-unused (suc left) i zero h lt =
    let unused : leb i h.no_indices ≡ false = leb-false _ _ (omega arith) in rw (unused) refl
index_word-unused (suc left) i (suc k) h lt = index_word-unused left (i + 1) k h (omega arith)

same_self : (xs : List ℕ) → same xs xs ≡ true
same_self [] = refl
same_self (x ∷ xs) = rw (eq→== x x refl) (same_self xs)

length-read_indices :
    (left i : ℕ) (buf xs : List ℕ) → length (read_indices left i buf xs) ≡ length xs
unfolding read_indices
length-read_indices zero i buf xs = refl
length-read_indices (suc left) i buf xs =
    length-read_indices left (i + 1) buf _ ∙ length-set xs (i - 1) _

-- The array of indices, outside of what the loop fills and inside.
read_indices_outside :
    (left i : ℕ) (buf xs : List ℕ) (k : ℕ)
    → 1 ≤ i
    → (k + 1 < i) ⊎ (i + left ≤ k + 1)
    → get_or (read_indices left i buf xs) k 0 ≡ get_or xs k 0
unfolding read_indices
read_indices_outside zero i buf xs k one away = refl
read_indices_outside (suc left) i buf xs k one away =
    read_indices_outside left (i + 1) buf _ k (omega arith) (ground arith)
    ∙ get_or-set_ne xs (i - 1) k _ 0 (omega arith)

read_indices_inside :
    (left i : ℕ) (buf xs : List ℕ) (k : ℕ)
    → 1 ≤ i
    → i + left ≤ length xs + 1
    → i ≤ k + 1
    → k + 1 < i + left
    → get_or (read_indices left i buf xs) k 0 ≡ read_uint32_be buf (no_indices_uint32 + 4 * (k + 1))
unfolding read_indices
read_indices_inside zero i buf xs k one fits lo hi = absurd (omega arith)
read_indices_inside (suc left) i buf xs k one fits lo hi =
    let w = read_uint32_be buf (no_indices_uint32 + 4 * i) in
    let xs' = set xs (i - 1) w in
    elim (Bool-cases (k + 1 == i)) [
      | inl here ↦
          let e = ==→eq (k + 1) i here in
          let at : i - 1 ≡ k = omega arith in
          read_indices_outside left (i + 1) buf xs' k (omega arith) (inl (omega arith))
          ∙ ap (λ j. get_or (set xs j w) k 0) at
          ∙ get_or-set_self xs k w 0 (omega arith)
          ∙ ap (λ j. read_uint32_be buf (no_indices_uint32 + 4 * j)) (sym e)
      | inr later ↦
          read_indices_inside left (i + 1) buf xs' k (omega arith)
            (omega (arith, length-set xs (i - 1) w)) (ground arith) (omega arith)
    ]

rest_zero_lem :
    (left i : ℕ) (buf : List ℕ)
    → ((k : ℕ) → i ≤ k → k < i + left → read_uint32_be buf (no_indices_uint32 + 4 * k) ≡ 0)
    → rest_zero left i buf ≡ true
unfolding rest_zero
rest_zero_lem zero i buf h = refl
rest_zero_lem (suc left) i buf h =
    rw (h i (omega arith) (omega arith))
      (rest_zero_lem left (i + 1) buf (λ k lo hi. h k (omega arith) (omega arith)))

positive : (n : ℕ) → 0 < n → (n == 0) ≡ false
positive n h = ground arith

-- A header that fits a device of these sizes.
pub record Fitting (s : Sizes) (h : Header) : Type 0 where
  pub slots : s.mmpm + 1 ≡ 2 ^ s.mesobits
  pub few : s.mmpm < 2 ^ 32
  pub filled : bitmap_offset s.mesobits + 4 * length h.status.bits ≡ s.mesoblk
  pub data_hash : length h.data_hash ≡ 32
  pub seqnos_hash : length h.seqnos_hash ≡ 32
  pub some_seqno : 0 < h.seqno
  pub later : h.seqno < h.next_seqno
  pub next_seqno : h.next_seqno < 2 ^ 64
  pub no_macroblocks : h.no_macroblocks < 2 ^ 32
  pub reserved : h.reserved_macroblocks < 2 ^ 32
  pub no_indices : h.no_indices ≤ s.mmpm
  pub indices : All (λ w. w < 2 ^ 32) h.indices
  pub status : IsValid h.status

module _ (sha256 : List ℕ → List ℕ) (digest : (x : List ℕ) → length (sha256 x) ≡ 32) (s : Sizes)
    (h : Header) (fit : Fitting s h) (buf : List ℕ) (size : length buf ≡ s.mesoblk) where
  abbrev idx : List ℕ
  idx = index_words s.mmpm 1 h

  abbrev offset : ℕ
  offset = bitmap_offset s.mesobits

  -- The writes behind the hash of the data, up to the hash of the block.
  abbrev behind : List (ℕ × List ℕ) → List (ℕ × List ℕ)
  behind end =
      (no_indices_uint32, bytes32 h.no_indices)
      ∷ (0x104, words_bytes idx)
      ∷ (offset, words_bytes h.status.bits)
      ∷ end

  abbrev fields : List (ℕ × List ℕ) → List (ℕ × List ℕ)
  fields end =
      (datablocks_sha256, h.data_hash)
      ∷ (seqnos_sha256, h.seqnos_hash)
      ∷ (seqno_uint64, bytes64 h.seqno)
      ∷ (next_seqno_uint64, bytes64 h.next_seqno)
      ∷ (magic64, magic)
      ∷ (reserved_blocks_uint32, bytes32 h.reserved_macroblocks)
      ∷ (no_macroblocks_uint32, bytes32 h.no_macroblocks)
      ∷ (reserved_space1024, replicate 128 0)
      ∷ behind end

  abbrev filled : List ℕ
  filled = fill_index sha256 s buf h

  fill_index-written : filled ≡ written buf (fields [])
  unfolding fill_index write_uint32_be write_uint64_be
  fill_index-written =
      write-poke _ offset h.status fit.status
      ∙ ap (λ x. poke x offset (words_bytes h.status.bits))
          (write_indices-words s.mmpm 1 h _ ∙ write_words-poke _ 0x104 idx)

  abbrev hash : List ℕ
  hash = sha256 (hashed sha256 s filled)

  abbrev stored : List ℕ
  stored = encode sha256 s buf h

  encode-written : stored ≡ written buf (fields ((0, hash) ∷ []))
  unfolding encode
  encode-written = ap (λ x. poke x 0 hash) fill_index-written

  idx_size : length (words_bytes idx) ≡ 4 * s.mmpm
  idx_size = length-words_bytes idx ∙ ap (λ (k : ℕ). 4 * k) (length-index_words s.mmpm 1 h)

  at_bitmap : offset ≡ 260 + 4 * s.mmpm
  at_bitmap = omega (arith, fit.slots)

  abbrev last : List (ℕ × List ℕ)
  last = (0, hash) ∷ []

  -- A place behind the hash of the block is apart from it.
  Apart-last : (at n : ℕ) → 32 ≤ at → Apart at n last
  Apart-last at n h = (inr (omega (arith, digest (hashed sha256 s filled))), tt)

  Apart-behind : (at n : ℕ) → 32 ≤ at → at + n ≤ 256 → Apart at n (behind last)
  Apart-behind at n lo hi =
      (inl hi, (inl (omega arith), (inl (omega (arith, at_bitmap)), Apart-last at n lo)))

  roomy : 260 ≤ length buf
  roomy = omega (arith, size, fit.filled, at_bitmap)

  -- The number `k` of the writes.
  field :
      (k at n : ℕ) (bs : List ℕ)
      → get_elem? (fields last) k ≡ some (at, bs)
      → length bs ≡ n
      → at + n ≤ length buf
      → Apart at n (drop (suc k) (fields last))
      → part stored at n ≡ bs
  field k at n bs e wide inside a =
      ap (λ x. part x at n) encode-written ∙ part-nth k buf (fields last) at n bs e wide inside a

  data_hash_at : part stored datablocks_sha256 32 ≡ h.data_hash
  data_hash_at =
      field 0 datablocks_sha256 32 h.data_hash refl fit.data_hash (omega (arith, roomy)) (
        inl (omega arith),
        (
          inl (omega arith),
          (
            inl (omega arith),
            (
              inl (omega arith),
              (
                inl (omega arith),
                (
                  inl (omega arith),
                  (
                    inl (omega arith),
                    (Apart-behind datablocks_sha256 32 (omega arith) (omega arith)),
                  ),
                ),
              ),
            ),
          ),
        ),
      )

  seqnos_hash_at : part stored seqnos_sha256 32 ≡ h.seqnos_hash
  seqnos_hash_at =
      field 1 seqnos_sha256 32 h.seqnos_hash refl fit.seqnos_hash (omega (arith, roomy)) (
        inl (omega arith),
        (
          inl (omega arith),
          (
            inl (omega arith),
            (
              inl (omega arith),
              (
                inl (omega arith),
                (inl (omega arith), (Apart-behind seqnos_sha256 32 (omega arith) (omega arith))),
              ),
            ),
          ),
        ),
      )

  seqno_at : part stored seqno_uint64 8 ≡ (bytes64 h.seqno)
  seqno_at = field 2 seqno_uint64 8 (bytes64 h.seqno) refl refl (omega (arith, roomy)) (
    inl (omega arith),
    (
      inl (omega arith),
      (
        inl (omega arith),
        (
          inl (omega arith),
          (inl (omega arith), (Apart-behind seqno_uint64 8 (omega arith) (omega arith))),
        ),
      ),
    ),
  )

  next_seqno_at : part stored next_seqno_uint64 8 ≡ (bytes64 h.next_seqno)
  next_seqno_at =
      field 3 next_seqno_uint64 8 (bytes64 h.next_seqno) refl refl (omega (arith, roomy)) (
        inl (omega arith),
        (
          inl (omega arith),
          (
            inl (omega arith),
            (inl (omega arith), (Apart-behind next_seqno_uint64 8 (omega arith) (omega arith))),
          ),
        ),
      )

  magic_at : part stored magic64 8 ≡ magic
  magic_at = field 4 magic64 8 magic refl refl (omega (arith, roomy)) (
    inl (omega arith),
    (inl (omega arith), (inl (omega arith), (Apart-behind magic64 8 (omega arith) (omega arith)))),
  )

  reserved_at : part stored reserved_blocks_uint32 4 ≡ (bytes32 h.reserved_macroblocks)
  reserved_at =
      field 5 reserved_blocks_uint32 4 (bytes32 h.reserved_macroblocks) refl refl
        (omega (arith, roomy))
        (
          inr (omega arith),
          (inl (omega arith), (Apart-behind reserved_blocks_uint32 4 (omega arith) (omega arith))),
        )

  no_macroblocks_at : part stored no_macroblocks_uint32 4 ≡ (bytes32 h.no_macroblocks)
  no_macroblocks_at =
      field 6 no_macroblocks_uint32 4 (bytes32 h.no_macroblocks) refl refl (omega (arith, roomy))
        (inl (omega arith), (Apart-behind no_macroblocks_uint32 4 (omega arith) (omega arith)))

  space_at : part stored reserved_space1024 128 ≡ (replicate 128 0)
  space_at =
      field 7 reserved_space1024 128 (replicate 128 0) refl refl (omega (arith, roomy))
        (Apart-behind reserved_space1024 128 (omega arith) (omega arith))

  no_indices_at : part stored no_indices_uint32 4 ≡ bytes32 h.no_indices
  no_indices_at =
      field 8 no_indices_uint32 4 (bytes32 h.no_indices) refl refl (omega (arith, roomy)) (
        inl (omega arith),
        (inl (omega (arith, at_bitmap)), Apart-last no_indices_uint32 4 (omega arith)),
      )

  indices_at : part stored 0x104 (4 * length idx) ≡ words_bytes idx
  indices_at =
      field 9 0x104 (4 * length idx) (words_bytes idx) refl (length-words_bytes idx)
        (omega (arith, size, fit.filled, at_bitmap, length-index_words s.mmpm 1 h))
        (
          inl (omega (arith, at_bitmap, length-index_words s.mmpm 1 h)),
          Apart-last 0x104 (4 * length idx) (omega arith),
        )

  status_at : part stored offset (4 * length h.status.bits) ≡ words_bytes h.status.bits
  status_at =
      field 10 offset (4 * length h.status.bits) (words_bytes h.status.bits) refl
        (length-words_bytes h.status.bits) (omega (arith, size, fit.filled))
        (Apart-last offset (4 * length h.status.bits) (omega (arith, at_bitmap)))

  hash_at : part stored 0 32 ≡ hash
  hash_at = field 11 0 32 hash refl (digest (hashed sha256 s filled)) (omega (arith, roomy)) tt

  -- The hash covers what stands behind it.
  same_hashed : hashed sha256 s stored ≡ hashed sha256 s filled
  unfolding encode
  same_hashed =
      part-poke_apart filled 0 hash 32 (s.mesoblk - 32)
        (omega (
          arith,
          ap length fill_index-written,
          length-written buf (fields []),
          size,
          fit.filled,
          at_bitmap,
        ))
        (inr (omega (arith, digest (hashed sha256 s filled))))

  read32 : (at w : ℕ) → w < 2 ^ 32 → part stored at 4 ≡ bytes32 w → read_uint32_be stored at ≡ w
  read32 at w lt e =
      let start : at ≡ at + 4 * 0 = omega arith in
      ap (read_uint32_be stored) start
      ∙ read_uint32-part stored at 0 (w ∷ []) e (omega arith)
      ∙ mod-eq_of_lt lt

  read64 : (at w : ℕ) → w < 2 ^ 64 → part stored at 8 ≡ bytes64 w → read_uint64_be stored at ≡ w
  read64 at w lt e = read_uint64-part stored at w e ∙ mod-eq_of_lt lt

  small_word : (left i k : ℕ) → get_or (index_words left i h) k 0 < 2 ^ 32
  small_word zero i k = omega arith
  small_word (suc left) i zero = elim (Bool-cases (leb i h.no_indices)) [
    | inl used ↦
        rw (used) (All-get_or (λ w. w < 2 ^ 32) h.indices (i - 1) 0 (omega arith) fit.indices)
    | inr unused ↦ rw (unused) (omega arith)
  ]
  small_word (suc left) i (suc k) = small_word left (i + 1) k

  -- The number at the place `k + 1`, counted from `NO_INDICES_UINT32`.
  read_index :
      (k : ℕ)
      → k < s.mmpm
      → read_uint32_be stored (no_indices_uint32 + 4 * (k + 1)) ≡ get_or idx k 0
  read_index k lt =
      let at : no_indices_uint32 + 4 * (k + 1) ≡ 0x104 + 4 * k = omega arith in
      ap (read_uint32_be stored) at
      ∙ read_uint32-part stored 0x104 k idx indices_at
          (omega (arith, length-index_words s.mmpm 1 h))
      ∙ mod-eq_of_lt (small_word s.mmpm 1 k)

  indices_read : read_indices h.no_indices 1 stored (replicate s.mmpm 0) ≡ idx
  indices_read =
      let wide = length-read_indices h.no_indices 1 stored (replicate s.mmpm 0) in
      let zeros = length-replicate {A = ℕ} s.mmpm 0 in
      get_or_ext 0 _ _ (wide ∙ zeros ∙ sym (length-index_words s.mmpm 1 h)) (λ k lt.
        elim (Bool-cases (ltb k h.no_indices)) [
          | inl used ↦
              read_indices_inside h.no_indices 1 stored (replicate s.mmpm 0) k (omega arith)
                (omega (arith, zeros, fit.no_indices)) (omega arith) (ground arith)
              ∙ read_index k (omega (arith, wide, zeros))
          | inr unused ↦
              read_indices_outside h.no_indices 1 stored (replicate s.mmpm 0) k (omega arith)
                (inr (ground arith))
              ∙ get_or-replicate s.mmpm k 0
              ∙ sym (index_word-unused s.mmpm 1 k h (ground arith))
        ])

  rest_read : rest_zero (s.mmpm - h.no_indices) (h.no_indices + 1) stored ≡ true
  rest_read = rest_zero_lem (s.mmpm - h.no_indices) (h.no_indices + 1) stored (λ k lo hi.
      let at : k ≡ k - 1 + 1 = omega arith in
      ap (λ j. read_uint32_be stored (no_indices_uint32 + 4 * j)) at
      ∙ read_index (k - 1) (omega (arith, fit.no_indices))
      ∙ index_word-unused s.mmpm 1 (k - 1) h (omega arith))

  -- What is read back: the header, with zeroes for the unused indices.
  abbrev pub cleaned : Header
  cleaned = record h { indices = idx }

  module _ (status : Bitmap) (bits : status.no_bits ≡ h.status.no_bits)
      (words : length status.bits ≡ length h.status.bits) where
    -- The scan of an index block that was filled for a device gives its header back, with zeroes for
    -- the unused indices, whatever was in the buffer and in the bitmap of the same size that is read
    -- into, if the header fits the sizes of the device and SHA-256 gives 32 bytes.
    pub decode-encode : decode sha256 s status stored ≡ ours cleaned
    unfolding decode
    decode-encode =
        let n =
          read32 no_indices_uint32 h.no_indices (omega (arith, fit.no_indices, fit.few))
            no_indices_at in
        let q = read64 seqno_uint64 h.seqno (omega (arith, fit.later, fit.next_seqno)) seqno_at in
        let r = read64 next_seqno_uint64 h.next_seqno fit.next_seqno next_seqno_at in
        let is_magic : same magic (part stored magic64 8) ≡ true =
          ap (same magic) magic_at ∙ same_self magic in
        let is_hash : same (part stored 0 32) (sha256 (hashed sha256 s stored)) ≡ true =
          ap (λ x. same (part stored 0 32) (sha256 x)) same_hashed
          ∙ ap (λ x. same x hash) hash_at
          ∙ same_self hash in
        let is_space : same (replicate 128 0) (part stored reserved_space1024 128) ≡ true =
          ap (same (replicate 128 0)) space_at ∙ same_self (replicate 128 0) in
        let some_seqno : (h.seqno == 0) ≡ false = positive h.seqno fit.some_seqno in
        let later : leb h.next_seqno h.seqno ≡ false = leb-false _ _ fit.later in
        let in_bounds : ltb s.mmpm h.no_indices ≡ false = ltb-false _ _ fit.no_indices in
        rw (is_magic, is_hash, is_space, n, q, r, some_seqno, later, in_bounds, rest_read)
          (rw
            (
              data_hash_at,
              seqnos_hash_at,
              read32 no_macroblocks_uint32 h.no_macroblocks fit.no_macroblocks no_macroblocks_at,
              read32 reserved_blocks_uint32 h.reserved_macroblocks fit.reserved reserved_at,
              indices_read,
              read-part stored offset h.status status fit.status bits words status_at,
            )
            refl)
