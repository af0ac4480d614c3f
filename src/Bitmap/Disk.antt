-- ===== src/Bitmap/Disk.antt =====
-- `bitmap_write` and `bitmap_read`: a bitmap on disk.
use native.Mathlib.Nat.{mod-eq_of_lt}
use scubed.Base.{
  ℕ, zero, suc, ◌+◌, ◌*◌, ◌^◌, ◌≤◌, ◌<◌, ◌≡◌, refl, sym, ◌∙◌, ap, ap₂, List, [], ◌∷◌, arith, length,
  get_or, set, drop, u32, length-set, get_or-set_self, get_or-set_ne, get_or_ext, All-get_or, ◌==◌,
  ==→eq, Bool-cases, inl, inr,
}
use scubed.Bits.Count.{ones_below}
use scubed.Binio.{read_uint32_be, write_uint32_be}
use scubed.Binio.Memory.{poke}
use scubed.Binio.Part.{part, part-poke}
use scubed.Binio.Words32.{
  words_bytes, length-words_bytes, write_words, write_words-poke, read_uint32-part,
}
use scubed.Bitmap.{Bitmap, no_words, read, read_loop, write, write_loop}
use scubed.Bitmap.Words.{Words, total}
use scubed.Bitmap.Invariant.{IsValid, total-lt}

drop-cons : (xs : List ℕ) (i : ℕ) → i < length xs → drop i xs ≡ get_or xs i 0 ∷ drop (suc i) xs
drop-cons [] i h = absurd (omega arith)
drop-cons (x ∷ xs) zero h = refl
drop-cons (x ∷ xs) (suc i) h = drop-cons xs i (omega arith)

drop_all : (xs : List ℕ) (i : ℕ) → length xs ≤ i → drop i xs ≡ []
drop_all [] zero h = refl
drop_all [] (suc i) h = refl
drop_all (x ∷ xs) zero h = absurd (omega arith)
drop_all (x ∷ xs) (suc i) h = drop_all xs i (omega arith)

write_loop-words :
    (left i : ℕ) (buf : List ℕ) (at : ℕ) (bits : List ℕ)
    → i + left ≡ length bits
    → write_loop left i buf at bits ≡ write_words buf at (drop i bits)
unfolding write_loop
write_loop-words zero i buf at bits e =
    sym (ap (write_words buf at) (drop_all bits i (omega arith)))
write_loop-words (suc left) i buf at bits e =
    let next : i + 1 ≡ suc i = omega arith in
    let buf' = write_uint32_be buf at (get_or bits i 0) in
    write_loop-words left (i + 1) buf' (at + 4) bits (omega arith)
    ∙ ap (λ k. write_words buf' (at + 4) (drop k bits)) next
    ∙ sym (ap (write_words buf at) (drop-cons bits i (omega arith)))

-- The bytes that `bitmap_write` stores.
pub write-poke :
    (buf : List ℕ) (at : ℕ) (b : Bitmap)
    → IsValid b
    → write buf at b ≡ poke buf at (words_bytes b.bits)
unfolding write
write-poke buf at b v =
    write_loop-words (no_words b.no_bits) 0 buf at b.bits (omega (arith, v.sized))
    ∙ write_words-poke buf at b.bits

module _ (buf : List ℕ) (at : ℕ) (ws : List ℕ) (small : Words ws) (few : total ws < 2 ^ 32)
    (stored : part buf at (4 * length ws) ≡ words_bytes ws) where
  word-eq : (i : ℕ) → i < length ws → read_uint32_be buf (at + 4 * i) ≡ get_or ws i 0
  word-eq i h =
      read_uint32-part buf at i ws stored h
      ∙ mod-eq_of_lt (All-get_or (λ w. w < 2 ^ 32) ws i 0 (omega arith) small)

  -- The loop of `bitmap_read`, when the first `i` words have been read.
  read_loop_lem :
      (left i p : ℕ) (bits : List ℕ) (n : ℕ)
      → i + left ≡ length ws
      → p ≡ at + 4 * i
      → length bits ≡ length ws
      → ((k : ℕ) → k < i → get_or bits k 0 ≡ get_or ws k 0)
      → n + total (drop i ws) ≡ total ws
      → read_loop left i buf p bits n ≡ (ws, total ws)
  unfolding read_loop
  read_loop_lem zero i p bits n e ep size done sum =
      let none_left : total (drop i ws) ≡ 0 = ap total (drop_all ws i (omega arith)) in
      ap₂ (λ xs m. (xs, m)) (get_or_ext 0 bits ws size (λ k h. done k (omega arith))) (omega arith)
  read_loop_lem (suc left) i p bits n e ep size done sum =
      let h : i < length ws = omega arith in
      let is = ap (read_uint32_be buf) ep ∙ word-eq i h in
      let rest : total (drop i ws) ≡ ones_below 32 (get_or ws i 0) + total (drop (suc i) ws) =
        ap total (drop-cons ws i h) in
      let next : total (drop (i + 1) ws) ≡ total (drop (suc i) ws) =
        ap (λ k. total (drop k ws)) (one_more i) in
      read_loop_lem left (i + 1) (p + 4) (set bits i (read_uint32_be buf p))
        (u32 (n + ones_below 32 (read_uint32_be buf p))) (omega arith) (omega arith)
        (length-set bits i _ ∙ size)
        (λ k lt. elim (Bool-cases (k == i)) [
          | inl same ↦
              let s = ==→eq k i same in
              ap (λ j. get_or (set bits i (read_uint32_be buf p)) j 0) s
              ∙ get_or-set_self bits i _ 0 (omega arith)
              ∙ is
              ∙ ap (λ j. get_or ws j 0) (sym s)
          | inr other ↦ get_or-set_ne bits i k _ 0 (ground arith) ∙ done k (ground arith)
        ])
        (omega (arith, ap (ones_below 32) is, rest, next))
    where
      one_more : (i : ℕ) → i + 1 ≡ suc i
      one_more i = omega arith

-- Reading what a valid bitmap was written as, into a bitmap of the same size.
pub read-part :
    (buf : List ℕ) (at : ℕ) (b b0 : Bitmap)
    → IsValid b
    → b0.no_bits ≡ b.no_bits
    → length b0.bits ≡ length b.bits
    → part buf at (4 * length b.bits) ≡ words_bytes b.bits
    → read b0 buf at ≡ b
unfolding read
read-part buf at b b0 v same size stored =
    let loop =
      read_loop_lem buf at b.bits v.words (omega (arith, total-lt v)) stored (no_words b0.no_bits) 0
        at b0.bits 0 (omega (arith, ap no_words same, v.sized)) (omega arith) size
        (λ k h. absurd (omega arith)) (omega arith) in
    ap₂ (λ (k : ℕ) (r : List ℕ × ℕ). record { no_bits = k; no_set = r.1; bits = r.0 }) same loop
    ∙ ap (λ n. record b { no_set = n }) (sym v.counted)

-- A valid bitmap that `bitmap_write` stores is what `bitmap_read` gives back, whatever the bitmap of
-- the same size held that it is read into.
pub read-write :
    (buf : List ℕ) (at : ℕ) (b b0 : Bitmap)
    → IsValid b
    → b0.no_bits ≡ b.no_bits
    → length b0.bits ≡ length b.bits
    → at + 4 * length b.bits ≤ length buf
    → read b0 (write buf at b) at ≡ b
read-write buf at b b0 v same size fits =
    let wide = length-words_bytes b.bits in
    ap (λ x. read b0 x at) (write-poke buf at b v)
    ∙ read-part (poke buf at (words_bytes b.bits)) at b b0 v same size (
        ap (part (poke buf at (words_bytes b.bits)) at) (sym wide)
        ∙ part-poke buf (words_bytes b.bits) at (omega (arith, wide)))
