-- ===== src/Binio/Words32.antt =====
-- Runs of 32-bit numbers in big-endian order: what the writers store, as lists of bytes.
use scubed.Base.{
  ℕ, zero, suc, ◌+◌, ◌*◌, ◌<◌, ◌≡◌, refl, sym, ◌∙◌, ap, List, [], ◌∷◌, ◌++◌, arith, length, get_or,
  set, u32, u64,
}
use scubed.Binio.{byte, write_uint32_be, read_uint32_be, read_uint64_be}
use scubed.Binio.Memory.{poke}
use scubed.Binio.Part.{part, get_or-part}
use scubed.Binio.RoundTrip.{join32_bytes, join64_bytes}

abbrev pub bytes32 : ℕ → List ℕ
bytes32 s = byte s 24 ∷ byte s 16 ∷ byte s 8 ∷ byte s 0 ∷ []

abbrev pub bytes64 : ℕ → List ℕ
bytes64 s =
    byte s 56 ∷ byte s 48 ∷ byte s 40 ∷ byte s 32 ∷ byte s 24 ∷ byte s 16 ∷ byte s 8 ∷ byte s 0 ∷ []

abbrev pub words_bytes : List ℕ → List ℕ
words_bytes [] = []
words_bytes (w ∷ ws) = bytes32 w ++ words_bytes ws

pub length-words_bytes : (ws : List ℕ) → length (words_bytes ws) ≡ 4 * length ws
length-words_bytes [] = refl
length-words_bytes (w ∷ ws) = omega (arith, length-words_bytes ws)

-- Numbers written one behind the other.
abbrev pub write_words : List ℕ → ℕ → List ℕ → List ℕ
write_words buf at [] = buf
write_words buf at (w ∷ ws) = write_words (write_uint32_be buf at w) (at + 4) ws

pub poke-append :
    (buf : List ℕ) (at : ℕ) (xs ys : List ℕ)
    → poke buf at (xs ++ ys) ≡ poke (poke buf at xs) (at + length xs) ys
poke-append buf at [] ys = let start : at ≡ at + 0 = omega arith in ap (λ k. poke buf k ys) start
poke-append buf at (x ∷ xs) ys =
    let next : at + 1 + length xs ≡ at + suc (length xs) = omega arith in
    poke-append (set buf at x) (at + 1) xs ys
    ∙ ap (λ k. poke (poke (set buf at x) (at + 1) xs) k ys) next

pub write_words-poke :
    (buf : List ℕ) (at : ℕ) (ws : List ℕ) → write_words buf at ws ≡ poke buf at (words_bytes ws)
unfolding write_uint32_be
write_words-poke buf at [] = refl
write_words-poke buf at (w ∷ ws) =
    write_words-poke (poke buf at (bytes32 w)) (at + 4) ws
    ∙ sym (poke-append buf at (bytes32 w) (words_bytes ws))

pub get_or-words_bytes :
    (ws : List ℕ) (i j : ℕ)
    → i < length ws
    → j < 4
    → get_or (words_bytes ws) (4 * i + j) 0 ≡ get_or (bytes32 (get_or ws i 0)) j 0
get_or-words_bytes [] i j h lt = absurd (omega arith)
get_or-words_bytes (w ∷ ws) zero j h lt =
    let start : 4 * 0 + j ≡ j = omega arith in
    ap (λ k. get_or (words_bytes (w ∷ ws)) k 0) start ∙ first j lt
  where
    first : (j : ℕ) → j < 4 → get_or (words_bytes (w ∷ ws)) j 0 ≡ get_or (bytes32 w) j 0
    first zero lt = refl
    first (suc zero) lt = refl
    first (suc (suc zero)) lt = refl
    first (suc (suc (suc zero))) lt = refl
    first (suc (suc (suc (suc j)))) lt = absurd (omega arith)
get_or-words_bytes (w ∷ ws) (suc i) j h lt =
    let next : 4 * suc i + j ≡ suc (suc (suc (suc (4 * i + j)))) = omega arith in
    ap (λ k. get_or (words_bytes (w ∷ ws)) k 0) next ∙ get_or-words_bytes ws i j (omega arith) lt

-- The readers give what the bytes stand for.
pub read_uint32-bytes :
    (buf : List ℕ) (at s : ℕ)
    → ((j : ℕ) → j < 4 → get_or buf (at + j) 0 ≡ get_or (bytes32 s) j 0)
    → read_uint32_be buf at ≡ u32 s
unfolding read_uint32_be
read_uint32-bytes buf at s h =
    rw (h 0 (omega arith), h 1 (omega arith), h 2 (omega arith), h 3 (omega arith)) (join32_bytes s)

pub read_uint64-bytes :
    (buf : List ℕ) (at s : ℕ)
    → ((j : ℕ) → j < 8 → get_or buf (at + j) 0 ≡ get_or (bytes64 s) j 0)
    → read_uint64_be buf at ≡ u64 s
unfolding read_uint64_be
read_uint64-bytes buf at s h =
    rw
      (
        h 0 (omega arith),
        h 1 (omega arith),
        h 2 (omega arith),
        h 3 (omega arith),
        h 4 (omega arith),
        h 5 (omega arith),
        h 6 (omega arith),
        h 7 (omega arith),
      )
      (join64_bytes s)

-- A number within a part of the buffer that holds a run of them.
pub read_uint32-part :
    (buf : List ℕ) (at i : ℕ) (ws : List ℕ)
    → part buf at (4 * length ws) ≡ words_bytes ws
    → i < length ws
    → read_uint32_be buf (at + 4 * i) ≡ u32 (get_or ws i 0)
read_uint32-part buf at i ws e h = read_uint32-bytes buf (at + 4 * i) (get_or ws i 0) (λ j lt.
    let here : at + (4 * i + j) ≡ at + 4 * i + j = omega arith in
    sym (get_or-part buf at (4 * length ws) (4 * i + j) (at + 4 * i + j) (omega arith) here)
    ∙ ap (λ xs. get_or xs (4 * i + j) 0) e
    ∙ get_or-words_bytes ws i j h lt)

pub read_uint64-part :
    (buf : List ℕ) (at s : ℕ) → part buf at 8 ≡ bytes64 s → read_uint64_be buf at ≡ u64 s
read_uint64-part buf at s e =
    read_uint64-bytes buf at s
      (λ j lt. sym (get_or-part buf at 8 j (at + j) lt refl) ∙ ap (λ xs. get_or xs j 0) e)
