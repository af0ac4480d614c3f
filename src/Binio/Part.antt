-- ===== src/Binio/Part.antt =====
-- Parts of a buffer.
use scubed.Base.{
  ℕ, zero, suc, ◌+◌, ◌-◌, ◌≤◌, ◌<◌, ◌≡◌, refl, sym, ◌∙◌, ap, List, [], ◌∷◌, arith, length, get_or,
  take, drop, length-take, length-drop, get_or_ext, ◌⊎◌, inl, inr,
}
use scubed.Binio.Memory.{poke, length-poke, get_or-poke, get_or-poke_before, get_or-poke_behind}

-- `size` bytes from `at` on
abbrev pub part : List ℕ → ℕ → ℕ → List ℕ
part xs at size = take size (drop at xs)

pub get_or-take : (n : ℕ) (xs : List ℕ) (i : ℕ) → i < n → get_or (take n xs) i 0 ≡ get_or xs i 0
get_or-take zero xs i h = absurd (omega arith)
get_or-take (suc n) [] i h = refl
get_or-take (suc n) (x ∷ xs) zero h = refl
get_or-take (suc n) (x ∷ xs) (suc i) h = get_or-take n xs i (omega arith)

pub get_or-drop : (n : ℕ) (xs : List ℕ) (i : ℕ) → get_or (drop n xs) i 0 ≡ get_or xs (n + i) 0
get_or-drop zero xs i = ap (λ k. get_or xs k 0) (plain i)
  where
    plain : (i : ℕ) → i ≡ 0 + i
    plain i = omega arith
get_or-drop (suc n) [] i = refl
get_or-drop (suc n) (x ∷ xs) i = get_or-drop n xs i ∙ ap (λ k. get_or (x ∷ xs) k 0) (next n i)
  where
    next : (n i : ℕ) → suc (n + i) ≡ suc n + i
    next n i = omega arith

pub length-part :
    (xs : List ℕ) (at size : ℕ) → at + size ≤ length xs → length (part xs at size) ≡ size
length-part xs at size h = omega (arith, length-take size (drop at xs), length-drop at xs)

pub get_or-part :
    (xs : List ℕ) (at size i j : ℕ)
    → i < size
    → at + i ≡ j
    → get_or (part xs at size) i 0 ≡ get_or xs j 0
get_or-part xs at size i j h e =
    get_or-take size (drop at xs) i h ∙ get_or-drop at xs i ∙ ap (λ k. get_or xs k 0) e

-- A stored byte, by its place in the buffer.
pub get_or-poke_at :
    (buf : List ℕ) (at : ℕ) (bs : List ℕ) (j : ℕ)
    → at + length bs ≤ length buf
    → at ≤ j
    → j < at + length bs
    → get_or (poke buf at bs) j 0 ≡ get_or bs (j - at) 0
get_or-poke_at buf at bs j h le lt =
    let place : j ≡ at + (j - at) = omega arith in
    ap (λ k. get_or (poke buf at bs) k 0) place ∙ get_or-poke buf at bs (j - at) h (omega arith)

-- The stored bytes are read back.
pub part-poke :
    (old input : List ℕ) (muoff : ℕ)
    → muoff + length input ≤ length old
    → part (poke old muoff input) muoff (length input) ≡ input
part-poke old input muoff h =
    let wide =
      length-part (poke old muoff input) muoff (length input)
        (omega (arith, length-poke old muoff input)) in
    get_or_ext 0 _ _ wide (λ i lt.
      get_or-part (poke old muoff input) muoff (length input) i (muoff + i) (omega (arith, wide))
        refl
      ∙ get_or-poke old muoff input i h (omega (arith, wide)))

pub part-poke_apart :
    (buf : List ℕ) (at : ℕ) (bs : List ℕ) (from size : ℕ)
    → from + size ≤ length buf
    → (from + size ≤ at) ⊎ (at + length bs ≤ from)
    → part (poke buf at bs) from size ≡ part buf from size
part-poke_apart buf at bs from size h apart =
    let wide = length-part (poke buf at bs) from size (omega (arith, length-poke buf at bs)) in
    get_or_ext 0 _ _ (wide ∙ sym (length-part buf from size h)) (λ i lt.
      let small : i < size = omega (arith, wide) in
      get_or-part (poke buf at bs) from size i (from + i) small refl
      ∙ elim apart [
        | inl before ↦ get_or-poke_before buf at bs (from + i) (omega arith)
        | inr behind ↦ get_or-poke_behind buf at bs (from + i) (omega arith)
      ]
      ∙ sym (get_or-part buf from size i (from + i) small refl))

-- Buffers with the same bytes there have the same part.
pub part_ext :
    (xs ys : List ℕ) (from size : ℕ)
    → from + size ≤ length xs
    → from + size ≤ length ys
    → ((j : ℕ) → from ≤ j → j < from + size → get_or xs j 0 ≡ get_or ys j 0)
    → part xs from size ≡ part ys from size
part_ext xs ys from size hx hy h =
    let wide = length-part xs from size hx in
    get_or_ext 0 _ _ (wide ∙ sym (length-part ys from size hy)) (λ i lt.
      let small : i < size = omega (arith, wide) in
      get_or-part xs from size i (from + i) small refl
      ∙ h (from + i) (omega arith) (omega arith)
      ∙ sym (get_or-part ys from size i (from + i) small refl))
