-- ===== src/Binio/Memory.antt =====
-- Consecutive bytes stored into a buffer.
use scubed.Base.{
  ℕ, zero, suc, ◌+◌, ◌≤◌, ◌<◌, ◌≡◌, refl, ◌∙◌, ap, List, [], ◌∷◌, arith, length, get_or, set,
  length-set, get_or-set_self, get_or-set_ne,
}

-- `p[0] = b0; p[1] = b1; ...` at the pointer `at`; a store out of bounds changes nothing.
abbrev pub poke : List ℕ → ℕ → List ℕ → List ℕ
poke buf at [] = buf
poke buf at (b ∷ bs) = poke (set buf at b) (at + 1) bs

pub length-poke : (buf : List ℕ) (at : ℕ) (bs : List ℕ) → length (poke buf at bs) ≡ length buf
length-poke buf at [] = refl
length-poke buf at (b ∷ bs) = length-poke (set buf at b) (at + 1) bs ∙ length-set buf at b

-- What stands before the stored bytes stays, and so does what stands behind them.
pub get_or-poke_before :
    (buf : List ℕ) (at : ℕ) (bs : List ℕ) (j : ℕ)
    → j < at
    → get_or (poke buf at bs) j 0 ≡ get_or buf j 0
get_or-poke_before buf at [] j h = refl
get_or-poke_before buf at (b ∷ bs) j h =
    get_or-poke_before (set buf at b) (at + 1) bs j (omega arith)
    ∙ get_or-set_ne buf at j b 0 (omega arith)

pub get_or-poke_behind :
    (buf : List ℕ) (at : ℕ) (bs : List ℕ) (j : ℕ)
    → at + length bs ≤ j
    → get_or (poke buf at bs) j 0 ≡ get_or buf j 0
get_or-poke_behind buf at [] j h = refl
get_or-poke_behind buf at (b ∷ bs) j h =
    get_or-poke_behind (set buf at b) (at + 1) bs j (omega arith)
    ∙ get_or-set_ne buf at j b 0 (omega arith)

-- The stored bytes, where they fit.
pub get_or-poke :
    (buf : List ℕ) (at : ℕ) (bs : List ℕ) (i : ℕ)
    → at + length bs ≤ length buf
    → i < length bs
    → get_or (poke buf at bs) (at + i) 0 ≡ get_or bs i 0
get_or-poke buf at [] i fits h = absurd (omega arith)
get_or-poke buf at (b ∷ bs) zero fits h =
    let here : at + 0 ≡ at = omega arith in
    ap (λ j. get_or (poke (set buf at b) (at + 1) bs) j 0) here
    ∙ get_or-poke_before (set buf at b) (at + 1) bs at (omega arith)
    ∙ get_or-set_self buf at b 0 (omega arith)
get_or-poke buf at (b ∷ bs) (suc i) fits h =
    let next : at + suc i ≡ at + 1 + i = omega arith in
    ap (λ j. get_or (poke (set buf at b) (at + 1) bs) j 0) next
    ∙ get_or-poke (set buf at b) (at + 1) bs i (omega (arith, length-set buf at b)) (omega arith)
