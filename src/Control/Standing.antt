-- ===== src/Control/Standing.antt =====
-- Bytes that stand in a buffer, and the text that they are.
use scubed.Base.{
  ℕ, zero, suc, ◌+◌, ◌-◌, ◌<◌, ◌≤◌, ◌≡◌, refl, ◌∙◌, ap, List, [], ◌∷◌, ◌++◌, false, ◌==◌, length,
  get_or, All, arith,
}
use scubed.Binio.Memory.{poke}
use scubed.Binio.Part.{part, length-part, get_or-part, get_or-poke_at}
use scubed.Control.Receive.{until_nul}

pub get_or-append : (xs ys : List ℕ) (i : ℕ) → i < length xs → get_or (xs ++ ys) i 0 ≡ get_or xs i 0
get_or-append [] ys i h = absurd (omega arith)
get_or-append (x ∷ xs) ys zero h = refl
get_or-append (x ∷ xs) ys (suc i) h = get_or-append xs ys i (omega arith)

pub get_or-append_behind :
    (xs ys : List ℕ) (i : ℕ) → get_or (xs ++ ys) (length xs + i) 0 ≡ get_or ys i 0
get_or-append_behind [] ys i = let same : 0 + i ≡ i = omega arith in ap (λ j. get_or ys j 0) same
get_or-append_behind (x ∷ xs) ys i =
    let next : suc (length xs) + i ≡ suc (length xs + i) = omega arith in
    ap (λ j. get_or (x ∷ (xs ++ ys)) j 0) next ∙ get_or-append_behind xs ys i

pub length-append : (xs ys : List ℕ) → length (xs ++ ys) ≡ length xs + length ys
length-append [] ys = omega arith
length-append (x ∷ xs) ys = omega (arith, length-append xs ys)

pub back : (n k : ℕ) → n + k - n ≡ k
back n k = omega arith

pub below : (n m : ℕ) → n < m → (n == m) ≡ false
below n m lt = ground arith

pub no_zero : (n : ℕ) → n - 0 ≡ n
no_zero n = omega arith

pub ends_so : (p : List ℕ) → get_or (p ++ (b'\n' ∷ [])) (length p) 0 ≡ b'\n'
ends_so [] = refl
ends_so (x ∷ xs) = ends_so xs

pub All-behind : (P : ℕ → Type 0) (xs ys : List ℕ) → All P (xs ++ ys) → All P ys
All-behind P [] ys all = all
All-behind P (x ∷ xs) ys all = All-behind P xs ys all.1

-- A byte of a line ends neither the line nor the text.
pub record Plain (c : ℕ) : Type 0 where
  pub no_end : (c == b'\n') ≡ false
  pub no_nul : (c == 0) ≡ false

-- The bytes `xs` stand in the buffer from `at` on.
abbrev pub Stands : List ℕ → ℕ → List ℕ → Type 0
Stands buf at xs = (k : ℕ) → k < length xs → get_or buf (at + k) 0 ≡ get_or xs k 0

-- The move to the front leaves alone what stands there already.
pub moved-Stands :
    (b xs : List ℕ) (rest : ℕ)
    → length xs ≤ rest
    → rest ≤ length b
    → Stands b 0 xs
    → Stands (poke b 0 (part b 0 rest)) 0 xs
moved-Stands b xs rest within fits stands k lt =
    let size = length-part b 0 rest (omega arith) in
    get_or-poke_at b 0 (part b 0 rest) (0 + k) (omega (arith, size)) (omega arith)
      (omega (arith, size))
    ∙ get_or-part b 0 rest (0 + k - 0) (0 + k) (omega arith) (omega arith)
    ∙ stands k lt

pub until_nul-line :
    (line xs : List ℕ)
    → All Plain line
    → ((k : ℕ) → k < length line → get_or xs k 0 ≡ get_or line k 0)
    → get_or xs (length line) 0 ≡ 0
    → until_nul xs ≡ line
until_nul-line [] [] plain stands ends = refl
until_nul-line [] (x ∷ xs) plain stands ends = rw (ends) refl
until_nul-line (c ∷ cs) [] plain stands ends =
    absurd (ground (arith, stands 0 (omega arith), plain.0.no_nul))
until_nul-line (c ∷ cs) (x ∷ xs) plain stands ends =
    let rest = until_nul-line cs xs plain.1 (λ k lt. stands (suc k) (omega arith)) ends in
    rw (stands 0 (omega arith), plain.0.no_nul, rest) refl
