-- ===== src/Blockio/Layout.antt =====
-- Runs of bytes stored at places that do not touch.
use scubed.Base.{
  ℕ, ◌+◌, ◌≤◌, ◌≡◌, ◌⊎◌, refl, sym, ◌∙◌, List, [], ◌∷◌, arith, length, get_elem?, drop, some, none,
  ap, zero, suc,
}
use scubed.Binio.Memory.{poke, length-poke}
use scubed.Binio.Part.{part, part-poke, part-poke_apart}

-- The writes, the first one first.
abbrev pub written : List ℕ → List (ℕ × List ℕ) → List ℕ
written buf [] = buf
written buf (w ∷ ws) = written (poke buf w.0 w.1) ws

-- None of the writes touches the `n` bytes at `at`.
abbrev pub Apart : ℕ → ℕ → List (ℕ × List ℕ) → Type 0
Apart at n [] = Unit
Apart at n (w ∷ ws) = ((at + n ≤ w.0) ⊎ (w.0 + length w.1 ≤ at)) × Apart at n ws

pub length-written : (buf : List ℕ) (ws : List (ℕ × List ℕ)) → length (written buf ws) ≡ length buf
length-written buf [] = refl
length-written buf (w ∷ ws) = length-written (poke buf w.0 w.1) ws ∙ length-poke buf w.0 w.1

pub part-Apart :
    (buf : List ℕ) (ws : List (ℕ × List ℕ)) (at n : ℕ)
    → at + n ≤ length buf
    → Apart at n ws
    → part (written buf ws) at n ≡ part buf at n
part-Apart buf [] at n h a = refl
part-Apart buf (w ∷ ws) at n h a =
    part-Apart (poke buf w.0 w.1) ws at n (omega (arith, length-poke buf w.0 w.1)) a.1
    ∙ part-poke_apart buf w.0 w.1 at n h a.0

-- What was stored stands there, if no later write touches it.
pub part-written :
    (buf : List ℕ) (at n : ℕ) (bs : List ℕ) (ws : List (ℕ × List ℕ))
    → length bs ≡ n
    → at + n ≤ length buf
    → Apart at n ws
    → part (written buf ((at, bs) ∷ ws)) at n ≡ bs
part-written buf at n bs ws size h a =
    part-Apart (poke buf at bs) ws at n (omega (arith, length-poke buf at bs)) a
    ∙ ap (part (poke buf at bs) at) (sym size)
    ∙ part-poke buf bs at (omega arith)

-- The same, by the number of the write.
pub part-nth :
    (k : ℕ) (buf : List ℕ) (ws : List (ℕ × List ℕ)) (at n : ℕ) (bs : List ℕ)
    → get_elem? ws k ≡ some (at, bs)
    → length bs ≡ n
    → at + n ≤ length buf
    → Apart at n (drop (suc k) ws)
    → part (written buf ws) at n ≡ bs
part-nth k buf [] at n bs e size h a = absurd (ground arith)
part-nth zero buf (w ∷ ws) at n bs e size h a =
    let here : w ≡ (at, bs) = ap (λ o. elim o [ none ↦ w | some x ↦ x ]) e in
    ap (λ x. part (written buf (x ∷ ws)) at n) here ∙ part-written buf at n bs ws size h a
part-nth (suc k) buf (w ∷ ws) at n bs e size h a =
    part-nth k (poke buf w.0 w.1) ws at n bs e size (omega (arith, length-poke buf w.0 w.1)) a
