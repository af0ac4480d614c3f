-- ===== src/Scubed/Contents.antt =====
-- What the volume holds, and the invariant of its tables.
use scubed.Base.{
  ℕ, zero, suc, ◌+◌, ◌-◌, ◌^◌, ◌≤◌, ◌<◌, ◌≡◌, ◌≢◌, List, [], ◌∷◌, some, arith, length, get_or, set,
  ◌==◌, if◌then◌else◌,
}
use scubed.Blockio.Info.{Infos, info}
use scubed.Scubed.State.{
  Base, Cipher, Volume, mesobits, mmpm, mesoblk_size, id_of, no_of, never, index_at,
}
use scubed.Scubed.Output.{read_mesoblk}
use scubed.Scubed.Splice.{zeroes}

-- The logical mesoblock `m`, while the current macroblock is `cur`.
abbrev pub content : (b : Base) → Cipher (mesoblk_size b) → Volume → ℕ → ℕ → List ℕ
content b c v cur m =
    if id_of b (index_at v m) == cur
    then get_or v.tmp (no_of b (index_at v m)) []
    else if index_at v m == never
    then zeroes (mesoblk_size b)
    else read_mesoblk b c v (id_of b (index_at v m)) (no_of b (index_at v m))

-- The address `x` leads into the macroblock `id`.
abbrev pub leads : Base → ℕ → ℕ → ℕ
leads b id x = if x == never then 0 else if id_of b x == id then 1 else 0

-- The number of logical mesoblocks that live in the macroblock `id`.
abbrev pub refs : Base → ℕ → List ℕ → ℕ
refs b id [] = 0
refs b id (x ∷ xs) = leads b id x + refs b id xs

pub refs-set :
    (b : Base) (id : ℕ) (xs : List ℕ) (i y : ℕ)
    → i < length xs
    → refs b id (set xs i y) + leads b id (get_or xs i never) ≡ refs b id xs + leads b id y
refs-set b id [] i y h = absurd (omega arith)
refs-set b id (x ∷ xs) zero y h = omega arith
refs-set b id (x ∷ xs) (suc i) y h = omega (arith, refs-set b id xs i y (omega arith))

pub leads-le :
    (b : Base) (id : ℕ) (xs : List ℕ) (i : ℕ) → leads b id (get_or xs i never) ≤ refs b id xs
leads-le b id [] i = omega arith
leads-le b id (x ∷ xs) zero = omega arith
leads-le b id (x ∷ xs) (suc i) = omega (arith, leads-le b id xs i)

pub leads_live : (b : Base) (x : ℕ) → x ≢ never → leads b (id_of b x) x ≡ 1
leads_live b x h = ground arith

pub leads_elsewhere : (b : Base) (id x : ℕ) → id_of b x ≢ id → leads b id x ≡ 0
leads_elsewhere b id x h = ground arith

-- The address `x` leads to a slot whose index is `m`.
pub record Placed (b : Base) (infos : Infos) (x m : ℕ) : Type 0 where
  pub in_array : id_of b x < length infos
  pub in_use : no_of b x < (info infos (id_of b x)).no_indices
  pub named : get_or (info infos (id_of b x)).indices (no_of b x) 0 ≡ m

-- The tables of a volume whose current macroblock is `cur`.
pub record Consistent (b : Base) (v : Volume) (cur : ℕ) : Type 0 where
  pub current : v.bi ≡ some cur
  pub in_array : cur < length v.infos
  pub all_blocks : length v.infos ≡ b.total_macroblocks
  pub addresses : length v.infos + 1 ≤ 2 ^ (32 - mesobits b)
  pub sized : v.no_block_indices ≡ length v.block_indices
  pub buffer : length v.tmp ≡ mmpm b
  pub in_ram : (slot : ℕ) → slot < mmpm b → length (get_or v.tmp slot []) ≡ mesoblk_size b
  pub on_disk : (id slot : ℕ) → slot < mmpm b → length (v.disk id slot) ≡ mesoblk_size b
  pub room : (id : ℕ) → id < length v.infos → length (info v.infos id).indices ≡ mmpm b
  pub full : (id : ℕ) → id < length v.infos → (info v.infos id).no_indices ≤ mmpm b
  pub placed : (m : ℕ) → index_at v m ≢ never → Placed b v.infos (index_at v m) m
  pub counted :
      (id : ℕ)
      → id < length v.infos
      → id ≢ cur
      → (info v.infos id).no_nonobsolete ≡ refs b id v.block_indices
  pub filled : (info v.infos cur).no_indices ≡ refs b cur v.block_indices
  -- Each slot of the current macroblock is what its index leads to.
  pub owned :
      (i : ℕ)
      → i < (info v.infos cur).no_indices
      → (id_of b (index_at v (get_or (info v.infos cur).indices i 0)) ≡ cur)
        × (no_of b (index_at v (get_or (info v.infos cur).indices i 0)) ≡ i)
  -- No other macroblock has an index twice.
  pub unique :
      (id i j : ℕ)
      → id ≢ cur
      → i < (info v.infos id).no_indices
      → j < (info v.infos id).no_indices
      → get_or (info v.infos id).indices i 0 ≡ get_or (info v.infos id).indices j 0
      → i ≡ j
