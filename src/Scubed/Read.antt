-- ===== src/Scubed/Read.antt =====
-- A read, and what `do_cow` reads, against what the volume holds.
use scubed.Base.{
  bind_some, ◌>>=◌, ℕ, ◌+◌, ◌-◌, ◌≤◌, ◌<◌, ◌≡◌, ◌≢◌, inl, inr, refl, sym, ◌∙◌, ap, List, [], some,
  arith, length, get_or, ◌==◌, ==→eq, Bool-cases, if◌then◌else◌, ltb, lt→ltb,
}
use scubed.Binio.Memory.{poke}
use scubed.Scubed.State.{Base, Cipher, Volume, mmpm, mesoblk_size, id_of, no_of, never, index_at}
use scubed.Scubed.Output.{read_mesoblk}
use scubed.Scubed.Request.{mesoblk, read_mesoblk_part, read_or_fake, do_cow, do_read}
use scubed.Scubed.Address.{Geometry, id_of-never}
use scubed.Scubed.Contents.{content, Consistent}
use scubed.Binio.Part.{part}
use scubed.Scubed.Splice.{zeroes, part-replicate, length-zeroes, splice_lem}

-- What the disk holds at the address `index`.
abbrev pub stored : (b : Base) → Cipher (mesoblk_size b) → Volume → ℕ → List ℕ
stored b c v index =
    if index == never
    then zeroes (mesoblk_size b)
    else read_mesoblk b c v (id_of b index) (no_of b index)

-- An address that `blockio_dev_read_mesoblk_part` accepts.
abbrev pub Reachable : Base → ℕ → Type 0
Reachable b index = (id_of b index < b.total_macroblocks) × (no_of b index < mmpm b)

read_mesoblk_part_lem :
    (b : Base) (c : Cipher (mesoblk_size b)) (v : Volume) (id slot at size : ℕ)
    → id < b.total_macroblocks
    → slot < mmpm b
    → read_mesoblk_part b c v id slot at size ≡ some (part (read_mesoblk b c v id slot) at size)
unfolding read_mesoblk_part
read_mesoblk_part_lem b c v id slot at size h hs = rw (lt→ltb _ _ h, lt→ltb _ _ hs) refl

module _ (b : Base) (c : Cipher (mesoblk_size b)) (v : Volume) (index : ℕ)
    (reachable : index ≢ never → Reachable b index) where
  read_or_fake_lem :
      (at size : ℕ)
      → at + size ≤ mesoblk_size b
      → read_or_fake b c v index at size ≡ some (part (stored b c v index) at size)
  unfolding read_or_fake
  read_or_fake_lem at size h = elim (Bool-cases (index == never)) [
    | inl unused ↦ rw unused (ap some (sym (part-replicate (mesoblk_size b) at size h)))
    | inr used ↦
        let (h, hs) = reachable (ground arith) in
        rw used (read_mesoblk_part_lem b c v _ _ at size h hs)
  ]

  -- The two parts that `do_cow` copies in.
  front_lem :
      (a : List ℕ) (muoff : ℕ)
      → muoff ≤ mesoblk_size b
      → (if muoff == 0
          then some a
          else (do x ← read_or_fake b c v index 0 muoff; some (poke a 0 x)))
        ≡ some (poke a 0 (part (stored b c v index) 0 muoff))
  front_lem a muoff h = elim (Bool-cases (muoff == 0)) [
    | inl nil ↦
        rw nil (ap (λ n. some (poke a 0 (part (stored b c v index) 0 n))) (sym (==→eq muoff 0 nil)))
    | inr more ↦ rw more (bind_some _ (read_or_fake_lem 0 muoff (omega arith)))
  ]

  back_lem :
      (a : List ℕ) (muoff n : ℕ)
      → muoff + n ≤ mesoblk_size b
      → (if ltb (n + muoff) (mesoblk_size b)
          then (do
            x ← read_or_fake b c v index (muoff + n) (mesoblk_size b - n - muoff)
            some (poke a (muoff + n) x))
          else some a)
        ≡ some (
            poke a (muoff + n) (part (stored b c v index) (muoff + n) (mesoblk_size b - n - muoff)))
  back_lem a muoff n h = elim (Bool-cases (ltb (n + muoff) (mesoblk_size b))) [
    | inl more ↦
        rw more
          (bind_some _ (read_or_fake_lem (muoff + n) (mesoblk_size b - n - muoff) (omega arith)))
    | inr nil ↦
        let none_left : 0 ≡ mesoblk_size b - n - muoff = ground arith in
        rw nil
          (ap (λ r. some (poke a (muoff + n) (part (stored b c v index) (muoff + n) r))) none_left)
  ]

  -- The new mesoblock: the old one with `input` stored into it.
  pub do_cow_lem :
      (addr input : List ℕ) (muoff : ℕ)
      → length addr ≡ mesoblk_size b
      → length (stored b c v index) ≡ mesoblk_size b
      → muoff + length input ≤ mesoblk_size b
      → do_cow b c v index muoff (length input) (poke addr muoff input)
        ≡ some (poke (stored b c v index) muoff input)
  unfolding do_cow
  do_cow_lem addr input muoff ha ho fits =
      bind_some _ (front_lem (poke addr muoff input) muoff (omega arith))
      ∙ back_lem (poke (poke addr muoff input) 0 (part (stored b c v index) 0 muoff)) muoff
          (length input) fits
      ∙ ap
          (λ n. some (
            poke (poke (poke addr muoff input) 0 (part (stored b c v index) 0 muoff))
              (muoff + length input)
              (part (stored b c v index) (muoff + length input) (n - length input - muoff))))
          (sym ho)
      ∙ ap some (splice_lem addr (stored b c v index) input muoff (ha ∙ sym ho) (omega (arith, ho)))

-- A mesoblock at an address in RAM.
pub mesoblk_lem :
    (b : Base) (v : Volume) (slot : ℕ)
    → slot < mmpm b
    → mesoblk b v slot ≡ some (get_or v.tmp slot [])
unfolding mesoblk
mesoblk_lem b v slot h = rw (lt→ltb _ _ h) refl

module _ {b : Base} (g : Geometry b) (c : Cipher (mesoblk_size b)) {v : Volume} {cur : ℕ}
    (k : Consistent b v cur) where
  -- The slot of a live mesoblock.
  pub slot-lt : (m : ℕ) → index_at v m ≢ never → no_of b (index_at v m) < mmpm b
  slot-lt m live =
      let p = k.placed m live in omega (arith, p.in_use, k.full (id_of b (index_at v m)) p.in_array)

  pub reach : (m : ℕ) → index_at v m ≢ never → Reachable b (index_at v m)
  reach m live =
      let p = k.placed m live in
      (
        omega (arith, p.in_array, k.all_blocks),
        omega (arith, p.in_use, k.full (id_of b (index_at v m)) p.in_array),
      )

  pub here-live : (m : ℕ) → id_of b (index_at v m) ≡ cur → index_at v m ≢ never
  here-live m here e =
      id_of-never g cur (omega (arith, k.addresses, k.in_array)) (sym (ap (id_of b) e) ∙ here)

  -- `do_read` returns the part of the mesoblock, wherever the mesoblock is.
  pub do_read_lem :
      (m muoff size : ℕ)
      → muoff + size ≤ mesoblk_size b
      → do_read b c v m muoff size ≡ some (part (content b c v cur m) muoff size)
  unfolding do_read
  do_read_lem m muoff size h =
      bind_some _ k.current ∙ elim (Bool-cases (id_of b (index_at v m) == cur)) [
        | inl here ↦ rw here (
            bind_some _
              (mesoblk_lem b v (no_of b (index_at v m)) (slot-lt m (here-live m (==→eq _ _ here)))))
        | inr there ↦ rw there (elim (Bool-cases (index_at v m == never)) [
          | inl unused ↦ rw unused (ap some (sym (part-replicate (mesoblk_size b) muoff size h)))
          | inr used ↦
              let (hi, hs) = reach m (ground arith) in
              rw used (read_mesoblk_part_lem b c v _ _ muoff size hi hs)
        ])
      ]

  pub length-stored : (m : ℕ) → length (stored b c v (index_at v m)) ≡ mesoblk_size b
  unfolding read_mesoblk
  length-stored m = elim (Bool-cases (index_at v m == never)) [
    | inl unused ↦ rw unused (length-zeroes (mesoblk_size b))
    | inr used ↦ rw used (
        c.length_dec _ _ _ (v.disk (id_of b (index_at v m)) (no_of b (index_at v m)))
          (k.on_disk (id_of b (index_at v m)) (no_of b (index_at v m)) (slot-lt m (ground arith))))
  ]

  pub length-content : (m : ℕ) → length (content b c v cur m) ≡ mesoblk_size b
  length-content m = elim (Bool-cases (id_of b (index_at v m) == cur)) [
    | inl here ↦
        rw here (k.in_ram (no_of b (index_at v m)) (slot-lt m (here-live m (==→eq _ _ here))))
    | inr there ↦ rw there (length-stored m)
  ]
