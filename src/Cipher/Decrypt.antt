-- ===== src/Cipher/Decrypt.antt =====
-- Decryption unchains the blocks, also in place, and undoes encryption.
use scubed.Base.{
  ℕ, zero, suc, ◌+◌, ◌*◌, ◌/◌, ◌%◌, ◌≤◌, ◌<◌, ◌≡◌, ◌⊎◌, inl, inr, refl, sym, ◌∙◌, ap, ap₂, List,
  length, get_or, get_or_ext, arith, ◌==◌, ==→eq, Bool-cases, Option, none, some, true, false,
}
use scubed.Binio.Memory.{poke, length-poke, get_or-poke_before, get_or-poke_behind}
use scubed.Binio.Part.{part, length-part, get_or-part, part_ext}
use scubed.Cipher.{Primitive, block, xor_block, input, given, dec_loop, dec_plain}
use scubed.Cipher.Xor.{length-xor_block, xor_block_twice}
use scubed.Cipher.Encrypt.{Fits, Outside, block-poke, block-poke_apart, previous, Encrypted}

-- Where the block is read that the round `k` decrypts.
abbrev pub taken : Option ℕ → ℕ → ℕ → ℕ
taken none src k = src + 16 * k
taken (some at) src k = at

-- Each of the blocks at `out` of `r` is the block that is taken, decrypted, and the ciphertext
-- before it.
pub record Decrypted (p : Primitive) (gcry_in : Option ℕ) (n : ℕ) (mem r : List ℕ) (out src : ℕ)
    (iv : List ℕ) : Type 0 where
  pub size : length r ≡ length mem
  pub link :
      (k : ℕ)
      → k < n
      → block r (out + 16 * k)
        ≡ xor_block (p.decrypt (block mem (taken gcry_in src k))) (previous iv mem src k)
  pub outside : (j : ℕ) → Outside n out j → get_or r j 0 ≡ get_or mem j 0

-- The output does not touch the input, or is the same.
abbrev pub Steady : Option ℕ → ℕ → List ℕ → ℕ → ℕ → Type 0
Steady none n mem out src = out ≡ src
Steady (some at) n mem out src = (at + 16 ≤ length mem) × ((at + 16 ≤ out) ⊎ (out + 16 * n ≤ at))

input-le :
    (gcry_in : Option ℕ) (left : ℕ) (mem : List ℕ) (out src : ℕ)
    → Fits (suc left) mem out src
    → Steady gcry_in (suc left) mem out src
    → input gcry_in out + 16 ≤ length mem
input-le none left mem out src h s = omega (arith, h.0)
input-le (some at) left mem out src h s = s.0

input-taken :
    (gcry_in : Option ℕ) (left : ℕ) (mem : List ℕ) (out src : ℕ)
    → Steady gcry_in left mem out src
    → input gcry_in out ≡ taken gcry_in src 0
input-taken none left mem out src s = omega arith
input-taken (some at) left mem out src s = refl

-- One round on, the output is still apart, or still the same.
Steady-suc :
    (gcry_in : Option ℕ) (left : ℕ) (mem mem2 : List ℕ) (out src : ℕ)
    → length mem2 ≡ length mem
    → Steady gcry_in (suc left) mem out src
    → Steady gcry_in left mem2 (out + 16) (src + 16)
Steady-suc none left mem mem2 out src size s = omega (arith, s)
Steady-suc (some at) left mem mem2 out src size s = (omega (arith, s.0, size), ground (arith, s.1))

taken-suc :
    (gcry_in : Option ℕ) (left : ℕ) (mem mem2 : List ℕ) (out src k : ℕ)
    → k < left
    → Steady gcry_in (suc left) mem out src
    → ((c : ℕ) → src + 16 ≤ c → c + 16 ≤ src + 16 * suc left → block mem2 c ≡ block mem c)
    → ((c : ℕ) → c + 16 ≤ length mem → (c + 16 ≤ out) ⊎ (out + 16 ≤ c) → block mem2 c ≡ block mem c)
    → block mem2 (taken gcry_in (src + 16) k) ≡ block mem (taken gcry_in src (suc k))
taken-suc none left mem mem2 out src k lt s unread far_off =
    let at_src : src + 16 + 16 * k ≡ src + 16 * suc k = omega arith in
    ap (block mem2) at_src ∙ unread (src + 16 * suc k) (omega arith) (omega arith)
taken-suc (some at) left mem mem2 out src k lt s unread far_off =
    far_off at s.0 (ground (arith, s.1))

module _ (p : Primitive) where
  module _ (gcry_in : Option ℕ) (left : ℕ) (mem : List ℕ) (out src : ℕ) (tmp : List ℕ)
      (h : Fits (suc left) mem out src) (s : Steady gcry_in (suc left) mem out src)
      (e : length tmp ≡ 16) where
    abbrev clear : List ℕ
    clear = p.decrypt (block mem (input gcry_in out))

    abbrev mem1 : List ℕ
    mem1 = poke mem out clear

    abbrev plain : List ℕ
    plain = xor_block (block mem1 out) tmp

    abbrev mem2 : List ℕ
    mem2 = poke mem1 out plain

    length-clear : length clear ≡ 16
    length-clear =
        p.length_decrypt (block mem (input gcry_in out))
          (length-part mem (input gcry_in out) 16 (input-le gcry_in left mem out src h s))

    length-mem1 : length mem1 ≡ length mem
    length-mem1 = length-poke mem out clear

    plain_lem : plain ≡ xor_block (p.decrypt (block mem (taken gcry_in src 0))) tmp
    plain_lem =
        ap (λ x. xor_block x tmp)
          (block-poke mem out clear length-clear (omega (arith, h.0))
            ∙ ap (λ x. p.decrypt (block mem x)) (input-taken gcry_in (suc left) mem out src s))

    length-plain : length plain ≡ 16
    length-plain =
        let wide = length-part mem1 out 16 (omega (arith, h.0, length-mem1)) in
        length-xor_block (block mem1 out) tmp (wide ∙ sym e) ∙ wide

    length-mem2 : length mem2 ≡ length mem
    length-mem2 = length-poke mem1 out plain ∙ length-mem1

    stored : block mem2 out ≡ plain
    stored = block-poke mem1 out plain length-plain (omega (arith, h.0, length-mem1))

    far_off :
        (c : ℕ) → c + 16 ≤ length mem → (c + 16 ≤ out) ⊎ (out + 16 ≤ c) → block mem2 c ≡ block mem c
    far_off c hc away =
        block-poke_apart mem1 out plain c length-plain (omega (arith, hc, length-mem1)) away
        ∙ block-poke_apart mem out clear c length-clear hc away

    unread : (c : ℕ) → src + 16 ≤ c → c + 16 ≤ src + 16 * suc left → block mem2 c ≡ block mem c
    unread c lo hi = far_off c (omega (arith, h.1)) (omega (arith, h.2))

    Steady-after : Steady gcry_in left mem2 (out + 16) (src + 16)
    Steady-after = Steady-suc gcry_in left mem mem2 out src length-mem2 s

    taken_after :
        (k : ℕ)
        → k < left
        → block mem2 (taken gcry_in (src + 16) k) ≡ block mem (taken gcry_in src (suc k))
    taken_after k lt = taken-suc gcry_in left mem mem2 out src k lt s unread far_off

    fits_after : Fits left mem2 (out + 16) (src + 16)
    fits_after =
        (omega (arith, h.0, length-mem2), omega (arith, h.1, length-mem2), omega (arith, h.2))

    kept : (j : ℕ) → Outside (suc left) out j → get_or mem2 j 0 ≡ get_or mem j 0
    kept j apart = elim apart [
      | inl before ↦
          get_or-poke_before mem1 out plain j before ∙ get_or-poke_before mem out clear j before
      | inr behind ↦
          get_or-poke_behind mem1 out plain j (omega (arith, length-plain))
          ∙ get_or-poke_behind mem out clear j (omega (arith, length-clear))
    ]

    previous_after :
        (k : ℕ) → k < left → previous (block mem src) mem2 (src + 16) k ≡ block mem (src + 16 * k)
    previous_after zero lt = let at_src : src ≡ src + 16 * 0 = omega arith in ap (block mem) at_src
    previous_after (suc k) lt =
        let at_c : src + 16 + 16 * k ≡ src + 16 * suc k = omega arith in
        ap (block mem2) at_c ∙ unread (src + 16 * suc k) (omega arith) (omega arith)

    round :
        (r : List ℕ)
        → Decrypted p gcry_in left mem2 r (out + 16) (src + 16) (block mem src)
        → Decrypted p gcry_in (suc left) mem r out src tmp
    round r ih = record {
      size = ih.size ∙ length-mem2;
      link = link_lem;
      outside = λ j apart. ih.outside j (omega arith) ∙ kept j apart;
    }
      where
        link_lem :
            (k : ℕ)
            → k < suc left
            → block r (out + 16 * k)
              ≡ xor_block (p.decrypt (block mem (taken gcry_in src k))) (previous tmp mem src k)
        link_lem zero lt =
            let at_out : out + 16 * 0 ≡ out = omega arith in
            ap (block r) at_out
            ∙ part_ext r mem2 out 16 (omega (arith, h.0, ih.size, length-mem2))
                (omega (arith, h.0, length-mem2)) (λ j lo hi. ih.outside j (inl (omega arith)))
            ∙ stored
            ∙ plain_lem
        link_lem (suc k) lt =
            let at_out : out + 16 * suc k ≡ out + 16 + 16 * k = omega arith in
            ap (block r) at_out
            ∙ ih.link k (omega arith)
            ∙ ap₂ (λ x y. xor_block (p.decrypt x) y) (taken_after k (omega arith))
                (previous_after k (omega arith))

  dec_loop-Decrypted :
      (gcry_in : Option ℕ) (n : ℕ) (mem : List ℕ) (out src : ℕ) (tmp : List ℕ)
      → Fits n mem out src
      → Steady gcry_in n mem out src
      → length tmp ≡ 16
      → Decrypted p gcry_in n mem (dec_loop p n mem gcry_in out src tmp) out src tmp
  unfolding dec_loop
  dec_loop-Decrypted gcry_in zero mem out src tmp h s e = record {
    size = refl;
    link = λ k lt. absurd (omega arith);
    outside = λ j apart. refl;
  }
  dec_loop-Decrypted gcry_in (suc left) mem out src tmp h s e =
      round gcry_in left mem out src tmp h s e _ (
        dec_loop-Decrypted gcry_in left (mem2 gcry_in left mem out src tmp h s e) (out + 16)
          (src + 16) (block mem src) (fits_after gcry_in left mem out src tmp h s e)
          (Steady-after gcry_in left mem out src tmp h s e)
          (length-part mem src 16 (omega (arith, h.1))))

  -- In place, and with one block, `dec_plain` unchains the blocks. Elsewhere each round decrypts the
  -- first block of the input.
  pub dec_plain-Decrypted :
      (n : ℕ) (mem : List ℕ) (out src : ℕ) (iv : List ℕ)
      → 0 < n
      → Fits n mem out src
      → length iv ≡ 16
      → Decrypted p (given out src) n mem (dec_plain p n mem out src iv) out src iv
  unfolding dec_plain
  dec_plain-Decrypted n mem out src iv some_block h e =
      dec_loop-Decrypted (given out src) n mem out src iv h (steady (Bool-cases (out == src))) e
    where
      steady : ((out == src) ≡ true) ⊎ ((out == src) ≡ false) → Steady (given out src) n mem out src
      steady (inl same) = rw same (==→eq out src same)
      steady (inr apart) = rw apart (omega (arith, h.1), ground (arith, h.2))

-- Blocks that agree make parts that agree.
pub part-blocks :
    (n : ℕ) (xs ys : List ℕ) (a b : ℕ)
    → a + 16 * n ≤ length xs
    → b + 16 * n ≤ length ys
    → ((k : ℕ) → k < n → block xs (a + 16 * k) ≡ block ys (b + 16 * k))
    → part xs a (16 * n) ≡ part ys b (16 * n)
part-blocks n xs ys a b ha hb h =
    let wide = length-part xs a (16 * n) ha in
    get_or_ext 0 _ _ (wide ∙ sym (length-part ys b (16 * n) hb)) (λ i lt.
      let small : i < 16 * n = omega (arith, wide) in
      get_or-part xs a (16 * n) i (a + i) small refl
      ∙ sym (get_or-part xs (a + 16 * (i / 16)) 16 (i % 16) (a + i) (omega arith) (omega arith))
      ∙ ap (λ x. get_or x (i % 16) 0) (h (i / 16) (omega arith))
      ∙ get_or-part ys (b + 16 * (i / 16)) 16 (i % 16) (b + i) (omega arith) (omega arith)
      ∙ sym (get_or-part ys b (16 * n) i (b + i) small refl))

-- What was encrypted to `out`, decrypted to `to`.
pub decrypted_lem :
    (p : Primitive) (n : ℕ) (mem r r' : List ℕ) (out src to : ℕ) (iv : List ℕ)
    → length iv ≡ 16
    → Fits n mem out src
    → Fits n r to out
    → Encrypted p n mem r out src iv
    → Decrypted p none n r r' to out iv
    → part r' to (16 * n) ≡ part mem src (16 * n)
decrypted_lem p n mem r r' out src to iv e h h' enc dec =
    part-blocks n r' mem to src (omega (arith, h'.0, dec.size)) h.1 blocks
  where
    wide : (k : ℕ) → k < n → length (previous iv r out k) ≡ 16
    wide zero lt = e
    wide (suc k) lt = length-part r (out + 16 * k) 16 (omega (arith, h'.1))

    blocks : (k : ℕ) → k < n → block r' (to + 16 * k) ≡ block mem (src + 16 * k)
    blocks k lt =
        let x = block mem (src + 16 * k) in
        let ex = length-part mem (src + 16 * k) 16 (omega (arith, h.1)) in
        let ey = wide k lt in
        dec.link k lt
        ∙ ap (λ z. xor_block (p.decrypt z) (previous iv r out k)) (enc.link k lt)
        ∙ ap (λ z. xor_block z (previous iv r out k))
            (p.decrypt_encrypt (xor_block x (previous iv r out k))
              (length-xor_block x (previous iv r out k) (ex ∙ sym ey) ∙ ex))
        ∙ xor_block_twice x (previous iv r out k) (ex ∙ sym ey)
