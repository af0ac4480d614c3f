-- ===== src/Cipher/Encrypt.antt =====
-- Encryption chains the blocks, also where the output overwrites the input.
use scubed.Base.{
  ℕ, zero, suc, ◌+◌, ◌-◌, ◌*◌, ◌≤◌, ◌<◌, ◌≡◌, ◌⊎◌, inl, inr, refl, sym, ◌∙◌, ap, ap₂, subst, List,
  length, get_or, arith,
}
use scubed.Binio.Memory.{poke, length-poke, get_or-poke_before, get_or-poke_behind}
use scubed.Binio.Part.{part, length-part, part-poke, part-poke_apart, part_ext}
use scubed.Cipher.{Primitive, block, xor_block, enc_loop, enc_plain}
use scubed.Cipher.Xor.{length-xor_block}

-- The output of `n` blocks is the input, or lies apart from it.
abbrev pub Aliased : ℕ → ℕ → ℕ → Type 0
Aliased n out src = (out ≡ src) ⊎ (src + 16 * n ≤ out) ⊎ (out + 16 * n ≤ src)

abbrev pub Fits : ℕ → List ℕ → ℕ → ℕ → Type 0
Fits n mem out src = (out + 16 * n ≤ length mem) × (src + 16 * n ≤ length mem) × Aliased n out src

-- A byte outside of the `n` blocks at `out`.
abbrev pub Outside : ℕ → ℕ → ℕ → Type 0
Outside n out j = (j < out) ⊎ (out + 16 * n ≤ j)

-- A block of the right size stored, and another one that it does not touch.
pub block-poke :
    (mem : List ℕ) (at : ℕ) (x : List ℕ)
    → length x ≡ 16
    → at + 16 ≤ length mem
    → block (poke mem at x) at ≡ x
block-poke mem at x e h =
    ap (λ n. part (poke mem at x) at n) (sym e) ∙ part-poke mem x at (omega arith)

pub block-poke_apart :
    (mem : List ℕ) (at : ℕ) (x : List ℕ) (from : ℕ)
    → length x ≡ 16
    → from + 16 ≤ length mem
    → (from + 16 ≤ at) ⊎ (at + 16 ≤ from)
    → block (poke mem at x) from ≡ block mem from
block-poke_apart mem at x from e h apart = part-poke_apart mem at x from 16 h (omega arith)

-- What `enc_loop` leaves in `r`. The block at `b` stands before the one at `a`.
record Chained (p : Primitive) (left : ℕ) (mem r : List ℕ) (out src : ℕ) : Type 0 where
  pub size : length r ≡ length mem
  pub first : block r out ≡ p.encrypt (block mem out)
  pub later :
      (k a b c : ℕ)
      → k < left
      → b ≡ out + 16 * k
      → a ≡ b + 16
      → c ≡ src + 16 * k + 16
      → block r a ≡ p.encrypt (xor_block (block mem c) (block r b))
  pub outside : (j : ℕ) → Outside (suc left) out j → get_or r j 0 ≡ get_or mem j 0

module _ (p : Primitive) where
  -- One round of the loop: `mem1` has the output block encrypted, and `mem2` the next one prepared.
  module _ (left : ℕ) (mem : List ℕ) (out src : ℕ) (h : Fits (suc (suc left)) mem out src) where
    abbrev mem1 : List ℕ
    mem1 = poke mem out (p.encrypt (block mem out))

    abbrev next : List ℕ
    next = xor_block (block mem1 (src + 16)) (block mem1 out)

    abbrev mem2 : List ℕ
    mem2 = poke mem1 (out + 16) next

    length-cipher : length (p.encrypt (block mem out)) ≡ 16
    length-cipher = p.length_encrypt (block mem out) (length-part mem out 16 (omega (arith, h.0)))

    length-mem1 : length mem1 ≡ length mem
    length-mem1 = length-poke mem out (p.encrypt (block mem out))

    length-next : length (xor_block (block mem1 (src + 16)) (block mem1 out)) ≡ 16
    length-next =
        length-xor_block (block mem1 (src + 16)) (block mem1 out) (
          length-part mem1 (src + 16) 16 (omega (arith, h.1, length-mem1))
          ∙ sym (length-part mem1 out 16 (omega (arith, h.0, length-mem1))))
        ∙ length-part mem1 (src + 16) 16 (omega (arith, h.1, length-mem1))

    length-mem2 : length mem2 ≡ length mem
    length-mem2 =
        length-poke mem1 (out + 16) (xor_block (block mem1 (src + 16)) (block mem1 out))
        ∙ length-mem1

    done_here : block mem2 out ≡ p.encrypt (block mem out)
    done_here =
        block-poke_apart mem1 (out + 16) _ out length-next (omega (arith, h.0, length-mem1))
          (inl (omega arith))
        ∙ block-poke mem out (p.encrypt (block mem out)) length-cipher (omega (arith, h.0))

    -- The input that is still to be read has not changed.
    unread :
        (c : ℕ) → src + 16 ≤ c → c + 16 ≤ src + 16 * suc (suc left) → block mem1 c ≡ block mem c
    unread c lo hi =
        block-poke_apart mem out _ c length-cipher (omega (arith, h.1)) (omega (arith, h.2))

    unread_after :
        (c : ℕ) → src + 32 ≤ c → c + 16 ≤ src + 16 * suc (suc left) → block mem2 c ≡ block mem c
    unread_after c lo hi =
        block-poke_apart mem1 (out + 16) _ c length-next (omega (arith, h.1, length-mem1))
          (omega (arith, h.2))
        ∙ unread c (omega arith) hi

    prepared : block mem2 (out + 16) ≡ xor_block (block mem (src + 16)) (p.encrypt (block mem out))
    prepared =
        block-poke mem1 (out + 16) _ length-next (omega (arith, h.0, length-mem1))
        ∙ ap₂ xor_block (unread (src + 16) (omega arith) (omega arith))
            (block-poke mem out (p.encrypt (block mem out)) length-cipher (omega (arith, h.0)))

    fits_after : Fits (suc left) mem2 (out + 16) (src + 16)
    fits_after =
        (omega (arith, h.0, length-mem2), omega (arith, h.1, length-mem2), omega (arith, h.2))

    -- The bytes around both blocks.
    kept : (j : ℕ) → Outside (suc (suc left)) out j → get_or mem2 j 0 ≡ get_or mem j 0
    kept j apart = elim apart [
      | inl before ↦
          get_or-poke_before mem1 (out + 16) next j (omega arith)
          ∙ get_or-poke_before mem out (p.encrypt (block mem out)) j before
      | inr behind ↦
          get_or-poke_behind mem1 (out + 16) next j (omega (arith, length-next))
          ∙ get_or-poke_behind mem out (p.encrypt (block mem out)) j (omega (arith, length-cipher))
    ]

    -- The second block and those behind it, from what the rest of the loop does.
    later_round :
        (r : List ℕ)
        → Chained p left mem2 r (out + 16) (src + 16)
        → block r out ≡ p.encrypt (block mem out)
        → (k a b c : ℕ) → k < suc left
        → b ≡ out + 16 * k
        → a ≡ b + 16
        → c ≡ src + 16 * k + 16
        → block r a ≡ p.encrypt (xor_block (block mem c) (block r b))
    later_round r ih first zero a b c lt eb ea ec =
        let at_a : a ≡ out + 16 = omega arith in
        let at_b : b ≡ out = omega arith in
        let at_c : c ≡ src + 16 = omega arith in
        ap (block r) at_a
        ∙ ih.first
        ∙ ap p.encrypt (
            prepared
            ∙ ap₂ xor_block (ap (block mem) (sym at_c)) (sym first ∙ ap (block r) (sym at_b)))
    later_round r ih first (suc k) a b c lt eb ea ec =
        ih.later k a b c (omega arith) (omega arith) ea (omega arith)
        ∙ ap (λ x. p.encrypt (xor_block x (block r b))) (unread_after c (omega arith) (omega arith))

  enc_loop_lem :
      (left : ℕ) (mem : List ℕ) (out src : ℕ)
      → Fits (suc left) mem out src
      → Chained p left mem (enc_loop p left mem out src) out src
  unfolding enc_loop
  enc_loop_lem zero mem out src h =
      let e = p.length_encrypt (block mem out) (length-part mem out 16 (omega (arith, h.0))) in
      record {
        size = length-poke mem out (p.encrypt (block mem out));
        first = block-poke mem out (p.encrypt (block mem out)) e (omega (arith, h.0));
        later = λ k a b c lt. absurd (omega arith);
        outside = λ j apart. elim apart [
          | inl before ↦ get_or-poke_before mem out (p.encrypt (block mem out)) j before
          | inr behind ↦ get_or-poke_behind mem out (p.encrypt (block mem out)) j (omega (arith, e))
        ];
      }
  enc_loop_lem (suc left) mem out src h =
      let m2 = mem2 left mem out src h in
      let r = enc_loop p left m2 (out + 16) (src + 16) in
      let ih = enc_loop_lem left m2 (out + 16) (src + 16) (fits_after left mem out src h) in
      let size : length r ≡ length mem = ih.size ∙ length-mem2 left mem out src h in
      let first : block r out ≡ p.encrypt (block mem out) =
        part_ext r m2 out 16 (omega (arith, h.0, size))
          (omega (arith, h.0, length-mem2 left mem out src h))
          (λ j lo hi. ih.outside j (inl (omega arith)))
        ∙ done_here left mem out src h in
      record {
        size = size;
        first = first;
        later = later_round left mem out src h r ih first;
        outside = λ j apart. ih.outside j (omega arith) ∙ kept left mem out src h j apart;
      }

-- The block before block `k`: the IV at first.
abbrev pub previous : List ℕ → List ℕ → ℕ → ℕ → List ℕ
previous iv r out zero = iv
previous iv r out (suc k) = block r (out + 16 * k)

-- The blocks at `out` of `r` are the blocks at `src` of `mem` in cipher block chaining.
pub record Encrypted (p : Primitive) (n : ℕ) (mem r : List ℕ) (out src : ℕ) (iv : List ℕ)
    : Type 0 where
  pub size : length r ≡ length mem
  pub link :
      (k : ℕ)
      → k < n
      → block r (out + 16 * k)
        ≡ p.encrypt (xor_block (block mem (src + 16 * k)) (previous iv r out k))
  pub outside : (j : ℕ) → Outside n out j → get_or r j 0 ≡ get_or mem j 0

module _ (p : Primitive) (n : ℕ) (mem : List ℕ) (out src : ℕ) (iv : List ℕ)
    (fits : Fits (suc n) mem out src) (e : length iv ≡ 16) where
  abbrev start : List ℕ
  start = xor_block (block mem src) iv

  abbrev ready : List ℕ
  ready = poke mem out start

  length-start : length start ≡ 16
  length-start =
      let wide = length-part mem src 16 (omega (arith, fits.1)) in
      length-xor_block (block mem src) iv (wide ∙ sym e) ∙ wide

  ready_fits : Fits (suc n) ready out src
  ready_fits = (
    omega (arith, fits.0, length-poke mem out start),
    omega (arith, fits.1, length-poke mem out start),
    fits.2,
  )

  loop-Encrypted : Encrypted p (suc n) mem (enc_loop p n ready out src) out src iv
  loop-Encrypted =
      let c = enc_loop_lem p n ready out src ready_fits in
      let r = enc_loop p n ready out src in
      record {
        size = c.size ∙ length-poke mem out start;
        link = link_lem r c;
        outside = λ j apart. c.outside j apart ∙ kept_outside j apart;
      }
    where
      link_lem :
          (r : List ℕ)
          → Chained p n ready r out src
          → (k : ℕ) → k < suc n
          → block r (out + 16 * k)
            ≡ p.encrypt (xor_block (block mem (src + 16 * k)) (previous iv r out k))
      link_lem r c zero lt =
          let at_out : out + 16 * 0 ≡ out = omega arith in
          let at_src : src ≡ src + 16 * 0 = omega arith in
          ap (block r) at_out
          ∙ c.first
          ∙ ap p.encrypt (
              block-poke mem out start length-start (omega (arith, fits.0))
              ∙ ap (λ x. xor_block (block mem x) iv) at_src)
      link_lem r c (suc k) lt =
          c.later k (out + 16 * suc k) (out + 16 * k) (src + 16 * suc k) (omega arith) refl
            (omega arith) (omega arith)
          ∙ ap (λ x. p.encrypt (xor_block x (block r (out + 16 * k))))
              (block-poke_apart mem out start (src + 16 * suc k) length-start
                (omega (arith, fits.1)) (omega (arith, fits.2)))

      kept_outside : (j : ℕ) → Outside (suc n) out j → get_or ready j 0 ≡ get_or mem j 0
      kept_outside j apart = elim apart [
        | inl before ↦ get_or-poke_before mem out start j before
        | inr behind ↦ get_or-poke_behind mem out start j (omega (arith, length-start))
      ]

pub enc_plain-Encrypted :
    (p : Primitive) (n : ℕ) (mem : List ℕ) (out src : ℕ) (iv : List ℕ)
    → 0 < n
    → Fits n mem out src
    → length iv ≡ 16
    → Encrypted p n mem (enc_plain p n mem out src iv) out src iv
unfolding enc_plain
enc_plain-Encrypted p zero mem out src iv h fits e = absurd (omega arith)
enc_plain-Encrypted p (suc n) mem out src iv h fits e =
    let same : n ≡ suc n - 1 = omega arith in
    subst
      (λ m.
        Encrypted p (suc n) mem (enc_loop p m (poke mem out (xor_block (block mem src) iv)) out src)
          out src iv)
      same (loop-Encrypted p n mem out src iv fits e)
