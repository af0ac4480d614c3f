-- ===== src/Scubed/Splice.antt =====
-- The parts of a mesoblock that `do_cow` copies in around the bytes that are written.
use scubed.Base.{
  ℕ, zero, suc, ◌+◌, ◌-◌, ◌≤◌, ◌<◌, ◌≡◌, refl, sym, ◌∙◌, List, arith, length, get_or, replicate,
  get_or_ext, ltb, ltb→lt, Bool-cases, inl, inr, length-replicate,
}
use scubed.Binio.Part.{part, length-part, get_or-part, get_or-poke_at}
use scubed.Binio.Memory.{poke, length-poke, get_or-poke_before, get_or-poke_behind}

-- `memset(addr, 0, n)`
abbrev pub zeroes : ℕ → List ℕ
zeroes n = replicate n 0

abbrev nothing : ℕ
nothing = 0

get_or-replicate_0 : (n i : ℕ) → get_or (zeroes n) i 0 ≡ nothing
get_or-replicate_0 zero i = refl
get_or-replicate_0 (suc n) zero = refl
get_or-replicate_0 (suc n) (suc i) = get_or-replicate_0 n i

pub length-zeroes : (n : ℕ) → length (zeroes n) ≡ n
length-zeroes n = length-replicate {A = ℕ} n 0

pub part-replicate : (n at size : ℕ) → at + size ≤ n → part (zeroes n) at size ≡ zeroes size
part-replicate n at size h =
    let wide = length-part (zeroes n) at size (omega (arith, length-zeroes n)) in
    get_or_ext 0 _ _ (wide ∙ sym (length-zeroes size)) (λ i lt.
      get_or-part (zeroes n) at size i (at + i) (omega (arith, wide)) refl
      ∙ get_or-replicate_0 n (at + i)
      ∙ sym (get_or-replicate_0 size i))

-- The bytes of `old` around the bytes `input` at `muoff`, put into a buffer that has these already.
module _ (addr old input : List ℕ) (muoff : ℕ) (e : length addr ≡ length old)
    (h : muoff + length input ≤ length old) where
  end : ℕ
  end = muoff + length input

  front : List ℕ
  front = poke (poke addr muoff input) 0 (part old 0 muoff)

  back : List ℕ
  back = part old end (length old - length input - muoff)

  length-front : length front ≡ length old
  unfolding front
  length-front =
      length-poke (poke addr muoff input) 0 (part old 0 muoff) ∙ length-poke addr muoff input ∙ e

  length-back : length back ≡ length old - end
  unfolding back end
  length-back = omega (
    arith,
    length-part old (muoff + length input) (length old - length input - muoff) (omega arith),
  )

  length-first : length (part old 0 muoff) ≡ muoff
  length-first = length-part old 0 muoff (omega arith)

  before : (j : ℕ) → j < muoff → get_or (poke front end back) j 0 ≡ get_or old j 0
  unfolding front end
  before j lt =
      get_or-poke_before front end back j (omega arith)
      ∙ get_or-poke_at (poke addr muoff input) 0 (part old 0 muoff) j
          (omega (arith, length-first, length-poke addr muoff input)) (omega arith)
          (omega (arith, length-first))
      ∙ get_or-part old 0 muoff (j - 0) j (omega arith) (omega arith)

  inside :
      (j : ℕ)
      → muoff ≤ j
      → j < muoff + length input
      → get_or (poke front end back) j 0 ≡ get_or input (j - muoff) 0
  unfolding front end
  inside j le lt =
      get_or-poke_before front end back j (omega arith)
      ∙ get_or-poke_behind (poke addr muoff input) 0 (part old 0 muoff) j
          (omega (arith, length-first))
      ∙ get_or-poke_at addr muoff input j (omega arith) le lt

  behind :
      (j : ℕ)
      → muoff + length input ≤ j
      → j < length old
      → get_or (poke front end back) j 0 ≡ get_or old j 0
  unfolding end back
  behind j le lt =
      get_or-poke_at front end back j (omega (arith, length-back, length-front)) le
        (omega (arith, length-back))
      ∙ get_or-part old end (length old - length input - muoff) (j - end) j (omega arith)
          (omega arith)

  same :
      (j : ℕ)
      → j < length old
      → get_or (poke front end back) j 0 ≡ get_or (poke old muoff input) j 0
  same j lt = elim (Bool-cases (ltb j muoff)) [
    | inl is_before ↦
        before j (ltb→lt j muoff is_before)
        ∙ sym (get_or-poke_before old muoff input j (ltb→lt j muoff is_before))
    | inr past ↦ elim (Bool-cases (ltb j (muoff + length input))) [
      | inl is_inside ↦
          inside j (ground arith) (ltb→lt _ _ is_inside)
          ∙ sym (get_or-poke_at old muoff input j h (ground arith) (ltb→lt _ _ is_inside))
      | inr is_behind ↦
          behind j (ground arith) lt ∙ sym (get_or-poke_behind old muoff input j (ground arith))
    ]
  ]

  pub splice_lem :
      poke
        (poke (poke addr muoff input) 0 (part old 0 muoff))
        (muoff + length input)
        (part old (muoff + length input) (length old - length input - muoff))
      ≡ poke old muoff input
  unfolding front end back
  splice_lem =
      let wide : length (poke front end back) ≡ length old =
        length-poke front end back ∙ length-front in
      get_or_ext 0 _ _ (wide ∙ sym (length-poke old muoff input))
        (λ j lt. same j (omega (arith, wide)))
