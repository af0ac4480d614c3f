-- ===== src/Util/Hex.antt =====
-- Every pair of digits becomes its byte, and a byte that is no digit is an error.
use scubed.Base.{
  ℕ, zero, suc, ◌+◌, ◌*◌, ◌/◌, ◌%◌, ◌≤◌, ◌<◌, ◌≡◌, ◌≢◌, ◌⊎◌, inl, inr, refl, sym, ◌∙◌, ap, ap₂,
  subst, List, [], ◌∷◌, codes, some, none, Bool, true, false, ◌==◌, ==→eq, if◌then◌else◌, length,
  get_or, set, length-set, get_or-set_self, get_or-set_ne, u8, arith, Bool-cases, Option-cases,
}
use scubed.Util.{hex_value, with_high, with_low, unbase16_loop, unbase16}

some_eq : {x y : ℕ} → some x ≡ some y → x ≡ y
some_eq e = cc

hex_value-lt : (c : ℕ) {v : ℕ} → hex_value c ≡ some v → v < 16
unfolding hex_value
hex_value-lt c e = ground arith

-- What the tests of `unbase16` make of the two digits of byte `k`.
pub record Values (buf : List ℕ) (k high low : ℕ) : Type 0 where
  pub first : hex_value (get_or buf (2 * k) 0) ≡ some high
  pub second : hex_value (get_or buf (2 * k + 1) 0) ≡ some low

-- The bytes from `k` on have been made of the digits of `buf`, up to `n`.
pub record Filled (buf r : List ℕ) (k n : ℕ) : Type 0 where
  pub size : length r ≡ length buf
  pub bytes :
      (i high low : ℕ) → k ≤ i → i < n → Values buf i high low → get_or r i 0 ≡ 16 * high + low
  pub others : (i : ℕ) → (i < k) ⊎ (n ≤ i) → get_or r i 0 ≡ get_or buf i 0

module _ (k : ℕ) (buf : List ℕ) {high low : ℕ} (h : 2 * k + 2 ≤ length buf)
    (d : Values buf k high low) where
  abbrev first_half : List ℕ
  first_half = set buf k (u8 (16 * high))

  abbrev decoded : List ℕ
  decoded = set first_half k (u8 (get_or first_half k 0 + low))

  half_lem : get_or first_half k 0 ≡ 16 * high
  half_lem =
      get_or-set_self buf k (u8 (16 * high)) 0 (omega arith)
      ∙ omega (arith, hex_value-lt (get_or buf (2 * k) 0) d.first)

  length-decoded : length decoded ≡ length buf
  length-decoded = length-set first_half k _ ∙ length-set buf k (u8 (16 * high))

  decoded_here : get_or decoded k 0 ≡ 16 * high + low
  decoded_here =
      get_or-set_self first_half k _ 0 (omega (arith, length-set buf k (u8 (16 * high))))
      ∙ omega (
        arith,
        half_lem,
        hex_value-lt (get_or buf (2 * k) 0) d.first,
        hex_value-lt (get_or buf (2 * k + 1) 0) d.second,
      )

  decoded_apart : (i : ℕ) → k ≢ i → get_or decoded i 0 ≡ get_or buf i 0
  decoded_apart i ne =
      get_or-set_ne first_half k i _ 0 ne ∙ get_or-set_ne buf k i (u8 (16 * high)) 0 ne

  -- The second digit is read after the first half has been written, in front of it.
  second_digit : hex_value (get_or first_half (2 * k + 1) 0) ≡ some low
  second_digit =
      ap hex_value (get_or-set_ne buf k (2 * k + 1) (u8 (16 * high)) 0 (ground arith)) ∙ d.second

  round : (left : ℕ) → unbase16_loop (suc left) k buf ≡ unbase16_loop left (k + 1) decoded
  unfolding unbase16_loop
  round left = ap (next left k) both
    where
      next : ℕ → ℕ → List ℕ × Bool → List ℕ × Bool
      next left k (b, valid) = if valid then unbase16_loop left (k + 1) b else (b, false)

      both : with_high buf k (hex_value (get_or buf (2 * k) 0)) ≡ (decoded, true)
      both = ap (with_high buf k) d.first ∙ ap (with_low first_half k) second_digit

  moved : (i : ℕ) {high' low' : ℕ} → k < i → Values buf i high' low' → Values decoded i high' low'
  moved i lt d' = record {
    first = ap hex_value (decoded_apart (2 * i) (ground arith)) ∙ d'.first;
    second = ap hex_value (decoded_apart (2 * i + 1) (ground arith)) ∙ d'.second;
  }

  bytes_round :
      (r : List ℕ) (n : ℕ)
      → Filled decoded r (k + 1) n
      → (i high' low' : ℕ) → k ≤ i
      → i < n
      → Values buf i high' low'
      → get_or r i 0 ≡ 16 * high' + low'
  bytes_round r n dec i high' low' lo hi d' = elim (Bool-cases (k == i)) [
    | inl same ↦
        let at_i : i ≡ k = sym (==→eq k i same) in
        let d2 = subst (λ j. Values buf j high' low') at_i d' in
        let e1 : high ≡ high' = some_eq (sym d.first ∙ d2.first) in
        let e2 : low ≡ low' = some_eq (sym d.second ∙ d2.second) in
        ap (λ j. get_or r j 0) at_i
        ∙ dec.others k (inl (omega arith))
        ∙ decoded_here
        ∙ ap₂ (λ x y. 16 * x + y) e1 e2
    | inr apart ↦
        let lt : k < i = ground arith in dec.bytes i high' low' (omega arith) hi (moved i lt d')
  ]

-- If all digits are valid the loop returns 0, and the bytes are theirs.
loop-Filled :
    (left k : ℕ) (buf : List ℕ)
    → 2 * (k + left) ≤ length buf
    → ((i : ℕ) → k ≤ i → i < k + left → (high : ℕ) × (low : ℕ) × Values buf i high low)
    → (r : List ℕ) × (unbase16_loop left k buf ≡ (r, true)) × Filled buf r k (k + left)
unfolding unbase16_loop
loop-Filled zero k buf h all = (
  buf,
  refl,
  record {
    size = refl;
    bytes = λ i high low lo hi d. absurd (omega arith);
    others = λ i apart. refl;
  },
)
loop-Filled (suc left) k buf h all =
    let (high, low, d) = all k (omega arith) (omega arith) in
    let fit : 2 * k + 2 ≤ length buf = omega arith in
    let buf' = decoded k buf fit d in
    let apart = decoded_apart k buf fit d in
    let end : k + suc left ≡ k + 1 + left = omega arith in
    let (r, e, dec) =
      loop-Filled left (k + 1) buf' (omega (arith, length-decoded k buf fit d)) (λ i lo hi.
        let (high', low', d') = all i (omega arith) (omega arith) in
        (high', low', moved k buf fit d i (omega arith) d')) in
    (
      r,
      round k buf fit d left ∙ e,
      record {
        size = dec.size ∙ length-decoded k buf fit d;
        bytes = λ i high' low' lo hi d'.
            bytes_round k buf fit d r (k + suc left) (subst (Filled buf' r (k + 1)) (sym end) dec) i
              high' low' lo hi d';
        others = λ i off. dec.others i (omega arith) ∙ apart i (ground arith);
      },
    )

unbase16_even :
    (buf : List ℕ) (n : ℕ) {r : List ℕ × Bool}
    → unbase16_loop n 0 buf ≡ r
    → unbase16 buf (2 * n) ≡ some r
unfolding unbase16
unbase16_even buf n e =
    let half : 2 * n / 2 ≡ n = omega arith in
    let even : (2 * n % 2 == 0) ≡ true = ground arith in rw (even, half, e) refl

-- A round stops at a digit that is not valid.
round_fails :
    (left k : ℕ) (buf : List ℕ)
    → 2 * k + 2 ≤ length buf
    → (hex_value (get_or buf (2 * k) 0) ≡ none) ⊎ (hex_value (get_or buf (2 * k + 1) 0) ≡ none)
    → (r : List ℕ) × (unbase16_loop (suc left) k buf ≡ (r, false))
unfolding unbase16_loop
round_fails left k buf h bad = elim (Option-cases (hex_value (get_or buf (2 * k) 0))) [
  | inl nothing ↦ (buf, stop (ap (with_high buf k) nothing))
  | inr (high, e) ↦ elim bad [
    | inl nothing ↦ absurd (ground (arith, e, nothing))
    | inr nothing ↦
        let buf1 = set buf k (u8 (16 * high)) in
        let second =
          ap hex_value (get_or-set_ne buf k (2 * k + 1) (u8 (16 * high)) 0 (ground arith))
          ∙ nothing in
        (buf1, stop (ap (with_high buf k) e ∙ ap (with_low buf1 k) second))
  ]
]
  where
    stop :
        {x : List ℕ × Bool} {r : List ℕ}
        → x ≡ (r, false)
        → (let (b, valid) = x in
            let rest = unbase16_loop left (k + 1) b in if valid then rest else (b, false))
          ≡ (r, false)
    stop e = rw e refl

loop_fails :
    (left k j : ℕ) (buf : List ℕ)
    → 2 * (k + left) ≤ length buf
    → k ≤ j
    → j < k + left
    → ((i : ℕ) → k ≤ i → i < j → (high : ℕ) × (low : ℕ) × Values buf i high low)
    → (hex_value (get_or buf (2 * j) 0) ≡ none) ⊎ (hex_value (get_or buf (2 * j + 1) 0) ≡ none)
    → (r : List ℕ) × (unbase16_loop left k buf ≡ (r, false))
loop_fails zero k j buf h lo hi all bad = absurd (omega arith)
loop_fails (suc left) k j buf h lo hi all bad = elim (Bool-cases (k == j)) [
  | inl same ↦
      let e = ==→eq k j same in
      round_fails left k buf (omega arith) (
        subst
          (λ i.
            (hex_value (get_or buf (2 * i) 0) ≡ none)
            ⊎ (hex_value (get_or buf (2 * i + 1) 0) ≡ none))
          (sym e) bad)
  | inr apart ↦
      let (high, low, d) = all k (omega arith) (ground arith) in
      let fit : 2 * k + 2 ≤ length buf = omega arith in
      let kept = decoded_apart k buf fit d in
      let (r, e) =
        loop_fails left (k + 1) j (decoded k buf fit d) (omega (arith, length-decoded k buf fit d))
          (ground arith) (omega arith)
          (λ i lo hi.
            let (high', low', d') = all i (omega arith) hi in
            (high', low', moved k buf fit d i (omega arith) d'))
          (elim bad [
            | inl nothing ↦ inl (ap hex_value (kept (2 * j) (ground arith)) ∙ nothing)
            | inr nothing ↦ inr (ap hex_value (kept (2 * j + 1) (ground arith)) ∙ nothing)
          ]) in
      (r, round k buf fit d left ∙ e)
]

front : (v : ℕ) → 0 + v ≡ v
front v = omega arith

-- The hexadecimal digits, each at the place of its value.
abbrev pub lower_digits : List ℕ
lower_digits = codes "0123456789abcdef"

abbrev pub upper_digits : List ℕ
upper_digits = codes "0123456789ABCDEF"

abbrev pub IsDigit : ℕ → ℕ → Type 0
IsDigit c v = (v < 16) × ((c ≡ get_or lower_digits v 0) ⊎ (c ≡ get_or upper_digits v 0))

-- The two digits of byte `k` are those of the values `high` and `low`.
pub record Digits (buf : List ℕ) (k high low : ℕ) : Type 0 where
  pub first : IsDigit (get_or buf (2 * k) 0) high
  pub second : IsDigit (get_or buf (2 * k + 1) 0) low

-- The first `n` bytes of `r` are those that the digits of `buf` stand for, and the others are kept.
pub record Decoded (buf r : List ℕ) (n : ℕ) : Type 0 where
  pub size : length r ≡ length buf
  pub bytes : (i high low : ℕ) → i < n → Digits buf i high low → get_or r i 0 ≡ 16 * high + low
  pub others : (i : ℕ) → n ≤ i → get_or r i 0 ≡ get_or buf i 0

-- The tests of `unbase16` give the digits the values from `v` on.
abbrev InTurn : ℕ → List ℕ → Type 0
InTurn v [] = Unit
InTurn v (c ∷ cs) = (hex_value c ≡ some v) × InTurn (suc v) cs

hex_value_at :
    (cs : List ℕ) (v i : ℕ) → InTurn v cs → i < length cs → hex_value (get_or cs i 0) ≡ some (v + i)
hex_value_at [] v i h lt = absurd (omega arith)
hex_value_at (c ∷ cs) v zero h lt = let same : v ≡ v + 0 = omega arith in h.0 ∙ ap some same
hex_value_at (c ∷ cs) v (suc i) h lt =
    let same : suc v + i ≡ v + suc i = omega arith in
    hex_value_at cs (suc v) i h.1 (omega arith) ∙ ap some same

lower_each : InTurn 0 lower_digits
unfolding hex_value
lower_each = (
  refl,
  (
    refl,
    (
      refl,
      (
        refl,
        (
          refl,
          (
            refl,
            (refl, (refl, (refl, (refl, (refl, (refl, (refl, (refl, (refl, (refl, tt)))))))))),
          ),
        ),
      ),
    ),
  ),
)

upper_each : InTurn 0 upper_digits
unfolding hex_value
upper_each = (
  refl,
  (
    refl,
    (
      refl,
      (
        refl,
        (
          refl,
          (
            refl,
            (refl, (refl, (refl, (refl, (refl, (refl, (refl, (refl, (refl, (refl, tt)))))))))),
          ),
        ),
      ),
    ),
  ),
)

hex_value-IsDigit : (c v : ℕ) → IsDigit c v → hex_value c ≡ some v
hex_value-IsDigit c v (lt, inl small) =
    ap hex_value small
    ∙ hex_value_at lower_digits 0 v lower_each (omega (arith, lt))
    ∙ ap some (front v)
hex_value-IsDigit c v (lt, inr large) =
    ap hex_value large
    ∙ hex_value_at upper_digits 0 v upper_each (omega (arith, lt))
    ∙ ap some (front v)

Digits-Values : {buf : List ℕ} {k high low : ℕ} → Digits buf k high low → Values buf k high low
Digits-Values d = record {
  first = hex_value-IsDigit _ _ d.first;
  second = hex_value-IsDigit _ _ d.second;
}

-- A whole text of hexadecimal digits, small or capital, in front of the buffer: 0 is returned, the
-- first bytes are those that the digits stand for, and the rest of the buffer is kept.
pub unbase16_lem :
    (buf : List ℕ) (n : ℕ)
    → 2 * n ≤ length buf
    → ((i : ℕ) → i < n → (high : ℕ) × (low : ℕ) × Digits buf i high low)
    → (r : List ℕ) × (unbase16 buf (2 * n) ≡ some (r, true)) × Decoded buf r n
unbase16_lem buf n h all =
    let (r, e, dec) =
      loop-Filled n 0 buf (omega arith)
        (λ i lo hi. let (high, low, d) = all i (omega arith) in (high, low, Digits-Values d)) in
    (
      r,
      unbase16_even buf n e,
      record {
        size = dec.size;
        bytes =
            λ i high low lt d. dec.bytes i high low (omega arith) (omega arith) (Digits-Values d);
        others = λ i le. dec.others i (inr (omega arith));
      },
    )

-- The first byte that is no digit makes it return -1.
pub unbase16_invalid :
    (buf : List ℕ) (n k : ℕ)
    → k < n
    → 2 * n ≤ length buf
    → ((i : ℕ) → i < k → (high : ℕ) × (low : ℕ) × Values buf i high low)
    → (hex_value (get_or buf (2 * k) 0) ≡ none) ⊎ (hex_value (get_or buf (2 * k + 1) 0) ≡ none)
    → (r : List ℕ) × (unbase16 buf (2 * n) ≡ some (r, false))
unbase16_invalid buf n k lt h all bad =
    let (r, e) =
      loop_fails n 0 k buf (omega arith) (omega arith) (omega arith) (λ i lo hi. all i hi) bad in
    (r, unbase16_even buf n e)
