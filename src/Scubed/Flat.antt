-- ===== src/Scubed/Flat.antt =====
-- Reading through `do_req`: the bytes of the flat address space, whatever mesoblocks they lie in.
use native.Mathlib.Nat.{
  mod-lt, div-lt_iff_lt-mul, add-mod_right, add-mul, one-mul, lt_of_not-le, not-le_of_lt,
  mul-le-mul_right, mul-add-div_right, div-eq_of_lt, mul-add-mod_self_right, mod-eq_of_lt,
  div-add-mod', one-le-pow,
}
use scubed.Base.{
  ℕ, zero, suc, ◌+◌, ◌-◌, ◌*◌, ◌/◌, ◌%◌, ◌^◌, ◌≤◌, ◌<◌, ◌≡◌, refl, sym, ◌∙◌, ap, ap₂, subst, List,
  some, leb, ltb, ◌==◌, u32, u64, ◌>>>◌, arith, length, get_or, Bool-cases, inl, inr, ltb→lt,
  bind_some, false, leb-false, leb→le, ==→eq,
}
use scubed.Binio.Memory.{poke, length-poke, get_or-poke_before, get_or-poke_behind}
use scubed.Binio.Part.{part, length-part, get_or-part, get_or-poke_at}
use scubed.Scubed.State.{Base, Cipher, Volume, mesoblk_size}
use scubed.Scubed.Request.{do_read}
use scubed.Scubed.Transfer.{read, Progress, act, act_first, act_whole, act_last, do_req}
use scubed.Scubed.Address.{Geometry}
use scubed.Scubed.Contents.{content, Consistent}
use scubed.Scubed.Read.{do_read_lem, length-content}

-- The byte at the address `j` of the device.
abbrev pub device_byte : (b : Base) → Cipher (mesoblk_size b) → Volume → ℕ → ℕ → ℕ
device_byte b c v cur j = get_or (content b c v cur (j / mesoblk_size b)) (j % mesoblk_size b) 0

mesoblk_size-pos : (b : Base) → 0 < mesoblk_size b
mesoblk_size-pos b = omega (arith, one-le-pow b.mesoblk_log 2 (omega arith))

around : (x y : ℕ) → 1 ≤ x → x + y - 1 ≡ (x - 1) + y
around x y h = omega arith

suc_one : (n : ℕ) → suc n + 1 ≡ n + 1 + 1
suc_one n = omega arith

-- The first `n` bytes of the buffer have been read from `r_offset` on.
pub record Filled (b : Base) (c : Cipher (mesoblk_size b)) (v : Volume) (cur r_offset : ℕ)
    (buf0 buf : List ℕ) (n : ℕ) : Type 0 where
  pub size : length buf ≡ length buf0
  pub done : (j : ℕ) → j < n → get_or buf j 0 ≡ device_byte b c v cur (r_offset + j)
  pub rest : (j : ℕ) → n ≤ j → get_or buf j 0 ≡ get_or buf0 j 0

module _ (s m i : ℕ) (h : i < s) where
  quotient : (m * s + i) / s ≡ m
  quotient = omega (arith, mul-add-div_right {m = s} (omega arith) m i, div-eq_of_lt h)

  remainder : (m * s + i) % s ≡ i
  remainder = mul-add-mod_self_right m s i ∙ mod-eq_of_lt h

multiples-lt : (s m n : ℕ) → m * s < n * s → m < n
multiples-lt s m n h = lt_of_not-le (λ le. not-le_of_lt h (mul-le-mul_right s le))

module _ {b : Base} (g : Geometry b) (c : Cipher (mesoblk_size b)) {v : Volume} {cur : ℕ}
    (k : Consistent b v cur) (r_offset : ℕ) (buf0 : List ℕ) where
  device_byte_lem :
      (m i : ℕ)
      → i < mesoblk_size b
      → device_byte b c v cur (m * mesoblk_size b + i) ≡ get_or (content b c v cur m) i 0
  device_byte_lem m i h =
      ap₂ (λ x y. get_or (content b c v cur x) y 0) (quotient (mesoblk_size b) m i h)
        (remainder (mesoblk_size b) m i h)

  -- A part of one mesoblock behind what has been read.
  read-Filled :
      (buf : List ℕ) (m at n size : ℕ)
      → Filled b c v cur r_offset buf0 buf n
      → m * mesoblk_size b + at ≡ r_offset + n
      → at + size ≤ mesoblk_size b
      → n + size ≤ length buf0
      → Filled b c v cur r_offset buf0 (poke buf n (part (content b c v cur m) at size)) (n + size)
  read-Filled buf m at n size f place inside fits =
      let bytes = part (content b c v cur m) at size in
      let wide =
        length-part (content b c v cur m) at size (omega (arith, length-content g c k m)) in
      record {
        size = length-poke buf n bytes ∙ f.size;
        done = λ j lt. elim (Bool-cases (ltb j n)) [
          | inl before ↦
              get_or-poke_before buf n bytes j (ltb→lt _ _ before) ∙ f.done j (ltb→lt _ _ before)
          | inr here ↦
              let lo : n ≤ j = ground arith in
              let address : m * mesoblk_size b + (at + (j - n)) ≡ r_offset + j = omega arith in
              get_or-poke_at buf n bytes j (omega (arith, wide, f.size)) lo (omega (arith, wide))
              ∙ get_or-part (content b c v cur m) at size (j - n) (at + (j - n)) (omega arith) refl
              ∙ sym (device_byte_lem m (at + (j - n)) (omega arith))
              ∙ ap (device_byte b c v cur) address
        ];
        rest =
            λ j lo. get_or-poke_behind buf n bytes j (omega (arith, wide)) ∙ f.rest j (omega arith);
      }

  -- Where a read of `total` bytes stands: at `at` in the mesoblock `p.meso`, unless it is done.
  record Reading (total : ℕ) (p : Progress) (at : ℕ) : Type 0 where
    pub volume : p.volume ≡ v
    pub filled : Filled b c v cur r_offset buf0 p.buf p.ooff
    pub place : 0 < p.size → p.meso * mesoblk_size b + at ≡ r_offset + p.ooff
    pub left : p.ooff + p.size ≡ total

  module _ (total : ℕ) (fits : total ≤ length buf0) (short : total < 2 ^ 32)
      (inside : r_offset + total ≤ v.no_block_indices * mesoblk_size b)
      (few : v.no_block_indices < 2 ^ 32) where
    -- What a part of `size` bytes does.
    record Step (p p' : Progress) (size : ℕ) : Type 0 where
      pub volume : p'.volume ≡ v
      pub filled : Filled b c v cur r_offset buf0 p'.buf p'.ooff
      pub left : p'.ooff + p'.size ≡ total
      pub meso : p'.meso ≡ p.meso + 1
      pub ooff : p'.ooff ≡ p.ooff + size
      pub size_left : p'.size ≡ p.size - size

    meso-lt : (p : Progress) (at : ℕ) → Reading total p at → 0 < p.size → p.meso + 1 < 2 ^ 32
    meso-lt p at r some_left =
        let below : p.meso < v.no_block_indices =
          multiples-lt (mesoblk_size b) p.meso v.no_block_indices
            (omega (arith, r.place some_left, r.left)) in
        omega arith

    act_lem :
        (fuel : ℕ) (p : Progress) (at size : ℕ)
        → Reading total p at
        → 0 < p.size
        → size ≤ p.size
        → at + size ≤ mesoblk_size b
        → (p' : Progress) × (act b c fuel read p at size ≡ some p') × Step p p' size
    unfolding act
    act_lem fuel p at size r some_left h within =
        let out = part (content b c v cur p.meso) at size in
        let far : u32 (p.ooff + size) ≡ p.ooff + size = omega (arith, r.left) in
        let next : u32 (p.meso + 1) ≡ p.meso + 1 = mod-eq_of_lt (meso-lt p at r some_left) in
        (
          record p {
            buf = poke p.buf p.ooff out;
            meso = u32 (p.meso + 1);
            size = p.size - size;
            ooff = u32 (p.ooff + size);
          },
          bind_some _ (
              ap (λ w. do_read b c w p.meso at size) r.volume
              ∙ do_read_lem g c k p.meso at size within),
          record {
            volume = r.volume;
            filled = subst (Filled b c v cur r_offset buf0 (poke p.buf p.ooff out)) (sym far) (
                read-Filled p.buf p.meso at p.ooff size r.filled (r.place some_left) within
                  (omega (arith, r.left)));
            left = omega (arith, r.left, far);
            meso = next;
            ooff = far;
            size_left = refl;
          },
        )

    -- A part that ends a mesoblock, or the request, leads to the start of the next one.
    Step-Reading :
        {p p' : Progress} {at size : ℕ}
        → Reading total p at
        → 0 < p.size
        → Step p p' size
        → (0 < p'.size → at + size ≡ mesoblk_size b)
        → Reading total p' 0
    Step-Reading {p} {p'} {at} {size} r some_left s e = record {
      volume = s.volume;
      filled = s.filled;
      place = λ more.
          ap (λ (x : ℕ). x * mesoblk_size b + 0) s.meso
          ∙ omega (
            arith,
            add-mul p.meso 1 (mesoblk_size b),
            one-mul (mesoblk_size b),
            r.place some_left,
            s.ooff,
            e more,
          );
      left = s.left;
    }

    first-Reading :
        (fuel : ℕ) (p : Progress) (at : ℕ)
        → Reading total p at
        → 0 < p.size
        → at < mesoblk_size b
        → (p' : Progress) × (act_first b c fuel read p at ≡ some p')
          × Reading total p' 0
          × (p'.size ≤ p.size)
    unfolding act_first
    first-Reading fuel p at r some_left lt = elim (Bool-cases (at == 0)) [
      | inl start ↦
          let zero_at : at ≡ 0 = ==→eq _ _ start in
          (p, rw (start) refl, subst (Reading total p) zero_at r, omega arith)
      | inr within ↦ elim (Bool-cases (leb (at + p.size) (mesoblk_size b))) [
        | inl short_one ↦
            let (p', e, s) =
              act_lem fuel p at p.size r some_left (omega arith) (leb→le _ _ short_one) in
            (
              p',
              rw (within, short_one) e,
              Step-Reading r some_left s (λ more. absurd (omega (arith, more, s.size_left))),
              omega (arith, s.size_left),
            )
        | inr long ↦
            let (p', e, s) =
              act_lem fuel p at (mesoblk_size b - at) r some_left (ground arith) (omega arith) in
            (
              p',
              rw (within, long) e,
              Step-Reading r some_left s (λ more. omega arith),
              omega (arith, s.size_left),
            )
      ]
    ]

    whole-Reading :
        (fuel left : ℕ) (p : Progress)
        → Reading total p 0
        → p.size < (left + 1) * mesoblk_size b
        → (p' : Progress) × (act_whole b c fuel left read p ≡ some p')
          × Reading total p' 0
          × (p'.size < mesoblk_size b)
    unfolding act_whole
    whole-Reading fuel zero p r h = (p, refl, r, omega (arith, one-mul (mesoblk_size b)))
    whole-Reading fuel (suc left) p r h = elim (Bool-cases (leb (mesoblk_size b) p.size)) [
      | inl long ↦
          let enough = leb→le _ _ long in
          let some_left : 0 < p.size = omega (arith, mesoblk_size-pos b) in
          let (p', e, s) = act_lem fuel p 0 (mesoblk_size b) r some_left enough (omega arith) in
          let next = Step-Reading r some_left s (λ more. omega arith) in
          let (q, e2, r2, h2) = whole-Reading fuel left p' next (
            omega (
              arith,
              s.size_left,
              add-mul (left + 1) 1 (mesoblk_size b),
              one-mul (mesoblk_size b),
              ap (λ (x : ℕ). x * mesoblk_size b) (suc_one left),
            )) in
          (q, rw (long) (bind_some _ e ∙ e2), r2, h2)
      | inr done ↦ (p, rw (done) refl, r, ground arith)
    ]

    last-Filled :
        (fuel : ℕ) (p : Progress)
        → Reading total p 0
        → p.size < mesoblk_size b
        → (p' : Progress) × (act_last b c fuel read p ≡ some p')
          × (p'.volume ≡ v)
          × Filled b c v cur r_offset buf0 p'.buf total
    unfolding act_last
    last-Filled fuel p r h = elim (Bool-cases (ltb 0 p.size)) [
      | inl more ↦
          let some_left = ltb→lt _ _ more in
          let (p', e, s) = act_lem fuel p 0 p.size r some_left (omega arith) (omega arith) in
          (
            p',
            rw (more) e,
            s.volume,
            subst (Filled b c v cur r_offset buf0 p'.buf) (omega (arith, s.ooff, r.left)) s.filled,
          )
      | inr done ↦
          let nothing : p.size ≡ 0 = ground arith in
          (
            p,
            rw (done) refl,
            r.volume,
            subst (Filled b c v cur r_offset buf0 p.buf) (omega (arith, r.left)) r.filled,
          )
    ]

    starting-Reading :
        (p : Progress)
        → p.volume ≡ v
        → p.buf ≡ buf0
        → p.ooff ≡ 0
        → p.size ≡ total
        → p.meso ≡ r_offset / mesoblk_size b
        → Reading total p (r_offset % mesoblk_size b)
    starting-Reading p ev eb eo es em = record {
      volume = ev;
      filled = record {
        size = ap length eb;
        done = λ j h. absurd (omega (arith, eo));
        rest = λ j h. ap (λ xs. get_or xs j 0) eb;
      };
      place = λ more.
          ap (λ (x : ℕ). x * mesoblk_size b + r_offset % mesoblk_size b) em
          ∙ div-add-mod' r_offset (mesoblk_size b)
          ∙ omega (arith, eo);
      left = omega (arith, eo, es);
    }

  -- A request to read inside the device fills the first `size` bytes of the buffer from the flat
  -- address space.
  pub do_req-read :
      (fuel size : ℕ)
      → size ≤ length buf0
      → 0 < size
      → size < 2 ^ 32
      → r_offset + size ≤ 2 ^ 64
      → r_offset + size ≤ v.no_block_indices * mesoblk_size b
      → v.no_block_indices < 2 ^ 32
      → (buf : List ℕ) × (do_req b c fuel read v r_offset size buf0 ≡ some (v, buf, 1))
        × Filled b c v cur r_offset buf0 buf size
  unfolding do_req
  do_req-read fuel size fits some_bytes short no_wrap inside few =
      let start : Progress = record {
        volume = v;
        buf = buf0;
        meso = u32 (r_offset >>> b.mesoblk_log);
        size = size;
        ooff = 0;
      } in
      let starting_meso : u32 (r_offset >>> b.mesoblk_log) ≡ r_offset / mesoblk_size b =
        ap (λ (x : ℕ). u32 (r_offset / x)) (sym (one-mul (2 ^ b.mesoblk_log)))
        ∙ mod-eq_of_lt (
            omega (
              arith,
              (div-lt_iff_lt-mul {x = r_offset} {y = v.no_block_indices} (mesoblk_size-pos b)).1
                  (omega arith),
            )) in
      let end : u64 (r_offset + size + 2 ^ 64 - 1) ≡ r_offset + size - 1 =
        ap u64 (around (r_offset + size) (2 ^ 64) (omega arith))
        ∙ add-mod_right (r_offset + size - 1) (2 ^ 64)
        ∙ mod-eq_of_lt (omega arith) in
      let guard : leb v.no_block_indices (u64 (r_offset + size + 2 ^ 64 - 1) >>> b.mesoblk_log)
          ≡ false =
        leb-false _ _ (
          subst (λ (x : ℕ). u64 (r_offset + size + 2 ^ 64 - 1) / x < v.no_block_indices)
            (one-mul (2 ^ b.mesoblk_log))
            ((div-lt_iff_lt-mul (mesoblk_size-pos b)).1 (omega (arith, end)))) in
      let first =
        starting-Reading size fits short inside few start refl refl refl refl starting_meso in
      let (p1, e1, r1, h1) =
        first-Reading size fits short inside few fuel start _ first some_bytes
          (mod-lt r_offset (mesoblk_size-pos b)) in
      let (p2, e2, r2, h2) =
        whole-Reading size fits short inside few fuel (size / mesoblk_size b) p1 r1 (
          omega (
            arith,
            h1,
            add-mul (size / mesoblk_size b) 1 (mesoblk_size b),
            one-mul (mesoblk_size b),
            div-add-mod' size (mesoblk_size b),
            mod-lt size (mesoblk_size-pos b),
          )) in
      let (p3, e3, e4, f) = last-Filled size fits short inside few fuel p2 r2 h2 in
      (
        p3.buf,
        rw (guard)
            (bind_some _ e1 ∙ bind_some _ e2 ∙ bind_some _ e3 ∙ ap (λ w. some (w, p3.buf, 1)) e4),
        f,
      )
