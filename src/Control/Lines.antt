-- ===== src/Control/Lines.antt =====
-- A line that arrives in pieces.
use mathlib.Core.List.{append-nil}
use scubed.Base.{
  ℕ, zero, suc, ◌+◌, ◌-◌, ◌<◌, ◌≤◌, ◌≡◌, refl, sym, ◌∙◌, ap, subst, List, [], ◌∷◌, ◌++◌, Option,
  some, Bool, true, false, ◌==◌, leb, le→leb, length, get_or, set, replicate, All, arith,
  get_or-set_self, get_or-set_ne, length-set, Bool-cases, inl, inr, ltb, ltb→lt, eq→==,
  length-replicate, get_or-replicate,
}
use scubed.Binio.Memory.{poke, length-poke, get_or-poke_before}
use scubed.Binio.Part.{part, get_or-poke_at}
use scubed.Control.Receive.{Receiver, buf_size, until_nul, wipe, each_line, received}
use scubed.Control.Standing.{
  All-behind, Plain, Stands, back, below, ends_so, get_or-append, get_or-append_behind,
  length-append, moved-Stands, no_zero, until_nul-line,
}

module _ {S : Type 0} (call : S → List ℕ → Option (S × Bool)) where
  -- The loop passes plain bytes.
  each_line-Plain :
      (xs : List ℕ) (n left : ℕ) (s : S) (buf : List ℕ) (i start : ℕ)
      → n ≡ length xs + left
      → All Plain xs
      → Stands buf i xs
      → each_line call n s buf i start ≡ each_line call left s buf (i + length xs) start
  unfolding each_line
  each_line-Plain [] n left s buf i start e plain stands =
      let same : n ≡ left = omega (arith, e) in
      let here : i ≡ i + 0 = omega arith in
      ap (λ m. each_line call m s buf i start) same
      ∙ ap (λ j. each_line call left s buf j start) here
  each_line-Plain (x ∷ xs) zero left s buf i start e plain stands = absurd (omega (arith, e))
  each_line-Plain (x ∷ xs) (suc n) left s buf i start e plain stands =
      let zero_on : i ≡ i + 0 = omega arith in
      let here : get_or buf i 0 ≡ x = ap (λ j. get_or buf j 0) zero_on ∙ stands 0 (omega arith) in
      let goes_on : (get_or buf i 0 == b'\n') ≡ false =
        ap (λ c. c == b'\n') here ∙ plain.0.no_end in
      let next : i + 1 + length xs ≡ i + suc (length xs) = omega arith in
      let rest = each_line-Plain xs n left s buf (i + 1) start (omega (arith, e)) plain.1 (λ k lt.
        let shift : i + 1 + k ≡ i + suc k = omega arith in
        ap (λ j. get_or buf j 0) shift ∙ stands (suc k) (omega arith)) in
      rw (goes_on) (rest ∙ ap (λ j. each_line call left s buf j start) next)

  -- What the receiver holds of a line.
  pub record Holds (front : List ℕ) (r : Receiver S) : Type 0 where
    pub sized : length r.buf ≡ buf_size
    pub filled : r.buf_len ≡ length front
    pub stands : Stands r.buf 0 front

  module _ (r : Receiver S) (front p : List ℕ) (h : Holds front r) (tail : List ℕ)
      (room : length front + (length p + length tail) ≤ buf_size) where
    abbrev buf' : List ℕ
    buf' = poke r.buf r.buf_len (p ++ tail)

    size' : length buf' ≡ buf_size
    size' = length-poke r.buf r.buf_len (p ++ tail) ∙ h.sized

    -- The new bytes stand behind those that were held.
    new-Stands : Stands buf' r.buf_len (p ++ tail)
    new-Stands k lt =
        get_or-poke_at r.buf r.buf_len (p ++ tail) (r.buf_len + k)
          (omega (arith, h.sized, h.filled, room, length-append p tail)) (omega arith) (omega arith)
        ∙ ap (λ j. get_or (p ++ tail) j 0) (back r.buf_len k)

    whole-Stands : Stands buf' 0 (front ++ p)
    whole-Stands k lt = elim (Bool-cases (ltb k (length front))) [
      | inl old ↦
          let before = ltb→lt _ _ old in
          get_or-poke_before r.buf r.buf_len (p ++ tail) (0 + k) (omega (arith, h.filled))
          ∙ h.stands k before
          ∙ sym (get_or-append front p k before)
      | inr new ↦
          let d = k - length front in
          let le : length front ≤ k = ground arith in
          let inside : d < length p = omega (arith, length-append front p, lt, le) in
          let at : 0 + k ≡ r.buf_len + d = omega (arith, h.filled, le) in
          let same : k ≡ length front + d = omega (arith, le) in
          ap (λ j. get_or buf' j 0) at
          ∙ new-Stands d (omega (arith, length-append p tail, inside))
          ∙ get_or-append p tail d inside
          ∙ sym (get_or-append_behind front p d)
          ∙ sym (ap (λ j. get_or (front ++ p) j 0) same)
    ]

  -- A piece without the end of the line is kept behind what was held, and no command is called.
  pub received-piece :
      (r : Receiver S) (front p : List ℕ)
      → Holds front r
      → All Plain p
      → length front + length p < buf_size
      → (r' : Receiver S) × (received call r p ≡ some (r', false))
        × (r'.state ≡ r.state)
        × Holds (front ++ p) r'
  unfolding received each_line
  received-piece r front p h plain room =
      let b = poke r.buf r.buf_len p in
      let rest = r.buf_len + length p in
      let size = length-poke r.buf r.buf_len p ∙ h.sized in
      let passed = each_line-Plain p (length p) 0 r.state b r.buf_len 0 (omega arith) plain (λ k lt.
        get_or-poke_at r.buf r.buf_len p (r.buf_len + k) (omega (arith, h.sized, h.filled, room))
          (omega arith) (omega arith)
        ∙ ap (λ j. get_or p j 0) (back r.buf_len k)) in
      let more : (rest == buf_size) ≡ false = below rest buf_size (omega (arith, h.filled, room)) in
      (
        record { state = r.state; buf = poke b 0 (part b 0 rest); buf_len = rest },
        rw (passed, no_zero rest, more) refl,
        refl,
        record {
          sized = length-poke b 0 (part b 0 rest) ∙ size;
          filled = omega (arith, h.filled, length-append front p);
          stands =
              moved-Stands b (front ++ p) rest (omega (arith, h.filled, length-append front p))
                (omega (arith, h.filled, room, size))
                (subst (λ q. Stands (poke r.buf r.buf_len q) 0 (front ++ p)) (append-nil p)
                  (whole-Stands r front p h [] (omega (arith, room))));
        },
      )

  -- The end of a line that began at the front of the buffer.
  each_line-end :
      (s s' : S) (b line : List ℕ) (i : ℕ)
      → i ≡ length line
      → i < length b
      → All Plain line
      → Stands b 0 line
      → get_or b i 0 ≡ b'\n'
      → call s line ≡ some (s', false)
      → each_line call 1 s b i 0 ≡ some (s', poke (set b i 0) 0 (replicate i 0), i + 1, false)
  unfolding each_line wipe
  each_line-end s s' b line i e inside plain stands ends answered =
      let ended = set b i 0 in
      let text : until_nul ended ≡ line =
        until_nul-line line ended plain
          (λ k lt.
            let front : 0 + k ≡ k = omega arith in
            get_or-set_ne b i k 0 0 (omega (arith, e))
            ∙ sym (ap (λ j. get_or b j 0) front)
            ∙ stands k lt)
          (ap (λ j. get_or ended j 0) (sym e) ∙ get_or-set_self b i 0 0 inside) in
      let fits : leb (0 + i) (length ended) ≡ true =
        le→leb _ _ (omega (arith, inside, length-set b i 0)) in
      let newline : (get_or b i 0 == b'\n') ≡ true = eq→== _ _ ends in
      rw (newline, text, answered, fits) refl

  -- The last piece of a line: the command is called once, with all of the line, and its bytes are
  -- wiped from the buffer, which is then empty.
  pub received-end :
      (r : Receiver S) (front p : List ℕ) (s' : S)
      → Holds front r
      → All Plain (front ++ p)
      → length front + length p < buf_size
      → call r.state (front ++ p) ≡ some (s', false)
      → (r' : Receiver S) × (received call r (p ++ (b'\n' ∷ [])) ≡ some (r', false))
        × (r'.state ≡ s')
        × Holds [] r'
        × ((k : ℕ) → k < length (front ++ p) → get_or r'.buf k 0 ≡ 0)
  unfolding received
  received-end r front p s' h plain room answered =
      let bytes = p ++ (b'\n' ∷ []) in
      let b = poke r.buf r.buf_len bytes in
      let i = r.buf_len + length p in
      let wide = length-append front p in
      let more = length-append p (b'\n' ∷ []) in
      let size = length-poke r.buf r.buf_len bytes ∙ h.sized in
      let whole = whole-Stands r front p h (b'\n' ∷ []) (omega (arith, room)) in
      let new = new-Stands r front p h (b'\n' ∷ []) (omega (arith, room)) in
      let ends : get_or b i 0 ≡ b'\n' = new (length p) (omega (arith, more)) ∙ ends_so p in
      let wiped = poke (set b i 0) 0 (replicate i 0) in
      let passed =
        each_line-Plain p (length bytes) 1 r.state b r.buf_len 0 (omega (arith, more))
          (All-behind Plain front p plain)
          (λ k lt. new k (omega (arith, more)) ∙ get_or-append p (b'\n' ∷ []) k lt) in
      let last =
        each_line-end r.state s' b (front ++ p) i (omega (arith, h.filled, wide))
          (omega (arith, h.filled, room, size)) plain whole ends answered in
      let none_left : r.buf_len + length bytes - (i + 1) ≡ 0 = omega (arith, more) in
      (
        record { state = s'; buf = wiped; buf_len = 0 },
        rw (passed, last, none_left) refl,
        refl,
        record {
          sized = length-poke (set b i 0) 0 (replicate i 0) ∙ length-set b i 0 ∙ size;
          filled = refl;
          stands = λ k lt. absurd (omega arith);
        },
        λ k lt.
            get_or-poke_at (set b i 0) 0 (replicate i 0) k
              (omega (arith, size, h.filled, room, length-set b i 0, length-replicate {A = ℕ} i 0))
              (omega arith) (omega (arith, wide, h.filled, length-replicate {A = ℕ} i 0))
            ∙ get_or-replicate i (k - 0) 0,
      )
