-- ===== src/Random/Uniform.antt =====
-- The limit of `random_custom` is where the last whole run of `count` words ends.
use native.Mathlib.Nat.{zero-mod, mod-lt, mul-div-le, lt-mul-div-succ, div-eq-sub-div}
use scubed.Base.{
  ℕ, suc, ◌+◌, ◌-◌, ◌*◌, ◌/◌, ◌%◌, ◌^◌, ◌≤◌, ◌<◌, ◌≡◌, ◌≢◌, List, [], ◌∷◌, some, arith, ltb,
  if◌then◌else◌, length, inl, inr, ltb-false, Bool-cases, ltb→lt, ◌==◌, ==→eq, false, lt→ltb, u32,
  not,
}
use scubed.Random.{limit, draw, random_custom}

-- For a count of 1 up to `2 ^ 32 - 1`, the 32-bit computation of the limit gives one below the largest
-- multiple of the count up to `2 ^ 32`. A count that is a power of two has a sum that wraps to 0, and
-- the last step wraps back.
pub limit_lem : (c : ℕ) → 0 < c → c < 2 ^ 32 → limit c + 1 ≡ c * (2 ^ 32 / c)
unfolding limit
limit_lem c h k =
    let rest : u32 (0xFFFFFFFF + 2 ^ 32 - c + 1) ≡ 2 ^ 32 - c = omega arith in
    let runs : 2 ^ 32 / c ≡ (2 ^ 32 - c) / c + 1 = div-eq-sub-div h (omega arith) in
    let q = (2 ^ 32 - c) / c in
    let fits : c * q ≤ 2 ^ 32 - c = mul-div-le (2 ^ 32 - c) c in
    let whole : c * (q + 1) ≡ c * q + c = grind arith in
    rw (rest, runs, whole) (omega (arith, fits))

-- A word is accepted exactly if it lies in a whole run.
accepted : (c w : ℕ) → 0 < c → c < 2 ^ 32 → ltb (limit c) w ≡ not (ltb (w / c) (2 ^ 32 / c))
accepted c w h k = elim (Bool-cases (ltb (w / c) (2 ^ 32 / c))) [
  | inl e ↦
      let below : w / c + 1 ≤ 2 ^ 32 / c = omega (arith, ltb→lt (w / c) (2 ^ 32 / c) e) in
      let room : c * (w / c + 1) ≤ c * (2 ^ 32 / c) = grind arith in
      rw e
        (ltb-false (limit c) w (omega (arith, limit_lem c h k, room, lt-mul-div-succ w {b = c} h)))
  | inr e ↦
      let above : 2 ^ 32 / c ≤ w / c = ground arith in
      let room : c * (2 ^ 32 / c) ≤ c * (w / c) = grind arith in
      rw e (lt→ltb (limit c) w (omega (arith, limit_lem c h k, room, mul-div-le w c)))
]

-- For a count of 1 up to `2 ^ 32 - 1`, `random_custom` takes the first word `w` with `w / count`
-- below `2 ^ 32 / count`, gives `w % count`, and skips any other word. So each result stands for
-- the same number of words, `2 ^ 32 / count`.
pub random_custom_lem :
    (c w : ℕ) (ws : List ℕ)
    → 0 < c
    → c < 2 ^ 32
    → random_custom (w ∷ ws) c
      ≡ (if ltb (w / c) (2 ^ 32 / c) then some (w % c, ws) else random_custom ws c)
unfolding random_custom draw
random_custom_lem c w ws h k = ground (arith, accepted c w h k)

draw-lt :
    (top c : ℕ) (ws : List ℕ) {r : ℕ} {rest : List ℕ}
    → 0 < c
    → draw top c ws ≡ some (r, rest)
    → (r < c) × (length rest < length ws)
unfolding draw
draw-lt top c [] h e = cc
draw-lt top c (w ∷ ws) h e = elim (Bool-cases (ltb top w)) [
  | inl t ↦ let (lt, shorter) = draw-lt top c ws h (rw t at e) in (lt, omega arith)
  | inr t ↦ ground (arith, mod-lt w h)
]

-- Past its assertion `random_custom` draws.
past_assert :
    (c : ℕ) (ws : List ℕ) {r : ℕ} {rest : List ℕ}
    → random_custom ws c ≡ some (r, rest)
    → (0 < c) × (draw (limit c) c ws ≡ some (r, rest))
unfolding random_custom
past_assert c ws e = ground arith

-- What `random_custom` gives is below the count, and it has read at least one word.
pub random_custom-lt :
    (c : ℕ) (ws : List ℕ) {r : ℕ} {rest : List ℕ}
    → random_custom ws c ≡ some (r, rest)
    → (r < c) × (length rest < length ws)
random_custom-lt c ws e = let (h, drawn) = past_assert c ws e in draw-lt (limit c) c ws h drawn

-- The zero words of a stream. A zero word is below every limit, and gives 0.
abbrev pub zeros : List ℕ → ℕ
zeros [] = 0
zeros (w ∷ ws) = if w == 0 then suc (zeros ws) else zeros ws

draw_zero :
    (top c : ℕ) (ws : List ℕ)
    → 0 < c
    → 0 < zeros ws
    → (r : ℕ) × (rest : List ℕ) × (draw top c ws ≡ some (r, rest))
      × (zeros ws ≤ zeros rest + 1)
      × (zeros ws ≢ zeros rest → r ≡ 0)
unfolding draw
draw_zero top c [] h z = absurd (omega arith)
draw_zero top c (w ∷ ws) h z = elim (Bool-cases (ltb top w)) [
  | inl t ↦
      let skipped : (w == 0) ≡ false = ground arith in
      let (r, rest, e, few, last) = draw_zero top c ws h (ground arith) in
      (r, rest, rw t e, rw skipped few, λ ne. last (rw skipped at ne))
  | inr t ↦ elim (Bool-cases (w == 0)) [
    | inl o ↦ (w % c, ws, rw t, rw o (omega arith), λ ne. rw (==→eq w 0 o) (zero-mod c))
    | inr o ↦ (w % c, ws, rw t, rw o (omega arith), λ ne. absurd (ne (rw o)))
  ]
]

-- Where a zero word is still to come, `random_custom` returns, and uses it up only to give 0.
pub random_custom_total :
    (c : ℕ) (ws : List ℕ)
    → 0 < c
    → 0 < zeros ws
    → (r : ℕ) × (rest : List ℕ) × (random_custom ws c ≡ some (r, rest))
      × (zeros ws ≤ zeros rest + 1)
      × (zeros ws ≢ zeros rest → r ≡ 0)
unfolding random_custom
random_custom_total c ws h z =
    let (r, rest, e, few, last) = draw_zero (limit c) c ws h z in (r, rest, ground arith, few, last)
