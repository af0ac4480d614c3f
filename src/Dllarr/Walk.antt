-- ===== src/Dllarr/Walk.antt =====
-- Changing the index of each element from one on.
use scubed.Base.{
  ℕ, zero, suc, ◌+◌, ◌≤◌, ◌<◌, ◌≡◌, ◌≢◌, inl, inr, refl, sym, ◌∙◌, ap, arith, ◌==◌, ==→eq, eq→==,
  Bool-cases, false,
}
use scubed.Dllarr.{put, walk}

pub put_self : (f : ℕ → ℕ) (at x : ℕ) → put f at x at ≡ x
put_self f at x = rw (eq→== at at refl) refl

pub put_ne : (f : ℕ → ℕ) (at x k : ℕ) → k ≢ at → put f at x k ≡ f k
put_ne f at x k ne = elim (Bool-cases (k == at)) [
  | inl same ↦ absurd (ne (==→eq k at same))
  | inr apart ↦ rw apart refl
]

-- The elements `f` from the place `j` to `m` form a chain that ends there, and none comes twice.
pub record Chained (next f : ℕ → ℕ) (j m : ℕ) : Type 0 where
  pub steps : (i : ℕ) → j ≤ i → i < m → next (f i) ≡ f (suc i)
  pub end : next (f m) ≡ 0
  pub present : (i : ℕ) → j ≤ i → i ≤ m → f i ≢ 0
  pub once : (i l : ℕ) → j ≤ i → i ≤ m → l ≤ m → i < l → f i ≢ f l

-- All of these change, and nothing else does.
pub record Walked (step f : ℕ → ℕ) (j m : ℕ) (index index' : ℕ → ℕ) : Type 0 where
  pub changed : (i : ℕ) → j ≤ i → i ≤ m → index' (f i) ≡ step (index (f i))
  pub kept : (b : ℕ) → ((i : ℕ) → j ≤ i → i ≤ m → b ≢ f i) → index' b ≡ index b

walk_done : (left : ℕ) (step next index : ℕ → ℕ) → walk left step next index 0 ≡ index
unfolding walk
walk_done zero step next index = refl
walk_done (suc left) step next index = refl

-- With fuel for the elements and the end, the loop reaches the end.
pub walk_lem :
    (left : ℕ) (step next f : ℕ → ℕ) (j m : ℕ) (index : ℕ → ℕ)
    → j ≤ m
    → m < j + left
    → Chained next f j m
    → Walked step f j m index (walk left step next index (f j))
unfolding walk
walk_lem zero step next f j m index h enough c = absurd (omega arith)
walk_lem (suc left) step next f j m index h enough c =
    let here : (f j == 0) ≡ false = absent (f j) (c.present j (omega arith) h) in
    let index1 = put index (f j) (step (index (f j))) in
    elim (Bool-cases (j == m)) [
      | inl last_one ↦
          let e = ==→eq j m last_one in
          let stop = ap next (ap f e) ∙ c.end in
          rw (here, stop, walk_done left step next index1)
            record {
              changed = λ i lo hi.
                  let same : f i ≡ f j = ap f (omega arith) in
                  ap index1 same ∙ put_self index (f j) _ ∙ ap (λ x. step (index x)) (sym same);
              kept = λ b away. put_ne index (f j) _ b (away j (omega arith) h);
            }
      | inr before ↦
          let lt : j < m = ground arith in
          let w = walk_lem left step next f (suc j) m index1 lt (omega arith) record {
            steps = λ i lo hi. c.steps i (omega arith) hi;
            end = c.end;
            present = λ i lo hi. c.present i (omega arith) hi;
            once = λ i l lo hi hl lt'. c.once i l (omega arith) hi hl lt';
          } in
          rw (here, c.steps j (omega arith) lt)
            record {
              changed = λ i lo hi. elim (Bool-cases (i == j)) [
                | inl first_one ↦
                    let same : f i ≡ f j = ap f (==→eq i j first_one) in
                    w.kept (f i) (λ l lo' hi' e. c.once j l (omega arith) h hi' lo' (sym same ∙ e))
                    ∙ ap index1 same
                    ∙ put_self index (f j) _
                    ∙ ap (λ x. step (index x)) (sym same)
                | inr later ↦
                    let lt' : j < i = ground arith in
                    w.changed i lt' hi
                    ∙ ap step (
                        put_ne index (f j) _ (f i) (λ e. c.once j i (omega arith) h hi lt' (sym e)))
              ];
              kept = λ b away.
                  w.kept b (λ i lo hi. away i (omega arith) hi)
                  ∙ put_ne index (f j) _ b (away j (omega arith) h);
            }
    ]
  where
    absent : (k : ℕ) → k ≢ 0 → (k == 0) ≡ false
    absent k ne = ground arith
