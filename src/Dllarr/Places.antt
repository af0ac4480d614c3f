-- ===== src/Dllarr/Places.antt =====
-- The places of a list with one element more.
use scubed.Base.{
  ℕ, zero, suc, ◌-◌, ◌≤◌, ◌<◌, ◌≡◌, inl, inr, refl, sym, subst, ltb, ◌==◌, if◌then◌else◌, arith,
  Bool-cases, ltb→lt, ==→eq,
}
use scubed.Dllarr.Linked.{back}

abbrev pub inserted : (ℕ → ℕ) → ℕ → ℕ → ℕ → ℕ
inserted f k x i = if ltb i k then f i else if i == k then x else f (i - 1)

module _ (f : ℕ → ℕ) (k x : ℕ) where
  pub inserted_before : (i : ℕ) → i < k → inserted f k x i ≡ f i
  inserted_before i h = ground arith

  pub inserted_here : inserted f k x k ≡ x
  inserted_here = ground arith

  pub inserted_behind : (i : ℕ) → k ≤ i → inserted f k x (suc i) ≡ f i
  inserted_behind i h = ground arith

  -- What holds in front of the new element, of it, and behind it, holds everywhere.
  pub inserted_cases :
      (P : ℕ → ℕ → Type 0)
      → ((i : ℕ) → i < k → P i (f i))
      → P k x
      → ((i : ℕ) → k ≤ i → P (suc i) (f i))
      → (i : ℕ) → P i (inserted f k x i)
  inserted_cases P before here behind i = elim (Bool-cases (ltb i k)) [
    | inl lt ↦ let h = ltb→lt i k lt in subst (P i) (sym (inserted_before i h)) (before i h)
    | inr ge ↦ elim (Bool-cases (i == k)) [
      | inl e ↦
          subst (λ l. P l (inserted f k x l)) (sym (==→eq i k e))
            (subst (P k) (sym inserted_here) here)
      | inr ne ↦
          let gt : k < i = ground arith in
          let p : i ≡ suc (i - 1) = omega arith in
          subst (λ l. P l (inserted f k x l)) (sym p)
            (subst (P (suc (i - 1))) (sym (inserted_behind (i - 1) (omega arith)))
              (behind (i - 1) (omega arith)))
    ]
  ]

  pub back-inserted : (i : ℕ) → i ≤ k → back (inserted f k x) i ≡ back f i
  back-inserted zero h = refl
  back-inserted (suc i) h = inserted_before i h

abbrev pub removed : (ℕ → ℕ) → ℕ → ℕ → ℕ
removed f k i = if ltb i k then f i else f (suc i)

module _ (f : ℕ → ℕ) (k : ℕ) where
  pub removed_before : (i : ℕ) → i < k → removed f k i ≡ f i
  removed_before i h = ground arith

  pub removed_behind : (i : ℕ) → k ≤ i → removed f k i ≡ f (suc i)
  removed_behind i h = ground arith

  pub removed_cases :
      (P : ℕ → ℕ → Type 0)
      → ((i : ℕ) → i < k → P i (f i))
      → ((i : ℕ) → k ≤ i → P i (f (suc i)))
      → (i : ℕ) → P i (removed f k i)
  removed_cases P before behind i = elim (Bool-cases (ltb i k)) [
    | inl lt ↦ let h = ltb→lt i k lt in subst (P i) (sym (removed_before i h)) (before i h)
    | inr ge ↦ let h : k ≤ i = ground arith in subst (P i) (sym (removed_behind i h)) (behind i h)
  ]

  pub back-removed : (i : ℕ) → i ≤ k → back (removed f k) i ≡ back f i
  back-removed zero h = refl
  back-removed (suc i) h = removed_before i h

  pub back-removed_behind : (i : ℕ) → k < i → back (removed f k) i ≡ f i
  back-removed_behind zero h = absurd (omega arith)
  back-removed_behind (suc i) h = removed_behind i (omega arith)
