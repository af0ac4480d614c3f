-- ===== src/Juggler/Chain.antt =====
-- Chains of blocks in ascending order of `next_seqno`.
use scubed.Base.{
  ℕ, ◌+◌, ◌<◌, ◌≤◌, ◌≡◌, ◌≢◌, ap, refl, sym, subst, Bool-cases, ==→eq, inl, inr, List, [], ◌∷◌,
  ◌++◌, arith, length, ◌==◌, if◌then◌else◌, get_or-set_self, get_or-set_ne, length-set,
}
use scubed.Blockio.Info.{BlockioInfo, Infos, info, blank}
use scubed.Juggler.{stamp}

abbrev pub next_of : Infos → ℕ → ℕ
next_of infos b = (info infos b).next_seqno

-- Every block of the chain comes later than the one before it, and the first later than `lo`.
abbrev pub Ascending : Infos → ℕ → List ℕ → Type 0
Ascending infos lo [] = Unit
Ascending infos lo (c ∷ cs) = (lo < next_of infos c) × Ascending infos (next_of infos c) cs

-- The chain begins with a block that comes at `time`.
abbrev pub Due : Infos → ℕ → List ℕ → Type 0
Due infos time [] = ⊥
Due infos time (c ∷ cs) = next_of infos c ≡ time

-- How often `b` stands in a chain.
abbrev pub occurs : ℕ → List ℕ → ℕ
occurs b [] = 0
occurs b (c ∷ cs) = (if c == b then 1 else 0) + occurs b cs

pub occurs-append : (b : ℕ) (cs ds : List ℕ) → occurs b (cs ++ ds) ≡ occurs b cs + occurs b ds
occurs-append b [] ds = omega arith
occurs-append b (c ∷ cs) ds = omega (arith, occurs-append b cs ds)

pub Ascending-weaken :
    (infos : Infos) (a b : ℕ) (cs : List ℕ) → a ≤ b → Ascending infos b cs → Ascending infos a cs
Ascending-weaken infos a b [] h up = tt
Ascending-weaken infos a b (c ∷ cs) h up = (omega (arith, up.0), up.1)

module _ (infos : Infos) (n a b : ℕ) where
  pub next_of-stamp : n < length infos → next_of (stamp infos n a b) n ≡ b
  next_of-stamp h = ap (λ (x : BlockioInfo). x.next_seqno) (get_or-set_self infos n _ blank h)

  pub info-stamp_ne : (k : ℕ) → n ≢ k → info (stamp infos n a b) k ≡ info infos k
  info-stamp_ne k ne = get_or-set_ne infos n k _ blank ne

  -- Stamping a block does not move a chain that it is not in.
  pub Ascending-stamp :
      (lo : ℕ) (cs : List ℕ)
      → occurs n cs ≡ 0
      → Ascending infos lo cs
      → Ascending (stamp infos n a b) lo cs
  Ascending-stamp lo [] out up = tt
  Ascending-stamp lo (c ∷ cs) out up =
      let same : next_of (stamp infos n a b) c ≡ next_of infos c =
        ap (λ (x : BlockioInfo). x.next_seqno) (info-stamp_ne c (ground arith)) in
      rw same (up.0, Ascending-stamp (next_of infos c) cs (omega arith) up.1)

  pub length-stamp : length (stamp infos n a b) ≡ length infos
  length-stamp = length-set infos n _

-- The references that a block keeps are the same.
pub record SameIndices (x y : BlockioInfo) : Type 0 where
  pub no_indices : y.no_indices ≡ x.no_indices
  pub no_nonobsolete : y.no_nonobsolete ≡ x.no_nonobsolete
  pub indices : y.indices ≡ x.indices

pub stamp-SameIndices :
    (infos : Infos) (n a b k : ℕ)
    → n < length infos
    → SameIndices (info infos k) (info (stamp infos n a b) k)
stamp-SameIndices infos n a b k h = elim (Bool-cases (n == k)) [
  | inl same ↦
      subst (λ i. SameIndices (info infos i) (info (stamp infos n a b) i)) (==→eq n k same)
        (subst (SameIndices (info infos n)) (sym (get_or-set_self infos n _ blank h))
          (record { no_indices = refl; no_nonobsolete = refl; indices = refl }))
  | inr apart ↦
      subst (SameIndices (info infos k)) (sym (info-stamp_ne infos n a b k (ground arith)))
        (record { no_indices = refl; no_nonobsolete = refl; indices = refl })
]
