-- ===== src/Scubed/Obsolete.antt =====
-- What `obsolete_mesoblk` does to the array of macroblocks.
use scubed.Base.{
  ℕ, ◌+◌, ◌-◌, ◌<◌, ◌≡◌, ◌≢◌, ◌⊎◌, inl, inr, refl, sym, subst, some, arith, length, ◌==◌, ==→eq,
  Bool-cases, if◌then◌else◌, get_or-set_self, get_or-set_ne, length-set, set,
}
use scubed.Blockio.Info.{BlockioInfo, Infos, info, blank}
use scubed.Scubed.State.{Base, id_of, never}
use scubed.Scubed.Output.{obsolete_mesoblk, obsolete_mesoblk_byidx}
use scubed.Scubed.Contents.{leads, leads_elsewhere, leads_live}

-- What becomes of a macroblock: it may lose a mesoblock, and with the last one its indices.
pub record Shrunk (x y : BlockioInfo) (lost : ℕ) : Type 0 where
  pub seqno : y.seqno ≡ x.seqno
  pub indices : y.indices ≡ x.indices
  pub nonobsolete : y.no_nonobsolete + lost ≡ x.no_nonobsolete
  pub no_indices : (y.no_indices ≡ x.no_indices) ⊎ ((y.no_nonobsolete ≡ 0) × (y.no_indices ≡ 0))

-- The mesoblock at the address `index` has become obsolete.
pub record Obsoleted (b : Base) (infos infos' : Infos) (index : ℕ) : Type 0 where
  pub size : length infos' ≡ length infos
  pub shrunk : (id : ℕ) → Shrunk (info infos id) (info infos' id) (leads b id index)
  pub untouched : (id : ℕ) → id_of b index ≢ id → info infos' id ≡ info infos id

-- The address is in the array, at a macroblock that has a mesoblock to lose.
abbrev pub Counted : Base → Infos → ℕ → Type 0
Counted b infos index =
    (id_of b index < length infos) × ((info infos (id_of b index)).no_nonobsolete ≢ 0)

self-Shrunk : (x : BlockioInfo) → Shrunk x x 0
self-Shrunk x = record {
  seqno = refl;
  indices = refl;
  nonobsolete = omega arith;
  no_indices = inl refl;
}

-- The block without one mesoblock.
abbrev less : BlockioInfo → BlockioInfo
less x = record x {
  no_nonobsolete = x.no_nonobsolete - 1;
  no_indices = if x.no_nonobsolete - 1 == 0 then 0 else x.no_indices;
}

less-Shrunk : (x : BlockioInfo) → x.no_nonobsolete ≢ 0 → Shrunk x (less x) 1
less-Shrunk x h = record {
  seqno = refl;
  indices = refl;
  nonobsolete = ground arith;
  no_indices = elim (Bool-cases (x.no_nonobsolete - 1 == 0)) [
    | inl last ↦ inr (==→eq _ _ last, rw last refl)
    | inr more ↦ inl (rw more refl)
  ];
}

abbrev after : Base → Infos → ℕ → Infos
after b infos index = set infos (id_of b index) (less (info infos (id_of b index)))

elsewhere :
    (b : Base) (infos : Infos) (index id : ℕ)
    → id_of b index ≢ id
    → info (after b infos index) id ≡ info infos id
elsewhere b infos index id ne =
    get_or-set_ne infos (id_of b index) id (less (info infos (id_of b index))) blank ne

module _ (b : Base) (infos : Infos) (index : ℕ) (live : index ≢ never)
    (h : Counted b infos index) where
  after-Obsoleted : Obsoleted b infos (after b infos index) index
  after-Obsoleted = record {
    size = length-set infos (id_of b index) (less (info infos (id_of b index)));
    shrunk = λ id. elim (Bool-cases (id_of b index == id)) [
      | inl here ↦
          subst (λ i. Shrunk (info infos i) (info (after b infos index) i) (leads b i index))
            (==→eq _ _ here)
            (subst (λ y. Shrunk (info infos (id_of b index)) y (leads b (id_of b index) index))
              (sym (
                get_or-set_self infos (id_of b index) (less (info infos (id_of b index))) blank
                  h.0))
              (subst
                (λ n. Shrunk (info infos (id_of b index)) (less (info infos (id_of b index))) n)
                (sym (leads_live b index live)) (less-Shrunk (info infos (id_of b index)) h.1)))
      | inr there ↦
          subst (λ y. Shrunk (info infos id) y (leads b id index))
            (sym (elsewhere b infos index id (ground arith)))
            (subst (Shrunk (info infos id) (info infos id))
              (sym (leads_elsewhere b id index (ground arith))) (self-Shrunk (info infos id)))
    ];
    untouched = elsewhere b infos index;
  }

  obsolete_lem : obsolete_mesoblk infos (id_of b index) ≡ some (after b infos index)
  unfolding obsolete_mesoblk
  obsolete_lem = elim (Bool-cases ((info infos (id_of b index)).no_nonobsolete == 0)) [
    | inl gone ↦ absurd (h.1 (==→eq _ _ gone))
    | inr some_left ↦ rw some_left refl
  ]

  pub obsolete-Obsoleted :
      (infos' : Infos) × (obsolete_mesoblk infos (id_of b index) ≡ some infos')
      × Obsoleted b infos infos' index
  obsolete-Obsoleted = ((after b infos index), obsolete_lem, after-Obsoleted)

pub byidx-Obsoleted :
    (b : Base) (infos : Infos) (index : ℕ)
    → (index ≢ never → Counted b infos index)
    → (infos' : Infos) × (obsolete_mesoblk_byidx b infos index ≡ some infos')
      × Obsoleted b infos infos' index
unfolding obsolete_mesoblk_byidx
byidx-Obsoleted b infos index h = elim (Bool-cases (index == never)) [
  | inl unused ↦
      let nothing : (id : ℕ) → leads b id index ≡ 0 = λ id. rw unused refl in
      rw unused (
        infos,
        refl,
        record {
          size = refl;
          shrunk = λ id.
              subst (Shrunk (info infos id) (info infos id)) (sym (nothing id))
                (self-Shrunk (info infos id));
          untouched = λ id ne. refl;
        },
      )
  | inr used ↦
      let live : index ≢ never = ground arith in
      rw used (obsolete-Obsoleted b infos index live (h live))
]
