-- ===== src/Juggler/Invariant.antt =====
-- The invariant of `juggler_t` over the array of blocks, and that a block can be put out.
use scubed.Base.{
  ℕ, suc, ◌+◌, ◌-◌, ◌^◌, ◌<◌, ◌≤◌, ◌≡◌, ◌≢◌, refl, List, [], ◌∷◌, arith, length, some, none, ◌⊎◌,
}
use scubed.Blockio.Info.{Infos}
use scubed.Juggler.{Juggler, init, due}
use scubed.Juggler.Chain.{next_of, Ascending, Due, occurs}

pub record IsValid (infos : Infos) (j : Juggler) : Type 0 where
  pub scheduled_count : j.no_scheduled ≡ length j.scheduled
  pub unscheduled_count : j.no_unscheduled ≡ length j.unscheduled
  pub ascending : Ascending infos j.seqno j.scheduled
  pub distinct : (k : ℕ) → occurs k j.scheduled + occurs k j.unscheduled ≤ 1
  pub inside : (k : ℕ) → length infos ≤ k → occurs k j.scheduled + occurs k j.unscheduled ≡ 0
  pub small : length j.scheduled + length j.unscheduled < 2 ^ 32 - 1

-- A block can be put out next: one is due, or there is one to choose.
abbrev pub Live : Infos → Juggler → Type 0
Live infos j = (0 < length j.unscheduled) ⊎ Due infos (j.seqno + 1) j.scheduled

-- A fresh juggler is valid over any array.
pub init-IsValid : (infos : Infos) → IsValid infos init
unfolding init
init-IsValid infos = record {
  scheduled_count = refl;
  unscheduled_count = refl;
  ascending = tt;
  distinct = λ k. omega arith;
  inside = λ k h. omega arith;
  small = omega arith;
}

-- `due` finds the head that `Due` speaks of.
pub due-some :
    (infos : Infos) (t : ℕ) (cs : List ℕ) {n : ℕ}
    → due infos t cs ≡ some n
    → (rest : List ℕ) × (cs ≡ n ∷ rest) × (next_of infos n ≡ t)
due-some infos t [] e = cc
due-some infos t (c ∷ cs) e = (cs, ground arith, ground arith)

-- Where nothing is due, the schedule begins later.
pub due-none :
    (infos : Infos) (t : ℕ) (cs : List ℕ)
    → due infos (suc t) cs ≡ none
    → Ascending infos t cs
    → Ascending infos (suc t) cs
due-none infos t [] e up = tt
due-none infos t (c ∷ cs) e up = (ground arith, up.1)

pub due-Due : (infos : Infos) (t : ℕ) (cs : List ℕ) → Due infos t cs → due infos t cs ≢ none
due-Due infos t [] d e = d
due-Due infos t (c ∷ cs) d e = ground arith
