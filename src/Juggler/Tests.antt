-- ===== src/Juggler/Tests.antt =====
-- Small runs of src/juggler.c, and its theorem at an input.
use scubed.Base.{ℕ, ◌≡◌, refl, List, [], ◌∷◌, some, false, inl, arith, Option}
use mathlib.Core.Option
use scubed.Random.{random_custom, draw, limit}
use scubed.Blockio.Info.{Infos, blank}
use scubed.Juggler.{
  Juggler, Picked, init, add_macroblock, get_devblock, get_obsoleted, from_schedule, output,
  schedule, hash_scheduled_seqnos,
}
use scubed.Juggler.Invariant.{IsValid}
use scubed.Juggler.Rotate.{Rotates, get_devblock_lem}

-- Block 1 is scheduled for time 6, block 2 for time 8; blocks 0 and 3 are free.
abbrev blocks : Infos
blocks =
    blank
    ∷ record blank { seqno = 4; next_seqno = 6 }
    ∷ record blank { seqno = 5; next_seqno = 8 }
    ∷ blank
    ∷ []

abbrev juggler : Juggler
juggler = record {
  scheduled = 1 ∷ 2 ∷ [];
  unscheduled = 0 ∷ 3 ∷ [];
  no_scheduled = 2;
  no_unscheduled = 2;
  seqno = 5;
}

abbrev words : List ℕ
words = 1 ∷ 2 ∷ 0 ∷ 0 ∷ []

juggler-IsValid : IsValid blocks juggler
juggler-IsValid = record {
  scheduled_count = refl;
  unscheduled_count = refl;
  ascending = omega arith;
  distinct = λ k. ground arith;
  inside = λ k h. ground arith;
  small = omega arith;
}

abbrev outcome : Picked → Option ℕ × List ℕ
outcome p = (p.block, p.juggler.scheduled)

-- Block 1 is due. With three to choose from, 1 and 2 pass, at 7 and (8 is taken) 9; 0 hits at 10.
head_is_due :
    Option.map outcome (get_devblock blocks juggler words false) ≡ some (some 1, 2 ∷ 1 ∷ [])
unfolding get_devblock get_obsoleted from_schedule output schedule random_custom draw limit
head_is_due = refl

seqnos_in_order : hash_scheduled_seqnos blocks juggler ≡ 4 ∷ 5 ∷ []
unfolding hash_scheduled_seqnos
seqnos_in_order = refl

free_block_first :
    Option.map (λ (j : Juggler). j.unscheduled) (add_macroblock blocks init 3) ≡ some (3 ∷ [])
unfolding add_macroblock init
free_block_first = refl

get_devblock_lem_example : Rotates blocks juggler words
get_devblock_lem_example =
    get_devblock_lem blocks juggler words juggler-IsValid (inl (omega arith)) (omega arith)
      (omega arith)
