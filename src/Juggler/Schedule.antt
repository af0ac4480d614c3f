-- ===== src/Juggler/Schedule.antt =====
-- The scheduling loop of `juggler_get_devblock`: it ends once a zero word is drawn, and puts the
-- block into the first free time whose draw is 0.
use scubed.Base.{
  ℕ, zero, suc, ◌+◌, ◌^◌, ◌<◌, ◌≡◌, ◌≢◌, sym, ap, ◌∙◌, List, [], ◌∷◌, arith, length, ◌==◌,
  if◌then◌else◌, some, Bool-cases, inl, inr, u32, u64, ==→eq, true, false,
}
use scubed.Random.{random_custom}
use scubed.Random.Uniform.{zeros, random_custom_total, random_custom-lt}
use scubed.Blockio.Info.{BlockioInfo, Infos}
use scubed.Juggler.{Slot, schedule, stamp}
use scubed.Juggler.Chain.{
  next_of, Ascending, Due, occurs, Ascending-weaken, next_of-stamp, info-stamp_ne, Ascending-stamp,
}

-- One round of the loop, on each of its branches.
module _ (infos : Infos) (b fuel avail time : ℕ) (ws : List ℕ) (room : time + 1 < 2 ^ 64) where
  next_time : u64 (time + 1) ≡ suc time
  next_time = omega arith

  module _ {r : ℕ} {rest : List ℕ} (e : random_custom ws avail ≡ some (r, rest)) where
    found_last :
        (r == 0) ≡ true
        → schedule (suc fuel) infos b ws [] avail time
          ≡ some (record { chain = b ∷ []; time = suc time; stream = rest })
    unfolding schedule
    found_last t = rw (e, next_time, t)

    again_last :
        {s : Slot}
        → (r == 0) ≡ false
        → schedule fuel infos b rest [] avail (suc time) ≡ some s
        → schedule (suc fuel) infos b ws [] avail time ≡ some s
    unfolding schedule
    again_last f later = rw (e, next_time, f) later

    found_before :
        (c : ℕ) (cs : List ℕ)
        → (suc time == next_of infos c) ≡ false
        → (r == 0) ≡ true
        → schedule (suc fuel) infos b ws (c ∷ cs) avail time
          ≡ some (record { chain = b ∷ c ∷ cs; time = suc time; stream = rest })
    unfolding schedule
    found_before c cs n t = rw (next_time, n, e, t)

    again_before :
        (c : ℕ) (cs : List ℕ) {s : Slot}
        → (suc time == next_of infos c) ≡ false
        → (r == 0) ≡ false
        → schedule fuel infos b rest (c ∷ cs) avail (suc time) ≡ some s
        → schedule (suc fuel) infos b ws (c ∷ cs) avail time ≡ some s
    unfolding schedule
    again_before c cs n f later = rw (next_time, n, e, f) later

  skip_taken :
      (c : ℕ) (cs : List ℕ) {s : Slot}
      → (suc time == next_of infos c) ≡ true
      → avail + 1 < 2 ^ 32
      → schedule fuel infos b ws cs (avail + 1) (suc time) ≡ some s
      → schedule (suc fuel) infos b ws (c ∷ cs) avail time ≡ some (record s { chain = c ∷ s.chain })
  unfolding schedule
  skip_taken c cs t small later =
      let one_more : u32 (avail + 1) ≡ avail + 1 = omega arith in rw (next_time, t, one_more, later)

module _ (infos : Infos) (b q : ℕ) where
  -- The block stands in the chain once more than before, at a time after `time`.
  pub record Placed (cs : List ℕ) (avail time : ℕ) (s : Slot) : Type 0 where
    pub once : (k : ℕ) → occurs k s.chain ≡ occurs k cs + (if b == k then 1 else 0)
    pub longer : length s.chain ≡ length cs + 1
    pub later : time < s.time
    pub ascends : Ascending (stamp infos b q s.time) time s.chain
    -- with nothing else to choose from, the next time is taken
    pub prompt : avail ≡ 1 → Due (stamp infos b q s.time) (suc time) s.chain

module _ (infos : Infos) (b q : ℕ) (inside : b < length infos) where
  -- At a free time the block goes in front of `cs`.
  here-Placed :
      (avail time : ℕ) (cs : List ℕ) (ws : List ℕ)
      → occurs b cs ≡ 0
      → Ascending infos (suc time) cs
      → Placed infos b q cs avail time (record { chain = b ∷ cs; time = suc time; stream = ws })
  here-Placed avail time cs ws out up = record {
    once = λ k. omega arith;
    longer = omega arith;
    later = omega arith;
    ascends =
        rw (next_of-stamp infos b q (suc time) inside)
          (omega arith, Ascending-stamp infos b q (suc time) (suc time) cs out up);
    prompt = λ _. next_of-stamp infos b q (suc time) inside;
  }

  -- A draw that is not 0 leaves a zero word behind.
  still_zero :
      {r : ℕ} (ws rest : List ℕ)
      → 0 < zeros ws
      → (zeros ws ≢ zeros rest → r ≡ 0)
      → (r == 0) ≡ false
      → 0 < zeros rest
  still_zero ws rest z last f = elim (Bool-cases (zeros ws == zeros rest)) [
    | inl e ↦ ground arith
    | inr e ↦ absurd (ground (arith, last (ground arith)))
  ]

  -- So does it come from more than one possibility.
  several :
      (avail : ℕ) (ws : List ℕ) {r : ℕ} {rest : List ℕ}
      → random_custom ws avail ≡ some (r, rest)
      → (r == 0) ≡ false
      → 1 < avail
  several avail ws e f = ground (arith, (random_custom-lt avail ws e).0)

  -- A slot found from the next time on serves from this time on.
  later-Placed :
      (avail time : ℕ) (cs : List ℕ) (s : Slot)
      → 1 < avail
      → Placed infos b q cs avail (suc time) s
      → Placed infos b q cs avail time s
  later-Placed avail time cs s choice p = record {
    once = p.once;
    longer = p.longer;
    later = omega (arith, p.later);
    ascends =
        Ascending-weaken (stamp infos b q s.time) time (suc time) s.chain (omega arith) p.ascends;
    prompt = λ one. absurd (omega arith);
  }

  -- Behind a block that is due at the next time.
  behind-Placed :
      (avail time c : ℕ) (cs : List ℕ) (s : Slot)
      → b ≢ c
      → next_of infos c ≡ suc time
      → Placed infos b q cs (avail + 1) (suc time) s
      → Placed infos b q (c ∷ cs) avail time (record s { chain = c ∷ s.chain })
  behind-Placed avail time c cs s ne at p = record {
    once = λ k. omega (arith, p.once k);
    longer = omega (arith, p.longer);
    later = omega (arith, p.later);
    ascends = rw same (omega arith, p.ascends);
    prompt = λ _. same;
  }
    where
      same : next_of (stamp infos b q s.time) c ≡ suc time
      same = ap (λ (x : BlockioInfo). x.next_seqno) (info-stamp_ne infos b q s.time c ne) ∙ at

  -- With a zero word to come, fuel for each word and block, and no wrap in sight, the loop ends.
  pub schedule-Placed :
      (fuel : ℕ) (ws cs : List ℕ) (avail time : ℕ)
      → length ws + length cs < fuel
      → time + fuel < 2 ^ 64
      → 0 < avail
      → avail + length cs < 2 ^ 32
      → 0 < zeros ws
      → occurs b cs ≡ 0
      → Ascending infos time cs
      → (s : Slot) × (schedule fuel infos b ws cs avail time ≡ some s)
        × Placed infos b q cs avail time s
  schedule-Placed zero ws cs avail time enough room pos small z out up = absurd (omega arith)
  schedule-Placed (suc fuel) ws [] avail time enough room pos small z out up =
      let (r, rest, e, few, last) = random_custom_total avail ws pos z in
      elim (Bool-cases (r == 0)) [
        | inl t ↦ (
          record { chain = b ∷ []; time = suc time; stream = rest },
          found_last infos b fuel avail time ws (omega arith) e t,
          here-Placed avail time [] rest out tt,
        )
        | inr f ↦
            let (s, found, p) =
              schedule-Placed fuel rest [] avail (suc time)
                (omega (arith, (random_custom-lt avail ws e).1)) (omega arith) pos small
                (still_zero ws rest z last f) out tt in
            (
              s,
              again_last infos b fuel avail time ws (omega arith) e f found,
              later-Placed avail time [] s (several avail ws e f) p,
            )
      ]
  schedule-Placed (suc fuel) ws (c ∷ cs) avail time enough room pos small z out up =
      elim (Bool-cases (suc time == next_of infos c)) [
        | inl t ↦
            let at : next_of infos c ≡ suc time = sym (==→eq (suc time) (next_of infos c) t) in
            let (s, found, p) =
              schedule-Placed fuel ws cs (avail + 1) (suc time) (omega arith) (omega arith)
                (omega arith) (omega arith) z (omega arith) (rw at at up.1) in
            (
              record s { chain = c ∷ s.chain },
              skip_taken infos b fuel avail time ws (omega arith) c cs t (omega arith) found,
              behind-Placed avail time c cs s (ground arith) at p,
            )
        | inr n ↦
            let (r, rest, e, few, last) = random_custom_total avail ws pos z in
            let up' : Ascending infos (suc time) (c ∷ cs) = (ground arith, up.1) in
            elim (Bool-cases (r == 0)) [
              | inl t ↦ (
                record { chain = b ∷ c ∷ cs; time = suc time; stream = rest },
                found_before infos b fuel avail time ws (omega arith) e c cs n t,
                here-Placed avail time (c ∷ cs) rest out up',
              )
              | inr f ↦
                  let (s, found, p) =
                    schedule-Placed fuel rest (c ∷ cs) avail (suc time)
                      (omega (arith, (random_custom-lt avail ws e).1)) (omega arith) pos small
                      (still_zero ws rest z last f) out up' in
                  (
                    s,
                    again_before infos b fuel avail time ws (omega arith) e c cs n f found,
                    later-Placed avail time (c ∷ cs) s (several avail ws e f) p,
                  )
            ]
      ]
