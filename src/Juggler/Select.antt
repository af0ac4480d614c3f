-- ===== src/Juggler/Select.antt =====
-- `juggler_get_devblock` without discard: one block is put out, stamped with the next sequence
-- number, and scheduled anew, and afterwards another one can be put out.
use scubed.Base.{
  ℕ, zero, suc, ◌+◌, ◌-◌, ◌^◌, ◌<◌, ◌≤◌, ◌≡◌, ◌≢◌, refl, sym, ap, subst, ◌∙◌, List, [], ◌∷◌, ◌++◌,
  arith, length, ◌==◌, if◌then◌else◌, some, none, inl, inr, u32, u64, ltb, ltb→lt, Bool-cases,
  false, get_elem?, take, drop, get_or-set_self,
}
use scubed.Random.Uniform.{zeros}
use scubed.Blockio.Info.{BlockioInfo, Infos, info, blank}
use scubed.Juggler.{
  Juggler, Picked, Slot, schedule, output, enlisted, fuel_for, stamp, due, unlink, unlink_head,
  tail,
}
use scubed.Juggler.Chain.{
  next_of, Ascending, Due, occurs, Ascending-stamp, next_of-stamp, info-stamp_ne, length-stamp,
  SameIndices, stamp-SameIndices,
}
use scubed.Juggler.Invariant.{IsValid, Live, due-none}
use scubed.Juggler.Schedule.{Placed, schedule-Placed}

-- `n` was taken out of the valid juggler, whose blocks all come later than the next number.
pub record Ready (infos : Infos) (j : Juggler) (n : ℕ) : Type 0 where
  pub scheduled_count : j.no_scheduled ≡ length j.scheduled
  pub unscheduled_count : j.no_unscheduled ≡ length j.unscheduled
  pub ascending : Ascending infos (suc j.seqno) j.scheduled
  pub distinct : (k : ℕ) → occurs k j.scheduled + occurs k j.unscheduled ≤ 1
  pub inside : (k : ℕ) → length infos ≤ k → occurs k j.scheduled + occurs k j.unscheduled ≡ 0
  pub gone : occurs n j.scheduled + occurs n j.unscheduled ≡ 0
  pub index : n < length infos
  pub small : length j.scheduled + length j.unscheduled + 1 < 2 ^ 32 - 1

-- What putting out `n` leaves.
pub record Output (infos : Infos) (j : Juggler) (n : ℕ) (p : Picked) : Type 0 where
  pub block : p.block ≡ some n
  pub valid : IsValid p.infos p.juggler
  pub live : Live p.infos p.juggler
  pub counted : p.juggler.seqno ≡ j.seqno + 1
  pub stamped : (info p.infos n).seqno ≡ j.seqno + 1
  pub later : j.seqno + 1 < next_of p.infos n
  pub blocks :
      (k : ℕ)
      → occurs k p.juggler.scheduled + occurs k p.juggler.unscheduled
        ≡ occurs k j.scheduled + occurs k j.unscheduled + (if n == k then 1 else 0)
  pub others : (k : ℕ) → n ≢ k → info p.infos k ≡ info infos k
  pub size : length p.infos ≡ length infos
  pub inside : n < length infos
  pub kept : (k : ℕ) → SameIndices (info infos k) (info p.infos k)

module _ {infos : Infos} {j : Juggler} {n : ℕ} (r : Ready infos j n) where
  -- The state in which the loop starts.
  abbrev started : Juggler
  started = record j { seqno = suc j.seqno }

  abbrev once : Infos
  once = stamp infos n (suc j.seqno) (suc j.seqno)

  index_once : n < length once
  index_once = omega (arith, length-stamp infos n (suc j.seqno) (suc j.seqno), r.index)

  once-Ascending : Ascending once (suc j.seqno) j.scheduled
  once-Ascending =
      Ascending-stamp infos n (suc j.seqno) (suc j.seqno) (suc j.seqno) j.scheduled
        (omega (arith, r.gone)) r.ascending

  module _ (s : Slot)
      (p : Placed once n (suc j.seqno) j.scheduled (length j.unscheduled + 1) (suc j.seqno) s) where
    abbrev left : Picked
    left = enlisted once started n s

    enlisted-IsValid : IsValid left.infos left.juggler
    enlisted-IsValid = record {
      scheduled_count = omega (arith, r.scheduled_count, p.longer, r.small);
      unscheduled_count = r.unscheduled_count;
      ascending = p.ascends;
      distinct = λ k. ground (arith, p.once k, r.distinct k, r.gone);
      inside = λ k h. ground (
        arith,
        p.once k,
        r.inside k,
        r.index,
        length-stamp once n (suc j.seqno) s.time,
        length-stamp infos n (suc j.seqno) (suc j.seqno),
      );
      small = omega (arith, p.longer, r.small);
    }

    seqno_suc : suc j.seqno ≡ j.seqno + 1
    seqno_suc = omega arith

    enlisted-Live : Live left.infos left.juggler
    enlisted-Live = elim (Bool-cases (length j.unscheduled == 0)) [
      | inl e ↦ inr (subst (λ t. Due left.infos t s.chain) (omega arith) (p.prompt (ground arith)))
      | inr e ↦ inl (ground arith)
    ]

    enlisted-Output : Output infos j n left
    enlisted-Output = record {
      block = refl;
      valid = enlisted-IsValid;
      live = enlisted-Live;
      counted = omega arith;
      stamped =
          ap (λ (x : BlockioInfo). x.seqno) (get_or-set_self once n _ blank index_once) ∙ seqno_suc;
      later = omega (arith, p.later, next_of-stamp once n (suc j.seqno) s.time index_once);
      blocks = λ k. omega (arith, p.once k);
      others = λ k ne.
          info-stamp_ne once n (suc j.seqno) s.time k ne
          ∙ info-stamp_ne infos n (suc j.seqno) (suc j.seqno) k ne;
      size =
          length-stamp once n (suc j.seqno) s.time
          ∙ length-stamp infos n (suc j.seqno) (suc j.seqno);
      inside = r.index;
      kept = λ k.
          let x = stamp-SameIndices infos n (suc j.seqno) (suc j.seqno) k r.index in
          let y = stamp-SameIndices once n (suc j.seqno) s.time k index_once in
          record {
            no_indices = y.no_indices ∙ x.no_indices;
            no_nonobsolete = y.no_nonobsolete ∙ x.no_nonobsolete;
            indices = y.indices ∙ x.indices;
          };
    }

  output-eq :
      {s : Slot} (ws : List ℕ)
      → suc j.seqno < 2 ^ 64
      → schedule
          (fuel_for ws j.scheduled)
          once
          n
          ws
          j.scheduled
          (length j.unscheduled + 1)
          (suc j.seqno)
        ≡ some s
      → output infos j n ws false ≡ some (enlisted once started n s)
  unfolding output
  output-eq ws room found =
      let next : u64 (j.seqno + 1) ≡ suc j.seqno = omega arith in
      let avail : u32 (j.no_unscheduled + 1) ≡ length j.unscheduled + 1 =
        omega (arith, r.unscheduled_count, r.small) in
      rw (next, avail, found)

  -- With a zero word to come and no wrap of the sequence numbers in sight, `n` is put out.
  pub output-Output :
      (ws : List ℕ)
      → 0 < zeros ws
      → j.seqno + length ws + length j.scheduled + 2 < 2 ^ 64
      → (p : Picked) × (output infos j n ws false ≡ some p) × Output infos j n p
  output-Output ws z room =
      let (s, found, p) =
        schedule-Placed once n (suc j.seqno) index_once (fuel_for ws j.scheduled) ws j.scheduled
          (length j.unscheduled + 1) (suc j.seqno) (omega arith) (omega arith) (omega arith)
          (omega (arith, r.small)) z (omega (arith, r.gone)) once-Ascending in
      (left s p, output-eq ws (omega arith) found, enlisted-Output s p)

-- Taking the element at `i` out of a chain.
pub pulled :
    (cs : List ℕ) (i : ℕ) {n : ℕ}
    → get_elem? cs i ≡ some n
    → ((k : ℕ) → occurs k (take i cs ++ drop (suc i) cs) + (if n == k then 1 else 0) ≡ occurs k cs)
      × (length (take i cs ++ drop (suc i) cs) + 1 ≡ length cs)
pulled [] i e = cc
pulled (c ∷ cs) zero {n} e = let same : c ≡ n = cc in (λ k. rw same (omega arith), omega arith)
pulled (c ∷ cs) (suc i) e =
    let (once, shorter) = pulled cs i e in (λ k. omega (arith, once k), omega arith)

-- A block of the juggler is an index of the array.
in_array :
    {infos : Infos} {j : Juggler} (v : IsValid infos j) (n : ℕ)
    → 0 < occurs n j.scheduled + occurs n j.unscheduled
    → n < length infos
in_array {infos} v n h = elim (Bool-cases (ltb n (length infos))) [
  | inl t ↦ ltb→lt _ _ t
  | inr f ↦ absurd (omega (arith, v.inside n (ground arith)))
]

module _ {infos : Infos} {j : Juggler} (v : IsValid infos j) {n : ℕ} where
  -- The head of the schedule that is due is taken out.
  pub head-Ready :
      (rest : List ℕ)
      → j.scheduled ≡ n ∷ rest
      → next_of infos n ≡ suc j.seqno
      → Ready infos (unlink_head j) n
  head-Ready rest e at = record {
    scheduled_count = omega (arith, v.scheduled_count, long, short, v.small);
    unscheduled_count = v.unscheduled_count;
    ascending = rw short_list (rw at at (subst (λ cs. Ascending infos j.seqno cs) e v.ascending).1);
    distinct = λ k. omega (arith, v.distinct k, less k);
    inside = λ k h. omega (arith, v.inside k h, less k);
    gone = ground (arith, v.distinct n, less n);
    index = in_array v n (ground (arith, less n));
    small = omega (arith, v.small, long, short);
  }
    where
      short_list : tail j.scheduled ≡ rest
      short_list = ap tail e

      short : length (tail j.scheduled) ≡ length rest
      short = ap length short_list

      long : length j.scheduled ≡ suc (length rest)
      long = ap length e

      less :
          (k : ℕ) → occurs k j.scheduled ≡ (if n == k then 1 else 0) + occurs k (tail j.scheduled)
      less k = ap (occurs k) e ∙ ap (λ t. (if n == k then 1 else 0) + occurs k t) (sym short_list)

  -- A block that was drawn is taken out, while the head of the schedule comes later.
  pub drawn-Ready :
      (i : ℕ)
      → get_elem? j.unscheduled i ≡ some n
      → due infos (suc j.seqno) j.scheduled ≡ none
      → Ready infos (unlink j i) n
  drawn-Ready i e none_due = record {
    scheduled_count = v.scheduled_count;
    unscheduled_count = omega (arith, v.unscheduled_count, shorter, v.small);
    ascending = due-none infos j.seqno j.scheduled none_due v.ascending;
    distinct = λ k. omega (arith, v.distinct k, once k);
    inside = λ k h. omega (arith, v.inside k h, once k);
    gone = ground (arith, v.distinct n, once n);
    index = in_array v n (ground (arith, once n));
    small = omega (arith, v.small, shorter);
  }
    where
      left : List ℕ
      left = take i j.unscheduled ++ drop (suc i) j.unscheduled

      once : (k : ℕ) → occurs k left + (if n == k then 1 else 0) ≡ occurs k j.unscheduled
      once = (pulled j.unscheduled i e).0

      shorter : length left + 1 ≡ length j.unscheduled
      shorter = (pulled j.unscheduled i e).1
