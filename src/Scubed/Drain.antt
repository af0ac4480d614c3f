-- ===== src/Scubed/Drain.antt =====
-- The whole loop of `copy_old_block_to_current`: nothing is left in the old macroblock.
use scubed.Base.{
  bind_some, ℕ, zero, suc, ◌+◌, ◌≤◌, ◌<◌, ◌≡◌, ◌≢◌, inl, inr, refl, sym, ◌∙◌, ap, subst, some,
  arith, length, get_or, ◌==◌, ==→eq, Bool-cases, ltb, ltb→lt, true, false,
}
use scubed.Blockio.Info.{BlockioInfo, info}
use scubed.Scubed.State.{Base, Cipher, Volume, mmpm, mesoblk_size, id_of, no_of, never, index_at}
use scubed.Scubed.Output.{still_live, copy_loop, copy_from, copy_old_block_to_current}
use scubed.Bitmap.{getbits}
use scubed.Scubed.Address.{Geometry}
use scubed.Scubed.Contents.{content, leads, refs, leads_live, leads-le, Consistent}
use scubed.Scubed.Obsolete.{Shrunk}
use scubed.Scubed.Reference.{Moved, move-Consistent, content_moved, content_kept, at_other, id_self}
use scubed.Scubed.Read.{length-content}
use scubed.Scubed.Copy.{copy_mesoblk-Moved}
use scubed.Scubed.Round.{in_range, alive_facts, still_live_lem, loop_ends, loop_copies, loop_skips}

-- `v'` holds what `v` holds, and nothing of it in the macroblock `old`.
pub record Drained (b : Base) (c : Cipher (mesoblk_size b)) (v v' : Volume) (cur old : ℕ)
    : Type 0 where
  pub consistent : Consistent b v' cur
  pub contents : (m : ℕ) → content b c v' cur m ≡ content b c v cur m
  pub empty : (m : ℕ) → index_at v' m ≢ never → id_of b (index_at v' m) ≢ old

-- What the loop relies on at slot `i`: the slots before it have nothing left, and the current
-- macroblock has room for what lives in `old`.
pub record Ready (b : Base) (v : Volume) (cur old i : ℕ) : Type 0 where
  pub consistent : Consistent b v cur
  pub in_array : old < length v.infos
  pub space : (info v.infos cur).no_indices + refs b old v.block_indices ≤ mmpm b
  pub done :
      (m : ℕ) → index_at v m ≢ never → id_of b (index_at v m) ≡ old → i ≤ no_of b (index_at v m)

named_in :
    {b : Base} {v : Volume} {cur old : ℕ}
    → Consistent b v cur
    → (m : ℕ) → index_at v m ≢ never
    → id_of b (index_at v m) ≡ old
    → get_or (info v.infos old).indices (no_of b (index_at v m)) 0 ≡ m
named_in {b} {v} k m live e =
    subst (λ id. get_or (info v.infos id).indices (no_of b (index_at v m)) 0 ≡ m) e
      (k.placed m live).named

fewer :
    {x y : BlockioInfo} {lost : ℕ} (i left : ℕ)
    → ltb i x.no_indices ≡ true
    → x.no_indices ≤ i + suc left
    → Shrunk x y lost
    → y.no_indices ≤ i + 1 + left
fewer i left more h s = elim s.no_indices [
  | inl same ↦ omega (arith, same)
  | inr gone ↦ omega (arith, gone.1)
]

module _ {b : Base} (g : Geometry b) (c : Cipher (mesoblk_size b)) {cur old : ℕ}
    (ne : old ≢ cur) where
  -- Nothing lives at or behind the end of the block.
  at_end :
      {v : Volume} {i : ℕ}
      → Ready b v cur old i
      → (info v.infos old).no_indices ≤ i
      → Drained b c v v cur old
  at_end {v} {i} r h = record {
    consistent = r.consistent;
    contents = λ m. refl;
    empty = λ m live e.
        let used =
          subst (λ id. no_of b (index_at v m) < (info v.infos id).no_indices) e
            (r.consistent.placed m live).in_use in
        absurd (omega (arith, used, r.done m live e));
  }

  -- The next slot, if slot `i` has nothing left.
  skipped-Ready :
      {v : Volume} {i : ℕ}
      → Ready b v cur old i
      → still_live b c v old (get_or (info v.infos old).indices i 0) ≡ false
      → Ready b v cur old (i + 1)
  skipped-Ready {v} {i} r dead = record {
    consistent = r.consistent;
    in_array = r.in_array;
    space = r.space;
    done = λ m live e. elim (Bool-cases (no_of b (index_at v m) == i)) [
      | inl here ↦
          let named =
            subst (λ id. get_or (info v.infos id).indices (no_of b (index_at v m)) 0 ≡ m) e
              (r.consistent.placed m live).named in
          let at_i =
            ap (λ n. get_or (info v.infos old).indices n 0) (sym (==→eq _ _ here)) ∙ named in
          let alive =
            ap (still_live b c v old) at_i
            ∙ still_live_lem b c v old m (in_range r.consistent m live) live e in
          absurd (ground (arith, alive, dead))
      | inr there ↦ ground (arith, r.done m live e)
    ];
  }

  -- The slot of a live mesoblock is the one that its index says.
  slot_lem :
      {v : Volume} {i : ℕ}
      → Consistent b v cur
      → i < (info v.infos old).no_indices
      → index_at v (get_or (info v.infos old).indices i 0) ≢ never
      → id_of b (index_at v (get_or (info v.infos old).indices i 0)) ≡ old
      → no_of b (index_at v (get_or (info v.infos old).indices i 0)) ≡ i
  slot_lem {v} {i} k h live e =
      let m = get_or (info v.infos old).indices i 0 in
      let p = k.placed m live in
      k.unique old (no_of b (index_at v m)) i ne
        (subst (λ id. no_of b (index_at v m) < (info v.infos id).no_indices) e p.in_use) h
        (subst (λ id. get_or (info v.infos id).indices (no_of b (index_at v m)) 0 ≡ m) e p.named)

  module _ {v : Volume} {i : ℕ} (m : ℕ) (r : Ready b v cur old i) (live : index_at v m ≢ never)
      (at_old : id_of b (index_at v m) ≡ old) where
    one : leads b old (index_at v m) ≡ 1
    one = subst (λ id. leads b id (index_at v m) ≡ 1) at_old (leads_live b (index_at v m) live)

    spare : (info v.infos cur).no_indices < mmpm b
    spare = omega (arith, r.space, one, leads-le b old v.block_indices m)

    away : id_of b (index_at v m) ≢ cur
    away e = ne (sym at_old ∙ e)

    module _ {v' : Volume} (at_i : no_of b (index_at v m) ≡ i)
        (mv : Moved b v v' cur m (content b c v cur m)) where
      after : Consistent b v' cur
      after =
          move-Consistent g c r.consistent mv (in_range r.consistent m live) spare away
            (length-content g c r.consistent m)

      -- The next slot, after the mesoblock at slot `i` has been copied.
      copied-Ready : Ready b v' cur old (i + 1)
      copied-Ready =
          let inside : old < length v'.infos = omega (arith, mv.infos, r.in_array) in
          record {
            consistent = after;
            in_array = inside;
            space = omega (
              arith,
              mv.used,
              after.counted old inside ne,
              (mv.others old ne).nonobsolete,
              r.consistent.counted old r.in_array ne,
              one,
              r.space,
            );
            done = λ m' live' e'. elim (Bool-cases (m == m')) [
              | inl same ↦ absurd (
                  ne (
                    sym e'
                    ∙ ap (λ x. id_of b (index_at v' x)) (sym (==→eq m m' same))
                    ∙ id_self g c r.consistent mv (in_range r.consistent m live) spare away
                        (length-content g c r.consistent m)))
              | inr apart ↦ later m' (ground arith) live' e'
            ];
          }
        where
          later :
              (m' : ℕ)
              → m ≢ m'
              → index_at v' m' ≢ never
              → id_of b (index_at v' m') ≡ old
              → i + 1 ≤ no_of b (index_at v' m')
          later m' apart live' e' =
              let k = r.consistent in
              let same =
                at_other g c k mv (in_range k m live) spare away (length-content g c k m) m'
                  apart in
              let alive : index_at v m' ≢ never = λ h. live' (same ∙ h) in
              let there = ap (id_of b) (sym same) ∙ e' in
              let x = named_in k m live at_old in
              let x' = named_in k m' alive there in
              let differs : no_of b (index_at v m') ≢ i = λ h.
                apart
                  (sym x ∙ ap (λ n. get_or (info v.infos old).indices n 0) (at_i ∙ sym h) ∙ x') in
              let shown : no_of b (index_at v' m') ≡ no_of b (index_at v m') = ap (no_of b) same in
              ground (arith, shown, differs, r.done m' alive there)

      contents_copied : (m' : ℕ) → content b c v' cur m' ≡ content b c v cur m'
      contents_copied m' =
          let k = r.consistent in
          let hm = in_range k m live in
          let whole = length-content g c k m in
          elim (Bool-cases (m == m')) [
            | inl same ↦
                subst (λ x. content b c v' cur x ≡ content b c v cur x) (==→eq m m' same)
                  (content_moved g c k mv hm spare away whole)
            | inr apart ↦ content_kept g c k mv hm spare away whole m' (ground arith)
          ]

  -- The loop, with a round for each slot from `i` on.
  pub copy_loop_lem :
      (left i : ℕ) {v : Volume}
      → Ready b v cur old i
      → (info v.infos old).no_indices ≤ i + left
      → (v' : Volume) × (copy_loop b c left v cur old i ≡ some v') × Drained b c v v' cur old
  unfolding copy_loop
  copy_loop_lem zero i {v} r h = (v, refl, at_end r (omega arith))
  copy_loop_lem (suc left) i {v} r h =
      let m = get_or (info v.infos old).indices i 0 in
      let k = r.consistent in
      elim (Bool-cases (ltb i (info v.infos old).no_indices)) [
        | inr past ↦ (v, loop_ends b c left v cur old i past, at_end r (ground arith))
        | inl more ↦ elim (Bool-cases (still_live b c v old m)) [
          | inr dead ↦
              let (v', e, d) = copy_loop_lem left (i + 1) (skipped-Ready r dead) (omega arith) in
              (v', loop_skips b c left v cur old i more dead ∙ e, d)
          | inl alive ↦
              let (hm, live, at_old) = alive_facts b c v old m alive in
              let at_i = slot_lem k (ltb→lt _ _ more) live at_old in
              let hs = spare m r live at_old in
              let (v1, e1, mv) = copy_mesoblk-Moved g c k old i m hm hs ne live at_old at_i in
              let (v', e, d) =
                copy_loop_lem left (i + 1) (copied-Ready m r live at_old at_i mv)
                  (fewer i left more h (mv.others old ne)) in
              (
                v',
                loop_copies b c left v cur old i more alive e1 ∙ e,
                record {
                  consistent = d.consistent;
                  contents = λ m'. d.contents m' ∙ contents_copied m r live at_old at_i mv m';
                  empty = d.empty;
                },
              )
        ]
      ]

copy_old_step :
    (b : Base) (c : Cipher (mesoblk_size b)) (v : Volume) {cur old : ℕ}
    → v.bi ≡ some cur
    → v.tail_macroblock ≡ some old
    → getbits v.status old 1 ≡ some 1
    → copy_old_block_to_current b c v ≡ copy_loop b c (info v.infos old).no_indices v cur old 0
unfolding copy_old_block_to_current copy_from
copy_old_step b c v e1 e2 e3 = bind_some _ e1 ∙ ap (copy_from b c v _) e2 ∙ bind_some _ e3

-- The whole of `copy_old_block_to_current`, with an old macroblock that the device uses.
pub copy_old_block_to_current_lem :
    {b : Base} (g : Geometry b) (c : Cipher (mesoblk_size b)) {v : Volume} {cur old : ℕ}
    → Consistent b v cur
    → v.tail_macroblock ≡ some old
    → getbits v.status old 1 ≡ some 1
    → old ≢ cur
    → old < length v.infos
    → (info v.infos cur).no_indices + refs b old v.block_indices ≤ mmpm b
    → (v' : Volume) × (copy_old_block_to_current b c v ≡ some v') × Drained b c v v' cur old
copy_old_block_to_current_lem {b} g c {v} {cur} {old} k tail used ne h space =
    let r : Ready b v cur old 0 = record {
      consistent = k;
      in_array = h;
      space = space;
      done = λ m live e. omega arith;
    } in
    let (v', e, d) = copy_loop_lem g c ne (info v.infos old).no_indices 0 r (omega arith) in
    (v', copy_old_step b c v k.current tail used ∙ e, d)
