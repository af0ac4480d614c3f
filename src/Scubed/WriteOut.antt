-- ===== src/Scubed/WriteOut.antt =====
-- `blockio_dev_write_current_and_select_next_macroblock` over the juggler.
use scubed.Base.{
  ℕ, zero, suc, ◌+◌, ◌^◌, ◌<◌, ◌≡◌, ◌≢◌, ◌⊎◌, refl, sym, ◌∙◌, ap, List, [], ◌∷◌, some, none, arith,
  length, get_or, ◌==◌, ==→eq, eq→==, Bool-cases, inl, inr, if◌then◌else◌, ltb, lt→ltb, false,
  bind_some, length-set, get_or-set_self, get_or-set_ne, u32, assert,
}
use scubed.Blockio.Info.{BlockioInfo, Infos, info, blank}
use scubed.Juggler.{Picked, due, get_devblock, get_obsoleted}
use scubed.Juggler.Chain.{next_of, occurs}
use scubed.Juggler.Times.{times-due, times-IsValid, times-Live}
use scubed.Juggler.Invariant.{IsValid, Live}
use scubed.Juggler.Rotate.{Rotated, get_devblock_lem}
use scubed.Random.Uniform.{zeros}
use scubed.Scubed.State.{Base, Cipher, Volume, mmpm, mesoblk_size, update}
use scubed.Scubed.Output.{
  none_yet, seal, index_block, write_current_macroblock, select_next_macroblock, write_and_select,
}
use scubed.Scubed.Address.{Geometry}
use scubed.Scubed.Contents.{content, refs, Consistent}
use scubed.Scubed.Splice.{zeroes}
use scubed.Scubed.Switch.{length-payload, payload, Switched, switch-Consistent, content_switched}

module _ (b : Base) (c : Cipher (mesoblk_size b)) where
  length-seal :
      (q id used i : ℕ) (xs : List (List ℕ)) → length (seal b c q id used i xs) ≡ length xs
  unfolding seal
  length-seal q id used i [] = refl
  length-seal q id used i (x ∷ xs) = ap suc (length-seal q id used (i + 1) xs)

  -- The slot `j` behind the `i`-th one.
  get_or-seal :
      (q id used i : ℕ) (xs : List (List ℕ)) (j : ℕ)
      → j < length xs
      → get_or (seal b c q id used i xs) j []
        ≡ c.enc q
            (i + j + 1)
            id
            (if ltb (i + j) used then get_or xs j [] else zeroes (mesoblk_size b))
  unfolding seal
  get_or-seal q id used i [] j h = absurd (omega arith)
  get_or-seal q id used i (x ∷ xs) zero h =
      let e : i ≡ i + 0 = omega arith in
      ap (λ t. c.enc q (t + 1) id (if ltb t used then x else zeroes (mesoblk_size b))) e
  get_or-seal q id used i (x ∷ xs) (suc j) h =
      let e : i + 1 + j ≡ i + suc j = omega arith in
      get_or-seal q id used (i + 1) xs j (omega arith)
      ∙ ap
          (λ t. c.enc q (t + 1) id (if ltb t used then get_or xs j [] else zeroes (mesoblk_size b)))
          e

  -- What `write_current_macroblock` leaves.
  abbrev pub sealed : Volume → ℕ → List (List ℕ)
  sealed v cur = seal b c (info v.infos cur).seqno cur (info v.infos cur).no_indices 0 v.tmp

  abbrev pub written_out : Volume → ℕ → Volume
  written_out v cur =
      let x = info v.infos cur in
      record v {
        writes = u32 (v.writes + 1);
        tmp = sealed v cur;
        infos = update v.infos cur (record x { no_nonobsolete = x.no_indices });
        index_blocks = λ id. if id == cur then some (index_block b c v cur) else v.index_blocks id;
        disk = λ id slot. if id == cur then get_or (sealed v cur) slot [] else v.disk id slot;
        bi = none;
      }

  pub write_current_macroblock_lem :
      {v : Volume} {cur : ℕ}
      → Consistent b v cur
      → write_current_macroblock b c v ≡ some (written_out v cur)
  unfolding write_current_macroblock
  write_current_macroblock_lem {v} {cur} k =
      let h : cur < b.total_macroblocks = omega (arith, k.in_array, k.all_blocks) in
      bind_some _ k.current ∙ rw (lt→ltb _ _ h) refl

  abbrev pub selected : Volume → Picked → ℕ → Volume
  selected v p n = record v {
    updated = false;
    infos = p.infos;
    juggler = p.juggler;
    stream = p.stream;
    bi = some n;
    tail_macroblock = get_obsoleted p.infos p.juggler;
  }

  pub select_next_macroblock_lem :
      (v : Volume) {p : Picked} {n : ℕ}
      → v.bi ≡ none
      → get_devblock v.infos v.juggler v.stream false ≡ some p
      → p.block ≡ some n
      → select_next_macroblock v ≡ some (selected v p n)
  unfolding select_next_macroblock
  select_next_macroblock_lem v e1 e2 e3 =
      bind_some _ (ap (λ o. assert (none_yet o)) e1) ∙ bind_some _ e2 ∙ bind_some _ e3

-- The block may be put out next: it is due, or nothing is and it is not scheduled.
abbrev pub Next : Volume → ℕ → Type 0
Next v n =
    (due v.infos (v.juggler.seqno + 1) v.juggler.scheduled ≡ some n)
    ⊎ ((due v.infos (v.juggler.seqno + 1) v.juggler.scheduled ≡ none)
        × (occurs n v.juggler.unscheduled ≡ 1))

-- Nothing lives in the macroblock, and it is not the current one.
pub record DrainedBlock (b : Base) (v : Volume) (cur n : ℕ) : Type 0 where
  pub other : n ≢ cur
  pub empty : (info v.infos n).no_indices ≡ 0
  pub vacant : refs b n v.block_indices ≡ 0

module _ {b : Base} (c : Cipher (mesoblk_size b)) {v : Volume} {cur : ℕ}
    (k : Consistent b v cur) where
  -- Writing out touches one count only.
  abbrev pub infos1 : Infos
  infos1 = (written_out b c v cur).infos

  at_cur :
      info infos1 cur ≡ record (info v.infos cur) { no_nonobsolete = (info v.infos cur).no_indices }
  at_cur = get_or-set_self v.infos cur _ blank k.in_array

  at_others : (id : ℕ) → id ≢ cur → info infos1 id ≡ info v.infos id
  at_others id ne = get_or-set_ne v.infos cur id _ blank (λ e. ne (sym e))

  -- A field that is not that count.
  untouched :
      {A : Type 0} (f : BlockioInfo → A)
      → ((x : BlockioInfo) (y : ℕ) → f (record x { no_nonobsolete = y }) ≡ f x)
      → (id : ℕ) → f (info infos1 id) ≡ f (info v.infos id)
  untouched f blind id = elim (Bool-cases (id == cur)) [
    | inl here ↦
        let e = ==→eq id cur here in
        ap (λ i. f (info infos1 i)) e
        ∙ ap f at_cur
        ∙ blind (info v.infos cur) (info v.infos cur).no_indices
        ∙ ap (λ i. f (info v.infos i)) (sym e)
    | inr there ↦ ap f (at_others id (ground arith))
  ]

  length-infos1 : length infos1 ≡ length v.infos
  length-infos1 = length-set v.infos cur _

  time_kept : (id : ℕ) → next_of infos1 id ≡ next_of v.infos id
  time_kept = untouched (λ x. x.next_seqno) (λ x y. refl)

  length-sealed : length (sealed b c v cur) ≡ length v.tmp
  length-sealed = length-seal b c _ cur _ 0 v.tmp

  pub slot_sealed :
      (i : ℕ)
      → i < mmpm b
      → get_or (sealed b c v cur) i []
        ≡ c.enc (info v.infos cur).seqno (i + 1) cur (payload b v cur i)
  slot_sealed i h =
      let e : 0 + i ≡ i = omega arith in
      get_or-seal b c _ cur _ 0 v.tmp i (omega (arith, h, k.buffer))
      ∙ ap
          (λ j. c.enc (info v.infos cur).seqno (j + 1) cur (
            if ltb j (info v.infos cur).no_indices
            then get_or v.tmp i []
            else zeroes (mesoblk_size b)))
          e

  -- The macroblock `n` that the juggler picked becomes current.
  picked-Switched :
      {n : ℕ} {p : Picked}
      → n ≢ cur
      → Rotated infos1 v.juggler n p
      → Switched b c v (selected b c (written_out b c v cur) p n) cur n
  picked-Switched {n} {p} ne r = record {
    current = refl;
    no_block_indices = refl;
    block_indices = refl;
    infos = r.size ∙ length-infos1;
    used = λ id. (r.kept id).no_indices ∙ untouched (λ x. x.no_indices) (λ x y. refl) id;
    indices = λ id. (r.kept id).indices ∙ untouched (λ x. x.indices) (λ x y. refl) id;
    seqno = λ id other.
        ap (λ (x : BlockioInfo). x.seqno) (r.others id (λ e. other (sym e)))
        ∙ untouched (λ x. x.seqno) (λ x y. refl) id;
    counted = λ id other.
        (r.kept id).no_nonobsolete
        ∙ ap (λ (x : BlockioInfo). x.no_nonobsolete) (at_others id other);
    counted_cur = (r.kept cur).no_nonobsolete ∙ ap (λ (x : BlockioInfo). x.no_nonobsolete) at_cur;
    buffer = length-sealed;
    in_ram = λ i h.
        ap length (slot_sealed i h) ∙ c.length_enc _ _ _ (payload b v cur i) (length-payload k i h);
    written = λ i h. rw (eq→== cur cur refl) (slot_sealed i h);
    disk = λ id i other. let there : (id == cur) ≡ false = ground arith in rw there refl;
  }

next_lem :
    {b : Base} (c : Cipher (mesoblk_size b)) {v : Volume} {cur : ℕ} (k : Consistent b v cur) {n : ℕ}
    {p : Picked}
    → Rotated (infos1 c k) v.juggler n p
    → Next v n
next_lem c {v} k r =
    let same =
      times-due v.infos (infos1 c k) (time_kept c k) (v.juggler.seqno + 1) v.juggler.scheduled in
    elim r.source [
      | inl head ↦ inl (sym same ∙ head)
      | inr fresh ↦ inr (sym same ∙ fresh.0, fresh.1)
    ]

-- What the next macroblock leaves: the volume holds the same.
pub record Advanced (b : Base) (c : Cipher (mesoblk_size b)) (v v' : Volume) (cur n : ℕ)
    : Type 0 where
  pub consistent : Consistent b v' n
  pub contents : (m : ℕ) → content b c v' n m ≡ content b c v cur m
  pub valid : IsValid v'.infos v'.juggler
  pub live : Live v'.infos v'.juggler

-- The whole step.
pub write_and_select_lem :
    {b : Base} (g : Geometry b) (c : Cipher (mesoblk_size b)) {v : Volume} {cur : ℕ}
    → Consistent b v cur
    → IsValid v.infos v.juggler
    → Live v.infos v.juggler
    → 1 < zeros v.stream
    → v.juggler.seqno + length v.stream + length v.juggler.scheduled + 3 < 2 ^ 64
    → ((n : ℕ) → Next v n → DrainedBlock b v cur n)
    → (v' : Volume) × (n : ℕ) × (write_and_select b c v ≡ some v') × Advanced b c v v' cur n
unfolding write_and_select
write_and_select_lem {b} g c {v} {cur} k valid live z room drained =
    let times = time_kept c k in
    let (n, p, e, r) =
      get_devblock_lem (infos1 c k) v.juggler v.stream
        (times-IsValid v.infos (infos1 c k) times v.juggler (length-infos1 c k) valid)
        (times-Live v.infos (infos1 c k) times v.juggler live) z room in
    let d = drained n (next_lem c k r) in
    let s = picked-Switched c k d.other r in
    let hn : n < length v.infos = omega (arith, r.inside, length-infos1 c k) in
    (
      selected b c (written_out b c v cur) p n,
      n,
      bind_some _ (write_current_macroblock_lem b c k)
          ∙ select_next_macroblock_lem b c (written_out b c v cur) refl e r.block,
      record {
        consistent = switch-Consistent g c k s d.other hn d.empty d.vacant;
        contents = content_switched g c k s d.other hn d.empty d.vacant;
        valid = r.valid;
        live = r.live;
      },
    )
