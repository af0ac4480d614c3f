-- ===== src/Scubed/Switch.antt =====
-- The current macroblock is written out and another one takes its place: the volume stays consistent
-- and keeps its contents, if nothing lives in the other one.
use scubed.Base.{
  ℕ, ◌+◌, ◌<◌, ◌≡◌, ◌≢◌, refl, sym, ◌∙◌, ap, ap₂, subst, List, [], some, arith, length, get_or,
  ◌==◌, ==→eq, Bool-cases, inl, inr, if◌then◌else◌, ltb, lt→ltb, true, false,
}
use scubed.Blockio.Info.{info}
use scubed.Scubed.State.{Base, Cipher, Volume, mmpm, mesoblk_size, id_of, no_of, never, index_at}
use scubed.Scubed.Output.{read_mesoblk}
use scubed.Scubed.Address.{Geometry, id_of-never}
use scubed.Scubed.Contents.{content, leads, refs, leads_live, leads-le, Placed, Consistent}
use scubed.Scubed.Splice.{zeroes, length-zeroes}
use scubed.Scubed.Read.{slot-lt, here-live}

-- What is encrypted for a slot of the current macroblock.
abbrev pub payload : Base → Volume → ℕ → ℕ → List ℕ
payload b v cur i =
    if ltb i (info v.infos cur).no_indices then get_or v.tmp i [] else zeroes (mesoblk_size b)

pub length-payload :
    {b : Base} {v : Volume} {cur : ℕ}
    → Consistent b v cur
    → (i : ℕ) → i < mmpm b
    → length (payload b v cur i) ≡ mesoblk_size b
length-payload {b} {v} {cur} k i h = elim (Bool-cases (ltb i (info v.infos cur).no_indices)) [
  | inl used ↦ rw used (k.in_ram i h)
  | inr unused ↦ rw unused (length-zeroes (mesoblk_size b))
]

-- `cur` has been written out, and `n` is current.
pub record Switched (b : Base) (c : Cipher (mesoblk_size b)) (v v' : Volume) (cur n : ℕ)
    : Type 0 where
  pub current : v'.bi ≡ some n
  pub no_block_indices : v'.no_block_indices ≡ v.no_block_indices
  pub block_indices : v'.block_indices ≡ v.block_indices
  pub infos : length v'.infos ≡ length v.infos
  pub used : (id : ℕ) → (info v'.infos id).no_indices ≡ (info v.infos id).no_indices
  pub indices : (id : ℕ) → (info v'.infos id).indices ≡ (info v.infos id).indices
  pub seqno : (id : ℕ) → id ≢ n → (info v'.infos id).seqno ≡ (info v.infos id).seqno
  pub counted :
      (id : ℕ) → id ≢ cur → (info v'.infos id).no_nonobsolete ≡ (info v.infos id).no_nonobsolete
  pub counted_cur : (info v'.infos cur).no_nonobsolete ≡ (info v.infos cur).no_indices
  pub buffer : length v'.tmp ≡ length v.tmp
  pub in_ram : (i : ℕ) → i < mmpm b → length (get_or v'.tmp i []) ≡ mesoblk_size b
  pub written :
      (i : ℕ)
      → i < mmpm b
      → v'.disk cur i ≡ c.enc (info v.infos cur).seqno (i + 1) cur (payload b v cur i)
  pub disk : (id i : ℕ) → id ≢ cur → v'.disk id i ≡ v.disk id i

module _ {b : Base} (g : Geometry b) (c : Cipher (mesoblk_size b)) {v v' : Volume} {cur n : ℕ}
    (k : Consistent b v cur) (s : Switched b c v v' cur n) (ne : n ≢ cur) (hn : n < length v.infos)
    (empty : (info v.infos n).no_indices ≡ 0) (vacant : refs b n v.block_indices ≡ 0) where
  same_index : (m : ℕ) → index_at v' m ≡ index_at v m
  same_index m = ap (λ xs. get_or xs m never) s.block_indices

  same_refs : (id : ℕ) → refs b id v'.block_indices ≡ refs b id v.block_indices
  same_refs id = ap (refs b id) s.block_indices

  -- Nothing lives in the new macroblock.
  lives_elsewhere : (m : ℕ) → index_at v m ≢ never → id_of b (index_at v m) ≢ n
  lives_elsewhere m live e = absurd (
      omega (
        arith,
        vacant,
        subst (λ id. leads b id (index_at v m) ≡ 1) e (leads_live b (index_at v m) live),
        leads-le b n v.block_indices m,
      ))

  not_new : (m : ℕ) → id_of b (index_at v m) ≢ n
  not_new m e = elim (Bool-cases (index_at v m == never)) [
    | inl unused ↦
        id_of-never g n (omega (arith, hn, k.addresses)) (sym (ap (id_of b) (==→eq _ _ unused)) ∙ e)
    | inr used ↦ lives_elsewhere m (ground arith) e
  ]

  on_disk_after : (id i : ℕ) → i < mmpm b → length (v'.disk id i) ≡ mesoblk_size b
  on_disk_after id i h = elim (Bool-cases (id == cur)) [
    | inl here ↦
        ap (λ x. length (v'.disk x i)) (==→eq id cur here)
        ∙ ap length (s.written i h)
        ∙ c.length_enc _ _ _ (payload b v cur i) (length-payload k i h)
    | inr there ↦ ap length (s.disk id i (ground arith)) ∙ k.on_disk id i h
  ]

  after-Placed : (m : ℕ) → index_at v' m ≢ never → Placed b v'.infos (index_at v' m) m
  after-Placed m live =
      let p = k.placed m (λ e. live (same_index m ∙ e)) in
      let x = index_at v m in
      subst (λ y. Placed b v'.infos y m) (sym (same_index m))
        (record {
          in_array = omega (arith, p.in_array, s.infos);
          in_use = omega (arith, p.in_use, s.used (id_of b x));
          named = ap (λ xs. get_or xs (no_of b x) 0) (s.indices (id_of b x)) ∙ p.named;
        })

  counted_after :
      (id : ℕ)
      → id < length v'.infos
      → id ≢ n
      → (info v'.infos id).no_nonobsolete ≡ refs b id v'.block_indices
  counted_after id h other = elim (Bool-cases (id == cur)) [
    | inl here ↦
        let e = ==→eq id cur here in
        ap (λ x. (info v'.infos x).no_nonobsolete) e
        ∙ s.counted_cur
        ∙ k.filled
        ∙ ap (λ x. refs b x v.block_indices) (sym e)
        ∙ sym (same_refs id)
    | inr there ↦
        s.counted id (ground arith)
        ∙ k.counted id (omega (arith, h, s.infos)) (ground arith)
        ∙ sym (same_refs id)
  ]

  -- The slots of the macroblock that was current have different indices, as each leads to its own.
  unique_cur :
      (i j : ℕ)
      → i < (info v.infos cur).no_indices
      → j < (info v.infos cur).no_indices
      → get_or (info v.infos cur).indices i 0 ≡ get_or (info v.infos cur).indices j 0
      → i ≡ j
  unique_cur i j hi hj e =
      sym (k.owned i hi).1 ∙ ap (λ m. no_of b (index_at v m)) e ∙ (k.owned j hj).1

  unique_after :
      (id i j : ℕ)
      → id ≢ n
      → i < (info v'.infos id).no_indices
      → j < (info v'.infos id).no_indices
      → get_or (info v'.infos id).indices i 0 ≡ get_or (info v'.infos id).indices j 0
      → i ≡ j
  unique_after id i j other hi hj e =
      let hi' : i < (info v.infos id).no_indices = omega (arith, hi, s.used id) in
      let hj' : j < (info v.infos id).no_indices = omega (arith, hj, s.used id) in
      let e' =
        ap (λ xs. get_or xs i 0) (sym (s.indices id))
        ∙ e
        ∙ ap (λ xs. get_or xs j 0) (s.indices id) in
      elim (Bool-cases (id == cur)) [
        | inl here ↦
            let at = ==→eq id cur here in
            unique_cur i j (subst (λ x. i < (info v.infos x).no_indices) at hi')
              (subst (λ x. j < (info v.infos x).no_indices) at hj')
              (subst
                (λ x. get_or (info v.infos x).indices i 0 ≡ get_or (info v.infos x).indices j 0) at
                e')
        | inr there ↦ k.unique id i j (ground arith) hi' hj' e'
      ]

  pub switch-Consistent : Consistent b v' n
  switch-Consistent = record {
    current = s.current;
    in_array = omega (arith, hn, s.infos);
    all_blocks = s.infos ∙ k.all_blocks;
    addresses = omega (arith, s.infos, k.addresses);
    sized = s.no_block_indices ∙ k.sized ∙ ap length (sym s.block_indices);
    buffer = s.buffer ∙ k.buffer;
    in_ram = s.in_ram;
    on_disk = on_disk_after;
    room = λ id h. ap length (s.indices id) ∙ k.room id (omega (arith, h, s.infos));
    full = λ id h. omega (arith, s.used id, k.full id (omega (arith, h, s.infos)));
    placed = after-Placed;
    counted = counted_after;
    filled = omega (arith, s.used n, empty, vacant, same_refs n);
    owned = λ i h. absurd (omega (arith, h, s.used n, empty));
    unique = unique_after;
  }

  -- What was in RAM is read from the disk now.
  reread :
      (m : ℕ)
      → id_of b (index_at v m) ≡ cur
      → read_mesoblk b c v' cur (no_of b (index_at v m)) ≡ get_or v.tmp (no_of b (index_at v m)) []
  unfolding read_mesoblk
  reread m here =
      let i = no_of b (index_at v m) in
      let live = here-live g c k m here in
      let hi = slot-lt g c k m live in
      let used : ltb i (info v.infos cur).no_indices ≡ true =
        lt→ltb _ _ (subst (λ id. i < (info v.infos id).no_indices) here (k.placed m live).in_use) in
      ap₂ (λ q x. c.dec q (i + 1) cur x) (s.seqno cur (λ e. ne (sym e))) (s.written i hi)
      ∙ c.dec_enc _ (i + 1) cur (payload b v cur i) (length-payload k i hi)
      ∙ rw used refl

  reread_elsewhere :
      (id i : ℕ) → id ≢ cur → id ≢ n → read_mesoblk b c v' id i ≡ read_mesoblk b c v id i
  unfolding read_mesoblk
  reread_elsewhere id i other fresh =
      ap₂ (λ q x. c.dec q (i + 1) id x) (s.seqno id fresh) (s.disk id i other)

  pub content_switched : (m : ℕ) → content b c v' n m ≡ content b c v cur m
  content_switched m =
      let x = index_at v m in
      let old : (id_of b x == n) ≡ false = ground (arith, not_new m) in
      rw (same_index m, old)
        (elim (Bool-cases (id_of b x == cur)) [
          | inl here ↦
              let e : id_of b x ≡ cur = ==→eq _ _ here in
              let used = here-live g c k m e in
              let live : (x == never) ≡ false = ground arith in
              rw (live, here) (ap (λ id. read_mesoblk b c v' id (no_of b x)) e ∙ reread m e)
          | inr there ↦ rw there (
              ap (λ r. if x == never then zeroes (mesoblk_size b) else r)
                (reread_elsewhere (id_of b x) (no_of b x) (ground arith) (not_new m)))
        ])
