-- ===== src/Scubed/Reference.antt =====
-- A logical mesoblock moves to the next slot of the current macroblock, as a write and the copying of
-- an old macroblock both do it: the volume stays consistent, and no other mesoblock changes.
use scubed.Base.{
  ℕ, ◌+◌, ◌≤◌, ◌<◌, ◌≡◌, ◌≢◌, inl, inr, sym, ◌∙◌, ap, ap₂, subst, List, [], arith, length, get_or,
  set, ◌==◌, if◌then◌else◌, eq→==, ==→eq, Bool-cases, length-set, get_or-set_self, get_or-set_ne,
}
use scubed.Blockio.Info.{info}
use scubed.Scubed.State.{Base, Cipher, Volume, mmpm, mesoblk_size, id_of, no_of, never, index_at}
use scubed.Scubed.Output.{pack_index, read_mesoblk}
use scubed.Scubed.Address.{
  Geometry, Addressable, id_of-pack_index, no_of-pack_index, pack_index_ne, id_of-never,
}
use scubed.Scubed.Contents.{
  content, leads, refs, refs-set, leads-le, leads_live, leads_elsewhere, Placed, Consistent,
}
use scubed.Scubed.Splice.{zeroes}
use scubed.Scubed.Obsolete.{Shrunk}

-- `m` has moved to the next slot of `cur`, with the contents `bytes`.
pub record Moved (b : Base) (v v' : Volume) (cur m : ℕ) (bytes : List ℕ) : Type 0 where
  pub current : v'.bi ≡ v.bi
  pub no_block_indices : v'.no_block_indices ≡ v.no_block_indices
  pub disk : v'.disk ≡ v.disk
  pub tmp : v'.tmp ≡ set v.tmp (info v.infos cur).no_indices bytes
  pub block_indices :
      v'.block_indices ≡ set v.block_indices m (pack_index b cur (info v.infos cur).no_indices)
  pub infos : length v'.infos ≡ length v.infos
  pub used : (info v'.infos cur).no_indices ≡ (info v.infos cur).no_indices + 1
  pub indices :
      (info v'.infos cur).indices ≡ set (info v.infos cur).indices (info v.infos cur).no_indices m
  pub others :
      (id : ℕ) → id ≢ cur → Shrunk (info v.infos id) (info v'.infos id) (leads b id (index_at v m))

module _ {b : Base} (g : Geometry b) (c : Cipher (mesoblk_size b)) {v v' : Volume} {cur m : ℕ}
    {bytes : List ℕ} (k : Consistent b v cur) (mv : Moved b v v' cur m bytes)
    (hm : m < v.no_block_indices) (hs : (info v.infos cur).no_indices < mmpm b)
    (away : id_of b (index_at v m) ≢ cur) (whole : length bytes ≡ mesoblk_size b) where
  slot : ℕ
  slot = (info v.infos cur).no_indices

  address : Addressable b cur
  address = omega (arith, k.addresses, k.in_array)

  -- The addresses of the volume after the move.
  at_self : index_at v' m ≡ pack_index b cur slot
  unfolding slot
  at_self =
      ap (λ xs. get_or xs m never) mv.block_indices
      ∙ get_or-set_self v.block_indices m _ never (omega (arith, k.sized))

  pub at_other : (m' : ℕ) → m ≢ m' → index_at v' m' ≡ index_at v m'
  at_other m' ne =
      ap (λ xs. get_or xs m' never) mv.block_indices ∙ get_or-set_ne v.block_indices m m' _ never ne

  pub id_self : id_of b (index_at v' m) ≡ cur
  unfolding slot
  id_self = ap (id_of b) at_self ∙ id_of-pack_index g cur slot address hs

  no_self : no_of b (index_at v' m) ≡ slot
  unfolding slot
  no_self = ap (no_of b) at_self ∙ no_of-pack_index g cur slot address hs

  live_self : index_at v' m ≢ never
  unfolding slot
  live_self e = pack_index_ne g cur slot address hs (sym at_self ∙ e)

  -- The number of mesoblocks in each macroblock.
  balance :
      (id : ℕ)
      → refs b id v'.block_indices + leads b id (index_at v m)
        ≡ refs b id v.block_indices + leads b id (index_at v' m)
  unfolding slot
  balance id =
      ap (λ xs. refs b id xs + leads b id (index_at v m)) mv.block_indices
      ∙ refs-set b id v.block_indices m (pack_index b cur slot) (omega (arith, k.sized))
      ∙ ap (λ x. refs b id v.block_indices + leads b id x) (sym at_self)

  counted_after :
      (id : ℕ)
      → id < length v'.infos
      → id ≢ cur
      → (info v'.infos id).no_nonobsolete ≡ refs b id v'.block_indices
  counted_after id h ne = omega (
    arith,
    balance id,
    k.counted id (omega (arith, mv.infos)) ne,
    (mv.others id ne).nonobsolete,
    leads_elsewhere b id (index_at v' m) (λ e. ne (sym e ∙ id_self)),
  )

  leads_self : leads b cur (index_at v' m) ≡ 1
  leads_self =
      subst (λ id. leads b id (index_at v' m) ≡ 1) id_self (leads_live b (index_at v' m) live_self)

  filled_after : (info v'.infos cur).no_indices ≡ refs b cur v'.block_indices
  filled_after =
      omega (
        arith,
        balance cur,
        mv.used,
        k.filled,
        leads_self,
        leads_elsewhere b cur (index_at v m) away,
      )

  self-Placed : Placed b v'.infos (index_at v' m) m
  unfolding slot
  self-Placed = record {
    in_array =
        subst (λ id. id < length v'.infos) (sym id_self) (omega (arith, mv.infos, k.in_array));
    in_use =
        subst (λ id. no_of b (index_at v' m) < (info v'.infos id).no_indices) (sym id_self)
          (omega (arith, no_self, mv.used));
    named =
        ap (λ id. get_or (info v'.infos id).indices (no_of b (index_at v' m)) 0) id_self
        ∙ ap (λ i. get_or (info v'.infos cur).indices i 0) no_self
        ∙ ap (λ xs. get_or xs slot 0) mv.indices
        ∙ get_or-set_self (info v.infos cur).indices slot m 0
            (omega (arith, k.room cur k.in_array));
  }

  -- A slot of a macroblock, after the move.
  Kept : ℕ → ℕ → ℕ → Type 0
  Kept id i m' = (i < (info v'.infos id).no_indices) × (get_or (info v'.infos id).indices i 0 ≡ m')

  current-Kept :
      (i m' : ℕ)
      → i < (info v.infos cur).no_indices
      → get_or (info v.infos cur).indices i 0 ≡ m'
      → Kept cur i m'
  unfolding Kept slot
  current-Kept i m' h e = (
    omega (arith, mv.used),
    ap (λ xs. get_or xs i 0) mv.indices
        ∙ get_or-set_ne (info v.infos cur).indices slot i m 0 (ground arith)
        ∙ e,
  )

  elsewhere-Kept :
      (id i m' : ℕ)
      → id < length v'.infos
      → id ≢ cur
      → leads b id (index_at v' m') ≡ 1
      → i < (info v.infos id).no_indices
      → get_or (info v.infos id).indices i 0 ≡ m'
      → Kept id i m'
  unfolding Kept
  elsewhere-Kept id i m' hid ne one h e = (
    elim (mv.others id ne).no_indices [
      | inl same ↦ omega (arith, same)
      | inr gone ↦
          absurd
            (omega (arith, gone.0, counted_after id hid ne, one, leads-le b id v'.block_indices m'))
    ],
    ap (λ xs. get_or xs i 0) (mv.others id ne).indices ∙ e,
  )

  other-Placed : (m' : ℕ) → m ≢ m' → index_at v' m' ≢ never → Placed b v'.infos (index_at v' m') m'
  unfolding Kept
  other-Placed m' ne live =
      let same = at_other m' ne in
      let before =
        subst (λ x. Placed b v.infos x m') (sym same) (k.placed m' (λ e. live (same ∙ e))) in
      let x = index_at v' m' in
      let inside : id_of b x < length v'.infos = omega (arith, before.in_array, mv.infos) in
      let kept : Kept (id_of b x) (no_of b x) m' = elim (Bool-cases (id_of b x == cur)) [
        | inl here ↦
            let e = ==→eq _ _ here in
            subst (λ id. Kept id (no_of b x) m') (sym e)
              (current-Kept (no_of b x) m'
                (subst (λ id. no_of b x < (info v.infos id).no_indices) e before.in_use)
                (subst (λ id. get_or (info v.infos id).indices (no_of b x) 0 ≡ m') e before.named))
        | inr there ↦
            elsewhere-Kept (id_of b x) (no_of b x) m' inside (ground arith) (leads_live b x live)
              before.in_use before.named
      ] in
      record { in_array = inside; in_use = kept.0; named = kept.1 }

  in_ram_after : (i : ℕ) → i < mmpm b → length (get_or v'.tmp i []) ≡ mesoblk_size b
  unfolding slot
  in_ram_after i h = ap (λ xs. length (get_or xs i [])) mv.tmp ∙ elim (Bool-cases (slot == i)) [
    | inl here ↦
        ap (λ j. length (get_or (set v.tmp slot bytes) j [])) (sym (==→eq slot i here))
        ∙ ap length (get_or-set_self v.tmp slot bytes [] (omega (arith, k.buffer)))
        ∙ whole
    | inr there ↦ ap length (get_or-set_ne v.tmp slot i bytes [] (ground arith)) ∙ k.in_ram i h
  ]

  -- Any property of the indices that the current macroblock and the others keep.
  full_after : (id : ℕ) → id < length v'.infos → (info v'.infos id).no_indices ≤ mmpm b
  full_after id h = elim (Bool-cases (id == cur)) [
    | inl here ↦
        subst (λ id'. (info v'.infos id').no_indices ≤ mmpm b) (sym (==→eq id cur here))
          (omega (arith, mv.used))
    | inr there ↦ elim (mv.others id (ground arith)).no_indices [
      | inl same ↦ omega (arith, same, k.full id (omega (arith, mv.infos)))
      | inr gone ↦ omega (arith, gone.1)
    ]
  ]

  room_after : (id : ℕ) → id < length v'.infos → length (info v'.infos id).indices ≡ mmpm b
  room_after id h = elim (Bool-cases (id == cur)) [
    | inl here ↦
        ap (λ id'. length (info v'.infos id').indices) (==→eq id cur here)
        ∙ ap length mv.indices
        ∙ length-set (info v.infos cur).indices (info v.infos cur).no_indices m
        ∙ k.room cur k.in_array
    | inr there ↦
        ap length (mv.others id (ground arith)).indices ∙ k.room id (omega (arith, mv.infos))
  ]

  -- The slot `i` of the current macroblock is what its index `m'` leads to.
  Owned : ℕ → ℕ → Type 0
  Owned i m' = (id_of b (index_at v' m') ≡ cur) × (no_of b (index_at v' m') ≡ i)

  before-Owned :
      (i m' : ℕ) → id_of b (index_at v m') ≡ cur → no_of b (index_at v m') ≡ i → Owned i m'
  unfolding Owned
  before-Owned i m' e f =
      let same = at_other m' (λ h. away (ap (λ x. id_of b (index_at v x)) h ∙ e)) in
      (ap (id_of b) same ∙ e, ap (no_of b) same ∙ f)

  after-Owned :
      (i : ℕ)
      → i < (info v'.infos cur).no_indices
      → Owned i (get_or (info v'.infos cur).indices i 0)
  unfolding slot Owned
  after-Owned i h =
      subst (λ xs. Owned i (get_or xs i 0)) (sym mv.indices)
        (elim (Bool-cases (slot == i)) [
          | inl here ↦
              let e = ==→eq slot i here in
              subst (λ j. Owned j (get_or (set (info v.infos cur).indices slot m) j 0)) e
                (subst (Owned slot)
                  (sym (
                    get_or-set_self (info v.infos cur).indices slot m 0
                      (omega (arith, k.room cur k.in_array))))
                  (id_self, no_self))
          | inr there ↦
              let o = k.owned i (ground (arith, mv.used)) in
              subst (Owned i)
                (sym (get_or-set_ne (info v.infos cur).indices slot i m 0 (ground arith)))
                (before-Owned i (get_or (info v.infos cur).indices i 0) o.0 o.1)
        ])

  unique_after :
      (id i j : ℕ)
      → id ≢ cur
      → i < (info v'.infos id).no_indices
      → j < (info v'.infos id).no_indices
      → get_or (info v'.infos id).indices i 0 ≡ get_or (info v'.infos id).indices j 0
      → i ≡ j
  unique_after id i j ne hi hj e =
      let x = mv.others id ne in
      let within : (n : ℕ) → n < (info v'.infos id).no_indices → n < (info v.infos id).no_indices =
        λ n h. elim x.no_indices [
          | inl same ↦ omega (arith, same)
          | inr gone ↦ absurd (omega (arith, gone.1))
        ] in
      k.unique id i j ne (within i hi) (within j hj)
        (ap (λ xs. get_or xs i 0) (sym x.indices) ∙ e ∙ ap (λ xs. get_or xs j 0) x.indices)

  pub move-Consistent : Consistent b v' cur
  unfolding Owned
  move-Consistent = record {
    current = mv.current ∙ k.current;
    in_array = omega (arith, mv.infos, k.in_array);
    all_blocks = mv.infos ∙ k.all_blocks;
    addresses = omega (arith, mv.infos, k.addresses);
    sized =
        mv.no_block_indices
        ∙ k.sized
        ∙ sym (length-set v.block_indices m (pack_index b cur (info v.infos cur).no_indices))
        ∙ ap length (sym mv.block_indices);
    buffer = ap length mv.tmp ∙ length-set v.tmp (info v.infos cur).no_indices bytes ∙ k.buffer;
    in_ram = in_ram_after;
    on_disk = λ id i h. ap (λ d. length (d id i)) mv.disk ∙ k.on_disk id i h;
    room = room_after;
    full = full_after;
    placed = λ m' live. elim (Bool-cases (m == m')) [
      | inl same ↦ subst (λ i. Placed b v'.infos (index_at v' i) i) (==→eq m m' same) self-Placed
      | inr apart ↦ other-Placed m' (ground arith) live
    ];
    counted = counted_after;
    filled = filled_after;
    owned = after-Owned;
    unique = unique_after;
  }

  pub content_moved : content b c v' cur m ≡ bytes
  unfolding slot
  content_moved = rw (eq→== _ _ id_self) (
      ap (λ i. get_or v'.tmp i []) no_self
      ∙ ap (λ xs. get_or xs slot []) mv.tmp
      ∙ get_or-set_self v.tmp slot bytes [] (omega (arith, k.buffer)))

  read_same : (id i : ℕ) → id ≢ cur → read_mesoblk b c v' id i ≡ read_mesoblk b c v id i
  unfolding read_mesoblk
  read_same id i ne = ap₂ (λ s d. c.dec s (i + 1) id (d id i)) (mv.others id ne).seqno mv.disk

  -- The contents at an address other than that of the new slot.
  pub content_kept : (m' : ℕ) → m ≢ m' → content b c v' cur m' ≡ content b c v cur m'
  unfolding slot
  content_kept m' ne =
      let same = at_other m' ne in
      rw same (elim (Bool-cases (id_of b (index_at v m') == cur)) [
        | inl here ↦
            let live : index_at v m' ≢ never =
              λ e. id_of-never g cur address (sym (ap (id_of b) e) ∙ ==→eq _ _ here) in
            let used =
              subst (λ id. no_of b (index_at v m') < (info v.infos id).no_indices) (==→eq _ _ here)
                (k.placed m' live).in_use in
            rw here (
              ap (λ xs. get_or xs (no_of b (index_at v m')) []) mv.tmp
              ∙ get_or-set_ne v.tmp slot (no_of b (index_at v m')) bytes [] (ground arith))
        | inr there ↦ rw there (
            ap (λ r. if index_at v m' == never then zeroes (mesoblk_size b) else r)
              (read_same (id_of b (index_at v m')) (no_of b (index_at v m')) (ground arith)))
      ])
