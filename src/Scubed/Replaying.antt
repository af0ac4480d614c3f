-- ===== src/Scubed/Replaying.antt =====
-- One slot of `replay`: the tables while the macroblocks are replayed.
use scubed.Base.{
  ℕ, suc, ◌+◌, ◌≤◌, ◌<◌, ◌≡◌, ◌≢◌, ◌⊎◌, inl, inr, refl, sym, ◌∙◌, ap, subst, not, true, some, arith,
  length, get_or, set, ◌==◌, ==→eq, eq→==, Bool-cases, if◌then◌else◌, bind_some, length-set,
  get_or-set_self, get_or-set_ne,
}
use scubed.Blockio.Info.{Infos, info}
use scubed.Scubed.State.{Base, Volume, mmpm, id_of, no_of, never, index_at}
use scubed.Scubed.Output.{pack_index}
use scubed.Scubed.Address.{
  Geometry, Addressable, id_of-pack_index, no_of-pack_index, pack_index_ne, id_of-never,
}
use scubed.Scubed.Contents.{leads, refs, refs-set, leads-le, leads_live, leads_elsewhere}
use scubed.Scubed.Obsolete.{Obsoleted, byidx-Obsoleted}
use scubed.Scubed.Init.{replay_slot}

-- The number of indices that the macroblock `id` came with, and its indices.
abbrev pub loaded : Infos → ℕ → ℕ
loaded infos0 id = (info infos0 id).no_indices

abbrev pub loaded_index : Infos → ℕ → ℕ → ℕ
loaded_index infos0 id k = get_or (info infos0 id).indices k 0

-- The first `seen id` slots of each macroblock have been replayed, from the array `infos0` and a
-- table of `n` mesoblocks that were not written.
pub record Replaying (b : Base) (infos0 : Infos) (n : ℕ) (v : Volume) (seen : ℕ → ℕ) : Type 0 where
  pub size : length v.infos ≡ length infos0
  pub sized : v.no_block_indices ≡ n
  pub wide : length v.block_indices ≡ n
  pub kept : (id : ℕ) → (info v.infos id).indices ≡ (info infos0 id).indices
  pub fewer : (id : ℕ) → seen id ≤ loaded infos0 id
  pub possible : (id : ℕ) → seen id ≤ (info infos0 id).no_nonobsolete
  pub counted :
      (id : ℕ)
      → (info v.infos id).no_nonobsolete + seen id
        ≡ (info infos0 id).no_nonobsolete + refs b id v.block_indices
  pub used :
      (id : ℕ)
      → ((info v.infos id).no_indices ≡ loaded infos0 id)
        ⊎ (((info v.infos id).no_nonobsolete ≡ 0) × ((info v.infos id).no_indices ≡ 0))
  pub live :
      (m : ℕ)
      → index_at v m ≢ never
      → (id_of b (index_at v m) < length infos0)
        × (no_of b (index_at v m) < seen (id_of b (index_at v m)))
        × (loaded_index infos0 (id_of b (index_at v m)) (no_of b (index_at v m)) ≡ m)

-- One slot more of `id`.
abbrev pub bump : (ℕ → ℕ) → ℕ → ℕ → ℕ
bump seen id x = if x == id then suc (seen x) else seen x

-- Each macroblock fits, and none has an index twice.
pub record Loaded (b : Base) (infos0 : Infos) (n : ℕ) (id : ℕ) : Type 0 where
  pub in_array : id < length infos0
  pub address : Addressable b id
  pub all_live : (info infos0 id).no_nonobsolete ≡ loaded infos0 id
  pub fits : loaded infos0 id ≤ mmpm b
  pub inside : (k : ℕ) → k < loaded infos0 id → loaded_index infos0 id k < n
  pub once :
      (j k : ℕ)
      → j < loaded infos0 id
      → k < loaded infos0 id
      → loaded_index infos0 id j ≡ loaded_index infos0 id k
      → j ≡ k

module _ {b : Base} (g : Geometry b) {infos0 : Infos} {n : ℕ} {v : Volume} {seen : ℕ → ℕ}
    (r : Replaying b infos0 n v seen) where
  -- A macroblock in which a mesoblock lives has one to lose, and has kept its indices.
  pub some_left :
      (m : ℕ) → index_at v m ≢ never → (info v.infos (id_of b (index_at v m))).no_nonobsolete ≢ 0
  some_left m ne e =
      let id = id_of b (index_at v m) in
      absurd (
        omega (
          arith,
          e,
          r.counted id,
          r.possible id,
          leads-le b id v.block_indices m,
          leads_live b (index_at v m) ne,
        ))

  pub still_used :
      (id : ℕ)
      → (info v.infos id).no_nonobsolete ≢ 0
      → (info v.infos id).no_indices ≡ loaded infos0 id
  still_used id ne = elim (r.used id) [ inl same ↦ same | inr gone ↦ absurd (ne gone.0) ]

  module _ (id k : ℕ) (l : Loaded b infos0 n id) (h : k < loaded infos0 id) (at : seen id ≡ k) where
    abbrev m : ℕ
    m = loaded_index infos0 id k

    hs : k < mmpm b
    hs = omega (arith, h, l.fits)

    not_itself : id_of b (index_at v m) ≢ id
    not_itself e = elim (Bool-cases (index_at v m == never)) [
      | inl unused ↦ id_of-never g id l.address (ap (id_of b) (sym (==→eq _ _ unused)) ∙ e)
      | inr there ↦
          let (_, before, named) = r.live m (ground arith) in
          let before' : no_of b (index_at v m) < k =
            subst (λ x. no_of b (index_at v m) < x) (ap seen e ∙ at) before in
          absurd (
            omega (
              arith,
              before',
              l.once (no_of b (index_at v m)) k (omega arith) h
                  (ap (λ x. loaded_index infos0 x (no_of b (index_at v m))) (sym e) ∙ named),
            ))
    ]

    module _ (infos' : Infos) (o : Obsoleted b v.infos infos' (index_at v m)) where
      abbrev next : Volume
      next = record v { infos = infos'; block_indices = set v.block_indices m (pack_index b id k) }

      m-lt : m < length v.block_indices
      m-lt = omega (arith, l.inside k h, r.wide)

      here : index_at next m ≡ pack_index b id k
      here = get_or-set_self v.block_indices m (pack_index b id k) never m-lt

      there : (m' : ℕ) → m ≢ m' → index_at next m' ≡ index_at v m'
      there m' ne = get_or-set_ne v.block_indices m m' (pack_index b id k) never ne

      id_here : id_of b (index_at next m) ≡ id
      id_here = ap (id_of b) here ∙ id_of-pack_index g id k l.address hs

      no_here : no_of b (index_at next m) ≡ k
      no_here = ap (no_of b) here ∙ no_of-pack_index g id k l.address hs

      leads_here : leads b id (pack_index b id k) ≡ 1
      leads_here =
          subst (λ x. leads b x (pack_index b id k) ≡ 1) (id_of-pack_index g id k l.address hs)
            (leads_live b (pack_index b id k) (pack_index_ne g id k l.address hs))

      balance :
          (x : ℕ)
          → refs b x next.block_indices + leads b x (index_at v m)
            ≡ refs b x v.block_indices + leads b x (pack_index b id k)
      balance x = refs-set b x v.block_indices m (pack_index b id k) m-lt

      counted_next :
          (x : ℕ)
          → (info infos' x).no_nonobsolete + bump seen id x
            ≡ (info infos0 x).no_nonobsolete + refs b x next.block_indices
      counted_next x = elim (Bool-cases (x == id)) [
        | inl same ↦
            let e = ==→eq x id same in
            let one : leads b x (pack_index b id k) ≡ 1 =
              ap (λ y. leads b y (pack_index b id k)) e ∙ leads_here in
            rw (same) (omega (arith, one, balance x, r.counted x, (o.shrunk x).nonobsolete))
        | inr other ↦
            let none : leads b x (pack_index b id k) ≡ 0 =
              leads_elsewhere b x (pack_index b id k)
                (λ e. absurd (ground (arith, sym (id_of-pack_index g id k l.address hs) ∙ e))) in
            rw (other) (omega (arith, none, balance x, r.counted x, (o.shrunk x).nonobsolete))
      ]

      used_next :
          (x : ℕ)
          → ((info infos' x).no_indices ≡ loaded infos0 x)
            ⊎ (((info infos' x).no_nonobsolete ≡ 0) × ((info infos' x).no_indices ≡ 0))
      used_next x = elim ((o.shrunk x).no_indices) [
        | inl same ↦ elim (r.used x) [
          | inl full ↦ inl (same ∙ full)
          | inr gone ↦ inr (omega (arith, (o.shrunk x).nonobsolete, gone.0), same ∙ gone.1)
        ]
        | inr gone ↦ inr gone
      ]

      live_next :
          (m' : ℕ)
          → index_at next m' ≢ never
          → (id_of b (index_at next m') < length infos0)
            × (no_of b (index_at next m') < bump seen id (id_of b (index_at next m')))
            × (loaded_index infos0 (id_of b (index_at next m')) (no_of b (index_at next m')) ≡ m')
      live_next m' ne = elim (Bool-cases (m == m')) [
        | inl same ↦
            let e : m ≡ m' = ==→eq m m' same in
            subst
              (λ y.
                (id_of b (index_at next y) < length infos0)
                × (no_of b (index_at next y) < bump seen id (id_of b (index_at next y)))
                × (loaded_index infos0 (id_of b (index_at next y)) (no_of b (index_at next y)) ≡ y))
              e
              (
                subst (λ y. y < length infos0) (sym id_here) l.in_array,
                subst (λ y. no_of b (index_at next m) < bump seen id y) (sym id_here)
                    (rw (eq→== id id refl) (omega (arith, no_here, at))),
                ap (λ y. loaded_index infos0 y (no_of b (index_at next m))) id_here
                    ∙ ap (loaded_index infos0 id) no_here,
              )
        | inr other ↦
            let e = there m' (ground arith) in
            let (a, before, named) = r.live m' (λ z. ne (e ∙ z)) in
            subst
              (λ y.
                (id_of b y < length infos0)
                × (no_of b y < bump seen id (id_of b y))
                × (loaded_index infos0 (id_of b y) (no_of b y) ≡ m'))
              (sym e) (a, ground (arith, before), named)
      ]

      next-Replaying : Replaying b infos0 n next (bump seen id)
      next-Replaying = record {
        size = o.size ∙ r.size;
        sized = r.sized;
        wide = length-set v.block_indices m (pack_index b id k) ∙ r.wide;
        kept = λ x. (o.shrunk x).indices ∙ r.kept x;
        fewer = λ x. elim (Bool-cases (x == id)) [
          | inl same ↦
              let e = ==→eq x id same in rw (same) (omega (arith, ap seen e, ap (loaded infos0) e))
          | inr other ↦ rw (other) (r.fewer x)
        ];
        possible = λ x. elim (Bool-cases (x == id)) [
          | inl same ↦
              let e = ==→eq x id same in
              rw (same)
                (omega (arith, ap seen e, ap (λ y. (info infos0 y).no_nonobsolete) e, l.all_live))
          | inr other ↦ rw (other) (r.possible x)
        ];
        counted = counted_next;
        used = used_next;
        live = live_next;
      }

    -- What a slot does to the table.
    pub record Slotted (v' : Volume) : Type 0 where
      pub replaying : Replaying b infos0 n v' (bump seen id)
      pub here : index_at v' m ≡ pack_index b id k
      pub there : (m' : ℕ) → m ≢ m' → index_at v' m' ≡ index_at v m'

    pub slot_lem : (v' : Volume) × (replay_slot b v id k m ≡ some v') × Slotted v'
    unfolding replay_slot
    slot_lem =
        let (infos', e, o) =
          byidx-Obsoleted b v.infos (index_at v m)
            (λ ne. (omega (arith, (r.live m ne).0, r.size), some_left m ne)) in
        let apart : not (id == id_of b (index_at v m)) ≡ true =
          let ne = not_itself in differ id (id_of b (index_at v m)) (λ z. ne (sym z)) in
        (
          next infos' o,
          rw (apart) (bind_some _ e),
          record {
            replaying = next-Replaying infos' o;
            here = here infos' o;
            there = there infos' o;
          },
        )
      where
        differ : (x y : ℕ) → x ≢ y → not (x == y) ≡ true
        differ x y ne = ground arith
