-- ===== src/Scubed/Replayed.antt =====
-- `scubed3_init`: after the replay, each mesoblock is where the last macroblock says that has it.
use scubed.Base.{
  ℕ, zero, suc, ◌+◌, ◌≤◌, ◌<◌, ◌≡◌, ◌≢◌, ◌⊎◌, inl, inr, refl, sym, ◌∙◌, ap, subst, List, [], ◌∷◌,
  true, false, All, Option, none, some, arith, length, get_or, ◌==◌, ==→eq, eq→==, Bool-cases,
  if◌then◌else◌, bind_some, ltb, leb, lt→ltb, leb-false, replicate, length-replicate,
  get_or-replicate,
}
use scubed.Blockio.Info.{Infos, info}
use scubed.Juggler.Chain.{occurs}
use scubed.Scubed.State.{Base, Volume, id_of, no_of, never, index_at}
use scubed.Scubed.Output.{pack_index}
use scubed.Scubed.Address.{Geometry}
use scubed.Scubed.Contents.{refs, Placed}
use scubed.Scubed.Init.{unwritten, replay_loop, replay, replay_all}
use scubed.Scubed.Replaying.{
  loaded, loaded_index, Replaying, bump, Loaded, some_left, still_used, slot_lem,
}

-- The first of the slots from `k` on, `left` many, that has the index `m`.
abbrev pub slot_with : List ℕ → ℕ → ℕ → ℕ → Option ℕ
slot_with xs zero k m = none
slot_with xs (suc left) k m = if get_or xs k 0 == m then some k else slot_with xs left (k + 1) m

abbrev pub or_packed : Base → ℕ → ℕ → Option ℕ → ℕ
or_packed b id old none = old
or_packed b id old (some k) = pack_index b id k

-- Where the mesoblock `m` is, by the last one of the macroblocks that has it, and `old` if none has.
abbrev pub latest : Base → Infos → List ℕ → ℕ → ℕ → ℕ
latest b infos0 [] m old = old
latest b infos0 (id ∷ ids) m old =
    latest b infos0 ids m
      (or_packed b id old (slot_with (info infos0 id).indices (loaded infos0 id) 0 m))

seen_ext :
    {b : Base} {infos0 : Infos} {n : ℕ} {v : Volume} {s t : ℕ → ℕ}
    → ((x : ℕ) → s x ≡ t x)
    → Replaying b infos0 n v s
    → Replaying b infos0 n v t
seen_ext {b} {infos0} {n} {v} {s} {t} e r = record {
  size = r.size;
  sized = r.sized;
  wide = r.wide;
  kept = r.kept;
  fewer = λ x. omega (arith, e x, r.fewer x);
  possible = λ x. omega (arith, e x, r.possible x);
  counted = λ x. omega (arith, e x, r.counted x);
  used = r.used;
  live = λ m ne.
      let (a, before, named) = r.live m ne in
      (a, omega (arith, before, e (id_of b (index_at v m))), named);
}

module _ {b : Base} (g : Geometry b) {infos0 : Infos} {n : ℕ} (id : ℕ)
    (l : Loaded b infos0 n id) where
  -- What is left of the loop does to the table.
  record Looped (v v' : Volume) (seen seen' : ℕ → ℕ) (left k : ℕ) : Type 0 where
    pub replaying : Replaying b infos0 n v' seen'
    pub done : seen' id ≡ loaded infos0 id
    pub others : (x : ℕ) → x ≢ id → seen' x ≡ seen x
    pub table :
        (m : ℕ)
        → index_at v' m
          ≡ or_packed b id (index_at v m) (slot_with (info infos0 id).indices left k m)

  -- Behind a slot, its index does not come again.
  no_more :
      (k left j : ℕ)
      → k < j
      → j + left ≡ loaded infos0 id
      → slot_with (info infos0 id).indices left j (loaded_index infos0 id k) ≡ none
  no_more k zero j lt e = refl
  no_more k (suc left) j lt e =
      let other : (loaded_index infos0 id j == loaded_index infos0 id k) ≡ false =
        let once = l.once j k (omega arith) (omega arith) in
        apart _ _
          (λ (z : loaded_index infos0 id j ≡ loaded_index infos0 id k). omega (arith, once z)) in
      rw (other) (no_more k left (j + 1) (omega arith) (omega arith))
    where
      apart : (x y : ℕ) → x ≢ y → (x == y) ≡ false
      apart x y ne = ground arith

  loop_lem :
      (left : ℕ) (v : Volume) (seen : ℕ → ℕ) (k : ℕ)
      → Replaying b infos0 n v seen
      → seen id ≡ k
      → k + left ≡ loaded infos0 id
      → (v' : Volume) × (seen' : ℕ → ℕ) × (replay_loop b left v id k ≡ some v')
        × Looped v v' seen seen' left k
  unfolding replay_loop
  loop_lem zero v seen k r at e = (
    v,
    seen,
    refl,
    record { replaying = r; done = omega arith; others = λ x ne. refl; table = λ m. refl },
  )
  loop_lem (suc left) v seen k r at e =
      let h : k < loaded infos0 id = omega arith in
      let (v1, e1, s) = slot_lem g r id k l h at in
      let (v2, seen2, e2, rest) =
        loop_lem left v1 (bump seen id) (k + 1) s.replaying (rw (eq→== id id refl) (omega arith))
          (omega arith) in
      let m = loaded_index infos0 id k in
      let named : get_or (info v.infos id).indices k 0 ≡ m = ap (λ xs. get_or xs k 0) (r.kept id) in
      let full : (info v.infos id).no_indices ≡ loaded infos0 id =
        still_used g r id (λ z. omega (arith, z, r.counted id, l.all_live)) in
      let more : ltb k (info v.infos id).no_indices ≡ true = lt→ltb _ _ (omega (arith, full)) in
      let inside : leb v.no_block_indices m ≡ false =
        leb-false _ _ (omega (arith, l.inside k h, r.sized)) in
      (
        v2,
        seen2,
        rw (more, named, inside) (bind_some _ e1 ∙ e2),
        record {
          replaying = rest.replaying;
          done = rest.done;
          others = λ x ne. rest.others x ne ∙ unbumped seen x ne;
          table = λ m'. rest.table m' ∙ elim (Bool-cases (m == m')) [
            | inl same ↦
                let is : m ≡ m' = ==→eq m m' same in
                rw (same) (
                  ap (or_packed b id (index_at v1 m')) (
                    ap (slot_with (info infos0 id).indices left (k + 1)) (sym is)
                    ∙ no_more k left (k + 1) (omega arith) (omega arith))
                  ∙ ap (index_at v1) (sym is)
                  ∙ s.here)
            | inr other ↦ rw (other) (
                ap (λ y. or_packed b id y (slot_with (info infos0 id).indices left (k + 1) m'))
                  (s.there m' (ground arith)))
          ];
        },
      )
    where
      unbumped : (seen : ℕ → ℕ) (x : ℕ) → x ≢ id → bump seen id x ≡ seen x
      unbumped seen x ne = elim (Bool-cases (x == id)) [
        | inl same ↦ absurd (ne (==→eq x id same))
        | inr other ↦ rw (other) refl
      ]

  replay_lem :
      (v : Volume) (seen : ℕ → ℕ)
      → Replaying b infos0 n v seen
      → seen id ≡ 0
      → (v' : Volume) × (seen' : ℕ → ℕ) × (replay b v id ≡ some v')
        × Looped v v' seen seen' (loaded infos0 id) 0
  unfolding replay
  replay_lem v seen r at =
      let full : (info v.infos id).no_indices ≡ loaded infos0 id = elim (r.used id) [
        | inl same ↦ same
        | inr gone ↦ omega (arith, gone.0, gone.1, r.counted id, l.all_live)
      ] in
      let (v', seen', e, s) = loop_lem (loaded infos0 id) v seen 0 r at (omega arith) in
      (v', seen', ap (λ left. replay_loop b left v id 0) full ∙ e, s)

-- What the tables are after the replay of `ids`.
pub record Replayed (b : Base) (infos0 : Infos) (v' : Volume) (ids : List ℕ) (n : ℕ) : Type 0 where
  pub sized : v'.no_block_indices ≡ n
  pub wide : length v'.block_indices ≡ n
  pub table : (m : ℕ) → index_at v' m ≡ latest b infos0 ids m never
  pub placed : (m : ℕ) → index_at v' m ≢ never → Placed b v'.infos (index_at v' m) m
  pub counted :
      (id : ℕ) → occurs id ids ≡ 1 → (info v'.infos id).no_nonobsolete ≡ refs b id v'.block_indices
  pub used :
      (id : ℕ)
      → ((info v'.infos id).no_indices ≡ loaded infos0 id)
        ⊎ (((info v'.infos id).no_nonobsolete ≡ 0) × ((info v'.infos id).no_indices ≡ 0))

-- What the macroblocks that are left do.
record Passed (b : Base) (infos0 : Infos) (n : ℕ) (v v' : Volume) (seen seen' : ℕ → ℕ)
    (ids : List ℕ) : Type 0 where
  pub replaying : Replaying b infos0 n v' seen'
  pub done : (id : ℕ) → occurs id ids ≡ 1 → seen' id ≡ loaded infos0 id
  pub others : (id : ℕ) → occurs id ids ≡ 0 → seen' id ≡ seen id
  pub table : (m : ℕ) → index_at v' m ≡ latest b infos0 ids m (index_at v m)

-- What a macroblock adds to the number of times that `x` occurs.
abbrev once_if : ℕ → ℕ → ℕ
once_if id x = if id == x then 1 else 0

once_if_self : (id : ℕ) → once_if id id ≡ 1
once_if_self id = rw (eq→== id id refl) refl

once_if_other : (id x : ℕ) → (id == x) ≡ false → once_if id x ≡ 0
once_if_other id x e = rw (e) refl

All-occurs : (P : ℕ → Type 0) (ids : List ℕ) (id : ℕ) → All P ids → 0 < occurs id ids → P id
All-occurs P [] id ps h = absurd (omega arith)
All-occurs P (x ∷ xs) id ps h = elim (Bool-cases (x == id)) [
  | inl same ↦ subst P (==→eq x id same) ps.0
  | inr other ↦ All-occurs P xs id ps.1 (ground arith)
]

module _ {b : Base} (g : Geometry b) {infos0 : Infos} {n : ℕ} where
  all_lem :
      (ids : List ℕ) (v : Volume) (seen : ℕ → ℕ)
      → Replaying b infos0 n v seen
      → All (Loaded b infos0 n) ids
      → ((id : ℕ) → occurs id ids ≤ 1)
      → ((id : ℕ) → occurs id ids ≡ 1 → seen id ≡ 0)
      → (v' : Volume) × (seen' : ℕ → ℕ) × (replay_all b v ids ≡ some v')
        × Passed b infos0 n v v' seen seen' ids
  unfolding replay_all
  all_lem [] v seen r ls once fresh = (
    v,
    seen,
    refl,
    record {
      replaying = r;
      done = λ id e. absurd (omega arith);
      others = λ id e. refl;
      table = λ m. refl;
    },
  )
  all_lem (id ∷ ids) v seen r ls once fresh =
      let here = once_if_self id in
      let gone : occurs id ids ≡ 0 = omega (arith, once id, here) in
      let first : seen id ≡ 0 = fresh id (omega (arith, here, gone)) in
      let (v1, seen1, e1, s) = replay_lem g id ls.0 v seen r first in
      let (v2, seen2, e2, rest) =
        all_lem ids v1 seen1 s.replaying ls.1 (λ x. omega (arith, once x))
          (λ x e.
            s.others x (λ z. omega (arith, e, gone, ap (λ y. occurs y ids) z))
            ∙ fresh x (omega (arith, e, once x))) in
      (
        v2,
        seen2,
        bind_some _ e1 ∙ e2,
        record {
          replaying = rest.replaying;
          done = λ x e. elim (Bool-cases (id == x)) [
            | inl same ↦
                let is = ==→eq id x same in
                ap seen2 (sym is) ∙ rest.others id gone ∙ s.done ∙ ap (loaded infos0) is
            | inr other ↦ let none = once_if_other id x other in rest.done x (omega (arith, none))
          ];
          others = λ x e.
              rest.others x (omega arith)
              ∙ s.others x (λ z. omega (arith, e, here, ap (once_if id) z));
          table = λ m. rest.table m ∙ ap (latest b infos0 ids m) (s.table m);
        },
      )

-- The replay, over a table in which nothing was written yet, of macroblocks that were loaded from
-- their headers and come once: no assertion fails, the table has each mesoblock where the last of the
-- macroblocks has it, each place of the table is in use and named back, each count is the number of
-- mesoblocks that are there, and a macroblock either keeps its indices or has none left.
pub replay_all_lem :
    {b : Base} (g : Geometry b) (v : Volume) (ids : List ℕ) (n : ℕ)
    → All (Loaded b v.infos n) ids
    → ((id : ℕ) → occurs id ids ≤ 1)
    → (v' : Volume) × (replay_all b (unwritten b v n) ids ≡ some v') × Replayed b v.infos v' ids n
replay_all_lem {b} g v ids n ls once =
    let (v', seen', e, s) =
      all_lem g ids (unwritten b v n) (λ id. 0) nothing ls once (λ id h. refl) in
    let r = s.replaying in
    (
      v',
      e,
      record {
        sized = r.sized;
        wide = r.wide;
        table = λ m. s.table m ∙ ap (latest b v.infos ids m) (get_or-replicate n m never);
        placed = λ m ne.
            let (a, before, named) = r.live m ne in
            let id = id_of b (index_at v' m) in
            record {
              in_array = omega (arith, a, r.size);
              in_use = omega (arith, before, r.fewer id, still_used g r id (some_left g r m ne));
              named = ap (λ xs. get_or xs (no_of b (index_at v' m)) 0) (r.kept id) ∙ named;
            };
        counted = λ id e.
            let l = All-occurs (Loaded b v.infos n) ids id ls (omega arith) in
            omega (arith, r.counted id, s.done id e, l.all_live);
        used = r.used;
      },
    )
  where
    none_live : (id k : ℕ) → refs b id (replicate k never) ≡ 0
    none_live id zero = refl
    none_live id (suc k) = omega (arith, none_live id k)

    nothing : Replaying b v.infos n (unwritten b v n) (λ id. 0)
    nothing = record {
      size = refl;
      sized = refl;
      wide = length-replicate n never;
      kept = λ id. refl;
      fewer = λ id. omega arith;
      possible = λ id. omega arith;
      counted = λ id. omega (arith, none_live id n);
      used = λ id. inl refl;
      live = λ m ne. absurd (ne (get_or-replicate n m never));
    }
