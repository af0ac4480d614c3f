-- ===== src/Scubed/Write.antt =====
-- A write into the current macroblock, against what the volume holds.
use scubed.Base.{
  ℕ, ◌+◌, ◌≤◌, ◌<◌, ◌≡◌, ◌≢◌, inl, inr, refl, sym, ◌∙◌, ap, ap₂, subst, List, [], some, arith,
  length, get_or, set, ◌==◌, ==→eq, eq→==, Bool-cases, false, get_or-set_self, get_or-set_ne,
  length-set,
}
use scubed.Binio.Memory.{poke, length-poke}
use scubed.Blockio.Info.{Infos, info, blank}
use scubed.Scubed.State.{Base, Cipher, Volume, mmpm, mesoblk_size, id_of, no_of, never, index_at}
use scubed.Scubed.Output.{read_mesoblk, obsolete_mesoblk_byidx, add_blockref, pack_index}
use scubed.Scubed.Request.{mesoblk, do_cow, write_in_ram, write_from_disk}
use scubed.Scubed.Address.{Geometry}
use scubed.Scubed.Contents.{content, leads, leads_live, leads-le, Consistent}
use scubed.Scubed.Obsolete.{Shrunk, Obsoleted, Counted, byidx-Obsoleted}
use scubed.Scubed.Reference.{Moved}
use scubed.Scubed.Read.{stored, do_cow_lem, length-stored, reach, here-live, slot-lt, mesoblk_lem}

-- A reference of the current macroblock to `m`, whose old address is `index`, after that has become
-- obsolete.
pub referred-Moved :
    {b : Base} (v : Volume) (cur m : ℕ) (bytes : List ℕ) {infos' : Infos}
    → cur < length v.infos
    → id_of b (index_at v m) ≢ cur
    → Obsoleted b v.infos infos' (index_at v m)
    → Moved b v
        (add_blockref b
          (record v { tmp = set v.tmp (info v.infos cur).no_indices bytes; infos = infos' })
          cur
          m)
        cur
        m
        bytes
unfolding add_blockref
referred-Moved {b} v cur m bytes {infos'} h away o =
    let same = o.untouched cur away in
    let x = info infos' cur in
    let y = record x { indices = set x.indices x.no_indices m; no_indices = x.no_indices + 1 } in
    let here = get_or-set_self infos' cur y blank (omega (arith, o.size)) in
    record {
      current = refl;
      no_block_indices = refl;
      disk = refl;
      tmp = refl;
      block_indices = ap (λ z. set v.block_indices m (pack_index b cur z.no_indices)) same;
      infos = length-set infos' cur y ∙ o.size;
      used = ap (λ z. z.no_indices) here ∙ ap (λ z. z.no_indices + 1) same;
      indices = ap (λ z. z.indices) here ∙ ap (λ z. set z.indices z.no_indices m) same;
      others = λ id ne.
          subst (λ z. Shrunk (info v.infos id) z (leads b id (index_at v m)))
            (sym (get_or-set_ne infos' cur id y blank (λ e. ne (sym e)))) (o.shrunk id);
    }

write_from_disk_step :
    (b : Base) (c : Cipher (mesoblk_size b)) (v : Volume) (cur index m muoff : ℕ) (input : List ℕ)
    {addr whole : List ℕ} {infos' : Infos}
    → mesoblk b v (info v.infos cur).no_indices ≡ some addr
    → do_cow b c v index muoff (length input) (poke addr muoff input) ≡ some whole
    → obsolete_mesoblk_byidx b v.infos index ≡ some infos'
    → write_from_disk b c v cur index m muoff input
      ≡ some (
          add_blockref b
            (record v { tmp = set v.tmp (info v.infos cur).no_indices whole; infos = infos' })
            cur
            m)
unfolding write_from_disk
write_from_disk_step b c v cur index m muoff input e1 e2 e3 = rw (e1, e2, e3) refl

module _ {b : Base} (g : Geometry b) (c : Cipher (mesoblk_size b)) {v : Volume} {cur : ℕ}
    (k : Consistent b v cur) (m : ℕ) (hm : m < v.no_block_indices) where
  -- A live mesoblock in another macroblock is one of those that it counts.
  pub live-Counted :
      id_of b (index_at v m) ≢ cur → index_at v m ≢ never → Counted b v.infos (index_at v m)
  live-Counted away live =
      let p = k.placed m live in
      (
        p.in_array,
        λ nil. absurd (
            omega (
              arith,
              nil,
              k.counted (id_of b (index_at v m)) p.in_array away,
              leads_live b (index_at v m) live,
              leads-le b (id_of b (index_at v m)) v.block_indices m,
            )),
      )

  pub content_on_disk :
      id_of b (index_at v m) ≢ cur → content b c v cur m ≡ stored b c v (index_at v m)
  content_on_disk away =
      let there : (id_of b (index_at v m) == cur) ≡ false = ground arith in rw there refl

  pub write_from_disk-Moved :
      (muoff : ℕ) (input : List ℕ)
      → muoff + length input ≤ mesoblk_size b
      → (info v.infos cur).no_indices < mmpm b
      → id_of b (index_at v m) ≢ cur
      → (v' : Volume) × (write_from_disk b c v cur (index_at v m) m muoff input ≡ some v')
        × Moved b v v' cur m (poke (content b c v cur m) muoff input)
  unfolding write_from_disk
  write_from_disk-Moved muoff input fits hs away =
      let slot = (info v.infos cur).no_indices in
      let (infos', e, o) = byidx-Obsoleted b v.infos (index_at v m) (live-Counted away) in
      let whole =
        do_cow_lem b c v (index_at v m) (reach g c k m) (get_or v.tmp slot []) input muoff
          (k.in_ram slot hs) (length-stored g c k m) fits
        ∙ ap (λ old. some (poke old muoff input)) (sym (content_on_disk away)) in
      (
        add_blockref b
            (record v {
              tmp = set v.tmp slot (poke (content b c v cur m) muoff input);
              infos = infos';
            })
            cur m,
        write_from_disk_step b c v cur (index_at v m) m muoff input (mesoblk_lem b v slot hs) whole
            e,
        referred-Moved v cur m (poke (content b c v cur m) muoff input) k.in_array away o,
      )

  -- In RAM the mesoblock is written in place.
  abbrev pub in_place : ℕ → List ℕ → Volume
  in_place muoff input = record v {
    tmp =
        set v.tmp (no_of b (index_at v m))
          (poke (get_or v.tmp (no_of b (index_at v m)) []) muoff input);
  }

  pub write_in_ram_lem :
      (muoff : ℕ) (input : List ℕ)
      → id_of b (index_at v m) ≡ cur
      → write_in_ram b c v (index_at v m) muoff input ≡ some (in_place muoff input)
  unfolding write_in_ram
  write_in_ram_lem muoff input here =
      rw (mesoblk_lem b v _ (slot-lt g c k m (here-live g c k m here))) refl

  -- Two slots of the current macroblock belong to two mesoblocks.
  apart_in_ram :
      (m' : ℕ)
      → m ≢ m'
      → id_of b (index_at v m) ≡ cur
      → id_of b (index_at v m') ≡ cur
      → no_of b (index_at v m) ≢ no_of b (index_at v m')
  apart_in_ram m' ne here here' same =
      let p = k.placed m (here-live g c k m here) in
      let p' = k.placed m' (here-live g c k m' here') in
      ne (
        sym p.named
        ∙ ap₂ (λ id i. get_or (info v.infos id).indices i 0) (here ∙ sym here') same
        ∙ p'.named)

  pub in_place-Consistent :
      (muoff : ℕ) (input : List ℕ)
      → id_of b (index_at v m) ≡ cur
      → Consistent b (in_place muoff input) cur
  in_place-Consistent muoff input here =
      let i = no_of b (index_at v m) in
      let hi = slot-lt g c k m (here-live g c k m here) in
      let x = poke (get_or v.tmp i []) muoff input in
      record {
        current = k.current;
        in_array = k.in_array;
        all_blocks = k.all_blocks;
        addresses = k.addresses;
        sized = k.sized;
        buffer = length-set v.tmp i x ∙ k.buffer;
        in_ram = λ j hj. elim (Bool-cases (i == j)) [
          | inl same ↦
              ap (λ n. length (get_or (set v.tmp i x) n [])) (sym (==→eq i j same))
              ∙ ap length (get_or-set_self v.tmp i x [] (omega (arith, k.buffer)))
              ∙ length-poke (get_or v.tmp i []) muoff input
              ∙ k.in_ram i hi
          | inr apart ↦ ap length (get_or-set_ne v.tmp i j x [] (ground arith)) ∙ k.in_ram j hj
        ];
        on_disk = k.on_disk;
        room = k.room;
        full = k.full;
        placed = k.placed;
        counted = k.counted;
        filled = k.filled;
        owned = k.owned;
        unique = k.unique;
      }

  pub content-in_place :
      (muoff : ℕ) (input : List ℕ)
      → id_of b (index_at v m) ≡ cur
      → content b c (in_place muoff input) cur m ≡ poke (content b c v cur m) muoff input
  content-in_place muoff input here = rw (eq→== _ _ here) (
      get_or-set_self v.tmp (no_of b (index_at v m)) _ []
        (omega (arith, k.buffer, slot-lt g c k m (here-live g c k m here))))

  pub content_beside :
      (muoff : ℕ) (input : List ℕ) (m' : ℕ)
      → m ≢ m'
      → id_of b (index_at v m) ≡ cur
      → content b c (in_place muoff input) cur m' ≡ content b c v cur m'
  unfolding read_mesoblk
  content_beside muoff input m' ne here = elim (Bool-cases (id_of b (index_at v m') == cur)) [
    | inl here' ↦ rw here' (
        get_or-set_ne v.tmp (no_of b (index_at v m)) (no_of b (index_at v m')) _ []
          (apart_in_ram m' ne here (==→eq _ _ here')))
    | inr there ↦ rw there refl
  ]
