-- ===== src/Scubed/Copy.antt =====
-- `copy_old_block_to_current`: the macroblock that is about to be reused loses its mesoblocks to the
-- current one, and the volume keeps its contents.
use scubed.Base.{
  ℕ, ◌+◌, ◌<◌, ◌≡◌, ◌≢◌, refl, sym, ◌∙◌, ap, ap₂, subst, List, some, arith, length, set, ◌==◌,
  lt→ltb, false, get_or-set_self, get_or-set_ne, length-set,
}
use scubed.Blockio.Info.{Infos, info, blank}
use scubed.Scubed.State.{Base, Cipher, Volume, mmpm, mesoblk_size, id_of, no_of, never, index_at}
use scubed.Scubed.Output.{read_mesoblk, add_blockref, obsolete_mesoblk, copy_mesoblk}
use scubed.Scubed.Address.{Geometry}
use scubed.Scubed.Contents.{content, leads, Consistent}
use scubed.Scubed.Obsolete.{Shrunk, Obsoleted, obsolete-Obsoleted}
use scubed.Scubed.Reference.{Moved}
use scubed.Scubed.Write.{live-Counted, content_on_disk}

-- The new reference is added first, and the old one becomes obsolete after it.
module _ (b : Base) (v : Volume) (cur m : ℕ) (bytes : List ℕ) (h : cur < length v.infos)
    (away : id_of b (index_at v m) ≢ cur) where
  abbrev referring : Volume
  referring =
      add_blockref b (record v { tmp = set v.tmp (info v.infos cur).no_indices bytes }) cur m

  info_elsewhere : (id : ℕ) → id ≢ cur → info referring.infos id ≡ info v.infos id
  unfolding add_blockref
  info_elsewhere id ne = get_or-set_ne v.infos cur id _ blank (λ e. ne (sym e))

  length-referring : length referring.infos ≡ length v.infos
  unfolding add_blockref
  length-referring = length-set v.infos cur _

  referring-Moved :
      {infos' : Infos}
      → Obsoleted b referring.infos infos' (index_at v m)
      → Moved b v (record referring { infos = infos' }) cur m bytes
  unfolding add_blockref
  referring-Moved {infos'} o =
      let x = info v.infos cur in
      let y = record x { indices = set x.indices x.no_indices m; no_indices = x.no_indices + 1 } in
      let here = o.untouched cur away ∙ get_or-set_self v.infos cur y blank h in
      record {
        current = refl;
        no_block_indices = refl;
        disk = refl;
        tmp = refl;
        block_indices = refl;
        infos = o.size ∙ length-set v.infos cur y;
        used = ap (λ z. z.no_indices) here;
        indices = ap (λ z. z.indices) here;
        others = λ id ne.
            subst (λ z. Shrunk z (info infos' id) (leads b id (index_at v m)))
              (info_elsewhere id ne) (o.shrunk id);
      }

copy_mesoblk_step :
    (b : Base) (c : Cipher (mesoblk_size b)) (v : Volume) (cur old k m : ℕ) {bytes : List ℕ}
    {infos' : Infos}
    → (info v.infos cur).no_indices < mmpm b
    → read_mesoblk b c v old k ≡ bytes
    → obsolete_mesoblk
        (add_blockref b
          (record v { tmp = set v.tmp (info v.infos cur).no_indices bytes })
          cur
          m).infos
        old
      ≡ some infos'
    → copy_mesoblk b c v cur old k m
      ≡ some
          (record (add_blockref b
            (record v { tmp = set v.tmp (info v.infos cur).no_indices bytes })
            cur
            m) { infos = infos' })
unfolding copy_mesoblk
copy_mesoblk_step b c v cur old k m h e1 e2 = rw (lt→ltb _ _ h, e1, e2) refl

-- A live mesoblock `m` at slot `i` of `old` moves to the current macroblock as it is.
pub copy_mesoblk-Moved :
    {b : Base} (g : Geometry b) (c : Cipher (mesoblk_size b)) {v : Volume} {cur : ℕ}
    → Consistent b v cur
    → (old i m : ℕ) → m < v.no_block_indices
    → (info v.infos cur).no_indices < mmpm b
    → old ≢ cur
    → index_at v m ≢ never
    → id_of b (index_at v m) ≡ old
    → no_of b (index_at v m) ≡ i
    → (v' : Volume) × (copy_mesoblk b c v cur old i m ≡ some v')
      × Moved b v v' cur m (content b c v cur m)
copy_mesoblk-Moved {b} g c {v} {cur} k old i m hm hs ne live at_old at_i =
    let away : id_of b (index_at v m) ≢ cur = λ e. ne (sym at_old ∙ e) in
    let bytes = content b c v cur m in
    let r = referring b v cur m bytes k.in_array away in
    let counted = live-Counted g c k m hm away live in
    let far = info_elsewhere b v cur m bytes k.in_array away (id_of b (index_at v m)) away in
    let (infos', e, o) = obsolete-Obsoleted b r.infos (index_at v m) live (
      subst (λ n. id_of b (index_at v m) < n)
          (sym (length-referring b v cur m bytes k.in_array away)) counted.0,
      λ nil. counted.1 (ap (λ x. x.no_nonobsolete) (sym far) ∙ nil),
    ) in
    let unused : (index_at v m == never) ≡ false = ground arith in
    let source : read_mesoblk b c v old i ≡ bytes =
      ap₂ (read_mesoblk b c v) (sym at_old) (sym at_i)
      ∙ sym (content_on_disk g c k m hm away ∙ rw unused refl) in
    (
      record r { infos = infos' },
      copy_mesoblk_step b c v cur old i m hs source
          (ap (obsolete_mesoblk r.infos) (sym at_old) ∙ e),
      referring-Moved b v cur m bytes k.in_array away o,
    )
