-- ===== src/Scubed/Reselect.antt =====
-- The juggler may pick the macroblock again that was just written: its next time may be the next one.
-- `blockio_dev_write_current_macroblock` has encrypted the buffer in place, and nothing decrypts it.
use scubed.Base.{
  ℕ, ◌+◌, ◌<◌, ◌≡◌, false, refl, ◌∙◌, ap, subst, some, ◌==◌, eq→==, true, bind_some, lt→ltb, ltb,
}
use scubed.Blockio.Info.{info}
use scubed.Juggler.{Picked, get_devblock}
use scubed.Binio.Part.{part}
use scubed.Scubed.State.{Base, Cipher, Volume, mesoblk_size, id_of, no_of, index_at}
use scubed.Scubed.Output.{write_and_select}
use scubed.Scubed.Request.{do_read}
use scubed.Scubed.Address.{Geometry}
use scubed.Scubed.Contents.{content, Consistent}
use scubed.Scubed.Read.{mesoblk_lem, slot-lt, here-live}
use scubed.Scubed.WriteOut.{
  written_out, selected, infos1, slot_sealed, write_current_macroblock_lem,
  select_next_macroblock_lem,
}

-- If it does, a mesoblock of the macroblock reads as its ciphertext from then on.
pub reselected_lem :
    {b : Base} (g : Geometry b) (c : Cipher (mesoblk_size b)) {v : Volume} {cur : ℕ} {p : Picked}
    → (k : Consistent b v cur) → (m muoff size : ℕ)
    → get_devblock (infos1 c k) v.juggler v.stream false ≡ some p
    → p.block ≡ some cur
    → id_of b (index_at v m) ≡ cur
    → (v' : Volume) × (write_and_select b c v ≡ some v')
      × (do_read b c v' m muoff size
          ≡ some (
              part
                (c.enc
                  (info v.infos cur).seqno
                  (no_of b (index_at v m) + 1)
                  cur
                  (content b c v cur m))
                muoff
                size))
unfolding write_and_select do_read
reselected_lem {b} g c {v} {cur} {p} k m muoff size e block here =
    let i = no_of b (index_at v m) in
    let live = here-live g c k m here in
    let hi = slot-lt g c k m live in
    let v' = selected b c (written_out b c v cur) p cur in
    let test : (id_of b (index_at v m) == cur) ≡ true = eq→== _ _ here in
    let used : ltb i (info v.infos cur).no_indices ≡ true =
      lt→ltb _ _ (subst (λ id. i < (info v.infos id).no_indices) here (k.placed m live).in_use) in
    (
      v',
      bind_some _ (write_current_macroblock_lem b c k)
          ∙ select_next_macroblock_lem b c (written_out b c v cur) refl e block,
      rw test (
          bind_some _ (mesoblk_lem b v' i hi)
          ∙ ap (λ x. some (part x muoff size)) (slot_sealed c k i hi ∙ rw used refl)),
    )
