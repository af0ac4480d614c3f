-- ===== src/Scubed/Output.antt =====
-- Filling, writing out and selecting macroblocks. `none` is a failed assertion, a NULL pointer, or
-- the end of the random words.
use scubed.Base.{
  ℕ, zero, suc, ◌+◌, ◌-◌, List, [], ◌∷◌, Option, some, none, Bool, true, false, not, ◌&&◌, ◌>>=◌,
  ◌>>◌, assert, ltb, ◌==◌, if◌then◌else◌, get_or, set, replicate, take, u32, ◌<<<◌,
}
use scubed.Bitmap.{getbits}
use scubed.Blockio.Info.{Infos, info}
use scubed.Juggler.{get_devblock, get_obsoleted, hash_scheduled_seqnos}
use scubed.Scubed.State.{
  Base, Cipher, IndexBlock, Volume, mesobits, mmpm, mesoblk_size, id_of, never, index_at, update,
}

-- `obsolete_mesoblk`; `no` is not used.
unfoldable pub obsolete_mesoblk : Infos → ℕ → Option Infos
obsolete_mesoblk infos id = do
  let x = info infos id
  assert (not (x.no_nonobsolete == 0))
  let left = x.no_nonobsolete - 1
  some (
      update infos id
        (record x { no_nonobsolete = left; no_indices = if left == 0 then 0 else x.no_indices }))

unfoldable pub obsolete_mesoblk_byidx : Base → Infos → ℕ → Option Infos
obsolete_mesoblk_byidx b infos index =
    if index == never then some infos else obsolete_mesoblk infos (id_of b index)

-- The value that `update_block_indices` stores.
unfoldable pub pack_index : Base → ℕ → ℕ → ℕ
pack_index b id slot = u32 ((id <<< mesobits b) + slot)

-- `add_blockref` for the current block `cur`.
unfoldable pub add_blockref : Base → Volume → ℕ → ℕ → Volume
add_blockref b v cur offset =
    let x = info v.infos cur in
    record v {
      block_indices = set v.block_indices offset (pack_index b cur x.no_indices);
      infos =
          update v.infos cur (record x {
            indices = set x.indices x.no_indices offset;
            no_indices = x.no_indices + 1;
          });
    }

module _ (b : Base) (c : Cipher (mesoblk_size b)) where
  -- `blockio_dev_read_mesoblk`
  unfoldable pub read_mesoblk : Volume → ℕ → ℕ → List ℕ
  read_mesoblk v id slot = c.dec (info v.infos id).seqno (slot + 1) id (v.disk id slot)

  -- One round of `copy_old_block_to_current` for mesoblock `k` of `old`, at the logical mesoblock
  -- `offset`: its data goes to the current block.
  unfoldable pub copy_mesoblk : Volume → ℕ → ℕ → ℕ → ℕ → Option Volume
  copy_mesoblk v cur old k offset = do
    let slot = (info v.infos cur).no_indices
    assert (ltb slot (mmpm b))
    let v1 = record v { tmp = set v.tmp slot (read_mesoblk v old k) }
    let v2 = add_blockref b v1 cur offset
    infos ← obsolete_mesoblk v2.infos old
    some (record v2 { infos = infos })

  -- The mesoblock `k` of `old` is still what the volume holds at its logical place.
  unfoldable pub still_live : Volume → ℕ → ℕ → Bool
  still_live v old offset =
      ltb offset v.no_block_indices
      && not (index_at v offset == never)
      && id_of b (index_at v offset) == old

  -- The loop of `copy_old_block_to_current` from `k` on; its bound is read anew in each round.
  unfoldable pub copy_loop : ℕ → Volume → ℕ → ℕ → ℕ → Option Volume
  copy_loop zero v cur old k = some v
  copy_loop (suc left) v cur old k =
      let offset = get_or (info v.infos old).indices k 0 in
      let copied = (do v' ← copy_mesoblk v cur old k offset; copy_loop left v' cur old (k + 1)) in
      let skipped = copy_loop left v cur old (k + 1) in
      if not (ltb k (info v.infos old).no_indices)
      then some v
      else if still_live v old offset
      then copied
      else skipped

  unfoldable pub copy_from : Volume → ℕ → Option ℕ → Option Volume
  copy_from v cur none = some v
  copy_from v cur (some old) = do
    status ← getbits v.status old 1
    (if status == 1 then copy_loop (info v.infos old).no_indices v cur old 0 else some v)

  -- `copy_old_block_to_current`. The loop has at most as many rounds as the block has indices.
  unfoldable pub copy_old_block_to_current : Volume → Option Volume
  copy_old_block_to_current v = do cur ← v.bi; copy_from v cur v.tail_macroblock

  -- The data mesoblocks as they are encrypted and written, from mesoblock `slot` on: those behind the
  -- last index are zeroed first.
  unfoldable pub seal : ℕ → ℕ → ℕ → ℕ → List (List ℕ) → List (List ℕ)
  seal seqno id used slot [] = []
  seal seqno id used slot (x ∷ xs) =
      c.enc seqno (slot + 1) id (if ltb slot used then x else replicate (mesoblk_size b) 0)
      ∷ seal seqno id used (slot + 1) xs

  -- The contents of the index block of the current block `cur`.
  abbrev pub index_block : Volume → ℕ → IndexBlock
  index_block v cur =
      let x = info v.infos cur in
      record {
        seqnos = hash_scheduled_seqnos v.infos v.juggler;
        seqno = x.seqno;
        next_seqno = x.next_seqno;
        no_macroblocks = v.no_macroblocks;
        reserved_macroblocks = v.reserved_macroblocks;
        indices = take x.no_indices x.indices;
        status = v.status;
      }

  -- `blockio_dev_write_current_macroblock`. The buffer is encrypted in place.
  unfoldable pub write_current_macroblock : Volume → Option Volume
  write_current_macroblock v = do
    cur ← v.bi
    assert (ltb cur b.total_macroblocks)
    let x = info v.infos cur
    let sealed = seal x.seqno cur x.no_indices 0 v.tmp
    some (record v {
      writes = u32 (v.writes + 1);
      tmp = sealed;
      infos = update v.infos cur (record x { no_nonobsolete = x.no_indices });
      index_blocks = λ id. if id == cur then some (index_block v cur) else v.index_blocks id;
      disk = λ id slot. if id == cur then get_or sealed slot [] else v.disk id slot;
      bi = none;
    })

abbrev pub none_yet : Option ℕ → Bool
none_yet none = true
none_yet (some _) = false

-- `blockio_dev_select_next_macroblock`
unfoldable pub select_next_macroblock : Volume → Option Volume
select_next_macroblock v = do
  assert (none_yet v.bi)
  p ← get_devblock v.infos v.juggler v.stream false
  n ← p.block
  some (record v {
    updated = false;
    infos = p.infos;
    juggler = p.juggler;
    stream = p.stream;
    bi = some n;
    tail_macroblock = get_obsoleted p.infos p.juggler;
  })

module _ (b : Base) (c : Cipher (mesoblk_size b)) where
  -- `blockio_dev_write_current_and_select_next_macroblock`
  unfoldable pub write_and_select : Volume → Option Volume
  write_and_select v = do v' ← write_current_macroblock b c v; select_next_macroblock v'

  -- `select_new_macroblock`: until the block that comes up has room, for at most `fuel` rounds.
  unfoldable pub select_new_macroblock : ℕ → Volume → Option Volume
  select_new_macroblock zero v = none
  select_new_macroblock (suc fuel) v = do
    assert v.output_initialized
    selected ← write_and_select v
    copied ← copy_old_block_to_current b c selected
    cur ← copied.bi
    let again = select_new_macroblock fuel copied
    (if (info copied.infos cur).no_indices == mmpm b then again else some copied)

  unfoldable pub initialize_output : Volume → Option Volume
  initialize_output v =
      if v.output_initialized
      then some v
      else (do v' ← copy_old_block_to_current b c v; some (record v' { output_initialized = true }))

  -- `scubed3_cycle`
  unfoldable pub cycle : Volume → Option Volume
  cycle v = do
    ready ← (if v.output_initialized then some v else copy_old_block_to_current b c v)
    v' ← write_and_select ready
    some (record v' { output_initialized = false })
