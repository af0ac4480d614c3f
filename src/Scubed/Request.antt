-- ===== src/Scubed/Request.antt =====
-- Reads and writes of the volume.
use scubed.Base.{
  ◌&&◌, ℕ, ◌+◌, ◌-◌, List, [], Option, some, none, true, ◌>>=◌, ◌>>◌, assert, ltb, leb, ◌==◌,
  if◌then◌else◌, length, get_or, set, replicate, take, drop,
}
use scubed.Binio.Memory.{poke}
use scubed.Blockio.Info.{info}
use scubed.Scubed.State.{Base, Cipher, Volume, mmpm, mesoblk_size, id_of, no_of, never, index_at}
use scubed.Scubed.Output.{
  obsolete_mesoblk_byidx, add_blockref, read_mesoblk, select_new_macroblock, initialize_output,
}

-- `mesoblk(l, slot)`
unfoldable pub mesoblk : Base → Volume → ℕ → Option (List ℕ)
mesoblk b v slot = do assert (ltb slot (mmpm b)); some (get_or v.tmp slot [])

module _ (b : Base) (c : Cipher (mesoblk_size b)) where
  -- `blockio_dev_read_mesoblk_part`
  unfoldable pub read_mesoblk_part : Volume → ℕ → ℕ → ℕ → ℕ → Option (List ℕ)
  read_mesoblk_part v id slot offset size = do
    assert (ltb id b.total_macroblocks && ltb slot (mmpm b))
    some (take size (drop offset (read_mesoblk b c v id slot)))

  -- What `do_cow` copies in, by `blockio_dev_fake_mesoblk_part` or from the disk.
  unfoldable pub read_or_fake : Volume → ℕ → ℕ → ℕ → Option (List ℕ)
  read_or_fake v index offset size =
      if index == never
      then some (replicate size 0)
      else read_mesoblk_part v (id_of b index) (no_of b index) offset size

  -- `do_cow` on the mesoblock `addr`
  unfoldable pub do_cow : Volume → ℕ → ℕ → ℕ → List ℕ → Option (List ℕ)
  do_cow v index muoff size addr = do
    let ahead = (do x ← read_or_fake v index 0 muoff; some (poke addr 0 x))
    front ← (if muoff == 0 then some addr else ahead)
    let rest = mesoblk_size b - size - muoff
    let behind = (do
      x ← read_or_fake v index (muoff + size) rest
      some (poke front (muoff + size) x))
    (if ltb (size + muoff) (mesoblk_size b) then behind else some front)

  -- The rest of `do_write` when the mesoblock is in RAM.
  unfoldable pub write_in_ram : Volume → ℕ → ℕ → List ℕ → Option Volume
  write_in_ram v index muoff input = do
    addr ← mesoblk b v (no_of b index)
    some (record v { tmp = set v.tmp (no_of b index) (poke addr muoff input) })

  -- The rest of `do_write` when it is not: a new mesoblock of the current block `cur`.
  unfoldable pub write_from_disk : Volume → ℕ → ℕ → ℕ → ℕ → List ℕ → Option Volume
  write_from_disk v cur index mesoff muoff input = do
    let slot = (info v.infos cur).no_indices
    addr ← mesoblk b v slot
    whole ← do_cow v index muoff (length input) (poke addr muoff input)
    infos ← obsolete_mesoblk_byidx b v.infos index
    some (add_blockref b (record v { tmp = set v.tmp slot whole; infos = infos }) cur mesoff)

  -- `do_write` behind the place where room is made.
  unfoldable pub write_current : Volume → ℕ → ℕ → ℕ → List ℕ → Option Volume
  write_current v index mesoff muoff input = do
    cur ← v.bi
    let in_ram = write_in_ram v index muoff input
    let on_disk = write_from_disk v cur index mesoff muoff input
    (if id_of b index == cur then in_ram else on_disk)

  -- `pthd_mutex_unlock` of `pleasewrite_mutex`, whose lock is commented out: the mutexes check for
  -- errors, and to unlock one that is not held ends the program.
  unfoldable pub unlock_not_held : Volume → Option Volume
  unlock_not_held v = none

  -- Room is made if the mesoblock was not in RAM, by the `index` that was read at first, and the
  -- current block is full. The result has the index that `do_write` goes on with.
  unfoldable pub make_room : ℕ → Volume → ℕ → ℕ → Option (Volume × ℕ)
  make_room fuel v index mesoff = do
    cur ← v.bi
    let selected = (do
      unlocked ← unlock_not_held v
      v' ← select_new_macroblock b c fuel unlocked
      some (v', index_at v' mesoff))
    (if id_of b index == cur
        then some (v, index)
        else if (info v.infos cur).no_indices == mmpm b
        then selected
        else some (v, index_at v mesoff))

  -- `do_write`; the size is the length of `input`.
  unfoldable pub do_write : ℕ → Volume → ℕ → ℕ → List ℕ → Option Volume
  do_write fuel v mesoff muoff input = do
    assert (leb (muoff + length input) (mesoblk_size b))
    ready ← initialize_output b c (record v { updated = true })
    (roomy, index) ← make_room fuel ready (index_at v mesoff) mesoff
    write_current roomy index mesoff muoff input

  -- `do_read`; the result is what is copied to `out`.
  unfoldable pub do_read : Volume → ℕ → ℕ → ℕ → Option (List ℕ)
  do_read v mesoff muoff size = do
    cur ← v.bi
    let index = index_at v mesoff
    let in_ram = (do addr ← mesoblk b v (no_of b index); some (take size (drop muoff addr)))
    (if id_of b index == cur
        then in_ram
        else if index == never
        then some (replicate size 0)
        else read_mesoblk_part v (id_of b index) (no_of b index) muoff size)
