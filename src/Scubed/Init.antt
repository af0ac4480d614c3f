-- ===== src/Scubed/Init.antt =====
-- Opening a device: `scubed3_init` replays the macroblocks that were found, `scubed3_reinit` makes
-- room for more mesoblocks.
use scubed.Base.{
  ℕ, zero, suc, ◌+◌, ◌-◌, ◌*◌, ◌^◌, List, [], ◌∷◌, ◌++◌, Option, some, none, not, ◌>>=◌, ◌>>◌,
  assert, leb, ltb, ◌==◌, if◌then◌else◌, get_or, set, replicate, u32,
}
use scubed.Blockio.Info.{info}
use scubed.Juggler.{add_macroblock}
use scubed.Scubed.State.{Base, Volume, mmpm, id_of, never, index_at}
use scubed.Scubed.Output.{obsolete_mesoblk_byidx, pack_index}

module _ (b : Base) where
  -- One round of the loop of `replay`, for the slot `k` of the macroblock `id`.
  unfoldable pub replay_slot : Volume → ℕ → ℕ → ℕ → Option Volume
  replay_slot v id k m = do
    assert (not (id == id_of b (index_at v m)))
    infos ← obsolete_mesoblk_byidx b v.infos (index_at v m)
    some (record v { infos = infos; block_indices = set v.block_indices m (pack_index b id k) })

  unfoldable pub replay_loop : ℕ → Volume → ℕ → ℕ → Option Volume
  replay_loop zero v id k = some v
  replay_loop (suc left) v id k =
      let m = get_or (info v.infos id).indices k 0 in
      let replayed = (do v' ← replay_slot v id k m; replay_loop left v' id (k + 1)) in
      let skipped = replay_loop left v id (k + 1) in
      if not (ltb k (info v.infos id).no_indices)
      then some v
      else if leb v.no_block_indices m
      then skipped
      else replayed

  -- `replay`, which has at most as many rounds as the macroblock has indices
  unfoldable pub replay : Volume → ℕ → Option Volume
  replay v id = replay_loop (info v.infos id).no_indices v id 0

  -- `dllarr_iterate` over the macroblocks to be replayed
  unfoldable pub replay_all : Volume → List ℕ → Option Volume
  replay_all v [] = some v
  replay_all v (id ∷ ids) = do v' ← replay v id; replay_all v' ids

  -- The macroblocks go to the juggler, the last one first.
  unfoldable pub add_all : Volume → List ℕ → Option Volume
  add_all v [] = some v
  add_all v (id ∷ ids) = do
    v' ← add_all v ids
    j ← add_macroblock v'.infos v'.juggler id
    some (record v' { juggler = j })

  -- A table in which no mesoblock was written yet.
  abbrev pub unwritten : Volume → ℕ → Volume
  unwritten v n = record v { no_block_indices = n; block_indices = replicate n never }

  -- `scubed3_init` with the list `replay` of the device
  unfoldable pub scubed3_init : Volume → List ℕ → Option Volume
  scubed3_init v ids =
      let n =
        if leb v.no_macroblocks v.reserved_macroblocks
        then 0
        else u32 ((v.no_macroblocks - v.reserved_macroblocks) * mmpm b) in
      let run = (do v' ← replay_all (unwritten v n) ids; add_all v' ids) in
      if v.no_macroblocks == 0 then some (unwritten v n) else run

  -- `scubed3_reinit`; `none` is the end of the program.
  unfoldable pub scubed3_reinit : Volume → Option Volume
  scubed3_reinit v =
      let n = u32 (u32 (v.no_macroblocks + 2 ^ 32 - v.reserved_macroblocks) * mmpm b) in
      if v.no_block_indices == n
      then some v
      else if ltb n v.no_block_indices
      then none
      else some (record v {
        no_block_indices = n;
        block_indices = v.block_indices ++ replicate (n - v.no_block_indices) never;
      })
