-- ===== src/Entries.antt =====
-- src/fuse_io.h: the open partitions, which src/fuse_io.c and src/control.c share.
--
-- `entry` says what stands at the pointer of an element. The array of macroblocks and the base
-- device are one for all partitions: a request takes them from the server and puts them back.
pub mod Locking
pub mod Freeing
use scubed.Base.{
  ◌+◌, [], ◌∷◌, Bool, true, false, ℕ, List, Option, some, none, ◌>>=◌, ◌==◌, if◌then◌else◌,
}
use scubed.Hashtbl.{
  Hashtbl, Element, find_element_bykey, unlock_element_byptr, delete_element_byptr,
}
use scubed.Blockio.Info.{Infos}
use scubed.Dllarr.{Dllarr, append}
use scubed.Juggler.{free_and_empty_into}
use scubed.Scubed.State.{Base, Cipher, mesoblk_size, Volume, IndexBlock}
use scubed.Scubed.Output.{write_current_macroblock}

-- `fuse_io_entry_t`; its key is in the table. The device, its cipher and `scubed3_t` are `volume`.
pub record Entry : Type 0 where
  pub size : ℕ
  pub inuse : ℕ
  pub readonly : Bool
  pub to_be_deleted : Bool
  pub close_on_release : Bool
  pub mountpoint : Option (List ℕ)
  pub volume : Volume
  -- the place in the table of identifiers, if there is one
  pub unique_id : Option Element

pub record Server : Type 0 where
  pub entries : Hashtbl
  pub entry : ℕ → Entry
  pub infos : Infos
  pub index_blocks : ℕ → Option IndexBlock
  pub disk : ℕ → ℕ → List ℕ
  -- the macroblocks that no device has, and the identifiers of ciphers and keys
  pub unallocated : Dllarr
  pub ids : Hashtbl

-- The entry at a pointer is assigned.
abbrev pub put : Server → ℕ → Entry → Server
put s ptr x = record s { entry = λ p. if p == ptr then x else s.entry p }

-- `hashtbl_unlock_element_byptr(entry)`
abbrev pub unlock : Server → Element → Server
unlock s e = record s { entries = unlock_element_byptr s.entries e.ptr }

-- The volume of a partition, on the base device as it is now, and back.
abbrev pub volume_at : Server → ℕ → Volume
volume_at s ptr = record (s.entry ptr).volume {
  infos = s.infos;
  index_blocks = s.index_blocks;
  disk = s.disk;
}

abbrev pub put_volume : Server → ℕ → Volume → Server
put_volume s ptr v = record (put s ptr (record (s.entry ptr) { volume = v })) {
  infos = v.infos;
  index_blocks = v.index_blocks;
  disk = v.disk;
}

-- The pointer of a macroblock in a list, apart from NULL, the head and the tail.
abbrev pub address : ℕ → ℕ
address id = id + 3

-- The macroblocks of a device, which is known by the pointer of its entry, belong to none.
abbrev pub disowned : ℕ → Infos → Infos
disowned ptr [] = []
disowned ptr (x ∷ xs) =
    (if owns ptr x.dev then record x { indices = []; dev = none } else x) ∷ disowned ptr xs
  where
    owns : ℕ → Option ℕ → Bool
    owns ptr none = false
    owns ptr (some dev) = dev == ptr

unfoldable pub append_all : Dllarr → List ℕ → Option Dllarr
append_all a [] = some a
append_all a (id ∷ ids) = do (a', new) ← append a (address id); append_all a' ids

abbrev pub without_id : Hashtbl → Option Element → Option Hashtbl
without_id ids none = some ids
without_id ids (some e) = delete_element_byptr ids e

-- What the freer of an entry leaves of the state that the partitions share.
pub record Freed : Type 0 where
  pub infos : Infos
  pub index_blocks : ℕ → Option IndexBlock
  pub disk : ℕ → ℕ → List ℕ
  pub unallocated : Dllarr
  pub ids : Hashtbl

abbrev pub put_freed : Server → Freed → Server
put_freed s p = record s {
  infos = p.infos;
  index_blocks = p.index_blocks;
  disk = p.disk;
  unallocated = p.unallocated;
  ids = p.ids;
}

module _ (b : Base) (c : Cipher (mesoblk_size b)) where
  -- `freer`: `blockio_dev_free` writes what was not written, gives the macroblocks back, of which none
  -- is left in `replay` once the device was opened, and then the identifier goes.
  unfoldable pub freer : Server → ℕ → Option Freed
  freer s ptr = do
    let v0 = volume_at s ptr
    let written = write_current_macroblock b c v0
    v ← (if v0.updated then written else some v0)
    unallocated ← append_all s.unallocated (free_and_empty_into v.juggler)
    ids ← without_id s.ids (s.entry ptr).unique_id
    some (record {
      infos = disowned ptr v.infos;
      index_blocks = v.index_blocks;
      disk = v.disk;
      unallocated = unallocated;
      ids = ids;
    })

  -- `hashtbl_delete_element_byptr(h, entry)`; the freer is called if the element was there, which the
  -- count tells.
  unfoldable pub delete : Server → Element → Option Server
  delete s e = do
    h ← delete_element_byptr s.entries e
    let freed = (do p ← freer s e.ptr; some (put_freed (record s { entries = h }) p))
    (if h.count == s.entries.count then some (record s { entries = h }) else freed)

module _ {A : Type 0} where
  abbrev pub on_found :
      A
      → (Server → Element → Option (Server × A))
      → Server
      → Hashtbl × Option Element
      → Option (Server × A)
  on_found missing act s (h, none) = some (record s { entries = h }, missing)
  on_found missing act s (h, some e) = act (record s { entries = h }) e

  -- `hashtbl_find_element_bykey`, and what is done with the locked entry or if there is none.
  unfoldable pub with_entry :
      A → (Server → Element → Option (Server × A)) → Server → List ℕ → Option (Server × A)
  with_entry missing act s name = do r ← find_element_bykey s.entries name; on_found missing act s r
