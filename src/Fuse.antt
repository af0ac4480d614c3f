-- ===== src/Fuse.antt =====
-- src/fuse_io.c: the file operations on partitions.
pub mod Known
pub mod Sessions
pub mod Serving
pub mod Served
pub mod Transferred
pub mod Runs
pub mod Tests
use scubed.Base.{
  ℕ, ◌+◌, ◌-◌, List, [], ◌∷◌, Option, some, none, ◌>>=◌, ◌>>◌, assert, ltb, not, ◌||◌, ◌&&◌, Bool,
  true, false, if◌then◌else◌, drop, length,
}
use scubed.Hashtbl.{Element, Hashtbl, same_bytes}
use scubed.Scubed.State.{Base, Cipher, mesoblk_size}
use scubed.Scubed.Transfer
use scubed.Entries.{Entry, Server, put, unlock, delete, volume_at, put_volume, with_entry}

-- The errors `-ENOENT`, `-EBUSY` and `-EACCES`.
pub data Errno : Type 0 where
  enoent ebusy eacces : Errno

-- What an operation returns: 0 or a number of bytes, or an error.
pub data Answer : Type 0 where
  done : ℕ → Answer
  failed : Errno → Answer

-- `struct stat`, as far as it is filled
pub data Stat : Type 0 where
  directory : Stat
  file : (mode size : ℕ) → Stat
  nothing : Errno → Stat

abbrev attributes : Server → Element → Option (Server × Stat)
attributes s e =
    let x = s.entry e.ptr in
    some (unlock s e, file (if not x.readonly then 0o600 else 0o400) x.size)

-- `fuse_io_getattr`
unfoldable pub getattr : Server → List ℕ → Option (Server × Stat)
getattr s path =
    let found = with_entry (nothing enoent) attributes s (drop 1 path) in
    if same_bytes path (b'/' ∷ []) then some (s, directory) else found

-- The locked entry is opened; `writing` says that the flags ask for more than `O_RDONLY`.
abbrev pub open_entry : Bool → Server → Element → Option (Server × Answer)
open_entry writing s e =
    let x = s.entry e.ptr in
    some (
      if ltb 0 x.inuse || x.to_be_deleted
      then (unlock s e, failed ebusy)
      else if x.readonly && writing
      then (unlock s e, failed eacces)
      else (unlock (put s e.ptr (record x { inuse = x.inuse + 1 })) e, done 0))

-- `fuse_io_open`
unfoldable pub open_file : Server → List ℕ → Bool → Option (Server × Answer)
open_file s path writing = with_entry (failed enoent) (open_entry writing) s (drop 1 path)

abbrev pub released : Entry → Entry
released x = record x {
  inuse = x.inuse - 1;
  mountpoint = none;
  to_be_deleted = if x.close_on_release then true else x.to_be_deleted;
}

module _ (b : Base) (c : Cipher (mesoblk_size b)) where
  abbrev pub release_entry : Server → Element → Option (Server × Answer)
  release_entry s e = do
    let x = s.entry e.ptr
    assert (ltb 0 x.inuse)
    let s' = unlock (put s e.ptr (released x)) e
    let deleted = delete b c s' e
    s'' ← (if x.close_on_release then deleted else some s')
    some (s'', done 0)

  -- `fuse_io_release`
  unfoldable pub release : Server → List ℕ → Option (Server × Answer)
  release s path = with_entry (failed enoent) release_entry s (drop 1 path)

module _ (b : Base) (c : Cipher (mesoblk_size b)) (fuel : ℕ) where
  -- `do_req` on the locked entry, and the unlocking behind it; the answer is the size, whatever
  -- `do_req` returns, and the buffer as it is then.
  abbrev pub request :
      Transfer.Io → ℕ → List ℕ → ℕ → Server → Element → Option (Server × (Answer × List ℕ))
  request cmd size buf offset s e = do
    r ← Transfer.do_req b c fuel cmd (volume_at s e.ptr) offset size buf
    some (unlock (put_volume s e.ptr r.0) e, (done size, r.1))

  -- `fuse_io_read` into the buffer
  unfoldable pub read : Server → List ℕ → List ℕ → ℕ → ℕ → Option (Server × (Answer × List ℕ))
  read s path buf size offset =
      with_entry (failed enoent, buf) (request Transfer.read size buf offset) s (drop 1 path)

  abbrev pub write_entry : ℕ → List ℕ → ℕ → Server → Element → Option (Server × (Answer × List ℕ))
  write_entry size buf offset s e = do
    assert (not (s.entry e.ptr).readonly)
    request Transfer.write size buf offset s e

  -- `fuse_io_write` from the buffer
  unfoldable pub write : Server → List ℕ → List ℕ → ℕ → ℕ → Option (Server × (Answer × List ℕ))
  write s path buf size offset =
      with_entry (failed enoent, buf) (write_entry size buf offset) s (drop 1 path)
