-- ===== src/Fuse/Serving.antt =====
-- One request after the other, from the kernel and over the control socket.
use scubed.Base.{ℕ, ◌≡◌, ◌≢◌, List, Option, some, none, Bool, true, false, if◌then◌else◌, drop}
use scubed.Hashtbl.{Element}
use scubed.Entries.{Server, put, Freed, freer, volume_at}
use scubed.Entries.Locking.{lookup}
use scubed.Fuse
use scubed.Fuse.{
  Answer, done, failed, enoent, released, open_entry, release_entry, write_entry, request,
}
use scubed.Fuse.Sessions.{closed, reading, writing, Modes, assign, Safe}
use scubed.Control.Commands
use scubed.Control.Commands.{
  Outcome, arg, not_found, parse_bool, mark_readonly, mark_close, set_readonly_entry,
  set_close_entry, close_entry,
}
use scubed.Control.Aux
use scubed.Scubed.State.{Base, Cipher, mesoblk_size, Volume}
use scubed.Scubed.Transfer

-- The file operations, and the commands that mark and close partitions.
pub data Request : Type 0 where
  open_file : (path : List ℕ) (for_writing : Bool) → Request
  release : (path : List ℕ) → Request
  read write : (path buf : List ℕ) (size offset : ℕ) → Request
  set_readonly set_close_on_release set_aux close : (argv : List (List ℕ)) → Request

abbrev pub answered : Option (Server × Answer) → Option (Server × Bool)
answered none = none
answered (some (s, done n)) = some (s, true)
answered (some (s, failed e)) = some (s, false)

abbrev pub transferred : Option (Server × (Answer × List ℕ)) → Option (Server × Bool)
transferred none = none
transferred (some (s, r)) = some (s, false)

abbrev pub replied : Outcome → Option (Server × Bool)
replied none = none
replied (some (s, say)) = some (s, false)

abbrev pub opened_at : Modes → Bool → Option Element → Modes
opened_at m for_writing none = m
opened_at m for_writing (some e) = assign m e.ptr (if for_writing then writing else reading)

abbrev pub closed_at : Modes → Option Element → Modes
closed_at m none = m
closed_at m (some e) = assign m e.ptr closed

-- How the partitions are open behind a request; the flag says that it opened one.
abbrev pub modes_after : Server → Modes → Request → Bool → Modes
modes_after s m (open_file path for_writing) opened =
    if opened then opened_at m for_writing (lookup s.entries (drop 1 path)) else m
modes_after s m (release path) opened = closed_at m (lookup s.entries (drop 1 path))
modes_after s m _ opened = m

module _ (b : Base) (c : Cipher (mesoblk_size b)) (fuel : ℕ) where
  abbrev pub serve : Server → Request → Option (Server × Bool)
  serve s (open_file path for_writing) = answered (Fuse.open_file s path for_writing)
  serve s (release path) = answered (Fuse.release b c s path)
  serve s (read path buf size offset) = transferred (Fuse.read b c fuel s path buf size offset)
  serve s (write path buf size offset) = transferred (Fuse.write b c fuel s path buf size offset)
  serve s (set_readonly argv) = replied (Commands.set_readonly s argv)
  serve s (set_close_on_release argv) = replied (Commands.set_close_on_release s argv)
  serve s (set_aux argv) = replied (Aux.set_aux s argv)
  serve s (close argv) = replied (Commands.close b c s argv)

  abbrev pub Transfers : Transfer.Io → Server → Element → List ℕ → ℕ → ℕ → Type 0
  Transfers cmd s e buf size offset =
      (r : Volume × List ℕ × ℕ) × (Transfer.do_req b c fuel cmd (volume_at s e.ptr) offset size buf
        ≡ some r)

  -- The entry at a pointer can be freed: what was not written is written, and the lists take what they
  -- are given.
  abbrev pub Frees : Server → ℕ → Type 0
  Frees s ptr = (p : Freed) × (freer b c s ptr ≡ some p)

  -- What the kernel keeps to: it releases what is open, and writes to what is open for writing. The
  -- transfers are those that `do_req` can do, and an entry that goes can be freed.
  abbrev pub Allowed : Server → Modes → Request → Type 0
  Allowed s m (release path) =
      (e : Element)
      → lookup s.entries (drop 1 path) ≡ some e
      → (m e.ptr ≢ closed)
        × ((s.entry e.ptr).close_on_release ≡ true
            → Frees (put s e.ptr (released (s.entry e.ptr))) e.ptr)
  Allowed s m (close argv) =
      (e : Element)
      → lookup s.entries (arg argv 0) ≡ some e
      → (s.entry e.ptr).inuse ≡ 0
      → Frees (put s e.ptr (record (s.entry e.ptr) { to_be_deleted = true })) e.ptr
  Allowed s m (read path buf size offset) =
      (e : Element)
      → lookup s.entries (drop 1 path) ≡ some e
      → Transfers Transfer.read s e buf size offset
  Allowed s m (write path buf size offset) =
      (e : Element)
      → lookup s.entries (drop 1 path) ≡ some e
      → (m e.ptr ≡ writing) × Transfers Transfer.write s e buf size offset
  Allowed s m _ = Unit

  -- A request is served, and leaves a safe server.
  abbrev pub Served : Server → Modes → Request → Type 0
  Served s m r =
      (s' : Server) × (flag : Bool) × (serve s r ≡ some (s', flag))
      × Safe s' (modes_after s m r flag)
